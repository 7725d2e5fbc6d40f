-- ===== src/Base/Sort.antt =====
-- Go's `sort.Slice` and `sort.SliceStable` by a comparison `less`. Where two different items compare
-- equal the order that `sort.Slice` leaves is open; this is the stable one.
use Prim.Native.String.{String}
use mathlib.Core.Bool.{Bool}
use mathlib.Core.Logic.{inl, inr}
use mathlib.Core.List.{List, [], ◌∷◌}
use gezerah.Base.Tests.{if◌then◌else◌, Bool-cases}
use gezerah.Base.Lists.{All}
use gezerah.Base.Text.{text_ltb}

module _ {ℓ} {A : Type ℓ} (less : A → A → Bool) where
  -- `x` goes behind the items that are not above it.
  unfoldable pub insert_sorted : A → List A → List A
  insert_sorted x [] = x ∷ []
  insert_sorted x (y ∷ ys) = if less x y then x ∷ y ∷ ys else y ∷ insert_sorted x ys

  sort_onto : List A → List A → List A
  sort_onto acc [] = acc
  sort_onto acc (x ∷ xs) = sort_onto (insert_sorted x acc) xs

  unfoldable pub sort : List A → List A
  unfolding insert_sorted sort_onto
  sort xs = sort_onto [] xs

  module _ {κ} (P : A → Type κ) where
    All-insert_sorted : (x : A) (ys : List A) → P x → All P ys → All P (insert_sorted x ys)
    unfolding insert_sorted
    All-insert_sorted x [] p h = (p, tt)
    All-insert_sorted x (y ∷ ys) p h = elim (Bool-cases (less x y)) [
      | inl e ↦ rw e (p, h)
      | inr e ↦ rw e (h.0, All-insert_sorted x ys p h.1)
    ]

    All-sort_onto : (acc xs : List A) → All P acc → All P xs → All P (sort_onto acc xs)
    unfolding sort_onto
    All-sort_onto acc [] ha hx = ha
    All-sort_onto acc (x ∷ xs) ha hx =
        All-sort_onto (insert_sorted x acc) xs (All-insert_sorted x acc hx.0 ha) hx.1

    All-insert_sorted_of : (x : A) (ys : List A) → All P (insert_sorted x ys) → P x × All P ys
    unfolding insert_sorted
    All-insert_sorted_of x [] h = h
    All-insert_sorted_of x (y ∷ ys) h = elim (Bool-cases (less x y)) [
      | inl e ↦ rw e at h
      | inr e ↦
          let h' = rw e at h in
          let rest = All-insert_sorted_of x ys h'.1 in (rest.0, (h'.0, rest.1))
    ]

    All-sort_onto_of : (acc xs : List A) → All P (sort_onto acc xs) → All P acc × All P xs
    unfolding sort_onto
    All-sort_onto_of acc [] h = (h, tt)
    All-sort_onto_of acc (x ∷ xs) h =
        let both = All-sort_onto_of (insert_sorted x acc) xs h in
        let first = All-insert_sorted_of x acc both.0 in (first.1, (first.0, both.1))

    pub All-sort_of : (xs : List A) → All P (sort xs) → All P xs
    unfolding sort
    All-sort_of xs h = (All-sort_onto_of [] xs h).1

    pub All-sort : (xs : List A) → All P xs → All P (sort xs)
    unfolding sort
    All-sort xs h = All-sort_onto [] xs tt h

-- The slice of keys that the source collects and sorts.
unfoldable pub sort_texts : List String → List String
unfolding sort
sort_texts = sort text_ltb

pub All-sort_texts {κ} : (P : String → Type κ) (xs : List String) → All P xs → All P (sort_texts xs)
unfolding sort_texts
All-sort_texts P xs h = All-sort text_ltb P xs h

pub All-sort_texts_of {κ} :
    (P : String → Type κ) (xs : List String) → All P (sort_texts xs) → All P xs
unfolding sort_texts
All-sort_texts_of P xs h = All-sort_of text_ltb P xs h
