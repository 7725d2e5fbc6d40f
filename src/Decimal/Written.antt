-- ===== src/Decimal/Written.antt =====
-- What ParseDecimal finds in a text of digits, a point and a minus.
use Prim.Native.Nat.{ℕ, suc}
use mathlib.Core.Bool.{Bool, true, false, ◌&&◌}
use mathlib.Core.List.{List, [], ◌∷◌, ◌++◌}
use mathlib.Core.Option.{none, some}
use mathlib.Core.Path.{◌≡◌, refl, ap}
use native.Mathlib.Omega.{arith}
use gezerah.Base.Lists.{All, All-map_of, length, take, drop}
use gezerah.Base.Tests.{leb, nat_beq_iff}
use gezerah.Decimal.Digits.{IsDigit}
use gezerah.Decimal.Parse.{
  is_empty, is_space, is_dot, trim_left, trim_right, same_text, index_where, count_where,
}

-- A character of a number: a digit, a point or a minus.
abbrev pub IsWritten : ℕ → Type 0
IsWritten c = (leb 45 c && leb c 57) ≡ true

pub trim_left-IsWritten : (s : List ℕ) → All IsWritten s → trim_left is_space s ≡ s
unfolding trim_left is_space
trim_left-IsWritten [] h = refl
trim_left-IsWritten (c ∷ s) h = ground (arith, h)

pub trim_right-IsWritten : (s : List ℕ) → All IsWritten s → trim_right is_space s ≡ s
unfolding trim_right is_space
trim_right-IsWritten [] h = refl
trim_right-IsWritten (c ∷ s) h =
    let space : is_space c ≡ false = ground (arith, h) in
    rw (trim_right-IsWritten s h.1, space) refl

pub same_text_refl : (s : List ℕ) → same_text s s ≡ true
unfolding same_text
same_text_refl [] = refl
same_text_refl (c ∷ s) = rw ((nat_beq_iff c c).1 refl) (same_text_refl s)

pub index_where-eq-none :
    (p : ℕ → Bool) (s : List ℕ) → All (λ c. p c ≡ false) s → index_where p s ≡ none
unfolding index_where
index_where-eq-none p [] h = refl
index_where-eq-none p (c ∷ s) h = rw (h.0, index_where-eq-none p s h.1) refl

pub index_where-found :
    (p : ℕ → Bool) (s t : List ℕ) (c : ℕ)
    → All (λ c. p c ≡ false) s
    → p c ≡ true
    → index_where p (s ++ c ∷ t) ≡ some (length s)
unfolding index_where
index_where-found p [] t c h mark = rw mark refl
index_where-found p (d ∷ s) t c h mark = rw (h.0, index_where-found p s t c h.1 mark) refl

pub count_where-append :
    (p : ℕ → Bool) (s t : List ℕ)
    → All (λ c. p c ≡ false) s
    → count_where p (s ++ t) ≡ count_where p t
unfolding count_where
count_where-append p [] t h = refl
count_where-append p (c ∷ s) t h = rw (h.0) (omega (arith, count_where-append p s t h.1))

pub count_where-eq-zero :
    (p : ℕ → Bool) (s : List ℕ) → All (λ c. p c ≡ false) s → count_where p s ≡ 0
unfolding count_where
count_where-eq-zero p [] h = refl
count_where-eq-zero p (c ∷ s) h = rw (h.0) (omega (arith, count_where-eq-zero p s h.1))

pub take-append : (s t : List ℕ) → take (length s) (s ++ t) ≡ s
take-append [] t = refl
take-append (c ∷ s) t = ap (λ r. c ∷ r) (take-append s t)

pub drop-append : (s t : List ℕ) (c : ℕ) → drop (suc (length s)) (s ++ c ∷ t) ≡ t
drop-append [] t c = refl
drop-append (d ∷ s) t c = drop-append s t c

pub is_empty-append : (s t : List ℕ) → is_empty s ≡ false → is_empty (s ++ t) ≡ false
is_empty-append [] t h = cc
is_empty-append (c ∷ s) t h = refl

pub no_dot : (s : List ℕ) → All IsDigit s → All (λ c. is_dot c ≡ false) s
no_dot = All-map_of (λ c digit. ground (arith, digit))
