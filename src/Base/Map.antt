-- ===== src/Base/Map.antt =====
-- Go's `map[string]V` as an association list. Go leaves the order of iteration open; the order of
-- the entries stands for the order that the runtime chose.
use Prim.Native.String.{String}
use mathlib.Core.Path.{◌≡◌, refl, sym, subst}
use mathlib.Core.Logic.{inl, inr}
use mathlib.Core.Bool.{Bool, true, false}
use mathlib.Core.List.{List, [], ◌∷◌}
use mathlib.Core.Option.{Option, none, some, some-injective, none-ne-some}
use native.Mathlib.Omega.{arith}
use text.Mathlib.TextEquality.{eq_iff}
use gezerah.Base.Tests.{◌==◌, string_eq, if◌then◌else◌, Bool-cases, Option-cases}
use gezerah.Base.Lists.{All}

abbrev pub Map {ℓ} : Type ℓ → Type ℓ
Map V = List (String × V)

module _ {ℓ} {V : Type ℓ} where
  -- m[id], with none at a missing key
  unfoldable pub lookup : String → Map V → Option V
  lookup id [] = none
  lookup id ((id', here) ∷ rest) = if id' == id then some here else lookup id rest

  -- m[k] = v
  unfoldable pub insert : String → V → Map V → Map V
  insert id new [] = (id, new) ∷ []
  insert id new ((id', old) ∷ rest) =
      if id' == id then (id', new) ∷ rest else (id', old) ∷ insert id new rest

  -- delete(m, k)
  unfoldable pub delete : String → Map V → Map V
  delete k [] = []
  delete k ((j, w) ∷ m) = let rest = delete k m in if j == k then rest else (j, w) ∷ rest

  unfoldable pub keys : Map V → List String
  keys [] = []
  keys ((j, w) ∷ m) = j ∷ keys m

  -- `_, ok := m[k]`
  abbrev pub has : String → Map V → Bool
  has k m = elim (lookup k m) [ none ↦ false | some _ ↦ true ]

  pub lookup-insert :
      (written read : String) (new : V) (rest : Map V)
      → lookup read (insert written new rest)
        ≡ (if written == read then some new else lookup read rest)
  unfolding lookup insert
  lookup-insert written read new [] = refl
  lookup-insert written read new ((id, old) ∷ rest) = ground (
    arith,
    lookup-insert written read new rest,
    eq_iff id read,
    eq_iff id written,
    eq_iff written read,
  )

  pub lookup-delete :
      (k j : String) (m : Map V) → lookup j (delete k m) ≡ (if k == j then none else lookup j m)
  unfolding lookup delete
  lookup-delete k j [] = ground arith
  lookup-delete k j ((i, w) ∷ m) =
      ground (arith, eq_iff k j, eq_iff i k, eq_iff i j, lookup-delete k j m)

  keys-known :
      (m rest : Map V)
      → ((id : String) → has id rest ≡ true → has id m ≡ true)
      → All (λ id. has id m ≡ true) (keys rest)
  unfolding lookup keys
  keys-known m [] known = tt
  keys-known m ((j, w) ∷ rest) known = (
    known j (ground (arith, eq_iff j j)),
    keys-known m rest (λ id there. known id (ground (arith, there))),
  )

  pub has-keys : (m : Map V) → All (λ id. has id m ≡ true) (keys m)
  has-keys m = keys-known m m (λ id there. there)

  pub has-lookup : (id : String) (m : Map V) → has id m ≡ true → (v : V) × (lookup id m ≡ some v)
  has-lookup id m h = elim (Option-cases (lookup id m)) [
    | inl missing ↦ absurd (ground (arith, missing))
    | inr there ↦ there
  ]

  -- Every entry of a map.
  abbrev pub Entries {κ} : (String → V → Type κ) → Map V → Type κ
  Entries P [] = Unit
  Entries P ((k, v) ∷ m) = P k v × Entries P m

  -- No key stands twice, as in a Go map.
  abbrev pub Distinct : Map V → Type ℓ
  Distinct [] = Unit
  Distinct ((k, v) ∷ m) = (lookup k m ≡ none) × Distinct m

  pub Entries-insert {κ} :
      (P : String → V → Type κ) (k : String) (v : V) (m : Map V)
      → P k v
      → Entries P m
      → Entries P (insert k v m)
  unfolding insert
  Entries-insert P k v [] p h = (p, tt)
  Entries-insert P k v ((j, w) ∷ m) p h = elim (Bool-cases (j == k)) [
    | inl e ↦ rw e (subst (λ i. P i v) (sym ((eq_iff j k).0 e)) p, h.1)
    | inr e ↦ rw e (h.0, Entries-insert P k v m p h.1)
  ]

  pub Entries-lookup {κ} :
      (P : String → V → Type κ) (k : String) {v : V} (m : Map V)
      → Entries P m
      → lookup k m ≡ some v
      → P k v
  unfolding lookup
  Entries-lookup P k [] h e = absurd (none-ne-some _ e)
  Entries-lookup P k {v} ((j, w) ∷ m) h e = elim (Bool-cases (j == k)) [
    | inl t ↦
        let same : w ≡ v = some-injective w v (rw t at e) in
        subst (P k) same (subst (λ i. P i w) ((eq_iff j k).0 t) h.0)
    | inr t ↦ Entries-lookup P k m h.1 (rw t at e)
  ]

  pub Distinct-insert : (k : String) (v : V) (m : Map V) → Distinct m → Distinct (insert k v m)
  unfolding insert
  Distinct-insert k v [] h = (unfold lookup in refl, tt)
  Distinct-insert k v ((j, w) ∷ m) h = elim (Bool-cases (j == k)) [
    | inl e ↦ rw e h
    | inr e ↦
        rw e
          (ground (arith, lookup-insert k j v m, eq_iff k j, eq_iff j k), Distinct-insert k v m h.1)
  ]

  pub Entries-map_of {κ μ} :
      {P : String → V → Type κ} {Q : String → V → Type μ}
      → ((k : String) (v : V) → P k v → Q k v)
      → (m : Map V) → Entries P m
      → Entries Q m
  Entries-map_of f [] h = tt
  Entries-map_of f ((k, v) ∷ m) h = (f k v h.0, Entries-map_of f m h.1)

pub ruleset map_laws = (lookup-insert, lookup-delete)
