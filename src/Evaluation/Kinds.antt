-- ===== src/Evaluation/Kinds.antt =====
-- Values of a kind, and the operations of evaluateExpressionOperation on operands of the right kinds.
pub mod Operators
pub mod Inside
pub mod Inferred
pub mod Expressions
pub mod Modifiers
pub mod Caches
pub mod Mechanics
pub mod Checked
pub mod Sources
pub mod Accepted
pub mod Entities
use Prim.Native.Nat.{ℕ, suc}
use Prim.Native.String.{String}
use mathlib.Core.Bool.{Bool, true, false, ◌&&◌, not}
use mathlib.Core.List.{List, [], ◌∷◌}
use mathlib.Core.Path.{◌≡◌, refl, ◌∙◌}
use native.Mathlib.Omega.{arith}
use gezerah.Base.Tests.{◌==◌, if◌then◌else◌}
use gezerah.Base.Lists.{All, length, append-eq-nil}
use gezerah.Decimal.Parse.{scale_too_large}
use gezerah.Errors.{Error, plain, Result, ok, err, ◌>>=◌, fault_if-eq-nil}
use gezerah.Types.{
  ValueKind, value_number, value_boolean, value_other, kind_eq, kind_beq_iff, MechanicValue,
}
use gezerah.Values.{valid_shape}
use gezerah.Definitions.{valid_value_kind}
use gezerah.Effects.{decimal_error_text}
use gezerah.Graph.Infer.{require_kinds}

-- A value of the kind, with exactly the field of the kind.
abbrev pub Shaped : ValueKind → MechanicValue → Type 0
Shaped k v = (v.kind ≡ k) × (valid_shape v ≡ true)

-- The values have the kinds, one by one.
abbrev pub Matches : List ValueKind → List MechanicValue → Type 0
Matches [] [] = Unit
Matches (k ∷ ks) (v ∷ vs) = Shaped k v × Matches ks vs
Matches [] (v ∷ vs) = ⊥
Matches (k ∷ ks) [] = ⊥

-- The error of a decimal whose scale is out of range.
abbrev pub Arithmetic : Error → Type 0
Arithmetic e = e ≡ plain (decimal_error_text scale_too_large)

-- A result with the property, or an arithmetic error.
abbrev pub Post {ℓ} : {A : Type ℓ} → (A → Type 0) → Result A → Type 0
Post P (ok a) = P a
Post P (err e) = Arithmetic e

pub Post-bind {ℓ κ} :
    {A : Type ℓ} {B : Type κ} (P : A → Type 0) (Q : B → Type 0) (m : Result A) (f : A → Result B)
    → Post P m
    → ((a : A) → P a → Post Q (f a))
    → Post Q (m >>= f)
Post-bind P Q (ok a) f h g = g a h
Post-bind P Q (err e) f h g = h

pub Matches-length :
    (ks : List ValueKind) (vs : List MechanicValue) → Matches ks vs → length vs ≡ length ks
Matches-length [] [] h = refl
Matches-length (k ∷ ks) (v ∷ vs) h = omega (arith, Matches-length ks vs h.1)
Matches-length [] (v ∷ vs) h = elim h [ ]
Matches-length (k ∷ ks) [] h = elim h [ ]

pub Shaped-valid : (k : ValueKind) (v : MechanicValue) → Shaped k v → valid_value_kind k ≡ true
unfolding valid_shape
Shaped-valid k v h = rw (← h.0) (ground (arith, h.1))

-- The kind of a well-shaped value passes requireOperandKinds only if it is the expected one.
Shaped-expected :
    (k expected : ValueKind) (v : MechanicValue)
    → Shaped k v
    → (valid_value_kind k && not (k == expected)) ≡ false
    → Shaped expected v
Shaped-expected k expected v h test =
    let same : k ≡ expected =
      (kind_beq_iff k expected).0 (ground (arith, test, Shaped-valid k v h)) in
    (h.0 ∙ same, h.1)

pub require_kinds-Shaped :
    (expected : ValueKind) (path : String) (index : ℕ) (ks : List ValueKind)
    (vs : List MechanicValue)
    → require_kinds expected path index ks ≡ []
    → Matches ks vs
    → All (Shaped expected) vs
unfolding require_kinds
require_kinds-Shaped expected path index [] [] none_wrong h = tt
require_kinds-Shaped expected path index [] (v ∷ vs) none_wrong h = elim h [ ]
require_kinds-Shaped expected path index (k ∷ ks) [] none_wrong h = elim h [ ]
require_kinds-Shaped expected path index (k ∷ ks) (v ∷ vs) none_wrong h =
    let (here, later) = append-eq-nil _ (require_kinds expected path (suc index) ks) none_wrong in
    (
      Shaped-expected k expected v h.0 (fault_if-eq-nil _ _ _ _ here),
      require_kinds-Shaped expected path (suc index) ks vs later h.1,
    )
