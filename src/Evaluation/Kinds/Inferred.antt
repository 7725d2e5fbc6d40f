-- ===== src/Evaluation/Kinds/Inferred.antt =====
-- What it means that inferExpressionType finds no error at an operation with operands.
use Prim.Native.Nat.{ℕ}
use Prim.Native.String.{String}
use mathlib.Core.Bool.{Bool, true, false, ◌&&◌, not}
use mathlib.Core.Logic.{inl, inr}
use mathlib.Core.List.{List, [], ◌∷◌, ◌++◌}
use mathlib.Core.Option.{Option, some}
use mathlib.Core.Path.{◌≡◌, sym, subst, ◌∙◌}
use native.Mathlib.Omega.{arith}
use gezerah.Base.Tests.{◌==◌, if◌then◌else◌, nat_beq, Option-cases}
use gezerah.Base.Lists.{All, length, append-eq-nil}
use gezerah.Base.Map.{Map}
use gezerah.Errors.{Result, fault_if-eq-nil}
use gezerah.Types.{
  RulesId, ValueKind, value_number, value_boolean, kind_eq, kind_beq_iff, MechanicValue,
  MechanicDefinition, ExpressionOperation, op_literal, op_mechanic_reference, op_add_number,
  op_subtract_number, op_multiply_number, op_min_number, op_max_number, op_negate_number, op_and,
  op_or, op_not, op_equal, op_less_number, op_less_or_equal_number, op_greater_number,
  op_greater_or_equal_number, op_if, op_other,
}
use gezerah.Values.{valid_shape, values_equal}
use gezerah.Definitions.{valid_value_kind}
use gezerah.State.{Definitions}
use gezerah.Decimal.Arithmetic.{add-InRange, multiply-InRange}
use gezerah.Decimal.Ops.{add, multiply}
use gezerah.Graph.Infer.{
  OperandInference, infer_node, infer_uniform, infer_equal, infer_if, require_kinds,
}
use gezerah.Graph.Infer.Cases.{
  Arity, at_least, exactly, arity_fits, kinds_clash, equal_clash, bad_condition, branch_clash,
  branch_kind, operation_shape, forbid_literal, forbid_reference, require_arity,
}
use gezerah.Evaluation.Operations.{evaluate_operation, equal_operands, choose, as_boolean}
use gezerah.Evaluation.Kinds.{
  Shaped, Matches, Post, Shaped-valid, Matches-length, require_kinds-Shaped,
}
use gezerah.Evaluation.Kinds.Inside.{is_dispatched, unsupported, fault-ne-nil}
use gezerah.Evaluation.Kinds.Operators.{
  boolean_value-Shaped, lift_decimal-Sane, fold_numbers-Shaped, compare_numbers-Shaped,
  connect-Shaped, subtract_numbers-Shaped, negate_number-Shaped, negate_boolean-Shaped,
}

-- Two kinds of well-shaped values clash unless they are one kind.
kinds_clash-eq :
    (j k : ValueKind) (a b : MechanicValue)
    → Shaped j a
    → Shaped k b
    → kinds_clash j k ≡ false
    → j ≡ k
kinds_clash-eq j k a b ha hb h =
    (kind_beq_iff j k).0 (ground (arith, h, Shaped-valid j a ha, Shaped-valid k b hb))

equal_operands-Shaped :
    (ks : List ValueKind) (vs : List MechanicValue)
    → equal_clash ks ≡ false
    → Matches ks vs
    → nat_beq (length ks) 2 ≡ true
    → Post (Shaped value_boolean) (equal_operands vs)
unfolding equal_operands
equal_operands-Shaped (j ∷ k ∷ []) (a ∷ b ∷ []) clash h two =
    let same : a.kind ≡ b.kind = h.0.0 ∙ kinds_clash-eq j k a b h.0 h.1.0 clash ∙ sym h.1.0.0 in
    rw ((kind_beq_iff a.kind b.kind).1 same) (boolean_value-Shaped (values_equal a b))
equal_operands-Shaped [] vs clash h two = absurd (ground (arith, two))
equal_operands-Shaped (j ∷ []) vs clash h two = absurd (ground (arith, two))
equal_operands-Shaped (j ∷ k ∷ l ∷ ks) vs clash h two = absurd (ground (arith, two))
equal_operands-Shaped (j ∷ k ∷ []) [] clash h two = elim h [ ]
equal_operands-Shaped (j ∷ k ∷ []) (a ∷ []) clash h two = elim h.1 [ ]
equal_operands-Shaped (j ∷ k ∷ []) (a ∷ b ∷ c ∷ vs) clash h two = elim h.1.1 [ ]

boolean_kind :
    (k : ValueKind) (c : MechanicValue)
    → Shaped k c
    → (valid_value_kind k && not (k == value_boolean)) ≡ false
    → (t : Bool) × (as_boolean c ≡ some t)
unfolding valid_shape
boolean_kind k c h good =
    let same : k ≡ value_boolean =
      (kind_beq_iff k value_boolean).0 (ground (arith, good, Shaped-valid k c h)) in
    elim (Option-cases c.boolean) [
      | inl missing ↦ absurd (ground (arith, missing, h.0, h.1, same))
      | inr (t, there) ↦ (t, ground (arith, there, h.0, same))
    ]

choose-Shaped :
    (ks : List ValueKind) (vs : List MechanicValue)
    → bad_condition ks ≡ false
    → branch_clash ks ≡ false
    → Matches ks vs
    → nat_beq (length ks) 3 ≡ true
    → Post (Shaped (branch_kind ks)) (choose vs)
unfolding choose
choose-Shaped (i ∷ j ∷ k ∷ []) (c ∷ a ∷ b ∷ []) good clash h three =
    let (t, condition) = boolean_kind i c h.0 good in
    let one : j ≡ k = kinds_clash-eq j k a b h.1.0 h.1.1.0 clash in
    let same : a.kind ≡ b.kind = h.1.0.0 ∙ one ∙ sym h.1.1.0.0 in
    rw (condition, (kind_beq_iff a.kind b.kind).1 same, choose)
      (chosen t h.1.0 (subst (λ k. Shaped k b) (sym one) h.1.1.0))
  where
    chosen : (t : Bool) → Shaped j a → Shaped j b → Shaped j (if t then a else b)
    chosen true ha hb = ha
    chosen false ha hb = hb
choose-Shaped [] vs good clash h three = absurd (ground (arith, three))
choose-Shaped (i ∷ []) vs good clash h three = absurd (ground (arith, three))
choose-Shaped (i ∷ j ∷ []) vs good clash h three = absurd (ground (arith, three))
choose-Shaped (i ∷ j ∷ k ∷ l ∷ ks) vs good clash h three = absurd (ground (arith, three))
choose-Shaped (i ∷ j ∷ k ∷ []) [] good clash h three = elim h [ ]
choose-Shaped (i ∷ j ∷ k ∷ []) (c ∷ []) good clash h three = elim h.1 [ ]
choose-Shaped (i ∷ j ∷ k ∷ []) (c ∷ a ∷ []) good clash h three = elim h.1.1 [ ]
choose-Shaped (i ∷ j ∷ k ∷ []) (c ∷ a ∷ b ∷ d ∷ vs) good clash h three = elim h.1.1.1 [ ]

module _ (literal : Option MechanicValue) (id : RulesId) (count : ℕ) (path : String)
    (operands : OperandInference) (vs : List MechanicValue)
    (counted : length operands.kinds ≡ count) (matched : Matches operands.kinds vs) where
  shape_lem :
      (arity : Arity)
      → operation_shape arity literal id count path ≡ []
      → arity_fits arity (length operands.kinds) ≡ true
  shape_lem arity h =
      let (rest, c) =
        append-eq-nil (forbid_literal literal path ++ forbid_reference id path)
          (require_arity arity count path) h in
      rw counted (ground (arith, fault_if-eq-nil (not (arity_fits arity count)) _ _ _ c))

  uniform_lem :
      (arity : Arity) (expected result : ValueKind)
      → (infer_uniform arity expected result literal id count path operands).errors ≡ []
      → (arity_fits arity (length vs) ≡ true) × All (Shaped expected) vs
  unfolding infer_uniform
  uniform_lem arity expected result h =
      let (front, kinds) =
        append-eq-nil (operation_shape arity literal id count path ++ operands.errors)
          (require_kinds expected path 0 operands.kinds) h in
      let (shape, inside) =
        append-eq-nil (operation_shape arity literal id count path) operands.errors front in
      (
        rw (Matches-length operands.kinds vs matched) (shape_lem arity shape),
        require_kinds-Shaped expected path 0 operands.kinds vs kinds matched,
      )

  equal_lem :
      (infer_equal literal id count path operands).errors ≡ []
      → Post (Shaped value_boolean) (equal_operands vs)
  unfolding infer_equal
  equal_lem h =
      let (front, clash) =
        append-eq-nil (operation_shape (exactly 2) literal id count path ++ operands.errors) _ h in
      let (shape, inside) =
        append-eq-nil (operation_shape (exactly 2) literal id count path) operands.errors front in
      equal_operands-Shaped operands.kinds vs
        (fault_if-eq-nil (equal_clash operands.kinds) _ _ _ clash) matched
        (shape_lem (exactly 2) shape)

  if_lem :
      (infer_if literal id count path operands).errors ≡ []
      → Post (Shaped (branch_kind operands.kinds)) (choose vs)
  unfolding infer_if
  if_lem h =
      let shape_errors = operation_shape (exactly 3) literal id count path in
      let (front, clash) = append-eq-nil _ _ h in
      let (front', condition) = append-eq-nil (shape_errors ++ operands.errors) _ front in
      let (shape, inside) = append-eq-nil shape_errors operands.errors front' in
      choose-Shaped operands.kinds vs
        (fault_if-eq-nil (bad_condition operands.kinds) _ _ _ condition)
        (fault_if-eq-nil (branch_clash operands.kinds) _ _ _ clash) matched
        (shape_lem (exactly 3) shape)

  uniform-Shaped :
      (arity : Arity) (expected result : ValueKind) (r : Result MechanicValue)
      → (infer_uniform arity expected result literal id count path operands).errors ≡ []
      → (arity_fits arity (length vs) ≡ true → All (Shaped expected) vs → Post (Shaped result) r)
      → Post (Shaped result) r
  uniform-Shaped arity expected result r h step =
      let (fits, shaped) = uniform_lem arity expected result h in step fits shaped

  -- Where inference finds no error at an operation on values of the inferred kinds, the operation
  -- gives a value of the inferred kind or an arithmetic error.
  pub infer_node-Shaped :
      (owner : MechanicDefinition) (definitions : Definitions) (op : ExpressionOperation)
      (deps : Map String)
      → is_dispatched op ≡ true
      → (infer_node owner definitions op literal id count path deps operands).errors ≡ []
      → Post
          (Shaped (infer_node owner definitions op literal id count path deps operands).kind)
          (evaluate_operation op vs)
  unfolding infer_node evaluate_operation infer_uniform infer_equal infer_if
  infer_node-Shaped owner definitions op_literal deps d h = absurd (ground (arith, d))
  infer_node-Shaped owner definitions op_mechanic_reference deps d h = absurd (ground (arith, d))
  infer_node-Shaped owner definitions op_add_number deps d h =
      uniform-Shaped (at_least 2) value_number value_number _ h λ fits shaped.
        fold_numbers-Shaped op_add_number _ vs
          (λ a b. lift_decimal-Sane (add a b) (add-InRange a b)) shaped (ground (arith, fits))
  infer_node-Shaped owner definitions op_multiply_number deps d h =
      uniform-Shaped (at_least 2) value_number value_number _ h λ fits shaped.
        fold_numbers-Shaped op_multiply_number _ vs
          (λ a b. lift_decimal-Sane (multiply a b) (multiply-InRange a b)) shaped
          (ground (arith, fits))
  infer_node-Shaped owner definitions op_min_number deps d h =
      uniform-Shaped (at_least 2) value_number value_number _ h λ fits shaped.
        fold_numbers-Shaped op_min_number _ vs (λ a b. tt) shaped (ground (arith, fits))
  infer_node-Shaped owner definitions op_max_number deps d h =
      uniform-Shaped (at_least 2) value_number value_number _ h λ fits shaped.
        fold_numbers-Shaped op_max_number _ vs (λ a b. tt) shaped (ground (arith, fits))
  infer_node-Shaped owner definitions op_subtract_number deps d h =
      uniform-Shaped (exactly 2) value_number value_number _ h
        λ fits shaped. subtract_numbers-Shaped vs shaped fits
  infer_node-Shaped owner definitions op_negate_number deps d h =
      uniform-Shaped (exactly 1) value_number value_number _ h
        λ fits shaped. negate_number-Shaped vs shaped fits
  infer_node-Shaped owner definitions op_and deps d h =
      uniform-Shaped (at_least 2) value_boolean value_boolean _ h
        λ fits shaped. connect-Shaped op_and _ _ vs shaped (ground (arith, fits))
  infer_node-Shaped owner definitions op_or deps d h =
      uniform-Shaped (at_least 2) value_boolean value_boolean _ h
        λ fits shaped. connect-Shaped op_or _ _ vs shaped (ground (arith, fits))
  infer_node-Shaped owner definitions op_not deps d h =
      uniform-Shaped (exactly 1) value_boolean value_boolean _ h
        λ fits shaped. negate_boolean-Shaped vs shaped fits
  infer_node-Shaped owner definitions op_equal deps d h = equal_lem h
  infer_node-Shaped owner definitions op_less_number deps d h =
      uniform-Shaped (exactly 2) value_number value_boolean _ h
        λ fits shaped. compare_numbers-Shaped op_less_number _ vs shaped fits
  infer_node-Shaped owner definitions op_less_or_equal_number deps d h =
      uniform-Shaped (exactly 2) value_number value_boolean _ h
        λ fits shaped. compare_numbers-Shaped op_less_or_equal_number _ vs shaped fits
  infer_node-Shaped owner definitions op_greater_number deps d h =
      uniform-Shaped (exactly 2) value_number value_boolean _ h
        λ fits shaped. compare_numbers-Shaped op_greater_number _ vs shaped fits
  infer_node-Shaped owner definitions op_greater_or_equal_number deps d h =
      uniform-Shaped (exactly 2) value_number value_boolean _ h
        λ fits shaped. compare_numbers-Shaped op_greater_or_equal_number _ vs shaped fits
  infer_node-Shaped owner definitions op_if deps d h = if_lem h
  infer_node-Shaped owner definitions (op_other s) deps d h =
      absurd (fault-ne-nil _ _ _ (append-eq-nil (unsupported path) operands.errors h).0)
