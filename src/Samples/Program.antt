-- ===== src/Samples/Program.antt =====
-- Names every definition that a run of the model goes through, for the tests.
use gezerah.Base.Map.{lookup, insert, delete, keys}
use gezerah.Base.Text.{text_ltb, show_ℕ, join_texts}
use gezerah.Base.Sort.{insert_sorted, sort, sort_texts}
use gezerah.Decimal.Rat.{
  cmp_rat, add_rat, neg_rat, sub_rat, mul_rat, is_negative_rat, is_positive_rat, magnitude,
  quotient_is_integer, digits_onto, nat_text, float_string,
}
use gezerah.Decimal.Parse.{
  is_space, trim_left, trim_right, same_text, index_where, count_where, all_digits, digits_value,
  split_sign, atoi, split_exponent, split_point, place_point, build_decimal, parse_mantissa,
  parse_decimal,
}
use gezerah.Decimal.Ops.{
  decimal_text, rat_of_text, rat, cmp, equal, is_zero, is_positive, decimal_scale, add, subtract,
  multiply, negate, aligns_to,
}
use gezerah.Errors.{
  error_text, errors_text, kind_text, text_of_error, domain_error, is_evaluation_error,
  require_valid, evaluation_error,
}
use gezerah.Values.{values_equal, valid_shape, validate_against_bounds, validate_value}
use gezerah.Definitions.{
  is_blank, nested_path, nest, validate_entity, value_empty, validate_bounds, validate_input,
  validate_derived, validate_definition,
}
use gezerah.State.{
  validate_override, validate_overrides, validate_record, resolve_input, materialize_one,
  materialize_all, materialize_state, is_redundant, drop_redundant, normalize_record,
  validate_entity_record, validate_records, validate_snapshot,
}
use gezerah.Effects.{
  validate_set_operand, validate_operation_operand, validate_scalar_operand, scalar_allowed,
  effect_error, decimal_error_text, store_override, store_adjusted, apply_adjust, apply_set,
  apply_scalar, stored_changed,
}
use gezerah.Statuses.{
  seen, validate_modifier, validate_modifier_target, validate_modifiers, complete_from,
  validate_inline_status, validate_status_ids, validate_inline_statuses, validate_source,
  validate_instances, validate_status_instances,
}
use gezerah.Transition.Plan.{
  validate_scalar_effect, validate_supplied_instance, each, validate_apply_effect,
  validate_remove_effect, validate_operands, validate_target, validate_targets, validate_named,
  supplied_ids, validate_lifecycle, validate_identity, validate_effects, validate_plan,
}
use gezerah.Transition.Instances.{
  validate_globals, group_instances, validate_groups, validate_runtime_instances, find_instance,
  max_order, next_applied_order,
}
use gezerah.Transition.Apply.{
  record_scalar, scalar_target, ordered_instance, record_applied, add_instance, apply_target,
  record_removed, remove_target, each_target, apply_effect, apply_effects,
}
use gezerah.Transition.Run.{
  missing_targets, missing_records, sort_effects, instance_before, sort_instances, result_of,
  check_transition, apply_transition,
}
use gezerah.Graph.Infer.{
  validate_literal, require_kinds, infer_literal, infer_reference, infer_uniform, infer_equal,
  infer_if, infer_node, infer_expression_type, infer, infer_operands, collect, collect_operands,
}
use gezerah.Graph.Cycles.{
  drop_last, report_cycle, walk_dependencies, visit_cycle, walk_roots, detect_cycles, order_all,
  visit_order, dependency_order,
}
use gezerah.Graph.Compile.{
  check_inferred, validate_mechanic, validate_mechanics, validate_graph, clone_definition, distinct,
  sorted_set, compiled_dependencies, compile_graph, clone_expression, clone_operands,
}
use gezerah.Evaluation.Operations.{
  operation_text, number_of, boolean_of, fold_rest, fold_numbers, compare_numbers, subtract_numbers,
  negate_number, fold_booleans, connect, negate_boolean, equal_operands, choose, evaluate_operation,
  apply_modifier,
}
use gezerah.Evaluation.Modifiers.{
  applies_before, add_modifiers, add_instances, resolved_modifiers, applied, apply_modifiers,
}
use gezerah.Evaluation.Evaluator.{
  cycle_error, derive, intrinsic_of, finish, evaluate_open, evaluate_mechanic, evaluate_expression,
  evaluate_operands,
}
use gezerah.Evaluation.Entity.{
  evaluate_one, evaluate_all, evaluate_ordered, evaluate_entity_with_graph, evaluate_entity,
}

-- Unfolds all of the model.
unfoldable pub program : Unit {0}
unfolding lookup insert delete keys text_ltb show_ℕ join_texts insert_sorted sort sort_texts cmp_rat
    add_rat neg_rat sub_rat mul_rat is_negative_rat is_positive_rat magnitude quotient_is_integer
    digits_onto nat_text float_string is_space trim_left trim_right same_text index_where
    count_where all_digits digits_value split_sign atoi split_exponent split_point place_point
    build_decimal parse_mantissa parse_decimal decimal_text rat_of_text rat cmp equal is_zero
    is_positive decimal_scale add subtract multiply negate aligns_to error_text errors_text
    kind_text text_of_error domain_error is_evaluation_error require_valid evaluation_error
    values_equal valid_shape validate_against_bounds validate_value is_blank nested_path nest
    validate_entity value_empty validate_bounds validate_input validate_derived validate_definition
    validate_override validate_overrides validate_record resolve_input materialize_one
    materialize_all materialize_state is_redundant drop_redundant normalize_record
    validate_entity_record validate_records validate_snapshot validate_set_operand
    validate_operation_operand validate_scalar_operand scalar_allowed effect_error
    decimal_error_text store_override store_adjusted apply_adjust apply_set apply_scalar
    stored_changed seen validate_modifier validate_modifier_target validate_modifiers complete_from
    validate_inline_status validate_status_ids validate_inline_statuses validate_source
    validate_instances validate_status_instances validate_scalar_effect validate_supplied_instance
    each validate_apply_effect validate_remove_effect validate_operands validate_target
    validate_targets validate_named supplied_ids validate_lifecycle validate_identity
    validate_effects validate_plan validate_globals group_instances validate_groups
    validate_runtime_instances find_instance max_order next_applied_order record_scalar
    scalar_target ordered_instance record_applied add_instance apply_target record_removed
    remove_target each_target apply_effect apply_effects missing_targets missing_records
    sort_effects instance_before sort_instances result_of check_transition apply_transition
    validate_literal require_kinds infer_literal infer_reference infer_uniform infer_equal infer_if
    infer_node infer_expression_type infer infer_operands collect collect_operands drop_last
    report_cycle walk_dependencies visit_cycle walk_roots detect_cycles order_all visit_order
    dependency_order check_inferred validate_mechanic validate_mechanics validate_graph
    clone_definition distinct sorted_set compiled_dependencies compile_graph clone_expression
    clone_operands operation_text number_of boolean_of fold_rest fold_numbers compare_numbers
    subtract_numbers negate_number fold_booleans connect negate_boolean equal_operands choose
    evaluate_operation apply_modifier applies_before add_modifiers add_instances resolved_modifiers
    applied apply_modifiers cycle_error derive intrinsic_of finish evaluate_open evaluate_mechanic
    evaluate_expression evaluate_operands evaluate_one evaluate_all evaluate_ordered
    evaluate_entity_with_graph evaluate_entity
program = tt
