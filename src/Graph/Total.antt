-- ===== src/Graph/Total.antt =====
-- CompileMechanicGraph on all definitions.
use mathlib.Core.Bool.{false}
use mathlib.Core.List.{List, [], ◌∷◌, map}
use mathlib.Core.Logic.{◌⊎◌, inl, inr}
use mathlib.Core.Option.{Option, none, some}
use mathlib.Core.Option as Option
use mathlib.Core.Path.{◌≡◌, refl, ap}
use native.Mathlib.Omega.{arith}
use gezerah.Base.Tests.{◌==◌, string_eq, Bool-cases}
use gezerah.Base.Map.{lookup, has}
use gezerah.Errors.{
  domain, ok, err, err_invalid_definition, ValidationError, ValidationErrors, require_valid,
  domain_error,
}
use gezerah.Types.{
  RulesId, MechanicDefinition, MechanicGraph, Expression, node, Operands, nil, cons,
}
use gezerah.State.{Definitions}
use gezerah.Transition.Instances.{at_or}
use gezerah.Graph.Compile.{
  compile_graph, validate_graph, compiled_dependencies, clone_definition, clone_expression,
  clone_operands,
}
use gezerah.Graph.Ordered.{dependency_order-total}
use gezerah.Graph.Terminates.{validate_graph-total}

mutual
  unfolding clone_expression

  clone_expression-id : (e : Expression) → clone_expression e ≡ e
  clone_expression-id (node op none id operands) = ap (node op none id) (clone_operands-id operands)
  clone_expression-id (node op (some v) id operands) =
      ap (node op (some v) id) (clone_operands-id operands)

  clone_operands-id : (es : Operands) → clone_operands es ≡ es
  clone_operands-id nil = refl
  clone_operands-id (cons e es) = rw (clone_expression-id e, clone_operands-id es) refl

clone_definition-id : (d : MechanicDefinition) → clone_definition d ≡ d
unfolding clone_definition
clone_definition-id d = λ i. record d { expression = cloned d.expression i }
  where
    cloned : (x : Option Expression) → Option.map clone_expression x ≡ x
    cloned none = refl
    cloned (some e) = ap some (clone_expression-id e)

clone_definitions-id :
    (m : Definitions)
    → map {B = RulesId × MechanicDefinition} (λ (id, d). (id, clone_definition d)) m ≡ m
clone_definitions-id [] = refl
clone_definitions-id ((id, d) ∷ m) = rw (clone_definition-id d, clone_definitions-id m) refl

-- A mechanic that is not defined has no dependencies.
dependencies-closed :
    (m : Definitions) (id : RulesId)
    → has id m ≡ false
    → at_or (map {B = RulesId × List RulesId} (λ (j, d). (j, compiled_dependencies d)) m) id [] ≡ []
unfolding lookup
dependencies-closed [] id absent = refl
dependencies-closed ((j, d) ∷ m) id absent = elim (Bool-cases (j == id)) [
  | inl same ↦ absurd (ground (arith, same, absent))
  | inr other ↦ rw other (dependencies-closed m id (ground (arith, other, absent)))
]

-- CompileMechanicGraph ends for all definitions, with one of two results: where
-- ValidateMechanicGraph finds no error, a graph that holds the definitions unchanged, and otherwise
-- the error of an invalid definition with all that ValidateMechanicGraph found.
pub compile_graph_lem :
    (definitions : Definitions)
    → ((validate_graph definitions ≡ some [])
        × (g : MechanicGraph) × (compile_graph definitions ≡ ok g)
        × (g.definitions ≡ some definitions))
      ⊎ ((e : ValidationError) × (es : ValidationErrors) × (validate_graph definitions
            ≡ some (e ∷ es))
          × (compile_graph definitions
              ≡ err (domain (record { kind = err_invalid_definition; errors = e ∷ es }))))
unfolding compile_graph
compile_graph_lem definitions =
    let (errs, found) = validate_graph-total definitions in by_errors errs found
  where
    by_errors :
        (errs : ValidationErrors)
        → validate_graph definitions ≡ some errs
        → ((validate_graph definitions ≡ some [])
            × (g : MechanicGraph) × (compile_graph definitions ≡ ok g)
            × (g.definitions ≡ some definitions))
          ⊎ ((e : ValidationError) × (es : ValidationErrors) × (validate_graph definitions
                ≡ some (e ∷ es))
              × (compile_graph definitions
                  ≡ err (domain (record { kind = err_invalid_definition; errors = e ∷ es }))))
    by_errors [] found =
        let (order, ordered) =
          dependency_order-total definitions _ (dependencies-closed definitions) in
        inl (
          found,
          record {
            dependencies =
                map {B = RulesId × List RulesId} (λ (id, d). (id, compiled_dependencies d))
                  definitions;
            definitions = some (
                map {B = RulesId × MechanicDefinition} (λ (id, d). (id, clone_definition d))
                  definitions);
            order = order;
          },
          rw (found, compile_graph) (unfold require_valid domain_error in rw ordered refl),
          ap some (clone_definitions-id definitions),
        )
    by_errors (e ∷ es) found =
        inr (e, es, found, rw (found, compile_graph) (unfold require_valid domain_error in refl))
