-- ===== src/Graph/Compile.antt =====
-- ValidateMechanicGraph and CompileMechanicGraph of internal/rules/expressions.go, and what they use.
use Prim.Native.String.{String, ◌++◌ as join}
use mathlib.Core.Bool.{◌&&◌, not}
use mathlib.Core.List.{List, [], ◌∷◌, ◌++◌, map}
use mathlib.Core.Option.{Option, none, some}
use mathlib.Core.Option as Option
use gezerah.Base.Tests.{◌==◌, string_eq, if◌then◌else◌}
use gezerah.Base.Map.{Map, lookup, keys}
use gezerah.Base.Text.{keyed, dotted}
use gezerah.Base.Sort.{sort_texts}
use gezerah.Errors.{
  ValidationErrors, fault_if, Result, ok, err, ◌>>◌, require_valid, err_invalid_definition,
  out_of_fuel,
}
use gezerah.Types.{
  RulesId, ValueKind, value_number, value_boolean, value_other, kind_eq, MechanicDefinition,
  Expression, node, Operands, nil, cons, MechanicGraph,
}
use gezerah.Values.{clone_value}
use gezerah.Definitions.{nest, valid_value_kind, validate_definition}
use gezerah.State.{Definitions, is_derived}
use gezerah.Statuses.{seen}
use gezerah.Graph.Infer.{Inference, infer, collect}
use gezerah.Graph.Cycles.{detect_cycles, dependency_order}

pub kind_name : ValueKind → String
kind_name value_number = "number"
kind_name value_boolean = "boolean"
kind_name (value_other s) = s

-- The expression of a derived mechanic.
abbrev pub derived_expression : MechanicDefinition → Option Expression
derived_expression d = if is_derived d.source_kind then d.expression else none

-- The last check of the loop of ValidateMechanicGraph.
unfoldable pub check_inferred : String → MechanicDefinition → Inference → ValidationErrors
check_inferred path d i =
    i.errors
    ++ fault_if
        (valid_value_kind i.kind && valid_value_kind d.value_kind && not (i.kind == d.value_kind))
        "expression_type_mismatch" (dotted path "value_kind")
        (join "derived expression produces "
          (join (kind_name i.kind) (join ", but mechanic declares " (kind_name d.value_kind))))

module _ (definitions : Definitions) where
  -- One round of the loop: the errors and the dependencies with their paths.
  unfoldable pub validate_mechanic : RulesId → MechanicDefinition → ValidationErrors × Map String
  validate_mechanic id d =
      let path = keyed "mechanics" id in
      let own =
        fault_if (not (d.id == id)) "mechanic_id_mismatch" (dotted path "id")
          "mechanic map key and definition ID differ"
        ++ nest path (validate_definition d) in
      elim (derived_expression d) [
        | none ↦ (own, [])
        | some e ↦
            let i = infer d definitions e (dotted path "expression") [] in
            (own ++ check_inferred path d i, i.deps)
      ]

  -- The loop over the sorted IDs: the errors and the dependencies of all mechanics.
  unfoldable pub validate_mechanics : List RulesId → ValidationErrors × Map (Map String)
  validate_mechanics [] = ([], [])
  validate_mechanics (id ∷ ids) =
      let (errs, paths) = validate_mechanics ids in
      elim (lookup id definitions) [
        | none ↦ (errs, paths)
        | some d ↦ let (own, deps) = validate_mechanic id d in (own ++ errs, (id, deps) ∷ paths)
      ]

-- ValidateMechanicGraph; `none` is for fuel that ran out.
unfoldable pub validate_graph : Definitions → Option ValidationErrors
validate_graph definitions =
    let (errs, paths) = validate_mechanics definitions (sort_texts (keys definitions)) in
    Option.map (λ cycles. errs ++ cycles) (detect_cycles definitions paths)

-- cloneExpression
unfoldable mutual
  pub clone_expression : Expression → Expression
  clone_expression (node op literal id operands) =
      node op (Option.map clone_value literal) id (clone_operands operands)

  pub clone_operands : Operands → Operands
  clone_operands nil = nil
  clone_operands (cons e es) = cons (clone_expression e) (clone_operands es)

-- cloneMechanicDefinition
unfoldable pub clone_definition : MechanicDefinition → MechanicDefinition
clone_definition d = record d {
  default_value = clone_value d.default_value;
  expression = Option.map clone_expression d.expression;
}

-- The keys of a set, each once.
unfoldable pub distinct : List RulesId → List RulesId
distinct [] = []
distinct (id ∷ ids) = let rest = distinct ids in if seen id rest then rest else id ∷ rest

-- sortedIDSet
unfoldable pub sorted_set : List RulesId → List RulesId
sorted_set ids = sort_texts (distinct ids)

-- The dependencies of one definition, as CompileMechanicGraph collects them.
unfoldable pub compiled_dependencies : MechanicDefinition → List RulesId
compiled_dependencies d = elim (derived_expression d) [
  | none ↦ []
  | some e ↦ sorted_set (collect e [])
]

-- CompileMechanicGraph
unfoldable pub compile_graph : Definitions → Result MechanicGraph
compile_graph definitions = elim (validate_graph definitions) [
  | none ↦ err out_of_fuel
  | some errs ↦ do
    require_valid err_invalid_definition errs
    let dependencies =
        map {B = RulesId × List RulesId} (λ (id, d). (id, compiled_dependencies d)) definitions
    elim (dependency_order definitions dependencies) [
      | none ↦ err out_of_fuel
      | some order ↦ ok (record {
        dependencies = dependencies;
        definitions = some (
            map {B = RulesId × MechanicDefinition} (λ (id, d). (id, clone_definition d))
              definitions);
        order = order;
      })
    ]
]
