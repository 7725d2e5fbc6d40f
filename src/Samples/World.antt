-- ===== src/Samples/World.antt =====
-- A small world: an input capacity, a derived one that doubles it, and an entity.
use Prim.Native.String.{String}
use mathlib.Core.Bool.{true, false}
use mathlib.Core.List.{[], ◌∷◌}
use mathlib.Core.Option.{none, some}
use gezerah.Base.Int.{ℤ, pos}
use gezerah.Base.Map.{Map}
use gezerah.Base.Text.{codes}
use gezerah.Decimal.Parse.{Decimal}
use gezerah.Types.{
  RulesId, value_number, MechanicValue, zero_value, MechanicDefinition, source_input,
  source_derived, Expression, node, nil, cons, op_literal, op_mechanic_reference,
  op_multiply_number, Entity, InputOverrideRecord, InlineStatus, StatusInstance, ConcreteEffect,
  effect_set, effect_adjust_number, effect_apply_status, EffectOperation, modifier_add_number,
  TransitionPlan, RuntimeSnapshot,
}
use gezerah.Values.{number_value}

abbrev pub dec : String → Decimal
dec s = record { canonical = codes s }

abbrev pub number : String → MechanicValue
number s = number_value (dec s)

abbrev pub strength : MechanicDefinition
strength = record {
  id = "strength";
  world_id = "w";
  source_kind = source_input;
  value_kind = value_number;
  default_value = number "3";
  expression = none;
  minimum = some (record { canonical = [] });
  maximum = some (dec "10");
  step = some (dec "0.5");
  mutable = true;
  archived = false;
}

abbrev pub reach_expression : Expression
reach_expression = node op_multiply_number none "" (
    cons (node op_mechanic_reference none "strength" nil)
      (cons (node op_literal (some (number "2")) "" nil) nil))

abbrev pub reach : MechanicDefinition
reach = record {
  id = "reach";
  world_id = "w";
  source_kind = source_derived;
  value_kind = value_number;
  default_value = zero_value;
  expression = some reach_expression;
  minimum = none;
  maximum = none;
  step = none;
  mutable = false;
  archived = false;
}

abbrev pub mechanics : Map MechanicDefinition
mechanics = ("strength", strength) ∷ ("reach", reach) ∷ []

abbrev pub hero : Entity
hero = record { id = "hero"; world_id = "w"; display_name = "Hero"; archived = false }

abbrev pub villain : Entity
villain = record { id = "villain"; world_id = "w"; display_name = "Villain"; archived = false }

abbrev pub entities : Map Entity
entities = ("hero", hero) ∷ ("villain", villain) ∷ []

abbrev pub villain_record : InputOverrideRecord
villain_record = record {
  entity_id = "villain";
  revision = pos 1;
  overrides = ("strength", number "9") ∷ [];
}

abbrev pub hero_record : InputOverrideRecord
hero_record = record {
  entity_id = "hero";
  revision = pos 4;
  overrides = ("strength", number "7.5") ∷ [];
}

abbrev pub blessing : InlineStatus
blessing = record {
  id = "bless";
  world_id = "w";
  modifiers =
      record {
        id = "m";
        position = pos 0;
        priority = pos 0;
        mechanic_id = "strength";
        operation = modifier_add_number;
        value = number "1";
      }
      ∷ [];
}

abbrev pub statuses : Map InlineStatus
statuses = ("bless", blessing) ∷ []

abbrev pub blessed : StatusInstance
blessed = record {
  id = "i1";
  world_id = "w";
  entity_id = "hero";
  source_effect_id = "bless";
  applied_order = pos 0;
}

abbrev pub plain_effect : RulesId → ℤ → EffectOperation → ConcreteEffect
plain_effect id position operation = record {
  id = id;
  position = position;
  operation = operation;
  entity_ids = "hero" ∷ [];
  mechanic_id = "";
  value = none;
  adjustment_amount = none;
  inline_status = none;
  status_instance_ids = [];
  status_instances = [];
}

abbrev pub set_strength : ConcreteEffect
set_strength = record (plain_effect "set" (pos 0) effect_set) {
  mechanic_id = "strength";
  value = some (number "2");
}

abbrev pub raise_strength : ConcreteEffect
raise_strength = record (plain_effect "raise" (pos 1) effect_adjust_number) {
  mechanic_id = "strength";
  adjustment_amount = some (dec "1");
}

abbrev pub bless_hero : ConcreteEffect
bless_hero = record (plain_effect "bless" (pos 2) effect_apply_status) {
  inline_status = some blessing;
  status_instances = ("hero", blessed) ∷ [];
}

-- The effects are listed in another order than their positions.
abbrev pub plan : TransitionPlan
plan = record { effects = bless_hero ∷ raise_strength ∷ set_strength ∷ [] }

abbrev pub snapshot : RuntimeSnapshot
snapshot = record {
  input_overrides = record { by_entity = ("hero", hero_record) ∷ ("villain", villain_record) ∷ [] };
  status_instances = [];
}
