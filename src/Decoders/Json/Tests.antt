-- ===== src/Decoders/Json/Tests.antt =====
-- Concrete runs of the decoder of ui/src/data/decoders/jsonDecoder.ts.
use ocap2_web.Base.{
  ℕ, ◌-◌, ◌≤◌, ◌≡◌, refl, true, Option, none, some, List, [], ◌∷◌, arith, get_elem?,
}
use ocap2_web.Base.Int.{pos, ◌≤ℤ◌, ltb_ℤ}
use ocap2_web.Base.{Bool}
use ocap2_web.Types
use ocap2_web.Types.{EntityState, EntityDef, Value, arr, nil, cons, str, Values}
use ocap2_web.Markers.Parse.{of_list, number}
use ocap2_web.Decoders.Json.{Cast, cast, outside, RawJsonEntity, convert_entity, Run, expand}
use ocap2_web.Decoders.Json.Expand.{expand-covers, convert_entity-covers}

abbrev array : List Value → Value
array vs = arr (of_list vs)

-- A vehicle's entry at `(x, 0)`, with its crew and its frame range.
abbrev entry : ℕ → ℕ → ℕ → List Value
entry x a b =
    array (number x ∷ number 0 ∷ [])
    ∷ number 180
    ∷ number 1
    ∷ array (number 3 ∷ [])
    ∷ array (number a ∷ number b ∷ [])
    ∷ []

abbrev truck_5 : RawJsonEntity
truck_5 = record {
  id = 5;
  type = "vehicle";
  name = "Truck";
  side = "UNKNOWN";
  group = none;
  is_player = none;
  start_frame_num = some 10;
  role = none;
  class = some "truck";
  positions = some (entry 100 10 12 ∷ entry 200 13 13 ∷ entry 300 14 20 ∷ []);
  frames_fired = none;
}

abbrev def_of : Cast EntityDef → Option EntityDef
def_of (cast d) = some d
def_of outside = none

abbrev states_or_empty : Option EntityDef → List EntityState
states_or_empty none = []
states_or_empty (some d) = elim d.positions [ none ↦ [] | some states ↦ states ]

abbrev empty_def : EntityDef
empty_def = record {
  id = 0;
  type = Types.unknown;
  name = "";
  side = Types.civ;
  group_name = "";
  is_player = Bool.false;
  start_frame = 0;
  end_frame = pos 0;
  role = none;
  frames_fired = none;
  positions = none;
}

abbrev truck_def : EntityDef
truck_def = elim (convert_entity truck_5) [ cast d ↦ d | outside ↦ empty_def ]

truck_converts : convert_entity truck_5 ≡ cast truck_def
unfolding convert_entity
truck_converts = refl

truck_positions : truck_def.positions ≡ some (states_or_empty (some truck_def))
unfolding convert_entity
truck_positions = refl

truck_start : truck_def.start_frame ≤ 15
unfolding convert_entity
truck_start = omega arith

convert_entity-covers_example :
    (pos 15 ≤ℤ truck_def.end_frame
      → (s : EntityState) × (get_elem?
            (states_or_empty (some truck_def))
            (15 - truck_def.start_frame)
          ≡ some s))
    × (ltb_ℤ truck_def.end_frame (pos 15) ≡ true
        → get_elem? (states_or_empty (some truck_def)) (15 - truck_def.start_frame) ≡ none)
convert_entity-covers_example =
    convert_entity-covers truck_5 truck_def (states_or_empty (some truck_def)) 15 truck_converts
      truck_positions truck_start

abbrev some_state : EntityState
some_state = record {
  position = Types.xy (Types.whole 0) (Types.whole 0);
  direction = Types.whole 0;
  alive = Types.alive;
  name = none;
  crew_ids = none;
  vehicle_id = none;
  is_in_vehicle = none;
  is_player = none;
  group_name = none;
  side = none;
}

abbrev run_between : ℕ → ℕ → Run
run_between a b = record { state = some_state; range = some (a, b) }

abbrev three_runs : List Run
three_runs =
    run_between 10 12 ∷ record { state = some_state; range = none } ∷ run_between 14 20 ∷ []

expand-covers_example : get_elem? (expand three_runs) (17 - 10) ≡ some some_state
expand-covers_example =
    expand-covers three_runs 10 2 14 20 17 (run_between 14 20)
      ((refl, omega arith), (tt, ((refl, omega arith), tt))) refl refl (omega arith) (omega arith)
