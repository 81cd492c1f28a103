-- ===== src/Entities.antt =====
-- ui/src/playback/entities/*.ts: the classes Entity, Unit, Vehicle and Group, without styling. An
-- object of a subclass is a constructor of `Entity` over its record, with the fields of the base class
-- in `base`.
pub mod Manager
use Prim.Native.String.{String}
use mathlib.Core.Option
use ocap2_web.Base.{
  ℕ, zero, suc, ◌+◌, Bool, true, false, Option, none, some, List, [], ◌∷◌, ◌++◌, ◌==◌, leb, length,
  get_elem?, if◌then◌else◌,
}
use ocap2_web.Base.Int.{ℤ, pos, negsuc, sub_ℕ}
use ocap2_web.Types.{ArmaCoord, EntityState, EntitySnapshot, EntityType, Side}

pub record EntityBase : Type 0 where
  pub id : ℕ
  pub name : String
  pub type : EntityType
  pub start_frame : ℕ
  pub end_frame : ℤ
  pub positions : Option (List EntityState)
  pub icon_type : EntityType

pub record UnitEntity : Type 0 where
  pub base : EntityBase
  pub side : Side
  pub role : String
  pub is_player : Bool
  pub group_name : String
  pub kill_count : ℕ
  pub team_kill_count : ℕ
  pub death_count : ℕ
  pub frames_fired : Option (List (ℕ × ArmaCoord))

pub record Vehicle : Type 0 where
  pub base : EntityBase
  pub vehicle_type : EntityType
  pub crew : List ℕ

pub data Entity : Type 0 where
  unit : UnitEntity → Entity
  vehicle : Vehicle → Entity

abbrev pub base_of : Entity → EntityBase
base_of (unit u) = u.base
base_of (vehicle v) = v.base

pub record Group : Type 0 where
  pub name : String
  pub side : Side

-- `??`.
abbrev pub or_else {ℓ} : {A : Type ℓ} → Option A → A → A
or_else none d = d
or_else (some a) d = a

unfoldable pub get_relative_frame_index : EntityBase → ℕ → ℤ
get_relative_frame_index b frame = sub_ℕ frame b.start_frame

unfoldable pub is_frame_out_of_bounds : EntityBase → ℤ → Bool
is_frame_out_of_bounds b (negsuc _) = true
is_frame_out_of_bounds b (pos i) = elim b.positions [
  | none ↦ true
  | some states ↦ leb (length states) i
]

-- `positions![relativeFrame]`.
abbrev pub state_at : EntityBase → ℤ → Option EntityState
state_at b (negsuc _) = none
state_at b (pos i) = elim b.positions [ none ↦ none | some states ↦ get_elem? states i ]

abbrev pub snapshot_of : EntityBase → EntityState → Option Side → Bool → Bool → EntitySnapshot
snapshot_of b state side is_player is_in_vehicle = record {
  id = b.id;
  position = state.position;
  direction = state.direction;
  alive = state.alive;
  side = side;
  name = or_else state.name b.name;
  icon_type = b.icon_type;
  is_player = is_player;
  is_in_vehicle = is_in_vehicle;
  fired_targets = none;
}

unfoldable pub unit_state_at_frame : UnitEntity → ℤ → Option EntitySnapshot
unfolding is_frame_out_of_bounds
unit_state_at_frame u frame =
    if is_frame_out_of_bounds u.base frame
    then none
    else Option.map
        (λ state.
          snapshot_of u.base state (some (or_else state.side u.side)) u.is_player
            (or_else state.is_in_vehicle false))
        (state_at u.base frame)

unfoldable pub vehicle_state_at_frame : Vehicle → ℤ → Option EntitySnapshot
unfolding is_frame_out_of_bounds
vehicle_state_at_frame v frame =
    if is_frame_out_of_bounds v.base frame
    then none
    else Option.map (λ state. snapshot_of v.base state none false false) (state_at v.base frame)

-- The loop of `firedOnFrame`; `targets` is null until the first shot is found.
unfoldable pub fired_from :
    ℕ → List (ℕ × ArmaCoord) → Option (List ArmaCoord) → Option (List ArmaCoord)
fired_from frame [] targets = targets
fired_from frame ((f, at) ∷ shots) targets =
    fired_from frame shots (if f == frame then some (or_else targets [] ++ at ∷ []) else targets)

unfoldable pub fired_on_frame : UnitEntity → ℕ → Option (List ArmaCoord)
unfolding fired_from
fired_on_frame u frame = elim u.frames_fired [
  | none ↦ none
  | some shots ↦ fired_from frame shots none
]

abbrev pub set_crew : List ℕ → Vehicle → Vehicle
set_crew ids v = record v { crew = ids }

-- The loop of `getSideFromCrew`.
unfoldable pub side_from_crew : (ℕ → Option Entity) → List ℕ → Option Side
side_from_crew get_entity [] = none
side_from_crew get_entity (id ∷ ids) = elim (get_entity id) [
  | some (unit u) ↦ some u.side
  | _ ↦ side_from_crew get_entity ids
]

unfoldable pub get_side_from_crew : (ℕ → Option Entity) → Vehicle → Option Side
unfolding side_from_crew
get_side_from_crew get_entity v = side_from_crew get_entity v.crew
