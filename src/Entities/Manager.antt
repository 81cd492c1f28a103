-- ===== src/Entities/Manager.antt =====
-- ui/src/playback/entityManager.ts: the class EntityManager.
use Prim.Native.String
use Prim.Native.String.{String}
use text.Mathlib.Text.{◌==◌ as str_eq}
use ocap2_web.Base.{
  ℕ, Bool, true, false, Option, none, some, List, [], ◌∷◌, ◌++◌, ◌&&◌, keep, if◌then◌else◌, map,
}
use ocap2_web.Base.Int.{ℤ, pos, ◌-ℤ◌, ltb_ℤ}
use ocap2_web.Base.Map
use ocap2_web.Base.Map.{Map}
use ocap2_web.Types.{EntityDef, man, Side, west, east, guer, civ}
use ocap2_web.Entities.{Entity, UnitEntity, Vehicle, Group, unit, vehicle, or_else}

pub record EntityManager : Type 0 where
  pub entities : Map Entity
  pub groups : List Group

abbrev pub empty_manager : EntityManager
empty_manager = record { entities = []; groups = [] }

unfoldable pub new_entity : EntityDef → Entity
new_entity def = elim def.type [
  | man ↦ unit (record {
    base = record {
      id = def.id;
      name = def.name;
      type = def.type;
      start_frame = def.start_frame;
      end_frame = def.end_frame;
      positions = def.positions;
      icon_type = man;
    };
    side = def.side;
    role = or_else def.role "";
    is_player = def.is_player;
    group_name = def.group_name;
    kill_count = 0;
    team_kill_count = 0;
    death_count = 0;
    frames_fired = def.frames_fired;
  })
  | _ ↦ vehicle (record {
    base = record {
      id = def.id;
      name = def.name;
      type = def.type;
      start_frame = def.start_frame;
      end_frame = def.end_frame;
      positions = def.positions;
      icon_type = def.type;
    };
    vehicle_type = def.type;
    crew = [];
  })
]

unfoldable pub add_entity : EntityDef → EntityManager → EntityManager
unfolding new_entity
add_entity def em = record em { entities = Map.put def.id (new_entity def) em.entities }

unfoldable pub add_entities : List EntityDef → EntityManager → EntityManager
unfolding add_entity
add_entities [] em = em
add_entities (def ∷ defs) em = add_entities defs (add_entity def em)

unfoldable pub get_entity : ℕ → EntityManager → Option Entity
get_entity id em = Map.get id em.entities

unfoldable pub get_all : EntityManager → List Entity
get_all em = Map.values em.entities

unfoldable pub units_of : List Entity → List UnitEntity
units_of [] = []
units_of (unit u ∷ es) = u ∷ units_of es
units_of (vehicle v ∷ es) = units_of es

unfoldable pub get_units : EntityManager → List UnitEntity
unfolding units_of get_all
get_units em = units_of (get_all em)

unfoldable pub vehicles_of : List Entity → List Vehicle
vehicles_of [] = []
vehicles_of (unit u ∷ es) = vehicles_of es
vehicles_of (vehicle v ∷ es) = v ∷ vehicles_of es

unfoldable pub get_vehicles : EntityManager → List Vehicle
unfolding vehicles_of get_all
get_vehicles em = vehicles_of (get_all em)

abbrev pub side_eq : Side → Side → Bool
side_eq west west = true
side_eq east east = true
side_eq guer guer = true
side_eq civ civ = true
side_eq _ _ = false

-- The number of frames of a unit's life, less one.
abbrev pub lifetime : UnitEntity → ℤ
lifetime u = u.base.end_frame -ℤ pos u.base.start_frame

-- The key of the map `best`: the group, the character 0, and the name.
abbrev pub best_key : UnitEntity → String
best_key u = String.◌++◌ u.group_name (String.◌++◌ "\0" u.base.name)

-- `best.get(key)`, the test, and `best.set(key, u)`.
unfoldable pub keep_best : UnitEntity → List (String × UnitEntity) → List (String × UnitEntity)
keep_best u [] = (best_key u, u) ∷ []
keep_best u ((k, v) ∷ best) =
    if str_eq k (best_key u)
    then (if ltb_ℤ (lifetime v) (lifetime u) then (k, u) ∷ best else (k, v) ∷ best)
    else (k, v) ∷ keep_best u best

-- The loop of `getBySide`, with the two collections.
unfoldable pub dedup :
    List UnitEntity → List (String × UnitEntity) → List UnitEntity → List UnitEntity
unfolding keep_best
dedup [] best unnamed = map (λ e. e.1) best ++ unnamed
dedup (u ∷ us) best unnamed =
    dedup us (if str_eq u.base.name "" then best else keep_best u best)
      (if str_eq u.base.name "" then unnamed ++ u ∷ [] else unnamed)

unfoldable pub get_by_side : Side → EntityManager → List UnitEntity
unfolding dedup get_units
get_by_side side em = dedup (keep (λ u. side_eq u.side side) (get_units em)) [] []

unfoldable pub add_group : String → Side → EntityManager → EntityManager
add_group name side em = record em {
  groups = em.groups ++ record { name = name; side = side } ∷ [];
}

unfoldable pub find_in : String → Side → List Group → Option Group
find_in name side [] = none
find_in name side (g ∷ gs) =
    if str_eq g.name name && side_eq g.side side then some g else find_in name side gs

unfoldable pub find_group : String → Side → EntityManager → Option Group
unfolding find_in
find_group name side em = find_in name side em.groups

abbrev pub clear : EntityManager → EntityManager
clear em = empty_manager
