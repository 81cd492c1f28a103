-- ===== src/Bridge.antt =====
-- ui/src/pages/recording-playback/useRenderBridge.ts: the effect that brings the markers of the entities
-- and the fire lines on the map into line with the engine's snapshots.
--
-- `Scene` is what a renderer promises by ui/src/renderers/renderer.interface.ts: a created marker or line
-- is on the map under a new handle until it is removed, with the state of its last update. `legal` tells
-- that every call so far had a handle of something on the map.
pub mod Drawing
pub mod Lines
pub mod Prune
pub mod Shown
pub mod InStep
pub mod Draw
mod Tests
use Prim.Native.String
use Prim.Native.String.{String}
use text.Mathlib.Text.{◌==◌ as str_eq}
use ocap2_web.Base.{
  ℕ, zero, suc, ◌+◌, Bool, true, false, not, ◌&&◌, Option, none, some, List, [], ◌∷◌, ◌++◌, ◌==◌,
  ltb, length, contains, keep, if◌then◌else◌,
}
use ocap2_web.Base.Int.{pos}
use ocap2_web.Base.Map
use ocap2_web.Base.Map.{Map}
use ocap2_web.Types.{
  ArmaCoord, Number, whole, AliveState, Side, west, east, guer, civ, EntityType, EntitySnapshot,
  HitKind, hit, killed,
}
use ocap2_web.Entities.{Entity, Vehicle, unit, vehicle, or_else}
use ocap2_web.Events.{GameEvent, EventManager, hit_killed_event, get_events_at_frame, is_killed}
use ocap2_web.Bridge.Drawing.{
  Scene, CrewInfo, MarkerState, MarkerOpts, Line, create_marker, update_marker, remove_marker,
  add_line, remove_line,
}

-- The lookups of the entity manager, and the text of a number.
module _ (get_entity : ℕ → Option Entity) (text_of : ℕ → String) where
  -- `member.name || "Unit " + id`, of a member that is a player.
  abbrev pub player_name : ℕ → Option Entity → List String
  player_name id (some (unit u)) =
      if u.is_player
      then (if str_eq u.base.name "" then String.◌++◌ "Unit " (text_of id) else u.base.name) ∷ []
      else []
  player_name id _ = []

  unfoldable pub crew_names : List ℕ → List String
  crew_names [] = []
  crew_names (id ∷ ids) = player_name id (get_entity id) ++ crew_names ids

  unfoldable pub get_crew_info : Vehicle → CrewInfo
  unfolding crew_names
  get_crew_info v = record { count = length v.crew; names = crew_names v.crew }

  abbrev pub crew_of : Option Entity → Option CrewInfo
  crew_of (some (vehicle v)) = some (get_crew_info v)
  crew_of _ = none

  abbrev pub is_player_shown : EntitySnapshot → Option CrewInfo → Bool
  is_player_shown snap none = snap.is_player
  is_player_shown snap (some crew) = ltb 0 (length crew.names)

  abbrev pub opts_of : ℕ → EntitySnapshot → MarkerOpts
  opts_of id snap = record {
    entity = id;
    position = snap.position;
    direction = snap.direction;
    icon_type = snap.icon_type;
    side = snap.side;
    name = snap.name;
    is_player = is_player_shown snap (crew_of (get_entity id));
    crew = crew_of (get_entity id);
  }

  abbrev pub state_of : List ℕ → ℕ → EntitySnapshot → MarkerState
  state_of hits id snap = record {
    position = snap.position;
    direction = snap.direction;
    alive = snap.alive;
    side = snap.side;
    name = snap.name;
    icon_type = snap.icon_type;
    is_player = is_player_shown snap (crew_of (get_entity id));
    is_in_vehicle = snap.is_in_vehicle;
    hit = contains id hits;
    crew = crew_of (get_entity id);
  }

-- The victims of the events at the frame that are hits.
unfoldable pub hit_ids : List GameEvent → List ℕ
hit_ids [] = []
hit_ids (e ∷ es) = elim e.detail [
  | hit_killed_event h ↦ if is_killed h.kind then hit_ids es else h.victim_id ∷ hit_ids es
  | _ ↦ hit_ids es
]

abbrev pub side_color : Option Side → String
side_color none = "#FFFFFF"
side_color (some west) = "#004d99"
side_color (some east) = "#800000"
side_color (some guer) = "#007f00"
side_color (some civ) = "#650080"

-- The closure's state: the handles of the markers by entity, and those of the lines.
pub record Bridge : Type 0 where
  pub handles : Map ℕ
  pub fire_lines : List ℕ
  pub scene : Scene

unfoldable pub remove_lines : List ℕ → Scene → Scene
unfolding remove_line
remove_lines [] s = s
remove_lines (h ∷ hs) s = remove_lines hs (remove_line h s)

-- The loop over the handles, which deletes those of entities without a snapshot.
unfoldable pub prune : Map EntitySnapshot → Map ℕ → Scene → Map ℕ × Scene
unfolding remove_marker
prune snapshots [] s = ([], s)
prune snapshots ((id, h) ∷ handles) s =
    if Map.has id snapshots
    then (let (kept, s') = prune snapshots handles s in ((id, h) ∷ kept, s'))
    else prune snapshots handles (remove_marker h s)

-- The double next to 0.4.
abbrev line_opacity : Number
line_opacity = record { mantissa = pos 3602879701896397; places = 53 }

abbrev pub line_from : EntitySnapshot → ArmaCoord → Line
line_from snap target = record {
  from = snap.position;
  to = target;
  color = side_color snap.side;
  weight = whole 2;
  opacity = line_opacity;
}

unfoldable pub add_fire_lines : EntitySnapshot → List ArmaCoord → Bridge → Bridge
add_fire_lines snap [] b = b
add_fire_lines snap (target ∷ targets) b = add_fire_lines snap targets (record b {
  fire_lines = b.fire_lines ++ b.scene.next ∷ [];
  scene = add_line (line_from snap target) b.scene;
})

module _ (get_entity : ℕ → Option Entity) (text_of : ℕ → String) (hits : List ℕ) where
  unfoldable pub draw_marker : ℕ → EntitySnapshot → Bridge → Bridge
  draw_marker id snap b = elim (Map.get id b.handles) [
    | some h ↦ record b {
      scene = update_marker h (state_of get_entity text_of hits id snap) b.scene;
    }
    | none ↦ record b {
      handles = Map.put id b.scene.next b.handles;
      scene =
          update_marker b.scene.next (state_of get_entity text_of hits id snap)
            (create_marker (opts_of get_entity text_of id snap) b.scene);
    }
  ]

  unfoldable pub draw_all : Map EntitySnapshot → Bridge → Bridge
  draw_all [] b = b
  draw_all ((id, snap) ∷ snaps) b =
      draw_all snaps (add_fire_lines snap (or_else snap.fired_targets []) (draw_marker id snap b))

-- The effect, with what it reads of the engine.
unfoldable pub sync_markers :
    (ℕ → Option Entity) → (ℕ → String) → EventManager → ℕ → Map EntitySnapshot → Bridge → Bridge
sync_markers get_entity text_of events frame snapshots b =
    let pruned = prune snapshots b.handles (remove_lines b.fire_lines b.scene) in
    draw_all get_entity text_of (hit_ids (get_events_at_frame frame events)) snapshots
      (record { handles = pruned.0; fire_lines = []; scene = pruned.1 })

abbrev pub new_bridge : Scene → Bridge
new_bridge s = record { handles = []; fire_lines = []; scene = s }
