-- ===== src/Events.antt =====
-- ui/src/playback/events/*.ts, the class EventManager of ui/src/playback/eventManager.ts, and
-- `createGameEvent` of ui/src/playback/engine.ts.
--
-- An event object is reached from the list and from the frame index, and `resolveReferences` changes
-- it in place: the list stands for the objects, and the index holds their places in it.
pub mod Index
pub mod Active
pub mod Scores
mod Tests
use Prim.Native.String.{String}
use ocap2_web.Base.{
  ℕ, zero, suc, ◌+◌, ◌*◌, Bool, true, false, not, ◌&&◌, Option, none, some, List, [], ◌∷◌, ◌++◌,
  ◌==◌, leb, ltb, length, get_elem?, keep, if◌then◌else◌,
}
use ocap2_web.Base.Int.{ℤ, pos, sub_ℕ}
use ocap2_web.Base.Map
use ocap2_web.Base.Map.{Map}
use ocap2_web.Types.{
  Number, Side, EventDef, EventBody, HitKind, ConnectKind, CaptureKind, HackKind, hit, killed,
  hit_killed, connect, counter, end_mission, general, capture, terminal_hack,
}
use ocap2_web.Entities.{Entity, UnitEntity, unit, vehicle, base_of, or_else}
use ocap2_web.Entities.Manager.{EntityManager, get_entity, side_eq}
use ocap2_web.Sort.{sort_by}

-- The fields behind the first five are undefined until `resolveReferences`.
pub record HitKilledEvent : Type 0 where
  pub kind : HitKind
  pub victim_id : ℕ
  pub caused_by_id : ℕ
  pub distance : Number
  pub weapon : String
  pub victim_name : Option String
  pub causer_name : Option String
  pub victim_side : Option Side
  pub causer_side : Option Side
  pub causer_kill_score : Option ℤ
  pub victim_is_vehicle : Option Bool

-- The subclasses of GameEvent, each with its own fields.
pub data Detail : Type 0 where
  hit_killed_event : HitKilledEvent → Detail
  connect_event : ConnectKind → String → Detail
  end_mission_event : String → String → Detail
  general_event : String → Detail
  captured_event : CaptureKind → String → String → Option String → Option (Number × Number) → Detail
  terminal_hack_event : HackKind → String → Detail

pub record GameEvent : Type 0 where
  pub frame_num : ℕ
  pub id : ℕ
  pub detail : Detail

abbrev pub event_frame : GameEvent → ℕ
event_frame e = e.frame_num

-- `createGameEvent`, with the id that the counter gave.
unfoldable pub create_game_event : ℕ → EventDef → Option GameEvent
create_game_event id def = elim def.body [
  | hit_killed kind victim causer distance weapon ↦ some (record {
    frame_num = def.frame_num;
    id = id;
    detail = hit_killed_event (record {
      kind = kind;
      victim_id = victim;
      caused_by_id = causer;
      distance = distance;
      weapon = weapon;
      victim_name = none;
      causer_name = none;
      victim_side = none;
      causer_side = none;
      causer_kill_score = none;
      victim_is_vehicle = none;
    });
  })
  | connect kind name ↦
      some (record { frame_num = def.frame_num; id = id; detail = connect_event kind name })
  | end_mission side message ↦
      some (record { frame_num = def.frame_num; id = id; detail = end_mission_event side message })
  | general message ↦
      some (record { frame_num = def.frame_num; id = id; detail = general_event message })
  | capture kind name object side position ↦ some (record {
    frame_num = def.frame_num;
    id = id;
    detail = captured_event kind name object side position;
  })
  | terminal_hack kind name ↦
      some (record { frame_num = def.frame_num; id = id; detail = terminal_hack_event kind name })
  | counter kind values ↦ none
]

pub record EventManager : Type 0 where
  pub events : List GameEvent
  pub frame_index : Map (List ℕ)

abbrev pub empty_events : EventManager
empty_events = record { events = []; frame_index = [] }

unfoldable pub add_event : GameEvent → EventManager → EventManager
add_event e m = record {
  events = m.events ++ e ∷ [];
  frame_index =
      Map.put e.frame_num (or_else (Map.get e.frame_num m.frame_index) [] ++ length m.events ∷ [])
        m.frame_index;
}

-- The loop of `loadRecording` over the event definitions; every definition takes an id.
unfoldable pub add_events : ℕ → List EventDef → EventManager → EventManager
unfolding create_game_event add_event
add_events next_id [] m = m
add_events next_id (def ∷ defs) m =
    add_events (next_id + 1) defs
      (elim (create_game_event next_id def) [ none ↦ m | some e ↦ add_event e m ])

unfoldable pub at_places : List GameEvent → List ℕ → List GameEvent
at_places events [] = []
at_places events (i ∷ is) = elim (get_elem? events i) [
  | none ↦ at_places events is
  | some e ↦ e ∷ at_places events is
]

unfoldable pub get_events_at_frame : ℕ → EventManager → List GameEvent
unfolding at_places
get_events_at_frame frame m = at_places m.events (or_else (Map.get frame m.frame_index) [])

unfoldable pub get_active_events : ℕ → EventManager → List GameEvent
get_active_events frame m = sort_by event_frame (keep (λ e. leb e.frame_num frame) m.events)

abbrev pub same_side : Option Side → Option Side → Bool
same_side (some a) (some b) = side_eq a b
same_side _ _ = false

unfoldable pub is_friendly_fire : HitKilledEvent → Bool
is_friendly_fire h =
    same_side h.causer_side h.victim_side
    && (not (h.victim_id == h.caused_by_id) && not (or_else h.victim_is_vehicle false))

-- The first pass of `resolveReferences` at one event.
abbrev pub resolve_victim : Option Entity → HitKilledEvent → HitKilledEvent
resolve_victim none h = h
resolve_victim (some (unit u)) h = record h {
  victim_name = some u.base.name;
  victim_is_vehicle = some false;
  victim_side = some u.side;
}
resolve_victim (some (vehicle v)) h = record h {
  victim_name = some v.base.name;
  victim_is_vehicle = some true;
}

abbrev pub resolve_causer : Option Entity → HitKilledEvent → HitKilledEvent
resolve_causer none h = h
resolve_causer (some (unit u)) h = record h {
  causer_name = some u.base.name;
  causer_side = some u.side;
}
resolve_causer (some (vehicle v)) h = record h { causer_name = some v.base.name }

unfoldable pub resolve_hit : EntityManager → HitKilledEvent → HitKilledEvent
resolve_hit em h =
    resolve_causer (get_entity h.caused_by_id em) (resolve_victim (get_entity h.victim_id em) h)

unfoldable pub resolve_event : EntityManager → GameEvent → GameEvent
resolve_event em e = elim e.detail [
  | hit_killed_event h ↦ record e { detail = hit_killed_event (resolve_hit em h) }
  | _ ↦ e
]

unfoldable pub resolve_names : EntityManager → List GameEvent → List GameEvent
resolve_names em [] = []
resolve_names em (e ∷ es) = resolve_event em e ∷ resolve_names em es

-- A write to the fields of a unit object, by its id; no other entity has them.
abbrev pub change_entity : (UnitEntity → UnitEntity) → Entity → Entity
change_entity f (unit u) = unit (f u)
change_entity f (vehicle v) = vehicle v

unfoldable pub update_unit : ℕ → (UnitEntity → UnitEntity) → EntityManager → EntityManager
update_unit id f em = elim (Map.get id em.entities) [
  | none ↦ em
  | some e ↦ record em { entities = Map.put id (change_entity f e) em.entities }
]

abbrev pub is_unit : Option Entity → Bool
is_unit (some (unit u)) = true
is_unit _ = false

-- The counters that the causer gains by a kill of a unit.
abbrev pub credit : HitKilledEvent → UnitEntity → UnitEntity
credit h u =
    if h.victim_id == h.caused_by_id
    then u
    else (if is_friendly_fire h
        then record u { kill_count = u.kill_count + 1; team_kill_count = u.team_kill_count + 1 }
        else record u { kill_count = u.kill_count + 1 })

abbrev pub score_of : Option Entity → Option ℤ
score_of (some (unit u)) = some (sub_ℕ u.kill_count (u.team_kill_count * 2))
score_of _ = none

abbrev pub add_death : UnitEntity → UnitEntity
add_death u = record u { death_count = u.death_count + 1 }

-- The second pass of `resolveReferences` at a kill: the entities, and the event with its score.
unfoldable pub score_entities : HitKilledEvent → EntityManager → EntityManager
score_entities h em =
    update_unit h.victim_id add_death
      (if is_unit (get_entity h.victim_id em) then update_unit h.caused_by_id (credit h) em else em)

unfoldable pub score_hit : EntityManager → HitKilledEvent → HitKilledEvent
score_hit em h =
    if is_unit (get_entity h.victim_id em) && is_unit (get_entity h.caused_by_id em)
    then record h {
      causer_kill_score =
          score_of (get_entity h.caused_by_id (update_unit h.caused_by_id (credit h) em));
    }
    else h

abbrev pub is_killed : HitKind → Bool
is_killed killed = true
is_killed hit = false

-- The kill that an event is, if it is one.
unfoldable pub kill_of : GameEvent → Option HitKilledEvent
kill_of e = elim e.detail [
  | hit_killed_event h ↦ if is_killed h.kind then some h else none
  | _ ↦ none
]

unfoldable pub score_event_entities : GameEvent → EntityManager → EntityManager
score_event_entities e em = elim (kill_of e) [ none ↦ em | some h ↦ score_entities h em ]

unfoldable pub score_event : EntityManager → GameEvent → GameEvent
score_event em e = elim (kill_of e) [
  | none ↦ e
  | some h ↦ record e { detail = hit_killed_event (score_hit em h) }
]

unfoldable pub score_all : List GameEvent → EntityManager → List GameEvent × EntityManager
score_all [] em = ([], em)
score_all (e ∷ es) em =
    let (scored, em') = score_all es (score_event_entities e em) in (score_event em e ∷ scored, em')

unfoldable pub resolve_references : EventManager → EntityManager → EventManager × EntityManager
unfolding resolve_names score_all
resolve_references m em =
    let (scored, em') = score_all (resolve_names em m.events) em in
    (record m { events = scored }, em')

pub record Counts : Type 0 where
  pub kills : Map ℕ
  pub deaths : Map ℕ
  pub vehicle_kills : Map ℕ
  pub team_kills : Map ℕ

abbrev pub no_counts : Counts
no_counts = record { kills = []; deaths = []; vehicle_kills = []; team_kills = [] }

abbrev pub count_of : ℕ → Map ℕ → ℕ
count_of id m = or_else (Map.get id m) 0

abbrev pub bump : ℕ → Map ℕ → Map ℕ
bump id m = Map.put id (count_of id m + 1) m

unfoldable pub count_kill : HitKilledEvent → Counts → Counts
count_kill h c =
    if or_else h.victim_is_vehicle false
    then (if h.caused_by_id == h.victim_id
        then c
        else record c { vehicle_kills = bump h.caused_by_id c.vehicle_kills })
    else (if h.caused_by_id == h.victim_id
        then record c { deaths = bump h.victim_id c.deaths }
        else record c {
          deaths = bump h.victim_id c.deaths;
          kills = bump h.caused_by_id c.kills;
          team_kills =
              if is_friendly_fire h then bump h.caused_by_id c.team_kills else c.team_kills;
        })

unfoldable pub count_event : ℕ → GameEvent → Counts → Counts
count_event frame e c =
    if ltb frame e.frame_num then c else (elim (kill_of e) [ none ↦ c | some h ↦ count_kill h c ])

unfoldable pub count_all : ℕ → List GameEvent → Counts → Counts
count_all frame [] c = c
count_all frame (e ∷ es) c = count_all frame es (count_event frame e c)

unfoldable pub get_kill_death_counts : ℕ → EventManager → Counts
unfolding count_all
get_kill_death_counts frame m = count_all frame m.events no_counts
