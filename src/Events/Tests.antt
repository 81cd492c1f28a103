-- ===== src/Events/Tests.antt =====
-- Concrete runs of the class EventManager of ui/src/playback/eventManager.ts.
use ocap2_web.Base.{
  ℕ, ◌≡◌, refl, true, false, none, some, List, [], ◌∷◌, ◌==◌, leb, keep, All, if◌then◌else◌, subst,
  some_inj,
}
use ocap2_web.Base.Int.{pos}
use ocap2_web.Base.Map
use ocap2_web.Types.{
  EntityDef, EventDef, whole, hit_killed, killed, hit, general, counter, counter_set, man, tank,
  west, east, Side, EntityType,
}
use ocap2_web.Entities.{Entity}
use ocap2_web.Entities.Manager.{
  EntityManager, empty_manager, add_entity, add_entities, new_entity, get_entity,
}
use ocap2_web.Search.{SortedBy}
use ocap2_web.Events.{
  HitKilledEvent, EventManager, empty_events, add_events, add_event, create_game_event, event_frame,
  get_events_at_frame, get_active_events, resolve_references, get_kill_death_counts, kill_of,
}
use ocap2_web.Events.Index.{get_events_at_frame-loaded}
use ocap2_web.Events.Active.{get_active_events-log}
use ocap2_web.Events.Scores.Kill.{Agrees}
use ocap2_web.Events.Scores.{IsFresh, HasVictim, get_kill_death_counts-Agrees, add_entities-IsFresh}

abbrev entity_def : ℕ → EntityType → Side → EntityDef
entity_def id type side = record {
  id = id;
  type = type;
  name = "e";
  side = side;
  group_name = "Alpha";
  is_player = false;
  start_frame = 0;
  end_frame = pos 100;
  role = none;
  frames_fired = none;
  positions = none;
}

abbrev entity_defs : List EntityDef
entity_defs = entity_def 1 man west ∷ entity_def 2 man east ∷ entity_def 3 tank west ∷ []

abbrev event_defs : List EventDef
event_defs =
    record { frame_num = 7; body = hit_killed killed 2 1 (whole 50) "rifle" }
    ∷ record { frame_num = 3; body = hit_killed hit 1 2 (whole 80) "rifle" }
    ∷ record { frame_num = 3; body = counter counter_set [] }
    ∷ record { frame_num = 3; body = general "go" }
    ∷ []

abbrev entities : EntityManager
entities = add_entities entity_defs empty_manager

abbrev events : EventManager
events = add_events 0 event_defs empty_events

get_events_at_frame-loaded_example :
    get_events_at_frame 3 (resolve_references events entities).0
    ≡ keep (λ e. e.frame_num == 3) (resolve_references events entities).0.events
get_events_at_frame-loaded_example = get_events_at_frame-loaded event_defs entities 3

get_active_events-log_example :
    SortedBy event_frame (get_active_events 5 events)
    × ((f : ℕ)
        → keep (λ e. event_frame e == f) (get_active_events 5 events)
          ≡ (if leb f 5 then keep (λ e. e.frame_num == f) events.events else []))
get_active_events-log_example = get_active_events-log events 5

empty_manager-IsFresh : IsFresh empty_manager
unfolding Map.get
empty_manager-IsFresh id u e = cc

entities-IsFresh : IsFresh entities
entities-IsFresh = add_entities-IsFresh entity_defs empty_manager empty_manager-IsFresh

known_victims : All (HasVictim entities) events.events
unfolding add_events create_game_event add_event kill_of get_entity Map.get add_entities add_entity
    new_entity Map.put
known_victims = (
  λ h e.
      subst (λ (x : HitKilledEvent). (v : Entity) × (get_entity x.victim_id entities ≡ some v))
        (some_inj e) (new_entity (entity_def 2 man east), refl),
  (λ h e. cc e, (λ h e. cc e, tt)),
)

early_events : All (λ e. leb e.frame_num 10 ≡ true) events.events
unfolding add_events create_game_event add_event
early_events = (refl, (refl, (refl, tt)))

get_kill_death_counts-Agrees_example :
    Agrees
      (resolve_references events entities).1
      (get_kill_death_counts 10 (resolve_references events entities).0)
get_kill_death_counts-Agrees_example =
    get_kill_death_counts-Agrees events entities 10 entities-IsFresh known_victims early_events
