-- ===== src/Events/Scores.antt =====
-- The two ways in which ui/src/playback/eventManager.ts counts kills and deaths: the counters of the
-- units, which `resolveReferences` increments, and `getKillDeathCounts`, which scans the events.
pub mod Kill
pub mod Stray
use mathlib.Core.Option
use ocap2_web.Base.{
  ℕ, ◌+◌, ◌≡◌, refl, sym, ap, subst, ◌∙◌, ◌≤◌, Bool, true, false, not, Option, none, some, List, [],
  ◌∷◌, ◌==◌, ==→eq, if◌then◌else◌, arith, All, leb, ltb, Option-cases, Bool-cases, inl, inr,
}
use ocap2_web.Base.Map
use ocap2_web.Base.Map.{Map}
use Prim.Native.String.{String}
use ocap2_web.Types.{EntityDef, Number, hit_killed, killed}
use ocap2_web.Entities.{Entity, UnitEntity, unit, vehicle}
use ocap2_web.Entities.Manager.{EntityManager, add_entity, add_entities, new_entity, get_entity}
use ocap2_web.Events.{
  GameEvent, HitKilledEvent, EventManager, Counts, no_counts, count_of, bump, count_kill,
  count_event, count_all, get_kill_death_counts, kill_of, is_unit, update_unit, change_entity,
  credit, add_death, score_entities, score_hit, score_event, score_event_entities, score_all,
  resolve_hit, resolve_causer, resolve_victim, resolve_event, resolve_names, resolve_references,
  is_friendly_fire, is_killed, Detail, hit_killed_event, add_events, add_event, create_game_event,
  empty_events,
}
use ocap2_web.Events.Scores.Kill.{Agrees, count_of-bump, IsLinked, score_all-Agrees}

-- The victim of a kill is an entity of the recording.
abbrev pub HasVictim : EntityManager → GameEvent → Type 0
HasVictim em e =
    (h : HitKilledEvent) → kill_of e ≡ some h → (v : Entity) × (get_entity h.victim_id em ≡ some v)

resolve_causer_keeps :
    (o : Option Entity) (h : HitKilledEvent)
    → ((resolve_causer o h).victim_is_vehicle ≡ h.victim_is_vehicle)
      × ((resolve_causer o h).victim_id ≡ h.victim_id)
      × ((resolve_causer o h).kind ≡ h.kind)
resolve_causer_keeps none h = (refl, refl, refl)
resolve_causer_keeps (some (unit u)) h = (refl, refl, refl)
resolve_causer_keeps (some (vehicle v)) h = (refl, refl, refl)

resolve_victim_notes :
    (v : Entity) (h : HitKilledEvent)
    → ((resolve_victim (some v) h).victim_is_vehicle ≡ some (not (is_unit (some v))))
      × ((resolve_victim (some v) h).victim_id ≡ h.victim_id)
      × ((resolve_victim (some v) h).kind ≡ h.kind)
resolve_victim_notes (unit u) h = (refl, refl, refl)
resolve_victim_notes (vehicle v) h = (refl, refl, refl)

resolve_victim_kind : (o : Option Entity) (h : HitKilledEvent) → (resolve_victim o h).kind ≡ h.kind
resolve_victim_kind none h = refl
resolve_victim_kind (some v) h = (resolve_victim_notes v h).2

resolve_hit_kind : (em : EntityManager) (h : HitKilledEvent) → (resolve_hit em h).kind ≡ h.kind
unfolding resolve_hit
resolve_hit_kind em h = (resolve_causer_keeps _ _).2 ∙ resolve_victim_kind _ h

resolve_hit-IsLinked :
    (em : EntityManager) (h : HitKilledEvent)
    → (v : Entity) × (get_entity h.victim_id em ≡ some v)
    → (resolve_hit em h).victim_is_vehicle
      ≡ some (not (is_unit (get_entity (resolve_hit em h).victim_id em)))
unfolding resolve_hit
resolve_hit-IsLinked em h (v, e) =
    let keeps =
      resolve_causer_keeps (get_entity h.caused_by_id em)
        (resolve_victim (get_entity h.victim_id em) h) in
    let notes = resolve_victim_notes v h in rw (keeps.0, keeps.1, e, notes.0, notes.1, e)

resolve_event-IsLinked :
    (em : EntityManager) (e : GameEvent) → HasVictim em e → IsLinked em (resolve_event em e)
unfolding resolve_event kill_of resolve_hit
resolve_event-IsLinked em e known = go e.detail known
  where
    go :
        (d : Detail)
        → HasVictim em (record e { detail = d })
        → IsLinked em (resolve_event em (record e { detail = d }))
    go (hit_killed_event h0) known' h p = elim (Bool-cases (is_killed h0.kind)) [
      | inl yes_ ↦
          let found : some (resolve_hit em h0) ≡ some h = rw (resolve_hit_kind em h0, yes_) at p in
          let same : resolve_hit em h0 ≡ h = cc in
          rw (← same) (resolve_hit-IsLinked em h0 (known' h0 (rw yes_)))
      | inr no_ ↦ cc (rw (resolve_hit_kind em h0, no_) at p)
    ]
    go (Detail.connect_event k n) known' h p = cc
    go (Detail.end_mission_event x m) known' h p = cc
    go (Detail.general_event m) known' h p = cc
    go (Detail.captured_event k n o x q) known' h p = cc
    go (Detail.terminal_hack_event k n) known' h p = cc

resolve_names-IsLinked :
    (em : EntityManager) (es : List GameEvent)
    → All (HasVictim em) es
    → All (IsLinked em) (resolve_names em es)
unfolding resolve_names
resolve_names-IsLinked em [] k = tt
resolve_names-IsLinked em (e ∷ es) k =
    (resolve_event-IsLinked em e k.0, resolve_names-IsLinked em es k.1)

resolve_names-All_frame :
    (frame : ℕ) (em : EntityManager) (es : List GameEvent)
    → All (λ e. leb e.frame_num frame ≡ true) es
    → All (λ e. leb e.frame_num frame ≡ true) (resolve_names em es)
unfolding resolve_names resolve_event
resolve_names-All_frame frame em [] k = tt
resolve_names-All_frame frame em (e ∷ es) k =
    (ground arith, resolve_names-All_frame frame em es k.1)

-- Every unit starts with its counters at 0.
abbrev pub IsFresh : EntityManager → Type 0
IsFresh em = Agrees em no_counts

-- If the units' counters start at 0, the victim of every kill is an entity of the recording, and no
-- event is later than the frame, then the two ways of counting agree after the resolution: for every
-- unit the scan's kills, deaths and team kills are the unit's three counters.
pub get_kill_death_counts-Agrees :
    (m : EventManager) (em : EntityManager) (frame : ℕ)
    → IsFresh em
    → All (HasVictim em) m.events
    → All (λ e. leb e.frame_num frame ≡ true) m.events
    → Agrees (resolve_references m em).1 (get_kill_death_counts frame (resolve_references m em).0)
unfolding resolve_references get_kill_death_counts
get_kill_death_counts-Agrees m em frame fresh known le =
    score_all-Agrees frame (resolve_names em m.events) em no_counts
      (resolve_names-IsLinked em m.events known) (resolve_names-All_frame frame em m.events le)
      fresh

new_entity-fresh :
    (def : EntityDef) (u : UnitEntity)
    → new_entity def ≡ unit u
    → (0 ≡ u.kill_count) × (0 ≡ u.death_count) × (0 ≡ u.team_kill_count)
unfolding new_entity
new_entity-fresh def u e = ground arith

add_entity-IsFresh :
    (def : EntityDef) (em : EntityManager) → IsFresh em → IsFresh (add_entity def em)
unfolding add_entity Map.get
add_entity-IsFresh def em f id u e = elim (Bool-cases (def.id == id)) [
  | inl same ↦
      new_entity-fresh def u
        (some_unit (rw (Map.get-put def.id id (new_entity def) em.entities, same) at e))
  | inr other ↦ f id u (rw (Map.get-put def.id id (new_entity def) em.entities, other) at e)
]
  where
    some_unit : some (new_entity def) ≡ some (unit u) → new_entity def ≡ unit u
    some_unit h = cc

-- If the counters of every unit are 0, they still are after the entities of a recording are added.
pub add_entities-IsFresh :
    (defs : List EntityDef) (em : EntityManager) → IsFresh em → IsFresh (add_entities defs em)
unfolding add_entities
add_entities-IsFresh [] em f = f
add_entities-IsFresh (def ∷ defs) em f =
    add_entities-IsFresh defs (add_entity def em) (add_entity-IsFresh def em f)
