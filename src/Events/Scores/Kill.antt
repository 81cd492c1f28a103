-- ===== src/Events/Scores/Kill.antt =====
-- One kill in the two counts of ui/src/playback/eventManager.ts, and the scan over all events.
use mathlib.Core.Option
use ocap2_web.Base.{
  ℕ, ◌+◌, ◌≡◌, refl, sym, ◌∙◌, Bool, true, false, not, Option, none, some, List, [], ◌∷◌, ◌==◌,
  ==→eq, if◌then◌else◌, arith, All, leb, ltb, Option-cases, Bool-cases, inl, inr,
}
use ocap2_web.Base.Map
use ocap2_web.Base.Map.{Map}
use ocap2_web.Entities.{Entity, UnitEntity, unit, vehicle}
use ocap2_web.Entities.Manager.{EntityManager, get_entity}
use ocap2_web.Events.{
  GameEvent, HitKilledEvent, Counts, count_of, bump, count_kill, count_event, count_all, kill_of,
  is_unit, update_unit, change_entity, credit, add_death, score_entities, score_hit, score_event,
  score_event_entities, score_all, is_friendly_fire,
}

-- The counters of every unit are the counts of the scan.
abbrev pub Agrees : EntityManager → Counts → Type 0
Agrees em c =
    (id : ℕ) (u : UnitEntity)
    → Map.get id em.entities ≡ some (unit u)
    → (count_of id c.kills ≡ u.kill_count)
      × (count_of id c.deaths ≡ u.death_count)
      × (count_of id c.team_kills ≡ u.team_kill_count)

get-update_unit :
    (id k : ℕ) (f : UnitEntity → UnitEntity) (em : EntityManager)
    → Map.get k (update_unit id f em).entities ≡ (
        if id == k
        then Option.map (change_entity f) (Map.get k em.entities)
        else Map.get k em.entities)
unfolding update_unit
get-update_unit id k f em = elim (Option-cases (Map.get id em.entities)) [
  | inl e ↦ rw (e, update_unit) (ground arith)
  | inr (v, e) ↦
      rw (e, update_unit) (ground (arith, Map.get-put id k (change_entity f v) em.entities))
]

pub count_of-bump :
    (id k : ℕ) (m : Map ℕ)
    → count_of k (bump id m) ≡ (if id == k then count_of k m + 1 else count_of k m)
count_of-bump id k m = ground (arith, Map.get-put id k (count_of id m + 1) m)

-- What one kill does to the unit with the id `k`.
after_kill : HitKilledEvent → ℕ → UnitEntity → UnitEntity
after_kill h k u =
    if h.victim_id == k
    then add_death (if h.caused_by_id == k then credit h u else u)
    else (if h.caused_by_id == k then credit h u else u)

change-after_kill :
    (h : HitKilledEvent) (k : ℕ) (o : Option Entity)
    → (if h.victim_id == k
        then Option.map
            (change_entity add_death)
            (if h.caused_by_id == k then Option.map (change_entity (credit h)) o else o)
        else (if h.caused_by_id == k then Option.map (change_entity (credit h)) o else o))
      ≡ Option.map (change_entity (after_kill h k)) o
unfolding after_kill
change-after_kill h k none = ground arith
change-after_kill h k (some (vehicle v)) = ground arith
change-after_kill h k (some (unit u)) = both (h.victim_id == k) (h.caused_by_id == k)
  where
    both :
        (x y : Bool)
        → (if x
            then Option.map
                (change_entity add_death)
                (if y then some (unit (credit h u)) else some (unit u))
            else (if y then some (unit (credit h u)) else some (unit u)))
          ≡ some (
              unit (
                if x
                then add_death (if y then credit h u else u)
                else (if y then credit h u else u)))
    both true true = refl
    both true false = refl
    both false true = refl
    both false false = refl

get-score_entities :
    (h : HitKilledEvent) (em : EntityManager) (k : ℕ)
    → is_unit (get_entity h.victim_id em) ≡ true
    → Map.get k (score_entities h em).entities
      ≡ Option.map (change_entity (after_kill h k)) (Map.get k em.entities)
unfolding score_entities after_kill
get-score_entities h em k v = rw v (
    rw
      (
        get-update_unit h.victim_id k add_death (update_unit h.caused_by_id (credit h) em),
        get-update_unit h.caused_by_id k (credit h) em,
      )
      (change-after_kill h k (Map.get k em.entities)))

change_entity-eq-unit :
    (f : UnitEntity → UnitEntity) (o : Option Entity) (u : UnitEntity)
    → Option.map (change_entity f) o ≡ some (unit u)
    → (u0 : UnitEntity) × (o ≡ some (unit u0)) × (f u0 ≡ u)
change_entity-eq-unit f none u e = cc
change_entity-eq-unit f (some (unit u0)) u e = (u0, refl, cc)
change_entity-eq-unit f (some (vehicle v)) u e = cc

-- One kill counts the same for a unit and in the scan.
after_kill-counts :
    (h : HitKilledEvent) (c : Counts) (k : ℕ) (u : UnitEntity)
    → h.victim_is_vehicle ≡ some false
    → (count_of k c.kills ≡ u.kill_count)
      × (count_of k c.deaths ≡ u.death_count)
      × (count_of k c.team_kills ≡ u.team_kill_count)
    → (count_of k (count_kill h c).kills ≡ (after_kill h k u).kill_count)
      × (count_of k (count_kill h c).deaths ≡ (after_kill h k u).death_count)
      × (count_of k (count_kill h c).team_kills ≡ (after_kill h k u).team_kill_count)
unfolding count_kill after_kill
after_kill-counts h c k u v a = ground (
  arith,
  count_of-bump h.caused_by_id k c.kills,
  count_of-bump h.victim_id k c.deaths,
  count_of-bump h.caused_by_id k c.team_kills,
)

score_entities-Agrees :
    (em : EntityManager) (h : HitKilledEvent) (c : Counts)
    → is_unit (get_entity h.victim_id em) ≡ true
    → h.victim_is_vehicle ≡ some false
    → Agrees em c
    → Agrees (score_entities h em) (count_kill h c)
score_entities-Agrees em h c v nv a id u e =
    let (u0, old, new) =
      change_entity-eq-unit (after_kill h id) (Map.get id em.entities) u
        (sym (get-score_entities h em id v) ∙ e) in
    rw (← new) (after_kill-counts h c id u0 nv (a id u0 old))

get-vehicle_death :
    (em : EntityManager) (h : HitKilledEvent) (k : ℕ)
    → is_unit (get_entity h.victim_id em) ≡ false
    → Map.get k (score_entities h em).entities ≡ (
        if h.victim_id == k
        then Option.map (change_entity add_death) (Map.get k em.entities)
        else Map.get k em.entities)
unfolding score_entities
get-vehicle_death em h k v = rw v (get-update_unit h.victim_id k add_death em)

vehicle-ne-unit :
    (em : EntityManager) (h : HitKilledEvent) (k : ℕ) (u : UnitEntity)
    → (h.victim_id == k) ≡ true
    → is_unit (get_entity h.victim_id em) ≡ false
    → Map.get k em.entities ≡ some (unit u)
    → ⊥
unfolding get_entity
vehicle-ne-unit em h k u same v old = cc (rw (==→eq _ _ same, old) at v)

vehicle_counts :
    (h : HitKilledEvent) (c : Counts) (k : ℕ) (u : UnitEntity)
    → h.victim_is_vehicle ≡ some true
    → (count_of k c.kills ≡ u.kill_count)
      × (count_of k c.deaths ≡ u.death_count)
      × (count_of k c.team_kills ≡ u.team_kill_count)
    → (count_of k (count_kill h c).kills ≡ u.kill_count)
      × (count_of k (count_kill h c).deaths ≡ u.death_count)
      × (count_of k (count_kill h c).team_kills ≡ u.team_kill_count)
unfolding count_kill
vehicle_counts h c k u v a = ground arith

-- A kill of a vehicle changes no counter of a unit.
vehicle-Agrees :
    (em : EntityManager) (h : HitKilledEvent) (c : Counts)
    → is_unit (get_entity h.victim_id em) ≡ false
    → h.victim_is_vehicle ≡ some true
    → Agrees em c
    → Agrees (score_entities h em) (count_kill h c)
vehicle-Agrees em h c v nv a id u e = elim (Bool-cases (h.victim_id == id)) [
  | inl same ↦ absurd (no_unit same (rw (get-vehicle_death em h id v, same) at e))
  | inr other ↦ vehicle_counts h c id u nv (a id u (rw (get-vehicle_death em h id v, other) at e))
]
  where
    no_unit :
        (h.victim_id == id) ≡ true
        → Option.map (change_entity add_death) (Map.get id em.entities) ≡ some (unit u)
        → ⊥
    no_unit same e' =
        let (u0, old, new) = change_entity-eq-unit add_death (Map.get id em.entities) u e' in
        vehicle-ne-unit em h id u0 same v old

-- What the second pass needs of an event: a kill's victim is known, and is a vehicle exactly if the
-- first pass noted so.
abbrev pub IsLinked : EntityManager → GameEvent → Type 0
IsLinked em e =
    (h : HitKilledEvent)
    → kill_of e ≡ some h
    → h.victim_is_vehicle ≡ some (not (is_unit (get_entity h.victim_id em)))

is_unit-update_unit :
    (id k : ℕ) (f : UnitEntity → UnitEntity) (em : EntityManager)
    → is_unit (get_entity k (update_unit id f em)) ≡ is_unit (get_entity k em)
unfolding get_entity
is_unit-update_unit id k f em =
    rw (get-update_unit id k f em) (go (id == k) (Map.get k em.entities))
  where
    go :
        (b : Bool) (o : Option Entity)
        → is_unit (if b then Option.map (change_entity f) o else o) ≡ is_unit o
    go true (some (unit u)) = refl
    go true (some (vehicle w)) = refl
    go true none = refl
    go false o = refl

is_unit-score_entities :
    (h : HitKilledEvent) (em : EntityManager) (k : ℕ)
    → is_unit (get_entity k (score_entities h em)) ≡ is_unit (get_entity k em)
unfolding score_entities
is_unit-score_entities h em k =
    is_unit-update_unit h.victim_id k add_death _ ∙ inner (is_unit (get_entity h.victim_id em))
  where
    inner :
        (b : Bool)
        → is_unit (get_entity k (if b then update_unit h.caused_by_id (credit h) em else em))
          ≡ is_unit (get_entity k em)
    inner true = is_unit-update_unit h.caused_by_id k (credit h) em
    inner false = refl

is_unit-score_event_entities :
    (e : GameEvent) (em : EntityManager) (k : ℕ)
    → is_unit (get_entity k (score_event_entities e em)) ≡ is_unit (get_entity k em)
unfolding score_event_entities
is_unit-score_event_entities e em k = elim (Option-cases (kill_of e)) [
  | inl p ↦ rw (p, score_event_entities)
  | inr (h, p) ↦ rw (p, score_event_entities) (is_unit-score_entities h em k)
]

score_event_entities-IsLinked :
    (e : GameEvent) (em : EntityManager) (es : List GameEvent)
    → All (IsLinked em) es
    → All (IsLinked (score_event_entities e em)) es
score_event_entities-IsLinked e em [] l = tt
score_event_entities-IsLinked e em (x ∷ es) l = (
  λ h p. rw (is_unit-score_event_entities e em h.victim_id) (l.0 h p),
  score_event_entities-IsLinked e em es l.1,
)

-- The score that is written into an event does not matter to the scan.
count_event-score_event :
    (frame : ℕ) (em : EntityManager) (e : GameEvent) (c : Counts)
    → count_event frame (score_event em e) c ≡ count_event frame e c
unfolding count_event score_event kill_of score_hit count_kill is_friendly_fire
count_event-score_event frame em e c = ground arith

kill-Agrees :
    (em : EntityManager) (h : HitKilledEvent) (c : Counts)
    → h.victim_is_vehicle ≡ some (not (is_unit (get_entity h.victim_id em)))
    → Agrees em c
    → Agrees (score_entities h em) (count_kill h c)
kill-Agrees em h c v a = elim (Bool-cases (is_unit (get_entity h.victim_id em))) [
  | inl u ↦ score_entities-Agrees em h c u (rw u at v) a
  | inr n ↦ vehicle-Agrees em h c n (rw n at v) a
]

score_event-Agrees :
    (frame : ℕ) (em : EntityManager) (e : GameEvent) (c : Counts)
    → IsLinked em e
    → leb e.frame_num frame ≡ true
    → Agrees em c
    → Agrees (score_event_entities e em) (count_event frame (score_event em e) c)
unfolding score_event_entities count_event
score_event-Agrees frame em e c l le a =
    rw (count_event-score_event frame em e c)
      (go (kill_of e) (ltb frame e.frame_num) (ground arith) l)
  where
    go :
        (k : Option HitKilledEvent) (late : Bool)
        → late ≡ false
        → ((h : HitKilledEvent)
            → k ≡ some h
            → h.victim_is_vehicle ≡ some (not (is_unit (get_entity h.victim_id em))))
        → Agrees
            (elim k [ none ↦ em | some h ↦ score_entities h em ])
            (if late then c else (elim k [ none ↦ c | some h ↦ count_kill h c ]))
    go k true p q = cc
    go none false p q = a
    go (some h) false p q = kill-Agrees em h c (q h refl) a

pub score_all-Agrees :
    (frame : ℕ) (es : List GameEvent) (em : EntityManager) (c : Counts)
    → All (IsLinked em) es
    → All (λ e. leb e.frame_num frame ≡ true) es
    → Agrees em c
    → Agrees (score_all es em).1 (count_all frame (score_all es em).0 c)
unfolding score_all count_all
score_all-Agrees frame [] em c l le a = a
score_all-Agrees frame (e ∷ es) em c l le a =
    score_all-Agrees frame es (score_event_entities e em) (count_event frame (score_event em e) c)
      (score_event_entities-IsLinked e em es l.1) le.1 (score_event-Agrees frame em e c l.0 le.0 a)
