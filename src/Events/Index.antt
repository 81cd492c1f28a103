-- ===== src/Events/Index.antt =====
-- The frame index of ui/src/playback/eventManager.ts.
use ocap2_web.Base.{
  ℕ, suc, ◌+◌, ◌≡◌, refl, ◌∙◌, ap, some, List, [], ◌∷◌, ◌++◌, ◌==◌, length, get_elem?, keep,
  if◌then◌else◌, arith, Option-cases, Bool-cases, inl, inr,
}
use ocap2_web.Base.Map
use ocap2_web.Types.{EventDef}
use ocap2_web.Entities.{or_else}
use ocap2_web.Entities.Manager.{EntityManager}
use ocap2_web.Events.{
  GameEvent, EventManager, empty_events, add_event, add_events, create_game_event, at_places,
  get_events_at_frame, resolve_event, resolve_names, score_event, score_all, score_event_entities,
  resolve_references,
}
use mathlib.Core.List.{append_assoc}

-- The places of a frame's events, counted from `n`.
abbrev pub frame_places : ℕ → ℕ → List GameEvent → List ℕ
frame_places n f [] = []
frame_places n f (e ∷ es) =
    if e.frame_num == f then n ∷ frame_places (suc n) f es else frame_places (suc n) f es

-- The index lists, for every frame, the places of the frame's events.
abbrev pub IsIndexed : EventManager → Type 0
IsIndexed m = (f : ℕ) → or_else (Map.get f m.frame_index) [] ≡ frame_places 0 f m.events

frame_places-append :
    (n f : ℕ) (es : List GameEvent) (e : GameEvent)
    → frame_places n f (es ++ e ∷ []) ≡ (
        if e.frame_num == f
        then frame_places n f es ++ (n + length es) ∷ []
        else frame_places n f es)
frame_places-append n f [] e = ground arith
frame_places-append n f (x ∷ es) e = ground (arith, frame_places-append (suc n) f es e)

pub add_event-IsIndexed :
    (e : GameEvent) (m : EventManager) → IsIndexed m → IsIndexed (add_event e m)
unfolding add_event
add_event-IsIndexed e m h f = rw (frame_places-append 0 f m.events e) (
    ground (
      arith,
      Map.get-put e.frame_num f
          (or_else (Map.get e.frame_num m.frame_index) [] ++ length m.events ∷ []) m.frame_index,
      h f,
      h e.frame_num,
    ))

pub add_events-IsIndexed :
    (next_id : ℕ) (defs : List EventDef) (m : EventManager)
    → IsIndexed m
    → IsIndexed (add_events next_id defs m)
unfolding add_events
add_events-IsIndexed next_id [] m h = h
add_events-IsIndexed next_id (def ∷ defs) m h =
    elim (Option-cases (create_game_event next_id def)) [
      | inl e ↦ rw (e, add_events) (add_events-IsIndexed (next_id + 1) defs m h)
      | inr (x, e) ↦
          rw (e, add_events)
            (add_events-IsIndexed (next_id + 1) defs (add_event x m) (add_event-IsIndexed x m h))
    ]

-- The frames of a list of events, which is all that the places depend on.
abbrev SameFrames : List GameEvent → List GameEvent → Type 0
SameFrames [] [] = Unit
SameFrames (x ∷ xs) (y ∷ ys) = (x.frame_num ≡ y.frame_num) × SameFrames xs ys
SameFrames [] (y ∷ ys) = ⊥
SameFrames (x ∷ xs) [] = ⊥

frame_places-SameFrames :
    (n f : ℕ) (xs ys : List GameEvent)
    → SameFrames xs ys
    → frame_places n f xs ≡ frame_places n f ys
frame_places-SameFrames n f [] [] h = refl
frame_places-SameFrames n f (x ∷ xs) (y ∷ ys) h =
    ground (arith, frame_places-SameFrames (suc n) f xs ys h.1)
frame_places-SameFrames n f [] (y ∷ ys) h = absurd h
frame_places-SameFrames n f (x ∷ xs) [] h = absurd h

resolve_names-SameFrames :
    (em : EntityManager) (es : List GameEvent) → SameFrames es (resolve_names em es)
unfolding resolve_names resolve_event
resolve_names-SameFrames em [] = tt
resolve_names-SameFrames em (e ∷ es) = (ground arith, resolve_names-SameFrames em es)

score_event-frame :
    (em : EntityManager) (e : GameEvent) → e.frame_num ≡ (score_event em e).frame_num
unfolding score_event
score_event-frame em e = ground arith

score_all-SameFrames :
    (es : List GameEvent) (em : EntityManager) → SameFrames es (score_all es em).0
unfolding score_all
score_all-SameFrames [] em = tt
score_all-SameFrames (e ∷ es) em =
    (score_event-frame em e, score_all-SameFrames es (score_event_entities e em))

pub resolve_references-IsIndexed :
    (m : EventManager) (em : EntityManager) → IsIndexed m → IsIndexed (resolve_references m em).0
unfolding resolve_references
resolve_references-IsIndexed m em h f =
    h f
    ∙ frame_places-SameFrames 0 f m.events (resolve_names em m.events)
        (resolve_names-SameFrames em m.events)
    ∙ frame_places-SameFrames 0 f (resolve_names em m.events)
        (score_all (resolve_names em m.events) em).0
        (score_all-SameFrames (resolve_names em m.events) em)

get_elem?-middle :
    (front es : List GameEvent) (e : GameEvent)
    → get_elem? (front ++ e ∷ es) (length front) ≡ some e
get_elem?-middle [] es e = refl
get_elem?-middle (x ∷ front) es e = get_elem?-middle front es e

length-snoc :
    (front : List GameEvent) (e : GameEvent) → length (front ++ e ∷ []) ≡ suc (length front)
length-snoc [] e = refl
length-snoc (x ∷ front) e = ap suc (length-snoc front e)

at_places-cons :
    (es : List GameEvent) (i : ℕ) (is : List ℕ) (e : GameEvent)
    → get_elem? es i ≡ some e
    → at_places es (i ∷ is) ≡ e ∷ at_places es is
unfolding at_places
at_places-cons es i is e h = rw (h, at_places)

at_places-frame_places :
    (f : ℕ) (front es : List GameEvent)
    → at_places (front ++ es) (frame_places (length front) f es) ≡ keep (λ e. e.frame_num == f) es
at_places-frame_places f front [] = unfold at_places in refl
at_places-frame_places f front (e ∷ es) =
    let later : at_places (front ++ e ∷ es) (frame_places (suc (length front)) f es)
        ≡ keep (λ e. e.frame_num == f) es =
      rw (append_assoc, length-snoc front e) at (at_places-frame_places f (front ++ e ∷ []) es) in
    elim (Bool-cases (e.frame_num == f)) [
      | inl now ↦ rw now (at_places-cons _ _ _ e (get_elem?-middle front es e) ∙ ap (◌∷◌ e) later)
      | inr other ↦ rw other later
    ]

-- In an event manager that is indexed, the lookup by frame gives the frame's events in their order.
pub get_events_at_frame-eq-keep :
    (m : EventManager) (f : ℕ)
    → IsIndexed m
    → get_events_at_frame f m ≡ keep (λ e. e.frame_num == f) m.events
unfolding get_events_at_frame
get_events_at_frame-eq-keep m f h = rw (h f) (at_places-frame_places f [] m.events)

-- After the events of a recording are added and their references resolved, the lookup by frame gives,
-- for every frame, exactly the events of that frame among all events, in their order and with what the
-- resolution wrote into them.
pub get_events_at_frame-loaded :
    (defs : List EventDef) (em : EntityManager) (f : ℕ)
    → get_events_at_frame f (resolve_references (add_events 0 defs empty_events) em).0
      ≡ keep
          (λ e. e.frame_num == f)
          (resolve_references (add_events 0 defs empty_events) em).0.events
get_events_at_frame-loaded defs em f =
    get_events_at_frame-eq-keep (resolve_references (add_events 0 defs empty_events) em).0 f (
      resolve_references-IsIndexed (add_events 0 defs empty_events) em
        (add_events-IsIndexed 0 defs empty_events (λ g. unfold Map.get in refl)))
