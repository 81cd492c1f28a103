-- ===== src/Engine/Invariant.antt =====
-- What every operation of the class PlaybackEngine of ui/src/playback/engine.ts keeps.

use ocap2_web.Base.{
  ◌≡◌, ◌/◌, refl, sym, ap, inl, inr, of_map-some, arith, ℕ, ◌≤◌, true, Option, some, List, [], ◌∷◌,
  ◌==◌, leb, Bool-cases, Option-cases, some_inj, subst, by_test, ==→eq,
}
use ocap2_web.Base.Int.{ℤ, pos, negsuc}
use ocap2_web.Base.Map
use ocap2_web.Types.{Manifest}
use ocap2_web.Events.{GameEvent, EventManager, get_active_events}
use ocap2_web.Chunks.{ChunkManager}
use ocap2_web.Engine.{
  Engine, refresh, play, pause, toggle_play_pause, clamp_frame, seek_to, seek_loaded, set_speed,
  pan_to_entity, follow_entity, unfollow_entity, load_recording, on_chunk_loaded, dispose,
  ensure_chunk, chunk_size, take_time, next_frame, follow_camera, finish_tick, advance_to, on_frame,
  populate, animate, run_oldest, start_loop, clear_timer, clamp_speed,
}
use ocap2_web.Engine.Armed.{IsArmed, silent, quiet, request_frame-IsArmed, animate-IsArmed}
use ocap2_web.Engine.Ticks.{Tick, idle, no_delay, waits, ends, moves, on_frame-Tick}
use ocap2_web.Engine.Frozen.{refresh-frozen, refresh-active_events}
use ocap2_web.Engine.Commands.{
  Command, play_call, pause_call, toggle_call, seek_call, seek_loaded_call, speed_call,
  pan_to_entity_call, pan_to_position_call, follow_call, unfollow_call, load_call,
  chunk_loaded_call, dispose_call, frame_call, perform_call, run_calls,
}

-- The frame is in the recording, and the events shown are those of the frame as long as there is a
-- recording.
pub record DrawnFields (current_frame end_frame : ℕ) (manifest : Option Manifest)
    (active_events : List GameEvent) (event_manager : EventManager) : Type 0 where
  pub in_range : current_frame ≤ end_frame
  pub synced :
      (mf : Manifest)
      → manifest ≡ some mf
      → active_events ≡ get_active_events current_frame event_manager

abbrev pub IsDrawn : Engine → Type 0
IsDrawn e = DrawnFields e.current_frame e.end_frame e.manifest e.active_events e.event_manager

pub record ValidParts (Drawn Armed : Type 0) : Type 0 where
  pub drawn : Drawn
  pub armed : Armed

abbrev pub IsValid : Engine → Type 0
IsValid e = ValidParts (IsDrawn e) (IsArmed e)

refresh-IsDrawn :
    (frame : ℕ) (e e' : Engine)
    → refresh frame e ≡ some e'
    → e.current_frame ≡ frame
    → e.current_frame ≤ e.end_frame
    → IsDrawn e'
refresh-IsDrawn frame e e' h at r =
    let a = refresh-frozen frame e e' h in
    let current : e'.current_frame ≡ e.current_frame = ap (λ (x : Engine). x.current_frame) a in
    record {
      in_range = rw (current, ap (λ (x : Engine). x.end_frame) a) r;
      synced = λ mf q. rw (current, at) (refresh-active_events frame e e' h);
    }

-- A refresh at the engine's frame makes the engine valid if it was armed and in range.
refresh-IsValid :
    (frame : ℕ) (e e' : Engine)
    → refresh frame e ≡ some e'
    → e.current_frame ≡ frame
    → e.current_frame ≤ e.end_frame
    → IsArmed e
    → IsValid e'
refresh-IsValid frame e e' h at r armed = record {
  drawn = refresh-IsDrawn frame e e' h at r;
  armed = subst IsArmed (sym (refresh-frozen frame e e' h)) armed;
}

clamp_frame-le : (frame : ℤ) (end_frame : ℕ) → clamp_frame frame end_frame ≤ end_frame
clamp_frame-le (pos frame) end_frame = ground arith
clamp_frame-le (negsuc frame) end_frame = ground arith

start_loop-IsValid :
    (now : ℕ) (e : Engine)
    → IsDrawn e
    → e.is_playing ≡ true
    → e.requested ≡ []
    → IsValid (start_loop now e)
start_loop-IsValid now e d p q = record {
  drawn = d;
  armed = request_frame-IsArmed (record e { last_tick_time = now; accumulated = 0 }) p q;
}

play-IsValid : (now : ℕ) (e : Engine) → IsValid e → IsValid (play now e)
unfolding play
play-IsValid now e v =
    by_test IsValid e.is_playing _ _ (λ p. v)
      (λ p.
        by_test IsValid (leb e.end_frame e.current_frame) _ _ (λ q. v)
          (λ q.
            start_loop-IsValid now (record e { is_playing = true }) v.drawn refl
              (quiet e v.armed p)))

pause-IsValid : (e : Engine) → IsValid e → IsValid (pause e)
unfolding pause
pause-IsValid e v =
    by_test IsValid e.is_playing _ _ (λ p. record { drawn = v.drawn; armed = silent v.armed })
      (λ p. v)

toggle_play_pause-IsValid : (now : ℕ) (e : Engine) → IsValid e → IsValid (toggle_play_pause now e)
unfolding toggle_play_pause
toggle_play_pause-IsValid now e v =
    by_test IsValid e.is_playing _ _ (λ p. pause-IsValid e v) (λ p. play-IsValid now e v)

set_speed-IsValid : (s : ℤ) (now : ℕ) (e : Engine) → IsValid e → IsValid (set_speed s now e)
unfolding set_speed
set_speed-IsValid s now e v =
    by_test IsValid e.is_playing _ _
      (λ p.
        start_loop-IsValid now (clear_timer (record e { playback_speed = clamp_speed s })) v.drawn p
          (silent v.armed).single)
      (λ p. v)

pan_to_entity-IsValid : (id : ℕ) (e : Engine) → IsValid e → IsValid (pan_to_entity id e)
unfolding pan_to_entity
pan_to_entity-IsValid id e v = elim (Option-cases (Map.get id e.entity_snapshots)) [
  | inl n ↦ rw (pan_to_entity, n) v
  | inr (s, y) ↦ rw (pan_to_entity, y) v
]

follow_entity-IsValid : (id : ℕ) (e : Engine) → IsValid e → IsValid (follow_entity id e)
unfolding follow_entity
follow_entity-IsValid id e v = pan_to_entity-IsValid id (record e { follow_target = some id }) v

unfollow_entity-IsValid : (e : Engine) → IsValid e → IsValid (unfollow_entity e)
unfolding unfollow_entity
unfollow_entity-IsValid e v = v

follow_camera-IsDrawn : (e : Engine) → IsDrawn e → IsDrawn (follow_camera e)
unfolding follow_camera
follow_camera-IsDrawn e v = elim (Option-cases e.follow_target) [
  | inl n ↦ rw (follow_camera, n) v
  | inr (t, y) ↦ elim (Option-cases (Map.get t e.entity_snapshots)) [
    | inl n ↦ rw (follow_camera, y, n) v
    | inr (s, z) ↦ rw (follow_camera, y, z) v
  ]
]

seek_to-IsValid : (frame : ℤ) (e e' : Engine) → IsValid e → seek_to frame e ≡ some e' → IsValid e'
unfolding seek_to
seek_to-IsValid frame e e' v h =
    let (e1, (c, r)) = of_map-some _ _ e' h in
    subst IsValid r (
      refresh-IsValid _ (record e { current_frame = clamp_frame frame e.end_frame }) e1 c refl
        (clamp_frame-le frame e.end_frame) v.armed)

seek_loaded-IsValid :
    (clamped : ℕ) (e e' : Engine) → IsValid e → seek_loaded clamped e ≡ some e' → IsValid e'
unfolding seek_loaded
seek_loaded-IsValid clamped e e' v h = elim (Bool-cases (e.current_frame == clamped)) [
  | inl q ↦
      refresh-IsValid clamped e e' (rw (seek_loaded, q) at h) (==→eq _ _ q) v.drawn.in_range v.armed
  | inr q ↦ subst IsValid (some_inj (rw (seek_loaded, q) at h)) v
]

on_chunk_loaded-IsValid :
    (i : ℕ) (e e' : Engine) → IsValid e → on_chunk_loaded i e ≡ some e' → IsValid e'
unfolding on_chunk_loaded
on_chunk_loaded-IsValid i e e' v h =
    elim (Bool-cases (i == e.current_frame / chunk_size e.manifest)) [
      | inl q ↦
          refresh-IsValid e.current_frame e e' (rw (on_chunk_loaded, q) at h) refl v.drawn.in_range
            v.armed
      | inr q ↦ subst IsValid (some_inj (rw (on_chunk_loaded, q) at h)) v
    ]

load_recording-IsValid :
    (mf : Manifest) (chunks : Option ChunkManager) (e e' : Engine)
    → IsValid e
    → load_recording mf chunks e ≡ some e'
    → IsValid e'
unfolding load_recording populate
load_recording-IsValid mf chunks e e' v h =
    refresh-IsValid 0 (populate mf chunks e) e' h refl (omega arith) (silent v.armed)

dispose-IsValid : (e : Engine) → IsValid e → IsValid (dispose e)
unfolding dispose
dispose-IsValid e v = record {
  drawn = record { in_range = v.drawn.in_range; synced = λ mf q. cc };
  armed = silent v.armed;
}

finish_tick-IsDrawn : (e : Engine) → IsDrawn e → IsDrawn (finish_tick e)
finish_tick-IsDrawn e d = by_test IsDrawn (leb e.end_frame e.current_frame) _ _ (λ q. d) (λ q. d)

advance_to-IsDrawn :
    (next : ℕ) (e e' : Engine) → next ≤ e.end_frame → advance_to next e ≡ some e' → IsDrawn e'
unfolding advance_to
advance_to-IsDrawn next e e' r h =
    let (e1, (c, q)) = of_map-some _ _ e' h in
    let moved = ensure_chunk next (record e { current_frame = next }) in
    subst IsDrawn q (
      finish_tick-IsDrawn (follow_camera e1)
        (follow_camera-IsDrawn e1 (refresh-IsDrawn next moved e1 c refl r)))

on_frame-IsDrawn : (now : ℕ) (e e' : Engine) → IsDrawn e → on_frame now e ≡ some e' → IsDrawn e'
on_frame-IsDrawn now e e' d h = go (on_frame now e) (on_frame-Tick now e) h
  where
    go : (o : Option Engine) → Tick now e o → o ≡ some e' → IsDrawn e'
    go _ (idle p) h = subst IsDrawn (some_inj h) d
    go _ (no_delay p q) h = cc h
    go _ (waits p q r) h = subst IsDrawn (some_inj h) d
    go _ (ends p q r) h = subst IsDrawn (some_inj h) d
    go _ (moves p q r s) h =
        advance_to-IsDrawn (next_frame now e) (take_time now e) e' (omega arith) h

animate-IsValid : (now : ℕ) (e e' : Engine) → IsValid e → animate now e ≡ some e' → IsValid e'
unfolding animate
animate-IsValid now e e' v h = record {
  drawn = go e.requested h;
  armed = animate-IsArmed now e e' v.armed h;
}
  where
    go : (rs : List ℕ) → run_oldest rs now e ≡ some e' → IsDrawn e'
    go [] h = subst IsDrawn (some_inj h) v.drawn
    go (_ ∷ rs) h = on_frame-IsDrawn now (record e { requested = rs }) e' v.drawn h

perform_call-IsValid :
    (c : Command) (e e' : Engine) → IsValid e → perform_call c e ≡ some e' → IsValid e'
perform_call-IsValid (play_call now) e e' v h = subst IsValid (some_inj h) (play-IsValid now e v)
perform_call-IsValid pause_call e e' v h = subst IsValid (some_inj h) (pause-IsValid e v)
perform_call-IsValid (toggle_call now) e e' v h =
    subst IsValid (some_inj h) (toggle_play_pause-IsValid now e v)
perform_call-IsValid (seek_call frame) e e' v h = seek_to-IsValid frame e e' v h
perform_call-IsValid (seek_loaded_call clamped) e e' v h = seek_loaded-IsValid clamped e e' v h
perform_call-IsValid (speed_call s now) e e' v h =
    subst IsValid (some_inj h) (set_speed-IsValid s now e v)
perform_call-IsValid (pan_to_entity_call id) e e' v h =
    subst IsValid (some_inj h) (pan_to_entity-IsValid id e v)
perform_call-IsValid (pan_to_position_call at) e e' v h = subst IsValid (some_inj h) v
perform_call-IsValid (follow_call id) e e' v h =
    subst IsValid (some_inj h) (follow_entity-IsValid id e v)
perform_call-IsValid unfollow_call e e' v h =
    subst IsValid (some_inj h) (unfollow_entity-IsValid e v)
perform_call-IsValid (load_call mf chunks) e e' v h = load_recording-IsValid mf chunks e e' v h
perform_call-IsValid (chunk_loaded_call i) e e' v h = on_chunk_loaded-IsValid i e e' v h
perform_call-IsValid dispose_call e e' v h = subst IsValid (some_inj h) (dispose-IsValid e v)
perform_call-IsValid (frame_call now) e e' v h = animate-IsValid now e e' v h

-- Every sequence of calls of the engine and of runs of the callbacks that it requested, if it does not
-- throw, keeps three facts: the frame is not behind the last one; while the engine plays, the browser has
-- exactly one callback to run, the one whose handle the engine holds, and otherwise it has none and the
-- engine holds no handle; and with a recording loaded the events shown are those of the frame.
pub run_calls-IsValid :
    (cs : List Command) (e e' : Engine) → IsValid e → run_calls cs e ≡ some e' → IsValid e'
run_calls-IsValid [] e e' v h = subst IsValid (some_inj h) v
run_calls-IsValid (c ∷ cs) e e' v h = elim (Option-cases (perform_call c e)) [
  | inl n ↦ cc (rw n at h)
  | inr (e1, y) ↦ run_calls-IsValid cs e1 e' (perform_call-IsValid c e e1 v y) (rw y at h)
]
