-- ===== src/Engine.antt =====
-- ui/src/playback/engine.ts: the class PlaybackEngine.
--
-- Times are whole milliseconds. `accumulated` is `accumulatedMs` times the speed, so that the frames to
-- advance, `accumulatedMs / (captureDelayMs / speed)`, are an exact quotient; the speed changes only
-- where the accumulator is reset or not read before a reset. An operation that can throw returns an
-- Option. `views` are the calls of `renderer.setView`, newest first.
--
-- `anim_frame` is `animFrameId`. `requested` are the handles of the callbacks that the browser still has to
-- run, oldest first, and `next_handle` is its next handle: `requestAnimationFrame` puts a callback behind
-- the others, `cancelAnimationFrame` takes one out, and a callback that runs leaves the list before it
-- starts, as the HTML standard says. `animate` runs the oldest callback; without one nothing happens, so
-- the loop goes on only as long as `onFrame` requests its next run.
pub mod Snapshots
pub mod Frozen
pub mod Ticks
pub mod Commands
pub mod Armed
pub mod Invariant
pub mod Pace
pub mod Total
pub mod Playback
mod Tests
use mathlib.Core.Option
use ocap2_web.Base.{
  ℕ, zero, suc, ◌+◌, ◌-◌, ◌*◌, ◌/◌, ◌%◌, Bool, true, false, not, Option, none, some, List, [], ◌∷◌,
  ◌++◌, keep, ◌==◌, leb, ltb, min, if◌then◌else◌,
}
use ocap2_web.Base.Int.{ℤ, pos, negsuc}
use ocap2_web.Base.Map
use ocap2_web.Base.Map.{Map}
use ocap2_web.Types.{ArmaCoord, Manifest, EntitySnapshot, ChunkData}
use ocap2_web.Entities.Manager.{EntityManager, empty_manager, add_entities, get_entity}
use ocap2_web.Events.{
  GameEvent, EventManager, empty_events, add_events, get_active_events, resolve_references,
}
use ocap2_web.Counter.{CounterState, build_counter_state}
use ocap2_web.Chunks.{ChunkManager, ensure_loaded, get_chunk_for_frame, chunk_index, chunk_size_of}
use ocap2_web.Engine.Snapshots.{snapshot_all}

pub record Engine : Type 0 where
  pub entity_manager : EntityManager
  pub event_manager : EventManager
  pub chunk_manager : Option ChunkManager
  pub manifest : Option Manifest
  pub current_frame : ℕ
  pub is_playing : Bool
  pub playback_speed : ℕ
  pub entity_snapshots : Map EntitySnapshot
  pub active_events : List GameEvent
  pub follow_target : Option ℕ
  pub counter_state : Option CounterState
  pub end_frame : ℕ
  pub capture_delay_ms : ℕ
  pub anim_frame : Option ℕ
  pub requested : List ℕ
  pub next_handle : ℕ
  pub last_tick_time : ℕ
  pub accumulated : ℕ
  pub views : List ArmaCoord

abbrev pub max_frame_delta_ms : ℕ
max_frame_delta_ms = 100

abbrev pub new_engine : Engine
new_engine = record {
  entity_manager = empty_manager;
  event_manager = empty_events;
  chunk_manager = none;
  manifest = none;
  current_frame = 0;
  is_playing = false;
  playback_speed = 10;
  entity_snapshots = [];
  active_events = [];
  follow_target = none;
  counter_state = none;
  end_frame = 0;
  capture_delay_ms = 1000;
  anim_frame = none;
  requested = [];
  next_handle = 0;
  last_tick_time = 0;
  accumulated = 0;
  views = [];
}

infixl 5 ◌>>=◌
abbrev pub ◌>>=◌ {ℓ κ} : {A : Type ℓ} {B : Type κ} → Option A → (A → Option B) → Option B
none >>= f = none
some a >>= f = f a

-- `this.chunkManager?.getChunkForFrame(frame) ?? null`, which throws if the chunk manager has no
-- manifest.
unfoldable pub chunk_data_at : ℕ → Engine → Option (Option ChunkData)
chunk_data_at frame e = elim e.chunk_manager [
  | none ↦ some none
  | some cm ↦ get_chunk_for_frame frame cm
]

unfoldable pub compute_snapshots : ℕ → Engine → Option Engine
unfolding chunk_data_at
compute_snapshots frame e = elim e.manifest [
  | none ↦ some (record e { entity_snapshots = [] })
  | some mf ↦ do
    chunk ← chunk_data_at frame e
    let out =
        snapshot_all (λ id. get_entity id e.entity_manager) chunk
          (frame - chunk_index mf frame * chunk_size_of mf) frame e.entity_manager.entities []
    some (record e {
      entity_manager = record e.entity_manager { entities = out.0 };
      entity_snapshots = out.1;
    })
]

-- The snapshots and the event log at a frame.
unfoldable pub refresh : ℕ → Engine → Option Engine
unfolding compute_snapshots
refresh frame e =
    Option.map
      (λ (e' : Engine). record e' { active_events = get_active_events frame e'.event_manager })
      (compute_snapshots frame e)

-- `this.animFrameId = requestAnimationFrame(() => this.onFrame())`.
abbrev pub request_frame : Engine → Engine
request_frame e = record e {
  anim_frame = some e.next_handle;
  requested = e.requested ++ e.next_handle ∷ [];
  next_handle = suc e.next_handle;
}

-- `cancelAnimationFrame`, where there is a handle.
abbrev pub cancel : Option ℕ → List ℕ → List ℕ
cancel none requested = requested
cancel (some handle) requested = keep (λ h. not (h == handle)) requested

abbrev pub start_loop : ℕ → Engine → Engine
start_loop now e = request_frame (record e { last_tick_time = now; accumulated = 0 })

abbrev pub clear_timer : Engine → Engine
clear_timer e = record e { anim_frame = none; requested = cancel e.anim_frame e.requested }

unfoldable pub play : ℕ → Engine → Engine
play now e =
    if e.is_playing
    then e
    else (if leb e.end_frame e.current_frame
        then e
        else start_loop now (record e { is_playing = true }))

unfoldable pub pause : Engine → Engine
pause e = if e.is_playing then clear_timer (record e { is_playing = false }) else e

unfoldable pub toggle_play_pause : ℕ → Engine → Engine
unfolding play pause
toggle_play_pause now e = if e.is_playing then pause e else play now e

-- `Math.max(0, Math.min(frame, end))`.
abbrev pub clamp_frame : ℤ → ℕ → ℕ
clamp_frame (negsuc _) end_frame = 0
clamp_frame (pos frame) end_frame = if leb frame end_frame then frame else end_frame

abbrev pub ensure_chunk : ℕ → Engine → Engine
ensure_chunk frame e = record e { chunk_manager = Option.map (ensure_loaded frame) e.chunk_manager }

unfoldable pub seek_to : ℤ → Engine → Option Engine
unfolding refresh
seek_to frame e =
    let clamped = clamp_frame frame e.end_frame in
    Option.map (ensure_chunk clamped) (refresh clamped (record e { current_frame = clamped }))

-- The continuation of `seekTo` when the chunk is loaded.
unfoldable pub seek_loaded : ℕ → Engine → Option Engine
unfolding refresh
seek_loaded clamped e =
    let refreshed = refresh clamped e in if e.current_frame == clamped then refreshed else some e

-- `Math.max(1, Math.min(60, multiplier))`.
abbrev pub clamp_speed : ℤ → ℕ
clamp_speed (negsuc _) = 1
clamp_speed (pos n) = if ltb n 1 then 1 else (if ltb 60 n then 60 else n)

unfoldable pub set_speed : ℤ → ℕ → Engine → Engine
set_speed multiplier now e =
    if e.is_playing
    then start_loop now (clear_timer (record e { playback_speed = clamp_speed multiplier }))
    else record e { playback_speed = clamp_speed multiplier }

abbrev pub set_view : ArmaCoord → Engine → Engine
set_view at e = record e { views = at ∷ e.views }

unfoldable pub pan_to_entity : ℕ → Engine → Engine
pan_to_entity id e = elim (Map.get id e.entity_snapshots) [
  | none ↦ e
  | some snap ↦ set_view snap.position e
]

abbrev pub pan_to_position : ArmaCoord → Engine → Engine
pan_to_position at e = set_view at e

unfoldable pub follow_entity : ℕ → Engine → Engine
unfolding pan_to_entity
follow_entity id e = pan_to_entity id (record e { follow_target = some id })

unfoldable pub unfollow_entity : Engine → Engine
unfollow_entity e = record e { follow_target = none }

-- The state behind the population of the managers, up to `setEndFrame`.
unfoldable pub populate : Manifest → Option ChunkManager → Engine → Engine
populate mf chunks e =
    let em = add_entities mf.entities empty_manager in
    let resolved = resolve_references (add_events 0 mf.events empty_events) em in
    record (clear_timer e) {
      is_playing = false;
      current_frame = 0;
      follow_target = none;
      manifest = some mf;
      chunk_manager = chunks;
      capture_delay_ms = mf.capture_delay_ms;
      event_manager = resolved.0;
      entity_manager = resolved.1;
      counter_state = build_counter_state mf.events;
      end_frame = mf.end_frame;
    }

unfoldable pub load_recording : Manifest → Option ChunkManager → Engine → Option Engine
unfolding populate refresh
load_recording mf chunks e = refresh 0 (populate mf chunks e)

-- `this.manifest?.chunkSize || 300`.
abbrev pub chunk_size : Option Manifest → ℕ
chunk_size none = 300
chunk_size (some mf) = chunk_size_of mf

-- The callback `onChunkLoaded` that `loadRecording` sets.
unfoldable pub on_chunk_loaded : ℕ → Engine → Option Engine
unfolding refresh
on_chunk_loaded i e =
    let refreshed = refresh e.current_frame e in
    if i == e.current_frame / chunk_size e.manifest then refreshed else some e

unfoldable pub dispose : Engine → Engine
dispose e = record (clear_timer e) {
  is_playing = false;
  entity_manager = empty_manager;
  event_manager = empty_events;
  chunk_manager = none;
  manifest = none;
}

-- The delta of a tick; one above the maximum is discarded.
abbrev pub tick_delta : ℕ → Engine → ℕ
tick_delta now e =
    if ltb max_frame_delta_ms (now - e.last_tick_time) then 0 else now - e.last_tick_time

-- The camera follows its target, or the target is given up.
unfoldable pub follow_camera : Engine → Engine
follow_camera e = elim e.follow_target [
  | none ↦ e
  | some target ↦ elim (Map.get target e.entity_snapshots) [
    | none ↦ record e { follow_target = none }
    | some snap ↦ set_view snap.position e
  ]
]

abbrev pub stop : Engine → Engine
stop e = clear_timer (record e { is_playing = false })

abbrev pub finish_tick : Engine → Engine
finish_tick e = if leb e.end_frame e.current_frame then stop e else request_frame e

-- The tick that moves to a later frame.
unfoldable pub advance_to : ℕ → Engine → Option Engine
unfolding refresh follow_camera
advance_to next e =
    Option.map (λ (e' : Engine). finish_tick (follow_camera e'))
      (refresh next (ensure_chunk next (record e { current_frame = next })))

-- The time at hand in a tick, and the whole frames in it.
abbrev pub tick_total : ℕ → Engine → ℕ
tick_total now e = e.accumulated + tick_delta now e * e.playback_speed

abbrev pub tick_frames : ℕ → Engine → ℕ
tick_frames now e = tick_total now e / e.capture_delay_ms

-- The state of a tick behind the accumulator's update: the time is taken over, and whole frames leave
-- the accumulator.
abbrev pub take_time : ℕ → Engine → Engine
take_time now e = record e {
  last_tick_time = now;
  accumulated = tick_total now e % e.capture_delay_ms;
}

abbrev pub wait_tick : ℕ → Engine → Engine
wait_tick now e = request_frame (take_time now e)

abbrev pub next_frame : ℕ → Engine → ℕ
next_frame now e = min (e.current_frame + tick_frames now e) e.end_frame

-- `none` where a part throws, or where the capture delay is 0 and the quotient is not a finite number.
unfoldable pub on_frame : ℕ → Engine → Option Engine
unfolding advance_to
on_frame now e =
    if e.is_playing
    then (if e.capture_delay_ms == 0
        then none
        else (if tick_frames now e == 0
            then some (wait_tick now e)
            else (if leb e.end_frame e.current_frame
                then some (stop (take_time now e))
                else advance_to (next_frame now e) (take_time now e))))
    else some e

abbrev pub run_oldest : List ℕ → ℕ → Engine → Option Engine
run_oldest [] now e = some e
run_oldest (handle ∷ later) now e = on_frame now (record e { requested = later })

-- The browser runs the callback that was requested first, if there is one.
unfoldable pub animate : ℕ → Engine → Option Engine
animate now e = run_oldest e.requested now e
