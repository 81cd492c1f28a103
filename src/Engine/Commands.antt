-- ===== src/Engine/Commands.antt =====
-- The calls that reach an object of the class PlaybackEngine of ui/src/playback/engine.ts.
use ocap2_web.Base.{ℕ, Option, some, List, [], ◌∷◌}
use ocap2_web.Base.Int.{ℤ}
use ocap2_web.Types.{ArmaCoord, Manifest}
use ocap2_web.Chunks.{ChunkManager}
use ocap2_web.Engine.{
  Engine, play, pause, toggle_play_pause, seek_to, seek_loaded, set_speed, pan_to_entity,
  pan_to_position, follow_entity, unfollow_entity, load_recording, on_chunk_loaded, dispose,
  animate, ◌>>=◌,
}

-- Each call with the time and what it is given. A `frame_call` is the browser's, at a time when it runs
-- the callbacks that are requested.
pub data Command : Type 0 where
  play_call : ℕ → Command
  pause_call : Command
  toggle_call : ℕ → Command
  seek_call : ℤ → Command
  seek_loaded_call : ℕ → Command
  speed_call : ℤ → ℕ → Command
  pan_to_entity_call : ℕ → Command
  pan_to_position_call : ArmaCoord → Command
  follow_call : ℕ → Command
  unfollow_call : Command
  load_call : Manifest → Option ChunkManager → Command
  chunk_loaded_call : ℕ → Command
  dispose_call : Command
  frame_call : ℕ → Command

-- `none` where the call throws.
abbrev pub perform_call : Command → Engine → Option Engine
perform_call (play_call now) e = some (play now e)
perform_call pause_call e = some (pause e)
perform_call (toggle_call now) e = some (toggle_play_pause now e)
perform_call (seek_call frame) e = seek_to frame e
perform_call (seek_loaded_call clamped) e = seek_loaded clamped e
perform_call (speed_call multiplier now) e = some (set_speed multiplier now e)
perform_call (pan_to_entity_call id) e = some (pan_to_entity id e)
perform_call (pan_to_position_call at) e = some (pan_to_position at e)
perform_call (follow_call id) e = some (follow_entity id e)
perform_call unfollow_call e = some (unfollow_entity e)
perform_call (load_call mf chunks) e = load_recording mf chunks e
perform_call (chunk_loaded_call i) e = on_chunk_loaded i e
perform_call dispose_call e = some (dispose e)
perform_call (frame_call now) e = animate now e

abbrev pub run_calls : List Command → Engine → Option Engine
run_calls [] e = some e
run_calls (c ∷ cs) e = perform_call c e >>= run_calls cs
