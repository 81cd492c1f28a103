-- ===== src/Engine/Playback.antt =====
-- The playback of a whole recording by the loop `onFrame` of ui/src/playback/engine.ts.
use ocap2_web.Base.{◌≡◌, ℕ, ◌+◌, ◌*◌, true, some, List, map}
use ocap2_web.Engine.{Engine}
use ocap2_web.Engine.Commands.{frame_call, run_calls}
use ocap2_web.Engine.Armed.{IsArmed}
use ocap2_web.Engine.Pace.{played, elapsed, played-run_calls}
use ocap2_web.Engine.Total.{Ready, run_frames-runs}

-- The playback does not drift. If the capture delay is not 0, the chunk manager, where there is one,
-- has its manifest, and the browser has the engine's callback exactly while it plays, then for every
-- sequence of times at which the browser runs what is requested, the run does not throw; and if the
-- recording still plays at its end, the frames played and the remainder are those at the start and the
-- time that passed, without the gaps above the maximum, times the speed.
pub run_frames-played :
    (nows : List ℕ) (e : Engine)
    → Ready e
    → IsArmed e
    → (e' : Engine) × (run_calls (map frame_call nows) e ≡ some e')
      × (e'.is_playing ≡ true
          → played e' ≡ played e + elapsed e.last_tick_time nows * e.playback_speed)
run_frames-played nows e r a =
    let (e', runs) = run_frames-runs nows e r in (e', runs, played-run_calls nows e e' a runs)
