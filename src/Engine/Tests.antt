-- ===== src/Engine/Tests.antt =====
-- Concrete runs of the class PlaybackEngine of ui/src/playback/engine.ts.
use ocap2_web.Base.{ℕ, ◌+◌, ◌*◌, ◌≡◌, refl, true, Option, none, some, List, [], ◌∷◌, map, arith}
use ocap2_web.Base.Int.{pos, negsuc}
use ocap2_web.Types.{Manifest}
use ocap2_web.Events.{get_active_events}
use ocap2_web.Sort.{sort_by}
use ocap2_web.Engine.{
  Engine, new_engine, animate, on_frame, play, seek_to, load_recording, set_speed,
}
use ocap2_web.Engine.Commands.{
  Command, play_call, load_call, seek_call, speed_call, frame_call, run_calls,
}
use ocap2_web.Engine.Invariant.{IsValid, run_calls-IsValid}
use ocap2_web.Engine.Pace.{played, elapsed}
use ocap2_web.Engine.Total.{Ready}
use ocap2_web.Engine.Playback.{run_frames-played}

abbrev test_manifest : Manifest
test_manifest = record {
  version = 1;
  world_name = "altis";
  mission_name = "test";
  mission_author = none;
  end_frame = 6;
  chunk_size = 300;
  capture_delay_ms = 1000;
  chunk_count = 1;
  entities = [];
  events = [];
  markers = [];
  times = [];
  extension_version = none;
  addon_version = none;
}

abbrev result_of : Option Engine → Engine
result_of none = new_engine
result_of (some e) = e

new_engine-IsValid : IsValid new_engine
unfolding get_active_events sort_by
new_engine-IsValid = record {
  drawn = record { in_range = omega arith; synced = λ mf q. refl };
  armed = record { playing = refl; single = refl };
}

abbrev calls : List Command
calls =
    load_call test_manifest none
    ∷ seek_call (negsuc 4)
    ∷ speed_call (pos 20) 0
    ∷ play_call 1000
    ∷ frame_call 1016
    ∷ frame_call 1100
    ∷ []

abbrev playing : Engine
playing = result_of (run_calls calls new_engine)

calls_run : run_calls calls new_engine ≡ some playing
unfolding animate on_frame play seek_to load_recording set_speed
calls_run = refl

playing-IsValid : IsValid playing
playing-IsValid = run_calls-IsValid calls new_engine playing new_engine-IsValid calls_run

run_calls-IsValid_example : IsValid playing
run_calls-IsValid_example = run_calls-IsValid calls new_engine playing new_engine-IsValid calls_run

playing-Ready : Ready playing
unfolding animate on_frame play seek_to load_recording set_speed
playing-Ready = record { delay = omega arith; manifest = tt }

abbrev some_ticks : List ℕ
some_ticks = 1130 ∷ 1500 ∷ 1560 ∷ []

run_frames-played_example :
    (e' : Engine) × (run_calls (map frame_call some_ticks) playing ≡ some e')
    × (e'.is_playing ≡ true
        → played e'
          ≡ played playing + elapsed playing.last_tick_time some_ticks * playing.playback_speed)
run_frames-played_example = run_frames-played some_ticks playing playing-Ready playing-IsValid.armed

abbrev many_ticks : List ℕ
many_ticks = 1200 ∷ 1300 ∷ 1400 ∷ 1500 ∷ 1600 ∷ []
