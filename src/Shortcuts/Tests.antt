-- ===== src/Shortcuts/Tests.antt =====
-- Concrete runs of the shortcuts of ui/src/pages/recording-playback/shortcuts.ts.
use Prim.Native.String.{String}
use ocap2_web.Base.{ℕ, ◌≡◌, refl, true, Option, some, [], ◌∷◌, arith, leb}
use ocap2_web.Types.{EventDef, whole, killed, hit_killed}
use ocap2_web.Events.{kill_of, add_events, empty_events}
use ocap2_web.Engine.{Engine, new_engine}
use ocap2_web.Shortcuts.{
  Panel, KeyEvent, new_panel, find_first, step_forward, step_back, seek_to_prev_kill,
  seek_to_next_kill, kill_frames_of,
}
use ocap2_web.Shortcuts.Bound.{IsBound, find_first-IsBound}
use ocap2_web.Shortcuts.Step.{IsSteppedTo, step_back-step_forward}
use ocap2_web.Shortcuts.Kills.{
  kills, IsCached, IsPrevious, IsNext, IsSoughtTo, seek_to_prev_kill-IsPrevious,
  seek_to_next_kill-IsNext, seek_to_next_kill-stale,
}
use ocap2_web.Shortcuts.Handlers.{
  register, unregister, run_calls, IsSingle, run_calls-IsSingle, IsHandled, run_keys,
  run_keys-IsHandled,
}

find_first-IsBound_example :
    (c : ℕ) × (find_first (10 ∷ 20 ∷ 30 ∷ []) (λ f. leb 15 f) ≡ some c)
    × IsBound (λ f. leb 15 f) (10 ∷ 20 ∷ 30 ∷ []) c
find_first-IsBound_example =
    find_first-IsBound (10 ∷ 20 ∷ 30 ∷ []) (λ f. leb 15 f)
      ((omega arith, (omega arith, tt)), ((omega arith, tt), (tt, tt))) (λ x y le t. ground arith)

found_second : find_first (10 ∷ 20 ∷ 30 ∷ []) (λ f. leb 15 f) ≡ some 1
unfolding find_first
found_second = refl

abbrev kill_at : ℕ → EventDef
kill_at frame = record { frame_num = frame; body = hit_killed killed 1 2 (whole 80) "rifle" }

-- At frame 20 of 40, with kills at the frames 30, 10 and 15 in this order.
abbrev engine_20 : Engine
engine_20 = record new_engine {
  current_frame = 20;
  end_frame = 40;
  event_manager = add_events 0 (kill_at 30 ∷ kill_at 10 ∷ kill_at 15 ∷ []) empty_events;
}

engine_20-kills : kills engine_20 ≡ 30 ∷ 10 ∷ 15 ∷ []
unfolding kill_frames_of add_events kill_of
engine_20-kills = refl

new_panel-IsCached : IsCached 7 engine_20 new_panel
new_panel-IsCached = λ frames h s. cc h

step_back-step_forward_example :
    (e1 : Engine) × (e2 : Engine) × (step_forward 10 engine_20 ≡ some e1)
    × (step_back 10 e1 ≡ some e2)
    × IsSteppedTo 20 engine_20 e2
step_back-step_forward_example = step_back-step_forward 10 engine_20 tt (omega arith)

seek_to_prev_kill-IsPrevious_example :
    (target : Option ℕ) × IsPrevious (kills engine_20) 20 target
    × IsSoughtTo 7 target engine_20 (seek_to_prev_kill 7 engine_20 new_panel)
seek_to_prev_kill-IsPrevious_example =
    seek_to_prev_kill-IsPrevious 7 engine_20 new_panel tt new_panel-IsCached

seek_to_next_kill-IsNext_example :
    (target : Option ℕ) × IsNext (kills engine_20) 20 target
    × IsSoughtTo 7 target engine_20 (seek_to_next_kill 7 engine_20 new_panel)
seek_to_next_kill-IsNext_example =
    seek_to_next_kill-IsNext 7 engine_20 new_panel tt new_panel-IsCached

new_engine-kills : kills new_engine ≡ []
unfolding kill_frames_of
new_engine-kills = refl

seek_to_next_kill-stale_example :
    (p' : Panel) × (seek_to_next_kill 7 new_engine new_panel ≡ some (p', new_engine))
    × (seek_to_next_kill 7 engine_20 p' ≡ some (p', engine_20))
    × (seek_to_prev_kill 7 engine_20 p' ≡ some (p', engine_20))
seek_to_next_kill-stale_example =
    seek_to_next_kill-stale 7 new_engine engine_20 new_panel refl new_engine-kills

run_calls-IsSingle_example :
    IsSingle (run_calls (register 7 ∷ register 8 ∷ unregister ∷ register 9 ∷ []) new_panel)
run_calls-IsSingle_example =
    run_calls-IsSingle (register 7 ∷ register 8 ∷ unregister ∷ register 9 ∷ []) new_panel refl

abbrev key : String → KeyEvent
key k = record { tag = some "div"; key = k; shift_key = true }

run_keys-IsHandled_example : IsHandled 7 (
    run_keys 7
      ((key ".", 100) ∷ (key "ArrowLeft", 200) ∷ (key " ", 300) ∷ (key ",", 400) ∷ [])
      (new_panel, engine_20))
run_keys-IsHandled_example =
    run_keys-IsHandled 7
      ((key ".", 100) ∷ (key "ArrowLeft", 200) ∷ (key " ", 300) ∷ (key ",", 400) ∷ []) new_panel
      engine_20 tt new_panel-IsCached
