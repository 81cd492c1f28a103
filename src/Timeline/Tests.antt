-- ===== src/Timeline/Tests.antt =====
-- A concrete drag over the timeline of
-- ui/src/pages/recording-playback/components/TimelineScrubber.tsx.
use ocap2_web.Base.{◌≡◌, refl, true, false, none, some, [], ◌∷◌}
use ocap2_web.Base.Int.{pos, negsuc}
use ocap2_web.Engine.{Engine, new_engine}
use ocap2_web.Timeline.{Scrubber, run_drag}
use ocap2_web.Timeline.Drag.{IsDropped, run_drag-IsDropped}

abbrev playing : Engine
playing = record new_engine {
  end_frame = 40;
  current_frame = 3;
  is_playing = true;
  anim_frame = some 0;
  requested = 0 ∷ [];
  next_handle = 1;
}

abbrev at_rest : Scrubber
at_rest = record {
  dragging = false;
  hover_frame = none;
  dragging_handle = none;
  was_playing = false;
  focus_draft = none;
}

run_drag-IsDropped_example :
    (s' : Scrubber) × (e' : Engine) × (run_drag
        (pos 10)
        (pos 60 ∷ negsuc 2 ∷ pos 20 ∷ [])
        500
        at_rest
        playing
      ≡ some (s', e'))
    × IsDropped 20 playing s' e'
run_drag-IsDropped_example =
    run_drag-IsDropped (pos 10) (pos 60 ∷ negsuc 2 ∷ pos 20 ∷ []) 500 at_rest playing tt refl refl
      refl
