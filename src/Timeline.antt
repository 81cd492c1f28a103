-- ===== src/Timeline.antt =====
-- The pointer's handlers of ui/src/pages/recording-playback/components/TimelineScrubber.tsx, and the
-- focus range that ui/src/pages/recording-playback/RecordingPlayback.tsx edits. A handler is given the
-- frame under the pointer, which the code computes from the layout of the page.
pub mod Drag
mod Tests
use mathlib.Core.Option
use ocap2_web.Base.{ℕ, Bool, true, false, Option, none, some, List, [], ◌∷◌, if◌then◌else◌}
use ocap2_web.Base.Int.{ℤ, pos, ltb_ℤ, ◌+ℤ◌, ◌-ℤ◌}
use ocap2_web.Engine.{Engine, pause, play, seek_to, ◌>>=◌}

pub record FocusRange : Type 0 where
  pub in_frame : ℤ
  pub out_frame : ℤ

pub data Handle : Type 0 where
  in_handle out_handle : Handle

-- `Math.min` and `Math.max`.
abbrev pub min_ℤ : ℤ → ℤ → ℤ
min_ℤ a b = if ltb_ℤ b a then b else a

abbrev pub max_ℤ : ℤ → ℤ → ℤ
max_ℤ a b = if ltb_ℤ a b then b else a

unfoldable pub set_focus_in : ℕ → Option FocusRange → Option FocusRange
set_focus_in current none = none
set_focus_in current (some d) =
    some (record d { in_frame = min_ℤ (pos current) (d.out_frame -ℤ pos 1) })

unfoldable pub set_focus_out : ℕ → Option FocusRange → Option FocusRange
set_focus_out current none = none
set_focus_out current (some d) =
    some (record d { out_frame = max_ℤ (pos current) (d.in_frame +ℤ pos 1) })

-- The draft, when a handle is dragged to a frame.
unfoldable pub drag_handle : Handle → ℤ → ℕ → FocusRange → FocusRange
drag_handle in_handle frame end_frame d = record d {
  in_frame = max_ℤ (pos 0) (min_ℤ frame (d.out_frame -ℤ pos 1));
}
drag_handle out_handle frame end_frame d = record d {
  out_frame = min_ℤ (pos end_frame) (max_ℤ frame (d.in_frame +ℤ pos 1));
}

pub record Scrubber : Type 0 where
  pub dragging : Bool
  pub hover_frame : Option ℤ
  pub dragging_handle : Option Handle
  pub was_playing : Bool
  pub focus_draft : Option FocusRange

abbrev pub with_scrubber : Scrubber → Engine → Scrubber × Engine
with_scrubber s e = (s, e)

-- The playback is paused at the first press, with whether the timeline is dragged and the engine plays.
unfoldable pub hold : Bool → Bool → Scrubber → Engine → Scrubber × Engine
hold true playing s e = (s, e)
hold false true s e = (record s { was_playing = true }, pause e)
hold false false s e = (record s { was_playing = false }, e)

unfoldable pub press : ℤ → Scrubber × Engine → Option (Scrubber × Engine)
press frame (s, e) = Option.map (with_scrubber (record s { dragging = true })) (seek_to frame e)

unfoldable pub on_pointer_down : ℤ → Scrubber → Engine → Option (Scrubber × Engine)
unfolding hold press
on_pointer_down frame s e = press frame (hold s.dragging e.is_playing s e)

-- A move, with the handle that is dragged, the draft, and whether the timeline is dragged.
unfoldable pub move_to :
    Option Handle → Option FocusRange → Bool → ℤ → Scrubber → Engine → Option (Scrubber × Engine)
move_to (some h) (some d) dragging frame s e =
    some (record s { focus_draft = some (drag_handle h frame e.end_frame d) }, e)
move_to (some h) none true frame s e = Option.map (with_scrubber s) (seek_to frame e)
move_to (some h) none false frame s e = some (s, e)
move_to none draft true frame s e = Option.map (with_scrubber s) (seek_to frame e)
move_to none draft false frame s e = some (s, e)

unfoldable pub on_pointer_move : ℤ → Scrubber → Engine → Option (Scrubber × Engine)
unfolding move_to
on_pointer_move frame s e =
    move_to s.dragging_handle s.focus_draft s.dragging frame (record s { hover_frame = some frame })
      e

-- The release, with the handle that is dragged and whether the playback was interrupted.
unfoldable pub release : Option Handle → Bool → ℕ → Scrubber → Engine → Scrubber × Engine
release (some h) was_playing now s e = (record s { dragging_handle = none }, e)
release none true now s e = (record s { dragging = false; was_playing = false }, play now e)
release none false now s e = (record s { dragging = false }, e)

unfoldable pub on_pointer_up : ℕ → Scrubber → Engine → Scrubber × Engine
unfolding release
on_pointer_up now s e = release s.dragging_handle s.was_playing now s e

abbrev pub on_pointer_leave : Scrubber → Scrubber
on_pointer_leave s = record s { hover_frame = none }

abbrev pub grab_handle : Handle → Scrubber → Scrubber
grab_handle h s = record s { dragging_handle = some h }

-- The pointer moves over frames.
abbrev pub run_moves : List ℤ → Scrubber × Engine → Option (Scrubber × Engine)
run_moves [] s = some s
run_moves (f ∷ fs) s = on_pointer_move f s.0 s.1 >>= run_moves fs

-- A press at a frame, moves and the release.
abbrev pub run_drag : ℤ → List ℤ → ℕ → Scrubber → Engine → Option (Scrubber × Engine)
run_drag frame moves now s e = on_pointer_down frame s e >>= λ pressed.
    run_moves moves pressed >>= λ moved. some (on_pointer_up now moved.0 moved.1)
