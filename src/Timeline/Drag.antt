-- ===== src/Timeline/Drag.antt =====
-- A drag over the timeline of ui/src/pages/recording-playback/components/TimelineScrubber.tsx.
use mathlib.Core.Option
use ocap2_web.Base.{
  ℕ, ◌≤◌, ◌<◌, ◌≡◌, refl, sym, ap, ◌∙◌, subst, true, false, none, some, List, [], ◌∷◌, arith, leb,
  leb→le, le→leb, by_test,
}
use ocap2_web.Base.Int.{ℤ}
use ocap2_web.Engine.{Engine, pause, play, clamp_frame}
use ocap2_web.Engine.Total.{HasManifest}
use ocap2_web.Shortcuts.Step.{seek_to-IsAt, pause-IsPaused}
use ocap2_web.Timeline.{
  Scrubber, on_pointer_down, on_pointer_move, on_pointer_up, run_moves, run_drag, with_scrubber,
  move_to, hold, press, release,
}

-- The last frame of a drag.
abbrev pub last_frame : ℤ → List ℤ → ℤ
last_frame f [] = f
last_frame f (g ∷ gs) = last_frame g gs

-- In the middle of a drag that interrupted the playback, at a frame.
record InDrag (at : ℕ) (e : Engine) (s' : Scrubber) (e' : Engine) : Type 0 where
  dragging : s'.dragging ≡ true
  no_handle : s'.dragging_handle ≡ none
  was_playing : s'.was_playing ≡ true
  current_frame : e'.current_frame ≡ at
  end_frame : e'.end_frame ≡ e.end_frame
  stopped : e'.is_playing ≡ false
  chunk_manager : HasManifest e'.chunk_manager

move-InDrag :
    (frame : ℤ) (at : ℕ) (e : Engine) (s1 : Scrubber) (e1 : Engine)
    → InDrag at e s1 e1
    → (s2 : Scrubber) × (e2 : Engine) × (on_pointer_move frame s1 e1 ≡ some (s2, e2))
      × InDrag (clamp_frame frame e.end_frame) e s2 e2
unfolding on_pointer_move
move-InDrag frame at e s1 e1 d =
    let hovered : Scrubber = record s1 { hover_frame = some frame } in
    let (e2, runs, there) = seek_to-IsAt frame e1 d.chunk_manager in
    (
      hovered,
      e2,
      ap (λ o. move_to o s1.focus_draft s1.dragging frame hovered e1) d.no_handle
          ∙ ap (λ b. move_to none s1.focus_draft b frame hovered e1) d.dragging
          ∙ ap (Option.map (with_scrubber hovered)) runs,
      record {
        dragging = d.dragging;
        no_handle = d.no_handle;
        was_playing = d.was_playing;
        current_frame = there.current_frame ∙ ap (clamp_frame frame) d.end_frame;
        end_frame = there.end_frame ∙ d.end_frame;
        stopped = there.is_playing ∙ d.stopped;
        chunk_manager = there.chunk_manager;
      },
    )

moves-InDrag :
    (moves : List ℤ) (frame : ℤ) (e : Engine) (s1 : Scrubber) (e1 : Engine)
    → InDrag (clamp_frame frame e.end_frame) e s1 e1
    → (s2 : Scrubber) × (e2 : Engine) × (run_moves moves (s1, e1) ≡ some (s2, e2))
      × InDrag (clamp_frame (last_frame frame moves) e.end_frame) e s2 e2
moves-InDrag [] frame e s1 e1 d = (s1, e1, refl, d)
moves-InDrag (g ∷ gs) frame e s1 e1 d =
    let (s2, e2, runs, d2) = move-InDrag g (clamp_frame frame e.end_frame) e s1 e1 d in
    rw runs (moves-InDrag gs g e s2 e2 d2)

press-InDrag :
    (frame : ℤ) (s : Scrubber) (e : Engine)
    → HasManifest e.chunk_manager
    → e.is_playing ≡ true
    → s.dragging ≡ false
    → s.dragging_handle ≡ none
    → (s1 : Scrubber) × (e1 : Engine) × (on_pointer_down frame s e ≡ some (s1, e1))
      × InDrag (clamp_frame frame e.end_frame) e s1 e1
unfolding on_pointer_down
press-InDrag frame s e h playing idle free =
    let paused = pause-IsPaused e in
    let (e1, runs, there) = seek_to-IsAt frame (pause e) (rw paused.chunk_manager h) in
    (
      record s { was_playing = true; dragging = true },
      e1,
      ap (λ b. press frame (hold b e.is_playing s e)) idle
          ∙ ap (λ b. press frame (hold false b s e)) playing
          ∙ ap (Option.map (with_scrubber (record s { was_playing = true; dragging = true }))) runs,
      record {
        dragging = refl;
        no_handle = free;
        was_playing = refl;
        current_frame = there.current_frame ∙ ap (clamp_frame frame) paused.end_frame;
        end_frame = there.end_frame ∙ paused.end_frame;
        stopped = there.is_playing ∙ paused.stopped;
        chunk_manager = there.chunk_manager;
      },
    )

-- What a drag leaves: the engine at a frame, and playing unless this is the last one.
pub record IsDropped (at : ℕ) (e : Engine) (s' : Scrubber) (e' : Engine) : Type 0 where
  pub dragging : s'.dragging ≡ false
  pub current_frame : e'.current_frame ≡ at
  pub end_frame : e'.end_frame ≡ e.end_frame
  pub plays : at < e.end_frame → e'.is_playing ≡ true
  pub stays : e.end_frame ≤ at → e'.is_playing ≡ false

play-IsDropped :
    (now at : ℕ) (e : Engine) (s1 s2 : Scrubber) (e1 : Engine)
    → InDrag at e s1 e1
    → s2.dragging ≡ false
    → IsDropped at e s2 (play now e1)
unfolding play
play-IsDropped now at e s1 s2 e1 d idle =
    by_test (IsDropped at e s2) e1.is_playing _ _ (λ p. cc (p, d.stopped))
      (λ p.
        by_test (IsDropped at e s2) (leb e1.end_frame e1.current_frame) _ _
          (λ over. record {
            dragging = idle;
            current_frame = d.current_frame;
            end_frame = d.end_frame;
            plays = λ lt. absurd (behind over lt d.current_frame d.end_frame);
            stays = λ le. d.stopped;
          })
          (λ more. record {
            dragging = idle;
            current_frame = d.current_frame;
            end_frame = d.end_frame;
            plays = λ lt. refl;
            stays = λ le. absurd (before more le d.current_frame d.end_frame);
          }))
  where
    behind :
        leb e1.end_frame e1.current_frame ≡ true
        → at < e.end_frame
        → e1.current_frame ≡ at
        → e1.end_frame ≡ e.end_frame
        → ⊥
    behind over lt c m = omega (arith, leb→le e1.end_frame e1.current_frame over)

    before :
        leb e1.end_frame e1.current_frame ≡ false
        → e.end_frame ≤ at
        → e1.current_frame ≡ at
        → e1.end_frame ≡ e.end_frame
        → ⊥
    before more le c m = cc (more, le→leb e1.end_frame e1.current_frame (omega arith))

release-IsDropped :
    (now at : ℕ) (e : Engine) (s1 : Scrubber) (e1 : Engine)
    → InDrag at e s1 e1
    → IsDropped at e (on_pointer_up now s1 e1).0 (on_pointer_up now s1 e1).1
unfolding on_pointer_up
release-IsDropped now at e s1 e1 d =
    let released : release s1.dragging_handle s1.was_playing now s1 e1
        ≡ (record s1 { dragging = false; was_playing = false }, play now e1) =
      ap (λ o. release o s1.was_playing now s1 e1) d.no_handle
      ∙ ap (λ b. release none b now s1 e1) d.was_playing in
    subst (λ r. IsDropped at e r.0 r.1) (sym released)
      (play-IsDropped now at e s1 (record s1 { dragging = false; was_playing = false }) e1 d refl)

-- A drag over the timeline interrupts the playback and resumes it. If the chunk manager, where there is
-- one, has its manifest, the engine plays, and neither the timeline nor a handle is being dragged, then a
-- press, any moves and the release run without a throw; the engine is left at the last frame of the drag,
-- brought into the recording, and plays again unless this is the last frame of the recording.
pub run_drag-IsDropped :
    (frame : ℤ) (moves : List ℤ) (now : ℕ) (s : Scrubber) (e : Engine)
    → HasManifest e.chunk_manager
    → e.is_playing ≡ true
    → s.dragging ≡ false
    → s.dragging_handle ≡ none
    → (s' : Scrubber) × (e' : Engine) × (run_drag frame moves now s e ≡ some (s', e'))
      × IsDropped (clamp_frame (last_frame frame moves) e.end_frame) e s' e'
run_drag-IsDropped frame moves now s e h playing idle free =
    let (s1, e1, pressed, d1) = press-InDrag frame s e h playing idle free in
    let (s2, e2, moved, d2) = moves-InDrag moves frame e s1 e1 d1 in
    (
      (on_pointer_up now s2 e2).0,
      (on_pointer_up now s2 e2).1,
      rw (pressed, moved) refl,
      release-IsDropped now _ e s2 e2 d2,
    )
