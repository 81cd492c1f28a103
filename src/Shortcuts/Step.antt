-- ===== src/Shortcuts/Step.antt =====
-- `stepBack` and `stepForward` of ui/src/pages/recording-playback/shortcuts.ts.
use mathlib.Core.Option
use ocap2_web.Base.{ℕ, ◌+◌, ◌≤◌, ◌≡◌, refl, sym, ap, ◌∙◌, subst, false, some, arith, by_test}
use ocap2_web.Base.Int.{ℤ, pos, sub_ℕ}
use ocap2_web.Engine.{Engine, pause, seek_to, clamp_frame, ensure_chunk}
use ocap2_web.Engine.Frozen.{refresh-frozen}
use ocap2_web.Engine.Total.{HasManifest, refresh-runs, ensure_chunk-HasManifest}
use ocap2_web.Shortcuts.{step_back, step_forward}

-- What a seek leaves behind.
pub record IsAt (frame : ℕ) (e e' : Engine) : Type 0 where
  pub current_frame : e'.current_frame ≡ frame
  pub end_frame : e'.end_frame ≡ e.end_frame
  pub is_playing : e'.is_playing ≡ e.is_playing
  pub event_manager : e'.event_manager ≡ e.event_manager
  pub chunk_manager : HasManifest e'.chunk_manager

-- A seek returns, and changes of the playback only the frame.
pub seek_to-IsAt :
    (frame : ℤ) (e : Engine)
    → HasManifest e.chunk_manager
    → (e' : Engine) × (seek_to frame e ≡ some e') × IsAt (clamp_frame frame e.end_frame) e e'
unfolding seek_to
seek_to-IsAt frame e h =
    let clamped : ℕ = clamp_frame frame e.end_frame in
    let (e1, q) = refresh-runs clamped (record e { current_frame = clamped }) h in
    let same = refresh-frozen clamped (record e { current_frame = clamped }) e1 q in
    (
      ensure_chunk clamped e1,
      ap (Option.map (ensure_chunk clamped)) q,
      record {
        current_frame = ap (λ (x : Engine). x.current_frame) same;
        end_frame = ap (λ (x : Engine). x.end_frame) same;
        is_playing = ap (λ (x : Engine). x.is_playing) same;
        event_manager = ap (λ (x : Engine). x.event_manager) same;
        chunk_manager =
            ensure_chunk-HasManifest clamped e1.chunk_manager
              (subst HasManifest (sym (ap (λ (x : Engine). x.chunk_manager) same)) h);
      },
    )

-- `pause` stops the playback and keeps the place.
pub record IsPaused (e e' : Engine) : Type 0 where
  pub current_frame : e'.current_frame ≡ e.current_frame
  pub end_frame : e'.end_frame ≡ e.end_frame
  pub stopped : e'.is_playing ≡ false
  pub event_manager : e'.event_manager ≡ e.event_manager
  pub chunk_manager : e'.chunk_manager ≡ e.chunk_manager

pub pause-IsPaused : (e : Engine) → IsPaused e (pause e)
unfolding pause
pause-IsPaused e =
    by_test (IsPaused e) e.is_playing _ _
      (λ h. record {
        current_frame = refl;
        end_frame = refl;
        stopped = refl;
        event_manager = refl;
        chunk_manager = refl;
      })
      (λ h. record {
        current_frame = refl;
        end_frame = refl;
        stopped = h;
        event_manager = refl;
        chunk_manager = refl;
      })

clamp_frame-pos : (f m : ℕ) → f ≤ m → clamp_frame (pos f) m ≡ f
clamp_frame-pos f m h = ground arith

clamp_frame-sub : (a n m : ℕ) → a ≤ m → clamp_frame (sub_ℕ (a + n) n) m ≡ a
clamp_frame-sub a n m h = ground arith

-- What a step leaves behind: stopped, at the frame.
pub record IsSteppedTo (frame : ℕ) (e e' : Engine) : Type 0 where
  pub current_frame : e'.current_frame ≡ frame
  pub end_frame : e'.end_frame ≡ e.end_frame
  pub stopped : e'.is_playing ≡ false
  pub event_manager : e'.event_manager ≡ e.event_manager
  pub chunk_manager : HasManifest e'.chunk_manager

seek_to-IsSteppedTo :
    (frame : ℤ) (e p : Engine)
    → HasManifest e.chunk_manager
    → IsPaused e p
    → (e' : Engine) × (seek_to frame p ≡ some e') × IsSteppedTo (clamp_frame frame e.end_frame) e e'
seek_to-IsSteppedTo frame e p h paused =
    let (e', runs, at) = seek_to-IsAt frame p (rw paused.chunk_manager h) in
    (
      e',
      runs,
      record {
        current_frame = at.current_frame ∙ ap (clamp_frame frame) paused.end_frame;
        end_frame = at.end_frame ∙ paused.end_frame;
        stopped = at.is_playing ∙ paused.stopped;
        event_manager = at.event_manager ∙ paused.event_manager;
        chunk_manager = at.chunk_manager;
      },
    )

pub step_forward-IsSteppedTo :
    (n : ℕ) (e : Engine)
    → HasManifest e.chunk_manager
    → (e' : Engine) × (step_forward n e ≡ some e')
      × IsSteppedTo (clamp_frame (pos (e.current_frame + n)) e.end_frame) e e'
unfolding step_forward
step_forward-IsSteppedTo n e h =
    rw (pause-IsPaused e).current_frame
      (seek_to-IsSteppedTo (pos (e.current_frame + n)) e (pause e) h (pause-IsPaused e))

pub step_back-IsSteppedTo :
    (n : ℕ) (e : Engine)
    → HasManifest e.chunk_manager
    → (e' : Engine) × (step_back n e ≡ some e')
      × IsSteppedTo (clamp_frame (sub_ℕ e.current_frame n) e.end_frame) e e'
unfolding step_back
step_back-IsSteppedTo n e h =
    rw (pause-IsPaused e).current_frame
      (seek_to-IsSteppedTo (sub_ℕ e.current_frame n) e (pause e) h (pause-IsPaused e))

-- A step forward and the same step back return to the frame. If the chunk manager, where there is one,
-- has its manifest, and the step does not go beyond the last frame, then both steps run without a throw,
-- and leave the playback stopped at the frame where it was, with the same events.
pub step_back-step_forward :
    (n : ℕ) (e : Engine)
    → HasManifest e.chunk_manager
    → e.current_frame + n ≤ e.end_frame
    → (e1 : Engine) × (e2 : Engine) × (step_forward n e ≡ some e1)
      × (step_back n e1 ≡ some e2)
      × IsSteppedTo e.current_frame e e2
step_back-step_forward n e h le =
    let (e1, forth, at1) = step_forward-IsSteppedTo n e h in
    let (e2, back, at2) = step_back-IsSteppedTo n e1 at1.chunk_manager in
    let there : e1.current_frame ≡ e.current_frame + n =
      at1.current_frame ∙ clamp_frame-pos (e.current_frame + n) e.end_frame le in
    let returned : clamp_frame (sub_ℕ e1.current_frame n) e1.end_frame ≡ e.current_frame =
      rw (there, at1.end_frame) (clamp_frame-sub e.current_frame n e.end_frame (omega arith)) in
    (
      e1,
      e2,
      forth,
      back,
      record {
        current_frame = at2.current_frame ∙ returned;
        end_frame = at2.end_frame ∙ at1.end_frame;
        stopped = at2.stopped;
        event_manager = at2.event_manager ∙ at1.event_manager;
        chunk_manager = at2.chunk_manager;
      },
    )
