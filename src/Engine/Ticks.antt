-- ===== src/Engine/Ticks.antt =====
-- The ways in which `onFrame` of ui/src/playback/engine.ts ends.
use ocap2_web.Base.{
  ◌≡◌, ℕ, ◌≤◌, ◌<◌, true, false, Option, none, some, ◌==◌, leb, by_test, arith, ==→eq, leb→le,
}
use ocap2_web.Engine.{
  Engine, on_frame, advance_to, tick_frames, take_time, next_frame, wait_tick, stop,
}

pub data Tick (now : ℕ) (e : Engine) : Option Engine → Type 0 where
  idle : e.is_playing ≡ false → Tick now e (some e)
  no_delay : e.is_playing ≡ true → e.capture_delay_ms ≡ 0 → Tick now e none
  waits :
      e.is_playing ≡ true
      → 0 < e.capture_delay_ms
      → tick_frames now e ≡ 0
      → Tick now e (some (wait_tick now e))
  ends :
      e.is_playing ≡ true
      → 0 < e.capture_delay_ms
      → e.end_frame ≤ e.current_frame
      → Tick now e (some (stop (take_time now e)))
  moves :
      e.is_playing ≡ true
      → 0 < e.capture_delay_ms
      → 0 < tick_frames now e
      → e.current_frame < e.end_frame
      → Tick now e (advance_to (next_frame now e) (take_time now e))

pub on_frame-Tick : (now : ℕ) (e : Engine) → Tick now e (on_frame now e)
unfolding on_frame
on_frame-Tick now e =
    by_test (Tick now e) e.is_playing _ _
      (λ p.
        by_test (Tick now e) (e.capture_delay_ms == 0) _ _ (λ d. no_delay p (==→eq _ _ d))
          (λ d.
            by_test (Tick now e) (tick_frames now e == 0) _ _
              (λ z. waits p (ground arith) (==→eq _ _ z))
              (λ z.
                by_test (Tick now e) (leb e.end_frame e.current_frame) _ _
                  (λ l. ends p (ground arith) (leb→le _ _ l))
                  (λ l. moves p (ground arith) (ground arith) (ground arith)))))
      idle
