-- ===== src/Engine/Pace.antt =====
-- The pace of the loop `onFrame` of ui/src/playback/engine.ts.

use ocap2_web.Base.{
  ◌≡◌, refl, sym, ap, ◌∙◌, subst, ℕ, ◌+◌, ◌-◌, ◌*◌, ◌/◌, ◌%◌, ◌≤◌, ◌<◌, min, true, false, Option,
  some, List, [], ◌∷◌, leb, ltb, if◌then◌else◌, Option-cases, Bool-cases, some_inj, of_map-some,
  by_test, inl, inr, arith, map,
}
use ocap2_web.Engine.{
  Engine, animate, on_frame, advance_to, follow_camera, finish_tick, ensure_chunk, tick_total,
  tick_frames, tick_delta, take_time, next_frame, max_frame_delta_ms,
}
use ocap2_web.Engine.Ticks.{Tick, idle, no_delay, waits, ends, moves, on_frame-Tick}
use ocap2_web.Engine.Armed.{IsArmed, fired, animate-stopped, animate-playing, animate-IsArmed}
use ocap2_web.Engine.Frozen.{frozen, refresh-frozen, follow_camera-frozen}
use ocap2_web.Engine.Invariant.{IsValid, run_calls-IsValid}
use ocap2_web.Engine.Commands.{frame_call, run_calls}

-- The time that the engine has played: whole frames, and what is left over.
abbrev pub played : Engine → ℕ
played e = e.current_frame * e.capture_delay_ms + e.accumulated

-- The time that passes over a sequence of ticks, without the gaps above the maximum.
abbrev pub elapsed : ℕ → List ℕ → ℕ
elapsed last [] = 0
elapsed last (now ∷ nows) =
    (if ltb max_frame_delta_ms (now - last) then 0 else now - last) + elapsed now nows

-- What a tick leaves as it is, and the time it takes over.
pub record Paced (now : ℕ) (e e' : Engine) : Type 0 where
  pub end_frame : e'.end_frame ≡ e.end_frame
  pub capture_delay_ms : e'.capture_delay_ms ≡ e.capture_delay_ms
  pub playback_speed : e'.playback_speed ≡ e.playback_speed
  pub last_tick_time : e'.last_tick_time ≡ now
  pub played_on : e'.is_playing ≡ true → played e' ≡ played e + tick_delta now e * e.playback_speed
  pub remainder : e'.accumulated < e'.capture_delay_ms

advance_to-fields :
    (next : ℕ) (e e' : Engine)
    → advance_to next e ≡ some e'
    → (e1 : Engine) × ((e' ≡ finish_tick e1)
        × (frozen e1 ≡ frozen (ensure_chunk next (record e { current_frame = next }))))
unfolding advance_to
advance_to-fields next e e' h =
    let (e1, (c, q)) = of_map-some _ _ e' h in
    (
      follow_camera e1,
      (
        sym q,
        follow_camera-frozen e1
            ∙ refresh-frozen next (ensure_chunk next (record e { current_frame = next })) e1 c,
      ),
    )

of_quotient : (c t d : ℕ) → (c + t / d) * d + t % d ≡ c * d + t
of_quotient c t d = omega arith

rest_lt : (t d : ℕ) → 0 < d → t % d < d
rest_lt t d h = omega arith

rest_of_none : (t d : ℕ) → t / d ≡ 0 → t % d ≡ t
rest_of_none t d h =
    let q : (0 + 0) * d + t % d ≡ 0 * d + t = rw h at (of_quotient 0 t d) in omega arith

unclamped :
    (c f end_frame : ℕ)
    → leb end_frame (min (c + f) end_frame) ≡ false
    → min (c + f) end_frame ≡ c + f
unclamped c f end_frame h = ground arith

short : (c n d a : ℕ) → c ≤ n → a < d → (n + 1) * d ≤ c * d + a → ⊥
short c n d a i r h = grind arith

finish_tick-Paced :
    (now : ℕ) (e e1 : Engine)
    → 0 < e.capture_delay_ms
    → frozen e1
      ≡ frozen (
          ensure_chunk
            (next_frame now e)
            (record (take_time now e) { current_frame = next_frame now e }))
    → Paced now e (finish_tick e1)
finish_tick-Paced now e e1 d f =
    by_test (Paced now e) (leb e1.end_frame e1.current_frame) _ _
      (λ q. record {
        end_frame = end_frame;
        capture_delay_ms = capture_delay_ms;
        playback_speed = playback_speed;
        last_tick_time = last_tick_time;
        played_on = λ r. cc;
        remainder = remainder;
      })
      (λ q. record {
        end_frame = end_frame;
        capture_delay_ms = capture_delay_ms;
        playback_speed = playback_speed;
        last_tick_time = last_tick_time;
        played_on = λ r.
            rw
              (
                current_frame,
                capture_delay_ms,
                accumulated,
                moved (rw (end_frame, current_frame) at q),
              )
              (of_quotient e.current_frame (tick_total now e) e.capture_delay_ms ∙ omega arith);
        remainder = remainder;
      })
  where
    end_frame : e1.end_frame ≡ e.end_frame
    end_frame = ap (λ (x : Engine). x.end_frame) f

    capture_delay_ms : e1.capture_delay_ms ≡ e.capture_delay_ms
    capture_delay_ms = ap (λ (x : Engine). x.capture_delay_ms) f

    playback_speed : e1.playback_speed ≡ e.playback_speed
    playback_speed = ap (λ (x : Engine). x.playback_speed) f

    last_tick_time : e1.last_tick_time ≡ now
    last_tick_time = ap (λ (x : Engine). x.last_tick_time) f

    accumulated : e1.accumulated ≡ tick_total now e % e.capture_delay_ms
    accumulated = ap (λ (x : Engine). x.accumulated) f

    current_frame : e1.current_frame ≡ next_frame now e
    current_frame = ap (λ (x : Engine). x.current_frame) f

    remainder : e1.accumulated < e1.capture_delay_ms
    remainder = rw (accumulated, capture_delay_ms) (rest_lt (tick_total now e) e.capture_delay_ms d)

    moved :
        leb e.end_frame (next_frame now e) ≡ false
        → next_frame now e ≡ e.current_frame + tick_frames now e
    moved q = unclamped e.current_frame (tick_frames now e) e.end_frame q

on_frame-Paced :
    (now : ℕ) (e e' : Engine) → e.is_playing ≡ true → on_frame now e ≡ some e' → Paced now e e'
on_frame-Paced now e e' p h = go (on_frame now e) (on_frame-Tick now e) h
  where
    go : (o : Option Engine) → Tick now e o → o ≡ some e' → Paced now e e'
    go _ (idle n) h = cc
    go _ (no_delay _ q) h = cc h
    go _ (waits _ d z) h = subst (Paced now e) (some_inj h) (record {
      end_frame = refl;
      capture_delay_ms = refl;
      playback_speed = refl;
      last_tick_time = refl;
      played_on = λ r. rw (rest_of_none (tick_total now e) e.capture_delay_ms z) (omega arith);
      remainder = rest_lt (tick_total now e) e.capture_delay_ms d;
    })
    go _ (ends _ d l) h = subst (Paced now e) (some_inj h) (record {
      end_frame = refl;
      capture_delay_ms = refl;
      playback_speed = refl;
      last_tick_time = refl;
      played_on = λ r. cc;
      remainder = rest_lt (tick_total now e) e.capture_delay_ms d;
    })
    go _ (moves _ d z l) h =
        let (e1, (q, f)) = advance_to-fields (next_frame now e) (take_time now e) e' h in
        subst (Paced now e) (sym q) (finish_tick-Paced now e e1 d f)

animate-Paced :
    (now : ℕ) (e e' : Engine)
    → IsArmed e
    → e.is_playing ≡ true
    → animate now e ≡ some e'
    → Paced now e e'
animate-Paced now e e' a p h =
    let paced = on_frame-Paced now (fired e) e' p (sym (animate-playing now e a p) ∙ h) in
    record {
      end_frame = paced.end_frame;
      capture_delay_ms = paced.capture_delay_ms;
      playback_speed = paced.playback_speed;
      last_tick_time = paced.last_tick_time;
      played_on = paced.played_on;
      remainder = paced.remainder;
    }

-- A tick never starts the loop again.
run_frames-stopped :
    (nows : List ℕ) (e e' : Engine)
    → IsArmed e
    → e.is_playing ≡ false
    → run_calls (map frame_call nows) e ≡ some e'
    → e'.is_playing ≡ false
run_frames-stopped [] e e' a p h = subst (λ (x : Engine). x.is_playing ≡ false) (some_inj h) p
run_frames-stopped (now ∷ nows) e e' a p h =
    run_frames-stopped nows e e' a p (rw (animate-stopped now e a p) at h)

played_on-run_calls :
    (now : ℕ) (nows : List ℕ) (e e1 e' : Engine)
    → IsArmed e1
    → Paced now e e1
    → run_calls (map frame_call nows) e1 ≡ some e'
    → e'.is_playing ≡ true
    → played e' ≡ played e1 + elapsed e1.last_tick_time nows * e1.playback_speed
    → played e' ≡ played e + (tick_delta now e + elapsed now nows) * e.playback_speed
played_on-run_calls now nows e e1 e' a paced rest p later =
    let on : e1.is_playing ≡ true = elim (Bool-cases e1.is_playing) [
      | inl q ↦ q
      | inr q ↦ cc (run_frames-stopped nows e1 e' a q rest)
    ] in
    let goes : played e' ≡ played e1 + elapsed now nows * e.playback_speed =
      rw (paced.last_tick_time, paced.playback_speed) at later in
    rw (goes, paced.played_on on) (omega arith)

-- The time played over a run of ticks that still plays at its end.
pub played-run_calls :
    (nows : List ℕ) (e e' : Engine)
    → IsArmed e
    → run_calls (map frame_call nows) e ≡ some e'
    → e'.is_playing ≡ true
    → played e' ≡ played e + elapsed e.last_tick_time nows * e.playback_speed
played-run_calls [] e e' a h p = sym (ap played (some_inj h)) ∙ omega arith
played-run_calls (now ∷ nows) e e' a h p = elim (Bool-cases e.is_playing) [
  | inr q ↦ cc (run_frames-stopped (now ∷ nows) e e' a q h)
  | inl q ↦ elim (Option-cases (animate now e)) [
    | inl n ↦ cc (rw n at h)
    | inr (e1, y) ↦
        let a1 = animate-IsArmed now e e1 a y in
        played_on-run_calls now nows e e1 e' a1 (animate-Paced now e e1 a q y) (rw y at h) p
          (played-run_calls nows e1 e' a1 (rw y at h) p)
  ]
]

run_frames-constant :
    (nows : List ℕ) (e e' : Engine)
    → IsArmed e
    → run_calls (map frame_call nows) e ≡ some e'
    → e.accumulated < e.capture_delay_ms
    → (e'.end_frame ≡ e.end_frame)
      × ((e'.capture_delay_ms ≡ e.capture_delay_ms) × (e'.accumulated < e'.capture_delay_ms))
run_frames-constant [] e e' a h r =
    subst
      (λ (x : Engine).
        (x.end_frame ≡ e.end_frame)
        × ((x.capture_delay_ms ≡ e.capture_delay_ms) × (x.accumulated < x.capture_delay_ms)))
      (some_inj h) (refl, (refl, r))
run_frames-constant (now ∷ nows) e e' a h r = elim (Bool-cases e.is_playing) [
  | inr q ↦ run_frames-constant nows e e' a (rw (animate-stopped now e a q) at h) r
  | inl q ↦ elim (Option-cases (animate now e)) [
    | inl n ↦ cc (rw n at h)
    | inr (e1, y) ↦
        let paced = animate-Paced now e e1 a q y in
        let (n, (d, a)) =
          run_frames-constant nows e1 e' (animate-IsArmed now e e1 a y) (rw y at h)
            paced.remainder in
        (n ∙ paced.end_frame, (d ∙ paced.capture_delay_ms, a))
  ]
]

-- A run of ticks with enough time is stopped at its end.
pub is_playing-run_calls :
    (nows : List ℕ) (e e' : Engine)
    → IsValid e
    → e.accumulated < e.capture_delay_ms
    → run_calls (map frame_call nows) e ≡ some e'
    → (e.end_frame + 1) * e.capture_delay_ms
      ≤ played e + elapsed e.last_tick_time nows * e.playback_speed
    → e'.is_playing ≡ false
is_playing-run_calls nows e e' v r h enough = elim (Bool-cases e'.is_playing) [
  | inr q ↦ q
  | inl q ↦
      let p = played-run_calls nows e e' v.armed h q in
      let (n, (d, a)) = run_frames-constant nows e e' v.armed h r in
      let i = (run_calls-IsValid (map frame_call nows) e e' v h).drawn.in_range in
      let reached : (e.end_frame + 1) * e'.capture_delay_ms ≤ played e' =
        subst (λ x. (e.end_frame + 1) * x ≤ played e') (sym d)
          (subst (λ x. (e.end_frame + 1) * e.capture_delay_ms ≤ x) (sym p) enough) in
      elim (short e'.current_frame e.end_frame e'.capture_delay_ms e'.accumulated (rw n at i) a
        reached) [ ]
]
