-- ===== src/Engine/Armed.antt =====
-- The animation frames that the class PlaybackEngine of ui/src/playback/engine.ts requests.
use ocap2_web.Base.{
  ◌≡◌, refl, sym, ap, ◌∙◌, subst, ℕ, Bool, true, false, Option, none, some, List, [], ◌∷◌, ◌++◌,
  Option-cases, Bool-cases, inl, inr, some_inj, of_map-some, by_test, arith, leb,
}
use ocap2_web.Engine.{
  Engine, cancel, request_frame, stop, take_time, next_frame, finish_tick, advance_to, on_frame,
  animate, run_oldest, ensure_chunk, follow_camera,
}
use ocap2_web.Engine.Ticks.{Tick, idle, no_delay, waits, ends, moves, on_frame-Tick}
use ocap2_web.Engine.Frozen.{refresh-frozen, follow_camera-frozen}

abbrev is_some : Option ℕ → Bool
is_some none = false
is_some (some h) = true

abbrev pub pending : Option ℕ → List ℕ
pending none = []
pending (some h) = h ∷ []

-- There is a handle exactly while the engine plays, and the browser has the callback of this handle and
-- no other.
pub record ArmedFields (is_playing : Bool) (anim_frame : Option ℕ) (requested : List ℕ)
    : Type 0 where
  pub playing : is_some anim_frame ≡ is_playing
  pub single : requested ≡ pending anim_frame

abbrev pub IsArmed : Engine → Type 0
IsArmed e = ArmedFields e.is_playing e.anim_frame e.requested

cancel-pending : (o : Option ℕ) → cancel o (pending o) ≡ []
cancel-pending none = refl
cancel-pending (some h) = ground arith

cancel-nil : (o : Option ℕ) → cancel o [] ≡ []
cancel-nil none = refl
cancel-nil (some h) = refl

-- The timer is cleared, and the engine does not play.
pub silent :
    {b : Bool} {o : Option ℕ} {rs : List ℕ}
    → ArmedFields b o rs
    → ArmedFields false none (cancel o rs)
silent {o} a = record { playing = refl; single = ap (cancel o) a.single ∙ cancel-pending o }

-- An engine that does not play has no callback.
pub quiet : (e : Engine) → IsArmed e → e.is_playing ≡ false → e.requested ≡ []
quiet e a p = elim (Option-cases e.anim_frame) [
  | inl n ↦ a.single ∙ ap pending n
  | inr (h, y) ↦ cc (rw y at (a.playing))
]

pub armed_one : (e : Engine) → IsArmed e → e.is_playing ≡ true → (h : ℕ) × (e.requested ≡ h ∷ [])
armed_one e a p = elim (Option-cases e.anim_frame) [
  | inl n ↦ cc (rw n at (a.playing))
  | inr (h, y) ↦ (h, a.single ∙ ap pending y)
]

abbrev pub fired : Engine → Engine
fired e = record e { requested = [] }

pub animate-stopped :
    (now : ℕ) (e : Engine) → IsArmed e → e.is_playing ≡ false → animate now e ≡ some e
unfolding animate
animate-stopped now e a p = ap (λ rs. run_oldest rs now e) (quiet e a p)

pub animate-playing :
    (now : ℕ) (e : Engine)
    → IsArmed e
    → e.is_playing ≡ true
    → animate now e ≡ on_frame now (fired e)
unfolding animate
animate-playing now e a p = let (h, q) = armed_one e a p in ap (λ rs. run_oldest rs now e) q

stop-IsArmed : (e : Engine) → e.requested ≡ [] → IsArmed (stop e)
stop-IsArmed e q = record {
  playing = refl;
  single = ap (cancel e.anim_frame) q ∙ cancel-nil e.anim_frame;
}

pub request_frame-IsArmed :
    (e : Engine) → e.is_playing ≡ true → e.requested ≡ [] → IsArmed (request_frame e)
request_frame-IsArmed e p q = record {
  playing = sym p;
  single = ap (λ rs. rs ++ e.next_handle ∷ []) q;
}

finish_tick-IsArmed :
    (e : Engine) → e.is_playing ≡ true → e.requested ≡ [] → IsArmed (finish_tick e)
finish_tick-IsArmed e p q =
    by_test IsArmed (leb e.end_frame e.current_frame) _ _ (λ r. stop-IsArmed e q)
      (λ r. request_frame-IsArmed e p q)

pub advance_to-IsArmed :
    (next : ℕ) (e e' : Engine)
    → e.is_playing ≡ true
    → e.requested ≡ []
    → advance_to next e ≡ some e'
    → IsArmed e'
unfolding advance_to
advance_to-IsArmed next e e' p q h =
    let (e1, (c, r)) = of_map-some _ _ e' h in
    let moved = ensure_chunk next (record e { current_frame = next }) in
    let same = follow_camera-frozen e1 ∙ refresh-frozen next moved e1 c in
    subst IsArmed r (
      finish_tick-IsArmed (follow_camera e1) (ap (λ (x : Engine). x.is_playing) same ∙ p)
        (ap (λ (x : Engine). x.requested) same ∙ q))

on_frame-IsArmed :
    (now : ℕ) (e e' : Engine)
    → e.is_playing ≡ true
    → e.requested ≡ []
    → on_frame now e ≡ some e'
    → IsArmed e'
on_frame-IsArmed now e e' p q h = go (on_frame now e) (on_frame-Tick now e) h
  where
    go : (o : Option Engine) → Tick now e o → o ≡ some e' → IsArmed e'
    go _ (idle n) h = cc
    go _ (no_delay _ _) h = cc h
    go _ (waits _ _ _) h = subst IsArmed (some_inj h) (request_frame-IsArmed (take_time now e) p q)
    go _ (ends _ _ _) h = subst IsArmed (some_inj h) (stop-IsArmed (take_time now e) q)
    go _ (moves _ _ _ _) h = advance_to-IsArmed (next_frame now e) (take_time now e) e' p q h

-- A run of the browser's callback leaves the next one requested, or the engine stopped without one.
pub animate-IsArmed : (now : ℕ) (e e' : Engine) → IsArmed e → animate now e ≡ some e' → IsArmed e'
animate-IsArmed now e e' a h = elim (Bool-cases e.is_playing) [
  | inl p ↦ on_frame-IsArmed now (fired e) e' p refl (sym (animate-playing now e a p) ∙ h)
  | inr p ↦ subst IsArmed (some_inj (sym (animate-stopped now e a p) ∙ h)) a
]
