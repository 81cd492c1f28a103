-- ===== src/Engine/Total.antt =====
-- The loop `onFrame` of ui/src/playback/engine.ts does not throw while the chunk manager has a manifest.
use mathlib.Core.Option
use ocap2_web.Base.{
  ◌≡◌, refl, sym, ap, ◌∙◌, subst, ℕ, ◌<◌, Option, none, some, List, [], ◌∷◌, map, Option-cases,
  by_test, inl, inr, arith, leb,
}
use ocap2_web.Base.Map
use ocap2_web.Types.{Manifest}
use ocap2_web.Events.{get_active_events}
use ocap2_web.Chunks.{
  ChunkManager, ensure_loaded, load_chunk, start_load, get_chunk_for_frame, chunk_index,
  frame_caller, Caller,
}
use ocap2_web.Engine.{
  Engine, chunk_data_at, compute_snapshots, refresh, advance_to, on_frame, ensure_chunk, next_frame,
  take_time, follow_camera, finish_tick, wait_tick, stop, animate, run_oldest,
}
use ocap2_web.Engine.Ticks.{Tick, idle, no_delay, waits, ends, moves, on_frame-Tick}
use ocap2_web.Engine.Frozen.{refresh-frozen, follow_camera-frozen}
use ocap2_web.Engine.Commands.{frame_call, run_calls}

-- A chunk manager, if there is one, has its manifest.
abbrev pub HasManifest : Option ChunkManager → Type 0
HasManifest none = Unit
HasManifest (some cm) = (mf : Manifest) × (cm.manifest ≡ some mf)

load_chunk-manifest :
    (i : ℕ) (k : Caller) (m : ChunkManager) → (load_chunk i k m).manifest ≡ m.manifest
unfolding load_chunk start_load
load_chunk-manifest i k m =
    by_test (λ (x : ChunkManager). x.manifest ≡ m.manifest) (Map.has i m.loaded) _ _ (λ h. refl)
      (λ h. elim (Option-cases (Map.get i m.loading)) [
        | inl e ↦ rw e refl
        | inr (id, e) ↦ rw e refl
      ])

ensure_loaded-manifest :
    (frame : ℕ) (m : ChunkManager) → (ensure_loaded frame m).manifest ≡ m.manifest
unfolding ensure_loaded
ensure_loaded-manifest frame m = elim (Option-cases m.manifest) [
  | inl e ↦ rw (ensure_loaded, e) e
  | inr (mf, e) ↦
      rw (ensure_loaded, e)
        (load_chunk-manifest (chunk_index mf frame) (frame_caller frame (chunk_index mf frame)) m
          ∙ e)
]

pub ensure_chunk-HasManifest :
    (frame : ℕ) (o : Option ChunkManager)
    → HasManifest o
    → HasManifest (Option.map (ensure_loaded frame) o)
ensure_chunk-HasManifest frame none h = tt
ensure_chunk-HasManifest frame (some cm) h = (h.0, ensure_loaded-manifest frame cm ∙ h.1)

chunk_data_at-runs :
    (frame : ℕ) (o : Option ChunkManager) (e : Engine)
    → e.chunk_manager ≡ o
    → HasManifest o
    → (c : _) × (chunk_data_at frame e ≡ some c)
unfolding chunk_data_at get_chunk_for_frame
chunk_data_at-runs frame none e q h = (none, rw q refl)
chunk_data_at-runs frame (some cm) e q h =
    (Map.get (chunk_index h.0 frame) cm.loaded, rw (q, h.1) refl)

compute_snapshots-runs :
    (frame : ℕ) (e : Engine)
    → HasManifest e.chunk_manager
    → (e' : Engine) × (compute_snapshots frame e ≡ some e')
unfolding compute_snapshots
compute_snapshots-runs frame e h = elim (Option-cases (compute_snapshots frame e)) [
  | inr found ↦ found
  | inl n ↦ elim (Option-cases e.manifest) [
    | inl m ↦ cc (rw (compute_snapshots, m) at n)
    | inr (mf, y) ↦
        let (c, q) = chunk_data_at-runs frame e.chunk_manager e refl h in
        cc (rw (compute_snapshots, y, q) at n)
  ]
]

pub refresh-runs :
    (frame : ℕ) (e : Engine)
    → HasManifest e.chunk_manager
    → (e' : Engine) × (refresh frame e ≡ some e')
unfolding refresh
refresh-runs frame e h =
    let (e1, q) = compute_snapshots-runs frame e h in
    (record e1 { active_events = get_active_events frame e1.event_manager }, rw q refl)

-- What a tick needs: a capture delay, and a manifest in the chunk manager.
pub record Ready (e : Engine) : Type 0 where
  pub delay : 0 < e.capture_delay_ms
  pub manifest : HasManifest e.chunk_manager

finish_tick-Ready : (e : Engine) → Ready e → Ready (finish_tick e)
finish_tick-Ready e r =
    by_test Ready (leb e.end_frame e.current_frame) _ _
      (λ q. record { delay = r.delay; manifest = r.manifest })
      (λ q. record { delay = r.delay; manifest = r.manifest })

advance_to-runs :
    (next : ℕ) (e : Engine) → Ready e → (e' : Engine) × (advance_to next e ≡ some e') × Ready e'
unfolding advance_to
advance_to-runs next e r =
    let moved = ensure_chunk next (record e { current_frame = next }) in
    let kept = ensure_chunk-HasManifest next e.chunk_manager r.manifest in
    let (e1, q) = refresh-runs next moved kept in
    let same = follow_camera-frozen e1 ∙ refresh-frozen next moved e1 q in
    (
      finish_tick (follow_camera e1),
      rw q refl,
      finish_tick-Ready (follow_camera e1) (record {
        delay = subst (λ d. 0 < d) (sym (ap (λ (x : Engine). x.capture_delay_ms) same)) r.delay;
        manifest = subst HasManifest (sym (ap (λ (x : Engine). x.chunk_manager) same)) kept;
      }),
    )

on_frame-runs :
    (now : ℕ) (e : Engine) → Ready e → (e' : Engine) × (on_frame now e ≡ some e') × Ready e'
on_frame-runs now e r = go (on_frame now e) (on_frame-Tick now e)
  where
    go : (o : Option Engine) → Tick now e o → (e' : Engine) × (o ≡ some e') × Ready e'
    go _ (idle p) = (e, refl, r)
    go _ (no_delay p q) = absurd (omega (arith, r.delay))
    go _ (waits p d q) = (wait_tick now e, refl, record { delay = r.delay; manifest = r.manifest })
    go _ (ends p d q) =
        (stop (take_time now e), refl, record { delay = r.delay; manifest = r.manifest })
    go _ (moves p d q l) =
        advance_to-runs (next_frame now e) (take_time now e)
          (record { delay = r.delay; manifest = r.manifest })

animate-runs :
    (now : ℕ) (e : Engine) → Ready e → (e' : Engine) × (animate now e ≡ some e') × Ready e'
unfolding animate
animate-runs now e r = go e.requested
  where
    go : (rs : List ℕ) → (e' : Engine) × (run_oldest rs now e ≡ some e') × Ready e'
    go [] = (e, refl, r)
    go (h ∷ rs) =
        on_frame-runs now (record e { requested = rs })
          (record { delay = r.delay; manifest = r.manifest })

pub run_frames-runs :
    (nows : List ℕ) (e : Engine)
    → Ready e
    → (e' : Engine) × (run_calls (map frame_call nows) e ≡ some e')
run_frames-runs [] e r = (e, refl)
run_frames-runs (now ∷ nows) e r =
    let (e1, q, r1) = animate-runs now e r in
    let (e', p) = run_frames-runs nows e1 r1 in (e', rw q p)
