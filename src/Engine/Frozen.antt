-- ===== src/Engine/Frozen.antt =====
-- What `computeSnapshots` and the camera of ui/src/playback/engine.ts leave as it is.

use ocap2_web.Base.{
  ◌≡◌, ℕ, refl, sym, ap, ◌∙◌, subst, none, some, [], Option-cases, some_inj, of_map-some, inl, inr,
}
use ocap2_web.Base.Map
use ocap2_web.Entities.Manager.{empty_manager}
use ocap2_web.Events.{get_active_events}
use ocap2_web.Engine.{Engine, chunk_data_at, compute_snapshots, refresh, follow_camera}

-- What of a frame's drawing other operations do not read, reset.
abbrev pub frozen : Engine → Engine
frozen e = record e {
  entity_manager = empty_manager;
  entity_snapshots = [];
  active_events = [];
  follow_target = none;
  views = [];
}

pub compute_snapshots-frozen :
    (frame : ℕ) (e e' : Engine) → compute_snapshots frame e ≡ some e' → frozen e' ≡ frozen e
unfolding compute_snapshots
compute_snapshots-frozen frame e e' h = elim (Option-cases e.manifest) [
  | inl n ↦ sym (ap frozen (some_inj (rw (compute_snapshots, n) at h)))
  | inr (mf, y) ↦ elim (Option-cases (chunk_data_at frame e)) [
    | inl n ↦ cc (rw (compute_snapshots, y, n) at h)
    | inr (chunk, c) ↦ sym (ap frozen (some_inj (rw (compute_snapshots, y, c) at h)))
  ]
]

pub refresh-frozen : (frame : ℕ) (e e' : Engine) → refresh frame e ≡ some e' → frozen e' ≡ frozen e
unfolding refresh
refresh-frozen frame e e' h =
    let (e1, (c, r)) = of_map-some _ (compute_snapshots frame e) e' h in
    sym (ap frozen r) ∙ compute_snapshots-frozen frame e e1 c

pub refresh-active_events :
    (frame : ℕ) (e e' : Engine)
    → refresh frame e ≡ some e'
    → e'.active_events ≡ get_active_events frame e'.event_manager
unfolding refresh
refresh-active_events frame e e' h =
    let (e1, (c, r)) = of_map-some _ (compute_snapshots frame e) e' h in
    subst (λ (x : Engine). x.active_events ≡ get_active_events frame x.event_manager) r refl

pub follow_camera-frozen : (e : Engine) → frozen (follow_camera e) ≡ frozen e
unfolding follow_camera
follow_camera-frozen e = elim (Option-cases e.follow_target) [
  | inl n ↦ rw (follow_camera, n)
  | inr (t, y) ↦ elim (Option-cases (Map.get t e.entity_snapshots)) [
    | inl n ↦ rw (follow_camera, y, n)
    | inr (s, z) ↦ rw (follow_camera, y, z)
  ]
]
