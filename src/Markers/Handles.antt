-- ===== src/Markers/Handles.antt =====
-- The handles that ui/src/playback/markerManager.ts holds are those that live in the renderer.
use Prim.Native.String.{String}
use ocap2_web.Base.{
  ℕ, ◌+◌, ◌≤◌, ◌≡◌, refl, Bool, true, false, Option, none, some, List, [], ◌∷◌, ◌==◌, arith,
  if◌then◌else◌, Option-cases, Bool-cases, inl, inr, subst, some_inj,
}
use ocap2_web.Base.Int.{ℤ}
use ocap2_web.Markers.Parse.{Arithmetic, Parsed}
use ocap2_web.Markers.Visible.{
  Outcome, throws, hidden, kept, drawn, update_marker-Outcome, update_markers-Rounds,
  update_markers-nil,
}
use ocap2_web.Markers.{
  TrackedMarker, Renderer, RendererCall, create, update, remove, MarkerManager, hide, hide_handle,
  show_handle, hide_if, drop_handle, apply_style, show, draw, restyle, update_markers, update_frame,
  style_changes, set_side_filter, set_blacklist, same_filter,
}

-- A handle was created and is not removed.
unfoldable pub is_live : ℕ → List RendererCall → Bool
is_live h [] = false
is_live h (create k d ∷ calls) = if k == h then true else is_live h calls
is_live h (update k p ∷ calls) = is_live h calls
is_live h (remove k ∷ calls) = if k == h then false else is_live h calls

-- Only a handle that does not live is created, and only one that lives is updated or removed.
abbrev pub Legal : List RendererCall → Type 0
Legal [] = Unit
Legal (create k d ∷ calls) = (is_live k calls ≡ false) × Legal calls
Legal (update k p ∷ calls) = (is_live k calls ≡ true) × Legal calls
Legal (remove k ∷ calls) = (is_live k calls ≡ true) × Legal calls

abbrev pub bit : Bool → ℕ
bit b = if b then 1 else 0

abbrev pub held : ℕ → Option ℕ → ℕ
held h none = 0
held h (some k) = bit (k == h)

-- How many markers hold a handle.
unfoldable pub holders : ℕ → List TrackedMarker → ℕ
holders h [] = 0
holders h (t ∷ ts) = held h t.handle + holders h ts

-- One marker with its handle, beside other holders.
record Held (others : ℕ → ℕ) (handle : Option ℕ) (r : Renderer) : Type 0 where
  exact : (h : ℕ) → others h + held h handle ≡ bit (is_live h r.calls)
  fresh : (h : ℕ) → r.next_handle ≤ h → is_live h r.calls ≡ false
  legal : Legal r.calls

module _ (others : ℕ → ℕ) where
  Held-live : (k : ℕ) (r : Renderer) → Held others (some k) r → is_live k r.calls ≡ true
  Held-live k r w = ground (arith, w.exact k)

  remove-Held :
      (k : ℕ) (r : Renderer)
      → Held others (some k) r
      → Held others none (record r { calls = remove k ∷ r.calls })
  unfolding is_live
  remove-Held k r w = record {
    exact = λ h. ground (arith, w.exact h, w.exact k);
    fresh = λ h le. ground (arith, w.fresh h le);
    legal = (Held-live k r w, w.legal);
  }

  hide_handle-Held :
      (o : Option ℕ) (t : TrackedMarker) (r : Renderer)
      → t.handle ≡ o
      → Held others o r
      → Held others (hide_handle o t r).0.handle (hide_handle o t r).1
  unfolding hide_handle
  hide_handle-Held none t r e w = rw e w
  hide_handle-Held (some h) t r e w = remove-Held h r w

  hide-Held :
      (t : TrackedMarker) (r : Renderer)
      → Held others t.handle r
      → Held others (hide t r).0.handle (hide t r).1
  unfolding hide
  hide-Held t r w = hide_handle-Held t.handle t r refl w

  drop_handle-Held :
      (o : Option ℕ) (t : TrackedMarker) (r : Renderer)
      → t.handle ≡ o
      → Held others o r
      → Held others (drop_handle o t r).0.handle (drop_handle o t r).1
  unfolding drop_handle
  drop_handle-Held none t r e w = rw e w
  drop_handle-Held (some h) t r e w = remove-Held h r w

  apply_style-Held :
      (p : Parsed) (t : TrackedMarker) (r : Renderer)
      → Held others t.handle r
      → Held others (apply_style p t r).0.handle (apply_style p t r).1
  unfolding apply_style
  apply_style-Held p t r w = elim (Bool-cases (style_changes p t)) [
    | inl c ↦ rw (apply_style, c) (drop_handle-Held t.handle (restyle p t) r refl w)
    | inr c ↦ rw (apply_style, c) w
  ]

  show_handle-Held :
      (o : Option ℕ) (p : Parsed) (t : TrackedMarker) (r : Renderer)
      → t.handle ≡ o
      → Held others o r
      → Held others (show_handle o p t r).0.handle (show_handle o p t r).1
  unfolding show_handle is_live
  show_handle-Held none p t r e w = record {
    exact = λ h. ground (arith, w.exact h, w.fresh h);
    fresh = λ h le. ground (arith, w.fresh h);
    legal = (ground arith, (w.fresh r.next_handle (omega arith), w.legal));
  }
  show_handle-Held (some h) p t r e w =
      rw e (record { exact = w.exact; fresh = w.fresh; legal = (Held-live h r w, w.legal) })

  draw-Held :
      (i frame : ℕ) (p : Parsed) (t : TrackedMarker) (r : Renderer)
      → Held others t.handle r
      → Held others (draw i frame p t r).0.handle (draw i frame p t r).1
  unfolding draw show
  draw-Held i frame p t r w =
      show_handle-Held (apply_style p t r).0.handle p (apply_style p t r).0 (apply_style p t r).1
        refl (apply_style-Held p t r w)

  module _ (ar : Arithmetic) (frame : ℕ) (side : Option String) (players : List ℤ) where
    Outcome-Held :
        (t : TrackedMarker) (r : Renderer) (o : Option (TrackedMarker × Renderer))
        (out : TrackedMarker × Renderer)
        → Outcome ar frame side players t r o
        → o ≡ some out
        → Held others t.handle r
        → Held others out.0.handle out.1
    Outcome-Held t r o out throws e w = cc
    Outcome-Held t r o out (hidden v) e w =
        subst (λ x. Held others x.0.handle x.1) (some_inj e) (hide-Held t r w)
    Outcome-Held t r o out (kept v s) e w = subst (λ x. Held others x.0.handle x.1) (some_inj e) w
    Outcome-Held t r o out (drawn i p v) e w =
        subst (λ x. Held others x.0.handle x.1) (some_inj e) (draw-Held i frame p t r w)

-- The markers of a list, beside other holders.
pub record HeldAll (others : ℕ → ℕ) (ts : List TrackedMarker) (r : Renderer) : Type 0 where
  pub exact : (h : ℕ) → others h + holders h ts ≡ bit (is_live h r.calls)
  pub fresh : (h : ℕ) → r.next_handle ≤ h → is_live h r.calls ≡ false
  pub legal : Legal r.calls

-- The first marker beside the rest, and the rest beside the first.
head-Held :
    (others : ℕ → ℕ) (t : TrackedMarker) (ts : List TrackedMarker) (r : Renderer)
    → HeldAll others (t ∷ ts) r
    → Held (λ h. others h + holders h ts) t.handle r
unfolding holders
head-Held others t ts r w = record {
  exact = λ h. omega (arith, w.exact h);
  fresh = w.fresh;
  legal = w.legal;
}

tail-HeldAll :
    (others : ℕ → ℕ) (t : TrackedMarker) (ts : List TrackedMarker) (r : Renderer)
    → Held (λ h. others h + holders h ts) t.handle r
    → HeldAll (λ h. others h + held h t.handle) ts r
tail-HeldAll others t ts r w = record {
  exact = λ h. omega (arith, w.exact h);
  fresh = w.fresh;
  legal = w.legal;
}

cons-HeldAll :
    (others : ℕ → ℕ) (t : TrackedMarker) (ts : List TrackedMarker) (r : Renderer)
    → HeldAll (λ h. others h + held h t.handle) ts r
    → HeldAll others (t ∷ ts) r
unfolding holders
cons-HeldAll others t ts r w = record {
  exact = λ h. omega (arith, w.exact h);
  fresh = w.fresh;
  legal = w.legal;
}

update_markers-HeldAll :
    (ar : Arithmetic) (frame : ℕ) (side : Option String) (players : List ℤ) (others : ℕ → ℕ)
    (ts : List TrackedMarker) (r : Renderer) (out : List TrackedMarker × Renderer)
    → update_markers ar frame side players ts r ≡ some out
    → HeldAll others ts r
    → HeldAll others out.0 out.1
update_markers-HeldAll ar frame side players others [] r out e w =
    subst (λ x. HeldAll others x.0 x.1) (update_markers-nil ar frame side players r out e) w
update_markers-HeldAll ar frame side players others (t ∷ ts) r out e w =
    let q = update_markers-Rounds ar frame side players t ts r out e in
    let beside : ℕ → ℕ = λ h. others h + holders h ts in
    let first =
      Outcome-Held beside ar frame side players t r _ q.first
        (update_marker-Outcome ar frame side players t r) q.first_runs
        (head-Held others t ts r w) in
    subst (λ x. HeldAll others x.0 x.1) q.joined
      (cons-HeldAll others q.first.0 q.rest.0 q.rest.1 (
        update_markers-HeldAll ar frame side players (λ h. others h + held h q.first.0.handle) ts
          q.first.1 q.rest q.rest_runs (tail-HeldAll others q.first.0 ts q.first.1 first)))

hide_if-HeldAll :
    (test : TrackedMarker → Bool) (others : ℕ → ℕ) (ts : List TrackedMarker) (r : Renderer)
    → HeldAll others ts r
    → HeldAll others (hide_if test ts r).0 (hide_if test ts r).1
unfolding hide_if
hide_if-HeldAll test others [] r w = w
hide_if-HeldAll test others (t ∷ ts) r w =
    let a = maybe (test t) in
    cons-HeldAll others _ _ _ (
      hide_if-HeldAll test (λ h. others h + held h (if test t then hide t r else (t, r)).0.handle)
        ts (if test t then hide t r else (t, r)).1
        (tail-HeldAll others (if test t then hide t r else (t, r)).0 ts _ a))
  where
    beside : ℕ → ℕ
    beside h = others h + holders h ts

    maybe :
        (b : Bool)
        → Held beside (if b then hide t r else (t, r)).0.handle (if b then hide t r else (t, r)).1
    maybe true = hide-Held beside t r (head-Held others t ts r w)
    maybe false = head-Held others t ts r w

-- The manager and the renderer agree: every live handle is held by exactly one marker, no marker holds
-- another handle, and every call to the renderer was legal.
abbrev pub IsCoherent : MarkerManager → Type 0
IsCoherent m = HeldAll (λ h. 0) m.markers m.renderer

-- An update that does not throw keeps the manager and the renderer in agreement.
pub update_frame-IsCoherent :
    (ar : Arithmetic) (frame : ℕ) (m m' : MarkerManager)
    → IsCoherent m
    → update_frame ar frame m ≡ some m'
    → IsCoherent m'
unfolding update_frame
update_frame-IsCoherent ar frame m m' w e =
    elim (Option-cases (update_markers ar frame m.side_filter m.blacklisted m.markers m.renderer)) [
      | inl n ↦ cc (rw (update_frame, n) at e)
      | inr (out, f) ↦ subst IsCoherent (some_inj (rw (update_frame, f) at e)) (
          update_markers-HeldAll ar frame m.side_filter m.blacklisted (λ h. 0) m.markers m.renderer
            out f w)
    ]

-- A change of the side filter keeps the manager and the renderer in agreement.
pub set_side_filter-IsCoherent :
    (side : Option String) (m : MarkerManager) → IsCoherent m → IsCoherent (set_side_filter side m)
unfolding set_side_filter
set_side_filter-IsCoherent side m w = elim (Bool-cases (same_filter m.side_filter side)) [
  | inl s ↦ rw (set_side_filter, s) w
  | inr s ↦ rw (set_side_filter, s) (hide_if-HeldAll _ (λ h. 0) m.markers m.renderer w)
]

-- A change of the blacklist keeps the manager and the renderer in agreement.
pub set_blacklist-IsCoherent :
    (players : List ℤ) (m : MarkerManager) → IsCoherent m → IsCoherent (set_blacklist players m)
unfolding set_blacklist
set_blacklist-IsCoherent players m w = hide_if-HeldAll _ (λ h. 0) m.markers m.renderer w
