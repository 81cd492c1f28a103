-- ===== src/Markers/Settled.antt =====
-- A second update of the same frame by `updateFrame` of ui/src/playback/markerManager.ts.
use Prim.Native.String.{String}
use ocap2_web.Base.{
  ◌≡◌, refl, ap, ◌∙◌, subst, ℕ, Bool, true, false, ◌&&◌, ◌||◌, Option, none, some, List, [], ◌∷◌,
  All, Option-cases, Bool-cases, inl, inr, arith, some_inj, of_map-some,
}
use ocap2_web.Types.{MarkerDef}
use ocap2_web.Base.Int.{ℤ, pos, negsuc, eqb_ℤ}
use ocap2_web.Markers.Position.{find_position_index, Lookup, at_index, type_error, out_of_fuel}
use ocap2_web.Markers.Parse.{Arithmetic, Parsed}
use ocap2_web.Markers.{
  TrackedMarker, Renderer, MarkerManager, update_marker, update_markers, update_frame,
  current_position, is_blacklisted, matches_side_filter, is_unchanged, is_shown, hide, hide_handle,
  draw,
}
use ocap2_web.Markers.Visible.{
  draw-shown, hide_handle-shown, update_markers-Rounds, update_markers-nil,
}

hide-unshown : (t : TrackedMarker) (s : Renderer) → is_shown t ≡ false → hide t s ≡ (t, s)
unfolding hide hide_handle
hide-unshown t s h = go t.handle refl h
  where
    go :
        (o : Option ℕ)
        → t.handle ≡ o
        → elim o [ none ↦ false | some k ↦ true ] ≡ false
        → hide_handle t.handle t s ≡ (t, s)
    go none e h = ap (λ o. hide_handle o t s) e
    go (some k) e h = cc

eqb_ℤ-pos_refl : (n : ℕ) → eqb_ℤ (pos n) (pos n) ≡ true
eqb_ℤ-pos_refl n = ground arith

unchanged_by :
    (h e p n : Bool) (f : Bool)
    → h ≡ true
    → e ≡ true
    → f ≡ true
    → (h && (e && (p || (n || f)))) ≡ true
unchanged_by true true true n true a b c = refl
unchanged_by true true false true true a b c = refl
unchanged_by true true false false true a b c = refl
unchanged_by false e p n f a b c = cc
unchanged_by true false p n f a b c = cc
unchanged_by true true p n false a b c = cc

module _ (ar : Arithmetic) (frame : ℕ) (side : Option String) (players : List ℤ) where
  draw-is_unchanged :
      (i : ℕ) (p : Parsed) (t : TrackedMarker) (r : Renderer)
      → is_unchanged i frame (draw i frame p t r).0 ≡ true
  unfolding is_unchanged draw
  draw-is_unchanged i p t r =
      unchanged_by (is_shown (draw i frame p t r).0) (eqb_ℤ (pos i) (pos i)) _ _
        (eqb_ℤ (pos frame) (pos frame)) (draw-shown ar frame side players i p t r).0
        (eqb_ℤ-pos_refl i) (eqb_ℤ-pos_refl frame)

  abbrev lookup : TrackedMarker → Lookup
  lookup t = find_position_index t.def.positions frame t.def.start_frame t.def.end_frame

  -- A marker that an update leaves alone.
  abbrev Settled : TrackedMarker → Type 0
  Settled t = (s : Renderer) → update_marker ar frame side players t s ≡ some (t, s)

  -- The answers of the tests on one marker.
  record Tests (t : TrackedMarker) (l : Lookup) (b m : Bool) : Type 0 where
    at : lookup t ≡ l
    blacklisted : is_blacklisted players t.def.player ≡ b
    matching : matches_side_filter side t.def.side ≡ m

  moved-Tests :
      (t t' : TrackedMarker) (l : Lookup) (b m : Bool)
      → t'.def ≡ t.def
      → Tests t l b m
      → Tests t' l b m
  moved-Tests t t' l b m e w = record {
    at =
        ap (λ (d : MarkerDef). find_position_index d.positions frame d.start_frame d.end_frame) e
        ∙ w.at;
    blacklisted = ap (λ (d : MarkerDef). is_blacklisted players d.player) e ∙ w.blacklisted;
    matching = ap (λ (d : MarkerDef). matches_side_filter side d.side) e ∙ w.matching;
  }

  hide-def : (t : TrackedMarker) (r : Renderer) → (hide t r).0.def ≡ t.def
  unfolding hide
  hide-def t r = (hide_handle-shown ar frame side players t.handle t r refl).1

  hidden-Settled :
      (t : TrackedMarker) (r : Renderer)
      → ((s : Renderer)
          → update_marker ar frame side players (hide t r).0 s ≡ some (hide (hide t r).0 s))
      → Settled (hide t r).0
  unfolding hide
  hidden-Settled t r u s =
      u s
      ∙ ap some (
          hide-unshown (hide t r).0 s (hide_handle-shown ar frame side players t.handle t r refl).0)

  update_marker-Tests :
      (t t' : TrackedMarker) (r r' : Renderer) (l : Lookup) (b m : Bool)
      → Tests t l b m
      → update_marker ar frame side players t r ≡ some (t', r')
      → Settled t'
  unfolding update_marker hide
  update_marker-Tests t t' r r' type_error b m w e = cc (rw (update_marker, w.at) at e)
  update_marker-Tests t t' r r' out_of_fuel b m w e = cc (rw (update_marker, w.at) at e)
  update_marker-Tests t t' r r' (at_index (negsuc i)) b m w e =
      let v = moved-Tests t (hide t r).0 (at_index (negsuc i)) b m (hide-def t r) w in
      subst (λ (x : TrackedMarker × Renderer). Settled x.0)
        (some_inj (rw (update_marker, w.at) at e))
        (hidden-Settled t r (λ s. rw (update_marker, v.at) refl))
  update_marker-Tests t t' r r' (at_index (pos i)) true m w e =
      let v = moved-Tests t (hide t r).0 (at_index (pos i)) true m (hide-def t r) w in
      subst (λ (x : TrackedMarker × Renderer). Settled x.0)
        (some_inj (rw (update_marker, w.at, w.blacklisted) at e))
        (hidden-Settled t r (λ s. rw (update_marker, v.at, v.blacklisted) refl))
  update_marker-Tests t t' r r' (at_index (pos i)) false false w e =
      let v = moved-Tests t (hide t r).0 (at_index (pos i)) false false (hide-def t r) w in
      subst (λ (x : TrackedMarker × Renderer). Settled x.0)
        (some_inj (rw (update_marker, w.at, w.blacklisted, w.matching) at e))
        (hidden-Settled t r (λ s. rw (update_marker, v.at, v.blacklisted, v.matching) refl))
  update_marker-Tests t t' r r' (at_index (pos i)) false true w e =
      elim (Bool-cases (is_unchanged i frame t)) [
        | inl u ↦
            subst (λ (x : TrackedMarker × Renderer). Settled x.0)
              (some_inj (rw (update_marker, w.at, w.blacklisted, w.matching, u) at e))
              (λ s. rw (update_marker, w.at, w.blacklisted, w.matching, u) refl)
        | inr u ↦ elim (Option-cases (current_position ar i frame t)) [
          | inl n ↦ cc (rw (update_marker, w.at, w.blacklisted, w.matching, u, n) at e)
          | inr (p, c) ↦
              let v =
                moved-Tests t (draw i frame p t r).0 (at_index (pos i)) false true
                  (draw-shown ar frame side players i p t r).1 w in
              subst (λ (x : TrackedMarker × Renderer). Settled x.0)
                (some_inj (rw (update_marker, w.at, w.blacklisted, w.matching, u, c) at e))
                (λ s.
                  rw (update_marker, v.at, v.blacklisted, v.matching, draw-is_unchanged i p t r)
                    refl)
        ]
      ]

  update_marker-Settled :
      (t t' : TrackedMarker) (r r' : Renderer)
      → update_marker ar frame side players t r ≡ some (t', r')
      → Settled t'
  update_marker-Settled t t' r r' e =
      update_marker-Tests t t' r r' (lookup t) (is_blacklisted players t.def.player)
        (matches_side_filter side t.def.side)
        (record { at = refl; blacklisted = refl; matching = refl }) e

  update_markers-Settled :
      (ts : List TrackedMarker) (r : Renderer) (out : List TrackedMarker × Renderer)
      → update_markers ar frame side players ts r ≡ some out
      → All Settled out.0
  update_markers-Settled [] r out e =
      subst (λ (x : List TrackedMarker × Renderer). All Settled x.0)
        (update_markers-nil ar frame side players r out e) tt
  update_markers-Settled (t ∷ ts) r out e =
      let w = update_markers-Rounds ar frame side players t ts r out e in
      subst (λ (x : List TrackedMarker × Renderer). All Settled x.0) w.joined
        (
          update_marker-Settled t w.first.0 r w.first.1 w.first_runs,
          update_markers-Settled ts w.first.1 w.rest w.rest_runs,
        )

  update_markers-of_Settled :
      (ts : List TrackedMarker) (s : Renderer)
      → All Settled ts
      → update_markers ar frame side players ts s ≡ some (ts, s)
  unfolding update_markers
  update_markers-of_Settled [] s a = refl
  update_markers-of_Settled (t ∷ ts) s a =
      rw (update_markers, a.0 s, update_markers-of_Settled ts s a.1) refl

-- A second update of the same frame does nothing: after an update that does not throw, another one of
-- the same frame calls nothing of the renderer and changes no marker.
pub update_frame-update_frame :
    (ar : Arithmetic) (frame : ℕ) (m m' : MarkerManager)
    → update_frame ar frame m ≡ some m'
    → update_frame ar frame m' ≡ some m'
unfolding update_frame
update_frame-update_frame ar frame m m' e =
    let (out, (q, p)) =
      of_map-some _ (update_markers ar frame m.side_filter m.blacklisted m.markers m.renderer) m'
        e in
    let a =
      update_markers-Settled ar frame m.side_filter m.blacklisted m.markers m.renderer out q in
    subst (λ x. update_frame ar frame x ≡ some x) p
      (rw (update_markers-of_Settled ar frame m.side_filter m.blacklisted out.0 out.1 a) refl)
