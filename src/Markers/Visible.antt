-- ===== src/Markers/Visible.antt =====
-- What `updateFrame` of ui/src/playback/markerManager.ts does with one marker, and which markers it
-- leaves on the map.
use Prim.Native.String.{String}
use mathlib.Core.Option
use ocap2_web.Base.{
  ℕ, ◌≡◌, refl, sym, ◌∙◌, subst, some_inj, Bool, true, false, not, ◌&&◌, Option, none, some, List,
  [], ◌∷◌, arith, All, if◌then◌else◌, Option-cases, Bool-cases, inl, inr,
}
use ocap2_web.Base.Int.{ℤ, pos, negsuc}
use ocap2_web.Markers.Position.{find_position_index, Lookup, at_index, type_error, out_of_fuel}
use ocap2_web.Markers.Parse.{Arithmetic, Parsed}
use ocap2_web.Markers.{
  TrackedMarker, Renderer, MarkerManager, hide, hide_handle, drop_handle, apply_style, show,
  show_handle, draw, restyle, update_marker, update_markers, update_frame, style_changes,
  is_unchanged, is_shown, current_position, is_blacklisted, matches_side_filter,
}

abbrev pub is_found : Lookup → Bool
is_found (at_index (pos i)) = true
is_found _ = false

-- The marker belongs on the map at the frame: it has a keyframe there, its player is not blacklisted,
-- and the side filter lets it through.
unfoldable pub is_visible : ℕ → Option String → List ℤ → TrackedMarker → Bool
is_visible frame side players t =
    is_found (find_position_index t.def.positions frame t.def.start_frame t.def.end_frame)
    && (not (is_blacklisted players t.def.player) && matches_side_filter side t.def.side)

module _ (ar : Arithmetic) (frame : ℕ) (side : Option String) (players : List ℤ) where
  -- The ways in which the loop's body ends.
  pub data Outcome (t : TrackedMarker) (r : Renderer)
      : Option (TrackedMarker × Renderer) → Type 0 where
    throws : Outcome t r none
    hidden : is_visible frame side players t ≡ false → Outcome t r (some (hide t r))
    kept : is_visible frame side players t ≡ true → is_shown t ≡ true → Outcome t r (some (t, r))
    drawn :
        (i : ℕ) (p : Parsed)
        → is_visible frame side players t ≡ true
        → Outcome t r (some (draw i frame p t r))

  shown_of_unchanged :
      (i : ℕ) (t : TrackedMarker) → is_unchanged i frame t ≡ true → is_shown t ≡ true
  unfolding is_unchanged
  shown_of_unchanged i t h = ground arith

  found-Outcome :
      (i : ℕ) (t : TrackedMarker) (r : Renderer)
      → is_visible frame side players t ≡ true
      → Outcome t r (
          if is_unchanged i frame t
          then some (t, r)
          else Option.map (λ p. draw i frame p t r) (current_position ar i frame t))
  found-Outcome i t r v = elim (Bool-cases (is_unchanged i frame t)) [
    | inl u ↦ rw u (kept v (shown_of_unchanged i t u))
    | inr u ↦ elim (Option-cases (current_position ar i frame t)) [
      | inl e ↦ rw (u, e) throws
      | inr (p, e) ↦ rw (u, e) (drawn i p v)
    ]
  ]

  pub update_marker-Outcome :
      (t : TrackedMarker) (r : Renderer) → Outcome t r (update_marker ar frame side players t r)
  unfolding update_marker is_visible
  update_marker-Outcome t r =
      go (find_position_index t.def.positions frame t.def.start_frame t.def.end_frame)
        (is_blacklisted players t.def.player) (matches_side_filter side t.def.side) refl
    where
      go :
          (l : Lookup) (b s : Bool)
          → is_visible frame side players t ≡ (is_found l && (not b && s))
          → Outcome t r (elim l [
            | type_error ↦ none
            | out_of_fuel ↦ none
            | at_index (negsuc _) ↦ some (hide t r)
            | at_index (pos i) ↦
                if b
                then some (hide t r)
                else (if not s
                    then some (hide t r)
                    else (if is_unchanged i frame t
                        then some (t, r)
                        else Option.map (λ p. draw i frame p t r) (current_position ar i frame t)))
          ])
      go type_error b s e = throws
      go out_of_fuel b s e = throws
      go (at_index (negsuc i)) b s e = hidden e
      go (at_index (pos i)) true s e = hidden e
      go (at_index (pos i)) false false e = hidden e
      go (at_index (pos i)) false true e = found-Outcome i t r e

  pub hide_handle-shown :
      (o : Option ℕ) (t : TrackedMarker) (r : Renderer)
      → t.handle ≡ o
      → (is_shown (hide_handle o t r).0 ≡ false) × ((hide_handle o t r).0.def ≡ t.def)
  unfolding hide_handle
  hide_handle-shown none t r e = (rw e, refl)
  hide_handle-shown (some h) t r e = (refl, refl)

  drop_handle-def :
      (o : Option ℕ) (t : TrackedMarker) (r : Renderer) → (drop_handle o t r).0.def ≡ t.def
  unfolding drop_handle
  drop_handle-def none t r = refl
  drop_handle-def (some h) t r = refl

  apply_style-def :
      (p : Parsed) (t : TrackedMarker) (r : Renderer) → (apply_style p t r).0.def ≡ t.def
  unfolding apply_style
  apply_style-def p t r = elim (Bool-cases (style_changes p t)) [
    | inl c ↦ rw (apply_style, c) (drop_handle-def t.handle (restyle p t) r)
    | inr c ↦ rw (apply_style, c)
  ]

  show_handle-shown :
      (o : Option ℕ) (p : Parsed) (t : TrackedMarker) (r : Renderer)
      → t.handle ≡ o
      → (is_shown (show_handle o p t r).0 ≡ true) × ((show_handle o p t r).0.def ≡ t.def)
  unfolding show_handle
  show_handle-shown none p t r e = (refl, refl)
  show_handle-shown (some h) p t r e = (rw e, refl)

  pub draw-shown :
      (i : ℕ) (p : Parsed) (t : TrackedMarker) (r : Renderer)
      → (is_shown (draw i frame p t r).0 ≡ true) × ((draw i frame p t r).0.def ≡ t.def)
  unfolding draw show
  draw-shown i p t r =
      let a = apply_style p t r in
      let s = show_handle-shown a.0.handle p a.0 a.1 refl in (s.0, s.1 ∙ apply_style-def p t r)

  -- One marker after the update: shown exactly if it is visible, and still the same marker.
  abbrev Settled : TrackedMarker → TrackedMarker → Type 0
  Settled t t' = (is_shown t' ≡ is_visible frame side players t) × (t'.def ≡ t.def)

  hide-Settled :
      (t : TrackedMarker) (r : Renderer)
      → is_visible frame side players t ≡ false
      → Settled t (hide t r).0
  unfolding hide
  hide-Settled t r v = let h = hide_handle-shown t.handle t r refl in (h.0 ∙ sym v, h.1)

  Outcome-Settled :
      (t : TrackedMarker) (r : Renderer) (o : Option (TrackedMarker × Renderer))
      (out : TrackedMarker × Renderer)
      → Outcome t r o
      → o ≡ some out
      → Settled t out.0
  Outcome-Settled t r o out throws e = cc
  Outcome-Settled t r o out (hidden v) e =
      subst (λ x. Settled t x.0) (some_inj e) (hide-Settled t r v)
  Outcome-Settled t r o out (kept v s) e = subst (λ x. Settled t x.0) (some_inj e) (s ∙ sym v, refl)
  Outcome-Settled t r o out (drawn i p v) e =
      let d = draw-shown i p t r in subst (λ x. Settled t x.0) (some_inj e) (d.0 ∙ sym v, d.1)

  is_visible-def :
      (t t' : TrackedMarker)
      → t'.def ≡ t.def
      → is_visible frame side players t' ≡ is_visible frame side players t
  unfolding is_visible
  is_visible-def t t' e = rw e

  abbrev pub AllRight : List TrackedMarker → Type 0
  AllRight = All (λ t. is_shown t ≡ is_visible frame side players t)

  -- A loop that returns went through the first marker, and then through the rest.
  pub record Rounds (t : TrackedMarker) (ts : List TrackedMarker) (r : Renderer)
      (out : List TrackedMarker × Renderer) : Type 0 where
    pub first : TrackedMarker × Renderer
    pub rest : List TrackedMarker × Renderer
    pub first_runs : update_marker ar frame side players t r ≡ some first
    pub rest_runs : update_markers ar frame side players ts first.1 ≡ some rest
    pub joined : (first.0 ∷ rest.0, rest.1) ≡ out

  pub update_markers-Rounds :
      (t : TrackedMarker) (ts : List TrackedMarker) (r : Renderer)
      (out : List TrackedMarker × Renderer)
      → update_markers ar frame side players (t ∷ ts) r ≡ some out
      → Rounds t ts r out
  unfolding update_markers
  update_markers-Rounds t ts r out e =
      elim (Option-cases (update_marker ar frame side players t r)) [
        | inl n ↦ cc (rw (update_markers, n) at e)
        | inr (first, f) ↦ elim (Option-cases (update_markers ar frame side players ts first.1)) [
          | inl n ↦ cc (rw (update_markers, f, n) at e)
          | inr (rest, g) ↦ record {
            first = first;
            rest = rest;
            first_runs = f;
            rest_runs = g;
            joined = some_inj (rw (update_markers, f, g) at e);
          }
        ]
      ]

  pub update_markers-nil :
      (r : Renderer) (out : List TrackedMarker × Renderer)
      → update_markers ar frame side players [] r ≡ some out
      → ([], r) ≡ out
  unfolding update_markers
  update_markers-nil r out e = some_inj e

  update_markers-shown :
      (ts : List TrackedMarker) (r : Renderer) (out : List TrackedMarker × Renderer)
      → update_markers ar frame side players ts r ≡ some out
      → AllRight out.0
  update_markers-shown [] r out e = subst (λ x. AllRight x.0) (update_markers-nil r out e) tt
  update_markers-shown (t ∷ ts) r out e =
      let w = update_markers-Rounds t ts r out e in
      let s = Outcome-Settled t r _ w.first (update_marker-Outcome t r) w.first_runs in
      subst (λ x. AllRight x.0) w.joined
        (
          s.0 ∙ sym (is_visible-def t w.first.0 s.1),
          update_markers-shown ts w.first.1 w.rest w.rest_runs,
        )

-- After an update that does not throw, a marker is on the map exactly if it has a keyframe at the frame,
-- its player is not blacklisted, and the side filter lets it through.
pub update_frame-shown :
    (ar : Arithmetic) (frame : ℕ) (m m' : MarkerManager)
    → update_frame ar frame m ≡ some m'
    → All (λ t. is_shown t ≡ is_visible frame m.side_filter m.blacklisted t) m'.markers
unfolding update_frame
update_frame-shown ar frame m m' e =
    elim (Option-cases (update_markers ar frame m.side_filter m.blacklisted m.markers m.renderer)) [
      | inl n ↦ cc (rw (update_frame, n) at e)
      | inr (out, f) ↦
          subst (λ x. AllRight ar frame m.side_filter m.blacklisted x.markers)
            (some_inj (rw (update_frame, f) at e))
            (update_markers-shown ar frame m.side_filter m.blacklisted m.markers m.renderer out f)
    ]
