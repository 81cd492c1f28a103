-- ===== src/Markers/Total.antt =====
-- `updateFrame` of ui/src/playback/markerManager.ts does not throw on markers that begin with a keyframe.
use Prim.Native.String.{String}
use ocap2_web.Base.{
  ◌≡◌, refl, ℕ, suc, ◌≤◌, ◌<◌, true, Option, none, some, List, [], ◌∷◌, length, get_elem?,
  get_elem?_total, All, Option-cases, Bool-cases, inl, inr, arith,
}
use ocap2_web.Base.Int.{ℤ, pos, negsuc}
use ocap2_web.Types.{PositionEntry}
use ocap2_web.Search.{SortedBy}
use ocap2_web.Markers.Position.{find_position_index, Lookup, at_index, position_frame}
use ocap2_web.Markers.Keyframe.{
  is_active, find_position_index-inactive, find_position_index-keyframe,
}
use ocap2_web.Markers.Parse.{Arithmetic, Parsed}
use ocap2_web.Markers.{
  TrackedMarker, Renderer, MarkerManager, update_marker, update_markers, update_frame,
  current_position, is_projectile, is_blacklisted, matches_side_filter, is_unchanged, with_markers,
  is_shown,
}
use ocap2_web.Markers.Visible.{is_visible, update_frame-shown}

-- The keyframes are sorted by frame, and the first is not after the start of the marker.
abbrev pub Begins : List PositionEntry → ℕ → Type 0
Begins [] start_frame = Unit
Begins (p ∷ ps) start_frame = (p.frame_num ≤ start_frame) × SortedBy position_frame (p ∷ ps)

abbrev pub IsWellFormed : TrackedMarker → Type 0
IsWellFormed t = Begins t.def.positions t.def.start_frame

-- The two answers of the lookup.
data Answer (positions : List PositionEntry) : Lookup → Type 0 where
  absent : Answer positions (at_index (negsuc 0))
  present : (c : ℕ) → c < length positions → Answer positions (at_index (pos c))

active_from_start :
    (frame start_frame : ℕ) (end_frame : ℤ)
    → is_active frame start_frame end_frame ≡ true
    → start_frame ≤ frame
active_from_start frame start_frame end_frame h = ground arith

find_position_index-Answer :
    (positions : List PositionEntry) (frame start_frame : ℕ) (end_frame : ℤ)
    → Begins positions start_frame
    → Answer positions (find_position_index positions frame start_frame end_frame)
find_position_index-Answer [] frame start_frame end_frame b = unfold find_position_index in absent
find_position_index-Answer (p ∷ ps) frame start_frame end_frame b =
    elim (Bool-cases (is_active frame start_frame end_frame)) [
      | inr off ↦ rw (find_position_index-inactive p ps frame start_frame end_frame off) absent
      | inl on ↦
          elim (find_position_index-keyframe p ps frame start_frame end_frame b.1
            (omega (arith, b.0, active_from_start frame start_frame end_frame on))) [
              | inl (off, e) ↦ rw e absent
              | inr (_, (c, e, split)) ↦ rw e (present c (omega (arith, split.within)))
            ]
    ]

current_position-runs :
    (ar : Arithmetic) (i frame : ℕ) (t : TrackedMarker)
    → i < length t.def.positions
    → (p : Parsed) × (current_position ar i frame t ≡ some p)
unfolding current_position
current_position-runs ar i frame t h = elim (Option-cases (current_position ar i frame t)) [
  | inr found ↦ found
  | inl n ↦
      let (p, e) = get_elem?_total t.def.positions i h in
      elim (Bool-cases (is_projectile t.layer)) [
        | inr q ↦ cc (rw (current_position, e, q) at n)
        | inl q ↦ elim (Option-cases (get_elem? t.def.positions (suc i))) [
          | inl z ↦ cc (rw (current_position, e, q, z) at n)
          | inr (r, z) ↦ cc (rw (current_position, e, q, z) at n)
        ]
      ]
]

module _ (ar : Arithmetic) (frame : ℕ) (side : Option String) (players : List ℤ) where
  update_marker-runs :
      (t : TrackedMarker) (r : Renderer)
      → IsWellFormed t
      → (out : TrackedMarker × Renderer) × (update_marker ar frame side players t r ≡ some out)
  unfolding update_marker
  update_marker-runs t r w = elim (Option-cases (update_marker ar frame side players t r)) [
    | inr found ↦ found
    | inl n ↦ absurd (
        go (find_position_index t.def.positions frame t.def.start_frame t.def.end_frame) refl
          (find_position_index-Answer t.def.positions frame t.def.start_frame t.def.end_frame w) n)
  ]
    where
      go :
          (l : Lookup)
          → find_position_index t.def.positions frame t.def.start_frame t.def.end_frame ≡ l
          → Answer t.def.positions l
          → update_marker ar frame side players t r ≡ none
          → ⊥
      go _ q absent n = cc (rw (update_marker, q) at n)
      go _ q (present c lt) n = elim (Bool-cases (is_blacklisted players t.def.player)) [
        | inl b ↦ cc (rw (update_marker, q, b) at n)
        | inr b ↦ elim (Bool-cases (matches_side_filter side t.def.side)) [
          | inr s ↦ cc (rw (update_marker, q, b, s) at n)
          | inl s ↦ elim (Bool-cases (is_unchanged c frame t)) [
            | inl u ↦ cc (rw (update_marker, q, b, s, u) at n)
            | inr u ↦
                let (p, e) = current_position-runs ar c frame t lt in
                cc (rw (update_marker, q, b, s, u, e) at n)
          ]
        ]
      ]

  update_markers-runs :
      (ts : List TrackedMarker) (r : Renderer)
      → All IsWellFormed ts
      → (out : List TrackedMarker × Renderer) × (update_markers ar frame side players ts r
          ≡ some out)
  unfolding update_markers
  update_markers-runs [] r w = (([], r), refl)
  update_markers-runs (t ∷ ts) r w =
      let (first, f) = update_marker-runs t r w.0 in
      let (rest, g) = update_markers-runs ts first.1 w.1 in
      ((first.0 ∷ rest.0, rest.1), rw (update_markers, f, g) refl)

-- If the keyframes of every marker are sorted by frame and the first is not after the marker's start,
-- then the update of a frame does not throw, and after it a marker is on the map exactly if it has a
-- keyframe at the frame, its player is not blacklisted, and the side filter lets it through.
pub update_frame-is_visible :
    (ar : Arithmetic) (frame : ℕ) (m : MarkerManager)
    → All IsWellFormed m.markers
    → (m' : MarkerManager) × (update_frame ar frame m ≡ some m')
      × All (λ t. is_shown t ≡ is_visible frame m.side_filter m.blacklisted t) m'.markers
unfolding update_frame
update_frame-is_visible ar frame m w =
    let (out, e) =
      update_markers-runs ar frame m.side_filter m.blacklisted m.markers m.renderer w in
    let runs : update_frame ar frame m ≡ some (with_markers out m) = rw (update_frame, e) refl in
    (with_markers out m, runs, update_frame-shown ar frame m (with_markers out m) runs)
