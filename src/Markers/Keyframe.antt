-- ===== src/Markers/Keyframe.antt =====
-- The keyframe lookup of ui/src/playback/markerManager.ts finds the last keyframe at or before the
-- frame, and throws where the marker is active before its first keyframe.
mod Loop
use ocap2_web.Base.{
  ℕ, zero, suc, ◌+◌, ◌-◌, ◌/◌, ◌≤◌, ◌<◌, ◌≡◌, refl, sym, ◌∙◌, ap, ◌⊎◌, ◌≢◌, leb→le, ◌==◌, ==→eq,
  Bool, true, false, Option, none, some, List, ◌∷◌, length, get_elem?, get_elem?_total,
  lt_of_get_elem?, leb, ltb, ltb→lt, lt→ltb, le→leb, leb-eq-false, arith, Bool-cases, inl, inr,
  if◌then◌else◌,
}
use ocap2_web.Base.Int.{ℤ, pos, negsuc, sub_ℕ, ◌+ℤ◌, ◌-ℤ◌, eqb_ℤ, ltb_ℤ}
use ocap2_web.Types.{PositionEntry, frame_forever}
use ocap2_web.Search.{IsSplit, SortedBy, SortedBy-get_elem?}
use ocap2_web.Markers.Position.{
  position_frame, Lookup, at_index, type_error, middle, converged, changed, position_round,
  position_loop, find_position_index,
}
use ocap2_web.Markers.Keyframe.Loop.{loop-Found, loop-throws}

-- A marker with these bounds is shown at the frame.
abbrev pub is_active : ℕ → ℕ → ℤ → Bool
is_active frame start_frame end_frame =
    if ltb frame start_frame
    then false
    else (if eqb_ℤ end_frame frame_forever
        then true
        else (if ltb_ℤ end_frame (pos frame) then false else true))

full_loop : List PositionEntry → ℕ → Lookup
full_loop ps frame = position_loop (suc (suc (length ps))) ps frame (pos 0) (sub_ℕ (length ps) 1)

active-loop :
    (p : PositionEntry) (ps : List PositionEntry) (frame start_frame : ℕ) (end_frame : ℤ)
    → find_position_index (p ∷ ps) frame start_frame end_frame ≡ (
        if is_active frame start_frame end_frame
        then full_loop (p ∷ ps) frame
        else at_index (negsuc 0))
unfolding find_position_index full_loop
active-loop p ps frame start_frame end_frame =
    go (ltb frame start_frame) (eqb_ℤ end_frame frame_forever) (ltb_ℤ end_frame (pos frame))
  where
    go :
        (a b c : Bool)
        → (if a
            then at_index (negsuc 0)
            else (if b
                then full_loop (p ∷ ps) frame
                else (if c then at_index (negsuc 0) else full_loop (p ∷ ps) frame)))
          ≡ (if (if a then false else (if b then true else (if c then false else true)))
              then full_loop (p ∷ ps) frame
              else at_index (negsuc 0))
    go true b c = refl
    go false true c = refl
    go false false true = refl
    go false false false = refl

sub-one : (n : ℕ) → 0 < n → sub_ℕ n 1 ≡ pos (n - 1)
sub-one n h = ground arith

full_loop-Found :
    (p : PositionEntry) (ps : List PositionEntry) (frame : ℕ)
    → SortedBy position_frame (p ∷ ps)
    → p.frame_num ≤ frame
    → (c : ℕ) × (full_loop (p ∷ ps) frame ≡ at_index (pos c))
      × IsSplit position_frame (p ∷ ps) frame (suc c)
unfolding full_loop
full_loop-Found p ps frame sorted le = rw (sub-one (length (p ∷ ps)) (omega arith)) (
    loop-Found (p ∷ ps) frame sorted (suc (suc (length (p ∷ ps)))) 0 (length (p ∷ ps) - 1)
      (record {
        ordered = omega arith;
        within = omega arith;
        low = p;
        at_low = refl;
        low-le = le;
        above = λ j q c g. absurd (omega (arith, lt_of_get_elem? (p ∷ ps) j q g));
      })
      (omega arith))

full_loop-throws :
    (p : PositionEntry) (ps : List PositionEntry) (frame : ℕ)
    → SortedBy position_frame (p ∷ ps)
    → frame < p.frame_num
    → full_loop (p ∷ ps) frame ≡ type_error
unfolding full_loop
full_loop-throws p ps frame sorted lt = rw (sub-one (length (p ∷ ps)) (omega arith)) (
    loop-throws (p ∷ ps) frame sorted
      (λ j q g.
        omega
          (arith, SortedBy-get_elem? position_frame (p ∷ ps) 0 j p q sorted (omega arith) refl g))
      (suc (suc (length (p ∷ ps)))) (length (p ∷ ps) - 1) (omega arith) (omega arith))

pub find_position_index-inactive :
    (p : PositionEntry) (ps : List PositionEntry) (frame start_frame : ℕ) (end_frame : ℤ)
    → is_active frame start_frame end_frame ≡ false
    → find_position_index (p ∷ ps) frame start_frame end_frame ≡ at_index (negsuc 0)
find_position_index-inactive p ps frame start_frame end_frame off =
    rw (active-loop p ps frame start_frame end_frame, off)

-- For keyframes sorted by frame, of which the first is not after the frame: outside the marker's life
-- the lookup gives -1; inside it, the index of the last keyframe at or before the frame. It never throws
-- and its loop ends.
pub find_position_index-keyframe :
    (p : PositionEntry) (ps : List PositionEntry) (frame start_frame : ℕ) (end_frame : ℤ)
    → SortedBy position_frame (p ∷ ps)
    → p.frame_num ≤ frame
    → ((is_active frame start_frame end_frame ≡ false)
        × (find_position_index (p ∷ ps) frame start_frame end_frame ≡ at_index (negsuc 0)))
      ⊎ ((is_active frame start_frame end_frame ≡ true)
          × ((c : ℕ) × (find_position_index (p ∷ ps) frame start_frame end_frame ≡ at_index (pos c))
              × IsSplit position_frame (p ∷ ps) frame (suc c)))
find_position_index-keyframe p ps frame start_frame end_frame sorted le =
    elim (Bool-cases (is_active frame start_frame end_frame)) [
      | inl t ↦ inr (
        t,
        rw (active-loop p ps frame start_frame end_frame, t) (full_loop-Found p ps frame sorted le),
      )
      | inr t ↦ inl (t, rw (active-loop p ps frame start_frame end_frame, t))
    ]

-- Where a marker is active at a frame before its first keyframe, the lookup reads in front of the array
-- and throws a TypeError.
pub find_position_index-throws :
    (p : PositionEntry) (ps : List PositionEntry) (frame start_frame : ℕ) (end_frame : ℤ)
    → SortedBy position_frame (p ∷ ps)
    → is_active frame start_frame end_frame ≡ true
    → frame < p.frame_num
    → find_position_index (p ∷ ps) frame start_frame end_frame ≡ type_error
find_position_index-throws p ps frame start_frame end_frame sorted active lt =
    rw (active-loop p ps frame start_frame end_frame, active)
      (full_loop-throws p ps frame sorted lt)
