-- ===== src/Markers/Position.antt =====
-- `findPositionIndex` of ui/src/playback/markerManager.ts: the keyframe of a marker at a frame.
use ocap2_web.Base.{
  ℕ, zero, suc, Bool, true, false, Option, none, some, List, [], ◌∷◌, length, get_elem?, leb, ltb,
  if◌then◌else◌,
}
use ocap2_web.Base.Int.{ℤ, pos, negsuc, sub_ℕ, half_ℤ, ◌+ℤ◌, ◌-ℤ◌, eqb_ℤ, ltb_ℤ}
use ocap2_web.Types.{PositionEntry, frame_forever}

abbrev pub position_frame : PositionEntry → ℕ
position_frame p = p.frame_num

-- The outcome of the lookup; a read of `positions[-1]` throws a TypeError.
pub data Lookup : Type 0 where
  at_index : ℤ → Lookup
  type_error out_of_fuel : Lookup

-- `positions[i]`.
abbrev pub read : List PositionEntry → ℤ → Option PositionEntry
read positions (pos i) = get_elem? positions i
read positions (negsuc i) = none

-- `Math.floor((hi - lo) / 2) + lo`.
unfoldable pub middle : ℤ → ℤ → ℤ
middle lo hi = half_ℤ (hi -ℤ lo) +ℤ lo

unfoldable pub is_infinite_end : ℤ → Bool
is_infinite_end end_frame = eqb_ℤ end_frame frame_forever

-- The return behind the loop: `hi` if its keyframe is at or before the frame, otherwise `lo`.
abbrev pub converged : List PositionEntry → ℕ → ℤ → ℤ → Lookup
converged positions frame lo (negsuc i) = at_index lo
converged positions frame lo (pos i) = elim (get_elem? positions i) [
  | none ↦ type_error
  | some p ↦ at_index (if leb p.frame_num frame then pos i else lo)
]

-- The end of a round, with the bounds before and after it: the loop goes on while the number of
-- elements changed.
abbrev pub changed : ℤ → ℤ → ℤ → ℤ → Bool
changed lo hi lo' hi' = if eqb_ℤ (hi -ℤ lo) (hi' -ℤ lo') then false else true

-- One round of the loop, with the middle and what the next round gives.
unfoldable pub position_round : (ℤ → ℤ → Lookup) → List PositionEntry → ℕ → ℤ → ℤ → ℤ → Lookup
position_round next positions frame lo hi mid = elim (read positions mid) [
  | none ↦ type_error
  | some p ↦ elim (ltb frame p.frame_num) [
    | true ↦ elim (changed lo hi lo (mid -ℤ pos 1)) [
      | true ↦ next lo (mid -ℤ pos 1)
      | false ↦ converged positions frame lo (mid -ℤ pos 1)
    ]
    | false ↦ elim (changed lo hi mid hi) [
      | true ↦ next mid hi
      | false ↦ converged positions frame mid hi
    ]
  ]
]

-- The do-while loop, on fuel.
unfoldable pub position_loop : ℕ → List PositionEntry → ℕ → ℤ → ℤ → Lookup
unfolding position_round
position_loop zero positions frame lo hi = out_of_fuel
position_loop (suc fuel) positions frame lo hi =
    position_round (position_loop fuel positions frame) positions frame lo hi (middle lo hi)

-- Two rounds more than there are keyframes are enough.
unfoldable pub find_position_index : List PositionEntry → ℕ → ℕ → ℤ → Lookup
unfolding is_infinite_end
find_position_index [] frame start_frame end_frame = at_index (negsuc 0)
find_position_index (p ∷ ps) frame start_frame end_frame =
    let loop =
      position_loop (suc (suc (length (p ∷ ps)))) (p ∷ ps) frame (pos 0)
        (sub_ℕ (length (p ∷ ps)) 1) in
    if ltb frame start_frame
    then at_index (negsuc 0)
    else (if is_infinite_end end_frame
        then loop
        else (if ltb_ℤ end_frame (pos frame) then at_index (negsuc 0) else loop))
