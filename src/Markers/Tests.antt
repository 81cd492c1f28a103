-- ===== src/Markers/Tests.antt =====
-- Concrete runs of the class MarkerManager of ui/src/playback/markerManager.ts.

use ocap2_web.Base.{
  ℕ, ◌≡◌, ◌⊎◌, refl, true, false, suc, Option, none, some, List, [], ◌∷◌, All, arith,
}
use ocap2_web.Base.Int.{pos, negsuc, ◌+ℤ◌, ◌-ℤ◌}
use ocap2_web.Types.{MarkerDef, PositionEntry, arr, cons, nil, whole, icon, frame_forever}
use ocap2_web.Search.{SortedBy, IsSplit}
use ocap2_web.Markers.Position.{
  find_position_index, position_loop, middle, position_frame, at_index, type_error,
}
use ocap2_web.Markers.Keyframe.{is_active, find_position_index-keyframe, find_position_index-throws}
use ocap2_web.Markers.Parse.{Arithmetic, number}
use ocap2_web.Markers.{
  MarkerManager, track, update_frame, update_markers, update_marker, current_position,
  set_side_filter, set_blacklist, is_shown,
}
use ocap2_web.Markers.Visible.{is_visible}
use ocap2_web.Markers.Settled.{update_frame-update_frame}
use ocap2_web.Markers.{get_marker_counts_by_player}
use ocap2_web.Markers.Counts.{count_in, markers_of, get_marker_counts_by_player-count}
use ocap2_web.Markers.Total.{IsWellFormed, update_frame-is_visible}
use ocap2_web.Markers.Handles.{
  IsCoherent, holders, is_live, update_frame-IsCoherent, set_side_filter-IsCoherent,
  set_blacklist-IsCoherent,
}

abbrev keyframe : ℕ → PositionEntry
keyframe frame = record {
  frame_num = frame;
  rest = arr (cons (number 1) (cons (number 2) nil)) ∷ number 90 ∷ number 1 ∷ [];
}

abbrev later_keyframes : List PositionEntry
later_keyframes = keyframe 20 ∷ keyframe 30 ∷ []

keyframes-SortedBy : SortedBy position_frame (keyframe 10 ∷ later_keyframes)
keyframes-SortedBy = ((omega arith, (omega arith, tt)), ((omega arith, tt), (tt, tt)))

find_position_index-keyframe_example :
    ((is_active 25 10 frame_forever ≡ false)
      × (find_position_index (keyframe 10 ∷ later_keyframes) 25 10 frame_forever
          ≡ at_index (negsuc 0)))
    ⊎ ((is_active 25 10 frame_forever ≡ true)
        × ((c : ℕ) × (find_position_index (keyframe 10 ∷ later_keyframes) 25 10 frame_forever
              ≡ at_index (pos c))
            × IsSplit position_frame (keyframe 10 ∷ later_keyframes) 25 (suc c)))
find_position_index-keyframe_example =
    find_position_index-keyframe (keyframe 10) later_keyframes 25 10 frame_forever
      keyframes-SortedBy (omega arith)

find_position_index-throws_example :
    find_position_index (keyframe 10 ∷ later_keyframes) 7 5 frame_forever ≡ type_error
find_position_index-throws_example =
    find_position_index-throws (keyframe 10) later_keyframes 7 5 frame_forever keyframes-SortedBy
      refl (omega arith)

-- Any operations on numbers will do: a marker outside the projectile layer uses none.
abbrev first_operand : Arithmetic
first_operand = record {
  add = λ x y. x;
  sub = λ x y. x;
  mul = λ x y. x;
  div = λ x y. x;
  min = λ x y. x;
  max = λ x y. x;
}

abbrev flag : MarkerDef
flag = record {
  shape = icon;
  type = "mil_flag";
  text = some "base";
  side = "WEST";
  color = "ff0000";
  size = none;
  positions = keyframe 10 ∷ later_keyframes;
  player = negsuc 0;
  alpha = whole 1;
  brush = none;
  start_frame = 10;
  end_frame = frame_forever;
}

abbrev one_flag : MarkerManager
one_flag = record {
  markers = track flag (λ p. none) ∷ [];
  renderer = record { calls = []; next_handle = 0 };
  side_filter = none;
  blacklisted = [];
}

abbrev after_25 : Option MarkerManager
after_25 = update_frame first_operand 25 one_flag

abbrev shown_flag : MarkerManager
shown_flag = elim after_25 [ none ↦ one_flag | some m ↦ m ]

update_runs : update_frame first_operand 25 one_flag ≡ some shown_flag
unfolding update_frame update_markers update_marker find_position_index position_loop middle
    current_position ◌+ℤ◌ ◌-ℤ◌ track
update_runs = refl

one_flag-IsWellFormed : All IsWellFormed one_flag.markers
unfolding track
one_flag-IsWellFormed = ((omega arith, keyframes-SortedBy), tt)

update_frame-is_visible_example :
    (m' : MarkerManager) × (update_frame first_operand 25 one_flag ≡ some m')
    × All (λ t. is_shown t ≡ is_visible 25 none [] t) m'.markers
update_frame-is_visible_example =
    update_frame-is_visible first_operand 25 one_flag one_flag-IsWellFormed

one_flag-IsCoherent : IsCoherent one_flag
unfolding holders is_live track
one_flag-IsCoherent = record { exact = λ h. refl; fresh = λ h le. refl; legal = tt }

update_frame-IsCoherent_example : IsCoherent shown_flag
update_frame-IsCoherent_example =
    update_frame-IsCoherent first_operand 25 one_flag shown_flag one_flag-IsCoherent update_runs

shown_flag-IsCoherent : IsCoherent shown_flag
shown_flag-IsCoherent =
    update_frame-IsCoherent first_operand 25 one_flag shown_flag one_flag-IsCoherent update_runs

set_side_filter-IsCoherent_example : IsCoherent (set_side_filter (some "EAST") shown_flag)
set_side_filter-IsCoherent_example =
    set_side_filter-IsCoherent (some "EAST") shown_flag shown_flag-IsCoherent

set_blacklist-IsCoherent_example : IsCoherent (set_blacklist (negsuc 0 ∷ []) shown_flag)
set_blacklist-IsCoherent_example =
    set_blacklist-IsCoherent (negsuc 0 ∷ []) shown_flag shown_flag-IsCoherent

update_frame-update_frame_example : update_frame first_operand 25 shown_flag ≡ some shown_flag
update_frame-update_frame_example =
    update_frame-update_frame first_operand 25 one_flag shown_flag update_runs

abbrev player_marks : MarkerManager
player_marks = record one_flag {
  markers =
      track (record flag { player = pos 3 }) (λ p. some "Ann")
      ∷ track flag (λ p. none)
      ∷ track (record flag { player = pos 3 }) (λ p. some "Ann")
      ∷ [];
}

get_marker_counts_by_player-count_example :
    count_in (pos 3) (get_marker_counts_by_player player_marks)
    ≡ markers_of (pos 3) player_marks.markers
get_marker_counts_by_player-count_example =
    get_marker_counts_by_player-count (pos 3) player_marks refl
