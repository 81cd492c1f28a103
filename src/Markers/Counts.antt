-- ===== src/Markers/Counts.antt =====
-- `getMarkerCountsByPlayer` of ui/src/playback/markerManager.ts.
use ocap2_web.Base.{◌≡◌, ◌∙◌, ℕ, ◌+◌, false, List, [], ◌∷◌, if◌then◌else◌, arith}
use ocap2_web.Base.Int.{ℤ, eqb_ℤ}
use ocap2_web.Markers.{
  TrackedMarker, MarkerManager, count_player, count_players, get_marker_counts_by_player, no_player,
}

-- The entry of a player, 0 where there is none.
abbrev pub count_in : ℤ → List (ℤ × ℕ) → ℕ
count_in p [] = 0
count_in p ((q, n) ∷ counts) = if eqb_ℤ q p then n else count_in p counts

-- The number of markers that a player placed.
abbrev pub markers_of : ℤ → List TrackedMarker → ℕ
markers_of p [] = 0
markers_of p (t ∷ ts) = (if eqb_ℤ t.def.player p then 1 else 0) + markers_of p ts

count_in-count_player :
    (p q : ℤ) (counts : List (ℤ × ℕ))
    → count_in p (count_player q counts) ≡ (if eqb_ℤ q p then 1 else 0) + count_in p counts
unfolding count_player
count_in-count_player p q [] = ground arith
count_in-count_player p q ((k, n) ∷ counts) = ground (arith, count_in-count_player p q counts)

count_in-count_players :
    (p : ℤ) (ts : List TrackedMarker) (counts : List (ℤ × ℕ))
    → eqb_ℤ p no_player ≡ false
    → count_in p (count_players ts counts) ≡ markers_of p ts + count_in p counts
unfolding count_players
count_in-count_players p [] counts h = omega arith
count_in-count_players p (t ∷ ts) counts h = ground (
  arith,
  count_in-count_player p t.def.player counts,
  count_in-count_players p ts counts h,
  count_in-count_players p ts (count_player t.def.player counts) h,
)

-- For every player other than -1 the entry in the counts is the number of markers that the player
-- placed, where a missing entry counts as 0.
pub get_marker_counts_by_player-count :
    (p : ℤ) (m : MarkerManager)
    → eqb_ℤ p no_player ≡ false
    → count_in p (get_marker_counts_by_player m) ≡ markers_of p m.markers
unfolding get_marker_counts_by_player
get_marker_counts_by_player-count p m h = count_in-count_players p m.markers [] h ∙ omega arith
