-- ===== src/Shortcuts/Kills.antt =====
-- The seeks to the previous and the next kill of ui/src/pages/recording-playback/shortcuts.ts.
use mathlib.Core.Option
use ocap2_web.Base.{
  ℕ, zero, suc, ◌≤◌, ◌<◌, ◌≡◌, refl, ap, sym, ◌∙◌, subst, Bool, true, false, Option, none, some,
  List, [], ◌∷◌, arith, Bool-cases, Option-cases, some_inj, inl, inr, contains, get_elem?,
  get_elem?_total, lt_of_get_elem?, ltb, leb, ltb→lt, lt→ltb, leb→le, leb-eq-false, ◌==◌, ==_refl,
  by_test,
}
use ocap2_web.Base.Int.{pos}
use ocap2_web.Events.{EventManager}
use ocap2_web.Search.{SortedBy-get_elem?}
use ocap2_web.Sort.{sort_by, insert_by, sort_by-SortedBy}
use ocap2_web.Engine.{Engine}
use ocap2_web.Engine.Total.{HasManifest}
use ocap2_web.Shortcuts.{
  Panel, kill_frames_of, sort_frames, same_engine, build_kill_frames, get_kill_frames, find_first,
  find_first_from, before_index, seek_to_frame, prev_from, next_from, seek_to_prev_kill,
  seek_to_next_kill, with_panel,
}
use ocap2_web.Shortcuts.Bound.{IsBound, find_first-IsBound}
use ocap2_web.Shortcuts.Step.{seek_to-IsAt}

-- The kills of an engine's events.
abbrev pub kills : Engine → List ℕ
kills e = kill_frames_of e.event_manager.events

contains-insert_by :
    (f x : ℕ) (ys : List ℕ) → contains f (insert_by (λ g. g) x ys) ≡ contains f (x ∷ ys)
unfolding insert_by
contains-insert_by f x [] = refl
contains-insert_by f x (y ∷ ys) = ground (arith, contains-insert_by f x ys)

contains-sort_by : (f : ℕ) (xs : List ℕ) → contains f (sort_frames xs) ≡ contains f xs
unfolding sort_by
contains-sort_by f [] = refl
contains-sort_by f (x ∷ xs) =
    contains-insert_by f x (sort_frames xs) ∙ ground (arith, contains-sort_by f xs)

contains_of_get_elem? : (xs : List ℕ) (i x : ℕ) → get_elem? xs i ≡ some x → contains x xs ≡ true
contains_of_get_elem? [] i x h = cc
contains_of_get_elem? (y ∷ xs) zero x h = rw (some_inj h, ==_refl x) refl
contains_of_get_elem? (y ∷ xs) (suc i) x h =
    by_test (λ b. b ≡ true) (y == x) true (contains x xs) (λ e. refl)
      (λ e. contains_of_get_elem? xs i x h)

place_of : (xs : List ℕ) (x : ℕ) → contains x xs ≡ true → (i : ℕ) × (get_elem? xs i ≡ some x)
place_of [] x h = cc
place_of (y ∷ xs) x h = elim (Bool-cases (y == x)) [
  | inl e ↦ (0, ground arith)
  | inr e ↦ let (i, g) = place_of xs x (rw e at h) in (suc i, g)
]

-- The last frame of a list that is before `cur`, and the first that is after it.
abbrev pub IsPrevious : List ℕ → ℕ → Option ℕ → Type 0
IsPrevious frames cur none = (g : ℕ) → contains g frames ≡ true → cur ≤ g
IsPrevious frames cur (some f) =
    (contains f frames ≡ true) × (f < cur) × ((g : ℕ) → contains g frames ≡ true → g < cur → g ≤ f)

abbrev pub IsNext : List ℕ → ℕ → Option ℕ → Type 0
IsNext frames cur none = (g : ℕ) → contains g frames ≡ true → g ≤ cur
IsNext frames cur (some f) =
    (contains f frames ≡ true) × (cur < f) × ((g : ℕ) → contains g frames ≡ true → cur < g → f ≤ g)

module _ (frames : List ℕ) (cur : ℕ) where
  abbrev sorted_frames : List ℕ
  sorted_frames = sort_frames frames

  place_in_sorted :
      (g : ℕ) → contains g frames ≡ true → (i : ℕ) × (get_elem? sorted_frames i ≡ some g)
  place_in_sorted g h = place_of sorted_frames g (contains-sort_by g frames ∙ h)

  contains_of_sorted : (i x : ℕ) → get_elem? sorted_frames i ≡ some x → contains x frames ≡ true
  contains_of_sorted i x h =
      sym (contains-sort_by x frames) ∙ contains_of_get_elem? sorted_frames i x h

  lt_of_leb : (a b : ℕ) → leb a b ≡ false → b < a
  lt_of_leb a b h = ground arith

  le_of_ltb : (a b : ℕ) → ltb a b ≡ false → b ≤ a
  le_of_ltb a b h = ground arith

  below_bound :
      (p : ℕ → Bool) (c j g : ℕ)
      → IsBound p sorted_frames c
      → get_elem? sorted_frames j ≡ some g
      → p g ≡ false
      → j < c
  below_bound p c j g b q f = elim (Bool-cases (ltb j c)) [
    | inl lt ↦ ltb→lt j c lt
    | inr ge ↦ cc (f, b.after j g (le_of_ltb j c ge) q)
  ]

  above_bound :
      (p : ℕ → Bool) (c j g : ℕ)
      → IsBound p sorted_frames c
      → get_elem? sorted_frames j ≡ some g
      → p g ≡ true
      → c ≤ j
  above_bound p c j g b q t = elim (Bool-cases (ltb j c)) [
    | inl lt ↦ cc (t, b.before j g (ltb→lt j c lt) q)
    | inr ge ↦ le_of_ltb j c ge
  ]

  in_order :
      (i j x y : ℕ)
      → i ≤ j
      → get_elem? sorted_frames i ≡ some x
      → get_elem? sorted_frames j ≡ some y
      → x ≤ y
  in_order i j x y le p q =
      SortedBy-get_elem? (λ f. f) sorted_frames i j x y (sort_by-SortedBy (λ f. f) frames) le p q

  IsPrevious-of_bound :
      (c : ℕ)
      → IsBound (λ f. leb cur f) sorted_frames c
      → IsPrevious frames cur (before_index sorted_frames c)
  IsPrevious-of_bound zero b =
      λ g h. let (i, q) = place_in_sorted g h in leb→le cur g (b.after i g (omega arith) q)
  IsPrevious-of_bound (suc i) b =
      let (x, q) = get_elem?_total sorted_frames i (omega (arith, b.within)) in
      rw q (
        contains_of_sorted i x q,
        lt_of_leb cur x (b.before i x (omega arith) q),
        λ g h lt.
            let (j, r) = place_in_sorted g h in
            let below = below_bound (λ f. leb cur f) (suc i) j g b r (leb-eq-false cur g lt) in
            in_order j i g x (omega (arith, below)) r q,
      )

  IsNext-of_found :
      (c : ℕ) (o : Option ℕ)
      → IsBound (λ f. ltb cur f) sorted_frames c
      → get_elem? sorted_frames c ≡ o
      → IsNext frames cur o
  IsNext-of_found c none b q = λ g h.
      let (i, r) = place_in_sorted g h in
      elim (Bool-cases (ltb cur g)) [
        | inr ge ↦ le_of_ltb cur g ge
        | inl lt ↦
            let above = above_bound (λ f. ltb cur f) c i g b r lt in
            let inside = lt_of_get_elem? sorted_frames i g r in
            let found = get_elem?_total sorted_frames c (omega (arith, above, inside)) in
            cc (q, found.1)
      ]
  IsNext-of_found c (some x) b q = (
    contains_of_sorted c x q,
    ltb→lt cur x (b.after c x (omega arith) q),
    λ g h lt.
        let (j, r) = place_in_sorted g h in
        let above = above_bound (λ f. ltb cur f) c j g b r (lt→ltb cur g lt) in
        in_order c j x g above q r,
  )

-- A list of kills in the cache for the engine is that of the engine's events.
abbrev pub IsCached : ℕ → Engine → Panel → Type 0
IsCached id e p =
    (frames : List ℕ)
    → p.kill_frames ≡ some frames
    → same_engine p.kill_frames_engine id ≡ true
    → frames ≡ sort_frames (kills e)

abbrev IsFetched : ℕ → Engine → List ℕ × Panel → Type 0
IsFetched id e r = (r.0 ≡ sort_frames (kills e)) × IsCached id e r.1

build_kill_frames-IsFetched :
    (id : ℕ) (e : Engine) (p : Panel) → IsFetched id e (build_kill_frames id e p)
build_kill_frames-IsFetched id e p = (refl, λ frames h s. sym (some_inj h))

get_kill_frames-IsFetched :
    (id : ℕ) (e : Engine) (p : Panel) → IsCached id e p → IsFetched id e (get_kill_frames id e p)
unfolding get_kill_frames
get_kill_frames-IsFetched id e p cached = elim (Option-cases p.kill_frames) [
  | inl n ↦ rw (n, get_kill_frames) (build_kill_frames-IsFetched id e p)
  | inr (frames, y) ↦
      rw (y, get_kill_frames)
        (by_test (IsFetched id e) (same_engine p.kill_frames_engine id) (frames, p)
          (build_kill_frames id e p) (λ s. (cached frames y s, cached))
          (λ s. build_kill_frames-IsFetched id e p))
]

-- A seek to a frame that may be missing.
abbrev pub IsSoughtTo : ℕ → Option ℕ → Engine → Option (Panel × Engine) → Type 0
IsSoughtTo id target e r =
    (p' : Panel) × (e' : Engine) × (r ≡ some (p', e'))
    × (seek_to_frame target e ≡ some e')
    × IsCached id e' p'

seek_to_frame-IsSoughtTo :
    (id : ℕ) (target : Option ℕ) (e : Engine) (p : Panel)
    → HasManifest e.chunk_manager
    → IsCached id e p
    → IsSoughtTo id target e (Option.map (with_panel p) (seek_to_frame target e))
seek_to_frame-IsSoughtTo id none e p h cached = (p, e, refl, refl, cached)
seek_to_frame-IsSoughtTo id (some frame) e p h cached =
    let (e', runs, at) = seek_to-IsAt (pos frame) e h in
    let kept : kills e' ≡ kills e =
      ap (λ (m : EventManager). kill_frames_of m.events) at.event_manager in
    (
      p,
      e',
      ap (Option.map (with_panel p)) runs,
      runs,
      λ frames q s. cached frames q s ∙ sym (ap sort_frames kept),
    )

leb_trans : (c x y : ℕ) → x ≤ y → leb c x ≡ true → leb c y ≡ true
leb_trans c x y le t = ground arith

ltb_trans : (c x y : ℕ) → x ≤ y → ltb c x ≡ true → ltb c y ≡ true
ltb_trans c x y le t = ground arith

-- Both searches end at the frame that is looked for, over the sorted kills.
prev_from-IsPrevious :
    (id : ℕ) (e : Engine) (p : Panel)
    → HasManifest e.chunk_manager
    → IsCached id e p
    → (target : Option ℕ) × IsPrevious (kills e) e.current_frame target
      × IsSoughtTo id target e (prev_from e (sort_frames (kills e)) p)
unfolding prev_from
prev_from-IsPrevious id e p h cached =
    let frames : List ℕ = sort_frames (kills e) in
    let (c, found, bound) =
      find_first-IsBound frames (λ f. leb e.current_frame f) (sort_by-SortedBy (λ f. f) (kills e))
        (leb_trans e.current_frame) in
    (
      before_index frames c,
      IsPrevious-of_bound (kills e) e.current_frame c bound,
      rw (found, prev_from) (seek_to_frame-IsSoughtTo id (before_index frames c) e p h cached),
    )

next_from-IsNext :
    (id : ℕ) (e : Engine) (p : Panel)
    → HasManifest e.chunk_manager
    → IsCached id e p
    → (target : Option ℕ) × IsNext (kills e) e.current_frame target
      × IsSoughtTo id target e (next_from e (sort_frames (kills e)) p)
unfolding next_from
next_from-IsNext id e p h cached =
    let frames : List ℕ = sort_frames (kills e) in
    let (c, found, bound) =
      find_first-IsBound frames (λ f. ltb e.current_frame f) (sort_by-SortedBy (λ f. f) (kills e))
        (ltb_trans e.current_frame) in
    (
      get_elem? frames c,
      IsNext-of_found (kills e) e.current_frame c (get_elem? frames c) bound refl,
      rw (found, next_from) (seek_to_frame-IsSoughtTo id (get_elem? frames c) e p h cached),
    )

-- The key for the previous kill. If the chunk manager, where there is one, has its manifest, and the
-- cached list of kills is up to date where it is there, then the call runs without a throw: the engine
-- seeks to the last kill before its frame, among all the kills of its events in whatever order, and stays
-- as it is if there is none. The cache is up to date behind the call.
pub seek_to_prev_kill-IsPrevious :
    (id : ℕ) (e : Engine) (p : Panel)
    → HasManifest e.chunk_manager
    → IsCached id e p
    → (target : Option ℕ) × IsPrevious (kills e) e.current_frame target
      × IsSoughtTo id target e (seek_to_prev_kill id e p)
unfolding seek_to_prev_kill
seek_to_prev_kill-IsPrevious id e p h cached =
    let (frames, kept) = get_kill_frames-IsFetched id e p cached in
    subst
      (λ fs.
        (target : Option ℕ) × IsPrevious (kills e) e.current_frame target
        × IsSoughtTo id target e (prev_from e fs (get_kill_frames id e p).1))
      (sym frames) (prev_from-IsPrevious id e (get_kill_frames id e p).1 h kept)

-- The key for the next kill. If the chunk manager, where there is one, has its manifest, and the cached
-- list of kills is up to date where it is there, then the call runs without a throw: the engine seeks to
-- the first kill after its frame, among all the kills of its events in whatever order, and stays as it is
-- if there is none. The cache is up to date behind the call.
pub seek_to_next_kill-IsNext :
    (id : ℕ) (e : Engine) (p : Panel)
    → HasManifest e.chunk_manager
    → IsCached id e p
    → (target : Option ℕ) × IsNext (kills e) e.current_frame target
      × IsSoughtTo id target e (seek_to_next_kill id e p)
unfolding seek_to_next_kill
seek_to_next_kill-IsNext id e p h cached =
    let (frames, kept) = get_kill_frames-IsFetched id e p cached in
    subst
      (λ fs.
        (target : Option ℕ) × IsNext (kills e) e.current_frame target
        × IsSoughtTo id target e (next_from e fs (get_kill_frames id e p).1))
      (sym frames) (next_from-IsNext id e (get_kill_frames id e p).1 h kept)

-- A kill key before the recording is loaded. If there is no cached list and the engine has no kill yet,
-- then the key for the next kill changes nothing that is seen, but leaves an empty list behind; from then
-- on both kill keys leave that engine as it is, whatever recording it has been given since.
pub seek_to_next_kill-stale :
    (id : ℕ) (e later : Engine) (p : Panel)
    → p.kill_frames ≡ none
    → kills e ≡ []
    → (p' : Panel) × (seek_to_next_kill id e p ≡ some (p', e))
      × (seek_to_next_kill id later p' ≡ some (p', later))
      × (seek_to_prev_kill id later p' ≡ some (p', later))
unfolding seek_to_next_kill seek_to_prev_kill next_from prev_from get_kill_frames find_first
    find_first_from sort_by
seek_to_next_kill-stale id e later p empty none_yet = (
  record p { kill_frames = some []; kill_frames_engine = some id },
  rw (empty, none_yet) refl,
  rw (==_refl id) refl,
  rw (==_refl id) refl,
)
