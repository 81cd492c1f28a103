-- ===== src/Shortcuts/Bound.antt =====
-- The binary search `findFirst` of ui/src/pages/recording-playback/shortcuts.ts.
use ocap2_web.Base.{
  ℕ, zero, suc, ◌+◌, ◌-◌, ◌≤◌, ◌<◌, ◌≡◌, Bool, true, false, Option, some, List, arith, Bool-cases,
  inl, inr, length, get_elem?, get_elem?_total, lt_of_get_elem?, ltb, ltb→lt,
}
use ocap2_web.Search.{SortedBy, SortedBy-get_elem?}
use ocap2_web.Shortcuts.{find_first_from, find_first, midpoint}

-- The predicate fails on the first `c` elements and holds on the others.
pub record IsBound (predicate : ℕ → Bool) (arr : List ℕ) (c : ℕ) : Type 0 where
  pub within : c ≤ length arr
  pub before : (j x : ℕ) → j < c → get_elem? arr j ≡ some x → predicate x ≡ false
  pub after : (j x : ℕ) → c ≤ j → get_elem? arr j ≡ some x → predicate x ≡ true

-- A predicate that holds from some number on.
abbrev pub IsUpward : (ℕ → Bool) → Type 0
IsUpward predicate = (x y : ℕ) → x ≤ y → predicate x ≡ true → predicate y ≡ true

le_of_ltb : (a b : ℕ) → ltb a b ≡ false → b ≤ a
le_of_ltb a b h = ground arith

midpoint-bounds : (a b : ℕ) → a < b → (a ≤ midpoint a b) × (midpoint a b < b)
midpoint-bounds a b h = omega arith

module _ (arr : List ℕ) (predicate : ℕ → Bool) where
  done_from :
      (fuel low high : ℕ)
      → ltb low high ≡ false
      → find_first_from (suc fuel) arr predicate low high ≡ some low
  unfolding find_first_from
  done_from fuel low high h = rw (h, find_first_from)

  left_from :
      (fuel low high el : ℕ)
      → ltb low high ≡ true
      → get_elem? arr (midpoint low high) ≡ some el
      → predicate el ≡ true
      → find_first_from (suc fuel) arr predicate low high
        ≡ find_first_from fuel arr predicate low (midpoint low high)
  unfolding find_first_from
  left_from fuel low high el h g t = rw (h, find_first_from, g, t)

  right_from :
      (fuel low high el : ℕ)
      → ltb low high ≡ true
      → get_elem? arr (midpoint low high) ≡ some el
      → predicate el ≡ false
      → find_first_from (suc fuel) arr predicate low high
        ≡ find_first_from fuel arr predicate (midpoint low high + 1) high
  unfolding find_first_from
  right_from fuel low high el h g t = rw (h, find_first_from, g, t)

  module _ (sorted : SortedBy (λ f. f) arr) (upward : IsUpward predicate) where
    -- The loop invariant: below `low` the predicate fails, and from `high` on it holds.
    record Window (low high : ℕ) : Type 0 where
      ordered : low ≤ high
      within : high ≤ length arr
      before : (j x : ℕ) → j < low → get_elem? arr j ≡ some x → predicate x ≡ false
      after : (j x : ℕ) → high ≤ j → get_elem? arr j ≡ some x → predicate x ≡ true

    fails_below :
        (mid el j x : ℕ)
        → j ≤ mid
        → get_elem? arr mid ≡ some el
        → predicate el ≡ false
        → get_elem? arr j ≡ some x
        → predicate x ≡ false
    fails_below mid el j x le g f gx = elim (Bool-cases (predicate x)) [
      | inr e ↦ e
      | inl e ↦ cc (f, upward x el (SortedBy-get_elem? (λ y. y) arr j mid x el sorted le gx g) e)
    ]

    raise_low :
        (low high mid el : ℕ)
        → Window low high
        → mid < high
        → get_elem? arr mid ≡ some el
        → predicate el ≡ false
        → Window (mid + 1) high
    raise_low low high mid el w m g f = record {
      ordered = omega arith;
      within = w.within;
      before = λ j x lt gx. fails_below mid el j x (omega arith) g f gx;
      after = w.after;
    }

    lower_high :
        (low high mid el : ℕ)
        → Window low high
        → low ≤ mid
        → mid < high
        → get_elem? arr mid ≡ some el
        → predicate el ≡ true
        → Window low mid
    lower_high low high mid el w n m g t = record {
      ordered = n;
      within = omega (arith, w.within);
      before = w.before;
      after =
          λ j x le gx. upward el x (SortedBy-get_elem? (λ y. y) arr mid j el x sorted le g gx) t;
    }

    abbrev Found : Option ℕ → Type 0
    Found r = (c : ℕ) × (r ≡ some c) × IsBound predicate arr c

    closed : (low high : ℕ) → Window low high → high ≤ low → IsBound predicate arr low
    closed low high w le = record {
      within = omega (arith, w.within, w.ordered);
      before = w.before;
      after = λ j x n g. w.after j x (omega arith) g;
    }

    find_first_from-Window :
        (fuel low high : ℕ)
        → Window low high
        → high - low < fuel
        → Found (find_first_from fuel arr predicate low high)
    find_first_from-Window zero low high w f = absurd (omega arith)
    find_first_from-Window (suc fuel) low high w f = elim (Bool-cases (ltb low high)) [
      | inr done ↦ (low, done_from fuel low high done, closed low high w (le_of_ltb low high done))
      | inl more ↦
          let lt = ltb→lt low high more in
          let bounds = midpoint-bounds low high lt in
          let lower : low ≤ midpoint low high = bounds.0 in
          let upper : midpoint low high < high = bounds.1 in
          let (el, found) = get_elem?_total arr (midpoint low high) (omega (arith, w.within)) in
          elim (Bool-cases (predicate el)) [
            | inl t ↦ rw (left_from fuel low high el more found t) (
                find_first_from-Window fuel low (midpoint low high)
                  (lower_high low high (midpoint low high) el w lower upper found t) (omega arith))
            | inr t ↦ rw (right_from fuel low high el more found t) (
                find_first_from-Window fuel (midpoint low high + 1) high
                  (raise_low low high (midpoint low high) el w upper found t) (omega arith))
          ]
    ]

-- The search of a sorted array for a predicate that holds from some number on returns: it ends within
-- its fuel, reads only inside of the array, and gives the place where the predicate begins to hold, the
-- length if it never does.
pub find_first-IsBound :
    (arr : List ℕ) (predicate : ℕ → Bool)
    → SortedBy (λ f. f) arr
    → IsUpward predicate
    → (c : ℕ) × (find_first arr predicate ≡ some c) × IsBound predicate arr c
unfolding find_first
find_first-IsBound arr predicate sorted upward =
    find_first_from-Window arr predicate sorted upward (suc (length arr)) 0 (length arr)
      (record {
        ordered = omega arith;
        within = omega arith;
        before = λ j x lt g. absurd (omega arith);
        after = λ j x le g. absurd (omega (arith, lt_of_get_elem? arr j x g));
      })
      (omega arith)
