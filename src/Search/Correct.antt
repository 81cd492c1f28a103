-- ===== src/Search/Correct.antt =====
-- The binary search returns, and finds the last element at or before the frame.
use ocap2_web.Base.{
  ℕ, zero, suc, ◌+◌, ◌-◌, ◌^◌, ◌≤◌, ◌<◌, ◌≡◌, refl, true, false, Option, none, some, List, [], ◌∷◌,
  arith, length, get_elem?, get_elem?_total, lt_of_get_elem?, leb, leb→le, le→leb, leb-eq-false,
  keep, sym, ◌∙◌, Bool-cases, inl, inr,
}
use native.Mathlib.Numerals.{towards_suc}
use ocap2_web.Base.Int.{ℤ, pos, pos_part, sub_ℕ}
use ocap2_web.Search.{search, at_most, unsigned_half, IsSplit, SortedBy, SortedBy-get_elem?}

-- The index behind which `c` elements lie: the last of them, or the start value if there is none.
abbrev pub last_of : ℤ → ℕ → ℤ
last_of start zero = start
last_of start (suc c) = pos c

-- `h` is one more than `hi`.
lt_of_at_most : (lo h : ℕ) → at_most lo (sub_ℕ h 1) ≡ true → lo < h
lt_of_at_most lo h e = ground arith

le_of_not_at_most : (lo h : ℕ) → at_most lo (sub_ℕ h 1) ≡ false → h ≤ lo
le_of_not_at_most lo h e = ground arith

lt_of_leb : (a b : ℕ) → leb a b ≡ false → b < a
lt_of_leb a b h = ground arith

half_bounds :
    (lo h : ℕ)
    → lo < h
    → h ≤ 2 ^ 31
    → (lo ≤ unsigned_half lo (pos_part (sub_ℕ h 1))) × (unsigned_half lo (pos_part (sub_ℕ h 1)) < h)
half_bounds lo h p q = ground arith

module _ {ℓ} {A : Type ℓ} (frame_of : A → ℕ) (items : List A) (frame : ℕ)
    (sorted : SortedBy frame_of items) (small : length items ≤ 2 ^ 31) (start : ℤ) where
  -- The loop invariant: below `lo` the elements are at or before the frame, from `h` on they are not.
  record Window (lo h : ℕ) : Type ℓ where
    ordered : lo ≤ h
    within : h ≤ length items
    before : (j : ℕ) (e : A) → j < lo → get_elem? items j ≡ some e → frame_of e ≤ frame
    after : (j : ℕ) (e : A) → h ≤ j → get_elem? items j ≡ some e → frame < frame_of e

  raise_lo :
      (lo h mid : ℕ) (e : A)
      → Window lo h
      → mid < h
      → get_elem? items mid ≡ some e
      → frame_of e ≤ frame
      → Window (mid + 1) h
  raise_lo lo h mid e w m g le = record {
    ordered = omega arith;
    within = w.within;
    before = λ j e' lt g'.
        omega (arith, SortedBy-get_elem? frame_of items j mid e' e sorted (omega arith) g' g);
    after = w.after;
  }

  lower_hi :
      (lo h mid : ℕ) (e : A)
      → Window lo h
      → lo ≤ mid
      → mid < h
      → get_elem? items mid ≡ some e
      → frame < frame_of e
      → Window lo mid
  lower_hi lo h mid e w m n g lt = record {
    ordered = m;
    within = omega (arith, w.within);
    before = w.before;
    after =
        λ j e' le g'. omega (arith, SortedBy-get_elem? frame_of items mid j e e' sorted le g g');
  }

  -- The three ways of one round.
  search_done :
      (fuel lo : ℕ) (hi idx : ℤ)
      → at_most lo hi ≡ false
      → search frame_of items frame (suc fuel) lo hi idx ≡ some idx
  unfolding search
  search_done fuel lo hi idx h = rw (h, search)

  search_right :
      (fuel lo : ℕ) (hi idx : ℤ) (e : A)
      → at_most lo hi ≡ true
      → get_elem? items (unsigned_half lo (pos_part hi)) ≡ some e
      → leb (frame_of e) frame ≡ true
      → search frame_of items frame (suc fuel) lo hi idx
        ≡ search frame_of items frame fuel
            (unsigned_half lo (pos_part hi) + 1)
            hi
            (pos (unsigned_half lo (pos_part hi)))
  unfolding search
  search_right fuel lo hi idx e h g t = rw (h, search, g, t)

  search_left :
      (fuel lo : ℕ) (hi idx : ℤ) (e : A)
      → at_most lo hi ≡ true
      → get_elem? items (unsigned_half lo (pos_part hi)) ≡ some e
      → leb (frame_of e) frame ≡ false
      → search frame_of items frame (suc fuel) lo hi idx
        ≡ search frame_of items frame fuel lo (sub_ℕ (unsigned_half lo (pos_part hi)) 1) idx
  unfolding search
  search_left fuel lo hi idx e h g t = rw (h, search, g, t)

  abbrev Found : Option ℤ → Type ℓ
  Found r = (c : ℕ) × (r ≡ some (last_of start c)) × IsSplit frame_of items frame c

  last_of-succ : (m : ℕ) → last_of start (m + 1) ≡ pos m
  last_of-succ m = simp towards_suc

  closed : (lo h : ℕ) → Window lo h → h ≤ lo → IsSplit frame_of items frame lo
  closed lo h w le = record {
    within = omega (arith, w.within, w.ordered);
    before = w.before;
    after = λ j e n g. w.after j e (omega arith) g;
  }

  search-Window :
      (fuel lo h : ℕ)
      → Window lo h
      → h - lo < fuel
      → Found (search frame_of items frame fuel lo (sub_ℕ h 1) (last_of start lo))
  search-Window zero lo h w f = absurd (omega arith)
  search-Window (suc fuel) lo h w f = elim (Bool-cases (at_most lo (sub_ℕ h 1))) [
    | inl more ↦
        let lt = lt_of_at_most lo h more in
        let mid : ℕ = unsigned_half lo (pos_part (sub_ℕ h 1)) in
        let bounds = half_bounds lo h lt (omega (arith, w.within)) in
        let lower : lo ≤ mid = bounds.0 in
        let upper : mid < h = bounds.1 in
        let (e, found) = get_elem?_total items mid (omega (arith, w.within)) in
        elim (Bool-cases (leb (frame_of e) frame)) [
          | inl t ↦
              rw (search_right fuel lo (sub_ℕ h 1) _ e more found t, ← last_of-succ mid)
                (search-Window fuel (mid + 1) h (raise_lo lo h mid e w upper found (leb→le _ _ t))
                  (omega arith))
          | inr t ↦ rw (search_left fuel lo (sub_ℕ h 1) _ e more found t) (
              search-Window fuel lo mid (lower_hi lo h mid e w lower upper found (lt_of_leb _ _ t))
                (omega arith))
        ]
    | inr done ↦
        (lo, search_done fuel lo (sub_ℕ h 1) _ done, closed lo h w (le_of_not_at_most lo h done))
  ]

  -- Over the whole array, with one more fuel than elements, the search returns.
  pub search-IsSplit :
      Found (search frame_of items frame (suc (length items)) 0 (sub_ℕ (length items) 1) start)
  search-IsSplit =
      search-Window (suc (length items)) 0 (length items)
        (record {
          ordered = omega arith;
          within = omega arith;
          before = λ j e lt g. absurd (omega arith);
          after = λ j e le g. absurd (omega (arith, lt_of_get_elem? items j e g));
        })
        (omega arith)

-- The last element of a list.
abbrev pub last? {ℓ} : {A : Type ℓ} → List A → Option A
last? [] = none
last? (x ∷ []) = some x
last? (x ∷ y ∷ xs) = last? (y ∷ xs)

abbrev pub pred_elem? {ℓ} : {A : Type ℓ} → List A → ℕ → Option A
pred_elem? xs zero = none
pred_elem? xs (suc c) = get_elem? xs c

module _ {ℓ} {A : Type ℓ} (frame_of : A → ℕ) (frame : ℕ) where
  tail-IsSplit :
      (x : A) (xs : List A) (c : ℕ)
      → IsSplit frame_of (x ∷ xs) frame (suc c)
      → IsSplit frame_of xs frame c
  tail-IsSplit x xs c s = record {
    within = omega (arith, s.within);
    before = λ j e lt g. s.before (suc j) e (omega arith) g;
    after = λ j e le g. s.after (suc j) e (omega arith) g;
  }

  keep-eq-nil :
      (xs : List A) → IsSplit frame_of xs frame 0 → keep (λ e. leb (frame_of e) frame) xs ≡ []
  keep-eq-nil [] s = refl
  keep-eq-nil (x ∷ xs) s = rw (leb-eq-false _ _ (s.after 0 x (omega arith) refl)) (
      keep-eq-nil xs (record {
        within = omega arith;
        before = λ j e lt g. absurd (omega arith);
        after = λ j e le g. s.after (suc j) e (omega arith) g;
      }))

  -- The element before the split is the last one at or before the frame.
  pub last?-keep :
      (xs : List A) (c : ℕ)
      → IsSplit frame_of xs frame c
      → last? (keep (λ e. leb (frame_of e) frame) xs) ≡ pred_elem? xs c
  last?-keep xs zero s = rw (keep-eq-nil xs s)
  last?-keep [] (suc c) s = absurd (omega (arith, s.within))
  last?-keep (x ∷ xs) (suc zero) s =
      rw (le→leb _ _ (s.before 0 x (omega arith) refl), keep-eq-nil xs (tail-IsSplit x xs zero s))
  last?-keep (x ∷ xs) (suc (suc c)) s =
      let ih = last?-keep xs (suc c) (tail-IsSplit x xs (suc c) s) in
      let found = get_elem?_total xs c (omega (arith, s.within)) in
      rw (le→leb _ _ (s.before 0 x (omega arith) refl)) (
        last?_of_some x (keep (λ e. leb (frame_of e) frame) xs) found.0 (ih ∙ found.1)
        ∙ sym found.1)
    where
      last?_of_some : (x : A) (ys : List A) (v : A) → last? ys ≡ some v → last? (x ∷ ys) ≡ some v
      last?_of_some x [] v h = cc
      last?_of_some x (y ∷ ys) v h = h
