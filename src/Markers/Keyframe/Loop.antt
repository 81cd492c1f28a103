-- ===== src/Markers/Keyframe/Loop.antt =====
-- The do-while loop of `findPositionIndex` of ui/src/playback/markerManager.ts.
use ocap2_web.Base.{
  ℕ, zero, suc, ◌+◌, ◌-◌, ◌/◌, ◌≤◌, ◌<◌, ◌≡◌, refl, sym, ◌∙◌, ap, ◌≢◌, leb→le, ◌==◌, ==→eq, true,
  false, Option, none, some, List, length, get_elem?, get_elem?_total, leb, ltb, ltb→lt, lt→ltb,
  le→leb, leb-eq-false, arith, Bool-cases, inl, inr, if◌then◌else◌,
}
use ocap2_web.Base.Int.{ℤ, pos, negsuc, ◌+ℤ◌, ◌-ℤ◌}
use ocap2_web.Types.{PositionEntry}
use ocap2_web.Search.{IsSplit, SortedBy, SortedBy-get_elem?}
use ocap2_web.Markers.Position.{
  position_frame, Lookup, at_index, type_error, middle, converged, changed, position_round,
  position_loop,
}

middle-pos : (l h : ℕ) → l ≤ h → middle (pos l) (pos h) ≡ pos (l + (h - l) / 2)
unfolding middle ◌+ℤ◌ ◌-ℤ◌
middle-pos l h le = ground arith

middle-crossed : middle (pos 0) (negsuc 0) ≡ negsuc 0
unfolding middle ◌+ℤ◌ ◌-ℤ◌
middle-crossed = refl

pred-zero : (m : ℕ) → m ≡ 0 → pos m -ℤ pos 1 ≡ negsuc 0
unfolding ◌-ℤ◌
pred-zero m e = ground arith

changed-right :
    (l h m : ℕ)
    → l ≤ m
    → m ≤ h
    → changed (pos l) (pos h) (pos m) (pos h) ≡ (if leb m l then false else true)
unfolding ◌-ℤ◌
changed-right l h m p q = ground arith

changed-left : (l h m : ℕ) → l ≤ m → m ≤ h → changed (pos l) (pos h) (pos l) (pos m -ℤ pos 1) ≡ true
unfolding ◌-ℤ◌
changed-left l h m p q = ground arith

lt_of_leb : (a b : ℕ) → leb a b ≡ false → b < a
lt_of_leb a b h = ground arith

le_of_ltb : (a b : ℕ) → ltb a b ≡ false → b ≤ a
le_of_ltb a b h = ground arith

pred-pos : (m : ℕ) → 0 < m → pos m -ℤ pos 1 ≡ pos (m - 1)
unfolding ◌-ℤ◌
pred-pos m h = ground arith

module _ (positions : List PositionEntry) (frame : ℕ)
    (sorted : SortedBy position_frame positions) where
  -- The loop invariant over positions: the keyframe at `l` is not after the frame, those behind `h` are.
  pub record Bracket (l h : ℕ) : Type 0 where
    pub ordered : l ≤ h
    pub within : h < length positions
    pub low : PositionEntry
    pub at_low : get_elem? positions l ≡ some low
    pub low-le : low.frame_num ≤ frame
    pub above :
        (j : ℕ) (p : PositionEntry) → h < j → get_elem? positions j ≡ some p → frame < p.frame_num

  -- One round with the middle `m`, by what the keyframe there says.
  round-left :
      (next : ℤ → ℤ → Lookup) (l h m : ℕ) (p : PositionEntry)
      → l ≤ m
      → m ≤ h
      → get_elem? positions m ≡ some p
      → ltb frame p.frame_num ≡ true
      → position_round next positions frame (pos l) (pos h) (pos m) ≡ next (pos l) (pos m -ℤ pos 1)
  unfolding position_round
  round-left next l h m p a b g t = rw (position_round, g, t, changed-left l h m a b)

  round-right :
      (next : ℤ → ℤ → Lookup) (l h m : ℕ) (p : PositionEntry)
      → l < m
      → m ≤ h
      → get_elem? positions m ≡ some p
      → ltb frame p.frame_num ≡ false
      → position_round next positions frame (pos l) (pos h) (pos m) ≡ next (pos m) (pos h)
  unfolding position_round
  round-right next l h m p a b g t =
      rw (position_round, g, t, changed-right l h m (omega arith) b, leb-eq-false m l a)

  round-end :
      (next : ℤ → ℤ → Lookup) (l h : ℕ) (p : PositionEntry)
      → l ≤ h
      → get_elem? positions l ≡ some p
      → ltb frame p.frame_num ≡ false
      → position_round next positions frame (pos l) (pos h) (pos l)
        ≡ converged positions frame (pos l) (pos h)
  unfolding position_round
  round-end next l h p a g t =
      rw (position_round, g, t, changed-right l h l (omega arith) a, le→leb l l (omega arith))

  loop-step :
      (fuel l h m : ℕ)
      → middle (pos l) (pos h) ≡ pos m
      → position_loop (suc fuel) positions frame (pos l) (pos h)
        ≡ position_round
            (position_loop fuel positions frame)
            positions
            frame
            (pos l)
            (pos h)
            (pos m)
  unfolding position_loop
  loop-step fuel l h m e = rw e

  abbrev Found : Lookup → Type 0
  Found r = (c : ℕ) × (r ≡ at_index (pos c)) × IsSplit position_frame positions frame (suc c)

  lower :
      (l h m : ℕ) (p : PositionEntry)
      → Bracket l h
      → l < m
      → m ≤ h
      → get_elem? positions m ≡ some p
      → frame < p.frame_num
      → Bracket l (m - 1)
  lower l h m p w a b g lt = record {
    ordered = omega arith;
    within = omega (arith, w.within);
    low = w.low;
    at_low = w.at_low;
    low-le = w.low-le;
    above = λ j q c g'.
        omega
          (arith, SortedBy-get_elem? position_frame positions m j p q sorted (omega arith) g g');
  }

  raise :
      (l h m : ℕ) (p : PositionEntry)
      → Bracket l h
      → m ≤ h
      → get_elem? positions m ≡ some p
      → p.frame_num ≤ frame
      → Bracket m h
  raise l h m p w b g le = record {
    ordered = b;
    within = w.within;
    low = p;
    at_low = g;
    low-le = le;
    above = w.above;
  }

  -- Where the bounds meet, the lower one is the keyframe.
  IsSplit-low : (l h : ℕ) → Bracket l h → h ≤ l → IsSplit position_frame positions frame (suc l)
  IsSplit-low l h w le = record {
    within = omega (arith, w.within, w.ordered);
    before = λ j q c g. omega (
      arith,
      w.low-le,
      SortedBy-get_elem? position_frame positions j l q w.low sorted (omega arith) g w.at_low,
    );
    after = λ j q c g. w.above j q (omega arith) g;
  }

  not-low :
      (l h m : ℕ) (p : PositionEntry)
      → Bracket l h
      → get_elem? positions m ≡ some p
      → frame < p.frame_num
      → l ≢ m
  not-low l h m p w g lt e =
      let same : some w.low ≡ some p = sym w.at_low ∙ rw (← e) at g in
      omega (arith, w.low-le, ap (λ o. frame_or o) same)
    where
      frame_or : Option PositionEntry → ℕ
      frame_or none = 0
      frame_or (some q) = q.frame_num

  converged-Found :
      (l h : ℕ) → Bracket l h → h ≤ l + 1 → Found (converged positions frame (pos l) (pos h))
  converged-Found l h w le =
      let (q, g) = get_elem?_total positions h w.within in
      elim (Bool-cases (leb q.frame_num frame)) [
        | inl t ↦ (
          h,
          rw (converged, g, t),
          IsSplit-low h h (raise l h h q w (omega arith) g (leb→le _ _ t)) (omega arith),
        )
        | inr t ↦
            let n = not-low l h h q w g (lt_of_leb _ _ t) in
            (
              l,
              rw (converged, g, t),
              IsSplit-low l (h - 1)
                  (lower l h h q w (omega (arith, w.ordered)) (omega arith) g (lt_of_leb _ _ t))
                  (omega arith),
            )
      ]

  pub loop-Found :
      (fuel l h : ℕ)
      → Bracket l h
      → h - l < fuel
      → Found (position_loop fuel positions frame (pos l) (pos h))
  loop-Found zero l h w f = absurd (omega arith)
  loop-Found (suc fuel) l h w f =
      let m = l + (h - l) / 2 in
      let below : m ≤ h = omega (arith, w.ordered) in
      let (p, g) = get_elem?_total positions m (omega (arith, w.within)) in
      rw (loop-step fuel l h m (middle-pos l h w.ordered))
        (elim (Bool-cases (ltb frame p.frame_num)) [
          | inl t ↦
              let n = not-low l h m p w g (ltb→lt _ _ t) in
              let a : l < m = omega arith in
              rw
                (
                  round-left (position_loop fuel positions frame) l h m p (omega arith) below g t,
                  pred-pos m (omega arith),
                )
                (loop-Found fuel l (m - 1) (lower l h m p w a below g (ltb→lt _ _ t)) (omega arith))
          | inr t ↦ elim (Bool-cases (ltb l m)) [
            | inl a ↦
                rw
                  (round-right (position_loop fuel positions frame) l h m p (ltb→lt _ _ a) below g
                    t)
                  (loop-Found fuel m h (raise l h m p w below g (le_of_ltb _ _ t))
                    (omega (arith, ltb→lt _ _ a)))
            | inr a ↦
                let e : m ≡ l = omega (arith, le_of_ltb _ _ a) in
                rw (e, round-end (position_loop fuel positions frame) l h p w.ordered (rw e at g) t)
                  (converged-Found l h w (omega (arith, e)))
          ]
        ])

  module _
      (late : (j : ℕ) (p : PositionEntry)
        → get_elem? positions j ≡ some p
        → frame < p.frame_num) where
    -- The bounds have crossed: the loop goes on, and reads in front of the array.
    crossed-throws :
        (fuel : ℕ) → position_loop (suc fuel) positions frame (pos 0) (negsuc 0) ≡ type_error
    unfolding position_loop
    crossed-throws fuel = rw middle-crossed

    zero-throws :
        (fuel m : ℕ)
        → m ≡ 0
        → 0 < fuel
        → position_loop fuel positions frame (pos 0) (pos m -ℤ pos 1) ≡ type_error
    zero-throws zero m e h = absurd (omega arith)
    zero-throws (suc fuel) m e h = rw (pred-zero m e) (crossed-throws fuel)

    pub loop-throws :
        (fuel h : ℕ)
        → h < length positions
        → h + 1 < fuel
        → position_loop fuel positions frame (pos 0) (pos h) ≡ type_error
    loop-throws zero h w f = absurd (omega arith)
    loop-throws (suc fuel) h w f =
        let m = 0 + (h - 0) / 2 in
        let (p, g) = get_elem?_total positions m (omega arith) in
        rw
          (
            loop-step fuel 0 h m (middle-pos 0 h (omega arith)),
            round-left (position_loop fuel positions frame) 0 h m p (omega arith) (omega arith) g
                (lt→ltb _ _ (late m p g)),
          )
          (elim (Bool-cases (m == 0)) [
            | inl z ↦ zero-throws fuel m (==→eq _ _ z) (omega arith)
            | inr n ↦
                rw (pred-pos m (ground arith))
                  (loop-throws fuel (m - 1) (omega arith) (ground arith))
          ])
