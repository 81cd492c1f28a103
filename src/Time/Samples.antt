-- ===== src/Time/Samples.antt =====
-- The system time of ui/src/playback/time.ts at and after a sample.
use Prim.Native.String.{String}
use native.Mathlib.Nat.{le-div_iff_mul-le, div-le_of_le-mul}
use ocap2_web.Base.{
  ◌-◌, ◌*◌, ◌/◌, le→leb, ℕ, zero, suc, ◌+◌, ◌^◌, ◌≤◌, ◌<◌, ◌≡◌, refl, ap, ◌∙◌, Option, some, List,
  ◌∷◌, arith, length, get_elem?, get_elem?_total, Bool-cases, inl, inr, ltb, ltb→lt, leb, leb→le,
}
use ocap2_web.Base.Int.{ℤ, pos, sub_ℕ, ◌+ℤ◌, ◌-ℤ◌}
use ocap2_web.Search.{IsSplit, SortedBy, SortedBy-get_elem?}
use ocap2_web.Search.Correct.{search-IsSplit, last_of}
use ocap2_web.Time.{
  TimeSample, sample_frame, sample_ms, date_to_hhmmss, instant_at, time_from, time_at,
  format_system_time, advance, mul_ℤ, quotient, rate_between, rate_at, Rate,
}

-- The index that the search gives, from the number of the samples at or before the frame.
module _ (parse_date : String → Option ℤ) (frame : ℕ) (t : TimeSample) (ts : List TimeSample)
    (sorted : SortedBy sample_frame (t ∷ ts)) (small : length (t ∷ ts) ≤ 2 ^ 31) where
  format_system_time-at :
      (i : ℕ) (s : TimeSample)
      → get_elem? (t ∷ ts) i ≡ some s
      → s.frame_num ≤ frame
      → ((j : ℕ) (u : TimeSample) → i < j → get_elem? (t ∷ ts) j ≡ some u → frame < u.frame_num)
      → format_system_time parse_date frame (t ∷ ts)
        ≡ some (time_from parse_date frame (t ∷ ts) i s)
  unfolding format_system_time time_at
  format_system_time-at i s found before last =
      let (c, runs, split) = search-IsSplit sample_frame (t ∷ ts) frame sorted small (pos 0) in
      let place : c ≡ suc i = unique c (above c split) (below c split) in
      ap (time_at parse_date frame (t ∷ ts)) (runs ∙ ap (λ n. some (last_of (pos 0) n)) place)
      ∙ read_at
    where
      above : (c : ℕ) → IsSplit sample_frame (t ∷ ts) frame c → i < c
      above c split = elim (Bool-cases (ltb i c)) [
        | inl lt ↦ ltb→lt i c lt
        | inr ge ↦ absurd (omega (arith, before, split.after i s (ground arith) found))
      ]

      below : (c : ℕ) → IsSplit sample_frame (t ∷ ts) frame c → c ≤ suc i
      below c split = elim (Bool-cases (leb c (suc i))) [
        | inl le ↦ leb→le c (suc i) le
        | inr gt ↦
            let (u, at) = get_elem?_total (t ∷ ts) (suc i) (ground (arith, split.within)) in
            absurd (
              omega
                (arith, last (suc i) u (omega arith) at, split.before (suc i) u (ground arith) at))
      ]

      unique : (c : ℕ) → i < c → c ≤ suc i → c ≡ suc i
      unique c a b = omega arith

      read_at :
          time_at parse_date frame (t ∷ ts) (some (pos i))
          ≡ some (time_from parse_date frame (t ∷ ts) i s)
      read_at = rw (time_at, found) refl

  -- At a sample the system time is the sample's own. If the samples are sorted and at most 2 ^ 31, then at
  -- the frame of a sample that has no later sample at this frame or before it, the clock shows the
  -- sample's instant, whether it is valid or not.
  pub format_system_time-sample :
      (i : ℕ) (s : TimeSample)
      → get_elem? (t ∷ ts) i ≡ some s
      → s.frame_num ≡ frame
      → ((j : ℕ) (u : TimeSample) → i < j → get_elem? (t ∷ ts) j ≡ some u → frame < u.frame_num)
      → format_system_time parse_date frame (t ∷ ts)
        ≡ some (date_to_hhmmss (sample_ms parse_date s))
  unfolding time_from
  format_system_time-sample i s found at last =
      format_system_time-at i s found (omega (arith, at)) last
      ∙ ap some (rw (time_from, no_delta) refl)
    where
      no_delta : sub_ℕ frame s.frame_num ≡ pos 0
      no_delta = rw at (ground arith)

sub_ℕ-pos : (a b : ℕ) → b ≤ a → sub_ℕ a b ≡ pos (a - b)
sub_ℕ-pos a b h = rw (le→leb b a h) refl

diff-pos : (y x : ℕ) → x ≤ y → pos y -ℤ pos x ≡ pos (y - x)
unfolding ◌-ℤ◌
diff-pos y x h = ground arith

sum-pos : (a b : ℕ) → pos a +ℤ pos b ≡ pos (a + b)
unfolding ◌+ℤ◌
sum-pos a b = ground arith

advance-pos :
    (x d m f : ℕ)
    → 0 < f
    → advance (pos x) (pos d) (pos m, pos f) ≡ some (pos ((x * f + d * m) / f))
unfolding advance mul_ℤ quotient
advance-pos x d m zero h = absurd (omega arith)
advance-pos x d m (suc f) h = ap (λ n. quotient n (pos (suc f))) (sum-pos (x * suc f) (d * m))

-- The bounds of the interpolation.
interpolate-ge : (x d m f : ℕ) → 0 < f → x ≤ (x * f + d * m) / f
interpolate-ge x d m f h = (le-div_iff_mul-le h).1 (omega arith)

interpolate-le : (x d m f : ℕ) → 0 < f → d ≤ f → (x * f + d * m) / f ≤ x + m
interpolate-le x d m f h le = div-le_of_le-mul f (grind arith)

rate_between-some :
    (parse_date : String → Option ℤ) (a b : TimeSample) (x y : ℤ)
    → sample_ms parse_date a ≡ some x
    → sample_ms parse_date b ≡ some y
    → rate_between parse_date a b ≡ some (y -ℤ x, sub_ℕ b.frame_num a.frame_num)
rate_between-some parse_date a b x y p q = rw (rate_between, p, q) refl

instant_at-some :
    (parse_date : String → Option ℤ) (frame : ℕ) (a : TimeSample) (x : ℤ) (r : Rate)
    → sample_ms parse_date a ≡ some x
    → instant_at parse_date frame a (some r) ≡ advance x (sub_ℕ frame a.frame_num) r
unfolding instant_at
instant_at-some parse_date frame a x r p = rw (p, instant_at) refl

-- The interpolation at the rate between two samples.
instant_at-between :
    (parse_date : String → Option ℤ) (frame x y : ℕ) (a b : TimeSample)
    → sample_ms parse_date a ≡ some (pos x)
    → sample_ms parse_date b ≡ some (pos y)
    → x ≤ y
    → a.frame_num < frame
    → frame < b.frame_num
    → (z : ℕ) × (instant_at parse_date frame a (rate_between parse_date a b) ≡ some (pos z))
      × (x ≤ z)
      × (z ≤ y)
instant_at-between parse_date frame x y a b p q le lo hi =
    let m : ℕ = y - x in
    let d : ℕ = frame - a.frame_num in
    let f : ℕ = b.frame_num - a.frame_num in
    let delta = sub_ℕ-pos frame a.frame_num (omega arith) in
    let frames = sub_ℕ-pos b.frame_num a.frame_num (omega arith) in
    (
      (x * f + d * m) / f,
      ap (instant_at parse_date frame a) (rate_between-some parse_date a b (pos x) (pos y) p q)
          ∙ instant_at-some parse_date frame a (pos x)
              (pos y -ℤ pos x, sub_ℕ b.frame_num a.frame_num) p
          ∙ rw (delta, frames, diff-pos y x le) (advance-pos x d m f (omega arith)),
      interpolate-ge x d m f (omega arith),
      omega (arith, interpolate-le x d m f (omega arith) (omega arith)),
    )

-- The clock between two neighbouring samples shows an instant between theirs. If the samples are sorted
-- and at most 2 ^ 31, then at a frame strictly between those of a sample and of the next one, whose
-- instants are both valid, not before 1970 and in order, the clock shows the time of day of a valid
-- instant that is not before the first one and not behind the second one.
pub format_system_time-between :
    (parse_date : String → Option ℤ) (frame i x y : ℕ) (t : TimeSample) (ts : List TimeSample)
    (a b : TimeSample)
    → SortedBy sample_frame (t ∷ ts)
    → length (t ∷ ts) ≤ 2 ^ 31
    → get_elem? (t ∷ ts) i ≡ some a
    → get_elem? (t ∷ ts) (i + 1) ≡ some b
    → a.frame_num < frame
    → frame < b.frame_num
    → sample_ms parse_date a ≡ some (pos x)
    → sample_ms parse_date b ≡ some (pos y)
    → x ≤ y
    → (z : ℕ) × (format_system_time parse_date frame (t ∷ ts)
        ≡ some (date_to_hhmmss (some (pos z))))
      × (x ≤ z)
      × (z ≤ y)
unfolding time_from rate_at
format_system_time-between parse_date frame i x y t ts a b sorted small at_a at_b lo hi p q le =
    let (z, shown, ge, le') = instant_at-between parse_date frame x y a b p q le lo hi in
    (
      z,
      format_system_time-at parse_date frame t ts sorted small i a at_a (omega arith) later
          ∙ ap some (rw (time_from, delta, rate_at, at_b) (ap date_to_hhmmss shown)),
      ge,
      le',
    )
  where
    later : (j : ℕ) (u : TimeSample) → i < j → get_elem? (t ∷ ts) j ≡ some u → frame < u.frame_num
    later j u lt at_u = omega (
      arith,
      SortedBy-get_elem? sample_frame (t ∷ ts) (i + 1) j b u sorted (omega arith) at_b at_u,
    )

    delta : sub_ℕ frame a.frame_num ≡ pos (suc (frame - a.frame_num - 1))
    delta = sub_ℕ-pos frame a.frame_num (omega arith) ∙ ap pos (omega arith)
