-- ===== src/Time/Clock.antt =====
-- What the formats of ui/src/playback/time.ts show can be read back.
use ocap2_web.Base.{
  ℕ, zero, suc, ◌+◌, ◌-◌, ◌*◌, ◌/◌, ◌%◌, ◌<◌, ◌≡◌, refl, ap, ◌∙◌, [], ◌∷◌, arith, ltb, ltb→lt, ◌==◌,
  ==-eq-false, Bool-cases, inl, inr, if◌then◌else◌,
}
use ocap2_web.Time.{
  Text, colon, decimal_onto, decimal, pad2, hhmmss, ms_to_hhmmss, format_elapsed_time,
}

-- Reads a clock, from the left: the number at hand, and the sexagesimal value of the fields before it.
abbrev pub read_from : ℕ → ℕ → Text → ℕ
read_from field total [] = total * 60 + field
read_from field total (c ∷ cs) =
    let next = read_from 0 (total * 60 + field) cs in
    let more = read_from (field * 10 + (c - b'0')) total cs in if c == colon then next else more

-- The seconds of a clock `H:MM:SS`.
abbrev pub read_clock : Text → ℕ
read_clock cs = read_from 0 0 cs

read_from-digit :
    (field total d : ℕ) (cs : Text)
    → d < 10
    → read_from field total ((b'0' + d) ∷ cs) ≡ read_from (field * 10 + d) total cs
read_from-digit field total d cs h =
    ap
      (λ b.
        if b
        then read_from 0 (total * 60 + field) cs
        else read_from (field * 10 + (b'0' + d - b'0')) total cs)
      (==-eq-false (b'0' + d) colon (λ e. omega arith))
    ∙ ap (λ n. read_from n total cs) (omega arith)

read_from-first :
    (total d : ℕ) (cs : Text) → d < 10 → read_from 0 total ((b'0' + d) ∷ cs) ≡ read_from d total cs
read_from-first total d cs h =
    read_from-digit 0 total d cs h ∙ ap (λ n. read_from n total cs) (omega arith)

read_from-colon :
    (field total : ℕ) (cs : Text)
    → read_from field total (colon ∷ cs) ≡ read_from 0 (total * 60 + field) cs
read_from-colon field total cs = refl

-- The digits of a number are read as the number.
read_from-decimal_onto :
    (fuel n total : ℕ) (out : Text)
    → n < fuel
    → read_from 0 total (decimal_onto fuel n out) ≡ read_from n total out
unfolding decimal_onto
read_from-decimal_onto zero n total out h = absurd (omega arith)
read_from-decimal_onto (suc fuel) n total out h = elim (Bool-cases (ltb n 10)) [
  | inl small ↦ rw small (read_from-first total n out (ltb→lt n 10 small))
  | inr large ↦ rw large (
      read_from-decimal_onto fuel (n / 10) total ((b'0' + n % 10) ∷ out) (ground arith)
      ∙ read_from-digit (n / 10) total (n % 10) out (omega arith)
      ∙ ap (λ m. read_from m total out) (omega arith))
]

read_from-decimal :
    (n total : ℕ) (out : Text) → read_from 0 total (decimal n out) ≡ read_from n total out
unfolding decimal
read_from-decimal n total out = read_from-decimal_onto (suc n) n total out (omega arith)

read_from-pad2 : (n total : ℕ) (out : Text) → read_from 0 total (pad2 n out) ≡ read_from n total out
unfolding pad2
read_from-pad2 n total out = elim (Bool-cases (ltb n 10)) [
  | inl small ↦
      rw small
        (read_from-first total 0 (decimal n out) (omega arith) ∙ read_from-decimal n total out)
  | inr large ↦ rw large (read_from-decimal n total out)
]

pub read_clock-hhmmss :
    (hours minutes seconds : ℕ)
    → read_clock (hhmmss hours minutes seconds) ≡ (hours * 60 + minutes) * 60 + seconds
unfolding hhmmss
read_clock-hhmmss hours minutes seconds =
    read_from-decimal hours 0 (colon ∷ pad2 minutes (colon ∷ pad2 seconds []))
    ∙ ap (λ n. read_from 0 n (pad2 minutes (colon ∷ pad2 seconds []))) (omega arith)
    ∙ read_from-pad2 minutes hours (colon ∷ pad2 seconds [])
    ∙ read_from-pad2 seconds (hours * 60 + minutes) []

-- The elapsed time can be read back: the hours, minutes and seconds that are shown at a frame are together
-- exactly the whole seconds of the frames up to it, without an upper limit.
pub read_clock-format_elapsed_time :
    (frame capture_delay_ms : ℕ)
    → read_clock (format_elapsed_time frame capture_delay_ms) ≡ frame * capture_delay_ms / 1000
unfolding format_elapsed_time ms_to_hhmmss
read_clock-format_elapsed_time frame capture_delay_ms =
    let s : ℕ = frame * capture_delay_ms / 1000 in
    read_clock-hhmmss (s / 60 / 60) (s / 60 % 60) (s % 60) ∙ rejoin s
  where
    rejoin : (s : ℕ) → (s / 60 / 60 * 60 + s / 60 % 60) * 60 + s % 60 ≡ s
    rejoin s = omega arith
