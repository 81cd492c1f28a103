-- ===== src/Time.antt =====
-- ui/src/playback/time.ts: the formats of the clock. A text is the list of its character codes. An
-- instant is a whole number of milliseconds, none where the Date is invalid; the parse of a date is the
-- runtime's and a parameter. The products and quotients of doubles are taken exactly.
pub mod Clock
pub mod Samples
mod Tests
use Prim.Native.String
use Prim.Native.String.{String}
use ocap2_web.Base.{
  ℕ, zero, suc, ◌+◌, ◌-◌, ◌*◌, ◌/◌, ◌%◌, Bool, true, false, Option, none, some, List, [], ◌∷◌, ◌++◌,
  ltb, length, get_elem?, if◌then◌else◌,
}
use ocap2_web.Base.Int.{ℤ, pos, negsuc, sub_ℕ, ◌+ℤ◌, ◌-ℤ◌}
use ocap2_web.Search.{search}

abbrev pub Text : Type 0
Text = List ℕ

abbrev pub colon : ℕ
colon = b':'

-- `String(n)`: a number below ten is one digit; otherwise the last digit is put behind the others. The
-- fuel bounds the number of digits.
unfoldable pub decimal_onto : ℕ → ℕ → Text → Text
decimal_onto zero n out = out
decimal_onto (suc fuel) n out =
    let rest = decimal_onto fuel (n / 10) ((b'0' + n % 10) ∷ out) in
    if ltb n 10 then (b'0' + n) ∷ out else rest

unfoldable pub decimal : ℕ → Text → Text
unfolding decimal_onto
decimal n out = decimal_onto (suc n) n out

-- `pad2(n)`, in front of a text.
unfoldable pub pad2 : ℕ → Text → Text
pad2 n out = if ltb n 10 then b'0' ∷ decimal n out else decimal n out

-- `hours + ":" + pad2(minutes) + ":" + pad2(seconds)`.
unfoldable pub hhmmss : ℕ → ℕ → ℕ → Text
hhmmss hours minutes seconds = decimal hours (colon ∷ pad2 minutes (colon ∷ pad2 seconds []))

unfoldable pub ms_to_hhmmss : ℕ → Text
ms_to_hhmmss ms =
    let total_seconds = ms / 1000 in
    let total_minutes = total_seconds / 60 in
    hhmmss (total_minutes / 60) (total_minutes % 60) (total_seconds % 60)

-- The milliseconds since midnight, as the UTC components of a Date give them.
abbrev pub ms_of_day : ℕ
ms_of_day = 24 * 60 * 60 * 1000

unfoldable pub clock_of : ℤ → ℕ
clock_of (pos n) = n % ms_of_day
clock_of (negsuc n) = ms_of_day - 1 - n % ms_of_day

abbrev pub invalid_clock : Text
invalid_clock = b'N' ∷ b'a' ∷ b'N' ∷ colon ∷ b'N' ∷ b'a' ∷ b'N' ∷ colon ∷ b'N' ∷ b'a' ∷ b'N' ∷ []

unfoldable pub date_to_hhmmss : Option ℤ → Text
date_to_hhmmss none = invalid_clock
date_to_hhmmss (some ms) =
    let seconds = clock_of ms / 1000 in hhmmss (seconds / 3600) (seconds / 60 % 60) (seconds % 60)

unfoldable pub format_elapsed_time : ℕ → ℕ → Text
format_elapsed_time frame capture_delay_ms = ms_to_hhmmss (frame * capture_delay_ms)

abbrev pub shift : ℤ → Option ℤ → Option ℤ
shift ms none = none
shift ms (some base) = some (base +ℤ ms)

-- The multiplier is a whole number.
unfoldable pub format_mission_time : (String → Option ℤ) → ℕ → String → ℕ → ℕ → Text
unfolding date_to_hhmmss
format_mission_time parse_date frame mission_date multiplier capture_delay_ms =
    date_to_hhmmss (shift (pos (frame * capture_delay_ms * multiplier)) (parse_date mission_date))

pub record TimeSample : Type 0 where
  pub frame_num : ℕ
  pub system_time_utc : String

abbrev pub sample_frame : TimeSample → ℕ
sample_frame s = s.frame_num

unfoldable pub mul_ℤ : ℤ → ℤ → ℤ
mul_ℤ (pos a) (pos b) = pos (a * b)
mul_ℤ (pos a) (negsuc b) = sub_ℕ 0 (a * (b + 1))
mul_ℤ (negsuc a) (pos b) = sub_ℕ 0 ((a + 1) * b)
mul_ℤ (negsuc a) (negsuc b) = pos ((a + 1) * (b + 1))

-- The quotient rounded towards 0, as an instant; division by 0 gives no finite number.
unfoldable pub quotient : ℤ → ℤ → Option ℤ
quotient (pos a) (pos zero) = none
quotient (negsuc a) (pos zero) = none
quotient (pos a) (pos (suc b)) = some (pos (a / suc b))
quotient (negsuc a) (pos (suc b)) = some (sub_ℕ 0 (suc a / suc b))
quotient (pos a) (negsuc b) = some (sub_ℕ 0 (a / suc b))
quotient (negsuc a) (negsuc b) = some (pos (suc a / suc b))

-- The rate of milliseconds per frame: a difference of instants and one of frames.
abbrev pub Rate : Type 0
Rate = ℤ × ℤ

-- `baseMs + frameDelta * msPerFrame`.
unfoldable pub advance : ℤ → ℤ → Rate → Option ℤ
unfolding mul_ℤ quotient
advance base delta (ms, frames) = quotient (mul_ℤ base frames +ℤ mul_ℤ delta ms) frames

module _ (parse_date : String → Option ℤ) where
  -- `new Date(sample.systemTimeUtc + "Z").getTime()`.
  abbrev pub sample_ms : TimeSample → Option ℤ
  sample_ms s = parse_date (String.◌++◌ s.system_time_utc "Z")

  -- The rate between two samples, `none` where one of the instants is invalid.
  abbrev pub rate_between : TimeSample → TimeSample → Option Rate
  rate_between a b = elim (sample_ms a) [
    | none ↦ none
    | some x ↦ elim (sample_ms b) [
      | none ↦ none
      | some y ↦ some (y -ℤ x, sub_ℕ b.frame_num a.frame_num)
    ]
  ]

  abbrev pub rate_before : List TimeSample → ℕ → TimeSample → Option Rate
  rate_before times zero entry = some (pos 1000, pos 1)
  rate_before times (suc i) entry = elim (get_elem? times i) [
    | none ↦ none
    | some prev ↦ rate_between prev entry
  ]

  unfoldable pub rate_at : List TimeSample → ℕ → TimeSample → Option Rate
  rate_at times idx entry = elim (get_elem? times (idx + 1)) [
    | some next ↦ rate_between entry next
    | none ↦ rate_before times idx entry
  ]

  unfoldable pub instant_at : ℕ → TimeSample → Option Rate → Option ℤ
  unfolding advance
  instant_at frame entry none = none
  instant_at frame entry (some rate) = elim (sample_ms entry) [
    | none ↦ none
    | some base ↦ advance base (sub_ℕ frame entry.frame_num) rate
  ]

  unfoldable pub time_from : ℕ → List TimeSample → ℕ → TimeSample → Text
  time_from frame times idx entry = elim (sub_ℕ frame entry.frame_num) [
    | pos zero ↦ date_to_hhmmss (sample_ms entry)
    | _ ↦ date_to_hhmmss (instant_at frame entry (rate_at times idx entry))
  ]

  -- The search's result is read at its index; `none` is a read outside of the array.
  unfoldable pub time_at : ℕ → List TimeSample → Option ℤ → Option Text
  time_at frame times none = none
  time_at frame times (some (negsuc i)) = none
  time_at frame times (some (pos i)) = elim (get_elem? times i) [
    | none ↦ none
    | some entry ↦ some (time_from frame times i entry)
  ]

  abbrev pub zero_clock : Text
  zero_clock = b'0' ∷ colon ∷ b'0' ∷ b'0' ∷ colon ∷ b'0' ∷ b'0' ∷ []

  unfoldable pub format_system_time : ℕ → List TimeSample → Option Text
  format_system_time frame [] = some zero_clock
  format_system_time frame (t ∷ ts) = time_at frame (t ∷ ts) (
      search sample_frame (t ∷ ts) frame (suc (length (t ∷ ts))) 0 (sub_ℕ (length (t ∷ ts)) 1)
        (pos 0))

pub data TimeMode : Type 0 where
  elapsed mission system : TimeMode

pub record TimeConfig : Type 0 where
  pub capture_delay_ms : ℕ
  pub mission_date : Option String
  pub mission_time_multiplier : Option ℕ
  pub times : Option (List TimeSample)

-- `value ?? default`.
abbrev pub or_default {ℓ} : {A : Type ℓ} → Option A → A → A
or_default none d = d
or_default (some a) d = a

unfoldable pub format_time : (String → Option ℤ) → ℕ → TimeMode → TimeConfig → Option Text
unfolding format_elapsed_time format_mission_time format_system_time
format_time parse_date frame elapsed config =
    some (format_elapsed_time frame config.capture_delay_ms)
format_time parse_date frame mission config = some (
    format_mission_time parse_date frame (or_default config.mission_date "")
      (or_default config.mission_time_multiplier 1) config.capture_delay_ms)
format_time parse_date frame system config =
    format_system_time parse_date frame (or_default config.times [])
