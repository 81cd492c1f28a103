-- ===== src/Time/Tests.antt =====
-- Concrete runs of the formats of ui/src/playback/time.ts.
use Prim.Native.String.{String}
use text.Mathlib.Text.{◌==◌ as str_eq}
use ocap2_web.Base.{
  ℕ, ◌≤◌, ◌<◌, ◌≡◌, refl, Option, some, [], ◌∷◌, arith, suc, zero, if◌then◌else◌, get_elem?,
}
use ocap2_web.Base.Int.{ℤ, pos, ◌+ℤ◌}
use ocap2_web.Time.{
  TimeSample, date_to_hhmmss, hhmmss, pad2, decimal, clock_of, sample_ms, format_elapsed_time,
  ms_to_hhmmss, format_mission_time, format_system_time,
}
use ocap2_web.Time.Clock.{read_clock, read_clock-format_elapsed_time}
use ocap2_web.Time.Samples.{format_system_time-sample, format_system_time-between}

read_clock-format_elapsed_time_example : read_clock (format_elapsed_time 3661 1000) ≡ 3661
read_clock-format_elapsed_time_example = read_clock-format_elapsed_time 3661 1000

shown : format_elapsed_time 3661 1000 ≡ b'1' ∷ b':' ∷ b'0' ∷ b'1' ∷ b':' ∷ b'0' ∷ b'1' ∷ []
unfolding format_elapsed_time ms_to_hhmmss hhmmss pad2 decimal
shown = refl

-- Half past five in the morning, shown without a leading zero.
abbrev half_past_five : String → Option ℤ
half_past_five s = some (pos 19800000)

unpadded :
    format_mission_time half_past_five 0 "2035-06-10T05:30:00" 1 1000
    ≡ b'5' ∷ b':' ∷ b'3' ∷ b'0' ∷ b':' ∷ b'0' ∷ b'0' ∷ []
unfolding format_mission_time date_to_hhmmss clock_of hhmmss pad2 decimal ◌+ℤ◌
unpadded = refl

abbrev parse_test : String → Option ℤ
parse_test s = if str_eq s "10Z" then some (pos 10000) else some (pos 40000)

abbrev sample_10 : TimeSample
sample_10 = record { frame_num = 10; system_time_utc = "10" }

abbrev sample_20 : TimeSample
sample_20 = record { frame_num = 20; system_time_utc = "20" }

no_later :
    (j : ℕ) (u : TimeSample)
    → 1 < j
    → get_elem? (sample_10 ∷ sample_20 ∷ []) j ≡ some u
    → 20 < u.frame_num
no_later zero u lt q = absurd (omega arith)
no_later (suc zero) u lt q = absurd (omega arith)
no_later (suc (suc j)) u lt q = cc q

format_system_time-sample_example :
    format_system_time parse_test 20 (sample_10 ∷ sample_20 ∷ [])
    ≡ some (date_to_hhmmss (sample_ms parse_test sample_20))
format_system_time-sample_example =
    format_system_time-sample parse_test 20 sample_10 (sample_20 ∷ []) ((omega arith, tt), (tt, tt))
      (omega arith) 1 sample_20 refl refl no_later

format_system_time-between_example :
    (z : ℕ) × (format_system_time parse_test 13 (sample_10 ∷ sample_20 ∷ [])
      ≡ some (date_to_hhmmss (some (pos z))))
    × (10000 ≤ z)
    × (z ≤ 40000)
format_system_time-between_example =
    format_system_time-between parse_test 13 0 10000 40000 sample_10 (sample_20 ∷ []) sample_10
      sample_20 ((omega arith, tt), (tt, tt)) (omega arith) refl refl (omega arith) (omega arith)
      refl refl (omega arith)
