-- ===== src/Math/Tests.antt =====
-- The theorems on kernel/interfaces/lib/math.cppm at concrete words.
use ilobilix.Base.{◌^◌, ◌≡◌, refl, arith}
use ilobilix.Math.Calendar.{init, nanos, timestamp, date_from, time_from}
use ilobilix.Math.{log2, align_down, align_up, div_roundup}
use ilobilix.Math.Align.{align_down_lem, div_roundup_lem}

align_down_lem_example : align_down 0x12345 (2 ^ 12) ≡ 0x12000
align_down_lem_example = align_down_lem 12 52 0x12345 refl (omega arith)

div_roundup_lem_example : div_roundup 4097 (2 ^ 12) ≡ 2
div_roundup_lem_example = div_roundup_lem 12 52 4097 refl (omega arith)

-- The padding wraps at the top of the address space.
align_up_wraps : align_up 0xffff_ffff_ffff_f001 0x1000 ≡ 0
unfolding align_up align_down
align_up_wraps = refl

epoch_test : (timestamp 1970 1 1 0 0 0 ≡ 0) × (timestamp 2024 2 29 12 30 15 ≡ 1709209815)
unfolding timestamp
epoch_test = (refl, refl)

leap_day_test : (date_from 1709209815 ≡ (2024, 2, 29)) × (time_from 1709209815 ≡ (12, 30, 15))
unfolding date_from time_from
leap_day_test = (refl, refl)

freqfrac_test : nanos (init 1000000) 5 ≡ 5000
unfolding nanos init log2
freqfrac_test = refl
