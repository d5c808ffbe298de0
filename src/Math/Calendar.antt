-- ===== src/Math/Calendar.antt =====
-- kernel/interfaces/lib/math.cppm: `freqfrac`, a frequency as a fraction for conversions between ticks
-- and nanoseconds, and dates and times of the day from seconds. The shift of `init` is on 64 bits.
use ilobilix.Base.{
  ℕ, ◌+◌, ◌-◌, ◌*◌, ◌/◌, ◌%◌, ◌^◌, ◌==◌, ◌≡◌, ◌<◌, if◌then◌else◌, ltb, leb, u64, u16, u8, add64,
  sub64, mul64, arith, refl,
}
use ilobilix.Math.{log2}

pub record Freqfrac : Type 0 where
  pub p : ℕ
  pub n : ℕ
  pub freq : ℕ

unfoldable pub init : ℕ → Freqfrac
init freq = record { p = log2 freq; n = u64 (1000000000 * 2 ^ log2 freq) / freq; freq = freq }

-- The product has 128 bits, and a result of more than 64 becomes the largest word.
unfoldable pub nanos : Freqfrac → ℕ → ℕ
nanos f ticks =
    let res = (ticks * f.n) % 2 ^ 128 / 2 ^ f.p in if res / 2 ^ 64 == 0 then res else 2 ^ 64 - 1

unfoldable pub ticks : Freqfrac → ℕ → ℕ
ticks f nanos = u64 (nanos * 2 ^ f.p) / f.n

-- The years are a word with a sign; the only negative one that a date leads to is -1.
abbrev era_of : ℕ → ℕ
era_of years = if ltb years (2 ^ 63) then years / 400 else 2 ^ 64 - 1

unfoldable pub days_from_civil : ℕ → ℕ → ℕ → ℕ
days_from_civil years months days =
    let y = sub64 years (if leb months 2 then 1 else 0) in
    let era = era_of y in
    let yoe = sub64 y (mul64 era 400) in
    let mp = if ltb 2 months then months - 3 else months + 9 in
    let doy = sub64 ((153 * mp + 2) / 5 + days) 1 in
    let doe = u64 (yoe * 365 + yoe / 4 - yoe / 100 + doy) in
    sub64 (add64 (mul64 era 146097) doe) 719468

unfoldable pub timestamp : ℕ → ℕ → ℕ → ℕ → ℕ → ℕ → ℕ
unfolding days_from_civil
timestamp years months days hours minutes seconds =
    u64 (days_from_civil years months days * 86400 + hours * 3600 + minutes * 60 + seconds)

unfoldable pub date_from : ℕ → ℕ × ℕ × ℕ
date_from unix =
    let day_number = unix / 86400 + 719468 in
    let era = day_number / 146097 in
    let doe = day_number - era * 146097 in
    let yoe = (doe - doe / 1460 + doe / 36524 - doe / 146096) / 365 in
    let year = u16 (yoe + era * 400) in
    let doy = sub64 doe (365 * yoe + yoe / 4 - yoe / 100) in
    let mp = (5 * doy + 2) / 153 in
    let day = u8 (doy - (153 * mp + 2) / 5 + 1) in
    let month = u8 (if ltb mp 10 then mp + 3 else mp - 9) in
    (u16 (year + (if leb month 2 then 1 else 0)), month, day)

unfoldable pub time_from : ℕ → ℕ × ℕ × ℕ
time_from unix = let t = unix % 86400 in (t / 3600, t / 60 % 60, t % 60)

-- From a number of days below 10 ^ 12 and a time of the day, time_from gets the time back.
pub time_from-timestamp :
    (days hours minutes seconds : ℕ)
    → hours < 24
    → minutes < 60
    → seconds < 60
    → days < 10 ^ 12
    → time_from (u64 (days * 86400 + hours * 3600 + minutes * 60 + seconds))
      ≡ (hours, minutes, seconds)
unfolding time_from
time_from-timestamp days hours minutes seconds h m s d =
    let rest = hours * 3600 + minutes * 60 + seconds in
    let whole : (days * 86400 + hours * 3600 + minutes * 60 + seconds) % 2 ^ 64 % 86400 ≡ rest =
      omega arith in
    let by_hour : rest / 3600 ≡ hours = omega arith in
    let by_minute : rest / 60 % 60 ≡ minutes = omega arith in
    let by_second : rest % 60 ≡ seconds = omega arith in
    rw (whole, by_hour, by_minute, by_second) refl
