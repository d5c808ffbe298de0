-- ===== src/Math.antt =====
-- kernel/interfaces/lib/math.cppm: alignment, page rounding, ranges and powers of two on 64-bit words.
pub mod Align
pub mod Calendar
pub mod Tests
use ilobilix.Base.{
  zero, suc, ◌==◌, bit_or, ℕ, ◌+◌, ◌-◌, ◌*◌, ◌/◌, ◌<◌, ◌^◌, Bool, ◌&&◌, ltb, leb, if◌then◌else◌,
}
use ilobilix.Base.{add64, sub64, not64, u64, bit_and, min, max}

-- `n & ~(a - 1)` on std::uint64_t
unfoldable pub align_down : ℕ → ℕ → ℕ
align_down n a = bit_and n (not64 (sub64 a 1))

-- `n + a - 1` wraps before the mask is applied.
unfoldable pub align_up : ℕ → ℕ → ℕ
align_up n a = align_down (sub64 (add64 n a) 1) a

unfoldable pub div_roundup : ℕ → ℕ → ℕ
div_roundup n a = align_down (sub64 (add64 n a) 1) a / a

unfoldable pub div_rounddown : ℕ → ℕ → ℕ
div_rounddown n a = align_down n a / a

unfoldable pub range_overlaps : ℕ → ℕ → ℕ → ℕ → Bool
range_overlaps start1 end1 start2 end2 = ltb start1 end2 && ltb start2 end1

unfoldable pub range_intersection : ℕ → ℕ → ℕ → ℕ → ℕ × ℕ
unfolding range_overlaps
range_intersection start1 end1 start2 end2 =
    if range_overlaps start1 end1 start2 end2 then (max start1 start2, min end1 end2) else (0, 0)

-- `std::bit_width`, on fuel
unfoldable pub bit_width : ℕ → ℕ → ℕ
bit_width zero val = 0
bit_width (suc fuel) val = if val == 0 then 0 else suc (bit_width fuel (val / 2))

unfoldable pub log2 : ℕ → ℕ
unfolding bit_width
log2 val = bit_width 64 val - 1

-- `val |= val >> shift`
abbrev smear : ℕ → ℕ → ℕ
smear shift val = bit_or val (val / 2 ^ shift)

unfoldable pub next_pow2 : ℕ → ℕ
next_pow2 val = add64 (smear 32 (smear 16 (smear 8 (smear 4 (smear 2 (smear 1 (sub64 val 1))))))) 1

unfoldable pub pre_pow2 : ℕ → ℕ
unfolding next_pow2
pre_pow2 val = if next_pow2 val == val then next_pow2 val else next_pow2 val / 2
