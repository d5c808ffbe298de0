-- ===== src/Math/Align.antt =====
-- What the rounding functions and the ranges of kernel/interfaces/lib/math.cppm compute.
use ilobilix.Base.{ℕ, zero, suc, ◌+◌, ◌-◌, ◌*◌, ◌/◌, ◌%◌, ◌<◌, ◌≤◌, ◌^◌, ◌≡◌, ◌↔◌, arith}
use ilobilix.Base.{bit_and, ap, ap₂, not64, sub64, add64, ◌∙◌, sym}
use ilobilix.Base.Bits.{bit_and_high, pow_split}
use Prim.Native.Nat.mul
use native.Mathlib.Nat.{
  one-le-pow, mod-lt, div-add-mod', div-lt_iff_lt-mul, mul-div_cancel, mul-mod_left,
  mul-le-mul_right,
}
use ilobilix.Math.{align_down, align_up, div_roundup, range_overlaps, range_intersection}

-- The word splits into two factors, one for the bits below `k` and one for those above.
word_split : (k j : ℕ) → k + j ≡ 64 → 2 ^ j * 2 ^ k ≡ 2 ^ 64
word_split k j e = pow_split k j ∙ ap (λ (t : ℕ). 2 ^ t) e

mask_of_split : (a b : ℕ) → 0 < b → a * b ≡ 2 ^ 64 → not64 (sub64 b 1) ≡ (a - 1) * b
mask_of_split zero b hb h = absurd (omega arith)
mask_of_split (suc a) b hb h = grind (arith, mul.suc a b)

-- The mask `~(a - 1)` of a power of two has the bits from `k` up.
mask_high : (k j : ℕ) → k + j ≡ 64 → not64 (sub64 (2 ^ k) 1) ≡ (2 ^ j - 1) * 2 ^ k
mask_high k j e = mask_of_split (2 ^ j) (2 ^ k) (one-le-pow k 2 (omega arith)) (word_split k j e)

-- For every power of two below the word size, rounding down drops the remainder.
pub align_down_lem :
    (k j n : ℕ) → k + j ≡ 64 → n < 2 ^ 64 → align_down n (2 ^ k) ≡ n / 2 ^ k * 2 ^ k
unfolding align_down
align_down_lem k j n e h =
    ap₂ bit_and (sym (div-add-mod' n (2 ^ k))) (mask_high k j e)
    ∙ bit_and_high k j (n / 2 ^ k) (n % 2 ^ k)
        ((div-lt_iff_lt-mul (one-le-pow k 2 (omega arith))).1 (rw (word_split k j e) h))
        (mod-lt n (one-le-pow k 2 (omega arith)))

module _ (k j n : ℕ) (e : k + j ≡ 64) (fits : n + 2 ^ k ≤ 2 ^ 64) where
  positive : 0 < 2 ^ k
  positive = one-le-pow k 2 (omega arith)

  no_wrap : sub64 (add64 n (2 ^ k)) 1 ≡ n + (2 ^ k - 1)
  no_wrap = omega (arith, positive)

  in_range : n + (2 ^ k - 1) < 2 ^ 64
  in_range = omega (arith, positive)

  -- Rounding up to a power of two, wherever the padded word does not overflow.
  pub align_up_lem : align_up n (2 ^ k) ≡ (n + (2 ^ k - 1)) / 2 ^ k * 2 ^ k
  unfolding align_up
  align_up_lem = rw no_wrap (align_down_lem k j (n + (2 ^ k - 1)) e in_range)

  pub div_roundup_lem : div_roundup n (2 ^ k) ≡ (n + (2 ^ k - 1)) / 2 ^ k
  unfolding div_roundup
  div_roundup_lem =
      rw (no_wrap, align_down_lem k j (n + (2 ^ k - 1)) e in_range)
        (mul-div_cancel ((n + (2 ^ k - 1)) / 2 ^ k) positive)

  quotient_bound : (m : ℕ) → n ≤ m * 2 ^ k → (n + (2 ^ k - 1)) / 2 ^ k ≤ m
  quotient_bound m h =
      let below : n + (2 ^ k - 1) < suc m * 2 ^ k = omega (arith, mul.suc m (2 ^ k), positive) in
      omega (arith, (div-lt_iff_lt-mul positive).1 below)

  -- For a power of two, wherever the padded word does not overflow, `align_up` returns the least
  -- multiple of the alignment that is not below its argument.
  pub align_up_least :
      (n ≤ align_up n (2 ^ k))
      × (align_up n (2 ^ k) % 2 ^ k ≡ 0)
      × ((m : ℕ) → n ≤ m * 2 ^ k → align_up n (2 ^ k) ≤ m * 2 ^ k)
  align_up_least = (
    rw align_up_lem
        (omega (arith, div-add-mod' (n + (2 ^ k - 1)) (2 ^ k), mod-lt (n + (2 ^ k - 1)) positive)),
    rw align_up_lem (mul-mod_left ((n + (2 ^ k - 1)) / 2 ^ k) (2 ^ k)),
    λ m h. rw align_up_lem (mul-le-mul_right (2 ^ k) (quotient_bound m h)),
  )

-- A point lies in the result of `range_intersection` exactly when it lies in both ranges.
pub range_intersection_iff :
    (a b c d x : ℕ)
    → ((range_intersection a b c d).0 ≤ x) × (x < (range_intersection a b c d).1)
      ↔ (a ≤ x) × (x < b) × ((c ≤ x) × (x < d))
unfolding range_intersection range_overlaps
range_intersection_iff a b c d x = ground arith
