-- ===== src/Base/Bits.antt =====
-- `&` of native numbers, digit by digit, and with a mask of low or of high bits.
use Prim.Native.Nat.{digits, bit_and-bitwise, bit_and}
use Prim.Native.Nat.{ℕ, zero, suc, ◌+◌, ◌-◌, ◌*◌, ◌/◌, ◌%◌, ◌^◌, ◌≤◌, ◌<◌, min}
use Prim.Native.Nat.add
use mathlib.Core.Path.{◌≡◌, refl, sym, ap, ◌∙◌}
use native.Mathlib.Nat.{pow-suc, one-le-pow, mod-eq_of_lt}
use native.Mathlib.Omega.{arith}

-- `n` digits of `a & b`, the lowest last
abbrev conj : ℕ → ℕ → ℕ → ℕ
conj n a b = digits (λ _. 0) min n a b

-- A round for which no digit is left does nothing.
conj-idle : (n a b : ℕ) → a ≤ n → conj (suc n) a b ≡ conj n a b
conj-idle zero zero b h = refl
conj-idle (suc n) zero b h = refl
conj-idle zero (suc a) b h = absurd (omega arith)
conj-idle (suc n) (suc a) b h =
    ap (λ (t : ℕ). t * 2 + min (suc a % 2) (b % 2)) (conj-idle n (suc a / 2) (b / 2) (omega arith))

conj-more : (k a b : ℕ) → conj (a + k) a b ≡ conj a a b
conj-more zero a b = ap (λ (t : ℕ). conj t a b) (omega arith)
conj-more (suc k) a b =
    ap (λ (t : ℕ). conj t a b) {x = a + suc k} {y = suc (a + k)} (omega arith)
    ∙ conj-idle (a + k) a b (omega arith)
    ∙ conj-more k a b

-- The lowest digit of the result comes from the two lowest digits alone.
pub bit_and_halves : (x y : ℕ) → bit_and x y ≡ min (x % 2) (y % 2) + 2 * bit_and (x / 2) (y / 2)
bit_and_halves zero y = omega (arith, bit_and-bitwise 0 y, bit_and-bitwise 0 (y / 2))
bit_and_halves (suc x) y =
    let half = suc x / 2 in
    let enough : conj x half (y / 2) ≡ conj half half (y / 2) =
      ap (λ (t : ℕ). conj t half (y / 2)) {x = x} {y = half + (x - half)} (omega arith)
      ∙ conj-more (x - half) half (y / 2) in
    omega (arith, bit_and-bitwise (suc x) y, enough ∙ sym (bit_and-bitwise half (y / 2)))

conj-zero : (n a : ℕ) → conj n a 0 ≡ 0
conj-zero zero a = refl
conj-zero (suc n) zero = refl
conj-zero (suc n) (suc a) = omega (arith, conj-zero n (suc a / 2))

pub bit_and-zero : (a : ℕ) → bit_and a 0 ≡ 0
bit_and-zero a = bit_and-bitwise a 0 ∙ conj-zero a a

double-pow : (q k : ℕ) → q * 2 ^ suc k ≡ 2 * (q * 2 ^ k)
double-pow q k = omega (arith, ap (λ (t : ℕ). q * t) (pow-suc 2 k))

-- Below bit `k` a mask of `k` ones keeps everything, above it nothing.
bit_and_ones : (k q r : ℕ) → r < 2 ^ k → bit_and (q * 2 ^ k + r) (2 ^ k - 1) ≡ r
bit_and_ones zero q r h = rw bit_and-zero (omega arith)
bit_and_ones (suc k) q r h = ground (
  arith,
  bit_and_halves (q * 2 ^ suc k + r) (2 ^ suc k - 1),
  double-pow q k,
  pow-suc 2 k,
  bit_and_ones k q (r / 2) (omega arith),
)

-- The `k` low bits are what is left over by a division.
pub bit_and_low : (k a : ℕ) → bit_and a (2 ^ k - 1) ≡ a % 2 ^ k
bit_and_low k a = grind (arith, bit_and_ones k (a / 2 ^ k) (a % 2 ^ k), one-le-pow k 2)

-- `&` with a multiple of `2 ^ k` looks at the bits from `k` up only.
bit_and_upper :
    (k q r s : ℕ) → r < 2 ^ k → bit_and (q * 2 ^ k + r) (s * 2 ^ k) ≡ bit_and q s * 2 ^ k
bit_and_upper zero q r s h = ground (arith, ap (λ (t : ℕ). bit_and t s) {x = q * 1 + r} {y = q})
bit_and_upper (suc k) q r s h = ground (
  arith,
  bit_and_halves (q * 2 ^ suc k + r) (s * 2 ^ suc k),
  double-pow q k,
  double-pow s k,
  double-pow (bit_and q s) k,
  pow-suc 2 k,
  bit_and_upper k q (r / 2) s (omega arith),
)

pub pow_split : (k j : ℕ) → 2 ^ j * 2 ^ k ≡ 2 ^ (k + j)
pow_split zero j = ground (arith, add.zero j)
pow_split (suc k) j =
    rw (add.suc k j, pow-suc 2 (k + j), ← pow_split k j) (omega (arith, double-pow (2 ^ j) k))

-- The mask of the bits `k` to `k + j - 1` clears the `k` low bits of a word of `k + j` bits.
pub bit_and_high :
    (k j q r : ℕ)
    → q < 2 ^ j
    → r < 2 ^ k
    → bit_and (q * 2 ^ k + r) ((2 ^ j - 1) * 2 ^ k) ≡ q * 2 ^ k
bit_and_high k j q r hq hr =
    bit_and_upper k q r (2 ^ j - 1) hr
    ∙ ap (λ (t : ℕ). t * 2 ^ k) (bit_and_low j q ∙ mod-eq_of_lt hq)
