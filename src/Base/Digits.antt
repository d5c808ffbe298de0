-- ===== src/Base/Digits.antt =====
-- `|` of native numbers, and how it meets `&`: all by the lowest digit and the halves.
use Prim.Native.Nat.{digits, bit_or-bitwise, bit_and-bitwise, bit_and, bit_or}
use Prim.Native.Nat.{ℕ, zero, suc, ◌+◌, ◌-◌, ◌*◌, ◌/◌, ◌%◌, ◌≤◌, min, max}
use mathlib.Core.Path.{◌≡◌, refl, sym, ap, ap₂, ◌∙◌}
use native.Mathlib.Omega.{arith}
use ilobilix.Base.Bits.{bit_and_halves}

abbrev disj : ℕ → ℕ → ℕ → ℕ
disj n a b = digits (λ b. b) max n a b

disj-idle : (n a b : ℕ) → a ≤ n → disj (suc n) a b ≡ disj n a b
disj-idle zero zero b h = refl
disj-idle (suc n) zero b h = refl
disj-idle zero (suc a) b h = absurd (omega arith)
disj-idle (suc n) (suc a) b h =
    ap (λ (t : ℕ). t * 2 + max (suc a % 2) (b % 2)) (disj-idle n (suc a / 2) (b / 2) (omega arith))

disj-more : (k a b : ℕ) → disj (a + k) a b ≡ disj a a b
disj-more zero a b = ap (λ (t : ℕ). disj t a b) (omega arith)
disj-more (suc k) a b =
    ap (λ (t : ℕ). disj t a b) {x = a + suc k} {y = suc (a + k)} (omega arith)
    ∙ disj-idle (a + k) a b (omega arith)
    ∙ disj-more k a b

pub zero-bit_or : (b : ℕ) → bit_or 0 b ≡ b
zero-bit_or b = bit_or-bitwise 0 b

bit_or_halves : (x y : ℕ) → bit_or x y ≡ max (x % 2) (y % 2) + 2 * bit_or (x / 2) (y / 2)
bit_or_halves zero y = omega (arith, zero-bit_or y, zero-bit_or (y / 2))
bit_or_halves (suc x) y =
    let half = suc x / 2 in
    let enough : disj x half (y / 2) ≡ disj half half (y / 2) =
      ap (λ (t : ℕ). disj t half (y / 2)) {x = x} {y = half + (x - half)} (omega arith)
      ∙ disj-more (x - half) half (y / 2) in
    omega (arith, bit_or-bitwise (suc x) y, enough ∙ sym (bit_or-bitwise half (y / 2)))

or-half : (a b : ℕ) → bit_or a b / 2 ≡ bit_or (a / 2) (b / 2)
or-half a b = omega (arith, bit_or_halves a b)

and-half : (a b : ℕ) → bit_and a b / 2 ≡ bit_and (a / 2) (b / 2)
and-half a b = omega (arith, bit_and_halves a b)

pub or_low : (a b : ℕ) → bit_or a b % 2 ≡ max (a % 2) (b % 2)
or_low a b = omega (arith, bit_or_halves a b)

and_low : (a b : ℕ) → bit_and a b % 2 ≡ min (a % 2) (b % 2)
and_low a b = omega (arith, bit_and_halves a b)

by_digits : (x y : ℕ) → x % 2 ≡ y % 2 → x / 2 ≡ y / 2 → x ≡ y
by_digits x y h k = omega (arith, h, k)

pub zero-bit_and : (b : ℕ) → bit_and 0 b ≡ 0
zero-bit_and b = bit_and-bitwise 0 b

or_below :
    (n a b m : ℕ) → a ≤ n → b ≤ n → bit_and (bit_or a b) m ≡ bit_or (bit_and a m) (bit_and b m)
or_below zero zero zero m h k = rw (zero-bit_and m) refl
or_below zero (suc a) b m h k = absurd (omega arith)
or_below zero zero (suc b) m h k = absurd (omega arith)
or_below (suc n) a b m h k =
    by_digits (bit_and (bit_or a b) m) (bit_or (bit_and a m) (bit_and b m))
      (omega (
        arith,
        and_low (bit_or a b) m,
        or_low a b,
        or_low (bit_and a m) (bit_and b m),
        and_low a m,
        and_low b m,
      ))
      (and-half (bit_or a b) m
        ∙ ap (λ (t : ℕ). bit_and t (m / 2)) (or-half a b)
        ∙ or_below n (a / 2) (b / 2) (m / 2) (omega arith) (omega arith)
        ∙ sym (
            or-half (bit_and a m) (bit_and b m)
            ∙ ap₂ (λ (t u : ℕ). bit_or t u) (and-half a m) (and-half b m)))

-- `&` goes over `|`.
pub bit_and-bit_or : (a b m : ℕ) → bit_and (bit_or a b) m ≡ bit_or (bit_and a m) (bit_and b m)
bit_and-bit_or a b m = or_below (a + b) a b m (omega arith) (omega arith)

and_below : (n a m : ℕ) → a ≤ n → bit_and (bit_and a m) m ≡ bit_and a m
and_below zero zero m h = rw (zero-bit_and m) (zero-bit_and m)
and_below zero (suc a) m h = absurd (omega arith)
and_below (suc n) a m h =
    by_digits (bit_and (bit_and a m) m) (bit_and a m)
      (omega (arith, and_low (bit_and a m) m, and_low a m))
      (and-half (bit_and a m) m
        ∙ ap (λ (t : ℕ). bit_and t (m / 2)) (and-half a m)
        ∙ and_below n (a / 2) (m / 2) (omega arith)
        ∙ sym (and-half a m))

-- A second `&` with a mask does nothing.
pub bit_and_again : (a m : ℕ) → bit_and (bit_and a m) m ≡ bit_and a m
bit_and_again a m = and_below a a m (omega arith)

or_zero_below : (n a : ℕ) → a ≤ n → bit_or a 0 ≡ a
or_zero_below zero zero h = refl
or_zero_below zero (suc a) h = absurd (omega arith)
or_zero_below (suc n) a h =
    by_digits (bit_or a 0) a (omega (arith, or_low a 0))
      (or-half a 0 ∙ or_zero_below n (a / 2) (omega arith))

pub bit_or-zero : (a : ℕ) → bit_or a 0 ≡ a
bit_or-zero a = or_zero_below a a (omega arith)
