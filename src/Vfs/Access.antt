-- ===== src/Vfs/Access.antt =====
-- kernel/source/system/vfs.cpp: the access check by the octal digits of a mode.
use ilobilix.Base.{
  ℕ, zero, suc, ◌+◌, ◌*◌, ◌/◌, ◌%◌, ◌^◌, ◌==◌, ◌≤◌, ◌<◌, ◌≡◌, ◌≢◌, ap, true, if◌then◌else◌, arith,
  sym, ◌∙◌, ◌↔◌, bit_and,
}
use ilobilix.Base.Bits.{bit_and_halves, bit_and-zero, pow_split}
use native.Mathlib.Nat.{pow-suc, one-le-pow, div-div-eq-div-mul}
use ilobilix.Vfs.{Stat, has, granted, check_access}

-- `&` with the mask of one bit.
bit_and_bit : (k a : ℕ) → bit_and a (2 ^ k) ≡ a / 2 ^ k % 2 * 2 ^ k
bit_and_bit zero a = omega (arith, bit_and_halves a 1, bit_and-zero (a / 2))
bit_and_bit (suc k) a =
    let twice : 2 * 2 ^ k ≡ 2 ^ k * 2 = omega arith in
    rw (pow-suc 2 k, ← twice, ← div-div-eq-div-mul a 2 (2 ^ k))
      (omega (
        arith,
        bit_and_halves a (2 * 2 ^ k),
        bit_and_bit k (a / 2),
        ap (λ (t : ℕ). bit_and (a / 2) t) {x = 2 * 2 ^ k / 2} {y = 2 ^ k} (omega arith),
      ))

-- A right is asked for, or given, where the binary digit is 1.
has-bit : (k a : ℕ) → has a (2 ^ k) ≡ (a / 2 ^ k % 2 == 1)
unfolding has
has-bit k a = ground (arith, bit_and_bit k a, one-le-pow k 2)

-- Each of the rights that the octal digit `wanted` asks for is in the octal digit `given`.
abbrev pub Within : ℕ → ℕ → Type 0
Within wanted given =
    (wanted / 4 % 2 ≤ given / 4 % 2) × (wanted / 2 % 2 ≤ given / 2 % 2) × (wanted % 2 ≤ given % 2)

-- The digit of `st_mode` that counts for a user: the owner's, else the group's, else that of others.
abbrev pub digit_for : ℕ → ℕ → Stat → ℕ
digit_for uid gid stat =
    if uid == stat.st_uid
    then stat.st_mode / 64 % 8
    else if gid == stat.st_gid
    then stat.st_mode / 8 % 8
    else stat.st_mode % 8

granted_lem :
    (mode st_mode r w x : ℕ)
    → (granted mode st_mode (2 ^ r) (2 ^ w) (2 ^ x) ≡ true) ↔ (
        (mode / 4 % 2 ≤ st_mode / 2 ^ r % 2)
        × (mode / 2 % 2 ≤ st_mode / 2 ^ w % 2)
        × (mode % 2 ≤ st_mode / 2 ^ x % 2))
unfolding granted
granted_lem mode st_mode r w x =
    rw
      (
        has-bit r st_mode,
        has-bit w st_mode,
        has-bit x st_mode,
        has-bit 0 mode,
        has-bit 1 mode,
        has-bit 2 mode,
      )
      (ground arith)

granted-Within :
    (mode st_mode k : ℕ)
    → (granted mode st_mode (2 ^ (k + 2)) (2 ^ (k + 1)) (2 ^ k) ≡ true)
      ↔ Within mode (st_mode / 2 ^ k % 8)
granted-Within mode st_mode k =
    let two : 2 ^ (k + 2) ≡ 2 ^ k * 4 = sym (pow_split k 2) ∙ omega arith in
    let one : 2 ^ (k + 1) ≡ 2 ^ k * 2 = sym (pow_split k 1) ∙ omega arith in
    let d2 : st_mode / 2 ^ (k + 2) ≡ st_mode / 2 ^ k / 4 =
      ap (λ (t : ℕ). st_mode / t) two ∙ sym (div-div-eq-div-mul st_mode (2 ^ k) 4) in
    let d1 : st_mode / 2 ^ (k + 1) ≡ st_mode / 2 ^ k / 2 =
      ap (λ (t : ℕ). st_mode / t) one ∙ sym (div-div-eq-div-mul st_mode (2 ^ k) 2) in
    let l = granted_lem mode st_mode (k + 2) (k + 1) k in
    (
      (λ g. let r = l.0 g in (omega (arith, r.0, d2), omega (arith, r.1, d1), omega (arith, r.2))),
      (λ w. l.1 (omega (arith, w.0, d2), omega (arith, w.1, d1), omega (arith, w.2))),
    )

-- For a user that is not root, check_access grants a mode of rights if and only if the octal digit of
-- the first class that the user is in has every right the mode asks for.
pub check_access_lem :
    (uid gid : ℕ) (stat : Stat) (mode : ℕ)
    → uid ≢ 0
    → mode < 8
    → (check_access uid gid stat mode ≡ true) ↔ Within mode (digit_for uid gid stat)
unfolding check_access
check_access_lem uid gid stat zero h l = ground arith
check_access_lem uid gid stat (suc mode) h l = ground (
  arith,
  h,
  granted-Within (suc mode) stat.st_mode 6,
  granted-Within (suc mode) stat.st_mode 3,
  granted-Within (suc mode) stat.st_mode 0,
)
