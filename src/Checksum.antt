-- ===== src/Checksum.antt =====
-- kernel/interfaces/system/net/checksum.cppm: the Internet checksum over bytes, with `_value` as the
-- 16 bits that stand between two updates.
pub mod Sum
pub mod Tests
use ilobilix.Base.{
  ℕ, zero, suc, ◌+◌, ◌-◌, ◌*◌, ◌/◌, ◌%◌, ◌^◌, ◌≡◌, Bool, ◌==◌, List, [], ◌∷◌, if◌then◌else◌, u32,
  u16, bit_and, length, get_or,
}

-- `while (_value >> 16) _value = (_value >> 16) + (_value & 0xFFFF);`, on fuel
pub fold : ℕ → ℕ → ℕ
fold zero v = v
fold (suc fuel) v =
    let rest = fold fuel (v / 2 ^ 16 + bit_and v (2 ^ 16 - 1)) in
    if v / 2 ^ 16 == 0 then v else rest

-- Two rounds bring every sum of two 16-bit numbers below `2 ^ 16`.
pub update : ℕ → ℕ → ℕ
unfolding fold
update n v = fold 2 (u32 (v + n))

-- The bytes in pairs, the high one first; `bytes[i] << 8 | bytes[i + 1]` is the sum of bytes.
pub update_pairs : List ℕ → ℕ → ℕ
unfolding update
update_pairs [] v = v
update_pairs (a ∷ []) v = v
update_pairs (a ∷ b ∷ bytes) v = update_pairs bytes (update (a * 2 ^ 8 + b) v)

-- An odd last byte comes first.
pub update_bytes : List ℕ → ℕ → ℕ
unfolding update_pairs
update_bytes bytes v =
    let size = length bytes in
    if size % 2 == 0
    then update_pairs bytes v
    else update_pairs bytes (update (get_or bytes (size - 1) 0 * 2 ^ 8) v)

-- `~_value`, cut to 16 bits
pub value : ℕ → ℕ
value v = u16 (2 ^ 32 - 1 - v)

pub compute : List ℕ → ℕ
unfolding update_bytes value
compute bytes = value (update_bytes bytes 0)
