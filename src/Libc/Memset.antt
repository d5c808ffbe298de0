-- ===== src/Libc/Memset.antt =====
-- kernel/source/libc/string.cpp: the `memset` of the build for uACPI, by words.
pub mod Filled
use ilobilix.Base.{
  ℕ, zero, suc, ◌+◌, ◌-◌, ◌*◌, ◌/◌, ◌%◌, ◌^◌, ◌≤◌, ◌<◌, ◌⊎◌, inl, inr, Bool, true, false, ◌&&◌, not,
  ltb, leb, leb→le, ◌==◌, ◌≡◌, refl, ap, sym, ◌∙◌, if◌then◌else◌, arith, List, [], ◌∷◌, length,
  length-replicate, get_or, replicate, Bool-cases, u8, bit_and,
}
use ilobilix.Libc.{Memory, store, store_all, memset}
use ilobilix.Libc.Copy.{memset_lem}
use ilobilix.Libc.Words.{store_all_lem}

-- `cur_dest`, `n` and the memory
pub record Point : Type 0 where
  pub dest : ℕ
  pub left : ℕ
  pub mem : Memory

-- `byte | byte << 8 | ...`: the bytes of a word do not meet, so the `|` is a sum.
pub pattern : ℕ → ℕ → ℕ
pattern zero byte = 0
pattern (suc size) byte = byte + pattern size byte * 2 ^ 8

-- The bytes of a word as they stand in memory, the lowest first.
pub word_bytes : ℕ → ℕ → List ℕ
word_bytes zero word = []
word_bytes (suc size) word = word % 2 ^ 8 ∷ word_bytes size (word / 2 ^ 8)

-- `while (n && (cur_dest & 7)) { *cur_dest++ = byte; --n; }`, on fuel
pub align_loop : ℕ → ℕ → Point → Point
align_loop zero byte p = p
align_loop (suc fuel) byte p =
    let next =
      align_loop fuel byte
        (record { dest = p.dest + 1; left = p.left - 1; mem = store p.mem p.dest byte }) in
    if not (p.left == 0) && not (bit_and p.dest 7 == 0) then next else p

-- `count` times `alias_store` of the pattern of `size` bytes
pub store_patterns : ℕ → ℕ → ℕ → Point → Point
unfolding pattern word_bytes store_all
store_patterns zero size byte p = p
store_patterns (suc count) size byte p = store_patterns count size byte (record {
  dest = p.dest + size;
  left = p.left - size;
  mem = store_all (word_bytes size (pattern size byte)) p.dest p.mem;
})

-- `if (n >= count * size) { ... n -= count * size; }`
pub set_if : ℕ → ℕ → ℕ → Point → Point
unfolding store_patterns
set_if count size byte p = if leb (count * size) p.left then store_patterns count size byte p else p

-- `while (n >= 8 * 8)`, on fuel
pub set_while : ℕ → ℕ → Point → Point
unfolding store_patterns
set_while zero byte p = p
set_while (suc fuel) byte p =
    let next = set_while fuel byte (store_patterns 8 8 byte p) in
    if leb (8 * 8) p.left then next else p

pub memset_words : ℕ → ℕ → ℕ → Memory → Memory
unfolding align_loop set_while set_if
memset_words dest val n m =
    let byte = u8 val in
    let start : Point = record { dest = dest; left = n; mem = m } in
    let aligned = set_while n byte (align_loop n byte start) in
    (set_if 1 1 byte (
      set_if 1 2 byte
        (set_if 1 4 byte (set_if 1 8 byte (set_if 2 8 byte (set_if 4 8 byte aligned)))))).mem
