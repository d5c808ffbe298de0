-- ===== src/Libc/Copy.antt =====
-- kernel/source/libc/string.cpp: what `memcpy` and `memmove` leave in memory.
use ilobilix.Base.{
  ℕ, zero, suc, ◌+◌, ◌-◌, ◌≤◌, ◌⊎◌, inl, inr, ◌&&◌, ltb, leb, ◌≡◌, ap, if◌then◌else◌, arith, u8,
}
use ilobilix.Libc.{Memory, store, copy_up, copy_down, memcpy, memmove, fill, memset}

-- The memory after all of `src` to `src + len` stands at `dest`, and all else is as before.
abbrev pub moved : ℕ → ℕ → ℕ → Memory → Memory
moved dest src len m a = if leb dest a && ltb a (dest + len) then m (src + (a - dest)) else m a

-- The source is not behind the target, or the ranges do not meet.
abbrev pub Forward : ℕ → ℕ → ℕ → Type 0
Forward dest src len = (dest ≤ src) ⊎ (src + len ≤ dest)

Forward-shrink : (dest src n : ℕ) → Forward dest src (suc n) → Forward dest src n
Forward-shrink dest src n (inl h) = inl h
Forward-shrink dest src n (inr h) = inr (omega arith)

copy_up_lem :
    (n i dest src : ℕ) (m : Memory) (a : ℕ)
    → Forward dest src n
    → copy_up n i dest src m a ≡ moved (dest + i) (src + i) n m a
unfolding copy_up
copy_up_lem zero i dest src m a h = ground arith
copy_up_lem (suc n) i dest src m a h = ground (
  arith,
  copy_up_lem n (i + 1) dest src (store m (dest + i) (m (src + i))) a (Forward-shrink dest src n h),
  ap m {x = src + (i + 1) + (a - (dest + (i + 1)))} {y = src + i + (a - (dest + i))},
)

copy_down_lem :
    (n dest src : ℕ) (m : Memory) (a : ℕ)
    → src ≤ dest
    → copy_down n dest src m a ≡ moved dest src n m a
unfolding copy_down
copy_down_lem zero dest src m a h = ground arith
copy_down_lem (suc n) dest src m a h = ground (
  arith,
  copy_down_lem n dest src (store m (dest + n) (m (src + n))) a h,
  ap m {x = src + n} {y = src + (a - dest)},
)

-- For every overlap of the two ranges, each byte of the target is the byte that stood in the source
-- before the call of memmove, and no other byte of the memory changes.
pub memmove_lem :
    (dest src len : ℕ) (m : Memory) (a : ℕ) → memmove dest src len m a ≡ moved dest src len m a
unfolding memmove
memmove_lem dest src len m a = ground (
  arith,
  copy_down_lem len dest src m a,
  copy_up_lem len 0 dest src m a,
  ap m {x = a} {y = src + (a - dest)},
)

pub memcpy_lem :
    (dest src len : ℕ) (m : Memory) (a : ℕ)
    → Forward dest src len
    → memcpy dest src len m a ≡ moved dest src len m a
unfolding memcpy
memcpy_lem dest src len m a h = ground (arith, copy_up_lem len 0 dest src m a h)

fill_lem :
    (n i ptr v : ℕ) (m : Memory) (a : ℕ)
    → fill n i ptr v m a ≡ (if leb (ptr + i) a && ltb a (ptr + i + n) then v else m a)
unfolding fill
fill_lem zero i ptr v m a = ground arith
fill_lem (suc n) i ptr v m a = ground (arith, fill_lem n (i + 1) ptr v (store m (ptr + i) v) a)

pub memset_lem :
    (dest ch len : ℕ) (m : Memory) (a : ℕ)
    → memset dest ch len m a ≡ (if leb dest a && ltb a (dest + len) then u8 ch else m a)
unfolding memset
memset_lem dest ch len m a = ground (arith, fill_lem len 0 dest (u8 ch) m a)
