-- ===== src/Calls/Seek.antt =====
-- kernel/source/system/syscall/vfs.cpp: `lseek`, and which offsets it can leave.
use ilobilix.Base.{
  ℕ, suc, ◌+◌, ◌-◌, ◌^◌, ◌≤◌, ◌<◌, ◌≡◌, ◌==◌, ◌||◌, false, if◌then◌else◌, ℤ, pos, negsuc, u64, ltb,
  arith, Option, none, some, ap,
}
use ilobilix.Files.{
  File, Inode, Kernel, Call, continue, Desc, Result, ok, err, stopped, ◌>>=◌, ◌>>◌, pure, raise_if,
  get_file, get_inode, set_offset, espipe, eoverflow, einval,
}
use ilobilix.Vfs.{get}
use ilobilix.Calls.Offsets.{get_fd-some}
use ilobilix.Calls.{get_fd, has_type}

abbrev pub s_ifsock : ℕ
s_ifsock = 49152

abbrev pub s_ififo : ℕ
s_ififo = 4096

-- `new_offset` by the cases of `whence`, on the offset of the file and the size of the inode
unfoldable pub new_offset : ℕ → ℕ → ℕ → ℕ → Result ℕ
new_offset position size offset whence =
    if whence == 0
    then ok offset
    else if whence == 1
    then (if ltb (2 ^ 63 - 1) (u64 (position + offset))
        then err eoverflow
        else ok (u64 (position + offset)))
    else if whence == 2
    then (if ltb (2 ^ 63 - 1) (u64 (size + offset))
        then err eoverflow
        else ok (u64 (size + offset)))
    else err einval

module _ {D : Type 0} where
  unfoldable pub lseek : ℤ → ℕ → ℕ → Call D ℕ
  unfolding get_fd new_offset
  lseek fd offset whence = do
    d ← get_fd fd
    f ← get_file d.file
    i ← get_inode f.inode
    raise_if (has_type i s_ifsock || has_type i s_ififo) espipe
    new ← λ k. (new_offset f.offset i.st_size offset whence, k)
    raise_if (ltb (2 ^ 63 - 1) new) eoverflow
    set_offset d.file new
    pure new

-- The bit pattern of an `off_t`.
abbrev pub pattern : ℤ → ℕ
pattern (pos n) = n
pattern (negsuc n) = 2 ^ 64 - 1 - n

-- The distance has 63 bits and a sign.
abbrev pub IsOff : ℤ → Type 0
IsOff (pos n) = n < 2 ^ 63
IsOff (negsuc n) = n < 2 ^ 63

-- The place at a distance from a base, if it is an offset.
abbrev pub target : ℕ → ℤ → Option ℕ
target base (pos n) = if ltb (base + n) (2 ^ 63) then some (base + n) else none
target base (negsuc n) = if ltb n base then some (base - suc n) else none

-- The base that `whence` names: the beginning, the offset, or the end.
abbrev pub base_of : ℕ → File → Inode → ℕ
base_of whence f i = if whence == 0 then 0 else if whence == 1 then f.offset else i.st_size

-- The offset that is set, behind the test of its sign.
abbrev checked : Result ℕ → Result ℕ
checked (ok n) = if ltb (2 ^ 63 - 1) n then err eoverflow else ok n
checked (err e) = err e
checked stopped = stopped

abbrev landing : Option ℕ → Result ℕ
landing none = err eoverflow
landing (some n) = ok n

new_offset-target :
    (position size whence : ℕ) (z : ℤ)
    → position < 2 ^ 63
    → size < 2 ^ 63
    → whence ≤ 2
    → IsOff z
    → checked (new_offset position size (pattern z) whence)
      ≡ landing (target (if whence == 0 then 0 else if whence == 1 then position else size) z)
unfolding new_offset
new_offset-target position size whence (pos n) hp hs hw hz = ground arith
new_offset-target position size whence (negsuc n) hp hs hw hz = ground arith

module _ {D : Type 0} (f : ℕ) (k : Kernel D) where
  settle : ℕ → Call D ℕ
  settle new = do raise_if (ltb (2 ^ 63 - 1) new) eoverflow; set_offset f new; pure new

  abbrev landed : Option ℕ → Result ℕ × Kernel D
  landed t = elim t [ none ↦ (err eoverflow, k) | some n ↦ (ok n, (set_offset f n k).1) ]

  settle-checked :
      (r : Result ℕ) (t : Option ℕ) → checked r ≡ landing t → continue (r, k) settle ≡ landed t
  unfolding settle
  settle-checked (ok n) none e = ground (arith, e)
  settle-checked (ok n) (some m) e = ground (arith, e)
  settle-checked (err x) none e = ap (λ (r : Result ℕ). (r, k)) e
  settle-checked (err x) (some n) e = cc
  settle-checked stopped none e = cc
  settle-checked stopped (some n) e = cc

-- For an open descriptor that is no socket and no pipe, whose offset and size are below 2 ^ 63, and
-- for each whence from 0 to 2, lseek sets and returns the place at the signed distance from the base
-- that whence names, if that is at least 0 and below 2 ^ 63, and else fails with EOVERFLOW and
-- changes nothing.
pub lseek_lem :
    {D : Type 0} (fd whence : ℕ) (z : ℤ) (d : Desc) (k : Kernel D)
    → get k.fdt fd ≡ some d
    → has_type (k.inode (k.file d.file).inode) s_ifsock ≡ false
    → has_type (k.inode (k.file d.file).inode) s_ififo ≡ false
    → (k.file d.file).offset < 2 ^ 63
    → (k.inode (k.file d.file).inode).st_size < 2 ^ 63
    → whence ≤ 2
    → IsOff z
    → lseek (pos fd) (pattern z) whence k
      ≡ elim (target (base_of whence (k.file d.file) (k.inode (k.file d.file).inode)) z) [
        | none ↦ (err eoverflow, k)
        | some n ↦ (ok n, (set_offset d.file n k).1)
      ]
unfolding lseek settle
lseek_lem fd whence z d k h hk hp ho hs hw hz =
    let base =
      new_offset-target (k.file d.file).offset (k.inode (k.file d.file).inode).st_size whence z ho
        hs hw hz in
    rw (get_fd-some k fd d h, hk, hp)
      (settle-checked d.file k
        (new_offset (k.file d.file).offset (k.inode (k.file d.file).inode).st_size (pattern z)
          whence)
        (target (base_of whence (k.file d.file) (k.inode (k.file d.file).inode)) z) base)
