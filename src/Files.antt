-- ===== src/Files.antt =====
-- kernel/interfaces/system/vfs.cppm: `file` with its offset, and the state that the system calls on
-- files share: the descriptors of the process, the open files, the inodes, the memory of the process
-- and the device behind the operations. Open files and inodes are numbers that pointers stand for.
use ilobilix.Base.{ℕ, ◌+◌, ◌==◌, Bool, List, if◌then◌else◌, length, u64, ltb}
use ilobilix.Libc.{Memory}
use ilobilix.Vfs.{FdTable, Stat}

pub record File : Type 0 where
  pub inode : ℕ
  pub offset : ℕ
  pub flags : ℕ

pub record Inode : Type 0 where
  pub stat : Stat
  pub st_size : ℕ
  pub st_atim : ℕ
  pub st_mtim : ℕ
  pub st_ctim : ℕ

pub record Desc : Type 0 where
  pub file : ℕ
  pub closexec : Bool

pub data Errno : Type 0 where
  ebadf eisdir eio einval eoverflow espipe : Errno
  device_error : ℕ → Errno

-- `errno` is set and -1 returned, or a `bug_on` has stopped the kernel.
pub data Result (A : Type 0) : Type 0 where
  ok : A → Result A
  err : Errno → Result A
  stopped : Result A

-- The virtual operations of a device, for an open file: `read` gives bytes or an error number,
-- `write` a count or an error number, at an offset. Both get the inode of the file, which they may change.
pub record Ops (D : Type 0) : Type 0 where
  pub read : ℕ → ℕ → ℕ → Inode → D → Result (List ℕ) × Inode × D
  pub write : ℕ → ℕ → List ℕ → Inode → D → Result ℕ × Inode × D
  pub close : ℕ → D → Bool × D

pub record Kernel (D : Type 0) : Type 0 where
  pub fdt : FdTable Desc
  pub file : ℕ → File
  pub inode : ℕ → Inode
  pub user : Memory
  pub device : D
  pub now : ℕ

-- A call changes the state also where it fails.
abbrev pub Call : Type 0 → Type 0 → Type 0
Call D A = Kernel D → Result A × Kernel D

abbrev pub continue : {D A B : Type 0} → Result A × Kernel D → (A → Call D B) → Result B × Kernel D
continue (ok a, k) f = f a k
continue (err e, k) f = (err e, k)
continue (stopped, k) f = (stopped, k)

infixl 5 ◌>>=◌ ◌>>◌
abbrev pub ◌>>=◌ : {D A B : Type 0} → Call D A → (A → Call D B) → Call D B
◌>>=◌ m f k = continue (m k) f

abbrev pub ◌>>◌ : {D A B : Type 0} → Call D A → Call D B → Call D B
m >> f = m >>= λ _. f

module _ {D : Type 0} where
  abbrev pub pure : {A : Type 0} → A → Call D A
  pure a k = (ok a, k)

  abbrev pub raise : {A : Type 0} → Errno → Call D A
  raise e k = (err e, k)

  abbrev pub raise_if : Bool → Errno → Call D (Unit {0})
  raise_if b e k = (if b then err e else ok tt, k)

  abbrev pub get_file : ℕ → Call D File
  get_file f k = (ok (k.file f), k)

  abbrev pub get_inode : ℕ → Call D Inode
  get_inode i k = (ok (k.inode i), k)

  abbrev pub set_offset : ℕ → ℕ → Call D (Unit {0})
  set_offset f o k = (
    ok tt,
    record k { file = λ g. if g == f then record (k.file f) { offset = o } else k.file g },
  )

  abbrev pub set_inode : ℕ → Inode → D → Kernel D → Kernel D
  set_inode i x v k = record k { inode = λ j. if j == i then x else k.inode j; device = v }

  -- `offset += ret` behind `if (ret > 0)`
  abbrev pub advance : ℕ → ℕ → Call D (Unit {0})
  advance f n k = if ltb 0 n then set_offset f (u64 ((k.file f).offset + n)) k else (ok tt, k)

  module _ (ops : Ops D) where
    unfoldable pub file_pread : ℕ → ℕ → ℕ → Call D (List ℕ)
    file_pread f offset count k =
        let i = (k.file f).inode in
        let r = ops.read f offset count (k.inode i) k.device in (r.0, set_inode i r.1 r.2 k)

    unfoldable pub file_pwrite : ℕ → ℕ → List ℕ → Call D ℕ
    file_pwrite f offset bytes k =
        let i = (k.file f).inode in
        let r = ops.write f offset bytes (k.inode i) k.device in (r.0, set_inode i r.1 r.2 k)

    -- `file::read` and `file::write`: at the offset of the file, which moves on
    unfoldable pub file_read : ℕ → ℕ → Call D (List ℕ)
    unfolding file_pread
    file_read f count = do
      g ← get_file f
      bytes ← file_pread f g.offset count
      advance f (length bytes)
      pure bytes

    unfoldable pub file_write : ℕ → List ℕ → Call D ℕ
    unfolding file_pwrite
    file_write f bytes = do g ← get_file f; n ← file_pwrite f g.offset bytes; advance f n; pure n
