-- ===== src/Calls.antt =====
-- kernel/source/system/syscall/vfs.cpp: the system calls on open files, as functions of the state of
-- Files. An `int` is an integer, a `size_t`, `off_t` or flags its bit pattern.
pub mod Vectors
pub mod Seek
pub mod Descriptors
pub mod Offsets
pub mod Sharing
pub mod Storage
pub mod Tests
use ilobilix.Base.{
  ℕ, ◌+◌, ◌==◌, Bool, true, false, List, [], ◌∷◌, if◌then◌else◌, Option, none, some, length,
  bit_and, not, ℤ, pos, negsuc,
}
use ilobilix.Libc.{load, store_all}
use ilobilix.Vfs.{Stat, get, is_read, is_write, s_ifmt, s_ifdir}
use ilobilix.Files.{
  File, Inode, Desc, Result, ok, err, stopped, ebadf, eisdir, Ops, Kernel, Call, ◌>>=◌, ◌>>◌, pure,
  raise, raise_if, get_file, get_inode, file_read, file_write, file_pread, file_pwrite,
}

-- `stat.type() == type`
abbrev pub has_type : Inode → ℕ → Bool
has_type i type = bit_and i.stat.st_mode s_ifmt == type

module _ {D : Type 0} where
  unfoldable pub get_fd : ℤ → Call D Desc
  unfolding get
  get_fd (negsuc n) k = (err ebadf, k)
  get_fd (pos fd) k = elim (get k.fdt fd) [ none ↦ (err ebadf, k) | some d ↦ (ok d, k) ]

  abbrev pub copy_to_user : ℕ → List ℕ → Call D (Unit {0})
  unfolding store_all
  copy_to_user a bytes k = (ok tt, record k { user = store_all bytes a k.user })

  abbrev pub copy_from_user : ℕ → ℕ → Call D (List ℕ)
  unfolding load
  copy_from_user a n k = (ok (load n a k.user), k)

  -- `stat.update_time(stat::time::access)`, and with `modify | status`
  abbrev pub touch_access : ℕ → Call D (Unit {0})
  touch_access i k = (
    ok tt,
    record k { inode = λ j. if j == i then record (k.inode i) { st_atim = k.now } else k.inode j },
  )

  abbrev pub touch_modify : ℕ → Call D (Unit {0})
  touch_modify i k = (
    ok tt,
    record k {
      inode = λ j.
          if j == i then record (k.inode i) { st_mtim = k.now; st_ctim = k.now } else k.inode j;
    },
  )

  -- The descriptor, and the tests of its flags, that the calls begin with.
  unfoldable pub readable : ℤ → Call D ℕ
  unfolding get_fd is_read
  readable fd = do
    d ← get_fd fd
    f ← get_file d.file
    raise_if (not (is_read f.flags)) ebadf
    pure d.file

  unfoldable pub writable : ℤ → Call D ℕ
  unfolding get_fd is_write
  writable fd = do
    d ← get_fd fd
    f ← get_file d.file
    raise_if (not (is_write f.flags)) ebadf
    pure d.file

  unfoldable pub not_directory : ℕ → Call D (Unit {0})
  not_directory f = do g ← get_file f; i ← get_inode g.inode; raise_if (has_type i s_ifdir) eisdir

  unfoldable pub accessed : ℕ → Call D (Unit {0})
  accessed f = do g ← get_file f; touch_access g.inode

  unfoldable pub modified : ℕ → Call D (Unit {0})
  modified f = do g ← get_file f; touch_modify g.inode

  -- What `read` and `pread` do with the bytes they got, and `write` and `pwrite` with the count.
  unfoldable pub deliver : ℕ → ℕ → List ℕ → Call D ℕ
  unfolding accessed copy_to_user
  deliver f buf bytes = do copy_to_user buf bytes; accessed f; pure (length bytes)

  unfoldable pub report : ℕ → ℕ → Call D ℕ
  unfolding modified
  report f n = do modified f; pure n

  module _ (ops : Ops D) where
    unfoldable pub read : ℤ → ℕ → ℕ → Call D ℕ
    unfolding readable not_directory file_read deliver
    read fd buf count = do
      f ← readable fd
      not_directory f
      bytes ← file_read ops f count
      deliver f buf bytes

    unfoldable pub write : ℤ → ℕ → ℕ → Call D ℕ
    unfolding writable copy_from_user file_write report
    write fd buf count = do
      f ← writable fd
      bytes ← copy_from_user buf count
      n ← file_write ops f bytes
      report f n

    unfoldable pub pread : ℤ → ℕ → ℕ → ℕ → Call D ℕ
    unfolding readable not_directory file_pread deliver
    pread fd buf count offset = do
      f ← readable fd
      not_directory f
      bytes ← file_pread ops f offset count
      deliver f buf bytes

    unfoldable pub pwrite : ℤ → ℕ → ℕ → ℕ → Call D ℕ
    unfolding writable copy_from_user file_pwrite report
    pwrite fd buf count offset = do
      f ← writable fd
      bytes ← copy_from_user buf count
      n ← file_pwrite ops f offset bytes
      report f n
