-- ===== src/Calls/Offsets.antt =====
-- kernel/source/system/syscall/vfs.cpp: the calls at the offset of the file do what those at a given
-- offset do, and then move the offset.
use ilobilix.Base.{
  ℕ, ◌≡◌, ◌==◌, refl, true, List, if◌then◌else◌, some, length, ltb, pos, arith, Bool-cases, inl,
  inr,
}
use ilobilix.Libc.{load}
use ilobilix.Vfs.{get, is_read, is_write, s_ifdir}
use ilobilix.Files.{
  Desc, Result, ebadf, ok, err, stopped, Ops, Kernel, Call, continue, ◌>>◌, pure, advance,
  file_read, file_write, file_pread, file_pwrite,
}
use ilobilix.Calls.{
  get_fd, readable, writable, deliver, report, not_directory, has_type, read, write, pread, pwrite,
}

pub ==_refl : (n : ℕ) → (n == n) ≡ true
==_refl n = ground arith

-- What a call did, and the offset of file `f` moved on by the count that it returned.
abbrev pub moved_on : {D : Type 0} → ℕ → Result ℕ × Kernel D → Result ℕ × Kernel D
moved_on f (ok n, k) = (ok n, (advance f n k).1)
moved_on f (err e, k) = (err e, k)
moved_on f (stopped, k) = (stopped, k)

module _ {D : Type 0} (k : Kernel D) where
  pub get_fd-some : (fd : ℕ) (d : Desc) → get k.fdt fd ≡ some d → get_fd (pos fd) k ≡ (ok d, k)
  unfolding get_fd
  get_fd-some fd d h = rw (get_fd, h)

  pub readable-some :
      (fd : ℕ) (d : Desc)
      → get k.fdt fd ≡ some d
      → readable (pos fd) k ≡ (if is_read (k.file d.file).flags then ok d.file else err ebadf, k)
  unfolding readable
  readable-some fd d h =
      rw (readable, get_fd-some fd d h)
        (elim (Bool-cases (is_read (k.file d.file).flags)) [
          | inl e ↦ rw e refl
          | inr e ↦ rw e refl
        ])

  pub writable-some :
      (fd : ℕ) (d : Desc)
      → get k.fdt fd ≡ some d
      → writable (pos fd) k ≡ (if is_write (k.file d.file).flags then ok d.file else err ebadf, k)
  unfolding writable
  writable-some fd d h =
      rw (writable, get_fd-some fd d h)
        (elim (Bool-cases (is_write (k.file d.file).flags)) [
          | inl e ↦ rw e refl
          | inr e ↦ rw e refl
        ])

module _ {D : Type 0} where
  deliver-advance :
      (f buf : ℕ) (bytes : List ℕ) (k : Kernel D)
      → deliver f buf bytes (advance f (length bytes) k).1 ≡ moved_on f (deliver f buf bytes k)
  unfolding deliver
  deliver-advance f buf bytes k = elim (Bool-cases (ltb 0 (length bytes))) [
    | inl e ↦ rw (e, ==_refl f) refl
    | inr e ↦ rw e refl
  ]

  report-advance :
      (f n : ℕ) (k : Kernel D) → report f n (advance f n k).1 ≡ moved_on f (report f n k)
  unfolding report
  report-advance f n k = elim (Bool-cases (ltb 0 n)) [
    | inl e ↦ rw (e, ==_refl f) refl
    | inr e ↦ rw e refl
  ]

  advance_ok : (f n : ℕ) (k : Kernel D) → advance f n k ≡ (ok tt, (advance f n k).1)
  advance_ok f n k = elim (Bool-cases (ltb 0 n)) [ inl e ↦ rw e refl | inr e ↦ rw e refl ]

  -- Where a step moves the offset and the rest commutes with that, the whole moves the offset.
  continue-advance :
      (A : Type 0) (size : A → ℕ) (rest : A → Call D ℕ) (f : ℕ)
      → ((a : A) (k : Kernel D) → rest a (advance f (size a) k).1 ≡ moved_on f (rest a k))
      → (p : Result A × Kernel D)
      → continue (continue p (λ a. advance f (size a) >> pure a)) rest
        ≡ moved_on f (continue p rest)
  continue-advance A size rest f law (ok a, k) = rw (advance_ok f (size a) k) (law a k)
  continue-advance A size rest f law (err e, k) = refl
  continue-advance A size rest f law (stopped, k) = refl

module _ {D : Type 0} (ops : Ops D) where
  file_read-deliver :
      (f buf count : ℕ) (k : Kernel D)
      → continue (file_read ops f count k) (deliver f buf)
        ≡ moved_on f (continue (file_pread ops f (k.file f).offset count k) (deliver f buf))
  unfolding file_read
  file_read-deliver f buf count k =
      continue-advance (List ℕ) length (deliver f buf) f (deliver-advance f buf)
        (file_pread ops f (k.file f).offset count k)

  file_write-report :
      (f : ℕ) (bytes : List ℕ) (k : Kernel D)
      → continue (file_write ops f bytes k) (report f)
        ≡ moved_on f (continue (file_pwrite ops f (k.file f).offset bytes k) (report f))
  unfolding file_write
  file_write-report f bytes k =
      continue-advance ℕ (λ n. n) (report f) f (report-advance f)
        (file_pwrite ops f (k.file f).offset bytes k)

  -- For an open descriptor, read answers what pread answers at the offset of the file, and leaves the
  -- same state but for that offset, which it moves on by the count that it returns.
  pub read-pread :
      (fd buf count : ℕ) (d : Desc) (k : Kernel D)
      → get k.fdt fd ≡ some d
      → read ops (pos fd) buf count k
        ≡ moved_on d.file (pread ops (pos fd) buf count (k.file d.file).offset k)
  unfolding read pread not_directory
  read-pread fd buf count d k h =
      rw (readable-some k fd d h) (elim (Bool-cases (is_read (k.file d.file).flags)) [
        | inl e ↦ rw e (elim (Bool-cases (has_type (k.inode (k.file d.file).inode) s_ifdir)) [
          | inl t ↦ rw t refl
          | inr t ↦ rw t (file_read-deliver d.file buf count k)
        ])
        | inr e ↦ rw e refl
      ])

  -- For an open descriptor, write does what pwrite does at the offset of the file, and then moves that
  -- offset on by the count that it returns.
  pub write-pwrite :
      (fd buf count : ℕ) (d : Desc) (k : Kernel D)
      → get k.fdt fd ≡ some d
      → write ops (pos fd) buf count k
        ≡ moved_on d.file (pwrite ops (pos fd) buf count (k.file d.file).offset k)
  unfolding write pwrite
  write-pwrite fd buf count d k h =
      rw (writable-some k fd d h) (elim (Bool-cases (is_write (k.file d.file).flags)) [
        | inl e ↦ rw e (file_write-report d.file (load count buf k.user) k)
        | inr e ↦ rw e refl
      ])
