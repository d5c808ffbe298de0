-- ===== src/Calls/Sharing.antt =====
-- kernel/source/system/syscall/vfs.cpp: descriptors that share one open file, and closing.
use ilobilix.Base.{
  ℕ, ◌≡◌, ◌≢◌, ◌<◌, ◌^◌, refl, true, false, if◌then◌else◌, none, some, pos, arith, Bool-cases, inl,
  inr, sym, ap, ◌∙◌,
}
use ilobilix.Vfs
use ilobilix.Vfs.{get, contains, allocate_fd, FdTable}
use ilobilix.Vfs.Table.{allocate_fd_lem, close_lem as close_table, find_fd-contains}
use ilobilix.Files.{Desc, ok, err, ebadf, eio, Ops, Kernel}
use ilobilix.Calls.{get_fd, read, write}
use ilobilix.Calls.Offsets.{get_fd-some, readable-some, writable-some}
use ilobilix.Calls.Descriptors.{dup, dup2, dup_to, fcntl, to_int, close}

contains-get : (t : FdTable Desc) (fd : ℕ) (d : Desc) → get t fd ≡ some d → contains t.fds fd ≡ true
unfolding get
contains-get t fd d h = elim (Bool-cases (contains t.fds fd)) [
  | inl e ↦ e
  | inr e ↦ cc (find_fd-contains t.fds fd e)
]

get_fd-none :
    {D : Type 0} (k : Kernel D) (fd : ℕ) → get k.fdt fd ≡ none → get_fd (pos fd) k ≡ (err ebadf, k)
unfolding get_fd
get_fd-none k fd h = rw (get_fd, h)

module _ {D : Type 0} (ops : Ops D) where
  -- Two descriptors of one open file read and write alike.
  same_file :
      (fd1 fd2 buf count : ℕ) (d1 d2 : Desc) (k : Kernel D)
      → get k.fdt fd1 ≡ some d1
      → get k.fdt fd2 ≡ some d2
      → d1.file ≡ d2.file
      → (read ops (pos fd1) buf count k ≡ read ops (pos fd2) buf count k)
        × (write ops (pos fd1) buf count k ≡ write ops (pos fd2) buf count k)
  unfolding read write
  same_file fd1 fd2 buf count d1 d2 k h1 h2 e = (
    rw (readable-some k fd1 d1 h1, readable-some k fd2 d2 h2, e) refl,
    rw (writable-some k fd1 d1 h1, writable-some k fd2 d2 h2, e) refl,
  )

  -- For an open descriptor and another number, dup2 returns that number and changes nothing but the
  -- table of descriptors. There every other number stands for what it stood for, and a read or a write
  -- through the new one does exactly what it does through the old one.
  pub dup2_shares :
      (old new : ℕ) (d : Desc) (k : Kernel D)
      → get k.fdt old ≡ some d
      → old ≢ new
      → (t : FdTable Desc) × (dup2 (pos old) (pos new) k ≡ (ok new, record k { fdt = t }))
        × ((x : ℕ) → x ≢ new → get t x ≡ get k.fdt x)
        × ((buf count : ℕ)
            → (read ops (pos new) buf count (record k { fdt = t })
                ≡ read ops (pos old) buf count (record k { fdt = t }))
              × (write ops (pos new) buf count (record k { fdt = t })
                  ≡ write ops (pos old) buf count (record k { fdt = t })))
  unfolding dup2 dup_to
  dup2_shares old new d k h n =
      let desc : Desc = record { file = d.file; closexec = false } in
      let r = allocate_fd desc new true k.fdt in
      let law = allocate_fd_lem desc new true k.fdt in
      let given : r.0 ≡ new = law.3 (inl refl) in
      let k' : Kernel D = record k { fdt = r.1 } in
      let held : get r.1 new ≡ some desc = ap (get r.1) (sym given) ∙ law.0 in
      (
        r.1,
        rw (dup_to, h) (ap (λ (n : ℕ). (ok n, k')) given),
        (λ x m. law.1 x (λ e. m (e ∙ given))),
        (λ buf count.
            same_file new old buf count desc d k' held (law.1 old (λ e. n (e ∙ given)) ∙ h) refl),
      )

  -- For an open descriptor the check of close never stops the kernel: if the device agrees, close
  -- returns 0 and only the table and the device change, with that descriptor closed and every other
  -- one as it was; if not, it fails with EIO and only the device changes.
  pub close_open_lem :
      (fd : ℕ) (d : Desc) (k : Kernel D)
      → get k.fdt fd ≡ some d
      → (t : FdTable Desc) × (close ops (pos fd) k ≡ (
          if (ops.close d.file k.device).0
          then (ok 0, record k { fdt = t; device = (ops.close d.file k.device).1 })
          else (err eio, record k { device = (ops.close d.file k.device).1 })))
        × (get t fd ≡ none)
        × ((x : ℕ) → x ≢ fd → get t x ≡ get k.fdt x)
  unfolding close
  close_open_lem fd d k h =
      let law = close_table fd k.fdt in
      let there : (Vfs.close k.fdt fd).0 ≡ true = law.0 ∙ contains-get k.fdt fd d h in
      (
        (Vfs.close k.fdt fd).1,
        rw (get_fd-some k fd d h) (elim (Bool-cases (ops.close d.file k.device).0) [
          | inl e ↦ rw (e, there) refl
          | inr e ↦ rw e refl
        ]),
        law.1,
        law.2,
      )

-- Where the argument of fcntl with F_DUPFD is no open descriptor, the call fails with EBADF, although
-- the descriptor that it was asked to duplicate is open.
pub fcntl_dupfd :
    {D : Type 0} (fd arg : ℕ) (d : Desc) (k : Kernel D)
    → get k.fdt fd ≡ some d
    → arg < 2 ^ 31
    → get k.fdt arg ≡ none
    → fcntl (pos fd) 0 arg k ≡ (err ebadf, k)
unfolding fcntl dup
fcntl_dupfd fd arg d k h l n =
    let same : to_int arg ≡ pos arg = ground arith in
    rw (get_fd-some k fd d h, same) (rw (get_fd-none k arg n) refl)
