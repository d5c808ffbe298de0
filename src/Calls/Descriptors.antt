-- ===== src/Calls/Descriptors.antt =====
-- kernel/source/system/syscall/vfs.cpp: `close`, `dup`, `dup2`, `dup3` and `fcntl`.
use ilobilix.Base.{
  ℕ, ◌-◌, ◌^◌, ◌==◌, ◌||◌, Bool, true, false, not, if◌then◌else◌, ℤ, pos, negsuc, u32, ltb, none,
  some, bit_and, bit_or, map,
}
use ilobilix.Files.{
  Ops, Desc, Call, ok, err, stopped, ◌>>=◌, ◌>>◌, pure, raise, raise_if, get_file, ebadf, eio,
  einval,
}
use ilobilix.Vfs
use ilobilix.Vfs.{FdTable, contains, get, allocate_fd}
use ilobilix.Calls.{get_fd}

abbrev pub o_closexec : ℕ
o_closexec = 524288

-- `o_append | o_async | o_direct | o_noatime | o_nonblock` of x86_64
abbrev pub changeable_status_flags : ℕ
changeable_status_flags = bit_or (bit_or (bit_or (bit_or 1024 8192) 16384) 262144) 2048

-- `static_cast<int>` of a word
abbrev pub to_int : ℕ → ℤ
to_int w = if ltb (u32 w) (2 ^ 31) then pos (u32 w) else negsuc (2 ^ 32 - 1 - u32 w)

abbrev pub same_int : ℤ → ℤ → Bool
same_int (pos n) (pos m) = n == m
same_int (negsuc n) (negsuc m) = n == m
same_int (pos n) (negsuc m) = false
same_int (negsuc n) (pos m) = false

module _ {D : Type 0} where
  -- `fdt.allocate_fd` on the table of the process
  abbrev pub allocate : Desc → ℕ → Bool → Call D ℕ
  unfolding allocate_fd
  allocate d fd force k = let r = allocate_fd d fd force k.fdt in (ok r.0, record k { fdt = r.1 })

  unfoldable pub dup : ℤ → Call D ℕ
  unfolding get_fd allocate_fd
  dup oldfd = do d ← get_fd oldfd; allocate (record { file = d.file; closexec = false }) 0 false

  -- The part that `dup2` and `dup3` share.
  unfoldable pub dup_to : ℤ → ℤ → Bool → Call D ℕ
  unfolding get allocate_fd
  dup_to (negsuc n) newfd closexec k = (err ebadf, k)
  dup_to (pos n) (negsuc m) closexec k = (err ebadf, k)
  dup_to (pos oldfd) (pos newfd) closexec k = elim (get k.fdt oldfd) [
    | none ↦ (err ebadf, k)
    | some d ↦ allocate (record { file = d.file; closexec = closexec }) newfd true k
  ]

  unfoldable pub dup2 : ℤ → ℤ → Call D ℕ
  unfolding dup_to
  dup2 oldfd newfd = dup_to oldfd newfd false

  unfoldable pub dup3 : ℤ → ℤ → ℕ → Call D ℕ
  unfolding dup_to
  dup3 oldfd newfd flags =
      if same_int oldfd newfd || not (bit_and flags (2 ^ 32 - 1 - o_closexec) == 0)
      then raise einval
      else dup_to oldfd newfd (not (bit_and flags o_closexec == 0))

  -- `fdesc->closexec = closexec` for the descriptor at `fd`
  abbrev pub set_closexec : ℕ → Bool → Call D (Unit {0})
  set_closexec fd closexec k = (
    ok tt,
    record k {
      fdt = record (k.fdt) {
        fds =
            map
              (λ (e : ℕ × Desc).
                if e.0 == fd then (e.0, record (e.1) { closexec = closexec }) else e)
              k.fdt.fds;
      };
    },
  )

  abbrev pub set_flags : ℕ → ℕ → Call D (Unit {0})
  set_flags f flags k = (
    ok tt,
    record k { file = λ g. if g == f then record (k.file f) { flags = flags } else k.file g },
  )

  -- `lib::bug_on(new_fdesc == nullptr)`
  abbrev pub present : ℕ → Call D (Unit {0})
  unfolding get
  present fd k = elim (get k.fdt fd) [ none ↦ (stopped, k) | some d ↦ (ok tt, k) ]

  unfoldable pub fcntl : ℤ → ℕ → ℕ → Call D ℕ
  unfolding get_fd dup
  fcntl (negsuc n) cmd arg k = (err ebadf, k)
  fcntl (pos fd) cmd arg k =
      (do
        d ← get_fd (pos fd)
        f ← get_file d.file
        (if cmd == 0
            then dup (to_int arg)
            else if cmd == 1030
            then (dup (to_int arg) >>= λ newfd.
                present newfd >> (set_closexec newfd true >> pure newfd))
            else if cmd == 1
            then pure (if d.closexec then o_closexec else 0)
            else if cmd == 2
            then (set_closexec fd (not (bit_and arg o_closexec == 0)) >> pure 0)
            else if cmd == 3
            then pure f.flags
            else if cmd == 4
            then (set_flags d.file (
                  bit_or (bit_and f.flags (2 ^ 32 - 1 - changeable_status_flags))
                    (bit_and (u32 arg) changeable_status_flags))
                >> pure 0)
            else raise einval))
        k

  -- `lib::bug_on(!proc->fdt.close(fd))`
  abbrev pub close_fd : ℕ → Call D (Unit {0})
  unfolding Vfs.close
  close_fd fd k =
      let r = Vfs.close k.fdt fd in (if r.0 then ok tt else stopped, record k { fdt = r.1 })

  module _ (ops : Ops D) where
    -- `file::close`
    abbrev pub file_close : ℕ → Call D Bool
    file_close f k = let r = ops.close f k.device in (ok r.0, record k { device = r.1 })

    unfoldable pub close : ℤ → Call D ℕ
    unfolding get_fd Vfs.close
    close (negsuc n) k = (err ebadf, k)
    close (pos fd) k =
        (do
          d ← get_fd (pos fd)
          closed ← file_close d.file
          raise_if (not closed) eio
          close_fd fd
          pure 0)
          k
