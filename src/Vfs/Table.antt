-- ===== src/Vfs/Table.antt =====
-- kernel/source/system/vfs.cpp: which descriptors a table gives out, and what it answers then.
use ilobilix.Base.{
  ℕ, zero, suc, ◌+◌, ◌≤◌, ◌<◌, ◌≡◌, ◌≢◌, refl, Bool, true, false, List, [], ◌∷◌, none, some, select,
  length, arith, ◌⊎◌, inl, inr, Bool-cases, ◌∙◌,
}
use ilobilix.Vfs.{contains, find_fd, erase, probe, FdTable, close, get, allocate_fd}

module _ {ℓ} {Desc : Type ℓ} where
  pub find_fd-contains :
      (fds : List (ℕ × Desc)) (fd : ℕ) → contains fds fd ≡ false → find_fd fds fd ≡ none
  unfolding find_fd contains
  find_fd-contains [] fd h = refl
  find_fd-contains (e ∷ fds) fd h = ground (arith, find_fd-contains fds fd, h)

  find_fd-erase_ne :
      (fds : List (ℕ × Desc)) (fd x : ℕ) → x ≢ fd → find_fd (erase fds fd) x ≡ find_fd fds x
  unfolding find_fd erase select
  find_fd-erase_ne [] fd x h = refl
  find_fd-erase_ne (e ∷ fds) fd x h = ground (arith, find_fd-erase_ne fds fd x h)

  contains-erase_ne :
      (fds : List (ℕ × Desc)) (fd x : ℕ) → x ≢ fd → contains (erase fds fd) x ≡ contains fds x
  unfolding contains erase select
  contains-erase_ne [] fd x h = refl
  contains-erase_ne (e ∷ fds) fd x h = ground (arith, contains-erase_ne fds fd x h)

  contains-erase_self : (fds : List (ℕ × Desc)) (fd : ℕ) → contains (erase fds fd) fd ≡ false
  unfolding contains erase select
  contains-erase_self [] fd = refl
  contains-erase_self (e ∷ fds) fd = ground (arith, contains-erase_self fds fd)

  length-erase : (fds : List (ℕ × Desc)) (fd : ℕ) → length (erase fds fd) ≤ length fds
  unfolding erase select
  length-erase [] fd = omega arith
  length-erase (e ∷ fds) fd = ground (arith, length-erase fds fd)

  length-erase_lt :
      (fds : List (ℕ × Desc)) (fd : ℕ) → contains fds fd ≡ true → length (erase fds fd) < length fds
  unfolding erase select contains
  length-erase_lt [] fd h = ground (arith, h)
  length-erase_lt (e ∷ fds) fd h = ground (arith, length-erase_lt fds fd, length-erase fds fd, h)

  -- The entries below the descriptor that is tried next no longer matter.
  probe-same :
      (fuel fd : ℕ) (fds rest : List (ℕ × Desc))
      → ((x : ℕ) → fd ≤ x → contains rest x ≡ contains fds x)
      → length rest < fuel
      → contains fds (probe fuel fd fds) ≡ false
  unfolding probe
  probe-same zero fd fds rest e l = absurd (omega arith)
  probe-same (suc fuel) fd fds rest e l = elim (Bool-cases (contains fds fd)) [
    | inl c ↦ rw c (
        probe-same fuel (fd + 1) fds (erase rest fd)
          (λ x g. contains-erase_ne rest fd x (ground (arith, g)) ∙ e x (omega arith))
          (omega (arith, length-erase_lt rest fd (e fd (omega arith) ∙ c))))
    | inr c ↦ rw c c
  ]

  -- The counter runs over as many numbers as the table has entries, and one of them is free.
  probe-free :
      (fd : ℕ) (fds : List (ℕ × Desc)) → contains fds (probe (suc (length fds)) fd fds) ≡ false
  probe-free fd fds = probe-same (suc (length fds)) fd fds fds (λ x h. refl) (omega arith)

  -- allocate_fd returns a descriptor that afterwards stands for the new file, while every other one
  -- stands for what it stood for. Without force the descriptor was free before. A descriptor that was
  -- free is given as asked, and with force it is always given as asked.
  pub allocate_fd_lem :
      (desc : Desc) (fd : ℕ) (force : Bool) (t : FdTable Desc)
      → let out = allocate_fd desc fd force t in
        (get out.1 out.0 ≡ some desc)
        × ((x : ℕ) → x ≢ out.0 → get out.1 x ≡ get t x)
        × (force ≡ false → get t out.0 ≡ none)
        × ((force ≡ true) ⊎ (contains t.fds fd ≡ false) → out.0 ≡ fd)
  unfolding allocate_fd get find_fd
  allocate_fd_lem desc fd true t = elim (Bool-cases (contains t.fds fd)) [
    | inl c ↦ rw c (
      ground arith,
      λ x n. ground (arith, n, find_fd-erase_ne t.fds fd x n),
      ground arith,
      ground arith,
    )
    | inr c ↦ rw c (ground arith, λ x n. ground (arith, n), ground arith, ground arith)
  ]
  allocate_fd_lem desc fd false t = elim (Bool-cases (contains t.fds fd)) [
    | inl c ↦ rw c (
      ground arith,
      λ x n. ground (arith, n),
      λ _.
          find_fd-contains t.fds (probe (suc (length t.fds)) t.next_fd t.fds)
            (probe-free t.next_fd t.fds),
      ground arith,
    )
    | inr c ↦
        rw c
          (ground arith, λ x n. ground (arith, n), λ _. find_fd-contains t.fds fd c, ground arith)
  ]

  -- close answers whether the descriptor was open; afterwards it is closed, and every other one stands
  -- for what it stood for.
  pub close_lem :
      (fd : ℕ) (t : FdTable Desc)
      → ((close t fd).0 ≡ contains t.fds fd)
        × (get (close t fd).1 fd ≡ none)
        × ((x : ℕ) → x ≢ fd → get (close t fd).1 x ≡ get t x)
  unfolding close get
  close_lem fd t = (
    refl,
    find_fd-contains (erase t.fds fd) fd (contains-erase_self t.fds fd),
    λ x n. find_fd-erase_ne t.fds fd x n,
  )
