-- ===== src/Vfs.antt =====
-- kernel/source/system/vfs.cpp and kernel/interfaces/system/vfs.cppm: the table of file descriptors and
-- the access check. A descriptor is a number, and the hash map is an association list.
pub mod Table
pub mod Access
pub mod Tests
use ilobilix.Base.{
  ℕ, zero, suc, ◌+◌, ◌-◌, ◌==◌, Bool, true, false, ◌&&◌, ◌||◌, not, List, [], ◌∷◌, if◌then◌else◌,
  Option, none, some, select, length, bit_and, bit_or, map,
}

module _ {ℓ} {Desc : Type ℓ} where
  -- `contains`
  unfoldable pub contains : List (ℕ × Desc) → ℕ → Bool
  contains [] fd = false
  contains (e ∷ fds) fd = if e.0 == fd then true else contains fds fd

  unfoldable pub find_fd : List (ℕ × Desc) → ℕ → Option Desc
  find_fd [] fd = none
  find_fd (e ∷ fds) fd = if e.0 == fd then some e.1 else find_fd fds fd

  unfoldable pub erase : List (ℕ × Desc) → ℕ → List (ℕ × Desc)
  unfolding select
  erase fds fd = select (λ e. not (e.0 == fd)) fds

  -- `while (wlocked->contains(fd)) fd++;`, on fuel
  unfoldable pub probe : ℕ → ℕ → List (ℕ × Desc) → ℕ
  unfolding contains
  probe zero fd fds = fd
  probe (suc fuel) fd fds =
      let rest = probe fuel (fd + 1) fds in if contains fds fd then rest else fd

pub record FdTable {ℓ} (Desc : Type ℓ) : Type ℓ where
  pub fds : List (ℕ × Desc)
  pub next_fd : ℕ

module _ {ℓ} {Desc : Type ℓ} where
  unfoldable pub close : FdTable Desc → ℕ → Bool × FdTable Desc
  unfolding contains erase
  close t fd = (contains t.fds fd, record { fds = erase t.fds fd; next_fd = t.next_fd })

  unfoldable pub get : FdTable Desc → ℕ → Option Desc
  unfolding find_fd
  get t fd = find_fd t.fds fd

  unfoldable pub allocate_fd : Desc → ℕ → Bool → FdTable Desc → ℕ × FdTable Desc
  unfolding contains erase probe
  allocate_fd desc fd force t =
      let free = probe (suc (length t.fds)) t.next_fd t.fds in
      if not (contains t.fds fd)
      then (fd, record { fds = (fd, desc) ∷ t.fds; next_fd = t.next_fd })
      else if force
      then (fd, record { fds = (fd, desc) ∷ erase t.fds fd; next_fd = t.next_fd })
      else (free, record { fds = (free, desc) ∷ t.fds; next_fd = t.next_fd + 1 })

-- `is_read` and `is_write` on the flags of `open`
abbrev pub o_path : ℕ
o_path = 2097152

abbrev pub o_accmode : ℕ
o_accmode = bit_or 3 o_path

abbrev pub o_rdonly : ℕ
o_rdonly = 0

abbrev pub o_wronly : ℕ
o_wronly = 1

abbrev pub o_rdwr : ℕ
o_rdwr = 2

unfoldable pub is_read : ℕ → Bool
is_read flags = (bit_and flags o_accmode == o_rdonly) || (bit_and flags o_accmode == o_rdwr)

unfoldable pub is_write : ℕ → Bool
is_write flags = (bit_and flags o_accmode == o_wronly) || (bit_and flags o_accmode == o_rdwr)

-- The fields of `struct stat` that the check reads.
pub record Stat : Type 0 where
  pub st_mode : ℕ
  pub st_uid : ℕ
  pub st_gid : ℕ

abbrev pub x_ok : ℕ
x_ok = 1

abbrev pub w_ok : ℕ
w_ok = 2

abbrev pub r_ok : ℕ
r_ok = 4

abbrev pub s_ifmt : ℕ
s_ifmt = 61440

abbrev pub s_ifdir : ℕ
s_ifdir = 16384

unfoldable pub has : ℕ → ℕ → Bool
has mode bit = not (bit_and mode bit == 0)

-- The last three tests of `check_access`, for the bits of one class of users.
unfoldable pub granted : ℕ → ℕ → ℕ → ℕ → ℕ → Bool
unfolding has
granted mode st_mode rbit wbit xbit =
    if has mode r_ok && not (has st_mode rbit)
    then false
    else if has mode w_ok && not (has st_mode wbit)
    then false
    else if has mode x_ok && not (has st_mode xbit)
    then false
    else true

unfoldable pub check_access : ℕ → ℕ → Stat → ℕ → Bool
unfolding has granted
check_access uid gid stat mode =
    if mode == 0
    then true
    else if uid == 0
    then if not (has mode x_ok)
      then true
      else if bit_and stat.st_mode s_ifmt == s_ifdir
      then true
      else has stat.st_mode (bit_or (bit_or 64 8) 1)
    else if uid == stat.st_uid
    then granted mode stat.st_mode 256 128 64
    else if gid == stat.st_gid
    then granted mode stat.st_mode 32 16 8
    else granted mode stat.st_mode 4 2 1
