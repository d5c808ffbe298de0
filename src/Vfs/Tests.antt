-- ===== src/Vfs/Tests.antt =====
-- Runs of the descriptor table and the access check of kernel/source/system/vfs.cpp.
use ilobilix.Base.{ℕ, ◌≡◌, ◌≢◌, ◌↔◌, ◌⊎◌, refl, true, false, [], ◌∷◌, none, some, arith}
use ilobilix.Vfs.{FdTable, contains, probe, granted, has, get, allocate_fd, Stat, check_access}
use ilobilix.Vfs.Table.{allocate_fd_lem}
use ilobilix.Vfs.Access.{Within, digit_for, check_access_lem}

-- Files 10, 11 and 12 stand at 0, 1 and 3.
abbrev table : FdTable ℕ
table = record { fds = (0, 10) ∷ (1, 11) ∷ (3, 12) ∷ []; next_fd = 0 }

allocate_fd_free : (allocate_fd 13 1 false table).0 ≡ 2
unfolding allocate_fd contains probe
allocate_fd_free = refl

allocate_fd_lem_example :
    (get (allocate_fd 13 1 false table).1 (allocate_fd 13 1 false table).0 ≡ some 13)
    × ((x : ℕ)
        → x ≢ (allocate_fd 13 1 false table).0
        → get (allocate_fd 13 1 false table).1 x ≡ get table x)
    × (false ≡ false → get table (allocate_fd 13 1 false table).0 ≡ none)
    × ((false ≡ true) ⊎ (contains table.fds 1 ≡ false) → (allocate_fd 13 1 false table).0 ≡ 1)
allocate_fd_lem_example = allocate_fd_lem 13 1 false table

-- A file of mode 0640 of user 5 and group 6
abbrev owned : Stat
owned = record { st_mode = 416; st_uid = 5; st_gid = 6 }

check_access_write : check_access 8 6 owned 2 ≡ false
unfolding check_access granted has
check_access_write = refl

check_access_lem_example : (check_access 8 6 owned 4 ≡ true) ↔ Within 4 (digit_for 8 6 owned)
check_access_lem_example = check_access_lem 8 6 owned 4 (omega arith) (omega arith)
