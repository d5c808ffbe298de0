-- ===== src/Resolve/Located.antt =====
-- kernel/source/system/vfs.cpp: the place of a path in the tree of directories and mounts, and the
-- loops that go over mounts.
use ilobilix.Base.{
  ℕ, zero, suc, ◌+◌, ◌-◌, ◌≡◌, ◌≢◌, ◌≤◌, ◌<◌, ◌==◌, true, false, List, [], ◌∷◌, Option, none, some,
  refl, sym, ap, ◌∙◌, arith,
}
use ilobilix.Resolve.Segments.{Text}
use ilobilix.Resolve.Dentries.{VfsPath, Forest, ok, lookup, climb, enter, find_mount, is_dir}
use ilobilix.Resolve.{kind_of}

module _ {W : Type 0} (s : Forest W) where
  abbrev pub root_of : ℕ → ℕ
  root_of m = (s.mounts m).root

  abbrev pub mounted : VfsPath → Option ℕ
  mounted p = find_mount p.mnt (s.dentries p.dentry).child_mounts s

  -- `k` mounts lead from a path to what it shows.
  abbrev pub Over : ℕ → VfsPath → VfsPath → Type 0
  Over zero p q = (mounted p ≡ none) × (p ≡ q)
  Over (suc k) p q =
      (m : ℕ) × (mounted p ≡ some m)
      × ((s.mounts m).mounted_on ≡ some p)
      × (m ≢ 0)
      × Over k (record { mnt = m; dentry = root_of m }) q

  -- `q` is what the entry of the directory `p` with a name shows, the dentry `d` under `k` mounts.
  pub record Under (b top : ℕ) (p q : VfsPath) (name : Text) : Type 0 where
    pub d : ℕ
    pub k : ℕ
    pub directory : is_dir (kind_of p s) ≡ true
    pub entry : lookup name (s.dentries p.dentry).children ≡ some d
    pub named : (s.dentries d).name ≡ name
    pub back : (s.dentries d).parent ≡ p.dentry
    pub not_top : d ≢ top
    pub not_root : d ≢ root_of p.mnt
    pub on_mount : p.mnt ≢ 0
    pub few : k ≤ b
    pub over : Over k (record { mnt = p.mnt; dentry = d }) q

  -- A path is found by names from the root directory, the last name first; nowhere are more than
  -- `b` mounts on one another.
  abbrev pub Located : ℕ → ℕ → List Text → VfsPath → Type 0
  Located b top [] q = q ≡ s.root
  Located b top (name ∷ names) q = (p : VfsPath) × Under b top p q name × Located b top names p

  -- The root directory of the process is the root of everything.
  pub record IsTop (top : ℕ) : Type 0 where
    pub at_top : s.root.dentry ≡ top
    pub on_mount : s.root.mnt ≢ 0
    pub not_root : s.root.dentry ≢ root_of s.root.mnt

  pub climb_down :
      (j m : ℕ) (p : VfsPath)
      → m ≢ 0
      → (s.mounts m).mounted_on ≡ some p
      → climb (suc j) (record { mnt = m; dentry = root_of m }) s ≡ climb j p s
  unfolding climb
  climb_down j m p z e =
      let real : (m == 0) ≡ false = ground (arith, z) in
      let same : (root_of m == root_of m) ≡ true = ground arith in rw (real, same, e) refl

  climb-Over : (k j n : ℕ) (p q : VfsPath) → Over k p q → n ≡ k + j → climb n q s ≡ climb j p s
  climb-Over zero j n p q o e =
      let same : n ≡ j = omega (arith, e) in rw same (ap (λ (x : VfsPath). climb j x s) (sym o.1))
  climb-Over (suc k) j n p q o e =
      climb-Over k (suc j) n _ q o.4 (omega (arith, e)) ∙ climb_down j o.0 p o.3 o.2

  pub climb_here :
      (j : ℕ) (p : VfsPath) → p.dentry ≢ root_of p.mnt → p.mnt ≢ 0 → climb (suc j) p s ≡ ok p s
  unfolding climb
  climb_here j p r z =
      let real : (p.mnt == 0) ≡ false = ground (arith, z) in
      let below : (p.dentry == root_of p.mnt) ≡ false = ground (arith, r) in rw (real, below) refl

  pub climb_back :
      (k n : ℕ) (p q : VfsPath)
      → Over k p q
      → p.dentry ≢ root_of p.mnt
      → p.mnt ≢ 0
      → k < n
      → climb n q s ≡ ok p s
  climb_back k n p q o r z l =
      climb-Over k (suc (n - suc k)) n p q o (omega (arith, l)) ∙ climb_here (n - suc k) p r z

  pub enter-Over : (k n : ℕ) (p q : VfsPath) → Over k p q → k < n → enter n p s ≡ ok q s
  unfolding enter
  enter-Over k zero p q o l = absurd (omega arith)
  enter-Over zero (suc n) p q o l = rw (enter, o.0) (ap (λ (x : VfsPath). ok x s) o.1)
  enter-Over (suc k) (suc n) p q o l = rw (enter, o.1) (enter-Over k n _ q o.4 (omega arith))
