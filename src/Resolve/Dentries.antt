-- ===== src/Resolve/Dentries.antt =====
-- kernel/interfaces/system/vfs.cppm: dentries, mounts and paths, and the loops of
-- kernel/source/system/vfs.cpp that look one segment up.
use ilobilix.Base.{
  ℕ, zero, suc, ◌==◌, Bool, true, false, not, ◌||◌, List, [], ◌∷◌, if◌then◌else◌, Option, none,
  some, ◌≡◌, ◌⊎◌,
}
use ilobilix.Resolve.Segments.{Text, is_text, slash, join, plain}

-- `stat::type`
pub data Kind : Type 0 where
  s_ifsock s_iflnk s_ifreg s_ifblk s_ifdir s_ifchr s_ififo : Kind

abbrev pub is_dir : Kind → Bool
is_dir s_ifdir = true
is_dir s_ifsock = false
is_dir s_iflnk = false
is_dir s_ifreg = false
is_dir s_ifblk = false
is_dir s_ifchr = false
is_dir s_ififo = false

abbrev pub is_link : Kind → Bool
is_link s_iflnk = true
is_link s_ifdir = false
is_link s_ifsock = false
is_link s_ifreg = false
is_link s_ifblk = false
is_link s_ifchr = false
is_link s_ififo = false

-- `struct path`
pub record VfsPath : Type 0 where
  pub mnt : ℕ
  pub dentry : ℕ

pub record ResolveRes : Type 0 where
  pub parent : VfsPath
  pub target : VfsPath

pub record Inode : Type 0 where
  pub ino : ℕ
  pub kind : Kind

pub record Dentry : Type 0 where
  pub name : Text
  pub symlinked_to : Text
  pub inode : Inode
  pub parent : ℕ
  pub children : List (Text × ℕ)
  pub child_mounts : List ℕ

pub record Mount : Type 0 where
  pub root : ℕ
  pub mounted_on : Option VfsPath

-- All dentries and mounts, the number of the next dentry, the root directory of the process, and
-- the state of the filesystems
pub record Forest (W : Type 0) : Type 0 where
  pub dentries : ℕ → Dentry
  pub mounts : ℕ → Mount
  pub fresh : ℕ
  pub root : VfsPath
  pub world : W

pub data Error : Type 0 where
  already_exists not_found not_a_dir not_a_block symloop_max target_is_a_dir target_is_busy
        dir_not_empty different_filesystem invalid_symlink invalid_device invalid_type :
      Error
  other_error : ℕ → Error

-- A call returns, fails, stops the kernel, or has no fuel left.
pub data Outcome (W A : Type 0) : Type 0 where
  ok : A → Forest W → Outcome W A
  fail : Error → Forest W → Outcome W A
  stopped : Outcome W A
  spent : Outcome W A

infixl 5 ◌>>=◌
abbrev pub ◌>>=◌ : {W A B : Type 0} → Outcome W A → (A → Forest W → Outcome W B) → Outcome W B
ok a s >>= f = f a s
fail e s >>= f = fail e s
stopped >>= f = stopped
spent >>= f = spent

-- What is used of cwalk: an absolute path begins with a slash, and joined names, none of which is
-- empty, `.` or `..`, are normal.
abbrev pub is_name : Text → Bool
is_name t = not (is_text t [] || is_text t (b'.' ∷ []) || is_text t (b'.' ∷ b'.' ∷ []))

abbrev pub AllNames : List Text → Type 0
AllNames [] = Unit {0}
AllNames (t ∷ ts) = (is_name t ≡ true) × (plain t ≡ true) × AllNames ts

pub record PathLib : Type 0 where
  pub normalise : Text → Text
  pub is_absolute : Text → Bool
  pub basename : Text → Text
  pub dirname : Text → Text
  pub absolute-join : (t : Text) → is_absolute (slash ∷ t) ≡ true
  pub normalise-join :
      (t : Text) (ts : List Text) → AllNames (t ∷ ts) → normalise (join (t ∷ ts)) ≡ join (t ∷ ts)

-- The operations of a filesystem, on one of its mounts; `none` and `inl` are errors. `mount` gives the
-- number of a mount that has a root.
pub record Filesystem (W : Type 0) : Type 0 where
  pub populate : W → ℕ → Inode → Text → Option (List (Text × Inode)) × W
  pub create : W → ℕ → Inode → Text → Kind → (Error ⊎ Inode) × W
  pub symlink : W → ℕ → Inode → Text → Text → (Error ⊎ Inode) × W
  pub link : W → ℕ → Inode → Text → Inode → (Error ⊎ Inode) × W
  pub unlink : W → ℕ → Inode → (Error ⊎ Unit {0}) × W
  pub mount : W → Option ℕ → (Error ⊎ ℕ) × W

unfoldable pub lookup : Text → List (Text × ℕ) → Option ℕ
lookup t [] = none
lookup t ((u, d) ∷ l) = if is_text u t then some d else lookup t l

module _ {W : Type 0} where
  -- `children[name] = dentry` of a new dentry
  unfoldable pub add_child : Dentry → ℕ → Forest W → Forest W
  add_child d parent s = record s {
    dentries = λ i.
        if i == s.fresh
        then d
        else if i == parent
        then record (s.dentries parent) {
          children = (d.name, s.fresh) ∷ (s.dentries parent).children;
        }
        else s.dentries i;
    fresh = suc s.fresh;
  }

  -- The loop of `populate`
  unfoldable pub add_all : List (Text × Inode) → ℕ → Forest W → Forest W
  unfolding add_child
  add_all [] parent s = s
  add_all ((name, inode) ∷ l) parent s = add_all l parent (
      add_child
        (record {
          name = name;
          symlinked_to = [];
          inode = inode;
          parent = parent;
          children = [];
          child_mounts = [];
        })
        parent s)

  -- `resolve_mounts`
  unfoldable pub climb : ℕ → VfsPath → Forest W → Outcome W VfsPath
  climb zero p s = spent
  climb (suc n) p s =
      let up = elim ((s.mounts p.mnt).mounted_on) as (λ x. Outcome W VfsPath) [
        | none ↦ stopped
        | some q ↦ climb n q s
      ] in
      if p.mnt == 0 then stopped else if p.dentry == (s.mounts p.mnt).root then up else ok p s

  -- The first of the mounts that is mounted on a place of the mount
  unfoldable pub find_mount : ℕ → List ℕ → Forest W → Option ℕ
  find_mount mnt [] s = none
  find_mount mnt (m ∷ ms) s =
      if (elim ((s.mounts m).mounted_on) [ none ↦ false | some q ↦ mnt == q.mnt ])
      then some m
      else find_mount mnt ms s

  -- From `again` on
  unfoldable pub enter : ℕ → VfsPath → Forest W → Outcome W VfsPath
  unfolding find_mount
  enter zero p s = spent
  enter (suc n) p s = elim (find_mount p.mnt (s.dentries p.dentry).child_mounts s) [
    | none ↦ ok p s
    | some m ↦ enter n (record { mnt = m; dentry = (s.mounts m).root }) s
  ]

  module _ (fs : Filesystem W) where
    unfoldable pub populate : VfsPath → Text → Forest W → Bool × Forest W
    unfolding add_all
    populate p name s =
        let r = fs.populate s.world p.mnt (s.dentries p.dentry).inode name in
        let s' = record s { world = r.1 } in
        elim r.0 [
          | none ↦ (false, s')
          | some [] ↦ (false, s')
          | some (e ∷ l) ↦ (true, add_all (e ∷ l) p.dentry s')
        ]

    -- `try_again`: the lookup, repeated as long as `populate` adds something
    unfoldable pub find_child : ℕ → VfsPath → Text → Forest W → Outcome W (Option ℕ)
    unfolding populate lookup
    find_child zero p name s = spent
    find_child (suc n) p name s = elim (lookup name (s.dentries p.dentry).children) [
      | some d ↦ ok (some d) s
      | none ↦
          let r = populate p name s in
          let again = find_child n p name r.1 in
          if p.mnt == 0 then stopped else if r.0 then again else ok none r.1
    ]
