-- ===== src/Resolve/Entries.antt =====
-- kernel/source/system/vfs.cpp: `mount`, `create`, `symlink`, `link`, `unlink` and `stat`.
use ilobilix.Base.{
  ℕ, ◌==◌, Bool, true, false, not, ◌||◌, ◌&&◌, List, [], ◌∷◌, ◌++◌, if◌then◌else◌, Option, none,
  some, ◌⊎◌, inl, inr,
}
use ilobilix.Resolve.Segments.{Text, is_text}
use ilobilix.Resolve.Dentries.{
  Kind, s_ifchr, s_ifblk, s_ifdir, s_iflnk, s_ifsock, s_ifreg, s_ififo, is_dir, is_link, VfsPath,
  ResolveRes, Inode, Forest, Error, already_exists, not_a_dir, not_a_block, target_is_a_dir,
  target_is_busy, dir_not_empty, different_filesystem, invalid_device, invalid_type, Outcome, ok,
  fail, stopped, spent, ◌>>=◌, lookup, add_child, populate, Filesystem, PathLib,
}
use ilobilix.Resolve.{kind_of, resolve, reduce, path_for, is_empty}

abbrev pub is_chr : Kind → Bool
is_chr s_ifchr = true
is_chr s_ifblk = false
is_chr s_ifdir = false
is_chr s_iflnk = false
is_chr s_ifsock = false
is_chr s_ifreg = false
is_chr s_ififo = false

abbrev pub is_blk : Kind → Bool
is_blk s_ifblk = true
is_blk s_ifchr = false
is_blk s_ifdir = false
is_blk s_iflnk = false
is_blk s_ifsock = false
is_blk s_ifreg = false
is_blk s_ififo = false

-- `erase` of a name
unfoldable pub remove_name : Text → List (Text × ℕ) → List (Text × ℕ)
remove_name t [] = []
remove_name t ((u, d) ∷ l) =
    let rest = remove_name t l in if is_text u t then rest else (u, d) ∷ rest

abbrev pub inode_of : {W : Type 0} → VfsPath → Forest W → Inode
inode_of p s = (s.dentries p.dentry).inode

module _ {W : Type 0} (fs : Filesystem W) (lib : PathLib) (n : ℕ) where
  -- The new name must not resolve.
  unfoldable pub absent : Option VfsPath → Text → Forest W → Outcome W (Unit {0})
  unfolding resolve
  absent parent path s = elim (resolve fs lib n parent path s) [
    | ok r s' ↦ fail already_exists s'
    | fail e s' ↦ ok tt s'
    | stopped ↦ stopped
    | spent ↦ spent
  ]

  -- What a filesystem has made gets a dentry in the directory.
  unfoldable pub attach : VfsPath → Text → Text → (Error ⊎ Inode) × W → Forest W → Outcome W VfsPath
  unfolding add_child
  attach parent name symlinked_to made s =
      let s' = record s { world = made.1 } in
      elim made.0 [
        | inl e ↦ fail e s'
        | inr inode ↦
            ok (record { mnt = parent.mnt; dentry = s.fresh })
              (add_child
                (record {
                  name = name;
                  symlinked_to = symlinked_to;
                  inode = inode;
                  parent = parent.dentry;
                  children = [];
                  child_mounts = [];
                })
                parent.dentry s')
      ]

  -- `dev::get_cdev_ops` finds operations of a device.
  unfoldable pub create :
      (ℕ → Bool) → Option VfsPath → Text → Kind → ℕ → Forest W → Outcome W VfsPath
  unfolding absent attach resolve
  create has_ops parent path mode dev s =
      (if dev == 0
        then ok tt s
        else if not (is_chr mode || is_blk mode)
        then fail invalid_type s
        else if not (has_ops dev)
        then fail invalid_device s
        else ok tt s)
      >>= λ _ a. absent parent path a >>= λ _ b.
          resolve fs lib n parent (lib.dirname path) b >>= λ r c.
          attach r.target (lib.basename path) []
            (fs.create c.world r.target.mnt (inode_of r.target c) (lib.basename path) mode) c

  unfoldable pub symlink : Option VfsPath → Text → Text → Forest W → Outcome W VfsPath
  unfolding absent attach resolve
  symlink parent src target s = absent parent src s >>= λ _ b.
      resolve fs lib n parent (lib.dirname src) b >>= λ r c.
      attach r.target (lib.basename src) target
        (fs.symlink c.world r.target.mnt (inode_of r.target c) (lib.basename src) target) c

  -- `res` as `follow_links` leaves it; `link` goes on with `tgt`, which was taken before.
  unfoldable pub follow : Bool → ResolveRes → Forest W → Outcome W ResolveRes
  follow follow_links t s =
      if follow_links && is_link (kind_of t.target s)
      then (reduce fs lib n t.parent t.target s >>= λ q a. ok (record t { target = q }) a)
      else ok t s

  unfoldable pub link :
      Option VfsPath → Text → Option VfsPath → Text → Bool → Forest W → Outcome W VfsPath
  unfolding absent attach resolve follow
  link parent src tgtparent target follow_links s = absent parent src s >>= λ _ b.
      resolve fs lib n parent (lib.dirname src) b >>= λ r c.
      resolve fs lib n tgtparent target c >>= λ t d. follow follow_links t d >>= λ res e.
      (let tgt = t.target in
        if is_dir (kind_of tgt e)
        then fail target_is_a_dir e
        else if not (r.target.mnt == tgt.mnt)
        then fail different_filesystem e
        else attach r.target (lib.basename src) []
            (fs.link e.world r.target.mnt (inode_of r.target e) (lib.basename src) (inode_of tgt e))
            e)

  -- The checks of a directory
  unfoldable pub removable : VfsPath → Forest W → Outcome W (Unit {0})
  unfolding populate
  removable p s =
      let s' = (populate fs p [] s).1 in
      if not (is_dir (kind_of p s))
      then ok tt s
      else if p.dentry == (s.mounts p.mnt).root
      then fail target_is_busy s
      else if not (is_empty (s.dentries p.dentry).children)
      then fail dir_not_empty s
      else if not (is_empty (s'.dentries p.dentry).children)
      then fail dir_not_empty s'
      else ok tt s'

  -- The erasure of the name; without it the kernel stops.
  unfoldable pub detach : ℕ → Text → Forest W → Outcome W (Unit {0})
  unfolding lookup remove_name
  detach parent name s = elim (lookup name (s.dentries parent).children) [
    | none ↦ stopped
    | some d ↦ ok tt (record s {
      dentries = λ i.
          if i == parent
          then record (s.dentries parent) {
            children = remove_name name (s.dentries parent).children;
          }
          else s.dentries i;
    })
  ]

  unfoldable pub unlink : Option VfsPath → Text → Forest W → Outcome W (Unit {0})
  unfolding resolve removable detach
  unlink parent path s = resolve fs lib n parent path s >>= λ r a. removable r.target a >>= λ _ b.
      (let gone = fs.unlink b.world r.target.mnt (inode_of r.target b) in
        let b' = record b { world = gone.1 } in
        elim gone.0 [ inl e ↦ fail e b' | inr _ ↦ detach r.parent.dentry (lib.basename path) b' ])

  -- The type of the inode stands for its `stat`.
  unfoldable pub stat : Option VfsPath → Text → Forest W → Outcome W Inode
  unfolding resolve
  stat parent path s = resolve fs lib n parent path s >>= λ r a. ok (inode_of r.target a) a

  -- The block device that is mounted
  unfoldable pub source_of : Text → Forest W → Outcome W (Option ℕ)
  unfolding path_for
  source_of source s =
      if is_empty source
      then ok none s
      else (path_for fs lib n source s >>= λ p a.
          (if is_blk (kind_of p a) then ok (some p.dentry) a else fail not_a_block a))

  unfoldable pub mount : Text → Text → Forest W → Outcome W (Unit {0})
  unfolding source_of path_for
  mount source target s = source_of source s >>= λ src a. path_for fs lib n target a >>= λ t b.
      (let made = fs.mount b.world src in
        if not (is_dir (kind_of t b)) then fail not_a_dir b else elim made.0 [
          | inl e ↦ fail e (record b { world = made.1 })
          | inr m ↦ ok tt (record b {
            world = made.1;
            mounts =
                λ i. if i == m then record (b.mounts m) { mounted_on = some t } else b.mounts i;
            dentries = λ i.
                if i == t.dentry
                then record (b.dentries i) {
                  child_mounts = (b.dentries i).child_mounts ++ (m ∷ []);
                }
                else b.dentries i;
          })
        ])
