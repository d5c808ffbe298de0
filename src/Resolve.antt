-- ===== src/Resolve.antt =====
-- kernel/source/system/vfs.cpp: path resolution. Dentries, mounts and inodes are numbers that stand
-- for the pointers, and the mount 0 is a null pointer. The filesystems and the path library (cwalk)
-- are parameters.
pub mod Segments
pub mod Dentries
pub mod Entries
pub mod Create
pub mod Located
pub mod Round
pub mod Symlink
pub mod Tests
use ilobilix.Base.{
  ℕ, zero, suc, ◌+◌, ◌==◌, Bool, true, false, not, ◌||◌, ◌&&◌, List, [], ◌∷◌, ◌++◌, if◌then◌else◌,
  Option, none, some, ◌≡◌,
}
use ilobilix.Resolve.Segments.{Text, is_text, slash, split, join}
use ilobilix.Resolve.Dentries.{
  Kind, is_dir, is_link, VfsPath, ResolveRes, Dentry, Forest, Error, not_found, not_a_dir,
  invalid_symlink, symloop_max, Outcome, ok, fail, stopped, spent, ◌>>=◌, climb, enter, find_child,
  Filesystem, PathLib,
}

abbrev pub dots : Text
dots = b'.' ∷ b'.' ∷ []

abbrev pub is_empty : {A : Type 0} → List A → Bool
is_empty [] = true
is_empty (x ∷ l) = false

-- `symloop_max` of kernel/interfaces/system/vfs.cppm
abbrev pub symloop_depth : ℕ
symloop_depth = 40

module _ {W : Type 0} where
  abbrev pub kind_of : VfsPath → Forest W → Kind
  kind_of p s = (s.dentries p.dentry).inode.kind

  unfoldable pub parent_of : VfsPath → Forest W → VfsPath
  parent_of p s = record { mnt = p.mnt; dentry = (s.dentries p.dentry).parent }

  -- The branch of `..`, up to the test of `last`
  unfoldable pub go_up : ℕ → VfsPath → Forest W → Outcome W VfsPath
  unfolding climb parent_of
  go_up n current s = climb n current s >>= λ q s'. climb n (parent_of q s') s'

  module _ (fs : Filesystem W) (n : ℕ)
      (reduce : VfsPath → VfsPath → Forest W → Outcome W VfsPath) where
    -- A segment that is found, behind the mounts on it: what the next one is looked up in
    unfoldable pub go_down : VfsPath → VfsPath → Forest W → Outcome W VfsPath
    go_down current next s =
        (if is_link (kind_of next s) then reduce current next s else ok next s) >>= λ q s'.
        (if is_dir (kind_of q s') then ok q s' else fail not_a_dir s')

    -- The loop of `resolve` over the segments
    unfoldable pub walk : List Text → VfsPath → Forest W → Outcome W ResolveRes
    unfolding go_up go_down find_child enter
    walk [] current s = fail not_found s
    walk (segment ∷ rest) current s =
        let more = walk rest in
        if is_text segment []
        then more current s
        else if is_text segment dots
        then (go_up n current s >>= λ q s'.
            (if is_empty rest
              then (go_up n q s' >>= λ p u. ok (record { parent = p; target = q }) u)
              else more q s'))
        else (find_child fs n current segment s >>= λ found s'. (elim found [
          | none ↦ fail not_found s'
          | some d ↦ enter n (record { mnt = current.mnt; dentry = d }) s' >>= λ next u.
              (if is_empty rest
                then ok (record { parent = current; target = next }) u
                else (go_down current next u >>= λ q v. more q v))
        ]))

  -- The lambda `is_symlink` of `reduce`
  unfoldable pub is_symlink : VfsPath → Forest W → Bool
  is_symlink p s = is_link (kind_of p s) && not (is_empty (s.dentries p.dentry).symlinked_to)

  -- The loop of `reduce`, which calls `resolve`
  unfoldable pub reduce_loop :
      (VfsPath → Text → Forest W → Outcome W ResolveRes)
      → ℕ
      → VfsPath
      → VfsPath
      → Forest W
      → Outcome W VfsPath
  unfolding is_symlink
  reduce_loop resolve zero parent src s = if is_symlink src s then fail symloop_max s else ok src s
  reduce_loop resolve (suc depth) parent src s =
      let again = reduce_loop resolve depth in
      if not (is_symlink src s)
      then ok src s
      else elim (resolve parent (s.dentries src.dentry).symlinked_to s) [
        | ok ret s' ↦
            if ret.target.dentry == src.dentry
            then fail invalid_symlink s'
            else again ret.parent ret.target s'
        | fail e s' ↦ fail invalid_symlink s'
        | stopped ↦ stopped
        | spent ↦ spent
      ]

  module _ (fs : Filesystem W) (lib : PathLib) where
    -- `parent`, or the root directory of the process
    abbrev pub start_of : Option VfsPath → Text → Forest W → VfsPath
    start_of none path s = s.root
    start_of (some p) path s = if lib.is_absolute path then s.root else p

    -- The fuel bounds the calls of `resolve` inside one another, and the rounds of each inner loop.
    unfoldable pub resolve : ℕ → Option VfsPath → Text → Forest W → Outcome W ResolveRes
    unfolding walk split reduce_loop
    resolve zero parent path s = spent
    resolve (suc n) parent path s =
        let reduce = reduce_loop (λ p t s'. resolve n (some p) t s') symloop_depth in
        let text = lib.normalise path in
        let start = start_of parent text s in
        if is_text text (slash ∷ []) || is_text text [] || is_text text (b'.' ∷ [])
        then ok (record { parent = start; target = start }) s
        else if start.mnt == 0
        then stopped
        else walk fs n reduce (split text) start s

    unfoldable pub path_for : ℕ → Text → Forest W → Outcome W VfsPath
    unfolding resolve
    path_for n path s = resolve n (some s.root) path s >>= λ r s'. ok r.target s'

    unfoldable pub reduce : ℕ → VfsPath → VfsPath → Forest W → Outcome W VfsPath
    unfolding reduce_loop resolve
    reduce n parent src s =
        reduce_loop (λ p t s'. resolve n (some p) t s') symloop_depth parent src s

  -- The loop of `pathname_from`, with the segments found so far, the last one first, and the root of
  -- everything
  unfoldable pub names_from : ℕ → ℕ → ℕ → List Text → VfsPath → Forest W → Outcome W (List Text)
  unfolding climb parent_of
  names_from zero k top names p s = spent
  names_from (suc n) k top names p s = climb k p s >>= λ q s'.
      (let more = names_from n k top ((s'.dentries q.dentry).name ∷ names) (parent_of q s') s' in
        if q.dentry == top then ok names s' else more)

  unfoldable pub pathname_from : ℕ → ℕ → ℕ → VfsPath → Forest W → Outcome W Text
  unfolding names_from join
  pathname_from n k top p s = names_from n k top [] p s >>= λ names s'.
      ok (if is_empty (join names) then slash ∷ [] else join names) s'
