-- ===== src/Resolve/Symlink.antt =====
-- kernel/source/system/vfs.cpp: `reduce` and `resolve` on symbolic links, and `..` below a mount.
use ilobilix.Base.{
  ℕ, zero, suc, ◌≡◌, ◌≢◌, ◌==◌, true, false, List, [], ◌∷◌, ◌++◌, none, some, refl, ap, ◌∙◌, arith,
}
use ilobilix.Resolve.Segments.{Text, is_text, slash, split, plain, split_first, split_some}
use ilobilix.Resolve.Dentries.{
  VfsPath, ResolveRes, Forest, Outcome, ok, fail, spent, lookup, enter, find_child, Filesystem,
  PathLib, is_link, is_name, symloop_max,
}
use ilobilix.Resolve.{
  parent_of, go_up, walk, go_down, resolve, reduce, reduce_loop, symloop_depth, is_symlink, dots,
  is_empty,
}
use ilobilix.Resolve.Located.{mounted, root_of, climb_here, climb_down}

short_text : (c : ℕ) (t u : Text) → is_text t [] ≡ false → is_text (t ++ slash ∷ u) (c ∷ []) ≡ false
unfolding is_text
short_text c [] u h = cc
short_text c (d ∷ []) u h = ground arith
short_text c (d ∷ e ∷ t) u h = ground arith

not_empty : (t u : Text) → is_text t [] ≡ false → is_empty (t ++ u) ≡ false
unfolding is_text
not_empty [] u h = cc
not_empty (c ∷ cs) u h = refl

long_text : (t u : Text) → is_text t [] ≡ false → is_text (t ++ slash ∷ u) [] ≡ false
unfolding is_text
long_text [] u h = cc
long_text (c ∷ cs) u h = refl

module _ {W : Type 0} (fs : Filesystem W) (lib : PathLib) (s : Forest W) where
  cycle_loop :
      (n : ℕ) (Cycle : VfsPath → VfsPath → Type 0)
      → ((p q : VfsPath)
          → Cycle p q
          → (is_symlink q s ≡ true)
            × ((r : ResolveRes) × (resolve fs lib n (some p) (s.dentries q.dentry).symlinked_to s
                  ≡ ok r s)
                × (r.target.dentry ≢ q.dentry)
                × Cycle r.parent r.target))
      → (depth : ℕ) (p q : VfsPath) → Cycle p q
      → reduce_loop (λ p t s'. resolve fs lib n (some p) t s') depth p q s ≡ fail symloop_max s
  unfolding reduce_loop
  cycle_loop n Cycle goes_on zero p q c = rw (reduce_loop, (goes_on p q c).0) refl
  cycle_loop n Cycle goes_on (suc depth) p q c =
      let g = goes_on p q c in
      let other : (g.1.0.target.dentry == q.dentry) ≡ false = ground (arith, g.1.2) in
      rw (reduce_loop, g.0, g.1.1, other)
        (cycle_loop n Cycle goes_on depth g.1.0.parent g.1.0.target g.1.3)

  -- If the links of a set each resolve, leaving the state, to another link of the set, reduce of a
  -- link in it fails with symloop_max and leaves the state.
  pub reduce_cycle :
      (n : ℕ) (Cycle : VfsPath → VfsPath → Type 0)
      → ((p q : VfsPath)
          → Cycle p q
          → (is_symlink q s ≡ true)
            × ((r : ResolveRes) × (resolve fs lib n (some p) (s.dentries q.dentry).symlinked_to s
                  ≡ ok r s)
                × (r.target.dentry ≢ q.dentry)
                × Cycle r.parent r.target))
      → (p q : VfsPath) → Cycle p q
      → reduce fs lib n p q s ≡ fail symloop_max s
  unfolding reduce
  reduce_cycle n Cycle goes_on p q c = cycle_loop n Cycle goes_on symloop_depth p q c

  walk_spent :
      (r : VfsPath → VfsPath → Forest W → Outcome W VfsPath) (p : VfsPath) (d : ℕ) (name u : Text)
      (us : List Text)
      → is_name name ≡ true
      → lookup name (s.dentries p.dentry).children ≡ some d
      → mounted s (record { mnt = p.mnt; dentry = d }) ≡ none
      → is_link (s.dentries d).inode.kind ≡ true
      → r p (record { mnt = p.mnt; dentry = d }) s ≡ spent
      → (n : ℕ) → walk fs n r (name ∷ u ∷ us) p s ≡ spent
  unfolding walk find_child enter go_down
  walk_spent r p d name u us w e m k x zero =
      let full : is_text name [] ≡ false = ground (arith, w) in
      let down : is_text name dots ≡ false = ground (arith, w) in rw (walk, full, down) refl
  walk_spent r p d name u us w e m k x (suc n) =
      let full : is_text name [] ≡ false = ground (arith, w) in
      let down : is_text name dots ≡ false = ground (arith, w) in
      rw (walk, full, down, find_child, e, enter, m, k, x) refl

  -- If the entry of a directory with a name is a symbolic link, with no mount on it, to a relative
  -- and normal path that begins with that same name and a slash, then resolve of this path in the
  -- directory has no answer with any fuel.
  pub resolve_spent :
      (p : VfsPath) (d : ℕ) (name rest : Text)
      → p.mnt ≢ 0
      → is_name name ≡ true
      → plain name ≡ true
      → lookup name (s.dentries p.dentry).children ≡ some d
      → mounted s (record { mnt = p.mnt; dentry = d }) ≡ none
      → is_link (s.dentries d).inode.kind ≡ true
      → (s.dentries d).symlinked_to ≡ name ++ slash ∷ rest
      → lib.normalise (name ++ slash ∷ rest) ≡ name ++ slash ∷ rest
      → lib.is_absolute (name ++ slash ∷ rest) ≡ false
      → (n : ℕ) → resolve fs lib n (some p) (name ++ slash ∷ rest) s ≡ spent
  unfolding resolve is_symlink reduce_loop
  resolve_spent p d name rest z w f e m k to norm rel zero = refl
  resolve_spent p d name rest z w f e m k to norm rel (suc n) =
      let before = resolve_spent p d name rest z w f e m k to norm rel n in
      let full : is_text name [] ≡ false = ground (arith, w) in
      let real : (p.mnt == 0) ≡ false = ground (arith, z) in
      let parts = split_some rest in
      let parted : split (name ++ slash ∷ rest) ≡ name ∷ parts.0 ∷ parts.1 =
        split_first name rest f ∙ ap (◌∷◌ name) parts.2 in
      let filled : is_empty (name ++ slash ∷ rest) ≡ false = not_empty name (slash ∷ rest) full in
      rw
        (
          resolve,
          norm,
          short_text slash name rest full,
          long_text name rest full,
          short_text b'.' name rest full,
          rel,
          real,
          parted,
        )
        (walk_spent _ p d name parts.0 parts.1 w e m k
          (rw (reduce_loop, k, to, filled, before) refl) n)

module _ {W : Type 0} (s : Forest W) where
  -- From an entry directly below the root of a mount, `..` leads to the place that the mount covers,
  -- where that place is not the root of its own mount.
  pub go_up_covered :
      (m d : ℕ) (q : VfsPath) (c : ℕ)
      → m ≢ 0
      → (s.dentries d).parent ≡ root_of s m
      → d ≢ root_of s m
      → (s.mounts m).mounted_on ≡ some q
      → q.mnt ≢ 0
      → q.dentry ≢ root_of s q.mnt
      → go_up (suc (suc c)) (record { mnt = m; dentry = d }) s ≡ ok q s
  unfolding go_up parent_of
  go_up_covered m d q c z e below on z' top =
      rw
        (
          climb_here s (suc c) (record { mnt = m; dentry = d }) below z,
          e,
          climb_down s (suc c) m q z on,
        )
        (climb_here s c q top z')
