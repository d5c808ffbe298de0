-- ===== src/Resolve/Create.antt =====
-- kernel/source/system/vfs.cpp: what `create` leaves for `resolve`, and `link` with `follow_links`.
use ilobilix.Base.{
  ℕ, suc, ◌≡◌, ◌≢◌, ◌==◌, Bool, true, false, ◌||◌, [], ◌∷◌, Option, none, some, refl, ◌∙◌, arith,
  Bool-cases, inl, inr,
}
use ilobilix.Resolve.Segments.{Text, is_text, is_text_refl, slash, plain, split_last}
use ilobilix.Resolve.Dentries.{
  Kind, VfsPath, ResolveRes, Inode, Forest, ok, fail, lookup, enter, find_mount, find_child,
  add_child, Filesystem, PathLib, is_link, is_name, not_found,
}
use ilobilix.Resolve.{kind_of, walk, resolve, reduce, reduce_loop, symloop_depth, dots}
use ilobilix.Resolve.Entries.{inode_of, absent, attach, create, follow, link}

not_slash : (t : Text) → plain t ≡ true → is_text t (slash ∷ []) ≡ false
unfolding is_text
not_slash [] h = refl
not_slash (c ∷ cs) h = ground (arith, h)

module _ {W : Type 0} (fs : Filesystem W) (lib : PathLib) where
  -- A path of one name is one step of the loop.
  resolve_one :
      (m : ℕ) (p : VfsPath) (name : Text) (s : Forest W)
      → p.mnt ≢ 0
      → is_name name ≡ true
      → plain name ≡ true
      → lib.normalise name ≡ name
      → lib.is_absolute name ≡ false
      → resolve fs lib (suc m) (some p) name s
        ≡ walk fs m
            (reduce_loop (λ p t s'. resolve fs lib m (some p) t s') symloop_depth)
            (name ∷ [])
            p
            s
  unfolding resolve
  resolve_one m p name s z w f norm rel =
      let full : is_text name [] ≡ false = ground (arith, w) in
      let here : is_text name (b'.' ∷ []) ≡ false = ground (arith, w) in
      let whole : is_text name (slash ∷ []) ≡ false = not_slash name f in
      let more : (is_text name (slash ∷ []) || is_text name [] || is_text name (b'.' ∷ []))
          ≡ false =
        ground (arith, full, here, whole) in
      let real : (p.mnt == 0) ≡ false = ground (arith, z) in
      rw (resolve, norm, more, rel, real, split_last name f) refl

  module _ (m : ℕ) (p : VfsPath) (name : Text) (s s' : Forest W) (z : p.mnt ≢ 0)
      (w : is_name name ≡ true) (f : plain name ≡ true) (norm : lib.normalise name ≡ name)
      (rel : lib.is_absolute name ≡ false)
      (missing : find_child fs (suc m) p name s ≡ ok none s') where
    unresolved : resolve fs lib (suc (suc m)) (some p) name s ≡ fail not_found s'
    unfolding walk
    unresolved =
        let full : is_text name [] ≡ false = ground (arith, w) in
        let down : is_text name dots ≡ false = ground (arith, w) in
        resolve_one (suc m) p name s z w f norm rel ∙ rw (walk, full, down, missing) refl

    -- The forest with the new dentry
    abbrev grown : Inode → W → Forest W
    unfolding add_child
    grown inode after =
        add_child
          (record {
            name = name;
            symlinked_to = [];
            inode = inode;
            parent = p.dentry;
            children = [];
            child_mounts = [];
          })
          p.dentry (record s' { world = after })

    in_directory :
        (t : Text) (a : Forest W)
        → lib.normalise t ≡ b'.' ∷ []
        → lib.is_absolute (b'.' ∷ []) ≡ false
        → resolve fs lib (suc (suc m)) (some p) t a ≡ ok (record { parent = p; target = p }) a
    unfolding resolve is_text
    in_directory t a dir rel' = rw (resolve, dir, rel') refl

    found_again :
        (inode : Inode) (after : W)
        → p.dentry ≢ s'.fresh
        → find_child fs (suc m) p name (grown inode after) ≡ ok (some s'.fresh) (grown inode after)
    unfolding find_child lookup grown
    found_again inode after new =
        let old : (p.dentry == s'.fresh) ≡ false = ground (arith, new) in
        let same : (p.dentry == p.dentry) ≡ true = ground arith in
        rw (find_child, old, same, is_text_refl name) refl

    entered :
        (inode : Inode) (after : W)
        → enter (suc m) (record { mnt = p.mnt; dentry = s'.fresh }) (grown inode after)
          ≡ ok (record { mnt = p.mnt; dentry = s'.fresh }) (grown inode after)
    unfolding enter find_mount grown
    entered inode after =
        let same : (s'.fresh == s'.fresh) ≡ true = ground arith in rw (enter, same) refl

    created :
        (has_ops : ℕ → Bool) (mode : Kind) (inode : Inode) (after : W)
        → lib.basename name ≡ name
        → lib.normalise (lib.dirname name) ≡ b'.' ∷ []
        → lib.is_absolute (b'.' ∷ []) ≡ false
        → fs.create s'.world p.mnt (inode_of p s') name mode ≡ (inr inode, after)
        → create fs lib (suc (suc m)) has_ops (some p) name mode 0 s
          ≡ ok (record { mnt = p.mnt; dentry = s'.fresh }) (grown inode after)
    unfolding create absent attach grown
    created has_ops mode inode after base dir rel' made =
        rw (create, absent, unresolved, in_directory (lib.dirname name) s' dir rel', base, made)
          refl

    -- In a directory where a name is not found, if the path library takes the name for a path of one
    -- segment in that directory, and the filesystem creates an inode: create succeeds with a new
    -- dentry, and resolve of the name then gives just this dentry, with the directory as parent.
    pub create-resolve :
        (has_ops : ℕ → Bool) (mode : Kind) (inode : Inode) (after : W)
        → lib.basename name ≡ name
        → lib.normalise (lib.dirname name) ≡ b'.' ∷ []
        → lib.is_absolute (b'.' ∷ []) ≡ false
        → fs.create s'.world p.mnt (inode_of p s') name mode ≡ (inr inode, after)
        → p.dentry ≢ s'.fresh
        → (s'' : Forest W) × (create fs lib (suc (suc m)) has_ops (some p) name mode 0 s
            ≡ ok (record { mnt = p.mnt; dentry = s'.fresh }) s'')
          × (resolve fs lib (suc (suc m)) (some p) name s''
              ≡ ok (record { parent = p; target = record { mnt = p.mnt; dentry = s'.fresh } }) s'')
    unfolding walk
    create-resolve has_ops mode inode after base dir rel' made new =
        let full : is_text name [] ≡ false = ground (arith, w) in
        let down : is_text name dots ≡ false = ground (arith, w) in
        (
          grown inode after,
          created has_ops mode inode after base dir rel' made,
          resolve_one (suc m) p name (grown inode after) z w f norm rel
              ∙ rw (walk, full, down, found_again inode after new, entered inode after) refl,
        )

  -- Where the new name is absent, its directory and the target resolve, and reduce of the target
  -- succeeds and leaves the state: link with follow_links does just what link without it does.
  pub link_follow :
      (n : ℕ) (parent : Option VfsPath) (src : Text) (tgtparent : Option VfsPath) (target : Text)
      (s b c d : Forest W) (r t : ResolveRes) (q : VfsPath)
      → absent fs lib n parent src s ≡ ok tt b
      → resolve fs lib n parent (lib.dirname src) b ≡ ok r c
      → resolve fs lib n tgtparent target c ≡ ok t d
      → reduce fs lib n t.parent t.target d ≡ ok q d
      → link fs lib n parent src tgtparent target true s
        ≡ link fs lib n parent src tgtparent target false s
  unfolding link follow
  link_follow n parent src tgtparent target s b c d r t q x y v e =
      rw (x, y, v)
        (elim (Bool-cases (is_link (kind_of t.target d))) [
          | inl h ↦ rw (h, e) refl
          | inr h ↦ rw h refl
        ])
