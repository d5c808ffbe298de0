-- ===== src/Resolve/Round.antt =====
-- kernel/source/system/vfs.cpp: `pathname_from` and `resolve` on a path that is found by names.
use ilobilix.Base.{
  ℕ, zero, suc, ◌-◌, ◌≡◌, ◌<◌, ◌==◌, true, false, ◌||◌, List, [], ◌∷◌, ◌++◌, none, some, refl, sym,
  ap, ◌∙◌, arith, subst, length,
}
use ilobilix.Resolve.Segments.{Text, is_text, slash, join, split-join, AllPlain}
use ilobilix.Resolve.Dentries.{
  VfsPath, Forest, Outcome, ok, ◌>>=◌, enter, find_child, Filesystem, PathLib, is_dir, is_link,
  is_name, AllNames, Kind, s_ifdir, s_ifsock, s_iflnk, s_ifreg, s_ifblk, s_ifchr, s_ififo,
}
use ilobilix.Resolve.{
  kind_of, parent_of, names_from, pathname_from, walk, go_down, resolve, reduce_loop, symloop_depth,
  dots, is_empty,
}
use ilobilix.Resolve.Located.{Under, Located, IsTop, climb_here, climb_back, enter-Over}

-- Names that are listed the last one first, put in front of others
abbrev pub onto : List Text → List Text → List Text
onto [] names = names
onto (t ∷ ts) names = onto ts (t ∷ names)

onto-AllNames : (ts names : List Text) → AllNames ts → AllNames names → AllNames (onto ts names)
onto-AllNames [] names h k = k
onto-AllNames (t ∷ ts) names h k = onto-AllNames ts (t ∷ names) h.2 (h.0, h.1, k)

onto_cons :
    (ts : List Text) (n : Text) (names : List Text)
    → (t : Text) × (us : List Text) × (onto ts (n ∷ names) ≡ t ∷ us)
onto_cons [] n names = (n, names, refl)
onto_cons (t ∷ ts) n names = onto_cons ts t (n ∷ names)

AllNames-AllPlain : (ts : List Text) → AllNames ts → AllPlain ts
AllNames-AllPlain [] h = tt
AllNames-AllPlain (t ∷ ts) h = (h.1, AllNames-AllPlain ts h.2)

not_link : (k : Kind) → is_dir k ≡ true → is_link k ≡ false
not_link s_ifdir h = refl
not_link s_iflnk h = cc
not_link s_ifsock h = refl
not_link s_ifreg h = refl
not_link s_ifblk h = refl
not_link s_ifchr h = refl
not_link s_ififo h = refl

long_text : (t u : Text) → is_text t [] ≡ false → is_text (t ++ u) [] ≡ false
unfolding is_text
long_text [] u h = cc
long_text (c ∷ cs) u h = refl

-- Joined names are no path that `resolve` answers at once.
join_long :
    (t : Text) (ts : List Text)
    → is_text t [] ≡ false
    → (is_text (join (t ∷ ts)) (slash ∷ [])
        || is_text (join (t ∷ ts)) []
        || is_text (join (t ∷ ts)) (b'.' ∷ []))
      ≡ false
unfolding join is_text
join_long t ts h = rw (long_text t (join ts) h) refl

module _ {W : Type 0} (s : Forest W) (b top : ℕ) (is_top : IsTop s top) where
  names_from_lem :
      (n c : ℕ) (names acc : List Text) (q : VfsPath)
      → Located s b top names q
      → length names < n
      → b < c
      → names_from n c top acc q s ≡ ok (onto names acc) s
  unfolding names_from parent_of
  names_from_lem zero c names acc q l h k = absurd (omega arith)
  names_from_lem (suc n) c [] acc q l h k =
      let more : c ≡ suc (c - 1) = omega (arith, k) in
      let here = climb_here s (c - 1) s.root is_top.not_root is_top.on_mount in
      let above : (s.root.dentry == top) ≡ true = ground (arith, is_top.at_top) in
      rw (names_from, l, more, here, above) refl
  names_from_lem (suc n) c (name ∷ names) acc q l h k =
      let u = l.1 in
      let here = climb_back s u.k c _ q u.over u.not_root u.on_mount (omega (arith, u.few, k)) in
      let below : (u.d == top) ≡ false = ground (arith, u.not_top) in
      rw (names_from, here, below, u.named, u.back)
        (names_from_lem n c names (name ∷ acc) l.0 l.2 (omega (arith, h)) k)

  module _ (fs : Filesystem W) (reduce : VfsPath → VfsPath → Forest W → Outcome W VfsPath) (c : ℕ)
      (room : b < c) where
    found :
        (p q : VfsPath) (name : Text) (u : Under s b top p q name)
        → find_child fs c p name s ≡ ok (some u.d) s
    unfolding find_child
    found p q name u =
        let more : c ≡ suc (c - 1) = omega (arith, room) in rw (more, find_child, u.entry) refl

    enters :
        (p q : VfsPath) (name : Text) (u : Under s b top p q name)
        → enter c (record { mnt = p.mnt; dentry = u.d }) s ≡ ok q s
    enters p q name u = enter-Over s u.k c _ q u.over (omega (arith, u.few, room))

    walk_on :
        (p q : VfsPath) (name t : Text) (rest : List Text)
        → Under s b top p q name
        → is_name name ≡ true
        → is_dir (kind_of q s) ≡ true
        → walk fs c reduce (name ∷ t ∷ rest) p s ≡ walk fs c reduce (t ∷ rest) q s
    unfolding walk go_down
    walk_on p q name t rest u n dir =
        let full : is_text name [] ≡ false = ground (arith, n) in
        let down : is_text name dots ≡ false = ground (arith, n) in
        rw (walk, full, down, found p q name u, enters p q name u, not_link (kind_of q s) dir, dir)
          refl

    walk_last :
        (p q : VfsPath) (name : Text)
        → Under s b top p q name
        → is_name name ≡ true
        → walk fs c reduce (name ∷ []) p s ≡ ok (record { parent = p; target = q }) s
    unfolding walk
    walk_last p q name u n =
        let full : is_text name [] ≡ false = ground (arith, n) in
        let down : is_text name dots ≡ false = ground (arith, n) in
        rw (walk, full, down, found p q name u, enters p q name u) refl

    walk-onto :
        (names : List Text) (p : VfsPath) (t : Text) (rest : List Text)
        → Located s b top names p
        → AllNames names
        → is_dir (kind_of p s) ≡ true
        → walk fs c reduce (onto names (t ∷ rest)) s.root s ≡ walk fs c reduce (t ∷ rest) p s
    walk-onto [] p t rest l n dir = ap (λ (x : VfsPath). walk fs c reduce (t ∷ rest) x s) (sym l)
    walk-onto (name ∷ names) p t rest l n dir =
        walk-onto names l.0 name (t ∷ rest) l.2 n.2 l.1.directory
        ∙ walk_on l.0 p name t rest l.1 n.0 dir

module _ {W : Type 0} (s : Forest W) (b top : ℕ) (is_top : IsTop s top) (fs : Filesystem W)
    (lib : PathLib) where
  reducer : ℕ → VfsPath → VfsPath → Forest W → Outcome W VfsPath
  reducer c = reduce_loop (λ p t s'. resolve fs lib c (some p) t s') symloop_depth

  resolve_names :
      (c : ℕ) (t : Text) (ts : List Text)
      → AllNames (t ∷ ts)
      → resolve fs lib (suc c) none (join (t ∷ ts)) s ≡ walk fs c (reducer c) (t ∷ ts) s.root s
  unfolding resolve reducer is_text walk
  resolve_names c t ts n =
      let long = join_long t ts (ground (arith, n.0)) in
      let real : (s.root.mnt == 0) ≡ false = ground (arith, is_top.on_mount) in
      rw
        (
          resolve,
          lib.normalise-join t ts n,
          long,
          real,
          split-join t ts (AllNames-AllPlain (t ∷ ts) n),
        )
        refl

  resolve-join :
      (c : ℕ) (name : Text) (names : List Text) (q : VfsPath) (l : Located s b top (name ∷ names) q)
      → AllNames (name ∷ names)
      → b < c
      → resolve fs lib (suc c) none (join (onto names (name ∷ []))) s
        ≡ ok (record { parent = l.0; target = q }) s
  resolve-join c name names q l n room =
      let o = onto_cons names name [] in
      let all : AllNames (o.0 ∷ o.1) =
        subst (λ (ts : List Text). AllNames ts) o.2
          (onto-AllNames names (name ∷ []) n.2 (n.0, n.1, tt)) in
      ap (λ (ts : List Text). resolve fs lib (suc c) none (join ts) s) o.2
      ∙ resolve_names c o.0 o.1 all
      ∙ ap (λ (ts : List Text). walk fs c (reducer c) ts s.root s) (sym o.2)
      ∙ walk-onto s b top is_top fs (reducer c) c room names l.0 name [] l.2 n.2 l.1.directory
      ∙ walk_last s b top is_top fs (reducer c) c room l.0 q name l.1 n.0

  join_cons : (ts : List Text) (t : Text) → is_empty (join (onto ts (t ∷ []))) ≡ false
  unfolding join
  join_cons ts t = let o = onto_cons ts t [] in rw o.2 refl

  -- Where the root directory of the process is the root of everything, and a path is found from it
  -- by names, through directories and with at most b mounts on one another: pathname_from, with fuel
  -- for the names, succeeds, and resolve of its answer gives back just that path, with the directory
  -- that holds it as parent. The names hold no slash and are not empty, `.` or `..`.
  pub pathname_from-resolve :
      (m c : ℕ) (name : Text) (names : List Text) (q : VfsPath)
      (l : Located s b top (name ∷ names) q)
      → AllNames (name ∷ names)
      → length (name ∷ names) < m
      → b < c
      → (pathname_from m c top q s >>= λ t s'. resolve fs lib (suc c) none t s')
        ≡ ok (record { parent = l.0; target = q }) s
  unfolding pathname_from
  pathname_from-resolve m c name names q l n long room =
      rw
        (
          pathname_from,
          names_from_lem s b top is_top m c (name ∷ names) [] q l long room,
          join_cons names name,
        )
        (resolve-join c name names q l n room)
