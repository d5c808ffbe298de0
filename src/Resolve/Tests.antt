-- ===== src/Resolve/Tests.antt =====
-- The theorems on path resolution in kernel/source/system/vfs.cpp at a small tree with one mount on a
-- directory, over a filesystem that keeps nothing.
use ilobilix.Base.{
  ℕ, ◌≡◌, ◌≢◌, ◌==◌, Bool, true, false, List, [], ◌∷◌, ◌++◌, none, some, ◌⊎◌, inl, inr, refl, sym,
  subst, arith, if◌then◌else◌,
}
use ilobilix.Resolve.Segments.{Text, is_text, split, slash}
use ilobilix.Resolve.Dentries.{
  s_ifdir, s_iflnk, s_ifreg, VfsPath, ResolveRes, Dentry, Forest, ok, fail, spent, ◌>>=◌, lookup,
  enter, find_mount, find_child, populate, Filesystem, PathLib, symloop_max, is_name,
}
use ilobilix.Resolve.{resolve, reduce, reduce_loop, is_symlink, walk, go_up, pathname_from}
use ilobilix.Resolve.Entries.{link, absent}
use ilobilix.Resolve.Located.{Located, IsTop}
use ilobilix.Resolve.Round.{pathname_from-resolve}
use ilobilix.Resolve.Symlink.{reduce_cycle, resolve_spent, go_up_covered}
use ilobilix.Resolve.Create.{create-resolve, link_follow}

abbrev no_fs : Filesystem (Unit {0})
no_fs = record {
  populate = λ w m i t. (none, w);
  create = λ w m i t k. (inr (record { ino = 9; kind = k }), w);
  symlink = λ w m i t u. (inr (record { ino = 9; kind = s_iflnk }), w);
  link = λ w m i t j. (inr j, w);
  unlink = λ w m i. (inr tt, w);
  mount = λ w src. (inr 3, w);
}

abbrev starts_with_slash : Text → Bool
starts_with_slash [] = false
starts_with_slash (c ∷ cs) = c == slash

abbrev here : Text
here = b'.' ∷ []

abbrev plain_lib : PathLib
plain_lib = record {
  normalise = λ t. t;
  is_absolute = starts_with_slash;
  basename = λ t. t;
  dirname = λ t. here;
  absolute-join = λ t. refl;
  normalise-join = λ t ts h. refl;
}

abbrev mnt : Text
mnt = b'm' ∷ b'n' ∷ b't' ∷ []

abbrev sub : Text
sub = b's' ∷ []

abbrev name_a : Text
name_a = b'a' ∷ []

abbrev name_b : Text
name_b = b'b' ∷ []

abbrev name_c : Text
name_c = b'c' ∷ []

abbrev name_e : Text
name_e = b'e' ∷ []

abbrev directory : Text → ℕ → List (Text × ℕ) → List ℕ → Dentry
directory name parent children mounts = record {
  name = name;
  symlinked_to = [];
  inode = record { ino = 1; kind = s_ifdir };
  parent = parent;
  children = children;
  child_mounts = mounts;
}

abbrev symlink_to : Text → Text → Dentry
symlink_to name target = record {
  name = name;
  symlinked_to = target;
  inode = record { ino = 2; kind = s_iflnk };
  parent = 1;
  children = [];
  child_mounts = [];
}

-- `/mnt` with a mount that holds `s`, the links `a` and `b` to each other, `c` to `c/a` and `e` to `mnt`
abbrev forest : Forest (Unit {0})
forest = record {
  dentries = λ i.
      if i == 1
      then directory [] 1 ((mnt, 2) ∷ (name_a, 3) ∷ (name_b, 4) ∷ (name_c, 5) ∷ (name_e, 6) ∷ []) []
      else if i == 2
      then directory mnt 1 [] (2 ∷ [])
      else if i == 3
      then symlink_to name_a name_b
      else if i == 4
      then symlink_to name_b name_a
      else if i == 5
      then symlink_to name_c (name_c ++ slash ∷ name_a)
      else if i == 6
      then symlink_to name_e mnt
      else if i == 10
      then directory [] 10 ((sub, 11) ∷ []) []
      else directory sub 10 [] [];
  mounts = λ m.
      if m == 1
      then record { root = 100; mounted_on = some (record { mnt = 0; dentry = 1 }) }
      else record { root = 10; mounted_on = some (record { mnt = 1; dentry = 2 }) };
  fresh = 20;
  root = record { mnt = 1; dentry = 1 };
  world = tt;
}

abbrev at : ℕ → ℕ → VfsPath
at m d = record { mnt = m; dentry = d }

forest-IsTop : IsTop forest 1
forest-IsTop = record { at_top = refl; on_mount = omega arith; not_root = omega arith }

sub-Located : Located forest 1 1 (sub ∷ mnt ∷ []) (at 2 11)
unfolding lookup find_mount is_text
sub-Located = (
  at 2 10,
  record {
    d = 11;
    k = 0;
    directory = refl;
    entry = refl;
    named = refl;
    back = refl;
    not_top = omega arith;
    not_root = omega arith;
    on_mount = omega arith;
    few = omega arith;
    over = (refl, refl);
  },
  (
    at 1 1,
    record {
      d = 2;
      k = 1;
      directory = refl;
      entry = refl;
      named = refl;
      back = refl;
      not_top = omega arith;
      not_root = omega arith;
      on_mount = omega arith;
      few = omega arith;
      over = (2, refl, refl, omega arith, (refl, refl));
    },
    refl,
  ),
)

names_are_names : (is_name sub ≡ true) × (is_name mnt ≡ true)
unfolding is_text
names_are_names = (refl, refl)

pathname_from-resolve_example :
    (pathname_from 3 2 1 (at 2 11) forest >>= λ t s. resolve no_fs plain_lib 3 none t s)
    ≡ ok (record { parent = at 2 10; target = at 2 11 }) forest
unfolding sub-Located
pathname_from-resolve_example =
    pathname_from-resolve forest 1 1 forest-IsTop no_fs plain_lib 3 2 sub (mnt ∷ []) (at 2 11)
      sub-Located (names_are_names.0, refl, (names_are_names.1, refl, tt)) (omega arith)
      (omega arith)

go_up_covered_example : go_up 2 (at 2 11) forest ≡ ok (at 1 2) forest
go_up_covered_example =
    go_up_covered forest 2 11 (at 1 2) 0 (omega arith) refl (omega arith) refl (omega arith)
      (omega arith)

resolve_spent_example :
    resolve no_fs plain_lib 7 (some (at 1 1)) (name_c ++ slash ∷ name_a) forest ≡ spent
unfolding lookup find_mount is_text
resolve_spent_example =
    resolve_spent no_fs plain_lib forest (at 1 1) 5 name_c name_a (omega arith) refl refl refl refl
      refl refl refl refl 7

abbrev Cycle : VfsPath → VfsPath → Type 0
Cycle p q = (p ≡ at 1 1) × ((q ≡ at 1 3) ⊎ (q ≡ at 1 4))

abbrev GoesOn : VfsPath → VfsPath → Type 0
GoesOn p q =
    (is_symlink q forest ≡ true)
    × ((r : ResolveRes) × (resolve no_fs plain_lib 2 (some p)
            (forest.dentries q.dentry).symlinked_to forest
          ≡ ok r forest)
        × (r.target.dentry ≢ q.dentry)
        × Cycle r.parent r.target)

a_to_b : GoesOn (at 1 1) (at 1 3)
unfolding is_symlink resolve walk find_child enter find_mount lookup is_text split
a_to_b = (refl, (record { parent = at 1 1; target = at 1 4 }, refl, omega arith, (refl, inr refl)))

b_to_a : GoesOn (at 1 1) (at 1 4)
unfolding is_symlink resolve walk find_child enter find_mount lookup is_text split
b_to_a = (refl, (record { parent = at 1 1; target = at 1 3 }, refl, omega arith, (refl, inl refl)))

links-Cycle : (p q : VfsPath) → Cycle p q → GoesOn p q
links-Cycle p q (e, inl f) =
    subst (λ (x : VfsPath). GoesOn x q) (sym e)
      (subst (λ (x : VfsPath). GoesOn (at 1 1) x) (sym f) a_to_b)
links-Cycle p q (e, inr f) =
    subst (λ (x : VfsPath). GoesOn x q) (sym e)
      (subst (λ (x : VfsPath). GoesOn (at 1 1) x) (sym f) b_to_a)

reduce_cycle_example : reduce no_fs plain_lib 2 (at 1 1) (at 1 3) forest ≡ fail symloop_max forest
reduce_cycle_example =
    reduce_cycle no_fs plain_lib forest 2 Cycle links-Cycle (at 1 1) (at 1 3) (refl, inl refl)

a_missing : find_child no_fs 1 (at 2 10) name_a forest ≡ ok none forest
unfolding find_child lookup populate is_text
a_missing = refl

a-is_name : is_name name_a ≡ true
unfolding is_text
a-is_name = refl

create-resolve_example :
    resolve no_fs plain_lib 2
      (some (at 2 10))
      name_a
      (create-resolve no_fs plain_lib 0
        (at 2 10)
        name_a
        forest
        forest
        (omega arith)
        a-is_name
        refl
        refl
        refl
        a_missing
        (λ d. false)
        s_ifreg
        (record { ino = 9; kind = s_ifreg })
        tt
        refl
        refl
        refl
        refl
        (omega arith)).0
    ≡ ok
        (record { parent = at 2 10; target = at 2 20 })
        (create-resolve no_fs plain_lib 0
          (at 2 10)
          name_a
          forest
          forest
          (omega arith)
          a-is_name
          refl
          refl
          refl
          a_missing
          (λ d. false)
          s_ifreg
          (record { ino = 9; kind = s_ifreg })
          tt
          refl
          refl
          refl
          refl
          (omega arith)).0
create-resolve_example =
    (create-resolve no_fs plain_lib 0 (at 2 10) name_a forest forest (omega arith) a-is_name refl
      refl refl a_missing (λ d. false) s_ifreg (record { ino = 9; kind = s_ifreg }) tt refl refl
      refl refl (omega arith)).2

link_follow_example :
    link no_fs plain_lib 3 (some (at 1 1)) sub (some (at 1 1)) name_e true forest
    ≡ link no_fs plain_lib 3 (some (at 1 1)) sub (some (at 1 1)) name_e false forest
unfolding absent resolve reduce reduce_loop is_symlink walk find_child enter find_mount lookup
    is_text split populate
link_follow_example =
    link_follow no_fs plain_lib 3 (some (at 1 1)) sub (some (at 1 1)) name_e forest forest forest
      forest (record { parent = at 1 1; target = at 1 1 })
      (record { parent = at 1 1; target = at 1 6 }) (at 2 10) refl refl refl refl
