-- ===== src/PageMap/Grow.antt =====
-- kernel/source/system/memory/pagemap.cpp: `getlvl` puts a new table into the tree.
use ilobilix.Base.{
  ℕ, zero, suc, ◌+◌, ◌*◌, ◌≡◌, ◌<◌, ◌==◌, ◌&&◌, refl, ap, ◌∙◌, true, false, if◌then◌else◌, some,
  arith, Bool-cases, inl, inr, subst,
}
use ilobilix.PageMap.{
  Frames, Tables, set_entry, with_table, table_entry, is_table, getflags, getaddr, index,
}
use ilobilix.PageMap.Bits.{index_below, table_entry-getaddr, table_entry-is_table}
use ilobilix.PageMap.Place.{view, Place, IsTree}

-- The tables have grown: what was placed still is, entries that lead to a table are kept, and every
-- placed table shows what it showed.
pub record Grown {D : Type 0} (place : Place) (s : Tables D) (place' : Place) (s' : Tables D)
    : Type 0 where
  pub placed : (t : ℕ) (x : ℕ × ℕ) → place t ≡ some x → place' t ≡ some x
  pub linked :
      (t : ℕ) (x : ℕ × ℕ) (i : ℕ)
      → place t ≡ some x
      → is_table (s.entries t i) ≡ true
      → s'.entries t i ≡ s.entries t i
  pub shown :
      (h t n pre va : ℕ)
      → place t ≡ some (n, pre)
      → view n h t va s'.entries ≡ view n h t va s.entries

pub ==_refl : (n : ℕ) → (n == n) ≡ true
==_refl n = ground arith

unset_entry : is_table 0 ≡ false
unfolding is_table getflags
unset_entry = refl

pub Grown-same : {D : Type 0} (place : Place) (s : Tables D) → Grown place s place s
Grown-same place s = record {
  placed = λ t x p. p;
  linked = λ t x i p y. refl;
  shown = λ h t n pre va p. refl;
}

pub Grown-trans :
    {D : Type 0} {p q r : Place} {s t u : Tables D} → Grown p s q t → Grown q t r u → Grown p s r u
Grown-trans a b = record {
  placed = λ t x p. b.placed t x (a.placed t x p);
  linked =
      λ t x i p y. b.linked t x i (a.placed t x p) (rw (a.linked t x i p y) y) ∙ a.linked t x i p y;
  shown = λ h t n pre va p. b.shown h t n pre va (a.placed t (n, pre) p) ∙ a.shown h t n pre va p;
}

module _ {D : Type 0} {fr : Frames D} {levels root : ℕ} {place : Place} {s : Tables D}
    (tree : IsTree fr levels root place s) where
  module _ (t n pre i p : ℕ) (d : D) (here : place t ≡ some (suc n, pre)) (low : i < 512)
      (unset : is_table (s.entries t i) ≡ false) (got : fr.alloc s.frames ≡ some (p, d)) where
    unfoldable pub linked_in : Tables D
    unfolding table_entry
    linked_in = set_entry t i (table_entry p) (with_table p d s)

    abbrev pub place_in : Place
    place_in x = if x == p then some (n, pre * 512 + i) else place x

    -- The new frame is no table yet.
    pub apart : (x : ℕ) (y : ℕ × ℕ) → place x ≡ some y → (x == p) ≡ false
    apart x y h = elim (Bool-cases (x == p)) [
      | inr e ↦ e
      | inl e ↦
          let used : fr.in_use s.frames p ≡ true =
            subst (λ (k : ℕ). fr.in_use s.frames k ≡ true) {x = x} (ground (arith, e))
              (tree.used x y h) in
          absurd (cc (used, fr.alloc-new s.frames p d got))
    ]

    at_new : (j : ℕ) → linked_in.entries p j ≡ 0
    unfolding linked_in
    at_new j =
        let other : (p == t) ≡ false = ground (arith, apart t (suc n, pre) here) in
        rw (other, ==_refl p) refl

    at_other :
        (x : ℕ) (y : ℕ × ℕ) (j : ℕ)
        → place x ≡ some y
        → (x == t && j == i) ≡ false
        → linked_in.entries x j ≡ s.entries x j
    unfolding linked_in
    at_other x y j h o = rw (o, apart x y h) refl

    at_link_of : (x j : ℕ) → (x == t && j == i) ≡ true → linked_in.entries x j ≡ table_entry p
    unfolding linked_in
    at_link_of x j e = rw e refl

    pub at_link : linked_in.entries t i ≡ table_entry p
    at_link = at_link_of t i (ground arith)

    pub link-is_table : is_table (table_entry p) ≡ true
    link-is_table =
        table_entry-is_table p (fr.alloc-page s.frames p d got)
          (fr.alloc-canonical s.frames p d got)

    pub link-getaddr : getaddr (table_entry p) ≡ p
    link-getaddr = table_entry-getaddr p (fr.alloc-page s.frames p d got)

    view_new : (h m va : ℕ) → view m h p va linked_in.entries ≡ 0
    unfolding view
    view_new h zero va = at_new (index h va)
    view_new h (suc m) va = rw (at_new (index (h + suc m) va), unset_entry) refl

    view_in :
        (h x m q va : ℕ)
        → place x ≡ some (m, q)
        → view m h x va linked_in.entries ≡ view m h x va s.entries
    unfolding view
    view_in h x zero q va y =
        at_other x (0, q) (index h va) y
          (elim (Bool-cases (x == t)) [
            | inl e ↦ absurd (ground (arith, y, here, ap place {x = x} {y = t} (ground (arith, e))))
            | inr e ↦ rw e refl
          ])
    view_in h x (suc m) q va y = elim (Bool-cases (x == t && index (h + suc m) va == i)) [
      | inl e ↦
          let x_t : x ≡ t = ground (arith, e) in
          let j_i : index (h + suc m) va ≡ i = ground (arith, e) in
          let none_yet : is_table (s.entries x (index (h + suc m) va)) ≡ false =
            rw (x_t, j_i) unset in
          rw (at_link_of x (index (h + suc m) va) e, link-is_table, link-getaddr, none_yet)
            (view_new h m va)
      | inr e ↦
          rw (at_other x (suc m, q) (index (h + suc m) va) y e)
            (elim (Bool-cases (is_table (s.entries x (index (h + suc m) va)))) [
              | inl z ↦ rw z (
                  view_in h (getaddr (s.entries x (index (h + suc m) va))) m
                    (q * 512 + index (h + suc m) va) va
                    (tree.below x m q (index (h + suc m) va) y (index_below (h + suc m) va) z))
              | inr z ↦ rw z refl
            ])
    ]

    pub linked_in-IsTree : IsTree fr levels root place_in linked_in
    unfolding linked_in
    linked_in-IsTree = record {
      top = rw (apart root (levels, 0) tree.top) tree.top;
      below = λ x m q j y b z. elim (Bool-cases (x == p)) [
        | inl e ↦
            let zero_there : linked_in.entries x j ≡ 0 =
              subst (λ (k : ℕ). linked_in.entries k j ≡ 0) {x = p} (ground (arith, e)) (at_new j) in
            cc (unset_entry, rw zero_there at z)
        | inr e ↦
            let y' : place x ≡ some (suc m, q) = rw e at y in
            elim (Bool-cases (x == t && j == i)) [
              | inl l ↦
                  rw (at_link_of x j l, link-getaddr, ==_refl p)
                    (ground (arith, y', here, l, ap place {x = x} {y = t} (ground (arith, l))))
              | inr o ↦
                  let same = at_other x (suc m, q) j y' o in
                  let kid = tree.below x m q j y' b (rw same at z) in
                  rw (same, apart (getaddr (s.entries x j)) (m, q * 512 + j) kid) kid
            ]
      ];
      used = λ x y h. elim (Bool-cases (x == p)) [
        | inl e ↦
            subst (λ (k : ℕ). fr.in_use d k ≡ true) {x = p} (ground (arith, e))
              (fr.alloc-in_use s.frames p d got)
        | inr e ↦ fr.alloc-kept s.frames p d x got (tree.used x y (rw e at h))
      ];
    }

    pub linked_in-Grown : Grown place s place_in linked_in
    linked_in-Grown = record {
      placed = λ x y h. rw (apart x y h) h;
      linked = λ x y j h z. at_other x y j h (elim (Bool-cases (x == t && j == i)) [
        | inr e ↦ e
        | inl e ↦
            let x_t : x ≡ t = ground (arith, e) in
            let j_i : j ≡ i = ground (arith, e) in cc (unset, rw (x_t, j_i) at z)
      ]);
      shown = view_in;
    }
