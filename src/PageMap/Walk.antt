-- ===== src/PageMap/Walk.antt =====
-- kernel/source/system/memory/pagemap.cpp: `getpte`, with and without new tables.
use ilobilix.Base.{
  ℕ, zero, suc, ◌+◌, ◌*◌, ◌≡◌, refl, ◌∙◌, true, false, none, some, arith, Bool-cases, inl, inr,
  subst,
}
use ilobilix.PageMap.{
  Frames, Tables, invalid_entry, Result, ok, err, is_table, getaddr, index, getlvl, descend,
}
use ilobilix.PageMap.Bits.{index_below}
use ilobilix.PageMap.Place.{leaf_of, Place, IsTree, HasRoom}
use ilobilix.PageMap.Grow.{
  Grown, Grown-same, Grown-trans, linked_in, place_in, at_link, link-is_table, link-getaddr,
  linked_in-IsTree, linked_in-Grown, ==_refl,
}

module _ {D : Type 0} (fr : Frames D) where
  -- Without new tables, the walk finds the last table or fails, and changes nothing.
  pub descend_reads :
      (n h t va : ℕ) (s : Tables D)
      → descend fr n h t va false s ≡ elim (leaf_of n h t va s.entries) [
        | none ↦ err invalid_entry s
        | some u ↦ ok (u, index h va) s
      ]
  unfolding descend leaf_of
  descend_reads zero h t va s = refl
  descend_reads (suc n) h t va s =
      elim (Bool-cases (is_table (s.entries t (index (h + suc n) va)))) [
        | inl y ↦
            rw (descend, getlvl, y)
              (descend_reads n h (getaddr (s.entries t (index (h + suc n) va))) va s)
        | inr y ↦ rw (descend, getlvl, y) refl
      ]

  room_less : (n : ℕ) (d : D) → HasRoom fr (suc n) d → HasRoom fr n d
  unfolding HasRoom
  room_less zero d r = tt
  room_less (suc n) d r = (r.0, r.1, room_less n r.0.1 r.2)

  -- What a walk with new tables leads to
  pub record Reached (levels root : ℕ) (place : Place) (s : Tables D) (n h t va room : ℕ)
      (r : Result D (ℕ × ℕ)) : Type 0 where
    pub table : ℕ
    pub place' : Place
    pub after : Tables D
    pub returned : r ≡ ok (table, index h va) after
    pub tree : IsTree fr levels root place' after
    pub grown : Grown place s place' after
    pub leaf : leaf_of n h t va after.entries ≡ some table
    pub left : HasRoom fr room after.frames

  module _ {levels root : ℕ} where
    -- With new tables, and frames enough for one on each level, the walk finds the last table.
    pub descend_grows :
        (n h t pre va room : ℕ) (place : Place) (s : Tables D)
        → IsTree fr levels root place s
        → place t ≡ some (n, pre)
        → HasRoom fr (n + room) s.frames
        → Reached levels root place s n h t va room (descend fr n h t va true s)
    unfolding descend leaf_of linked_in HasRoom
    descend_grows zero h t pre va room place s tree p free = record {
      table = t;
      place' = place;
      after = s;
      returned = refl;
      tree = tree;
      grown = Grown-same place s;
      leaf = refl;
      left = subst (λ (m : ℕ). HasRoom fr m s.frames) {x = 0 + room} {y = room} (omega arith) free;
    }
    descend_grows (suc n) h t pre va room place s tree p free =
        elim (Bool-cases (is_table (s.entries t (index (h + suc n) va)))) [
          | inl y ↦
              let child = getaddr (s.entries t (index (h + suc n) va)) in
              let at = tree.below t n pre (index (h + suc n) va) p (index_below (h + suc n) va) y in
              let free' : HasRoom fr (suc (n + room)) s.frames =
                subst (λ (m : ℕ). HasRoom fr m s.frames) {x = suc n + room} {y = suc (n + room)}
                  (omega arith) free in
              let r =
                descend_grows n h child (pre * 512 + index (h + suc n) va) va room place s tree at
                  (room_less (n + room) s.frames free') in
              let kept = r.grown.linked t (suc n, pre) (index (h + suc n) va) p y in
              record {
                table = r.table;
                place' = r.place';
                after = r.after;
                returned = rw (descend, getlvl, y) r.returned;
                tree = r.tree;
                grown = r.grown;
                leaf = rw (leaf_of, kept, y) r.leaf;
                left = r.left;
              }
          | inr y ↦
              let got : HasRoom fr (suc (n + room)) s.frames =
                subst (λ (m : ℕ). HasRoom fr m s.frames) {x = suc n + room} {y = suc (n + room)}
                  (omega arith) free in
              let i = index (h + suc n) va in
              let low = index_below (h + suc n) va in
              let f = got.0.0 in
              let tree1 = linked_in-IsTree tree t n pre i f got.0.1 p low y got.1 in
              let grown1 = linked_in-Grown tree t n pre i f got.0.1 p low y got.1 in
              let linked = at_link tree t n pre i f got.0.1 p low y got.1 in
              let leads = link-is_table tree t n pre i f got.0.1 p low y got.1 in
              let to = link-getaddr tree t n pre i f got.0.1 p low y got.1 in
              let r =
                descend_grows n h f (pre * 512 + i) va room
                  (place_in tree t n pre i f got.0.1 p low y got.1)
                  (linked_in tree t n pre i f got.0.1 p low y got.1) tree1 (rw (==_refl f) refl)
                  got.2 in
              let kept =
                r.grown.linked t (suc n, pre) i (grown1.placed t (suc n, pre) p) (rw linked leads)
                ∙ linked in
              record {
                table = r.table;
                place' = r.place';
                after = r.after;
                returned = rw (descend, getlvl, y, got.1) r.returned;
                tree = r.tree;
                grown = Grown-trans grown1 r.grown;
                leaf = rw (leaf_of, kept, leads, to) r.leaf;
                left = r.left;
              }
        ]
