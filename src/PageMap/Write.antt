-- ===== src/PageMap/Write.antt =====
-- kernel/source/system/memory/pagemap.cpp: an entry of a last table is written, and what the tables
-- show then.
use ilobilix.Base.{
  ℕ, zero, suc, ◌+◌, ◌*◌, ◌≡◌, ◌≢◌, ◌==◌, refl, sym, ap, ◌∙◌, if◌then◌else◌, some, arith,
  Bool-cases, inl, inr,
}
use mathlib.Core.Option.{some-injective}
use ilobilix.PageMap.{Frames, Tables, set_entry, is_table, getaddr, index}
use ilobilix.PageMap.Bits.{index_below}
use ilobilix.PageMap.Place.{
  Entries, leaf_of, view, same_page, path_to, Place, IsTree, path_to_one, leaf_of-place,
}

module _ {D : Type 0} {fr : Frames D} {levels root : ℕ} {place : Place} {s : Tables D}
    (tree : IsTree fr levels root place s) where
  -- An entry of a table without levels below it is written.
  module _ (h t0 pre0 i0 v : ℕ) (here : place t0 ≡ some (0, pre0)) where
    abbrev pub written : Entries
    written = (set_entry t0 i0 v s).entries

    upper_kept : (t n pre i : ℕ) → place t ≡ some (suc n, pre) → written t i ≡ s.entries t i
    upper_kept t n pre i p = elim (Bool-cases (t == t0)) [
      | inl e ↦ absurd (ground (arith, p, here, ap place {x = t} {y = t0} (ground (arith, e))))
      | inr e ↦ rw e refl
    ]

    view_elsewhere :
        (n t pre va : ℕ)
        → place t ≡ some (n, pre)
        → path_to n h pre va ≢ pre0
        → view n h t va written ≡ view n h t va s.entries
    unfolding view path_to
    view_elsewhere zero t pre va p o = elim (Bool-cases (t == t0)) [
      | inl e ↦ absurd (o (ground (arith, p, here, ap place {x = t} {y = t0} (ground (arith, e)))))
      | inr e ↦ rw e refl
    ]
    view_elsewhere (suc n) t pre va p o =
        rw (upper_kept t n pre (index (h + suc n) va) p)
          (elim (Bool-cases (is_table (s.entries t (index (h + suc n) va)))) [
            | inl y ↦ rw y (
                view_elsewhere n (getaddr (s.entries t (index (h + suc n) va)))
                  (pre * 512 + index (h + suc n) va) va
                  (tree.below t n pre (index (h + suc n) va) p (index_below (h + suc n) va) y) o)
            | inr y ↦ rw y refl
          ])

    -- The entry shows through all the addresses of its page, and through no other.
    pub view-written :
        (n t pre va vb : ℕ)
        → place t ≡ some (n, pre)
        → leaf_of n h t va s.entries ≡ some t0
        → i0 ≡ index h va
        → view n h t vb written ≡ (if same_page n h va vb then v else view n h t vb s.entries)
    unfolding view leaf_of same_page path_to
    view-written zero t pre va vb p l i =
        let same : t ≡ t0 = some-injective t t0 l in ground (arith, i, same)
    view-written (suc n) t pre va vb p l i =
        elim (Bool-cases (is_table (s.entries t (index (h + suc n) va)))) [
          | inr y ↦ cc (rw (leaf_of, y) at l)
          | inl y ↦
              let down : leaf_of n h (getaddr (s.entries t (index (h + suc n) va))) va s.entries
                  ≡ some t0 =
                rw (leaf_of, y) at l in
              let child =
                tree.below t n pre (index (h + suc n) va) p (index_below (h + suc n) va) y in
              rw (upper_kept t n pre (index (h + suc n) vb) p)
                (elim (Bool-cases (index (h + suc n) va == index (h + suc n) vb)) [
                  | inl e ↦
                      let same : index (h + suc n) vb ≡ index (h + suc n) va = ground (arith, e) in
                      rw (e, same, y)
                        (view-written n (getaddr (s.entries t (index (h + suc n) va)))
                          (pre * 512 + index (h + suc n) va) va vb child down i)
                  | inr e ↦
                      rw e (elim (Bool-cases (is_table (s.entries t (index (h + suc n) vb)))) [
                        | inr z ↦ rw z refl
                        | inl z ↦ rw z (
                            view_elsewhere n (getaddr (s.entries t (index (h + suc n) vb)))
                              (pre * 512 + index (h + suc n) vb) vb
                              (tree.below t n pre (index (h + suc n) vb) p
                                (index_below (h + suc n) vb) z)
                              (λ q.
                                let end =
                                  leaf_of-place tree n h
                                    (getaddr (s.entries t (index (h + suc n) va)))
                                    (pre * 512 + index (h + suc n) va) va t0 child down in
                                let reached : path_to n h (pre * 512 + index (h + suc n) va) va
                                    ≡ pre0 =
                                  ground (arith, end, here) in
                                let same =
                                  path_to_one n h (pre * 512 + index (h + suc n) vb)
                                    (pre * 512 + index (h + suc n) va) vb va (q ∙ sym reached) in
                                ground (arith, e, same)))
                      ])
                ])
        ]

    pub written-IsTree : IsTree fr levels root place (set_entry t0 i0 v s)
    written-IsTree = record {
      top = tree.top;
      below = λ t n pre i p b y.
          rw (upper_kept t n pre i p) (tree.below t n pre i p b (rw (upper_kept t n pre i p) at y));
      used = tree.used;
    }
