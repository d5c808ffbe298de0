-- ===== src/PageMap/Range.antt =====
-- kernel/source/system/memory/pagemap.cpp: what the loops of `map`, `protect` and `unmap` leave in the
-- tables, page by page.
use ilobilix.Base.{
  ℕ, zero, suc, ◌+◌, ◌-◌, ◌≡◌, ◌⊎◌, refl, sym, ap, ◌∙◌, Bool, false, if◌then◌else◌, none, some,
  Bool-cases, Option-cases, inl, inr, add64,
}
use ilobilix.PageMap.{
  PageSize, Frames, Tables, PageMap, invalid_entry, Result, ok, err, set_entry, setaddr, setflags,
  clearflags, index, level, from_page_size, getpte,
}
use ilobilix.PageMap.Ops.{map_from, unmap_from, protect_from}
use ilobilix.PageMap.Place.{leaf_of, view, same_page, Place, IsTree, HasRoom, leaf_of-place}
use ilobilix.PageMap.Write.{view-written, written-IsTree}
use ilobilix.PageMap.View.{view-same, view-none, view-some}
use ilobilix.PageMap.Walk.{descend_reads, descend_grows}

-- What the tables show at an address, for pages of a size
abbrev pub shows : {D : Type 0} → PageMap → PageSize → Tables D → ℕ → ℕ
shows pm size s va = view (3 - level size) (level size) pm.root va s.entries

abbrev pub same : PageSize → ℕ → ℕ → Bool
same size va vb = same_page (3 - level size) (level size) va vb

abbrev pub Tree : {D : Type 0} → Frames D → PageMap → PageSize → Place → Tables D → Type 0
Tree fr pm size place s = IsTree fr (3 - level size) pm.root place s

-- A page is changed by a function of what it showed.
abbrev pub change : PageSize → ℕ → (ℕ → ℕ) → ℕ → ℕ → ℕ
change size va f vb old = if same size va vb then f old else old

-- The frames that `n` pages may need for their tables
unfoldable pub need : PageSize → ℕ → ℕ
need size zero = 0
need size (suc n) = (3 - level size) + need size n

-- `n` pages are changed, from the one at the offset `i` on.
unfoldable pub changed : PageSize → ℕ → (ℕ → ℕ → ℕ) → ℕ → ℕ → ℕ → ℕ → ℕ
changed size va f zero i vb old = old
changed size va f (suc n) i vb old =
    changed size va f n (i + from_page_size size) vb (change size (add64 va i) (f i) vb old)

-- The entry that `map` writes for the page at an offset
unfoldable pub entry : ℕ → ℕ → ℕ → ℕ
unfolding setflags setaddr
entry paddr aflags i = setflags aflags (setaddr (add64 paddr i) 0)

-- The entry that `protect` makes of one
unfoldable pub recast : ℕ → ℕ → ℕ
unfolding setflags clearflags
recast aflags old = setflags aflags (clearflags old)

module _ {D : Type 0} (fr : Frames D) (pm : PageMap) (size : PageSize) where
  -- What a call leaves: the tables of a tree, in which each page shows what a function says.
  pub record Leaves (s : Tables D) (r : Result D (Unit {0})) (f : ℕ → ℕ → ℕ) : Type 0 where
    pub place : Place
    pub after : Tables D
    pub returned : r ≡ ok tt after
    pub tree : Tree fr pm size place after
    pub shown : (vb : ℕ) → shows pm size after vb ≡ f vb (shows pm size s vb)

  -- The entry of the page at `va` is written.
  pub write_one :
      (va u v : ℕ) (place : Place) (s : Tables D)
      → Tree fr pm size place s
      → leaf_of (3 - level size) (level size) pm.root va s.entries ≡ some u
      → Tree fr pm size place (set_entry u (index (level size) va) v s)
        × ((vb : ℕ)
            → shows pm size (set_entry u (index (level size) va) v s) vb
              ≡ change size va (λ old. v) vb (shows pm size s vb))
  write_one va u v place s tree l =
      let at = leaf_of-place tree (3 - level size) (level size) pm.root 0 va u tree.top l in
      (
        written-IsTree tree (level size) u _ (index (level size) va) v at,
        λ vb.
            view-written tree (level size) u _ (index (level size) va) v at (3 - level size) pm.root
              0 va vb tree.top l refl,
      )

  module _ (va paddr aflags : ℕ) where
    -- With three frames for each page, the loop of `map` ends without an error.
    pub map_from_lem :
        (n i : ℕ) (place : Place) (s : Tables D)
        → Tree fr pm size place s
        → HasRoom fr (need size n) s.frames
        → Leaves s
            (map_from fr pm va size n i paddr aflags s)
            (changed size va (λ i old. entry paddr aflags i) n i)
    unfolding map_from changed entry need
    map_from_lem zero i place s tree free = record {
      place = place;
      after = s;
      returned = refl;
      tree = tree;
      shown = λ vb. refl;
    }
    map_from_lem (suc n) i place s tree free =
        let r =
          descend_grows fr (3 - level size) (level size) pm.root 0 (add64 va i) (need size n) place
            s tree tree.top free in
        let one =
          write_one (add64 va i) r.table (entry paddr aflags i) r.place' r.after r.tree r.leaf in
        let rest =
          map_from_lem n (i + from_page_size size) r.place'
            (set_entry r.table (index (level size) (add64 va i)) (entry paddr aflags i) r.after)
            one.0 r.left in
        record {
          place = rest.place;
          after = rest.after;
          returned = rw (map_from, getpte, r.returned) rest.returned;
          tree = rest.tree;
          shown = λ vb.
              rest.shown vb
              ∙ ap (changed size va (λ i old. entry paddr aflags i) n (i + from_page_size size) vb)
                  (one.1 vb
                    ∙ ap (change size (add64 va i) (λ old. entry paddr aflags i) vb)
                        (r.grown.shown (level size) pm.root (3 - level size) 0 vb tree.top));
        }

  -- Where a table is missing, the pages show 0 already.
  hole_shows :
      (va vb : ℕ) (s : Tables D)
      → leaf_of (3 - level size) (level size) pm.root va s.entries ≡ none
      → change size va (λ old. 0) vb (shows pm size s vb) ≡ shows pm size s vb
  hole_shows va vb s l = elim (Bool-cases (same size va vb)) [
    | inl e ↦ rw e (
        sym (
          sym (view-same (3 - level size) (level size) pm.root va vb s.entries e)
          ∙ view-none (3 - level size) (level size) pm.root va s.entries l))
    | inr e ↦ rw e refl
  ]

  pub reads :
      (va : ℕ) (s : Tables D)
      → getpte fr pm va size false s
        ≡ elim (leaf_of (3 - level size) (level size) pm.root va s.entries) [
          | none ↦ err invalid_entry s
          | some u ↦ ok (u, index (level size) va) s
        ]
  unfolding getpte
  reads va s = descend_reads fr (3 - level size) (level size) pm.root va s

  -- The loop of `unmap` ends without an error.
  pub unmap_from_lem :
      (va n i : ℕ) (place : Place) (s : Tables D)
      → Tree fr pm size place s
      → Leaves s (unmap_from fr pm va size n i s) (changed size va (λ i old. 0) n i)
  unfolding unmap_from changed
  unmap_from_lem va zero i place s tree = record {
    place = place;
    after = s;
    returned = refl;
    tree = tree;
    shown = λ vb. refl;
  }
  unmap_from_lem va (suc n) i place s tree =
      elim (Option-cases (leaf_of (3 - level size) (level size) pm.root (add64 va i) s.entries)) [
        | inl l ↦
            let rest = unmap_from_lem va n (i + from_page_size size) place s tree in
            record {
              place = rest.place;
              after = rest.after;
              returned = rw (reads (add64 va i) s, l) rest.returned;
              tree = rest.tree;
              shown = λ vb.
                  rest.shown vb
                  ∙ sym (
                      ap (changed size va (λ i old. 0) n (i + from_page_size size) vb)
                        (hole_shows (add64 va i) vb s l));
            }
        | inr l ↦
            let one = write_one (add64 va i) l.0 0 place s tree l.1 in
            let rest =
              unmap_from_lem va n (i + from_page_size size) place
                (set_entry l.0 (index (level size) (add64 va i)) 0 s) one.0 in
            record {
              place = rest.place;
              after = rest.after;
              returned = rw (reads (add64 va i) s, l.1) rest.returned;
              tree = rest.tree;
              shown = λ vb.
                  rest.shown vb
                  ∙ ap (changed size va (λ i old. 0) n (i + from_page_size size) vb) (one.1 vb);
            }
      ]

  module _ (va aflags : ℕ) where
    recast-shows :
        (vc vb u : ℕ) (s : Tables D)
        → leaf_of (3 - level size) (level size) pm.root vc s.entries ≡ some u
        → change size vc
            (λ old. recast aflags (s.entries u (index (level size) vc)))
            vb
            (shows pm size s vb)
          ≡ change size vc (recast aflags) vb (shows pm size s vb)
    recast-shows vc vb u s l = elim (Bool-cases (same size vc vb)) [
      | inl e ↦ rw e (
          ap (recast aflags) (
            sym (view-some (3 - level size) (level size) pm.root vc u s.entries l)
            ∙ view-same (3 - level size) (level size) pm.root vc vb s.entries e))
      | inr e ↦ rw e refl
    ]

    -- A hole ends `protect` with an error, behind the pages that are changed already.
    pub protect_from_lem :
        (n i : ℕ) (place : Place) (s : Tables D)
        → Tree fr pm size place s
        → ((s' : Tables D) × (protect_from fr pm va size n i aflags s ≡ err invalid_entry s'))
          ⊎ Leaves s
              (protect_from fr pm va size n i aflags s)
              (changed size va (λ i old. recast aflags old) n i)
    unfolding protect_from changed recast
    protect_from_lem zero i place s tree =
        inr (record { place = place; after = s; returned = refl; tree = tree; shown = λ vb. refl })
    protect_from_lem (suc n) i place s tree =
        elim (Option-cases (leaf_of (3 - level size) (level size) pm.root (add64 va i) s.entries)) [
          | inl l ↦ inl (s, rw (reads (add64 va i) s, l) refl)
          | inr l ↦
              let v = recast aflags (s.entries l.0 (index (level size) (add64 va i))) in
              let one = write_one (add64 va i) l.0 v place s tree l.1 in
              elim (protect_from_lem n (i + from_page_size size) place
                (set_entry l.0 (index (level size) (add64 va i)) v s) one.0) [
                  | inl e ↦ inl (e.0, rw (reads (add64 va i) s, l.1) e.1)
                  | inr rest ↦ inr (record {
                    place = rest.place;
                    after = rest.after;
                    returned = rw (reads (add64 va i) s, l.1) rest.returned;
                    tree = rest.tree;
                    shown = λ vb.
                        rest.shown vb
                        ∙ ap
                            (changed size va (λ i old. recast aflags old) n
                              (i + from_page_size size) vb)
                            (one.1 vb ∙ recast-shows (add64 va i) vb l.0 s l.1);
                  })
                ]
        ]
