-- ===== src/Vm/Map.antt =====
-- What `vmspace::map` of kernel/source/system/memory/vmm.cpp does to a range of pages.
use ilobilix.Base.{
  ℕ, ◌+◌, ◌-◌, ◌*◌, ◌/◌, ◌%◌, ◌≤◌, ◌<◌, ◌^◌, true, false, ◌&&◌, leb, max, min, Option-cases,
  Bool-cases, inl, inr, none, some, if◌then◌else◌, ◌≡◌, refl, ◌⊎◌, arith, All, select,
}
use ilobilix.Vm.Mapping.{Mapping, psize, is_untouchable, overlaps, backing, page_at, find, IsFit}
use ilobilix.Vm.Pages.{
  insert, insert_all, without, find-covers, count_of_none, count-insert, find-insert_hit,
  find-insert_miss,
}
use ilobilix.Vm.Valid.{
  IsValid, Held-select, select-IsValid, All-insert, find-select, find-All, touches,
}
use ilobilix.Vm.Loop.{Replaces, ReplacesAll, for_each-ReplacesAll, All-anything}
use ilobilix.Vm.Space.{Multiset, PageTable, Space, ok, carry, piece, for_each, map_one, map}
use ilobilix.Vm.Pieces.{remains, outside_range, remains-IsPart, page_at-remains, carried}
use ilobilix.Vm.Unmap.{end_word}

-- The new range may replace the mapping: it is not untouchable, and the range covers it whole or
-- lies in it and ends before it does.
abbrev pub IsClean : ℕ → ℕ → Mapping → Type 0
IsClean startp endp e =
    (overlaps startp endp e ≡ true)
    × (is_untouchable e ≡ false)
    × (((startp ≤ e.startp) × (e.endp ≤ endp)) ⊎ ((e.startp ≤ startp) × (endp < e.endp)))

module _ (startp endp : ℕ) (e : Mapping) (range : startp < endp) (fit : IsFit e)
    (clean : IsClean startp endp e) {T P : Type 0} (tr : Multiset T) (pg : PageTable P)
    (s : Space T P) (bound : endp ≤ 2 ^ 52) where
  low : Mapping
  low = piece e e.startp startp e.offsetp

  high : Mapping
  high = piece e endp e.endp (e.offsetp + (endp - e.startp))

  into :
      (t : T) (a n : ℕ)
      → a ≡ max startp e.startp * psize
      → a + n ≡ min endp e.endp * psize
      → tr.elems t ≡ insert_all (remains startp endp e) (without e.startp (tr.elems s.tree))
      → Replaces tr pg
          (remains startp endp)
          (outside_range startp endp)
          e
          s
          (carry t (pg.unmap s.pmap a n))
  into = carried startp endp e (omega arith) fit clean.0 tr pg s bound

  map_one-Replaces :
      Replaces tr pg
        (remains startp endp)
        (outside_range startp endp)
        e
        s
        (map_one tr pg startp endp e s)
  unfolding map_one insert_all low high
  map_one-Replaces = elim (Bool-cases (leb startp e.startp && leb e.endp endp)) [
    | inl h ↦
        rw (clean.1, h)
          (into _ _ _ (ground arith) (ground arith) (ground (arith, tr.elems-erase s.tree e)))
    | inr h ↦
        rw (clean.1, h)
          (into _ _ _ (ground arith) (ground arith) (
            ground (
              arith,
              tr.elems-erase s.tree e,
              tr.elems-emplace (tr.erase s.tree e) low,
              tr.elems-emplace (tr.emplace (tr.erase s.tree e) low) high,
              tr.elems-emplace (tr.erase s.tree e) high,
            )))
  ]

module _ {T P : Type 0} (tr : Multiset T) (pg : PageTable P)
    (address length prot flags obj offset : ℕ) (s : Space T P) (aligned : address % psize ≡ 0)
    (offset_aligned : offset % psize ≡ 0) (nonempty : 0 < length)
    (fits : address + length + psize ≤ 2 ^ 64) (offset_word : offset < 2 ^ 64)
    (v : IsValid (tr.elems s.tree)) where
  startp : ℕ
  startp = address / psize

  endp : ℕ
  endp = (address + length + 4095) / psize

  range_ok : (startp < endp) × (endp ≤ 2 ^ 52)
  unfolding startp endp
  range_ok = omega arith

  new : Mapping
  new = record {
    startp = address / psize;
    endp = (address + length + 4095) / psize;
    obj = obj;
    offsetp = offset / psize;
    prot = prot;
    flags = flags;
  }

  new-IsFit : IsFit new
  unfolding new
  new-IsFit = omega arith

  -- Every mapping that meets the range is one that the new mapping may replace.
  abbrev pub AllClean : Type 0
  AllClean =
      All (IsClean (address / psize) ((address + length + 4095) / psize))
        (select (overlaps (address / psize) ((address + length + 4095) / psize)) (tr.elems s.tree))

  module _ (clean : AllClean) where
    loop :
        ReplacesAll tr pg
          (remains startp endp)
          (outside_range startp endp)
          (select (overlaps startp endp) (tr.elems s.tree))
          s
          (for_each (map_one tr pg startp endp) (select (overlaps startp endp) (tr.elems s.tree)) s)
    unfolding startp endp
    loop =
        for_each-ReplacesAll tr pg (remains startp endp) (outside_range startp endp)
          (map_one tr pg startp endp) (IsClean startp endp) (λ s' e. Unit {0})
          (λ e f c. remains-IsPart startp endp e (omega (arith, range_ok)) f c.0 tr pg)
          (λ e s' f c r.
            (map_one-Replaces startp endp e range_ok.0 f c tr pg s' range_ok.1, λ x p t. tt))
          (select (overlaps startp endp) (tr.elems s.tree)) s v
          (select-IsValid (overlaps startp endp) (tr.elems s.tree) v) clean
          (All-anything (select (overlaps startp endp) (tr.elems s.tree)))
          (Held-select (overlaps startp endp) (tr.elems s.tree) v)

    after : Space T P
    after = record loop.after { tree = tr.emplace loop.after.tree new }

    elems_after : tr.elems after.tree ≡ insert new (tr.elems loop.after.tree)
    unfolding after
    elems_after = tr.elems-emplace loop.after.tree new

    returns : map tr pg address length prot flags obj offset s ≡ ok after
    unfolding map startp endp after new
    returns = rw (end_word address length fits, aligned, offset_aligned, loop.returns) refl

    selected :
        (p : ℕ)
        → find p (select (overlaps startp endp) (tr.elems s.tree))
          ≡ elim (find p (tr.elems s.tree)) [
            | none ↦ none
            | some m ↦ (if overlaps startp endp m then some m else none)
          ]
    selected p = find-select p (overlaps startp endp) (tr.elems s.tree) (v.disjoint p)

    visited :
        (p : ℕ) (m : Mapping)
        → find p (tr.elems s.tree) ≡ some m
        → overlaps startp endp m ≡ true
        → page_at p (remains startp endp m)
          ≡ (if touches address length p then none else some (backing m p))
    unfolding startp endp
    visited p m held over = ground (
      arith,
      page_at-remains (address / psize) ((address + length + 4095) / psize) m
          (omega (arith, range_ok)) (find-All IsFit p (tr.elems s.tree) m v.fit held) over p
          (find-covers p (tr.elems s.tree) m held),
    )

    -- The loop empties the range.
    emptied : (p : ℕ) → touches address length p ≡ true → find p (tr.elems loop.after.tree) ≡ none
    unfolding startp endp
    emptied p inside = elim (Option-cases (find p (tr.elems s.tree))) [
      | inl lost ↦ ground (arith, loop.pages p, selected p)
      | inr (m, held) ↦
          let over : overlaps startp endp m ≡ true =
            ground (arith, find-covers p (tr.elems s.tree) m held) in
          ground (arith, loop.pages p, selected p, visited p m held over)
    ]

    kept :
        (p : ℕ)
        → touches address length p ≡ false
        → page_at p (tr.elems loop.after.tree) ≡ page_at p (tr.elems s.tree)
    unfolding startp endp
    kept p outside = elim (Option-cases (find p (tr.elems s.tree))) [
      | inl lost ↦ ground (arith, loop.pages p, selected p)
      | inr (m, held) ↦ elim (Bool-cases (overlaps startp endp m)) [
        | inl over ↦ ground (arith, loop.pages p, selected p, visited p m held over)
        | inr apart ↦ ground (arith, loop.pages p, selected p)
      ]
    ]

    pages :
        (p : ℕ)
        → page_at p (tr.elems after.tree)
          ≡ (if touches address length p then some (backing new p) else page_at p (tr.elems s.tree))
    unfolding new
    pages p = elim (Bool-cases (touches address length p)) [
      | inl i ↦ ground (
        arith,
        elems_after,
        find-insert_hit p new (tr.elems loop.after.tree),
        count_of_none p (tr.elems loop.after.tree) (emptied p i),
      )
      | inr o ↦
          ground (arith, elems_after, find-insert_miss p new (tr.elems loop.after.tree), kept p o)
    ]

    valid : IsValid (tr.elems after.tree)
    unfolding new
    valid = record {
      disjoint = λ p. elim (Bool-cases (touches address length p)) [
        | inl i ↦ ground (
          arith,
          elems_after,
          count-insert p new (tr.elems loop.after.tree),
          count_of_none p (tr.elems loop.after.tree) (emptied p i),
        )
        | inr o ↦ ground (
          arith,
          elems_after,
          count-insert p new (tr.elems loop.after.tree),
          loop.valid.disjoint p,
        )
      ];
      fit =
          rw elems_after (All-insert IsFit new (tr.elems loop.after.tree) new-IsFit loop.valid.fit);
    }

    -- On a valid tree, with an aligned address and offset, a range that is not empty and ends below
    -- the top of the address space, and an offset that is a word: if no mapping that meets the range is untouchable, and the range
    -- covers each such mapping or lies in it and ends before it, then `map` succeeds. Exactly the pages
    -- that start in the range show the new object, from the offset on, every other page keeps its
    -- backing, and the tree stays valid.
    pub map_lem :
        (after : Space T P) × (map tr pg address length prot flags obj offset s ≡ ok after)
        × IsValid (tr.elems after.tree)
        × ((p : ℕ)
            → page_at p (tr.elems after.tree) ≡ (
                if touches address length p
                then some (record {
                  obj = obj;
                  pidx = (p - address / psize) + offset / psize;
                  prot = prot;
                  flags = flags;
                })
                else page_at p (tr.elems s.tree)))
    unfolding new
    map_lem = (after, returns, valid, pages)
