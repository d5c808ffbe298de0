-- ===== src/Vm/Pieces.antt =====
-- What `unmap` of kernel/source/system/memory/vmm.cpp leaves of one mapping: the part below the
-- range and the part above it.
use ilobilix.Base.{
  ℕ, ◌+◌, ◌-◌, ◌*◌, ◌≤◌, ◌^◌, min, max, Bool, true, not, ◌&&◌, ltb, leb, none, some, List, [], ◌∷◌,
  if◌then◌else◌, ◌≡◌, arith, All, Bool-cases, inl, inr,
}
use ilobilix.Vm.Mapping.{Mapping, covers, overlaps, backing, page_at, find, IsFit, psize}
use ilobilix.Vm.Pages.{hit, count, insert_all, without}
use ilobilix.Vm.Loop.{Replaces, IsPart}
use ilobilix.Vm.Space.{Multiset, PageTable, Space, carry, piece, unmap_one}

abbrev pub cons_if : Bool → Mapping → List Mapping → List Mapping
cons_if b m l = if b then m ∷ l else l

-- The parts of `e` outside the range, with the offsets that keep every page on its backing.
abbrev pub remains : ℕ → ℕ → Mapping → List Mapping
remains startp endp e =
    cons_if (ltb e.startp startp) (piece e e.startp startp e.offsetp)
      (cons_if (ltb endp e.endp) (piece e endp e.endp (e.offsetp + (endp - e.startp))) [])

abbrev pub in_range : ℕ → ℕ → ℕ → Bool
in_range startp endp p = leb startp p && ltb p endp

abbrev pub outside_range : ℕ → ℕ → Mapping → ℕ → Bool
outside_range startp endp e p = not (in_range startp endp p)

module _ (startp endp : ℕ) (e : Mapping) (range : startp ≤ endp) (fit : IsFit e)
    (over : overlaps startp endp e ≡ true) where
  count-remains : (p : ℕ) → count p (remains startp endp e) ≤ hit e p
  unfolding count
  count-remains p = ground arith

  remains-IsFit : All IsFit (remains startp endp e)
  remains-IsFit = ground arith

  pub remains-IsPart :
      {T P : Type 0} (tr : Multiset T) (pg : PageTable P)
      → IsPart tr pg (remains startp endp) (outside_range startp endp) e
  remains-IsPart tr pg = record { within = count-remains; fit = remains-IsFit }

  pub page_at-remains :
      (p : ℕ)
      → covers e p ≡ true
      → page_at p (remains startp endp e)
        ≡ (if in_range startp endp p then none else some (backing e p))
  unfolding find
  page_at-remains p c = ground arith

  module _ {T P : Type 0} (tr : Multiset T) (pg : PageTable P) (s : Space T P)
      (bound : endp ≤ 2 ^ 52) where
    -- Both calls of `pagemap::unmap` name the common part of the mapping and the range.
    pub carried :
        (t : T) (a n : ℕ)
        → a ≡ max startp e.startp * psize
        → a + n ≡ min endp e.endp * psize
        → tr.elems t ≡ insert_all (remains startp endp e) (without e.startp (tr.elems s.tree))
        → Replaces tr pg
            (remains startp endp)
            (outside_range startp endp)
            e
            s
            (carry t (pg.unmap s.pmap a n))
    carried t a n ha hn ht =
        let (pt, e') = pg.unmap_total s.pmap a n (omega arith) in
        record {
          after = record { tree = t; pmap = pt };
          returns = rw e';
          tree = ht;
          stale = λ q h. ground (arith, pg.unmap-present s.pmap a n pt q e' h);
        }

    lower : Mapping
    lower = piece e e.startp startp e.offsetp

    upper : Mapping
    upper = piece e endp e.endp (e.offsetp + (endp - e.startp))

    -- `unmap_one` does not fail. It puts the remains back, and the page tables hold no page of the
    -- mapping in the range.
    pub unmap_one-Replaces :
        Replaces tr pg
          (remains startp endp)
          (outside_range startp endp)
          e
          s
          (unmap_one tr pg startp endp e s)
    unfolding unmap_one insert_all lower upper
    unmap_one-Replaces = elim (Bool-cases (leb startp e.startp && leb e.endp endp)) [
      | inl h ↦
          rw h
            (carried _ _ _ (ground arith) (ground arith) (ground (arith, tr.elems-erase s.tree e)))
      | inr h ↦ rw h (
          carried _ _ _ (ground arith) (ground arith) (
            ground (
              arith,
              tr.elems-erase s.tree e,
              tr.elems-emplace (tr.erase s.tree e) lower,
              tr.elems-emplace (tr.emplace (tr.erase s.tree e) lower) upper,
              tr.elems-emplace (tr.erase s.tree e) upper,
            )))
    ]
