-- ===== src/Vm/Faults.antt =====
-- Where `vmspace::map` of kernel/source/system/memory/vmm.cpp gives the pages above the range another
-- backing, or leaves a mapping of no pages.
use ilobilix.Base.{ℕ, ◌+◌, ◌-◌, ◌*◌, ◌≤◌, ◌<◌, ◌^◌, false, ◌≡◌, refl, arith}
use ilobilix.Vm.Mapping.{Mapping, psize, is_untouchable, backing, IsFit}
use ilobilix.Vm.Pages.{insert, without}
use ilobilix.Vm.Space.{Multiset, PageTable, Space, ok, piece, map_one}

module _ {T P : Type 0} (tr : Multiset T) (pg : PageTable P) (startp endp : ℕ) (s : Space T P)
    (e : Mapping) (fit : IsFit e) (range : startp < endp) (bound : endp < 2 ^ 52)
    (touchable : is_untouchable e ≡ false) where
  lower : Mapping
  lower = piece e e.startp startp e.offsetp

  hollow : Mapping
  hollow = piece e e.endp e.endp (e.offsetp + (startp - e.startp) + (endp - startp))

  shifted : Mapping
  shifted = piece e endp e.endp (e.offsetp + (endp - startp))

  -- If the range begins inside the mapping and reaches its end or beyond, a round of `map` cuts the
  -- mapping and also puts one of no pages, from its end to its end, into the tree.
  pub map_one_overhang :
      e.startp < startp
      → startp < e.endp
      → e.endp ≤ endp
      → (after : Space T P) × (off : ℕ) × (map_one tr pg startp endp e s ≡ ok after)
        × (tr.elems after.tree
            ≡ insert
                (piece e e.endp e.endp off)
                (insert (piece e e.startp startp e.offsetp) (without e.startp (tr.elems s.tree))))
  unfolding map_one lower hollow
  map_one_overhang above meets over =
      let (pt, done) =
        pg.unmap_total s.pmap (startp * psize) ((e.endp - startp) * psize) (omega arith) in
      (
        record { tree = tr.emplace (tr.emplace (tr.erase s.tree e) lower) hollow; pmap = pt },
        e.offsetp + (startp - e.startp) + (endp - startp),
        ground (arith, done),
        ground (
          arith,
          tr.elems-erase s.tree e,
          tr.elems-emplace (tr.erase s.tree e) lower,
          tr.elems-emplace (tr.emplace (tr.erase s.tree e) lower) hollow,
        ),
      )

  -- If the range begins below the mapping and ends inside it, the rest that a round of `map` puts back
  -- shows pages of the object that lie `e.startp - startp` too far.
  pub map_one_shift :
      startp < e.startp
      → e.startp < endp
      → endp < e.endp
      → (after : Space T P) × (tail : Mapping) × (map_one tr pg startp endp e s ≡ ok after)
        × (tr.elems after.tree ≡ insert tail (without e.startp (tr.elems s.tree)))
        × (tail.startp ≡ endp)
        × (tail.endp ≡ e.endp)
        × ((p : ℕ) → endp ≤ p → (backing tail p).pidx ≡ (backing e p).pidx + (e.startp - startp))
  unfolding map_one shifted
  map_one_shift below meets inside =
      let (pt, done) =
        pg.unmap_total s.pmap (e.startp * psize) ((endp - e.startp) * psize) (omega arith) in
      (
        record { tree = tr.emplace (tr.erase s.tree e) shifted; pmap = pt },
        shifted,
        ground (arith, done),
        ground (arith, tr.elems-erase s.tree e, tr.elems-emplace (tr.erase s.tree e) shifted),
        refl,
        refl,
        λ p h. omega arith,
      )
