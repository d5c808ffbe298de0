-- ===== src/PageMap/Composed.antt =====
-- kernel/source/system/memory/vmm.cpp over kernel/source/system/memory/pagemap.cpp: what `unmap` of an
-- address space leaves in the page tables.
use ilobilix.Base.{
  ℕ, ◌+◌, ◌%◌, ◌^◌, ◌≡◌, ◌≤◌, ◌∙◌, refl, true, false, none, Bool-cases, Option-cases, inl, inr,
}
use ilobilix.PageMap.{Frames, PageMap}
use ilobilix.PageMap.Lower.{Pages, has_page}
use ilobilix.PageMap.Interface.{page_table}
use ilobilix.Vm.Mapping.{psize, find, page_at}
use ilobilix.Vm.Valid.{IsValid, touches, is_locked}
use ilobilix.Vm.Space.{Multiset, Space, ok, unmap, IsCoherent}
use ilobilix.Vm.Unmap.{unmap_lem}

module _ {D T : Type 0} (fr : Frames D) (pm : PageMap) (tr : Multiset T) (address length : ℕ)
    (s : Space T (Pages fr pm)) where
  -- In a valid address space over page tables that are a tree, where the tables show in their lower
  -- half only pages that a mapping holds, from an aligned address and below the top of the address
  -- space, unmap succeeds, and the lower half then shows no page that the range touches, unless its
  -- mapping is untouchable.
  pub unmap-has_page :
      (q : ℕ)
      → address % psize ≡ 0
      → address + length + psize ≤ 2 ^ 64
      → IsValid (tr.elems s.tree)
      → IsCoherent tr (page_table fr pm) s
      → touches address length q ≡ true
      → is_locked q (tr.elems s.tree) ≡ false
      → (after : Space T (Pages fr pm)) × (unmap tr (page_table fr pm) address length s ≡ ok after)
        × (has_page fr pm after.pmap q ≡ false)
  unmap-has_page q a h v c inside free =
      let u = unmap_lem tr (page_table fr pm) address length s a h v in
      (
        u.0,
        u.1,
        elim (Bool-cases (has_page fr pm u.0.pmap q)) [
          | inr e ↦ e
          | inl e ↦ elim (Option-cases (find q (tr.elems u.0.tree))) [
            | inl l ↦ absurd (u.4 c q e l)
            | inr l ↦
                let g : page_at q (tr.elems u.0.tree) ≡ none = u.3 q ∙ rw (inside, free) refl in
                cc (rw (page_at, l.1) at g)
          ]
        ],
      )
