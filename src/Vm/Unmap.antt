-- ===== src/Vm/Unmap.antt =====
-- What `vmspace::unmap` of kernel/source/system/memory/vmm.cpp does to a range of pages.
use ilobilix.Base.{
  ℕ, ◌+◌, ◌/◌, ◌%◌, ◌≤◌, ◌^◌, Bool, true, not, ◌&&◌, none, some, Option-cases, Bool-cases, inl, inr,
  List, [], ◌∷◌, if◌then◌else◌, ◌≡◌, refl, ◌∙◌, ap, arith, All, select, add64,
}
use ilobilix.Math.{div_roundup}
use ilobilix.Math.Align.{div_roundup_lem}
use ilobilix.Vm.Mapping.{Mapping, psize, is_untouchable, overlaps, backing, page_at, find, IsFit}
use ilobilix.Vm.Pages.{find-covers}
use ilobilix.Vm.Valid.{
  IsValid, Held-select, select-IsValid, All-selected, find-select, find-All, is_locked, touches,
}
use ilobilix.Vm.Loop.{ReplacesAll, for_each-ReplacesAll, All-anything}
use ilobilix.Vm.Space.{Multiset, PageTable, Space, ok, unmap_one, unmap, IsCoherent}
use ilobilix.Vm.Pieces.{remains, outside_range, remains-IsPart, page_at-remains, unmap_one-Replaces}

-- The end of the range, rounded up to a page.
pub end_word :
    (address length : ℕ)
    → address + length + psize ≤ 2 ^ 64
    → div_roundup (add64 address length) psize ≡ (address + length + 4095) / psize
end_word address length fits =
    ap (λ n. div_roundup n psize) {x = add64 address length} {y = address + length} (omega arith)
    ∙ div_roundup_lem 12 52 (address + length) refl (omega arith)

module _ {T P : Type 0} (tr : Multiset T) (pg : PageTable P) (address length : ℕ) (s : Space T P)
    (aligned : address % psize ≡ 0) (fits : address + length + psize ≤ 2 ^ 64)
    (v : IsValid (tr.elems s.tree)) where
  startp : ℕ
  startp = address / psize

  endp : ℕ
  endp = (address + length + 4095) / psize

  wanted : Mapping → Bool
  wanted e = overlaps startp endp e && not (is_untouchable e)

  All-overlaps :
      (l : List Mapping) → All (λ e. wanted e ≡ true) l → All (λ e. overlaps startp endp e ≡ true) l
  unfolding wanted
  All-overlaps [] h = tt
  All-overlaps (e ∷ l) h = (ground arith, All-overlaps l h.1)

  range_ok : (startp ≤ endp) × (endp ≤ 2 ^ 52)
  unfolding startp endp
  range_ok = omega arith

  loop :
      ReplacesAll tr pg
        (remains startp endp)
        (outside_range startp endp)
        (select wanted (tr.elems s.tree))
        s
        (unmap tr pg address length s)
  unfolding unmap wanted startp endp
  loop =
      rw (end_word address length fits, aligned)
        (for_each-ReplacesAll tr pg (remains startp endp) (outside_range startp endp)
          (unmap_one tr pg startp endp) (λ e. overlaps startp endp e ≡ true) (λ s' e. Unit {0})
          (λ e f o. remains-IsPart startp endp e range_ok.0 f o tr pg)
          (λ e s' f o r.
            (unmap_one-Replaces startp endp e range_ok.0 f o tr pg s' range_ok.1, λ x p t. tt))
          (select wanted (tr.elems s.tree)) s v (select-IsValid wanted (tr.elems s.tree) v)
          (All-overlaps (select wanted (tr.elems s.tree)) (All-selected wanted (tr.elems s.tree)))
          (All-anything (select wanted (tr.elems s.tree))) (Held-select wanted (tr.elems s.tree) v))

  selected :
      (p : ℕ)
      → find p (select wanted (tr.elems s.tree)) ≡ elim (find p (tr.elems s.tree)) [
        | none ↦ none
        | some m ↦ (if wanted m then some m else none)
      ]
  selected p = find-select p wanted (tr.elems s.tree) (v.disjoint p)

  -- What is left of the mapping that holds a page, where it is one that the loop visits.
  cleared :
      (p : ℕ) (m : Mapping)
      → find p (tr.elems s.tree) ≡ some m
      → wanted m ≡ true
      → page_at p (remains startp endp m)
        ≡ (if touches address length p then none else some (backing m p))
  unfolding wanted startp endp
  cleared p m held w = ground (
    arith,
    page_at-remains (address / psize) ((address + length + 4095) / psize) m range_ok.0
        (find-All IsFit p (tr.elems s.tree) m v.fit held) (ground arith) p
        (find-covers p (tr.elems s.tree) m held),
  )

  pages :
      (p : ℕ)
      → page_at p (tr.elems loop.after.tree) ≡ (
          if touches address length p && not (is_locked p (tr.elems s.tree))
          then none
          else page_at p (tr.elems s.tree))
  unfolding wanted startp endp
  pages p = elim (Option-cases (find p (tr.elems s.tree))) [
    | inl lost ↦ ground (arith, loop.pages p, selected p)
    | inr (m, held) ↦ elim (Bool-cases (wanted m)) [
      | inl w ↦ ground (arith, loop.pages p, selected p, cleared p m held w)
      | inr w ↦ ground (arith, loop.pages p, selected p, find-covers p (tr.elems s.tree) m held)
    ]
  ]

  stale : IsCoherent tr pg s → IsCoherent tr pg loop.after
  unfolding wanted startp endp
  stale c q h = elim (Option-cases (find q (tr.elems s.tree))) [
    | inl lost ↦ absurd (c q (loop.stale q h).0 lost)
    | inr (m, held) ↦
        ground (arith, loop.stale q h, pages q, selected q, find-covers q (tr.elems s.tree) m held)
  ]

  -- On a valid tree, from an aligned address and below the top of the address space, `unmap` succeeds.
  -- It removes exactly the pages that start in the range and are not untouchable, keeps the backing
  -- of every other page, and leaves a valid tree. If the page tables showed only pages that a mapping
  -- holds, they still do.
  pub unmap_lem :
      (after : Space T P) × (unmap tr pg address length s ≡ ok after)
      × IsValid (tr.elems after.tree)
      × ((p : ℕ)
          → page_at p (tr.elems after.tree) ≡ (
              if touches address length p && not (is_locked p (tr.elems s.tree))
              then none
              else page_at p (tr.elems s.tree)))
      × (IsCoherent tr pg s → IsCoherent tr pg after)
  unmap_lem = (loop.after, loop.returns, loop.valid, pages, stale)
