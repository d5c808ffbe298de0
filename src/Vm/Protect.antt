-- ===== src/Vm/Protect.antt =====
-- What `vmspace::protect` of kernel/source/system/memory/vmm.cpp does to the rights of a range.
use ilobilix.Base.{
  ℕ, ◌+◌, ◌/◌, ◌%◌, ◌≤◌, ◌<◌, ◌^◌, Bool, true, false, not, ◌&&◌, Option-cases, Bool-cases, inl, inr,
  none, some, List, [], ◌∷◌, if◌then◌else◌, ◌≡◌, refl, arith, All, All-select, select, add64,
}
use mathlib.Core.Option
use ilobilix.Math.{div_roundup}
use ilobilix.Math.Align.{div_roundup_lem}
use ilobilix.Vm.Mapping.{
  Mapping, Backing, psize, is_untouchable, covers, overlaps, backing, page_at, find, IsFit,
}
use ilobilix.Vm.Pages.{find-covers}
use ilobilix.Vm.Valid.{
  IsValid, Held-select, All-found, is_held, select-IsValid, All-selected, find-select, find-All,
  is_locked, touches,
}
use ilobilix.Vm.Loop.{ReplacesAll, for_each-ReplacesAll}
use ilobilix.Vm.Space.{Multiset, PageTable, Space, ok, protect_one, protect, IsCoherent}
use ilobilix.Vm.Recast.{
  recast, keeps_all, IsReady, recast-IsPart, page_at-recast, protect_one-Round,
}

abbrev recast_at : ℕ → Backing → Backing
recast_at prot b = record b { prot = prot }

-- The page tables hold every page of the range that a mapping holds which is not untouchable.
abbrev pub IsPopulated : {T P : Type 0} → Multiset T → PageTable P → ℕ → ℕ → Space T P → Type 0
IsPopulated tr pg address length s =
    (q : ℕ)
    → touches address length q ≡ true
    → is_held q (tr.elems s.tree) ≡ true
    → is_locked q (tr.elems s.tree) ≡ false
    → pg.present s.pmap q ≡ true

module _ {T P : Type 0} (tr : Multiset T) (pg : PageTable P) (address length prot : ℕ)
    (s : Space T P) (aligned : address % psize ≡ 0) (nonempty : 0 < length)
    (fits : address + length + psize ≤ 2 ^ 64) (v : IsValid (tr.elems s.tree)) where
  startp : ℕ
  startp = address / psize

  endp : ℕ
  endp = startp + (length + 4095) / psize

  end_word : add64 startp (div_roundup length psize) ≡ endp
  unfolding startp endp
  end_word = rw (div_roundup_lem 12 52 length refl (omega arith)) (omega arith)

  wanted : Mapping → Bool
  wanted e = overlaps startp endp e && not (is_untouchable e)

  All-overlaps :
      (l : List Mapping) → All (λ e. wanted e ≡ true) l → All (λ e. overlaps startp endp e ≡ true) l
  unfolding wanted
  All-overlaps [] h = tt
  All-overlaps (e ∷ l) h = (ground arith, All-overlaps l h.1)

  range_ok : startp < endp
  unfolding startp endp
  range_ok = omega arith

  ready_all :
      (l : List Mapping)
      → IsPopulated tr pg address length s
      → All (λ e. (q : ℕ) → covers e q ≡ true → find q (tr.elems s.tree) ≡ some e) l
      → All (λ e. wanted e ≡ true) l
      → All (IsReady pg startp endp s) l
  unfolding wanted startp endp
  ready_all [] full found w = tt
  ready_all (e ∷ l) full found w = (
    λ q c i.
        full q (ground (arith, i)) (rw (is_held, found.0 q c) refl)
          (rw (is_locked, found.0 q c) (ground (arith, w.0))),
    ready_all l full found.1 w.1,
  )

  ready :
      IsPopulated tr pg address length s
      → All (IsReady pg startp endp s) (select wanted (tr.elems s.tree))
  ready full =
      ready_all (select wanted (tr.elems s.tree)) full
        (All-select (λ e. (q : ℕ) → covers e q ≡ true → find q (tr.elems s.tree) ≡ some e) wanted
          (tr.elems s.tree) (All-found (tr.elems s.tree) v.disjoint))
        (All-selected wanted (tr.elems s.tree))

  loop :
      IsPopulated tr pg address length s
      → ReplacesAll tr pg
          (recast startp endp prot)
          keeps_all
          (select wanted (tr.elems s.tree))
          s
          (protect tr pg address length prot s)
  unfolding protect wanted startp
  loop full =
      rw (end_word, aligned)
        (for_each-ReplacesAll tr pg (recast startp endp prot) keeps_all
          (protect_one tr pg startp endp prot) (λ e. overlaps startp endp e ≡ true)
          (IsReady pg startp endp) (λ e f o. recast-IsPart startp endp prot e range_ok f o tr pg)
          (λ e s' f o r. protect_one-Round startp endp prot e range_ok f o tr pg s' r)
          (select wanted (tr.elems s.tree)) s v (select-IsValid wanted (tr.elems s.tree) v)
          (All-overlaps (select wanted (tr.elems s.tree)) (All-selected wanted (tr.elems s.tree)))
          (ready full) (Held-select wanted (tr.elems s.tree) v))

  selected :
      (p : ℕ)
      → find p (select wanted (tr.elems s.tree)) ≡ elim (find p (tr.elems s.tree)) [
        | none ↦ none
        | some m ↦ (if wanted m then some m else none)
      ]
  selected p = find-select p wanted (tr.elems s.tree) (v.disjoint p)

  changed :
      (p : ℕ) (m : Mapping)
      → find p (tr.elems s.tree) ≡ some m
      → wanted m ≡ true
      → page_at p (recast startp endp prot m)
        ≡ some (if touches address length p then recast_at prot (backing m p) else backing m p)
  unfolding wanted startp endp
  changed p m held w = ground (
    arith,
    page_at-recast (address / psize) (address / psize + (length + 4095) / psize) prot m range_ok
        (find-All IsFit p (tr.elems s.tree) m v.fit held) (ground arith) p
        (find-covers p (tr.elems s.tree) m held),
  )

  pages :
      (full : IsPopulated tr pg address length s) (p : ℕ)
      → page_at p (tr.elems (loop full).after.tree) ≡ (
          if touches address length p && not (is_locked p (tr.elems s.tree))
          then Option.map (recast_at prot) (page_at p (tr.elems s.tree))
          else page_at p (tr.elems s.tree))
  unfolding wanted startp endp
  pages full p = elim (Option-cases (find p (tr.elems s.tree))) [
    | inl lost ↦ ground (arith, (loop full).pages p, selected p)
    | inr (m, held) ↦ elim (Bool-cases (wanted m)) [
      | inl w ↦ ground (arith, (loop full).pages p, selected p, changed p m held w)
      | inr w ↦
          ground (arith, (loop full).pages p, selected p, find-covers p (tr.elems s.tree) m held)
    ]
  ]

  stale :
      (full : IsPopulated tr pg address length s)
      → IsCoherent tr pg s
      → IsCoherent tr pg (loop full).after
  stale full c q h = elim (Option-cases (find q (tr.elems s.tree))) [
    | inl lost ↦ absurd (c q ((loop full).stale q h).0 lost)
    | inr (m, held) ↦ ground (arith, pages full q)
  ]

  -- On a valid tree, for a range that is not empty, is aligned and ends below the top of the address
  -- space, where the page tables hold every page of the range whose mapping is not untouchable, `protect`
  -- succeeds. The pages that start in the range and are not untouchable get the new rights and keep
  -- the rest of their backing, every other page keeps all of it, and the tree stays valid. If the
  -- page tables showed only pages that a mapping holds, they still do.
  pub protect_lem :
      IsPopulated tr pg address length s
      → (after : Space T P) × (protect tr pg address length prot s ≡ ok after)
        × IsValid (tr.elems after.tree)
        × ((p : ℕ)
            → page_at p (tr.elems after.tree) ≡ (
                if touches address length p && not (is_locked p (tr.elems s.tree))
                then Option.map (recast_at prot) (page_at p (tr.elems s.tree))
                else page_at p (tr.elems s.tree)))
        × (IsCoherent tr pg s → IsCoherent tr pg after)
  protect_lem full =
      ((loop full).after, (loop full).returns, (loop full).valid, pages full, stale full)
