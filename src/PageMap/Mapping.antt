-- ===== src/PageMap/Mapping.antt =====
-- kernel/source/system/memory/pagemap.cpp: what holds at one address after calls of `map`, `unmap` and
-- `protect` on small pages.
use ilobilix.Base.{
  ℕ, ◌+◌, ◌-◌, ◌*◌, ◌/◌, ◌%◌, ◌^◌, ◌≡◌, ◌<◌, ◌≤◌, ◌⊎◌, refl, sym, ap, ◌∙◌, true, if◌then◌else◌,
  arith, Bool-cases, inl, inr, bit_and,
}
use ilobilix.Base.Digits.{bit_and_again}
use ilobilix.PageMap.{
  small, Caching, Frames, Tables, PageMap, invalid_entry, ok, err, ◌>>=◌, setflags, clearflags,
  getaddr, to_arch, pa_mask,
}
use ilobilix.PageMap.Ops.{rounds, map, unmap, protect, translate}
use ilobilix.PageMap.Bits.{getaddr-setflags, to_arch_small}
use ilobilix.PageMap.Place.{Place, HasRoom}
use ilobilix.PageMap.Range.{shows, Tree, need, entry}
use ilobilix.PageMap.Pages.{
  in_pages, entry_set, entry_address, translate-shows, map-shows, unmap-shows, protect-shows,
}

recast_address :
    (flags : ℕ) (cache : Caching) (old : ℕ)
    → getaddr (setflags (to_arch flags cache small) (clearflags old)) ≡ getaddr old
unfolding getaddr clearflags
recast_address flags cache old =
    getaddr-setflags (to_arch flags cache small) (clearflags old) (to_arch_small flags cache)
    ∙ bit_and_again old pa_mask

module _ {D : Type 0} (fr : Frames D) (pm : PageMap) (va length vb : ℕ) (place : Place)
    (s : Tables D) (a : va % 4096 ≡ 0) (h : va + rounds length 4096 * 4096 ≤ 2 ^ 48)
    (k : vb < 2 ^ 48) (tree : Tree fr pm small place s) where
  -- On tables that are a tree of their own, for an aligned range of small pages in the lower 2 ^ 48
  -- bytes, if the allocator has three frames for each page, the rights include reading, and the
  -- physical range is aligned and below 2 ^ 47, map succeeds, and translate then gives each page of
  -- the range the physical address at the same distance.
  pub map-translate :
      (paddr flags : ℕ) (cache : Caching)
      → HasRoom fr (need small (rounds length 4096)) s.frames
      → bit_and flags 1 ≡ 1
      → paddr % 4096 ≡ 0
      → paddr + rounds length 4096 * 4096 ≤ 2 ^ 47
      → vb % 4096 ≡ 0
      → in_pages va length vb ≡ true
      → (s' : Tables D) × (map fr pm va paddr length flags small cache s ≡ ok tt s')
        × (translate fr pm vb small s' ≡ ok (paddr + (vb - va)) s')
  unfolding in_pages
  map-translate paddr flags cache free readable page low b inside =
      let m = map-shows fr pm va length place s a h tree paddr flags cache free in
      let here : vb / 4096 * 4096 ≡ vb = omega (arith, b) in
      let bound : vb - va + 4096 ≤ rounds length 4096 * 4096 = ground (arith, a, b, inside) in
      let v : shows pm small m.after vb ≡ entry paddr (to_arch flags cache small) (vb - va) =
        m.shown vb k ∙ rw (inside, here) refl in
      let to : getaddr (entry paddr (to_arch flags cache small) (vb - va)) ≡ paddr + (vb - va) =
        entry_address paddr (vb - va) flags cache page (omega (arith, a, b))
          (omega (arith, bound, low)) in
      (
        m.after,
        m.returned,
        translate-shows fr pm vb (entry paddr (to_arch flags cache small) (vb - va)) m.after b v
              (entry_set paddr (vb - va) flags cache readable) (omega (arith, to, bound, low))
            ∙ ap (λ (t : ℕ). ok t m.after) to,
      )

  -- On tables that are a tree of their own, for an aligned range of small pages in the lower 2 ^ 48
  -- bytes, unmap succeeds, also over holes. Each page of the range then shows an empty entry, and
  -- every other page below 2 ^ 48 what it showed.
  pub unmap_clears :
      (s' : Tables D) × (unmap fr pm va length small s ≡ ok tt s')
      × (shows pm small s' vb ≡ (if in_pages va length vb then 0 else shows pm small s vb))
  unmap_clears =
      let m = unmap-shows fr pm va length place s a h tree in (m.after, m.returned, m.shown vb k)

  -- On tables that are a tree of their own, for an aligned range of small pages in the lower 2 ^ 48
  -- bytes, if the allocator has three frames for each page and the pages of the range showed empty
  -- entries, map and unmap of the range succeed and leave every page below 2 ^ 48 showing what it
  -- did.
  pub map-unmap :
      (paddr flags : ℕ) (cache : Caching)
      → HasRoom fr (need small (rounds length 4096)) s.frames
      → (in_pages va length vb ≡ true → shows pm small s vb ≡ 0)
      → (s' : Tables D) × ((map fr pm va paddr length flags small cache s >>= λ _ s''.
            unmap fr pm va length small s'')
          ≡ ok tt s')
        × (shows pm small s' vb ≡ shows pm small s vb)
  map-unmap paddr flags cache free empty =
      let m = map-shows fr pm va length place s a h tree paddr flags cache free in
      let u = unmap-shows fr pm va length m.place m.after a h m.tree in
      (
        u.after,
        rw m.returned u.returned,
        u.shown vb k
            ∙ rw (m.shown vb k) (elim (Bool-cases (in_pages va length vb)) [
              | inl e ↦ rw e (sym (empty e))
              | inr e ↦ rw e refl
            ]),
      )

  -- On tables that are a tree of their own, for an aligned range of small pages in the lower 2 ^ 48
  -- bytes, protect either fails with invalid_entry or succeeds. In that case no page below 2 ^ 48
  -- has its address changed, the entries of the range have just the new flags beside the address,
  -- and the others are as they were.
  pub protect_keeps :
      (flags : ℕ) (cache : Caching)
      → ((s' : Tables D) × (protect fr pm va length flags small cache s ≡ err invalid_entry s'))
        ⊎ ((s' : Tables D) × (protect fr pm va length flags small cache s ≡ ok tt s')
            × (getaddr (shows pm small s' vb) ≡ getaddr (shows pm small s vb))
            × (shows pm small s' vb ≡ (
                if in_pages va length vb
                then setflags (to_arch flags cache small) (clearflags (shows pm small s vb))
                else shows pm small s vb)))
  protect_keeps flags cache = elim (protect-shows fr pm va length place s a h tree flags cache) [
    | inl e ↦ inl e
    | inr m ↦ inr (
      m.after,
      m.returned,
      ap (λ (t : ℕ). getaddr t) (m.shown vb k) ∙ elim (Bool-cases (in_pages va length vb)) [
        | inl e ↦ rw e (recast_address flags cache (shows pm small s vb))
        | inr e ↦ rw e refl
      ],
      m.shown vb k,
    )
  ]
