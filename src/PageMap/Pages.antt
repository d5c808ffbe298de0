-- ===== src/PageMap/Pages.antt =====
-- kernel/source/system/memory/pagemap.cpp: `map`, `unmap`, `protect` and `translate` of small pages,
-- as operations on a map from pages to entries.
use ilobilix.Base.{
  ℕ, ◌+◌, ◌-◌, ◌*◌, ◌/◌, ◌%◌, ◌^◌, ◌≡◌, ◌≢◌, ◌<◌, ◌≤◌, ◌&&◌, ◌⊎◌, refl, sym, ap, ◌∙◌, Bool, true,
  if◌then◌else◌, arith, ◌||◌, Option-cases, inl, inr, add64, ltb, leb, bit_and, bit_or,
}
use ilobilix.Base.Digits.{or_low}
use ilobilix.PageMap.{
  small, Caching, Frames, Tables, PageMap, invalid_entry, Result, ok, err, setaddr, setflags,
  clearflags, getaddr, index, to_arch, is_canonical, level, pa_mask,
}
use ilobilix.PageMap.Ops.{rounds, map, unmap, protect, translate}
use ilobilix.PageMap.Bits.{getaddr-setflags, getaddr-setaddr, to_arch_small, page_kept}
use ilobilix.PageMap.Place.{Place, HasRoom, leaf_of}
use ilobilix.PageMap.Range.{
  shows, Tree, changed, need, Leaves, entry, recast, reads, map_from_lem, unmap_from_lem,
  protect_from_lem,
}
use ilobilix.PageMap.View.{view-none, view-some}
use ilobilix.PageMap.Small.{small_changed}

-- The pages of `length` bytes from `va` on
unfoldable pub in_pages : ℕ → ℕ → ℕ → Bool
in_pages va length vb = leb va vb && ltb vb (va + rounds length 4096 * 4096)

or_set : (a b : ℕ) → a % 2 ≡ 1 → bit_or a b % 2 ≡ 1
or_set a b h = omega (arith, or_low a b, h)

to_arch_present :
    (flags : ℕ) (cache : Caching) → bit_and flags 1 ≡ 1 → to_arch flags cache small % 2 ≡ 1
unfolding to_arch
to_arch_present flags cache h =
    or_set _ _ (or_set _ _ (or_set _ _ (or_set _ _ (or_set _ _ (or_set _ _ (rw h refl))))))

module _ (paddr i flags : ℕ) (cache : Caching) where
  pub entry_set : bit_and flags 1 ≡ 1 → entry paddr (to_arch flags cache small) i ≢ 0
  unfolding entry setflags
  entry_set h e =
      let low = or_low (setaddr (add64 paddr i) 0) (to_arch flags cache small) in
      let one = to_arch_present flags cache h in absurd (omega (arith, low, one, e))

  pub entry_address :
      paddr % 4096 ≡ 0
      → i % 4096 ≡ 0
      → paddr + i < 2 ^ 47
      → getaddr (entry paddr (to_arch flags cache small) i) ≡ paddr + i
  unfolding entry
  entry_address h k l =
      let page : paddr + i ≡ (paddr + i) / 4096 * 4096 = omega (arith, h, k) in
      let plain : add64 paddr i ≡ paddr + i = omega (arith, l) in
      getaddr-setflags (to_arch flags cache small) (setaddr (add64 paddr i) 0)
        (to_arch_small flags cache)
      ∙ getaddr-setaddr (add64 paddr i)
      ∙ ap (λ (t : ℕ). bit_and t pa_mask) (plain ∙ page)
      ∙ page_kept ((paddr + i) / 4096) (omega (arith, l))
      ∙ sym page

module _ {D : Type 0} (fr : Frames D) (pm : PageMap) where
  -- `translate` reads what the tables show.
  pub translate-shows :
      (vb v : ℕ) (s : Tables D)
      → vb % 4096 ≡ 0
      → shows pm small s vb ≡ v
      → v ≢ 0
      → getaddr v < 2 ^ 47
      → translate fr pm vb small s ≡ ok (getaddr v) s
  unfolding translate is_canonical
  translate-shows vb v s a e n c =
      elim (Option-cases (leaf_of (3 - level small) (level small) pm.root vb s.entries)) [
        | inl l ↦
            absurd (n (sym e ∙ view-none (3 - level small) (level small) pm.root vb s.entries l))
        | inr l ↦
            let there : s.entries l.0 (index 0 vb) ≡ v =
              sym (view-some (3 - level small) (level small) pm.root vb l.0 s.entries l.1) ∙ e in
            let canonical : (ltb (getaddr v) 0x0000_8000_0000_0000
                  || leb 0xFFFF_8000_0000_0000 (getaddr v))
                ≡ true =
              ground (arith, c) in
            rw (translate, a, reads fr pm small vb s, l.1, there, canonical) refl
      ]

  -- What a call on small pages leaves: the tables of a tree, in which each page shows what a function
  -- of its address and of what it showed says.
  pub record Shows (s : Tables D) (r : Result D (Unit {0})) (f : ℕ → ℕ → ℕ) : Type 0 where
    pub place : Place
    pub after : Tables D
    pub returned : r ≡ ok tt after
    pub tree : Tree fr pm small place after
    pub shown : (vb : ℕ) → vb < 2 ^ 48 → shows pm small after vb ≡ f vb (shows pm small s vb)

  pages_of :
      (va length : ℕ) (f : ℕ → ℕ → ℕ) (s : Tables D) (r : Result D (Unit {0}))
      → va % 4096 ≡ 0
      → va + rounds length 4096 * 4096 ≤ 2 ^ 48
      → Leaves fr pm small s r (changed small va f (rounds length 4096) 0)
      → Shows s r (λ vb old. if in_pages va length vb then f (vb / 4096 * 4096 - va) old else old)
  unfolding in_pages
  pages_of va length f s r a h l =
      let plus : va + 0 ≡ va = omega arith in
      record {
        place = l.place;
        after = l.after;
        returned = l.returned;
        tree = l.tree;
        shown = λ vb k.
            l.shown vb
            ∙ small_changed (rounds length 4096) va 0 vb (shows pm small s vb) f a refl
                (omega (arith, h)) k
            ∙ rw plus refl;
      }

  module _ (va length : ℕ) (place : Place) (s : Tables D) (a : va % 4096 ≡ 0)
      (h : va + rounds length 4096 * 4096 ≤ 2 ^ 48) (tree : Tree fr pm small place s) where
    -- `map` of an aligned range, with frames for the tables
    pub map-shows :
        (paddr flags : ℕ) (cache : Caching)
        → HasRoom fr (need small (rounds length 4096)) s.frames
        → Shows s (map fr pm va paddr length flags small cache s) (λ vb old.
          if in_pages va length vb
          then entry paddr (to_arch flags cache small) (vb / 4096 * 4096 - va)
          else old)
    unfolding map
    map-shows paddr flags cache free =
        rw (map, a)
          (pages_of va length (λ i old. entry paddr (to_arch flags cache small) i) s _ a h
            (map_from_lem fr pm small va paddr (to_arch flags cache small) (rounds length 4096) 0
              place s tree free))

    pub unmap-shows :
        Shows s (unmap fr pm va length small s) (λ vb old. if in_pages va length vb then 0 else old)
    unfolding unmap
    unmap-shows =
        rw (unmap, a)
          (pages_of va length (λ i old. 0) s _ a h
            (unmap_from_lem fr pm small va (rounds length 4096) 0 place s tree))

    pub protect-shows :
        (flags : ℕ) (cache : Caching)
        → ((s' : Tables D) × (protect fr pm va length flags small cache s ≡ err invalid_entry s'))
          ⊎ Shows s (protect fr pm va length flags small cache s) (λ vb old.
            if in_pages va length vb
            then setflags (to_arch flags cache small) (clearflags old)
            else old)
    unfolding protect recast
    protect-shows flags cache =
        rw (protect, a)
          (elim (protect_from_lem fr pm small va (to_arch flags cache small) (rounds length 4096) 0
            place s tree) [
              | inl e ↦ inl e
              | inr l ↦
                  inr
                    (pages_of va length (λ i old. recast (to_arch flags cache small) old) s _ a h l)
            ])
