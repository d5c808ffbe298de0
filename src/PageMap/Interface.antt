-- ===== src/PageMap/Interface.antt =====
-- kernel/source/system/memory/pagemap.cpp as the page tables of `vmspace`: `unmap` and `protect` keep
-- what kernel/source/system/memory/vmm.cpp relies on.
use ilobilix.Base.{
  ℕ, ◌+◌, ◌-◌, ◌/◌, ◌≢◌, ◌*◌, ◌%◌, ◌^◌, ◌≡◌, ◌<◌, ◌≤◌, ◌⊎◌, refl, ap, ◌∙◌, true, Option, none, some,
  arith, Bool-cases, inl, inr, ltb,
}
use ilobilix.PageMap.{
  small, write_back, Frames, Tables, PageMap, invalid_entry, Result, err, to_arch,
}
use ilobilix.PageMap.Ops.{rounds, protect_from}
use ilobilix.PageMap.Range.{shows, changed, Leaves, protect_from_lem, recast}
use ilobilix.PageMap.Present.{protect_from-shows, changed_outside}
use ilobilix.Vm.Space.{PageTable}
use ilobilix.PageMap.Lower.{
  Pages, has_page, left_by, clear, recast_pages, clear_total, clear-has_page,
}

module _ {D : Type 0} (fr : Frames D) (pm : PageMap) where
  succeeds :
      (s : Tables D) (r : Result D (Unit {0})) (f : ℕ → ℕ → ℕ)
      (x : ((s' : Tables D) × (r ≡ err invalid_entry s')) ⊎ Leaves fr pm small s r f)
      → ((s' : Tables D) → r ≢ err invalid_entry s')
      → (l : Leaves fr pm small s r f) × (elim x as (λ y. Option (Pages fr pm)) [
        | inl e ↦ none
        | inr l ↦ some (left_by fr pm l)
      ]
          ≡ some (left_by fr pm l))
  succeeds s r f (inl e) never = absurd (never e.0 e.1)
  succeeds s r f (inr l) never = (l, refl)

  has_page_kept :
      (pt pt' : Pages fr pm) (q : ℕ)
      → (q * 4096 < 2 ^ 47
          → shows pm small pt'.tables (q * 4096) ≡ shows pm small pt.tables (q * 4096))
      → has_page fr pm pt' q ≡ has_page fr pm pt q
  has_page_kept pt pt' q h = elim (Bool-cases (ltb (q * 4096) (2 ^ 47))) [
    | inl e ↦ rw (e, h (ground (arith, e))) refl
    | inr e ↦ rw e refl
  ]

  recast_some :
      (pt pt' : Pages fr pm) (a n f : ℕ)
      → a % 4096 ≡ 0
      → elim (protect_from_lem fr pm small a
            (to_arch f write_back small)
            (rounds n 4096)
            0
            pt.place
            pt.tables
            pt.tree)
          as (λ y. Option (Pages fr pm)) [ inl e ↦ none | inr l ↦ some (left_by fr pm l) ]
        ≡ some pt'
      → recast_pages fr pm pt a n f ≡ some pt'
  recast_some pt pt' a n f h e = rw h e

  module _ (pt : Pages fr pm) (a n f : ℕ) (h : a % 4096 ≡ 0) (more : 0 < n)
      (full : (q : ℕ) → a ≤ q * 4096 → q * 4096 < a + n → has_page fr pm pt q ≡ true) where
    in_lower_half : a + rounds n 4096 * 4096 ≤ 2 ^ 47
    in_lower_half =
        let last = a / 4096 + rounds n 4096 - 1 in
        let top : has_page fr pm pt last ≡ true =
          full last (omega (arith, h, more)) (omega (arith, h, more)) in
        let low : last * 4096 < 2 ^ 47 = ground (arith, top) in omega (arith, low, h, more)

    never_fails :
        (s' : Tables D)
        → protect_from fr pm a small (rounds n 4096) 0 (to_arch f write_back small) pt.tables
          ≢ err invalid_entry s'
    never_fails s' =
        protect_from-shows fr pm a (to_arch f write_back small) (rounds n 4096) 0 pt.place pt.tables
          s' pt.tree h refl (omega (arith, in_lower_half))
          (λ vb c from to z.
            let shown : has_page fr pm pt (vb / 4096) ≡ true =
              full (vb / 4096) (omega (arith, c, from)) (omega (arith, c, h, to)) in
            let back : vb / 4096 * 4096 ≡ vb = omega (arith, c) in
            let dark : shows pm small pt.tables (vb / 4096 * 4096) ≡ 0 =
              ap (shows pm small pt.tables) back ∙ z in
            absurd (ground (arith, shown, dark)))

    pub recast_total :
        (pt' : Pages fr pm) × (recast_pages fr pm pt a n f ≡ some pt')
        × ((q : ℕ)
            → (q * 4096 < a) ⊎ (a + n ≤ q * 4096)
            → has_page fr pm pt' q ≡ has_page fr pm pt q)
    recast_total =
        let aflags = to_arch f write_back small in
        let done =
          succeeds pt.tables (protect_from fr pm a small (rounds n 4096) 0 aflags pt.tables)
            (changed small a (λ i old. recast aflags old) (rounds n 4096) 0)
            (protect_from_lem fr pm small a aflags (rounds n 4096) 0 pt.place pt.tables pt.tree)
            never_fails in
        (
          left_by fr pm done.0,
          recast_some pt (left_by fr pm done.0) a n f h done.1,
          λ q out. has_page_kept pt (left_by fr pm done.0) q (λ below.
              done.0.shown (q * 4096)
              ∙ changed_outside (rounds n 4096) a (q * 4096) (shows pm small pt.tables (q * 4096))
                  (λ i old. recast aflags old) h (omega (arith, in_lower_half))
                  (omega (arith, below)) (ground (arith, out, h))),
        )

  abbrev pub page_table : PageTable (Pages fr pm)
  page_table = record {
    unmap = clear fr pm;
    protect = recast_pages fr pm;
    present = has_page fr pm;
    unmap_total = clear_total fr pm;
    unmap-present = clear-has_page fr pm;
    protect_total = recast_total;
  }
