-- ===== src/PageMap/Present.antt =====
-- kernel/source/system/memory/pagemap.cpp: `protect` of small pages that all are in the tables.
use ilobilix.Base.{
  ℕ, zero, suc, ◌+◌, ◌*◌, ◌%◌, ◌^◌, ◌≡◌, ◌≢◌, ◌≤◌, ◌<◌, ◌&&◌, ◌⊎◌, refl, sym, ◌∙◌, ap, false,
  Option-cases, inl, inr, arith, add64, ltb, leb,
}
use ilobilix.PageMap.{
  small, Frames, Tables, PageMap, invalid_entry, err, set_entry, index, from_page_size,
}
use ilobilix.PageMap.Ops.{protect_from}
use ilobilix.PageMap.Place.{Place, leaf_of}
use ilobilix.PageMap.View.{view-none}
use ilobilix.PageMap.Range.{shows, same, Tree, changed, recast, reads, write_one}
use ilobilix.PageMap.Small.{same_small, small_changed}

module _ {D : Type 0} (fr : Frames D) (pm : PageMap) (va aflags : ℕ) where
  -- From pages that all show something, the loop does not end with an error.
  pub protect_from-shows :
      (n i : ℕ) (place : Place) (s s' : Tables D)
      → Tree fr pm small place s
      → va % 4096 ≡ 0
      → i % 4096 ≡ 0
      → va + i + n * 4096 ≤ 2 ^ 48
      → ((vb : ℕ) → vb % 4096 ≡ 0 → va + i ≤ vb → vb < va + i + n * 4096 → shows pm small s vb ≢ 0)
      → protect_from fr pm va small n i aflags s ≢ err invalid_entry s'
  unfolding protect_from recast from_page_size
  protect_from-shows zero i place s s' tree a b h full e = cc
  protect_from-shows (suc n) i place s s' tree a b h full e =
      let here : add64 va i ≡ va + i = omega (arith, h) in
      elim (Option-cases (leaf_of 3 0 pm.root (add64 va i) s.entries)) [
        | inl l ↦
            full (va + i) (omega (arith, a, b)) (omega arith) (omega arith)
              (sym (ap (shows pm small s) here) ∙ view-none 3 0 pm.root (add64 va i) s.entries l)
        | inr l ↦
            let v = recast aflags (s.entries l.0 (index 0 (add64 va i))) in
            let one = write_one fr pm small (add64 va i) l.0 v place s tree l.1 in
            protect_from-shows n (i + 4096) place (set_entry l.0 (index 0 (add64 va i)) v s) s'
              one.0 a (omega (arith, b)) (omega (arith, h))
              (λ vb c low high.
                let other : same small (add64 va i) vb ≡ false =
                  same_small (add64 va i) vb (omega (arith, here, h)) (omega (arith, high, h))
                  ∙ ground (arith, here, a, b, low) in
                let kept : shows pm small (set_entry l.0 (index 0 (add64 va i)) v s) vb
                    ≡ shows pm small s vb =
                  one.1 vb ∙ rw other refl in
                λ z. full vb c (omega (arith, low)) (omega (arith, high)) (sym kept ∙ z))
              (rw (reads fr pm small (add64 va i) s, l.1) at e)
      ]

-- A page outside the range shows what it did.
pub changed_outside :
    (n va vb old : ℕ) (f : ℕ → ℕ → ℕ)
    → va % 4096 ≡ 0
    → va + n * 4096 ≤ 2 ^ 48
    → vb < 2 ^ 48
    → (vb < va) ⊎ (va + n * 4096 ≤ vb)
    → changed small va f n 0 vb old ≡ old
changed_outside n va vb old f a h k out =
    let past : (leb (va + 0) vb && ltb vb (va + 0 + n * 4096)) ≡ false = ground (arith, out) in
    small_changed n va 0 vb old f a refl (omega (arith, h)) k ∙ rw past refl
