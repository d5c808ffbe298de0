-- ===== src/PageMap/Lower.antt =====
-- kernel/source/system/memory/pagemap.cpp as the page tables of `vmspace`: the pages of the lower half, and
-- what `unmap` leaves of them.
use ilobilix.Base.{
  ℕ, zero, suc, ◌+◌, ◌*◌, ◌%◌, ◌^◌, ◌≡◌, ◌<◌, ◌≤◌, ◌==◌, ◌&&◌, ◌⊎◌, refl, sym, ap, ◌∙◌, Bool, true,
  not, if◌then◌else◌, Option, none, some, arith, Bool-cases, inl, inr, ltb, leb, subst, add64,
}
use mathlib.Core.Option.{some-injective}
use ilobilix.PageMap.{
  small, write_back, Frames, Tables, PageMap, invalid_entry, addr_not_aligned, Result, ok, err,
  to_arch, from_page_size,
}
use ilobilix.PageMap.Ops.{rounds, unmap, protect, unmap_from}
use ilobilix.PageMap.Place.{Place}
use ilobilix.PageMap.Range.{
  shows, same, Tree, change, changed, Leaves, unmap_from_lem, protect_from_lem,
}
use ilobilix.PageMap.Small.{same_small}

-- The pages that are cleared show 0 or what they showed; those of the range show 0.
cleared :
    (n va i vb old : ℕ)
    → (changed small va (λ i old. 0) n i vb old ≡ 0)
      ⊎ (changed small va (λ i old. 0) n i vb old ≡ old)
unfolding changed from_page_size
cleared zero va i vb old = inr refl
cleared (suc n) va i vb old = elim (Bool-cases (same small (add64 va i) vb)) [
  | inl e ↦ rw e (elim (cleared n va (i + 4096) vb 0) [ inl l ↦ inl l | inr r ↦ inl r ])
  | inr e ↦ rw e (cleared n va (i + 4096) vb old)
]

range_cleared :
    (n va i vb old : ℕ)
    → va % 4096 ≡ 0
    → i % 4096 ≡ 0
    → vb % 4096 ≡ 0
    → vb < 2 ^ 48
    → va + i ≤ vb
    → vb < va + i + n * 4096
    → changed small va (λ i old. 0) n i vb old ≡ 0
unfolding changed from_page_size
range_cleared zero va i vb old a b c k l h = absurd (omega arith)
range_cleared (suc n) va i vb old a b c k l h = elim (Bool-cases (va + i == vb)) [
  | inl e ↦
      let here : add64 va i ≡ vb = ground (arith, e, k) in
      let head = same_small vb vb k k in
      let met : same small (add64 va i) vb ≡ true = rw (here, head) (ground arith) in
      rw met (elim (cleared n va (i + 4096) vb 0) [ inl z ↦ z | inr z ↦ z ])
  | inr e ↦
      range_cleared n va (i + 4096) vb (change small (add64 va i) (λ old. 0) vb old) a
        (omega (arith, b)) c k (ground (arith, e, a, b, c, l)) (omega (arith, h))
]

module _ {D : Type 0} (fr : Frames D) (pm : PageMap) where
  -- Tables with the proof that they are a tree
  pub record Pages : Type 0 where
    pub tables : Tables D
    pub place : Place
    pub tree : Tree fr pm small place tables

  -- The page with a number is one of the lower half, which the root entries 0 to 255 lead to, and is shown with
  -- the bit `present`. The other half is the kernel's, and the same in all page maps.
  abbrev pub has_page : Pages → ℕ → Bool
  has_page pt q = ltb (q * 4096) (2 ^ 47) && not (shows pm small pt.tables (q * 4096) % 2 == 0)

  abbrev pub left_by :
      {s : Tables D} {r : Result D (Unit {0})} {f : ℕ → ℕ → ℕ} → Leaves fr pm small s r f → Pages
  left_by l = record { tables = l.after; place = l.place; tree = l.tree }

  abbrev pub cleared_by :
      (pt : Pages) (va n : ℕ)
      → Leaves fr pm small pt.tables
          (unmap_from fr pm va small n 0 pt.tables)
          (changed small va (λ i old. 0) n 0)
  cleared_by pt va n = unmap_from_lem fr pm small va n 0 pt.place pt.tables pt.tree

  -- The calls that return without an error, with the tables they leave
  abbrev pub clear : Pages → ℕ → ℕ → Option Pages
  clear pt va length =
      if va % 4096 == 0 then some (left_by (cleared_by pt va (rounds length 4096))) else none

  abbrev pub recast_pages : Pages → ℕ → ℕ → ℕ → Option Pages
  recast_pages pt va length flags =
      if va % 4096 == 0
      then elim (protect_from_lem fr pm small va (to_arch flags write_back small)
          (rounds length 4096) 0 pt.place pt.tables pt.tree) [
            | inl e ↦ none
            | inr l ↦ some (left_by l)
          ]
      else none

  clear_runs :
      (pt : Pages) (va length : ℕ)
      → unmap fr pm va length small pt.tables ≡ elim (clear pt va length) [
        | none ↦ err addr_not_aligned pt.tables
        | some pt' ↦ ok tt pt'.tables
      ]
  unfolding unmap
  clear_runs pt va length = elim (Bool-cases (va % 4096 == 0)) [
    | inl e ↦ rw (unmap, e) (cleared_by pt va (rounds length 4096)).returned
    | inr e ↦ rw (unmap, e) refl
  ]

  kept_by :
      (pt pt' : Pages) (r : Result D (Unit {0})) (f : ℕ → ℕ → ℕ)
      (x : ((s' : Tables D) × (r ≡ err invalid_entry s')) ⊎ Leaves fr pm small pt.tables r f)
      → elim x [ inl e ↦ none | inr l ↦ some (left_by l) ] ≡ some pt'
      → r ≡ ok tt pt'.tables
  kept_by pt pt' r f (inl e) h = cc
  kept_by pt pt' r f (inr l) h =
      l.returned ∙ ap (λ (t : Pages). ok tt t.tables) (some-injective (left_by l) pt' h)

  recast_pages_runs :
      (pt : Pages) (va length flags : ℕ) (pt' : Pages)
      → recast_pages pt va length flags ≡ some pt'
      → protect fr pm va length flags small write_back pt.tables ≡ ok tt pt'.tables
  unfolding protect
  recast_pages_runs pt va length flags pt' h = elim (Bool-cases (va % 4096 == 0)) [
    | inl e ↦
        rw (protect, e)
          (kept_by pt pt' _ _
            (protect_from_lem fr pm small va (to_arch flags write_back small) (rounds length 4096) 0
              pt.place pt.tables pt.tree)
            (rw (recast_pages, e) at h))
    | inr e ↦ cc (rw (recast_pages, e) at h)
  ]

  pub clear_total :
      (pt : Pages) (a n : ℕ) → a % 4096 ≡ 0 → (pt' : Pages) × (clear pt a n ≡ some pt')
  clear_total pt a n h = (left_by (cleared_by pt a (rounds n 4096)), rw h refl)

  cleared_page :
      (pt : Pages) (a n q : ℕ)
      → a % 4096 ≡ 0
      → has_page (left_by (cleared_by pt a (rounds n 4096))) q ≡ true
      → (has_page pt q ≡ true) × ((q * 4096 < a) ⊎ (a + n ≤ q * 4096))
  cleared_page pt a n q h y =
      let l = cleared_by pt a (rounds n 4096) in
      let now = l.shown (q * 4096) in
      let low : q * 4096 < 2 ^ 47 = ground (arith, y) in
      let kept : shows pm small l.after (q * 4096) ≡ shows pm small pt.tables (q * 4096) =
        elim (cleared (rounds n 4096) a 0 (q * 4096) (shows pm small pt.tables (q * 4096))) [
          | inl z ↦ absurd (ground (arith, y, now ∙ z))
          | inr z ↦ now ∙ z
        ] in
      (
        ground (arith, y, kept),
        elim (Bool-cases (leb a (q * 4096) && ltb (q * 4096) (a + n))) [
          | inl inside ↦ absurd (
              ground (
                arith,
                y,
                now
                    ∙ range_cleared (rounds n 4096) a 0 (q * 4096)
                        (shows pm small pt.tables (q * 4096)) h refl (omega arith)
                        (omega (arith, low)) (ground (arith, inside)) (ground (arith, inside)),
              ))
          | inr outside ↦ ground (arith, outside)
        ],
      )

  pub clear-has_page :
      (pt : Pages) (a n : ℕ) (pt' : Pages) (q : ℕ)
      → clear pt a n ≡ some pt'
      → has_page pt' q ≡ true
      → (has_page pt q ≡ true) × ((q * 4096 < a) ⊎ (a + n ≤ q * 4096))
  clear-has_page pt a n pt' q e y = elim (Bool-cases (a % 4096 == 0)) [
    | inl h ↦ cleared_page pt a n q (ground (arith, h)) (
        subst (λ (t : Pages). has_page t q ≡ true)
          (sym (some-injective (left_by (cleared_by pt a (rounds n 4096))) pt' (rw h at e))) y)
    | inr h ↦ cc (rw h at e)
  ]
