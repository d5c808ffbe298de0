-- ===== src/PageMap/View.antt =====
-- kernel/source/system/memory/pagemap.cpp: what the tables show at an address, by where its walk ends.
use ilobilix.Base.{ℕ, zero, suc, ◌+◌, ◌≡◌, refl, ap, true, none, some, arith, Bool-cases, inl, inr}
use mathlib.Core.Option.{some-injective}
use ilobilix.PageMap.{is_table, getaddr, index}
use ilobilix.PageMap.Place.{Entries, leaf_of, view, same_page}

pub view-same :
    (n h t va vb : ℕ) (e : Entries) → same_page n h va vb ≡ true → view n h t va e ≡ view n h t vb e
unfolding view same_page
view-same zero h t va vb e s =
    let same : index h va ≡ index h vb = ground (arith, s) in rw same refl
view-same (suc n) h t va vb e s =
    let same : index (h + suc n) va ≡ index (h + suc n) vb = ground (arith, s) in
    rw (same, view-same n h (getaddr (e t (index (h + suc n) vb))) va vb e (ground (arith, s))) refl

pub view-none : (n h t va : ℕ) (e : Entries) → leaf_of n h t va e ≡ none → view n h t va e ≡ 0
unfolding view leaf_of
view-none zero h t va e l = cc
view-none (suc n) h t va e l = elim (Bool-cases (is_table (e t (index (h + suc n) va)))) [
  | inl y ↦ rw y (view-none n h (getaddr (e t (index (h + suc n) va))) va e (rw (leaf_of, y) at l))
  | inr y ↦ rw y refl
]

pub view-some :
    (n h t va u : ℕ) (e : Entries)
    → leaf_of n h t va e ≡ some u
    → view n h t va e ≡ e u (index h va)
unfolding view leaf_of
view-some zero h t va u e l = ap (λ (k : ℕ). e k (index h va)) (some-injective t u l)
view-some (suc n) h t va u e l = elim (Bool-cases (is_table (e t (index (h + suc n) va)))) [
  | inl y ↦
      rw y (view-some n h (getaddr (e t (index (h + suc n) va))) va u e (rw (leaf_of, y) at l))
  | inr y ↦ cc (rw (leaf_of, y) at l)
]
