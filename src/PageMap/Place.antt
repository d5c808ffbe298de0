-- ===== src/PageMap/Place.antt =====
-- kernel/source/system/memory/pagemap.cpp: the tables as a tree. Each table has a place, the levels
-- that are left below it and the indices that lead to it, so that no two paths share a table.
use ilobilix.Base.{
  ℕ, zero, suc, ◌+◌, ◌*◌, ◌≡◌, ◌<◌, ◌==◌, ◌&&◌, sym, ap, ◌∙◌, Bool, true, if◌then◌else◌, Option,
  none, some, arith, Bool-cases, inl, inr,
}
use mathlib.Core.Option.{some-injective}
use ilobilix.PageMap.{Frames, Tables, is_table, getaddr, index}
use ilobilix.PageMap.Bits.{index_below}

abbrev pub Entries : Type 0
Entries = ℕ → ℕ → ℕ

-- The table whose entry a walk of `n` levels ends at, and that entry; 0 where a table is missing.
unfoldable pub leaf_of : ℕ → ℕ → ℕ → ℕ → Entries → Option ℕ
leaf_of zero h t va e = some t
leaf_of (suc n) h t va e =
    let rest = leaf_of n h (getaddr (e t (index (h + suc n) va))) va e in
    if is_table (e t (index (h + suc n) va)) then rest else none

unfoldable pub view : ℕ → ℕ → ℕ → ℕ → Entries → ℕ
view zero h t va e = e t (index h va)
view (suc n) h t va e =
    let rest = view n h (getaddr (e t (index (h + suc n) va))) va e in
    if is_table (e t (index (h + suc n) va)) then rest else 0

-- Two addresses are in the same page.
unfoldable pub same_page : ℕ → ℕ → ℕ → ℕ → Bool
same_page zero h va vb = index h va == index h vb
same_page (suc n) h va vb = index (h + suc n) va == index (h + suc n) vb && same_page n h va vb

unfoldable pub path_to : ℕ → ℕ → ℕ → ℕ → ℕ
path_to zero h pre va = pre
path_to (suc n) h pre va = path_to n h (pre * 512 + index (h + suc n) va) va

abbrev pub Place : Type 0
Place = ℕ → Option (ℕ × ℕ)

pub record IsTree {D : Type 0} (fr : Frames D) (levels root : ℕ) (place : Place) (s : Tables D)
    : Type 0 where
  pub top : place root ≡ some (levels, 0)
  pub below :
      (t n pre i : ℕ)
      → place t ≡ some (suc n, pre)
      → i < 512
      → is_table (s.entries t i) ≡ true
      → place (getaddr (s.entries t i)) ≡ some (n, pre * 512 + i)
  pub used : (t : ℕ) (x : ℕ × ℕ) → place t ≡ some x → fr.in_use s.frames t ≡ true

pub path_to_one : (n h p q va vb : ℕ) → path_to n h p va ≡ path_to n h q vb → p ≡ q
unfolding path_to
path_to_one zero h p q va vb e = e
path_to_one (suc n) h p q va vb e = omega (
  arith,
  path_to_one n h (p * 512 + index (h + suc n) va) (q * 512 + index (h + suc n) vb) va vb e,
  index_below (h + suc n) va,
  index_below (h + suc n) vb,
)

module _ {D : Type 0} {fr : Frames D} {levels root : ℕ} {place : Place} {s : Tables D}
    (tree : IsTree fr levels root place s) where
  pub leaf_of-place :
      (n h t pre va u : ℕ)
      → place t ≡ some (n, pre)
      → leaf_of n h t va s.entries ≡ some u
      → place u ≡ some (0, path_to n h pre va)
  unfolding leaf_of path_to
  leaf_of-place zero h t pre va u p l = ap place (sym (some-injective t u l)) ∙ p
  leaf_of-place (suc n) h t pre va u p l =
      elim (Bool-cases (is_table (s.entries t (index (h + suc n) va)))) [
        | inl y ↦
            leaf_of-place n h (getaddr (s.entries t (index (h + suc n) va)))
              (pre * 512 + index (h + suc n) va) va u
              (tree.below t n pre (index (h + suc n) va) p (index_below (h + suc n) va) y)
              (rw (leaf_of, y) at l)
        | inr y ↦ cc (rw (leaf_of, y) at l)
      ]

-- So many frames more can be had.
unfoldable pub HasRoom : {D : Type 0} → Frames D → ℕ → D → Type 0
HasRoom fr zero d = Unit {0}
HasRoom {D} fr (suc n) d = (r : ℕ × D) × (fr.alloc d ≡ some r) × HasRoom fr n r.1
