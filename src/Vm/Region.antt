-- ===== src/Vm/Region.antt =====
-- The searches `is_mapped` and `find_free_region` of kernel/source/system/memory/vmm.cpp.
use ilobilix.Base.{
  ℕ, ◌+◌, ◌/◌, ◌%◌, ◌≤◌, ◌<◌, ◌^◌, false, leb, none, List, [], ◌∷◌, ◌≡◌, refl, arith, All, select,
  All-select, add64, sub64, Bool-cases, inl, inr,
}
use ilobilix.Math.Align.{div_roundup_lem}
use ilobilix.Vm.Mapping.{Mapping, psize, overlaps, find}
use ilobilix.Vm.Space.{covered_from, is_mapped, free_from, find_free_region}

covered_from_gap :
    (endp : ℕ) (l : List Mapping)
    → 0 < endp
    → All (λ m. 0 < m.startp) l
    → covered_from endp 0 l ≡ false
unfolding covered_from
covered_from_gap endp [] h a = ground arith
covered_from_gap endp (e ∷ l) h a = ground (arith, a.0)

-- Where no mapping starts at page 0, `is_mapped` answers no for every range, mapped or not, that is
-- not empty and ends below the top of the address space.
pub is_mapped_misses :
    (addr length : ℕ) (l : List Mapping)
    → 0 < length
    → addr + length + psize ≤ 2 ^ 64
    → All (λ m. 0 < m.startp) l
    → is_mapped addr length l ≡ false
unfolding is_mapped
is_mapped_misses addr length l pos fits high =
    rw (div_roundup_lem 12 52 length refl (omega arith)) (
      ground (
        arith,
        covered_from_gap (add64 (addr / psize) ((length + 4095) / psize))
            (select (overlaps (addr / psize) (add64 (addr / psize) ((length + 4095) / psize))) l)
            (omega arith) (All-select (λ m. 0 < m.startp) _ l high),
      ))

-- The mappings stand in order from page `lo` on and do not meet.
abbrev pub IsOrdered : ℕ → List Mapping → Type 0
IsOrdered lo [] = Unit
IsOrdered lo (m ∷ l) =
    (lo ≤ m.startp) × (m.startp < m.endp) × (m.endp < 2 ^ 52) × IsOrdered m.endp l

find_below : (p lo : ℕ) (l : List Mapping) → IsOrdered lo l → p < lo → find p l ≡ none
unfolding find
find_below p lo [] o h = refl
find_below p lo (m ∷ l) o h = ground (arith, find_below p m.endp l)

-- What a free region of `pages` pages is: whole pages, none of them mapped.
pub record IsFree (pages : ℕ) (l : List Mapping) (region : ℕ) : Type 0 where
  pub aligned : region % psize ≡ 0
  pub unmapped : (p : ℕ) → region / psize ≤ p → p < region / psize + pages → find p l ≡ none

free_from-IsFree :
    (pages lo : ℕ) (l : List Mapping)
    → lo < 2 ^ 52
    → IsOrdered lo l
    → IsFree pages l (free_from pages lo l) × (lo ≤ free_from pages lo l / psize)
unfolding free_from find
free_from-IsFree pages lo [] b o =
    (record { aligned = omega arith; unmapped = λ p h k. refl }, omega arith)
free_from-IsFree pages lo (m ∷ l) b o =
    let later = free_from-IsFree pages m.endp l o.2 o.3 in
    elim (Bool-cases (leb pages (sub64 m.startp lo))) [
      | inl gap ↦ rw gap (
        record { aligned = omega arith; unmapped = λ p h k. ground (arith, find_below p m.endp l) },
        omega arith,
      )
      | inr small ↦ rw small (
        record {
          aligned = later.0.aligned;
          unmapped = λ p h k. ground (arith, later.0.unmapped p h k, later.1);
        },
        omega (arith, later.1),
      )
    ]

-- In an address space whose mappings are in order, disjoint, not empty and below the top, for a length with a page less than
-- 2 ^ 64 at most, `find_free_region` returns an aligned address from which as many pages are unmapped as the length
-- needs.
pub find_free_region-IsFree :
    (length : ℕ) (l : List Mapping)
    → length + psize ≤ 2 ^ 64
    → IsOrdered 0 l
    → IsFree ((length + 4095) / psize) l (find_free_region length l)
unfolding find_free_region
find_free_region-IsFree length l fits o =
    rw (div_roundup_lem 12 52 length refl fits) (free_from-IsFree _ 0 l (omega arith) o).0
