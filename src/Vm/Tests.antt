-- ===== src/Vm/Tests.antt =====
-- The theorems on kernel/source/system/memory/vmm.cpp at concrete address spaces, over a tree that is
-- a list and page tables that are the set of the pages present.
use ilobilix.Base.{
  ℕ, ◌+◌, ◌*◌, ◌%◌, Bool, true, not, ◌&&◌, ltb, leb, ◌==◌, Option, none, some, ◌⊎◌, ◌≤◌, ◌<◌, List,
  [], ◌∷◌, if◌then◌else◌, ◌≡◌, refl, arith, select, inr,
}
use ilobilix.Math.{align_down, div_roundup}
use ilobilix.Vm.Mapping.{Mapping, psize, page_at, IsFit}
use ilobilix.Vm.Pages.{insert, without, count}
use ilobilix.Vm.Valid.{IsValid}
use ilobilix.Vm.Space.{
  Multiset, PageTable, Space, ok, for_each, unmap_one, unmap, map_one, find_free_region,
}
use ilobilix.Vm.Unmap.{unmap_lem}
use ilobilix.Vm.Map.{AllClean, map_lem}
use ilobilix.Vm.Region.{IsFree, find_free_region-IsFree}
use ilobilix.Vm.Faults.{map_one_shift}

abbrev pub lists : Multiset (List Mapping)
lists = record {
  elems = λ l. l;
  erase = λ l m. without m.startp l;
  emplace = λ l m. insert m l;
  elems-erase = λ l m. refl;
  elems-emplace = λ l m. refl;
}

abbrev inside : ℕ → ℕ → ℕ → Bool
inside a n q = leb a (q * psize) && ltb (q * psize) (a + n)

abbrev clear : (ℕ → Bool) → ℕ → ℕ → Option (ℕ → Bool)
clear pt a n = if a % psize == 0 then some (λ q. pt q && not (inside a n q)) else none

clear_total :
    (pt : ℕ → Bool) (a n : ℕ)
    → a % psize ≡ 0
    → clear pt a n ≡ some (λ q. pt q && not (inside a n q))
clear_total pt a n h = rw h

clear-present :
    (pt : ℕ → Bool) (a n : ℕ) (pt' : ℕ → Bool) (q : ℕ)
    → clear pt a n ≡ some pt'
    → pt' q ≡ true
    → (pt q ≡ true) × ((q * psize < a) ⊎ (a + n ≤ q * psize))
clear-present pt a n pt' q h p = ground arith

abbrev page_sets : PageTable (ℕ → Bool)
page_sets = record {
  unmap = clear;
  protect = λ pt a n f. some pt;
  present = λ pt q. pt q;
  unmap_total = λ pt a n h. (_, clear_total pt a n h);
  unmap-present = clear-present;
  protect_total = λ pt a n f h more full. (pt, refl, λ q out. refl);
}

-- Pages 2 to 9 of object 1, and page 16 of object 2.
abbrev first_mapping : Mapping
first_mapping = record { startp = 2; endp = 10; obj = 1; offsetp = 0; prot = 3; flags = 2 }

abbrev two_mappings : List Mapping
two_mappings =
    first_mapping
    ∷ record { startp = 16; endp = 17; obj = 2; offsetp = 5; prot = 1; flags = 2 }
    ∷ []

abbrev small_space : Space (List Mapping) (ℕ → Bool)
small_space = record { tree = two_mappings; pmap = λ q. ltb 1 q && ltb q 10 }

small_space-IsValid : IsValid two_mappings
unfolding count
small_space-IsValid = record { disjoint = λ p. ground arith; fit = omega arith }

-- Pages 4 and 5 go, and the mapping is split around them.
unmap_runs :
    (elim (unmap lists page_sets 0x4000 0x2000 small_space) [ ok s ↦ s.tree | _ ↦ [] ])
    ≡ record { startp = 2; endp = 4; obj = 1; offsetp = 0; prot = 3; flags = 2 }
      ∷ record { startp = 6; endp = 10; obj = 1; offsetp = 4; prot = 3; flags = 2 }
      ∷ record { startp = 16; endp = 17; obj = 2; offsetp = 5; prot = 1; flags = 2 }
      ∷ []
unfolding unmap unmap_one for_each select insert without div_roundup align_down
unmap_runs = refl

unmap_lem_example :
    page_at 7
      (unmap_lem lists page_sets 0x4000 0x2000 small_space refl
        (omega arith)
        small_space-IsValid).0.tree
    ≡ page_at 7 two_mappings
unmap_lem_example =
    (unmap_lem lists page_sets 0x4000 0x2000 small_space refl (omega arith) small_space-IsValid).3 7

small_space-AllClean :
    AllClean lists page_sets 0x4000 0x2000 1 2 9 0x3000 small_space refl refl
      (omega arith)
      (omega arith)
      (omega arith)
      small_space-IsValid
unfolding select
small_space-AllClean = ((refl, refl, inr (omega arith)), tt)

map_lem_example :
    page_at 5
      (map_lem lists page_sets 0x4000 0x2000 1 2 9 0x3000 small_space refl refl
        (omega arith)
        (omega arith)
        (omega arith)
        small_space-IsValid
        small_space-AllClean).0.tree
    ≡ some (record { obj = 9; pidx = 4; prot = 1; flags = 2 })
map_lem_example =
    (map_lem lists page_sets 0x4000 0x2000 1 2 9 0x3000 small_space refl refl (omega arith)
        (omega arith) (omega arith) small_space-IsValid small_space-AllClean).3
      5

find_free_region_example : IsFree 5 two_mappings (find_free_region 0x5000 two_mappings)
find_free_region_example = find_free_region-IsFree 0x5000 two_mappings (omega arith) (omega arith)

first_mapping-IsFit : IsFit first_mapping
first_mapping-IsFit = omega arith

-- A new mapping of pages 1 to 3 over the same.
map_one_shift_example :
    map_one lists page_sets 1 4 first_mapping small_space
    ≡ ok
        (map_one_shift lists page_sets 1 4 small_space first_mapping first_mapping-IsFit
          (omega arith)
          (omega arith)
          refl
          (omega arith)
          (omega arith)
          (omega arith)).0
map_one_shift_example =
    (map_one_shift lists page_sets 1 4 small_space first_mapping first_mapping-IsFit (omega arith)
      (omega arith) refl (omega arith) (omega arith) (omega arith)).2
