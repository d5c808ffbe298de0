-- ===== src/Pmm/Tests.antt =====
-- The allocator of kernel/source/system/memory/pmm.cpp at concrete blocks.
use ilobilix.Base.{
  ℕ, ◌+◌, ◌≡◌, ◌≢◌, ◌==◌, refl, true, false, List, [], ◌∷◌, if◌then◌else◌, none, some, arith,
  Bool-cases, inl, inr, mul64, add64, sub64,
}
use ilobilix.Pmm.{
  block_size, page_size, max_order, Page, Allocator, Result, ok, stopped, has_pages,
  next_order_from, page_for, merge, buddy_of, coalesce_to,
}
use ilobilix.Pmm
use ilobilix.Math.{log2, next_pow2, pre_pow2}
use ilobilix.Pmm.Cover.{in_block, free_at}
use ilobilix.Pmm.Split.{Ready}
use ilobilix.Pmm.Alloc.{alloc_lem}
use ilobilix.Pmm.Grow
use ilobilix.Pmm.Zones.{sub4gib, PmmState, usable, in_range, alloc, free}
use ilobilix.Pmm.Account.{alloc-free}

abbrev fresh : ℕ → Page
fresh order = record { next_paddr = 0; order = order; allocated = false }

abbrev empty : Allocator
empty = record { lists = λ o. []; page = λ f. fresh 0 }

-- One free block of order 2, at 2 MiB
abbrev one_block : Allocator
one_block = record { lists = λ o. if o == 2 then 2097152 ∷ [] else []; page = λ f. fresh 2 }

one_block-Ready : (c : ℕ) → has_pages c one_block ≡ true → Ready c one_block
one_block-Ready c h = elim (Bool-cases (c == 2)) [
  | inl e ↦ record {
    addr = 2097152;
    others = [];
    first = rw e refl;
    unmarked = λ x l u. refl;
    known = ground (arith, e);
  }
  | inr e ↦ absurd (ground (arith, e, h))
]

one_block_inside : (x : ℕ) → free_at x one_block ≢ 0 → in_range sub4gib x ≡ true
unfolding free_at block_size
one_block_inside x h = ground (arith, h)

alloc_lem_example :
    (addr : ℕ) × (t : Allocator) × (Pmm.alloc 1 one_block ≡ ok (some (addr, block_size 0), t))
    × ((x : ℕ) → free_at x one_block ≡ in_block x 0 addr + free_at x t)
    × ((page_for addr t).allocated ≡ true)
    × ((page_for addr t).order ≡ 0)
unfolding next_order_from log2 next_pow2
alloc_lem_example =
    alloc_lem 1 0 2 one_block refl (omega arith) (omega arith) refl (λ c l m h. one_block-Ready c h)

abbrev taken_block : Allocator
taken_block = record {
  lists = λ o. [];
  page = λ f. record { next_paddr = 0; order = 2; allocated = true };
}

-- The two halves of a block of order 1, in either order of their list
abbrev halves : Allocator
halves = record {
  lists = λ o. if o == 0 then 2101248 ∷ 2097152 ∷ [] else [];
  page =
      λ f. if f == 512 then record { next_paddr = 513; order = 0; allocated = false } else fresh 0;
}

lists_of : Result Allocator → ℕ → List ℕ
lists_of (ok t) o = t.lists o
lists_of stopped o = []

coalesce_test :
    (lists_of (coalesce_to 1 halves) 0 ≡ []) × (lists_of (coalesce_to 1 halves) 1 ≡ 2097152 ∷ [])
unfolding coalesce_to lists_of
coalesce_test = (refl, refl)

-- 7 pages from the third page on: a block of 1 page, then of 4 pages, then of 2.
grow_test :
    ((Grow.add_range page_size 1048576 12288 28672 empty).0 ≡ 0)
    × ((Grow.add_range page_size 1048576 12288 28672 empty).1.lists 0 ≡ 12288 ∷ [])
    × ((Grow.add_range page_size 1048576 12288 28672 empty).1.lists 2 ≡ 16384 ∷ [])
    × ((Grow.add_range page_size 1048576 12288 28672 empty).1.lists 1 ≡ 32768 ∷ [])
unfolding Grow.add_range log2 pre_pow2
grow_test = (refl, refl, refl, refl)

abbrev machine : PmmState
machine = record {
  low = empty;
  middle = one_block;
  high = empty;
  mem = record { usable_bytes = 16384; used = 0 };
  initialised = true;
  memmaps = [];
  chosen = true;
  bootstrap_memmap_idx = none;
  bootstrap_memmap = record { base = 0; len = 0; kind = usable };
  ram = λ a. 0;
}

alloc-free_example :
    (addr : ℕ) × (t : PmmState) × (u : PmmState) × (alloc 3 false sub4gib machine ≡ ok (addr, t))
    × (t.mem.used ≡ add64 machine.mem.used (block_size 2))
    × (free addr 3 t ≡ ok u)
    × (u.mem.used ≡ sub64 t.mem.used (mul64 3 page_size))
    × ((x : ℕ) → free_at x u.middle ≡ free_at x machine.middle)
unfolding next_order_from log2 next_pow2
alloc-free_example =
    alloc-free 3 2 2 machine refl (omega arith) refl (omega arith) (omega arith) refl
      (λ c l m h. one_block-Ready c h) one_block_inside
