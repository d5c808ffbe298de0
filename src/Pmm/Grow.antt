-- ===== src/Pmm/Grow.antt =====
-- kernel/source/system/memory/pmm.cpp: `allocator::add_range`, which cuts a range into blocks as large
-- as its size and alignment allow.
use ilobilix.Base.{
  ℕ, zero, suc, ◌+◌, ◌-◌, ◌/◌, ◌%◌, ◌==◌, ◌||◌, if◌then◌else◌, Option, none, some, ltb, min, u64,
}
use ilobilix.Pmm.{
  block_size, page_size, max_order, Allocator, put, set_page, page_for, prev_order_from,
}

-- `while (base % (page_size * lib::pow2(order))) order--`, until it would pass below 0
unfoldable pub aligned_order : ℕ → ℕ → Option ℕ
unfolding block_size
aligned_order base zero = if base % block_size 0 == 0 then some 0 else none
aligned_order base (suc order) =
    let rest = aligned_order base order in
    if base % block_size (suc order) == 0 then some (suc order) else rest

unfoldable pub block_order : ℕ → ℕ → Option ℕ
unfolding prev_order_from aligned_order
block_order base size = elim (prev_order_from size) [
  | none ↦ none
  | some sorder ↦ aligned_order base (min sorder max_order)
]

-- One round of `while (size >= page_size)`, on fuel: each round takes a page at least.
unfoldable pub add_blocks : ℕ → ℕ → ℕ → Allocator → ℕ × Allocator
unfolding block_order block_size put
add_blocks zero base size s = (size, s)
add_blocks (suc fuel) base size s =
    if ltb size page_size then (size, s) else elim (block_order base size) [
      | none ↦ (size, s)
      | some order ↦
          add_blocks fuel (base + block_size order) (size - block_size order)
            (put order base (set_page base (record (page_for base s) { order = order }) s))
    ]

-- The rest that no block took
unfoldable pub add_range : ℕ → ℕ → ℕ → ℕ → Allocator → ℕ × Allocator
unfolding add_blocks
add_range start stop base size s =
    if ltb base start || ltb stop (u64 (base + size))
    then (size, s)
    else add_blocks (size / page_size) base size s
