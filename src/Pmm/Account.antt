-- ===== src/Pmm/Account.antt =====
-- kernel/source/system/memory/pmm.cpp: the account of the memory in use, over an allocation and its
-- release.
use ilobilix.Base.{ℕ, ◌≡◌, ◌≢◌, ◌≤◌, ◌==◌, refl, true, false, some, arith, mul64, add64, sub64}
use ilobilix.Pmm.{block_size, page_size, max_order, ok, has_pages, next_order_from}
use ilobilix.Pmm.Cover.{in_block, free_at}
use ilobilix.Pmm.Split.{Ready, block_size_positive}
use ilobilix.Pmm.Alloc.{alloc_lem, free_lem}
use ilobilix.Pmm.Zones.{sub4gib, sub1mib, PmmState, in_range, alloc, free, set_used, set_zone}

in_own_block : (order addr : ℕ) → in_block addr order addr ≡ 1
in_own_block order addr = ground (arith, block_size_positive order)

-- Once initialised, where a list of the order that the request of at least one page rounds up to or of
-- a larger one has a block, the first block of each such list is unmarked and carries its order, and
-- only addresses between 1 MiB and 4 GiB are free: an allocation below 4 GiB, released with the same
-- number of pages, gives every address back to the free blocks, but the bytes in use, which grew by
-- the size of the block, shrink by the size of the request only.
pub alloc-free :
    (npages order o : ℕ) (s : PmmState)
    → s.initialised ≡ true
    → npages ≢ 0
    → next_order_from (mul64 npages page_size) ≡ some order
    → order ≤ o
    → o ≤ max_order
    → has_pages o s.middle ≡ true
    → ((c : ℕ) → order ≤ c → c ≤ max_order → has_pages c s.middle ≡ true → Ready c s.middle)
    → ((x : ℕ) → free_at x s.middle ≢ 0 → in_range sub4gib x ≡ true)
    → (addr : ℕ) × (t : PmmState) × (u : PmmState) × (alloc npages false sub4gib s ≡ ok (addr, t))
      × (t.mem.used ≡ add64 s.mem.used (block_size order))
      × (free addr npages t ≡ ok u)
      × (u.mem.used ≡ sub64 t.mem.used (mul64 npages page_size))
      × ((x : ℕ) → free_at x u.middle ≡ free_at x s.middle)
unfolding alloc free
alloc-free npages order o s i n e l m h ready inside =
    let got = alloc_lem npages order o s.middle e l m h ready in
    let addr = got.0 in
    let t = set_used (add64 s.mem.used (block_size order)) (set_zone sub4gib got.1 s) in
    let back = free_lem addr npages order got.1 e (omega arith) got.4 got.5 in
    let u = set_used (sub64 t.mem.used (mul64 npages page_size)) (set_zone sub4gib back.0 t) in
    let here : in_range sub4gib addr ≡ true =
      inside addr (omega (arith, got.3 addr, in_own_block order addr)) in
    let some_pages : (npages == 0) ≡ false = ground (arith, n) in
    let not_null : (addr == 0) ≡ false = ground (arith, here) in
    let not_low : in_range sub1mib addr ≡ false = ground (arith, here) in
    (
      addr,
      t,
      u,
      rw (some_pages, i, got.2) refl,
      refl,
      rw (some_pages, not_null, i, not_low, here, back.1) refl,
      refl,
      λ x. omega (arith, back.2 x, got.3 x),
    )
