-- ===== src/Pmm/Alloc.antt =====
-- kernel/source/system/memory/pmm.cpp: `alloc` hands out a block of free addresses, and `free` gives
-- them back.
use ilobilix.Base.{
  ℕ, ◌+◌, ◌-◌, ◌/◌, ◌≡◌, ◌≢◌, ◌≤◌, ◌<◌, ◌==◌, refl, sym, ap, ◌∙◌, true, false, some, ltb, arith,
  subst, Bool-cases, inl, inr, mul64,
}
use ilobilix.Pmm.{
  block_size, page_size, max_order, Allocator, ok, has_pages, find_order, rem, put, split_to,
  set_list, set_page, page_for, take_block, refill, alloc, free, next_order_from,
}
use ilobilix.Pmm.Cover.{in_block, free_at, free_at-put, free_at-tail}
use ilobilix.Pmm.Split.{
  Ready, SameFree, rem_some, split_down_runs, find_order_finds, ==_refl, block_size_positive,
}

-- What a block of the order that is handed out leaves.
abbrev Taken : ℕ → Allocator → Allocator → ℕ → Type 0
Taken order s t addr =
    ((x : ℕ) → free_at x s ≡ in_block x order addr + free_at x t)
    × ((page_for addr t).allocated ≡ true)
    × ((page_for addr t).order ≡ order)

take_block_runs :
    (order : ℕ) (s : Allocator)
    → Ready order s
    → order ≤ max_order
    → (addr : ℕ) × (t : Allocator) × (take_block order s ≡ ok (some (addr, block_size order), t))
      × Taken order s t addr
unfolding take_block free_at
take_block_runs order s r m =
    let t1 = set_list order r.others s in
    let t = set_page r.addr (record (page_for r.addr s) { allocated = true }) t1 in
    let free : (s.page (r.addr / page_size)).allocated ≡ false =
      r.unmarked r.addr (omega arith) (omega (arith, block_size_positive order)) in
    (
      r.addr,
      t,
      rw (rem, rem_some order r.addr r.others s r.first) (rw (free, r.known, ==_refl order) refl),
      (
        (λ x. free_at-tail x order r.addr r.others s m r.first),
        rw (==_refl (r.addr / page_size)) refl,
        rw (==_refl (r.addr / page_size)) r.known,
      ),
    )

Ready-has_pages : (order : ℕ) (s : Allocator) → Ready order s → has_pages order s ≡ true
Ready-has_pages order s r = rw (has_pages, r.first) refl

refill_runs :
    (order o : ℕ) (s : Allocator)
    → order < o
    → o ≤ max_order
    → has_pages o s ≡ true
    → ((c : ℕ) → order < c → c ≤ max_order → has_pages c s ≡ true → Ready c s)
    → (t : Allocator) × (refill order s ≡ ok t) × Ready order t × SameFree s t
unfolding refill split_to
refill_runs order o s l m h ready =
    let found = find_order_finds 16 (order + 1) o s (omega arith) (omega arith) m h in
    let n = found.0 - order in
    let whole : found.0 ≡ order + n = omega (arith, found.2) in
    let r : Ready (order + n) s =
      subst (λ (c : ℕ). Ready c s) whole (ready found.0 (omega (arith, found.2)) found.3 found.4) in
    let runs = split_down_runs order n s r (omega (arith, found.2, found.3)) in
    let below : (order == max_order) ≡ false = ground arith in
    (
      runs.0,
      rw (below, split_to, find_order, found.1, runs.1, Ready-has_pages order runs.0 runs.2) refl,
      runs.2,
      runs.3,
    )

-- Where the request rounds up to an order that some list, of that order or a larger one, can serve,
-- and the first block of every such list that is not empty is unmarked and carries its order, alloc
-- succeeds: it returns a block of exactly that order, whose page is marked allocated with the order,
-- and each address is in one free block less if it is in that block, and in as many as before if not.
pub alloc_lem :
    (npages order o : ℕ) (s : Allocator)
    → next_order_from (mul64 npages page_size) ≡ some order
    → order ≤ o
    → o ≤ max_order
    → has_pages o s ≡ true
    → ((c : ℕ) → order ≤ c → c ≤ max_order → has_pages c s ≡ true → Ready c s)
    → (addr : ℕ) × (t : Allocator) × (alloc npages s ≡ ok (some (addr, block_size order), t))
      × ((x : ℕ) → free_at x s ≡ in_block x order addr + free_at x t)
      × ((page_for addr t).allocated ≡ true)
      × ((page_for addr t).order ≡ order)
unfolding alloc
alloc_lem npages order o s e l m h ready =
    let small : ltb max_order order ≡ false = ground arith in
    elim (Bool-cases (has_pages order s)) [
      | inl here ↦
          let took =
            take_block_runs order s (ready order (omega arith) (omega arith) here) (omega arith) in
          (
            took.0,
            took.1,
            rw (alloc, next_order_from, e, small, here) took.2,
            took.3.0,
            took.3.1,
            took.3.2,
          )
      | inr empty ↦
          let other : order ≢ o = λ same. cc (ap (λ (t : ℕ). has_pages t s) same) in
          let full =
            refill_runs order o s (ground (arith, other)) m h
              (λ c lc mc hc. ready c (omega arith) mc hc) in
          let took = take_block_runs order full.0 full.2 (omega arith) in
          (
            took.0,
            took.1,
            rw
                (
                  alloc,
                  next_order_from,
                  e,
                  small,
                  empty,
                  refill,
                  full.1,
                  Ready-has_pages order full.0 full.2,
                )
                took.2,
            (λ x. sym (full.3 x) ∙ took.3.0 x),
            took.3.1,
            took.3.2,
          )
    ]

-- Where the address carries an allocated block of the order that the request rounds up to, free
-- returns the size of the request, unmarks the page, and each address is in one free block more if it
-- is in that block, and in as many as before if not.
pub free_lem :
    (addr npages order : ℕ) (s : Allocator)
    → next_order_from (mul64 npages page_size) ≡ some order
    → order ≤ max_order
    → (page_for addr s).allocated ≡ true
    → (page_for addr s).order ≡ order
    → (t : Allocator) × (free addr npages s ≡ ok (mul64 npages page_size, t))
      × ((x : ℕ) → free_at x t ≡ in_block x order addr + free_at x s)
      × ((page_for addr t).allocated ≡ false)
unfolding free free_at put
free_lem addr npages order s e m a k =
    let small : ltb max_order order ≡ false = ground arith in
    let s1 = set_page addr (record (page_for addr s) { allocated = false }) s in
    (
      put order addr s1,
      rw (free, next_order_from, e, small, a, k, ==_refl order) refl,
      (λ x. free_at-put x order addr s1 m),
      rw (==_refl (addr / page_size)) refl,
    )
