-- ===== src/Pmm.antt =====
-- kernel/source/system/memory/pmm.cpp: `allocator`, the buddy allocator of one range of physical
-- memory. Blocks are physical addresses (the kernel sees them at a fixed distance, a multiple of each
-- block size), each intrusive list is the list of its blocks, and the page database is a function of
-- the frame number.
pub mod Grow
pub mod Zones
pub mod Cover
pub mod Split
pub mod Merge
pub mod Alloc
pub mod Account
pub mod Tests
use ilobilix.Base.{
  ℕ, zero, suc, ◌+◌, ◌-◌, ◌*◌, ◌/◌, ◌%◌, ◌^◌, ◌==◌, Bool, true, false, not, ◌&&◌, ◌||◌, List, [],
  ◌∷◌, if◌then◌else◌, Option, none, some, length, ltb, leb, min, u64, mul64,
}
use ilobilix.Math.{log2, next_pow2, pre_pow2}

abbrev pub page_size : ℕ
page_size = 4096

abbrev pub max_order : ℕ
max_order = 15

unfoldable pub block_size : ℕ → ℕ
block_size order = page_size * 2 ^ order

pub record Page : Type 0 where
  pub next_paddr : ℕ
  pub order : ℕ
  pub allocated : Bool

pub record Allocator : Type 0 where
  pub lists : ℕ → List ℕ
  pub page : ℕ → Page

-- A `bug_on`, or the removal of a block from a list that does not hold it, stops the kernel.
pub data Result (A : Type 0) : Type 0 where
  ok : A → Result A
  stopped : Result A

infixl 5 ◌>>=◌
abbrev pub ◌>>=◌ : {A B : Type 0} → Result A → (A → Result B) → Result B
ok a >>= f = f a
stopped >>= f = stopped

unfoldable pub prev_order_from : ℕ → Option ℕ
prev_order_from size = if ltb size page_size then none else some (log2 (pre_pow2 size) - 12)

unfoldable pub next_order_from : ℕ → Option ℕ
next_order_from size = if ltb size page_size then none else some (log2 (next_pow2 size) - 12)

abbrev pub set_list : ℕ → List ℕ → Allocator → Allocator
set_list order l s = record s { lists = λ o. if o == order then l else s.lists o }

abbrev pub page_for : ℕ → Allocator → Page
page_for addr s = s.page (addr / page_size)

abbrev pub set_page : ℕ → Page → Allocator → Allocator
set_page addr p s = record s { page = λ f. if f == addr / page_size then p else s.page f }

unfoldable pub put : ℕ → ℕ → Allocator → Allocator
put order addr s = set_list order (addr ∷ s.lists order) s

-- `rem`: the first block, which the callers know to be there
unfoldable pub rem : ℕ → Allocator → Result (ℕ × Allocator)
rem order s = elim (s.lists order) [ [] ↦ stopped | addr ∷ l ↦ ok (addr, set_list order l s) ]

abbrev pub has_pages : ℕ → Allocator → Bool
has_pages order s = elim (s.lists order) [ [] ↦ false | _ ∷ _ ↦ true ]

-- The first loop of `split_to`: the next order that has a block, on fuel
unfoldable pub find_order : ℕ → ℕ → Allocator → Option ℕ
find_order zero current s = none
find_order (suc fuel) current s =
    let rest = find_order fuel (current + 1) s in
    if has_pages current s then some current else if ltb max_order (current + 1) then none else rest

-- One round of its second loop: a block of order `current + 1` becomes two of order `current`.
unfoldable pub split : ℕ → Allocator → Result Allocator
unfolding rem put block_size
split current s = rem (suc current) s >>= λ r.
    (let addr = r.0 in
      let buddy = addr + block_size current in
      let s1 = r.1 in
      let s2 =
        set_page addr
          (record {
            next_paddr = buddy / page_size;
            order = current;
            allocated = (page_for addr s1).allocated;
          })
          (set_page buddy
            (record {
              next_paddr = (page_for addr s1).next_paddr;
              order = current;
              allocated = (page_for buddy s1).allocated;
            })
            s1) in
      if (page_for addr s1).allocated || (page_for buddy s1).allocated
      then stopped
      else ok (put current buddy (put current addr s2)))

-- `while (current > target)`, from `current = target + n`
unfoldable pub split_down : ℕ → ℕ → Allocator → Result Allocator
unfolding split
split_down target zero s = ok s
split_down target (suc n) s = split (target + n) s >>= λ s'. split_down target n s'

unfoldable pub split_to : ℕ → Allocator → Result Allocator
unfolding find_order split_down
split_to target s = elim (find_order (suc max_order) (target + 1) s) [
  | none ↦ ok s
  | some current ↦ split_down target (current - target) s
]

-- `remove` of a block from its list
unfoldable pub remove : ℕ → List ℕ → Option (List ℕ)
remove addr [] = none
remove addr (a ∷ l) =
    if a == addr then some l else elim (remove addr l) [ none ↦ none | some r ↦ some (a ∷ r) ]

abbrev pub unlink : ℕ → ℕ → Allocator → Result Allocator
unfolding remove
unlink order addr s = elim (remove addr (s.lists order)) [
  | none ↦ stopped
  | some l ↦ ok (set_list order l s)
]

-- The address that `next_paddr` holds.
abbrev pub buddy_of : ℕ → Allocator → ℕ
buddy_of addr s = (page_for addr s).next_paddr * page_size

-- The two inner loops of `coalesce_to`, along the rest of the list: the first block that can be
-- merged with its buddy
unfoldable pub mergeable : ℕ → Allocator → List ℕ → Result (Option ℕ)
unfolding block_size
mergeable order s [] = ok none
mergeable order s (curr ∷ l) =
    let page = page_for curr s in
    let buddy = page_for (buddy_of curr s) s in
    let rest = mergeable order s l in
    if page.next_paddr == 0 || not (curr % block_size (order + 1) == 0)
    then rest
    else if page.allocated || not (page.order == order)
    then stopped
    else if buddy.allocated || not (buddy.order == order)
    then rest
    else ok (some curr)

unfoldable pub merge : ℕ → ℕ → Allocator → Result Allocator
unfolding unlink put
merge order curr s =
    let buddy = buddy_of curr s in
    unlink order curr s >>= λ s1.
    (unlink order buddy s1 >>= λ s2. ok (
      put (order + 1) curr (
        set_page curr
          (record {
            next_paddr = (page_for buddy s).next_paddr;
            order = order + 1;
            allocated = (page_for curr s).allocated;
          })
          s2)))

-- `while (has_pages(order))`, on fuel
unfoldable pub coalesce_order : ℕ → ℕ → Allocator → Result Allocator
unfolding mergeable merge
coalesce_order zero order s = ok s
coalesce_order (suc fuel) order s = mergeable order s (s.lists order) >>= λ found. (elim found [
  | none ↦ ok s
  | some curr ↦ merge order curr s >>= λ s'. coalesce_order fuel order s'
])

-- `for (std::size_t order = 0; order < target; order++)`, with `n` rounds left
unfoldable pub coalesce_from : ℕ → ℕ → Allocator → Result Allocator
unfolding coalesce_order
coalesce_from zero order s = ok s
coalesce_from (suc n) order s =
    coalesce_order (length (s.lists order)) order s >>= λ s'. coalesce_from n (order + 1) s'

unfoldable pub coalesce_to : ℕ → Allocator → Result Allocator
unfolding coalesce_from
coalesce_to target s = coalesce_from (min target max_order) 0 s

-- What `alloc` does where the list of the order is empty.
unfoldable pub refill : ℕ → Allocator → Result Allocator
unfolding split_to coalesce_to
refill order s =
    if order == max_order
    then coalesce_to max_order s
    else (split_to order s >>= λ s'.
        (if has_pages order s' || order == 0 then ok s' else coalesce_to order s'))

-- The label `found`: the first block of the order is handed out.
unfoldable pub take_block : ℕ → Allocator → Result (Option (ℕ × ℕ) × Allocator)
unfolding rem block_size
take_block order s = rem order s >>= λ r.
    (let page = page_for r.0 r.1 in
      if page.allocated || not (page.order == order)
      then stopped
      else ok (some (r.0, block_size order), set_page r.0 (record page { allocated = true }) r.1))

unfoldable pub alloc : ℕ → Allocator → Result (Option (ℕ × ℕ) × Allocator)
unfolding next_order_from refill take_block
alloc npages s = elim (next_order_from (mul64 npages page_size)) [
  | none ↦ ok (none, s)
  | some order ↦
      if ltb max_order order
      then ok (none, s)
      else if has_pages order s
      then take_block order s
      else (refill order s >>= λ s'.
          (if has_pages order s' then take_block order s' else ok (none, s')))
]

unfoldable pub free : ℕ → ℕ → Allocator → Result (ℕ × Allocator)
unfolding next_order_from put
free addr npages s = elim (next_order_from (mul64 npages page_size)) [
  | none ↦ ok (0, s)
  | some order ↦
      if ltb max_order order
      then ok (0, s)
      else if not (page_for addr s).allocated || not ((page_for addr s).order == order)
      then stopped
      else ok (
        mul64 npages page_size,
        put order addr (set_page addr (record (page_for addr s) { allocated = false }) s),
      )
]
