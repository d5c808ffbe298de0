-- ===== src/Pmm/Split.antt =====
-- kernel/source/system/memory/pmm.cpp: `split_to` ends with a block of the order, and no address
-- becomes free or is lost.
use ilobilix.Base.{
  ℕ, zero, suc, ◌+◌, ◌/◌, ◌≡◌, ◌≢◌, ◌≤◌, ◌<◌, ◌==◌, refl, ap, ◌∙◌, true, false, List, ◌∷◌,
  if◌then◌else◌, some, ltb, arith, subst, Bool-cases, inl, inr,
}
use native.Mathlib.Nat.{one-le-pow}
use ilobilix.Pmm.{
  block_size, page_size, max_order, Allocator, ok, has_pages, find_order, rem, put, split,
  split_down, set_list, set_page,
}
use ilobilix.Pmm.Cover.{in_block-suc, free_at, free_at-put, free_at-tail, block_size-suc}

-- No page of a stretch of memory is marked allocated.
abbrev pub Unmarked : ℕ → ℕ → Allocator → Type 0
Unmarked addr size s =
    (x : ℕ) → addr ≤ x → x < addr + size → (s.page (x / page_size)).allocated ≡ false

-- A block of the order stands first in its list, over unmarked pages, and its own page has the order.
pub record Ready (order : ℕ) (s : Allocator) : Type 0 where
  pub addr : ℕ
  pub others : List ℕ
  pub first : s.lists order ≡ addr ∷ others
  pub unmarked : Unmarked addr (block_size order) s
  pub known : (s.page (addr / page_size)).order ≡ order

-- The same addresses are free.
abbrev pub SameFree : Allocator → Allocator → Type 0
SameFree s t = (x : ℕ) → free_at x t ≡ free_at x s

pub block_size_positive : (k : ℕ) → 0 < block_size k
unfolding block_size
block_size_positive k = omega (arith, one-le-pow k 2)

pub ==_refl : (n : ℕ) → (n == n) ≡ true
==_refl n = ground arith

-- The state after a split of the first block `addr` of order `current + 1`.
split_state : ℕ → ℕ → List ℕ → Allocator → Allocator
unfolding put
split_state current addr others s =
    let buddy = addr + block_size current in
    let s1 = set_list (suc current) others s in
    put current buddy (
      put current addr (
        set_page addr
          (record {
            next_paddr = buddy / page_size;
            order = current;
            allocated = (s.page (addr / page_size)).allocated;
          })
          (set_page buddy
            (record {
              next_paddr = (s.page (addr / page_size)).next_paddr;
              order = current;
              allocated = (s.page (buddy / page_size)).allocated;
            })
            s1)))

pub rem_some :
    (order addr : ℕ) (l : List ℕ) (s : Allocator)
    → s.lists order ≡ addr ∷ l
    → rem order s ≡ ok (addr, set_list order l s)
unfolding rem
rem_some order addr l s h = rw (rem, h) refl

split_runs :
    (current : ℕ) (s : Allocator) (r : Ready (suc current) s)
    → split current s ≡ ok (split_state current r.addr r.others s)
unfolding split split_state
split_runs current s r =
    let step = block_size-suc current in
    let more = block_size_positive current in
    rw (rem, rem_some (suc current) r.addr r.others s r.first)
      (rw
        (
          r.unmarked r.addr (omega arith) (omega (arith, step, more)),
          r.unmarked (r.addr + block_size current) (omega arith) (omega (arith, step, more)),
        )
        refl)

split-SameFree :
    (current : ℕ) (s : Allocator) (r : Ready (suc current) s)
    → current < max_order
    → SameFree s (split_state current r.addr r.others s)
unfolding split_state free_at
split-SameFree current s r h x =
    let s1 = set_list (suc current) r.others s in
    omega (
      arith,
      free_at-put x current (r.addr + block_size current) (put current r.addr s1) (omega arith),
      free_at-put x current r.addr s1 (omega arith),
      free_at-tail x (suc current) r.addr r.others s (omega arith) r.first,
      in_block-suc x current r.addr,
    )

split-Ready :
    (current : ℕ) (s : Allocator) (r : Ready (suc current) s)
    → Ready current (split_state current r.addr r.others s)
unfolding split_state
split-Ready current s r = record {
  addr = r.addr + block_size current;
  others = r.addr ∷ (if current == suc current then r.others else s.lists current);
  first = rw (==_refl current) refl;
  unmarked = λ x h l.
      let step = block_size-suc current in
      let free = r.unmarked x (omega arith) (omega (arith, step)) in
      let free_addr =
        r.unmarked r.addr (omega arith) (omega (arith, step, block_size_positive current)) in
      let free_buddy =
        r.unmarked (r.addr + block_size current) (omega arith)
          (omega (arith, step, block_size_positive current)) in
      ground (arith, free, free_addr, free_buddy);
  known = ground arith;
}

-- The rounds of splitting leave a block of the target, and the same addresses are free.
pub split_down_runs :
    (target n : ℕ) (s : Allocator)
    → Ready (target + n) s
    → target + n ≤ max_order
    → (t : Allocator) × (split_down target n s ≡ ok t) × Ready target t × SameFree s t
unfolding split_down
split_down_runs target zero s r h =
    (s, refl, subst (λ (o : ℕ). Ready o s) (omega arith) r, λ x. refl)
split_down_runs target (suc n) s r h =
    let r1 : Ready (suc (target + n)) s = subst (λ (o : ℕ). Ready o s) (omega arith) r in
    let after = split_state (target + n) r1.addr r1.others s in
    let rest = split_down_runs target n after (split-Ready (target + n) s r1) (omega arith) in
    (
      rest.0,
      rw (split, split_runs (target + n) s r1) rest.1,
      rest.2,
      λ x. rest.3 x ∙ split-SameFree (target + n) s r1 (omega arith) x,
    )

pub find_order_finds :
    (fuel current o : ℕ) (s : Allocator)
    → current ≤ o
    → o < current + fuel
    → o ≤ max_order
    → has_pages o s ≡ true
    → (c : ℕ) × (find_order fuel current s ≡ some c)
      × (current ≤ c)
      × (c ≤ max_order)
      × (has_pages c s ≡ true)
unfolding find_order
find_order_finds zero current o s l f m h = absurd (omega arith)
find_order_finds (suc fuel) current o s l f m h = elim (Bool-cases (has_pages current s)) [
  | inl e ↦ (current, rw e refl, omega arith, omega arith, e)
  | inr e ↦
      let other : current ≢ o = λ same. cc (ap (λ (t : ℕ). has_pages t s) same) in
      let bound : ltb max_order (current + 1) ≡ false = ground (arith, other) in
      let rest =
        find_order_finds fuel (current + 1) o s (ground (arith, other)) (omega arith) m h in
      (rest.0, rw (e, bound) rest.1, omega (arith, rest.2), rest.3, rest.4)
]
