-- ===== src/Pmm/Cover.antt =====
-- kernel/source/system/memory/pmm.cpp: how many free blocks hold an address, and how the steps of the
-- allocator on its lists change that.
use ilobilix.Base.{
  ℕ, zero, suc, ◌+◌, ◌==◌, ◌≡◌, ◌≤◌, ◌<◌, ◌&&◌, refl, ap, List, [], ◌∷◌, if◌then◌else◌, some, ltb,
  leb, arith, Bool-cases, Option-cases, inl, inr,
}
use native.Mathlib.Nat.{pow-suc}
use ilobilix.Pmm.{block_size, max_order, Allocator, Page, set_page, put, remove, set_list}

-- 1 if the block of an order at an address holds `x`.
abbrev pub in_block : ℕ → ℕ → ℕ → ℕ
in_block x order addr = if leb addr x && ltb x (addr + block_size order) then 1 else 0

pub in_list : ℕ → ℕ → List ℕ → ℕ
in_list x order [] = 0
in_list x order (a ∷ l) = in_block x order a + in_list x order l

-- The blocks of the first `n` lists that hold `x`.
pub in_lists : ℕ → ℕ → (ℕ → List ℕ) → ℕ
unfolding in_list
in_lists x zero lists = 0
in_lists x (suc n) lists = in_lists x n lists + in_list x n (lists n)

-- The free blocks that hold `x`.
unfoldable pub free_at : ℕ → Allocator → ℕ
unfolding in_lists
free_at x s = in_lists x (suc max_order) s.lists

pub block_size-suc : (k : ℕ) → block_size (suc k) ≡ block_size k + block_size k
unfolding block_size
block_size-suc k = omega (arith, pow-suc 2 k)

-- The two halves of a block hold what the block holds.
pub in_block-suc :
    (x k a : ℕ) → in_block x (suc k) a ≡ in_block x k a + in_block x k (a + block_size k)
in_block-suc x k a = ground (arith, block_size-suc k)

in_lists-above :
    (x n k : ℕ) (l : List ℕ) (lists : ℕ → List ℕ)
    → n ≤ k
    → in_lists x n (λ o. if o == k then l else lists o) ≡ in_lists x n lists
unfolding in_lists
in_lists-above x zero k l lists h = refl
in_lists-above x (suc n) k l lists h = ground (arith, in_lists-above x n k l lists)

-- A changed list changes the sum by its own change.
in_lists-set :
    (x n k : ℕ) (l : List ℕ) (lists : ℕ → List ℕ)
    → k < n
    → in_lists x n (λ o. if o == k then l else lists o) + in_list x k (lists k)
      ≡ in_lists x n lists + in_list x k l
unfolding in_lists
in_lists-set x zero k l lists h = absurd (omega arith)
in_lists-set x (suc n) k l lists h = elim (Bool-cases (n == k)) [
  | inl e ↦
      let same : n ≡ k = ground (arith, e) in
      rw e (
        omega (
          arith,
          in_lists-above x n k l lists (omega arith),
          ap (λ (t : ℕ). in_list x t l) same,
          ap (λ (t : ℕ). in_list x t (lists t)) same,
        ))
  | inr e ↦ rw e (omega (arith, in_lists-set x n k l lists (ground (arith, e))))
]

-- A block that is put into a list is free beside those before.
pub free_at-put :
    (x order addr : ℕ) (s : Allocator)
    → order ≤ max_order
    → free_at x (put order addr s) ≡ in_block x order addr + free_at x s
unfolding put free_at in_list
free_at-put x order addr s h =
    omega (arith, in_lists-set x 16 order (addr ∷ s.lists order) s.lists (omega arith))

-- A list that loses its first block, or any one block, loses just that block.
pub free_at-tail :
    (x order addr : ℕ) (l : List ℕ) (s : Allocator)
    → order ≤ max_order
    → s.lists order ≡ addr ∷ l
    → free_at x s ≡ in_block x order addr + free_at x (set_list order l s)
unfolding free_at in_list
free_at-tail x order addr l s h e =
    omega (arith, in_lists-set x 16 order l s.lists (omega arith), ap (in_list x order) e)

in_list-remove :
    (x order addr : ℕ) (l r : List ℕ)
    → remove addr l ≡ some r
    → in_list x order l ≡ in_block x order addr + in_list x order r
unfolding remove in_list
in_list-remove x order addr [] r h = cc
in_list-remove x order addr (a ∷ l) r h = elim (Option-cases (remove addr l)) [
  | inl e ↦ grind (arith, e)
  | inr e ↦ grind (arith, e.1, in_list-remove x order addr l e.0 e.1)
]

pub free_at-remove :
    (x order addr : ℕ) (l : List ℕ) (s : Allocator)
    → order ≤ max_order
    → remove addr (s.lists order) ≡ some l
    → free_at x s ≡ in_block x order addr + free_at x (set_list order l s)
unfolding free_at
free_at-remove x order addr l s h e = omega (
  arith,
  in_lists-set x 16 order l s.lists (omega arith),
  in_list-remove x order addr (s.lists order) l e,
)

pub free_at-set_page :
    (x addr : ℕ) (p : Page) (s : Allocator) → free_at x (set_page addr p s) ≡ free_at x s
unfolding free_at
free_at-set_page x addr p s = refl
