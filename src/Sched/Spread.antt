-- ===== src/Sched/Spread.antt =====
-- kernel/source/system/scheduler.cpp: the processor that `spawn` gives a new thread to.
use ilobilix.Base.{
  ℕ, zero, suc, ◌+◌, ◌-◌, ◌^◌, ◌≡◌, ◌≤◌, ◌<◌, ◌⊎◌, List, [], ◌∷◌, refl, if◌then◌else◌, arith,
  Bool-cases, inl, inr, ltb, get_or,
}

-- The loop over the sizes of the queues, from index `i` on
unfoldable pub least : List ℕ → ℕ → ℕ → ℕ → ℕ
least [] i min idx = idx
least (size ∷ sizes) i min idx =
    if ltb size min then least sizes (i + 1) size i else least sizes (i + 1) min idx

unfoldable pub allocate_cpu : List ℕ → ℕ
unfolding least
allocate_cpu sizes = least sizes 0 (2 ^ 64 - 1) 0

-- No size from here on is less than `min`, or one is that no size undercuts, and those before it exceed it.
-- Beyond the last one a size is taken for `most`.
abbrev Found : ℕ → List ℕ → ℕ → ℕ → ℕ → ℕ → Type 0
Found most sizes i min idx r =
    ((r ≡ idx) × ((j : ℕ) → min ≤ get_or sizes j most))
    ⊎ ((k : ℕ) × (r ≡ i + k)
        × (get_or sizes k most < min)
        × ((j : ℕ) → get_or sizes k most ≤ get_or sizes j most)
        × ((j : ℕ) → j < k → get_or sizes k most < get_or sizes j most))

all_from :
    (most x y : ℕ) (xs : List ℕ)
    → y ≤ x
    → ((j : ℕ) → y ≤ get_or xs j most)
    → (j : ℕ) → y ≤ get_or (x ∷ xs) j most
all_from most x y xs h rest zero = h
all_from most x y xs h rest (suc j) = rest j

all_before :
    (most x y k : ℕ) (xs : List ℕ)
    → y < x
    → ((j : ℕ) → j < k → y < get_or xs j most)
    → (j : ℕ) → j < suc k
    → y < get_or (x ∷ xs) j most
all_before most x y k xs h rest zero early = h
all_before most x y k xs h rest (suc j) early = rest j (omega arith)

least-Found :
    (most : ℕ) (sizes : List ℕ) (i min idx : ℕ)
    → min ≤ most
    → Found most sizes i min idx (least sizes i min idx)
unfolding least
least-Found most [] i min idx h = inl (refl, λ j. h)
least-Found most (x ∷ xs) i min idx h = elim (Bool-cases (ltb x min)) [
  | inl e ↦
      let less : x < min = ground (arith, e) in
      rw e (elim (least-Found most xs (i + 1) x i (omega arith)) [
        | inl (same, above) ↦ inr (
          0,
          omega (arith, same),
          less,
          all_from most x x xs (omega arith) above,
          λ j early. absurd (omega arith),
        )
        | inr (k, is_k, lower, low, first) ↦ inr (
          suc k,
          omega (arith, is_k),
          omega arith,
          all_from most x (get_or xs k most) xs (omega arith) low,
          all_before most x (get_or xs k most) k xs lower first,
        )
      ])
  | inr e ↦
      let more : min ≤ x = ground (arith, e) in
      rw e (elim (least-Found most xs (i + 1) min idx h) [
        | inl (same, above) ↦ inl (same, all_from most x min xs more above)
        | inr (k, is_k, lower, low, first) ↦ inr (
          suc k,
          omega (arith, is_k),
          lower,
          all_from most x (get_or xs k most) xs (omega arith) low,
          all_before most x (get_or xs k most) k xs (omega arith) first,
        )
      ])
]

-- With queue sizes that fit in a word, `allocate_cpu` gives the first of the processors with the least queue.
pub allocate_cpu_least :
    (sizes : List ℕ)
    → ((j : ℕ) → get_or sizes j (2 ^ 64 - 1) ≤ 2 ^ 64 - 1)
    → ((j : ℕ) → get_or sizes (allocate_cpu sizes) (2 ^ 64 - 1) ≤ get_or sizes j (2 ^ 64 - 1))
      × ((j : ℕ)
          → j < allocate_cpu sizes
          → get_or sizes (allocate_cpu sizes) (2 ^ 64 - 1) < get_or sizes j (2 ^ 64 - 1))
unfolding allocate_cpu
allocate_cpu_least sizes fits =
    elim (least-Found (2 ^ 64 - 1) sizes 0 (2 ^ 64 - 1) 0 (omega arith)) [
      | inl (same, above) ↦
          rw same ((λ j. omega (arith, fits 0, above j)), λ j early. absurd (omega arith))
      | inr (k, is_k, lower, low, first) ↦
          let is_k' : least sizes 0 (2 ^ 64 - 1) 0 ≡ k = omega (arith, is_k) in
          rw is_k' (low, first)
    ]
