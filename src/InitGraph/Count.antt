-- ===== src/InitGraph/Count.antt =====
-- kernel/interfaces/lib/initgraph.cppm: how many edges into a node come from nodes that are not done.
use ilobilix.Base.{
  ℕ, suc, ◌+◌, ◌==◌, ◌≡◌, ◌≢◌, ◌≤◌, refl, sym, ap, ◌∙◌, Bool, true, false, List, [], ◌∷◌, ◌++◌,
  if◌then◌else◌, length, arith, Bool-cases, inl, inr, ◌⊎◌,
}

-- How often a node stands in a list.
unfoldable pub occ : ℕ → List ℕ → ℕ
occ n [] = 0
occ n (m ∷ l) = (if m == n then 1 else 0) + occ n l

-- The edges to `t` from the nodes of a list that are not done.
unfoldable pub missing : (ℕ → List ℕ) → (ℕ → Bool) → ℕ → List ℕ → ℕ
missing out done t [] = 0
missing out done t (s ∷ l) = (if done s then 0 else occ t (out s)) + missing out done t l

-- The nodes of a list that are not done.
unfoldable pub waiting : (ℕ → Bool) → List ℕ → ℕ
waiting done [] = 0
waiting done (s ∷ l) = (if done s then 0 else 1) + waiting done l

abbrev pub mark : ℕ → (ℕ → Bool) → ℕ → Bool
mark c done n = if n == c then true else done n

pub occ-append : (n : ℕ) (l m : List ℕ) → occ n (l ++ m) ≡ occ n l + occ n m
unfolding occ
occ-append n [] m = omega arith
occ-append n (a ∷ l) m = omega (arith, occ-append n l m)

pub waiting-length : (done : ℕ → Bool) (l : List ℕ) → waiting done l ≤ length l
unfolding waiting
waiting-length done [] = omega arith
waiting-length done (s ∷ l) = ground (arith, waiting-length done l)

module _ (out : ℕ → List ℕ) (done : ℕ → Bool) where
  pub missing-unmarked :
      (c t : ℕ) (l : List ℕ) → occ c l ≡ 0 → missing out (mark c done) t l ≡ missing out done t l
  unfolding missing occ
  missing-unmarked c t [] h = refl
  missing-unmarked c t (s ∷ l) h = ground (arith, missing-unmarked c t l)

  -- A node that is done takes its edges with it.
  pub missing-mark :
      (c t : ℕ) (l : List ℕ)
      → occ c l ≡ 1
      → done c ≡ false
      → missing out done t l ≡ missing out (mark c done) t l + occ t (out c)
  unfolding missing occ
  missing-mark c t [] h d = absurd (omega arith)
  missing-mark c t (s ∷ l) h d = elim (Bool-cases (s == c)) [
    | inl e ↦
        let same : s ≡ c = ground (arith, e) in
        let d' : done s ≡ false = ap done same ∙ d in
        let o : occ t (out s) ≡ occ t (out c) = ap (λ (n : ℕ). occ t (out n)) same in
        ground (arith, e, d', o, missing-unmarked c t l (ground (arith, e)))
    | inr e ↦ ground (arith, e, missing-mark c t l)
  ]

  waiting-unmarked : (c : ℕ) (l : List ℕ) → occ c l ≡ 0 → waiting (mark c done) l ≡ waiting done l
  unfolding waiting occ
  waiting-unmarked c [] h = refl
  waiting-unmarked c (s ∷ l) h = ground (arith, waiting-unmarked c l)

  pub waiting-mark :
      (c : ℕ) (l : List ℕ)
      → occ c l ≡ 1
      → done c ≡ false
      → waiting done l ≡ suc (waiting (mark c done) l)
  unfolding waiting occ
  waiting-mark c [] h d = absurd (omega arith)
  waiting-mark c (s ∷ l) h d = elim (Bool-cases (s == c)) [
    | inl e ↦
        let same : s ≡ c = ground (arith, e) in
        let d' : done s ≡ false = ap done same ∙ d in
        ground (arith, e, d', waiting-unmarked c l (ground (arith, e)))
    | inr e ↦ ground (arith, e, waiting-mark c l)
  ]

  pub waiting_none : (n : ℕ) (l : List ℕ) → waiting done l ≡ 0 → occ n l ≢ 0 → done n ≡ true
  unfolding waiting occ
  waiting_none n [] w h = absurd (h refl)
  waiting_none n (s ∷ l) w h = elim (Bool-cases (s == n)) [
    | inl e ↦ let same : s ≡ n = ground (arith, e) in sym (ap done same) ∙ ground arith
    | inr e ↦ waiting_none n l (ground arith) (ground (arith, e))
  ]

  pub missing_none :
      (s t : ℕ) (l : List ℕ)
      → missing out done t l ≡ 0
      → occ s l ≢ 0
      → occ t (out s) ≢ 0
      → done s ≡ true
  unfolding missing occ
  missing_none s t [] m h o = absurd (h refl)
  missing_none s t (r ∷ l) m h o = elim (Bool-cases (r == s)) [
    | inl e ↦
        let same : r ≡ s = ground (arith, e) in
        let o' : occ t (out r) ≡ occ t (out s) = ap (λ (n : ℕ). occ t (out n)) same in
        sym (ap done same) ∙ ground (arith, o, o')
    | inr e ↦ missing_none s t l (ground arith) (ground (arith, e)) o
  ]

  -- If an edge is missing, a node that is not done has it.
  pub missing_some :
      (t : ℕ) (l : List ℕ)
      → missing out done t l ≢ 0
      → (s : ℕ) × (occ s l ≢ 0) × (done s ≡ false) × (occ t (out s) ≢ 0)
  unfolding missing occ
  missing_some t [] m = absurd (m refl)
  missing_some t (r ∷ l) m =
      let later : missing out done t l ≢ 0
          → (s : ℕ) × (occ s (r ∷ l) ≢ 0) × (done s ≡ false) × (occ t (out s) ≢ 0) =
        λ m'.
          (let rest = missing_some t l m' in
            (rest.0, (λ z. rest.1 (omega (arith, z))), rest.2, rest.3)) in
      elim (Bool-cases (done r)) [
        | inl e ↦ later (ground (arith, e))
        | inr e ↦ elim (Bool-cases (occ t (out r) == 0)) [
          | inl z ↦ later (ground (arith, e, z))
          | inr z ↦ (r, (λ y. ground (arith, y)), e, ground (arith, z))
        ]
      ]

pub missing-cong :
    (out : ℕ → List ℕ) (f g : ℕ → Bool) (t : ℕ) (l : List ℕ)
    → ((n : ℕ) → f n ≡ g n)
    → missing out f t l ≡ missing out g t l
unfolding missing
missing-cong out f g t [] h = refl
missing-cong out f g t (s ∷ l) h = rw (h s) (omega (arith, missing-cong out f g t l h))

pub waiting-cong : (f g : ℕ → Bool) (l : List ℕ) → ((n : ℕ) → f n ≡ g n) → waiting f l ≡ waiting g l
unfolding waiting
waiting-cong f g [] h = refl
waiting-cong f g (s ∷ l) h = rw (h s) (omega (arith, waiting-cong f g l h))

pub List-cases : (l : List ℕ) → (l ≡ []) ⊎ ((a : ℕ) × (r : List ℕ) × (l ≡ a ∷ r))
List-cases [] = inl refl
List-cases (a ∷ r) = inr (a, r, refl)
