-- ===== src/Libc/Compare.antt =====
-- kernel/source/libc/string.cpp: what `memcmp` and `strcmp` decide.
use ilobilix.Base.{ℕ, zero, suc, ◌+◌, ◌<◌, inl, inr, ◌==◌, ◌≡◌, refl, arith, some, Bool-cases, ◌↔◌}
use ilobilix.Libc.{Memory, Sign, memcmp, strcmp}
use ilobilix.Libc.Scan.{IsString}

-- The `n` bytes at two addresses agree.
abbrev pub SameBytes : ℕ → ℕ → ℕ → Memory → Type 0
SameBytes p1 p2 zero m = Unit
SameBytes p1 p2 (suc n) m = (m p1 ≡ m p2) × SameBytes (p1 + 1) (p2 + 1) n m

-- memcmp returns 0 if and only if the two blocks hold the same bytes.
pub memcmp_iff : (p1 p2 n : ℕ) (m : Memory) → (memcmp p1 p2 n m ≡ Sign.nought) ↔ SameBytes p1 p2 n m
unfolding memcmp
memcmp_iff p1 p2 zero m = ((λ _. tt), (λ _. refl))
memcmp_iff p1 p2 (suc n) m = ground (arith, memcmp_iff (p1 + 1) (p2 + 1) n m)

pub flip : Sign → Sign
flip Sign.minus = Sign.plus
flip Sign.nought = Sign.nought
flip Sign.plus = Sign.minus

memcmp-flip : (p1 p2 n : ℕ) (m : Memory) → memcmp p2 p1 n m ≡ flip (memcmp p1 p2 n m)
unfolding memcmp flip
memcmp-flip p1 p2 zero m = refl
memcmp-flip p1 p2 (suc n) m = ground (arith, memcmp-flip (p1 + 1) (p2 + 1) n m)

-- On two strings, with fuel for more than the first, strcmp returns two characters, which are equal if
-- and only if the strings have the same length and the same characters.
pub strcmp_lem :
    (n1 n2 fuel s1 s2 : ℕ) (m : Memory)
    → IsString n1 s1 m
    → IsString n2 s2 m
    → n1 < fuel
    → (c : ℕ × ℕ) × (strcmp fuel s1 s2 m ≡ some c)
      × ((c.0 ≡ c.1) ↔ ((n1 ≡ n2) × SameBytes s1 s2 n1 m))
unfolding strcmp
strcmp_lem n1 n2 zero s1 s2 m h1 h2 l = absurd (omega arith)
strcmp_lem zero zero (suc fuel) s1 s2 m h1 h2 l =
    ((m s1, m s2), ground (arith, h1, h2), ground (arith, h1, h2))
strcmp_lem zero (suc n2) (suc fuel) s1 s2 m h1 h2 l =
    ((m s1, m s2), ground (arith, h1, h2), ground (arith, h1, h2))
strcmp_lem (suc n1) zero (suc fuel) s1 s2 m h1 h2 l =
    ((m s1, m s2), ground (arith, h1, h2), ground (arith, h1, h2))
strcmp_lem (suc n1) (suc n2) (suc fuel) s1 s2 m h1 h2 l =
    let rest = strcmp_lem n1 n2 fuel (s1 + 1) (s2 + 1) m h1.1 h2.1 (omega arith) in
    elim (Bool-cases (m s1 == m s2)) [
      | inl e ↦ (rest.0, ground (arith, h1, h2, rest.1, e), ground (arith, h1, h2, rest.2, e))
      | inr e ↦ ((m s1, m s2), ground (arith, h1, h2, e), ground (arith, h1, h2, e))
    ]
