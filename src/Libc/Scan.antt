-- ===== src/Libc/Scan.antt =====
-- kernel/source/libc/string.cpp: what the functions that scan a string or a block find.
use ilobilix.Base.{
  ℕ, zero, suc, ◌+◌, ◌<◌, ◌≡◌, ◌≢◌, refl, ap, ◌∙◌, arith, none, some, min, ◌↔◌, subst,
}
use ilobilix.Libc.{Memory, memchr, strlen_from, strlen, strnlen_from, strnlen}

-- A string of `n` characters: no NUL before index `n`, and one there.
abbrev pub IsString : ℕ → ℕ → Memory → Type 0
IsString zero str m = m str ≡ 0
IsString (suc n) str m = (m str ≢ 0) × IsString n (str + 1) m

strlen_from_lem :
    (n fuel i str : ℕ) (m : Memory)
    → IsString n (str + i) m
    → n < fuel
    → strlen_from fuel i str m ≡ some (i + n)
unfolding strlen_from
strlen_from_lem n zero i str m h l = absurd (omega arith)
strlen_from_lem zero (suc fuel) i str m h l = ground (arith, ap some {x = i} {y = i + 0})
strlen_from_lem (suc n) (suc fuel) i str m h l = ground (
  arith,
  h,
  ap some {x = i + 1 + n} {y = i + suc n},
  strlen_from_lem n fuel (i + 1) str m,
  ap (λ (t : ℕ). IsString n t m) {x = str + i + 1} {y = str + (i + 1)},
)

-- On a string of n characters, with fuel for more than n of them, strlen returns n.
pub strlen_lem :
    (n fuel str : ℕ) (m : Memory) → IsString n str m → n < fuel → strlen fuel str m ≡ some n
unfolding strlen
strlen_lem n fuel str m h l =
    strlen_from_lem n fuel 0 str m (subst (λ (t : ℕ). IsString n t m) (omega arith) h) l
    ∙ ap some (omega arith)

strnlen_from_lem :
    (n left i str : ℕ) (m : Memory)
    → IsString n (str + i) m
    → strnlen_from left i str m ≡ i + min n left
unfolding strnlen_from
strnlen_from_lem n zero i str m h = ground arith
strnlen_from_lem zero (suc left) i str m h = ground (arith, h)
strnlen_from_lem (suc n) (suc left) i str m h = ground (
  arith,
  h,
  strnlen_from_lem n left (i + 1) str m,
  ap (λ (t : ℕ). IsString n t m) {x = str + i + 1} {y = str + (i + 1)},
)

pub strnlen_lem : (n str len : ℕ) (m : Memory) → IsString n str m → strnlen str len m ≡ min n len
unfolding strnlen
strnlen_lem n str len m h =
    strnlen_from_lem n len 0 str m (subst (λ (t : ℕ). IsString n t m) (omega arith) h) ∙ omega arith

-- No byte of the `k` bytes from `p` on is `ch`.
abbrev pub Absent : ℕ → ℕ → ℕ → Memory → Type 0
Absent p ch zero m = Unit
Absent p ch (suc k) m = (m p ≢ ch) × Absent (p + 1) ch k m

memchr-none : (p ch n : ℕ) (m : Memory) → (memchr p ch n m ≡ none) ↔ Absent p ch n m
unfolding memchr
memchr-none p ch zero m = ((λ _. tt), (λ _. refl))
memchr-none p ch (suc n) m = ground (arith, memchr-none (p + 1) ch n m)

memchr-some :
    (p ch n k : ℕ) (m : Memory)
    → Absent p ch k m
    → m (p + k) ≡ ch
    → k < n
    → memchr p ch n m ≡ some (p + k)
unfolding memchr
memchr-some p ch zero k m h e l = absurd (omega arith)
memchr-some p ch (suc n) zero m h e l =
    ground (arith, ap m {x = p} {y = p + 0}, ap some {x = p} {y = p + 0})
memchr-some p ch (suc n) (suc k) m h e l = ground (
  arith,
  h,
  memchr-some (p + 1) ch n k m h.1,
  ap m {x = p + 1 + k} {y = p + suc k},
  ap some {x = p + 1 + k} {y = p + suc k},
)

-- memchr answers NULL if and only if no byte of the block has the value, and where one has, it answers
-- the address of the first such byte.
pub memchr_lem :
    (p ch n : ℕ) (m : Memory)
    → ((memchr p ch n m ≡ none) ↔ Absent p ch n m)
      × ((k : ℕ) → Absent p ch k m → m (p + k) ≡ ch → k < n → memchr p ch n m ≡ some (p + k))
memchr_lem p ch n m = (memchr-none p ch n m, λ k. memchr-some p ch n k m)
