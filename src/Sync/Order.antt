-- ===== src/Sync/Order.antt =====
-- kernel/source/lib/semaphore.cpp: sleepers are woken up in the order in which they came.
use ilobilix.Base.{
  ℕ, zero, suc, ◌≡◌, refl, ap, ◌∙◌, sym, false, List, [], ◌∷◌, ◌++◌, length, length-append, Option,
  none, some, ℤ, pos, negsuc, arith,
}
use ilobilix.Sync.Queue.{append-nil}
use ilobilix.Sync.{Semaphore, wait, signal}

-- Minus a count of sleepers.
abbrev minus : ℕ → ℤ
minus zero = pos 0
minus (suc n) = negsuc n

-- All of `sleepers` sleep, and nobody else.
abbrev pub sleeping : List ℕ → Semaphore
sleeping sleepers = record { threads = sleepers; signals = minus (length sleepers) }

-- The threads call `wait` one after the other.
abbrev pub wait_all : List ℕ → Semaphore → Semaphore
wait_all [] s = s
wait_all (t ∷ ts) s = wait_all ts (wait t s).1

-- `n` calls of `signal`, and the threads that they wake up.
abbrev pub signal_all : ℕ → Semaphore → Option (List (Option ℕ) × Semaphore)
signal_all zero s = some ([], s)
signal_all (suc n) s = elim (signal false s) [
  | none ↦ none
  | some first ↦ elim (signal_all n first.1) [
    | none ↦ none
    | some rest ↦ some (first.0 ∷ rest.0, rest.1)
  ]
]

abbrev pub as_woken : List ℕ → List (Option ℕ)
as_woken [] = []
as_woken (t ∷ ts) = some t ∷ as_woken ts

append_assoc : (qs : List ℕ) (t : ℕ) (ts : List ℕ) → (qs ++ (t ∷ [])) ++ ts ≡ qs ++ (t ∷ ts)
append_assoc [] t ts = refl
append_assoc (q ∷ qs) t ts = ap (λ (l : List ℕ). q ∷ l) (append_assoc qs t ts)

wait-sleeping : (t : ℕ) (ts : List ℕ) → (wait t (sleeping ts)).1 ≡ sleeping (ts ++ (t ∷ []))
unfolding wait
wait-sleeping t [] = refl
wait-sleeping t (x ∷ ts) =
    ap (λ (n : ℕ). record { threads = x ∷ (ts ++ (t ∷ [])); signals = negsuc n })
      (sym (length-append ts (t ∷ []) ∙ omega arith))

wait_all-sleeping : (ts qs : List ℕ) → wait_all ts (sleeping qs) ≡ sleeping (qs ++ ts)
wait_all-sleeping [] qs = ap sleeping (sym (append-nil qs))
wait_all-sleeping (t ∷ ts) qs =
    ap (wait_all ts) (wait-sleeping t qs)
    ∙ wait_all-sleeping ts (qs ++ (t ∷ []))
    ∙ ap sleeping (append_assoc qs t ts)

signal_all-sleeping :
    (ts : List ℕ) → signal_all (length ts) (sleeping ts) ≡ some (as_woken ts, sleeping [])
unfolding signal
signal_all-sleeping [] = refl
signal_all-sleeping (t ∷ []) = refl
signal_all-sleeping (t ∷ u ∷ ts) = rw (signal_all-sleeping (u ∷ ts)) refl

-- On a semaphore at 0 with nobody asleep, after any sequence of calls of wait, as many calls of signal
-- wake up just these threads, in the order in which they called wait, and bring the semaphore back to 0.
pub signal_all-wait_all :
    (ts : List ℕ)
    → signal_all (length ts) (wait_all ts (sleeping [])) ≡ some (as_woken ts, sleeping [])
signal_all-wait_all ts =
    ap (signal_all (length ts)) (wait_all-sleeping ts []) ∙ signal_all-sleeping ts
