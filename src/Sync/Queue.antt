-- ===== src/Sync/Queue.antt =====
-- kernel/source/lib/semaphore.cpp: the count and the queue of sleepers agree in every reachable state.
use ilobilix.Base.{
  ℕ, zero, suc, ◌≤◌, ◌≡◌, ◌≢◌, refl, ap, ◌∙◌, sym, Bool, true, false, not, ◌==◌, List, [], ◌∷◌,
  ◌++◌, length, Option, none, some, select, drop, ℤ, pos, negsuc, incr, arith, All, All-select,
  length-append, Bool-cases, inl, inr, subst,
}
use ilobilix.Sync.{Semaphore, init, test, wait, remove_one, interrupted, signal}

-- What the count should be: a negative one counts the sleepers.
abbrev pub Balanced : Semaphore → Type 0
Balanced s = elim s.signals [ pos n ↦ s.threads ≡ [] | negsuc n ↦ length s.threads ≡ suc n ]

-- No thread stands twice in the queue.
abbrev pub Once : List ℕ → Type 0
Once [] = Unit
Once (t ∷ threads) = All (λ u. u ≢ t) threads × Once threads

-- A step of a thread; only a thread that does not sleep calls `wait`.
pub data Step : Semaphore → Semaphore → Type 0 where
  tests : (s : Semaphore) → Step s (test s).1
  waits : (s : Semaphore) (me : ℕ) → All (λ u. u ≢ me) s.threads → Step s (wait me s).1
  wakes : (s : Semaphore) (me : ℕ) → Step s (interrupted me s)
  signals :
      (s out : Semaphore) (drop : Bool) (woken : Option ℕ)
      → signal drop s ≡ some (woken, out)
      → Step s out

pub data Reachable : Semaphore → Type 0 where
  start : Reachable init
  next : {s t : Semaphore} → Reachable s → Step s t → Reachable t

pub IsFit : Semaphore → Type 0
IsFit s = Balanced s × Once s.threads

select-absent : (me : ℕ) (ts : List ℕ) → All (λ u. u ≢ me) ts → select (λ t. not (t == me)) ts ≡ ts
unfolding select
select-absent me [] h = refl
select-absent me (t ∷ ts) h = ground (arith, select-absent me ts h.1, h.0)

length-select : (me : ℕ) (ts : List ℕ) → length (select (λ t. not (t == me)) ts) ≤ length ts
unfolding select
length-select me [] = omega arith
length-select me (t ∷ ts) = ground (arith, length-select me ts)

drop-all : (ts : List ℕ) → drop (length ts) ts ≡ []
drop-all [] = refl
drop-all (x ∷ ts) = drop-all ts

pub append-nil : (ts : List ℕ) → ts ++ [] ≡ ts
append-nil [] = refl
append-nil (x ∷ ts) = ap (λ (l : List ℕ). x ∷ l) (append-nil ts)

-- With no thread twice in the queue, `remove` and `erase` together take out just the one thread.
select-cut :
    (me : ℕ) (ts : List ℕ)
    → Once ts
    → length (select (λ t. not (t == me)) ts) ≢ length ts
    → (drop (suc (length (select (λ t. not (t == me)) ts))) ts ≡ [])
      × (suc (length (select (λ t. not (t == me)) ts)) ≡ length ts)
unfolding select
select-cut me [] h n = absurd (n refl)
select-cut me (t ∷ ts) h n = elim (Bool-cases (t == me)) [
  | inl e ↦
      let same : select (λ u. not (u == me)) ts ≡ ts =
        select-absent me ts (subst (λ (k : ℕ). All (λ u. u ≢ k) ts) (ground (arith, e)) h.0) in
      rw (e, same) (drop-all ts, refl)
  | inr e ↦
      let rest = select-cut me ts h.1 (λ k. n (rw e (ap suc k))) in rw e (rest.0, ap suc rest.1)
]

All-snoc :
    (me t : ℕ) (ts : List ℕ) → All (λ u. u ≢ t) ts → me ≢ t → All (λ u. u ≢ t) (ts ++ (me ∷ []))
All-snoc me t [] h n = (n, tt)
All-snoc me t (x ∷ ts) h n = (h.0, All-snoc me t ts h.1 n)

Once-snoc : (me : ℕ) (ts : List ℕ) → Once ts → All (λ u. u ≢ me) ts → Once (ts ++ (me ∷ []))
Once-snoc me [] h n = (tt, tt)
Once-snoc me (x ∷ ts) h n = (All-snoc me x ts h.0 (λ e. n.0 (sym e)), Once-snoc me ts h.1 n.1)

Once-select : (me : ℕ) (ts : List ℕ) → Once ts → Once (select (λ t. not (t == me)) ts)
unfolding select
Once-select me [] h = tt
Once-select me (t ∷ ts) h = elim (Bool-cases (t == me)) [
  | inl e ↦ rw e (Once-select me ts h.1)
  | inr e ↦ rw e (All-select (λ u. u ≢ t) (λ u. not (u == me)) ts h.0, Once-select me ts h.1)
]

abbrev make : List ℕ → ℤ → Semaphore
make ts x = record { threads = ts; signals = x }

test-IsFit : (ts : List ℕ) (x : ℤ) → IsFit (make ts x) → IsFit (test (make ts x)).1
unfolding test IsFit
test-IsFit ts (pos zero) h = h
test-IsFit ts (pos (suc n)) h = h
test-IsFit ts (negsuc n) h = h

wait-IsFit :
    (ts : List ℕ) (x : ℤ) (me : ℕ)
    → All (λ u. u ≢ me) ts
    → IsFit (make ts x)
    → IsFit (wait me (make ts x)).1
unfolding wait IsFit
wait-IsFit ts (pos zero) me n h = (rw h.0 refl, Once-snoc me ts h.1 n)
wait-IsFit ts (pos (suc k)) me n h = h
wait-IsFit ts (negsuc k) me n h =
    (omega (arith, length-append ts (me ∷ []), h.0), Once-snoc me ts h.1 n)

no_length : (ts : List ℕ) → length ts ≡ 0 → ts ≡ []
no_length [] h = refl
no_length (t ∷ ts) h = absurd (omega arith)

Balanced-incr : (ts : List ℕ) (k : ℕ) → length ts ≡ k → Balanced (make ts (incr (negsuc k)))
Balanced-incr ts zero h = no_length ts h
Balanced-incr ts (suc k) h = h

cut-Balanced :
    (ts rest : List ℕ) (x : ℤ)
    → suc (length rest) ≡ length ts
    → Balanced (make ts x)
    → Balanced (make rest (incr x))
cut-Balanced ts rest (pos n) e h = absurd (omega (arith, e, ap length h))
cut-Balanced ts rest (negsuc k) e h = Balanced-incr rest k (omega (arith, e, h))

-- A queue with the thread loses just this one, and the count goes up by one.
interrupted-cut :
    (ts : List ℕ) (x : ℤ) (me : ℕ)
    → Once ts
    → (length (select (λ t. not (t == me)) ts) == length ts) ≡ false
    → interrupted me (make ts x) ≡ make (select (λ t. not (t == me)) ts) (incr x)
unfolding interrupted remove_one
interrupted-cut ts x me h e =
    let kept = select (λ t. not (t == me)) ts in
    rw e (
      ap (λ (l : List ℕ). make l (incr x))
        (ap (λ (l : List ℕ). kept ++ l) (select-cut me ts h (ground (arith, e))).0
          ∙ append-nil kept))

interrupted-IsFit :
    (ts : List ℕ) (x : ℤ) (me : ℕ) → IsFit (make ts x) → IsFit (interrupted me (make ts x))
unfolding IsFit interrupted
interrupted-IsFit ts x me h =
    let kept = select (λ t. not (t == me)) ts in
    elim (Bool-cases (length kept == length ts)) [
      | inl e ↦ rw e h
      | inr e ↦ subst IsFit (sym (interrupted-cut ts x me h.1 e)) (
        cut-Balanced ts kept x (select-cut me ts h.1 (ground (arith, e))).1 h.0,
        Once-select me ts h.1,
      )
    ]

signal-IsFit :
    (ts : List ℕ) (x : ℤ) (dropped : Bool)
    → IsFit (make ts x)
    → (woken : Option ℕ) × (out : Semaphore) × (signal dropped (make ts x) ≡ some (woken, out))
      × IsFit out
unfolding signal IsFit
signal-IsFit [] (pos n) true h = (none, make [] (pos n), refl, h)
signal-IsFit [] (pos n) false h = (none, make [] (pos (suc n)), refl, h)
signal-IsFit (t ∷ ts) (pos n) dropped h = absurd (omega (arith, ap length h.0))
signal-IsFit [] (negsuc k) dropped h = absurd (omega (arith, h.0))
signal-IsFit (t ∷ ts) (negsuc zero) dropped h =
    (some t, make ts (pos 0), ground arith, (Balanced-incr ts 0 (omega (arith, h.0)), h.1.1))
signal-IsFit (t ∷ ts) (negsuc (suc k)) dropped h = (
  some t,
  make ts (negsuc k),
  ground arith,
  (Balanced-incr ts (suc k) (omega (arith, h.0)), h.1.1),
)

Step-IsFit : {s t : Semaphore} → Step s t → IsFit s → IsFit t
Step-IsFit (tests s) h = test-IsFit s.threads s.signals h
Step-IsFit (waits s me n) h = wait-IsFit s.threads s.signals me n h
Step-IsFit (wakes s me) h = interrupted-IsFit s.threads s.signals me h
Step-IsFit (signals s out dropped woken e) h =
    let r = signal-IsFit s.threads s.signals dropped h in
    subst (λ (o : Option (Option ℕ × Semaphore)). elim o [ none ↦ Unit | some p ↦ IsFit p.1 ])
      (sym r.2 ∙ e) r.3

-- In every state that the operations reach, a count of zero or more means that nobody sleeps, a negative
-- one is minus the number of sleepers, and no thread stands twice in the queue.
pub Reachable-IsFit : {s : Semaphore} → Reachable s → Balanced s × Once s.threads
unfolding IsFit init
Reachable-IsFit start = (refl, tt)
Reachable-IsFit (next r step) = Step-IsFit step (Reachable-IsFit r)

-- In every state that the operations reach, the check of signal that there is a sleeper to wake up does
-- not fail, and the queue stays that of a fit state.
pub signal_safe :
    (s : Semaphore) (dropped : Bool)
    → Reachable s
    → (woken : Option ℕ) × (out : Semaphore) × (signal dropped s ≡ some (woken, out))
      × Balanced out
      × Once out.threads
unfolding IsFit
signal_safe s dropped r =
    let h = signal-IsFit s.threads s.signals dropped (Reachable-IsFit r) in
    (h.0, h.1, h.2, h.3.0, h.3.1)
