-- ===== src/Sync.antt =====
-- kernel/source/lib/semaphore.cpp: the counting semaphore. Each operation runs under the spinlock with
-- interrupts off, so it is one step on the count and the queue of sleepers; threads are numbers.
pub mod Queue
pub mod Order
pub mod Tests
use ilobilix.Base.{
  ℕ, zero, suc, ◌+◌, ◌-◌, Bool, true, false, ◌&&◌, not, ◌==◌, List, [], ◌∷◌, ◌++◌, if◌then◌else◌,
  length, Option, none, some, select, drop, ℤ, pos, negsuc, incr, decr, is_positive, is_negative,
}

pub record Semaphore : Type 0 where
  pub threads : List ℕ
  pub signals : ℤ

pub init : Semaphore
init = record { threads = []; signals = pos 0 }

-- The answer, and the semaphore after.
pub test : Semaphore → Bool × Semaphore
test s =
    if is_positive s.signals
    then (true, record { threads = s.threads; signals = decr s.signals })
    else (false, s)

-- `wait` up to the call of `sched::yield`; the answer says whether the thread sleeps.
pub wait : ℕ → Semaphore → Bool × Semaphore
wait me s =
    let signals = decr s.signals in
    if is_negative signals
    then (true, record { threads = s.threads ++ (me ∷ []); signals = signals })
    else (false, record { threads = s.threads; signals = signals })

-- `std::remove` moves the other elements to the front and gives the place behind them; `erase` takes
-- out the one element at that place.
pub remove_one : ℕ → List ℕ → List ℕ
unfolding select
remove_one me threads =
    let kept = select (λ t. not (t == me)) threads in
    if length kept == length threads then threads else kept ++ drop (suc (length kept)) threads

-- The rest of `wait` after `sched::yield` told that the sleep was interrupted.
pub interrupted : ℕ → Semaphore → Semaphore
unfolding remove_one
interrupted me s =
    let kept = select (λ t. not (t == me)) s.threads in
    if length kept == length s.threads
    then s
    else record { threads = remove_one me s.threads; signals = incr s.signals }

-- `signal`: the thread to wake up, if any; `none` for the whole is the failed `bug_on`.
pub signal : Bool → Semaphore → Option (Option ℕ × Semaphore)
signal drop s =
    if drop && length s.threads == 0
    then some (none, s)
    else let signals = incr s.signals in
      if is_positive signals
      then some (none, record { threads = s.threads; signals = signals })
      else elim s.threads [
        | [] ↦ none
        | thread ∷ rest ↦ some (some thread, record { threads = rest; signals = signals })
      ]
