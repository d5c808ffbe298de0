-- ===== src/Lock.antt =====
-- kernel/interfaces/lib/spinlock.cppm: the ticket lock, its form that turns interrupts off, and the
-- steps of the threads that use one lock.
pub mod Busy
pub mod Seat
pub mod Ticket
pub mod Exclusion
pub mod Irq
pub mod Tests
use ilobilix.Base.{ℕ, zero, suc, ◌+◌, ◌≡◌, ◌<◌, ◌==◌, Bool, true, false, not, if◌then◌else◌, add64}

-- `spinlock_base<lock_type::none>`
pub record Spinlock : Type 0 where
  pub next_ticket : ℕ
  pub serving_ticket : ℕ

abbrev pub unlocked : Spinlock
unlocked = record { next_ticket = 0; serving_ticket = 0 }

unfoldable pub is_locked : Spinlock → Bool
is_locked l = not (l.serving_ticket == l.next_ticket)

-- `lock` up to its loop: the ticket is `next_ticket` as it was.
unfoldable pub take : Spinlock → Spinlock
take l = record l { next_ticket = add64 l.next_ticket 1 }

-- The loop of `lock` ends.
unfoldable pub is_served : ℕ → Spinlock → Bool
is_served ticket l = l.serving_ticket == ticket

-- The store of `unlock`
unfoldable pub serve : ℕ → Spinlock → Spinlock
serve current l = record l { serving_ticket = add64 current 1 }

-- Where a thread is: outside, in the loop of `lock`, behind `lock`, in `unlock` between the two loads of
-- `is_locked`, behind these, and between the load and the store of `unlock`
pub data Thread : Type 0 where
  outside : Thread
  waits : ℕ → Thread
  holds : Thread
  checks : ℕ → Thread
  finds : Thread
  releases : ℕ → Thread

pub record System : Type 0 where
  pub spinlock : Spinlock
  pub thread : ℕ → Thread

unfoldable pub set_thread : ℕ → Thread → (ℕ → Thread) → ℕ → Thread
set_thread t x f u = if u == t then x else f u

abbrev pub start : System
start = record { spinlock = unlocked; thread = λ t. outside }

-- An access to the lock by one of `m` threads. A thread calls `lock` when it does not have the lock
-- and `unlock` when it has it.
pub data Step (m : ℕ) : System → System → Type 0 where
  takes :
      (s : System) (t : ℕ)
      → t < m
      → s.thread t ≡ outside
      → Step m s (record {
        spinlock = take s.spinlock;
        thread = set_thread t (waits s.spinlock.next_ticket) s.thread;
      })
  enters :
      (s : System) (t ticket : ℕ)
      → t < m
      → s.thread t ≡ waits ticket
      → is_served ticket s.spinlock ≡ true
      → Step m s (record s { thread = set_thread t holds s.thread })
  loads :
      (s : System) (t : ℕ)
      → t < m
      → s.thread t ≡ holds
      → Step m s (record s { thread = set_thread t (checks s.spinlock.serving_ticket) s.thread })
  compares :
      (s : System) (t current : ℕ)
      → t < m
      → s.thread t ≡ checks current
      → (current == s.spinlock.next_ticket) ≡ false
      → Step m s (record s { thread = set_thread t finds s.thread })
  reloads :
      (s : System) (t : ℕ)
      → t < m
      → s.thread t ≡ finds
      → Step m s (record s { thread = set_thread t (releases s.spinlock.serving_ticket) s.thread })
  stores :
      (s : System) (t current : ℕ)
      → t < m
      → s.thread t ≡ releases current
      → Step m s
          (record { spinlock = serve current s.spinlock; thread = set_thread t outside s.thread })

pub data Reach (m : ℕ) : System → System → Type 0 where
  here : (s : System) → Reach m s s
  next : {s u v : System} → Reach m s u → Step m u v → Reach m s v
