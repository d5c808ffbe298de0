-- ===== src/Sched/Threads.antt =====
-- kernel/source/system/scheduler.cpp and kernel/interfaces/system/scheduler.cppm: the threads of one
-- processor, and what does not need its queues.
use ilobilix.Base.{
  ℕ, suc, ◌-◌, ◌==◌, Bool, true, false, not, ◌||◌, List, [], ◌∷◌, if◌then◌else◌, Option, none, some,
  ltb, add64, mul64, get_or,
}

pub data Status : Type 0 where
  not_ready ready running sleeping killed : Status

-- The table of `prio_to_weight`; a priority counts from the lowest nice value, -20.
abbrev pub weights : List ℕ
weights =
    88761 ∷ 71755 ∷ 56483 ∷ 46273 ∷ 36291 ∷ 29154 ∷ 23254 ∷ 18705 ∷ 14949 ∷ 11916 ∷ 9548 ∷ 7620
    ∷ 6100 ∷ 4904 ∷ 3906 ∷ 3121 ∷ 2501 ∷ 1991 ∷ 1586 ∷ 1277 ∷ 1024 ∷ 820 ∷ 655 ∷ 526 ∷ 423 ∷ 335
    ∷ 272 ∷ 215 ∷ 172 ∷ 137 ∷ 110 ∷ 87 ∷ 70 ∷ 56 ∷ 45 ∷ 36 ∷ 29 ∷ 23 ∷ 18 ∷ 15 ∷ []

unfoldable pub prio_to_weight : ℕ → ℕ
prio_to_weight prio = get_or weights prio 1

pub record Thread : Type 0 where
  pub status : Status
  pub priority : ℕ
  pub vruntime : ℕ
  pub schedule_time : ℕ
  pub wake_reason : ℕ
  pub sleep_for : Option ℕ
  pub sleep_until : Option ℕ

-- `percpu`, with the threads and the flag `initialised` of the whole scheduler
pub record Percpu (T : Type 0) : Type 0 where
  pub threads : ℕ → Thread
  pub queue : T
  pub sleep_queue : T
  pub running_thread : Option ℕ
  pub idle_thread : ℕ
  pub reaper_thread : ℕ
  pub dead_threads : List ℕ
  pub preemption : ℕ
  pub in_scheduler : Bool
  pub initialised : Bool

-- A call returns, or stops the kernel.
pub data Outcome (T A : Type 0) : Type 0 where
  ok : A → Percpu T → Outcome T A
  panic : Outcome T A

infixl 5 ◌>>=◌
abbrev pub ◌>>=◌ : {T A B : Type 0} → Outcome T A → (A → Percpu T → Outcome T B) → Outcome T B
ok a s >>= f = f a s
panic >>= f = panic

-- `std::optional` is ordered with the empty one first.
abbrev pub order_of : Option ℕ → ℕ
order_of none = 0
order_of (some n) = suc n

abbrev pub is_ready : Status → Bool
is_ready ready = true
is_ready not_ready = false
is_ready running = false
is_ready sleeping = false
is_ready killed = false

abbrev pub is_sleeping : Status → Bool
is_sleeping sleeping = true
is_sleeping not_ready = false
is_sleeping ready = false
is_sleeping running = false
is_sleeping killed = false

abbrev pub is_running : Status → Bool
is_running running = true
is_running not_ready = false
is_running ready = false
is_running sleeping = false
is_running killed = false

abbrev pub is_killed : Status → Bool
is_killed killed = true
is_killed not_ready = false
is_killed ready = false
is_killed running = false
is_killed sleeping = false

abbrev pub is_none : Option ℕ → Bool
is_none none = true
is_none (some n) = false

abbrev pub is_thread : Option ℕ → ℕ → Bool
is_thread none t = false
is_thread (some u) t = u == t

abbrev pub or_idle : Option ℕ → ℕ → ℕ
or_idle none t = t
or_idle (some u) t = u

module _ {T : Type 0} where
  abbrev pub set_thread : ℕ → Thread → Percpu T → Percpu T
  set_thread t x s = record s { threads = λ u. if u == t then x else s.threads u }

  abbrev pub status_of : ℕ → Percpu T → Status
  status_of t s = (s.threads t).status

  abbrev pub by_vruntime : Percpu T → ℕ → ℕ
  by_vruntime s t = (s.threads t).vruntime

  abbrev pub by_sleep_until : Percpu T → ℕ → ℕ
  by_sleep_until s t = order_of (s.threads t).sleep_until

  -- `thread::prepare_sleep`, and the first part of `thread::wake_up`
  unfoldable pub prepare_sleep : ℕ → ℕ → Percpu T → Percpu T
  prepare_sleep t ms s =
      set_thread t
        (record (s.threads t) {
          status = sleeping;
          sleep_for = if ms == 0 then none else some (mul64 ms 1000000);
        })
        s

  unfoldable pub wake_up : ℕ → ℕ → Percpu T → Bool × Percpu T
  wake_up t reason s =
      if is_sleeping (status_of t s)
      then (true, set_thread t (record (s.threads t) { status = ready; wake_reason = reason }) s)
      else (false, s)

  unfoldable pub disable : Percpu T → Percpu T
  disable s =
      if not s.initialised || s.in_scheduler
      then s
      else record s { preemption = add64 s.preemption 1 }

  unfoldable pub enable : Percpu T → Percpu T
  enable s =
      if not s.initialised || s.in_scheduler
      then s
      else record s { preemption = if ltb 0 s.preemption then s.preemption - 1 else s.preemption }
