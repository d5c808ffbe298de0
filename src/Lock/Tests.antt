-- ===== src/Lock/Tests.antt =====
-- The theorems on the locks of kernel/interfaces/lib/spinlock.cppm at two threads and two processors.
use ilobilix.Base.{◌≡◌, true, false, refl, arith}
use ilobilix.Lock.{
  outside, waits, holds, System, set_thread, start, takes, enters, Reach, here, next, is_served,
  is_locked, take, unlocked,
}
use ilobilix.Lock.Exclusion.{has_lock, exclusion, gets_lock}
use ilobilix.Lock.Irq.{Cpu, IrqLock, begin_lock, unlock, unlock-begin_lock}

-- Thread 0 has the lock, and thread 1 waits with the ticket 1.
abbrev first : System
first = record { spinlock = take unlocked; thread = set_thread 0 (waits 0) (λ t. outside) }

abbrev second : System
second = record first { thread = set_thread 0 holds first.thread }

abbrev third : System
third = record { spinlock = take (take unlocked); thread = set_thread 1 (waits 1) second.thread }

run : Reach 2 start third
unfolding set_thread take is_served
run =
    next
      (next (next (here start) (takes start 0 (omega arith) refl))
        (enters first 0 0 (omega arith) refl refl))
      (takes second 1 (omega arith) refl)

third_waits : third.thread 1 ≡ waits 1
unfolding set_thread
third_waits = refl

first_has_lock : has_lock (third.thread 0) ≡ true
unfolding set_thread
first_has_lock = refl

exclusion_example : has_lock (third.thread 1) ≡ false
exclusion_example =
    exclusion 2 (omega arith) third 0 1 run (omega arith) (omega arith) (omega arith) first_has_lock

gets_lock_example :
    (gets_lock 2 (omega arith) third 1 1 run (omega arith) third_waits).0.thread 1 ≡ holds
gets_lock_example = (gets_lock 2 (omega arith) third 1 1 run (omega arith) third_waits).2

-- A processor with interrupts on, and one with interrupts off
abbrev on : Cpu
on = record { available = true; in_interrupt = false; irq_depth = 0; int_status = true }

abbrev off : Cpu
off = record on { int_status = false }

abbrev free_lock : IrqLock
free_lock = record { spinlock = unlocked; interrupts = false }

free_lock-is_locked : is_locked unlocked ≡ false
unfolding is_locked
free_lock-is_locked = refl

unlock-begin_lock_example :
    (unlock (begin_lock on free_lock).0 (begin_lock off (begin_lock on free_lock).1).1).1.int_status
    ≡ false
unlock-begin_lock_example =
    unlock-begin_lock on off free_lock (omega arith) free_lock-is_locked refl refl refl
