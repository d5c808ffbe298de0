-- ===== src/Lock/Irq.antt =====
-- kernel/interfaces/lib/spinlock.cppm, `spinlock_base<lock_type::irq>`, and `acquire_irq` and
-- `release_irq` of kernel/source/lib/lock.cpp: the lock that turns interrupts off.
use ilobilix.Base.{
  ℕ, ◌+◌, ◌^◌, ◌≡◌, ◌<◌, ◌==◌, Bool, true, false, not, if◌then◌else◌, refl, arith, add64, sub64,
  Bool-cases, inl, inr,
}
use ilobilix.Lock.{Spinlock, is_locked, take, serve}

-- What the two functions read and write of a processor: `cpu::local::available`, `in_interrupt`,
-- `irq_depth` and `arch::int_status`
pub record Cpu : Type 0 where
  pub available : Bool
  pub in_interrupt : Bool
  pub irq_depth : ℕ
  pub int_status : Bool

unfoldable pub acquire_irq : Cpu → Bool × Cpu
acquire_irq c =
    if not c.available
    then (c.int_status, c)
    else if c.in_interrupt
    then (c.int_status, c)
    else if c.irq_depth == 0
    then (c.int_status, record c { irq_depth = add64 c.irq_depth 1; int_status = false })
    else (c.int_status, record c { irq_depth = add64 c.irq_depth 1 })

unfoldable pub release_irq : Bool → Cpu → Cpu
release_irq old c =
    if not c.available
    then record c { int_status = old }
    else if c.in_interrupt
    then c
    else if c.irq_depth == 1
    then record c { irq_depth = sub64 c.irq_depth 1; int_status = old }
    else record c { irq_depth = sub64 c.irq_depth 1 }

pub record IrqLock : Type 0 where
  pub spinlock : Spinlock
  pub interrupts : Bool

-- `lock` up to the loop in which it waits for its turn
unfoldable pub begin_lock : Cpu → IrqLock → Cpu × IrqLock
unfolding acquire_irq take
begin_lock c l =
    ((acquire_irq c).1, record { spinlock = take l.spinlock; interrupts = (acquire_irq c).0 })

unfoldable pub unlock : Cpu → IrqLock → Bool × Cpu × IrqLock
unfolding release_irq is_locked serve
unlock c l =
    if is_locked l.spinlock
    then (
      true,
      release_irq l.interrupts c,
      record l { spinlock = serve l.spinlock.serving_ticket l.spinlock },
    )
    else (false, c, l)

restores :
    (a i s : Bool) (d : ℕ)
    → d + 1 < 2 ^ 64
    → let c : Cpu = record { available = a; in_interrupt = i; irq_depth = d; int_status = s } in
      release_irq (acquire_irq c).0 (acquire_irq c).1 ≡ c
unfolding acquire_irq release_irq
restores false i s d h = refl
restores true true s d h = refl
restores true false s d h =
    let back : sub64 (add64 d 1) 1 ≡ d = omega (arith, h) in
    elim (Bool-cases (d == 0)) [
      | inl z ↦ let first : (add64 d 1 == 1) ≡ true = ground (arith, z) in rw (z, first, back) refl
      | inr z ↦
          let nested : (add64 d 1 == 1) ≡ false = ground (arith, z, h) in rw (z, nested, back) refl
    ]

-- Below the largest depth, release_irq with what acquire_irq has returned puts the processor back to
-- where acquire_irq found it.
pub acquire-release :
    (c : Cpu) → c.irq_depth + 1 < 2 ^ 64 → release_irq (acquire_irq c).0 (acquire_irq c).1 ≡ c
acquire-release c h = restores c.available c.in_interrupt c.int_status c.irq_depth h

acquire_status : (c : Cpu) → (acquire_irq c).0 ≡ c.int_status
unfolding acquire_irq
acquire_status c = ground arith

taken_twice :
    (l : Spinlock) → l.next_ticket < 2 ^ 64 → is_locked l ≡ false → is_locked (take (take l)) ≡ true
unfolding is_locked take
taken_twice l low free = ground (arith, low, free)

-- A processor that is available, is not in an interrupt and has no lock that turns interrupts off
-- takes a free lock, whose next ticket is a word, while a second processor begins to wait for it: at
-- unlock the first gets the interrupts as the second had them.
pub unlock-begin_lock :
    (a b : Cpu) (l : IrqLock)
    → l.spinlock.next_ticket < 2 ^ 64
    → is_locked l.spinlock ≡ false
    → a.available ≡ true
    → a.in_interrupt ≡ false
    → a.irq_depth ≡ 0
    → (unlock (begin_lock a l).0 (begin_lock b (begin_lock a l).1).1).1.int_status ≡ b.int_status
unfolding unlock begin_lock
unlock-begin_lock a b l low free here outside top =
    rw (unlock, taken_twice l.spinlock low free, acquire_irq, here, outside, top, release_irq)
      (acquire_status b)
