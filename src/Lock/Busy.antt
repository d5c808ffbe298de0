-- ===== src/Lock/Busy.antt =====
-- kernel/interfaces/lib/spinlock.cppm: how many threads have a ticket.
use ilobilix.Base.{
  ℕ, zero, suc, ◌+◌, ◌≡◌, ◌≤◌, ◌<◌, ◌==◌, Bool, true, false, if◌then◌else◌, refl, arith, Bool-cases,
  inl, inr,
}
use ilobilix.Lock.{Thread, outside, waits, holds, checks, finds, releases, set_thread}

abbrev pub is_busy : Thread → Bool
is_busy outside = false
is_busy (waits k) = true
is_busy holds = true
is_busy (checks c) = true
is_busy finds = true
is_busy (releases c) = true

unfoldable pub busy : ℕ → (ℕ → Thread) → ℕ
busy zero f = 0
busy (suc m) f = (if is_busy (f m) then 1 else 0) + busy m f

pub busy_most : (m : ℕ) (f : ℕ → Thread) → busy m f ≤ m
unfolding busy
busy_most zero f = omega arith
busy_most (suc m) f = ground (arith, busy_most m f)

pub busy_none : (m : ℕ) → busy m (λ t. outside) ≡ 0
unfolding busy
busy_none zero = refl
busy_none (suc m) = omega (arith, busy_none m)

pub busy_beyond :
    (m t : ℕ) (x : Thread) (f : ℕ → Thread) → m ≤ t → busy m (set_thread t x f) ≡ busy m f
unfolding busy set_thread
busy_beyond zero t x f h = refl
busy_beyond (suc m) t x f h =
    let other : (m == t) ≡ false = ground (arith, h) in
    rw (other, busy_beyond m t x f (omega (arith, h))) refl

-- One thread changes.
pub busy-set_thread :
    (m t : ℕ) (x : Thread) (f : ℕ → Thread)
    → t < m
    → busy m (set_thread t x f) + (if is_busy (f t) then 1 else 0)
      ≡ busy m f + (if is_busy x then 1 else 0)
unfolding busy set_thread
busy-set_thread zero t x f h = absurd (omega arith)
busy-set_thread (suc m) t x f h = elim (Bool-cases (m == t)) [
  | inl e ↦
      let same : m ≡ t = ground (arith, e) in
      rw (e, busy_beyond m t x f (omega (arith, same))) (rw same (omega arith))
  | inr e ↦ let rest = busy-set_thread m t x f (ground (arith, e, h)) in rw e (omega (arith, rest))
]

-- Where a thread is busy, the count is not 0.
pub busy_some : (m t : ℕ) (f : ℕ → Thread) → t < m → is_busy (f t) ≡ true → 1 ≤ busy m f
unfolding busy
busy_some zero t f h b = absurd (omega arith)
busy_some (suc m) t f h b = elim (Bool-cases (m == t)) [
  | inl e ↦ let same : m ≡ t = ground (arith, e) in rw same (rw b (omega arith))
  | inr e ↦ let rest = busy_some m t f (ground (arith, e, h)) b in omega (arith, rest)
]
