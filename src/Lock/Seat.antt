-- ===== src/Lock/Seat.antt =====
-- kernel/interfaces/lib/spinlock.cppm: what a thread in the line for a ticket lock knows.
use ilobilix.Base.{ℕ, suc, ◌+◌, ◌-◌, ◌%◌, ◌^◌, ◌≡◌, ◌≤◌, ◌<◌, true, refl, arith, add64}
use ilobilix.Lock.{Thread, outside, waits, holds, checks, finds, releases}
use ilobilix.Lock.Busy.{is_busy}

-- What a thread at a place of the line, of which `n` are taken, knows of the ticket that is served
abbrev pub Seat : ℕ → ℕ → ℕ → Thread → Type 0
Seat served rank n outside = Unit {0}
Seat served rank n (waits ticket) = (rank < n) × (ticket ≡ (served + rank) % 2 ^ 64)
Seat served rank n holds = (rank < n) × (rank ≡ 0)
Seat served rank n (checks current) = (rank < n) × (rank ≡ 0) × (current ≡ served)
Seat served rank n finds = (rank < n) × (rank ≡ 0)
Seat served rank n (releases current) = (rank < n) × (rank ≡ 0) × (current ≡ served)

pub Seat-grows :
    (served rank n : ℕ) (x : Thread) → Seat served rank n x → Seat served rank (suc n) x
Seat-grows served rank n outside h = tt
Seat-grows served rank n (waits k) h = (omega (arith, h.0), h.1)
Seat-grows served rank n holds h = (omega (arith, h.0), h.1)
Seat-grows served rank n (checks c) h = (omega (arith, h.0), h.1, h.2)
Seat-grows served rank n finds h = (omega (arith, h.0), h.1)
Seat-grows served rank n (releases c) h = (omega (arith, h.0), h.1, h.2)

pub Seat-rank :
    (served rank n : ℕ) (x : Thread) → Seat served rank n x → is_busy x ≡ true → rank < n
Seat-rank served rank n outside h b = cc
Seat-rank served rank n (waits k) h b = h.0
Seat-rank served rank n holds h b = h.0
Seat-rank served rank n (checks c) h b = h.0
Seat-rank served rank n finds h b = h.0
Seat-rank served rank n (releases c) h b = h.0

-- The first in the line has gone.
pub Seat-advances :
    (served rank n : ℕ) (x : Thread)
    → Seat served rank (suc n) x
    → (is_busy x ≡ true → 1 ≤ rank)
    → Seat (add64 served 1) (rank - 1) n x
Seat-advances served rank n outside h first = tt
Seat-advances served rank n (waits k) h first =
    (omega (arith, h, first refl), omega (arith, h, first refl))
Seat-advances served rank n holds h first = absurd (omega (arith, h, first refl))
Seat-advances served rank n (checks c) h first = absurd (omega (arith, h.1, first refl))
Seat-advances served rank n finds h first = absurd (omega (arith, h, first refl))
Seat-advances served rank n (releases c) h first = absurd (omega (arith, h.1, first refl))
