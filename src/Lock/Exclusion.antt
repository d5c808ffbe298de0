-- ===== src/Lock/Exclusion.antt =====
-- kernel/interfaces/lib/spinlock.cppm: mutual exclusion, and a way for each waiting thread to get the
-- lock.
use ilobilix.Base.{
  ℕ, zero, suc, ◌+◌, ◌%◌, ◌^◌, ◌≡◌, ◌≢◌, ◌<◌, ◌==◌, Bool, true, false, refl, sym, ap, ◌∙◌, arith,
  Bool-cases, inl, inr, subst, add64,
}
use ilobilix.Lock.{
  Thread, outside, waits, holds, checks, finds, releases, System, set_thread, start, Step, enters,
  loads, compares, reloads, stores, Reach, here, next, is_served, serve,
}
use ilobilix.Lock.Busy.{is_busy, busy_most, busy_some}
use ilobilix.Lock.Seat.{Seat}
use ilobilix.Lock.Ticket.{
  InLine, start-InLine, Reach-InLine, enters-InLine, loads-InLine, compares-InLine, reloads-InLine,
  stores-InLine,
}

-- A thread that has the lock, from the end of the loop of `lock` to the store of `unlock`
abbrev pub has_lock : Thread → Bool
has_lock outside = false
has_lock (waits k) = false
has_lock holds = true
has_lock (checks c) = true
has_lock finds = true
has_lock (releases c) = true

first_place :
    (served rank n : ℕ) (x : Thread)
    → Seat served rank n x
    → has_lock x ≡ true
    → (rank ≡ 0) × (is_busy x ≡ true)
first_place served rank n outside h b = cc
first_place served rank n (waits k) h b = cc
first_place served rank n holds h b = (h.1, refl)
first_place served rank n (checks c) h b = (h.1, refl)
first_place served rank n finds h b = (h.1, refl)
first_place served rank n (releases c) h b = (h.1, refl)

reach_more : (m : ℕ) (s u v : System) → Reach m s u → Reach m u v → Reach m s v
reach_more m s u v r (here w) = r
reach_more m s u v r (next x y) = next (reach_more m s _ _ r x) y

-- The thread has left the lock, and no other one has moved.
record Left (m : ℕ) (s : System) (u : ℕ) : Type 0 where
  after : System
  run : Reach m s after
  line : InLine m after
  served : after.spinlock.serving_ticket ≡ add64 s.spinlock.serving_ticket 1
  others : (v : ℕ) → v ≢ u → after.thread v ≡ s.thread v

module _ (m : ℕ) (few : m < 2 ^ 64) where
  alone :
      (s : System) (t u : ℕ)
      → Reach m start s
      → t < m
      → u < m
      → has_lock (s.thread t) ≡ true
      → has_lock (s.thread u) ≡ true
      → t ≡ u
  alone s t u r h k a b =
      let l = Reach-InLine m few start s r (start-InLine m few) in
      let x = first_place _ (l.rank t) _ (s.thread t) (l.seat t h) a in
      let y = first_place _ (l.rank u) _ (s.thread u) (l.seat u k) b in
      sym (l.found t h x.1) ∙ ap (λ (i : ℕ). l.at i) (x.0 ∙ sym y.0) ∙ l.found u k y.1

  -- With fewer than 2 ^ 64 threads, in every state that the steps reach, at most one thread has the
  -- lock.
  pub exclusion :
      (s : System) (t u : ℕ)
      → Reach m start s
      → t < m
      → u < m
      → t ≢ u
      → has_lock (s.thread t) ≡ true
      → has_lock (s.thread u) ≡ false
  exclusion s t u r h k n a = elim (Bool-cases (has_lock (s.thread u))) [
    | inr b ↦ b
    | inl b ↦ absurd (n (alone s t u r h k a b))
  ]

  set_other : (v u : ℕ) (x : Thread) (f : ℕ → Thread) → v ≢ u → set_thread u x f v ≡ f v
  unfolding set_thread
  set_other v u x f n = let other : (v == u) ≡ false = ground (arith, n) in rw other refl

  set_here : (u : ℕ) (x : Thread) (f : ℕ → Thread) → set_thread u x f u ≡ x
  unfolding set_thread
  set_here u x f = let me : (u == u) ≡ true = ground arith in rw me refl

  leave_releases :
      (s : System) (u c : ℕ) → InLine m s → u < m → s.thread u ≡ releases c → Left m s u
  unfolding serve
  leave_releases s u c l h e =
      let seat = (rw e at (l.seat u h)) in
      record {
        after = record { spinlock = serve c s.spinlock; thread = set_thread u outside s.thread };
        run = next (here s) (stores s u c h e);
        line = stores-InLine m few s u c l h e;
        served = ap (λ (i : ℕ). add64 i 1) seat.2;
        others = λ v n. set_other v u outside s.thread n;
      }

  -- A thread that goes on has still to leave.
  goes_on :
      (s : System) (u : ℕ) (x : Thread)
      → Step m s (record s { thread = set_thread u x s.thread })
      → Left m (record s { thread = set_thread u x s.thread }) u
      → Left m s u
  goes_on s u x step r = record {
    after = r.after;
    run = reach_more m s _ r.after (next (here s) step) r.run;
    line = r.line;
    served = r.served;
    others = λ v n. r.others v n ∙ set_other v u x s.thread n;
  }

  held_locked :
      (s : System) (u c : ℕ)
      → InLine m s
      → u < m
      → s.thread u ≡ checks c
      → (c == s.spinlock.next_ticket) ≡ false
  held_locked s u c l h e =
      let some_one = busy_some m u s.thread h (rw e refl) in
      let seat = (rw e at (l.seat u h)) in
      ground (arith, l.fresh, l.bound, some_one, busy_most m s.thread, few, seat.2)

  leave_finds : (s : System) (u : ℕ) → InLine m s → u < m → s.thread u ≡ finds → Left m s u
  leave_finds s u l h e =
      let c = s.spinlock.serving_ticket in
      goes_on s u (releases c) (reloads s u h e)
        (leave_releases _ u c (reloads-InLine m few s u l h e) h (set_here u (releases c) s.thread))

  leave_checks : (s : System) (u c : ℕ) → InLine m s → u < m → s.thread u ≡ checks c → Left m s u
  leave_checks s u c l h e =
      goes_on s u finds (compares s u c h e (held_locked s u c l h e))
        (leave_finds _ u (compares-InLine m few s u c l h e) h (set_here u finds s.thread))

  leave_holds : (s : System) (u : ℕ) → InLine m s → u < m → s.thread u ≡ holds → Left m s u
  leave_holds s u l h e =
      let c = s.spinlock.serving_ticket in
      goes_on s u (checks c) (loads s u h e)
        (leave_checks _ u c (loads-InLine m few s u l h e) h (set_here u (checks c) s.thread))

  leave_waits :
      (s : System) (u k : ℕ)
      → InLine m s
      → u < m
      → s.thread u ≡ waits k
      → is_served k s.spinlock ≡ true
      → Left m s u
  leave_waits s u k l h e y =
      goes_on s u holds (enters s u k h e y)
        (leave_holds _ u (enters-InLine m few s u k l h e y) h (set_here u holds s.thread))

  leave :
      (s : System) (u : ℕ) (x : Thread) (l : InLine m s)
      → u < m
      → s.thread u ≡ x
      → is_busy x ≡ true
      → l.rank u ≡ 0
      → Left m s u
  unfolding is_served
  leave s u outside l h e b z = cc
  leave s u (waits k) l h e b z =
      let seat = (rw e at (l.seat u h)) in
      leave_waits s u k l h e (ground (arith, seat, z, l.bound))
  leave s u holds l h e b z = leave_holds s u l h e
  leave s u (checks c) l h e b z = leave_checks s u c l h e
  leave s u finds l h e b z = leave_finds s u l h e
  leave s u (releases c) l h e b z = leave_releases s u c l h e

  reach_lock :
      (d : ℕ) (s : System) (t k : ℕ)
      → InLine m s
      → t < m
      → s.thread t ≡ waits k
      → d < 2 ^ 64
      → k ≡ (s.spinlock.serving_ticket + d) % 2 ^ 64
      → (s' : System) × Reach m s s' × (s'.thread t ≡ holds)
  unfolding is_served
  reach_lock zero s t k l h e low w = (
    record s { thread = set_thread t holds s.thread },
    next (here s) (enters s t k h e (ground (arith, w, l.bound))),
    set_here t holds s.thread,
  )
  reach_lock (suc d) s t k l h e low w =
      let seat = (rw e at (l.seat t h)) in
      let head = l.seated 0 (busy_some m t s.thread h (rw e refl)) in
      let behind : l.rank t ≡ suc d = omega (arith, seat, w, low, busy_most m s.thread, few) in
      let other : t ≢ l.at 0 =
        λ same. absurd (omega (arith, behind, subst (λ (v : ℕ). l.rank v ≡ 0) (sym same) head.2)) in
      let r = leave s (l.at 0) (s.thread (l.at 0)) l head.0 refl head.1 head.2 in
      let rest =
        reach_lock d r.after t k r.line h (r.others t other ∙ e) (omega (arith, low))
          (omega (arith, w, r.served, l.bound)) in
      (rest.0, reach_more m s r.after rest.0 r.run rest.1, rest.2)

  -- With fewer than 2 ^ 64 threads, from every state that the steps reach and for every thread that
  -- waits in it, there is a run in which that thread gets the lock.
  pub gets_lock :
      (s : System) (t ticket : ℕ)
      → Reach m start s
      → t < m
      → s.thread t ≡ waits ticket
      → (s' : System) × Reach m s s' × (s'.thread t ≡ holds)
  gets_lock s t k r h e =
      let l = Reach-InLine m few start s r (start-InLine m few) in
      let seat = (rw e at (l.seat t h)) in
      reach_lock (l.rank t) s t k l h e (omega (arith, seat, busy_most m s.thread, few)) seat.1
