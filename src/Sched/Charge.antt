-- ===== src/Sched/Charge.antt =====
-- kernel/source/system/scheduler.cpp: the statuses that `schedule` writes, and the running thread as it is put back.
use ilobilix.Base.{
  ℕ, ◌≡◌, ◌≢◌, ◌==◌, ◌||◌, Bool, true, false, Option, none, some, refl, ◌∙◌, subst, if◌then◌else◌,
  arith, Bool-cases, inl, inr, add64,
}
use ilobilix.Sched.Threads.{
  Status, ready, running, sleeping, Thread, Percpu, ok, is_ready, is_running, status_of, set_thread,
  by_vruntime,
}
use ilobilix.Sched.{vtime, charge, enqueue, put_back}
use ilobilix.Sched.Queue.{Ordered}

status_if :
    (b : Bool) (x y : Thread) → (if b then x else y).status ≡ (if b then x.status else y.status)
status_if true x y = refl
status_if false x y = refl

if_same : (b : Bool) (x y : Status) → (b ≡ true → x ≡ y) → (if b then x else y) ≡ y
if_same true x y h = h refl
if_same false x y h = refl

module _ {T : Type 0} where
  pub status_of-set_thread :
      (t u : ℕ) (x : Thread) (s : Percpu T)
      → status_of u (set_thread t x s) ≡ (if u == t then x.status else status_of u s)
  status_of-set_thread t u x s = status_if (u == t) x (s.threads u)

  pub status_kept :
      (t u : ℕ) (x : Thread) (s : Percpu T)
      → x.status ≡ status_of t s
      → status_of u (set_thread t x s) ≡ status_of u s
  status_kept t u x s h =
      status_of-set_thread t u x s
      ∙ if_same (u == t) x.status (status_of u s) (λ e.
        let same : t ≡ u = ground (arith, e) in subst (λ v. x.status ≡ status_of v s) same h)

module _ {T : Type 0} (q : Ordered T) where
  abbrev pub readied : ℕ → Percpu T → Percpu T
  readied t s = set_thread t (record (s.threads t) { status = ready }) s

  abbrev pub requeued : ℕ → Percpu T → Percpu T
  requeued t s = record (readied t s) { queue = q.insert (by_vruntime (readied t s)) t s.queue }

  pub charge_status : (now t u : ℕ) (s : Percpu T) → status_of u (charge q now t s) ≡ status_of u s
  unfolding charge
  charge_status now t u s =
      status_kept t u
        (record (s.threads t) {
          vruntime = add64 (s.threads t).vruntime (vtime q now (s.threads t));
        })
        s refl

  enqueue_running :
      (t : ℕ) (s : Percpu T) → status_of t s ≡ running → enqueue q t s ≡ ok tt (requeued t s)
  unfolding enqueue
  enqueue_running t s e =
      let goes : (is_running (status_of t s) || is_ready (status_of t s)) ≡ true = rw e refl in
      rw goes refl

  pub put_back_keeps :
      (now t : ℕ) (s : Percpu T)
      → status_of t s ≡ running
      → put_back q now t none s ≡ ok (some t) (charge q now t s)
  unfolding put_back
  put_back_keeps now t s e =
      let same : (t == t) ≡ true = ground arith in rw (put_back, e, same) refl

  pub put_back_sleeps :
      (now t : ℕ) (next : Option ℕ) (s : Percpu T)
      → status_of t s ≡ sleeping
      → put_back q now t next s ≡ ok next (charge q now t s)
  unfolding put_back
  put_back_sleeps now t none s e = rw (put_back, e) refl
  put_back_sleeps now t (some v) s e = elim (Bool-cases (v == t)) [
    | inl same ↦ rw (put_back, e, same) refl
    | inr other ↦ rw (put_back, e, other) refl
  ]

  pub put_back_requeues :
      (now t v : ℕ) (s : Percpu T)
      → status_of t s ≡ running
      → v ≢ t
      → put_back q now t (some v) s ≡ ok (some v) (requeued t (charge q now t s))
  unfolding put_back
  put_back_requeues now t v s e other =
      let unlike : (v == t) ≡ false = ground (arith, other) in
      let still : status_of t (charge q now t s) ≡ running = charge_status now t t s ∙ e in
      rw (put_back, e, unlike, enqueue_running t (charge q now t s) still) refl
