-- ===== src/Sched/Turns.antt =====
-- kernel/source/system/scheduler.cpp: `schedule` keeps the threads of a processor.
use ilobilix.Base.{
  ℕ, ◌+◌, ◌≡◌, ◌≢◌, ◌≤◌, Bool, true, false, Option, some, sym, ap, ◌∙◌, subst, arith, ltb,
}
use ilobilix.Sched.Threads.{running, Percpu, is_thread, or_idle, status_of}
use ilobilix.Sched.{pick, retire, wake_reaper, run_next, start_time, schedule}
use ilobilix.Sched.Queue.{Ordered}
use ilobilix.Sched.Pick.{
  waits, Returns, bind-Returns, weaken, queued, held, here, Picked, pick-Returns,
}
use ilobilix.Sched.Cases.{runs, leaves, Retired}
use ilobilix.Sched.Retire.{retire-Returns}
use ilobilix.Sched.Schedule.{wake_reaper-Woken, run_next-Ran, start_time-Ran}
use ilobilix.Sched.Fit.{Fit, Scheduled, entered, apart, scheduled}

module _ {T : Type 0} (q : Ordered T) where
  -- What the pick leaves for the running thread
  module _ (p : Option ℕ × Bool) (s a : Percpu T) (f : Fit q s) (picked : Picked q p s a) where
    waiting_after : (u : ℕ) → 1 ≤ queued q u a → waits (status_of u a) ≡ true
    waiting_after u h =
        let before : 1 ≤ queued q u s = omega (arith, h, picked.fewer u) in
        subst (λ th. waits (th u).status ≡ true) (sym picked.threads) (f.waiting u before)

    going_after :
        (t : ℕ)
        → a.running_thread ≡ some t
        → (runs (status_of t a) ≡ true) × (is_thread p.0 t ≡ false)
    going_after t h =
        let run : s.running_thread ≡ some t = sym picked.running_thread ∙ h in
        (
          subst (λ th. runs (th t).status ≡ true) (sym picked.threads) (f.going t run),
          apart q p.0 t s f run (λ v is_v. (picked.found v is_v).1),
        )

    idle_after : a.running_thread ≡ some a.idle_thread → status_of a.idle_thread a ≡ running
    idle_after h =
        let run : s.running_thread ≡ some s.idle_thread =
          sym picked.running_thread ∙ h ∙ ap some picked.idle_thread in
        subst (λ th. (th a.idle_thread).status ≡ running) (sym picked.threads)
          (subst (λ v. status_of v s ≡ running) (sym picked.idle_thread) (f.idle_runs run))

  -- What is left to do once the running thread has been seen to
  module _ (n p : Option ℕ × Bool) (s a b : Percpu T)
      (fit : Fit q (record s { in_scheduler = true }))
      (picked : Picked q p (record s { in_scheduler = true }) a)
      (left : Retired q a.running_thread p.0 n.0 a b) where
    abbrev chosen : ℕ
    chosen = or_idle n.0 s.idle_thread

    abbrev woken : Percpu T
    woken = wake_reaper q n.1 b

    stays : is_thread woken.running_thread chosen ≡ true → status_of chosen woken ≡ running
    stays h =
        let w = wake_reaper-Woken q n.1 b in
        let run : woken.running_thread ≡ a.running_thread =
          w.running_thread ∙ left.running_thread in
        let before : is_thread a.running_thread chosen ≡ true =
          subst (λ o. is_thread o chosen ≡ true) run h in
        let by_idle : is_thread a.running_thread chosen ≡ true → status_of chosen b ≡ running =
          subst
            (λ v.
              is_thread a.running_thread (or_idle n.0 v) ≡ true
              → status_of (or_idle n.0 v) b ≡ running)
            picked.idle_thread left.stays in
        w.runs_still chosen (by_idle before)

    last :
        (was_idle : Bool) (later : ℕ)
        → Scheduled q s (record (start_time q was_idle chosen later (run_next q chosen woken)) {
          in_scheduler = false;
        })
    last was_idle later =
        let ran =
          start_time-Ran q was_idle chosen later woken (run_next q chosen woken)
            (run_next-Ran q chosen woken stays) in
        let all =
          scheduled q a.running_thread n.0 p (record s { in_scheduler = true }) a b woken
            (record (start_time q was_idle chosen later (run_next q chosen woken)) {
              in_scheduler = false;
            })
            fit (sym picked.running_thread) picked left (wake_reaper-Woken q n.1 b)
            (record {
              queue = ran.queue;
              dead_threads = ran.dead_threads;
              idle_thread = ran.idle_thread;
              running_thread = ran.running_thread;
              status = ran.status;
              others = ran.others;
            }) in
        record { fit = all.fit; turn = all.turn; kept = all.kept }

  schedule-Returns :
      (now later : ℕ) (s : Percpu T)
      → Fit q s
      → s.preemption ≡ 0
      → Returns (λ r s'. Scheduled q s s') (schedule q now later s)
  unfolding schedule
  schedule-Returns now later s f free =
      let off : ltb 0 s.preemption ≡ false = ground (arith, free) in
      let inside = record s { in_scheduler = true } in
      let fit = entered q s f in
      rw (schedule, off)
        (bind-Returns (λ p a. Picked q p inside a) (λ r s'. Scheduled q s s')
          (pick q (q.elems s.queue) inside) _
          (pick-Returns q (q.elems s.queue) inside (λ u. omega arith) fit.waiting)
          (λ p a picked.
            bind-Returns (λ (n : Option ℕ × Bool) b. Retired q a.running_thread p.0 n.0 a b)
              (λ r s'. Scheduled q s s') (retire q now p.0 p.1 a.running_thread a) _
              (retire-Returns q now p.0 p.1 a.running_thread a (waiting_after p inside a fit picked)
                (going_after p inside a fit picked) (idle_after p inside a fit picked))
              (λ n b left.
                last n p s a b fit picked left (is_thread s.running_thread s.idle_thread) later)))

  -- From a well formed processor with preemption on, `schedule` returns and never panics, and what it leaves is
  -- again well formed and runs a thread whose status is running.
  pub schedule-Fit :
      (now later : ℕ) (s : Percpu T)
      → Fit q s
      → s.preemption ≡ 0
      → Returns
          (λ r s'. Fit q s' × ((t : ℕ) × (s'.running_thread ≡ some t) × (status_of t s' ≡ running)))
          (schedule q now later s)
  schedule-Fit now later s f free =
      weaken (λ r s'. Scheduled q s s') _ (schedule q now later s) (λ r s' h. (h.fit, h.turn))
        (schedule-Returns now later s f free)

  -- From a well formed processor with preemption on, `schedule` returns, loses no thread and doubles none: each
  -- but the idle one has as many places in the run queue, among the dead threads and as the running thread as
  -- before, one less if it was running and is asleep.
  pub schedule_keeps :
      (now later : ℕ) (s : Percpu T)
      → Fit q s
      → s.preemption ≡ 0
      → Returns
          (λ r s'.
            (u : ℕ)
            → u ≢ s.idle_thread
            → held q u s' + here q s'.running_thread u + leaves q s.running_thread u s
              ≡ held q u s + here q s.running_thread u)
          (schedule q now later s)
  schedule_keeps now later s f free =
      weaken (λ r s'. Scheduled q s s') _ (schedule q now later s) (λ r s' h. h.kept)
        (schedule-Returns now later s f free)
