-- ===== src/Sched/Idle.antt =====
-- kernel/source/system/scheduler.cpp: `schedule` out of the idle thread.
use ilobilix.Base.{
  ℕ, ◌≡◌, ◌==◌, Bool, true, false, ◌&&◌, Option, some, refl, sym, ap, ◌∙◌, subst, arith, Bool-cases,
  inl, inr, ltb,
}
use ilobilix.Sched.Threads.{
  ready, running, Thread, Percpu, ok, is_thread, is_sleeping, is_none, is_killed, or_idle,
  status_of, set_thread,
}
use ilobilix.Sched.{pick, retire, wake_reaper, run_next, start_time, schedule}
use ilobilix.Sched.Queue.{Ordered}
use ilobilix.Sched.Pick.{Returns, bind-Returns, Picked, pick-Returns}
use ilobilix.Sched.Fit.{Fit, entered}

module _ {T : Type 0} (q : Ordered T) where
  started_kept :
      (t u : ℕ) (x : Thread) (s : Percpu T)
      → x.schedule_time ≡ (s.threads t).schedule_time
      → ((set_thread t x s).threads u).schedule_time ≡ (s.threads u).schedule_time
  started_kept t u x s h = elim (Bool-cases (u == t)) [
    | inl e ↦
        let same : t ≡ u = ground (arith, e) in
        rw e (subst (λ v. x.schedule_time ≡ (s.threads v).schedule_time) same h)
    | inr e ↦ rw e refl
  ]

  wake_reaper_started :
      (found_dead : Bool) (u : ℕ) (b : Percpu T)
      → ((wake_reaper q found_dead b).threads u).schedule_time ≡ (b.threads u).schedule_time
  unfolding wake_reaper
  wake_reaper_started found_dead u b =
      let x = b.threads b.reaper_thread in
      let test = found_dead && is_sleeping x.status && is_none x.sleep_until in
      elim (Bool-cases test) [
        | inl e ↦ rw e (started_kept b.reaper_thread u (record x { status = ready }) b refl)
        | inr e ↦ rw e refl
      ]

  run_next_started :
      (next u : ℕ) (d : Percpu T)
      → ((run_next q next d).threads u).schedule_time ≡ (d.threads u).schedule_time
  unfolding run_next
  run_next_started next u d = elim (Bool-cases (is_thread d.running_thread next)) [
    | inl e ↦ rw e refl
    | inr e ↦ rw e (started_kept next u (record (d.threads next) { status = running }) d refl)
  ]

  retire_idle :
      (now : ℕ) (next : Option ℕ) (found_dead : Bool) (c : Option ℕ) (a : Percpu T)
      → c ≡ some a.idle_thread
      → status_of a.idle_thread a ≡ running
      → retire q now next found_dead c a ≡ ok (next, found_dead) a
  unfolding retire
  retire_idle now next found_dead c a run e =
      let same : (a.idle_thread == a.idle_thread) ≡ true = ground arith in
      let alive : is_killed (status_of a.idle_thread a) ≡ false = rw e refl in
      rw (run, alive, same) refl

  -- From a well formed processor that runs its idle thread, with preemption on, `schedule` returns and leaves the
  -- start time of every thread, also of the one that it runs next.
  pub schedule_idle :
      (now later : ℕ) (s : Percpu T)
      → Fit q s
      → s.preemption ≡ 0
      → s.running_thread ≡ some s.idle_thread
      → Returns
          (λ r s'. (u : ℕ) → (s'.threads u).schedule_time ≡ (s.threads u).schedule_time)
          (schedule q now later s)
  unfolding schedule start_time
  schedule_idle now later s f free idle =
      let off : ltb 0 s.preemption ≡ false = ground (arith, free) in
      let same : (s.idle_thread == s.idle_thread) ≡ true = ground arith in
      let was_idle : is_thread s.running_thread s.idle_thread ≡ true =
        subst (λ o. is_thread o s.idle_thread ≡ true) (sym idle) same in
      let inside = record s { in_scheduler = true } in
      let fit = entered q s f in
      rw (schedule, off, was_idle)
        (bind-Returns (λ p a. Picked q p inside a) _ (pick q (q.elems s.queue) inside) _
          (pick-Returns q (q.elems s.queue) inside (λ u. omega arith) fit.waiting)
          (λ p a picked.
            let run : a.running_thread ≡ some a.idle_thread =
              picked.running_thread ∙ idle ∙ ap some (sym picked.idle_thread) in
            let status : status_of a.idle_thread a ≡ running =
              subst (λ th. (th a.idle_thread).status ≡ running) (sym picked.threads)
                (subst (λ v. status_of v s ≡ running) (sym picked.idle_thread)
                  (f.idle_runs idle)) in
            rw (retire_idle now p.0 p.1 a.running_thread a run status) (λ u.
              run_next_started (or_idle p.0 s.idle_thread) u (wake_reaper q p.1 a)
              ∙ wake_reaper_started p.1 u a
              ∙ ap (λ th. (th u).schedule_time) picked.threads)))
