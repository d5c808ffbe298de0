-- ===== src/Sched/Fit.antt =====
-- kernel/source/system/scheduler.cpp: what holds of a processor's threads between two calls of `schedule`, and the steps of one.
use ilobilix.Base.{
  ℕ, ◌+◌, ◌≡◌, ◌≢◌, ◌≤◌, ◌==◌, Bool, true, false, ◌&&◌, Option, none, some, refl, sym, ap, ap₂, ◌∙◌,
  subst, if◌then◌else◌, arith, Bool-cases, inl, inr,
}
use ilobilix.Sched.Threads.{running, Percpu, is_thread, is_sleeping, or_idle, status_of}
use ilobilix.Sched.Queue.{Ordered, count}
use ilobilix.Sched.Pick.{waits, queued, held, here, Picked}
use ilobilix.Sched.Cases.{runs, leaves, Retired}
use ilobilix.Sched.Schedule.{Woken, Ran}

module _ {T : Type 0} (q : Ordered T) where
  -- The threads of the run queue are ready, killed or not ready, each thread has at most one place, the running one is
  -- running, sleeping or killed, and the idle thread stands in no queue and is running when it is the running one.
  pub record Fit (s : Percpu T) : Type 0 where
    pub waiting : (u : ℕ) → 1 ≤ queued q u s → waits (status_of u s) ≡ true
    pub once : (u : ℕ) → held q u s + here q s.running_thread u ≤ 1
    pub going : (t : ℕ) → s.running_thread ≡ some t → runs (status_of t s) ≡ true
    pub idle_free : held q s.idle_thread s ≡ 0
    pub idle_runs : s.running_thread ≡ some s.idle_thread → status_of s.idle_thread s ≡ running

  pub entered : (s : Percpu T) → Fit s → Fit (record s { in_scheduler = true })
  entered s f = record {
    waiting = f.waiting;
    once = f.once;
    going = f.going;
    idle_free = f.idle_free;
    idle_runs = f.idle_runs;
  }

  -- What a call of `schedule` leaves
  pub record Scheduled (s s' : Percpu T) : Type 0 where
    pub fit : Fit s'
    pub turn : (t : ℕ) × (s'.running_thread ≡ some t) × (status_of t s' ≡ running)
    pub kept :
        (u : ℕ)
        → u ≢ s.idle_thread
        → held q u s' + here q s'.running_thread u + leaves q s.running_thread u s
          ≡ held q u s + here q s.running_thread u

  is_thread-some : (o : Option ℕ) (t : ℕ) → o ≡ some t → is_thread o t ≡ true
  is_thread-some none t h = absurd (ground (arith, h))
  is_thread-some (some v) t h = ground (arith, h)

  -- The thread that was found is not the one that runs.
  pub apart :
      (n : Option ℕ) (t : ℕ) (s : Percpu T)
      → Fit s
      → s.running_thread ≡ some t
      → ((v : ℕ) → n ≡ some v → 1 ≤ queued q v s)
      → is_thread n t ≡ false
  apart none t s f r found = refl
  apart (some v) t s f r found = elim (Bool-cases (v == t)) [
    | inl e ↦
        let same : v ≡ t = ground (arith, e) in
        let in_queue : 1 ≤ queued q t s = subst (λ x. 1 ≤ queued q x s) same (found v refl) in
        absurd (ground (arith, in_queue, f.once t, is_thread-some s.running_thread t r))
    | inr e ↦ e
  ]

  here-or_idle :
      (n : Option ℕ) (idle u : ℕ) → u ≢ idle → here q (some (or_idle n idle)) u ≡ here q n u
  here-or_idle none idle u h = ground (arith, h)
  here-or_idle (some v) idle u h = refl

  -- The steps of one call: the pick, the running thread, the reaper, the next thread.
  module _ (c n : Option ℕ) (p : Option ℕ × Bool) (s a b d e : Percpu T) (f : Fit s)
      (run : s.running_thread ≡ c) (picked : Picked q p s a) (left : Retired q c p.0 n a b)
      (woken : Woken q b d) (ran : Ran q (or_idle n s.idle_thread) d e) where
    abbrev next : ℕ
    next = or_idle n s.idle_thread

    queue_same : e.queue ≡ b.queue
    queue_same = ran.queue ∙ woken.queue

    held_same : (u : ℕ) → held q u e ≡ held q u b
    held_same u =
        ap₂ (λ x y. count u (q.elems x) + count u y) queue_same
          (ran.dead_threads ∙ woken.dead_threads)

    places :
        (u : ℕ)
        → u ≢ s.idle_thread
        → held q u e + here q (some next) u + leaves q c u s ≡ held q u s + here q c u
    places u real =
        let leaves_same : leaves q c u a ≡ leaves q c u s =
          ap (λ th. if is_thread c u && is_sleeping (th u).status then 1 else 0) picked.threads in
        let real_a : u ≢ a.idle_thread = subst (λ v. u ≢ v) (sym picked.idle_thread) real in
        omega (
          arith,
          left.sum u real_a,
          picked.sum u,
          held_same u,
          leaves_same,
          here-or_idle n s.idle_thread u real,
        )

    idle_held : held q s.idle_thread e ≡ 0
    idle_held =
        let idle : held q s.idle_thread b ≡ held q s.idle_thread a =
          subst (λ v. held q v b ≡ held q v a) picked.idle_thread left.idle in
        omega (arith, held_same s.idle_thread, idle, picked.sum s.idle_thread, f.idle_free)

    at_most_once : (u : ℕ) → held q u e + here q (some next) u ≤ 1
    at_most_once u = elim (Bool-cases (u == s.idle_thread)) [
      | inl is_idle ↦
          let same : s.idle_thread ≡ u = ground (arith, is_idle) in
          let free : held q u e ≡ 0 = subst (λ v. held q v e ≡ 0) same idle_held in
          ground (arith, free)
      | inr is_other ↦
          let real : u ≢ s.idle_thread = ground (arith, is_other) in
          let before : held q u s + here q c u ≤ 1 =
            subst (λ o. held q u s + here q o u ≤ 1) run (f.once u) in
          omega (arith, places u real, before)
    ]

    waiting_still : (u : ℕ) → 1 ≤ queued q u e → waits (status_of u e) ≡ true
    waiting_still u h =
        let other : u ≢ next = ground (arith, h, at_most_once u) in
        let before : 1 ≤ queued q u b = subst (λ x. 1 ≤ count u (q.elems x)) queue_same h in
        ap waits (ran.others u other) ∙ woken.waits_still u (left.waiting u before)

    pub scheduled : Scheduled s e
    scheduled =
        let idle_same : e.idle_thread ≡ s.idle_thread =
          ran.idle_thread ∙ woken.idle_thread ∙ left.idle_thread ∙ picked.idle_thread in
        let is_next : (t : ℕ) → e.running_thread ≡ some t → next ≡ t =
          λ t h. ground (arith, sym ran.running_thread ∙ h) in
        let goes : (t : ℕ) → e.running_thread ≡ some t → status_of t e ≡ running =
          λ t h. subst (λ v. status_of v e ≡ running) (is_next t h) ran.status in
        record {
          fit = record {
            waiting = waiting_still;
            once = λ u.
                subst (λ o. held q u e + here q o u ≤ 1) (sym ran.running_thread) (at_most_once u);
            going = λ t h. ap runs (goes t h);
            idle_free = subst (λ v. held q v e ≡ 0) (sym idle_same) idle_held;
            idle_runs = λ h. goes e.idle_thread h;
          };
          turn = (next, ran.running_thread, ran.status);
          kept = λ u real.
              subst
                (λ o.
                  held q u e + here q o u + leaves q s.running_thread u s
                  ≡ held q u s + here q s.running_thread u)
                (sym ran.running_thread)
                (subst
                  (λ o.
                    held q u e + here q (some next) u + leaves q o u s ≡ held q u s + here q o u)
                  (sym run) (places u real));
        }
