-- ===== src/Sched/Cases.antt =====
-- kernel/source/system/scheduler.cpp: the ways in which `schedule` leaves the thread that was running.
use ilobilix.Base.{
  ℕ, ◌+◌, ◌≡◌, ◌≢◌, ◌≤◌, ◌==◌, ◌⊎◌, ◌&&◌, Bool, true, false, [], ◌∷◌, ◌++◌, Option, none, some,
  refl, sym, ap, ◌∙◌, subst, if◌then◌else◌, arith, Bool-cases, inl, inr,
}
use ilobilix.Sched.Threads.{
  Status, not_ready, ready, running, sleeping, killed, Percpu, is_thread, is_sleeping, or_idle,
  status_of, by_vruntime,
}
use ilobilix.Sched.{charge}
use ilobilix.Sched.Queue.{Ordered, count, count-append, count-insert_by}
use ilobilix.Sched.Pick.{waits, queued, held, here}
use ilobilix.Sched.Charge.{status_of-set_thread, charge_status, readied, requeued}

-- A thread that the processor runs
abbrev pub runs : Status → Bool
runs running = true
runs sleeping = true
runs killed = true
runs ready = false
runs not_ready = false

pub Status-runs : (x : Status) → runs x ≡ true → (x ≡ running) ⊎ ((x ≡ sleeping) ⊎ (x ≡ killed))
Status-runs running h = inl refl
Status-runs sleeping h = inr (inl refl)
Status-runs killed h = inr (inr refl)
Status-runs ready h = absurd (ground (arith, h))
Status-runs not_ready h = absurd (ground (arith, h))

and_true : (b : Bool) → (b && true) ≡ b
and_true true = refl
and_true false = refl

and_false : (b : Bool) → (b && false) ≡ false
and_false true = refl
and_false false = refl

-- The next thread is another one.
pub unlike :
    (t idle : ℕ) (next : Option ℕ)
    → is_thread next t ≡ false
    → t ≢ idle
    → is_thread (some t) (or_idle next idle) ≡ false
unlike t idle none apart other = ground (arith, other)
unlike t idle (some v) apart other = ground (arith, apart)

module _ {T : Type 0} (q : Ordered T) where
  -- Whether the running thread is going to sleep
  abbrev pub leaves : Option ℕ → ℕ → Percpu T → ℕ
  leaves c u s = if is_thread c u && is_sleeping (status_of u s) then 1 else 0

  leaves_is :
      (b : Bool) (t u : ℕ) (s : Percpu T)
      → is_sleeping (status_of t s) ≡ b
      → leaves (some t) u s ≡ (if b && (t == u) then 1 else 0)
  leaves_is b t u s h = elim (Bool-cases (t == u)) [
    | inl e ↦
        let same : t ≡ u = ground (arith, e) in
        let here_too : is_sleeping (status_of u s) ≡ b =
          subst (λ v. is_sleeping (status_of v s) ≡ b) same h in
        rw (e, here_too) (ap (λ x. if x then 1 else 0) (sym (and_true b)))
    | inr e ↦ rw e (ap (λ x. if x then 1 else 0) (sym (and_false b)))
  ]

  pub record Retired (c next n : Option ℕ) (a b : Percpu T) : Type 0 where
    pub running_thread : b.running_thread ≡ a.running_thread
    pub idle_thread : b.idle_thread ≡ a.idle_thread
    pub waiting : (u : ℕ) → 1 ≤ queued q u b → waits (status_of u b) ≡ true
    pub sum :
        (u : ℕ)
        → u ≢ a.idle_thread
        → held q u b + here q n u + leaves c u a ≡ held q u a + here q next u + here q c u
    pub idle : held q a.idle_thread b ≡ held q a.idle_thread a
    pub stays :
        is_thread c (or_idle n a.idle_thread) ≡ true
        → status_of (or_idle n a.idle_thread) b ≡ running

  module _ (now t : ℕ) (a : Percpu T)
      (waiting : (u : ℕ) → 1 ≤ queued q u a → waits (status_of u a) ≡ true) where
    pub Retired-killed :
        (next : Option ℕ)
        → status_of t a ≡ killed
        → t ≢ a.idle_thread
        → is_thread next t ≡ false
        → Retired (some t) next next a (record a { dead_threads = a.dead_threads ++ (t ∷ []) })
    unfolding count
    Retired-killed next e other apart = record {
      running_thread = refl;
      idle_thread = refl;
      waiting = waiting;
      sum = λ u real.
          omega (
            arith,
            count-append u a.dead_threads (t ∷ []),
            leaves_is false t u a (ap is_sleeping e),
          );
      idle = ground (arith, other, count-append a.idle_thread a.dead_threads (t ∷ []));
      stays = λ h. absurd (ground (arith, h, unlike t a.idle_thread next apart other));
    }

    pub Retired-idle :
        (next : Option ℕ)
        → t ≡ a.idle_thread
        → status_of t a ≡ running
        → is_thread next t ≡ false
        → Retired (some t) next next a a
    Retired-idle none same e apart = record {
      running_thread = refl;
      idle_thread = refl;
      waiting = waiting;
      sum = λ u real.
          let elsewhere : (t == u) ≡ false = ground (arith, same, real) in
          rw elsewhere (omega arith);
      idle = refl;
      stays = λ h. subst (λ v. status_of v a ≡ running) same e;
    }
    Retired-idle (some v) same e apart = record {
      running_thread = refl;
      idle_thread = refl;
      waiting = waiting;
      sum = λ u real.
          let elsewhere : (t == u) ≡ false = ground (arith, same, real) in
          rw elsewhere (omega arith);
      idle = refl;
      stays = λ h. absurd (ground (arith, h, apart));
    }

    pub Retired-kept : status_of t a ≡ running → Retired (some t) none (some t) a (charge q now t a)
    unfolding charge
    Retired-kept e = record {
      running_thread = refl;
      idle_thread = refl;
      waiting = λ u h. rw (charge_status q now t u a) (waiting u h);
      sum = λ u real. omega (arith, leaves_is false t u a (ap is_sleeping e));
      idle = refl;
      stays = λ h. charge_status q now t t a ∙ e;
    }

    pub Retired-asleep :
        (next : Option ℕ)
        → status_of t a ≡ sleeping
        → t ≢ a.idle_thread
        → is_thread next t ≡ false
        → Retired (some t) next next a (charge q now t a)
    unfolding charge
    Retired-asleep next e other apart = record {
      running_thread = refl;
      idle_thread = refl;
      waiting = λ u h. rw (charge_status q now t u a) (waiting u h);
      sum = λ u real. omega (arith, leaves_is true t u a (ap is_sleeping e));
      idle = refl;
      stays = λ h. absurd (ground (arith, h, unlike t a.idle_thread next apart other));
    }

    grown :
        (u : ℕ)
        → queued q u (requeued q t (charge q now t a)) ≡ (if t == u then 1 else 0) + queued q u a
    unfolding charge
    grown u =
        let key = by_vruntime (readied q t (charge q now t a)) in
        rw (q.elems-insert key t a.queue) (count-insert_by key t u (q.elems a.queue))

    requeued_status :
        (u : ℕ)
        → status_of u (requeued q t (charge q now t a)) ≡ (if u == t then ready else status_of u a)
    requeued_status u =
        status_of-set_thread t u (record ((charge q now t a).threads t) { status = ready })
          (charge q now t a)
        ∙ ap (λ x. if u == t then ready else x) (charge_status q now t u a)

    pub Retired-requeued :
        (v : ℕ)
        → status_of t a ≡ running
        → t ≢ a.idle_thread
        → v ≢ t
        → Retired (some t) (some v) (some v) a (requeued q t (charge q now t a))
    unfolding charge
    Retired-requeued v e other apart = record {
      running_thread = refl;
      idle_thread = refl;
      waiting = λ u h. elim (Bool-cases (u == t)) [
        | inl same ↦ rw (requeued_status u, same) refl
        | inr u_other ↦
            let before : 1 ≤ queued q u a = ground (arith, h, grown u, u_other) in
            rw (requeued_status u, u_other) (waiting u before)
      ];
      sum = λ u real. omega (arith, grown u, leaves_is false t u a (ap is_sleeping e));
      idle = ground (arith, grown a.idle_thread, other);
      stays = λ h. absurd (ground (arith, h, apart));
    }
