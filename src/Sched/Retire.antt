-- ===== src/Sched/Retire.antt =====
-- kernel/source/system/scheduler.cpp: what `schedule` does with the thread that was running.
use ilobilix.Base.{
  ℕ, ◌≡◌, ◌≢◌, ◌≤◌, ◌==◌, ◌⊎◌, Bool, true, false, Option, none, some, refl, sym, ap, subst, arith,
  Bool-cases, inl, inr,
}
use ilobilix.Sched.Threads.{running, sleeping, Percpu, ok, ◌>>=◌, is_thread, status_of}
use ilobilix.Sched.{put_back, retire}
use ilobilix.Sched.Queue.{Ordered}
use ilobilix.Sched.Pick.{waits, Returns, bind-Returns, queued}
use ilobilix.Sched.Charge.{put_back_keeps, put_back_sleeps, put_back_requeues}
-- A thread that the processor runs
use ilobilix.Sched.Cases.{
  runs, Status-runs, Retired, Retired-killed, Retired-idle, Retired-kept, Retired-asleep,
  Retired-requeued,
}

module _ {T : Type 0} (q : Ordered T) where
  put_back-Returns :
      (now t : ℕ) (next : Option ℕ) (a : Percpu T)
      → ((u : ℕ) → 1 ≤ queued q u a → waits (status_of u a) ≡ true)
      → (status_of t a ≡ running) ⊎ (status_of t a ≡ sleeping)
      → t ≢ a.idle_thread
      → is_thread next t ≡ false
      → Returns (λ n b. Retired q (some t) next n a b) (put_back q now t next a)
  put_back-Returns now t none a waiting (inl e) other apart =
      rw (put_back_keeps q now t a e) (Retired-kept q now t a waiting e)
  put_back-Returns now t (some v) a waiting (inl e) other apart =
      let v_other : v ≢ t = ground (arith, apart) in
      rw (put_back_requeues q now t v a e v_other)
        (Retired-requeued q now t a waiting v e other v_other)
  put_back-Returns now t next a waiting (inr e) other apart =
      rw (put_back_sleeps q now t next a e) (Retired-asleep q now t a waiting next e other apart)

  -- `if (current)`, whatever it runs
  pub retire-Returns :
      (now : ℕ) (next : Option ℕ) (found_dead : Bool) (c : Option ℕ) (a : Percpu T)
      → ((u : ℕ) → 1 ≤ queued q u a → waits (status_of u a) ≡ true)
      → ((t : ℕ) → c ≡ some t → (runs (status_of t a) ≡ true) × (is_thread next t ≡ false))
      → (c ≡ some a.idle_thread → status_of a.idle_thread a ≡ running)
      → Returns (λ n b. Retired q c next n.0 a b) (retire q now next found_dead c a)
  unfolding retire
  retire-Returns now next found_dead none a waiting going idle = record {
    running_thread = refl;
    idle_thread = refl;
    waiting = waiting;
    sum = λ u real. omega arith;
    idle = refl;
    stays = λ h. absurd (ground (arith, h));
  }
  retire-Returns now next found_dead (some t) a waiting going idle =
      let apart = (going t refl).1 in
      elim (Bool-cases (t == a.idle_thread)) [
        | inl is_idle ↦
            let same : t ≡ a.idle_thread = ground (arith, is_idle) in
            let e : status_of t a ≡ running =
              subst (λ v. status_of v a ≡ running) (sym same) (idle (ap some same)) in
            rw (e, is_idle) (Retired-idle q now t a waiting next same e apart)
        | inr is_other ↦
            let other : t ≢ a.idle_thread = ground (arith, is_other) in
            let requeue : (status_of t a ≡ running) ⊎ (status_of t a ≡ sleeping)
                → Returns (λ (m : Option ℕ × Bool) b. Retired q (some t) next m.0 a b)
                    (put_back q now t next a >>= λ n u. ok (n, found_dead) u) =
              λ h.
                bind-Returns (λ n b. Retired q (some t) next n a b)
                  (λ (m : Option ℕ × Bool) b. Retired q (some t) next m.0 a b)
                  (put_back q now t next a) (λ n u. ok (n, found_dead) u)
                  (put_back-Returns now t next a waiting h other apart) (λ n u done. done) in
            elim (Status-runs (status_of t a) (going t refl).0) [
              | inl e ↦ rw (e, is_other) (requeue (inl e))
              | inr (inl e) ↦ rw (e, is_other) (requeue (inr e))
              | inr (inr e) ↦ rw e (Retired-killed q now t a waiting next e other apart)
            ]
      ]
