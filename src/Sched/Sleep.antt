-- ===== src/Sched/Sleep.antt =====
-- kernel/source/system/scheduler.cpp: `disable` and `enable`, and the thread `sleeper`.
use ilobilix.Base.{
  ℕ, ◌+◌, ◌-◌, ◌^◌, ◌≡◌, ◌<◌, ◌==◌, Bool, true, false, not, ◌||◌, List, ◌∷◌, some, refl, ap, ◌∙◌,
  if◌then◌else◌, arith, Bool-cases, inl, inr, ltb, add64,
}
use ilobilix.Sched.Threads.{
  ready, Percpu, ok, is_sleeping, status_of, set_thread, disable, enable, wake_up,
}
use ilobilix.Sched.{wake, sleeper_round}
use ilobilix.Sched.Queue.{Ordered}

module _ {T : Type 0} where
  abbrev off : Percpu T → Bool
  off s = not s.initialised || s.in_scheduler

  disable-off : (s : Percpu T) → off s ≡ true → disable s ≡ s
  unfolding disable
  disable-off s e = rw e refl

  disable_on :
      (s : Percpu T) → off s ≡ false → disable s ≡ record s { preemption = add64 s.preemption 1 }
  unfolding disable
  disable_on s e = rw e refl

  enable-off : (s : Percpu T) → off s ≡ true → enable s ≡ s
  unfolding enable
  enable-off s e = rw e refl

  enable_on :
      (s : Percpu T)
      → off s ≡ false
      → enable s
        ≡ record s { preemption = if ltb 0 s.preemption then s.preemption - 1 else s.preemption }
  unfolding enable
  enable_on s e = rw e refl

  -- `enable` takes back what one `disable` did, whether or not the scheduler counts, as long as the count of
  -- the nested calls fits in its word.
  pub enable-disable : (s : Percpu T) → s.preemption + 1 < 2 ^ 64 → enable (disable s) ≡ s
  enable-disable s h = elim (Bool-cases (off s)) [
    | inl e ↦ ap enable (disable-off s e) ∙ enable-off s e
    | inr e ↦
        let more = record s { preemption = add64 s.preemption 1 } in
        let back : (if ltb 0 (add64 s.preemption 1)
              then add64 s.preemption 1 - 1
              else add64 s.preemption 1)
            ≡ s.preemption =
          ground (arith, h) in
        ap enable (disable_on s e) ∙ enable_on more e ∙ ap (λ n. record s { preemption = n }) back
  ]

  disable_threads : (s : Percpu T) → (disable s).threads ≡ s.threads
  disable_threads s = elim (Bool-cases (off s)) [
    | inl e ↦ ap (λ u. u.threads) (disable-off s e)
    | inr e ↦ ap (λ u. u.threads) (disable_on s e)
  ]

module _ {T : Type 0} (q : Ordered T) where
  wake_waits :
      (now until first t : ℕ) (ts : List ℕ) (s : Percpu T)
      → (s.threads t).sleep_until ≡ some until
      → now < until
      → wake q now first (t ∷ ts) s ≡ ok tt s
  unfolding wake
  wake_waits now until first t ts s e early =
      let before : ltb now until ≡ true = ground (arith, early) in rw (wake, e, before) refl

  round_waits :
      (now until t : ℕ) (ts : List ℕ) (s : Percpu T)
      → q.elems s.sleep_queue ≡ t ∷ ts
      → (s.threads t).sleep_until ≡ some until
      → now < until
      → s.preemption + 1 < 2 ^ 64
      → sleeper_round q now s ≡ ok tt s
  unfolding sleeper_round
  round_waits now until t ts s head e early room =
      let timed : ((disable s).threads t).sleep_until ≡ some until =
        ap (λ th. (th t).sleep_until) (disable_threads s) ∙ e in
      rw (sleeper_round, head, wake_waits now until t t ts (disable s) timed early)
        (ap (λ u. ok tt u) (enable-disable s room))

  -- Where a thread with a timeout stands first among the sleepers and the count of `disable` has room, a round of
  -- `sleeper` before the timeout changes nothing after a call of `wake_up` for the thread.
  pub sleeper_round-wake_up :
      (now until reason t : ℕ) (ts : List ℕ) (s : Percpu T)
      → q.elems s.sleep_queue ≡ t ∷ ts
      → (s.threads t).sleep_until ≡ some until
      → now < until
      → s.preemption + 1 < 2 ^ 64
      → sleeper_round q now (wake_up t reason s).1 ≡ ok tt (wake_up t reason s).1
  unfolding wake_up
  sleeper_round-wake_up now until reason t ts s head e early room =
      let same : (t == t) ≡ true = ground arith in
      let woken = set_thread t (record (s.threads t) { status = ready; wake_reason = reason }) s in
      let timed : (woken.threads t).sleep_until ≡ some until = rw same e in
      elim (Bool-cases (is_sleeping (status_of t s))) [
        | inl asleep ↦ rw asleep (round_waits now until t ts woken head timed early room)
        | inr awake ↦ rw awake (round_waits now until t ts s head e early room)
      ]
