-- ===== src/Sched/Schedule.antt =====
-- kernel/source/system/scheduler.cpp: `schedule` as a whole.
use ilobilix.Base.{
  ℕ, ◌≡◌, ◌≢◌, ◌==◌, Bool, true, false, ◌&&◌, Option, none, some, refl, ap, ◌∙◌, subst,
  if◌then◌else◌, arith, Bool-cases, inl, inr,
}
use ilobilix.Sched.Threads.{
  Status, ready, running, Percpu, is_thread, is_sleeping, is_none, status_of, set_thread,
}
use ilobilix.Sched.{wake_reaper, run_next, start_time}
use ilobilix.Sched.Queue.{Ordered}
use ilobilix.Sched.Pick.{waits}
use ilobilix.Sched.Charge.{status_of-set_thread, status_kept}

waits-ready : (b : Bool) (x : Status) → waits x ≡ true → waits (if b then ready else x) ≡ true
waits-ready true x h = refl
waits-ready false x h = h

not_asleep :
    (b : Bool) (r u : ℕ) (f : ℕ → Status)
    → (b ≡ true → u ≡ r)
    → is_sleeping (f r) ≡ true
    → f u ≡ running
    → (if b then ready else f u) ≡ running
not_asleep true r u f same asleep h =
    let awake : is_sleeping (f r) ≡ false =
      subst (λ v. is_sleeping (f v) ≡ false) (same refl) (ap is_sleeping h) in
    absurd (ground (arith, asleep, awake))
not_asleep false r u f same asleep h = h

module _ {T : Type 0} (q : Ordered T) where
  -- What `wake_reaper` keeps
  pub record Woken (b d : Percpu T) : Type 0 where
    pub queue : d.queue ≡ b.queue
    pub dead_threads : d.dead_threads ≡ b.dead_threads
    pub idle_thread : d.idle_thread ≡ b.idle_thread
    pub running_thread : d.running_thread ≡ b.running_thread
    pub waits_still : (u : ℕ) → waits (status_of u b) ≡ true → waits (status_of u d) ≡ true
    pub runs_still : (u : ℕ) → status_of u b ≡ running → status_of u d ≡ running

  pub wake_reaper-Woken : (found_dead : Bool) (b : Percpu T) → Woken b (wake_reaper q found_dead b)
  unfolding wake_reaper
  wake_reaper-Woken found_dead b =
      let r = b.reaper_thread in
      let x = b.threads b.reaper_thread in
      let test = found_dead && is_sleeping x.status && is_none x.sleep_until in
      elim (Bool-cases test) [
        | inl e ↦
            let asleep : is_sleeping x.status ≡ true = ground (arith, e) in
            let now_ready : (u : ℕ)
                → status_of u (set_thread r (record x { status = ready }) b)
                  ≡ (if u == r then ready else status_of u b) =
              λ u. status_of-set_thread r u (record x { status = ready }) b in
            rw e (record {
              queue = refl;
              dead_threads = refl;
              idle_thread = refl;
              running_thread = refl;
              waits_still = λ u h. ap waits (now_ready u) ∙ waits-ready (u == r) (status_of u b) h;
              runs_still = λ u h.
                  now_ready u
                  ∙ not_asleep (u == r) r u (λ v. status_of v b) (λ e. ground (arith, e)) asleep h;
            })
        | inr e ↦ rw e (record {
          queue = refl;
          dead_threads = refl;
          idle_thread = refl;
          running_thread = refl;
          waits_still = λ u h. h;
          runs_still = λ u h. h;
        })
      ]

  pub record Ran (next : ℕ) (d e : Percpu T) : Type 0 where
    pub queue : e.queue ≡ d.queue
    pub dead_threads : e.dead_threads ≡ d.dead_threads
    pub idle_thread : e.idle_thread ≡ d.idle_thread
    pub running_thread : e.running_thread ≡ some next
    pub status : status_of next e ≡ running
    pub others : (u : ℕ) → u ≢ next → status_of u e ≡ status_of u d

  is_thread→some : (o : Option ℕ) (t : ℕ) → is_thread o t ≡ true → o ≡ some t
  is_thread→some none t h = absurd (ground (arith, h))
  is_thread→some (some v) t h = ap some (ground (arith, h))

  pub run_next-Ran :
      (next : ℕ) (d : Percpu T)
      → (is_thread d.running_thread next ≡ true → status_of next d ≡ running)
      → Ran next d (run_next q next d)
  unfolding run_next
  run_next-Ran next d stays =
      let now_running : (u : ℕ)
          → status_of u (set_thread next (record (d.threads next) { status = running }) d)
            ≡ (if u == next then running else status_of u d) =
        λ u. status_of-set_thread next u (record (d.threads next) { status = running }) d in
      elim (Bool-cases (is_thread d.running_thread next)) [
        | inl e ↦ rw e (record {
          queue = refl;
          dead_threads = refl;
          idle_thread = refl;
          running_thread = is_thread→some d.running_thread next e;
          status = stays e;
          others = λ u h. refl;
        })
        | inr e ↦ rw e (record {
          queue = refl;
          dead_threads = refl;
          idle_thread = refl;
          running_thread = refl;
          status =
              let same : (next == next) ≡ true = ground arith in now_running next ∙ rw same refl;
          others = λ u h.
              let other : (u == next) ≡ false = ground (arith, h) in now_running u ∙ rw other refl;
        })
      ]

  pub start_time-Ran :
      (was_idle : Bool) (next later : ℕ) (d e : Percpu T)
      → Ran next d e
      → Ran next d (start_time q was_idle next later e)
  unfolding start_time
  start_time-Ran true next later d e r = r
  start_time-Ran false next later d e r =
      let kept : (u : ℕ) → status_of u (start_time q false next later e) ≡ status_of u e =
        λ u. status_kept next u (record (e.threads next) { schedule_time = later }) e refl in
      record {
        queue = r.queue;
        dead_threads = r.dead_threads;
        idle_thread = r.idle_thread;
        running_thread = r.running_thread;
        status = kept next ∙ r.status;
        others = λ u h. kept u ∙ r.others u h;
      }
