-- ===== src/Sched.antt =====
-- kernel/source/system/scheduler.cpp: the operations on the queues of one processor. Threads are numbers. The
-- tree that orders a queue (kernel/interfaces/lib/rbtree.cppm) is an interface.
pub mod Threads
pub mod Cases
pub mod Queue
pub mod Pick
pub mod Charge
pub mod Retire
pub mod Schedule
pub mod Fit
pub mod Turns
pub mod Idle
pub mod Spread
pub mod Sleep
pub mod Tests
use ilobilix.Base.{
  ℕ, zero, suc, ◌+◌, ◌-◌, ◌*◌, ◌/◌, ◌==◌, Bool, true, false, not, ◌&&◌, ◌||◌, List, [], ◌∷◌, ◌++◌,
  if◌then◌else◌, Option, none, some, ltb, leb, add64, sub64, mul64, get_or, ◌≡◌,
}
use ilobilix.Sched.Threads.{
  Status, not_ready, ready, running, sleeping, killed, weights, prio_to_weight, Thread, Percpu,
  Outcome, ok, panic, ◌>>=◌, order_of, is_ready, is_sleeping, is_running, is_killed, is_none,
  is_thread, or_idle, set_thread, status_of, by_vruntime, by_sleep_until, prepare_sleep, wake_up,
  disable, enable,
}
use ilobilix.Sched.Queue.{Ordered}

module _ {T : Type 0} (q : Ordered T) where
  -- `yield` up to the interrupt that calls `schedule`
  unfoldable pub yield : ℕ → ℕ → Percpu T → Percpu T
  yield t now s =
      let x = s.threads t in
      let until : Option ℕ = elim x.sleep_for [
        | none ↦ x.sleep_until
        | some n ↦ some (add64 now n)
      ] in
      let s' = set_thread t (record x { sleep_until = until; sleep_for = none }) s in
      if is_sleeping x.status
      then record s' { sleep_queue = q.insert (by_sleep_until s') t s.sleep_queue }
      else s

  unfoldable pub enqueue : ℕ → Percpu T → Outcome T (Unit {0})
  enqueue t s =
      let s' = set_thread t (record (s.threads t) { status = ready }) s in
      if is_running (status_of t s) || is_ready (status_of t s)
      then ok tt (record s' { queue = q.insert (by_vruntime s') t s.queue })
      else panic

  -- The loop of `schedule` over the queue: the thread that is found, and whether there are dead ones
  unfoldable pub pick : List ℕ → Percpu T → Outcome T (Option ℕ × Bool)
  pick [] s = ok (none, false) s
  pick (t ∷ ts) s =
      let without_t = record s { queue = q.remove t s.queue } in
      elim (status_of t s) [
        | ready ↦ ok (some t, false) without_t
        | sleeping ↦ panic
        | running ↦ panic
        | killed ↦
            pick ts (record without_t { dead_threads = s.dead_threads ++ (t ∷ []) }) >>= λ r s'.
            ok (r.0, true) s'
        | not_ready ↦ pick ts s
      ]

  -- What the running thread has used, in its own time
  unfoldable pub vtime : ℕ → Thread → ℕ
  unfolding prio_to_weight
  vtime now x = mul64 (sub64 now x.schedule_time) 1024 / prio_to_weight x.priority

  -- A thread pays for its time.
  unfoldable pub charge : ℕ → ℕ → Percpu T → Percpu T
  unfolding vtime
  charge now t s =
      let x = s.threads t in set_thread t (record x { vruntime = add64 x.vruntime (vtime now x) }) s

  -- The running thread that is not idle and was not killed
  unfoldable pub put_back : ℕ → ℕ → Option ℕ → Percpu T → Outcome T (Option ℕ)
  put_back now t next s =
      let x = s.threads t in
      let keep = is_none next && is_running x.status in
      let next' = if keep then some t else next in
      let s' = charge now t s in
      if is_thread next' t
      then ok next' s'
      else if is_sleeping x.status
      then ok next' s'
      else enqueue t s' >>= λ _ u. ok next' u

  -- `if (current)`: the next thread, and whether there are dead ones
  unfoldable pub retire : ℕ → Option ℕ → Bool → Option ℕ → Percpu T → Outcome T (Option ℕ × Bool)
  retire now next found_dead none s = ok (next, found_dead) s
  retire now next found_dead (some t) s =
      if is_killed (status_of t s)
      then ok (next, true) (record s { dead_threads = s.dead_threads ++ (t ∷ []) })
      else if t == s.idle_thread
      then ok (next, found_dead) s
      else (put_back now t next s >>= λ next' u. ok (next', found_dead) u)

  unfoldable pub wake_reaper : Bool → Percpu T → Percpu T
  wake_reaper found_dead s =
      let x = s.threads s.reaper_thread in
      if found_dead && is_sleeping x.status && is_none x.sleep_until
      then set_thread s.reaper_thread (record x { status = ready }) s
      else s

  -- The thread that runs next
  unfoldable pub run_next : ℕ → Percpu T → Percpu T
  run_next next s =
      if is_thread s.running_thread next
      then s
      else record (set_thread next (record (s.threads next) { status = running }) s) {
        running_thread = some next;
      }

  unfoldable pub start_time : Bool → ℕ → ℕ → Percpu T → Percpu T
  start_time was_idle next later s =
      if was_idle then s else set_thread next (record (s.threads next) { schedule_time = later }) s

  -- `schedule`, at a time and a later one
  unfoldable pub schedule : ℕ → ℕ → Percpu T → Outcome T (Unit {0})
  schedule now later s =
      if ltb 0 s.preemption
      then ok tt s
      else pick (q.elems s.queue) (record s { in_scheduler = true }) >>= λ r a.
          retire now r.0 r.1 a.running_thread a >>= λ n b.
          (let next = or_idle n.0 s.idle_thread in
            ok tt
              (record (start_time (is_thread s.running_thread s.idle_thread) next later
                (run_next next (wake_reaper n.1 b))) { in_scheduler = false }))

  -- The loop of `sleeper` over the threads that sleep, the first of which gave its time
  unfoldable pub wake : ℕ → ℕ → List ℕ → Percpu T → Outcome T (Unit {0})
  wake now first [] s = ok tt s
  wake now first (t ∷ ts) s =
      let x = s.threads t in
      let out = record s { sleep_queue = q.remove t s.sleep_queue } in
      let s' =
        set_thread t
          (record x {
            sleep_until = none;
            status = ready;
            wake_reason = 0;
            vruntime = (s.threads first).vruntime;
          })
          out in
      elim x.sleep_until [
        | none ↦ elim x.status [
          | ready ↦ wake now first ts (record out { queue = q.insert (by_vruntime s) t s.queue })
          | killed ↦ wake now first ts (record out { dead_threads = s.dead_threads ++ (t ∷ []) })
          | not_ready ↦ wake now first ts s
          | sleeping ↦ wake now first ts s
          | running ↦ panic
        ]
        | some until ↦ elim (ltb now until) [
          | true ↦ ok tt s
          | false ↦ wake now first ts (record s' { queue = q.insert (by_vruntime s') t s.queue })
        ]
      ]

  -- A round of `sleeper` on a queue that is not empty
  unfoldable pub sleeper_round : ℕ → Percpu T → Outcome T (Unit {0})
  sleeper_round now s = elim (q.elems s.sleep_queue) [
    | [] ↦ ok tt s
    | t ∷ ts ↦ wake now t (t ∷ ts) (disable s) >>= λ a u. ok a (enable u)
  ]
