-- ===== src/Sched/Tests.antt =====
-- The theorems on kernel/source/system/scheduler.cpp at a processor with a few threads, over lists as queues.
use ilobilix.Base.{
  ℕ, zero, suc, ◌+◌, ◌≡◌, ◌≢◌, ◌≤◌, ◌==◌, ◌^◌, ◌-◌, true, false, List, [], ◌∷◌, Option, none, some,
  refl, arith, if◌then◌else◌, get_or, ◌<◌,
}
use ilobilix.Sched.Threads.{
  Status, ready, running, sleeping, killed, Thread, Percpu, Outcome, ok, panic, status_of, wake_up,
  prio_to_weight,
}
use ilobilix.Sched.{
  schedule, sleeper_round, enqueue, charge, vtime, pick, put_back, retire, wake_reaper, run_next,
  start_time,
}
use ilobilix.Sched.Queue.{Ordered, insert_by, remove_from, count}
use ilobilix.Sched.Pick.{Returns, held, here}
use ilobilix.Sched.Cases.{leaves}
use ilobilix.Sched.Fit.{Fit}
use ilobilix.Sched.Turns.{schedule-Fit, schedule_keeps}
use ilobilix.Sched.Sleep.{sleeper_round-wake_up}
use ilobilix.Sched.Idle.{schedule_idle}
use ilobilix.Sched.Spread.{allocate_cpu, allocate_cpu_least, least}

abbrev lists : Ordered (List ℕ)
lists = record {
  elems = λ l. l;
  insert = insert_by;
  remove = remove_from;
  elems-insert = λ key t l. refl;
  elems-remove = λ t l. refl;
}

abbrev plain : Status → Thread
plain st = record {
  status = st;
  priority = 20;
  vruntime = 0;
  schedule_time = 100;
  wake_reason = 0;
  sleep_for = none;
  sleep_until = none;
}

-- 0 idles, 1 runs, 2 was killed, 3 is ready, 4 is the reaper.
abbrev busy : Percpu (List ℕ)
busy = record {
  threads = λ u.
      plain
        (if u == 1 then running else if u == 2 then killed else if u == 4 then sleeping else ready);
  queue = 2 ∷ 3 ∷ [];
  sleep_queue = 4 ∷ [];
  running_thread = some 1;
  idle_thread = 0;
  reaper_thread = 4;
  dead_threads = [];
  preemption = 0;
  in_scheduler = false;
  initialised = true;
}

busy-Fit : Fit lists busy
unfolding count
busy-Fit = record {
  waiting = λ u h. ground (arith, h);
  once = λ u. ground arith;
  going = λ t h. ground (arith, h);
  idle_free = refl;
  idle_runs = λ h. absurd (ground (arith, h));
}

abbrev idling : Percpu (List ℕ)
idling = record {
  threads = λ u. plain (if u == 0 then running else ready);
  queue = 3 ∷ [];
  sleep_queue = [];
  running_thread = some 0;
  idle_thread = 0;
  reaper_thread = 4;
  dead_threads = [];
  preemption = 0;
  in_scheduler = false;
  initialised = true;
}

idling-Fit : Fit lists idling
unfolding count
idling-Fit = record {
  waiting = λ u h. ground (arith, h);
  once = λ u. ground arith;
  going = λ t h. ground (arith, h);
  idle_free = refl;
  idle_runs = λ h. refl;
}

-- The killed thread is buried, the reaper woken, and 3 runs.
abbrev outcome : Outcome (List ℕ) (Unit {0}) → Option ℕ × List ℕ × List ℕ
outcome (ok a s) = (s.running_thread, s.queue, s.dead_threads)
outcome panic = (none, [], [])

schedule_runs : outcome (schedule lists 2000 2001 busy) ≡ (some 3, 1 ∷ [], 2 ∷ [])
unfolding schedule pick retire put_back charge vtime prio_to_weight enqueue wake_reaper run_next
    start_time insert_by remove_from
schedule_runs = refl

schedule-Fit_example :
    Returns
      (λ r s'. Fit lists s' × ((t : ℕ) × (s'.running_thread ≡ some t) × (status_of t s' ≡ running)))
      (schedule lists 2000 2001 busy)
schedule-Fit_example = schedule-Fit lists 2000 2001 busy busy-Fit refl

schedule_keeps_example :
    Returns
      (λ r s'.
        (u : ℕ)
        → u ≢ 0
        → held lists u s' + here lists s'.running_thread u + leaves lists (some 1) u busy
          ≡ held lists u busy + here lists (some 1) u)
      (schedule lists 2000 2001 busy)
schedule_keeps_example = schedule_keeps lists 2000 2001 busy busy-Fit refl

schedule_idle_example :
    Returns
      (λ r s'. (u : ℕ) → (s'.threads u).schedule_time ≡ (idling.threads u).schedule_time)
      (schedule lists 2000 2001 idling)
schedule_idle_example = schedule_idle lists 2000 2001 idling idling-Fit refl refl

-- Thread 1 sleeps until 5000.
abbrev dozing : Percpu (List ℕ)
dozing = record busy {
  threads = λ u. record (plain sleeping) { sleep_until = some 5000 };
  queue = [];
  sleep_queue = 1 ∷ [];
  running_thread = some 0;
}

sleeper_round-wake_up_example :
    sleeper_round lists 2000 (wake_up 1 1 dozing).1 ≡ ok tt (wake_up 1 1 dozing).1
sleeper_round-wake_up_example =
    sleeper_round-wake_up lists 2000 5000 1 1 [] dozing refl refl (omega arith) (omega arith)

abbrev sizes : List ℕ
sizes = 4 ∷ 2 ∷ 7 ∷ 2 ∷ []

sizes_fit : (j : ℕ) → get_or sizes j (2 ^ 64 - 1) ≤ 2 ^ 64 - 1
sizes_fit zero = omega arith
sizes_fit (suc zero) = omega arith
sizes_fit (suc (suc zero)) = omega arith
sizes_fit (suc (suc (suc zero))) = omega arith
sizes_fit (suc (suc (suc (suc j)))) = omega arith

allocate_cpu_runs : allocate_cpu sizes ≡ 1
unfolding allocate_cpu least
allocate_cpu_runs = refl

allocate_cpu_least_example :
    ((j : ℕ) → get_or sizes (allocate_cpu sizes) (2 ^ 64 - 1) ≤ get_or sizes j (2 ^ 64 - 1))
    × ((j : ℕ)
        → j < allocate_cpu sizes
        → get_or sizes (allocate_cpu sizes) (2 ^ 64 - 1) < get_or sizes j (2 ^ 64 - 1))
allocate_cpu_least_example = allocate_cpu_least sizes sizes_fit
