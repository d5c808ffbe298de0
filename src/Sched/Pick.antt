-- ===== src/Sched/Pick.antt =====
-- kernel/source/system/scheduler.cpp: the loop of `schedule` over the run queue.
use ilobilix.Base.{
  ℕ, ◌+◌, ◌≡◌, ◌≤◌, ◌==◌, ◌⊎◌, Bool, true, false, List, [], ◌∷◌, ◌++◌, Option, some, refl, subst,
  if◌then◌else◌, arith, inl, inr,
}
use ilobilix.Sched.Threads.{
  Status, not_ready, ready, running, sleeping, killed, Percpu, Outcome, ok, panic, ◌>>=◌, is_thread,
  status_of,
}
use ilobilix.Sched.{pick}
use ilobilix.Sched.Queue.{Ordered, count, count-append, count-remove_from}

-- May stand in the run queue
abbrev pub waits : Status → Bool
waits ready = true
waits killed = true
waits not_ready = true
waits sleeping = false
waits running = false

pub Status-waits : (x : Status) → waits x ≡ true → (x ≡ ready) ⊎ ((x ≡ killed) ⊎ (x ≡ not_ready))
Status-waits ready h = inl refl
Status-waits killed h = inr (inl refl)
Status-waits not_ready h = inr (inr refl)
Status-waits sleeping h = absurd (ground (arith, h))
Status-waits running h = absurd (ground (arith, h))

-- The call returns, and what it leaves has the property.
abbrev pub Returns : {T A : Type 0} → (A → Percpu T → Type 0) → Outcome T A → Type 0
Returns P (ok a s) = P a s
Returns P panic = ⊥

pub bind-Returns :
    {T A B : Type 0} (P : A → Percpu T → Type 0) (Q : B → Percpu T → Type 0) (o : Outcome T A)
    (f : A → Percpu T → Outcome T B)
    → Returns P o
    → ((a : A) (s : Percpu T) → P a s → Returns Q (f a s))
    → Returns Q (o >>= f)
bind-Returns P Q (ok a s) f h k = k a s h
bind-Returns P Q panic f h k = absurd h

pub weaken :
    {T A : Type 0} (P Q : A → Percpu T → Type 0) (o : Outcome T A)
    → ((a : A) (s : Percpu T) → P a s → Q a s)
    → Returns P o
    → Returns Q o
weaken P Q (ok a s) k h = k a s h
weaken P Q panic k h = h

module _ {T : Type 0} (q : Ordered T) where
  abbrev pub queued : ℕ → Percpu T → ℕ
  queued t s = count t (q.elems s.queue)

  -- The places of a thread that is not running
  abbrev pub held : ℕ → Percpu T → ℕ
  held t s = queued t s + count t s.dead_threads

  abbrev pub here : Option ℕ → ℕ → ℕ
  here o t = if is_thread o t then 1 else 0

  pub record Picked (r : Option ℕ × Bool) (s s' : Percpu T) : Type 0 where
    pub threads : s'.threads ≡ s.threads
    pub running_thread : s'.running_thread ≡ s.running_thread
    pub idle_thread : s'.idle_thread ≡ s.idle_thread
    pub preemption : s'.preemption ≡ s.preemption
    pub sum : (u : ℕ) → held u s' + here r.0 u ≡ held u s
    pub fewer : (u : ℕ) → queued u s' ≤ queued u s
    pub found : (t : ℕ) → r.0 ≡ some t → (status_of t s ≡ ready) × (1 ≤ queued t s)

  pub removed :
      (t u : ℕ) (s : Percpu T)
      → 1 ≤ queued t s
      → count u (q.elems (q.remove t s.queue)) + (if t == u then 1 else 0) ≡ queued u s
  removed t u s h = rw (q.elems-remove t s.queue) (count-remove_from t u (q.elems s.queue) h)

  -- A killed thread goes to the dead ones.
  abbrev buried : ℕ → Percpu T → Percpu T
  buried t s = record s { queue = q.remove t s.queue; dead_threads = s.dead_threads ++ (t ∷ []) }

  bury :
      (t : ℕ) (r : Option ℕ × Bool) (s s' : Percpu T)
      → 1 ≤ queued t s
      → Picked r (buried t s) s'
      → Picked (r.0, true) s s'
  unfolding count
  bury t r s s' h p =
      let gone : (u : ℕ) → queued u (buried t s) + (if t == u then 1 else 0) ≡ queued u s =
        λ u. removed t u s h in
      let dead : (u : ℕ)
          → count u (s.dead_threads ++ (t ∷ []))
            ≡ count u s.dead_threads + (if t == u then 1 else 0) =
        λ u. omega (arith, count-append u s.dead_threads (t ∷ [])) in
      record {
        threads = p.threads;
        running_thread = p.running_thread;
        idle_thread = p.idle_thread;
        preemption = p.preemption;
        sum = λ u. omega (arith, p.sum u, gone u, dead u);
        fewer = λ u. omega (arith, p.fewer u, gone u);
        found = λ v e. ((p.found v e).0, omega (arith, (p.found v e).1, gone v));
      }

  pub pick-Returns :
      (ts : List ℕ) (s : Percpu T)
      → ((u : ℕ) → count u ts ≤ queued u s)
      → ((u : ℕ) → 1 ≤ queued u s → waits (status_of u s) ≡ true)
      → Returns (λ r s'. Picked r s s') (pick q ts s)
  unfolding pick count
  pick-Returns [] s sub ws = record {
    threads = refl;
    running_thread = refl;
    idle_thread = refl;
    preemption = refl;
    sum = λ u. omega arith;
    fewer = λ u. omega arith;
    found = λ t e. absurd (ground (arith, e));
  }
  pick-Returns (t ∷ ts) s sub ws =
      let h : 1 ≤ queued t s = ground (arith, sub t) in
      let w : waits (status_of t s) ≡ true = ws t h in
      let rest : (u : ℕ) → count u ts ≤ queued u s = λ u. ground (arith, sub u) in
      elim (Status-waits (status_of t s) w) [
        | inl e ↦
            rw (pick, e)
              (record {
                threads = refl;
                running_thread = refl;
                idle_thread = refl;
                preemption = refl;
                sum = λ u. omega (arith, removed t u s h);
                fewer = λ u. omega (arith, removed t u s h);
                found = λ v v_is.
                    let same : t ≡ v = ground (arith, v_is) in
                    subst (λ x. (status_of x s ≡ ready) × (1 ≤ queued x s)) same (e, h);
              })
        | inr (inl e) ↦
            rw (pick, e)
              (bind-Returns (λ r s'. Picked r (buried t s) s') (λ r s'. Picked r s s')
                (pick q ts (buried t s)) (λ r u. ok (r.0, true) u)
                (pick-Returns ts (buried t s) (λ u. ground (arith, sub u, removed t u s h))
                  (λ u in_queue. ws u (omega (arith, in_queue, removed t u s h))))
                (λ r u p. bury t r s u h p))
        | inr (inr e) ↦ rw (pick, e) (pick-Returns ts s rest ws)
      ]
