-- ===== src/InitGraph/Run.antt =====
-- kernel/interfaces/lib/initgraph.cppm: what `engine::run` does on a graph with and without cycles.
use ilobilix.Base.{
  ℕ, zero, suc, ◌==◌, ◌≡◌, ◌≢◌, ◌≤◌, ◌<◌, refl, Bool, true, false, List, [], ◌∷◌, length, arith,
  Bool-cases, inl, inr, subst,
}
use ilobilix.InitGraph.{Engine, ok, stopped, loop, unreached, run}
use ilobilix.InitGraph.Count.{occ, missing, missing_some, waiting-length}
use ilobilix.InitGraph.Loop.{done_of, Ordered, after, IsFit, IsLog}
use ilobilix.InitGraph.Round.{loop_runs}
use ilobilix.InitGraph.Start.{out_of, IsBuilt, started, started-IsFit, started-IsLog}

-- A node of a set in which each has a requirement in the set stands in no log.
cycle_unlogged :
    (nodes : List ℕ) (out : ℕ → List ℕ) (cyclic : ℕ → Bool) (order : List ℕ)
    → ((t : ℕ)
        → cyclic t ≡ true
        → (s : ℕ) × (cyclic s ≡ true) × (occ s nodes ≡ 1) × (occ t (out s) ≢ 0))
    → Ordered nodes out order
    → (n : ℕ) → cyclic n ≡ true
    → occ n order ≡ 0
unfolding Ordered occ
cycle_unlogged nodes out cyclic [] c h n y = refl
cycle_unlogged nodes out cyclic (m ∷ order) c h n y = elim (Bool-cases (m == n)) [
  | inl b ↦
      let same : n ≡ m = ground (arith, b) in
      let s = c m (subst (λ (k : ℕ). cyclic k ≡ true) same y) in
      absurd (omega (arith, h.1 s.0 s.2 s.3, cycle_unlogged nodes out cyclic order c h.2 s.0 s.1))
  | inr b ↦ ground (arith, b, cycle_unlogged nodes out cyclic order c h.2 n y)
]

module _ {S : Type 0} where
  unreached_none :
      (l : List ℕ) (e : Engine S) → ((n : ℕ) → occ n l ≢ 0 → done_of e n ≡ true) → unreached l e ≡ 0
  unfolding unreached occ
  unreached_none [] e h = refl
  unreached_none (m ∷ l) e h =
      let here : done_of e m ≡ true = h m (λ z. ground (arith, z)) in
      ground (arith, here, unreached_none l e (λ n o. h n (λ z. o (omega (arith, z)))))

  unreached_some :
      (n : ℕ) (l : List ℕ) (e : Engine S)
      → occ n l ≢ 0
      → (e.node n).wanted ≡ true
      → done_of e n ≡ false
      → unreached l e ≢ 0
  unfolding unreached occ
  unreached_some n [] e o w d z = o refl
  unreached_some n (m ∷ l) e o w d z = elim (Bool-cases (m == n)) [
    | inl b ↦
        let same : n ≡ m = ground (arith, b) in
        let w' : (e.node m).wanted ≡ true = subst (λ (k : ℕ). (e.node k).wanted ≡ true) same w in
        let d' : (e.node m).done ≡ false = subst (λ (k : ℕ). (e.node k).done ≡ false) same d in
        ground (arith, w', d', z)
    | inr b ↦ unreached_some n l e (ground (arith, b)) w d (omega (arith, z))
  ]

  -- With every edge from a lower to a higher rank, an idle loop has done all nodes.
  finished :
      (nodes : List ℕ) (out : ℕ → List ℕ) (rank : ℕ → ℕ) (e : Engine S)
      → ((n : ℕ) → occ n nodes ≤ 1)
      → ((s t : ℕ) → occ s nodes ≡ 1 → occ t (out s) ≢ 0 → rank s < rank t)
      → IsFit nodes out [] e
      → ((n : ℕ) → occ n nodes ≡ 1 → occ n e.pending ≡ 0)
      → (k n : ℕ) → occ n nodes ≡ 1
      → rank n < k
      → done_of e n ≡ true
  unfolding occ
  finished nodes out rank e once acyclic f idle zero n j l = absurd (omega (arith, l))
  finished nodes out rank e once acyclic f idle (suc k) n j l = elim (Bool-cases (done_of e n)) [
    | inl d ↦ d
    | inr d ↦
        let lacking : missing out (done_of e) n nodes ≢ 0 =
          λ z. ground (arith, d, z, idle n j, f.queue n j, f.count n j) in
        let s = missing_some out (done_of e) n nodes lacking in
        let sj : occ s.0 nodes ≡ 1 = ground (arith, once s.0, s.1) in
        let sd =
          finished nodes out rank e once acyclic f idle k s.0 sj
            (omega (arith, l, acyclic s.0 n sj s.3)) in
        absurd (cc (s.2, sd))
  ]

  module _ (activate : ℕ → S → S) (e : Engine S) (built : IsBuilt e) where
    looped :
        (e' : Engine S) × (order : List ℕ) × (loop activate
            (length e.nodes)
            (started activate e built)
          ≡ ok e')
        × IsFit e.nodes (out_of e) [] e'
        × IsLog activate e.nodes (out_of e) e.world e' order
        × ((n : ℕ) → occ n e.nodes ≡ 1 → occ n e'.pending ≡ 0)
    looped =
        loop_runs activate e.nodes (out_of e) e.world built.closed (length e.nodes)
          (started activate e built) []
          (waiting-length (done_of (started activate e built)) e.nodes)
          (started-IsFit activate e built) (started-IsLog activate e built)

    -- On a built graph (each node registered once, edges to registered nodes and counted there,
    -- nothing done yet) whose edges all lead from a lower to a higher rank, run ends without a stop.
    -- There is an order in which each registered node stands exactly once and nothing else, the
    -- requirements of each node before it (the list has the latest first), and the world is what the
    -- activations in that order make of the world before.
    pub run_acyclic :
        (rank : ℕ → ℕ)
        → ((s t : ℕ) → occ s e.nodes ≡ 1 → occ t (out_of e s) ≢ 0 → rank s < rank t)
        → (e' : Engine S) × (order : List ℕ) × (run activate e ≡ ok e')
          × Ordered e.nodes (out_of e) order
          × ((n : ℕ) → occ n order ≡ occ n e.nodes)
          × (e'.world ≡ after activate order e.world)
    unfolding run
    run_acyclic rank acyclic =
        let end = looped.0 in
        let f = looped.3 in
        let g = looped.4 in
        let done : (n : ℕ) → occ n e.nodes ≡ 1 → done_of end n ≡ true = λ n j.
          finished e.nodes (out_of e) rank end built.once acyclic f looped.5 (suc (rank n)) n j
            (omega arith) in
        let none : unreached end.nodes end ≡ 0 =
          rw f.whole
            (unreached_none e.nodes end (λ n o. done n (ground (arith, o, built.once n)))) in
        (
          end,
          looped.1,
          rw (loop, looped.2, none) refl,
          g.ordered,
          (λ n. elim (Bool-cases (occ n e.nodes == 1)) [
            | inl b ↦ ground (arith, b, g.past n (ground (arith, b)), done n (ground (arith, b)))
            | inr b ↦ ground (arith, b, built.once n, g.only n)
          ]),
          g.effect,
        )

    -- On a built graph (each node registered once, edges to registered nodes and counted there,
    -- nothing done yet) that has a node in a set of which each member requires a registered member of
    -- the set, as on a cycle, run stops the kernel.
    pub run_cyclic :
        (cyclic : ℕ → Bool) (n : ℕ)
        → cyclic n ≡ true
        → occ n e.nodes ≡ 1
        → ((t : ℕ)
            → cyclic t ≡ true
            → (s : ℕ) × (cyclic s ≡ true) × (occ s e.nodes ≡ 1) × (occ t (out_of e s) ≢ 0))
        → run activate e ≡ stopped
    unfolding run
    run_cyclic cyclic n y j c =
        let end = looped.0 in
        let f = looped.3 in
        let g = looped.4 in
        let out = cycle_unlogged e.nodes (out_of e) cyclic looped.1 c g.ordered n y in
        let waits : done_of end n ≡ false = ground (arith, out, g.past n j) in
        let some : (unreached end.nodes end == 0) ≡ false = rw f.whole (
          ground (
            arith,
            unreached_some n e.nodes end (λ z. ground (arith, j, z)) (f.wanted n j) waits,
          )) in
        rw (loop, looped.2, some) refl
