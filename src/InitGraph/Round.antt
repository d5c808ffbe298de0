-- ===== src/InitGraph/Round.antt =====
-- kernel/interfaces/lib/initgraph.cppm: a round of the loop of `engine::run`, and the whole loop.
use ilobilix.Base.{
  ℕ, zero, suc, ◌+◌, ◌==◌, ◌≡◌, ◌≢◌, ◌≤◌, refl, sym, ap, ◌∙◌, Bool, true, false, not, ◌&&◌, ◌||◌,
  List, [], ◌∷◌, if◌then◌else◌, arith, inl, inr,
}
use ilobilix.InitGraph.{Engine, ok, set_node, satisfy_all, visit, loop}
use ilobilix.InitGraph.Count.{
  occ, missing, missing-mark, missing-cong, missing_none, waiting, waiting-mark, waiting-cong,
  waiting_none, mark, List-cases,
}
use ilobilix.InitGraph.Loop.{
  done_of, Ordered, after, IsFit, IsLog, split_on, ==_refl, satisfy_all_runs,
}

module _ {S : Type 0} (activate : ℕ → S → S) (nodes : List ℕ) (out : ℕ → List ℕ) (world : S)
    (closed : (s t : ℕ) → occ s nodes ≡ 1 → occ t (out s) ≢ 0 → occ t nodes ≡ 1) where
  module _ (current : ℕ) (rest : List ℕ) (order : List ℕ) (e : Engine S)
      (q : e.pending ≡ current ∷ rest) (f : IsFit nodes out [] e)
      (g : IsLog activate nodes out world e order) where
    abbrev begun : Engine S
    begun =
        set_node current (record (e.node current) { done = true })
          (record e { pending = rest; world = activate current e.world })

    held : (n : ℕ) → occ n e.pending ≡ (if current == n then 1 else 0) + occ n rest
    unfolding occ
    held n = ap (occ n) q

    present : occ current nodes ≡ 1
    present = f.inside current (λ z. ground (arith, z, held current))

    fresh :
        ((e.node current).done ≡ false)
        × ((e.node current).unsatisfied ≡ 0)
        × (occ current rest ≡ 0)
    unfolding occ
    fresh = (
      ground (arith, held current, f.queue current present),
      ground (arith, held current, f.queue current present),
      ground (arith, held current, f.queue current present),
    )

    begun-done : (n : ℕ) → done_of begun n ≡ mark current (done_of e) n
    begun-done =
        split_on (λ n. done_of begun n ≡ mark current (done_of e) n) current
          (rw (done_of, ==_refl current) refl) (λ n h. rw (done_of, h) refl)

    begun-count :
        (n : ℕ)
        → occ n nodes ≡ 1
        → (e.node n).unsatisfied ≡ missing out (done_of begun) n nodes + occ n (out current)
    unfolding occ
    begun-count n j = omega (
      arith,
      f.count n j,
      missing-mark out (done_of e) current n nodes present fresh.0,
      missing-cong out (done_of begun) (mark current (done_of e)) n nodes begun-done,
    )

    begun-IsFit : IsFit nodes out (out current) begun
    unfolding occ
    begun-IsFit = record {
      whole = f.whole;
      wanted =
          split_on (λ n. occ n nodes ≡ 1 → (begun.node n).wanted ≡ true) current
            (λ j. rw (==_refl current) (f.wanted current j)) (λ n h j. rw h (f.wanted n j));
      edges =
          split_on (λ n. (begun.node n).outlist ≡ out n) current
            (rw (==_refl current) (f.edges current)) (λ n h. rw h (f.edges n));
      count =
          split_on
            (λ n.
              occ n nodes ≡ 1
              → (begun.node n).unsatisfied
                ≡ missing out (done_of begun) n nodes + occ n (out current))
            current (λ j. rw (==_refl current) (begun-count current j))
            (λ n h j. rw h (begun-count n j));
      queue =
          split_on
            (λ n.
              occ n nodes ≡ 1
              → occ n rest
                ≡ (if not (begun.node n).done && (begun.node n).unsatisfied == 0 then 1 else 0))
            current (λ j. rw (==_refl current) fresh.2)
            (λ n h j. rw h (ground (arith, h, held n, f.queue n j)));
      inside = λ n o. f.inside n (λ z. o (ground (arith, z, held n)));
    }

    none_missing : missing out (done_of e) current nodes ≡ 0
    unfolding occ
    none_missing = omega (arith, f.count current present, fresh.1)

    begun-IsLog : IsLog activate nodes out world begun (current ∷ order)
    unfolding occ Ordered after
    begun-IsLog = record {
      past =
          split_on
            (λ n.
              occ n nodes ≡ 1 → occ n (current ∷ order) ≡ (if (begun.node n).done then 1 else 0))
            current (λ j. rw (==_refl current) (ground (arith, g.past current present, fresh.0)))
            (λ n h j. rw h (ground (arith, h, g.past n j)));
      only =
          split_on (λ n. occ n (current ∷ order) ≢ 0 → occ n nodes ≡ 1) current (λ o. present)
            (λ n h o. g.only n (λ z. o (ground (arith, h, z))));
      ordered = (
        ground (arith, g.past current present, fresh.0),
        (λ s j o.
            g.past s j
            ∙ rw
                (missing_none out (done_of e) s current nodes none_missing
                  (λ z. ground (arith, j, z)) o)
                refl),
        g.ordered,
      );
      effect = ap (activate current) g.effect;
    }

    visit_step :
        visit activate current (record e { pending = rest }) ≡ satisfy_all (out current) begun
    unfolding visit
    visit_step =
        let guard : (not (e.node current).wanted || (e.node current).done) ≡ false =
          ground (arith, f.wanted current present, fresh.0) in
        let edge : (begun.node current).outlist ≡ out current =
          rw (==_refl current) (f.edges current) in
        rw guard (ap (λ (l : List ℕ). satisfy_all l begun) edge)

    -- A round of the loop runs through, and one node less is waiting.
    visit_runs :
        (e' : Engine S) × (visit activate current (record e { pending = rest }) ≡ ok e')
        × IsFit nodes out [] e'
        × IsLog activate nodes out world e' (current ∷ order)
        × (waiting (done_of e) nodes ≡ suc (waiting (done_of e') nodes))
    visit_runs =
        let all =
          satisfy_all_runs nodes out (out current) begun (λ t o. closed current t present o)
            begun-IsFit in
        (
          all.0,
          visit_step ∙ all.1,
          all.2,
          record {
            past = λ n j.
                begun-IsLog.past n j ∙ ap (λ (b : Bool). if b then 1 else 0) (sym (all.3.0 n));
            only = begun-IsLog.only;
            ordered = begun-IsLog.ordered;
            effect = all.3.1 ∙ begun-IsLog.effect;
          },
          omega (
            arith,
            waiting-mark out (done_of e) current nodes present fresh.0,
            waiting-cong (done_of all.0) (mark current (done_of e)) nodes
                (λ n. all.3.0 n ∙ begun-done n),
          ),
        )

  pub loop_runs :
      (fuel : ℕ) (e : Engine S) (order : List ℕ)
      → waiting (done_of e) nodes ≤ fuel
      → IsFit nodes out [] e
      → IsLog activate nodes out world e order
      → (e' : Engine S) × (order' : List ℕ) × (loop activate fuel e ≡ ok e')
        × IsFit nodes out [] e'
        × IsLog activate nodes out world e' order'
        × ((n : ℕ) → occ n nodes ≡ 1 → occ n e'.pending ≡ 0)
  unfolding loop occ
  loop_runs zero e order w f g = (
    e,
    order,
    refl,
    f,
    g,
    λ n j.
        let past : (e.node n).done ≡ true =
          waiting_none out (done_of e) n nodes (omega (arith, w)) (λ z. ground (arith, j, z)) in
        f.queue n j ∙ rw past refl,
  )
  loop_runs (suc fuel) e order w f g = elim (List-cases e.pending) [
    | inl none ↦ (e, order, rw none refl, f, g, λ n j. ap (occ n) none)
    | inr more ↦
        let one = visit_runs more.0 more.1 order e more.2 f g in
        let rest = loop_runs fuel one.0 (more.0 ∷ order) (omega (arith, w, one.4)) one.2 one.3 in
        (rest.0, rest.1, rw (more.2, visit, one.1) rest.2, rest.3, rest.4, rest.5)
  ]
