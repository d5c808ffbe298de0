-- ===== src/InitGraph/Build.antt =====
-- kernel/interfaces/lib/initgraph.cppm: the graphs that `realise_node` and `realise_edge` build.
use ilobilix.Base.{
  ℕ, ◌+◌, ◌^◌, ◌==◌, ◌≡◌, ◌<◌, refl, sym, ap, ◌∙◌, u32, Bool, false, List, [], ◌∷◌, ◌++◌,
  if◌then◌else◌, arith, Bool-cases, inl, inr, subst,
}
use ilobilix.InitGraph.{Engine, set_node, realise_node, realise_edge}
use ilobilix.InitGraph.Count.{occ, occ-append, missing, missing_some}
use ilobilix.InitGraph.Loop.{split_on, ==_refl}
use ilobilix.InitGraph.Start.{IsBuilt, out_of}

abbrev idle_done : ℕ → Bool
idle_done n = false

missing-append :
    (out : ℕ → List ℕ) (t : ℕ) (l m : List ℕ)
    → missing out idle_done t (l ++ m) ≡ missing out idle_done t l + missing out idle_done t m
unfolding missing
missing-append out t [] m = omega arith
missing-append out t (s ∷ l) m = omega (arith, missing-append out t l m)

-- One more edge from `source` to `target`
missing-edge :
    (out out' : ℕ → List ℕ) (source target t : ℕ) (l : List ℕ)
    → (occ t (out' source) ≡ occ t (out source) + (if target == t then 1 else 0))
    → ((s : ℕ) → (s == source) ≡ false → out' s ≡ out s)
    → missing out' idle_done t l
      ≡ missing out idle_done t l + (if target == t then occ source l else 0)
unfolding missing occ
missing-edge out out' source target t [] h k = ground arith
missing-edge out out' source target t (s ∷ l) h k = elim (Bool-cases (s == source)) [
  | inl b ↦
      let same : source ≡ s = ground (arith, b) in
      let here : occ t (out' s) ≡ occ t (out s) + (if target == t then 1 else 0) =
        subst (λ (r : ℕ). occ t (out' r) ≡ occ t (out r) + (if target == t then 1 else 0)) same h in
      ground (arith, b, here, missing-edge out out' source target t l h k)
  | inr b ↦ ground (arith, b, ap (occ t) (k s b), missing-edge out out' source target t l h k)
]

module _ {S : Type 0} where
  -- No edge leads to a node that is not registered.
  missing_new :
      (n : ℕ) (e : Engine S)
      → IsBuilt e
      → occ n e.nodes ≡ 0
      → missing (out_of e) idle_done n e.nodes ≡ 0
  missing_new n e b new = elim (Bool-cases (missing (out_of e) idle_done n e.nodes == 0)) [
    | inl z ↦ ground (arith, z)
    | inr z ↦
        let s = missing_some (out_of e) idle_done n e.nodes (ground (arith, z)) in
        let registered : occ n e.nodes ≡ 1 = b.closed s.0 n (ground (arith, s.1, b.once s.0)) s.3 in
        absurd (omega (arith, registered, new))
  ]

  -- A new node without edges keeps a graph built.
  pub realise_node-IsBuilt :
      (n : ℕ) (e : Engine S)
      → IsBuilt e
      → occ n e.nodes ≡ 0
      → (e.node n).outlist ≡ []
      → (e.node n).unsatisfied ≡ 0
      → IsBuilt (realise_node n e)
  unfolding realise_node occ missing
  realise_node-IsBuilt n e b new alone unmet = record {
    once = λ m. ground (arith, occ-append m e.nodes (n ∷ []), b.once m, new);
    closed = λ s t j o. elim (Bool-cases (n == s)) [
      | inl y ↦ absurd (
          o (
            subst (λ (k : ℕ). occ t (e.node k).outlist ≡ 0) (ground (arith, y)) (ap (occ t) alone)))
      | inr y ↦
          let old = b.closed s t (ground (arith, j, y, occ-append s e.nodes (n ∷ []))) o in
          elim (Bool-cases (n == t)) [
            | inl z ↦
                let none : occ t e.nodes ≡ 0 =
                  subst (λ (k : ℕ). occ k e.nodes ≡ 0) (ground (arith, z)) new in
                absurd (omega (arith, none, old))
            | inr z ↦ occ-append t e.nodes (n ∷ []) ∙ ground (arith, z, old)
          ]
    ];
    counted = λ t j.
        let more : missing (out_of e) idle_done t (e.nodes ++ (n ∷ []))
            ≡ missing (out_of e) idle_done t e.nodes =
          missing-append (out_of e) t e.nodes (n ∷ []) ∙ omega (arith, ap (occ t) alone) in
        elim (Bool-cases (n == t)) [
          | inl z ↦
              subst
                (λ (k : ℕ).
                  (e.node k).unsatisfied ≡ missing (out_of e) idle_done k (e.nodes ++ (n ∷ [])))
                (ground (arith, z))
                (unmet
                  ∙ sym (
                      missing-append (out_of e) n e.nodes (n ∷ [])
                      ∙ omega (arith, missing_new n e b new, ap (occ n) alone)))
          | inr z ↦ b.counted t (ground (arith, j, z, occ-append t e.nodes (n ∷ []))) ∙ sym more
        ];
    fresh = b.fresh;
    idle = b.idle;
  }

  module _ (source target : ℕ) (e : Engine S) where
    abbrev sent : Engine S
    sent =
        set_node source
          (record (e.node source) { outlist = (e.node source).outlist ++ (target ∷ []) }) e

    abbrev joined : Engine S
    unfolding realise_edge
    joined = realise_edge source target e

    joined-out : (m : ℕ) → out_of joined m ≡ out_of sent m
    unfolding joined
    joined-out =
        split_on (λ m. out_of joined m ≡ out_of sent m) target (rw (out_of, ==_refl target) refl)
          (λ m h. rw (out_of, h) refl)

    sent-done : (m : ℕ) → (sent.node m).done ≡ (e.node m).done
    sent-done =
        split_on (λ m. (sent.node m).done ≡ (e.node m).done) source (rw (==_refl source) refl)
          (λ m h. rw h refl)

    sent-unsatisfied : (m : ℕ) → (sent.node m).unsatisfied ≡ (e.node m).unsatisfied
    sent-unsatisfied =
        split_on (λ m. (sent.node m).unsatisfied ≡ (e.node m).unsatisfied) source
          (rw (==_refl source) refl) (λ m h. rw h refl)

    joined-done : (m : ℕ) → ((joined.node m).done ≡ (e.node m).done)
    unfolding joined
    joined-done =
        split_on (λ m. (joined.node m).done ≡ (e.node m).done) target
          (rw (==_refl target) (sent-done target)) (λ m h. rw h (sent-done m))

    joined-other : (m : ℕ) → (m == source) ≡ false → out_of joined m ≡ out_of e m
    joined-other m h = joined-out m ∙ rw (out_of, h) refl

    joined-source : out_of joined source ≡ out_of e source ++ (target ∷ [])
    joined-source = joined-out source ∙ rw (out_of, ==_refl source) refl

    joined-unsatisfied :
        (e.node target).unsatisfied + 1 < 2 ^ 32
        → (m : ℕ)
        → (joined.node m).unsatisfied ≡ (e.node m).unsatisfied + (if target == m then 1 else 0)
    unfolding joined
    joined-unsatisfied h =
        split_on
          (λ m.
            (joined.node m).unsatisfied ≡ (e.node m).unsatisfied + (if target == m then 1 else 0))
          target
          (rw (==_refl target)
            (ap (λ (u : ℕ). u32 (u + 1)) (sent-unsatisfied target) ∙ ground (arith, h)))
          (λ m n. rw n (sent-unsatisfied m ∙ ground (arith, n)))

    joined-source-occ :
        (t : ℕ)
        → occ t (out_of joined source) ≡ occ t (out_of e source) + (if target == t then 1 else 0)
    unfolding occ
    joined-source-occ t =
        ap (occ t) joined-source ∙ occ-append t (out_of e source) (target ∷ []) ∙ ground arith

    -- An edge between registered nodes keeps a graph built, as long as the counter does not wrap.
    pub realise_edge-IsBuilt :
        IsBuilt e
        → occ source e.nodes ≡ 1
        → occ target e.nodes ≡ 1
        → (e.node target).unsatisfied + 1 < 2 ^ 32
        → IsBuilt (realise_edge source target e)
    unfolding occ realise_edge
    realise_edge-IsBuilt b js jt small = record {
      once = b.once;
      closed = λ s t j o. elim (Bool-cases (s == source)) [
        | inl y ↦
            let same : source ≡ s = ground (arith, y) in
            let at : occ t (out_of joined s) ≡ occ t (out_of e s) + (if target == t then 1 else 0) =
              subst
                (λ (r : ℕ).
                  occ t (out_of joined r) ≡ occ t (out_of e r) + (if target == t then 1 else 0))
                same (joined-source-occ t) in
            elim (Bool-cases (target == t)) [
              | inl z ↦ subst (λ (k : ℕ). occ k e.nodes ≡ 1) (ground (arith, z)) jt
              | inr z ↦ b.closed s t j (λ w. o (at ∙ ground (arith, z, w)))
            ]
        | inr y ↦ b.closed s t j (λ z. o (ap (occ t) (joined-other s y) ∙ z))
      ];
      counted = λ t j.
          joined-unsatisfied small t
          ∙ ground (
            arith,
            js,
            b.counted t j,
            missing-edge (out_of e) (out_of joined) source target t e.nodes (joined-source-occ t)
                joined-other,
          );
      fresh = λ m. joined-done m ∙ b.fresh m;
      idle = b.idle;
    }
