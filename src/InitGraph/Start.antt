-- ===== src/InitGraph/Start.antt =====
-- kernel/interfaces/lib/initgraph.cppm: the state in which the loop of `engine::run` begins.
use ilobilix.Base.{
  ℕ, ◌+◌, ◌==◌, ◌≡◌, ◌≢◌, ◌≤◌, refl, ap, ◌∙◌, Bool, true, false, not, ◌&&◌, List, [], ◌∷◌,
  if◌then◌else◌, arith, Bool-cases, inl, inr, ◌⊎◌, subst,
}
use ilobilix.InitGraph.{Node, Engine, set_node, push_back, want_all, push_ready}
use ilobilix.InitGraph.Count.{occ, occ-append, missing, missing-cong}
use ilobilix.InitGraph.Loop.{done_of, Ordered, after, IsFit, IsLog}

abbrev pub out_of : {S : Type 0} → Engine S → ℕ → List ℕ
out_of e n = (e.node n).outlist

-- Each node is registered once, edges lead to registered nodes and are counted there, and nothing has
-- run yet.
pub record IsBuilt {S : Type 0} (e : Engine S) : Type 0 where
  pub once : (n : ℕ) → occ n e.nodes ≤ 1
  pub closed : (s t : ℕ) → occ s e.nodes ≡ 1 → occ t (out_of e s) ≢ 0 → occ t e.nodes ≡ 1
  pub counted :
      (t : ℕ)
      → occ t e.nodes ≡ 1
      → (e.node t).unsatisfied ≡ missing (out_of e) (λ n. false) t e.nodes
  pub fresh : (n : ℕ) → (e.node n).done ≡ false
  pub idle : e.pending ≡ []

module _ {S : Type 0} where
  abbrev Same : Engine S → Engine S → Type 0
  Same e e' =
      (e'.nodes ≡ e.nodes)
      × (e'.world ≡ e.world)
      × ((n : ℕ)
          → ((e'.node n).outlist ≡ (e.node n).outlist)
            × ((e'.node n).done ≡ (e.node n).done)
            × ((e'.node n).unsatisfied ≡ (e.node n).unsatisfied))

  want_all-Same :
      (l : List ℕ) (e : Engine S) → Same e (want_all l e) × ((want_all l e).pending ≡ e.pending)
  unfolding want_all
  want_all-Same [] e = ((refl, refl, (λ n. (refl, refl, refl))), refl)
  want_all-Same (m ∷ l) e =
      let e1 = set_node m (record (e.node m) { wanted = true }) e in
      let rest = want_all-Same l e1 in
      let kept : (n : ℕ)
          → ((e1.node n).outlist ≡ (e.node n).outlist)
            × ((e1.node n).done ≡ (e.node n).done)
            × ((e1.node n).unsatisfied ≡ (e.node n).unsatisfied) =
        λ n. elim (Bool-cases (n == m)) [
          | inl b ↦
              let same : m ≡ n = ground (arith, b) in
              (
                rw b (ap (λ (k : ℕ). (e.node k).outlist) same),
                rw b (ap (λ (k : ℕ). (e.node k).done) same),
                rw b (ap (λ (k : ℕ). (e.node k).unsatisfied) same),
              )
          | inr b ↦ (rw b refl, rw b refl, rw b refl)
        ] in
      (
        (
          rest.0.0,
          rest.0.1,
          (λ n. (
            (rest.0.2 n).0 ∙ (kept n).0,
            (rest.0.2 n).1 ∙ (kept n).1,
            (rest.0.2 n).2 ∙ (kept n).2,
          )),
        ),
        rest.1,
      )

  want_all-wanted :
      (l : List ℕ) (e : Engine S) (n : ℕ)
      → ((e.node n).wanted ≡ true) ⊎ (occ n l ≢ 0)
      → ((want_all l e).node n).wanted ≡ true
  unfolding want_all occ
  want_all-wanted [] e n (inl h) = h
  want_all-wanted [] e n (inr h) = absurd (h refl)
  want_all-wanted (m ∷ l) e n h =
      want_all-wanted l (set_node m (record (e.node m) { wanted = true }) e) n
        (elim (Bool-cases (n == m)) [
          | inl b ↦ inl (rw b refl)
          | inr b ↦ elim h [ inl w ↦ inl (rw b w) | inr o ↦ inr (λ z. o (ground (arith, b, z))) ]
        ])

  abbrev ready : Engine S → ℕ → Bool
  ready e n = (e.node n).wanted && not (e.node n).done && (e.node n).unsatisfied == 0

  push_ready-Same :
      (l : List ℕ) (e : Engine S)
      → ((push_ready l e).nodes ≡ e.nodes)
        × ((push_ready l e).world ≡ e.world)
        × ((push_ready l e).node ≡ e.node)
  unfolding push_ready
  push_ready-Same [] e = (refl, refl, refl)
  push_ready-Same (m ∷ l) e = elim (Bool-cases (ready e m)) [
    | inl b ↦ rw (push_ready, b) (push_ready-Same l (push_back m e))
    | inr b ↦ rw (push_ready, b) (push_ready-Same l e)
  ]

  push_ready-pending :
      (l : List ℕ) (e : Engine S) (n : ℕ)
      → occ n (push_ready l e).pending ≡ occ n e.pending + (if ready e n then occ n l else 0)
  unfolding push_ready occ
  push_ready-pending [] e n = ground arith
  push_ready-pending (m ∷ l) e n = elim (Bool-cases (ready e m)) [
    | inl b ↦
        rw (push_ready, b)
          (push_ready-pending l (push_back m e) n ∙ elim (Bool-cases (m == n)) [
            | inl s ↦
                let b' : ready e n ≡ true =
                  subst (λ (k : ℕ). ready e k ≡ true) (ground (arith, s)) b in
                rw b' (omega (arith, occ-append n e.pending (m ∷ [])))
            | inr s ↦ ground (arith, s, occ-append n e.pending (m ∷ []))
          ])
    | inr b ↦
        rw (push_ready, b)
          (push_ready-pending l e n ∙ elim (Bool-cases (m == n)) [
            | inl s ↦
                let b' : ready e n ≡ false =
                  subst (λ (k : ℕ). ready e k ≡ false) (ground (arith, s)) b in
                rw b' refl
            | inr s ↦ ground (arith, s)
          ])
  ]

  module _ (activate : ℕ → S → S) (e : Engine S) (built : IsBuilt e) where
    abbrev pub wanting : Engine S
    wanting = want_all e.nodes e

    abbrev pub started : Engine S
    started = push_ready e.nodes wanting

    wanting-Same : Same e wanting × (wanting.pending ≡ e.pending)
    wanting-Same = want_all-Same e.nodes e

    started-Same :
        (started.nodes ≡ wanting.nodes)
        × (started.world ≡ wanting.world)
        × (started.node ≡ wanting.node)
    started-Same = push_ready-Same e.nodes wanting

    node_same : (n : ℕ) → started.node n ≡ wanting.node n
    node_same n = ap (λ (f : ℕ → Node). f n) started-Same.2

    wants : (n : ℕ) → occ n e.nodes ≢ 0 → (wanting.node n).wanted ≡ true
    wants n o = want_all-wanted e.nodes e n (inr o)

    started-pending :
        (n : ℕ) → occ n started.pending ≡ (if ready wanting n then occ n e.nodes else 0)
    unfolding occ
    started-pending n =
        push_ready-pending e.nodes wanting n
        ∙ omega (arith, ap (occ n) (wanting-Same.1 ∙ built.idle))

    started-done : (n : ℕ) → done_of started n ≡ false
    started-done n =
        ap (λ (v : Node). v.done) (node_same n) ∙ (wanting-Same.0.2 n).1 ∙ built.fresh n

    pub started-IsFit : IsFit e.nodes (out_of e) [] started
    unfolding occ
    started-IsFit = record {
      whole = started-Same.0 ∙ wanting-Same.0.0;
      wanted =
          λ n j. ap (λ (v : Node). v.wanted) (node_same n) ∙ wants n (λ z. ground (arith, j, z));
      edges = λ n. ap (λ (v : Node). v.outlist) (node_same n) ∙ (wanting-Same.0.2 n).0;
      count = λ t j.
          ap (λ (v : Node). v.unsatisfied) (node_same t)
          ∙ (wanting-Same.0.2 t).2
          ∙ omega (
            arith,
            built.counted t j,
            missing-cong (out_of e) (done_of started) (λ n. false) t e.nodes started-done,
          );
      queue = λ n j.
          started-pending n
          ∙ rw (node_same n) (ground (arith, j, wants n (λ z. ground (arith, j, z))));
      inside = λ n o. ground (arith, o, started-pending n, built.once n);
    }

    pub started-IsLog : IsLog activate e.nodes (out_of e) e.world started []
    unfolding occ Ordered after
    started-IsLog = record {
      past = λ n j. rw started-done refl;
      only = λ n o. absurd (o refl);
      ordered = tt;
      effect = started-Same.1 ∙ wanting-Same.0.1;
    }
