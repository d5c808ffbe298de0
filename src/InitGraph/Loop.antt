-- ===== src/InitGraph/Loop.antt =====
-- kernel/interfaces/lib/initgraph.cppm: the invariant of the loop of `engine::run`,
-- and the inner loop over the edges of a node.
use ilobilix.Base.{
  ℕ, ◌+◌, ◌-◌, ◌==◌, ◌≡◌, ◌≢◌, refl, ◌∙◌, Bool, true, false, not, ◌&&◌, List, [], ◌∷◌, ◌++◌,
  if◌then◌else◌, arith, Bool-cases, inl, inr, subst,
}
use ilobilix.InitGraph.{Engine, ok, set_node, push_back, satisfy, satisfy_all}
use ilobilix.InitGraph.Count.{occ, occ-append, missing, missing-cong}

abbrev pub done_of : {S : Type 0} → Engine S → ℕ → Bool
done_of e n = (e.node n).done

pub ==_refl : (n : ℕ) → (n == n) ≡ true
==_refl n = ground arith

-- The requirements of each node of the log stand behind it, the log is the latest first.
unfoldable pub Ordered : List ℕ → (ℕ → List ℕ) → List ℕ → Type 0
unfolding occ
Ordered nodes out [] = Unit {0}
Ordered nodes out (n ∷ order) =
    (occ n order ≡ 0)
    × ((s : ℕ) → occ s nodes ≡ 1 → occ n (out s) ≢ 0 → occ s order ≡ 1)
    × Ordered nodes out order

-- What the activations of a log do to the world.
unfoldable pub after : {S : Type 0} → (ℕ → S → S) → List ℕ → S → S
after activate [] w = w
after activate (n ∷ order) w = activate n (after activate order w)

-- The counts of the nodes, where the edges to the nodes of `l` are still to be taken off, and the queue
pub record IsFit {S : Type 0} (nodes : List ℕ) (out : ℕ → List ℕ) (l : List ℕ) (e : Engine S)
    : Type 0 where
  pub whole : e.nodes ≡ nodes
  pub wanted : (n : ℕ) → occ n nodes ≡ 1 → (e.node n).wanted ≡ true
  pub edges : (n : ℕ) → (e.node n).outlist ≡ out n
  pub count :
      (t : ℕ) → occ t nodes ≡ 1 → (e.node t).unsatisfied ≡ missing out (done_of e) t nodes + occ t l
  pub queue :
      (n : ℕ)
      → occ n nodes ≡ 1
      → occ n e.pending ≡ (if not (e.node n).done && (e.node n).unsatisfied == 0 then 1 else 0)
  pub inside : (n : ℕ) → occ n e.pending ≢ 0 → occ n nodes ≡ 1

-- The log of the activations
pub record IsLog {S : Type 0} (activate : ℕ → S → S) (nodes : List ℕ) (out : ℕ → List ℕ) (world : S)
    (e : Engine S) (order : List ℕ) : Type 0 where
  pub past : (n : ℕ) → occ n nodes ≡ 1 → occ n order ≡ (if (e.node n).done then 1 else 0)
  pub only : (n : ℕ) → occ n order ≢ 0 → occ n nodes ≡ 1
  pub ordered : Ordered nodes out order
  pub effect : e.world ≡ after activate order world

-- A claim on all nodes, from one on the node that was set and one on the others.
pub split_on : (P : ℕ → Type 0) (t : ℕ) → P t → ((n : ℕ) → (n == t) ≡ false → P n) → (n : ℕ) → P n
split_on P t h k n = elim (Bool-cases (n == t)) [
  | inl e ↦ subst P (ground (arith, e)) h
  | inr e ↦ k n e
]

module _ {S : Type 0} (nodes : List ℕ) (out : ℕ → List ℕ) where
  abbrev pub Kept : Engine S → Engine S → Type 0
  Kept e e' = ((n : ℕ) → done_of e' n ≡ done_of e n) × (e'.world ≡ e.world)

  module _ (t : ℕ) (l : List ℕ) (e : Engine S) (i : occ t nodes ≡ 1)
      (f : IsFit nodes out (t ∷ l) e) where
    abbrev less : Engine S
    less = set_node t (record (e.node t) { unsatisfied = (e.node t).unsatisfied - 1 }) e

    less-done : (n : ℕ) → done_of less n ≡ done_of e n
    less-done =
        split_on (λ n. done_of less n ≡ done_of e n) t (rw (done_of, ==_refl t) refl)
          (λ n h. rw (done_of, h) refl)

    some_left : ((e.node t).unsatisfied == 0) ≡ false
    unfolding occ
    some_left = ground (arith, f.count t i)

    less-wanted : (n : ℕ) → occ n nodes ≡ 1 → (less.node n).wanted ≡ true
    less-wanted =
        split_on (λ n. occ n nodes ≡ 1 → (less.node n).wanted ≡ true) t
          (λ j. rw (==_refl t) (f.wanted t j)) (λ n h j. rw h (f.wanted n j))

    less-edges : (n : ℕ) → (less.node n).outlist ≡ out n
    less-edges =
        split_on (λ n. (less.node n).outlist ≡ out n) t (rw (==_refl t) (f.edges t))
          (λ n h. rw h (f.edges n))

    less-count :
        (n : ℕ)
        → occ n nodes ≡ 1
        → (less.node n).unsatisfied ≡ missing out (done_of less) n nodes + occ n l
    unfolding occ
    less-count =
        split_on
          (λ n.
            occ n nodes ≡ 1
            → (less.node n).unsatisfied ≡ missing out (done_of less) n nodes + occ n l)
          t
          (λ j. rw (==_refl t) (
            ground
              (arith, f.count t j, missing-cong out (done_of less) (done_of e) t nodes less-done)))
          (λ n h j. rw h (
            ground (
              arith,
              h,
              f.count n j,
              missing-cong out (done_of less) (done_of e) n nodes less-done,
            )))

    less-queue :
        (p : List ℕ)
        → ((n : ℕ) → (n == t) ≡ false → occ n p ≡ occ n e.pending)
        → occ t p ≡ (if not (e.node t).done && (e.node t).unsatisfied - 1 == 0 then 1 else 0)
        → (n : ℕ) → occ n nodes ≡ 1
        → occ n p ≡ (if not (less.node n).done && (less.node n).unsatisfied == 0 then 1 else 0)
    less-queue p same own =
        split_on
          (λ n.
            occ n nodes ≡ 1
            → occ n p ≡ (if not (less.node n).done && (less.node n).unsatisfied == 0 then 1 else 0))
          t (λ j. rw (==_refl t) own) (λ n h j. rw h (same n h ∙ f.queue n j))

    satisfy_runs : (e' : Engine S) × (satisfy t e ≡ ok e') × IsFit nodes out l e' × Kept e e'
    unfolding satisfy occ
    satisfy_runs =
        elim (Bool-cases
          ((e.node t).wanted && not (e.node t).done && (e.node t).unsatisfied - 1 == 0)) [
            | inl b ↦ (
              push_back t less,
              rw (some_left, b) refl,
              record {
                whole = f.whole;
                wanted = less-wanted;
                edges = less-edges;
                count = less-count;
                queue =
                    less-queue (e.pending ++ (t ∷ []))
                      (λ n h. occ-append n e.pending (t ∷ []) ∙ ground (arith, h))
                      (occ-append t e.pending (t ∷ []) ∙ ground (arith, b, f.queue t i, some_left));
                inside =
                    split_on (λ n. occ n (e.pending ++ (t ∷ [])) ≢ 0 → occ n nodes ≡ 1) t (λ o. i)
                      (λ n h o.
                        f.inside n
                          (λ z. o (occ-append n e.pending (t ∷ []) ∙ ground (arith, h, z))));
              },
              (less-done, refl),
            )
            | inr b ↦ (
              less,
              rw (some_left, b) refl,
              record {
                whole = f.whole;
                wanted = less-wanted;
                edges = less-edges;
                count = less-count;
                queue =
                    less-queue e.pending (λ n h. refl)
                      (ground (arith, b, f.wanted t i, f.queue t i, some_left));
                inside = f.inside;
              },
              (less-done, refl),
            )
          ]

  pub satisfy_all_runs :
      (l : List ℕ) (e : Engine S)
      → ((n : ℕ) → occ n l ≢ 0 → occ n nodes ≡ 1)
      → IsFit nodes out l e
      → (e' : Engine S) × (satisfy_all l e ≡ ok e') × IsFit nodes out [] e' × Kept e e'
  unfolding satisfy_all occ
  satisfy_all_runs [] e h f = (e, refl, f, ((λ n. refl), refl))
  satisfy_all_runs (t ∷ l) e h f =
      let one = satisfy_runs t l e (h t (λ z. ground (arith, z))) f in
      let rest = satisfy_all_runs l one.0 (λ n o. h n (λ z. o (omega (arith, z)))) one.2 in
      (
        rest.0,
        rw (satisfy, one.1) rest.1,
        rest.2,
        ((λ n. rest.3.0 n ∙ one.3.0 n), rest.3.1 ∙ one.3.1),
      )
