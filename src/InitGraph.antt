-- ===== src/InitGraph.antt =====
-- kernel/interfaces/lib/initgraph.cppm: the graph of initialisation nodes and `engine::run`. Nodes are
-- numbers that pointers stand for; an edge stands in the list of its source by its target and in that
-- of its target by its source. The virtual `activate` is a parameter that acts on a world of its own.
pub mod Count
pub mod Loop
pub mod Round
pub mod Start
pub mod Run
pub mod Build
pub mod Tests
use ilobilix.Base.{
  ℕ, zero, suc, ◌+◌, ◌-◌, ◌==◌, Bool, true, false, not, ◌&&◌, ◌||◌, List, [], ◌∷◌, ◌++◌,
  if◌then◌else◌, length, u32,
}

pub record Node : Type 0 where
  pub outlist : List ℕ
  pub inlist : List ℕ
  pub wanted : Bool
  pub done : Bool
  pub unsatisfied : ℕ

pub record Engine (S : Type 0) : Type 0 where
  pub nodes : List ℕ
  pub pending : List ℕ
  pub node : ℕ → Node
  pub world : S

-- A `bug_on`, or the panic on unreached nodes
pub data Result (A : Type 0) : Type 0 where
  ok : A → Result A
  stopped : Result A

infixl 5 ◌>>=◌
abbrev pub ◌>>=◌ : {A B : Type 0} → Result A → (A → Result B) → Result B
ok a >>= f = f a
stopped >>= f = stopped

module _ {S : Type 0} where
  abbrev pub set_node : ℕ → Node → Engine S → Engine S
  set_node n v e = record e { node = λ m. if m == n then v else e.node m }

  abbrev pub push_back : ℕ → Engine S → Engine S
  push_back n e = record e { pending = e.pending ++ (n ∷ []) }

  unfoldable pub realise_node : ℕ → Engine S → Engine S
  realise_node n e = record e { nodes = e.nodes ++ (n ∷ []) }

  unfoldable pub realise_edge : ℕ → ℕ → Engine S → Engine S
  realise_edge source target e =
      let e1 =
        set_node source
          (record (e.node source) { outlist = (e.node source).outlist ++ (target ∷ []) }) e in
      set_node target
        (record (e1.node target) {
          inlist = (e1.node target).inlist ++ (source ∷ []);
          unsatisfied = u32 ((e1.node target).unsatisfied + 1);
        })
        e1

  -- One round of the loop over `current->_outlist`
  unfoldable pub satisfy : ℕ → Engine S → Result (Engine S)
  satisfy successor e =
      let v = e.node successor in
      let left = v.unsatisfied - 1 in
      let e1 = set_node successor (record v { unsatisfied = left }) e in
      if v.unsatisfied == 0
      then stopped
      else ok (if v.wanted && not v.done && left == 0 then push_back successor e1 else e1)

  unfoldable pub satisfy_all : List ℕ → Engine S → Result (Engine S)
  unfolding satisfy
  satisfy_all [] e = ok e
  satisfy_all (successor ∷ l) e = satisfy successor e >>= λ e'. satisfy_all l e'

  unfoldable pub want_all : List ℕ → Engine S → Engine S
  want_all [] e = e
  want_all (n ∷ l) e = want_all l (set_node n (record (e.node n) { wanted = true }) e)

  unfoldable pub push_ready : List ℕ → Engine S → Engine S
  push_ready [] e = e
  push_ready (n ∷ l) e = push_ready l (
      if (e.node n).wanted && not (e.node n).done && (e.node n).unsatisfied == 0
      then push_back n e
      else e)

  unfoldable pub unreached : List ℕ → Engine S → ℕ
  unreached [] e = 0
  unreached (n ∷ l) e = (if (e.node n).wanted && not (e.node n).done then 1 else 0) + unreached l e

  module _ (activate : ℕ → S → S) where
    -- One round of `while (!_pending.empty())`, for the node that was at the front
    unfoldable pub visit : ℕ → Engine S → Result (Engine S)
    unfolding satisfy_all
    visit current e =
        let e1 =
          set_node current (record (e.node current) { done = true })
            (record e { world = activate current e.world }) in
        if not (e.node current).wanted || (e.node current).done
        then stopped
        else satisfy_all (e1.node current).outlist e1

    -- The loop, on fuel
    unfoldable pub loop : ℕ → Engine S → Result (Engine S)
    unfolding visit
    loop zero e = ok e
    loop (suc fuel) e = elim (e.pending) [
      | [] ↦ ok e
      | current ∷ rest ↦ visit current (record e { pending = rest }) >>= λ e'. loop fuel e'
    ]

    unfoldable pub run : Engine S → Result (Engine S)
    unfolding want_all push_ready loop unreached
    run e = loop (length e.nodes) (push_ready e.nodes (want_all e.nodes e)) >>= λ e'.
        (if unreached e'.nodes e' == 0 then ok e' else stopped)
