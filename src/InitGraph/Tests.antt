-- ===== src/InitGraph/Tests.antt =====
-- Graphs of kernel/interfaces/lib/initgraph.cppm that run, and one that does not.
use ilobilix.Base.{
  ℕ, ◌==◌, ◌≡◌, ◌≢◌, ◌<◌, refl, Bool, true, false, ◌||◌, List, [], ◌∷◌, ◌++◌, arith, Bool-cases,
  inl, inr,
}
use ilobilix.InitGraph.{Engine, Result, ok, stopped, realise_node, realise_edge, run}
use ilobilix.InitGraph.Count.{occ}
use ilobilix.InitGraph.Loop.{Ordered, after}
use ilobilix.InitGraph.Start.{IsBuilt, out_of}
use ilobilix.InitGraph.Run.{run_acyclic, run_cyclic}
use ilobilix.InitGraph.Build.{realise_node-IsBuilt, realise_edge-IsBuilt}

-- An activation notes its node.
abbrev note : ℕ → List ℕ → List ℕ
note n w = w ++ (n ∷ [])

abbrev blank : Engine (List ℕ)
blank = record {
  nodes = [];
  pending = [];
  node = λ n. record { outlist = []; inlist = []; wanted = false; done = false; unsatisfied = 0 };
  world = [];
}

blank-IsBuilt : IsBuilt blank
unfolding occ
blank-IsBuilt = record {
  once = λ n. omega arith;
  closed = λ s t j o. absurd (omega (arith, j));
  counted = λ t j. absurd (omega (arith, j));
  fresh = λ n. refl;
  idle = refl;
}

abbrev pair : Engine (List ℕ)
unfolding realise_node
pair = realise_node 2 (realise_node 1 blank)

pair-IsBuilt : IsBuilt pair
unfolding realise_node occ
pair-IsBuilt =
    realise_node-IsBuilt 2 (realise_node 1 blank)
      (realise_node-IsBuilt 1 blank blank-IsBuilt refl refl refl) refl refl refl

-- Node 2 requires node 1.
abbrev chain : Engine (List ℕ)
unfolding realise_edge pair
chain = realise_edge 1 2 pair

chain-IsBuilt : IsBuilt chain
unfolding realise_node realise_edge occ pair chain
chain-IsBuilt = realise_edge-IsBuilt 1 2 pair pair-IsBuilt refl refl (omega arith)

-- Each requires the other.
abbrev ring : Engine (List ℕ)
unfolding realise_edge chain
ring = realise_edge 2 1 chain

ring-IsBuilt : IsBuilt ring
unfolding realise_node realise_edge occ pair chain ring
ring-IsBuilt = realise_edge-IsBuilt 2 1 chain chain-IsBuilt refl refl (omega arith)

world_of : Result (Engine (List ℕ)) → List ℕ
world_of (ok e) = e.world
world_of stopped = []

chain_test : world_of (run note chain) ≡ 1 ∷ 2 ∷ []
unfolding run chain world_of
chain_test = refl

ring_test : run note ring ≡ stopped
unfolding run ring
ring_test = refl

chain_rank : (s t : ℕ) → occ s chain.nodes ≡ 1 → occ t (out_of chain s) ≢ 0 → s < t
unfolding chain pair realise_edge realise_node occ
chain_rank s t j o = ground (arith, j, o)

run_acyclic_example :
    (e' : Engine (List ℕ)) × (order : List ℕ) × (run note chain ≡ ok e')
    × Ordered chain.nodes (out_of chain) order
    × ((n : ℕ) → occ n order ≡ occ n chain.nodes)
    × (e'.world ≡ after note order chain.world)
run_acyclic_example = run_acyclic note chain chain-IsBuilt (λ n. n) chain_rank

abbrev both : ℕ → Bool
both n = (n == 1) || (n == 2)

ring_cyclic :
    (t : ℕ)
    → both t ≡ true
    → (s : ℕ) × (both s ≡ true) × (occ s ring.nodes ≡ 1) × (occ t (out_of ring s) ≢ 0)
unfolding ring chain pair realise_edge realise_node occ
ring_cyclic t y = elim (Bool-cases (t == 1)) [
  | inl z ↦ (2, refl, refl, (λ o. ground (arith, z, o)))
  | inr z ↦ (1, refl, refl, (λ o. ground (arith, z, y, o)))
]

run_cyclic_example : run note ring ≡ stopped
unfolding ring chain pair realise_edge realise_node occ
run_cyclic_example = run_cyclic note ring ring-IsBuilt both 1 refl refl ring_cyclic
