-- ===== src/Vm/Loop.antt =====
-- The loop over the overlapping mappings in `map`, `unmap` and `protect` of
-- kernel/source/system/memory/vmm.cpp, for any way to replace one mapping by pieces of it.
use ilobilix.Base.{
  ℕ, ◌+◌, ◌≤◌, Bool, true, false, not, ◌&&◌, none, some, Bool-cases, inl, inr, List, [], ◌∷◌, ◌≡◌,
  refl, arith, All,
}
use ilobilix.Vm.Mapping.{Mapping, covers, page_at, find, IsFit}
use ilobilix.Vm.Pages.{hit, count, insert_all, without, find-none}
use ilobilix.Vm.Valid.{IsValid, Held, Held-mono, All-without, All-insert_all}
use ilobilix.Vm.Splice.{splice_outside, splice_inside, splice-IsDisjoint}
use ilobilix.Vm.Space.{Multiset, PageTable, Space, Result, ok, for_each}

-- The mappings that are still to be visited stay ready where a round leaves those ready that do not
-- meet its own.
still_ready :
    (Ready : Mapping → Type 0) (Ready' : Mapping → Type 0) (e : Mapping) (es : List Mapping)
    → ((p : ℕ) → hit e p + count p es ≤ 1)
    → ((x : Mapping) → ((p : ℕ) → hit e p + hit x p ≤ 1) → Ready x → Ready' x)
    → All Ready es
    → All Ready' es
unfolding count
still_ready Ready Ready' e [] apart kept h = tt
still_ready Ready Ready' e (x ∷ es) apart kept h = (
  kept x (λ p. omega (arith, apart p)) h.0,
  still_ready Ready Ready' e es (λ p. omega (arith, apart p)) kept h.1,
)

module _ {T P : Type 0} (tr : Multiset T) (pg : PageTable P) (rest : Mapping → List Mapping)
    (keeps : Mapping → ℕ → Bool) where
  -- One round returns, with `e` replaced by `rest e` in the tree. A page of `e` that is present
  -- afterwards is one that the round keeps.
  pub record Replaces (e : Mapping) (s : Space T P) (result : Result (Space T P)) : Type 0 where
    pub after : Space T P
    pub returns : result ≡ ok after
    pub tree : tr.elems after.tree ≡ insert_all (rest e) (without e.startp (tr.elems s.tree))
    pub stale :
        (q : ℕ)
        → pg.present after.pmap q ≡ true
        → (pg.present s.pmap q ≡ true) × ((covers e q && not (keeps e q)) ≡ false)

  -- The pieces of a mapping lie within it, do not meet, and make sense.
  pub record IsPart (e : Mapping) : Type 0 where
    pub within : (p : ℕ) → count p (rest e) ≤ hit e p
    pub fit : All IsFit (rest e)

  -- The whole loop returns. Every page of a mapping of `es` has the backing that the pieces give it,
  -- and every other page the one it had.
  pub record ReplacesAll (es : List Mapping) (s : Space T P) (result : Result (Space T P))
      : Type 0 where
    pub after : Space T P
    pub returns : result ≡ ok after
    pub valid : IsValid (tr.elems after.tree)
    pub pages :
        (p : ℕ)
        → page_at p (tr.elems after.tree)
          ≡ elim (find p es) [ none ↦ page_at p (tr.elems s.tree) | some e ↦ page_at p (rest e) ]
    pub stale :
        (q : ℕ)
        → pg.present after.pmap q ≡ true
        → (pg.present s.pmap q ≡ true)
          × ((elim (find q es) [ none ↦ true | some e ↦ keeps e q ]) ≡ true)

  module _ (e : Mapping) (s : Space T P) {result : Result (Space T P)}
      (v : IsValid (tr.elems s.tree)) (held : find e.startp (tr.elems s.tree) ≡ some e)
      (part : IsPart e) (u : Replaces e s result) where
    round-IsValid : IsValid (tr.elems u.after.tree)
    round-IsValid = record {
      disjoint =
          rw u.tree (splice-IsDisjoint (tr.elems s.tree) e v.disjoint held (rest e) part.within);
      fit = rw u.tree (
          All-insert_all IsFit (rest e) _ part.fit
            (All-without IsFit e.startp (tr.elems s.tree) v.fit));
    }

    outer : (p : ℕ) → covers e p ≡ false → find p (tr.elems u.after.tree) ≡ find p (tr.elems s.tree)
    outer p c =
        rw u.tree (splice_outside (tr.elems s.tree) e v.disjoint held (rest e) part.within p c)

    inner : (p : ℕ) → covers e p ≡ true → find p (tr.elems u.after.tree) ≡ find p (rest e)
    inner p c =
        rw u.tree (splice_inside (tr.elems s.tree) e v.disjoint held (rest e) part.within p c)

  -- A round may ask that a mapping is ready, if it leaves those ready that do not meet its own.
  module _ (one : Mapping → Space T P → Result (Space T P)) (Good : Mapping → Type 0)
      (Ready : Space T P → Mapping → Type 0) (part : (e : Mapping) → IsFit e → Good e → IsPart e)
      (step : (e : Mapping) (s : Space T P)
        → IsFit e
        → Good e
        → Ready s e
        → (u : Replaces e s (one e s)) × ((x : Mapping)
            → ((p : ℕ) → hit e p + hit x p ≤ 1)
            → Ready s x
            → Ready u.after x)) where
    pub for_each-ReplacesAll :
        (es : List Mapping) (s : Space T P)
        → IsValid (tr.elems s.tree)
        → IsValid es
        → All Good es
        → All (Ready s) es
        → Held (tr.elems s.tree) es
        → ReplacesAll es s (for_each one es s)
    unfolding for_each find count
    for_each-ReplacesAll [] s v ve good ready held = record {
      after = s;
      returns = refl;
      valid = v;
      pages = λ p. refl;
      stale = λ q h. (h, refl);
    }
    for_each-ReplacesAll (e ∷ es) s v ve good ready held =
        let stepped = step e s ve.fit.0 good.0 ready.0 in
        let u = stepped.0 in
        let pe = part e ve.fit.0 good.0 in
        let rest_valid : IsValid es = record {
          disjoint = λ p. omega (arith, ve.disjoint p);
          fit = ve.fit.1;
        } in
        let r =
          for_each-ReplacesAll es u.after (round-IsValid e s v held.0 pe u) rest_valid good.1
            (still_ready (Ready s) (Ready u.after) e es ve.disjoint stepped.1 ready.1)
            (Held-mono e (tr.elems s.tree) (tr.elems u.after.tree) es (outer e s v held.0 pe u)
              ve.disjoint ve.fit.1 held.1) in
        record {
          after = r.after;
          returns = rw u.returns r.returns;
          valid = r.valid;
          pages = λ p. elim (Bool-cases (covers e p)) [
            | inl c ↦
                ground
                  (arith, r.pages p, inner e s v held.0 pe u p c, find-none p es, ve.disjoint p)
            | inr c ↦ ground (arith, r.pages p, outer e s v held.0 pe u p c)
          ];
          stale = λ q h. ground (arith, r.stale q h, u.stale q, find-none q es, ve.disjoint q);
        }

-- Where every mapping is ready
pub All-anything : (es : List Mapping) → All (λ e. Unit {0}) es
All-anything [] = tt
All-anything (e ∷ es) = (tt, All-anything es)
