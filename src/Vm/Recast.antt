-- ===== src/Vm/Recast.antt =====
-- What `protect` of kernel/source/system/memory/vmm.cpp makes of one mapping: the part in the range
-- with the new rights, between the parts outside it.
use ilobilix.Base.{
  ℕ, ◌+◌, ◌-◌, ◌*◌, sym, ◌∙◌, ◌≤◌, ◌<◌, min, max, Bool, true, ◌&&◌, ltb, leb, Bool-cases, inl, inr,
  some, List, [], ◌∷◌, if◌then◌else◌, ◌≡◌, arith, All,
}
use ilobilix.Vm.Mapping.{Mapping, psize, covers, overlaps, backing, page_at, find, IsFit}
use ilobilix.Vm.Pages.{hit, count, insert_all, without}
use ilobilix.Vm.Loop.{Replaces, IsPart}
use ilobilix.Vm.Space.{Multiset, PageTable, Space, Result, carry, piece, protect_one}
use ilobilix.Vm.Pieces.{cons_if, in_range}

-- The parts of `e` outside the range as they were, and the part inside with the new rights.
abbrev pub recast : ℕ → ℕ → ℕ → Mapping → List Mapping
recast startp endp prot e = cons_if (ltb e.startp startp) (piece e e.startp startp e.offsetp) (
    cons_if (ltb endp e.endp) (piece e endp e.endp (e.offsetp + (endp - e.startp))) (
      record e {
        startp = max startp e.startp;
        endp = min endp e.endp;
        offsetp = e.offsetp + (max startp e.startp - e.startp);
        prot = prot;
      }
      ∷ []))

abbrev pub keeps_all : Mapping → ℕ → Bool
keeps_all e p = true

-- The page tables hold every page of the mapping that lies in the range.
abbrev pub IsReady : {T P : Type 0} → PageTable P → ℕ → ℕ → Space T P → Mapping → Type 0
IsReady pg startp endp s e =
    (q : ℕ) → covers e q ≡ true → in_range startp endp q ≡ true → pg.present s.pmap q ≡ true

module _ (startp endp prot : ℕ) (e : Mapping) (range : startp < endp) (fit : IsFit e)
    (over : overlaps startp endp e ≡ true) where
  count-recast : (p : ℕ) → count p (recast startp endp prot e) ≤ hit e p
  unfolding count
  count-recast p = ground arith

  recast-IsFit : All IsFit (recast startp endp prot e)
  recast-IsFit = ground arith

  pub recast-IsPart :
      {T P : Type 0} (tr : Multiset T) (pg : PageTable P)
      → IsPart tr pg (recast startp endp prot) keeps_all e
  recast-IsPart tr pg = record { within = count-recast; fit = recast-IsFit }

  pub page_at-recast :
      (p : ℕ)
      → covers e p ≡ true
      → page_at p (recast startp endp prot e)
        ≡ some
            (if in_range startp endp p then record (backing e p) { prot = prot } else backing e p)
  unfolding find
  page_at-recast p c = ground arith

  module _ {T P : Type 0} (tr : Multiset T) (pg : PageTable P) (s : Space T P)
      (ready : IsReady pg startp endp s e) where
    -- One round, and what is still ready after it
    abbrev pub Round : Result (Space T P) → Type 0
    Round result =
        (u : Replaces tr pg (recast startp endp prot) keeps_all e s result) × ((x : Mapping)
          → ((p : ℕ) → hit e p + hit x p ≤ 1)
          → IsReady pg startp endp s x
          → IsReady pg startp endp u.after x)

    -- Both calls of `pagemap::protect` name the common part of the mapping and the range.
    carried :
        (t : T) (a n f : ℕ)
        → a ≡ max startp e.startp * psize
        → a + n ≡ min endp e.endp * psize
        → tr.elems t ≡ insert_all (recast startp endp prot e) (without e.startp (tr.elems s.tree))
        → Round (carry t (pg.protect s.pmap a n f))
    carried t a n f ha hn ht =
        let (pt, e', kept) =
          pg.protect_total s.pmap a n f (omega (arith, ha)) (ground (arith, ha, hn))
            (λ q l h. ready q (ground (arith, ha, hn, l, h)) (ground (arith, ha, hn, l, h))) in
        (
          record {
            after = record { tree = t; pmap = pt };
            returns = rw e';
            tree = ht;
            stale = λ q h. elim (Bool-cases (leb a (q * psize) && ltb (q * psize) (a + n))) [
              | inl inside ↦ (
                ready q (ground (arith, ha, hn, inside)) (ground (arith, ha, hn, inside)),
                ground arith,
              )
              | inr outside ↦ (sym (kept q (ground (arith, outside))) ∙ h, ground arith)
            ];
          },
          λ x apart r q c i. kept q (ground (arith, ha, hn, apart q, c, i)) ∙ r q c i,
        )

    lower : Mapping
    lower = piece e e.startp startp e.offsetp

    upper : Mapping
    upper = piece e endp e.endp (e.offsetp + (endp - e.startp))

    middle : Mapping
    middle = record e {
      startp = max startp e.startp;
      endp = min endp e.endp;
      offsetp = e.offsetp + (max startp e.startp - e.startp);
      prot = prot;
    }

    pub protect_one-Round : Round (protect_one tr pg startp endp prot e s)
    unfolding protect_one insert_all lower upper middle
    protect_one-Round = elim (Bool-cases (leb startp e.startp && leb e.endp endp)) [
      | inl h ↦ rw h (
          carried _ _ _ _ (ground arith) (ground arith)
            (ground (arith, tr.elems-erase s.tree e, tr.elems-emplace (tr.erase s.tree e) middle)))
      | inr h ↦ rw h (
          carried _ _ _ _ (ground arith) (ground arith) (
            ground (
              arith,
              tr.elems-erase s.tree e,
              tr.elems-emplace (tr.erase s.tree e) lower,
              tr.elems-emplace (tr.emplace (tr.erase s.tree e) lower) upper,
              tr.elems-emplace (tr.emplace (tr.emplace (tr.erase s.tree e) lower) upper) middle,
              tr.elems-emplace (tr.erase s.tree e) upper,
              tr.elems-emplace (tr.emplace (tr.erase s.tree e) upper) middle,
              tr.elems-emplace (tr.emplace (tr.erase s.tree e) lower) middle,
            )))
    ]
