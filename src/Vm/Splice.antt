-- ===== src/Vm/Splice.antt =====
-- The step that `map`, `unmap` and `protect` in kernel/source/system/memory/vmm.cpp share: erase one
-- mapping from the tree and put back pieces of it.
use mathlib.Core.Option.{some-injective}
use ilobilix.Base.{
  ℕ, ◌+◌, ◌≤◌, true, false, some, List, [], ◌∷◌, ◌≡◌, ◌≢◌, refl, sym, ◌∙◌, arith, Option-cases, inl,
  inr,
}
use ilobilix.Vm.Mapping.{Mapping, covers, find}
use ilobilix.Vm.Pages.{
  insert, insert_all, without, hit, count, IsDisjoint, count-insert, find-insert_miss,
  find-insert_hit, find-none, find-covers, count-without-le, find_of_find, find-without_ne,
  count-without_eq, count_of_none,
}

pub count-insert_all :
    (p : ℕ) (ms l : List Mapping) → count p (insert_all ms l) ≡ count p ms + count p l
unfolding insert_all count
count-insert_all p [] l = omega arith
count-insert_all p (m ∷ ms) l =
    omega (arith, count-insert_all p ms (insert m l), count-insert p m l)

find-insert_all_miss :
    (p : ℕ) (ms l : List Mapping) → count p ms ≡ 0 → find p (insert_all ms l) ≡ find p l
unfolding insert_all count
find-insert_all_miss p [] l h = refl
find-insert_all_miss p (m ∷ ms) l h =
    ground (arith, find-insert_all_miss p ms (insert m l), find-insert_miss p m l)

find-insert_all_hit :
    (p : ℕ) (ms l : List Mapping)
    → count p l ≡ 0
    → count p ms ≤ 1
    → find p (insert_all ms l) ≡ find p ms
unfolding insert_all count find
find-insert_all_hit p [] l h u = ground (arith, find-none p l)
find-insert_all_hit p (m ∷ ms) l h u = ground (
  arith,
  find-insert_all_hit p ms (insert m l),
  find-insert_all_miss p ms (insert m l),
  find-insert_hit p m l,
  count-insert p m l,
)

module _ (l : List Mapping) (e : Mapping) (disjoint : IsDisjoint l)
    (held : find e.startp l ≡ some e) where
  owner : (p : ℕ) → covers e p ≡ true → find p l ≡ some e
  owner p c = find_of_find p e.startp l e (disjoint p) held c

  find-without_outside : (p : ℕ) → covers e p ≡ false → find p (without e.startp l) ≡ find p l
  find-without_outside p c = elim (Option-cases (find p l)) [
    | inl lost ↦
        find-none p (without e.startp l)
          (omega (arith, count_of_none p l lost, count-without-le p e.startp l))
        ∙ sym lost
    | inr (m, hm) ↦ find-without_ne p e.startp l m (disjoint p) hm (other m hm) ∙ sym hm
  ]
    where
      other : (m : Mapping) → find p l ≡ some m → m.startp ≢ e.startp
      other m hm same =
          let again =
            find_of_find e.startp p l m (disjoint e.startp) hm
              (ground (arith, find-covers p l m hm)) in
          ground (arith, find-covers p l m hm, some-injective (sym again ∙ held))

  emptied : (p : ℕ) → covers e p ≡ true → count p (without e.startp l) ≡ 0
  emptied p c = count-without_eq p e.startp l e (disjoint p) (owner p c) refl

  module _ (pieces : List Mapping) (within : (p : ℕ) → count p pieces ≤ hit e p) where
    pub splice_outside :
        (p : ℕ) → covers e p ≡ false → find p (insert_all pieces (without e.startp l)) ≡ find p l
    splice_outside p c =
        find-insert_all_miss p pieces (without e.startp l) (ground (arith, within p))
        ∙ find-without_outside p c

    pub splice_inside :
        (p : ℕ)
        → covers e p ≡ true
        → find p (insert_all pieces (without e.startp l)) ≡ find p pieces
    splice_inside p c =
        find-insert_all_hit p pieces (without e.startp l) (emptied p c) (ground (arith, within p))

    pub splice-IsDisjoint : IsDisjoint (insert_all pieces (without e.startp l))
    splice-IsDisjoint p = ground (
      arith,
      within p,
      count-insert_all p pieces (without e.startp l),
      count-without-le p e.startp l,
      disjoint p,
      emptied p,
    )
