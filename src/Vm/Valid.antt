-- ===== src/Vm/Valid.antt =====
-- When the tree of kernel/interfaces/system/memory/vmm.cppm is well formed, and what the loops of
-- vmm.cpp may assume of the mappings that they collect from it.
use ilobilix.Base.{
  ℕ, ◌+◌, ◌*◌, ltb, leb, ◌&&◌, subst, Bool-cases, inl, inr, ◌≤◌, Bool, true, false, ◌&&◌, none,
  some, List, [], ◌∷◌, if◌then◌else◌, ◌≡◌, refl, ◌∙◌, arith, All, All-select, select,
}
use ilobilix.Vm.Mapping.{Mapping, psize, is_untouchable, covers, find, IsFit}
use ilobilix.Vm.Pages.{
  hit, count, IsDisjoint, insert, insert_all, without, find-none, count-select-le,
}

-- A tree that holds no page twice, of mappings that make sense.
pub record IsValid (l : List Mapping) : Type 0 where
  pub disjoint : IsDisjoint l
  pub fit : All IsFit l

pub All-without : (P : Mapping → Type 0) (k : ℕ) (l : List Mapping) → All P l → All P (without k l)
unfolding without
All-without P k [] h = tt
All-without P k (x ∷ l) h = ground (arith, All-without P k l h.1)

pub All-insert :
    (P : Mapping → Type 0) (m : Mapping) (l : List Mapping) → P m → All P l → All P (insert m l)
unfolding insert
All-insert P m [] p h = (p, tt)
All-insert P m (x ∷ l) p h = ground (arith, All-insert P m l p h.1)

pub All-insert_all :
    (P : Mapping → Type 0) (ms l : List Mapping) → All P ms → All P l → All P (insert_all ms l)
unfolding insert_all
All-insert_all P [] l p h = h
All-insert_all P (m ∷ ms) l p h = All-insert_all P ms (insert m l) p.1 (All-insert P m l p.0 h)

-- Each mapping of the list is what the tree holds for its first page.
abbrev pub Held : List Mapping → List Mapping → Type 0
Held l = All (λ e. find e.startp l ≡ some e)

-- The mappings of a disjoint list that are still to be visited do not meet the first.
pub Held-mono :
    (e : Mapping) (l l' es : List Mapping)
    → ((p : ℕ) → covers e p ≡ false → find p l' ≡ find p l)
    → ((p : ℕ) → hit e p + count p es ≤ 1)
    → All IsFit es
    → Held l es
    → Held l' es
unfolding count
Held-mono e l l' [] same apart fit h = tt
Held-mono e l l' (x ∷ es) same apart fit h = (
  same x.startp (ground (arith, apart x.startp, fit.0)) ∙ h.0,
  Held-mono e l l' es same (λ p. omega (arith, apart p)) fit.1 h.1,
)

Held-cons :
    (x : Mapping) (l es : List Mapping)
    → ((p : ℕ) → hit x p + count p es ≤ 1)
    → All IsFit es
    → Held l es
    → Held (x ∷ l) es
unfolding find count
Held-cons x l [] apart fit h = tt
Held-cons x l (e ∷ es) apart fit h = (
  ground (arith, apart e.startp, fit.0, h.0),
  Held-cons x l es (λ p. omega (arith, apart p)) fit.1 h.1,
)

Held-self : (l : List Mapping) → IsDisjoint l → All IsFit l → Held l l
unfolding find count
Held-self [] d f = tt
Held-self (x ∷ l) d f =
    (ground (arith, f.0), Held-cons x l l d f.1 (Held-self l (λ p. omega (arith, d p)) f.1))

found_cons :
    (x : Mapping) (l es : List Mapping)
    → ((p : ℕ) → hit x p + count p es ≤ 1)
    → All (λ e. (q : ℕ) → covers e q ≡ true → find q l ≡ some e) es
    → All (λ e. (q : ℕ) → covers e q ≡ true → find q (x ∷ l) ≡ some e) es
unfolding find count
found_cons x l [] apart h = tt
found_cons x l (e ∷ es) apart h = (
  λ q c. ground (arith, apart q, h.0 q c, c),
  found_cons x l es (λ p. omega (arith, apart p)) h.1,
)

-- Each mapping of a disjoint list is what the list holds for its pages.
pub All-found :
    (l : List Mapping) → IsDisjoint l → All (λ e. (q : ℕ) → covers e q ≡ true → find q l ≡ some e) l
unfolding find count
All-found [] d = tt
All-found (x ∷ l) d = (λ q c. rw c refl, found_cons x l l d (All-found l (λ p. omega (arith, d p))))

pub find-All :
    (P : Mapping → Type 0) (p : ℕ) (l : List Mapping) (m : Mapping)
    → All P l
    → find p l ≡ some m
    → P m
unfolding find
find-All P p [] m h e = cc
find-All P p (x ∷ l) m h e = elim (Bool-cases (covers x p)) [
  | inl c ↦ subst P (ground arith) h.0
  | inr c ↦ find-All P p l m h.1 (ground arith)
]

-- Any selection of the mappings of a valid tree can be visited one after the other.
pub select-IsValid : (f : Mapping → Bool) (l : List Mapping) → IsValid l → IsValid (select f l)
select-IsValid f l v = record {
  disjoint = λ p. omega (arith, count-select-le p f l, v.disjoint p);
  fit = All-select IsFit f l v.fit;
}

pub Held-select : (f : Mapping → Bool) (l : List Mapping) → IsValid l → Held l (select f l)
Held-select f l v = All-select (λ e. find e.startp l ≡ some e) f l (Held-self l v.disjoint v.fit)

pub All-selected : (f : Mapping → Bool) (l : List Mapping) → All (λ e. f e ≡ true) (select f l)
unfolding select
All-selected f [] = tt
All-selected f (x ∷ l) = ground (arith, All-selected f l)

-- `flag::untouchable` on the mapping that holds a page
abbrev pub is_locked : ℕ → List Mapping → Bool
is_locked p l = elim (find p l) [ none ↦ false | some m ↦ is_untouchable m ]

-- Which selected mapping holds a page is told by the mapping that holds it in the whole list.
pub find-select :
    (p : ℕ) (f : Mapping → Bool) (l : List Mapping)
    → count p l ≤ 1
    → find p (select f l)
      ≡ elim (find p l) [ none ↦ none | some m ↦ (if f m then some m else none) ]
unfolding count find select
find-select p f [] u = refl
find-select p f (x ∷ l) u =
    ground
      (arith, find-select p f l, find-none p (select f l), count-select-le p f l, find-none p l)

abbrev pub is_held : ℕ → List Mapping → Bool
is_held p l = elim (find p l) [ none ↦ false | some _ ↦ true ]

-- The page starts in the range of addresses.
abbrev pub touches : ℕ → ℕ → ℕ → Bool
touches address length p = leb address (p * psize) && ltb (p * psize) (address + length)
