-- ===== src/Vm/Pages.antt =====
-- A list of mappings seen page by page: which mapping holds a page, and how many do. Lemmas on the
-- two operations of the tree of kernel/interfaces/system/memory/vmm.cppm, as lists.
use ilobilix.Base.{
  ℕ, ◌+◌, ◌≤◌, Bool, true, false, ltb, ◌==◌, none, some, List, [], ◌∷◌, if◌then◌else◌, ◌≡◌, ◌≢◌,
  refl, arith, select,
}
use ilobilix.Vm.Mapping.{Mapping, covers, find}

-- A new element goes behind the elements with the same key.
unfoldable pub insert : Mapping → List Mapping → List Mapping
insert m [] = m ∷ []
insert m (x ∷ l) = if ltb m.startp x.startp then m ∷ x ∷ l else x ∷ insert m l

unfoldable pub insert_all : List Mapping → List Mapping → List Mapping
insert_all [] l = l
insert_all (m ∷ ms) l = insert_all ms (insert m l)

-- `erase` by key removes all the elements that compare equal, so all with the same first page.
unfoldable pub without : ℕ → List Mapping → List Mapping
without k [] = []
without k (x ∷ l) = if x.startp == k then without k l else x ∷ without k l

abbrev pub hit : Mapping → ℕ → ℕ
hit m p = if covers m p then 1 else 0

unfoldable pub count : ℕ → List Mapping → ℕ
count p [] = 0
count p (m ∷ l) = hit m p + count p l

-- No page is held twice.
abbrev pub IsDisjoint : List Mapping → Type 0
IsDisjoint l = (p : ℕ) → count p l ≤ 1

pub count-insert :
    (p : ℕ) (m : Mapping) (l : List Mapping) → count p (insert m l) ≡ hit m p + count p l
unfolding count insert
count-insert p m [] = refl
count-insert p m (x ∷ l) = ground (arith, count-insert p m l)

pub find-insert_miss :
    (p : ℕ) (m : Mapping) (l : List Mapping) → covers m p ≡ false → find p (insert m l) ≡ find p l
unfolding find insert
find-insert_miss p m [] h = ground arith
find-insert_miss p m (x ∷ l) h = ground (arith, find-insert_miss p m l h)

pub find-insert_hit :
    (p : ℕ) (m : Mapping) (l : List Mapping)
    → covers m p ≡ true
    → count p l ≡ 0
    → find p (insert m l) ≡ some m
unfolding find insert count
find-insert_hit p m [] h e = ground arith
find-insert_hit p m (x ∷ l) h e = ground (arith, find-insert_hit p m l h)

pub find-none : (p : ℕ) (l : List Mapping) → count p l ≡ 0 → find p l ≡ none
unfolding find count
find-none p [] h = refl
find-none p (x ∷ l) h = ground (arith, find-none p l)

pub count_of_none : (p : ℕ) (l : List Mapping) → find p l ≡ none → count p l ≡ 0
unfolding find count
count_of_none p [] h = refl
count_of_none p (x ∷ l) h = ground (arith, count_of_none p l)

pub find-covers : (p : ℕ) (l : List Mapping) (m : Mapping) → find p l ≡ some m → covers m p ≡ true
unfolding find
find-covers p [] m h = cc
find-covers p (x ∷ l) m h = ground (arith, find-covers p l m)

pub count-select-le :
    (p : ℕ) (f : Mapping → Bool) (l : List Mapping) → count p (select f l) ≤ count p l
unfolding count select
count-select-le p f [] = omega arith
count-select-le p f (x ∷ l) = ground (arith, count-select-le p f l)

pub count-without-le : (p k : ℕ) (l : List Mapping) → count p (without k l) ≤ count p l
unfolding count without
count-without-le p k [] = omega arith
count-without-le p k (x ∷ l) = ground (arith, count-without-le p k l)

-- A mapping found for one page is counted at each page that it covers.
pub count_of_find :
    (p q : ℕ) (l : List Mapping) (m : Mapping)
    → find q l ≡ some m
    → covers m p ≡ true
    → 1 ≤ count p l
unfolding find count
count_of_find p q [] m h c = cc
count_of_find p q (x ∷ l) m h c = ground (arith, count_of_find p q l m)

-- In a disjoint list, a mapping found for one page is found for each page that it covers.
pub find_of_find :
    (p q : ℕ) (l : List Mapping) (m : Mapping)
    → count p l ≤ 1
    → find q l ≡ some m
    → covers m p ≡ true
    → find p l ≡ some m
unfolding find count
find_of_find p q [] m u h c = cc
find_of_find p q (x ∷ l) m u h c = ground (arith, find_of_find p q l m, count_of_find p q l m)

pub find-without_ne :
    (p k : ℕ) (l : List Mapping) (m : Mapping)
    → count p l ≤ 1
    → find p l ≡ some m
    → m.startp ≢ k
    → find p (without k l) ≡ some m
unfolding find count without
find-without_ne p k [] m u h c = cc
find-without_ne p k (x ∷ l) m u h c = ground (arith, find-without_ne p k l m)

pub count-without_eq :
    (p k : ℕ) (l : List Mapping) (m : Mapping)
    → count p l ≤ 1
    → find p l ≡ some m
    → m.startp ≡ k
    → count p (without k l) ≡ 0
unfolding find count without
count-without_eq p k [] m u h c = cc
count-without_eq p k (x ∷ l) m u h c =
    ground (arith, count-without_eq p k l m, count-without-le p k l)
