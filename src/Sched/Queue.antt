-- ===== src/Sched/Queue.antt =====
-- kernel/interfaces/lib/rbtree.cppm as the scheduler uses it: threads in the order of a key, a new one
-- behind those with an equal key.
use ilobilix.Base.{ℕ, ◌+◌, ◌≡◌, ◌≤◌, ◌==◌, List, [], ◌∷◌, ◌++◌, if◌then◌else◌, refl, ltb, arith}

unfoldable pub insert_by : (ℕ → ℕ) → ℕ → List ℕ → List ℕ
insert_by key t [] = t ∷ []
insert_by key t (u ∷ l) = if ltb (key t) (key u) then t ∷ u ∷ l else u ∷ insert_by key t l

-- The first occurrence goes.
unfoldable pub remove_from : ℕ → List ℕ → List ℕ
remove_from t [] = []
remove_from t (u ∷ l) = if u == t then l else u ∷ remove_from t l

pub record Ordered (T : Type 0) : Type 0 where
  pub elems : T → List ℕ
  pub insert : (ℕ → ℕ) → ℕ → T → T
  pub remove : ℕ → T → T
  pub elems-insert :
      (key : ℕ → ℕ) (t : ℕ) (q : T) → elems (insert key t q) ≡ insert_by key t (elems q)
  pub elems-remove : (t : ℕ) (q : T) → elems (remove t q) ≡ remove_from t (elems q)

-- How often a thread stands in a queue
unfoldable pub count : ℕ → List ℕ → ℕ
count t [] = 0
count t (u ∷ l) = (if u == t then 1 else 0) + count t l

pub count-insert_by :
    (key : ℕ → ℕ) (t u : ℕ) (l : List ℕ)
    → count u (insert_by key t l) ≡ (if t == u then 1 else 0) + count u l
unfolding count insert_by
count-insert_by key t u [] = refl
count-insert_by key t u (x ∷ l) = ground (arith, count-insert_by key t u l)

pub count-append : (u : ℕ) (l k : List ℕ) → count u (l ++ k) ≡ count u l + count u k
unfolding count
count-append u [] k = omega arith
count-append u (x ∷ l) k = omega (arith, count-append u l k)

pub count-remove_from :
    (t u : ℕ) (l : List ℕ)
    → 1 ≤ count t l
    → count u (remove_from t l) + (if t == u then 1 else 0) ≡ count u l
unfolding count remove_from
count-remove_from t u [] h = absurd (omega arith)
count-remove_from t u (x ∷ l) h = ground (arith, h, count-remove_from t u l)
