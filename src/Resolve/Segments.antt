-- ===== src/Resolve/Segments.antt =====
-- Text of kernel/source/system/vfs.cpp, `std::string` and `std::string_view`, as the list of its
-- characters; and `std::views::split` at '/'.
use ilobilix.Base.{
  ℕ, ◌==◌, ◌≡◌, refl, ap, ◌∙◌, Bool, true, false, ◌&&◌, not, List, [], ◌∷◌, ◌++◌, if◌then◌else◌,
  arith, Bool-cases, inl, inr,
}

abbrev pub Text : Type 0
Text = List ℕ

unfoldable pub is_text : Text → Text → Bool
is_text [] [] = true
is_text [] (d ∷ ds) = false
is_text (c ∷ cs) [] = false
is_text (c ∷ cs) (d ∷ ds) = c == d && is_text cs ds

abbrev pub slash : ℕ
slash = b'/'

abbrev pub dot : ℕ
dot = b'.'

abbrev pub cons_first : ℕ → List Text → List Text
cons_first c [] = (c ∷ []) ∷ []
cons_first c (t ∷ ts) = (c ∷ t) ∷ ts

unfoldable pub split : Text → List Text
split [] = [] ∷ []
split (c ∷ cs) = let rest = split cs in if c == slash then [] ∷ rest else cons_first c rest

-- `'/'` and a segment, for each segment
unfoldable pub join : List Text → Text
join [] = []
join (t ∷ ts) = slash ∷ (t ++ join ts)

-- No character is a slash.
abbrev pub plain : Text → Bool
plain [] = true
plain (c ∷ cs) = not (c == slash) && plain cs

pub is_text_refl : (t : Text) → is_text t t ≡ true
unfolding is_text
is_text_refl [] = refl
is_text_refl (c ∷ cs) = ground (arith, is_text_refl cs)

pub is_text_eq : (t u : Text) → is_text t u ≡ true → t ≡ u
unfolding is_text
is_text_eq [] [] h = refl
is_text_eq [] (d ∷ ds) h = cc
is_text_eq (c ∷ cs) [] h = cc
is_text_eq (c ∷ cs) (d ∷ ds) h = ground (arith, h, is_text_eq cs ds)

append_nil : (t : Text) → t ++ [] ≡ t
append_nil [] = refl
append_nil (c ∷ cs) = ap (◌∷◌ c) (append_nil cs)

pub split_last : (t : Text) → plain t ≡ true → split t ≡ t ∷ []
unfolding split
split_last [] h = refl
split_last (c ∷ cs) h =
    let other : (c == slash) ≡ false = ground (arith, h) in
    rw (other, split_last cs (ground (arith, h))) refl

pub split_first : (t u : Text) → plain t ≡ true → split (t ++ slash ∷ u) ≡ t ∷ split u
unfolding split
split_first [] u h = refl
split_first (c ∷ cs) u h =
    let other : (c == slash) ≡ false = ground (arith, h) in
    rw (other, split_first cs u (ground (arith, h))) refl

abbrev pub AllPlain : List Text → Type 0
AllPlain [] = Unit {0}
AllPlain (t ∷ ts) = (plain t ≡ true) × AllPlain ts

split_names : (t : Text) (ts : List Text) → AllPlain (t ∷ ts) → split (t ++ join ts) ≡ t ∷ ts
unfolding join
split_names t [] h = rw (append_nil t) (split_last t h.0)
split_names t (u ∷ us) h = split_first t (u ++ join us) h.0 ∙ ap (◌∷◌ t) (split_names u us h.1)

-- The segments of a joined path are an empty one and the names.
pub split-join :
    (t : Text) (ts : List Text) → AllPlain (t ∷ ts) → split (join (t ∷ ts)) ≡ [] ∷ t ∷ ts
unfolding join split
split-join t ts h = ap (◌∷◌ []) (split_names t ts h)

pub split_some : (t : Text) → (u : Text) × (us : List Text) × (split t ≡ u ∷ us)
unfolding split
split_some [] = ([], [], refl)
split_some (c ∷ cs) =
    let rest = split_some cs in
    elim (Bool-cases (c == slash)) [
      | inl e ↦ ([], split cs, rw e refl)
      | inr e ↦ (c ∷ rest.0, rest.1, rw (e, rest.2) refl)
    ]
