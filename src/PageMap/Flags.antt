-- ===== src/PageMap/Flags.antt =====
-- kernel/source/arch/x86_64/system/pagemap.cpp: `from_arch`, which reads the rights and the caching back
-- from the bits of an entry.
use ilobilix.Base.{
  ℕ, zero, suc, ◌≡◌, ◌<◌, ◌==◌, ◌&&◌, Bool, true, false, not, if◌then◌else◌, bit_and, bit_or, refl,
  sym, ap, ap₂, ◌∙◌, arith, Bool-cases, inl, inr,
}
use ilobilix.PageMap.{
  PageSize, small, medium, large, Caching, uncacheable, uncacheable_strong, write_through,
  write_protected, write_combining, write_back, device, present, write, user, global, no_exec, pat,
  lpat, pcd, pwt, is_small, when, to_arch,
}

abbrev pub has_bit : ℕ → ℕ → Bool
has_bit v bit = not (bit_and v bit == 0)

unfoldable pub rights_of : ℕ → ℕ
rights_of v =
    let ret =
      bit_or
        (bit_or (bit_or (bit_or 4 (when (has_bit v present) 1)) (when (has_bit v write) 2))
          (when (has_bit v user) 8))
        (when (has_bit v global) 16) in
    if has_bit v no_exec then bit_and ret 0xFFFF_FFFB else ret

-- By the bits PAT, PCD and PWT
unfoldable pub cached : Bool → Bool → Bool → Caching
cached false false false = write_back
cached false false true = write_through
cached false true false = uncacheable
cached false true true = uncacheable_strong
cached true false false = write_protected
cached true false true = write_combining
cached true true pwt_bit = write_back

unfoldable pub from_arch : ℕ → PageSize → ℕ × Caching
unfolding rights_of cached
from_arch v psize = (
  rights_of v,
  cached (has_bit v (if is_small psize then pat else lpat)) (has_bit v pcd) (has_bit v pwt),
)

-- Device memory has the bits of uncacheable_strong.
abbrev pub merged : Caching → Caching
merged uncacheable = uncacheable
merged uncacheable_strong = uncacheable_strong
merged write_through = write_through
merged write_protected = write_protected
merged write_combining = write_combining
merged write_back = write_back
merged device = uncacheable_strong

abbrev number : Caching → ℕ
number uncacheable = 0
number uncacheable_strong = 1
number write_through = 2
number write_protected = 3
number write_combining = 4
number write_back = 5
number device = 6

abbrev of_number : ℕ → Caching
of_number n =
    if n == 0
    then uncacheable
    else if n == 1
    then uncacheable_strong
    else if n == 2
    then write_through
    else if n == 3
    then write_protected
    else if n == 4
    then write_combining
    else if n == 5
    then write_back
    else device

of_number-number : (c : Caching) → of_number (number c) ≡ c
of_number-number uncacheable = refl
of_number-number uncacheable_strong = refl
of_number-number write_through = refl
of_number-number write_protected = refl
of_number-number write_combining = refl
of_number-number write_back = refl
of_number-number device = refl

number_apart : (a b : Caching) → number a ≡ number b → a ≡ b
number_apart a b h = sym (of_number-number a) ∙ ap (λ (n : ℕ). of_number n) h ∙ of_number-number b

abbrev is_back : Caching → PageSize → ℕ → Bool
unfolding from_arch to_arch
is_back cache psize flags =
    let r = from_arch (to_arch flags cache psize) psize in
    r.0 == flags && number r.1 == number (merged cache)

all_below : ℕ → (ℕ → Bool) → Bool
all_below zero p = true
all_below (suc n) p = p n && all_below n p

all_below_lem : (n k : ℕ) (p : ℕ → Bool) → all_below n p ≡ true → k < n → p k ≡ true
unfolding all_below
all_below_lem zero k p h l = absurd (omega arith)
all_below_lem (suc n) k p h l = elim (Bool-cases (n == k)) [
  | inl e ↦ let same : k ≡ n = ground (arith, e) in rw same (ground (arith, h))
  | inr e ↦ all_below_lem n k p (ground (arith, h)) (ground (arith, e, l))
]

each_size :
    (p : PageSize → Bool)
    → p small ≡ true
    → p medium ≡ true
    → p large ≡ true
    → (size : PageSize) → p size ≡ true
each_size p s m l small = s
each_size p s m l medium = m
each_size p s m l large = l

come_back : (cache : Caching) (size : PageSize) → all_below 32 (is_back cache size) ≡ true
unfolding all_below is_back
come_back uncacheable = each_size (λ size. all_below 32 (is_back uncacheable size)) refl refl refl
come_back uncacheable_strong =
    each_size (λ size. all_below 32 (is_back uncacheable_strong size)) refl refl refl
come_back write_through =
    each_size (λ size. all_below 32 (is_back write_through size)) refl refl refl
come_back write_protected =
    each_size (λ size. all_below 32 (is_back write_protected size)) refl refl refl
come_back write_combining =
    each_size (λ size. all_below 32 (is_back write_combining size)) refl refl refl
come_back write_back = each_size (λ size. all_below 32 (is_back write_back size)) refl refl refl
come_back device = each_size (λ size. all_below 32 (is_back device size)) refl refl refl

-- For each set of the five rights, each caching and each size of page, from_arch reads from the bits
-- that to_arch makes just those rights and that caching, with device read as uncacheable_strong.
pub to_arch-from_arch :
    (flags : ℕ) (cache : Caching) (size : PageSize)
    → flags < 32
    → from_arch (to_arch flags cache size) size ≡ (flags, merged cache)
unfolding is_back
to_arch-from_arch flags cache size h =
    let b = all_below_lem 32 flags (is_back cache size) (come_back cache size) h in
    ap₂ (λ (f : ℕ) (c : Caching). (f, c)) (ground (arith, b)) (number_apart _ _ (ground (arith, b)))
