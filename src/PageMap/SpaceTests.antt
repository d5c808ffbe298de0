-- ===== src/PageMap/SpaceTests.antt =====
-- The theorems on kernel/source/system/memory/vmm.cpp over the page tables of
-- kernel/source/system/memory/pagemap.cpp, at a page map with a kernel half and two pages of a process.
use ilobilix.Base.{
  ℕ, suc, ◌+◌, ◌-◌, ◌*◌, ◌/◌, ◌%◌, not, ◌&&◌, subst, ◌^◌, ◌≡◌, ◌<◌, ◌==◌, ◌⊎◌, refl, sym, ap, ◌∙◌,
  true, false, if◌then◌else◌, none, some, List, [], ◌∷◌, arith, Bool-cases, inl, inr, leb,
}
use mathlib.Core.Option.{some-injective}
use ilobilix.PageMap.{
  small, getflags, write_back, Tables, getaddr, is_table, setflags, setaddr, index, to_arch,
}
use ilobilix.PageMap.Ops.{map, rounds}
use ilobilix.PageMap.Bits.{index_lem}
use ilobilix.PageMap.Place.{Place, HasRoom, view}
use ilobilix.PageMap.Range.{need, Tree, shows, entry}
use ilobilix.PageMap.Pages.{in_pages, Shows, map-shows}
use ilobilix.PageMap.Lower.{Pages, has_page}
use ilobilix.PageMap.Interface.{page_table}
use ilobilix.PageMap.Composed.{unmap-has_page}
use ilobilix.Vm.Mapping.{Mapping, find, page_at}
use ilobilix.Vm.Protect.{IsPopulated, protect_lem}
use ilobilix.Vm.Pages.{count}
use ilobilix.Vm.Valid.{IsValid, is_locked}
use ilobilix.Vm.Space.{Space, IsCoherent}
use ilobilix.Vm.Tests.{lists}
use ilobilix.PageMap.Tests.{in_turn, pages}

-- A page map with a kernel half: entry 256 of the root leads to a page of the kernel.
abbrev kernel_entry : ℕ → ℕ → ℕ
kernel_entry t i =
    if t == 4096 && i == 256
    then 8199
    else if t == 8192 && i == 0
    then 12295
    else if t == 12288 && i == 0
    then 16391
    else if t == 16384 && i == 0
    then 0x100003
    else 0

abbrev kernel_place : Place
kernel_place t =
    if t == 4096
    then some (3, 0)
    else if t == 8192
    then some (2, 256)
    else if t == 12288
    then some (1, 131072)
    else if t == 16384
    then some (0, 67108864)
    else none

abbrev kernel_half : Tables ℕ
kernel_half = record { entries = kernel_entry; frames = 4 }

kernel_entry_lem :
    (t i : ℕ)
    → (kernel_entry t i ≡ 0)
      ⊎ (((t ≡ 4096) × (i ≡ 256))
          ⊎ (((t ≡ 8192) × (i ≡ 0)) ⊎ (((t ≡ 12288) × (i ≡ 0)) ⊎ ((t ≡ 16384) × (i ≡ 0)))))
kernel_entry_lem t i = ground arith

kernel_below :
    (t n pre i : ℕ)
    → kernel_place t ≡ some (suc n, pre)
    → is_table (kernel_entry t i) ≡ true
    → kernel_place (getaddr (kernel_entry t i)) ≡ some (n, pre * 512 + i)
unfolding is_table getaddr getflags
kernel_below t n pre i p y = elim (kernel_entry_lem t i) [
  | inl e ↦ cc (rw e at y)
  | inr (inl (a, b)) ↦
      let x = some-injective (3, 0) (suc n, pre) (rw a at p) in
      let n_is : n ≡ 2 = omega (arith, ap (λ (z : ℕ × ℕ). z.0) x) in
      let pre_is : pre ≡ 0 = sym (ap (λ (z : ℕ × ℕ). z.1) x) in rw (a, b, n_is, pre_is) refl
  | inr (inr (inl (a, b))) ↦
      let x = some-injective (2, 256) (suc n, pre) (rw a at p) in
      let n_is : n ≡ 1 = omega (arith, ap (λ (z : ℕ × ℕ). z.0) x) in
      let pre_is : pre ≡ 256 = sym (ap (λ (z : ℕ × ℕ). z.1) x) in rw (a, b, n_is, pre_is) refl
  | inr (inr (inr (inl (a, b)))) ↦
      let x = some-injective (1, 131072) (suc n, pre) (rw a at p) in
      let n_is : n ≡ 0 = omega (arith, ap (λ (z : ℕ × ℕ). z.0) x) in
      let pre_is : pre ≡ 131072 = sym (ap (λ (z : ℕ × ℕ). z.1) x) in rw (a, b, n_is, pre_is) refl
  | inr (inr (inr (inr (a, b)))) ↦
      let x = some-injective (0, 67108864) (suc n, pre) (rw a at p) in
      absurd (omega (arith, ap (λ (z : ℕ × ℕ). z.0) x))
]

kernel_used : (t : ℕ) (x : ℕ × ℕ) → kernel_place t ≡ some x → leb t 16384 ≡ true
kernel_used t x e = elim (Bool-cases (leb t 16384)) [
  | inl h ↦ h
  | inr h ↦
      let a : (t == 4096) ≡ false = ground (arith, h) in
      let b : (t == 8192) ≡ false = ground (arith, h) in
      let c : (t == 12288) ≡ false = ground (arith, h) in
      let d : (t == 16384) ≡ false = ground (arith, h) in cc (rw (a, b, c, d) at e)
]

kernel-Tree : Tree in_turn pages small kernel_place kernel_half
kernel-Tree = record {
  top = refl;
  below = λ t n pre i p b y. kernel_below t n pre i p y;
  used = kernel_used;
}

-- The lower half of it is empty.
lower_nothing : (vb : ℕ) → vb < 2 ^ 47 → shows pages small kernel_half vb ≡ 0
unfolding view is_table getflags
lower_nothing vb low =
    let not_kernel : (index 3 vb == 256) ≡ false = rw (index_lem 3 vb) (ground (arith, low)) in
    rw not_kernel refl

user_frames : HasRoom in_turn (need small (rounds 8192 4096)) 4
unfolding HasRoom need
user_frames = (
  (20480, 5),
  refl,
  (
    (24576, 6),
    refl,
    ((28672, 7), refl, ((32768, 8), refl, ((36864, 9), refl, ((40960, 10), refl, tt)))),
  ),
)

-- Two pages of a process
abbrev user_pages :
    Shows in_turn pages kernel_half
      (map in_turn pages 0x40000000 0x200000 8192 11 small write_back kernel_half)
      (λ vb old.
        if in_pages 0x40000000 8192 vb
        then entry 0x200000 (to_arch 11 write_back small) (vb / 4096 * 4096 - 0x40000000)
        else old)
user_pages =
    map-shows in_turn pages 0x40000000 8192 kernel_place kernel_half refl (omega arith) kernel-Tree
      0x200000 11 write_back user_frames

-- An address space with one mapping, of the two pages.
abbrev space : Space (List Mapping) (Pages in_turn pages)
space = record {
  tree =
      record { startp = 0x40000; endp = 0x40002; obj = 1; offsetp = 0; prot = 3; flags = 2 } ∷ [];
  pmap = record { tables = user_pages.after; place = user_pages.place; tree = user_pages.tree };
}

space-IsValid : IsValid space.tree
unfolding count
space-IsValid = record { disjoint = λ p. ground arith; fit = omega arith }

space-IsCoherent : IsCoherent lists (page_table in_turn pages) space
unfolding find in_pages
space-IsCoherent q y e =
    let low : q * 4096 < 2 ^ 47 = ground (arith, y) in
    let now = user_pages.shown (q * 4096) (omega (arith, low)) in
    let outside : in_pages 0x40000000 8192 (q * 4096) ≡ false = ground (arith, e) in
    let nothing : shows pages small user_pages.after (q * 4096) ≡ 0 =
      now ∙ rw (outside, lower_nothing (q * 4096) low) refl in
    absurd (ground (arith, y, nothing))

space-is_locked : is_locked 0x40001 space.tree ≡ false
unfolding find
space-is_locked = refl

unmap-has_page_example :
    has_page in_turn pages
      (unmap-has_page in_turn pages lists 0x40000000 8192 space 0x40001 refl
        (omega arith)
        space-IsValid
        space-IsCoherent
        refl
        space-is_locked).0.pmap
      0x40001
    ≡ false
unmap-has_page_example =
    (unmap-has_page in_turn pages lists 0x40000000 8192 space 0x40001 refl (omega arith)
      space-IsValid space-IsCoherent refl space-is_locked).2

first_page : has_page in_turn pages space.pmap 0x40000 ≡ true
unfolding in_pages entry to_arch setflags setaddr
first_page = ap (λ v. not (v % 2 == 0)) (user_pages.shown 0x40000000 (omega arith))

last_page : has_page in_turn pages space.pmap 0x40001 ≡ true
unfolding in_pages entry to_arch setflags setaddr
last_page = ap (λ v. not (v % 2 == 0)) (user_pages.shown 0x40001000 (omega arith))

space-IsPopulated : IsPopulated lists (page_table in_turn pages) 0x40000000 8192 space
space-IsPopulated q inside held free = elim (Bool-cases (q == 0x40000)) [
  | inl e ↦
      let same : 0x40000 ≡ q = ground (arith, e) in
      subst (λ x. has_page in_turn pages space.pmap x ≡ true) same first_page
  | inr e ↦
      let same : 0x40001 ≡ q = ground (arith, e, inside) in
      subst (λ x. has_page in_turn pages space.pmap x ≡ true) same last_page
]

protect_lem_example :
    page_at 0x40001
      (protect_lem lists
        (page_table in_turn pages)
        0x40000000
        8192
        1
        space
        refl
        (omega arith)
        (omega arith)
        space-IsValid
        space-IsPopulated).0.tree
    ≡ some (record { obj = 1; pidx = 1; prot = 1; flags = 2 })
unfolding find
protect_lem_example =
    (protect_lem lists (page_table in_turn pages) 0x40000000 8192 1 space refl (omega arith)
        (omega arith) space-IsValid space-IsPopulated).3
      0x40001
