-- ===== src/Pmm/Zones.antt =====
-- kernel/source/system/memory/pmm.cpp: the three allocators below 1 MiB, below 4 GiB and above, the
-- bootstrap allocator before them, and the account of the memory in use. Addresses are physical.
use ilobilix.Base.{
  ℕ, ◌+◌, ◌-◌, ◌*◌, ◌==◌, Bool, true, false, not, ◌||◌, ◌&&◌, List, [], ◌∷◌, if◌then◌else◌, Option,
  none, some, ltb, leb, mul64, add64, sub64,
}
use ilobilix.Math.{align_down, range_intersection}
use ilobilix.Libc.{Memory, memset}
use ilobilix.Pmm.{page_size, Allocator, Result, ok, stopped, ◌>>=◌}
use ilobilix.Pmm
use ilobilix.Pmm.Grow

abbrev pub mib : ℕ
mib = 1048576

abbrev pub gib : ℕ
gib = 1073741824

abbrev pub top : ℕ
top = 18446744073709551615

pub data Zone : Type 0 where
  sub1mib sub4gib normal : Zone

pub data Kind : Type 0 where
  usable bootloader kernel_and_modules other : Kind

pub record Memmap : Type 0 where
  pub base : ℕ
  pub len : ℕ
  pub kind : Kind

pub record MemoryInfo : Type 0 where
  pub usable_bytes : ℕ
  pub used : ℕ

pub record PmmState : Type 0 where
  pub low : Allocator
  pub middle : Allocator
  pub high : Allocator
  pub mem : MemoryInfo
  pub initialised : Bool
  pub memmaps : List Memmap
  pub chosen : Bool
  pub bootstrap_memmap_idx : Option ℕ
  pub bootstrap_memmap : Memmap
  pub ram : Memory

abbrev pub zone : Zone → PmmState → Allocator
zone sub1mib s = s.low
zone sub4gib s = s.middle
zone normal s = s.high

abbrev pub set_zone : Zone → Allocator → PmmState → PmmState
set_zone sub1mib a s = record s { low = a }
set_zone sub4gib a s = record s { middle = a }
set_zone normal a s = record s { high = a }

abbrev pub start_of : Zone → ℕ
start_of sub1mib = page_size
start_of sub4gib = mib
start_of normal = 4 * gib

abbrev pub end_of : Zone → ℕ
end_of sub1mib = mib
end_of sub4gib = 4 * gib
end_of normal = top

abbrev pub in_range : Zone → ℕ → Bool
in_range z addr = leb (start_of z) addr && ltb addr (end_of z)

abbrev pub set_used : ℕ → PmmState → PmmState
set_used n s = record s { mem = record (s.mem) { used = n } }

abbrev is_usable : Kind → Bool
is_usable usable = true
is_usable _ = false

-- The scan of `once`: the first of the largest usable ranges, from index `i` on
unfoldable pub largest : List Memmap → ℕ → ℕ → Option (ℕ × Memmap) → Option (ℕ × Memmap)
largest [] i max_size best = best
largest (m ∷ l) i max_size best =
    if is_usable m.kind && ltb max_size m.len
    then largest l (i + 1) m.len (some (i, m))
    else largest l (i + 1) max_size best

abbrev once : PmmState → Result PmmState
unfolding largest
once s = if s.chosen then ok s else elim (largest s.memmaps 0 0 none) [
  | none ↦ stopped
  | some p ↦ ok (record s {
    chosen = true;
    bootstrap_memmap_idx = some p.0;
    bootstrap_memmap = record (p.1) { len = align_down p.1.len page_size };
  })
]

-- On x86_64 a page below 1 MiB stops the kernel.
unfoldable pub bootstrap_alloc : ℕ → PmmState → Result (ℕ × PmmState)
unfolding once
bootstrap_alloc npages s =
    if not (npages == 1)
    then stopped
    else once s >>= λ s'.
        (let m = s'.bootstrap_memmap in
          let ret = m.base + m.len - npages * page_size in
          if ltb m.len (npages * page_size) || ltb ret mib
          then stopped
          else ok
              (ret, record s' { bootstrap_memmap = record m { len = m.len - npages * page_size } }))

abbrev pub Found : Type 0
Found = Result (Option (ℕ × ℕ) × PmmState)

abbrev pub alloc_zone : Zone → ℕ → PmmState → Found
alloc_zone z npages s = Pmm.alloc npages (zone z s) >>= λ r. ok (r.0, set_zone z r.1 s)

abbrev pub from_bootstrap : ℕ → PmmState → Found
from_bootstrap npages s =
    bootstrap_alloc npages s >>= λ r. ok (some (r.0, mul64 npages page_size), r.1)

abbrev pub or_else : Option (ℕ × ℕ) → PmmState → (PmmState → Found) → Found
or_else (some r) s next = ok (some r, s)
or_else none s next = next s

abbrev pub attempt : Zone → ℕ → PmmState → Found
attempt normal npages s = alloc_zone normal npages s >>= λ r. or_else r.0 r.1 (λ s'.
    elim (s'.bootstrap_memmap_idx) [
      | none ↦ alloc_zone sub4gib npages s'
      | some _ ↦ from_bootstrap npages s'
    ])
attempt sub4gib npages s = alloc_zone sub4gib npages s
attempt sub1mib npages s = alloc_zone sub1mib npages s

-- What `alloc` does with the block: the size that is cleared is the one asked for, and the one
-- accounted is the one of the block.
abbrev pub account : ℕ → Bool → Option (ℕ × ℕ) × PmmState → Result (ℕ × PmmState)
account size clear (none, s) = stopped
account size clear (some b, s) =
    let s' = if clear then record s { ram = memset b.0 0 size s.ram } else s in
    ok (b.0, set_used (add64 s'.mem.used b.1) s')

unfoldable pub alloc : ℕ → Bool → Zone → PmmState → Result (ℕ × PmmState)
alloc npages clear tp s =
    if npages == 0
    then ok (0, s)
    else (if s.initialised then attempt tp npages s else from_bootstrap npages s)
      >>= account (mul64 npages page_size) clear

abbrev pub free_zone : Zone → ℕ → ℕ → PmmState → Result PmmState
free_zone z addr npages s =
    Pmm.free addr npages (zone z s) >>= λ r. ok (set_used (sub64 s.mem.used r.0) (set_zone z r.1 s))

unfoldable pub free : ℕ → ℕ → PmmState → Result PmmState
free addr npages s =
    if npages == 0 || addr == 0
    then ok s
    else if not s.initialised
    then stopped
    else if in_range sub1mib addr
    then free_zone sub1mib addr npages s
    else if in_range sub4gib addr
    then free_zone sub4gib addr npages s
    else if in_range normal addr
    then free_zone normal addr npages s
    else stopped

-- `check_and_add`: what the range has in one zone
unfoldable pub check_and_add : ℕ → ℕ → Zone → ℕ × PmmState → Result (ℕ × PmmState)
check_and_add base size z r =
    let part = range_intersection base (add64 base size) (start_of z) (end_of z) in
    let wasted = r.0 in
    let s = r.1 in
    if ltb part.0 part.1
    then (let added = Grow.add_range (start_of z) (end_of z) part.0 (part.1 - part.0) (zone z s) in
        if added.0 == part.1 - part.0 then stopped else ok (wasted + added.0, set_zone z added.1 s))
    else ok (wasted, s)

-- The three calls of `check_and_add`, and the account of what was left over
unfoldable pub add_checked : ℕ → ℕ → Bool → PmmState → Result PmmState
unfolding check_and_add
add_checked base size freeing s = check_and_add base size sub1mib (0, s) >>= λ r.
    (check_and_add base size sub4gib r >>= λ r'.
    (check_and_add base size normal r' >>= λ t.
    ok
      (set_used (if freeing then sub64 t.1.mem.used (size - t.0) else add64 t.1.mem.used t.0) t.1)))

-- The first page of memory is kept.
unfoldable pub add_range : ℕ → ℕ → Bool → PmmState → Result PmmState
unfolding add_checked
add_range base size freeing s =
    let counted = record s {
      mem = record (s.mem) { usable_bytes = add64 s.mem.usable_bytes size };
    } in
    let s1 = if freeing then s else counted in
    let first = if freeing then s1.mem.used else add64 s1.mem.used page_size in
    if size == 0
    then ok s
    else if not freeing && ltb size page_size
    then ok (set_used (add64 s1.mem.used size) s1)
    else if base == 0
    then (if ltb size (page_size * 2)
        then ok s1
        else add_checked page_size (size - page_size) freeing (set_used first s1))
    else add_checked base size freeing s1

abbrev is_bootloader : Kind → Bool
is_bootloader bootloader = true
is_bootloader _ = false

unfoldable pub reclaim : List Memmap → PmmState → Result PmmState
unfolding add_range
reclaim [] s = ok s
reclaim (m ∷ l) s =
    (if is_bootloader m.kind then add_range m.base m.len true s else ok s) >>= λ s'. reclaim l s'

unfoldable pub reclaim_bootloader_memory : PmmState → Result PmmState
unfolding reclaim
reclaim_bootloader_memory s = reclaim s.memmaps s
