-- ===== src/PageMap.antt =====
-- kernel/source/system/memory/pagemap.cpp, kernel/interfaces/system/memory/pagemap.cppm and, for the
-- format of the entries, kernel/source/arch/x86_64/system/pagemap.cpp: the page tables. A table is
-- the physical address of its frame; the frames come from an allocator that is a parameter.
pub mod Ops
pub mod Bits
pub mod Place
pub mod View
pub mod Write
pub mod Grow
pub mod Walk
pub mod Range
pub mod Small
pub mod Pages
pub mod Flags
pub mod Mapping
pub mod Present
pub mod Lower
pub mod Interface
pub mod Composed
pub mod Tests
pub mod SpaceTests
use ilobilix.Base.{
  ℕ, zero, suc, ◌+◌, ◌-◌, ◌*◌, ◌/◌, ◌%◌, ◌^◌, ◌==◌, ◌≡◌, ◌<◌, Bool, true, false, not, ◌&&◌, ◌||◌,
  List, [], ◌∷◌, if◌then◌else◌, Option, none, some, ltb, leb, bit_and, bit_or, add64, not64,
}

pub data PageSize : Type 0 where
  small medium large : PageSize

pub data Caching : Type 0 where
  uncacheable uncacheable_strong write_through write_protected write_combining write_back device :
      Caching

pub data Error : Type 0 where
  addr_not_aligned invalid_entry : Error

-- `arch::flag`
abbrev pub present : ℕ
present = 1

abbrev pub write : ℕ
write = 2

abbrev pub user : ℕ
user = 4

abbrev pub pwt : ℕ
pwt = 8

abbrev pub pcd : ℕ
pcd = 16

abbrev pub lpages : ℕ
lpages = 128

abbrev pub pat : ℕ
pat = 128

abbrev pub global : ℕ
global = 256

abbrev pub lpat : ℕ
lpat = 4096

abbrev pub no_exec : ℕ
no_exec = 0x8000_0000_0000_0000

abbrev pub pa_mask : ℕ
pa_mask = 0x000F_FFFF_FFFF_F000

-- The operations of `accessor` on its value
unfoldable pub clearflags : ℕ → ℕ
clearflags v = bit_and v pa_mask

unfoldable pub setflags : ℕ → ℕ → ℕ
setflags aflags v = bit_or v aflags

unfoldable pub getflags : ℕ → ℕ → Bool
getflags aflags v = bit_and v aflags == aflags

unfoldable pub setaddr : ℕ → ℕ → ℕ
setaddr paddr v = bit_or (bit_and v (not64 pa_mask)) (bit_and paddr pa_mask)

unfoldable pub getaddr : ℕ → ℕ
getaddr v = bit_and v pa_mask

unfoldable pub is_canonical : ℕ → Bool
is_canonical addr = ltb addr 0x0000_8000_0000_0000 || leb 0xFFFF_8000_0000_0000 addr

-- `valid_table_flags` and `new_table_flags`
abbrev pub valid_table_flags : ℕ
valid_table_flags = present

abbrev pub new_table_flags : ℕ
new_table_flags = bit_or (bit_or present write) user

-- The test of `getlvl`
unfoldable pub is_table : ℕ → Bool
unfolding getflags getaddr is_canonical
is_table v = getflags valid_table_flags v && is_canonical (getaddr v)

unfoldable pub from_page_size : PageSize → ℕ
from_page_size small = 4096
from_page_size medium = 2097152
from_page_size large = 1073741824

-- `std::to_underlying`
abbrev pub level : PageSize → ℕ
level small = 0
level medium = 1
level large = 2

unfoldable pub fixpsize : Bool → PageSize → PageSize
fixpsize large_pages small = small
fixpsize large_pages medium = medium
fixpsize true large = large
fixpsize false large = medium

unfoldable pub max_page_size : ℕ → PageSize
unfolding from_page_size
max_page_size size =
    if ltb (from_page_size large) size
    then large
    else if ltb (from_page_size medium) size
    then medium
    else small

abbrev pub when : Bool → ℕ → ℕ
when b f = if b then f else 0

-- The bits of `pflag` are read 1, write 2, exec 4, user 8 and global 16.
abbrev pub rights : ℕ → ℕ
rights flags =
    bit_or
      (bit_or
        (bit_or
          (bit_or (when (not (bit_and flags 1 == 0)) present)
            (when (not (bit_and flags 2 == 0)) write))
          (when (not (bit_and flags 8 == 0)) user))
        (when (not (bit_and flags 16 == 0)) global))
      (when (bit_and flags 4 == 0) no_exec)

abbrev pub is_small : PageSize → Bool
is_small small = true
is_small medium = false
is_small large = false

abbrev pub cache_bits : Caching → ℕ → ℕ
cache_bits uncacheable p = pcd
cache_bits uncacheable_strong p = bit_or pcd pwt
cache_bits device p = bit_or pcd pwt
cache_bits write_through p = pwt
cache_bits write_protected p = p
cache_bits write_combining p = bit_or p pwt
cache_bits write_back p = 0

unfoldable pub to_arch : ℕ → Caching → PageSize → ℕ
to_arch flags cache psize =
    bit_or (bit_or (rights flags) (when (not (is_small psize)) lpages))
      (cache_bits cache (if is_small psize then pat else lpat))

-- `(vaddr >> shift) & bits` for the tables of a height over those of small pages
unfoldable pub index : ℕ → ℕ → ℕ
index height vaddr = bit_and (vaddr / 2 ^ (12 + height * 9)) 511

-- What `getlvl` writes for a new table
abbrev pub table_entry : ℕ → ℕ
unfolding setflags setaddr
table_entry p = setflags new_table_flags (setaddr p 0)

-- The allocator of frames: `none` is a panic. A new frame is not in use, is the address of a page,
-- and one that the processor can hold in an entry.
pub record Frames (D : Type 0) : Type 0 where
  pub alloc : D → Option (ℕ × D)
  pub in_use : D → ℕ → Bool
  pub alloc-new : (d : D) (p : ℕ) (d' : D) → alloc d ≡ some (p, d') → in_use d p ≡ false
  pub alloc-in_use : (d : D) (p : ℕ) (d' : D) → alloc d ≡ some (p, d') → in_use d' p ≡ true
  pub alloc-kept :
      (d : D) (p : ℕ) (d' : D) (x : ℕ)
      → alloc d ≡ some (p, d')
      → in_use d x ≡ true
      → in_use d' x ≡ true
  pub alloc-page : (d : D) (p : ℕ) (d' : D) → alloc d ≡ some (p, d') → bit_and p pa_mask ≡ p
  pub alloc-canonical :
      (d : D) (p : ℕ) (d' : D) → alloc d ≡ some (p, d') → p < 0x0000_8000_0000_0000

-- The entries of all tables, and the frames
pub record Tables (D : Type 0) : Type 0 where
  pub entries : ℕ → ℕ → ℕ
  pub frames : D

pub record PageMap : Type 0 where
  pub root : ℕ
  pub large_pages : Bool

pub data Result (D A : Type 0) : Type 0 where
  ok : A → Tables D → Result D A
  err : Error → Tables D → Result D A
  stopped : Result D A

infixl 5 ◌>>=◌
abbrev pub ◌>>=◌ : {D A B : Type 0} → Result D A → (A → Tables D → Result D B) → Result D B
ok a s >>= f = f a s
err e s >>= f = err e s
stopped >>= f = stopped

module _ {D : Type 0} where
  abbrev pub set_entry : ℕ → ℕ → ℕ → Tables D → Tables D
  set_entry t i v s = record s { entries = λ u j. if u == t && j == i then v else s.entries u j }

  -- A cleared frame is a table of entries that are 0.
  abbrev pub with_table : ℕ → D → Tables D → Tables D
  with_table p d s = record { entries = λ u j. if u == p then 0 else s.entries u j; frames = d }

module _ {D : Type 0} (fr : Frames D) where
  unfoldable pub getlvl : ℕ → ℕ → Bool → Tables D → Result D (Option ℕ)
  unfolding is_table getaddr
  getlvl t i allocate s =
      if is_table (s.entries t i)
      then ok (some (getaddr (s.entries t i))) s
      else if not allocate
      then ok none s
      else elim (fr.alloc s.frames) [
        | none ↦ stopped
        | some r ↦ ok (some r.0) (set_entry t i (table_entry r.0) (with_table r.0 r.1 s))
      ]

  -- The loop of `getpte`, with `n` levels to go to the tables of height `leaf`
  unfoldable pub descend : ℕ → ℕ → ℕ → ℕ → Bool → Tables D → Result D (ℕ × ℕ)
  unfolding getlvl index
  descend zero leaf t vaddr allocate s = ok (t, index leaf vaddr) s
  descend (suc n) leaf t vaddr allocate s =
      getlvl t (index (leaf + suc n) vaddr) allocate s >>= λ found s'. (elim found [
        | none ↦ err invalid_entry s'
        | some t' ↦ descend n leaf t' vaddr allocate s'
      ])

  unfoldable pub getpte : PageMap → ℕ → PageSize → Bool → Tables D → Result D (ℕ × ℕ)
  unfolding descend
  getpte pm vaddr psize allocate s =
      descend (3 - level psize) (level psize) pm.root vaddr allocate s
