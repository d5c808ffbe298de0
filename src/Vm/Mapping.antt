-- ===== src/Vm/Mapping.antt =====
-- `struct mapping`, `enum prot` and `enum flag` of kernel/interfaces/system/memory/vmm.cppm, and the
-- test by which `handle_pfault` in vmm.cpp finds the mapping of a page.
use ilobilix.Base.{ℕ, ◌+◌, ◌-◌, ◌≤◌, ◌<◌, ◌^◌, Bool, not, ◌&&◌, ltb, leb, ◌==◌, bit_and}
use ilobilix.Base.{Option, none, some, List, [], ◌∷◌, if◌then◌else◌}

-- Pages `startp` to `endp - 1` show the pages of `obj` from `offsetp` on. An object is a shared
-- pointer; here it is the number by which pointers are compared.
pub record Mapping : Type 0 where
  pub startp : ℕ
  pub endp : ℕ
  pub obj : ℕ
  pub offsetp : ℕ
  pub prot : ℕ
  pub flags : ℕ

-- `default_page_size()`: a small page
abbrev pub psize : ℕ
psize = 0x1000

-- `flags & flag::untouchable`
abbrev pub is_untouchable : Mapping → Bool
is_untouchable m = not (bit_and m.flags 0x40 == 0)

-- `entry.startp <= page && page < entry.endp`
abbrev pub covers : Mapping → ℕ → Bool
covers m p = leb m.startp p && ltb p m.endp

-- `startp < entry.endp && entry.startp < endp`
abbrev pub overlaps : ℕ → ℕ → Mapping → Bool
overlaps startp endp m = ltb startp m.endp && ltb m.startp endp

-- What a page fault finds behind a page: the object, the page of the object, and the rights.
pub record Backing : Type 0 where
  pub obj : ℕ
  pub pidx : ℕ
  pub prot : ℕ
  pub flags : ℕ

abbrev pub backing : Mapping → ℕ → Backing
backing m p = record {
  obj = m.obj;
  pidx = (p - m.startp) + m.offsetp;
  prot = m.prot;
  flags = m.flags;
}

-- `std::ranges::find_if` over the tree
unfoldable pub find : ℕ → List Mapping → Option Mapping
find p [] = none
find p (m ∷ l) = if covers m p then some m else find p l

-- The backing that a page has in a list of mappings.
abbrev pub page_at : ℕ → List Mapping → Option Backing
page_at p l = elim (find p l) [ none ↦ none | some m ↦ some (backing m p) ]

-- The range is not empty, ends below the top of the address space, and its offsets do not overflow.
pub record IsFit (m : Mapping) : Type 0 where
  pub nonempty : m.startp < m.endp
  pub below : m.endp < 2 ^ 52
  pub offsets : m.offsetp + (m.endp - m.startp) ≤ 2 ^ 53
