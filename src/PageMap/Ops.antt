-- ===== src/PageMap/Ops.antt =====
-- kernel/source/system/memory/pagemap.cpp: `map`, `protect`, `unmap` and `translate`. The flush of the
-- processor's cache of an address (`invalidate`) is not in the state.
use ilobilix.Base.{
  ℕ, zero, suc, ◌+◌, ◌-◌, ◌/◌, ◌%◌, ◌==◌, Bool, true, false, not, if◌then◌else◌, add64,
}
use ilobilix.PageMap.{
  PageSize, Caching, Error, addr_not_aligned, invalid_entry, Frames, Tables, PageMap, Result, ok,
  err, stopped, ◌>>=◌, set_entry, setflags, setaddr, clearflags, getaddr, is_canonical,
  from_page_size, fixpsize, to_arch, getpte,
}

-- The rounds of `for (i = 0; i < length; i += npsize)`
abbrev pub rounds : ℕ → ℕ → ℕ
rounds length npsize = (length + npsize - 1) / npsize

abbrev pub either :
    {D A B : Type 0}
    → Result D A
    → (A → Tables D → Result D B)
    → (Error → Tables D → Result D B)
    → Result D B
either (ok a s) f g = f a s
either (err e s) f g = g e s
either stopped f g = stopped

module _ {D : Type 0} (fr : Frames D) (pm : PageMap) where
  module _ (vaddr : ℕ) (psize : PageSize) where
    -- The loop that takes back what a failed `map` has mapped
    unfoldable pub rollback : ℕ → ℕ → Tables D → Result D (Unit {0})
    unfolding getpte from_page_size
    rollback zero i s = ok tt s
    rollback (suc n) i s = getpte fr pm (add64 vaddr i) psize true s >>= λ r s'.
        rollback n (i + from_page_size psize) (set_entry r.0 r.1 0 s')

    unfoldable pub map_from : ℕ → ℕ → ℕ → ℕ → Tables D → Result D (Unit {0})
    unfolding getpte from_page_size rollback setflags setaddr
    map_from zero i paddr aflags s = ok tt s
    map_from (suc n) i paddr aflags s =
        either (getpte fr pm (add64 vaddr i) psize true s)
          (λ r s'.
            map_from n (i + from_page_size psize) paddr aflags
              (set_entry r.0 r.1 (setflags aflags (setaddr (add64 paddr i) 0)) s'))
          (λ e s'. rollback (i / from_page_size psize) 0 s' >>= λ _ s''. err e s'')

    unfoldable pub protect_from : ℕ → ℕ → ℕ → Tables D → Result D (Unit {0})
    unfolding getpte from_page_size setflags clearflags
    protect_from zero i aflags s = ok tt s
    protect_from (suc n) i aflags s = getpte fr pm (add64 vaddr i) psize false s >>= λ r s'.
        protect_from n (i + from_page_size psize) aflags
          (set_entry r.0 r.1 (setflags aflags (clearflags (s'.entries r.0 r.1))) s')

    -- A hole is no error.
    unfoldable pub unmap_from : ℕ → ℕ → Tables D → Result D (Unit {0})
    unfolding getpte from_page_size
    unmap_from zero i s = ok tt s
    unmap_from (suc n) i s =
        either (getpte fr pm (add64 vaddr i) psize false s)
          (λ r s'. unmap_from n (i + from_page_size psize) (set_entry r.0 r.1 0 s'))
          (λ e s'. unmap_from n (i + from_page_size psize) s')

  abbrev pub aligned : ℕ → PageSize → Bool
  unfolding from_page_size
  aligned vaddr psize = vaddr % from_page_size psize == 0

  unfoldable pub map : ℕ → ℕ → ℕ → ℕ → PageSize → Caching → Tables D → Result D (Unit {0})
  unfolding fixpsize from_page_size map_from to_arch
  map vaddr paddr length flags psize cache s =
      let size = fixpsize pm.large_pages psize in
      if not (aligned vaddr size)
      then err addr_not_aligned s
      else map_from vaddr size (rounds length (from_page_size size)) 0 paddr
          (to_arch flags cache size) s

  unfoldable pub protect : ℕ → ℕ → ℕ → PageSize → Caching → Tables D → Result D (Unit {0})
  unfolding fixpsize from_page_size protect_from to_arch
  protect vaddr length flags psize cache s =
      let size = fixpsize pm.large_pages psize in
      if not (aligned vaddr size)
      then err addr_not_aligned s
      else protect_from vaddr size (rounds length (from_page_size size)) 0
          (to_arch flags cache size) s

  unfoldable pub unmap : ℕ → ℕ → PageSize → Tables D → Result D (Unit {0})
  unfolding fixpsize from_page_size unmap_from
  unmap vaddr length psize s =
      let size = fixpsize pm.large_pages psize in
      if not (aligned vaddr size)
      then err addr_not_aligned s
      else unmap_from vaddr size (rounds length (from_page_size size)) 0 s

  unfoldable pub translate : ℕ → PageSize → Tables D → Result D ℕ
  unfolding fixpsize from_page_size getpte getaddr is_canonical
  translate vaddr psize s =
      let size = fixpsize pm.large_pages psize in
      if not (aligned vaddr size)
      then err addr_not_aligned s
      else getpte fr pm vaddr size false s >>= λ r s'.
          (let addr = getaddr (s'.entries r.0 r.1) in
            if is_canonical addr then ok addr s' else err invalid_entry s')
