-- ===== src/PageMap/Bits.antt =====
-- kernel/interfaces/system/memory/pagemap.cppm: the address and the flags of an entry do not disturb
-- each other.
use ilobilix.Base.{
  ℕ, ◌+◌, ◌/◌, ◌*◌, ◌%◌, ◌^◌, ◌≡◌, ◌<◌, ◌==◌, refl, ap, ap₂, ◌∙◌, Bool, true, false, not, bit_and,
  bit_or, arith,
}
use ilobilix.Base.Digits.{bit_and-bit_or, bit_and_again, or_low, bit_or-zero, zero-bit_or}
use ilobilix.Base.Bits.{bit_and_low, bit_and_high}
use ilobilix.PageMap.{
  small, Caching, uncacheable, uncacheable_strong, write_through, write_protected, write_combining,
  write_back, device, pa_mask, setflags, getflags, setaddr, getaddr, is_table, is_canonical,
  to_arch, rights, when, table_entry, index,
}

setaddr_clear : (p : ℕ) → setaddr p 0 ≡ bit_and p pa_mask
unfolding setaddr
setaddr_clear p = zero-bit_or (bit_and p pa_mask)

-- Flags outside the bits of the address leave the address.
pub getaddr-setflags :
    (aflags v : ℕ) → bit_and aflags pa_mask ≡ 0 → getaddr (setflags aflags v) ≡ getaddr v
unfolding getaddr setflags
getaddr-setflags aflags v h =
    bit_and-bit_or v aflags pa_mask
    ∙ ap (bit_or (bit_and v pa_mask)) h
    ∙ bit_or-zero (bit_and v pa_mask)

pub getaddr-setaddr : (p : ℕ) → getaddr (setaddr p 0) ≡ bit_and p pa_mask
unfolding getaddr
getaddr-setaddr p = ap (λ (v : ℕ). bit_and v pa_mask) (setaddr_clear p) ∙ bit_and_again p pa_mask

pub table_entry-getaddr : (p : ℕ) → bit_and p pa_mask ≡ p → getaddr (table_entry p) ≡ p
unfolding table_entry
table_entry-getaddr p h = getaddr-setflags 7 (setaddr p 0) refl ∙ getaddr-setaddr p ∙ h

setflags_low : (v : ℕ) → setflags 7 v % 2 ≡ 1
unfolding setflags
setflags_low v = omega (arith, or_low v 7)

pub table_entry-is_table :
    (p : ℕ) → bit_and p pa_mask ≡ p → p < 0x0000_8000_0000_0000 → is_table (table_entry p) ≡ true
unfolding is_table getflags is_canonical table_entry
table_entry-is_table p h l =
    let low : bit_and (table_entry p) 1 ≡ 1 =
      bit_and_low 1 (table_entry p) ∙ setflags_low (setaddr p 0) in
    rw (low, table_entry-getaddr p h) (ground (arith, l))

when-clear : (b : Bool) (f : ℕ) → bit_and f pa_mask ≡ 0 → bit_and (when b f) pa_mask ≡ 0
when-clear true f h = h
when-clear false f h = refl

or-clear :
    (a b : ℕ) → bit_and a pa_mask ≡ 0 → bit_and b pa_mask ≡ 0 → bit_and (bit_or a b) pa_mask ≡ 0
or-clear a b h k = bit_and-bit_or a b pa_mask ∙ ap₂ (λ (t u : ℕ). bit_or t u) h k

rights-clear : (flags : ℕ) → bit_and (rights flags) pa_mask ≡ 0
rights-clear flags =
    or-clear _ _
      (or-clear _ _
        (or-clear _ _
          (or-clear _ _ (when-clear (not (bit_and flags 1 == 0)) 1 refl)
            (when-clear (not (bit_and flags 2 == 0)) 2 refl))
          (when-clear (not (bit_and flags 8 == 0)) 4 refl))
        (when-clear (not (bit_and flags 16 == 0)) 256 refl))
      (when-clear (bit_and flags 4 == 0) 0x8000_0000_0000_0000 refl)

-- For small pages no flag lies in the bits of the address.
pub to_arch_small : (flags : ℕ) (cache : Caching) → bit_and (to_arch flags cache small) pa_mask ≡ 0
unfolding to_arch
to_arch_small flags uncacheable = or-clear _ _ (or-clear _ _ (rights-clear flags) refl) refl
to_arch_small flags uncacheable_strong = or-clear _ _ (or-clear _ _ (rights-clear flags) refl) refl
to_arch_small flags write_through = or-clear _ _ (or-clear _ _ (rights-clear flags) refl) refl
to_arch_small flags write_protected = or-clear _ _ (or-clear _ _ (rights-clear flags) refl) refl
to_arch_small flags write_combining = or-clear _ _ (or-clear _ _ (rights-clear flags) refl) refl
to_arch_small flags write_back = or-clear _ _ (or-clear _ _ (rights-clear flags) refl) refl
to_arch_small flags device = or-clear _ _ (or-clear _ _ (rights-clear flags) refl) refl

pub index_lem : (height vaddr : ℕ) → index height vaddr ≡ vaddr / 2 ^ (12 + height * 9) % 512
unfolding index
index_lem height vaddr = bit_and_low 9 (vaddr / 2 ^ (12 + height * 9))

-- An address of a page has no bits outside the mask.
pub page_kept : (f : ℕ) → f < 2 ^ 40 → bit_and (f * 4096) pa_mask ≡ f * 4096
page_kept f h =
    ap (λ (t : ℕ). bit_and t pa_mask) {x = f * 4096} {y = f * 4096 + 0} (omega arith)
    ∙ bit_and_high 12 40 f 0 h (omega arith)

pub index_below : (height vaddr : ℕ) → index height vaddr < 512
index_below height vaddr = omega (arith, index_lem height vaddr)
