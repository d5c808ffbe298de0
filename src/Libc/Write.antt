-- ===== src/Libc/Write.antt =====
-- kernel/source/libc/string.cpp: what the functions that copy a string leave in memory.
use ilobilix.Base.{ℕ, zero, suc, ◌+◌, ◌-◌, ◌≤◌, ◌<◌, ◌⊎◌, ◌≡◌, ap, arith, some, subst}
use ilobilix.Libc.{Memory, store, strcpy, strncpy, strcat}
use ilobilix.Libc.Scan.{IsString, strlen_lem}
use ilobilix.Libc.Copy.{moved}

-- A store outside of a string leaves it.
IsString-store :
    (n str a v : ℕ) (m : Memory)
    → (a < str) ⊎ (str + n < a)
    → IsString n str m
    → IsString n str (store m a v)
IsString-store zero str a v m d h = ground (arith, h)
IsString-store (suc n) str a v m d h = ground (arith, h, IsString-store n (str + 1) a v m)

strcpy_lem :
    (n fuel dest src : ℕ) (m : Memory)
    → IsString n src m
    → n < fuel
    → (dest < src) ⊎ (src + n < dest)
    → (out : Memory) × (strcpy fuel dest src m ≡ some out)
      × ((a : ℕ) → out a ≡ moved dest src (n + 1) m a)
unfolding strcpy
strcpy_lem n zero dest src m h l d = absurd (omega arith)
strcpy_lem zero (suc fuel) dest src m h l d = (
  store m dest 0,
  ground (arith, h),
  λ a. ground (arith, h, ap m {x = src} {y = src + (a - dest)}),
)
strcpy_lem (suc n) (suc fuel) dest src m h l d =
    let rest =
      strcpy_lem n fuel (dest + 1) (src + 1) (store m dest (m src))
        (IsString-store n (src + 1) dest (m src) m (ground (arith, d)) h.1) (omega arith)
        (ground (arith, d)) in
    (
      rest.0,
      ground (arith, h, rest.1),
      λ a. ground (
        arith,
        rest.2 a,
        ap m {x = src} {y = src + (a - dest)},
        ap m {x = src + 1 + (a - (dest + 1))} {y = src + (a - dest)},
      ),
    )

-- On strings that do not meet (also not after the copy), with fuel for more than each, strcat leaves the
-- characters of the second and its NUL behind the characters of the first, and all else as before.
pub strcat_lem :
    (k n fuel dest src : ℕ) (m : Memory)
    → IsString k dest m
    → IsString n src m
    → k < fuel
    → n < fuel
    → (dest + k < src) ⊎ (src + n < dest)
    → (out : Memory) × (strcat fuel dest src m ≡ some out)
      × ((a : ℕ) → out a ≡ moved (dest + k) src (n + 1) m a)
unfolding strcat
strcat_lem k n fuel dest src m hk hn lk ln d =
    let copy = strcpy_lem n fuel (dest + k) src m hn ln (ground (arith, d)) in
    (copy.0, rw (strcat, strlen_lem k fuel dest m hk lk) copy.1, copy.2)

-- If the source is a string of at least len characters, which the copy does not meet, strncpy writes a
-- NUL at the byte behind the len bytes of the target.
pub strncpy_overrun :
    (n len dest src : ℕ) (m : Memory)
    → IsString n src m
    → len ≤ n
    → (dest < src) ⊎ (src + n < dest)
    → strncpy dest src len m (dest + len) ≡ 0
unfolding strncpy
strncpy_overrun n zero dest src m h l d = ground arith
strncpy_overrun zero (suc len) dest src m h l d = absurd (omega arith)
strncpy_overrun (suc n) (suc len) dest src m h l d =
    let rest =
      strncpy_overrun n len (dest + 1) (src + 1) (store m dest (m src))
        (IsString-store n (src + 1) dest (m src) m (ground (arith, d)) h.1) (omega arith)
        (ground (arith, d)) in
    let at : dest + 1 + len ≡ dest + suc len = omega arith in
    ground (
      arith,
      h.0,
      subst (λ (t : ℕ). strncpy (dest + 1) (src + 1) len (store m dest (m src)) t ≡ 0) at rest,
    )
