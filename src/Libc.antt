-- ===== src/Libc.antt =====
-- kernel/source/libc/string.cpp: the memory and string functions of the kernel, over a memory that
-- gives each address a byte. Pointers are addresses; no object reaches the top of the address space.
-- A loop that scans for a NUL takes fuel, and `none` means that the fuel ran out.
pub mod Copy
pub mod Words
pub mod Memset
pub mod Scan
pub mod Compare
pub mod Write
pub mod Tests
use ilobilix.Base.{
  ℕ, zero, suc, ◌+◌, ◌-◌, ◌*◌, ◌%◌, Bool, true, false, ◌&&◌, ◌||◌, not, ltb, leb, ◌==◌, Option,
  none, some, List, [], ◌∷◌, if◌then◌else◌, u8,
}

abbrev pub Memory : Type 0
Memory = ℕ → ℕ

abbrev pub store : Memory → ℕ → ℕ → Memory
store m a v x = if x == a then v else m x

-- `for (i = 0; i < len; i++) pdest[i] = psrc[i]`, from index `i`, with `n` rounds left
unfoldable pub copy_up : ℕ → ℕ → ℕ → ℕ → Memory → Memory
copy_up zero i dest src m = m
copy_up (suc n) i dest src m = copy_up n (i + 1) dest src (store m (dest + i) (m (src + i)))

-- `for (i = len; i > 0; i--) pdest[i - 1] = psrc[i - 1]`
unfoldable pub copy_down : ℕ → ℕ → ℕ → Memory → Memory
copy_down zero dest src m = m
copy_down (suc i) dest src m = copy_down i dest src (store m (dest + i) (m (src + i)))

-- The portable `memcpy`.
unfoldable pub memcpy : ℕ → ℕ → ℕ → Memory → Memory
unfolding copy_up
memcpy dest src len m = copy_up len 0 dest src m

unfoldable pub memmove : ℕ → ℕ → ℕ → Memory → Memory
unfolding copy_up copy_down
memmove dest src len m =
    if ltb dest src
    then copy_up len 0 dest src m
    else if ltb src dest
    then copy_down len dest src m
    else m

unfoldable pub fill : ℕ → ℕ → ℕ → ℕ → Memory → Memory
fill zero i ptr v m = m
fill (suc n) i ptr v m = fill n (i + 1) ptr v (store m (ptr + i) v)

-- The portable `memset`.
unfoldable pub memset : ℕ → ℕ → ℕ → Memory → Memory
unfolding fill
memset dest ch len m = fill len 0 dest (u8 ch) m

-- The bytes of a word, loaded through `alias_load` and stored through `alias_store`.
unfoldable pub load : ℕ → ℕ → Memory → List ℕ
load zero a m = []
load (suc n) a m = m a ∷ load n (a + 1) m

unfoldable pub store_all : List ℕ → ℕ → Memory → Memory
store_all [] a m = m
store_all (b ∷ bs) a m = store_all bs (a + 1) (store m a b)

-- `cur_dest`, `curSrc` and `n` of the word `memcpy`, and the memory.
pub record Cursor : Type 0 where
  pub dest : ℕ
  pub src : ℕ
  pub left : ℕ
  pub mem : Memory

-- All the words of a group are loaded before the first of them is stored.
unfoldable pub move_group : ℕ → Cursor → Cursor
unfolding load store_all
move_group w c = record {
  dest = c.dest + w;
  src = c.src + w;
  left = c.left - w;
  mem = store_all (load w c.src c.mem) c.dest c.mem;
}

-- `if (n >= w) { ... n -= w; }`
unfoldable pub move_if : ℕ → Cursor → Cursor
unfolding move_group
move_if w c = if leb w c.left then move_group w c else c

-- `while (n >= 8 * 8)`, on fuel
unfoldable pub move_while : ℕ → Cursor → Cursor
unfolding move_group
move_while zero c = c
move_while (suc fuel) c =
    let next = move_while fuel (move_group 64 c) in if leb 64 c.left then next else c

-- The `memcpy` of the build for uACPI: groups of 64, then 32, 16, 8, 4, 2 and 1 bytes.
unfoldable pub memcpy_words : ℕ → ℕ → ℕ → Memory → Memory
unfolding move_while move_if
memcpy_words dest src n m =
    let start : Cursor = record { dest = dest; src = src; left = n; mem = m } in
    (move_if 1
      (move_if 2 (move_if 4 (move_if 8 (move_if 16 (move_if 32 (move_while n start))))))).mem

-- `memcmp`: the sign of the first difference
pub data Sign : Type 0 where
  minus nought plus : Sign

unfoldable pub memcmp : ℕ → ℕ → ℕ → Memory → Sign
memcmp p1 p2 zero m = nought
memcmp p1 p2 (suc n) m =
    let rest = memcmp (p1 + 1) (p2 + 1) n m in
    if m p1 == m p2 then rest else if ltb (m p1) (m p2) then minus else plus

-- `memchr`: the address of the first hit; `ch` is not converted to a byte.
unfoldable pub memchr : ℕ → ℕ → ℕ → Memory → Option ℕ
memchr p ch zero m = none
memchr p ch (suc n) m = let rest = memchr (p + 1) ch n m in if m p == ch then some p else rest

-- `strlen`, from `length` on
unfoldable pub strlen_from : ℕ → ℕ → ℕ → Memory → Option ℕ
strlen_from zero length str m = none
strlen_from (suc fuel) length str m =
    let rest = strlen_from fuel (length + 1) str m in
    if m (str + length) == 0 then some length else rest

unfoldable pub strlen : ℕ → ℕ → Memory → Option ℕ
unfolding strlen_from
strlen fuel str m = strlen_from fuel 0 str m

-- `strnlen`, with `left` characters allowed behind `length`
unfoldable pub strnlen_from : ℕ → ℕ → ℕ → Memory → ℕ
strnlen_from zero length str m = length
strnlen_from (suc left) length str m =
    let rest = strnlen_from left (length + 1) str m in
    if m (str + length) == 0 then length else rest

unfoldable pub strnlen : ℕ → ℕ → Memory → ℕ
unfolding strnlen_from
strnlen str len m = strnlen_from len 0 str m

-- `strchr` for a byte `ch`
unfoldable pub strchr : ℕ → ℕ → ℕ → Memory → Option (Option ℕ)
strchr zero str ch m = none
strchr (suc fuel) str ch m =
    let rest = strchr fuel (str + 1) ch m in
    if not (m str == 0) && not (m str == ch)
    then rest
    else some (if ch == m str then some str else none)

-- The characters whose difference `strcmp` returns.
unfoldable pub strcmp : ℕ → ℕ → ℕ → Memory → Option (ℕ × ℕ)
strcmp zero s1 s2 m = none
strcmp (suc fuel) s1 s2 m =
    let rest = strcmp fuel (s1 + 1) (s2 + 1) m in
    if not (m s1 == 0) && (not (m s2 == 0) && m s1 == m s2) then rest else some (m s1, m s2)

-- `strcpy`: the copy of the characters, and the NUL behind them
unfoldable pub strcpy : ℕ → ℕ → ℕ → Memory → Option Memory
strcpy zero dest src m = none
strcpy (suc fuel) dest src m =
    let rest = strcpy fuel (dest + 1) (src + 1) (store m dest (m src)) in
    if m src == 0 then some (store m dest 0) else rest

-- `strncpy`: at most `len` characters, and then always a NUL
unfoldable pub strncpy : ℕ → ℕ → ℕ → Memory → Memory
strncpy dest src zero m = store m dest 0
strncpy dest src (suc len) m =
    let rest = strncpy (dest + 1) (src + 1) len (store m dest (m src)) in
    if m src == 0 then store m dest 0 else rest

-- `strcat`, whose loop is that of `strcpy`
unfoldable pub strcat : ℕ → ℕ → ℕ → Memory → Option Memory
unfolding strlen strcpy
strcat fuel dest src m = elim (strlen fuel dest m) [
  | none ↦ none
  | some n ↦ strcpy fuel (dest + n) src m
]

-- `strncat`, whose loop is that of `strncpy`
unfoldable pub strncat : ℕ → ℕ → ℕ → ℕ → Memory → Option Memory
unfolding strlen strncpy
strncat fuel dest src len m = elim (strlen fuel dest m) [
  | none ↦ none
  | some n ↦ some (strncpy (dest + n) src len m)
]
