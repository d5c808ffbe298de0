-- ===== src/Libc/Tests.antt =====
-- Runs of the functions of kernel/source/libc/string.cpp on a small memory.
use ilobilix.Base.{◌≡◌, refl, [], ◌∷◌, get_or, some, arith, inl}
use ilobilix.Libc.{
  Memory, load, memcpy, memmove, copy_up, copy_down, move_if, move_while, move_group, store_all,
  memcpy_words, memset, strchr, strcmp,
}
use ilobilix.Libc.Copy.{moved, memmove_lem}
use ilobilix.Libc.Words.{memcpy_words-memcpy}
use ilobilix.Libc.Memset.{memset_words}
use ilobilix.Libc.Memset.Filled.{memset_words-memset}
use ilobilix.Libc.Scan.{IsString}

-- "ab" at 1, and "abc" at 8
abbrev text : Memory
text a = get_or (9 ∷ 97 ∷ 98 ∷ 0 ∷ 9 ∷ 9 ∷ 9 ∷ 9 ∷ 97 ∷ 98 ∷ 99 ∷ 0 ∷ 9 ∷ 9 ∷ 9 ∷ []) a 9

ab : IsString 2 1 text
ab = (omega arith, (omega arith, refl))

abc : IsString 3 8 text
abc = (omega arith, (omega arith, (omega arith, refl)))

memmove_up : load 4 8 (memmove 9 8 3 text) ≡ (97 ∷ 97 ∷ 98 ∷ 99 ∷ [])
unfolding load memmove copy_up copy_down
memmove_up = refl

memcpy_words_seven : load 7 20 (memcpy_words 20 1 7 text) ≡ load 7 1 text
unfolding load memcpy_words move_if move_while move_group store_all
memcpy_words_seven = refl

strcmp_order : strcmp 9 1 8 text ≡ some (0, 99)
unfolding strcmp
strcmp_order = refl

strchr_end : strchr 9 1 0 text ≡ some (some 3)
unfolding strchr
strchr_end = refl

memmove_lem_example : memmove 9 8 3 text 10 ≡ moved 9 8 3 text 10
memmove_lem_example = memmove_lem 9 8 3 text 10

memcpy_words-memcpy_example : memcpy_words 1 8 3 text 2 ≡ memcpy 1 8 3 text 2
memcpy_words-memcpy_example = memcpy_words-memcpy 1 8 3 text 2 (inl (omega arith))

memset_words-memset_example : memset_words 5 300 9 text 12 ≡ memset 5 300 9 text 12
memset_words-memset_example = memset_words-memset 5 300 9 text 12
