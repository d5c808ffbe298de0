-- ===== src/Libc/Memset/Filled.antt =====
-- kernel/source/libc/string.cpp: the `memset` of words does what the portable one does.
use ilobilix.Base.{
  ℕ, zero, suc, ◌+◌, ◌-◌, ◌*◌, ◌/◌, ◌%◌, ◌≤◌, ◌<◌, inl, inr, ◌&&◌, not, ltb, leb, leb→le, ◌==◌, ◌≡◌,
  refl, if◌then◌else◌, arith, length-replicate, get_or, replicate, Bool-cases, u8, bit_and,
}
use ilobilix.Libc.{Memory, store, store_all, memset}
use ilobilix.Libc.Copy.{memset_lem}
use ilobilix.Libc.Words.{store_all_lem}
use ilobilix.Libc.Memset.{
  Point, pattern, word_bytes, align_loop, store_patterns, set_if, set_while, memset_words,
}

word_bytes-pattern :
    (size byte : ℕ) → byte < 256 → word_bytes size (pattern size byte) ≡ replicate size byte
unfolding word_bytes pattern
word_bytes-pattern zero byte h = refl
word_bytes-pattern (suc size) byte h =
    let low : (byte + pattern size byte * 256) % 256 ≡ byte = omega arith in
    let high : (byte + pattern size byte * 256) / 256 ≡ pattern size byte = omega arith in
    rw (low, high, word_bytes-pattern size byte h) refl

get_or-replicate : (n byte j : ℕ) → j < n → get_or (replicate n byte) j 0 ≡ byte
get_or-replicate zero byte j h = absurd (omega arith)
get_or-replicate (suc n) byte zero h = refl
get_or-replicate (suc n) byte (suc j) h = get_or-replicate n byte j (omega arith)

store_pattern :
    (byte size at : ℕ) (m2 : Memory) (x : ℕ)
    → byte < 256
    → store_all (word_bytes size (pattern size byte)) at m2 x
      ≡ (if leb at x && ltb x (at + size) then byte else m2 x)
store_pattern byte size at m2 x b = rw (word_bytes-pattern size byte b) (
    ground (
      arith,
      store_all_lem (replicate size byte) at m2 x,
      length-replicate size byte,
      get_or-replicate size byte (x - at),
    ))

-- `done` of `n` bytes are set.
record Progress (dest n byte : ℕ) (m : Memory) (p : Point) : Type 0 where
  done : ℕ
  at_dest : p.dest ≡ dest + done
  at_left : p.left + done ≡ n
  at_mem : (x : ℕ) → p.mem x ≡ (if leb dest x && ltb x (dest + done) then byte else m x)

module _ {dest n byte : ℕ} {m : Memory} (b : byte < 256) where
  align_loop-Progress :
      (k : ℕ) (p : Point) → Progress dest n byte m p → Progress dest n byte m (align_loop k byte p)
  unfolding align_loop
  align_loop-Progress zero p h = h
  align_loop-Progress (suc k) p h =
      elim (Bool-cases (not (p.left == 0) && not (bit_and p.dest 7 == 0))) [
        | inl e ↦ rw e (
            align_loop-Progress k _ (record {
              done = h.done + 1;
              at_dest = omega (arith, h.at_dest);
              at_left = ground (arith, h.at_left, e);
              at_mem = λ x. ground (arith, h.at_mem x, h.at_dest);
            }))
        | inr e ↦ rw e h
      ]

  store_patterns-Progress :
      (count size : ℕ) (p : Point)
      → count * size ≤ p.left
      → Progress dest n byte m p
      → Progress dest n byte m (store_patterns count size byte p)
  unfolding store_patterns
  store_patterns-Progress zero size p l h = h
  store_patterns-Progress (suc count) size p l h =
      store_patterns-Progress count size _ (omega arith) (record {
        done = h.done + size;
        at_dest = omega (arith, h.at_dest);
        at_left = omega (arith, h.at_left);
        at_mem =
            λ x. ground (arith, h.at_mem x, h.at_dest, store_pattern byte size p.dest p.mem x b);
      })

  set_if-Progress :
      (count size : ℕ) (p : Point)
      → Progress dest n byte m p
      → Progress dest n byte m (set_if count size byte p)
  unfolding set_if
  set_if-Progress count size p h = elim (Bool-cases (leb (count * size) p.left)) [
    | inl e ↦ rw e (store_patterns-Progress count size p (leb→le _ _ e) h)
    | inr e ↦ rw e h
  ]

  set_while-Progress :
      (k : ℕ) (p : Point) → Progress dest n byte m p → Progress dest n byte m (set_while k byte p)
  unfolding set_while
  set_while-Progress zero p h = h
  set_while-Progress (suc k) p h = elim (Bool-cases (leb 64 p.left)) [
    | inl e ↦ rw e (set_while-Progress k _ (store_patterns-Progress 8 8 p (leb→le _ _ e) h))
    | inr e ↦ rw e h
  ]

set_if-left :
    (size byte : ℕ) (p : Point) → p.left < size + size → (set_if 1 size byte p).left < size
unfolding set_if store_patterns
set_if-left size byte p h = ground arith

set_if-left_two : (byte : ℕ) (p : Point) → p.left < 32 → (set_if 2 8 byte p).left < 16
unfolding set_if store_patterns
set_if-left_two byte p h = ground arith

set_if-left_four : (byte : ℕ) (p : Point) → p.left < 64 → (set_if 4 8 byte p).left < 32
unfolding set_if store_patterns
set_if-left_four byte p h = ground arith

set_while-left : (k byte : ℕ) (p : Point) → p.left < 64 + k → (set_while k byte p).left < 64
unfolding set_while store_patterns
set_while-left zero byte p h = h
set_while-left (suc k) byte p h = elim (Bool-cases (leb 64 p.left)) [
  | inl e ↦ rw e (set_while-left k byte _ (ground (arith, e)))
  | inr e ↦ rw e (ground (arith, e))
]

align_loop-left : (k byte : ℕ) (p : Point) → (align_loop k byte p).left ≤ p.left
unfolding align_loop
align_loop-left zero byte p = omega arith
align_loop-left (suc k) byte p =
    elim (Bool-cases (not (p.left == 0) && not (bit_and p.dest 7 == 0))) [
      | inl e ↦ rw e (
          omega (
            arith,
            align_loop-left k byte
                (record { dest = p.dest + 1; left = p.left - 1; mem = store p.mem p.dest byte }),
          ))
      | inr e ↦ rw e (omega arith)
    ]

module _ (dest byte n : ℕ) (m : Memory) where
  aligned : Point
  unfolding align_loop
  aligned = align_loop n byte (record { dest = dest; left = n; mem = m })

  final : Point
  unfolding set_while set_if aligned
  final = set_if 1 1 byte (
      set_if 1 2 byte (
        set_if 1 4 byte
          (set_if 1 8 byte (set_if 2 8 byte (set_if 4 8 byte (set_while n byte aligned))))))

  final-left : final.left < 1
  unfolding final aligned
  final-left = set_if-left 1 byte _ (
      set_if-left 2 byte _ (
        set_if-left 4 byte _ (
          set_if-left 8 byte _ (
            set_if-left_two byte _ (
              set_if-left_four byte _ (
                set_while-left n byte _ (
                  omega (
                    arith,
                    align_loop-left n byte (record { dest = dest; left = n; mem = m }),
                  ))))))))

  final-Progress : byte < 256 → Progress dest n byte m final
  unfolding final aligned
  final-Progress b = set_if-Progress b 1 1 _ (
      set_if-Progress b 1 2 _ (
        set_if-Progress b 1 4 _ (
          set_if-Progress b 1 8 _ (
            set_if-Progress b 2 8 _ (
              set_if-Progress b 4 8 _ (
                set_while-Progress b n _ (
                  align_loop-Progress b n _ (record {
                    done = 0;
                    at_dest = omega arith;
                    at_left = omega arith;
                    at_mem = λ x. ground arith;
                  }))))))))

-- The memset of words leaves in each byte of memory what the portable memset leaves there.
pub memset_words-memset :
    (dest val n : ℕ) (m : Memory) (a : ℕ) → memset_words dest val n m a ≡ memset dest val n m a
unfolding memset_words final aligned
memset_words-memset dest val n m a =
    let p : Progress dest n (u8 val) m (final dest (u8 val) n m) =
      final-Progress dest (u8 val) n m (omega arith) in
    ground (arith, p.at_mem a, p.at_left, final-left dest (u8 val) n m, memset_lem dest val n m a)
