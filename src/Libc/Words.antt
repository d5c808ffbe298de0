-- ===== src/Libc/Words.antt =====
-- kernel/source/libc/string.cpp: the `memcpy` of groups of words does what the portable one does.
use ilobilix.Base.{
  ℕ, zero, suc, ◌+◌, ◌-◌, ◌≤◌, ◌<◌, inl, inr, ◌&&◌, ltb, leb, ◌≡◌, refl, ap, if◌then◌else◌, arith,
  List, [], ◌∷◌, length, get_or, Bool-cases,
}
use ilobilix.Libc.{
  Memory, store, memcpy, load, store_all, Cursor, move_group, move_if, move_while, memcpy_words,
}
use ilobilix.Libc.Copy.{moved, Forward, memcpy_lem}

pub get_or-load : (w a j : ℕ) (m : Memory) → j < w → get_or (load w a m) j 0 ≡ m (a + j)
unfolding load
get_or-load zero a j m h = absurd (omega arith)
get_or-load (suc w) a zero m h = ap m (omega arith)
get_or-load (suc w) a (suc j) m h =
    ground (arith, get_or-load w (a + 1) j m, ap m {x = a + 1 + j} {y = a + suc j})

pub length-load : (w a : ℕ) (m : Memory) → length (load w a m) ≡ w
unfolding load
length-load zero a m = refl
length-load (suc w) a m = ap suc (length-load w (a + 1) m)

get_or-cons : (b : ℕ) (bs : List ℕ) (i j : ℕ) → i ≡ suc j → get_or (b ∷ bs) i 0 ≡ get_or bs j 0
get_or-cons b bs zero j h = absurd (omega arith)
get_or-cons b bs (suc i) j h = ap (λ (t : ℕ). get_or bs t 0) (omega arith)

get_or-head : (b : ℕ) (bs : List ℕ) (i : ℕ) → i ≡ 0 → get_or (b ∷ bs) i 0 ≡ b
get_or-head b bs zero h = refl
get_or-head b bs (suc i) h = absurd (omega arith)

pub store_all_lem :
    (bs : List ℕ) (a : ℕ) (m : Memory) (x : ℕ)
    → store_all bs a m x ≡ (if leb a x && ltb x (a + length bs) then get_or bs (x - a) 0 else m x)
unfolding store_all
store_all_lem [] a m x = ground arith
store_all_lem (b ∷ bs) a m x = ground (
  arith,
  store_all_lem bs (a + 1) (store m a b) x,
  get_or-cons b bs (x - a) (x - (a + 1)),
  get_or-head b bs (x - a),
)

-- A group whose words are loaded before the first is stored is moved whatever the overlap.
store_all-load :
    (w src dest : ℕ) (m : Memory) (x : ℕ) → store_all (load w src m) dest m x ≡ moved dest src w m x
store_all-load w src dest m x = ground (
  arith,
  store_all_lem (load w src m) dest m x,
  length-load w src m,
  get_or-load w src (x - dest) m,
)

-- `k` of `n` bytes are moved.
record Progress (dest src n : ℕ) (m : Memory) (c : Cursor) : Type 0 where
  done : ℕ
  at_dest : c.dest ≡ dest + done
  at_src : c.src ≡ src + done
  at_left : c.left + done ≡ n
  at_mem : (x : ℕ) → c.mem x ≡ moved dest src done m x

moved-add :
    (dest src k w n : ℕ) (m m2 : Memory) (x : ℕ)
    → Forward dest src n
    → w + k ≤ n
    → ((y : ℕ) → m2 y ≡ moved dest src k m y)
    → moved (dest + k) (src + k) w m2 x ≡ moved dest src (k + w) m x
moved-add dest src k w n m m2 x f h e = ground (
  arith,
  e x,
  e (src + k + (x - (dest + k))),
  ap m {x = src + k + (x - (dest + k))} {y = src + (x - dest)},
)

module _ {dest src n : ℕ} {m : Memory} (f : Forward dest src n) where
  move_group-Progress :
      (w : ℕ) (c : Cursor)
      → w ≤ c.left
      → Progress dest src n m c
      → Progress dest src n m (move_group w c)
  unfolding move_group
  move_group-Progress w c h p = record {
    done = p.done + w;
    at_dest = ground (arith, p.at_dest);
    at_src = ground (arith, p.at_src);
    at_left = ground (arith, p.at_left);
    at_mem = λ x. ground (
      arith,
      store_all-load w c.src c.dest c.mem x,
      p.at_dest,
      p.at_src,
      p.at_left,
      moved-add dest src p.done w n m c.mem x f (omega (arith, p.at_left)) p.at_mem,
    );
  }

  move_if-Progress :
      (w : ℕ) (c : Cursor) → Progress dest src n m c → Progress dest src n m (move_if w c)
  unfolding move_if
  move_if-Progress w c p = elim (Bool-cases (leb w c.left)) [
    | inl e ↦ rw e (move_group-Progress w c (ground (arith, e)) p)
    | inr e ↦ rw e p
  ]

  move_while-Progress :
      (k : ℕ) (c : Cursor) → Progress dest src n m c → Progress dest src n m (move_while k c)
  unfolding move_while
  move_while-Progress zero c p = p
  move_while-Progress (suc k) c p = elim (Bool-cases (leb 64 c.left)) [
    | inl e ↦
        rw e
          (move_while-Progress k (move_group 64 c) (move_group-Progress 64 c (ground (arith, e)) p))
    | inr e ↦ rw e p
  ]

move_if-left : (w : ℕ) (c : Cursor) → c.left < w + w → (move_if w c).left < w
unfolding move_if move_group
move_if-left w c h = ground arith

move_while-left : (k : ℕ) (c : Cursor) → c.left < 64 + k → (move_while k c).left < 64
unfolding move_while move_group
move_while-left zero c h = h
move_while-left (suc k) c h = ground (arith, move_while-left k (move_group 64 c))

module _ (dest src n : ℕ) (m : Memory) (f : Forward dest src n) where
  final : Cursor
  final = move_if 1 (
      move_if 2 (
        move_if 4 (
          move_if 8 (
            move_if 16
              (move_if 32 (move_while n (record { dest = dest; src = src; left = n; mem = m })))))))

  final-left : final.left < 1
  unfolding final
  final-left = move_if-left 1 _ (
      move_if-left 2 _ (
        move_if-left 4 _ (
          move_if-left 8 _
            (move_if-left 16 _ (move_if-left 32 _ (move_while-left n _ (omega arith)))))))

  final-Progress : Progress dest src n m final
  unfolding final
  final-Progress = move_if-Progress f 1 _ (
      move_if-Progress f 2 _ (
        move_if-Progress f 4 _ (
          move_if-Progress f 8 _ (
            move_if-Progress f 16 _ (
              move_if-Progress f 32 _ (
                move_while-Progress f n _ (record {
                  done = 0;
                  at_dest = omega arith;
                  at_src = omega arith;
                  at_left = omega arith;
                  at_mem = λ x. ground arith;
                })))))))

-- If the source is not behind the target, or the ranges do not meet, the memcpy of word groups leaves
-- in each byte of memory what the portable memcpy leaves there.
pub memcpy_words-memcpy :
    (dest src n : ℕ) (m : Memory) (a : ℕ)
    → Forward dest src n
    → memcpy_words dest src n m a ≡ memcpy dest src n m a
unfolding memcpy_words final
memcpy_words-memcpy dest src n m a f =
    let p : Progress dest src n m (final dest src n m f) = final-Progress dest src n m f in
    ground (arith, p.at_mem a, p.at_left, final-left dest src n m f, memcpy_lem dest src n m a f)
