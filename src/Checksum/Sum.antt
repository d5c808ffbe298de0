-- ===== src/Checksum/Sum.antt =====
-- kernel/interfaces/system/net/checksum.cppm: bounds of the sum, and the check of a received packet.
use ilobilix.Base.{
  ℕ, zero, suc, ◌+◌, ◌-◌, ◌*◌, ◌/◌, ◌%◌, ◌≡◌, ◌<◌, inl, inr, ◌==◌, List, [], ◌∷◌, ◌++◌, length,
  get_or, arith, ap, All, refl, ◌∙◌, Bool-cases,
}
use ilobilix.Base.Bits.{bit_and_low}
use ilobilix.Checksum.{fold, update, update_pairs, update_bytes, value, compute}

-- The sum of the words of the bytes, the last one padded behind, without any carry.
abbrev pub word_sum : List ℕ → ℕ
word_sum [] = 0
word_sum (a ∷ []) = a * 256
word_sum (a ∷ b ∷ bytes) = a * 256 + b + word_sum bytes

fold_lem :
    (v : ℕ)
    → v < 131072
    → (fold 2 v < 65536) × (fold 2 v % 65535 ≡ v % 65535) × ((fold 2 v ≡ 0) → v ≡ 0)
unfolding fold
fold_lem v h = ground (arith, bit_and_low 16 v, bit_and_low 16 (v / 65536 + v % 65536))

update_lem :
    (n v : ℕ)
    → n < 65536
    → v < 65536
    → (update n v < 65536) × (update n v % 65535 ≡ (v + n) % 65535)
unfolding update
update_lem n v hn hv = ground (arith, fold_lem (v + n))

abbrev pub IsBytes : List ℕ → Type 0
IsBytes bytes = All (λ b. b < 256) bytes

-- The bytes are whole words.
abbrev pub IsEven : List ℕ → Type 0
IsEven [] = Unit
IsEven (a ∷ []) = ⊥
IsEven (a ∷ b ∷ bytes) = IsEven bytes

-- The words without the odd last byte.
pair_sum : List ℕ → ℕ
pair_sum [] = 0
pair_sum (a ∷ []) = 0
pair_sum (a ∷ b ∷ bytes) = a * 256 + b + pair_sum bytes

update_pairs_lem :
    (bytes : List ℕ) (v : ℕ)
    → IsBytes bytes
    → v < 65536
    → (update_pairs bytes v < 65536) × (update_pairs bytes v % 65535 ≡ (v + pair_sum bytes) % 65535)
unfolding update_pairs pair_sum
update_pairs_lem [] v hb hv = ground arith
update_pairs_lem (a ∷ []) v hb hv = ground arith
update_pairs_lem (a ∷ b ∷ bytes) v hb hv =
    let step = update_lem (a * 256 + b) v (ground (arith, hb)) hv in
    let rest = update_pairs_lem bytes (update (a * 256 + b) v) hb.1.1 step.0 in
    (rest.0, omega (arith, rest.1, step.1))

pair_sum-even : (bytes : List ℕ) → length bytes % 2 ≡ 0 → pair_sum bytes ≡ word_sum bytes
unfolding pair_sum
pair_sum-even [] h = refl
pair_sum-even (a ∷ []) h = absurd (omega arith)
pair_sum-even (a ∷ b ∷ bytes) h = omega (arith, pair_sum-even bytes (omega arith))

get_or-two :
    (a b : ℕ) (bytes : List ℕ) (i j : ℕ)
    → i ≡ suc (suc j)
    → get_or (a ∷ b ∷ bytes) i 0 ≡ get_or bytes j 0
get_or-two a b bytes zero j h = absurd (omega arith)
get_or-two a b bytes (suc zero) j h = absurd (omega arith)
get_or-two a b bytes (suc (suc i)) j h = ap (λ (t : ℕ). get_or bytes t 0) (omega arith)

pair_sum-odd :
    (bytes : List ℕ)
    → length bytes % 2 ≡ 1
    → pair_sum bytes + get_or bytes (length bytes - 1) 0 * 256 ≡ word_sum bytes
unfolding pair_sum
pair_sum-odd [] h = absurd (omega arith)
pair_sum-odd (a ∷ []) h = omega arith
pair_sum-odd (a ∷ b ∷ bytes) h = omega (
  arith,
  pair_sum-odd bytes (omega arith),
  get_or-two a b bytes (suc (suc (length bytes)) - 1) (length bytes - 1) (ground (arith, h)),
)

last_byte : (bytes : List ℕ) → IsBytes bytes → (i : ℕ) → get_or bytes i 0 < 256
last_byte [] h i = omega arith
last_byte (a ∷ bytes) h zero = h.0
last_byte (a ∷ bytes) h (suc i) = last_byte bytes h.1 i

update_bytes_lem :
    (bytes : List ℕ)
    → IsBytes bytes
    → (update_bytes bytes 0 < 65536) × (update_bytes bytes 0 % 65535 ≡ word_sum bytes % 65535)
unfolding update_bytes
update_bytes_lem bytes hb =
    let last = get_or bytes (length bytes - 1) 0 * 256 in
    let step =
      update_lem last 0 (omega (arith, last_byte bytes hb (length bytes - 1))) (omega arith) in
    let odd = update_pairs_lem bytes (update last 0) hb step.0 in
    let even = update_pairs_lem bytes 0 hb (omega arith) in
    elim (Bool-cases (length bytes % 2 == 0)) [
      | inl e ↦ rw e (even.0, omega (arith, even.1, pair_sum-even bytes (ground (arith, e))))
      | inr e ↦ rw e (odd.0, omega (arith, odd.1, step.1, pair_sum-odd bytes (ground (arith, e))))
    ]

append-IsBytes :
    (xs : List ℕ) {a b : ℕ} → IsBytes xs → a < 256 → b < 256 → IsBytes (xs ++ (a ∷ b ∷ []))
append-IsBytes [] h ha hb = (ha, (hb, tt))
append-IsBytes (x ∷ xs) h ha hb = (h.0, append-IsBytes xs h.1 ha hb)

append-IsEven : (xs : List ℕ) (a b : ℕ) → IsEven xs → IsEven (xs ++ (a ∷ b ∷ []))
append-IsEven [] a b h = tt
append-IsEven (x ∷ []) a b h = elim h [ ]
append-IsEven (x ∷ y ∷ xs) a b h = append-IsEven xs a b h

IsEven-length : (xs : List ℕ) → IsEven xs → length xs % 2 ≡ 0
IsEven-length [] h = refl
IsEven-length (x ∷ []) h = elim h [ ]
IsEven-length (x ∷ y ∷ xs) h = omega (arith, IsEven-length xs h)

-- Only the pairs before the last word count for the value before it.
update_pairs-append :
    (xs : List ℕ) (a b v : ℕ)
    → IsEven xs
    → update_pairs (xs ++ (a ∷ b ∷ [])) v ≡ update (a * 256 + b) (update_pairs xs v)
unfolding update_pairs
update_pairs-append [] a b v h = refl
update_pairs-append (x ∷ []) a b v h = elim h [ ]
update_pairs-append (x ∷ y ∷ xs) a b v h = update_pairs-append xs a b (update (x * 256 + y) v) h

update_full : (v : ℕ) → v < 65536 → update (65535 - v) v ≡ 65535
unfolding update fold
update_full v h = ground (arith, bit_and_low 16 v)

compute_even : (bytes : List ℕ) → IsEven bytes → compute bytes ≡ value (update_pairs bytes 0)
unfolding compute update_bytes
compute_even bytes h = ground (arith, IsEven-length bytes h)

-- If bytes of whole words end with their own checksum, high byte first, their checksum is 0.
pub compute_verifies :
    (bytes : List ℕ)
    → IsBytes bytes
    → IsEven bytes
    → compute (bytes ++ (compute bytes / 256 ∷ compute bytes % 256 ∷ [])) ≡ 0
unfolding value
compute_verifies bytes hb he =
    let c = compute bytes in
    let low = update_pairs_lem bytes 0 hb (omega arith) in
    let own : c ≡ 65535 - update_pairs bytes 0 = compute_even bytes he ∙ omega (arith, low.0) in
    compute_even _ (append-IsEven bytes (c / 256) (c % 256) he)
    ∙ ap value (
        update_pairs-append bytes (c / 256) (c % 256) 0 he
        ∙ ap (λ (t : ℕ). update t (update_pairs bytes 0)) (omega (arith, own))
        ∙ update_full _ low.0)

-- For any number of bytes the checksum is a 16-bit number that completes the sum of the words, with an
-- odd last byte as a high byte, to a multiple of 65535.
pub compute_lem :
    (bytes : List ℕ)
    → IsBytes bytes
    → (compute bytes < 65536) × ((compute bytes + word_sum bytes) % 65535 ≡ 0)
unfolding compute value
compute_lem bytes hb =
    let low = update_bytes_lem bytes hb in (omega (arith, low.0), omega (arith, low.0, low.1))
