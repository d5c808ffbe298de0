-- ===== src/PageMap/Small.antt =====
-- kernel/source/system/memory/pagemap.cpp: `map`, `unmap`, `protect` and `translate` of small pages, as
-- a map from pages to entries.
use ilobilix.Base.{
  ℕ, zero, suc, ◌+◌, ◌-◌, ◌*◌, ◌/◌, ◌%◌, ◌^◌, ◌≡◌, ◌<◌, ◌≤◌, ◌==◌, ◌&&◌, refl, ◌∙◌, true, false,
  if◌then◌else◌, arith, Bool-cases, inl, inr, add64, ltb, leb,
}
use ilobilix.PageMap.{small, from_page_size}
use ilobilix.PageMap.Bits.{index_lem}
use ilobilix.PageMap.Place.{same_page}
use ilobilix.PageMap.Range.{same, change, changed}

digits_of :
    (va vb : ℕ)
    → va / 4096 ≡ vb / 4096
    → (va / 549755813888 ≡ vb / 549755813888)
      × (va / 1073741824 ≡ vb / 1073741824)
      × (va / 2097152 ≡ vb / 2097152)
digits_of va vb e = (omega (arith, e), omega (arith, e), omega (arith, e))

pub page_of :
    (va vb : ℕ)
    → va < 2 ^ 48
    → vb < 2 ^ 48
    → va / 549755813888 % 512 ≡ vb / 549755813888 % 512
    → va / 1073741824 % 512 ≡ vb / 1073741824 % 512
    → va / 2097152 % 512 ≡ vb / 2097152 % 512
    → va / 4096 % 512 ≡ vb / 4096 % 512
    → va / 4096 ≡ vb / 4096
page_of va vb h k c d e f =
    let c' : va / 549755813888 ≡ vb / 549755813888 = omega (arith, c, h, k) in
    let d' : va / 1073741824 ≡ vb / 1073741824 = omega (arith, c', d) in
    let e' : va / 2097152 ≡ vb / 2097152 = omega (arith, d', e) in omega (arith, e', f)

pub same_small :
    (va vb : ℕ) → va < 2 ^ 48 → vb < 2 ^ 48 → same small va vb ≡ (va / 4096 == vb / 4096)
unfolding same_page
same_small va vb h k =
    rw
      (
        index_lem 0 va,
        index_lem 1 va,
        index_lem 2 va,
        index_lem 3 va,
        index_lem 0 vb,
        index_lem 1 vb,
        index_lem 2 vb,
        index_lem 3 vb,
      )
      (elim (Bool-cases (va / 4096 == vb / 4096)) [
        | inl e ↦
            let p : va / 4096 ≡ vb / 4096 = ground (arith, e) in
            let q = digits_of va vb p in rw (e, p, q.0, q.1, q.2) (ground arith)
        | inr e ↦ let p = page_of va vb h k in rw e (ground (arith, e, p))
      ])

pub small_changed :
    (n va i vb old : ℕ) (f : ℕ → ℕ → ℕ)
    → va % 4096 ≡ 0
    → i % 4096 ≡ 0
    → va + i + n * 4096 ≤ 2 ^ 48
    → vb < 2 ^ 48
    → changed small va f n i vb old ≡ (
        if leb (va + i) vb && ltb vb (va + i + n * 4096)
        then f (vb / 4096 * 4096 - va) old
        else old)
unfolding changed from_page_size
small_changed zero va i vb old f a b h k = ground (arith, a, b, h, k)
small_changed (suc n) va i vb old f a b h k =
    let here : add64 va i ≡ va + i = omega (arith, h) in
    let head = same_small (add64 va i) vb (omega (arith, here, h)) k in
    let rest =
      small_changed n va (i + 4096) vb (change small (add64 va i) (f i) vb old) f a
        (omega (arith, b)) (omega (arith, h)) k in
    rest
    ∙ rw (head, here)
        (elim (Bool-cases ((va + i) / 4096 == vb / 4096)) [
          | inl e ↦
              let back : vb / 4096 * 4096 - va ≡ i = ground (arith, a, b, e) in
              let past : (leb (va + (i + 4096)) vb && ltb vb (va + (i + 4096) + n * 4096)) ≡ false =
                ground (arith, a, b, e) in
              let met : (leb (va + i) vb && ltb vb (va + i + suc n * 4096)) ≡ true =
                ground (arith, a, b, e) in
              rw (e, back, past, met) refl
          | inr e ↦
              let moved : (leb (va + (i + 4096)) vb && ltb vb (va + (i + 4096) + n * 4096))
                  ≡ (leb (va + i) vb && ltb vb (va + i + suc n * 4096)) =
                ground (arith, a, b, e) in
              rw (e, moved) refl
        ])
