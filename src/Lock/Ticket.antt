-- ===== src/Lock/Ticket.antt =====
-- kernel/interfaces/lib/spinlock.cppm: the threads with a ticket stand in a line, the first of which is
-- served.
use ilobilix.Base.{
  ℕ, suc, ◌+◌, ◌-◌, ◌%◌, ◌^◌, ◌≡◌, ◌≤◌, ◌<◌, ◌==◌, true, false, if◌then◌else◌, refl, sym, ◌∙◌,
  arith, Bool-cases, inl, inr, subst,
}
use ilobilix.Lock.{
  Thread, outside, waits, holds, checks, finds, releases, System, set_thread, start, Step, takes,
  enters, loads, compares, reloads, stores, Reach, here, next, take, is_served, serve,
}
use ilobilix.Lock.Seat.{Seat, Seat-grows, Seat-rank, Seat-advances}
use ilobilix.Lock.Busy.{is_busy, busy, busy_most, busy_none, busy-set_thread}

-- `rank` is the place of a thread in the line, `at` the thread at a place.
pub record InLine (m : ℕ) (s : System) : Type 0 where
  pub rank : ℕ → ℕ
  pub at : ℕ → ℕ
  pub fresh : s.spinlock.next_ticket ≡ (s.spinlock.serving_ticket + busy m s.thread) % 2 ^ 64
  pub bound : s.spinlock.serving_ticket < 2 ^ 64
  pub seat :
      (t : ℕ) → t < m → Seat s.spinlock.serving_ticket (rank t) (busy m s.thread) (s.thread t)
  pub found : (t : ℕ) → t < m → is_busy (s.thread t) ≡ true → at (rank t) ≡ t
  pub seated :
      (i : ℕ)
      → i < busy m s.thread
      → (at i < m) × (is_busy (s.thread (at i)) ≡ true) × (rank (at i) ≡ i)

abbrev pub update : ℕ → ℕ → (ℕ → ℕ) → ℕ → ℕ
update i v f j = if j == i then v else f j

module _ (m : ℕ) (few : m < 2 ^ 64) where
  pub start-InLine : InLine m start
  start-InLine = record {
    rank = λ t. 0;
    at = λ i. 0;
    fresh = rw (busy_none m) refl;
    bound = omega arith;
    seat = λ t h. tt;
    found = λ t h b. cc;
    seated = λ i h. absurd (omega (arith, h, busy_none m));
  }

  -- A thread that moves on but keeps its ticket
  moved :
      (s : System) (t : ℕ) (x : Thread) (l : InLine m s)
      → t < m
      → is_busy (s.thread t) ≡ true
      → is_busy x ≡ true
      → Seat s.spinlock.serving_ticket (l.rank t) (busy m s.thread) x
      → InLine m (record s { thread = set_thread t x s.thread })
  unfolding set_thread
  moved s t x l h b b' seat =
      let c = busy-set_thread m t x s.thread h in
      let count : busy m (set_thread t x s.thread) ≡ busy m s.thread =
        omega (arith, (rw (b, b') at c)) in
      record {
        rank = l.rank;
        at = l.at;
        fresh = rw count l.fresh;
        bound = l.bound;
        seat = λ u k. elim (Bool-cases (u == t)) [
          | inl e ↦
              let same : u ≡ t = ground (arith, e) in
              rw (e, count)
                (subst (λ (v : ℕ). Seat s.spinlock.serving_ticket (l.rank v) (busy m s.thread) x)
                  (sym same) seat)
          | inr e ↦ rw (e, count) (l.seat u k)
        ];
        found = λ u k y. elim (Bool-cases (u == t)) [
          | inl e ↦
              let same : u ≡ t = ground (arith, e) in
              subst (λ (v : ℕ). l.at (l.rank v) ≡ v) (sym same) (l.found t h b)
          | inr e ↦ l.found u k (rw e at y)
        ];
        seated = λ i k.
            let old = l.seated i (omega (arith, k, count)) in
            (
              old.0,
              elim (Bool-cases (l.at i == t)) [ inl e ↦ rw e b' | inr e ↦ rw e old.1 ],
              old.2,
            );
      }

  pub enters-InLine :
      (s : System) (t ticket : ℕ) (l : InLine m s)
      → t < m
      → s.thread t ≡ waits ticket
      → is_served ticket s.spinlock ≡ true
      → InLine m (record s { thread = set_thread t holds s.thread })
  unfolding is_served
  enters-InLine s t ticket l h e y =
      let seat = (rw e at (l.seat t h)) in
      moved s t holds l h (rw e refl) refl
        (seat.0, ground (arith, seat, y, l.bound, busy_most m s.thread, few))

  pub loads-InLine :
      (s : System) (t : ℕ) (l : InLine m s)
      → t < m
      → s.thread t ≡ holds
      → InLine m (record s { thread = set_thread t (checks s.spinlock.serving_ticket) s.thread })
  loads-InLine s t l h e =
      let seat = (rw e at (l.seat t h)) in
      moved s t (checks s.spinlock.serving_ticket) l h (rw e refl) refl (seat.0, seat.1, refl)

  pub compares-InLine :
      (s : System) (t current : ℕ) (l : InLine m s)
      → t < m
      → s.thread t ≡ checks current
      → InLine m (record s { thread = set_thread t finds s.thread })
  compares-InLine s t current l h e =
      let seat = (rw e at (l.seat t h)) in moved s t finds l h (rw e refl) refl (seat.0, seat.1)

  pub reloads-InLine :
      (s : System) (t : ℕ) (l : InLine m s)
      → t < m
      → s.thread t ≡ finds
      → InLine m (record s { thread = set_thread t (releases s.spinlock.serving_ticket) s.thread })
  reloads-InLine s t l h e =
      let seat = (rw e at (l.seat t h)) in
      moved s t (releases s.spinlock.serving_ticket) l h (rw e refl) refl (seat.0, seat.1, refl)

  not_idle :
      (s : System) (t u : ℕ) → s.thread t ≡ outside → is_busy (s.thread u) ≡ true → (u == t) ≡ false
  not_idle s t u e b = elim (Bool-cases (u == t)) [
    | inr y ↦ y
    | inl y ↦ let same : u ≡ t = ground (arith, y) in cc (rw (same, e) at b)
  ]

  takes-InLine :
      (s : System) (t : ℕ) (l : InLine m s)
      → t < m
      → s.thread t ≡ outside
      → InLine m (record {
        spinlock = take s.spinlock;
        thread = set_thread t (waits s.spinlock.next_ticket) s.thread;
      })
  unfolding set_thread take
  takes-InLine s t l h e =
      let c = busy-set_thread m t (waits s.spinlock.next_ticket) s.thread h in
      let count : busy m (set_thread t (waits s.spinlock.next_ticket) s.thread)
          ≡ suc (busy m s.thread) =
        omega (arith, (rw e at c)) in
      record {
        rank = update t (busy m s.thread) l.rank;
        at = update (busy m s.thread) t l.at;
        fresh = rw count (omega (arith, l.fresh));
        bound = l.bound;
        seat = λ u k. elim (Bool-cases (u == t)) [
          | inl y ↦ rw (y, count) (omega arith, l.fresh)
          | inr y ↦ rw (y, count) (Seat-grows _ (l.rank u) _ (s.thread u) (l.seat u k))
        ];
        found = λ u k b. elim (Bool-cases (u == t)) [
          | inl y ↦
              let last : (busy m s.thread == busy m s.thread) ≡ true = ground arith in
              rw (y, last) (ground (arith, y))
          | inr y ↦
              let place =
                Seat-rank s.spinlock.serving_ticket (l.rank u) (busy m s.thread) (s.thread u)
                  (l.seat u k) (rw y at b) in
              let before : (l.rank u == busy m s.thread) ≡ false = ground (arith, place) in
              rw (y, before) (l.found u k (rw y at b))
        ];
        seated = λ i k. elim (Bool-cases (i == busy m s.thread)) [
          | inl y ↦
              let me : (t == t) ≡ true = ground arith in
              rw y (h, rw me refl, rw me (ground (arith, y)))
          | inr y ↦
              let old = l.seated i (ground (arith, k, count, y)) in
              let other : (l.at i == t) ≡ false = not_idle s t (l.at i) e old.1 in rw (y, other) old
        ];
      }

  pub stores-InLine :
      (s : System) (t current : ℕ) (l : InLine m s)
      → t < m
      → s.thread t ≡ releases current
      → InLine m
          (record { spinlock = serve current s.spinlock; thread = set_thread t outside s.thread })
  unfolding set_thread serve
  stores-InLine s t current l h e =
      let c = busy-set_thread m t outside s.thread h in
      let count : busy m s.thread ≡ suc (busy m (set_thread t outside s.thread)) =
        omega (arith, (rw e at c)) in
      let seat = (rw e at (l.seat t h)) in
      let head : l.at 0 ≡ t = subst (λ (i : ℕ). l.at i ≡ t) seat.1 (l.found t h (rw e refl)) in
      let behind : (u : ℕ) → u < m → (u == t) ≡ false → is_busy (s.thread u) ≡ true → 1 ≤ l.rank u =
        λ u k y b. elim (Bool-cases (l.rank u == 0)) [
          | inr z ↦ ground (arith, z)
          | inl z ↦
              let zero_rank : l.rank u ≡ 0 = ground (arith, z) in
              let same : u ≡ t =
                sym (subst (λ (i : ℕ). l.at i ≡ u) zero_rank (l.found u k b)) ∙ head in
              absurd (ground (arith, y, same))
        ] in
      record {
        rank = λ u. l.rank u - 1;
        at = λ i. l.at (suc i);
        fresh = rw seat.2 (omega (arith, l.fresh, count));
        bound = omega arith;
        seat = λ u k. elim (Bool-cases (u == t)) [
          | inl y ↦ rw y tt
          | inr y ↦
              rw (y, seat.2)
                (Seat-advances s.spinlock.serving_ticket (l.rank u) _ (s.thread u)
                  (rw count at (l.seat u k)) (behind u k y))
        ];
        found = λ u k b. elim (Bool-cases (u == t)) [
          | inl y ↦ cc (rw y at b)
          | inr y ↦
              let more = behind u k y (rw y at b) in
              let back : suc (l.rank u - 1) ≡ l.rank u = omega (arith, more) in
              rw back (l.found u k (rw y at b))
        ];
        seated = λ i k.
            let old = l.seated (suc i) (omega (arith, k, count)) in
            let other : (l.at (suc i) == t) ≡ false = elim (Bool-cases (l.at (suc i) == t)) [
              | inr z ↦ z
              | inl z ↦
                  let same : l.at (suc i) ≡ t = ground (arith, z) in
                  absurd (omega (arith, subst (λ (v : ℕ). l.rank v ≡ suc i) same old.2, seat.1))
            ] in
            (old.0, rw other old.1, rw old.2 (omega arith));
      }

  step-InLine : (s u : System) → Step m s u → InLine m s → InLine m u
  step-InLine s u (takes s' t h e) l = takes-InLine s' t l h e
  step-InLine s u (enters s' t k h e y) l = enters-InLine s' t k l h e y
  step-InLine s u (loads s' t h e) l = loads-InLine s' t l h e
  step-InLine s u (compares s' t c h e y) l = compares-InLine s' t c l h e
  step-InLine s u (reloads s' t h e) l = reloads-InLine s' t l h e
  step-InLine s u (stores s' t c h e) l = stores-InLine s' t c l h e

  pub Reach-InLine : (s u : System) → Reach m s u → InLine m s → InLine m u
  Reach-InLine s u (here s') l = l
  Reach-InLine s u (next r x) l = step-InLine _ _ x (Reach-InLine _ _ r l)
