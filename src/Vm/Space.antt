-- ===== src/Vm/Space.antt =====
-- `vmspace` of kernel/source/system/memory/vmm.cpp: map, unmap (by range and by object), protect,
-- is_mapped, find_free_region. The tree (parallel-hashmap's `btree::multiset`) and the page tables
-- are interfaces.
use ilobilix.Base.{
  ℕ, ◌+◌, ◌*◌, ◌/◌, ◌%◌, ◌≤◌, ◌<◌, min, max, Bool, true, false, not, ◌&&◌, ltb, leb, ◌==◌, Option,
  none, some, List, [], ◌∷◌, if◌then◌else◌, ◌≡◌, ◌≢◌, ◌⊎◌, select, bit_and, bit_or, add64, sub64,
  mul64,
}
use ilobilix.Math.{div_roundup}
use ilobilix.Vm.Mapping.{Mapping, psize, is_untouchable, overlaps, find}
use ilobilix.Vm.Pages.{insert, without}

-- What is used of the tree: iteration in the order of the keys, `erase` of all the elements with a
-- key, `emplace` behind the elements with the same key.
pub record Multiset (T : Type 0) : Type 0 where
  pub elems : T → List Mapping
  pub erase : T → Mapping → T
  pub emplace : T → Mapping → T
  pub elems-erase : (t : T) (m : Mapping) → elems (erase t m) ≡ without m.startp (elems t)
  pub elems-emplace : (t : T) (m : Mapping) → elems (emplace t m) ≡ insert m (elems t)

-- What is used of `pagemap`: `none` is an error. `unmap` refuses an unaligned address only, and
-- leaves no page of its range present. `protect` of pages, at least one, that are all present succeeds, and leaves
-- those outside its range as present as they were.
pub record PageTable (P : Type 0) : Type 0 where
  pub unmap : P → ℕ → ℕ → Option P
  pub protect : P → ℕ → ℕ → ℕ → Option P
  pub present : P → ℕ → Bool
  pub unmap_total : (pt : P) (a n : ℕ) → a % psize ≡ 0 → (pt' : P) × (unmap pt a n ≡ some pt')
  pub unmap-present :
      (pt : P) (a n : ℕ) (pt' : P) (q : ℕ)
      → unmap pt a n ≡ some pt'
      → present pt' q ≡ true
      → (present pt q ≡ true) × ((q * psize < a) ⊎ (a + n ≤ q * psize))
  pub protect_total :
      (pt : P) (a n f : ℕ)
      → a % psize ≡ 0
      → 0 < n
      → ((q : ℕ) → a ≤ q * psize → q * psize < a + n → present pt q ≡ true)
      → (pt' : P) × (protect pt a n f ≡ some pt')
        × ((q : ℕ) → (q * psize < a) ⊎ (a + n ≤ q * psize) → present pt' q ≡ present pt q)

pub data Error : Type 0 where
  addr_not_aligned addr_in_use : Error

-- A call returns with a state, with an error and a state, or stops the kernel.
pub data Result {ℓ} (S : Type ℓ) : Type ℓ where
  ok : S → Result S
  fail : Error → S → Result S
  panic : Result S

infixl 5 ◌>>=◌
abbrev pub ◌>>=◌ {ℓ} : {S : Type ℓ} → Result S → (S → Result S) → Result S
ok s >>= f = f s
fail e s >>= f = fail e s
panic >>= f = panic

pub record Space (T P : Type 0) : Type 0 where
  pub tree : T
  pub pmap : P

-- Every page that the page tables show is held by a mapping.
abbrev pub IsCoherent : {T P : Type 0} → Multiset T → PageTable P → Space T P → Type 0
IsCoherent tr pg s = (q : ℕ) → pg.present s.pmap q ≡ true → find q (tr.elems s.tree) ≢ none

-- `lib::panic_if` on the result of a page table call
abbrev pub carry : {T P : Type 0} → T → Option P → Result (Space T P)
carry t none = panic
carry t (some pm) = ok (record { tree = t; pmap = pm })

-- The rights that `protect` and `handle_pfault` hand to the page tables: `pflag::user`, and a bit for
-- each of read, write and exec.
pub pflags_of : ℕ → ℕ
pflags_of prot =
    let u : ℕ = 8 in
    let r = if bit_and prot 1 == 0 then u else bit_or u 1 in
    let w = if bit_and prot 2 == 0 then r else bit_or r 2 in
    if bit_and prot 4 == 0 then w else bit_or w 4

-- The piece of `m` from `a` to `b`, at the offset `off`.
abbrev pub piece : Mapping → ℕ → ℕ → ℕ → Mapping
piece m a b off = record m { startp = a; endp = b; offsetp = off }

-- `for (const auto &entry : overlapping)`, left by an early `return` or by a panic
unfoldable pub for_each {ℓ} : {S : Type ℓ} → (Mapping → S → Result S) → List Mapping → S → Result S
for_each one [] s = ok s
for_each one (e ∷ es) s = one e s >>= for_each one es

-- `if (n != 0) locked->emplace(...)`
abbrev pub emplace_if : {T : Type 0} → Multiset T → ℕ → Mapping → T → T
emplace_if tr n m t = if n == 0 then t else tr.emplace t m

module _ {T P : Type 0} (tr : Multiset T) (pg : PageTable P) where
  unfoldable pub unmap_one : ℕ → ℕ → Mapping → Space T P → Result (Space T P)
  unmap_one startp endp e s =
      let t = tr.erase s.tree e in
      let headp = if ltb e.startp startp then sub64 startp e.startp else 0 in
      let tailp = if ltb endp e.endp then sub64 e.endp endp else 0 in
      let head = piece e e.startp (add64 e.startp headp) e.offsetp in
      let tail_off = sub64 (add64 e.offsetp (sub64 e.endp e.startp)) tailp in
      let tail = piece e (sub64 e.endp tailp) e.endp tail_off in
      let whole = mul64 e.startp psize in
      let addr = mul64 (max startp e.startp) psize in
      if leb startp e.startp && leb e.endp endp
      then carry t (pg.unmap s.pmap whole (sub64 (mul64 e.endp psize) whole))
      else carry (emplace_if tr tailp tail (emplace_if tr headp head t))
          (pg.unmap s.pmap addr (sub64 (mul64 (min endp e.endp) psize) addr))

  unfoldable pub unmap : ℕ → ℕ → Space T P → Result (Space T P)
  unmap address length s =
      let startp = address / psize in
      let endp = div_roundup (add64 address length) psize in
      if address % psize == 0
      then for_each (unmap_one startp endp)
          (select (λ e. overlaps startp endp e && not (is_untouchable e)) (tr.elems s.tree)) s
      else fail addr_not_aligned s

  -- The other `unmap`, for all the mappings of an object.
  unfoldable pub unmap_obj_one : Mapping → Space T P → Result (Space T P)
  unmap_obj_one e s =
      carry (tr.erase s.tree e)
        (pg.unmap s.pmap (mul64 e.startp psize) (mul64 (sub64 e.endp e.startp) psize))

  unfoldable pub unmap_obj : ℕ → Space T P → Result (Space T P)
  unmap_obj obj s =
      for_each unmap_obj_one
        (select (λ e. e.obj == obj && not (is_untouchable e)) (tr.elems s.tree)) s

  unfoldable pub protect_one : ℕ → ℕ → ℕ → Mapping → Space T P → Result (Space T P)
  protect_one startp endp prot e s =
      let t = tr.erase s.tree e in
      let pflags = pflags_of prot in
      let headp = if ltb e.startp startp then sub64 startp e.startp else 0 in
      let tailp = if ltb endp e.endp then sub64 e.endp endp else 0 in
      let head = piece e e.startp (add64 e.startp headp) e.offsetp in
      let tail_off = sub64 (add64 e.offsetp (sub64 e.endp e.startp)) tailp in
      let tail = piece e (sub64 e.endp tailp) e.endp tail_off in
      let mid = piece e (max startp e.startp) (min endp e.endp) (add64 e.offsetp headp) in
      let addr = mul64 (max startp e.startp) psize in
      if leb startp e.startp && leb e.endp endp
      then carry (tr.emplace t (record e { prot = prot }))
          (pg.protect s.pmap (mul64 e.startp psize) (mul64 (sub64 e.endp e.startp) psize) pflags)
      else carry
          (tr.emplace (emplace_if tr tailp tail (emplace_if tr headp head t))
            (record mid { prot = prot }))
          (pg.protect s.pmap addr (sub64 (mul64 (min endp e.endp) psize) addr) pflags)

  unfoldable pub protect : ℕ → ℕ → ℕ → Space T P → Result (Space T P)
  protect address length prot s =
      let startp = address / psize in
      let endp = add64 startp (div_roundup length psize) in
      if address % psize == 0
      then for_each (protect_one startp endp prot)
          (select (λ e. overlaps startp endp e && not (is_untouchable e)) (tr.elems s.tree)) s
      else fail addr_not_aligned s

  -- The tail is put back `if (endp != 0)`.
  unfoldable pub map_one : ℕ → ℕ → Mapping → Space T P → Result (Space T P)
  map_one startp endp e s =
      let t = tr.erase s.tree e in
      let headp = if ltb startp e.startp then 0 else sub64 startp e.startp in
      let tailp = if leb e.endp endp then 0 else sub64 e.endp endp in
      let head = piece e e.startp (add64 e.startp headp) e.offsetp in
      let tail_off = add64 (add64 e.offsetp headp) (sub64 endp startp) in
      let tail = piece e (sub64 e.endp tailp) e.endp tail_off in
      let whole = mul64 e.startp psize in
      let addr = mul64 (max startp e.startp) psize in
      if is_untouchable e
      then fail addr_in_use s
      else if leb startp e.startp && leb e.endp endp
      then carry t (pg.unmap s.pmap whole (sub64 (mul64 e.endp psize) whole))
      else carry (emplace_if tr endp tail (emplace_if tr headp head t))
          (pg.unmap s.pmap addr (sub64 (mul64 (min endp e.endp) psize) addr))

  -- `map(address, length, prot, flags, obj, offset)`, for an `obj` that is not null
  unfoldable pub map : ℕ → ℕ → ℕ → ℕ → ℕ → ℕ → Space T P → Result (Space T P)
  map address length prot flags obj offset s =
      let startp = address / psize in
      let endp = div_roundup (add64 address length) psize in
      let new : Mapping = record {
        startp = startp;
        endp = endp;
        obj = obj;
        offsetp = offset / psize;
        prot = prot;
        flags = flags;
      } in
      if address % psize == 0 && offset % psize == 0
      then (for_each (map_one startp endp) (select (overlaps startp endp) (tr.elems s.tree)) s
          >>= λ s'. ok (record s' { tree = tr.emplace s'.tree new }))
      else fail addr_not_aligned s

-- The loop of `is_mapped`, from the pages covered so far.
unfoldable pub covered_from : ℕ → ℕ → List Mapping → Bool
covered_from endp covered [] = leb endp covered
covered_from endp covered (e ∷ es) =
    let next = max covered (min endp e.endp) in
    let rest = covered_from endp covered es in
    let on = covered_from endp next es in
    if ltb e.endp covered
    then rest
    else if ltb covered e.startp
    then false
    else if leb endp next
    then true
    else on

unfoldable pub is_mapped : ℕ → ℕ → List Mapping → Bool
unfolding covered_from
is_mapped addr length l =
    let startp = addr / psize in
    let endp = add64 startp (div_roundup length psize) in
    if length == 0 then false else covered_from endp 0 (select (overlaps startp endp) l)

-- The loop of `find_free_region`, behind the end of the last mapping.
unfoldable pub free_from : ℕ → ℕ → List Mapping → ℕ
free_from pages last_endp [] = mul64 last_endp psize
free_from pages last_endp (e ∷ es) =
    let rest = free_from pages e.endp es in
    if leb pages (sub64 e.startp last_endp) then mul64 last_endp psize else rest

unfoldable pub find_free_region : ℕ → List Mapping → ℕ
unfolding free_from
find_free_region length l = free_from (div_roundup length psize) 0 l
