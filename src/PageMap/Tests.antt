-- ===== src/PageMap/Tests.antt =====
-- The theorems on kernel/source/system/memory/pagemap.cpp at tables of a machine with a thousand
-- frames, which are handed out one after the other.
use ilobilix.Base.{
  ℕ, ◌+◌, ◌-◌, ◌*◌, ◌/◌, ◌≡◌, ◌<◌, ◌==◌, ◌⊎◌, refl, sym, ap, ◌∙◌, true, false, if◌then◌else◌,
  Option, none, some, arith, Bool-cases, inl, inr, ltb, leb, bit_and,
}
use mathlib.Core.Option.{some-injective}
use ilobilix.PageMap.{
  small, getflags, write_back, Frames, Tables, PageMap, ok, err, invalid_entry, pa_mask, getaddr,
  is_table, setflags, clearflags, to_arch,
}
use ilobilix.PageMap.Ops.{map, protect, translate, rounds}
use ilobilix.PageMap.Bits.{page_kept}
use ilobilix.PageMap.Place.{Place, HasRoom, view}
use ilobilix.PageMap.Range.{need, Tree, shows, entry}
use ilobilix.PageMap.Pages.{in_pages, Shows, map-shows}
use ilobilix.PageMap.Mapping.{map-translate, map-unmap, protect_keeps}

abbrev pub next_frame : ℕ → Option (ℕ × ℕ)
next_frame d = if ltb d 1000 then some ((d + 1) * 4096, d + 1) else none

pub next_frame_lem :
    (d p d' : ℕ) → next_frame d ≡ some (p, d') → (d < 1000) × (p ≡ (d + 1) * 4096) × (d' ≡ d + 1)
next_frame_lem d p d' e = elim (Bool-cases (ltb d 1000)) [
  | inl h ↦
      let x = some-injective ((d + 1) * 4096, d + 1) (p, d') (rw h at e) in
      (ground (arith, h), sym (ap (λ (y : ℕ × ℕ). y.0) x), sym (ap (λ (y : ℕ × ℕ). y.1) x))
  | inr h ↦ cc (rw h at e)
]

abbrev pub in_turn : Frames ℕ
in_turn = record {
  alloc = next_frame;
  in_use = λ d x. leb x (d * 4096);
  alloc-new = λ d p d' e. ground (arith, next_frame_lem d p d' e);
  alloc-in_use = λ d p d' e. ground (arith, next_frame_lem d p d' e);
  alloc-kept = λ d p d' x e u. ground (arith, next_frame_lem d p d' e, u);
  alloc-page = λ d p d' e.
      let l = next_frame_lem d p d' e in
      ap (λ (t : ℕ). bit_and t pa_mask) l.1 ∙ page_kept (d + 1) (omega (arith, l.0)) ∙ sym l.1;
  alloc-canonical = λ d p d' e. omega (arith, next_frame_lem d p d' e);
}

abbrev pub pages : PageMap
pages = record { root = 4096; large_pages = false }

-- One table, and all its entries are 0.
abbrev empty : Tables ℕ
empty = record { entries = λ t i. 0; frames = 1 }

abbrev top : Place
top t = if t == 4096 then some (3, 0) else none

empty-Tree : Tree in_turn pages small top empty
unfolding is_table
empty-Tree = record {
  top = refl;
  below = λ t n pre i p b y. cc;
  used =
      λ t x e. elim (Bool-cases (t == 4096)) [ inl h ↦ ground (arith, h) | inr h ↦ cc (rw h at e) ];
}

six_frames : HasRoom in_turn (need small (rounds 8192 4096)) 1
unfolding HasRoom need
six_frames = (
  (8192, 2),
  refl,
  (
    (12288, 3),
    refl,
    ((16384, 4), refl, ((20480, 5), refl, ((24576, 6), refl, ((28672, 7), refl, tt)))),
  ),
)

second_page : in_pages 0x40000000 8192 0x40001000 ≡ true
unfolding in_pages
second_page = refl

shows_nothing : (vb : ℕ) → shows pages small empty vb ≡ 0
unfolding view is_table getflags
shows_nothing vb = refl

map-translate_example :
    translate in_turn pages 0x40001000 small
      (map-translate in_turn pages 0x40000000 8192 0x40001000 top empty refl
        (omega arith)
        (omega arith)
        empty-Tree
        0x200000
        3
        write_back
        six_frames
        refl
        refl
        (omega arith)
        refl
        second_page).0
    ≡ ok 0x201000
        (map-translate in_turn pages 0x40000000 8192 0x40001000 top empty refl
          (omega arith)
          (omega arith)
          empty-Tree
          0x200000
          3
          write_back
          six_frames
          refl
          refl
          (omega arith)
          refl
          second_page).0
map-translate_example =
    (map-translate in_turn pages 0x40000000 8192 0x40001000 top empty refl (omega arith)
      (omega arith) empty-Tree 0x200000 3 write_back six_frames refl refl (omega arith) refl
      second_page).2

map-unmap_example :
    shows pages small
      (map-unmap in_turn pages 0x40000000 8192 0x40001000 top empty refl
        (omega arith)
        (omega arith)
        empty-Tree
        0x200000
        3
        write_back
        six_frames
        (λ e. shows_nothing 0x40001000)).0
      0x40001000
    ≡ shows pages small empty 0x40001000
map-unmap_example =
    (map-unmap in_turn pages 0x40000000 8192 0x40001000 top empty refl (omega arith) (omega arith)
      empty-Tree 0x200000 3 write_back six_frames (λ e. shows_nothing 0x40001000)).2

-- Two pages are mapped from 0x40000000 on.
abbrev mapped :
    Shows in_turn pages empty
      (map in_turn pages 0x40000000 0x200000 8192 3 small write_back empty)
      (λ vb old.
        if in_pages 0x40000000 8192 vb
        then entry 0x200000 (to_arch 3 write_back small) (vb / 4096 * 4096 - 0x40000000)
        else old)
mapped =
    map-shows in_turn pages 0x40000000 8192 top empty refl (omega arith) empty-Tree 0x200000 3
      write_back six_frames

protect_keeps_example :
    ((s' : Tables ℕ) × (protect in_turn pages 0x40000000 8192 1 small write_back mapped.after
        ≡ err invalid_entry s'))
    ⊎ ((s' : Tables ℕ) × (protect in_turn pages 0x40000000 8192 1 small write_back mapped.after
          ≡ ok tt s')
        × (getaddr (shows pages small s' 0x40001000)
            ≡ getaddr (shows pages small mapped.after 0x40001000))
        × (shows pages small s' 0x40001000 ≡ (
            if in_pages 0x40000000 8192 0x40001000
            then setflags
                (to_arch 1 write_back small)
                (clearflags (shows pages small mapped.after 0x40001000))
            else shows pages small mapped.after 0x40001000)))
protect_keeps_example =
    protect_keeps in_turn pages 0x40000000 8192 0x40001000 mapped.place mapped.after refl
      (omega arith) (omega arith) mapped.tree 1 write_back
