-- ===== src/Pmm/Merge.antt =====
-- kernel/source/system/memory/pmm.cpp: a round of `coalesce_to`, which puts two buddies together.
use ilobilix.Base.{ℕ, suc, ◌+◌, ◌/◌, ◌≡◌, ◌<◌, refl, List, some, arith}
use ilobilix.Pmm.{
  block_size, page_size, max_order, Page, Allocator, ok, remove, unlink, merge, buddy_of, put,
  set_list, set_page, page_for,
}
use ilobilix.Pmm.Split.{==_refl}
use ilobilix.Pmm.Cover.{
  in_block, in_block-suc, free_at, free_at-put, free_at-set_page, free_at-remove,
}

unlink_runs :
    (order addr : ℕ) (l : List ℕ) (s : Allocator)
    → remove addr (s.lists order) ≡ some l
    → unlink order addr s ≡ ok (set_list order l s)
unfolding unlink
unlink_runs order addr l s h = rw (unlink, h) refl

free_at-merged :
    (x order curr buddy : ℕ) (l r : List ℕ) (p : Page) (s : Allocator)
    → order < max_order
    → buddy ≡ curr + block_size order
    → remove curr (s.lists order) ≡ some l
    → remove buddy ((set_list order l s).lists order) ≡ some r
    → free_at x (put (order + 1) curr (set_page curr p (set_list order r (set_list order l s))))
      ≡ free_at x s
free_at-merged x order curr buddy l r p s h b first here =
    let s1 = set_list order l s in
    let s2 = set_list order r s1 in
    let next : order + 1 ≡ suc order = omega arith in
    let joined : in_block x (order + 1) curr ≡ in_block x order curr + in_block x order buddy =
      rw (b, next) (in_block-suc x order curr) in
    omega (
      arith,
      free_at-put x (order + 1) curr (set_page curr p s2) (omega arith),
      free_at-set_page x curr p s2,
      free_at-remove x order buddy r s1 (omega arith) here,
      free_at-remove x order curr l s (omega arith) first,
      joined,
    )

-- Two blocks of a list, the second the buddy of the first and right behind it, are merged into one
-- block of the next order, whose page takes over the buddy of the second, and the same addresses are
-- free as before.
pub merge_lem :
    (order curr : ℕ) (l r : List ℕ) (s : Allocator)
    → order < max_order
    → buddy_of curr s ≡ curr + block_size order
    → remove curr (s.lists order) ≡ some l
    → remove (buddy_of curr s) l ≡ some r
    → (t : Allocator) × (merge order curr s ≡ ok t)
      × ((x : ℕ) → free_at x t ≡ free_at x s)
      × ((page_for curr t).order ≡ order + 1)
      × (buddy_of curr t ≡ buddy_of (buddy_of curr s) s)
unfolding merge put
merge_lem order curr l r s h b first second =
    let s1 = set_list order l s in
    let here : remove (buddy_of curr s) (s1.lists order) ≡ some r = rw (==_refl order) second in
    let s2 = set_list order r s1 in
    let p : Page = record {
      next_paddr = (page_for (buddy_of curr s) s).next_paddr;
      order = order + 1;
      allocated = (page_for curr s).allocated;
    } in
    let s3 = set_page curr p s2 in
    (
      put (order + 1) curr s3,
      rw (unlink_runs order curr l s first, unlink_runs order (buddy_of curr s) r s1 here) refl,
      (λ x. free_at-merged x order curr (buddy_of curr s) l r p s h b first here),
      rw (==_refl (curr / page_size)) refl,
      rw (==_refl (curr / page_size)) refl,
    )
