-- ===== src/Node/Interior/Insert.antt =====
-- An interior node with space takes the key and the two pointers.
use vmtree.Base.{
  ℕ, suc, ◌+◌, ◌-◌, ◌^◌, ◌≤◌, ◌<◌, ◌≡◌, refl, arith, List, Memory, update, move, window,
  window_congr, window-inserted, window-doubled, inserted, doubled, move-inserted, insert_at,
  split_at, ◌∙◌,
}
use vmtree.Node.{Page, get_count}
use vmtree.Node.Interior.{Separator, insert_child}

-- The keys of an interior node and its pointers, in order: one pointer more than keys.
abbrev pub key_list : Page → List ℕ
key_list p = window p.keys 0 (get_count p)

abbrev pub pointer_list : Page → List ℕ
pointer_list p = window p.pointers 0 (suc (get_count p))

-- Pointers shifted up by one with the new pair written in the gap.
pub move-doubled :
    (m : Memory ℕ) (c n x y j : ℕ)
    → c ≤ n
    → j ≤ suc n
    → update (update (move m (c + 1) c (n - c + 1)) c x) (c + 1) y j ≡ doubled m c x y j
move-doubled m c n x y j h k = ground arith

insert_child-count :
    (p : Page) (c : ℕ) (s : Separator)
    → get_count p < 9999
    → p.count_field < 2 ^ 16 - 1
    → get_count (insert_child p c s) ≡ suc (get_count p)
unfolding insert_child
insert_child-count p c s h k = omega arith

-- A separator put at a child of a node of fewer than 9,999 keys, whose count field does not
-- overflow: its key stands at the child's number among the old keys, the two pages have taken the
-- place of the child among the pointers, the count is one more, and id and previous id are as
-- before.
pub insert_child-lists :
    (p : Page) (c : ℕ) (s : Separator)
    → c ≤ get_count p
    → get_count p < 9999
    → p.count_field < 2 ^ 16 - 1
    → (key_list (insert_child p c s) ≡ insert_at c s.key (key_list p))
      × (pointer_list (insert_child p c s) ≡ split_at c s.left s.right (pointer_list p))
      × (get_count (insert_child p c s) ≡ get_count p + 1)
      × ((insert_child p c s).id ≡ p.id)
      × ((insert_child p c s).prev ≡ p.prev)
unfolding insert_child
insert_child-lists p c s h k f =
    let n = get_count p in
    (
      rw (insert_child-count p c s k f) (
          window_congr (insert_child p c s).keys (inserted p.keys c s.key) 0 0 (suc n)
            (λ d l. key (0 + d) (omega arith))
          ∙ window-inserted p.keys c n s.key h),
      rw (insert_child-count p c s k f) (
          window_congr (insert_child p c s).pointers (doubled p.pointers c s.left s.right) 0 0
            (suc (suc n)) (λ d l. pointer (0 + d) (omega arith))
          ∙ window-doubled p.pointers c (suc n) s.left s.right (omega arith)),
      omega arith,
      refl,
      refl,
    )
  where
    key : (j : ℕ) → j ≤ get_count p → (insert_child p c s).keys j ≡ inserted p.keys c s.key j
    key j l = move-inserted p.keys c (get_count p) s.key h j l

    pointer :
        (j : ℕ)
        → j ≤ suc (get_count p)
        → (insert_child p c s).pointers j ≡ doubled p.pointers c s.left s.right j
    pointer j l = move-doubled p.pointers c (get_count p) s.left s.right j h l
