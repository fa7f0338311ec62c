-- ===== src/Nor/Interior/Split.antt =====
-- The interior page of OVERWRITE in `vmtreePutNorOverwrite` of src/vmtree.c when it is full: it is
-- sorted, and split in two around the record that is put into it. `count` is the number of its
-- records less one, as the code has it, and `left` and `right` are the pages of the child that was
-- split. The second page is built in a copy of the first.
use vmtree.Base.{ℕ, ◌+◌, ◌-◌, Bool, update, move, ltb, if◌then◌else◌}
use vmtree.Node.{mid_of}
use vmtree.Nor.{NorPage, NorGeometry, set_count_bits_interior, reset_block_interior}
use vmtree.Nor.Interior.{insert_interior_new}

-- `compareKeyMid < 0` and `compareKeyMid2 < 0`
abbrev pub goes_left : NorPage → (count key : ℕ) → Bool
goes_left p count key = ltb key (p.keys (mid_of count))

abbrev pub goes_first : NorPage → (count key : ℕ) → Bool
goes_first p count key = ltb key (p.keys (mid_of count + 1))

-- The page that is written first.
unfoldable pub split_left : NorGeometry → NorPage → (count key left right : ℕ) → NorPage
unfolding set_count_bits_interior insert_interior_new reset_block_interior
split_left g p count key left right =
    let mid = mid_of count in
    if goes_left p count key
    then reset_block_interior g
        (insert_interior_new (set_count_bits_interior g p (mid + 2)) (mid + 1) key left right)
        (mid + 2)
    else reset_block_interior g (set_count_bits_interior g p (mid + 1)) (mid + 1)

-- The page that is written second, when the record went to the first: the record behind the middle
-- was saved, and goes to the start.
unfoldable pub low_right : NorGeometry → NorPage → (count : ℕ) → NorPage
unfolding set_count_bits_interior reset_block_interior
low_right g p count =
    let mid = mid_of count in
    let counted = set_count_bits_interior g p (count - mid) in
    let keys = update counted.keys 0 (p.keys (mid + 1)) in
    let values = update counted.values 0 (p.values (mid + 1)) in
    let moved : NorPage = record counted {
      keys = move keys 1 (mid + 2) (count - mid - 1);
      values = move values 1 (mid + 2) (count - mid - 1);
    } in
    reset_block_interior g moved (count - mid)

-- The page that is written second, when the record goes to it: behind its first key, or as its first
-- record.
unfoldable pub high_right : NorGeometry → NorPage → (count key left right : ℕ) → NorPage
unfolding set_count_bits_interior insert_interior_new reset_block_interior
high_right g p count key left right =
    let mid = mid_of count in
    let copied : NorPage = record p {
      keys = move p.keys 0 (mid + 1) (count - mid);
      values = move p.values 0 (mid + 1) (count - mid);
    } in
    let behind =
      insert_interior_new (set_count_bits_interior g copied (count - mid + 1)) (count - mid) key
        left right in
    let counted = set_count_bits_interior g p (count - mid + 1) in
    let values = move counted.values 1 (mid + 1) (count - mid) in
    let first : NorPage = record counted {
      keys = update (move counted.keys 1 (mid + 1) (count - mid)) 0 key;
      values = update (update values 0 left) 1 right;
    } in
    reset_block_interior g (if goes_first p count key then first else behind) (count - mid + 1)

unfoldable pub split_right : NorGeometry → NorPage → (count key left right : ℕ) → NorPage
unfolding low_right high_right
split_right g p count key left right =
    if goes_left p count key then low_right g p count else high_right g p count key left right

-- The key that goes to the node above.
abbrev pub promoted_key : NorPage → (count : ℕ) → ℕ
promoted_key p count = p.keys (mid_of count)
