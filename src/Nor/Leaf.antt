-- ===== src/Nor/Leaf.antt =====
-- The leaf of OVERWRITE in `vmtreePutNorOverwrite` of src/vmtree.c: a record is appended to a page
-- with an empty location, or a full page, which is sorted, is split in two.
pub mod Halves
pub mod Split
use vmtree.Base.{
  ℕ, zero, suc, ◌+◌, ◌-◌, ◌≤◌, ◌<◌, Bool, Option, none, some, Memory, update, move, ltb,
  if◌then◌else◌,
}
use vmtree.BitArr.{bitarr_set}
use vmtree.Node.{mid_of}
use vmtree.Nor.{
  NorPage, NorGeometry, leaf_limit, is_empty, write_slot, set_count_bits_leaf, insert_leaf,
  reset_block,
}

-- The loop that looks for an empty location.
unfoldable pub empty_loop : (rounds : ℕ) → NorPage → (c : ℕ) → Option ℕ
empty_loop zero p c = none
empty_loop (suc rounds) p c =
    let rest = empty_loop rounds p (c + 1) in if is_empty p c then some c else rest

-- A record appended; without an empty location there is none.
unfoldable pub append_record : NorGeometry → NorPage → (key value : ℕ) → Option NorPage
unfolding empty_loop write_slot
append_record g p key value = elim (empty_loop (leaf_limit g) p 0) [
  | none ↦ none
  | some i ↦ some (write_slot (record p { bm1 = bitarr_set p.bm1 i 0 }) i key value)
]

-- Whether the record goes to the page with the smaller values: `compareKeyMid < 0`.
abbrev pub goes_left : NorPage → (count key : ℕ) → Bool
goes_left p count key = ltb key (p.keys (mid_of count))

-- The two pages of a split of a sorted page of `count` records, and the key for the parent. The
-- second is built in a copy of the page.
unfoldable pub split_left : NorGeometry → NorPage → (count key value : ℕ) → NorPage
unfolding set_count_bits_leaf insert_leaf reset_block
split_left g p count key value =
    let mid = mid_of count in
    let counted = set_count_bits_leaf g p (mid + 1) in
    if goes_left p count key
    then reset_block g (insert_leaf counted mid key value) (mid + 1)
    else reset_block g counted (mid + 1)

unfoldable pub split_right : NorGeometry → NorPage → (count key value : ℕ) → NorPage
unfolding set_count_bits_leaf insert_leaf reset_block
split_right g p count key value =
    let mid = mid_of count in
    let low : NorPage = record p {
      keys = move (update p.keys 0 (p.keys mid)) 1 (mid + 1) (count - mid);
      values = move (update p.values 0 (p.values mid)) 1 (mid + 1) (count - mid);
    } in
    let high : NorPage = record p {
      keys = move p.keys 0 (mid + 1) (count - mid - 1);
      values = move p.values 0 (mid + 1) (count - mid - 1);
    } in
    let filled =
      if goes_left p count key then low else insert_leaf high (count - mid - 1) key value in
    reset_block g (set_count_bits_leaf g filled (count - mid)) (count - mid)

unfoldable pub promoted_key : NorPage → (count key : ℕ) → ℕ
promoted_key p count key =
    let mid = mid_of count in
    if goes_left p count key
    then p.keys mid
    else if ltb key (p.keys (mid + 1))
    then key
    else p.keys (mid + 1)
