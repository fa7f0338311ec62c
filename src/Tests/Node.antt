-- ===== src/Tests/Node.antt =====
-- Pages of src/vmtree.c at concrete inputs.
use vmtree.Base.{
  ℕ, ◌+◌, ◌-◌, ◌*◌, ◌<◌, ◌≤◌, ◌≡◌, true, Option, some, ◌∷◌, ◌++◌, [], arith, inl, insert_at, window,
  suc,
}
use vmtree.Records.{Record}
use vmtree.Node.{Page, get_count, prev_id_constant}
use vmtree.Node.Search.{search_interior, search_leaf}
use vmtree.Node.Search.Found.{
  Ascends, SplitsAt, Finds, keys_of, search_interior-SplitsAt, search_leaf-Finds,
}
use vmtree.Node.Leaf
use vmtree.Node.Leaf.{insert_record}
use vmtree.Node.Leaf.Insert.{contents}
use vmtree.Node.Leaf.Split.{second_page, split-contents, split-separates}
use vmtree.Node.Interior
use vmtree.Node.Interior.{Separator, insert_child}
use vmtree.Node.Interior.Split

-- Three keys, 10, 20 and 30; as a leaf with three records, as a node with four children.
abbrev pub three : Page
three = record {
  id = 0;
  prev = prev_id_constant;
  count_field = 3;
  records = λ i. record { key = 10 * (i + 1); value = i };
  keys = λ i. 10 * (i + 1);
  pointers = λ i. i + 1;
  nor = record { bm1 = []; bm2 = []; keys = λ i. 0; values = λ i. 0 };
}

abbrev pub twenty_five : Record
twenty_five = record { key = 25; value = 7 }

abbrev half : Separator
half = record { key = 25; left = 8; right = 9 }

pub three-Ascends : Ascends 3 (keys_of three.records)
three-Ascends i j h k = omega arith

three_keys-Ascends : Ascends 3 three.keys
three_keys-Ascends i j h k = omega arith

three-SplitsAt : SplitsAt 3 (keys_of three.records) 25 2
three-SplitsAt = record {
  inside = omega arith;
  left = λ i h. omega arith;
  right = λ i h k. omega arith;
  tight = λ i h k. inl (omega arith);
}

split-contents_example :
    (contents (Leaf.split_left three (some 1) twenty_five)
        ++ contents (second_page three (some 1) twenty_five 5)
      ≡ insert_at 2 twenty_five (contents three))
    × (0 < get_count (Leaf.split_left three (some 1) twenty_five))
    × (0 < get_count (second_page three (some 1) twenty_five 5))
    × (Leaf.promoted_key three (some 1) twenty_five
        ≡ ((second_page three (some 1) twenty_five 5).records 0).key)
split-contents_example =
    split-contents three (some 1) twenty_five 5 (omega arith) (omega arith) (omega arith)

split-separates_example :
    Ascends
      (get_count (Leaf.split_left three (some 1) twenty_five))
      (keys_of (Leaf.split_left three (some 1) twenty_five).records)
    × Ascends
        (get_count (second_page three (some 1) twenty_five 5))
        (keys_of (second_page three (some 1) twenty_five 5).records)
    × ((i : ℕ)
        → i < get_count (Leaf.split_left three (some 1) twenty_five)
        → ((Leaf.split_left three (some 1) twenty_five).records i).key
          ≤ Leaf.promoted_key three (some 1) twenty_five)
    × ((i : ℕ)
        → i < get_count (second_page three (some 1) twenty_five 5)
        → Leaf.promoted_key three (some 1) twenty_five
          ≤ ((second_page three (some 1) twenty_five 5).records i).key)
split-separates_example =
    split-separates three (some 1) twenty_five 5 (omega arith) (omega arith) (omega arith)
      three-SplitsAt three-Ascends

search_leaf-Finds_example :
    (place : Option ℕ) × (search_leaf three 20 true ≡ some place)
    × Finds true 3 three.records 20 place
search_leaf-Finds_example = search_leaf-Finds three 20 true three-Ascends

search_interior-SplitsAt_example :
    (c : ℕ) × (search_interior (record { max_records = 3; max_interior = 4 }) three 20 ≡ some c)
    × SplitsAt 3 three.keys 20 c
search_interior-SplitsAt_example =
    search_interior-SplitsAt (record { max_records = 3; max_interior = 4 }) three 20
      three_keys-Ascends (omega arith)

split-lists_example :
    (window (Interior.split_left three 3 2 half).keys 0 (Interior.Split.left_keys 3 2)
        ++ Interior.promoted_key three 3 2 half
          ∷ window
              (Interior.Split.second_page three 3 2 half 5).keys
              0
              (3 - Interior.Split.left_keys 3 2)
      ≡ 10 ∷ 20 ∷ 25 ∷ 30 ∷ [])
    × (window (Interior.split_left three 3 2 half).pointers 0 (suc (Interior.Split.left_keys 3 2))
          ++ window
              (Interior.Split.second_page three 3 2 half 5).pointers
              0
              (suc (3 - Interior.Split.left_keys 3 2))
        ≡ 1 ∷ 2 ∷ 8 ∷ 9 ∷ 4 ∷ [])
    × (get_count (Interior.Split.second_page three 3 2 half 5) ≡ 3 - Interior.Split.left_keys 3 2)
split-lists_example = Interior.Split.split-lists three 3 2 half 5 (omega arith) (omega arith)
