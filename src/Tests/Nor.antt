-- ===== src/Tests/Nor.antt =====
-- Pages of OVERWRITE at concrete inputs.
use vmtree.Base.{
  ℕ, zero, suc, ◌+◌, ◌-◌, ◌*◌, ◌<◌, ◌≤◌, ◌≡◌, ◌==◌, ◌&&◌, refl, Bool, true, arith, if◌then◌else◌,
  ltb, ◌∷◌, [], tally,
}
use vmtree.BitArr.{bitarr_get, bit_at}
use vmtree.BitArr.Laws.{IsBytes}
use vmtree.Records.{Record}
use vmtree.Node.Search.Found.{Ascends, keys_of}
use vmtree.Nor.{NorPage, NorGeometry, nor_geometry, leaf_limit, interior_limit, sort_block}
use vmtree.Nor.Bits.{HasBitmaps, nor_geometry-fits}
use vmtree.Nor.Interior.{insert_interior, search_node_overwrite}
use vmtree.Nor.Next.{IsPacked}
use vmtree.Nor.Routes.{route, IsDistinct, insert_interior-routes}
use vmtree.Nor.Sorted.{slots}
use vmtree.Nor.Leaf.{split_left, split_right, promoted_key}
use vmtree.Nor.Leaf.Halves.{Halves}
use vmtree.Nor.Leaf.Split.{split_left-Halves}
use vmtree.Nor.Compact.{live_from, sort_block-sorts}

abbrev pub eight : NorGeometry
eight = record {
  header_size = 12;
  max_records = 8;
  bitmap_size = 1;
  interior_header_size = 12;
  max_interior = 6;
  interior_bitmap_size = 1;
}

-- Four locations are taken, with keys 40, 30, 20, 10, of which the second is invalid.
abbrev pub page : NorPage
page = record { bm1 = 240 ∷ []; bm2 = 253 ∷ []; keys = λ i. 10 * (4 - i); values = λ i. 100 + i }

pub page-IsBytes : (b : ℕ) → b < 256 → IsBytes (b ∷ [])
page-IsBytes b h zero = h
page-IsBytes b h (suc i) = omega arith

pub page-HasBitmaps : (limit : ℕ) → limit ≤ 8 → HasBitmaps limit page
page-HasBitmaps limit h = record {
  bytes1 = page-IsBytes 240 (omega arith);
  bytes2 = page-IsBytes 253 (omega arith);
  room1 = omega arith;
  room2 = omega arith;
}

nor_geometry-fits_example :
    ((nor_geometry 512 4 12).header_size + (nor_geometry 512 4 12).max_records * 16 ≤ 512)
    × ((nor_geometry 512 4 12).interior_header_size + (nor_geometry 512 4 12).max_interior * 8 + 4
        ≤ 512)
    × (leaf_limit (nor_geometry 512 4 12) ≡ (nor_geometry 512 4 12).max_records)
    × (interior_limit (nor_geometry 512 4 12) ≡ (nor_geometry 512 4 12).max_interior)
unfolding nor_geometry
nor_geometry-fits_example =
    nor_geometry-fits 512 4 12 (omega arith) (omega arith) (omega arith) (omega arith) (omega arith)

-- A decided test of every location below a bound.
unfoldable pub every : (test : ℕ → Bool) → ℕ → Bool
every test zero = true
every test (suc n) = test n && every test n

pub every-at : (test : ℕ → Bool) (n i : ℕ) → i < n → every test n ≡ true → test i ≡ true
unfolding every
every-at test zero i h e = absurd (omega arith)
every-at test (suc n) i h e = ground (arith, every-at test n i)

page_bits :
    every
      (λ i.
        (bitarr_get page.bm1 i == (if ltb i 4 then 0 else 1))
        && (bitarr_get page.bm2 i == (if i == 1 then 0 else 1)))
      8
    ≡ true
unfolding every bitarr_get bit_at
page_bits = refl

pub page_bit :
    (i : ℕ)
    → i < 8
    → (bitarr_get page.bm1 i ≡ (if ltb i 4 then 0 else 1))
      × (bitarr_get page.bm2 i ≡ (if i == 1 then 0 else 1))
page_bit i h = ground (
  arith,
  every-at
      (λ i.
        (bitarr_get page.bm1 i == (if ltb i 4 then 0 else 1))
        && (bitarr_get page.bm2 i == (if i == 1 then 0 else 1)))
      8 i h page_bits,
)

page-IsPacked : (limit : ℕ) → limit ≤ 8 → IsPacked limit page
page-IsPacked limit h i j le lt e = ground (arith, page_bit i, page_bit j)

page-IsDistinct : IsDistinct 6 page
page-IsDistinct i j h k li lj e = ground (arith, page_bit i, page_bit j)

sort_block-sorts_example :
    Ascends (sort_block eight page).1 (keys_of (slots (sort_block eight page).0))
    × ((f : Record → ℕ)
        → tally f (slots (sort_block eight page).0) (sort_block eight page).1
          ≡ live_from f 8 page 0)
    × ((sort_block eight page).1 ≤ 8)
sort_block-sorts_example = sort_block-sorts eight page (page-IsPacked 8 (omega arith))

-- Key 15 goes between 10 and 20; a search for 12 is sent to its left.
insert_interior-routes_example : route eight (insert_interior eight page 15 7 9).0 12 ≡ (
    if (insert_interior eight page 15 7 9).1
      && (search_node_overwrite eight true page 12 == search_node_overwrite eight true page 15)
    then (if ltb 12 15 then 7 else 9)
    else route eight page 12)
insert_interior-routes_example =
    insert_interior-routes eight page 15 7 9 12 page-IsDistinct 2 2
      (page-HasBitmaps 6 (omega arith)) (page-IsPacked 6 (omega arith))
      (λ c h live e. absurd (ground (arith, page_bit c))) (omega arith) (ground (arith, page_bit 2))
      (omega arith) (omega arith) (ground (arith, page_bit 2)) (omega arith)

-- Eight records in order fill a leaf; a record with key 25 goes to its left half.
abbrev full_page : NorPage
full_page = record { bm1 = 0 ∷ []; bm2 = 255 ∷ []; keys = λ i. 10 * (i + 1); values = λ i. i }

full_page-HasBitmaps : HasBitmaps 8 full_page
full_page-HasBitmaps = record {
  bytes1 = page-IsBytes 0 (omega arith);
  bytes2 = page-IsBytes 255 (omega arith);
  room1 = omega arith;
  room2 = omega arith;
}

split_left-Halves_example :
    Halves eight full_page
      (split_left eight full_page 8 25 99)
      (split_right eight full_page 8 25 99)
      (record { key = 25; value = 99 })
      8
      4
      (promoted_key full_page 8 25)
split_left-Halves_example =
    split_left-Halves eight full_page 25 99 8 full_page-HasBitmaps (λ i j h k. omega arith)
      (omega arith) (omega arith) (omega arith)
