-- ===== src/Nor/Bits.antt =====
-- The bitmaps of a page of OVERWRITE, after the functions of src/vmtree.c that set them.
use vmtree.Base.{
  ℕ, zero, suc, ◌+◌, ◌-◌, ◌*◌, ◌/◌, ◌%◌, ◌^◌, ◌≤◌, ◌<◌, ◌≡◌, refl, ◌&&◌, not, arith, ltb, leb,
  if◌then◌else◌, length, ◌∙◌, min,
}
use native.Mathlib.Nat.{div-mul-le_self, mul-le-mul_left, mod-eq_of_lt}
use vmtree.BitArr.{bitarr_get, bitarr_set}
use vmtree.BitArr.Laws.{IsBytes, bitarr_set-IsBytes, bitarr_get-bitarr_set}
use vmtree.Nor.{
  NorPage, NorGeometry, set_bits, set_count_bits_leaf, set_count_bits_interior, leaf_limit,
  interior_limit, is_live, is_empty, nor_geometry,
}

-- Both bitmaps hold bytes, for `limit` locations or more.
pub record HasBitmaps (limit : ℕ) (p : NorPage) : Type 0 where
  pub bytes1 : IsBytes p.bm1
  pub bytes2 : IsBytes p.bm2
  pub room1 : limit ≤ length p.bm1 * 8
  pub room2 : limit ≤ length p.bm2 * 8

set_one-HasBitmaps :
    (limit c free : ℕ) (p : NorPage)
    → HasBitmaps limit p
    → c < limit
    → HasBitmaps limit (record p { bm1 = bitarr_set p.bm1 c free; bm2 = bitarr_set p.bm2 c 1 })
set_one-HasBitmaps limit c free p h lt =
    let one = bitarr_set-IsBytes p.bm1 c free (omega (arith, h.room1)) h.bytes1 in
    let two = bitarr_set-IsBytes p.bm2 c 1 (omega (arith, h.room2)) h.bytes2 in
    record {
      bytes1 = one.0;
      bytes2 = two.0;
      room1 = omega (arith, one.1, h.room1);
      room2 = omega (arith, two.1, h.room2);
    }

-- A run of bits is set, and no other.
record Marked (rounds c free limit : ℕ) (p q : NorPage) : Type 0 where
  maps : HasBitmaps limit q
  first :
      (i : ℕ)
      → bitarr_get q.bm1 i ≡ (if leb c i && ltb i (c + rounds) then free else bitarr_get p.bm1 i)
  second :
      (i : ℕ)
      → bitarr_get q.bm2 i ≡ (if leb c i && ltb i (c + rounds) then 1 else bitarr_get p.bm2 i)
  keys : q.keys ≡ p.keys
  values : q.values ≡ p.values

set_bits-Marked :
    (rounds c free limit : ℕ) (p : NorPage)
    → HasBitmaps limit p
    → c + rounds ≤ limit
    → free ≤ 1
    → Marked rounds c free limit p (set_bits rounds c free p)
unfolding set_bits
set_bits-Marked zero c free limit p h le bit = record {
  maps = h;
  first = λ i. ground arith;
  second = λ i. ground arith;
  keys = refl;
  values = refl;
}
set_bits-Marked (suc rounds) c free limit p h le bit =
    let q : NorPage = record p { bm1 = bitarr_set p.bm1 c free; bm2 = bitarr_set p.bm2 c 1 } in
    let m =
      set_bits-Marked rounds (c + 1) free limit q
        (set_one-HasBitmaps limit c free p h (omega arith)) (omega arith) bit in
    record {
      maps = m.maps;
      first = λ i.
          m.first i
          ∙ ground (arith, bitarr_get-bitarr_set p.bm1 c i free (omega (arith, h.room1)) h.bytes1);
      second = λ i.
          m.second i
          ∙ ground (arith, bitarr_get-bitarr_set p.bm2 c i 1 (omega (arith, h.room2)) h.bytes2);
      keys = m.keys;
      values = m.values;
    }

pub set_bits-both :
    (limit count : ℕ) (p : NorPage)
    → HasBitmaps limit p
    → count ≤ limit
    → HasBitmaps limit (set_bits (limit - count) count 1 (set_bits count 0 0 p))
      × ((i : ℕ)
          → i < limit
          → (is_live (set_bits (limit - count) count 1 (set_bits count 0 0 p)) i ≡ ltb i count)
            × (is_empty (set_bits (limit - count) count 1 (set_bits count 0 0 p)) i
                ≡ not (ltb i count)))
      × ((set_bits (limit - count) count 1 (set_bits count 0 0 p)).keys ≡ p.keys)
      × ((set_bits (limit - count) count 1 (set_bits count 0 0 p)).values ≡ p.values)
set_bits-both limit count p h le =
    let one = set_bits-Marked count 0 0 limit p h (omega arith) (omega arith) in
    let p1 = set_bits count 0 0 p in
    let two =
      set_bits-Marked (limit - count) count 1 limit p1 one.maps (omega arith) (omega arith) in
    (
      two.maps,
      λ i lt. (
        ground (arith, two.first i, two.second i, one.first i, one.second i),
        ground (arith, two.first i, one.first i),
      ),
      two.keys ∙ one.keys,
      two.values ∙ one.values,
    )

-- What a page says when its first `count` locations of `limit` have valid records and the others
-- are empty.
pub record IsCounted (limit count : ℕ) (p : NorPage) : Type 0 where
  pub maps : HasBitmaps limit p
  pub live : (i : ℕ) → i < limit → is_live p i ≡ ltb i count
  pub empty : (i : ℕ) → i < limit → is_empty p i ≡ not (ltb i count)

pub set_bits-IsCounted :
    (limit count : ℕ) (p : NorPage)
    → HasBitmaps limit p
    → count ≤ limit
    → IsCounted limit count (set_bits (limit - count) count 1 (set_bits count 0 0 p))
set_bits-IsCounted limit count p h le =
    let b = set_bits-both limit count p h le in
    record { maps = b.0; live = λ i lt. (b.1 i lt).0; empty = λ i lt. (b.1 i lt).1 }

-- `vmtreeSetCountBitsLeaf` and `vmtreeSetCountBitsInterior` of a count up to the records of a page:
-- each location below the count is one with a valid record, each other of the page is empty,
-- whatever the bits were, and the keys and data stay.
pub set_count_bits-IsCounted :
    (g : NorGeometry) (p : NorPage) (count : ℕ)
    → HasBitmaps (leaf_limit g) p
    → HasBitmaps (interior_limit g) p
    → count ≤ leaf_limit g
    → count ≤ interior_limit g
    → IsCounted (leaf_limit g) count (set_count_bits_leaf g p count)
      × IsCounted (interior_limit g) count (set_count_bits_interior g p count)
      × ((set_count_bits_leaf g p count).keys ≡ p.keys)
      × ((set_count_bits_leaf g p count).values ≡ p.values)
      × ((set_count_bits_interior g p count).keys ≡ p.keys)
      × ((set_count_bits_interior g p count).values ≡ p.values)
unfolding set_count_bits_leaf set_count_bits_interior
set_count_bits-IsCounted g p count leaf interior le le' =
    let b = set_bits-both (leaf_limit g) count p leaf le in
    let b' = set_bits-both (interior_limit g) count p interior le' in
    (
      set_bits-IsCounted (leaf_limit g) count p leaf le,
      set_bits-IsCounted (interior_limit g) count p interior le',
      b.2,
      b.3,
      b'.2,
      b'.3,
    )

quotient :
    (n r : ℕ)
    → 4 ≤ r
    → n ≤ 32672
    → (8 * (n / (r * 8 + 2) * r) + 2 * (n / (r * 8 + 2)) ≤ n) × (n / (r * 8 + 2) ≤ 960)
quotient n r four small =
    let m = n / (r * 8 + 2) in
    let fits : 8 * (m * r) + 2 * m ≤ n = omega (arith, div-mul-le_self n (r * 8 + 2), spread m) in
    (fits, omega (arith, fits, at_least m))
  where
    spread : (m : ℕ) → m * (r * 8 + 2) ≡ 8 * (m * r) + 2 * m
    spread m = grind arith

    at_least : (m : ℕ) → m * 4 ≤ m * r
    at_least m = mul-le-mul_left m four

-- The layout of OVERWRITE that `vmtreeInit` computes stays inside the page, for pages of 16 to 4096
-- bytes with room for one record, records of 4 to 255 bytes: the header with its
-- bitmaps, and the keys and the data of as many records as fit; for an interior page, with one
-- pointer more. In both kinds of page every location has its bits, so that the loops over a page
-- stop at the last record.
pub nor_geometry-fits :
    (page_size key_size data_size : ℕ)
    → 16 ≤ page_size
    → page_size ≤ 4096
    → 4 ≤ key_size + data_size
    → key_size + data_size < 256
    → 1 ≤ (nor_geometry page_size key_size data_size).max_records
    → ((nor_geometry page_size key_size data_size).header_size
          + (nor_geometry page_size key_size data_size).max_records * (key_size + data_size)
        ≤ page_size)
      × ((nor_geometry page_size key_size data_size).interior_header_size
            + (nor_geometry page_size key_size data_size).max_interior * (key_size + 4)
            + 4
          ≤ page_size)
      × (leaf_limit (nor_geometry page_size key_size data_size)
          ≡ (nor_geometry page_size key_size data_size).max_records)
      × (interior_limit (nor_geometry page_size key_size data_size)
          ≡ (nor_geometry page_size key_size data_size).max_interior)
unfolding nor_geometry
nor_geometry-fits page_size key_size data_size big small wide narrow one =
    let whole : (key_size + data_size) % 2 ^ 8 ≡ key_size + data_size = mod-eq_of_lt narrow in
    let n = (page_size - 12) * 8 in
    let q = quotient n (key_size + data_size) wide (omega arith) in
    let m = n / ((key_size + data_size) * 8 + 2) in
    let k = (page_size - (10 + 2 * ((m + 7) / 8 % 2 ^ 8)) % 2 ^ 8 - 4) * 8 in
    let q' = quotient k (key_size + 4) (omega arith) (omega arith) in
    let m' = k / ((key_size + 4) * 8 + 2) in
    let kept : m % 2 ^ 16 ≡ m = mod-eq_of_lt (omega (arith, q.1)) in
    let kept' : m' % 2 ^ 16 ≡ m' = mod-eq_of_lt (omega (arith, q'.1)) in
    let pos : 1 ≤ m = rw (whole, kept) at one in
    rw (whole, kept, kept')
      (omega (arith, q.0, q.1), omega (arith, q.1, q'.0, q'.1, pos), least m q.1, least m' q'.1)
  where
    least : (m : ℕ) → m ≤ 960 → min ((m + 7) / 8 % 2 ^ 8 * 8) m ≡ m
    least m h = ground arith
