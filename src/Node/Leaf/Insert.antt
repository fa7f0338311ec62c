-- ===== src/Node/Leaf/Insert.antt =====
-- A page with space: the record goes to its place among the others.
use vmtree.Base.{
  ℕ, suc, ◌+◌, ◌-◌, ◌≤◌, ◌<◌, ◌≡◌, refl, arith, Memory, window, make_room-inserted, ◌^◌,
  window_congr, window-inserted, inserted, insert_at, ◌∙◌, List, ap,
}
use vmtree.Records.{Record}
use vmtree.Node.{Page, get_count}
use vmtree.Node.Search.{Place, after}
use vmtree.Node.Search.Found.{Ascends, keys_of, SplitsAt}
use vmtree.Node.Leaf.{insert_record}

-- The records of a leaf, in order.
abbrev pub contents : Page → List Record
contents p = window p.records 0 (get_count p)

-- The count in the header goes up by one, unless it runs into the flags.
pub insert_record-count :
    (p : Page) (place : Place) (r : Record)
    → get_count p < 9999
    → p.count_field < 2 ^ 16 - 1
    → get_count (insert_record p place r) ≡ suc (get_count p)
unfolding insert_record
insert_record-count p place r h k = omega arith

pub insert_record-slot :
    (p : Page) (place : Place) (r : Record) (j : ℕ)
    → after place ≤ get_count p
    → j ≤ get_count p
    → (insert_record p place r).records j ≡ inserted p.records (after place) r j
unfolding insert_record
insert_record-slot p place r j h k =
    make_room-inserted p.records (after place) (get_count p) r h j k

-- A record put at a place of a page of fewer than 9,999 records, whose count field does not
-- overflow: the page then holds the old records in their order with the new one at that place, its
-- count is one more, and its id and previous id are as before.
pub insert_record-contents :
    (p : Page) (place : Place) (r : Record)
    → after place ≤ get_count p
    → get_count p < 9999
    → p.count_field < 2 ^ 16 - 1
    → (contents (insert_record p place r) ≡ insert_at (after place) r (contents p))
      × (get_count (insert_record p place r) ≡ get_count p + 1)
      × ((insert_record p place r).id ≡ p.id)
      × ((insert_record p place r).prev ≡ p.prev)
unfolding insert_record
insert_record-contents p place r h k f = (
  rw (insert_record-count p place r k f) (
      window_congr (insert_record p place r).records (inserted p.records (after place) r) 0 0
        (suc (get_count p)) (λ d l. slot d (0 + d) (omega arith) (omega arith))
      ∙ window-inserted p.records (after place) (get_count p) r h),
  omega arith,
  refl,
  refl,
)
  where
    slot :
        (d c : ℕ)
        → c ≡ d
        → d ≤ get_count p
        → (insert_record p place r).records c ≡ inserted p.records (after place) r c
    slot d c e l = rw e (insert_record-slot p place r d h l)

-- Inserted at the place that splits the keys, a record keeps them in order.
pub inserted-Ascends :
    (m : Memory Record) (n i : ℕ) (r : Record)
    → SplitsAt n (keys_of m) r.key i
    → Ascends n (keys_of m)
    → Ascends (suc n) (keys_of (inserted m i r))
inserted-Ascends m n i r s asc a b h k = ground (
  arith,
  s.left a,
  s.left (b - 1),
  s.right (a - 1),
  s.right (b - 1),
  asc a b,
  asc a (b - 1),
  asc (a - 1) (b - 1),
)

-- A record put at the place that splits the keys of a leaf in order keeps its records in order.
-- (The count is below 9,999 and its field does not overflow.)
pub insert_record-Ascends :
    (p : Page) (place : Place) (r : Record)
    → SplitsAt (get_count p) (keys_of p.records) r.key (after place)
    → Ascends (get_count p) (keys_of p.records)
    → get_count p < 9999
    → p.count_field < 2 ^ 16 - 1
    → Ascends (get_count (insert_record p place r)) (keys_of (insert_record p place r).records)
insert_record-Ascends p place r s asc k f i j a b =
    let n = insert_record-count p place r k f in
    omega (
      arith,
      ap (λ (x : Record). x.key) (insert_record-slot p place r i s.inside (omega arith)),
      ap (λ (x : Record). x.key) (insert_record-slot p place r j s.inside (omega arith)),
      inserted-Ascends p.records (get_count p) (after place) r s asc i j a (omega arith),
    )
