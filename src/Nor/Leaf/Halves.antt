-- ===== src/Nor/Leaf/Halves.antt =====
-- What the two pages of a split leaf of OVERWRITE in src/vmtree.c have, and how it is put together.
use vmtree.Base.{
  ℕ, zero, suc, ◌+◌, ◌-◌, ◌≤◌, ◌<◌, ◌≡◌, refl, false, Memory, arith, ltb, leb, ◌==◌, if◌then◌else◌,
  ◌∙◌, inl, inr, Bool-cases, ap, tally,
}
use vmtree.Records.{Record}
use vmtree.Node.Search.Found.{Ascends, keys_of}
use vmtree.Nor.{NorPage, NorGeometry, leaf_limit, set_count_bits_leaf, reset_block}
use vmtree.Nor.Bits.{HasBitmaps, IsCounted, set_bits-IsCounted, set_bits-both}
use vmtree.Nor.Sorted.{slots, tally_congr, Grown}

tally-add :
    (f : Record → ℕ) (m : Memory Record) (a b : ℕ)
    → tally f m (a + b) ≡ tally f m a + tally f (λ i. m (a + i)) b
tally-add f m a zero = (let e : a + 0 ≡ a = omega arith in rw e (omega arith))
tally-add f m a (suc b) =
    (let e : a + suc b ≡ suc (a + b) = omega arith in rw e (omega (arith, tally-add f m a b)))

-- A page with `count` records in order, in its first locations, and no other.
pub record IsHalf (g : NorGeometry) (count : ℕ) (m : Memory Record) (q : NorPage) : Type 0 where
  pub counted : IsCounted (leaf_limit g) count q
  pub holds : (i : ℕ) → i < count → slots q i ≡ m i

pub IsCounted-bits :
    (limit count : ℕ) (p q : NorPage)
    → (q.bm1 ≡ p.bm1) × (q.bm2 ≡ p.bm2)
    → IsCounted limit count p
    → IsCounted limit count q
IsCounted-bits limit count p q (e, f) c = record {
  maps = record {
    bytes1 = rw e (c.maps.bytes1);
    bytes2 = rw f (c.maps.bytes2);
    room1 = rw e (c.maps.room1);
    room2 = rw f (c.maps.room2);
  };
  live = λ i lt. rw (e, f) (c.live i lt);
  empty = λ i lt. rw e (c.empty i lt);
}

reset_block-below :
    (g : NorGeometry) (p : NorPage) (count i : ℕ)
    → i < count
    → slots (reset_block g p count) i ≡ slots p i
unfolding reset_block
reset_block-below g p count i lt = (let e : leb count i ≡ false = ground (arith, lt) in rw e refl)

pub reset_block-IsHalf :
    (g : NorGeometry) (count : ℕ) (m : Memory Record) (p : NorPage)
    → IsHalf g count m p
    → IsHalf g count m (reset_block g p count)
unfolding reset_block
reset_block-IsHalf g count m p h = record {
  counted = IsCounted-bits (leaf_limit g) count p (reset_block g p count) (refl, refl) h.counted;
  holds = λ i lt. reset_block-below g p count i lt ∙ h.holds i lt;
}

same_slot : (p q : NorPage) (i : ℕ) → q.keys ≡ p.keys → q.values ≡ p.values → slots q i ≡ slots p i
same_slot p q i e f = rw (e, f) refl

pub set_count_bits_leaf-IsHalf :
    (g : NorGeometry) (p : NorPage) (count : ℕ)
    → HasBitmaps (leaf_limit g) p
    → count ≤ leaf_limit g
    → IsHalf g count (slots p) (set_count_bits_leaf g p count)
unfolding set_count_bits_leaf
set_count_bits_leaf-IsHalf g p count h le =
    let b = set_bits-both (leaf_limit g) count p h le in
    record {
      counted = set_bits-IsCounted (leaf_limit g) count p h le;
      holds = λ i lt. same_slot p (set_count_bits_leaf g p count) i b.2 b.3;
    }

-- A test that no record passes, before and after.
tally-none :
    (f : Record → ℕ) (m : Memory Record) (n : ℕ) → ((i : ℕ) → i < n → f (m i) ≡ 0) → tally f m n ≡ 0
tally-none f m zero h = refl
tally-none f m (suc n) h =
    omega (arith, tally-none f m n (λ i lt. h i (omega arith)), h n (omega arith))

none-tally : (f : Record → ℕ) (m : Memory Record) (n i : ℕ) → tally f m n ≡ 0 → i < n → f (m i) ≡ 0
none-tally f m zero i e lt = absurd (omega arith)
none-tally f m (suc n) i e lt = elim (Bool-cases (i == n)) [
  | inl same ↦ (let at : i ≡ n = ground (arith, same) in rw at (omega (arith, e)))
  | inr other ↦ none-tally f m n i (omega (arith, e)) (ground (arith, other))
]

pub HasBitmaps-bits :
    (limit : ℕ) (p q : NorPage)
    → (q.bm1 ≡ p.bm1) × (q.bm2 ≡ p.bm2)
    → HasBitmaps limit p
    → HasBitmaps limit q
HasBitmaps-bits limit p q (e, f) h = record {
  bytes1 = rw e (h.bytes1);
  bytes2 = rw f (h.bytes2);
  room1 = rw e (h.room1);
  room2 = rw f (h.room2);
}

-- The halves: counted pages in order, which have the records and the new one between them, and a
-- key that separates them.
pub record Halves (g : NorGeometry) (p q l : NorPage) (r : Record) (count mid promoted : ℕ)
    : Type 0 where
  pub left : IsCounted (leaf_limit g) (mid + 1) q
  pub right : IsCounted (leaf_limit g) (count - mid) l
  pub left_ascends : Ascends (mid + 1) (keys_of (slots q))
  pub right_ascends : Ascends (count - mid) (keys_of (slots l))
  pub counts :
      (f : Record → ℕ)
      → tally f (slots q) (mid + 1) + tally f (slots l) (count - mid)
        ≡ tally f (slots p) count + f r
  pub below : (i : ℕ) → i < mid + 1 → q.keys i ≤ promoted
  pub above : (i : ℕ) → i < count - mid → promoted ≤ l.keys i

-- A page with a new record, whose bits are as before.
pub Grown-keys :
    {left bound : ℕ} {p q : NorPage} {r : Record}
    → Grown left p q r
    → r.key ≤ bound
    → ((i : ℕ) → i < left → p.keys i ≤ bound)
    → (i : ℕ) → i < suc left
    → q.keys i ≤ bound
Grown-keys {left} {bound} {p} {q} {r} w new old i lt =
    let f : Record → ℕ = λ x. if ltb bound x.key then 1 else 0 in
    let zero_before = tally-none f (slots p) left (λ j h. ground (arith, old j h)) in
    let zero_after : tally f (slots q) (suc left) ≡ 0 =
      w.counts f ∙ ground (arith, zero_before, new) in
    ground (arith, none-tally f (slots q) (suc left) i zero_after lt)

pub Grown-keys_above :
    {left bound : ℕ} {p q : NorPage} {r : Record}
    → Grown left p q r
    → bound ≤ r.key
    → ((i : ℕ) → i < left → bound ≤ p.keys i)
    → (i : ℕ) → i < suc left
    → bound ≤ q.keys i
Grown-keys_above {left} {bound} {p} {q} {r} w new old i lt =
    let f : Record → ℕ = λ x. if ltb x.key bound then 1 else 0 in
    let zero_before = tally-none f (slots p) left (λ j h. ground (arith, old j h)) in
    let zero_after : tally f (slots q) (suc left) ≡ 0 =
      w.counts f ∙ ground (arith, zero_before, new) in
    ground (arith, none-tally f (slots q) (suc left) i zero_after lt)

pub Ascends-from :
    (m k : Memory Record) (a n b : ℕ)
    → Ascends b (keys_of k)
    → a + n ≤ b
    → ((i : ℕ) → i < n → m i ≡ k (a + i))
    → Ascends n (keys_of m)
Ascends-from m k a n b asc le same i j h lt = omega (
  arith,
  ap (λ (x : Record). x.key) (same i (omega arith)),
  ap (λ (x : Record). x.key) (same j lt),
  asc (a + i) (a + j) (omega arith) (omega arith),
)

module _ (g : NorGeometry) (p : NorPage) (r : Record) (count mid promoted : ℕ) where
  pub join :
      (a b q l : NorPage)
      → IsHalf g (mid + 1) (slots a) q
      → IsHalf g (count - mid) (slots b) l
      → Ascends (mid + 1) (keys_of (slots a))
      → Ascends (count - mid) (keys_of (slots b))
      → ((f : Record → ℕ)
          → tally f (slots a) (mid + 1) + tally f (slots b) (count - mid)
            ≡ tally f (slots p) count + f r)
      → ((i : ℕ) → i < mid + 1 → a.keys i ≤ promoted)
      → ((i : ℕ) → i < count - mid → promoted ≤ b.keys i)
      → Halves g p q l r count mid promoted
  join a b q l h k asc asc' counts below above = record {
    left = h.counted;
    right = k.counted;
    left_ascends = λ i j le lt. omega (
      arith,
      ap (λ (x : Record). x.key) (h.holds i (omega arith)),
      ap (λ (x : Record). x.key) (h.holds j lt),
      asc i j le lt,
    );
    right_ascends = λ i j le lt. omega (
      arith,
      ap (λ (x : Record). x.key) (k.holds i (omega arith)),
      ap (λ (x : Record). x.key) (k.holds j lt),
      asc' i j le lt,
    );
    counts = λ f. omega (
      arith,
      tally_congr f (slots q) (slots a) (mid + 1) h.holds,
      tally_congr f (slots l) (slots b) (count - mid) k.holds,
      counts f,
    );
    below = λ i lt. omega (arith, ap (λ (x : Record). x.key) (h.holds i lt), below i lt);
    above = λ i lt. omega (arith, ap (λ (x : Record). x.key) (k.holds i lt), above i lt);
  }

-- The first records of a page with other bits, in order.
pub Ascends-first :
    (m k : Memory Record) (n b : ℕ)
    → Ascends b (keys_of k)
    → n ≤ b
    → ((i : ℕ) → i < n → m i ≡ k i)
    → Ascends n (keys_of m)
Ascends-first m k n b asc le same i j h lt = omega (
  arith,
  ap (λ (x : Record). x.key) (same i (omega arith)),
  ap (λ (x : Record). x.key) (same j lt),
  asc i j h (omega arith),
)

pub tally-suc : (f : Record → ℕ) (m : Memory Record) (n : ℕ) → tally f m (n + 1) ≡ tally f m (suc n)
tally-suc f m n = (let e : n + 1 ≡ suc n = omega arith in rw e refl)

pub tally_parts :
    (f : Record → ℕ) (m : Memory Record) (a b : ℕ)
    → a ≤ b
    → tally f m b ≡ tally f m a + tally f (λ i. m (a + i)) (b - a)
tally_parts f m a b le =
    (let e : a + (b - a) ≡ b = omega arith in rw e at (tally-add f m a (b - a)))
