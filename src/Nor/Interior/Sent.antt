-- ===== src/Nor/Interior/Sent.antt =====
-- Where a search is sent, before and after an interior page of OVERWRITE in src/vmtree.c is split.
use vmtree.Base.{
  ℕ, ◌+◌, ◌-◌, ◌≤◌, ◌<◌, ◌≡◌, ◌≢◌, true, false, Memory, ltb, ◌==◌, if◌then◌else◌, arith, ◌∙◌, ap,
  Bool-cases, inl, inr,
}
use vmtree.Nor.{NorPage, NorGeometry, interior_limit, is_live}
use vmtree.Nor.Bits.{IsCounted}
use vmtree.Nor.Next.{IsNext}
use vmtree.Nor.Routes.{IsDistinct, route, search-Found, search-IsNext}
use vmtree.Nor.Interior.{search_node_overwrite}
use vmtree.Nor.Interior.Split.{split_left, split_right, promoted_key}
use vmtree.Nor.Interior.Parts.{with_key, with_children, Holds}
use vmtree.Nor.Interior.Halves.{At, Parts, split_left-Parts}

-- The first `n` keys rise.
abbrev pub Rises : ℕ → Memory ℕ → Type 0
Rises n keys = (i j : ℕ) → i < j → j < n → keys i < keys j

-- The first of the keys that is above `k`.
pub record IsFirst (n : ℕ) (keys : Memory ℕ) (k x : ℕ) : Type 0 where
  pub inside : x < n
  pub above : k < keys x
  pub below : (i : ℕ) → i < x → keys i ≤ k

-- A page of sorted records sends a search to the page below the first key above it.
Holds-route :
    (g : NorGeometry) (q : NorPage) (n : ℕ) (keys values : Memory ℕ) (k x : ℕ)
    → Holds g q n keys values
    → n ≤ interior_limit g
    → Rises n keys
    → IsFirst n keys k x
    → route g q k ≡ values x
Holds-route g q n keys values k x h fits rises f =
    ap q.values (search-IsNext g q k x distinct next) ∙ h.value x f.inside
  where
    live : (i : ℕ) → i < interior_limit g → is_live q i ≡ true → i < n
    live i lt e = ground (arith, h.counted.live i)

    distinct : IsDistinct (interior_limit g) q
    distinct i j lt lt' e e' same =
        ground (arith, live i lt e, live j lt' e', h.key i, h.key j, rises i j, rises j i)

    next : IsNext (interior_limit g) q k x
    next = record {
      inside = omega (arith, f.inside);
      live = ground (arith, h.counted.live x, f.inside);
      above = ground (arith, h.key x, f.inside, f.above);
      least = λ j lt e above.
          ground (arith, live j lt e, h.key j, h.key x, f.inside, f.below j, rises x j);
    }

Rises-with_key :
    (n : ℕ) (keys : Memory ℕ) (c key : ℕ)
    → Rises n keys
    → IsFirst n keys key c
    → ((i : ℕ) → i < n → keys i ≢ key)
    → Rises (n + 1) (with_key keys c key)
Rises-with_key n keys c key rises f fresh i j lt le = ground (
  arith,
  rises i j,
  rises i (j - 1),
  rises (i - 1) (j - 1),
  f.below i,
  f.inside,
  f.above,
  fresh i,
  rises c (j - 1),
)

-- Where a search comes to, once the new key is there.
placed :
    (n : ℕ) (keys values : Memory ℕ) (c key left right k x : ℕ)
    → Rises n keys
    → IsFirst n keys key c
    → IsFirst n keys k x
    → (y : ℕ) × IsFirst (n + 1) (with_key keys c key) k y
      × (with_children values c left right y
          ≡ (if x == c then (if ltb k key then left else right) else values x))
placed n keys values c key left right k x rises f m = elim (Bool-cases (ltb x c)) [
  | inl low ↦ (
    x,
    record {
      inside = omega (arith, m.inside);
      above = ground (arith, low, m.above);
      below = λ i lt. ground (arith, low, m.below i);
    },
    ground (arith, low),
  )
  | inr not_low ↦
      let back : x + 1 - 1 ≡ x = omega arith in
      elim (Bool-cases (x == c)) [
        | inr other ↦ (
          x + 1,
          record {
            inside = omega (arith, m.inside);
            above = ground (arith, not_low, other, m.above, ap keys back);
            below = λ i lt.
                ground (arith, not_low, other, m.below i, m.below (i - 1), m.below c, f.above);
          },
          ground (arith, not_low, other, ap values back),
        )
        | inl here ↦ elim (Bool-cases (ltb k key)) [
          | inl below_key ↦ (
            x,
            record {
              inside = omega (arith, m.inside);
              above = ground (arith, here, below_key);
              below = λ i lt. ground (arith, here, m.below i);
            },
            ground (arith, here, below_key),
          )
          | inr from_key ↦ (
            x + 1,
            record {
              inside = omega (arith, m.inside);
              above = ground (arith, here, m.above, ap keys back);
              below = λ i lt. ground (arith, here, from_key, m.below i);
            },
            ground (arith, here, from_key),
          )
        ]
      ]
]

-- The search in a sorted page with a key above.
search-IsFirst :
    (g : NorGeometry) (p : NorPage) (count k : ℕ)
    → IsCounted (interior_limit g) (count + 1) p
    → count + 1 ≤ interior_limit g
    → Rises (count + 1) p.keys
    → k < p.keys count
    → IsFirst (count + 1) p.keys k (search_node_overwrite g true p k)
search-IsFirst g p count k s fits rises above =
    let x = search_node_overwrite g true p k in
    let n = search-Found g p k count (omega arith) (ground (arith, s.live count)) above in
    let lt : x < count + 1 = ground (arith, n.live, n.inside, s.live x) in
    record {
      inside = lt;
      above = n.above;
      below = λ i h. ground (arith, n.least i, s.live i, rises i x h lt, lt);
    }

-- The halves send a search as the whole sequence would.
Parts-route :
    (g : NorGeometry) (p q l : NorPage) (count key left right c m promoted k y : ℕ)
    → Parts g p q l count key left right c m promoted
    → count + 1 ≤ interior_limit g
    → Rises (count + 2) (with_key p.keys c key)
    → IsFirst (count + 2) (with_key p.keys c key) k y
    → route g (if ltb k promoted then q else l) k ≡ with_children p.values c left right y
Parts-route g p q l count key left right c m promoted k y parts fits rises f =
    let keys = with_key p.keys c key in
    let values = with_children p.values c left right in
    elim (Bool-cases (ltb y m)) [
      | inl first ↦
          let lt : k < promoted = rw (parts.last) (elim (Bool-cases (y == m - 1)) [
            | inl e ↦ (let same : m - 1 ≡ y = ground (arith, e) in rw same (f.above))
            | inr e ↦ omega (
              arith,
              f.above,
              rises y (m - 1) (ground (arith, first, e)) (omega (arith, parts.some_right)),
            )
          ]) in
          let test : ltb k promoted ≡ true = ground (arith, lt) in
          rw test (
            Holds-route g q m keys values k y parts.first (omega (arith, parts.some_right))
              (λ i j h h'. rises i j h (omega (arith, parts.some_right)))
              (record { inside = ground (arith, first); above = f.above; below = f.below }))
      | inr second ↦
          let le : promoted ≤ k =
            rw (parts.last) (f.below (m - 1) (ground (arith, second, parts.some_left))) in
          let test : ltb k promoted ≡ false = ground (arith, le) in
          let shift : y - m + m ≡ y = ground (arith, second) in
          let sent =
            Holds-route g l (count + 2 - m) (λ i. keys (i + m)) (λ i. values (i + m)) k (y - m)
              parts.second (omega (arith, parts.some_left))
              (λ i j h h'. rises (i + m) (j + m) (omega arith) (omega arith))
              (record {
                inside = ground (arith, second, f.inside);
                above = rw shift (f.above);
                below = λ i h. f.below (i + m) (ground (arith, second, h));
              }) in
          rw test (sent ∙ ap values shift)
    ]

-- When the full interior page of OVERWRITE that `vmtreePutNorOverwrite` has sorted, of `count + 1`
-- records with rising keys, is split around a key that it does not have, then the search for a key
-- `k` in the first page, if `k` is below the key for the node above, and else in the second, is sent to `left` or to `right`,
-- as `k` is below the new key or not, where the page sent it to the child that was split, and
-- else where the page sent it. (The count is from 1 to 255, `k` and the new key are below the
-- last key, and the bitmaps have their bits.)
pub split_left-routes :
    (g : NorGeometry) (p : NorPage) (count key left right k : ℕ)
    → IsCounted (interior_limit g) (count + 1) p
    → count + 1 ≤ interior_limit g
    → 1 ≤ count
    → count < 256
    → Rises (count + 1) p.keys
    → ((i : ℕ) → i < count + 1 → p.keys i ≢ key)
    → key < p.keys count
    → k < p.keys count
    → route g
        (if ltb k (promoted_key p count)
          then split_left g p count key left right
          else split_right g p count key left right)
        k
      ≡ (if search_node_overwrite g true p k == search_node_overwrite g true p key
          then (if ltb k key then left else right)
          else route g p k)
split_left-routes g p count key left right k s fits several few rises fresh above above' =
    let c = search_node_overwrite g true p key in
    let f = search-IsFirst g p count key s fits rises above in
    let n = search-IsFirst g p count k s fits rises above' in
    let at : At g p count key c = record {
      maps = s.maps;
      fits = fits;
      several = several;
      few = few;
      inside = omega (arith, f.inside);
      below = f.below;
      above = λ i h h'. ground (arith, f.above, f.inside, rises c i);
    } in
    let (m, parts) = split_left-Parts g p count key left right c at in
    let (y, place, value) =
      placed (count + 1) p.keys p.values c key left right k (search_node_overwrite g true p k) rises
        f n in
    let two : count + 1 + 1 ≡ count + 2 = omega arith in
    Parts-route g p (split_left g p count key left right) (split_right g p count key left right)
      count key left right c m (promoted_key p count) k y parts fits
      (rw two at (Rises-with_key (count + 1) p.keys c key rises f fresh)) (rw two at place)
    ∙ value
