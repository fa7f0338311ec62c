-- ===== src/Node/Search/Found.antt =====
-- What `vmtreeSearchNode` finds in a page whose keys ascend. Equal keys may stand side by side.

use vmtree.Base.{
  ℕ, zero, suc, ◌+◌, ◌-◌, ◌/◌, ◌≤◌, ◌<◌, ◌≡◌, ◌≢◌, refl, ◌⊎◌, inl, inr, Bool, true, false, none,
  some, Memory, min, ltb, ◌==◌, if◌then◌else◌, arith, Bool-cases, ltb→lt, ap, ◌&&◌, not, below,
  same, above, compare-cases,
}
use vmtree.Records.{Record, uint32_compare, is_negative}
use vmtree.Node.{Page, get_count, Geometry}
use vmtree.Node.Search.{interior_loop, search_interior, Place, leaf_loop, search_leaf, after}

-- The first `n` keys ascend.
abbrev pub Ascends : ℕ → Memory ℕ → Type 0
Ascends n keys = (i j : ℕ) → i ≤ j → j < n → keys i ≤ keys j

-- `c` splits the first `n` keys at `key`; keys equal to it may stand on either side, but on the
-- right only if one stands just left of the split.
pub record SplitsAt (n : ℕ) (keys : Memory ℕ) (key c : ℕ) : Type 0 where
  pub inside : c ≤ n
  pub left : (i : ℕ) → i < c → keys i ≤ key
  pub right : (i : ℕ) → c ≤ i → i < n → key ≤ keys i
  pub tight : (i : ℕ) → c ≤ i → i < n → (key < keys i) ⊎ ((0 < c) × (keys (c - 1) ≡ key))

interior_loop-SplitsAt :
    (fuel : ℕ) (keys : Memory ℕ) (key first last n : ℕ)
    → Ascends n keys
    → first ≤ last
    → last ≤ n
    → last < first + fuel
    → ((i : ℕ) → i < first → keys i ≤ key)
    → ((i : ℕ) → last ≤ i → i < n → key < keys i)
    → (c : ℕ) × (interior_loop fuel keys key first last ≡ some c) × SplitsAt n keys key c
unfolding interior_loop
interior_loop-SplitsAt zero keys key first last n asc a b f left right = absurd (omega arith)
interior_loop-SplitsAt (suc fuel) keys key first last n asc a b f left right =
    let middle = (first + last) / 2 in
    elim (Bool-cases (ltb first last)) [
      | inr stop ↦
          let same : first ≡ last = ground arith in
          (
            last,
            rw stop,
            record {
              inside = b;
              left = λ i h. left i (omega arith);
              right = λ i h k. omega (arith, right i h k);
              tight = λ i h k. inl (right i h k);
            },
          )
      | inl go ↦
          let lt : first < last = ground arith in
          elim (compare-cases key (keys middle)) [
            | below e l ↦
                let (c, run, s) =
                  interior_loop-SplitsAt fuel keys key first middle n asc (omega arith)
                    (omega arith) (omega arith) left (λ i h k. omega (arith, asc middle i h k)) in
                (c, rw (go, e) run, s)
            | same e l ↦ (
              middle + 1,
              rw (go, e),
              record {
                inside = omega arith;
                left = λ i h. omega (arith, asc i middle (omega arith) (omega arith));
                right = λ i h k. omega (arith, asc middle i (omega arith) k);
                tight = λ i h k. inr (omega arith, at (middle + 1 - 1) (omega arith) l);
              },
            )
            | above e l ↦
                let (c, run, s) =
                  interior_loop-SplitsAt fuel keys key (middle + 1) last n asc (omega arith) b
                    (omega arith) (λ i h. omega (arith, asc i middle (omega arith) (omega arith)))
                    right in
                (c, rw (go, e) run, s)
          ]
    ]
  where
    at : (i : ℕ) → i ≡ (first + last) / 2 → key ≡ keys ((first + last) / 2) → keys i ≡ key
    at i e h = rw (e, ← h)

-- In an interior node whose keys ascend, `vmtreeSearchNode` returns the number of a child that lies
-- at the key: no key left of it is greater, and none right of it is less. (The node has no more
-- keys than fit in a page.)
pub search_interior-SplitsAt :
    (g : Geometry) (p : Page) (key : ℕ)
    → Ascends (get_count p) p.keys
    → get_count p ≤ g.max_interior
    → (c : ℕ) × (search_interior g p key ≡ some c) × SplitsAt (get_count p) p.keys key c
unfolding search_interior
search_interior-SplitsAt g p key asc fits = elim (Bool-cases (get_count p == 0)) [
  | inl zero_keys ↦ (
    0,
    rw zero_keys,
    record {
      inside = omega arith;
      left = λ i h. absurd (omega arith);
      right = λ i h k. absurd (ground arith);
      tight = λ i h k. absurd (ground arith);
    },
  )
  | inr some_keys ↦ elim (Bool-cases (get_count p == 1)) [
    | inl one_key ↦ elim (Bool-cases (is_negative (uint32_compare key (p.keys 0)))) [
      | inl less ↦ (0, rw (some_keys, one_key, less), one_left (ground arith) (ground arith))
      | inr more ↦ (1, rw (some_keys, one_key, more), one_right (ground arith) (ground arith))
    ]
    | inr many ↦
        let (c, run, s) =
          interior_loop-SplitsAt (suc (get_count p)) p.keys key 0 (min (get_count p) g.max_interior)
            (get_count p) asc (omega arith) (omega arith) (omega arith)
            (λ i h. absurd (omega arith)) (λ i h k. absurd (omega arith)) in
        (c, rw (some_keys, many) run, s)
  ]
]
  where
    one_left : get_count p ≡ 1 → key < p.keys 0 → SplitsAt (get_count p) p.keys key 0
    one_left one lt = record {
      inside = omega arith;
      left = λ i h. absurd (omega arith);
      right = λ i h k. omega (arith, asc 0 i (omega arith) k);
      tight = λ i h k. inl (omega (arith, asc 0 i (omega arith) k));
    }

    one_right : get_count p ≡ 1 → p.keys 0 ≤ key → SplitsAt (get_count p) p.keys key 1
    one_right one le = record {
      inside = omega arith;
      left = λ i h. omega (arith, asc i 0 (omega arith) (omega arith));
      right = λ i h k. absurd (omega arith);
      tight = λ i h k. absurd (omega arith);
    }

-- The keys of the records of a leaf.
abbrev pub keys_of : Memory Record → Memory ℕ
keys_of records = λ i. (records i).key

-- What an exact search returns: a record with the key, or -1 where there is none.
abbrev pub IsExact : ℕ → Memory Record → ℕ → Place → Type 0
IsExact n records key none = (i : ℕ) → i < n → (records i).key ≢ key
IsExact n records key (some i) = (i < n) × ((records i).key ≡ key)

-- What a search of either kind returns.
abbrev pub Finds : (range : Bool) → ℕ → Memory Record → ℕ → Place → Type 0
Finds true n records key place = SplitsAt n (keys_of records) key (after place)
Finds false n records key place = IsExact n records key place

module _ (n : ℕ) (records : Memory Record) (key : ℕ) where
  -- the loop ends with an empty range
  end-Finds :
      (range : Bool) (end : ℕ)
      → end ≤ n
      → ((i : ℕ) → i < end → (records i).key < key)
      → ((i : ℕ) → end ≤ i → i < n → key < (records i).key)
      → (middle : ℕ) → middle ≡ (end + end - 1) / 2
      → (place : Place) × ((if range && not (end == 0) then some (some middle) else some none)
          ≡ some place)
        × Finds range n records key place
  end-Finds false end b left right middle e =
      (none, refl, λ i h same. ground (arith, left i, right i))
  end-Finds true zero b left right middle e = (
    none,
    refl,
    record {
      inside = omega arith;
      left = λ i h. absurd (omega arith);
      right = λ i h k. omega (arith, right i h k);
      tight = λ i h k. inl (right i h k);
    },
  )
  end-Finds true (suc end) b left right middle e = (
    some middle,
    ground arith,
    record {
      inside = omega arith;
      left = λ i h. omega (arith, left i (omega arith));
      right = λ i h k. omega (arith, right i (omega arith) k);
      tight = λ i h k. inl (right i (omega arith) k);
    },
  )

  hit-Finds :
      (range : Bool) (middle : ℕ)
      → Ascends n (keys_of records)
      → middle < n
      → (records middle).key ≡ key
      → Finds range n records key (some middle)
  hit-Finds false middle asc h e = (h, e)
  hit-Finds true middle asc h e = record {
    inside = omega arith;
    left = λ i k. omega (arith, asc i middle (omega arith) h);
    right = λ i k l. omega (arith, asc middle i (omega arith) l);
    tight = λ i k l. inr (omega arith, at (middle + 1 - 1) (omega arith));
  }
    where
      at : (i : ℕ) → i ≡ middle → (records i).key ≡ key
      at i s = rw s e

leaf_loop-Finds :
    (fuel : ℕ) (records : Memory Record) (key first end n : ℕ) (range : Bool)
    → Ascends n (keys_of records)
    → first ≤ end
    → end ≤ n
    → end < first + fuel
    → ((i : ℕ) → i < first → (records i).key < key)
    → ((i : ℕ) → end ≤ i → i < n → key < (records i).key)
    → (place : Place) × (leaf_loop fuel records key first end range ≡ some place)
      × Finds range n records key place
unfolding leaf_loop
leaf_loop-Finds zero records key first end n range asc a b f left right = absurd (omega arith)
leaf_loop-Finds (suc fuel) records key first end n range asc a b f left right =
    let middle = (first + end - 1) / 2 in
    elim (Bool-cases (ltb first end)) [
      | inr stop ↦
          let same : first ≡ end = ground arith in
          rw stop (
            end-Finds n records key range end b (λ i h. left i (omega arith)) right middle
              (ap (λ k. (k + end - 1) / 2) same))
      | inl go ↦ elim (compare-cases (records middle).key key) [
        | same e l ↦
            (some middle, rw (go, e), hit-Finds n records key range middle asc (in_range go) l)
        | below e l ↦
            let (place, run, s) =
              leaf_loop-Finds fuel records key (middle + 1) end n range asc (up go) b (fuel_up go)
                (λ i h. omega (arith, asc i middle (omega arith) (in_range go))) right in
            (place, rw (go, e) run, s)
        | above e l ↦
            let (place, run, s) =
              leaf_loop-Finds fuel records key first middle n range asc (low go)
                (omega (arith, in_range go)) (fuel_low go) left
                (λ i h k. omega (arith, asc middle i h k)) in
            (place, rw (go, e) run, s)
      ]
    ]
  where
    in_range : ltb first end ≡ true → (first + end - 1) / 2 < n
    in_range go = omega (arith, ltb→lt first end go)

    up : ltb first end ≡ true → (first + end - 1) / 2 + 1 ≤ end
    up go = omega (arith, ltb→lt first end go)

    low : ltb first end ≡ true → first ≤ (first + end - 1) / 2
    low go = omega (arith, ltb→lt first end go)

    fuel_up : ltb first end ≡ true → end < (first + end - 1) / 2 + 1 + fuel
    fuel_up go = omega (arith, ltb→lt first end go)

    fuel_low : ltb first end ≡ true → (first + end - 1) / 2 < first + fuel
    fuel_low go = omega (arith, ltb→lt first end go)

-- In a leaf whose records ascend by key, `vmtreeSearchNode` returns. Without `range` it returns the
-- index of a record with the key, and -1 exactly if there is none; with `range`, the index before
-- the place that splits the records at the key, which is -1 before the first.
pub search_leaf-Finds :
    (p : Page) (key : ℕ) (range : Bool)
    → Ascends (get_count p) (keys_of p.records)
    → (place : Place) × (search_leaf p key range ≡ some place)
      × Finds range (get_count p) p.records key place
unfolding search_leaf
search_leaf-Finds p key range asc =
    leaf_loop-Finds (suc (get_count p)) p.records key 0 (get_count p) (get_count p) range asc
      (omega arith) (omega arith) (omega arith) (λ i h. absurd (omega arith))
      (λ i h k. absurd (omega arith))
