-- ===== src/Sort/Correct.antt =====
-- `in_memory_sort` sorts: it returns, orders the records by key, and loses or copies none.
use vmtree.Base.{
  ℕ, zero, suc, ◌+◌, ◌-◌, ◌%◌, ◌^◌, ◌≤◌, ◌<◌, ◌≡◌, some, arith, Memory, ltb, leb, Bool-cases, inl,
  inr, true, tally,
}
use vmtree.Records.{Record}
use vmtree.Sort.{quick_sort_helper, in_memory_sort, ◌>>=◌}
use vmtree.Sort.Rearrange.{Rearranged, Rearranged-refl, Rearranged-trans, Rearranged-widen}
use vmtree.Sort.Partition.{IsSplit, quick_sort_partition-Partitioned}

-- The records of the range ascend by key.
abbrev pub IsSorted : (low high : ℕ) → Memory Record → Type 0
IsSorted low high m = (i j : ℕ) → low ≤ i → i ≤ j → j ≤ high → (m i).key ≤ (m j).key

abbrev pub SortsTo : (low high : ℕ) → Memory Record → Memory Record → Type 0
SortsTo low high m k = IsSorted low high k × Rearranged low high m k

-- The two sorted halves of a split range make one sorted range.
halves-IsSorted :
    {low high r : ℕ} {k k' k'' : Memory Record}
    → IsSplit low high r k
    → SortsTo low r k k'
    → SortsTo (r + 1) high k' k''
    → IsSorted low high k''
halves-IsSorted {low} {high} {r} {k} {k'} {k''} split (first, a) (second, b) i j p q s =
    elim (Bool-cases (leb j r)) [
      | inl both_left ↦
          rw (b.outside i (ground arith), b.outside j (ground arith)) (first i j p q (ground arith))
      | inr right ↦ elim (Bool-cases (leb i r)) [
        | inr both_right ↦ second i j (ground arith) q s
        | inl left ↦ rw (b.outside i (ground arith)) (across (ground arith) (ground arith))
      ]
    ]
  where
    -- first the left half stays below each record of the right half, then the right half above
    left_below : (j : ℕ) → r < j → j ≤ high → i ≤ r → (k' i).key ≤ (k j).key
    left_below j lt le at =
        let kept =
          a.keeps (λ x. leb x.key (k j).key) (λ s x y. ground (arith, split.ordered s j x y lt le))
            i p at in
        ground arith

    across : i ≤ r → r < j → (k' i).key ≤ (k'' j).key
    across at lt =
        let kept =
          b.keeps (λ x. leb (k' i).key x.key)
            (λ s x y.
              ground (arith, left_below s (omega arith) y at, a.outside s (inr (omega arith))))
            j (omega arith) s in
        ground arith

quick_sort_helper-SortsTo :
    (fuel : ℕ) (m : Memory Record) (low high : ℕ)
    → high < low + fuel
    → 0 < fuel
    → (k : Memory Record) × (quick_sort_helper fuel m low high ≡ some k) × SortsTo low high m k
unfolding quick_sort_helper
quick_sort_helper-SortsTo zero m low high f pos = absurd (omega arith)
quick_sort_helper-SortsTo (suc fuel) m low high f pos = elim (Bool-cases (ltb low high)) [
  | inr small ↦ (m, rw small, (λ i j p q s. same i j (ground arith), Rearranged-refl low high m))
  | inl go ↦
      let lt : low < high = ground arith in
      let ((r, m1), run, (split, moved)) = quick_sort_partition-Partitioned m low high lt in
      let (m2, run_left, left) =
        quick_sort_helper-SortsTo fuel m1 low r (omega (arith, split.before_high)) (omega arith) in
      let (m3, run_right, right) =
        quick_sort_helper-SortsTo fuel m2 (r + 1) high (omega (arith, split.from_low))
          (omega arith) in
      (
        m3,
        rw (go, run, ◌>>=◌, run_left) run_right,
        (
          halves-IsSorted split left right,
          Rearranged-trans moved (
              Rearranged-trans
                (Rearranged-widen (omega arith) (omega (arith, split.before_high)) left.1)
                (Rearranged-widen (omega (arith, split.from_low)) (omega arith) right.1)),
        ),
      )
]
  where
    same : (i j : ℕ) → i ≡ j → (m i).key ≤ (m j).key
    same i j e = rw e (omega arith)

in_memory_sort-helper :
    (m : Memory Record) (n : ℕ)
    → 0 < n
    → n < 2 ^ 32
    → in_memory_sort true m n 1
      ≡ (quick_sort_helper (suc (n - 1)) m 0 (n - 1) >>= λ m'. some (0, m'))
unfolding in_memory_sort
in_memory_sort-helper m n pos small =
    let high : (n + 2 ^ 32 - 1) % 2 ^ 32 ≡ n - 1 = omega arith in rw high

-- `in_memory_sort` by algorithm 1, given its temporary buffer and at least one record, returns 0;
-- the records then ascend by key, every test on records is passed by as many of them as before,
-- and no memory behind them has changed.
pub in_memory_sort-sorts :
    (m : Memory Record) (n : ℕ)
    → 0 < n
    → n < 2 ^ 32
    → (k : Memory Record) × (in_memory_sort true m n 1 ≡ some (0, k))
      × ((i j : ℕ) → i ≤ j → j < n → (k i).key ≤ (k j).key)
      × ((f : Record → ℕ) → tally f k n ≡ tally f m n)
      × ((i : ℕ) → n ≤ i → k i ≡ m i)
in_memory_sort-sorts m n pos small =
    let (k, run, (sorted, moved)) =
      quick_sort_helper-SortsTo (suc (n - 1)) m 0 (n - 1) (omega arith) (omega arith) in
    (
      k,
      rw (in_memory_sort-helper m n pos small, run, ◌>>=◌),
      (λ i j p q. sorted i j (omega arith) p (omega arith)),
      (λ f. moved.same f n (omega arith)),
      (λ i p. moved.outside i (inr (omega arith))),
    )
