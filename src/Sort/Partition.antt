-- ===== src/Sort/Partition.antt =====
-- The partition: it ends, moves records inside the range only, and splits it by key.
use vmtree.Base.{ℕ, zero, suc, ◌+◌, ◌≤◌, ◌<◌, ◌≡◌, some, arith, Memory, ltb, Bool-cases, inl, inr}
use vmtree.Records.{Record}
use vmtree.Sort.{swap, scan_up, partition_loop, quick_sort_partition, ◌>>=◌}
use vmtree.Sort.Rearrange.{Rearranged, Rearranged-refl, Rearranged-trans, Rearranged-swap}
use vmtree.Sort.Scan.{Down, scan_down-Down, Up, scan_up-Up}

-- The range is split after `r`, below its last record, by keys.
pub record IsSplit (low high r : ℕ) (k : Memory Record) : Type 0 where
  pub from_low : low ≤ r
  pub before_high : r < high
  pub ordered : (i j : ℕ) → low ≤ i → i ≤ r → r < j → j ≤ high → (k i).key ≤ (k j).key

-- The loop at the top of a round after the first: what has been passed lies on its side.
record Inv (m : Memory Record) (low high next upper : ℕ) : Type 0 where
  low_next : low < next
  next_upper : next ≤ upper
  upper_high : upper ≤ high
  left : (i : ℕ) → low ≤ i → i < next → (m i).key ≤ (m low).key
  right : (i : ℕ) → upper ≤ i → i ≤ high → (m low).key ≤ (m i).key

swap-Inv :
    (m : Memory Record) (low high next upper u l : ℕ)
    → Inv m low high next upper
    → Down m low upper low u
    → Up m low next upper l
    → l < u
    → Inv (swap m l u) low high (l + 1) u
unfolding swap
swap-Inv m low high next upper u l v d p h = record {
  low_next = omega (arith, v.low_next, p.from_next);
  next_upper = omega arith;
  upper_high = omega (arith, d.below, v.upper_high);
  left = λ i a b. ground (arith, v.left i a, p.passed i, d.stops, p.from_next, v.low_next);
  right = λ i a b. ground (arith, v.right i, d.passed i, p.stops, p.from_next, v.low_next);
}

done-IsSplit :
    (m : Memory Record) (low high next upper u l : ℕ)
    → Inv m low high next upper
    → Down m low upper low u
    → Up m low next upper l
    → u ≤ l
    → IsSplit low high u m
done-IsSplit m low high next upper u l v d p h = record {
  from_low = d.above_sentinel;
  before_high = omega (arith, d.below, v.upper_high);
  ordered = λ i j a b c e. ground (arith, v.left i a, p.passed i, d.stops, v.right j, d.passed j c);
}

-- The result of a partition of `m`.
abbrev pub Partitioned : (low high : ℕ) → Memory Record → ℕ × Memory Record → Type 0
Partitioned low high m (r, k) = IsSplit low high r k × Rearranged low high m k

partition_loop-Partitioned :
    (fuel : ℕ) (m : Memory Record) (low high next upper : ℕ)
    → Inv m low high next upper
    → upper < next + fuel
    → (r : ℕ × Memory Record) × (partition_loop fuel m low next upper ≡ some r)
      × Partitioned low high m r
unfolding partition_loop
partition_loop-Partitioned zero m low high next upper v f = absurd (omega (arith, v.next_upper))
partition_loop-Partitioned (suc fuel) m low high next upper v f =
    let (u, run_down, d) =
      scan_down-Down (suc upper) m low upper low (omega (arith, v.low_next, v.next_upper))
        (omega arith) (omega arith) in
    let (l, run_up, p) =
      scan_up-Up (suc upper) m low next upper v.next_upper (omega arith)
        (v.right upper (omega arith) v.upper_high) in
    elim (Bool-cases (ltb l u)) [
      | inr stop ↦ (
        (u, m),
        rw (run_down, ◌>>=◌, run_up, stop),
        (done-IsSplit m low high next upper u l v d p (ground arith), Rearranged-refl low high m),
      )
      | inl go ↦
          let lt : l < u = ground arith in
          let (r, run, (split, moved)) =
            partition_loop-Partitioned fuel (swap m l u) low high (l + 1) u
              (swap-Inv m low high next upper u l v d p lt) (omega (arith, d.below, p.from_next)) in
          (
            r,
            rw (run_down, ◌>>=◌, run_up, go) run,
            (
              split,
              Rearranged-trans
                  (Rearranged-swap low high l u m (omega (arith, p.from_next, v.low_next)) lt
                    (omega (arith, d.below, v.upper_high)))
                  moved,
            ),
          )
    ]

-- The first scan up stops at the pivot.
scan_up-first : (fuel : ℕ) (m : Memory Record) (low : ℕ) → scan_up (suc fuel) m low low ≡ some low
unfolding scan_up
scan_up-first fuel m low = ground arith

-- The first round swaps the pivot itself away, or finds it below all others.
swap-first-Inv :
    (m : Memory Record) (low high u : ℕ)
    → Down m low (high + 1) low u
    → low < u
    → Inv (swap m low u) low high (low + 1) u
unfolding swap
swap-first-Inv m low high u d h = record {
  low_next = omega arith;
  next_upper = omega arith;
  upper_high = omega (arith, d.below);
  left = λ i a b. ground arith;
  right = λ i a b. ground (arith, d.stops, d.passed i);
}

-- `in_memory_quick_sort_partition` of two or more records returns, splits the range below its last
-- record with no key on the left above one on the right, and only moves records inside the range.
pub quick_sort_partition-Partitioned :
    (m : Memory Record) (low high : ℕ)
    → low < high
    → (r : ℕ × Memory Record) × (quick_sort_partition m low high ≡ some r)
      × Partitioned low high m r
unfolding quick_sort_partition partition_loop
quick_sort_partition-Partitioned m low high h =
    let (u, run_down, d) =
      scan_down-Down (suc (high + 1)) m low (high + 1) low (omega arith) (omega arith)
        (omega arith) in
    let run_up = scan_up-first (high + 1) m low in
    elim (Bool-cases (ltb low u)) [
      | inr stop ↦ (
        (u, m),
        rw (quick_sort_partition, run_down, ◌>>=◌, run_up, stop),
        (
          record {
            from_low = d.above_sentinel;
            before_high = ground arith;
            ordered = λ i j a b c e. ground (arith, d.stops, d.passed j);
          },
          Rearranged-refl low high m,
        ),
      )
      | inl go ↦
          let lt : low < u = ground arith in
          let (r, run, (split, moved)) =
            partition_loop-Partitioned (suc high) (swap m low u) low high (low + 1) u
              (swap-first-Inv m low high u d lt) (omega (arith, d.below)) in
          (
            r,
            rw (quick_sort_partition, run_down, ◌>>=◌, run_up, go) run,
            (
              split,
              Rearranged-trans
                  (Rearranged-swap low high low u m (omega arith) lt (omega (arith, d.below)))
                  moved,
            ),
          )
    ]
