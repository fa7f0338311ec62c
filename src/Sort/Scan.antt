-- ===== src/Sort/Scan.antt =====
-- The two scans of the partition stop, and where.
use vmtree.Base.{
  ℕ, zero, suc, ◌+◌, ◌-◌, ◌≤◌, ◌<◌, ◌≡◌, some, arith, Memory, Bool-cases, inl, inr, true,
}
use vmtree.Records.{Record}
use vmtree.Sort.{scan_down, scan_up, compare_fcn_gt, compare_fcn_lt}

-- `r` is where the scan down from `upper` stops, at or above the sentinel `s`.
pub record Down (m : Memory Record) (pivot upper s r : ℕ) : Type 0 where
  pub below : r < upper
  pub above_sentinel : s ≤ r
  pub stops : (m r).key ≤ (m pivot).key
  pub passed : (i : ℕ) → r < i → i < upper → (m pivot).key < (m i).key

pub scan_down-Down :
    (fuel : ℕ) (m : Memory Record) (pivot upper s : ℕ)
    → s < upper
    → upper ≤ s + fuel
    → (m s).key ≤ (m pivot).key
    → (r : ℕ) × (scan_down fuel m pivot upper ≡ some r) × Down m pivot upper s r
unfolding scan_down
scan_down-Down zero m pivot upper s h f sentinel = absurd (omega arith)
scan_down-Down (suc fuel) m pivot upper s h f sentinel =
    elim (Bool-cases (compare_fcn_gt (m (upper - 1)) (m pivot))) [
      | inr stop ↦ (
        upper - 1,
        rw stop,
        record {
          below = omega arith;
          above_sentinel = omega arith;
          stops = ground arith;
          passed = λ i a b. absurd (omega arith);
        },
      )
      | inl go ↦
          let ne : s ≤ upper - 1 = omega arith in
          let (r, run, d) =
            scan_down-Down fuel m pivot (upper - 1) s (not_last go) (omega arith) sentinel in
          (
            r,
            rw go run,
            record {
              below = omega (arith, d.below);
              above_sentinel = d.above_sentinel;
              stops = d.stops;
              passed = λ i a b. ground (arith, d.passed i a);
            },
          )
    ]
  where
    not_last : compare_fcn_gt (m (upper - 1)) (m pivot) ≡ true → s < upper - 1
    not_last go = ground arith

pub record Up (m : Memory Record) (pivot next s l : ℕ) : Type 0 where
  pub from_next : next ≤ l
  pub below_sentinel : l ≤ s
  pub stops : (m pivot).key ≤ (m l).key
  pub passed : (i : ℕ) → next ≤ i → i < l → (m i).key < (m pivot).key

pub scan_up-Up :
    (fuel : ℕ) (m : Memory Record) (pivot next s : ℕ)
    → next ≤ s
    → s < next + fuel
    → (m pivot).key ≤ (m s).key
    → (l : ℕ) × (scan_up fuel m pivot next ≡ some l) × Up m pivot next s l
unfolding scan_up
scan_up-Up zero m pivot next s h f sentinel = absurd (omega arith)
scan_up-Up (suc fuel) m pivot next s h f sentinel =
    elim (Bool-cases (compare_fcn_lt (m next) (m pivot))) [
      | inr stop ↦ (
        next,
        rw stop,
        record {
          from_next = omega arith;
          below_sentinel = h;
          stops = ground arith;
          passed = λ i a b. absurd (omega arith);
        },
      )
      | inl go ↦
          let (l, run, u) =
            scan_up-Up fuel m pivot (next + 1) s (not_last go) (omega arith) sentinel in
          (
            l,
            rw go run,
            record {
              from_next = omega (arith, u.from_next);
              below_sentinel = u.below_sentinel;
              stops = u.stops;
              passed = λ i a b. ground (arith, u.passed i);
            },
          )
    ]
  where
    not_last : compare_fcn_lt (m next) (m pivot) ≡ true → next + 1 ≤ s
    not_last go = ground arith
