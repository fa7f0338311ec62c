-- ===== src/Sort.antt =====
-- src/in_memory_sort.c: quicksort of an array of records, in place.
-- A pointer into the array is the index of its record. A loop takes fuel and gives `none` when
-- that runs out; `Sort.Correct` shows that the fuel suffices.
pub mod Rearrange
pub mod Scan
pub mod Partition
pub mod Correct
use vmtree.Base.{
  ℕ, zero, suc, ◌+◌, ◌-◌, ◌%◌, ◌^◌, Bool, true, false, Option, none, some, Memory, update, ltb,
  ◌==◌, if◌then◌else◌,
}
use vmtree.Records.{Record, uint32_compare, is_positive, is_negative}

infixl 5 ◌>>=◌
abbrev pub ◌>>=◌ {ℓ κ} : {A : Type ℓ} {B : Type κ} → Option A → (A → Option B) → Option B
none >>= f = none
some a >>= f = f a

-- `compare_fcn` is `uint32Compare` in each call of the program.
abbrev pub compare_fcn_gt : Record → Record → Bool
compare_fcn_gt a b = is_positive (uint32_compare a.key b.key)

abbrev pub compare_fcn_lt : Record → Record → Bool
compare_fcn_lt a b = is_negative (uint32_compare a.key b.key)

-- `in_memory_swap`: the three copies through the temporary buffer
unfoldable pub swap : Memory Record → ℕ → ℕ → Memory Record
swap m a b = let tmp = m a in let m' = update m a (m b) in update m' b tmp

-- `do { upper_bound -= value_size; } while (compare_fcn(upper_bound, pivot) > 0);`
unfoldable pub scan_down : ℕ → Memory Record → ℕ → ℕ → Option ℕ
scan_down zero m pivot upper = none
scan_down (suc fuel) m pivot upper =
    let rest = scan_down fuel m pivot (upper - 1) in
    if compare_fcn_gt (m (upper - 1)) (m pivot) then rest else some (upper - 1)

-- `do { lower_bound += value_size; } while (compare_fcn(lower_bound, pivot) < 0);`
-- `next` is the index after `lower_bound`, which starts one record before the array.
unfoldable pub scan_up : ℕ → Memory Record → ℕ → ℕ → Option ℕ
scan_up zero m pivot next = none
scan_up (suc fuel) m pivot next =
    let rest = scan_up fuel m pivot (next + 1) in
    if compare_fcn_lt (m next) (m pivot) then rest else some next

-- The `while (1)` of `in_memory_quick_sort_partition`. The pivot is read through its pointer in
-- each comparison, also after a swap has changed what stands there.
unfoldable pub partition_loop :
    ℕ → Memory Record → (pivot next upper : ℕ) → Option (ℕ × Memory Record)
partition_loop zero m pivot next upper = none
partition_loop (suc fuel) m pivot next upper = scan_down (suc upper) m pivot upper >>= λ u.
    scan_up (suc upper) m pivot next >>= λ l.
    let rest = partition_loop fuel (swap m l u) pivot (l + 1) u in
    if ltb l u then rest else some (u, m)

-- `in_memory_quick_sort_partition`
unfoldable pub quick_sort_partition : Memory Record → (low high : ℕ) → Option (ℕ × Memory Record)
quick_sort_partition m low high = partition_loop (suc (suc high)) m low low (high + 1)

-- `in_memory_quick_sort_helper`
unfoldable pub quick_sort_helper : ℕ → Memory Record → (low high : ℕ) → Option (Memory Record)
quick_sort_helper zero m low high = none
quick_sort_helper (suc fuel) m low high =
    let sorted = quick_sort_partition m low high >>= λ r.
    quick_sort_helper fuel r.1 low r.0 >>= λ m'. quick_sort_helper fuel m' (r.0 + 1) high in
    if ltb low high then sorted else some m

-- `in_memory_quick_sort` of `num_values` records at the start of `data`; `allocated` tells whether
-- `malloc` gave the temporary buffer. The `uint32_t` in `num_values - 1` wraps at 0 records;
-- its product with the size of a record does not, for an array of less than 4 GB.
unfoldable pub quick_sort : (allocated : Bool) → Memory Record → ℕ → Option (ℕ × Memory Record)
quick_sort false m num_values = some (8, m)
quick_sort true m num_values =
    let high = (num_values + 2 ^ 32 - 1) % 2 ^ 32 in
    quick_sort_helper (suc high) m 0 high >>= λ m'. some (0, m')

-- `in_memory_sort`: only algorithm 1 does anything
unfoldable pub in_memory_sort :
    (allocated : Bool) → Memory Record → ℕ → (sort_algorithm : ℕ) → Option (ℕ × Memory Record)
unfolding quick_sort
in_memory_sort allocated m num_values sort_algorithm =
    if sort_algorithm == 1 then quick_sort allocated m num_values else some (0, m)
