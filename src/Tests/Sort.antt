-- ===== src/Tests/Sort.antt =====
-- src/in_memory_sort.c at a concrete array.
use vmtree.Base.{ℕ, ◌-◌, ◌<◌, ◌≤◌, ◌≡◌, true, some, Memory, arith, tally}
use vmtree.Records.{Record}
use vmtree.Sort.{in_memory_sort}
use vmtree.Sort.Correct.{in_memory_sort-sorts}

-- The keys 7, 6, ..., 0.
abbrev descending : Memory Record
descending i = record { key = 7 - i; value = i }

in_memory_sort-sorts_example :
    (k : Memory Record) × (in_memory_sort true descending 8 1 ≡ some (0, k))
    × ((i j : ℕ) → i ≤ j → j < 8 → (k i).key ≤ (k j).key)
    × ((f : Record → ℕ) → tally f k 8 ≡ tally f descending 8)
    × ((i : ℕ) → 8 ≤ i → k i ≡ descending i)
in_memory_sort-sorts_example = in_memory_sort-sorts descending 8 (omega arith) (omega arith)
