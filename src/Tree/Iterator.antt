-- ===== src/Tree/Iterator.antt =====
-- The iterator of src/vmtree.c, over the records with keys in a range. `currentBuffer` is the
-- number of a page buffer: its contents may change while the iterator points to it.
use Prim.Native.Nat.{Ordering}
use vmtree.Base.{
  ℕ, zero, suc, ◌+◌, ◌-◌, ◌%◌, ◌^◌, Bool, true, false, Option, none, some, Memory, update, ltb, leb,
  if◌then◌else◌,
}
use vmtree.Records.{Record, uint32_compare}
use vmtree.Node.{Page, get_count}
use vmtree.Node.Search.{Place, search_node}
use vmtree.Storage.{Device}
use vmtree.Buffer.{read_page}
use vmtree.Tree.{Tree, with_buffer, get_child_page_id}
use vmtree.Tree.Put.{step_down}

-- `vmtreeIterator`. `vmtreeInitIterator` compares with `minKey` at once, so it is not NULL.
pub record Iterator : Type 0 where
  pub path : Memory ℕ
  pub last_rec : Memory ℕ
  pub min_key : ℕ
  pub max_key : Option ℕ
  pub current : Option ℕ

-- A `childNum` in `lastIterRec`, a `uint16_t`.
abbrev pub as_count : Place → ℕ
as_count none = 2 ^ 16 - 1
as_count (some c) = c % 2 ^ 16

-- Whether a record is below the range, or above it.
unfoldable pub is_below : Iterator → Record → Bool
is_below it r = elim (uint32_compare r.key it.min_key) [
  | Ordering.lt ↦ true
  | Ordering.eq ↦ false
  | Ordering.gt ↦ false
]

unfoldable pub is_above : Iterator → Record → Bool
is_above it r = elim it.max_key [
  | none ↦ false
  | some max_key ↦ elim (uint32_compare r.key max_key) [
    | Ordering.lt ↦ false
    | Ordering.eq ↦ false
    | Ordering.gt ↦ true
  ]
]

module _ {St : Type 0} (d : Device Page St) where
  -- The walk of `vmtreeInitIterator` down to the leaf. A page that cannot be read, where the code
  -- follows a null pointer, ends it without a current buffer.
  unfoldable pub seek : (left : ℕ) → Tree St → Iterator → (l page : ℕ) → Option (Tree St × Iterator)
  unfolding step_down with_buffer
  seek zero t it l page = elim (read_page d t.buffer (t.active_path 0) page) [
    | none ↦ none
    | some (b, none) ↦ some (with_buffer t b, record it { path = update it.path l page })
    | some (b, some slot) ↦
        elim (search_node t.geometry t.levels (b.buffers slot) it.min_key true) [
          | none ↦ none
          | some place ↦ some (
            with_buffer t b,
            record it {
              path = update it.path l page;
              current = some slot;
              last_rec = update it.last_rec l (as_count place);
            },
          )
        ]
  ]
  seek (suc left) t it l page =
      let it1 = record it { path = update it.path l page } in
      elim (step_down d t page it.min_key true) [
        | none ↦ none
        | some (t', none) ↦ some (t', it1)
        | some (t', some (child, next)) ↦
            seek left t' (record it1 { last_rec = update it.last_rec l (child % 2 ^ 16) }) (l + 1)
              next
      ]

  -- `vmtreeInitIterator`
  unfoldable pub init_iterator : Tree St → Iterator → Option (Tree St × Iterator)
  unfolding seek
  init_iterator t it = seek (t.levels - 1) t (record it { current = none }) 0 (t.active_path 0)

  -- The way up to a node with a next child: its level and page buffer, if there is one. Counts are
  -- below 128, so the `int8_t` is exact.
  unfoldable pub climb :
      (left : ℕ) → Tree St → Iterator → Option (Tree St × Iterator × Option (ℕ × ℕ))
  unfolding with_buffer
  climb zero t it = some (t, it, none)
  climb (suc l) t it = elim (read_page d t.buffer (t.active_path 0) (it.path l)) [
    | none ↦ none
    | some (b, none) ↦ some (with_buffer t b, it, none)
    | some (b, some slot) ↦ elim (ltb (it.last_rec l) (get_count (b.buffers slot))) [
      | true ↦ some (
        with_buffer t b,
        record it { last_rec = update it.last_rec l (it.last_rec l + 1) },
        some (l, slot),
      )
      | false ↦ climb l (with_buffer t b) (record it { last_rec = update it.last_rec l 0 })
    ]
  ]

  -- The way down again, from the page in `slot` at level `l`: the page buffer of the leaf.
  unfoldable pub descend :
      (left : ℕ) → Tree St → Iterator → (l slot : ℕ) → Option (Tree St × Iterator × Option ℕ)
  unfolding get_child_page_id with_buffer
  descend zero t it l slot = some (t, it, some slot)
  descend (suc left) t it l slot =
      elim (get_child_page_id t.table (t.buffer.buffers slot) (it.last_rec l)) [
        | none ↦ some (t, it, none)
        | some page ↦
            let it' = record it { path = update it.path (l + 1) page } in
            elim (read_page d t.buffer (t.active_path 0) page) [
              | none ↦ none
              | some (b, none) ↦ some (with_buffer t b, it', none)
              | some (b, some slot') ↦ descend left (with_buffer t b) it' (l + 1) slot'
            ]
      ]

  -- The next leaf: `none` for its page buffer where `vmtreeNext` returns 0.
  unfoldable pub advance : Tree St → Iterator → Option (Tree St × Iterator × Option ℕ)
  unfolding climb descend
  advance t it =
      let l = t.levels - 1 in
      elim (climb l t (record it { last_rec = update it.last_rec l 0 })) [
        | none ↦ none
        | some (t1, it1, none) ↦ some (t1, it1, none)
        | some (t1, it1, some (l1, slot1)) ↦ elim (descend (l - l1) t1 it1 l1 slot1) [
          | none ↦ none
          | some (t2, it2, none) ↦ some (t2, it2, none)
          | some (t2, it2, some slot2) ↦ some (t2, record it2 { current = some slot2 }, some slot2)
        ]
      ]

  -- The outer loop of `vmtreeNext` from page buffer `slot` on.
  unfoldable pub next_loop :
      (fuel : ℕ) → Tree St → Iterator → (slot : ℕ) → Option (Tree St × Iterator × Option Record)
  unfolding advance is_below is_above
  next_loop zero t it slot = none
  next_loop (suc fuel) t it slot =
      let l = t.levels - 1 in
      let at_end = leb (get_count (t.buffer.buffers slot)) (it.last_rec l) in
      let advanced = advance t it in
      elim (if at_end then advanced else some (t, it, some slot)) [
        | none ↦ none
        | some (t1, it1, none) ↦ some (t1, it1, none)
        | some (t1, it1, some slot1) ↦
            let r = (t1.buffer.buffers slot1).records (it1.last_rec l) in
            let it2 = record it1 {
              last_rec = update it1.last_rec l ((it1.last_rec l + 1) % 2 ^ 16);
            } in
            elim (is_below it r) [
              | true ↦ next_loop fuel t1 it2 slot1
              | false ↦ elim (is_above it r) [
                | true ↦ some (t1, it2, none)
                | false ↦ some (t1, it2, some r)
              ]
            ]
      ]

  -- `vmtreeNext`: the record, if it returns 1.
  unfoldable pub next :
      (fuel : ℕ) → Tree St → Iterator → Option (Tree St × Iterator × Option Record)
  unfolding next_loop
  next fuel t it = elim it.current [
    | none ↦ some (t, it, none)
    | some slot ↦ next_loop fuel t it slot
  ]
