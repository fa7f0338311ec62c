-- ===== src/Node/Search.antt =====
-- `vmtreeSearchNode` of src/vmtree.c: the binary searches in a page. A loop on fuel gives `none`
-- when the fuel runs out; `Search.Found` shows that it does not.
pub mod Found
use Prim.Native.Nat.{Ordering}
use vmtree.Base.{
  ℕ, zero, suc, ◌+◌, ◌-◌, ◌/◌, Bool, true, false, ◌&&◌, not, Option, none, some, Memory, min, ltb,
  ◌==◌, if◌then◌else◌,
}
use vmtree.Records.{Record, uint32_compare, is_negative}
use vmtree.Node.{Page, get_count, is_interior, Geometry}

-- The loop over the keys of an interior node: the number of the child to follow.
unfoldable pub interior_loop : ℕ → Memory ℕ → (key first last : ℕ) → Option ℕ
interior_loop zero keys key first last = none
interior_loop (suc fuel) keys key first last =
    let middle = (first + last) / 2 in
    let right = interior_loop fuel keys key (middle + 1) last in
    let left = interior_loop fuel keys key first middle in
    let round : Option ℕ = elim (uint32_compare key (keys middle)) [
      | Ordering.gt ↦ right
      | Ordering.eq ↦ some (middle + 1)
      | Ordering.lt ↦ left
    ] in
    if ltb first last then round else some last

-- The branch of `vmtreeSearchNode` for interior nodes.
unfoldable pub search_interior : Geometry → Page → ℕ → Option ℕ
search_interior g p key =
    let count = get_count p in
    let loop = interior_loop (suc count) p.keys key 0 (min count g.max_interior) in
    if count == 0
    then some 0
    else if count == 1
    then (if is_negative (uint32_compare key (p.keys 0)) then some 0 else some 1)
    else loop

-- What the branch for leaves returns: `none` is -1.
abbrev pub Place : Type 0
Place = Option ℕ

-- The loop over the records of a leaf. `end` is `last + 1`, since `last` may be -1.
unfoldable pub leaf_loop : ℕ → Memory Record → (key first end : ℕ) → (range : Bool) → Option Place
leaf_loop zero records key first end range = none
leaf_loop (suc fuel) records key first end range =
    let middle = (first + end - 1) / 2 in
    let right = leaf_loop fuel records key (middle + 1) end range in
    let left = leaf_loop fuel records key first middle range in
    let round : Option Place = elim (uint32_compare (records middle).key key) [
      | Ordering.lt ↦ right
      | Ordering.eq ↦ some (some middle)
      | Ordering.gt ↦ left
    ] in
    if ltb first end
    then round
    else if range && not (end == 0)
    then some (some middle)
    else some none

-- The branch of `vmtreeSearchNode` for leaves.
unfoldable pub search_leaf : Page → ℕ → (range : Bool) → Option Place
search_leaf p key range =
    let count = get_count p in leaf_loop (suc count) p.records key 0 count range

-- `vmtreeSearchNode` in a tree of `levels` levels: a root of a single level is a leaf.
unfoldable pub search_node : Geometry → (levels : ℕ) → Page → ℕ → (range : Bool) → Option Place
unfolding search_interior search_leaf
search_node g levels p key range =
    if is_interior p && not (levels == 1)
    then elim (search_interior g p key) [ none ↦ none | some c ↦ some (some c) ]
    else search_leaf p key range

-- The index after a place: `childNum + 1`.
abbrev pub after : Place → ℕ
after none = 0
after (some c) = c + 1
