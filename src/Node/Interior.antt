-- ===== src/Node/Interior.antt =====
-- The interior part of `vmtreePutRecord` in src/vmtree.c: a child of a node has been split in two,
-- and the key between the halves goes into the node, or a full node is split. `c` is `childNum`,
-- the number of the pointer to the old child. `count` is the number of keys before.
pub mod Insert
pub mod Slots
pub mod Split
use vmtree.Base.{
  ℕ, suc, ◌+◌, ◌-◌, ◌/◌, ◌%◌, Bool, Memory, update, move, make_room, ltb, ◌==◌, if◌then◌else◌,
}
use vmtree.Node.{
  Page, get_count, set_count, inc_count, set_interior, set_root, mid_of, prev_id_constant,
}

-- A key with the pages on its two sides.
pub record Separator : Type 0 where
  pub key : ℕ
  pub left : ℕ
  pub right : ℕ

-- A node with space: the key is put at `c`, and two pointers take the place of one.
unfoldable pub insert_child : Page → ℕ → Separator → Page
insert_child p c s =
    let count = get_count p in
    inc_count (record p {
      keys = update (move p.keys (c + 1) c (count - c)) c s.key;
      pointers =
          update (update (move p.pointers (c + 1) c (count - c + 1)) c s.left) (c + 1) s.right;
    })

-- Whether the key goes to the page with the smaller values: `childNum < mid`.
abbrev pub goes_low : ℕ → ℕ → Bool
goes_low count c = ltb c (mid_of count)

-- `mid` after `if (count % 2 == 0) mid--`
abbrev pub low_mid : ℕ → ℕ
low_mid count = if count % 2 == 0 then mid_of count - 1 else mid_of count

-- The header of the page that is written first. The pointers are updated after this and before
-- `split_left`.
unfoldable pub left_header : Page → ℕ → Page
left_header p c =
    let count = get_count p in
    set_interior (set_count p (if goes_low count c then low_mid count + 1 else mid_of count))

-- The page that is written first, when the key goes low: keys and pointers are shifted up to `mid`.
unfoldable pub low_left : Page → (count c : ℕ) → Separator → Page
low_left p count c s =
    let mid = low_mid count in
    let pointers = if ltb c mid then move p.pointers (c + 2) (c + 1) (mid - c) else p.pointers in
    record p {
      keys = update (make_room p.keys c mid) c s.key;
      pointers = update (update pointers c s.left) (c + 1) s.right;
    }

-- The page that is written second, from the buffer of the first; `saved` is the buffered pointer.
unfoldable pub low_right : Page → (count saved : ℕ) → Page
low_right buf count saved =
    let mid = low_mid count in
    let pointers = update buf.pointers 0 saved in
    set_interior (
      set_count
        (record buf {
          keys = move buf.keys 0 (mid + 1) (count - mid - 1);
          pointers = move pointers 1 (mid + 2) (count - mid - 1);
        })
        (count - mid - 1))

-- The same two pages, when the key goes high. The second is filled by `memcpy`, here as `memmove`
-- does it: with an odd count and the key at the middle the ranges of the last two copies overlap.
unfoldable pub high_left : Page → (count c : ℕ) → Separator → Page
high_left p count c s =
    let mid = mid_of count in
    record p { pointers = if c == mid then update p.pointers mid s.left else p.pointers }

unfoldable pub high_right : Page → (count c : ℕ) → Separator → Page
high_right buf count c s =
    let mid = mid_of count in
    let front = ltb (mid + 1) c in
    let keys0 = if front then move buf.keys 0 (mid + 1) (c - mid - 1) else buf.keys in
    let pointers0 = if front then move buf.pointers 0 (mid + 1) (c - mid - 1) else buf.pointers in
    let keys1 = if ltb mid c then update keys0 (c - mid - 1) s.key else keys0 in
    let pointers1 = if ltb mid c then update pointers0 (c - mid - 1) s.left else pointers0 in
    let pointers2 = update pointers1 (c - mid) s.right in
    let back = ltb c count in
    set_interior (
      set_count
        (record buf {
          keys = if back then move keys1 (c - mid) c (count - c) else keys1;
          pointers = if back then move pointers2 (c - mid + 1) (c + 1) (count - c) else pointers2;
        })
        (count - mid))

-- The page written first and the page written second, once `left_header` is set and the pointers
-- are updated: `p` is the page at that time, `buf` the buffer after the first write.
unfoldable pub split_left : Page → (count c : ℕ) → Separator → Page
unfolding low_left high_left
split_left p count c s = if goes_low count c then low_left p count c s else high_left p count c s

unfoldable pub split_right : (p buf : Page) → (count c : ℕ) → Separator → Page
unfolding low_right high_right
split_right p buf count c s =
    if goes_low count c
    then low_right buf count (p.pointers (low_mid count + 1))
    else high_right buf count c s

-- The key that goes on to the parent.
unfoldable pub promoted_key : Page → (count c : ℕ) → Separator → ℕ
promoted_key p count c s =
    if goes_low count c
    then p.keys (low_mid count)
    else if c == mid_of count
    then s.key
    else p.keys (mid_of count)

-- `VMTREE_SET_COUNT(buf, 1); VMTREE_SET_ROOT(buf)` and the key and pointers of a new root.
unfoldable pub new_root : (blank : Page) → Separator → Page
new_root blank s = record (set_root (set_count blank 1)) {
  prev = prev_id_constant;
  keys = update blank.keys 0 s.key;
  pointers = update (update blank.pointers 0 s.left) 1 s.right;
}
