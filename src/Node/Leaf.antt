-- ===== src/Node/Leaf.antt =====
-- The leaf part of `vmtreePutRecord` in src/vmtree.c: a record is put into a page, or a full page
-- is split in two. `place` is `childNum`, the place that the search returned; its index after it is
-- where the new record goes. `count` is the number of records before.
pub mod Insert
pub mod Split
use vmtree.Base.{ℕ, ◌+◌, ◌-◌, Bool, Memory, update, move, make_room, ltb, ◌==◌, if◌then◌else◌}
use vmtree.Records.{Record}
use vmtree.Node.{Page, get_count, set_count, inc_count, mid_of}
use vmtree.Node.Search.{Place, after}

-- Lines of the page with space: shift the records down, copy the record, count it.
unfoldable pub insert_record : Page → Place → Record → Page
insert_record p place r =
    let count = get_count p in
    let pos = after place in
    let shifted = make_room p.records pos count in
    inc_count (record p { records = update shifted pos r })

-- Whether the record goes to the page with the smaller values: `childNum < mid`.
abbrev pub goes_left : ℕ → Place → Bool
goes_left count place = ltb (after place) (mid_of count + 1)

-- The page that is written first, when the record goes left.
unfoldable pub low_left : Page → Place → Record → Page
low_left p place r =
    let mid = mid_of (get_count p) in
    let pos = after place in
    let shifted = make_room p.records pos mid in
    record (set_count p (mid + 1)) { records = update shifted pos r }

-- The page that is written second: the buffered record `saved` goes to its start.
unfoldable pub low_right : Page → (count : ℕ) → (saved : Record) → Page
low_right buf count saved =
    let mid = mid_of count in
    record (set_count buf (count - mid)) {
      records = move (update buf.records 0 saved) 1 (mid + 1) (count - mid);
    }

-- The same two pages, when the record goes right.
unfoldable pub high_left : Page → Page
high_left p = set_count p (mid_of (get_count p) + 1)

unfoldable pub high_right : Page → (count : ℕ) → Place → Record → Page
high_right buf count place r =
    let mid = mid_of count in
    let child = after place - 1 in
    let front = if ltb mid child then move buf.records 0 (mid + 1) (child - mid) else buf.records in
    record (set_count buf (count - mid)) {
      records =
          move (update front (child - mid) r) (child - mid + 1) (child + 1) (count - child - 1);
    }

-- The page written first, the page written second (from the buffer that the first write leaves),
-- and the key that goes to the parent.
unfoldable pub split_left : Page → Place → Record → Page
unfolding low_left high_left
split_left p place r = if goes_left (get_count p) place then low_left p place r else high_left p

unfoldable pub split_right : (old : Page) → (buf : Page) → Place → Record → Page
unfolding low_right high_right
split_right old buf place r =
    let count = get_count old in
    if goes_left count place
    then low_right buf count (old.records (mid_of count))
    else high_right buf count place r

unfoldable pub promoted_key : Page → Place → Record → ℕ
promoted_key p place r =
    let mid = mid_of (get_count p) in
    if goes_left (get_count p) place
    then (p.records mid).key
    else if after place == mid + 1
    then r.key
    else (p.records (mid + 1)).key
