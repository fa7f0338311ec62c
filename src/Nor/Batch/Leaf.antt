-- ===== src/Nor/Batch/Leaf.antt =====
-- `vmtreePutNorOverwriteBatch` of src/vmtree.c on a tree of one leaf that has room for the log.
use vmtree.Base.{
  ℕ, zero, suc, ◌+◌, ◌-◌, ◌<◌, ◌≡◌, ◌≢◌, refl, Bool, true, false, Option, none, some, Memory, ◌==◌,
  if◌then◌else◌, arith, Option-cases, Bool-cases, ◌≤◌, inl, inr, ◌∙◌, sym, ap,
}
use vmtree.Records.{Record}
use vmtree.Sort.{in_memory_sort}
use vmtree.Node.{Page}
use vmtree.Storage.{Device, Keeps}
use vmtree.Buffer.{Buffer, read_page_buffer, overwrite_page}
use vmtree.Tree.{Tree, page_in, put_page, with_buffer}
use vmtree.Tree.Batch.{Log, Cursor, write_now}
use vmtree.Nor.{NorPage, NorGeometry, leaf_limit, is_live}
use vmtree.Nor.Leaf.{append_record}
use vmtree.Nor.Put.Append.{
  IsFillable, append_record-Appended, append_record-IsFillable, overwrite_page-storage, filled,
}
use vmtree.Nor.Batch.{batch_down_nor, locate_nor, batch_put_nor, batch_loop_nor, put_nor_batch}

-- The leaf after `count` records from `idx` on, each in the first empty location.
unfoldable pub append_all : (count : ℕ) → NorGeometry → NorPage → Memory Record → ℕ → Option NorPage
append_all zero g p m idx = some p
append_all (suc count) g p m idx = elim (append_record g p (m idx).key (m idx).value) [
  | none ↦ none
  | some q ↦ append_all count g q m (idx + 1)
]

append_all-first :
    (count : ℕ) (g : NorGeometry) (p : NorPage) (m : Memory Record) (idx : ℕ) {n : NorPage}
    → append_all (suc count) g p m idx ≡ some n
    → (q : NorPage) × (append_record g p (m idx).key (m idx).value ≡ some q)
      × (append_all count g q m (idx + 1) ≡ some n)
unfolding append_all
append_all-first count g p m idx {n = n} e =
    elim (Option-cases (append_record g p (m idx).key (m idx).value)) [
      | inl full ↦ (let bad : none ≡ some n = rw (full, append_all) at e in absurd cc)
      | inr (q, room) ↦ (q, room, rw (room, append_all) at e)
    ]

-- The page `n` has the `count` records from `idx` on, and the records of `p`.
pub record Placed (limit : ℕ) (p n : NorPage) (m : Memory Record) (idx count : ℕ) : Type 0 where
  pub each :
      (i : ℕ)
      → i < count
      → (loc : ℕ) × (loc < limit)
        × (is_live n loc ≡ true)
        × (n.keys loc ≡ (m (idx + i)).key)
        × (n.values loc ≡ (m (idx + i)).value)
  pub kept :
      (j : ℕ)
      → j < limit
      → is_live p j ≡ true
      → (is_live n j ≡ true) × (n.keys j ≡ p.keys j) × (n.values j ≡ p.values j)

append_all-Placed :
    (count : ℕ) (g : NorGeometry) (p : NorPage) (m : Memory Record) (idx : ℕ) {n : NorPage}
    → IsFillable (leaf_limit g) p
    → append_all count g p m idx ≡ some n
    → Placed (leaf_limit g) p n m idx count
unfolding append_all
append_all-Placed zero g p m idx {n = n} ready e =
    let both : some p ≡ some n = e in
    let same : p ≡ n = cc in
    rw (← same)
      (record { each = λ i lt. absurd (omega (arith, lt)); kept = λ j lt live. (live, refl, refl) })
append_all-Placed (suc count) g p m idx {n = n} ready e =
    let (q, room, rest) = append_all-first count g p m idx e in
    let key = (m idx).key in
    let value = (m idx).value in
    let a = append_record-Appended g p key value {q = q} ready.maps ready.valid room in
    let more =
      append_all-Placed count g q m (idx + 1) {n = n}
        (append_record-IsFillable g p key value {q = q} ready room) rest in
    let (alive, keys, values) = more.kept a.loc a.inside a.live in
    record {
      each = λ i lt. elim (Bool-cases (i == 0)) [
        | inl first ↦
            let at : m idx ≡ m (idx + i) = ap m (ground (arith, first)) in
            (
              a.loc,
              a.inside,
              alive,
              keys ∙ a.has_key ∙ ap (λ x. x.key) at,
              values ∙ a.has_value ∙ ap (λ x. x.value) at,
            )
        | inr later ↦
            let above : 1 ≤ i = ground (arith, later) in
            let at : m (idx + 1 + (i - 1)) ≡ m (idx + i) = ap m (omega (arith, above)) in
            let (loc, inside, live, has_key, has_value) =
              more.each (i - 1) (omega (arith, above, lt)) in
            (loc, inside, live, has_key ∙ ap (λ x. x.key) at, has_value ∙ ap (λ x. x.value) at)
      ];
      kept = λ j lt live.
          let other : j ≢ a.loc = ground (arith, a.was_empty, live) in
          let (at_first, keys1, values1) = a.others j lt other in
          let (now, keys2, values2) = more.kept j lt (at_first ∙ live) in
          (now, keys2 ∙ keys1, values2 ∙ values1);
    }

module _ {St : Type 0} (d : Device Page St) (g : NorGeometry) where
  -- The tree with the leaf that the append gives, and then with it written.
  abbrev noted : Tree St → NorPage → Tree St
  noted t q = put_page t 0 (record (page_in t 0) { nor = q })

  abbrev stored : Tree St → (page : ℕ) → NorPage → Tree St
  stored t page q = with_buffer (noted t q) (overwrite_page d (noted t q).buffer 0 page)

  batch_loop_nor-step :
      (left : ℕ) (t : Tree St) (log : Log) (idx page key : ℕ) (write search : Bool) {q : NorPage}
      → append_record g (page_in t 0).nor (log.records idx).key (log.records idx).value ≡ some q
      → write_now log t.levels idx key ≡ (write, search)
      → batch_loop_nor d g
          (suc left)
          t
          log
          idx
          (record { page = page; must_search = false; parent_key = key })
        ≡ batch_loop_nor d g left
            (if write then stored t page q else noted t q)
            log
            (idx + 1)
            (record { page = page; must_search = search; parent_key = key })
  unfolding batch_loop_nor locate_nor batch_put_nor
  batch_loop_nor-step left t log idx page key write search e w =
      rw (batch_loop_nor, batch_put_nor, e, w) refl

  -- The rest of the log, in a tree of one level with its leaf in page buffer 0: only the last
  -- record writes.
  batch_loop_nor-appends :
      (left : ℕ) (t : Tree St) (log : Log) (idx page key : ℕ) {n : NorPage}
      → t.levels ≡ 1
      → idx + suc left ≡ log.num_records
      → append_all (suc left) g (page_in t 0).nor log.records idx ≡ some n
      → (t' : Tree St) × (batch_loop_nor d g
            (suc left)
            t
            log
            idx
            (record { page = page; must_search = false; parent_key = key })
          ≡ some (t', true))
        × (t'.buffer.storage
            ≡ (d.write_page t.buffer.storage page (record (page_in t 0) { nor = n })).0)
  unfolding append_all write_now batch_loop_nor
  batch_loop_nor-appends zero t log idx page key {n = n} one total e =
      let (q, room, rest) = append_all-first 0 g (page_in t 0).nor log.records idx e in
      let same : q ≡ n = cc in
      let last : write_now log t.levels idx key ≡ (true, false) = ground (arith, total) in
      (
        stored t page q,
        rw (batch_loop_nor-step 0 t log idx page key true false room last) refl,
        (overwrite_page-storage d (noted t q).buffer 0 page).0
            ∙ ap (λ x. (d.write_page t.buffer.storage page (record (page_in t 0) { nor = x })).0)
                same,
      )
  batch_loop_nor-appends (suc left) t log idx page key {n = n} one total e =
      let (q, room, rest) = append_all-first (suc left) g (page_in t 0).nor log.records idx e in
      let more : write_now log t.levels idx key ≡ (false, false) = ground (arith, total, one) in
      let (t', went, held) =
        batch_loop_nor-appends left (noted t q) log (idx + 1) page key {n = n} one
          (omega (arith, total)) rest in
      (t', batch_loop_nor-step (suc left) t log idx page key false false room more ∙ went, held)

  locate_nor-root :
      (t : Tree St) (p : Page) (key : ℕ)
      → t.levels ≡ 1
      → d.read_page t.buffer.storage (t.active_path 0) ≡ some p
      → locate_nor d g t (record { page = t.active_path 0; must_search = true; parent_key = 0 }) key
        ≡ some (
          filled d t p,
          some (record { page = t.active_path 0; must_search = false; parent_key = 0 }),
        )
  unfolding locate_nor batch_down_nor read_page_buffer with_buffer
  locate_nor-root t p key one held =
      let page = t.active_path 0 in
      let read : read_page_buffer d t.buffer page 0 ≡ ((filled d t p).buffer, true) =
        rw (held, read_page_buffer) refl in
      let down : batch_down_nor d g (t.levels - 1) t key 0 page 0 ≡ some (t, some (page, 0)) =
        ap (λ (l : ℕ). batch_down_nor d g (l - 1) t key 0 page 0) one in
      let start : Cursor = record { page = page; must_search = false; parent_key = 0 } in
      rw (down, locate_nor, read)
        (ap (λ (x : Buffer St × Bool). some (with_buffer t x.0, some start)) read)

  -- The first search in a tree of one level, whose leaf the storage holds.
  batch_loop_nor-first :
      (left : ℕ) (t : Tree St) (log : Log) (p : Page)
      → t.levels ≡ 1
      → d.read_page t.buffer.storage (t.active_path 0) ≡ some p
      → batch_loop_nor d g
          (suc left)
          t
          log
          0
          (record { page = t.active_path 0; must_search = true; parent_key = 0 })
        ≡ batch_loop_nor d g
            (suc left)
            (filled d t p)
            log
            0
            (record { page = t.active_path 0; must_search = false; parent_key = 0 })
  unfolding batch_loop_nor
  batch_loop_nor-first left t log p one held =
      rw (locate_nor-root t p (log.records 0).key one held, batch_loop_nor) refl

  module _ {has : St → ℕ → Type 0} (keeps : Keeps d has) where
    -- `vmtreePutNorOverwriteBatch` on a tree of one leaf that the storage holds and that has room
    -- for every record of the log: the code returns 0, the storage then holds the leaf with the
    -- records appended in the order of the sort, so that each has a location and those that were
    -- there keep theirs, and every other page is as it was. (The storage has the page and keeps
    -- what is written, the sort gives the records of the log in `m`, the bitmaps of the leaf have
    -- their bits, and its empty locations are marked as valid.)
    pub put_nor_batch-appends :
        (t : Tree St) (log : Log) (m : Memory Record) (p : Page) (left : ℕ) {n : NorPage} {err : ℕ}
        → t.levels ≡ 1
        → log.num_records ≡ suc left
        → in_memory_sort true log.records log.num_records 1 ≡ some (err, m)
        → d.read_page t.buffer.storage (t.active_path 0) ≡ some p
        → has t.buffer.storage (t.active_path 0)
        → IsFillable (leaf_limit g) p.nor
        → append_all (suc left) g p.nor m 0 ≡ some n
        → (t' : Tree St) × (put_nor_batch d g true t log
            ≡ some (t', record log { records = m }, true))
          × (d.read_page t'.buffer.storage (t.active_path 0) ≡ some (record p { nor = n }))
          × Placed (leaf_limit g) p.nor n m 0 (suc left)
          × ((i : ℕ)
              → has t.buffer.storage i
              → i ≢ t.active_path 0
              → d.read_page t'.buffer.storage i ≡ d.read_page t.buffer.storage i)
    unfolding put_nor_batch
    put_nor_batch-appends t log m p left {n = n} one total sorted held there ready e =
        let now : Log = record log { records = m } in
        let page = t.active_path 0 in
        let (t', went, kept) =
          batch_loop_nor-appends left (filled d t p) now 0 page 0 {n = n} one (omega (arith, total))
            e in
        let start : Cursor = record { page = page; must_search = true; parent_key = 0 } in
        let all : batch_loop_nor d g log.num_records t now 0 start ≡ some (t', true) =
          ap (λ (x : ℕ). batch_loop_nor d g x t now 0 start) total
          ∙ batch_loop_nor-first left t now p one held
          ∙ went in
        (
          t',
          rw (sorted, put_nor_batch, all) refl,
          ap (λ x. d.read_page x page) kept
              ∙ keeps.same t.buffer.storage page (record p { nor = n }) there,
          append_all-Placed (suc left) g p.nor m 0 ready e,
          λ i h ne.
              ap (λ x. d.read_page x i) kept
              ∙ keeps.other t.buffer.storage page i (record p { nor = n }) there h
                  (λ e. ne (sym e)),
        )
