-- ===== src/Buffer/Allocate.antt =====
-- The allocation of physical pages in src/dbbuffer.c: the next page to write, and the space.
use vmtree.Base.{
  Memory, ℕ, zero, suc, ◌+◌, ◌-◌, ◌≤◌, ◌<◌, ◌≡◌, ◌≢◌, Bool, true, none, some, ltb, leb, ◌==◌,
  if◌then◌else◌, arith, Option-cases, inl, inr, Bool-cases, sym,
}
use vmtree.Mapping.{Mappings, get_mapping}
use vmtree.Node.{Page}
use vmtree.Storage.{Device, Keeps}
use vmtree.Buffer.{
  Buffer, inc32, is_free, next_valid_loop, next_valid_page, count_free, num_check, erase_block,
  ensure_space, write_page, write_page_direct, set_valid,
}

module _ {St : Type 0} (d : Device Page St) where
  -- A page that may be written: it is a page of the storage that is free, and no mapping leads from
  -- it to another page.
  pub record IsWritable (b : Buffer St) (t : Mappings) (page : ℕ) : Type 0 where
    pub exists : page ≤ b.end_data_page
    pub free : is_free d b page ≢ 0
    pub unmapped : get_mapping t page ≡ page

  -- The contents of the page buffers do not matter.
  pub IsWritable-buffers :
      (b : Buffer St) (t : Mappings) (f : Memory Page) {q : ℕ}
      → IsWritable b t q
      → IsWritable (record b { buffers = f }) t q
  unfolding is_free
  IsWritable-buffers b t f w = record { exists = w.exists; free = w.free; unmapped = w.unmapped }

  next_valid_loop-IsWritable :
      (fuel : ℕ) (b : Buffer St) (t : Mappings) (page : ℕ) {r : ℕ}
      → next_valid_loop d fuel b t page ≡ some r
      → (r ≤ b.end_data_page) × (is_free d b r ≢ 0) × (get_mapping t r ≡ r)
  unfolding next_valid_loop
  next_valid_loop-IsWritable zero b t page e = cc
  next_valid_loop-IsWritable (suc fuel) b t page {r = r} e =
      elim (Bool-cases (ltb b.end_data_page page)) [
        | inl w ↦ ground (arith, next_valid_loop-IsWritable fuel b t 1 {r = r})
        | inr w ↦ ground (arith, next_valid_loop-IsWritable fuel b t (page + 1) {r = r})
      ]

  -- How many pages the loop looks at before it looks at `q`.
  abbrev distance : Buffer St → (page q : ℕ) → ℕ
  distance b page q =
      if leb page q
      then q - page
      else if leb page b.end_data_page
      then b.end_data_page + 1 - page + q
      else q

  next_valid_loop-finds :
      (fuel : ℕ) (b : Buffer St) (t : Mappings) (page q : ℕ)
      → q ≤ b.end_data_page
      → is_free d b q ≢ 0
      → get_mapping t q ≡ q
      → distance b page q < fuel
      → next_valid_loop d fuel b t page ≢ none
  unfolding next_valid_loop
  next_valid_loop-finds zero b t page q h free un near = absurd (omega arith)
  next_valid_loop-finds (suc fuel) b t page q h free un near =
      elim (Bool-cases (ltb b.end_data_page page)) [
        | inl w ↦ ground (arith, next_valid_loop-finds fuel b t 1 q h free un)
        | inr w ↦ ground (arith, next_valid_loop-finds fuel b t (page + 1) q h free un)
      ]

  -- The free pages among the `rounds` pages from `page` on, around the end of the storage.
  abbrev pub free_in : ℕ → Buffer St → (page : ℕ) → ℕ
  free_in zero b page = 0
  free_in (suc rounds) b page =
      let at = if ltb b.end_data_page page then 0 else page in
      (if is_free d b at == 0 then 0 else 1) + free_in rounds b (at + 1)

  count_free-free_in :
      (rounds : ℕ) (b : Buffer St) (pages page num : ℕ)
      → count_free d rounds b pages page num ≡ true
      → pages ≤ num + free_in rounds b page
  unfolding count_free
  count_free-free_in zero b pages page num e = cc
  count_free-free_in (suc rounds) b pages page num e =
      elim (Bool-cases (ltb b.end_data_page page)) [
        | inl w ↦ ground (
          arith,
          count_free-free_in rounds b pages 1 num,
          count_free-free_in rounds b pages 1 (num + 1),
        )
        | inr w ↦ ground (
          arith,
          count_free-free_in rounds b pages (page + 1) num,
          count_free-free_in rounds b pages (page + 1) (num + 1),
        )
      ]

  -- What `dbbufferNextValidPage` returns is a page that may be written, and it keeps it as the last
  -- page written; and it does return, when some page of the storage may be written.
  pub next_valid_page-IsWritable :
      (b : Buffer St) (t : Mappings)
      → ((b' : Buffer St) (page : ℕ)
          → next_valid_page d b t ≡ some (b', page)
          → IsWritable b t page × (b' ≡ record b { next_page_write_id = page }))
        × ((q : ℕ) → IsWritable b t q → next_valid_page d b t ≢ none)
  unfolding next_valid_page
  next_valid_page-IsWritable b t =
      elim (Option-cases
        (next_valid_loop d (b.end_data_page + 3) b t (inc32 b.next_page_write_id))) [
          | inl stuck ↦ (
            λ b' page e.
                (let bad : none ≡ some (b', page) = rw (stuck, next_valid_page) at e in absurd cc),
            λ q w. absurd (
                next_valid_loop-finds (b.end_data_page + 3) b t (inc32 b.next_page_write_id) q
                  w.exists w.free w.unmapped (near q w.exists) stuck),
          )
          | inr (r, found) ↦ (
            λ b' page e.
                (let both : some (record b { next_page_write_id = r }, r) ≡ some (b', page) =
                    rw (found, next_valid_page) at e in
                  let same : r ≡ page = cc in
                  let after : record b { next_page_write_id = r } ≡ b' = cc in
                  let w =
                    next_valid_loop-IsWritable (b.end_data_page + 3) b t
                      (inc32 b.next_page_write_id) found in
                  (rw (← same) (writable r w.0 w.1 w.2), sym (rw same at after))),
            λ q w. rw (found, next_valid_page) (λ e. cc),
          )
        ]
    where
      writable :
          (r : ℕ) → r ≤ b.end_data_page → is_free d b r ≢ 0 → get_mapping t r ≡ r → IsWritable b t r
      writable r h k m = record { exists = h; free = k; unmapped = m }

      near :
          (q : ℕ)
          → q ≤ b.end_data_page
          → distance b (inc32 b.next_page_write_id) q < b.end_data_page + 3
      near q h = ground arith

  enough-free :
      (rounds : ℕ) (b : Buffer St) (pages page : ℕ)
      → count_free d rounds b pages page 0 ≡ true
      → pages ≤ free_in rounds b page
  enough-free rounds b pages page e = omega (arith, count_free-free_in rounds b pages page 0 e)

  -- Whatever `dbbufferEnsureSpace` returns, it is not 0, and the pages it looks at, from the next
  -- page to write up to the erased pages, have as many free ones as were asked for.
  pub ensure_space-free_in :
      (fuel : ℕ) (b : Buffer St) (t : Mappings) (pages : ℕ) {b' : Buffer St} {found : Bool}
      → ensure_space d fuel b t pages ≡ some (b', found)
      → (found ≡ true) × (pages ≤ free_in (suc (num_check d b')) b' b'.next_page_write_id)
  unfolding ensure_space
  ensure_space-free_in zero b t pages e = cc
  ensure_space-free_in (suc fuel) b t pages {b' = b'} {found = found} e =
      elim (Bool-cases (count_free d (suc (num_check d b)) b pages b.next_page_write_id 0)) [
        | inl enough ↦
            let both : some (b, true) ≡ some (b', found) = rw (enough, ensure_space) at e in
            let after : b ≡ b' = cc in
            let yes : found ≡ true = cc in
            (
              yes,
              rw (← after) (enough-free (suc (num_check d b)) b pages b.next_page_write_id enough),
            )
        | inr short ↦
            ensure_space-free_in fuel (erase_block d b t) t pages (rw (short, ensure_space) at e)
      ]

module _ {St : Type 0} (d : Device Page St) {has : St → ℕ → Type 0} (keeps : Keeps d has) where
  -- Every page up to the last data page is a page of the storage.
  abbrev pub HasPages : Buffer St → Type 0
  HasPages b = (n : ℕ) → n ≤ b.end_data_page → has b.storage n

  -- `writePage` returns when some page may be written.
  pub write_page-returns :
      (b : Buffer St) (t : Mappings) (slot q : ℕ)
      → IsWritable d b t q
      → write_page d b t slot ≢ none
  unfolding write_page
  write_page-returns b t slot q w = elim (Option-cases (next_valid_page d b t)) [
    | inl stuck ↦ absurd ((next_valid_page-IsWritable d b t).1 q w stuck)
    | inr ((c, r), found) ↦ rw (found, write_page) (λ e. cc)
  ]

  -- When `writePage` of a page buffer returns: the page was free and no mapping led from it, the
  -- storage then holds the contents of the page buffer there, with the next logical id in its
  -- header, and every other page of the storage is as it was. (The storage has every page up to the
  -- last and keeps what is written.)
  pub write_page-writes :
      (b b' : Buffer St) (t : Mappings) (slot page : ℕ)
      → HasPages b
      → write_page d b t slot ≡ some (b', page)
      → IsWritable d b t page
        × (d.read_page b'.storage page ≡ some (record (b.buffers slot) { id = b.next_page_id }))
        × ((m : ℕ)
            → m ≤ b.end_data_page
            → m ≢ page
            → d.read_page b'.storage m ≡ d.read_page b.storage m)
  unfolding write_page write_page_direct set_valid
  write_page-writes b b' t slot page all e = elim (Option-cases (next_valid_page d b t)) [
    | inl stuck ↦ (let bad : none ≡ some (b', page) = rw (stuck, write_page) at e in absurd cc)
    | inr ((c, r), found) ↦
        let w = (next_valid_page-IsWritable d b t).0 c r found in
        let both : some (write_page_direct d c slot r, r) ≡ some (b', page) =
          rw (found, write_page) at e in
        let same : r ≡ page = cc in
        let after : write_page_direct d c slot r ≡ b' = cc in
        let p = record (b.buffers slot) { id = b.next_page_id } in
        rw (← after, ← same, w.1)
          (
            w.0,
            keeps.same b.storage r p (all r w.0.exists),
            λ m h ne. keeps.other b.storage r m p (all r w.0.exists) (all m h) (λ e. ne (sym e)),
          )
  ]
