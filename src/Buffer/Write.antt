-- ===== src/Buffer/Write.antt =====
-- The writes of src/dbbuffer.c and the agreement of the page buffers with the storage.
use vmtree.Base.{
  ℕ, ◌-◌, ◌≤◌, ◌<◌, ◌≡◌, ◌≢◌, false, some, ◌==◌, arith, Option-cases, inl, inr, Bool-cases, ◌∙◌,
  sym,
}
use vmtree.Node.{Page}
use vmtree.Storage.{Device, Keeps}
use vmtree.Buffer.{Buffer, find_buffer, write_page_direct, set_valid, overwrite_page}
use vmtree.Buffer.Read.{IsCoherent, find_buffer-some, find_buffer-none}

not_zero : (j : ℕ) → 1 ≤ j → (j == 0) ≡ false
not_zero j h = ground arith

module _ {St : Type 0} (d : Device Page St) {has : St → ℕ → Type 0} (keeps : Keeps d has) where
  -- `overWritePage` of page buffer 0 to a page of the storage other than 0 keeps the page buffers
  -- in agreement with the storage, whether or not the page is buffered, and the storage then has
  -- the page. (The storage keeps what is written, and has the pages that are buffered.)
  pub overwrite_page-IsCoherent :
      (b : Buffer St) (page : ℕ)
      → IsCoherent d b
      → 0 < page
      → has b.storage page
      → ((i : ℕ) → 1 ≤ i → i < b.num_pages → b.status i ≢ 0 → has b.storage (b.status i))
      → IsCoherent d (overwrite_page d b 0 page)
        × (d.read_page (overwrite_page d b 0 page).storage page ≡ some (b.buffers 0))
  unfolding overwrite_page
  overwrite_page-IsCoherent b page c pos there all =
      elim (Option-cases (find_buffer (b.num_pages - 1) b.status page 1)) [
        | inl miss ↦
            rw (miss, overwrite_page)
              (
                record {
                  agrees = λ i h k ne.
                      keeps.other b.storage page (b.status i) (b.buffers 0) there (all i h k ne)
                        (λ e.
                          find_buffer-none (b.num_pages - 1) b.status page 1 i miss h (omega arith)
                            (omega arith) (sym e))
                      ∙ c.agrees i h k ne;
                  once = c.once;
                },
                keeps.same b.storage page (b.buffers 0) there,
              )
        | inr (j, hit) ↦
            let at = find_buffer-some (b.num_pages - 1) b.status page 1 hit in
            let written = b.buffers 0 in
            rw (hit, overwrite_page, not_zero j at.0)
              (
                record {
                  agrees = λ i h k ne. elim (Bool-cases (j == i)) [
                    | inl same ↦
                        (let here : b.status i ≡ page = ground (arith, at) in
                          rw (same, here) (keeps.same b.storage page written there))
                    | inr other ↦ rw (other) (
                        keeps.other b.storage page (b.status i) written there (all i h k ne)
                          (λ e. ground (arith, at, c.once i j h k))
                        ∙ c.agrees i h k ne)
                  ];
                  once = c.once;
                },
                keeps.same b.storage page written there,
              )
      ]

  -- `writePageDirect` of page buffer 0 does not look for the page in the page buffers: where the
  -- page, of a storage that keeps what is written, was in page buffer `i` with another id than the
  -- next, it is found there still, and is not what the storage holds.
  pub write_page_direct-stale :
      (b : Buffer St) (page : ℕ) {i : ℕ}
      → find_buffer (b.num_pages - 1) b.status page 1 ≡ some i
      → has b.storage page
      → (b.buffers i).id ≢ b.next_page_id
      → (find_buffer
            ((write_page_direct d b 0 page).num_pages - 1)
            (write_page_direct d b 0 page).status
            page
            1
          ≡ some i)
        × (d.read_page (write_page_direct d b 0 page).storage page
            ≢ some ((write_page_direct d b 0 page).buffers i))
  unfolding write_page_direct set_valid
  write_page_direct-stale b page {i = i} hit there differs = (
    hit,
    λ e. ground (
      arith,
      find_buffer-some (b.num_pages - 1) b.status page 1 hit,
      keeps.same b.storage page (record (b.buffers 0) { id = b.next_page_id }) there,
    ),
  )
