-- ===== src/Buffer/Returns.antt =====
-- The return of `readPage` in src/dbbuffer.c, and of the round robin in it.
use vmtree.Base.{
  ℕ, zero, suc, ◌+◌, ◌-◌, ◌*◌, ◌≤◌, ◌<◌, ◌≡◌, ◌≢◌, refl, none, some, Memory, ltb, leb, ◌==◌,
  if◌then◌else◌, arith, Option-cases, Bool-cases, inl, inr, sym, ◌∙◌,
}
use vmtree.Node.{Page}
use vmtree.Storage.{Device}
use vmtree.Buffer.{
  Buffer, find_buffer, find_empty, round_robin, choose_buffer, read_page, read_page_buffer,
}
use vmtree.Buffer.Read.{IsCoherent, read_page-reads, after_hit, after_load}

-- How many buffers the round robin looks at before it looks at `j`.
abbrev away : (num i j : ℕ) → ℕ
away num i j = if leb i j then j - i else if ltb i num then num - i + (j - 2) else j - 2

round_robin-finds :
    (fuel : ℕ) (status : Memory ℕ) (num hit i next j : ℕ)
    → 2 ≤ j
    → j < num
    → status j ≢ hit
    → away num i j < fuel
    → round_robin fuel status num hit i next ≢ none
unfolding round_robin
round_robin-finds zero status num hit i next j h k ne near = absurd (omega arith)
round_robin-finds (suc fuel) status num hit i next j h k ne near =
    elim (Bool-cases (ltb (num - 1) i)) [
      | inl w ↦ ground (arith, round_robin-finds fuel status num hit 3 2 j h k ne)
      | inr w ↦ ground (arith, round_robin-finds fuel status num hit (i + 1) next j h k ne)
    ]

find_empty-none :
    (left : ℕ) (status : Memory ℕ) (i j : ℕ)
    → find_empty left status i ≡ none
    → i ≤ j
    → j < i + left
    → status j ≢ 0
unfolding find_empty
find_empty-none zero status i j e h k = absurd (omega arith)
find_empty-none (suc left) status i j e h k = elim (Bool-cases (i == j)) [
  | inl same ↦ ground arith
  | inr other ↦ ground (arith, find_empty-none left status (i + 1) j)
]

round_robin-next :
    (fuel : ℕ) (status : Memory ℕ) (num hit i next : ℕ) {r n : ℕ}
    → 1 ≤ next
    → round_robin fuel status num hit i next ≡ some (r, n)
    → 1 ≤ n
unfolding round_robin
round_robin-next zero status num hit i next h e = cc
round_robin-next (suc fuel) status num hit i next {r = r} {n = n} h e =
    elim (Bool-cases (ltb (num - 1) i)) [
      | inl w ↦ ground (arith, round_robin-next fuel status num hit 3 2 {r = r} {n = n})
      | inr w ↦ ground (arith, round_robin-next fuel status num hit (i + 1) next {r = r} {n = n})
    ]

same_page : {p q : Page} → some p ≡ some q → p ≡ q
same_page e = cc

module _ {St : Type 0} (d : Device Page St) where
  -- What a page buffer keeps: agreement with the storage, two buffers or more, and a
  -- `nextBufferPage` behind the write buffer.
  pub record IsReady (b : Buffer St) : Type 0 where
    pub coherent : IsCoherent d b
    pub pages : 2 ≤ b.num_pages
    pub next : 1 ≤ b.next_buffer_page

  choose_buffer-next :
      (b : Buffer St) (root page : ℕ) {i n : ℕ}
      → 1 ≤ b.next_buffer_page
      → choose_buffer d b root page ≡ some (i, n)
      → 1 ≤ n
  unfolding choose_buffer
  choose_buffer-next b root page {i = i} {n = n} pos e =
      elim (Option-cases (find_empty (b.num_pages - 2) b.status 2)) [
        | inl full ↦ ground (
          arith,
          full,
          round_robin-next (2 * b.num_pages) b.status b.num_pages b.last_hit b.next_buffer_page
              (b.next_buffer_page + 1) {r = i} {n = n},
        )
        | inr (j, empty) ↦ ground (arith, empty)
      ]

  -- With four buffers or more, 2 and 3 hold different pages, of which one is not the last hit.
  choose_buffer-returns :
      (b : Buffer St) (root page : ℕ) → IsReady b → choose_buffer d b root page ≢ none
  unfolding choose_buffer
  choose_buffer-returns b root page r e =
      let loop =
        round_robin-finds (2 * b.num_pages) b.status b.num_pages b.last_hit b.next_buffer_page
          (b.next_buffer_page + 1) in
      elim (Option-cases (find_empty (b.num_pages - 2) b.status 2)) [
        | inr (j, empty) ↦ ground (arith, empty)
        | inl full ↦ ground (
          arith,
          full,
          loop 2,
          loop 3,
          find_empty-none (b.num_pages - 2) b.status 2 2 full,
          find_empty-none (b.num_pages - 2) b.status 2 3 full,
          r.coherent.once 2 3,
        )
      ]

  -- The fields of `a` that a read may change, and the others of `b`.
  abbrev pub read_fields : (b a : Buffer St) → Buffer St
  read_fields b a = record b {
    buffers = a.buffers;
    status = a.status;
    next_buffer_page = a.next_buffer_page;
    num_reads = a.num_reads;
    buffer_hits = a.buffer_hits;
    last_hit = a.last_hit;
  }

  -- What a read that succeeds gives: a page buffer with the page, over the same storage.
  pub record Reads (b : Buffer St) (root page : ℕ) (p : Page) : Type 0 where
    pub after : Buffer St
    pub slot : ℕ
    pub run : read_page d b root page ≡ some (after, some slot)
    pub found : after.buffers slot ≡ p
    pub storage : after.storage ≡ b.storage
    pub rest : after ≡ read_fields b after
    pub ready : IsReady after

  -- When the page buffers agree with the storage, there are two or more, and `nextBufferPage` is
  -- not 0, then `readPage` of a page that the storage holds returns a page buffer with that page,
  -- leaves the storage and the fields that are not about the page buffers, and the same is true of
  -- the buffers after it.
  pub read_page-Reads :
      (b : Buffer St) (root page : ℕ) (p : Page)
      → IsReady b
      → d.read_page b.storage page ≡ some p
      → Reads b root page p
  unfolding read_page read_page_buffer
  read_page-Reads b root page p r held =
      elim (Option-cases (find_buffer (b.num_pages - 1) b.status page 1)) [
        | inr (i, hit) ↦
            let run : read_page d b root page ≡ some (after_hit d b i, some i) =
              rw (hit, read_page) refl in
            let reads = read_page-reads d b (after_hit d b i) root page i r.coherent run in
            record {
              after = after_hit d b i;
              slot = i;
              run = run;
              found = same_page (sym reads.0 ∙ held);
              storage = refl;
              rest = refl;
              ready = record { coherent = reads.2; pages = r.pages; next = r.next };
            }
        | inl miss ↦ elim (Option-cases (choose_buffer d b root page)) [
          | inl stuck ↦ absurd (choose_buffer-returns b root page r stuck)
          | inr ((i, n), chosen) ↦
              let out = after_load d b page i n p in
              let run : read_page d b root page ≡ some (out, some i) =
                rw (miss, chosen, held, read_page, read_page_buffer) refl in
              let reads = read_page-reads d b out root page i r.coherent run in
              record {
                after = out;
                slot = i;
                run = run;
                found = ground arith;
                storage = refl;
                rest = refl;
                ready = record {
                  coherent = reads.2;
                  pages = r.pages;
                  next = choose_buffer-next b root page r.next chosen;
                };
              }
        ]
      ]
