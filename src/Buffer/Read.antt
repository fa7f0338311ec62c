-- ===== src/Buffer/Read.antt =====
-- `readPage`: what it returns, when the page buffers agree with the storage.
use vmtree.Base.{
  ℕ, zero, suc, ◌+◌, ◌-◌, ◌*◌, ◌%◌, ◌^◌, ◌≤◌, ◌<◌, ◌≡◌, ◌≢◌, refl, none, some, Memory, update, ltb,
  ◌==◌, arith, Option-cases, inl, inr, Bool-cases, ap, ◌∙◌,
}
use vmtree.Node.{Page}
use vmtree.Storage.{Device}
use vmtree.Buffer.{
  Buffer, inc32, find_buffer, find_empty, round_robin, read_page_buffer, choose_buffer, read_page,
}

-- What the search of the buffers finds, and what it misses.
pub find_buffer-some :
    (left : ℕ) (status : Memory ℕ) (page i : ℕ) {r : ℕ}
    → find_buffer left status page i ≡ some r
    → (i ≤ r) × (r < i + left) × (status r ≡ page) × (page ≢ 0)
unfolding find_buffer
find_buffer-some zero status page i e = cc
find_buffer-some (suc left) status page i {r = r} e =
    ground (arith, find_buffer-some left status page (i + 1) {r = r})

pub find_buffer-none :
    (left : ℕ) (status : Memory ℕ) (page i j : ℕ)
    → find_buffer left status page i ≡ none
    → i ≤ j
    → j < i + left
    → page ≢ 0
    → status j ≢ page
unfolding find_buffer
find_buffer-none zero status page i j e h k ne = absurd (omega arith)
find_buffer-none (suc left) status page i j e h k ne = elim (Bool-cases (i == j)) [
  | inl same ↦ ground (arith)
  | inr other ↦ ground (arith, find_buffer-none left status page (i + 1) j)
]

find_empty-lt :
    (left : ℕ) (status : Memory ℕ) (i : ℕ) {r : ℕ}
    → find_empty left status i ≡ some r
    → (i ≤ r) × (r < i + left)
unfolding find_empty
find_empty-lt zero status i e = cc
find_empty-lt (suc left) status i {r = r} e =
    ground (arith, find_empty-lt left status (i + 1) {r = r})

round_robin-lt :
    (fuel : ℕ) (status : Memory ℕ) (num hit i next : ℕ) {r n : ℕ}
    → 3 < num
    → 1 ≤ i
    → round_robin fuel status num hit i next ≡ some (r, n)
    → (1 ≤ r) × (r < num)
unfolding round_robin
round_robin-lt zero status num hit i next h k e = cc
round_robin-lt (suc fuel) status num hit i next {r = r} {n = n} h k e =
    elim (Bool-cases (ltb (num - 1) i)) [
      | inl w ↦ ground (arith, round_robin-lt fuel status num hit 3 2 {r = r} {n = n})
      | inr w ↦ ground (arith, round_robin-lt fuel status num hit (i + 1) next {r = r} {n = n})
    ]

module _ {St : Type 0} (d : Device Page St) where
  -- Each buffer with a page holds what the storage holds there, and no page is buffered twice.
  pub record IsCoherent (b : Buffer St) : Type 0 where
    pub agrees :
        (i : ℕ)
        → 1 ≤ i
        → i < b.num_pages
        → b.status i ≢ 0
        → d.read_page b.storage (b.status i) ≡ some (b.buffers i)
    pub once :
        (i j : ℕ)
        → 1 ≤ i
        → i < b.num_pages
        → 1 ≤ j
        → j < b.num_pages
        → b.status i ≢ 0
        → b.status i ≡ b.status j
        → i ≡ j

  -- A read from the storage into a buffer, once the page is known not to be buffered.
  load-IsCoherent :
      (b : Buffer St) (page i next : ℕ) (p : Page)
      → IsCoherent b
      → find_buffer (b.num_pages - 1) b.status page 1 ≡ none
      → d.read_page b.storage page ≡ some p
      → (n : ℕ)
      → IsCoherent (record b {
        status = update b.status i page;
        next_buffer_page = next;
        buffers = update b.buffers i p;
        num_reads = n;
      })
  load-IsCoherent b page i next p c absent found n = record {
    agrees = λ j h k ne. elim (Bool-cases (i == j)) [
      | inl same ↦ rw (same) found
      | inr other ↦ rw (other) (c.agrees j h k (rw other at ne))
    ];
    once = λ j k h1 h2 h3 h4 ne e. ground (
      arith,
      c.once j k,
      find_buffer-none (b.num_pages - 1) b.status page 1 j absent,
      find_buffer-none (b.num_pages - 1) b.status page 1 k absent,
    );
  }

  -- The buffer after a hit in page buffer `i`, and after a load into it.
  abbrev pub after_hit : Buffer St → ℕ → Buffer St
  after_hit b i = record b { buffer_hits = inc32 b.buffer_hits; last_hit = b.status i % 2 ^ 16 }

  abbrev pub after_load : Buffer St → (page i next : ℕ) → Page → Buffer St
  after_load b page i next p = record b {
    status = update b.status i page;
    next_buffer_page = next;
    buffers = update b.buffers i p;
    num_reads = inc32 b.num_reads;
  }

  -- What a read that returned says, by the way it took.
  data Way (b : Buffer St) (page : ℕ) (b' : Buffer St) (slot : ℕ) : Type 0 where
    hit :
        find_buffer (b.num_pages - 1) b.status page 1 ≡ some slot
        → after_hit b slot ≡ b'
        → Way b page b' slot
    load :
        (next : ℕ)
        → (p : Page) → find_buffer (b.num_pages - 1) b.status page 1 ≡ none
        → d.read_page b.storage page ≡ some p
        → after_load b page slot next p ≡ b'
        → Way b page b' slot

  ways :
      (b b' : Buffer St) (root page slot : ℕ)
      → read_page d b root page ≡ some (b', some slot)
      → Way b page b' slot
  unfolding read_page read_page_buffer
  ways b b' root page slot e = elim (Option-cases (find_buffer (b.num_pages - 1) b.status page 1)) [
    | inr (i, found) ↦
        let both : some (after_hit b i, some i) ≡ some (b', some slot) =
          rw (found, read_page) at e in
        let same : i ≡ slot = cc in
        let after : after_hit b i ≡ b' = cc in hit (found ∙ ap some same) (rw same at after)
    | inl miss ↦ elim (Option-cases (choose_buffer d b root page)) [
      | inl stuck ↦
          (let bad : none ≡ some (b', some slot) = rw (miss, stuck, read_page) at e in absurd cc)
      | inr ((i, next), chosen) ↦ elim (Option-cases (d.read_page b.storage page)) [
        | inl failed ↦
            (let bad : some
                    (record b { status = update b.status i page; next_buffer_page = next }, none)
                  ≡ some (b', some slot) =
                rw (miss, chosen, failed, read_page, read_page_buffer) at e in
              absurd cc)
        | inr (p, found) ↦
            let both : some (after_load b page i next p, some i) ≡ some (b', some slot) =
              rw (miss, chosen, found, read_page, read_page_buffer) at e in
            let same : i ≡ slot = cc in
            let after : after_load b page i next p ≡ b' = cc in
            load next p miss found (rw same at after)
      ]
    ]
  ]

  -- When the page buffers agree with the storage and `readPage` returns a page buffer, that has the
  -- page that the storage holds, and the storage and the agreement are left as they were.
  pub read_page-reads :
      (b b' : Buffer St) (root page slot : ℕ)
      → IsCoherent b
      → read_page d b root page ≡ some (b', some slot)
      → (d.read_page b.storage page ≡ some (b'.buffers slot))
        × (b'.storage ≡ b.storage)
        × IsCoherent b'
  read_page-reads b b' root page slot c e = elim (ways b b' root page slot e) [
    | hit found same ↦
        let at = find_buffer-some (b.num_pages - 1) b.status page 1 found in
        rw (← same) (
          rw (at.2) at (c.agrees slot at.0 (omega (arith, at.1)) (rw (at.2) at.3)),
          refl,
          record { agrees = c.agrees; once = c.once },
        )
    | load next p miss found same ↦ rw (← same) (
      found ∙ ap some (ground arith),
      refl,
      load-IsCoherent b page slot next p c miss found (inc32 b.num_reads),
    )
  ]

  -- The buffer chosen for a page is neither the write buffer 0 nor outside the array. (There are
  -- two buffers or more, and `nextBufferPage` is not 0.)
  pub choose_buffer-inside :
      (b : Buffer St) (root page : ℕ) {i n : ℕ}
      → 2 ≤ b.num_pages
      → 1 ≤ b.next_buffer_page
      → choose_buffer d b root page ≡ some (i, n)
      → (1 ≤ i) × (i < b.num_pages)
  unfolding choose_buffer
  choose_buffer-inside b root page {i = i} {n = n} num pos e =
      elim (Option-cases (find_empty (b.num_pages - 2) b.status 2)) [
        | inl full ↦ ground (
          arith,
          full,
          round_robin-lt (2 * b.num_pages) b.status b.num_pages b.last_hit b.next_buffer_page
              (b.next_buffer_page + 1) {r = i} {n = n},
        )
        | inr (j, empty) ↦
            ground (arith, empty, find_empty-lt (b.num_pages - 2) b.status 2 {r = j} empty)
      ]

  -- The buffer after a read that failed.
  abbrev pub after_failure : Buffer St → (page i next : ℕ) → Buffer St
  after_failure b page i next = record b {
    status = update b.status i page;
    next_buffer_page = next;
  }

  -- A page other than 0 that is not buffered, and that the storage refuses: `readPage` returns no
  -- page, but the same call on the buffer that it leaves is a hit and returns a page buffer,
  -- without a read from the storage. (There are two buffers or more, `nextBufferPage` is not 0, and
  -- a buffer is chosen.)
  pub read_page-after_failure :
      (b : Buffer St) (root page i n : ℕ)
      → 2 ≤ b.num_pages
      → 1 ≤ b.next_buffer_page
      → 0 < page
      → find_buffer (b.num_pages - 1) b.status page 1 ≡ none
      → choose_buffer d b root page ≡ some (i, n)
      → d.read_page b.storage page ≡ none
      → (read_page d b root page ≡ some (after_failure b page i n, none))
        × ((j : ℕ) × (read_page d (after_failure b page i n) root page
              ≡ some (after_hit (after_failure b page i n) j, some j)))
  unfolding read_page read_page_buffer
  read_page-after_failure b root page i n num next pos miss chosen failed =
      let inside = choose_buffer-inside b root page num next chosen in
      let marked = find_buffer (b.num_pages - 1) (update b.status i page) page 1 in
      (
        rw (miss, chosen, failed, read_page, read_page_buffer) refl,
        elim (Option-cases marked) [
          | inl lost ↦ absurd (
              find_buffer-none (b.num_pages - 1) (update b.status i page) page 1 i lost inside.0
                (omega (arith, inside)) (omega arith) (ground arith))
          | inr (j, found) ↦ (j, rw (found, read_page) refl)
        ],
      )
