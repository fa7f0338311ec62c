-- ===== src/Tree/Insert/Written.antt =====
-- The root page of a tree of one level in the storage, and the page buffers when it is written.
use vmtree.Base.{
  ℕ, zero, suc, ◌+◌, ◌-◌, ◌≤◌, ◌<◌, ◌≡◌, ◌≢◌, refl, none, some, Memory, update, ltb, if◌then◌else◌,
  arith, inl, inr, Option-cases, ap, sym, ◌∙◌, subst,
}
use vmtree.Records.{Record}
use vmtree.Node.{Page}
use vmtree.Storage.{Device, Keeps}
use vmtree.Buffer.{
  Buffer, inc32, set_valid, next_valid_loop, next_valid_page, write_page, write_page_direct,
  is_free,
}
use vmtree.Buffer.Returns.{IsReady}
use vmtree.Tree.{Tree}
use vmtree.Tree.Shape.{IsLeaf, IsTree, InTree, InTree-leaf}
use vmtree.Tree.Answers.{Has}
use vmtree.Tree.Insert.Grown.{Stands}

same_page : {p q : Page} → some p ≡ some q → p ≡ q
same_page e = cc

module _ {St : Type 0} (d : Device Page St) where
  -- The choice of the page to write does not look at the page buffers.
  next_valid_loop-buffers :
      (fuel : ℕ) (b : Buffer St) (c : Memory Page) (n : ℕ) (page : ℕ) (t : Tree St)
      → next_valid_loop d fuel (record b { buffers = c; num_reads = n }) t.table page
        ≡ next_valid_loop d fuel b t.table page
  unfolding next_valid_loop is_free
  next_valid_loop-buffers zero b c n page t = refl
  next_valid_loop-buffers (suc fuel) b c n page t =
      rw (next_valid_loop-buffers fuel b c n ((if ltb b.end_data_page page then 0 else page) + 1) t)
        refl

  pub write_page-buffers :
      (b b' : Buffer St) (c : Memory Page) (n next : ℕ) (t : Tree St)
      → next_valid_page d b t.table ≡ some (b', next)
      → write_page d (record b { buffers = c; num_reads = n }) t.table 0
        ≡ some (
          write_page_direct d
              (record b { buffers = c; num_reads = n; next_page_write_id = next })
              0
              next,
          next,
        )
  unfolding write_page next_valid_page
  write_page-buffers b b' c n next t e =
      elim (Option-cases
        (next_valid_loop d (b.end_data_page + 3) b t.table (inc32 b.next_page_write_id))) [
          | inl stuck ↦
              (let bad : none ≡ some (b', next) = rw (stuck, next_valid_page) at e in absurd cc)
          | inr (r, found) ↦
              let both : some (record b { next_page_write_id = r }, r) ≡ some (b', next) =
                rw (found, next_valid_page) at e in
              let same : r ≡ next = cc in
              let moved =
                next_valid_loop-buffers (b.end_data_page + 3) b c n (inc32 b.next_page_write_id)
                  t in
              rw (moved ∙ found, next_valid_page, write_page, same) refl
        ]

  -- A tree of one level is its root page.
  pub root-IsLeaf :
      (t : Tree St) (p : Page)
      → t.levels ≡ 1
      → d.read_page t.buffer.storage (t.active_path 0) ≡ some p
      → IsTree t.table
          (d.read_page t.buffer.storage)
          t.geometry
          (t.levels - 1)
          (t.active_path 0)
          0
          none
      → IsLeaf p 0 none
  unfolding IsTree
  root-IsLeaf t p one held tree =
      let (q, held', leaf) : IsTree t.table (d.read_page t.buffer.storage) t.geometry 0
          (t.active_path 0) 0 none =
        rw one at tree in
      subst (λ (x : Page). IsLeaf x 0 none) (same_page (sym held' ∙ held)) leaf

  pub root-IsTree :
      (t : Tree St) (p : Page)
      → t.levels ≡ 1
      → d.read_page t.buffer.storage (t.active_path 0) ≡ some p
      → IsLeaf p 0 none
      → IsTree t.table
          (d.read_page t.buffer.storage)
          t.geometry
          (t.levels - 1)
          (t.active_path 0)
          0
          none
  unfolding IsTree
  root-IsTree t p one held leaf =
      subst
        (λ n.
          IsTree t.table (d.read_page t.buffer.storage) t.geometry (n - 1) (t.active_path 0) 0 none)
        (sym one) (p, held, leaf)

  pub root-Has :
      (t : Tree St) (p : Page) (x : Record)
      → t.levels ≡ 1
      → d.read_page t.buffer.storage (t.active_path 0) ≡ some p
      → (Has d t x → Stands p x) × (Stands p x → Has d t x)
  unfolding InTree
  root-Has t p x one held = (
    λ inn.
        InTree-leaf t.geometry t.table (d.read_page t.buffer.storage) (t.active_path 0) p x held (
          subst (λ n. InTree t.table (d.read_page t.buffer.storage) (n - 1) (t.active_path 0) x) one
            inn),
    λ stands.
        subst (λ n. InTree t.table (d.read_page t.buffer.storage) (n - 1) (t.active_path 0) x)
          (sym one) (p, held, stands),
  )

  -- A page buffer that does not hold the page written stays in agreement with the storage.
  module _ {has : St → ℕ → Type 0} (keeps : Keeps d has) where
    pub IsReady-write :
        (b : Buffer St) (c : Memory Page) (n w : ℕ) (next : ℕ)
        → IsReady d b
        → ((i : ℕ) → 1 ≤ i → b.buffers i ≡ c i)
        → has b.storage next
        → ((i : ℕ)
            → 1 ≤ i
            → i < b.num_pages
            → b.status i ≢ 0
            → (b.status i ≢ next) × has b.storage (b.status i))
        → IsReady d (
            write_page_direct d
              (record b { buffers = c; num_reads = n; next_page_write_id = w })
              0
              next)
    unfolding write_page_direct set_valid
    IsReady-write b c n w next ready same_buffers there apart = record {
      coherent = record {
        agrees = λ i h k ne.
            keeps.other b.storage next (b.status i) (record (c 0) { id = b.next_page_id }) there
              (apart i h k ne).1 (λ e. (apart i h k ne).0 (sym e))
            ∙ ready.coherent.agrees i h k ne
            ∙ ap some (kept i h (same_buffers i h));
        once = ready.coherent.once;
      };
      pages = ready.pages;
      next = ready.next;
    }
      where
        kept :
            (i : ℕ)
            → 1 ≤ i
            → b.buffers i ≡ c i
            → b.buffers i ≡ update c 0 (record (c 0) { id = b.next_page_id }) i
        kept i h e = ground (arith, e)
