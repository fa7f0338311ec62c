-- ===== src/Buffer/Erase.antt =====
-- `dbbufferEnsureSpace` and the erasing below it: what happens to the pages.
use vmtree.Base.{
  ℕ, zero, suc, ◌+◌, ◌-◌, ◌%◌, ◌^◌, ◌≡◌, ◌≢◌, refl, Bool, true, some, ltb, ◌==◌, arith, inl, inr,
  Bool-cases, ◌∙◌, ap, subst, if◌then◌else◌,
}
use vmtree.BitArr.Inside.{bitarr_get-inside, bitarr_set-again}
use vmtree.BitArr.Laws.{IsBytes, bitarr_set-IsBytes}
use vmtree.Mapping.{Mappings, get_mapping}
use vmtree.Node.{Page}
use vmtree.Storage.{Device, Spares}
use vmtree.Buffer.{
  Buffer, set_free, is_free, set_free_loop, erase_pages, is_valid, count_free, num_check,
  erase_unused, erase_block, ensure_space,
}

module _ {St : Type 0} (d : Device Page St) where
  -- What is left alone: the bits of `freePages`, and what the storage has in the pages in use.
  pub record IsSpared (b b' : Buffer St) : Type 0 where
    pub bits : (m : ℕ) → is_free d b' m ≡ is_free d b m
    pub reads : (m : ℕ) → is_free d b m ≡ 0 → d.read_page b'.storage m ≡ d.read_page b.storage m
    pub whole : IsBytes b'.free_pages
    pub rest : b' ≡ record b {
      storage = b'.storage;
      free_pages = b'.free_pages;
      erased_start_page = b'.erased_start_page;
      erased_end_page = b'.erased_end_page;
    }

  IsSpared-refl : (b : Buffer St) → IsBytes b.free_pages → IsSpared b b
  IsSpared-refl b w = record { bits = λ m. refl; reads = λ m e. refl; whole = w; rest = refl }

  IsSpared-trans : (a b c : Buffer St) → IsSpared a b → IsSpared b c → IsSpared a c
  IsSpared-trans a b c h k = record {
    bits = λ m. k.bits m ∙ h.bits m;
    reads = λ m e. k.reads m (h.bits m ∙ e) ∙ h.reads m e;
    whole = k.whole;
    rest =
        k.rest
        ∙ ap
            (λ (x : Buffer St). record x {
              storage = c.storage;
              free_pages = c.free_pages;
              erased_start_page = c.erased_start_page;
              erased_end_page = c.erased_end_page;
            })
            h.rest;
  }

  module _ (spares : Spares d) where
    erase_one :
        (b : Buffer St) (page : ℕ)
        → IsBytes b.free_pages
        → is_free d b page ≢ 0
        → IsSpared b (erase_pages d b page page)
    unfolding erase_pages set_free_loop set_free is_free
    erase_one b page w h =
        subst
          (λ n.
            IsSpared b
              (set_free_loop d n page (record b { storage = d.erase_pages b.storage page page })))
          one
          (record {
            bits = λ m. bitarr_set-again b.free_pages page m w h;
            reads = λ m e. spares.other b.storage page m (λ same. h (rw same e));
            whole =
                (bitarr_set-IsBytes b.free_pages page 1 (bitarr_get-inside b.free_pages page h)
                  w).0;
            rest = refl;
          })
      where
        one : 1 ≡ page + 1 - page
        one = omega arith

    erase_unused-IsSpared :
        (rounds : ℕ) (b : Buffer St) (t : Mappings) (page : ℕ)
        → IsBytes b.free_pages
        → IsSpared b (erase_unused d rounds b t page)
    unfolding erase_unused is_valid
    erase_unused-IsSpared zero b t page w = IsSpared-refl b w
    erase_unused-IsSpared (suc rounds) b t page w = elim (Bool-cases (is_free d b page == 0)) [
      | inl used ↦ rw (used, is_valid) (erase_unused-IsSpared rounds b t (page + 1) w)
      | inr free ↦
          let one = erase_one b page w (ground (arith, free)) in
          let step =
            IsSpared-trans b (erase_pages d b page page)
              (erase_unused d rounds (erase_pages d b page page) t (page + 1)) one
              (erase_unused-IsSpared rounds (erase_pages d b page page) t (page + 1) one.whole) in
          elim (Bool-cases (get_mapping t page == page)) [
            | inl own ↦ rw (free, own, is_valid) step
            | inr moved ↦ rw (free, moved, is_valid) step
          ]
    ]

    erase_block-IsSpared :
        (b : Buffer St) (t : Mappings) → IsBytes b.free_pages → IsSpared b (erase_block d b t)
    unfolding erase_block is_free
    erase_block-IsSpared b t w =
        let start = (b.erased_end_page + 1) % 2 ^ 32 in
        let end = (start + b.erase_size - 1) % 2 ^ 32 in
        let wraps = ltb b.end_data_page end in
        let first = if wraps then 0 else start in
        let last = if wraps then b.erase_size - 1 else end in
        let b1 : Buffer St = record b { erased_start_page = start } in
        let s = erase_unused-IsSpared (last + 1 - first) b1 t first w in
        record {
          bits = s.bits;
          reads = s.reads;
          whole = s.whole;
          rest = ap (λ (x : Buffer St). record x { erased_end_page = last }) s.rest;
        }

    -- When `dbbufferEnsureSpace` returns, no page in use is lost: what the storage has in each page in use is read as before. No
    -- bit of `freePages` is other than before, so that a page is in use afterwards exactly if it was; the page buffers and the rest of the buffer, less the
    -- marks of the erased pages, are as before. (The erasing of one page leaves the others.)
    pub ensure_space-IsSpared :
        (fuel : ℕ) (b : Buffer St) (t : Mappings) (pages : ℕ) {b' : Buffer St} {enough : Bool}
        → IsBytes b.free_pages
        → ensure_space d fuel b t pages ≡ some (b', enough)
        → IsSpared b b'
    unfolding ensure_space
    ensure_space-IsSpared zero b t pages w e = absurd cc
    ensure_space-IsSpared (suc fuel) b t pages {b' = b'} {enough = enough} w e =
        elim (Bool-cases (count_free d (suc (num_check d b)) b pages b.next_page_write_id 0)) [
          | inl there ↦
              (let both : some (b, true) ≡ some (b', enough) = rw (there, ensure_space) at e in
                let same : b ≡ b' = cc in subst (λ x. IsSpared b x) same (IsSpared-refl b w))
          | inr short ↦
              let block = erase_block-IsSpared b t w in
              let again : ensure_space d fuel (erase_block d b t) t pages ≡ some (b', enough) =
                rw (short, ensure_space) at e in
              IsSpared-trans b (erase_block d b t) b' block
                (ensure_space-IsSpared fuel (erase_block d b t) t pages block.whole again)
        ]
