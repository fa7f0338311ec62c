-- ===== src/Storage/Flash.antt =====
-- src/dfStorage.c: pages in Dataflash. The chip's driver (lib/Dataflash) is a parameter: `Chip`
-- has its four operations, `ChipLaws` what the code relies on.
use vmtree.Base.{
  ℕ, zero, suc, ◌+◌, ◌-◌, ◌*◌, ◌%◌, ◌^◌, ◌≤◌, ◌<◌, ◌≡◌, ◌≢◌, refl, Option, none, some, Bool, true,
  false, ltb, leb, if◌then◌else◌, arith, ◌⊎◌, inl, inr, ◌∙◌, Bool-cases,
}

-- `dfread`, `dfwrite`, `dfwriteErase` and `dfErase`, by the number of the page on the chip.
pub record Chip (P C : Type 0) : Type 1 where
  pub df_read : C → ℕ → P
  pub df_write : C → ℕ → P → C
  pub df_write_erase : C → ℕ → P → C
  pub df_erase : C → ℕ → C
  -- the page can be written without erasing it
  pub IsErased : C → ℕ → Type 0

-- What the data sheet promises: a write goes to its page alone and is read back, if the page was
-- erased or is erased by the write.
pub record ChipLaws {P C : Type 0} (d : Chip P C) : Type 0 where
  pub read_write : (c : C) (n : ℕ) (p : P) → d.IsErased c n → d.df_read (d.df_write c n p) n ≡ p
  pub read_write_erase : (c : C) (n : ℕ) (p : P) → d.df_read (d.df_write_erase c n p) n ≡ p
  pub write_erased :
      (c : C) (n m : ℕ) (p : P) → n ≢ m → d.IsErased c m → d.IsErased (d.df_write c n p) m
  pub write_erase_erased :
      (c : C) (n m : ℕ) (p : P) → n ≢ m → d.IsErased c m → d.IsErased (d.df_write_erase c n p) m
  pub read_erase_other : (c : C) (n m : ℕ) → n ≢ m → d.df_read (d.df_erase c n) m ≡ d.df_read c m

pub record FlashStorage (C : Type 0) : Type 0 where
  pub chip : C
  -- the size in bytes
  pub size : ℕ
  pub page_size : ℕ
  pub page_offset : ℕ
  pub max_page_write : ℕ
  pub use_overwrite : Bool

-- `(pageNum+1)*pageSize > mem->size`
unfoldable pub flash_outside : {C : Type 0} → FlashStorage C → ℕ → Bool
flash_outside s n = ltb s.size ((n + 1) % 2 ^ 32 * s.page_size % 2 ^ 32)

-- `pageNum+mem->pageOffset`, of two `uint32_t`
abbrev pub chip_page : {C : Type 0} → FlashStorage C → ℕ → ℕ
chip_page s n = (n + s.page_offset) % 2 ^ 32

-- Two page numbers are those of two pages on the chip.
chip_page-ne :
    (n m offset : ℕ)
    → n < 2 ^ 32
    → m < 2 ^ 32
    → n ≢ m
    → (n + offset) % 2 ^ 32 ≢ (m + offset) % 2 ^ 32
chip_page-ne n m offset a b ne e = ne (omega arith)

module _ {P C : Type 0} (d : Chip P C) where
  -- `for (i = from; ...; i++) dfErase(i)` for `rounds` pages that are at most `max_page_write`
  unfoldable pub erase_loop : ℕ → (max from : ℕ) → C → C
  erase_loop zero max from c = c
  erase_loop (suc rounds) max from c =
      erase_loop rounds max (from + 1) (if leb from max then d.df_erase c from else c)

  -- the erasing part of `dfStorageInit`, which erases `pages` pages
  unfoldable pub flash_init : (pages : ℕ) → FlashStorage C → FlashStorage C
  unfolding erase_loop
  flash_init pages s = record s { max_page_write = 0; chip = erase_loop pages pages 0 s.chip }

  -- `dfStorageReadPage`
  unfoldable pub flash_read_page : FlashStorage C → ℕ → Option P
  unfolding flash_outside
  flash_read_page s n = if flash_outside s n then none else some (d.df_read s.chip (chip_page s n))

  -- `dfStorageWritePage`
  unfoldable pub flash_write_page : FlashStorage C → ℕ → P → FlashStorage C × Bool
  unfolding flash_outside
  flash_write_page s n p =
      let plain = d.df_write s.chip (chip_page s n) p in
      let erased = d.df_write_erase s.chip (chip_page s n) p in
      if flash_outside s n
      then (s, false)
      else if leb n s.max_page_write
      then (record s { chip = if s.use_overwrite then plain else erased }, true)
      else (record s { chip = plain; max_page_write = n }, true)

  -- `dfStorageErasePages`, pages `first` to `last`
  unfoldable pub flash_erase_pages : FlashStorage C → (first last : ℕ) → FlashStorage C
  unfolding erase_loop
  flash_erase_pages s first last = record s {
    chip = erase_loop (last + 1 - first) s.max_page_write first s.chip;
  }

  -- Pages above the largest that was written are erased.
  abbrev pub IsFresh : FlashStorage C → Type 0
  IsFresh s = (n : ℕ) → n < 2 ^ 32 → s.max_page_write < n → d.IsErased s.chip (chip_page s n)

  module _ (laws : ChipLaws d) where
    -- Without overwriting, where the pages above the largest one written are erased,
    -- `dfStorageWritePage` of a page, a number of 32 bits, inside the storage returns 0, the page is read back as written,
    -- and the pages above the largest one written are still erased.
    pub flash_read_page-flash_write_page :
        (s : FlashStorage C) (n : ℕ) (p : P)
        → n < 2 ^ 32
        → flash_outside s n ≡ false
        → s.use_overwrite ≡ false
        → IsFresh s
        → ((flash_write_page s n p).1 ≡ true)
          × (flash_read_page (flash_write_page s n p).0 n ≡ some p)
          × IsFresh (flash_write_page s n p).0
    unfolding flash_read_page flash_write_page flash_outside
    flash_read_page-flash_write_page s n p word inside no_overwrite fresh =
        let at = chip_page s n in
        elim (Bool-cases (leb n s.max_page_write)) [
          | inl old ↦ (
            rw (inside, old),
            rw (inside, old, no_overwrite)
                (rw inside (ground (arith, laws.read_write_erase s.chip at p))),
            rw (inside, old, no_overwrite)
                (λ m w h.
                  laws.write_erase_erased s.chip at (chip_page s m) p
                    (chip_page-ne n m s.page_offset word w (ground arith)) (fresh m w h)),
          )
          | inr new ↦ (
            rw (inside, new),
            rw (inside, new)
                (rw inside
                  (ground (arith, laws.read_write s.chip at p (fresh n word (ground arith))))),
            rw (inside, new)
                (λ m w h.
                  laws.write_erased s.chip at (chip_page s m) p
                    (chip_page-ne n m s.page_offset word w (omega arith))
                    (fresh m w (ground arith))),
          )
        ]

    erase_loop-other :
        (rounds max from : ℕ) (c : C) (m : ℕ)
        → (m < from) ⊎ (from + rounds ≤ m)
        → d.df_read (erase_loop rounds max from c) m ≡ d.df_read c m
    unfolding erase_loop
    erase_loop-other zero max from c m h = refl
    erase_loop-other (suc rounds) max from c m h =
        erase_loop-other rounds max (from + 1) _ m (next h) ∙ elim (Bool-cases (leb from max)) [
          | inl small ↦ rw small (laws.read_erase_other c from m (λ e. differs h e))
          | inr large ↦ rw large
        ]
      where
        next : (m < from) ⊎ (from + suc rounds ≤ m) → (m < from + 1) ⊎ (from + 1 + rounds ≤ m)
        next (inl l) = inl (omega arith)
        next (inr l) = inr (omega arith)

        differs : (m < from) ⊎ (from + suc rounds ≤ m) → from ≡ m → ⊥
        differs (inl l) e = omega arith
        differs (inr l) e = omega arith

    -- `dfStorageErasePages` leaves out the page offset that reads and writes add: with an offset
    -- beyond the last page to erase, no page of the storage changes, those to erase included. (The
    -- number of the page on the chip fits in 32 bits.)
    pub flash_erase_pages-misses :
        (s : FlashStorage C) (first last n : ℕ)
        → first ≤ last
        → last < s.page_offset
        → n + s.page_offset < 2 ^ 32
        → flash_read_page (flash_erase_pages s first last) n ≡ flash_read_page s n
    unfolding flash_read_page flash_erase_pages flash_outside
    flash_erase_pages-misses s first last n h off fits = ground (
      arith,
      erase_loop-other (last + 1 - first) s.max_page_write first s.chip (chip_page s n)
          (inr (omega arith)),
    )
