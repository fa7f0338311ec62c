-- ===== src/Storage/Mem.antt =====
-- src/memStorage.c: pages in main memory. All calls use one page size, so the byte array is an
-- array of pages; page numbers and byte counts are `uint32_t`.
use vmtree.Base.{
  ℕ, ◌+◌, ◌-◌, ◌*◌, ◌%◌, ◌^◌, ◌≤◌, ◌<◌, ◌≡◌, refl, Option, none, some, Bool, true, false, Memory,
  update, ltb, ◌==◌, if◌then◌else◌, arith, ap, ◌∙◌,
}
use vmtree.Storage.{Device, Keeps}
use native.Mathlib.Nat.{mod-eq_of_lt}

pub record MemStorage (P : Type 0) : Type 0 where
  -- the size in bytes
  pub size : ℕ
  pub page_size : ℕ
  pub pages : Memory P

-- `(pageNum+1)*pageSize > mem->size`
unfoldable pub is_outside : {P : Type 0} → MemStorage P → ℕ → Bool
is_outside s n = ltb s.size ((n + 1) % 2 ^ 32 * s.page_size % 2 ^ 32)

module _ {P : Type 0} where
  -- `memStorageReadPage`
  unfoldable pub mem_read_page : MemStorage P → ℕ → Option P
  unfolding is_outside
  mem_read_page s n = if is_outside s n then none else some (s.pages n)

  -- `memStorageWritePage`
  unfoldable pub mem_write_page : MemStorage P → ℕ → P → MemStorage P × Bool
  unfolding is_outside
  mem_write_page s n p =
      if is_outside s n then (s, false) else (record s { pages = update s.pages n p }, true)

  -- The page lies inside the storage.
  abbrev pub HasPage : MemStorage P → ℕ → Type 0
  HasPage s n = (s.size < 2 ^ 32) × (0 < s.page_size) × ((n + 1) * s.page_size ≤ s.size)

  inside : (s : MemStorage P) (n : ℕ) → HasPage s n → is_outside s n ≡ false
  unfolding is_outside
  inside s n (small, pos, h) =
      fits ((n + 1) % 2 ^ 32) ((n + 1) % 2 ^ 32 * s.page_size % 2 ^ 32) (omega arith) (grind arith)
    where
      fits : (a b : ℕ) → a ≡ a → b ≤ s.size → ltb s.size b ≡ false
      fits a b e l = ground arith

  -- A write of a page that lies in the storage succeeds, and a read of a page in the storage then
  -- gives what was written there, or what the page held before if it is another page.
  pub mem_read_page-mem_write_page :
      (s : MemStorage P) (n m : ℕ) (p : P)
      → HasPage s n
      → HasPage s m
      → ((mem_write_page s n p).1 ≡ true)
        × (mem_read_page (mem_write_page s n p).0 m ≡ some (if n == m then p else s.pages m))
  unfolding mem_read_page mem_write_page is_outside
  mem_read_page-mem_write_page s n m p hn hm =
      let at_n = inside s n hn in let at_m = inside s m hm in (rw at_n, rw at_n (rw at_m))

  mem_read_page-inside :
      (s : MemStorage P) (n : ℕ) → HasPage s n → mem_read_page s n ≡ some (s.pages n)
  unfolding mem_read_page
  mem_read_page-inside s n h = rw (inside s n h) refl

  -- A page whose number and byte range do not wrap, but which lies outside the storage, is refused
  -- by both calls, and the refused write changes nothing.
  pub mem_page_outside :
      (s : MemStorage P) (n : ℕ) (p : P)
      → n + 1 < 2 ^ 32
      → (n + 1) * s.page_size < 2 ^ 32
      → s.size < (n + 1) * s.page_size
      → (mem_read_page s n ≡ none) × (mem_write_page s n p ≡ (s, false))
  unfolding mem_read_page mem_write_page is_outside
  mem_page_outside s n p h k out = (rw (refused _ (wraps h k)), rw (refused _ (wraps h k)))
    where
      wraps :
          n + 1 < 2 ^ 32
          → (n + 1) * s.page_size < 2 ^ 32
          → (n + 1) % 2 ^ 32 * s.page_size % 2 ^ 32 ≡ (n + 1) * s.page_size
      wraps h k = rw (mod-eq_of_lt h, mod-eq_of_lt k)

      refused : (b : ℕ) → b ≡ (n + 1) * s.page_size → ltb s.size b ≡ true
      refused b e = ground arith

  -- The last page number passes the test of every storage, since `pageNum + 1` wraps to 0: a read
  -- of it does not fail, whatever the size.
  pub mem_read_page-wraps :
      (s : MemStorage P) → mem_read_page s (2 ^ 32 - 1) ≡ some (s.pages (2 ^ 32 - 1))
  unfolding mem_read_page is_outside
  mem_read_page-wraps s = ground arith

module _ {P : Type 0} where
  -- The memory as a storage; it has no `erasePages`, which is left here as a call without effect.
  abbrev pub mem_device : Device P (MemStorage P)
  mem_device = record {
    read_page = mem_read_page;
    write_page = mem_write_page;
    erase_pages = λ s first last. s;
  }

  -- It keeps what is written to the pages it has.
  pub mem_device-Keeps : Keeps mem_device HasPage
  mem_device-Keeps = record {
    same = λ s n p h. (mem_read_page-mem_write_page s n n p h h).1 ∙ ap some (ground (arith));
    other = λ s n m p h k ne.
        ground (arith, mem_read_page-mem_write_page s n m p h k, mem_read_page-inside s m k);
  }
