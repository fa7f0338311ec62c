-- ===== src/Storage.antt =====
-- src/storage.h: what the page buffer asks of a storage, and what a storage promises.
pub mod Mem
pub mod File
pub mod Flash
use vmtree.Base.{ℕ, ◌≡◌, ◌≢◌, Option, some, Bool, true}

-- The function pointers of `storageState`. `P` is what a page holds; `none` and `false` are -1.
pub record Device (P St : Type 0) : Type 0 where
  pub read_page : St → ℕ → Option P
  pub write_page : St → ℕ → P → St × Bool
  pub erase_pages : St → ℕ → ℕ → St

-- Reads after a write of a page that the storage has.
pub record Keeps {P St : Type 0} (d : Device P St) (has : St → ℕ → Type 0) : Type 0 where
  pub same : (s : St) (n : ℕ) (p : P) → has s n → d.read_page (d.write_page s n p).0 n ≡ some p
  pub other :
      (s : St) (n m : ℕ) (p : P)
      → has s n
      → has s m
      → n ≢ m
      → d.read_page (d.write_page s n p).0 m ≡ d.read_page s m

-- The erasing of one page leaves what is read from the others.
pub record Spares {P St : Type 0} (d : Device P St) : Type 0 where
  pub other : (s : St) (n m : ℕ) → n ≢ m → d.read_page (d.erase_pages s n n) m ≡ d.read_page s m
