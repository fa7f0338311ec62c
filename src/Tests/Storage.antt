-- ===== src/Tests/Storage.antt =====
-- src/bitarr.c and the storages at concrete inputs.
use vmtree.Base.{
  ℕ, zero, suc, Bool, none, ◌≡◌, ◌==◌, refl, true, false, some, Memory, update, arith,
  if◌then◌else◌, replicate,
}
use vmtree.BitArr.{BitArr}
use vmtree.BitArr.Laws.{IsBytes}
use vmtree.Storage.Mem.{MemStorage, mem_read_page, mem_write_page, mem_read_page-mem_write_page}
use vmtree.Storage.File.{Files, FileStorage}
use vmtree.Storage.Flash.{
  Chip, ChipLaws, FlashStorage, IsFresh, flash_outside, flash_read_page, flash_write_page,
  flash_erase_pages, flash_read_page-flash_write_page, flash_erase_pages-misses,
}

-- Two bytes, all ones.
abbrev pub ones : BitArr
ones = replicate 2 255

pub ones-IsBytes : IsBytes ones
ones-IsBytes zero = omega arith
ones-IsBytes (suc zero) = omega arith
ones-IsBytes (suc (suc i)) = omega arith

-- Eight pages of 512 bytes.
abbrev eight_pages : MemStorage ℕ
eight_pages = record { size = 4096; page_size = 512; pages = λ i. i }

mem_read_page-mem_write_page_example :
    ((mem_write_page eight_pages 7 42).1 ≡ true)
    × (mem_read_page (mem_write_page eight_pages 7 42).0 3 ≡ some (if 7 == 3 then 42 else 3))
mem_read_page-mem_write_page_example =
    mem_read_page-mem_write_page eight_pages 7 3 42 (omega arith, omega arith, omega arith)
      (omega arith, omega arith, omega arith)

-- Files that can be read and written while they are open.
abbrev plain_files : Files ℕ (Bool × Memory ℕ)
plain_files = record {
  read_at = λ f n. if f.0 then some (f.1 n) else none;
  write_at = λ f n p. if f.0 then some ((true, update f.1 n p), 1) else none;
}

abbrev ten_files : FileStorage (Bool × Memory ℕ)
ten_files = record { files = λ i. (true, λ n. n); file_size = 100 }

-- A chip on which an erased page holds 0.
abbrev plain_chip : Chip ℕ (Memory ℕ)
plain_chip = record {
  df_read = λ c n. c n;
  df_write = λ c n p. update c n p;
  df_write_erase = λ c n p. update c n p;
  df_erase = λ c n. update c n 0;
  IsErased = λ c n. c n ≡ 0;
}

plain_chip-ChipLaws : ChipLaws plain_chip
plain_chip-ChipLaws = record {
  read_write = λ c n p e. ground arith;
  read_write_erase = λ c n p. ground arith;
  write_erased = λ c n m p ne e. ground arith;
  write_erase_erased = λ c n m p ne e. ground arith;
  read_erase_other = λ c n m ne. ground arith;
}

abbrev fresh_flash : FlashStorage (Memory ℕ)
fresh_flash = record {
  chip = λ i. 0;
  size = 4096;
  page_size = 512;
  page_offset = 10;
  max_page_write = 2;
  use_overwrite = false;
}

flash_read_page-flash_write_page_example :
    ((flash_write_page plain_chip fresh_flash 5 42).1 ≡ true)
    × (flash_read_page plain_chip (flash_write_page plain_chip fresh_flash 5 42).0 5 ≡ some 42)
    × IsFresh plain_chip (flash_write_page plain_chip fresh_flash 5 42).0
unfolding flash_outside
flash_read_page-flash_write_page_example =
    flash_read_page-flash_write_page plain_chip plain_chip-ChipLaws fresh_flash 5 42 (omega arith)
      refl refl (λ n h k. refl)

flash_erase_pages-misses_example :
    flash_read_page plain_chip (flash_erase_pages plain_chip fresh_flash 1 2) 0
    ≡ flash_read_page plain_chip fresh_flash 0
flash_erase_pages-misses_example =
    flash_erase_pages-misses plain_chip plain_chip-ChipLaws fresh_flash 1 2 0 (omega arith)
      (omega arith) (omega arith)
