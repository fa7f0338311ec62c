-- ===== src/Storage/File.antt =====
-- src/fileStorage.c with MULTIFILE, as src/fileStorage.h sets it: pages in ten files.
-- The C library's files are a parameter: `Files` says what the code uses of them.
use vmtree.Base.{
  ℕ, ◌+◌, ◌-◌, ◌*◌, ◌/◌, ◌%◌, ◌^◌, ◌<◌, ◌≡◌, ◌≢◌, Option, none, some, Bool, true, false, Memory,
  update, leb, ◌==◌, if◌then◌else◌, arith, not, sym, ap, ◌∙◌,
}
use mathlib.Core.Path.{ap₂}
use native.Mathlib.Nat.{div-add-mod}

-- Files of pages of one size. `fseek` to the offset of a page and `fread` of one page: `none` if
-- either fails. `fseek` and `fwrite` of one page: `none` if `fseek` fails, and else the file and
-- how many pages `fwrite` has written.
pub record Files (P F : Type 0) : Type 0 where
  pub read_at : F → ℕ → Option P
  pub write_at : F → ℕ → P → Option (F × ℕ)

-- What the manuals of `fseek`, `fread` and `fwrite` say of an open file on a disk with room: a write
-- of one page returns 1, is read back, and leaves the other pages of the file.
pub record FilesLaws {P F : Type 0} (fs : Files P F) (IsOpen : F → Type 0) : Type 0 where
  pub written :
      (f : F) (at : ℕ) (p : P)
      → IsOpen f
      → (f' : F) × (fs.write_at f at p ≡ some (f', 1))
        × (fs.read_at f' at ≡ some p)
        × ((m : ℕ) → m ≢ at → fs.read_at f' m ≡ fs.read_at f m)
        × IsOpen f'

abbrev pub num_files : ℕ
num_files = 10

pub record FileStorage (F : Type 0) : Type 0 where
  pub files : Memory F
  -- pages in each file
  pub file_size : ℕ

-- `getFile`: the number of the file and the page number in it. `idx` is an `uint8_t`.
unfoldable pub get_file : (file_size page : ℕ) → ℕ × ℕ
get_file file_size page =
    let idx = page / file_size % 2 ^ 8 in
    (if leb num_files idx then num_files - 1 else idx, page % file_size)

module _ {P F : Type 0} (fs : Files P F) where
  -- `fileStorageReadPage`
  unfoldable pub file_read_page : FileStorage F → ℕ → Option P
  unfolding get_file
  file_read_page s page = let (idx, at) = get_file s.file_size page in fs.read_at (s.files idx) at

  -- `fileStorageWritePage`: the storage, and whether it returned 0
  unfoldable pub file_write_page : FileStorage F → ℕ → P → FileStorage F × Bool
  unfolding get_file
  file_write_page s page p =
      let (idx, at) = get_file s.file_size page in
      elim (fs.write_at (s.files idx) at p) [
        | none ↦ (s, false)
        | some (f, result) ↦
            (record s { files = update s.files idx f }, if not (result == 0) then false else true)
      ]

  -- `fileStorageErasePages`
  unfoldable pub file_erase_pages : FileStorage F → (first last : ℕ) → FileStorage F
  file_erase_pages s first last = s

quotient_small : (size a : ℕ) → 0 < size → a < num_files * size → a / size < num_files
quotient_small size a pos h = grind arith

file_number :
    (size a : ℕ)
    → 0 < size
    → a < num_files * size
    → ((get_file size a).0 ≡ a / size) × ((get_file size a).1 ≡ a % size)
unfolding get_file
file_number size a pos h = ground (arith, quotient_small size a pos h)

-- `getFile` gives two different pages, both below ten times the size of a file, which is not 0,
-- different places.
pub get_file-injective :
    (size a b : ℕ)
    → 0 < size
    → a < num_files * size
    → b < num_files * size
    → a ≢ b
    → get_file size a ≢ get_file size b
unfolding get_file
get_file-injective size a b pos ha hb ne e =
    let (na, ra) = file_number size a pos ha in
    let (nb, rb) = file_number size b pos hb in
    let quotients : a / size ≡ b / size = sym na ∙ ap (λ (x : ℕ × ℕ). x.0) e ∙ nb in
    let remainders : a % size ≡ b % size = sym ra ∙ ap (λ (x : ℕ × ℕ). x.1) e ∙ rb in
    ne (
      sym (div-add-mod a size)
      ∙ ap₂ (λ (q r : ℕ). size * q + r) quotients remainders
      ∙ div-add-mod b size)

-- The place is inside one of the ten files.
pub get_file-inside :
    (size a : ℕ) → 0 < size → ((get_file size a).0 < num_files) × ((get_file size a).1 < size)
unfolding get_file
get_file-inside size a pos = ground arith
