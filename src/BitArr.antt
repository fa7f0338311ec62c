-- ===== src/BitArr.antt =====
-- src/bitarr.c: a bit vector in an array of bytes.
pub mod Laws
pub mod Inside
use Prim.Native.Nat.{bit_and, bit_or}
use vmtree.Base.{
  ℕ, ◌-◌, ◌/◌, ◌%◌, ◌^◌, ◌*◌, ◌<◌, Bool, List, set, get_or, replicate, ltb, ◌==◌, if◌then◌else◌,
}

abbrev pub unit_size : ℕ
unit_size = 8

-- The bytes of the vector.
abbrev pub BitArr : Type 0
BitArr = List ℕ

-- `byte |= 1 << bit`
unfoldable pub set_bit : ℕ → ℕ → ℕ
set_bit byte bit = bit_or byte (2 ^ bit)

-- `byte &= ~(1 << bit)`: within a byte the complement is 255 - 2 ^ bit
unfoldable pub clear_bit : ℕ → ℕ → ℕ
clear_bit byte bit = bit_and byte (255 - 2 ^ bit)

unfoldable pub put_bit : ℕ → ℕ → ℕ → ℕ
unfolding set_bit clear_bit
put_bit byte bit value = if value == 0 then clear_bit byte bit else set_bit byte bit

unfoldable pub bit_at : ℕ → ℕ → ℕ
bit_at byte bit = if ltb 0 (bit_and byte (2 ^ bit)) then 1 else 0

-- `bitarrSet`. Its byte is inside the vector in `Laws`.
unfoldable pub bitarr_set : BitArr → ℕ → ℕ → BitArr
unfolding put_bit
bitarr_set vector pos value =
    set vector (pos / unit_size)
      (put_bit (get_or vector (pos / unit_size) 0) (pos % unit_size) value)

-- `bitarrGet`
unfoldable pub bitarr_get : BitArr → ℕ → ℕ
unfolding bit_at
bitarr_get vector pos = bit_at (get_or vector (pos / unit_size) 0) (pos % unit_size)
