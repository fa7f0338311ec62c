-- ===== src/BitArr/Laws.antt =====
-- What `bitarrGet` reads after `bitarrSet`.
use vmtree.Base.{
  ℕ, zero, suc, ◌/◌, ◌%◌, ◌<◌, ◌≡◌, refl, Bool, true, false, ◌&&◌, arith, ltb, ◌==◌, if◌then◌else◌,
  get_or, length, length-set, get_or-set,
}
use vmtree.BitArr.{BitArr, unit_size, put_bit, bit_at, bitarr_set, bitarr_get}

-- A test that every number under a bound passes.
unfoldable pub passes : (test : ℕ → Bool) → (bound : ℕ) → Bool
passes test zero = true
passes test (suc k) = if test k then passes test k else false

pub passes-at :
    (test : ℕ → Bool) (bound i : ℕ) → i < bound → passes test bound ≡ true → test i ≡ true
unfolding passes
passes-at test zero i below run = absurd (omega arith)
passes-at test (suc k) i below run = ground (arith, passes-at test k i)

-- One byte, one bit written, one bit read.
good : ℕ → ℕ → ℕ → ℕ → Bool
good value byte i j =
    ltb (put_bit byte i value) 256
    && (bit_at (put_bit byte i value) j
        == (if i == j then (if value == 0 then 0 else 1) else bit_at byte j))

good_all : ℕ → Bool
unfolding good put_bit bit_at passes
good_all value = passes (λ byte. passes (λ i. passes (good value byte i) 8) 8) 256

good_zero : good_all 0 ≡ true
unfolding good_all
good_zero = refl

good_one : good_all 1 ≡ true
unfolding good_all
good_one = refl

-- What is left of `put_bit`: the bit written, and the others as they were, in one byte.
abbrev ByteLaw : ℕ → ℕ → ℕ → ℕ → Type 0
ByteLaw value byte i j =
    (put_bit byte i value < 256)
    × (bit_at (put_bit byte i value) j
        ≡ (if i == j then (if value == 0 then 0 else 1) else bit_at byte j))

good-ByteLaw : (value byte i j : ℕ) → good value byte i j ≡ true → ByteLaw value byte i j
unfolding good
good-ByteLaw value byte i j h = ground arith

good_everywhere :
    (value byte i j : ℕ)
    → good_all value ≡ true
    → byte < 256
    → i < 8
    → j < 8
    → ByteLaw value byte i j
unfolding good_all
good_everywhere value byte i j all hb hi hj =
    let row = passes-at (λ b. passes (λ k. passes (good value b k) 8) 8) 256 byte hb all in
    let cell = passes-at (λ k. passes (good value byte k) 8) 8 i hi row in
    good-ByteLaw value byte i j (passes-at (good value byte i) 8 j hj cell)

-- Only whether the value is 0 counts.
put_bit_nonzero :
    (byte i value : ℕ) → (value == 0) ≡ false → put_bit byte i value ≡ put_bit byte i 1
unfolding put_bit
put_bit_nonzero byte i value h = rw h

byte_law : (value byte i j : ℕ) → byte < 256 → i < 8 → j < 8 → ByteLaw value byte i j
byte_law zero byte i j hb hi hj = good_everywhere 0 byte i j good_zero hb hi hj
byte_law (suc v) byte i j hb hi hj =
    rw (put_bit_nonzero byte i (suc v) (ground arith))
      (ground (arith, good_everywhere 1 byte i j good_one hb hi hj))

-- Every byte of the vector is a byte.
abbrev pub IsBytes : BitArr → Type 0
IsBytes v = (i : ℕ) → get_or v i 0 < 256

-- A write of a bit inside the vector keeps the length and leaves a vector of bytes.
pub bitarr_set-IsBytes :
    (v : BitArr) (pos value : ℕ)
    → pos / unit_size < length v
    → IsBytes v
    → IsBytes (bitarr_set v pos value) × (length (bitarr_set v pos value) ≡ length v)
unfolding bitarr_set
bitarr_set-IsBytes v pos value h b = (
  λ i. rw (get_or-set v (pos / unit_size) i _ 0 h) (
      ground (
        arith,
        b i,
        byte_law value (get_or v (pos / unit_size) 0) (pos % unit_size) 0 (b _) (omega arith)
            (omega arith),
      )),
  length-set v _ _,
)

-- `bitarrGet` after `bitarrSet` at a position inside the vector of bytes reads the bit written at
-- that position, as 0 or 1, and the old bit at every other.
pub bitarr_get-bitarr_set :
    (v : BitArr) (pos q value : ℕ)
    → pos / unit_size < length v
    → IsBytes v
    → bitarr_get (bitarr_set v pos value) q
      ≡ (if pos == q then (if value == 0 then 0 else 1) else bitarr_get v q)
unfolding bitarr_set bitarr_get
bitarr_get-bitarr_set v pos q value h b =
    rw (get_or-set v (pos / unit_size) (q / unit_size) _ 0 h) (
      ground (
        arith,
        byte_law value (get_or v (pos / unit_size) 0) (pos % unit_size) (q % unit_size) (b _)
            (omega arith) (omega arith),
      ))
