-- ===== src/BitArr/Inside.antt =====
-- Bits outside the vector of src/bitarr.c, and bits that are set again.
use vmtree.Base.{
  ℕ, zero, suc, ◌/◌, ◌%◌, ◌≤◌, ◌<◌, ◌≡◌, ◌≢◌, refl, true, arith, ◌==◌, List, [], ◌∷◌, length,
  get_or, Bool-cases, inl, inr, ltb,
}
use vmtree.BitArr.{BitArr, unit_size, bitarr_set, bitarr_get, bit_at}
use vmtree.BitArr.Laws.{passes, passes-at, IsBytes, bitarr_get-bitarr_set}

get_or-outside : (v : List ℕ) (i : ℕ) → length v ≤ i → get_or v i 0 ≡ 0
get_or-outside [] i h = refl
get_or-outside (x ∷ xs) zero h = elim h [ ]
get_or-outside (x ∷ xs) (suc i) h = get_or-outside xs i (omega (arith, h))

no_bits : passes (λ k. bit_at 0 k == 0) 8 ≡ true
unfolding passes bit_at
no_bits = refl

no_bit : (k : ℕ) → k < 8 → bit_at 0 k ≡ 0
no_bit k h = ground (arith, passes-at (λ k. bit_at 0 k == 0) 8 k h no_bits)

-- A bit that is not 0 is inside the vector.
pub bitarr_get-inside : (v : BitArr) (q : ℕ) → bitarr_get v q ≢ 0 → q / unit_size < length v
unfolding bitarr_get
bitarr_get-inside v q h = elim (Bool-cases (ltb (q / 8) (length v))) [
  | inl near ↦ ground (arith, near)
  | inr past ↦
      absurd
        (h (rw (get_or-outside v (q / 8) (ground (arith, past))) (no_bit (q % 8) (omega arith))))
]

bitarr_get-one : (v : BitArr) (q : ℕ) → bitarr_get v q ≢ 0 → bitarr_get v q ≡ 1
unfolding bitarr_get bit_at
bitarr_get-one v q h = ground arith

pub bitarr_set-again :
    (v : BitArr) (p q : ℕ)
    → IsBytes v
    → bitarr_get v p ≢ 0
    → bitarr_get (bitarr_set v p 1) q ≡ bitarr_get v q
bitarr_set-again v p q w h =
    rw (bitarr_get-bitarr_set v p q 1 (bitarr_get-inside v p h) w)
      (ground (arith, bitarr_get-one v p h))
