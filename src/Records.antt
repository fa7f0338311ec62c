-- ===== src/Records.antt =====
-- A record of the tree, and `uint32Compare` of src/vmtree.h, the order that `vmtreeInit` sets.
use Prim.Native.Nat.{compare, Ordering}
use vmtree.Base.{ℕ, Bool, true, false}

-- A key is its `uint32_t`; the data bytes are only moved, so they are one number.
pub record Record : Type 0 where
  pub key : ℕ
  pub value : ℕ

-- `uint32Compare`: 1, -1 and 0 are `gt`, `lt` and `eq`
abbrev pub uint32_compare : ℕ → ℕ → Ordering
uint32_compare a b = compare a b

abbrev pub is_positive : Ordering → Bool
is_positive Ordering.gt = true
is_positive Ordering.eq = false
is_positive Ordering.lt = false

abbrev pub is_negative : Ordering → Bool
is_negative Ordering.lt = true
is_negative Ordering.eq = false
is_negative Ordering.gt = false
