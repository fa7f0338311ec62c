-- ===== src/Base/Cells.antt =====
-- Raw memory as a function from slot numbers: what lies behind a page can be read, as in C.
-- A slot is one record, one key or one pointer; `window` is the list of the slots of a range.
use Prim.Native.Nat.{ℕ, zero, suc, ◌+◌, ◌-◌, ◌≤◌, ◌<◌}
use mathlib.Core.Path.{◌≡◌, refl, ap, ap₂}
use mathlib.Core.Bool.{◌&&◌}
use mathlib.Core.List.{List, [], ◌∷◌, ◌++◌}
use native.Mathlib.Omega.{arith}
use vmtree.Base.Tests.{ltb, leb, ◌==◌, if◌then◌else◌}
use vmtree.Base.Lists.{length}

abbrev pub Memory {ℓ} : Type ℓ → Type ℓ
Memory A = ℕ → A

module _ {ℓ} {A : Type ℓ} where
  -- `memcpy` of one slot
  abbrev pub update : Memory A → ℕ → A → Memory A
  update m i v = λ j. if i == j then v else m j

  -- `memmove` of `n` slots from `from` to `to`
  abbrev pub move : Memory A → ℕ → ℕ → ℕ → Memory A
  move m to from n = λ j. if leb to j && ltb j (to + n) then m (from + (j - to)) else m j

  -- the `n` slots from `i` on
  abbrev pub window : Memory A → ℕ → ℕ → List A
  window m i zero = []
  window m i (suc n) = m i ∷ window m (suc i) n

  pub length-window : (m : Memory A) (i n : ℕ) → length (window m i n) ≡ n
  length-window m i zero = refl
  length-window m i (suc n) = ap suc (length-window m (suc i) n)

  -- Two windows that agree slot by slot are one list.
  pub window_congr :
      (m k : Memory A) (i j n : ℕ)
      → ((d : ℕ) → d < n → m (i + d) ≡ k (j + d))
      → window m i n ≡ window k j n
  window_congr m k i j zero h = refl
  window_congr m k i j (suc n) h =
      ap₂ ◌∷◌ (first (i + 0) (j + 0) (omega arith) (omega arith) (h 0 (omega arith))) (
        window_congr m k (suc i) (suc j) n (λ d p.
          next d (i + suc d) (j + suc d) (omega arith) (omega arith) (h (suc d) (omega arith))))
    where
      first : (a b : ℕ) → a ≡ i → b ≡ j → m a ≡ k b → m i ≡ k j
      first a b p q e = cc

      next : (d a b : ℕ) → a ≡ suc i + d → b ≡ suc j + d → m a ≡ k b → m (suc i + d) ≡ k (suc j + d)
      next d a b p q e = cc

  pub window-append :
      (m : Memory A) (i n l : ℕ) → window m i (n + l) ≡ window m i n ++ window m (i + n) l
  window-append m i zero l = ap₂ (λ a b. window m a b) (omega arith) (omega arith)
  window-append m i (suc n) l =
      shift (suc n + l) (suc i + n) (i + suc n) (omega arith) (omega arith)
        (window-append m (suc i) n l)
    where
      shift :
          (a b c : ℕ)
          → a ≡ suc (n + l)
          → b ≡ c
          → window m (suc i) (n + l) ≡ window m (suc i) n ++ window m b l
          → window m i a ≡ m i ∷ (window m (suc i) n ++ window m c l)
      shift a b c p q e = rw (p, ← q) (ap (◌∷◌ (m i)) e)

  -- The sum of `f` over the first `n` slots; with a test for `f`, how many slots pass it.
  abbrev pub tally : (A → ℕ) → Memory A → ℕ → ℕ
  tally f m zero = 0
  tally f m (suc n) = tally f m n + f (m n)

  pub tally-update_out :
      (f : A → ℕ) (m : Memory A) (i n : ℕ) (v : A) → n ≤ i → tally f (update m i v) n ≡ tally f m n
  tally-update_out f m i zero v h = refl
  tally-update_out f m i (suc n) v h = ground (arith, tally-update_out f m i n v)

  pub tally-update :
      (f : A → ℕ) (m : Memory A) (i n : ℕ) (v : A)
      → i < n
      → tally f (update m i v) n + f (m i) ≡ tally f m n + f v
  tally-update f m i zero v h = elim h [ ]
  tally-update f m i (suc n) v h =
      ground (arith, tally-update f m i n v, tally-update_out f m i n v)

-- `if (n - i > 0) memmove(...)`: the slots from `i` below `n` moved up by one.
abbrev pub make_room {ℓ} : {A : Type ℓ} → Memory A → ℕ → ℕ → Memory A
make_room m i n = if ltb i n then move m (i + 1) i (n - i) else m
