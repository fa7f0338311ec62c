-- ===== src/Base/Inserted.antt =====
-- Insertion into a list, and the memory that holds the result.
use Prim.Native.Nat.{ℕ, zero, suc, ◌+◌, ◌-◌, ◌≤◌, ◌<◌}
use mathlib.Core.Path.{◌≡◌, ap, ap₂, ◌∙◌}
use mathlib.Core.Bool.{◌&&◌}
use mathlib.Core.List.{List, [], ◌∷◌, ◌++◌}
use native.Mathlib.Omega.{arith}
use mathlib.Core.Logic.{inl, inr}
use vmtree.Base.Tests.{Bool-cases, ltb, leb, ◌==◌, if◌then◌else◌}
use vmtree.Base.Cells.{Memory, update, move, make_room, window, window_congr, window-append}

module _ {ℓ} {A : Type ℓ} where
  -- `x` before the element number `i`, or at the end
  abbrev pub insert_at : ℕ → A → List A → List A
  insert_at zero x xs = x ∷ xs
  insert_at (suc i) x [] = x ∷ []
  insert_at (suc i) x (y ∷ xs) = y ∷ insert_at i x xs

  -- the element number `i` replaced by two
  abbrev pub split_at : ℕ → A → A → List A → List A
  split_at i x y [] = x ∷ y ∷ []
  split_at zero x y (z ∷ xs) = x ∷ y ∷ xs
  split_at (suc i) x y (z ∷ xs) = z ∷ split_at i x y xs

  -- the memory with `x` put before slot `i`
  abbrev pub inserted : Memory A → ℕ → A → Memory A
  inserted m i x = λ j. if ltb j i then m j else if j == i then x else m (j - 1)

  -- the memory with slot `i` replaced by two
  abbrev pub doubled : Memory A → ℕ → A → A → Memory A
  doubled m i x y =
      λ j. if ltb j i then m j else if j == i then x else if j == i + 1 then y else m (j - 1)

  window-insert_at :
      (m k : Memory A) (b i n : ℕ) (x : A)
      → i ≤ n
      → ((j : ℕ) → b ≤ j → j < b + i → k j ≡ m j)
      → k (b + i) ≡ x
      → ((j : ℕ) → b + i ≤ j → k (suc j) ≡ m j)
      → window k b (suc n) ≡ insert_at i x (window m b n)
  window-insert_at m k b zero n x h before at later = ap₂ ◌∷◌ (here (b + 0) (omega arith) at) (
      window_congr k m (suc b) b n
        (λ d p. shifted d (suc (b + d)) (omega arith) (later (b + d) (omega arith))))
    where
      here : (c : ℕ) → c ≡ b → k c ≡ x → k b ≡ x
      here c e p = cc

      shifted : (d c : ℕ) → c ≡ suc b + d → k c ≡ m (b + d) → k (suc b + d) ≡ m (b + d)
      shifted d c e p = cc
  window-insert_at m k b (suc i) zero x h before at later = elim h [ ]
  window-insert_at m k b (suc i) (suc n) x h before at later =
      ap₂ ◌∷◌ (before b (omega arith) (omega arith)) (
        window-insert_at m k (suc b) i n x (omega arith)
          (λ j p q. before j (omega arith) (omega arith)) (there (b + suc i) (omega arith) at)
          (λ j p. later j (omega arith)))
    where
      there : (c : ℕ) → c ≡ suc b + i → k c ≡ x → k (suc b + i) ≡ x
      there c e p = cc

  pub window-inserted :
      (m : Memory A) (i n : ℕ) (x : A)
      → i ≤ n
      → window (inserted m i x) 0 (suc n) ≡ insert_at i x (window m 0 n)
  window-inserted m i n x h =
      window-insert_at m (inserted m i x) 0 i n x h (λ j p q. ground arith) (ground arith)
        (λ j p. shift (suc j - 1) (omega arith) (ground arith))
    where
      shift : {j : ℕ} (c : ℕ) → c ≡ j → inserted m i x (suc j) ≡ m c → inserted m i x (suc j) ≡ m j
      shift c e p = cc

  window-split_at :
      (m k : Memory A) (b i n : ℕ) (x y : A)
      → i < n
      → ((j : ℕ) → b ≤ j → j < b + i → k j ≡ m j)
      → k (b + i) ≡ x
      → k (suc (b + i)) ≡ y
      → ((j : ℕ) → b + i < j → k (suc j) ≡ m j)
      → window k b (suc n) ≡ split_at i x y (window m b n)
  window-split_at m k b i zero x y h before at next later = elim h [ ]
  window-split_at m k b zero (suc n) x y h before at next later =
      ap₂ ◌∷◌ (here (b + 0) (omega arith) at) (
        ap₂ ◌∷◌ (after (suc (b + 0)) (omega arith) next) (
          window_congr k m (suc (suc b)) (suc b) n
            (λ d p. shifted d (suc (suc b + d)) (omega arith) (later (suc b + d) (omega arith)))))
    where
      here : (c : ℕ) → c ≡ b → k c ≡ x → k b ≡ x
      here c e p = cc

      after : (c : ℕ) → c ≡ suc b → k c ≡ y → k (suc b) ≡ y
      after c e p = cc

      shifted :
          (d c : ℕ)
          → c ≡ suc (suc b) + d
          → k c ≡ m (suc b + d)
          → k (suc (suc b) + d) ≡ m (suc b + d)
      shifted d c e p = cc
  window-split_at m k b (suc i) (suc n) x y h before at next later =
      ap₂ ◌∷◌ (before b (omega arith) (omega arith)) (
        window-split_at m k (suc b) i n x y (omega arith)
          (λ j p q. before j (omega arith) (omega arith)) (there (b + suc i) (omega arith) at)
          (after (suc (b + suc i)) (omega arith) next) (λ j p. later j (omega arith)))
    where
      there : (c : ℕ) → c ≡ suc b + i → k c ≡ x → k (suc b + i) ≡ x
      there c e p = cc

      after : (c : ℕ) → c ≡ suc (suc b + i) → k c ≡ y → k (suc (suc b + i)) ≡ y
      after c e p = cc

  pub window-doubled :
      (m : Memory A) (i n : ℕ) (x y : A)
      → i < n
      → window (doubled m i x y) 0 (suc n) ≡ split_at i x y (window m 0 n)
  window-doubled m i n x y h =
      window-split_at m (doubled m i x y) 0 i n x y h (λ j p q. ground arith) (ground arith)
        (ground arith) (λ j p. shift (suc j - 1) (omega arith) (ground arith))
    where
      shift :
          {j : ℕ} (c : ℕ) → c ≡ j → doubled m i x y (suc j) ≡ m c → doubled m i x y (suc j) ≡ m j
      shift c e p = cc

  -- Two pages that hold the two parts of a memory.
  pub window_parts :
      (m left right : Memory A) (a b n : ℕ)
      → a + b ≡ n
      → ((j : ℕ) → j < a → left j ≡ m j)
      → ((j : ℕ) → j < b → right j ≡ m (a + j))
      → window left 0 a ++ window right 0 b ≡ window m 0 n
  window_parts m left right a b n e l r =
      rw (← e, window-append m 0 a b)
        (ap₂ ◌++◌ (window_congr left m 0 0 a (λ d h. at d (0 + d) (omega arith) (l d h))) (
          window_congr right m 0 (0 + a) b
            (λ d h. on d (0 + d) (0 + a + d) (omega arith) (omega arith) (r d h))))
    where
      at : (d c : ℕ) → c ≡ d → left d ≡ m d → left c ≡ m c
      at d c e p = cc

      on : (d c f : ℕ) → c ≡ d → f ≡ a + d → right d ≡ m (a + d) → right c ≡ m f
      on d c f e g p = cc

  -- `x` put before a memory
  abbrev prepend : A → Memory A → Memory A
  prepend x m zero = x
  prepend x m (suc j) = m j

  -- The same with one element between the two pages.
  pub window_three :
      (m left right : Memory A) (x : A) (a b n : ℕ)
      → a + b ≡ n
      → ((j : ℕ) → j < a → left j ≡ m j)
      → x ≡ m a
      → ((j : ℕ) → j < b → right j ≡ m (suc a + j))
      → window left 0 a ++ x ∷ window right 0 b ≡ window m 0 (suc n)
  window_three m left right x a b n e l at r =
      ap (λ (xs : List A). window left 0 a ++ x ∷ xs)
        (window_congr right (prepend x right) 0 1 b
          (λ d h. shift d (0 + d) (1 + d) (omega arith) (omega arith)))
      ∙ window_parts m left (prepend x right) a (suc b) (suc n) (omega arith) l all
    where
      shift : (d c f : ℕ) → c ≡ d → f ≡ suc d → right c ≡ prepend x right f
      shift d c f p q = rw (p, q)

      on : (i c : ℕ) → c ≡ suc a + i → right i ≡ m (suc a + i) → right i ≡ m c
      on i c p q = cc

      here : (c : ℕ) → c ≡ a → x ≡ m c
      here c p = rw p at

      all : (j : ℕ) → j < suc b → prepend x right j ≡ m (a + j)
      all zero h = here (a + 0) (omega arith)
      all (suc i) h = on i (a + suc i) (omega arith) (r i (omega arith))

module _ {A : Type 0} (m : Memory A) (i n : ℕ) (x : A) (h : i ≤ n) where
  -- Slots moved up by one and the new element written in the gap.
  pub move-inserted : (j : ℕ) → j ≤ n → update (move m (i + 1) i (n - i)) i x j ≡ inserted m i x j
  move-inserted j k = same (i + (j - (i + 1))) (λ p. omega arith)
    where
      same :
          (c : ℕ)
          → (i < j → c ≡ j - 1)
          → (if i == j then x else if leb (i + 1) j && ltb j (i + 1 + (n - i)) then m c else m j)
            ≡ inserted m i x j
      same c e = ground arith

  pub make_room-inserted : (j : ℕ) → j ≤ n → update (make_room m i n) i x j ≡ inserted m i x j
  make_room-inserted j k = elim (Bool-cases (ltb i n)) [
    | inl some ↦ rw some (move-inserted j k)
    | inr none ↦ rw none (ground arith)
  ]

  -- Above the slots moved nothing changes.
  pub make_room-above : (j : ℕ) → n < j → update (make_room m i n) i x j ≡ m j
  make_room-above j k = elim (Bool-cases (ltb i n)) [
    | inl some ↦ rw some (ground arith)
    | inr none ↦ rw none (ground arith)
  ]
