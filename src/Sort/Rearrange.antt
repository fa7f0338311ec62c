-- ===== src/Sort/Rearrange.antt =====
-- What a part of the sort may do to the array: move records about inside a range.
use vmtree.Base.{
  ℕ, ◌≤◌, ◌<◌, ◌≡◌, refl, Bool, true, ◌⊎◌, inl, inr, arith, Memory, update, leb, tally,
  tally-update, ◌∙◌, ◌&&◌, Bool-cases,
}
use vmtree.Records.{Record}
use vmtree.Sort.{swap}

pub record Rearranged (low high : ℕ) (m k : Memory Record) : Type 0 where
  -- nothing outside the range changes
  pub outside : (i : ℕ) → (i < low) ⊎ (high < i) → k i ≡ m i
  -- what holds of all records of the range before holds of them after
  pub keeps :
      (q : Record → Bool)
      → ((i : ℕ) → low ≤ i → i ≤ high → q (m i) ≡ true)
      → (i : ℕ) → low ≤ i
      → i ≤ high
      → q (k i) ≡ true
  -- every test is passed by as many records as before
  pub same : (f : Record → ℕ) (n : ℕ) → high < n → tally f k n ≡ tally f m n

pub Rearranged-refl : (low high : ℕ) (m : Memory Record) → Rearranged low high m m
Rearranged-refl low high m = record {
  outside = λ i h. refl;
  keeps = λ q h. h;
  same = λ f n h. refl;
}

pub Rearranged-trans :
    {low high : ℕ} {m k l : Memory Record}
    → Rearranged low high m k
    → Rearranged low high k l
    → Rearranged low high m l
Rearranged-trans a b = record {
  outside = λ i h. b.outside i h ∙ a.outside i h;
  keeps = λ q h. b.keeps q (a.keeps q h);
  same = λ f n h. b.same f n h ∙ a.same f n h;
}

-- A change inside a smaller range is one inside a larger range.
pub Rearranged-widen :
    {low high l h : ℕ} {m k : Memory Record}
    → low ≤ l
    → h ≤ high
    → Rearranged l h m k
    → Rearranged low high m k
Rearranged-widen {low} {high} {l} {h} {m} {k} p q r = record {
  outside = λ i o. r.outside i (ground arith);
  keeps = λ t all i a b. elim (Bool-cases (leb l i && leb i h)) [
    | inl inside ↦
        r.keeps t (λ j x y. all j (omega arith) (omega arith)) i (ground arith) (ground arith)
    | inr out ↦ rw (r.outside i (ground arith)) (all i a b)
  ];
  same = λ f n x. r.same f n (omega arith);
}

pub Rearranged-swap :
    (low high i j : ℕ) (m : Memory Record)
    → low ≤ i
    → i < j
    → j ≤ high
    → Rearranged low high m (swap m i j)
unfolding swap
Rearranged-swap low high i j m p q r = record {
  outside = λ s o. ground arith;
  keeps = λ t all s a b. ground (arith, all s a b, all i p (omega arith), all j (omega arith) r);
  same = λ f n x. ground (
    arith,
    tally-update f m i n (m j) (omega arith),
    tally-update f (update m i (m j)) j n (m i) (omega arith),
  );
}
