-- ===== src/Nor/Sorted.antt =====
-- The sort of a leaf of OVERWRITE in src/vmtree.c, and the insertion into a sorted one.
use vmtree.Base.{
  ℕ, zero, suc, ◌+◌, ◌-◌, ◌≤◌, ◌<◌, ◌≡◌, ◌≢◌, refl, false, ◌&&◌, Memory, update, arith, ltb, leb,
  ◌==◌, if◌then◌else◌, ◌∙◌, inl, inr, Bool-cases, ap, inserted, tally,
}
use vmtree.Records.{Record}
use vmtree.Node.Search.Found.{Ascends, keys_of, SplitsAt}
use vmtree.Node.Leaf.Insert.{inserted-Ascends}
use vmtree.Nor.{NorPage, copy_slot, write_slot, shift_up}

-- The records of a page, by location.
abbrev pub slots : NorPage → Memory Record
slots p i = record { key = p.keys i; value = p.values i }

pub tally_congr :
    (f : Record → ℕ) (m k : Memory Record) (n : ℕ)
    → ((i : ℕ) → i < n → m i ≡ k i)
    → tally f m n ≡ tally f k n
tally_congr f m k zero h = refl
tally_congr f m k (suc n) h =
    omega (arith, tally_congr f m k n (λ i lt. h i (omega arith)), ap f (h n (omega arith)))

inserted-at : (m : Memory Record) (at n : ℕ) (r : Record) → at ≡ n → inserted m at r n ≡ r
inserted-at m at n r e = ground (arith, e)

inserted-behind :
    (m : Memory Record) (at n : ℕ) (r : Record) → at < suc n → inserted m at r (suc n) ≡ m n
inserted-behind m at n r lt = ground (arith, lt)

tally-inserted :
    (f : Record → ℕ) (m : Memory Record) (at n : ℕ) (r : Record)
    → at ≤ n
    → tally f (inserted m at r) (suc n) ≡ tally f m n + f r
tally-inserted f m at n r h = elim (Bool-cases (at == n)) [
  | inl last ↦
      (let e : at ≡ n = ground (arith, last) in
        omega (
          arith,
          tally_congr f (inserted m at r) m n (λ i lt. ground (arith, e)),
          ap f (inserted-at m at n r e),
        ))
  | inr before ↦ further n (ground (arith, before))
]
  where
    further : (n : ℕ) → at < n → tally f (inserted m at r) (suc n) ≡ tally f m n + f r
    further zero lt = absurd (omega arith)
    further (suc n) lt = elim (Bool-cases (at == n)) [
      | inl last ↦
          (let e : at ≡ n = ground (arith, last) in
            omega (
              arith,
              tally_congr f (inserted m at r) m n (λ i lt. ground (arith, e)),
              ap f (inserted-at m at n r e),
              ap f (inserted-behind m at n r lt),
            ))
      | inr before ↦
          omega (arith, further n (ground (arith, before)), ap f (inserted-behind m at n r lt))
    ]

-- Where `shift_up` stops, and what it leaves.
record Shifted (left : ℕ) (p q : NorPage) (key at : ℕ) : Type 0 where
  inside : at ≤ left
  low : 0 < at → p.keys (at - 1) ≤ key
  high : (j : ℕ) → at ≤ j → j < left → key < p.keys j
  keys : (j : ℕ) → j ≢ at → q.keys j ≡ (if ltb at j && leb j left then p.keys (j - 1) else p.keys j)
  values :
      (j : ℕ)
      → j ≢ at
      → q.values j ≡ (if ltb at j && leb j left then p.values (j - 1) else p.values j)
  bits1 : q.bm1 ≡ p.bm1
  bits2 : q.bm2 ≡ p.bm2

shift_up-Shifted :
    (left : ℕ) (p : NorPage) (key : ℕ)
    → Shifted left p (shift_up left p key).0 key (shift_up left p key).1
unfolding shift_up copy_slot
shift_up-Shifted zero p key = record {
  inside = omega arith;
  low = λ h. absurd (omega arith);
  high = λ j h k. absurd (omega arith);
  keys = λ j ne. ground arith;
  values = λ j ne. ground arith;
  bits1 = refl;
  bits2 = refl;
}
shift_up-Shifted (suc c) p key = elim (Bool-cases (ltb key (p.keys c))) [
  | inl more ↦
      (let s = shift_up-Shifted c (copy_slot p (c + 1) c) key in
        let at = (shift_up c (copy_slot p (c + 1) c) key).1 in
        rw more (record {
          inside = omega (arith, s.inside);
          low = λ h. ground (arith, s.low h, s.inside);
          high = λ j h k. elim (Bool-cases (j == c)) [
            | inl same ↦ (let e : j ≡ c = ground (arith, same) in rw e (ground (arith, more)))
            | inr other ↦ ground (arith, other, s.high j)
          ];
          keys = λ j ne.
              past p.keys (shift_up c (copy_slot p (c + 1) c) key).0.keys at j (s.keys j ne)
                (s.inside);
          values = λ j ne.
              past p.values (shift_up c (copy_slot p (c + 1) c) key).0.values at j (s.values j ne)
                (s.inside);
          bits1 = s.bits1;
          bits2 = s.bits2;
        }))
  | inr stops ↦ rw stops (record {
    inside = omega arith;
    low = λ h. ground (arith, stops);
    high = λ j h k. absurd (omega arith);
    keys = λ j ne. ground arith;
    values = λ j ne. ground arith;
    bits1 = refl;
    bits2 = refl;
  })
]
  where
    past :
        (m k : Memory ℕ) (at j : ℕ)
        → k j ≡ (
            if ltb at j && leb j c
            then update m (c + 1) (m c) (j - 1)
            else update m (c + 1) (m c) j)
        → at ≤ c
        → k j ≡ (if ltb at j && leb j (suc c) then m (j - 1) else m j)
    past m k at j e h = elim (Bool-cases (j == c + 1)) [
      | inl same ↦ (let f : j ≡ c + 1 = ground (arith, same) in rw f (ground (arith, rw f at e, h)))
      | inr other ↦ ground (arith, other, e, h)
    ]

same_record :
    {a b c d : ℕ}
    → a ≡ b
    → c ≡ d
    → (let r : Record = record { key = a; value = c } in r) ≡ record { key = b; value = d }
same_record e f = cc

-- The record put where the loop stopped: it is inserted among those before.
shift_up-inserted :
    (left : ℕ) (p : NorPage) (key value j : ℕ)
    → j ≤ left
    → slots (write_slot (shift_up left p key).0 (shift_up left p key).1 key value) j
      ≡ inserted (slots p) (shift_up left p key).1 (record { key = key; value = value }) j
unfolding write_slot
shift_up-inserted left p key value j le =
    let s = shift_up-Shifted left p key in
    let at = (shift_up left p key).1 in
    elim (Bool-cases (at == j)) [
      | inl here ↦ (let e : at ≡ j = ground (arith, here) in ground (arith, e))
      | inr other ↦
          let ne : j ≢ at = ground (arith, other) in
          let k = s.keys j ne in
          let v = s.values j ne in
          elim (Bool-cases (ltb j at)) [
            | inl before ↦
                rw (before) (
                  same_record (ground (arith, other, before, k)) (ground (arith, other, before, v)))
            | inr behind ↦
                (let e : (j == at) ≡ false = ground (arith, other) in
                  rw (behind, e)
                    (same_record (ground (arith, other, behind, le, k))
                      (ground (arith, other, behind, le, v))))
          ]
    ]

-- After it, the records ascend if they did, and are those before with the new one.
pub record Grown (left : ℕ) (p q : NorPage) (r : Record) : Type 0 where
  pub ascends : Ascends (suc left) (keys_of (slots q))
  pub counts : (f : Record → ℕ) → tally f (slots q) (suc left) ≡ tally f (slots p) left + f r
  pub above : (j : ℕ) → left < j → (q.keys j ≡ p.keys j) × (q.values j ≡ p.values j)
  pub bits : (q.bm1 ≡ p.bm1) × (q.bm2 ≡ p.bm2)

pub shift_up-Grown :
    (left : ℕ) (p : NorPage) (key value : ℕ)
    → Ascends left (keys_of (slots p))
    → Grown left p
        (write_slot (shift_up left p key).0 (shift_up left p key).1 key value)
        (record { key = key; value = value })
unfolding write_slot
shift_up-Grown left p key value asc =
    let s = shift_up-Shifted left p key in
    let at = (shift_up left p key).1 in
    let q = write_slot (shift_up left p key).0 at key value in
    let r : Record = record { key = key; value = value } in
    let same = shift_up-inserted left p key value in
    let splits : SplitsAt left (keys_of (slots p)) key at = record {
      inside = s.inside;
      left = λ i h.
          omega
            (arith, s.low (omega arith), asc i (at - 1) (omega arith) (omega (arith, s.inside)));
      right = λ i h k. omega (arith, s.high i h k);
      tight = λ i h k. inl (s.high i h k);
    } in
    let sorted = inserted-Ascends (slots p) left at r splits asc in
    record {
      ascends = λ i j h k. omega (
        arith,
        ap (λ (x : Record). x.key) (same i (omega arith)),
        ap (λ (x : Record). x.key) (same j (omega arith)),
        sorted i j h k,
      );
      counts = λ f.
          tally_congr f (slots q) (inserted (slots p) at r) (suc left)
            (λ i lt. same i (omega arith))
          ∙ tally-inserted f (slots p) at left r s.inside;
      above = λ j lt.
          (ground (arith, lt, s.inside, s.keys j), ground (arith, lt, s.inside, s.values j));
      bits = (s.bits1, s.bits2);
    }
