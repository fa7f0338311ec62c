-- ===== src/Nor/Compact.antt =====
-- `vmtreeSortBlockNorOverwrite` of src/vmtree.c: the valid records of a leaf, in order.
use vmtree.Base.{
  ℕ, zero, suc, ◌+◌, ◌-◌, ◌≤◌, ◌<◌, ◌≡◌, refl, true, false, Memory, arith, ltb, ◌==◌, if◌then◌else◌,
  ◌∙◌, inl, inr, Bool-cases, ap, sym, tally,
}
use vmtree.BitArr.{bitarr_get, bit_at}
use vmtree.Records.{Record}
use vmtree.Node.Search.Found.{Ascends, keys_of}
use vmtree.Nor.{
  NorPage, NorGeometry, leaf_limit, is_live, is_empty, copy_slot, write_slot, compact, shift_up,
  insertion_sort, sort_block,
}
use vmtree.Nor.Next.{IsPacked}
use vmtree.Nor.Sorted.{slots, tally_congr, shift_up-Grown}

-- What the valid records count together, `rounds` locations from `c` on.
abbrev pub live_from : (Record → ℕ) → (rounds : ℕ) → NorPage → (c : ℕ) → ℕ
live_from f zero p c = 0
live_from f (suc rounds) p c =
    (if is_live p c then f (slots p c) else 0) + live_from f rounds p (c + 1)

live_from-copy_slot :
    (f : Record → ℕ) (rounds : ℕ) (p : NorPage) (c to from : ℕ)
    → to < c
    → live_from f rounds (copy_slot p to from) c ≡ live_from f rounds p c
unfolding copy_slot
live_from-copy_slot f zero p c to from lt = refl
live_from-copy_slot f (suc rounds) p c to from lt =
    omega (arith, live_from-copy_slot f rounds p (c + 1) to from (omega arith), one)
  where
    one :
        (if is_live p c then f (slots (copy_slot p to from) c) else 0)
        ≡ (if is_live p c then f (slots p c) else 0)
    one = (let e : (to == c) ≡ false = ground (arith, lt) in rw e refl)

live_from-empty :
    (f : Record → ℕ) (rounds : ℕ) (p : NorPage) (c limit : ℕ)
    → IsPacked limit p
    → c + rounds ≤ limit
    → (b : ℕ) → b ≤ c
    → is_empty p b ≡ true
    → live_from f rounds p c ≡ 0
live_from-empty f zero p c limit packed le b h e = refl
live_from-empty f (suc rounds) p c limit packed le b h e =
    let gone : is_live p c ≡ false = ground (arith, packed b c h (omega arith) e) in
    let rest = live_from-empty f rounds p (c + 1) limit packed (omega arith) b (omega arith) e in
    rw gone (omega (arith, rest))

-- The valid records moved to the front.
record Packs (rounds c count limit : ℕ) (p q : NorPage) (n : ℕ) : Type 0 where
  counts : (f : Record → ℕ) → tally f (slots q) n ≡ tally f (slots p) count + live_from f rounds p c
  inside : n ≤ count + rounds
  bits : (q.bm1 ≡ p.bm1) × (q.bm2 ≡ p.bm2)

copied-bits :
    (p : NorPage) (to from : ℕ)
    → ((copy_slot p to from).bm1 ≡ p.bm1) × ((copy_slot p to from).bm2 ≡ p.bm2)
unfolding copy_slot
copied-bits p to from = (refl, refl)

copied-IsPacked :
    (p : NorPage) (to from limit : ℕ) → IsPacked limit p → IsPacked limit (copy_slot p to from)
unfolding copy_slot
copied-IsPacked p to from limit packed = packed

step :
    {rounds c count count' limit n : ℕ} {p p' q : NorPage}
    → Packs rounds (c + 1) count' limit p' q n
    → ((f : Record → ℕ)
        → tally f (slots p') count'
          ≡ tally f (slots p) count + (if is_live p c then f (slots p c) else 0))
    → ((f : Record → ℕ) → live_from f rounds p' (c + 1) ≡ live_from f rounds p (c + 1))
    → count' ≤ count + 1
    → (p'.bm1 ≡ p.bm1) × (p'.bm2 ≡ p.bm2)
    → Packs (suc rounds) c count limit p q n
step packs first rest le bits = record {
  counts = λ f. omega (arith, packs.counts f, first f, rest f);
  inside = omega (arith, packs.inside, le);
  bits = (packs.bits.0 ∙ bits.0, packs.bits.1 ∙ bits.1);
}

live_bit : (p : NorPage) (c : ℕ) → is_empty p c ≡ false → is_live p c ≡ (bitarr_get p.bm2 c == 1)
unfolding bitarr_get bit_at
live_bit p c goes = ground (arith, goes)

tally_next :
    (f : Record → ℕ) (m k : Memory Record) (count : ℕ) (r : Record)
    → ((i : ℕ) → i < count → m i ≡ k i)
    → m count ≡ r
    → tally f m (count + 1) ≡ tally f k count + f r
tally_next f m k count r same last =
    (let e : count + 1 ≡ suc count = omega arith in
      rw e (omega (arith, tally_congr f m k count same, ap f last)))

copied-at : (p : NorPage) (count c : ℕ) → slots (copy_slot p count c) count ≡ slots p c
unfolding copy_slot
copied-at p count c = (let e : (count == count) ≡ true = ground arith in rw e refl)

copied-below : (p : NorPage) (count c i : ℕ) → i < count → slots (copy_slot p count c) i ≡ slots p i
unfolding copy_slot
copied-below p count c i lt = (let e : (count == i) ≡ false = ground (arith, lt) in rw e refl)

compact-Packs :
    (rounds : ℕ) (p : NorPage) (c count limit : ℕ)
    → IsPacked limit p
    → c + rounds ≡ limit
    → count ≤ c
    → Packs rounds c count limit p (compact rounds p c count).0 (compact rounds p c count).1
unfolding compact
compact-Packs zero p c count limit packed e h = record {
  counts = λ f. omega arith;
  inside = omega arith;
  bits = (refl, refl);
}
compact-Packs (suc rounds) p c count limit packed e h = elim (Bool-cases (is_empty p c)) [
  | inl stops ↦ rw stops (record {
    counts = λ f. omega (
      arith,
      live_from-empty f (suc rounds) p c limit packed (omega arith) c (omega arith) stops,
    );
    inside = omega arith;
    bits = (refl, refl);
  })
  | inr goes ↦
      let at = live_bit p c goes in
      elim (Bool-cases (bitarr_get p.bm2 c == 1)) [
        | inr invalid ↦
            rw (goes, invalid)
              (step (compact-Packs rounds p (c + 1) count limit packed (omega arith) (omega arith))
                (λ f. rw (at, invalid) (omega arith)) (λ f. refl) (omega arith) (refl, refl))
        | inl valid ↦ elim (Bool-cases (ltb count c)) [
          | inl gap ↦
              rw (goes, valid, gap)
                (step
                  (compact-Packs rounds (copy_slot p count c) (c + 1) (count + 1) limit
                    (copied-IsPacked p count c limit packed) (omega arith) (omega arith))
                  (λ f.
                    rw (at, valid)
                      (tally_next f (slots (copy_slot p count c)) (slots p) count (slots p c)
                        (λ i lt. copied-below p count c i lt) (copied-at p count c)))
                  (λ f. live_from-copy_slot f rounds p (c + 1) count c (omega arith)) (omega arith)
                  (copied-bits p count c))
          | inr none_gone ↦
              (let same : c ≡ count = ground (arith, none_gone) in
                rw (goes, valid, none_gone)
                  (step
                    (compact-Packs rounds p (c + 1) (count + 1) limit packed (omega arith)
                      (omega arith))
                    (λ f.
                      rw (at, valid)
                        (tally_next f (slots p) (slots p) count (slots p c) (λ i lt. refl)
                          (ap (λ i. slots p i) (sym same))))
                    (λ f. refl) (omega arith) (refl, refl)))
        ]
      ]
]

-- The first `n` records in order, and none lost.
record Sorts (n : ℕ) (p q : NorPage) : Type 0 where
  ascends : Ascends n (keys_of (slots q))
  counts : (f : Record → ℕ) → tally f (slots q) n ≡ tally f (slots p) n

tally_beyond :
    (f : Record → ℕ) (m k : Memory Record) (a b : ℕ)
    → tally f m a ≡ tally f k a
    → a ≤ b
    → ((j : ℕ) → a ≤ j → m j ≡ k j)
    → tally f m b ≡ tally f k b
tally_beyond f m k a zero e h same = refl
tally_beyond f m k a (suc b) e h same = elim (Bool-cases (a == suc b)) [
  | inl last ↦ (let at : a ≡ suc b = ground (arith, last) in rw (at) at e)
  | inr before ↦ omega (
    arith,
    tally_beyond f m k a b e (ground (arith, before)) same,
    ap f (same b (ground (arith, before))),
  )
]

same_slot :
    (p q : NorPage) (j : ℕ)
    → (q.keys j ≡ p.keys j) × (q.values j ≡ p.values j)
    → slots q j ≡ slots p j
same_slot p q j e = rw (e.0, e.1) refl

insertion_sort-Sorts :
    (rounds c n : ℕ) (p : NorPage)
    → Ascends c (keys_of (slots p))
    → c + rounds ≡ n
    → Sorts n p (insertion_sort rounds c p)
unfolding insertion_sort
insertion_sort-Sorts zero c n p asc e =
    (let same : c ≡ n = omega arith in record { ascends = rw same at asc; counts = λ f. refl })
insertion_sort-Sorts (suc rounds) c n p asc e =
    let q =
      write_slot (shift_up c p (p.keys c)).0 (shift_up c p (p.keys c)).1 (p.keys c) (p.values c) in
    let g = shift_up-Grown c p (p.keys c) (p.values c) asc in
    let rest = insertion_sort-Sorts rounds (c + 1) n q (widen q g.ascends) (omega arith) in
    record {
      ascends = rest.ascends;
      counts = λ f.
          rest.counts f
          ∙ tally_beyond f (slots q) (slots p) (suc c) n (g.counts f) (omega arith)
              (λ j h. same_slot p q j (g.above j h));
    }
  where
    widen :
        (q : NorPage) → Ascends (suc c) (keys_of (slots q)) → Ascends (c + 1) (keys_of (slots q))
    widen q a i j h k = a i j h (omega arith)

sort_first-Sorts : (count : ℕ) (p : NorPage) → Sorts count p (insertion_sort (count - 1) 1 p)
sort_first-Sorts zero p = record { ascends = λ i j h k. absurd (omega arith); counts = λ f. refl }
sort_first-Sorts (suc k) p =
    insertion_sort-Sorts (suc k - 1) 1 (suc k) p
      (λ i j h k. (let e : i ≡ j = omega arith in rw e (omega arith))) (omega arith)

-- `vmtreeSortBlockNorOverwrite` of a leaf of OVERWRITE whose empty locations stand behind the
-- others: the records up to the number that it returns ascend by key, they are the valid records of
-- the page, none lost and none doubled (whatever `f` counts of a record, they count the same
-- together).
pub sort_block-sorts :
    (g : NorGeometry) (p : NorPage)
    → IsPacked (leaf_limit g) p
    → Ascends (sort_block g p).1 (keys_of (slots (sort_block g p).0))
      × ((f : Record → ℕ)
          → tally f (slots (sort_block g p).0) (sort_block g p).1 ≡ live_from f (leaf_limit g) p 0)
      × ((sort_block g p).1 ≤ leaf_limit g)
unfolding sort_block
sort_block-sorts g p packed =
    let packs =
      compact-Packs (leaf_limit g) p 0 0 (leaf_limit g) packed (omega arith) (omega arith) in
    let sorts =
      sort_first-Sorts (compact (leaf_limit g) p 0 0).1 (compact (leaf_limit g) p 0 0).0 in
    (
      sorts.ascends,
      λ f. sorts.counts f ∙ omega (arith, packs.counts f),
      omega (arith, packs.inside),
    )
