-- ===== src/Node/Interior/Slots.antt =====
-- The splits of an interior node slot by slot, in memories of keys and of pointers.
-- `m` is the old memory, `c` the place of the new key, `n` the old number of keys.
use vmtree.Base.{
  ℕ, suc, ◌+◌, ◌-◌, ◌*◌, ◌≤◌, ◌<◌, ◌≡◌, arith, Memory, update, move, ltb, ◌==◌, if◌then◌else◌,
  inserted, doubled, Bool-cases, inl, inr,
}

module _ (m : Memory ℕ) (c n mid x y : ℕ) where
  -- the key goes low: the first page has `mid + 1` keys
  abbrev pub low_pointers : Memory ℕ
  low_pointers =
      update (update (if ltb c mid then move m (c + 2) (c + 1) (mid - c) else m) c x) (c + 1) y

  pub low_left_pointer : (j : ℕ) → c ≤ mid → j < suc (mid + 1) → low_pointers j ≡ doubled m c x y j
  low_left_pointer j h k = elim (Bool-cases (ltb c mid)) [
    | inl some ↦ rw some (ground arith)
    | inr none ↦ rw none (ground arith)
  ]

  pub low_pointers-above : (j : ℕ) → c ≤ mid → mid + 1 < j → low_pointers j ≡ m j
  low_pointers-above j h k = elim (Bool-cases (ltb c mid)) [
    | inl some ↦ rw some (ground arith)
    | inr none ↦ rw none (ground arith)
  ]

  pub low_right_key :
      (left : Memory ℕ) (j : ℕ)
      → c ≤ mid
      → ((k : ℕ) → mid < k → left k ≡ m k)
      → j < n - (mid + 1)
      → move left 0 (mid + 1) (n - mid - 1) j ≡ inserted m c x (suc (mid + 1) + j)
  low_right_key left j h above k = ground (arith, above (mid + 1 + (j - 0)))

  pub low_right_pointer :
      (left : Memory ℕ) (j : ℕ)
      → c ≤ mid
      → ((k : ℕ) → mid + 1 < k → left k ≡ m k)
      → j < suc (n - (mid + 1))
      → move (update left 0 (m (mid + 1))) 1 (mid + 2) (n - mid - 1) j
        ≡ doubled m c x y (suc (mid + 1) + j)
  low_right_pointer left j h above k = ground (arith, above (mid + 2 + (j - 1)))

  -- the key goes high: the first page has `mid` keys
  pub high_left_pointer :
      (j : ℕ)
      → mid ≤ c
      → j < suc mid
      → (if c == mid then update m mid x else m) j ≡ doubled m c x y j
  high_left_pointer j h k = elim (Bool-cases (c == mid)) [
    | inl same ↦ rw same (ground arith)
    | inr other ↦ rw other (ground arith)
  ]

  -- the second page before the last copies
  abbrev high_keys : Memory ℕ
  high_keys =
      let front = if ltb (mid + 1) c then move m 0 (mid + 1) (c - mid - 1) else m in
      if ltb mid c then update front (c - mid - 1) x else front

  pub high_right_key :
      (j : ℕ)
      → mid ≤ c
      → c ≤ n
      → n ≤ 2 * mid + 1
      → j < n - mid
      → (if ltb c n then move high_keys (c - mid) c (n - c) else high_keys) j
        ≡ inserted m c x (suc mid + j)
  high_right_key j h i half k = elim (Bool-cases (ltb (mid + 1) c)) [
    | inl front ↦ rw front (elim (Bool-cases (ltb mid c)) [
      | inl after ↦ rw after (elim (Bool-cases (ltb c n)) [
        | inl back ↦ rw back (ground arith)
        | inr last ↦ rw last (ground arith)
      ])
      | inr at ↦ absurd (ground arith)
    ])
    | inr near ↦ rw near (elim (Bool-cases (ltb mid c)) [
      | inl after ↦ rw after (elim (Bool-cases (ltb c n)) [
        | inl back ↦ rw back (ground arith)
        | inr last ↦ rw last (ground arith)
      ])
      | inr at ↦ rw at (elim (Bool-cases (ltb c n)) [
        | inl back ↦ rw back (ground arith)
        | inr last ↦ rw last (ground arith)
      ])
    ])
  ]

  abbrev high_pointers : Memory ℕ → Memory ℕ
  high_pointers q =
      let front = if ltb (mid + 1) c then move q 0 (mid + 1) (c - mid - 1) else q in
      update (if ltb mid c then update front (c - mid - 1) x else front) (c - mid) y

  pub high_right_pointer :
      (q : Memory ℕ) (j : ℕ)
      → mid ≤ c
      → c ≤ n
      → n ≤ 2 * mid + 1
      → ((k : ℕ) → mid < k → q k ≡ m k)
      → j < suc (n - mid)
      → (if ltb c n then move (high_pointers q) (c - mid + 1) (c + 1) (n - c) else high_pointers q)
          j
        ≡ doubled m c x y (suc mid + j)
  high_right_pointer q j h i half old k =
      let early = old (mid + 1 + (j - 0)) in
      let late = old (c + 1 + (j - (c - mid + 1))) in
      elim (Bool-cases (ltb (mid + 1) c)) [
        | inl front ↦ rw front (elim (Bool-cases (ltb mid c)) [
          | inl after ↦ rw after (elim (Bool-cases (ltb c n)) [
            | inl back ↦ rw back (ground (arith, early, late))
            | inr last ↦ rw last (ground (arith, early))
          ])
          | inr at ↦ absurd (ground arith)
        ])
        | inr near ↦ rw near (elim (Bool-cases (ltb mid c)) [
          | inl after ↦ rw after (elim (Bool-cases (ltb c n)) [
            | inl back ↦ rw back (ground (arith, late))
            | inr last ↦ rw last (ground arith)
          ])
          | inr at ↦ rw at (elim (Bool-cases (ltb c n)) [
            | inl back ↦ rw back (ground (arith, late))
            | inr last ↦ rw last (ground arith)
          ])
        ])
      ]
