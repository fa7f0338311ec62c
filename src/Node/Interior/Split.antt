-- ===== src/Node/Interior/Split.antt =====
-- A full interior node: the two pages and the promoted key are the old node with the new key.
use vmtree.Base.{
  ℕ, suc, ◌+◌, ◌-◌, ◌*◌, ◌≤◌, ◌<◌, ◌≡◌, arith, ◌∷◌, ◌++◌, update, ltb, ◌==◌, if◌then◌else◌, window,
  window_parts, window_three, window-inserted, window-doubled, make_room, make_room-inserted,
  make_room-above, inserted, doubled, insert_at, split_at, ◌∙◌, Bool-cases, inl, inr, true, false,
}
use vmtree.Node.{Page, get_count, mid_of, is_interior}
use vmtree.Node.Interior.{
  Separator, goes_low, low_mid, left_header, low_left, low_right, high_left, high_right, split_left,
  split_right, promoted_key,
}
use vmtree.Node.Interior.Slots.{
  low_pointers, low_left_pointer, low_pointers-above, low_right_key, low_right_pointer,
  high_left_pointer, high_right_key, high_right_pointer,
}

-- The pages written, with `a` keys in the first and `n - a` in the second.
record Halves (p : Page) (n c : ℕ) (s : Separator) (a : ℕ) (left right : Page) : Type 0 where
  left_key : (j : ℕ) → j < a → left.keys j ≡ inserted p.keys c s.key j
  promoted : promoted_key p n c s ≡ inserted p.keys c s.key a
  right_key : (j : ℕ) → j < n - a → right.keys j ≡ inserted p.keys c s.key (suc a + j)
  left_pointer : (j : ℕ) → j < suc a → left.pointers j ≡ doubled p.pointers c s.left s.right j
  right_pointer :
      (j : ℕ) → j < suc (n - a) → right.pointers j ≡ doubled p.pointers c s.left s.right (suc a + j)
  some_left : a ≤ n
  right_count : get_count right ≡ n - a

-- How many keys the first page gets.
abbrev pub left_keys : ℕ → ℕ → ℕ
left_keys n c = if goes_low n c then low_mid n + 1 else mid_of n

low_mid-facts : (n c : ℕ) → n < 256 → goes_low n c ≡ true → (c ≤ low_mid n) × (low_mid n < n)
unfolding mid_of
low_mid-facts n c small go = ground arith

mid_of-facts :
    (n c : ℕ)
    → n < 256
    → goes_low n c ≡ false
    → (mid_of n ≤ c) × (n ≤ 2 * mid_of n + 1) × (mid_of n ≤ n)
unfolding mid_of
mid_of-facts n c small go = ground arith

-- The second page, made from the buffer of the first after its write has set the id.
abbrev pub second_page : Page → (n c : ℕ) → Separator → (id : ℕ) → Page
second_page p n c s id = split_right p (record (split_left p n c s) { id = id }) n c s

module _ (p : Page) (n c : ℕ) (s : Separator) (id : ℕ) (inside : c ≤ n) (small : n < 256) where
  low-Halves :
      goes_low n c ≡ true
      → Halves p n c s
          (low_mid n + 1)
          (low_left p n c s)
          (low_right (record (low_left p n c s) { id = id }) n (p.pointers (low_mid n + 1)))
  unfolding low_left low_right promoted_key
  low-Halves go =
      let mid = low_mid n in
      let (at, less) = low_mid-facts n c small go in
      record {
        left_key = λ j h. make_room-inserted p.keys c mid s.key at j (omega arith);
        promoted = rw go (promoted mid at);
        right_key = λ j h.
            low_right_key p.keys c n mid s.key 0 (update (make_room p.keys c mid) c s.key) j at
              (make_room-above p.keys c mid s.key at) h;
        left_pointer = λ j h. low_left_pointer p.pointers c n mid s.left s.right j at h;
        right_pointer = λ j h.
            low_right_pointer p.pointers c n mid s.left s.right
              (low_pointers p.pointers c n mid s.left s.right) j at
              (λ k l. low_pointers-above p.pointers c n mid s.left s.right k at l) h;
        some_left = omega arith;
        right_count = omega arith;
      }
    where
      promoted : (mid : ℕ) → c ≤ mid → p.keys mid ≡ inserted p.keys c s.key (mid + 1)
      promoted mid h = back (mid + 1 - 1) (omega arith)
        where
          back :
              (d : ℕ)
              → d ≡ mid
              → p.keys mid ≡ (
                  if ltb (mid + 1) c
                  then p.keys (mid + 1)
                  else if mid + 1 == c
                  then s.key
                  else p.keys d)
          back d e = ground arith

  high-Halves :
      goes_low n c ≡ false
      → Halves p n c s
          (mid_of n)
          (high_left p n c s)
          (high_right (record (high_left p n c s) { id = id }) n c s)
  unfolding high_left high_right promoted_key
  high-Halves go =
      let mid = mid_of n in
      let (at, half, less) = mid_of-facts n c small go in
      record {
        left_key = λ j h. ground arith;
        promoted = rw go (ground arith);
        right_key = λ j h. high_right_key p.keys c n mid s.key 0 j at inside half h;
        left_pointer = λ j h. high_left_pointer p.pointers c n mid s.left s.right j at h;
        right_pointer = λ j h.
            high_right_pointer p.pointers c n mid s.left s.right (high_left p n c s).pointers j at
              inside half (λ k l. unchanged k l) h;
        some_left = less;
        right_count = omega arith;
      }
    where
      unchanged : (k : ℕ) → mid_of n < k → (high_left p n c s).pointers k ≡ p.pointers k
      unchanged k l = ground arith

  split-Halves : Halves p n c s (left_keys n c) (split_left p n c s) (second_page p n c s id)
  unfolding split_left split_right
  split-Halves = elim (Bool-cases (goes_low n c)) [
    | inl low ↦ rw low (low-Halves low)
    | inr high ↦ rw high (high-Halves high)
  ]

  -- When `vmtreePutRecord` splits an interior node of `n` keys, fewer than 256, at the child `c`, the
  -- keys of the first page, the promoted key and the keys of the second page are in this order the
  -- old keys with the new key at `c`, and the pointers of the two pages are the old pointers with
  -- the two new pages in place of the child. The second page counts the keys that are left.
  pub split-lists :
      (window (split_left p n c s).keys 0 (left_keys n c)
          ++ promoted_key p n c s ∷ window (second_page p n c s id).keys 0 (n - left_keys n c)
        ≡ insert_at c s.key (window p.keys 0 n))
      × (window (split_left p n c s).pointers 0 (suc (left_keys n c))
            ++ window (second_page p n c s id).pointers 0 (suc (n - left_keys n c))
          ≡ split_at c s.left s.right (window p.pointers 0 (suc n)))
      × (get_count (second_page p n c s id) ≡ n - left_keys n c)
  split-lists =
      let h = split-Halves in
      let a = left_keys n c in
      (
        window_three (inserted p.keys c s.key) (split_left p n c s).keys
              (second_page p n c s id).keys (promoted_key p n c s) a (n - a) n
              (omega (arith, h.some_left)) h.left_key h.promoted h.right_key
            ∙ window-inserted p.keys c n s.key inside,
        window_parts (doubled p.pointers c s.left s.right) (split_left p n c s).pointers
              (second_page p n c s id).pointers (suc a) (suc (n - a)) (suc (suc n))
              (omega (arith, h.some_left)) h.left_pointer h.right_pointer
            ∙ window-doubled p.pointers c (suc n) s.left s.right (omega arith),
        h.right_count,
      )

-- The header of the first page counts its keys and marks it as an interior node.
pub left_header-count :
    (p : Page) (c : ℕ)
    → get_count p < 256
    → (get_count (left_header p c) ≡ left_keys (get_count p) c)
      × (is_interior (left_header p c) ≡ true)
unfolding left_header mid_of
left_header-count p c small = ground arith
