-- ===== src/Nor/Routes.antt =====
-- Where a search in an interior page of OVERWRITE is sent, before and after an insertion.
use vmtree.Base.{
  ℕ, ◌≤◌, ◌<◌, ◌≡◌, ◌≢◌, Bool, true, false, ◌&&◌, none, arith, ltb, ◌==◌, if◌then◌else◌, ◌∙◌, inl,
  inr, Bool-cases, ap, sym,
}
use vmtree.Nor.{NorPage, NorGeometry, interior_limit, is_live}
use vmtree.Nor.Bits.{HasBitmaps}
use vmtree.Nor.Interior.{search_node_overwrite, insert_interior, next_loop}
use vmtree.Nor.Next.{IsNext, IsPacked, Found, min_loop-Found, next_loop-Found}
use vmtree.Nor.Insert.{Replaced, Ends, done, full, insert_interior-Ends}

-- No two valid records have one key.
abbrev pub IsDistinct : ℕ → NorPage → Type 0
IsDistinct limit p =
    (i j : ℕ)
    → i < limit
    → j < limit
    → is_live p i ≡ true
    → is_live p j ≡ true
    → p.keys i ≡ p.keys j
    → i ≡ j

-- The page number that a search finds.
abbrev pub route : NorGeometry → NorPage → (key : ℕ) → ℕ
route g p key = p.values (search_node_overwrite g true p key)

IsNext-unique :
    {limit : ℕ} {p : NorPage} {key a b : ℕ}
    → IsDistinct limit p
    → IsNext limit p key a
    → IsNext limit p key b
    → a ≡ b
IsNext-unique {a = a} {b = b} distinct n m =
    distinct a b n.inside m.inside n.live m.live
      (omega (arith, n.least b m.inside m.live m.above, m.least a n.inside n.live n.above))

pub search-Found :
    (g : NorGeometry) (p : NorPage) (key : ℕ)
    → Found (interior_limit g) p key (search_node_overwrite g true p key)
unfolding search_node_overwrite
search-Found g p key =
    min_loop-Found (interior_limit g) p key 0 (interior_limit g) none 0 (omega arith)
      (λ j lt live. absurd (omega arith))

pub search-IsNext :
    (g : NorGeometry) (p : NorPage) (key a : ℕ)
    → IsDistinct (interior_limit g) p
    → IsNext (interior_limit g) p key a
    → search_node_overwrite g true p key ≡ a
search-IsNext g p key a distinct n =
    IsNext-unique distinct (search-Found g p key a n.inside n.live n.above) n

module _ {limit : ℕ} {p q : NorPage} {first second loc key left right : ℕ}
    (distinct : IsDistinct limit p) (n : IsNext limit p key loc)
    (r : Replaced limit p q first second loc key left right)
    (apart : (first < limit) × (second < limit) × (first ≢ second))
    (free : (is_live p first ≡ false) × (is_live p second ≡ false))
    (fresh : (i : ℕ) → i < limit → is_live p i ≡ true → p.keys i ≢ key) where
  Replaced-IsDistinct : IsDistinct limit q
  Replaced-IsDistinct i j lt lt' live live' e = ground (
    arith,
    r.live i,
    r.live j,
    r.keys i,
    r.keys j,
    distinct i j,
    distinct i loc,
    distinct loc j,
    n.inside,
    n.live,
    n.above,
    fresh i,
    fresh j,
    apart,
    free,
  )

  -- Below the new key, the new record is next where the old one was; from it on, the copy is.
  IsNext-left : (k : ℕ) → IsNext limit p k loc → k < key → IsNext limit q k first
  IsNext-left k m below_key = record {
    inside = apart.0;
    live = ground (arith, r.live first, apart);
    above = ground (arith, r.keys first, apart);
    least = λ j lt live above.
        ground (arith, r.keys first, r.keys j, r.live j, apart, n.above, m.least j, below_key);
  }

  IsNext-right : (k : ℕ) → IsNext limit p k loc → key ≤ k → IsNext limit q k second
  IsNext-right k m from_key = record {
    inside = apart.1;
    live = ground (arith, r.live second, apart);
    above = ground (arith, r.keys second, m.above);
    least = λ j lt live above.
        ground (arith, r.keys second, r.keys j, r.live j, apart, m.least j, from_key);
  }

  IsNext-other : (k x : ℕ) → IsNext limit p k x → x ≢ loc → IsNext limit q k x
  IsNext-other k x m other =
      let away : (x ≢ first) × (x ≢ second) = (
        λ e. absurd (let bad : is_live p first ≡ true = rw e at m.live in cc),
        λ e. absurd (let bad : is_live p second ≡ true = rw e at m.live in cc),
      ) in
      record {
        inside = m.inside;
        live = ground (arith, r.live x m.inside, m.live, other);
        above = ground (arith, r.keys x, away, m.above);
        least = λ j lt live above. ground (
          arith,
          r.keys x,
          away,
          r.keys j,
          r.live j,
          m.least j,
          m.least loc,
          n.least x,
          n.live,
          n.inside,
          n.above,
          m.live,
          m.above,
          m.inside,
          distinct x loc,
        );
      }

module _ (g : NorGeometry) (p : NorPage) (key left right k : ℕ)
    (distinct : IsDistinct (interior_limit g) p) where
  routes :
      (loc x : ℕ) (out : NorPage × Bool)
      → IsNext (interior_limit g) p key loc
      → IsNext (interior_limit g) p k x
      → ((i : ℕ) → i < interior_limit g → is_live p i ≡ true → p.keys i ≢ key)
      → Ends (interior_limit g) p loc key left right out
      → route g out.0 k
        ≡ (if out.1 && (x == loc) then (if ltb k key then left else right) else p.values x)
  routes loc x out n m fresh (full q live same) =
      ap q.values (search-IsNext g q k x kept_distinct kept) ∙ (same x m.live).1
    where
      kept_distinct : IsDistinct (interior_limit g) q
      kept_distinct i j lt lt' h h' e =
          let a : is_live p i ≡ true = sym (live i) ∙ h in
          let b : is_live p j ≡ true = sym (live j) ∙ h' in
          distinct i j lt lt' a b (omega (arith, (same i a).0, (same j b).0, e))

      kept : IsNext (interior_limit g) q k x
      kept = record {
        inside = m.inside;
        live = live x ∙ m.live;
        above = omega (arith, m.above, (same x m.live).0);
        least = λ j lt h above.
            (let a : is_live p j ≡ true = sym (live j) ∙ h in
              omega (
                arith,
                (same x m.live).0,
                (same j a).0,
                m.least j lt a (omega (arith, (same j a).0, above)),
              ));
      }
  routes loc x out n m fresh (done q first second r apart free) = elim (Bool-cases (x == loc)) [
    | inl at ↦
        (let e : x ≡ loc = ground (arith, at) in
          let m' : IsNext (interior_limit g) p k loc = rw e at m in
          elim (Bool-cases (ltb k key)) [
            | inl below_key ↦
                (let sent =
                    sends first (
                      IsNext-left distinct n r apart free fresh k m' (ground (arith, below_key))) in
                  ground (arith, at, below_key, sent, r.values first, apart))
            | inr from_key ↦
                (let sent =
                    sends second (
                      IsNext-right distinct n r apart free fresh k m' (ground (arith, from_key))) in
                  ground (arith, at, from_key, sent, r.values second))
          ])
    | inr other ↦
        (let sent =
            sends x (IsNext-other distinct n r apart free fresh k x m (ground (arith, other))) in
          let away : (x ≢ first) × (x ≢ second) = (
            λ e. absurd (let bad : is_live p first ≡ true = rw e at m.live in cc),
            λ e. absurd (let bad : is_live p second ≡ true = rw e at m.live in cc),
          ) in
          ground (arith, other, sent, r.values x, away))
  ]
    where
      sends : (y : ℕ) → IsNext (interior_limit g) q k y → route g q k ≡ q.values y
      sends y there =
          ap q.values
            (search-IsNext g q k y (Replaced-IsDistinct distinct n r apart free fresh) there)

  -- `vmtreeInsertInterior` in an interior page of OVERWRITE whose valid records have different keys,
  -- none of them the new key, with a record above the new key: the search for a key `k`, which is below the
  -- key of a record, is sent to `left` or to `right`, as `k` is below the new key or not, when the insertion returned 1 and the search for the
  -- new key found the location that the search for `k` found; else it is sent where it was
  -- sent before, also when the insertion returned 0. (The empty locations stand behind the others, and the bitmaps
  -- have their bits.)
  pub insert_interior-routes :
      (i j : ℕ)
      → HasBitmaps (interior_limit g) p
      → IsPacked (interior_limit g) p
      → ((c : ℕ) → c < interior_limit g → is_live p c ≡ true → p.keys c ≢ key)
      → i < interior_limit g
      → is_live p i ≡ true
      → key < p.keys i
      → j < interior_limit g
      → is_live p j ≡ true
      → k < p.keys j
      → route g (insert_interior g p key left right).0 k ≡ (
          if (insert_interior g p key left right).1
            && (search_node_overwrite g true p k == search_node_overwrite g true p key)
          then (if ltb k key then left else right)
          else route g p k)
  insert_interior-routes i j h packed fresh lt live above lt' live' above' =
      let loc = (next_loop (interior_limit g) p key 0 none 0).1 in
      let n =
        next_loop-Found (interior_limit g) p key 0 (interior_limit g) none 0 packed (omega arith)
          (λ j lt live. absurd (omega arith)) i lt live above in
      let m = search-Found g p k j lt' live' above' in
      let same : search_node_overwrite g true p key ≡ loc = search-IsNext g p key loc distinct n in
      rw same (
        routes loc (search_node_overwrite g true p k) (insert_interior g p key left right) n m fresh
          (insert_interior-Ends g p key left right h n))
