-- ===== src/Tree/Shape.antt =====
-- What a tree in a storage is: pages on levels, with ordered keys, and the records in its leaves.
-- Physical pages are read through the mapping table, as `getChildPageId` reads them.
use vmtree.Base.{
  ℕ, zero, suc, ◌-◌, ◌^◌, ◌≤◌, ◌<◌, ◌≡◌, ◌≢◌, true, false, Option, none, some, ◌==◌, if◌then◌else◌,
  arith, Bool-cases, inl, inr, sym, ◌∙◌, subst,
}
use vmtree.Records.{Record}
use vmtree.Mapping.{Mappings, get_mapping}
use vmtree.Node.{Page, Geometry, get_count, is_interior}
use vmtree.Node.Search.Found.{Ascends, SplitsAt, keys_of}

-- A range of keys: from `lo` on, and below `hi`, if there is such a bound.
abbrev pub Below : Option ℕ → ℕ → Type 0
Below none k = Unit {0}
Below (some h) k = k < h

abbrev pub Within : (lo : ℕ) (hi : Option ℕ) → ℕ → Type 0
Within lo hi k = (lo ≤ k) × Below hi k

-- A leaf whose records ascend, with keys in the range.
pub record IsLeaf (p : Page) (lo : ℕ) (hi : Option ℕ) : Type 0 where
  pub flat : is_interior p ≡ false
  pub sorted : Ascends (get_count p) (keys_of p.records)
  pub inside : (i : ℕ) → i < get_count p → Within lo hi (p.records i).key

-- An interior node: its keys ascend strictly, in the range, and its children lead to pages.
pub record IsNode (g : Geometry) (t : Mappings) (p : Page) (lo : ℕ) (hi : Option ℕ) : Type 0 where
  pub interior : is_interior p ≡ true
  pub fits : get_count p ≤ g.max_interior
  pub rising : (i j : ℕ) → i < j → j < get_count p → p.keys i < p.keys j
  pub inside : (i : ℕ) → i < get_count p → Within lo hi (p.keys i)
  pub leads : (c : ℕ) → c ≤ get_count p → get_mapping t (p.pointers c) ≢ 2 ^ 32 - 1

-- The range of the keys below child `c`: between the keys at its sides.
abbrev pub lower : Page → (lo : ℕ) → ℕ → ℕ
lower p lo c = if c == 0 then lo else p.keys (c - 1)

abbrev pub upper : Page → (hi : Option ℕ) → ℕ → Option ℕ
upper p hi c = if c == get_count p then hi else some (p.keys c)

module _ (t : Mappings) (read : ℕ → Option Page) where
  -- The tree of `levels + 1` levels that has `page` at its top.
  unfoldable pub IsTree : Geometry → (levels page lo : ℕ) → (hi : Option ℕ) → Type 0
  IsTree g zero page lo hi = (p : Page) × (read page ≡ some p) × IsLeaf p lo hi
  IsTree g (suc l) page lo hi =
      (p : Page) × (read page ≡ some p)
      × IsNode g t p lo hi
      × ((c : ℕ)
          → c ≤ get_count p
          → IsTree g l (get_mapping t (p.pointers c)) (lower p lo c) (upper p hi c))

  -- A record in a leaf of the tree.
  unfoldable pub InTree : (levels page : ℕ) → Record → Type 0
  InTree zero page r =
      (p : Page) × (read page ≡ some p) × ((i : ℕ) × (i < get_count p) × (p.records i ≡ r))
  InTree (suc l) page r =
      (p : Page) × (read page ≡ some p)
      × ((c : ℕ) × (c ≤ get_count p) × InTree l (get_mapping t (p.pointers c)) r)

Below-le : (hi : Option ℕ) (j k : ℕ) → j ≤ k → Below hi k → Below hi j
Below-le none j k h b = tt
Below-le (some x) j k h b = omega arith

same_page : {p q : Page} → some p ≡ some q → p ≡ q
same_page e = cc

-- A child's range lies in the range of its node.
pub narrower :
    {g : Geometry} {t : Mappings} (p : Page) (lo : ℕ) (hi : Option ℕ) (c k : ℕ)
    → IsNode g t p lo hi
    → c ≤ get_count p
    → Within (lower p lo c) (upper p hi c) k
    → Within lo hi k
narrower p lo hi c k n h w = (low w.0, high w.1)
  where
    low : lower p lo c ≤ k → lo ≤ k
    low le = elim (Bool-cases (c == 0)) [
      | inl e ↦ rw e at le
      | inr e ↦ omega (arith, rw e at le, (n.inside (c - 1) (ground arith)).0)
    ]

    high : Below (upper p hi c) k → Below hi k
    high b = elim (Bool-cases (c == get_count p)) [
      | inl e ↦ rw e at b
      | inr e ↦ Below-le hi k (p.keys c) (omega (arith, rw e at b)) (n.inside c (ground arith)).1
    ]

-- A key in the range of a child belongs to the child where it splits the keys of the node.
same_child :
    {g : Geometry} {t : Mappings} (p : Page) (lo : ℕ) (hi : Option ℕ) (i c k : ℕ)
    → IsNode g t p lo hi
    → i ≤ get_count p
    → SplitsAt (get_count p) p.keys k c
    → Within (lower p lo i) (upper p hi i) k
    → i ≡ c
same_child p lo hi i c k n h s w =
    ground
      (arith, from_left, from_right, s.inside, s.left i, s.tight (i - 1), n.rising (c - 1) (i - 1))
  where
    from_left : i ≢ 0 → p.keys (i - 1) ≤ k
    from_left ne = (let e : (i == 0) ≡ false = ground arith in rw e at w.0)

    from_right : i ≢ get_count p → k < p.keys i
    from_right ne = (let e : (i == get_count p) ≡ false = ground arith in rw e at w.1)

module _ (g : Geometry) (t : Mappings) (read : ℕ → Option Page) where
  -- The page is the one that was read.
  pub InTree-leaf :
      (page : ℕ) (p : Page) (r : Record)
      → read page ≡ some p
      → InTree t read zero page r
      → (i : ℕ) × (i < get_count p) × (p.records i ≡ r)
  unfolding InTree
  InTree-leaf page p r held (q, held', hit) =
      subst (λ (x : Page). (i : ℕ) × (i < get_count x) × (x.records i ≡ r))
        (same_page (sym held' ∙ held)) hit

  pub InTree-node :
      (l page : ℕ) (p : Page) (r : Record)
      → read page ≡ some p
      → InTree t read (suc l) page r
      → (c : ℕ) × (c ≤ get_count p) × InTree t read l (get_mapping t (p.pointers c)) r
  unfolding InTree
  InTree-node l page p r held (q, held', hit) =
      subst
        (λ (x : Page).
          (c : ℕ) × (c ≤ get_count x) × InTree t read l (get_mapping t (x.pointers c)) r)
        (same_page (sym held' ∙ held)) hit

  pub InTree-Within :
      (l page lo : ℕ) (hi : Option ℕ) (r : Record)
      → IsTree t read g l page lo hi
      → InTree t read l page r
      → Within lo hi r.key
  unfolding IsTree
  InTree-Within zero page lo hi r (p, held, leaf) inn =
      let (i, h, e) = InTree-leaf page p r held inn in
      subst (λ (x : Record). Within lo hi x.key) e (leaf.inside i h)
  InTree-Within (suc l) page lo hi r (p, held, node, below) inn =
      let (c, h, inn') = InTree-node l page p r held inn in
      narrower p lo hi c r.key node h (
        InTree-Within l (get_mapping t (p.pointers c)) (lower p lo c) (upper p hi c) r (below c h)
          inn')

  -- A record with the key is below the child where the key splits the keys of the node.
  pub InTree-child :
      (l page lo : ℕ) (hi : Option ℕ) (p : Page) (c : ℕ) (r : Record)
      → read page ≡ some p
      → IsNode g t p lo hi
      → ((i : ℕ)
          → i ≤ get_count p
          → IsTree t read g l (get_mapping t (p.pointers i)) (lower p lo i) (upper p hi i))
      → SplitsAt (get_count p) p.keys r.key c
      → InTree t read (suc l) page r
      → InTree t read l (get_mapping t (p.pointers c)) r
  InTree-child l page lo hi p c r held node below s inn =
      let (i, h, inn') = InTree-node l page p r held inn in
      let w =
        InTree-Within l (get_mapping t (p.pointers i)) (lower p lo i) (upper p hi i) r (below i h)
          inn' in
      let same : i ≡ c = same_child p lo hi i c r.key node h s w in rw same at inn'
