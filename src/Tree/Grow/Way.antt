-- ===== src/Tree/Grow/Way.antt =====
-- The way from the root of a tree of src/vmtree.c to a leaf.
use vmtree.Base.{
  ℕ, zero, suc, ◌-◌, ◌≤◌, ◌<◌, ◌≡◌, Option, some, arith, ◌==◌, sym, ◌∙◌, subst, inl, inr,
  Bool-cases, ap,
}
use vmtree.Mapping.{Mappings, get_mapping}
use vmtree.Node.{Page, Geometry, get_count}
use vmtree.Tree.Shape.{IsTree, IsNode, lower, upper, Within, Below, narrower}
use vmtree.Tree.Owned.{View, IsOwned}
use vmtree.Tree.Grow.Moved.{Avoids, same_page}

-- The way from `page` to the leaf at `leaf`, to which pointer `q` leads, with the keys of its range.
unfoldable pub IsWay :
    View → (leaf q low : ℕ) → (high : Option ℕ) → (l page lo : ℕ) → Option ℕ → Type 0
IsWay v leaf q low high zero page lo hi = (page ≡ leaf) × (lo ≡ low) × (hi ≡ high)
IsWay v leaf q low high (suc l) page lo hi =
    (p : Page) × (v.read page ≡ some p)
    × ((c : ℕ) × (c ≤ get_count p)
        × (l ≡ 0 → p.pointers c ≡ q)
        × IsWay v leaf q low high l (get_mapping v.table (p.pointers c)) (lower p lo c)
            (upper p hi c))

-- A child has a key in its range, its lower bound.
pub child-Below :
    {t : Mappings} {g : Geometry} (p : Page) (lo : ℕ) (hi : Option ℕ) (c : ℕ)
    → IsNode g t p lo hi
    → Below hi lo
    → (0 < get_count p → lo < p.keys 0)
    → c ≤ get_count p
    → Below (upper p hi c) (lower p lo c)
child-Below p lo hi c node b first h = elim (Bool-cases (c == get_count p)) [
  | inl last ↦ elim (Bool-cases (c == 0)) [
    | inl zeroth ↦ rw (last, zeroth) b
    | inr later ↦ rw (last, later) ((node.inside (c - 1) (ground (arith, later))).1)
  ]
  | inr inner ↦ elim (Bool-cases (c == 0)) [
    | inl zeroth ↦
        let e : c ≡ 0 = ground (arith, zeroth) in
        rw (inner, zeroth, e) (first (ground (arith, inner)))
    | inr later ↦
        rw (inner, later) (node.rising (c - 1) c (ground (arith, later)) (ground (arith, inner)))
  ]
]

module _ (v : View) (leaf q low : ℕ) (high : Option ℕ) where
  pub IsWay-node :
      (l page lo : ℕ) (hi : Option ℕ) (p : Page)
      → v.read page ≡ some p
      → IsWay v leaf q low high (suc l) page lo hi
      → (c : ℕ) × (c ≤ get_count p)
        × (l ≡ 0 → p.pointers c ≡ q)
        × IsWay v leaf q low high l
            (get_mapping v.table (p.pointers c))
            (lower p lo c)
            (upper p hi c)
  unfolding IsWay
  IsWay-node l page lo hi p held (x, at, way) =
      subst
        (λ (x : Page).
          (c : ℕ) × (c ≤ get_count x)
          × (l ≡ 0 → x.pointers c ≡ q)
          × IsWay v leaf q low high l (get_mapping v.table (x.pointers c)) (lower x lo c)
              (upper x hi c))
        (same_page (sym at ∙ held)) way

  -- The lower bound of the leaf lies in the range of every node on the way.
  pub IsWay-Within :
      (g : Geometry) (l page lo : ℕ) (hi : Option ℕ)
      → IsTree v.table v.read g l page lo hi
      → IsOwned v l page lo
      → Below hi lo
      → IsWay v leaf q low high l page lo hi
      → Within lo hi low
  unfolding IsTree IsOwned IsWay
  IsWay-Within g zero page lo hi tree owned b (at, same, top) = rw (← same) (omega arith, b)
  IsWay-Within g (suc l) page lo hi (p, held, node, below) (place, owned) b way =
      let (c, h, last, path) = IsWay-node l page lo hi p held way in
      narrower p lo hi c low node h (
        IsWay-Within g l (get_mapping v.table (p.pointers c)) (lower p lo c) (upper p hi c)
          (below c h) (((owned p held).1 c h).1) (child-Below p lo hi c node b ((owned p held).0) h)
          path)

  -- The leaf and its pointer carry their labels.
  pub record Labelled : Type 0 where
    pub level_of : v.level_of leaf ≡ 0
    pub low_of : v.low_of leaf ≡ low
    pub pointer_level : v.pointer_level q ≡ 0
    pub pointer_low : v.pointer_low q ≡ low

  -- The leaf does not stand in a tree whose range is without its lower bound.
  pub outside-Avoids :
      (g : Geometry) (l page lo : ℕ) (hi : Option ℕ)
      → Labelled
      → IsTree v.table v.read g l page lo hi
      → IsOwned v l page lo
      → Below hi lo
      → ¬ Within lo hi low
      → Avoids v leaf q l page
  unfolding IsTree IsOwned Avoids
  outside-Avoids g zero page lo hi labels tree place b outside = λ e. outside (
      let same : lo ≡ low = sym place.low_of ∙ ap (λ x. v.low_of x) e ∙ labels.low_of in
      rw (← same) (omega arith, b))
  outside-Avoids g (suc l) page lo hi labels (p, held, node, below) (place, owned) b outside = (
    λ e.
        (let same : suc l ≡ 0 = sym place.level_of ∙ ap (λ x. v.level_of x) e ∙ labels.level_of in
          omega arith),
    λ x at.
        (let same_p : p ≡ x = same_page (sym held ∙ at) in
          rw (← same_p) (λ c h.
            (let own = child-Below p lo hi c node b ((owned p held).0) h in
              (
                λ e. outside (
                    narrower p lo hi c low node h (
                      let same : lower p lo c ≡ low =
                        sym (((owned p held).1 c h).0.low_of)
                        ∙ ap (λ x. v.pointer_low x) e
                        ∙ labels.pointer_low in
                      subst (λ k. Within (lower p lo c) (upper p hi c) k) same (omega arith, own))),
                outside-Avoids g l (get_mapping v.table (p.pointers c)) (lower p lo c)
                    (upper p hi c) labels (below c h) (((owned p held).1 c h).1) own
                    (λ w. outside (narrower p lo hi c low node h w)),
              )))),
  )
