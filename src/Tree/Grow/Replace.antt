-- ===== src/Tree/Grow/Replace.antt =====
-- The tree of src/vmtree.c when a leaf has moved and has one more record.
use vmtree.Base.{
  ℕ, zero, suc, ◌-◌, ◌^◌, ◌≤◌, ◌<◌, ◌≡◌, ◌≢◌, ◌⊎◌, refl, Option, some, arith, ◌==◌, sym, ◌∙◌, subst,
  inl, inr, Bool-cases, ap,
}
use vmtree.Records.{Record}
use vmtree.Mapping.{get_mapping}
use vmtree.Node.{Page, Geometry, get_count}
use vmtree.Tree.Shape.{IsTree, IsNode, InTree, InTree-node, lower, upper, Within, Below}
use vmtree.Tree.Owned.{View, Linked, IsPointer, IsPlace, IsOwned, IsOwned-IsPlace, one_child}
use vmtree.Tree.Grow.Moved.{
  Moves, Avoids-page, Avoids-Kept, Kept, Child, Kept-Child, moved-IsPointer, node-rebuilt,
}
use vmtree.Tree.Grow.Way.{IsWay, IsWay-node, IsWay-Within, outside-Avoids, child-Below, Labelled}

-- The tree with the record in the leaf that has moved.
pub record Replaced (v v' : View) (g : Geometry) (r : Record) (l page page' lo : ℕ) (hi : Option ℕ)
    : Type 0 where
  pub tree : IsTree v'.table v'.read g l page' lo hi
  pub owned : IsOwned v' l page' lo
  pub old : (x : Record) → InTree v.table v.read l page x → InTree v'.table v'.read l page' x
  pub new : InTree v'.table v'.read l page' r
  pub only :
      (x : Record) → InTree v'.table v'.read l page' x → InTree v.table v.read l page x ⊎ (x ≡ r)

module _ {v v' : View} {leaf next q : ℕ} (m : Moves v v' leaf next q) (g : Geometry)
    (r : Record) where
  -- A node with one child on the way, which is replaced, and others that are kept.
  node-Replaced :
      (l page lo : ℕ) (hi : Option ℕ) (p : Page) (c : ℕ)
      → v.read page ≡ some p
      → IsNode g v.table p lo hi
      → IsPlace v (suc l) lo page
      → page ≢ leaf
      → (0 < get_count p → lo < p.keys 0)
      → c ≤ get_count p
      → Child v' g l (lower p lo c) (upper p hi c) (p.pointers c)
      → Replaced v v' g r l
          (get_mapping v.table (p.pointers c))
          (get_mapping v'.table (p.pointers c))
          (lower p lo c)
          (upper p hi c)
      → ((i : ℕ)
          → i ≤ get_count p
          → i ≢ c
          → Child v' g l (lower p lo i) (upper p hi i) (p.pointers i)
            × (get_mapping v'.table (p.pointers i) ≡ get_mapping v.table (p.pointers i))
            × Kept v v' g l (get_mapping v.table (p.pointers i)) (lower p lo i) (upper p hi i))
      → Replaced v v' g r (suc l) page page lo hi
  unfolding InTree
  node-Replaced l page lo hi p c held node place ne first h child one others =
      let (tree', owned') = node-rebuilt m g l page lo hi p held node place ne first children in
      let reads = (m.stays page place.in_use ne).reads in
      record {
        tree = tree';
        owned = owned';
        old = λ x inn.
            (let (i, k, under) = InTree-node g v.table v.read l page p x held inn in
              (p, reads ∙ held, (i, k, grow i k x under)));
        new = (p, reads ∙ held, (c, h, one.new));
        only = λ x inn.
            (let (i, k, under) = InTree-node g v'.table v'.read l page p x (reads ∙ held) inn in
              elim (shrink i k x under) [
                | inl before ↦ inl (p, held, (i, k, before))
                | inr it ↦ inr it
              ]);
      }
    where
      children :
          (i : ℕ) → i ≤ get_count p → Child v' g l (lower p lo i) (upper p hi i) (p.pointers i)
      children i k = elim (Bool-cases (i == c)) [
        | inl e ↦ (let same : i ≡ c = ground (arith, e) in rw same child)
        | inr e ↦ (others i k (ground (arith, e))).0
      ]

      grow :
          (i : ℕ)
          → i ≤ get_count p
          → (x : Record) → InTree v.table v.read l (get_mapping v.table (p.pointers i)) x
          → InTree v'.table v'.read l (get_mapping v'.table (p.pointers i)) x
      grow i k x inn = elim (Bool-cases (i == c)) [
        | inl e ↦ (let same : i ≡ c = ground (arith, e) in rw same (one.old x (rw same at inn)))
        | inr e ↦
            let (child', same, kept) = others i k (ground (arith, e)) in rw same (kept.old x inn)
      ]

      shrink :
          (i : ℕ)
          → i ≤ get_count p
          → (x : Record) → InTree v'.table v'.read l (get_mapping v'.table (p.pointers i)) x
          → InTree v.table v.read l (get_mapping v.table (p.pointers i)) x ⊎ (x ≡ r)
      shrink i k x inn = elim (Bool-cases (i == c)) [
        | inl e ↦ (let same : i ≡ c = ground (arith, e) in rw same (one.only x (rw same at inn)))
        | inr e ↦
            let (child', same, kept) = others i k (ground (arith, e)) in
            inl (kept.only x (rw same at inn))
      ]

  -- The child on the way, when it is the leaf.
  leaf-Child :
      (lo x : ℕ) (hi : Option ℕ)
      → IsPointer v zero lo x
      → x ≡ q
      → Linked v' q next
      → Replaced v v' g r zero leaf next lo hi
      → Child v' g zero lo hi x
  leaf-Child lo x hi w e link base =
      let at : get_mapping v'.table x ≡ next = rw e (m.leads) in
      record {
        pointer = record {
          level_of = m.pointer_level x ∙ w.level_of;
          low_of = m.pointer_low x ∙ w.low_of;
          small = w.small;
          linked = rw at (rw e link);
        };
        leads = rw at (omega (arith, m.small));
        tree = rw at (base.tree);
        owned = rw at (base.owned);
      }

  module _ (low : ℕ) (high : Option ℕ) (labels : Labelled v leaf q low high)
      (link : Linked v' q next) (base : Replaced v v' g r zero leaf next low high) where
    -- The children that are not on the way.
    other-Child :
        (l lo : ℕ) (hi : Option ℕ) (p : Page) (c i : ℕ)
        → IsNode g v.table p lo hi
        → i ≤ get_count p
        → c ≤ get_count p
        → i ≢ c
        → Within (lower p lo c) (upper p hi c) low
        → Below (upper p hi i) (lower p lo i)
        → IsTree v.table v.read g l
            (get_mapping v.table (p.pointers i))
            (lower p lo i)
            (upper p hi i)
        → IsPointer v l (lower p lo i) (p.pointers i)
        → IsOwned v l (get_mapping v.table (p.pointers i)) (lower p lo i)
        → Child v' g l (lower p lo i) (upper p hi i) (p.pointers i)
          × (get_mapping v'.table (p.pointers i) ≡ get_mapping v.table (p.pointers i))
          × Kept v v' g l (get_mapping v.table (p.pointers i)) (lower p lo i) (upper p hi i)
    other-Child l lo hi p c i node hi' hc ne w b tree pointer own =
        let at = get_mapping v.table (p.pointers i) in
        let outside : ¬ Within (lower p lo i) (upper p hi i) low =
          λ w'. ne (one_child p lo hi i c low node hi' hc w' w) in
        let avoids =
          outside-Avoids v leaf q low high g l at (lower p lo i) (upper p hi i) labels tree own b
            outside in
        let apart : p.pointers i ≢ q = λ e. outside (
          let same : lower p lo i ≡ low =
            sym pointer.low_of ∙ ap (λ x. v.pointer_low x) e ∙ labels.pointer_low in
          subst (λ k. Within (lower p lo i) (upper p hi i) k) same (omega arith, b)) in
        let kept = Avoids-Kept m g l at (lower p lo i) (upper p hi i) tree own avoids in
        (
          Kept-Child m g l (lower p lo i) (p.pointers i) (upper p hi i) pointer apart
              (node.leads i hi') (Avoids-page v leaf q l at avoids) kept own,
          m.others (p.pointers i) (pointer.small) apart,
          kept,
        )

    -- The child on the way, when it is a node.
    inner-Child :
        (l lo x : ℕ) (hi : Option ℕ)
        → IsPointer v (suc l) lo x
        → get_mapping v.table x ≢ 2 ^ 32 - 1
        → IsOwned v (suc l) (get_mapping v.table x) lo
        → Replaced v v' g r (suc l) (get_mapping v.table x) (get_mapping v.table x) lo hi
        → Child v' g (suc l) lo hi x
          × Replaced v v' g r (suc l) (get_mapping v.table x) (get_mapping v'.table x) lo hi
    inner-Child l lo x hi w some_page own done =
        let at = get_mapping v.table x in
        let apart : x ≢ q = λ e.
          (let bad : suc l ≡ 0 =
              sym w.level_of ∙ ap (λ y. v.pointer_level y) e ∙ labels.pointer_level in
            absurd (omega arith)) in
        let place = IsOwned-IsPlace v (suc l) at lo own in
        let ne : at ≢ leaf = λ e.
          (let bad : suc l ≡ 0 = sym place.level_of ∙ ap (λ y. v.level_of y) e ∙ labels.level_of in
            absurd (omega arith)) in
        let same = m.others x (w.small) apart in
        (
          record {
            pointer = moved-IsPointer m (suc l) lo x w apart (m.stays at (place.in_use) ne);
            leads = rw same some_page;
            tree = rw same (done.tree);
            owned = rw same (done.owned);
          },
          rw same done,
        )

    -- What is known of the children of a node on the way.
    abbrev Below-node : (l lo : ℕ) → Option ℕ → Page → Type 0
    Below-node l lo hi p =
        (c : ℕ)
        → c ≤ get_count p
        → IsTree v.table v.read g l (get_mapping v.table (p.pointers c)) (lower p lo c)
            (upper p hi c)
          × IsPointer v l (lower p lo c) (p.pointers c)
          × IsOwned v l (get_mapping v.table (p.pointers c)) (lower p lo c)

    step-Replaced :
        (l page lo : ℕ) (hi : Option ℕ) (p : Page) (c : ℕ)
        → v.read page ≡ some p
        → IsNode g v.table p lo hi
        → IsPlace v (suc l) lo page
        → (0 < get_count p → lo < p.keys 0)
        → Below hi lo
        → Below-node l lo hi p
        → c ≤ get_count p
        → IsWay v leaf q low high l
            (get_mapping v.table (p.pointers c))
            (lower p lo c)
            (upper p hi c)
        → Child v' g l (lower p lo c) (upper p hi c) (p.pointers c)
          × Replaced v v' g r l
              (get_mapping v.table (p.pointers c))
              (get_mapping v'.table (p.pointers c))
              (lower p lo c)
              (upper p hi c)
        → Replaced v v' g r (suc l) page page lo hi
    step-Replaced l page lo hi p c held node place first b below h path (child, one) =
        let own = λ (i : ℕ) (k : i ≤ get_count p). child-Below p lo hi i node b first k in
        let within =
          IsWay-Within v leaf q low high g l (get_mapping v.table (p.pointers c)) (lower p lo c)
            (upper p hi c) ((below c h).0) ((below c h).2) (own c h) path in
        let ne : page ≢ leaf = λ e.
          (let bad : suc l ≡ 0 = sym place.level_of ∙ ap (λ y. v.level_of y) e ∙ labels.level_of in
            absurd (omega arith)) in
        node-Replaced l page lo hi p c held node place ne first h child one (λ i k other.
          other-Child l lo hi p c i node k h other within (own i k) ((below i k).0) ((below i k).1)
            ((below i k).2))

    -- The whole tree, when the leaf has moved and has the record.
    pub IsWay-Replaced :
        (l page lo : ℕ) (hi : Option ℕ)
        → IsTree v.table v.read g (suc l) page lo hi
        → IsOwned v (suc l) page lo
        → Below hi lo
        → IsWay v leaf q low high (suc l) page lo hi
        → Replaced v v' g r (suc l) page page lo hi
    unfolding IsTree IsOwned IsWay
    IsWay-Replaced zero page lo hi (p, held, node, below) (place, owned) b way =
        let (c, h, last, (at, same_low, same_high)) =
          IsWay-node v leaf q low high zero page lo hi p held way in
        let pointer = ((owned p held).1 c h).0 in
        let base' : Replaced v v' g r zero leaf next (lower p lo c) (upper p hi c) =
          rw (same_low, same_high) base in
        let child =
          leaf-Child (lower p lo c) (p.pointers c) (upper p hi c) pointer (last refl) link base' in
        let to : get_mapping v'.table (p.pointers c) ≡ next = rw (last refl) (m.leads) in
        step-Replaced zero page lo hi p c held node place ((owned p held).0) b
          (λ i k. (below i k, ((owned p held).1 i k).0, ((owned p held).1 i k).1)) h
          (at, same_low, same_high) (child, rw (at, to) base')
    IsWay-Replaced (suc l) page lo hi (p, held, node, below) (place, owned) b way =
        let (c, h, last, path) = IsWay-node v leaf q low high (suc l) page lo hi p held way in
        let at = get_mapping v.table (p.pointers c) in
        let own = child-Below p lo hi c node b ((owned p held).0) h in
        let (pointer, under) = (owned p held).1 c h in
        let done = IsWay-Replaced l at (lower p lo c) (upper p hi c) (below c h) under own path in
        step-Replaced (suc l) page lo hi p c held node place ((owned p held).0) b
          (λ i k. (below i k, ((owned p held).1 i k).0, ((owned p held).1 i k).1)) h path
          (inner-Child l (lower p lo c) (p.pointers c) (upper p hi c) pointer (node.leads c h) under
            done)
