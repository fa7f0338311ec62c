-- ===== src/Tree/Grow/Moved.antt =====
-- A leaf of a tree of src/vmtree.c that went to another page: the parts of the tree without it.
use vmtree.Base.{
  ℕ, zero, suc, ◌-◌, ◌^◌, ◌≤◌, ◌<◌, ◌≡◌, ◌≢◌, ◌⊎◌, true, Option, some, arith, ◌==◌, sym, ◌∙◌, inl,
  inr, Bool-cases,
}
use vmtree.Records.{Record}
use vmtree.Mapping.{get_mapping, empty_mapping}
use vmtree.Node.{Page, Geometry, get_count, prev_id_constant}
use vmtree.Tree.Shape.{IsTree, IsNode, InTree, InTree-node, lower, upper}
use vmtree.Tree.Owned.{View, Linked, IsPointer, IsPlace, IsOwned, IsOwned-IsPlace}

-- A page that is not the leaf stays as it is.
pub record Stays (v v' : View) (next page : ℕ) : Type 0 where
  pub apart : page ≢ next
  pub in_use : v'.used page ≡ true
  pub reads : v'.read page ≡ v.read page
  pub level_of : v'.level_of page ≡ v.level_of page
  pub low_of : v'.low_of page ≡ v.low_of page

-- The leaf at `leaf`, to which pointer `q` leads, went to the page `next`.
pub record Moves (v v' : View) (leaf next q : ℕ) : Type 0 where
  pub stays : (x : ℕ) → v.used x ≡ true → x ≢ leaf → Stays v v' next x
  pub pointer_level : (x : ℕ) → v'.pointer_level x ≡ v.pointer_level x
  pub pointer_low : (x : ℕ) → v'.pointer_low x ≡ v.pointer_low x
  pub leads : get_mapping v'.table q ≡ next
  pub others : (x : ℕ) → x < empty_mapping → x ≢ q → get_mapping v'.table x ≡ get_mapping v.table x
  pub small : next < 2 ^ 16

-- A tree in which neither the page `leaf` nor the pointer `q` stands.
unfoldable pub Avoids : View → (leaf q levels page : ℕ) → Type 0
Avoids v leaf q zero page = page ≢ leaf
Avoids v leaf q (suc l) page =
    (page ≢ leaf)
    × ((p : Page)
        → v.read page ≡ some p
        → (c : ℕ) → c ≤ get_count p
        → (p.pointers c ≢ q) × Avoids v leaf q l (get_mapping v.table (p.pointers c)))

pub Avoids-page : (v : View) (leaf q l page : ℕ) → Avoids v leaf q l page → page ≢ leaf
unfolding Avoids
Avoids-page v leaf q zero page a = a
Avoids-page v leaf q (suc l) page a = a.0

-- The tree at a page, and its records, are what they were.
pub record Kept (v v' : View) (g : Geometry) (l page lo : ℕ) (hi : Option ℕ) : Type 0 where
  pub tree : IsTree v'.table v'.read g l page lo hi
  pub owned : IsOwned v' l page lo
  pub old : (r : Record) → InTree v.table v.read l page r → InTree v'.table v'.read l page r
  pub only : (r : Record) → InTree v'.table v'.read l page r → InTree v.table v.read l page r

-- A pointer of a node, and the tree it leads to.
pub record Child (v : View) (g : Geometry) (l lo : ℕ) (hi : Option ℕ) (x : ℕ) : Type 0 where
  pub pointer : IsPointer v l lo x
  pub leads : get_mapping v.table x ≢ 2 ^ 32 - 1
  pub tree : IsTree v.table v.read g l (get_mapping v.table x) lo hi
  pub owned : IsOwned v l (get_mapping v.table x) lo

pub same_page : {p q : Page} → some p ≡ some q → p ≡ q
same_page e = cc

module _ {v v' : View} {leaf next q : ℕ} (m : Moves v v' leaf next q) where
  pub moved-IsPlace : (l page lo : ℕ) → IsPlace v l lo page → page ≢ leaf → IsPlace v' l lo page
  moved-IsPlace l page lo place ne =
      let k = m.stays page place.in_use ne in
      record {
        level_of = k.level_of ∙ place.level_of;
        low_of = k.low_of ∙ place.low_of;
        in_use = k.in_use;
      }

  moved-prev :
      (x page : ℕ)
      → page ≢ next
      → (prev_id_constant ≤ x) ⊎ ((x < empty_mapping) × (get_mapping v.table x ≢ page))
      → (prev_id_constant ≤ x) ⊎ ((x < empty_mapping) × (get_mapping v'.table x ≢ page))
  moved-prev x page apart (inl big) = inl big
  moved-prev x page apart (inr (h, ne)) = inr (
    h,
    elim (Bool-cases (x == q)) [
      | inl e ↦ (let same : x ≡ q = ground arith in rw (same, m.leads) (λ e2. apart (sym e2)))
      | inr o ↦ rw (m.others x h (ground (arith, o))) ne
    ],
  )

  moved-Linked : (x page : ℕ) → Stays v v' next page → Linked v x page → Linked v' x page
  moved-Linked x page k linked p held = elim (linked p (sym k.reads ∙ held)) [
    | inl (e, w) ↦ inl (e, moved-prev p.prev page k.apart w)
    | inr w ↦ inr w
  ]

  pub moved-IsPointer :
      (l lo x : ℕ)
      → IsPointer v l lo x
      → x ≢ q
      → Stays v v' next (get_mapping v.table x)
      → IsPointer v' l lo x
  moved-IsPointer l lo x w ne k = record {
    level_of = m.pointer_level x ∙ w.level_of;
    low_of = m.pointer_low x ∙ w.low_of;
    small = w.small;
    linked = rw (m.others x w.small ne) (moved-Linked x (get_mapping v.table x) k w.linked);
  }

  -- A node that stays, with children that are trees after the move.
  pub node-rebuilt :
      (g : Geometry) (l page lo : ℕ) (hi : Option ℕ) (p : Page)
      → v.read page ≡ some p
      → IsNode g v.table p lo hi
      → IsPlace v (suc l) lo page
      → page ≢ leaf
      → (0 < get_count p → lo < p.keys 0)
      → ((c : ℕ) → c ≤ get_count p → Child v' g l (lower p lo c) (upper p hi c) (p.pointers c))
      → IsTree v'.table v'.read g (suc l) page lo hi × IsOwned v' (suc l) page lo
  unfolding IsTree IsOwned
  node-rebuilt g l page lo hi p held node place ne first child =
      let k = m.stays page place.in_use ne in
      (
        (
          p,
          k.reads ∙ held,
          record {
            interior = node.interior;
            fits = node.fits;
            rising = node.rising;
            inside = node.inside;
            leads = λ c h. (child c h).leads;
          },
          λ c h. (child c h).tree,
        ),
        (
          moved-IsPlace (suc l) page lo place ne,
          λ x at.
              (let e : p ≡ x = same_page (sym held ∙ sym k.reads ∙ at) in
                rw (← e) (first, λ c h. ((child c h).pointer, (child c h).owned))),
        ),
      )

  -- A child that avoids the leaf, after the move.
  pub Kept-Child :
      (g : Geometry) (l lo x : ℕ) (hi : Option ℕ)
      → IsPointer v l lo x
      → x ≢ q
      → get_mapping v.table x ≢ 2 ^ 32 - 1
      → get_mapping v.table x ≢ leaf
      → Kept v v' g l (get_mapping v.table x) lo hi
      → IsOwned v l (get_mapping v.table x) lo
      → Child v' g l lo hi x
  Kept-Child g l lo x hi pointer apart some_page ne kept own =
      let same = m.others x pointer.small apart in
      let at = get_mapping v.table x in
      record {
        pointer =
            moved-IsPointer l lo x pointer apart
              (m.stays at ((IsOwned-IsPlace v l at lo own).in_use) ne);
        leads = rw same some_page;
        tree = rw same (kept.tree);
        owned = rw same (kept.owned);
      }

  -- What avoids the leaf and its pointer is kept.
  pub Avoids-Kept :
      (g : Geometry) (l page lo : ℕ) (hi : Option ℕ)
      → IsTree v.table v.read g l page lo hi
      → IsOwned v l page lo
      → Avoids v leaf q l page
      → Kept v v' g l page lo hi
  unfolding IsTree InTree IsOwned Avoids
  Avoids-Kept g zero page lo hi (p, held, is_leaf) place avoids =
      let k = m.stays page place.in_use avoids in
      record {
        tree = (p, k.reads ∙ held, is_leaf);
        owned = moved-IsPlace zero page lo place avoids;
        old = λ r (x, at, stands). (x, k.reads ∙ at, stands);
        only = λ r (x, at, stands). (x, sym k.reads ∙ at, stands);
      }
  Avoids-Kept g (suc l) page lo hi (p, held, node, below) (place, owned) (ne, avoids) =
      let reads = (m.stays page place.in_use ne).reads in
      let first = (owned p held).0 in
      let same = λ (c : ℕ) (h : c ≤ get_count p).
        m.others (p.pointers c) (((owned p held).1 c h).0.small) ((avoids p held c h).0) in
      let kept = λ (c : ℕ) (h : c ≤ get_count p).
        Avoids-Kept g l (get_mapping v.table (p.pointers c)) (lower p lo c) (upper p hi c)
          (below c h) (((owned p held).1 c h).1) ((avoids p held c h).1) in
      let (tree', owned') = node-rebuilt g l page lo hi p held node place ne first (λ c h.
        Kept-Child g l (lower p lo c) (p.pointers c) (upper p hi c) (((owned p held).1 c h).0)
          ((avoids p held c h).0) (node.leads c h)
          (Avoids-page v leaf q l (get_mapping v.table (p.pointers c)) ((avoids p held c h).1))
          (kept c h) (((owned p held).1 c h).1)) in
      record {
        tree = tree';
        owned = owned';
        old = λ r inn.
            (let (c, h, under) = InTree-node g v.table v.read l page p r held inn in
              (p, reads ∙ held, (c, h, rw (same c h) ((kept c h).old r under))));
        only = λ r inn.
            (let (c, h, under) = InTree-node g v'.table v'.read l page p r (reads ∙ held) inn in
              (p, held, (c, h, (kept c h).only r (rw (same c h) at under))));
      }
