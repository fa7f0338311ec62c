-- ===== src/Tree/Insert/Grown.antt =====
-- A leaf of src/vmtree.c before and after a record is put into it.
use vmtree.Base.{
  ℕ, ◌+◌, ◌-◌, ◌^◌, ◌≤◌, ◌<◌, ◌≡◌, ◌⊎◌, refl, true, Option, none, some, ltb, ◌==◌, if◌then◌else◌,
  arith, inl, inr, Bool-cases, sym, ◌∙◌, subst,
}
use vmtree.Records.{Record}
use vmtree.Node.{Page, Geometry, get_count, is_interior}
use vmtree.Node.Search.{Place, after, search_node, search_leaf}
use vmtree.Node.Search.Found.{Ascends, keys_of, SplitsAt, search_leaf-Finds}
use vmtree.Node.Leaf.{insert_record}
use vmtree.Node.Leaf.Insert.{insert_record-Ascends, insert_record-slot, insert_record-count}
use vmtree.Tree.Shape.{IsLeaf, Within}

-- A record among the records of a leaf.
abbrev pub Stands : Page → Record → Type 0
Stands p x = (i : ℕ) × (i < get_count p) × (p.records i ≡ x)

-- A leaf with the record at its place: a leaf, with the records of before and the new one.
pub record Grown (p q : Page) (r : Record) (lo : ℕ) (hi : Option ℕ) : Type 0 where
  pub leaf : IsLeaf q lo hi
  pub old : (x : Record) → Stands p x → Stands q x
  pub new : Stands q r
  pub only : (x : Record) → Stands q x → Stands p x ⊎ (x ≡ r)

slot :
    (p : Page) (place : Place) (r : Record) (j : ℕ)
    → after place ≤ get_count p
    → j ≤ get_count p
    → (ltb j (after place) ≡ true → (insert_record p place r).records j ≡ p.records j)
      × (j ≡ after place → (insert_record p place r).records j ≡ r)
      × (after place < j → (insert_record p place r).records j ≡ p.records (j - 1))
slot p place r j h k =
    let e = insert_record-slot p place r j h k in
    (λ w. e ∙ ground (arith, w), λ w. e ∙ ground (arith, w), λ w. e ∙ ground (arith, w))

pub insert_record-Grown :
    (p : Page) (place : Place) (r : Record) (lo : ℕ) (hi : Option ℕ)
    → IsLeaf p lo hi
    → Within lo hi r.key
    → SplitsAt (get_count p) (keys_of p.records) r.key (after place)
    → get_count p < 9999
    → Grown p (insert_record p place r) r lo hi
unfolding insert_record
insert_record-Grown p place r lo hi leaf w s few =
    let plain : p.count_field < 10000 = ground (arith, leaf.flat) in
    let fits : p.count_field < 2 ^ 16 - 1 = omega arith in
    let n = insert_record-count p place r few fits in
    record {
      leaf = record {
        flat = ground arith;
        sorted = insert_record-Ascends p place r s leaf.sorted few fits;
        inside = λ i h. kept_inside i (omega arith);
      };
      old = λ x (i, h, e). elim (Bool-cases (ltb i (after place))) [
        | inl before ↦ (i, omega arith, (slot p place r i s.inside (omega arith)).0 before ∙ e)
        | inr behind ↦ (
          i + 1,
          omega arith,
          (slot p place r (i + 1) s.inside (omega arith)).2 (ground (arith, behind)) ∙ back i e,
        )
      ];
      new = (
        after place,
        omega (arith, s.inside),
        (slot p place r (after place) s.inside s.inside).1 refl,
      );
      only = λ x (i, h, e). elim (Bool-cases (ltb i (after place))) [
        | inl before ↦ inl (
          i,
          ground (arith, before, s.inside),
          sym ((slot p place r i s.inside (omega arith)).0 before) ∙ e,
        )
        | inr behind ↦ elim (Bool-cases (i == after place)) [
          | inl here ↦
              inr (sym e ∙ (slot p place r i s.inside (omega arith)).1 (ground (arith, here)))
          | inr past ↦ inl (
            i - 1,
            ground (arith, behind, past),
            sym ((slot p place r i s.inside (omega arith)).2 (ground (arith, behind, past))) ∙ e,
          )
        ]
      ];
    }
  where
    back : {x : Record} (i : ℕ) → p.records i ≡ x → p.records (i + 1 - 1) ≡ x
    back i e = (let same : i + 1 - 1 ≡ i = omega arith in rw same e)

    moved : {x y : Record} → x ≡ y → Within lo hi y.key → Within lo hi x.key
    moved e b = subst (λ (z : Record). Within lo hi z.key) (sym e) b

    kept_inside : (i : ℕ) → i ≤ get_count p → Within lo hi ((insert_record p place r).records i).key
    kept_inside i h = elim (Bool-cases (ltb i (after place))) [
      | inl before ↦
          moved ((slot p place r i s.inside h).0 before)
            (leaf.inside i (ground (arith, before, s.inside)))
      | inr behind ↦ elim (Bool-cases (i == after place)) [
        | inl here ↦ moved ((slot p place r i s.inside h).1 (ground (arith, here))) w
        | inr past ↦
            moved ((slot p place r i s.inside h).2 (ground (arith, behind, past)))
              (leaf.inside (i - 1) (ground (arith, behind, past)))
      ]
    ]

-- Where `vmtreePutRecord` puts a record in a leaf: it does not search an empty one.
pub leaf_place :
    (p : Page) (key : ℕ)
    → Ascends (get_count p) (keys_of p.records)
    → (place : Place) × ((if get_count p == 0 then some none else search_leaf p key true)
        ≡ some place)
      × SplitsAt (get_count p) (keys_of p.records) key (after place)
leaf_place p key asc = elim (Bool-cases (get_count p == 0)) [
  | inl empty ↦ (
    none,
    rw empty refl,
    record {
      inside = omega arith;
      left = λ i h. absurd (omega arith);
      right = λ i h k. absurd (ground (arith, empty));
      tight = λ i h k. absurd (ground (arith, empty));
    },
  )
  | inr some_records ↦
      let (place, run, splits) = search_leaf-Finds p key true asc in
      (place, rw some_records run, splits)
]

pub leaf_search :
    (g : Geometry) (levels : ℕ) (p : Page) (key : ℕ)
    → levels ≡ 1
    → search_node g levels p key true ≡ search_leaf p key true
unfolding search_node
leaf_search g levels p key one = elim (Bool-cases (is_interior p)) [
  | inl e ↦ rw (one, e, search_node) refl
  | inr e ↦ rw (one, e, search_node) refl
]
