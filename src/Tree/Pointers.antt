-- ===== src/Tree/Pointers.antt =====
-- `vmtreeUpdatePointers` and `vmtreeUpdatePrev`: what they do to the pointers and to the table.
use vmtree.Base.{
  ℕ, zero, suc, ◌+◌, ◌≤◌, ◌<◌, ◌≡◌, ◌≢◌, ◌⊎◌, refl, Memory, ◌==◌, arith, inl, inr, Bool-cases, ap,
  ◌∙◌, sym,
}
use vmtree.Mapping.{Mappings, get_mapping, empty_mapping}
use vmtree.Mapping.Count.{IsValid, delete_mapping-IsValid}
use vmtree.Mapping.Remove.{get_mapping-delete_mapping_ne}
use vmtree.Tree.Mapped.{Saved, Progress, resolve, update_one, update_loop}

-- The pointers with the numbers from `i` up to `i + left` are different pages of the table.
pub record AreChildren (pointers : Memory ℕ) (i left : ℕ) : Type 0 where
  pub small : (j : ℕ) → i ≤ j → j < i + left → pointers j < empty_mapping
  pub distinct :
      (j k : ℕ) → i ≤ j → j < i + left → i ≤ k → k < i + left → pointers j ≡ pointers k → j ≡ k

-- What one round does: it changes at most the pointer `i`, and at most the mapping of its page.
record Changes (s : Saved) (i : ℕ) (x y : Progress) : Type 0 where
  valid : IsValid y.table
  here : y.pointers i ≡ resolve s x.table (x.pointers i)
  others : (j : ℕ) → j ≢ i → y.pointers j ≡ x.pointers j
  kept : (q : ℕ) → q < empty_mapping → q ≢ x.pointers i → resolve s y.table q ≡ resolve s x.table q

resolve_congr :
    (s : Saved) (t u : Mappings) (q : ℕ)
    → get_mapping u q ≡ get_mapping t q
    → resolve s u q ≡ resolve s t q
unfolding resolve
resolve_congr s t u q e = rw e refl

remaining :
    {s : Saved} {x y : Progress} (i left : ℕ)
    → Changes s i x y
    → AreChildren x.pointers i (suc left)
    → AreChildren y.pointers (i + 1) left
remaining i left one c = record {
  small = λ j h k. rw (one.others j (omega arith)) (c.small j (omega arith) (omega arith));
  distinct = λ j k h1 h2 h3 h4 e.
      c.distinct j k (omega arith) (omega arith) (omega arith) (omega arith)
        (sym (one.others j (omega arith)) ∙ e ∙ one.others k (omega arith));
}

update_one-Changes :
    (s : Saved) (i : ℕ) (x : Progress)
    → IsValid x.table
    → x.pointers i < empty_mapping
    → Changes s i x (update_one s i x)
unfolding update_one
update_one-Changes s i x v h =
    elim (Bool-cases (resolve s x.table (x.pointers i) == x.pointers i)) [
      | inl same ↦
          rw (same, update_one)
            (record {
              valid = v;
              here = ground arith;
              others = λ j ne. refl;
              kept = λ q k ne. refl;
            })
      | inr moved ↦
          rw (moved, update_one)
            (record {
              valid = delete_mapping-IsValid (x.pointers i) h v;
              here = ground arith;
              others = λ j ne. ground arith;
              kept = λ q k ne.
                  resolve_congr s _ _ q
                    (get_mapping-delete_mapping_ne (x.pointers i) q v h k (λ e. ne (sym e)));
            })
    ]

-- The loop of `vmtreeUpdatePointers`, on a valid table and pointers that are different pages below
-- the mark of an empty slot, brings every pointer of its range to where the saved mapping or the
-- table led before the loop, leaves every other pointer, and leaves a valid table.
pub update_loop-resolves :
    (left : ℕ) (s : Saved) (i : ℕ) (x : Progress)
    → IsValid x.table
    → AreChildren x.pointers i left
    → IsValid (update_loop left s i x).table
      × ((j : ℕ)
          → i ≤ j
          → j < i + left
          → (update_loop left s i x).pointers j ≡ resolve s x.table (x.pointers j))
      × ((j : ℕ) → (j < i) ⊎ (i + left ≤ j) → (update_loop left s i x).pointers j ≡ x.pointers j)
unfolding update_loop
update_loop-resolves zero s i x v c = (v, λ j h k. absurd (omega arith), λ j h. refl)
update_loop-resolves (suc left) s i x v c =
    let y = update_one s i x in
    let one = update_one-Changes s i x v (c.small i (omega arith) (omega arith)) in
    let rest = update_loop-resolves left s (i + 1) y one.valid (remaining i left one c) in
    (
      rest.0,
      λ j h k. elim (Bool-cases (j == i)) [
        | inl same ↦
            (let here : j ≡ i = ground arith in rw here (rest.2 i (inl (omega arith)) ∙ one.here))
        | inr other ↦
            (let ne : j ≢ i = ground arith in
              rest.1 j (omega arith) (omega arith)
              ∙ ap (resolve s y.table) (one.others j ne)
              ∙ one.kept (x.pointers j) (c.small j h k)
                  (λ e. ne (c.distinct j i h k (omega arith) (omega arith) e)))
      ],
      λ j h. rest.2 j (ground arith) ∙ one.others j (ground arith),
    )
