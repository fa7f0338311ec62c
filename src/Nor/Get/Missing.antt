-- ===== src/Nor/Get/Missing.antt =====
-- What `vmtreeGet` of src/vmtree.c finds in a tree of OVERWRITE, and what it returns for a key that
-- the leaf does not have.
use vmtree.Base.{
  ℕ, zero, suc, ◌+◌, ◌-◌, ◌^◌, ◌<◌, ◌≡◌, ◌≢◌, refl, Bool, true, false, ◌&&◌, not, some, ◌==◌, arith,
  Bool-cases, inl, inr, ◌∙◌, sym, ap,
}
use vmtree.Mapping.{Mappings, get_mapping}
use vmtree.Node.{Page, is_interior}
use vmtree.Storage.{Device}
use vmtree.Buffer.{Buffer, read_page}
use vmtree.Buffer.Returns.{IsReady, read_page-Reads}
use vmtree.Tree.{Tree, with_buffer}
use vmtree.Nor.{NorPage, NorGeometry, leaf_limit, is_live}
use vmtree.Nor.Interior.{search_node_overwrite, match_loop}
use vmtree.Nor.Put.{step_down_nor}
use vmtree.Nor.Get.{walk_nor, get_at_leaf_nor, get_nor}

-- The data for a key in a leaf: that of a valid record with the key, or, where there is none, what
-- the first location has.
pub data Gives (limit : ℕ) (p : NorPage) (key : ℕ) : ℕ → Type 0 where
  hit : (i : ℕ) → i < limit → is_live p i ≡ true → p.keys i ≡ key → Gives limit p key (p.values i)
  miss :
      ((i : ℕ) → i < limit → is_live p i ≡ true → p.keys i ≢ key) → Gives limit p key (p.values 0)

match_loop-Gives :
    (rounds c limit : ℕ) (p : NorPage) (key : ℕ)
    → c + rounds ≡ limit
    → ((i : ℕ) → i < c → is_live p i ≡ true → p.keys i ≢ key)
    → Gives limit p key (p.values (match_loop rounds p key c))
unfolding match_loop
match_loop-Gives zero c limit p key total before =
    miss (λ i lt live. before i (omega (arith, lt, total)) live)
match_loop-Gives (suc rounds) c limit p key total before =
    elim (Bool-cases (is_live p c && key == p.keys c)) [
      | inl found ↦
          let live : is_live p c ≡ true = ground (arith, found) in
          let same : p.keys c ≡ key = ground (arith, found) in
          rw (found, match_loop) (hit c (omega (arith, total)) live same)
      | inr other ↦
          let rest =
            match_loop-Gives rounds (c + 1) limit p key (omega (arith, total)) (λ i lt live.
              elim (Bool-cases (i == c)) [
                | inl same ↦ ground (arith, other, live, same)
                | inr before_c ↦ before i (ground (arith, lt, before_c)) live
              ]) in
          rw (other, match_loop) rest
    ]

module _ {St : Type 0} (d : Device Page St) (g : NorGeometry) where
  -- The pages in the storage `s` on the way of a key, and the leaf at its end.
  unfoldable pub Leads : St → Mappings → (levels key left page : ℕ) → (leaf : Page) → Type 0
  Leads s m levels key zero page leaf =
      (d.read_page s page ≡ some leaf) × ((is_interior leaf && not (levels == 1)) ≡ false)
  Leads s m levels key (suc left) page leaf =
      (p : Page) × (d.read_page s page ≡ some p)
      × ((is_interior p && not (levels == 1)) ≡ true)
      × ((get_mapping m (p.nor.values (search_node_overwrite g true p.nor key)) == 2 ^ 32 - 1)
          ≡ false)
      × Leads s m levels key left
          (get_mapping m (p.nor.values (search_node_overwrite g true p.nor key))) leaf

  abbrev next_of : Tree St → Page → (key : ℕ) → ℕ
  next_of t p key = get_mapping t.table (p.nor.values (search_node_overwrite g true p.nor key))

  step_down_nor-goes :
      (t : Tree St) (page key slot : ℕ) (b : Buffer St)
      → read_page d t.buffer (t.active_path 0) page ≡ some (b, some slot)
      → (is_interior (b.buffers slot) && not (t.levels == 1)) ≡ true
      → (next_of t (b.buffers slot) key == 2 ^ 32 - 1) ≡ false
      → step_down_nor d g t page key ≡ some (with_buffer t b, some (next_of t (b.buffers slot) key))
  unfolding step_down_nor
  step_down_nor-goes t page key slot b read inner ok =
      let n = (b.buffers slot).nor in
      let next = λ (x : Bool). get_mapping t.table (n.values (search_node_overwrite g x n key)) in
      rw (step_down_nor, read, inner, ok)
        (ap (λ (x : Bool). some (with_buffer t b, some (next x))) inner)

  -- What the walk gives.
  record Walked (t : Tree St) (left key page : ℕ) (leaf : Page) : Type 0 where
    after : Buffer St
    end : ℕ
    run : walk_nor d g left t key page ≡ some (with_buffer t after, some end)
    ready : IsReady d after
    storage : after.storage ≡ t.buffer.storage
    held : d.read_page t.buffer.storage end ≡ some leaf
    flat : (is_interior leaf && not (t.levels == 1)) ≡ false

  walk_nor-Walked :
      (left : ℕ) (t : Tree St) (key page : ℕ) (leaf : Page)
      → IsReady d t.buffer
      → Leads t.buffer.storage t.table t.levels key left page leaf
      → Walked t left key page leaf
  unfolding walk_nor Leads with_buffer
  walk_nor-Walked zero t key page leaf ready (held, flat) = record {
    after = t.buffer;
    end = page;
    run = refl;
    ready = ready;
    storage = refl;
    held = held;
    flat = flat;
  }
  walk_nor-Walked (suc left) t key page leaf ready (p, held, inner, ok, way) =
      let r = read_page-Reads d t.buffer (t.active_path 0) page p ready held in
      let step =
        step_down_nor-goes t page key r.slot r.after r.run (rw r.found inner) (rw r.found ok) in
      let next = next_of t p key in
      let same : next_of t (r.after.buffers r.slot) key ≡ next = rw r.found refl in
      let w =
        walk_nor-Walked left (with_buffer t r.after) key next leaf r.ready (rw r.storage way) in
      record {
        after = w.after;
        end = w.end;
        run = rw (walk_nor, step, same) w.run;
        ready = w.ready;
        storage = w.storage ∙ r.storage;
        held = rw (sym r.storage) w.held;
        flat = w.flat;
      }

  -- `vmtreeGet` on a tree in the storage, with a leaf at the end of the way of the key: it returns 0
  -- also for a key that the leaf does not have. The data is that of a valid record with the key, or
  -- else what the first location of the leaf has, and the storage is as it was. (The page buffers
  -- agree with the storage.)
  pub get_nor-Gives :
      (t : Tree St) (key : ℕ) (leaf : Page)
      → IsReady d t.buffer
      → Leads t.buffer.storage t.table t.levels key (t.levels - 1) (t.active_path 0) leaf
      → (found : ℕ) × (after : Buffer St) × (get_nor d g t key
          ≡ some (with_buffer t after, some found))
        × Gives (leaf_limit g) leaf.nor key found
        × (after.storage ≡ t.buffer.storage)
  unfolding get_nor get_at_leaf_nor search_node_overwrite with_buffer
  get_nor-Gives t key leaf ready way =
      let w = walk_nor-Walked (t.levels - 1) t key (t.active_path 0) leaf ready way in
      let held : d.read_page w.after.storage w.end ≡ some leaf = rw w.storage w.held in
      let r = read_page-Reads d w.after (t.active_path 0) w.end leaf w.ready held in
      let loc = match_loop (leaf_limit g) leaf.nor key 0 in
      (
        leaf.nor.values loc,
        r.after,
        rw (get_nor, w.run, get_at_leaf_nor, r.run, r.found, w.flat) refl,
        match_loop-Gives (leaf_limit g) 0 (leaf_limit g) leaf.nor key (omega arith)
            (λ i lt live. absurd (omega (arith, lt))),
        r.storage ∙ w.storage,
      )
