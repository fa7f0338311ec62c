-- ===== src/Tree/Grow/Route.antt =====
-- The walk of `vmtreePutRecord` in src/vmtree.c from the root to the leaf.
use vmtree.Base.{
  ℕ, zero, suc, ◌+◌, ◌-◌, ◌≤◌, ◌<◌, ◌≡◌, refl, Bool, true, Option, some, Memory, ◌==◌, arith, ◌∙◌,
  ap, Bool-cases, inl, inr,
}
use vmtree.Mapping.{Mappings, get_mapping}
use vmtree.Node.{Page, Geometry, get_count}
use vmtree.Node.Search.Found.{SplitsAt}
use vmtree.Storage.{Device}
use vmtree.Buffer.{Buffer}
use vmtree.Buffer.Returns.{IsReady, read_fields}
use vmtree.Tree.{Tree, with_buffer, set_path}
use vmtree.Tree.Put.{find_leaf}
use vmtree.Tree.Shape.{IsTree, IsLeaf, IsNode, Within, Below, lower, upper}
use vmtree.Tree.Owned.{Labels, View, view, IsPointer, IsPlace, IsOwned}
use vmtree.Tree.Walk.{step_down-Steps}
use vmtree.Tree.Grow.Way.{IsWay}

-- The key belongs to the child where it splits the keys of a node.
SplitsAt-Within :
    {g : Geometry} {t : Mappings} (p : Page) (lo : ℕ) (hi : Option ℕ) (c k : ℕ)
    → IsNode g t p lo hi
    → SplitsAt (get_count p) p.keys k c
    → Within lo hi k
    → Within (lower p lo c) (upper p hi c) k
SplitsAt-Within p lo hi c k n s w = (low, high)
  where
    low : lower p lo c ≤ k
    low = elim (Bool-cases (c == 0)) [
      | inl e ↦ rw e (w.0)
      | inr e ↦ rw e (s.left (c - 1) (ground (arith, e)))
    ]

    high : Below (upper p hi c) k
    high = elim (Bool-cases (c == get_count p)) [
      | inl e ↦ rw e (w.1)
      | inr e ↦
          let inside : c < get_count p = ground (arith, e, s.inside) in
          rw e (ground (arith, inside, s.tight c, n.rising (c - 1) c))
    ]

module _ {St : Type 0} (d : Device Page St) (st : St) (s : Labels) (used : ℕ → Bool) where
  abbrev seen : Tree St → View
  seen t = view s used t.table (d.read_page st)

  -- The leaf whose range has the key, and the pointer that leads to it.
  pub record Finds (t : Tree St) (l key level page lo : ℕ) (hi : Option ℕ) : Type 0 where
    pub after : Buffer St
    pub path : Memory ℕ
    pub leaf : ℕ
    pub p : Page
    pub low : ℕ
    pub high : Option ℕ
    pub q : ℕ
    pub run :
        find_leaf d l t key level page
        ≡ some (record (with_buffer t after) { active_path = path }, some leaf)
    pub ready : IsReady d after
    pub rest : after ≡ read_fields d t.buffer after
    pub root : path 0 ≡ t.active_path 0
    pub held : d.read_page st leaf ≡ some p
    pub is_leaf : IsLeaf p low high
    pub within : Within low high key
    pub place : IsPlace (seen t) 0 low leaf
    pub way : IsWay (seen t) leaf q low high l page lo hi
    pub pointer : 0 < l → IsPointer (seen t) 0 low q × (get_mapping t.table q ≡ leaf)

  -- The pointer that leads to the leaf, one level up: at the last level it is the one of the node.
  last-IsPointer :
      (t : Tree St) (l x lo leaf low q : ℕ) (hi high : Option ℕ)
      → IsPointer (seen t) l lo x
      → IsWay (seen t) leaf q low high l (get_mapping t.table x) lo hi
      → (0 < l → IsPointer (seen t) 0 low q × (get_mapping t.table q ≡ leaf))
      → (y : ℕ) × (l ≡ 0 → x ≡ y)
        × IsWay (seen t) leaf y low high l (get_mapping t.table x) lo hi
        × IsPointer (seen t) 0 low y
        × (get_mapping t.table y ≡ leaf)
  unfolding IsWay
  last-IsPointer t zero x lo leaf low q hi high pointer (at, same, high_same) below =
      (x, λ e. refl, (at, same, high_same), rw same at pointer, at)
  last-IsPointer t (suc l) x lo leaf low q hi high pointer way below =
      let (found, leads) = below (omega arith) in (q, λ e. absurd (omega arith), way, found, leads)

  pub find_leaf-Finds :
      (l : ℕ) (t : Tree St) (key level page lo : ℕ) (hi : Option ℕ)
      → IsReady d t.buffer
      → t.buffer.storage ≡ st
      → IsTree t.table (d.read_page st) t.geometry l page lo hi
      → IsOwned (seen t) l page lo
      → Within lo hi key
      → l + 1 ≤ t.levels
      → Finds t l key level page lo hi
  unfolding find_leaf IsTree IsOwned IsWay with_buffer set_path
  find_leaf-Finds zero t key level page lo hi ready same (p, held, leaf) place w h = record {
    after = t.buffer;
    path = t.active_path;
    leaf = page;
    p = p;
    low = lo;
    high = hi;
    q = 0;
    run = refl;
    ready = ready;
    rest = refl;
    root = refl;
    held = held;
    is_leaf = leaf;
    within = w;
    place = place;
    way = (refl, refl, refl);
    pointer = λ bad. absurd (omega arith);
  }
  find_leaf-Finds (suc l) t key level page lo hi ready same (p, held, n, below) (place, owned) w h =
      let g = step_down-Steps d st t page key lo hi true p ready same held n (omega arith) in
      let c = g.child in
      let next = get_mapping t.table (p.pointers c) in
      let t' = set_path (with_buffer t g.after) (level + 1) next in
      let (pointer, under) = (owned p held).1 c (g.splits.inside) in
      let w' = SplitsAt-Within p lo hi c key n g.splits w in
      let f =
        find_leaf-Finds l t' key (level + 1) next (lower p lo c) (upper p hi c) g.ready g.storage
          (below c g.splits.inside) under w' (omega arith) in
      let (y, last, way, found, leads) =
        last-IsPointer t l (p.pointers c) (lower p lo c) f.leaf f.low f.q (upper p hi c) f.high
          pointer f.way f.pointer in
      record {
        after = f.after;
        path = f.path;
        leaf = f.leaf;
        p = f.p;
        low = f.low;
        high = f.high;
        q = y;
        run = rw (g.run, find_leaf) (f.run);
        ready = f.ready;
        rest = f.rest ∙ ap (λ b. read_fields d b f.after) g.rest;
        root = f.root ∙ ground arith;
        held = f.held;
        is_leaf = f.is_leaf;
        within = f.within;
        place = f.place;
        way = (p, held, (c, g.splits.inside, last, way));
        pointer = λ e. (found, leads);
      }
