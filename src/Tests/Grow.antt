-- ===== src/Tests/Grow.antt =====
-- Insertions into a tree of two levels.
use vmtree.Base.{
  ℕ, zero, suc, ◌+◌, ◌≤◌, ◌<◌, ◌≡◌, ◌≢◌, ◌⊎◌, ◌==◌, refl, ap, Bool, true, Option, none, some, arith,
  if◌then◌else◌, update, replicate, inl, inr, [], ◌∷◌,
}
use vmtree.Records.{Record}
use vmtree.BitArr.{bitarr_set, bitarr_get, bit_at, put_bit, set_bit}
use vmtree.BitArr.Laws.{IsBytes}
use vmtree.Mapping.{get_mapping, get_mapping_index, init_mappings, add_mapping, find_room}
use vmtree.Node.{Page}
use vmtree.Storage.Mem.{
  MemStorage, mem_read_page, is_outside, mem_device, mem_device-Keeps, HasPage,
}
use vmtree.Buffer.{
  Buffer, is_free, set_free, next_valid_page, next_valid_loop, read_page, find_buffer,
}
use vmtree.Node.Search.{search_node}
use vmtree.Tree.{Tree, with_buffer}
use vmtree.Tree.Put.{put_record, find_leaf, step_down}
use vmtree.Tree.Get.{get}
use vmtree.Tree.Answers.{IsSound, Has}
use vmtree.Tree.Shape.{lower, InTree, InTree-node, InTree-leaf}
use vmtree.Tree.Owned.{Labels, IsOwned, IsPlace, IsPointer, View, view}
use vmtree.Tree.Grow.{put_record-Added}
use vmtree.Tree.Grow.Ends.{Added}
use vmtree.Tree.Grow.Whole.{IsWhole, is_used}
use vmtree.Tree.Grow.Puts.{Fits, Puts, one_more, nothing, Puts-inserts, Among, get-put_record-Fits}
use vmtree.Tests.Mapping.{none_mapped, none_mapped-IsValid}
use vmtree.Tests.Node.{three, twenty_five}
use vmtree.Tests.Buffer.{has_page}
use vmtree.Tests.Walk.{tall_tree, tall_tree-IsSound, root_page, low_leaf, high_leaf}

-- The tree of two levels, its three pages in use.
abbrev grown_tree : Tree (MemStorage Page)
grown_tree = record tall_tree {
  buffer = record tall_tree.buffer { free_pages = replicate 1 241; next_page_write_id = 3 };
}

abbrev grown_labels : Labels
grown_labels = record {
  level_of = λ x. if x == 3 then 1 else 0;
  low_of = λ x. if x == 2 then 20 else 0;
  pointer_level = λ x. 0;
  pointer_low = λ x. if x == 2 then 20 else 0;
}

grown_tree-IsSound : IsSound mem_device grown_tree
grown_tree-IsSound = record {
  ready = record {
    coherent = record {
      agrees = λ i h k ne. absurd (ne refl);
      once = λ i j h k h' k' ne e. absurd (ne refl);
    };
    pages = omega arith;
    next = omega arith;
  };
  some_levels = omega arith;
  tree = tall_tree-IsSound.tree;
}

abbrev grown_view : View
grown_view =
    view grown_labels (is_used mem_device grown_tree.buffer) none_mapped
      (mem_read_page grown_tree.buffer.storage)

-- A leaf below the root.
abbrev Leads : ℕ → Type 0
Leads c =
    IsPointer grown_view 0 (lower root_page 0 c) (c + 1)
    × IsPlace grown_view 0 (lower root_page 0 c) (get_mapping none_mapped (c + 1))

same_page : {p q : Page} → some p ≡ some q → p ≡ q
same_page e = cc

leaf-Leads : (c : ℕ) → c ≤ 1 → Leads c
unfolding is_free bitarr_get bit_at mem_read_page is_outside get_mapping get_mapping_index
    init_mappings
leaf-Leads zero h = (
  record {
    level_of = refl;
    low_of = refl;
    small = omega arith;
    linked = λ p e. inl (refl, inl (omega (arith, ap (λ (x : Page). x.prev) (same_page e))));
  },
  record { level_of = refl; low_of = refl; in_use = refl },
)
leaf-Leads (suc zero) h = (
  record {
    level_of = refl;
    low_of = refl;
    small = omega arith;
    linked = λ p e. inl (refl, inl (omega (arith, ap (λ (x : Page). x.prev) (same_page e))));
  },
  record { level_of = refl; low_of = refl; in_use = refl },
)
leaf-Leads (suc (suc c)) h = absurd (omega arith)

grown_tree-IsOwned : IsOwned grown_view 1 3 0
unfolding IsOwned is_free bitarr_get bit_at mem_read_page is_outside
grown_tree-IsOwned = (
  record { level_of = refl; low_of = refl; in_use = refl },
  λ p e. (let same : root_page ≡ p = same_page e in rw (← same) (λ h. omega arith, leaf-Leads)),
)

one_byte : IsBytes (replicate 1 241)
one_byte zero = omega arith
one_byte (suc i) = omega arith

grown_tree-IsWhole : IsWhole mem_device grown_tree
grown_tree-IsWhole = record {
  sound = grown_tree-IsSound;
  labels = grown_labels;
  owned = grown_tree-IsOwned;
  valid = none_mapped-IsValid;
  bytes = one_byte;
  bits = λ page h. omega arith;
  few_pages = omega arith;
}

-- The tree after the walk to page 2.
abbrev after_walk : Tree (MemStorage Page)
after_walk = record grown_tree {
  active_path = update (λ l. 3) 1 2;
  buffer = record grown_tree.buffer {
    status = update (λ i. 0) 1 3;
    buffers = update (λ i. three) 1 root_page;
    num_reads = 1;
  };
}

walks : find_leaf mem_device 1 grown_tree 25 0 3 ≡ some (after_walk, some 2)
unfolding find_leaf step_down read_page find_buffer search_node mem_read_page is_outside get_mapping
    get_mapping_index init_mappings
walks = refl

abbrev page_chosen : Buffer (MemStorage Page)
page_chosen = record (set_free mem_device after_walk.buffer 2) { next_page_write_id = 4 }

chooses :
    next_valid_page mem_device (set_free mem_device after_walk.buffer 2) none_mapped
    ≡ some (page_chosen, 4)
unfolding next_valid_page next_valid_loop set_free is_free bitarr_get bit_at bitarr_set put_bit
    set_bit get_mapping get_mapping_index init_mappings
chooses = refl

has_room : (q : ℕ) → (q ≡ 2) ⊎ (q ≡ high_leaf.prev) → (add_mapping none_mapped q 4).1 ≡ true
unfolding add_mapping find_room init_mappings
has_room q (inl e) = rw e refl
has_room q (inr e) = rw e refl

buffered :
    (i : ℕ)
    → 1 ≤ i
    → i < 3
    → after_walk.buffer.status i ≢ 0
    → (after_walk.buffer.status i ≢ 4)
      × HasPage grown_tree.buffer.storage (after_walk.buffer.status i)
buffered i h k ne = (ground arith, has_page _ (ground arith))

fits : Fits mem_device mem_device-Keeps grown_tree twenty_five
unfolding mem_read_page is_outside
fits = record {
  mov = refl;
  several = omega arith;
  pages = λ n h. has_page n h;
  t1 = after_walk;
  leaf = 2;
  next = 4;
  p = high_leaf;
  chosen = page_chosen;
  walked = walks;
  held = refl;
  space = omega arith;
  few = omega arith;
  found = chooses;
  room = has_room;
  apart = buffered;
}

put_record-Added_example :
    (t' : Tree (MemStorage Page)) × (put_record mem_device grown_tree twenty_five ≡ some (t', true))
    × Added mem_device mem_device-Keeps grown_tree twenty_five t'
unfolding mem_read_page is_outside
put_record-Added_example =
    put_record-Added mem_device mem_device-Keeps grown_tree after_walk twenty_five 2 4 high_leaf
      page_chosen grown_tree-IsWhole refl (omega arith) (λ n h. has_page n h) walks refl
      (omega arith) (omega arith) chooses has_room buffered

in_leaf :
    (c : ℕ)
    → c ≤ 1
    → (x : Record)
    → InTree none_mapped
        (mem_read_page grown_tree.buffer.storage)
        0
        (get_mapping none_mapped (c + 1))
        x
    → x.key ≢ 25
unfolding mem_read_page is_outside get_mapping get_mapping_index init_mappings
in_leaf zero h x inn e =
    let (i, k, same) =
      InTree-leaf grown_tree.geometry none_mapped (mem_read_page grown_tree.buffer.storage) 1
        low_leaf x refl inn in
    absurd (omega (arith, k, e, ap (λ (y : Record). y.key) same))
in_leaf (suc zero) h x inn e =
    let (i, k, same) =
      InTree-leaf grown_tree.geometry none_mapped (mem_read_page grown_tree.buffer.storage) 2
        high_leaf x refl inn in
    absurd (omega (arith, k, e, ap (λ (y : Record). y.key) same))
in_leaf (suc (suc c)) h x inn e = absurd (omega arith)

grown_tree-fresh : (x : Record) → Has mem_device grown_tree x → x.key ≢ 25
unfolding mem_read_page is_outside
grown_tree-fresh x inn e =
    let (c, h, under) =
      InTree-node grown_tree.geometry none_mapped (mem_read_page grown_tree.buffer.storage) 0 3
        root_page x refl inn in
    in_leaf c h x under e

get-put_record-Fits_example :
    (t' : Tree (MemStorage Page)) × (after : Buffer (MemStorage Page)) × (put_record mem_device
        grown_tree twenty_five
      ≡ some (t', true))
    × (get mem_device t' 25 ≡ some (with_buffer t' after, some 7))
get-put_record-Fits_example =
    get-put_record-Fits mem_device mem_device-Keeps grown_tree twenty_five grown_tree-IsWhole fits
      grown_tree-fresh

-- The tree after the record was put.
abbrev tree_of : Option (Tree (MemStorage Page) × Bool) → Tree (MemStorage Page)
tree_of none = grown_tree
tree_of (some (t, ok)) = t

abbrev put_tree : Tree (MemStorage Page)
put_tree = tree_of (put_record mem_device grown_tree twenty_five)

run-Puts :
    (t' : Tree (MemStorage Page))
    → put_record mem_device grown_tree twenty_five ≡ some (t', true)
    → Puts mem_device mem_device-Keeps grown_tree (twenty_five ∷ []) put_tree
run-Puts t' run = rw (ap tree_of run) (one_more fits run nothing)

put_tree-Puts : Puts mem_device mem_device-Keeps grown_tree (twenty_five ∷ []) put_tree
unfolding mem_read_page is_outside
put_tree-Puts =
    let (t', run, added) =
      put_record-Added mem_device mem_device-Keeps grown_tree after_walk twenty_five 2 4 high_leaf
        page_chosen grown_tree-IsWhole refl (omega arith) (λ n h. has_page n h) walks refl
        (omega arith) (omega arith) chooses has_room buffered in
    run-Puts t' run

Puts-inserts_example :
    IsWhole mem_device put_tree
    × ((x : Record) → Has mem_device grown_tree x → Has mem_device put_tree x)
    × ((x : Record)
        → Among mem_device mem_device-Keeps x (twenty_five ∷ [])
        → Has mem_device put_tree x)
    × ((x : Record)
        → Has mem_device put_tree x
        → Has mem_device grown_tree x ⊎ Among mem_device mem_device-Keeps x (twenty_five ∷ []))
Puts-inserts_example =
    Puts-inserts mem_device mem_device-Keeps grown_tree put_tree (twenty_five ∷ [])
      grown_tree-IsWhole put_tree-Puts
