-- ===== src/Tree/Grow/Written.antt =====
-- The tree of src/vmtree.c before and after `vmtreePutRecord` writes a leaf to another page.
use vmtree.Base.{
  ℕ, zero, ◌/◌, ◌≤◌, ◌<◌, ◌≡◌, ◌≢◌, refl, true, Option, some, Memory, update, ◌==◌, if◌then◌else◌,
  arith, ◌∙◌, sym, ap, inl, inr, List, length,
}
use vmtree.BitArr.{unit_size, bitarr_get, bitarr_set}
use vmtree.BitArr.Laws.{IsBytes, bitarr_get-bitarr_set, bitarr_set-IsBytes}
use vmtree.Records.{Record}
use vmtree.Mapping.{Mappings, add_mapping, empty_mapping}
use vmtree.Mapping.Count.{IsValid}
use vmtree.Mapping.Laws.{get_mapping-add_mapping}
use vmtree.Node.{Page, Geometry, prev_id_constant}
use vmtree.Storage.{Device, Keeps}
use vmtree.Buffer.{Buffer, inc32, is_free, set_free, set_valid, write_page_direct}
use vmtree.Buffer.Allocate.{HasPages, IsWritable}
use vmtree.Tree.Shape.{InTree, InTree-leaf, IsTree}
use vmtree.Tree.Owned.{Labels, View, view, IsOwned, Linked}
use vmtree.Tree.Insert.Grown.{Grown}
use vmtree.Tree.Grow.Whole.{is_used}
use vmtree.Tree.Grow.Moved.{Moves, Stays}
use vmtree.Tree.Grow.Replace.{Replaced}

-- The bits of the free pages, when one page is set free and then another is taken.
bits_after :
    (f : List ℕ) (leaf next x : ℕ)
    → IsBytes f
    → leaf / unit_size < length f
    → next / unit_size < length f
    → (bitarr_get (bitarr_set (bitarr_set f leaf 1) next 0) x
        ≡ (if next == x then 0 else if leaf == x then 1 else bitarr_get f x))
      × IsBytes (bitarr_set (bitarr_set f leaf 1) next 0)
      × (length (bitarr_set (bitarr_set f leaf 1) next 0) ≡ length f)
bits_after f leaf next x w h k =
    let (w1, n1) = bitarr_set-IsBytes f leaf 1 h w in
    let k1 : next / unit_size < length (bitarr_set f leaf 1) = rw n1 k in
    let (w2, n2) = bitarr_set-IsBytes (bitarr_set f leaf 1) next 0 k1 w1 in
    (
      bitarr_get-bitarr_set (bitarr_set f leaf 1) next x 0 k1 w1
          ∙ ground (arith, bitarr_get-bitarr_set f leaf x 1 h w),
      w2,
      n2 ∙ n1,
    )

-- The labels, when a leaf with keys from `low` on is at a new page.
abbrev pub relabelled : Labels → (next low : ℕ) → Labels
relabelled s next low = record s {
  level_of = update s.level_of next 0;
  low_of = update s.low_of next low;
}

module _ {St : Type 0} (d : Device Page St) {has : St → ℕ → Type 0} (keeps : Keeps d has)
    (s : Labels) (b : Buffer St) (table : Mappings) (leaf next q low : ℕ)
    (cells : Memory Page) where
  -- The buffer after the write.
  abbrev pub behind : Buffer St
  behind =
      write_page_direct d
        (record (set_free d b leaf) {
          buffers = cells;
          num_reads = inc32 b.num_reads;
          next_page_write_id = next;
        })
        0 next

  abbrev pub old_view : View
  old_view = view s (is_used d b) table (d.read_page b.storage)

  abbrev pub new_view : View
  new_view =
      view (relabelled s next low) (is_used d behind) (add_mapping table q next).0
        (d.read_page behind.storage)

  module _ (all : HasPages d keeps b) (bytes : IsBytes b.free_pages)
      (bits : (page : ℕ) → page ≤ b.end_data_page → page / unit_size < length b.free_pages)
      (few : b.end_data_page < empty_mapping) (taken : is_used d b leaf ≡ true)
      (free : IsWritable d (set_free d b leaf) table next) where
    exists : next ≤ b.end_data_page
    unfolding set_free
    exists = free.exists

    bit_after :
        (x : ℕ)
        → is_free d behind x ≡ (if next == x then 0 else if leaf == x then 1 else is_free d b x)
    unfolding write_page_direct set_valid set_free is_free
    bit_after x =
        (bits_after b.free_pages leaf next x bytes (bits leaf (ground arith)) (bits next exists)).0

    was_free : leaf ≢ next → is_free d b next ≢ 0
    unfolding set_free is_free
    was_free ne = ground (
      arith,
      free.free,
      bitarr_get-bitarr_set b.free_pages leaf next 1 (bits leaf (ground arith)) bytes,
    )

    written-Stays : (x : ℕ) → is_used d b x ≡ true → x ≢ leaf → Stays old_view new_view next x
    unfolding write_page_direct set_valid set_free
    written-Stays x in_use ne =
        let apart : x ≢ next = λ e. was_free (λ e2. ne (e ∙ sym e2)) (ground (arith, e)) in
        record {
          apart = apart;
          in_use = ground (arith, bit_after x);
          reads =
              keeps.other b.storage next x (record (cells 0) { id = b.next_page_id })
                (all next exists) (all x (ground arith)) (λ e. apart (sym e));
          level_of = ground arith;
          low_of = ground arith;
        }

    pub written-Moves :
        IsValid table
        → q < empty_mapping
        → (add_mapping table q next).1 ≡ true
        → Moves old_view new_view leaf next q
    written-Moves valid small room = record {
      stays = written-Stays;
      pointer_level = λ x. refl;
      pointer_low = λ x. refl;
      leads =
          get_mapping-add_mapping q next q valid small small (omega (arith, exists)) room
          ∙ ground arith;
      others = λ x h ne.
          get_mapping-add_mapping q next x valid small h (omega (arith, exists)) room
          ∙ ground arith;
      small = omega (arith, exists);
    }

    -- The bit vector behind the write, and the last data page.
    pub behind-IsBytes :
        IsBytes behind.free_pages
        × ((page : ℕ) → page ≤ behind.end_data_page → page / unit_size < length behind.free_pages)
        × (behind.end_data_page < empty_mapping)
    unfolding write_page_direct set_valid set_free
    behind-IsBytes =
        let (bit, whole, same) =
          bits_after b.free_pages leaf next 0 bytes (bits leaf (ground arith)) (bits next exists) in
        (whole, λ page h. rw same (bits page h), few)

    used_after : is_used d behind next ≡ true
    unfolding write_page_direct set_valid set_free
    used_after = ground (arith, bit_after next, exists)

    -- The page that is written.
    abbrev page_written : Page → Page
    page_written p = record p { prev = q; id = b.next_page_id }

    read_written :
        (p : Page)
        → cells 0 ≡ record p { prev = q }
        → d.read_page behind.storage next ≡ some (page_written p)
    unfolding write_page_direct set_valid set_free
    read_written p e = rw e (keeps.same b.storage next (page_written p) (all next exists))

    same_page : {x y : Page} → some x ≡ some y → x ≡ y
    same_page e = cc

    -- The new leaf, and the pointer that its header names.
    pub leaf-Replaced :
        (g : Geometry) (p p1 : Page) (r : Record) (high : Option ℕ)
        → d.read_page b.storage leaf ≡ some p
        → Grown p p1 r low high
        → cells 0 ≡ record p1 { prev = q }
        → q < prev_id_constant
        → Replaced old_view new_view g r zero leaf next low high × Linked new_view q next
    unfolding IsTree InTree IsOwned
    leaf-Replaced g p p1 r high held grown here small =
        let there = read_written p1 here in
        (
          record {
            tree = (
              page_written p1,
              there,
              record {
                flat = grown.leaf.flat;
                sorted = grown.leaf.sorted;
                inside = grown.leaf.inside;
              },
            );
            owned = record { level_of = ground arith; low_of = ground arith; in_use = used_after };
            old = λ x inn. (
              page_written p1,
              there,
              grown.old x (InTree-leaf g table (d.read_page b.storage) leaf p x held inn),
            );
            new = (page_written p1, there, grown.new);
            only = λ x inn.
                elim (grown.only x (
                  InTree-leaf g table (d.read_page behind.storage) next (page_written p1) x there
                    inn)) [ inl before ↦ inl (p, held, before) | inr it ↦ inr it ];
          },
          λ x at.
              (let e : page_written p1 ≡ x = same_page (sym there ∙ at) in
                inr (ap (λ (y : Page). y.prev) e, small)),
        )
