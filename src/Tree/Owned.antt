-- ===== src/Tree/Owned.antt =====
-- Every page and every pointer of a tree of src/vmtree.c stands in one place of it. A label, the
-- level and the lower bound of the keys, says which.
use vmtree.Base.{
  ℕ, zero, suc, ◌-◌, ◌≤◌, ◌<◌, ◌≡◌, ◌≢◌, ◌⊎◌, Bool, true, false, Option, some, arith, ◌==◌,
}
use vmtree.Mapping.{Mappings, get_mapping, empty_mapping}
use vmtree.Node.{Page, Geometry, get_count, prev_id_constant}
use vmtree.Tree.Shape.{Within, IsNode, lower, upper}

-- The labels of pages and of pointers.
pub record Labels : Type 0 where
  pub level_of : ℕ → ℕ
  pub low_of : ℕ → ℕ
  pub pointer_level : ℕ → ℕ
  pub pointer_low : ℕ → ℕ

-- What the code sees of a tree, the pages in use, and the labels of pages and of pointers.
pub record View : Type 0 where
  pub table : Mappings
  pub read : ℕ → Option Page
  pub used : ℕ → Bool
  pub level_of : ℕ → ℕ
  pub low_of : ℕ → ℕ
  pub pointer_level : ℕ → ℕ
  pub pointer_low : ℕ → ℕ

abbrev pub view : Labels → (ℕ → Bool) → Mappings → (ℕ → Option Page) → View
view s used table read = record {
  table = table;
  read = read;
  used = used;
  level_of = s.level_of;
  low_of = s.low_of;
  pointer_level = s.pointer_level;
  pointer_low = s.pointer_low;
}

module _ (v : View) where
  -- The previous page in the header of a node says which pointer leads to it: `q` is that page, or
  -- the page of the node itself, if no mapping leads from the previous page to it.
  abbrev pub Linked : (q page : ℕ) → Type 0
  Linked q page =
      (p : Page)
      → v.read page ≡ some p
      → ((q ≡ page)
          × ((prev_id_constant ≤ p.prev)
              ⊎ ((p.prev < empty_mapping) × (get_mapping v.table p.prev ≢ page))))
        ⊎ ((q ≡ p.prev) × (q < prev_id_constant))

  -- A pointer to a node on a level, with keys from `lo` on.
  pub record IsPointer (level lo q : ℕ) : Type 0 where
    pub level_of : v.pointer_level q ≡ level
    pub low_of : v.pointer_low q ≡ lo
    pub small : q < empty_mapping
    pub linked : Linked q (get_mapping v.table q)

  -- A page in use, on a level, with keys from `lo` on.
  pub record IsPlace (level lo page : ℕ) : Type 0 where
    pub level_of : v.level_of page ≡ level
    pub low_of : v.low_of page ≡ lo
    pub in_use : v.used page ≡ true

  -- No child is without a key that it may have: the first key is above the lower bound.
  unfoldable pub IsOwned : (levels page lo : ℕ) → Type 0
  IsOwned zero page lo = IsPlace zero lo page
  IsOwned (suc l) page lo =
      IsPlace (suc l) lo page
      × ((p : Page)
          → v.read page ≡ some p
          → (0 < get_count p → lo < p.keys 0)
            × ((c : ℕ)
                → c ≤ get_count p
                → IsPointer l (lower p lo c) (p.pointers c)
                  × IsOwned l (get_mapping v.table (p.pointers c)) (lower p lo c)))

  pub IsOwned-IsPlace : (l page lo : ℕ) → IsOwned l page lo → IsPlace l lo page
  unfolding IsOwned
  IsOwned-IsPlace zero page lo o = o
  IsOwned-IsPlace (suc l) page lo o = o.0

-- The ranges of two children of a node have no key in common.
pub one_child :
    {g : Geometry} {t : Mappings} (p : Page) (lo : ℕ) (hi : Option ℕ) (i c k : ℕ)
    → IsNode g t p lo hi
    → i ≤ get_count p
    → c ≤ get_count p
    → Within (lower p lo i) (upper p hi i) k
    → Within (lower p lo c) (upper p hi c) k
    → i ≡ c
one_child p lo hi i c k n hi' hc wi wc =
    ground
      (arith, left i wi, left c wc, right i wi, right c wc, n.rising i (c - 1), n.rising c (i - 1))
  where
    left : (j : ℕ) → Within (lower p lo j) (upper p hi j) k → j ≢ 0 → p.keys (j - 1) ≤ k
    left j w ne = (let e : (j == 0) ≡ false = ground arith in rw e at w.0)

    right : (j : ℕ) → Within (lower p lo j) (upper p hi j) k → j ≢ get_count p → k < p.keys j
    right j w ne = (let e : (j == get_count p) ≡ false = ground arith in rw e at w.1)
