-- ===== src/Tree/Grow/Whole.antt =====
-- A tree of src/vmtree.c of any number of levels that is whole: sound, each page and each pointer in
-- one place, its pages marked as in use, and its mapping table valid.
use vmtree.Base.{ℕ, ◌-◌, ◌/◌, ◌≤◌, ◌<◌, ◌&&◌, Bool, leb, ◌==◌, length}
use vmtree.BitArr.{unit_size}
use vmtree.BitArr.Laws.{IsBytes}
use vmtree.Mapping.{empty_mapping}
use vmtree.Mapping.Count.{IsValid}
use vmtree.Node.{Page}
use vmtree.Storage.{Device}
use vmtree.Buffer.{Buffer, is_free}
use vmtree.Tree.{Tree}
use vmtree.Tree.Owned.{Labels, IsOwned, view}
use vmtree.Tree.Answers.{IsSound}

module _ {St : Type 0} (d : Device Page St) where
  -- A data page that is not free.
  abbrev pub is_used : Buffer St → ℕ → Bool
  is_used b page = leb page b.end_data_page && is_free d b page == 0

  pub record IsWhole (t : Tree St) : Type 0 where
    pub sound : IsSound d t
    pub labels : Labels
    pub owned :
        IsOwned
          (view labels (is_used t.buffer) t.table (d.read_page t.buffer.storage))
          (t.levels - 1)
          (t.active_path 0)
          0
    pub valid : IsValid t.table
    pub bytes : IsBytes t.buffer.free_pages
    pub bits :
        (page : ℕ) → page ≤ t.buffer.end_data_page → page / unit_size < length t.buffer.free_pages
    pub few_pages : t.buffer.end_data_page < empty_mapping
