-- ===== src/Tree/Found.antt =====
-- `vmtreePutRecord` and then `vmtreeGet`, in src/vmtree.c.
use vmtree.Base.{ℕ, ◌≤◌, ◌<◌, ◌≡◌, ◌≢◌, refl, true, Option, some, inl, inr, ap}
use vmtree.Records.{Record}
use vmtree.Node.{Page, get_count}
use vmtree.Storage.{Device, Keeps}
use vmtree.Buffer.{Buffer, set_free, next_valid_page}
use vmtree.Buffer.Allocate.{HasPages}
use vmtree.Tree.{Tree, moving, with_buffer}
use vmtree.Tree.Put.{put_record}
use vmtree.Tree.Get.{get}
use vmtree.Tree.Answers.{Answers, hit, miss, IsSound, Has, get-Answers}
use vmtree.Tree.Insert.{put_record-inserts}

-- An answer for a key that only one record has.
pub Answers-only :
    (has : Record → Type 0) (r : Record) {found : Option ℕ}
    → has r
    → ((x : Record) → has x → x.key ≡ r.key → x ≡ r)
    → Answers has r.key found
    → found ≡ some r.value
Answers-only has r there only (hit x inn e) = ap (λ (y : Record). some y.value) (only x inn e)
Answers-only has r there only (miss none_has) = absurd (none_has r there refl)

module _ {St : Type 0} (d : Device Page St) {has : St → ℕ → Type 0} (keeps : Keeps d has) where
  -- A record whose key no record of the tree has, put by `vmtreePutRecord` into a sound tree of one
  -- level, run as VMTREE, whose root page has space: the code returns 0, and then `vmtreeGet` of
  -- the key returns the data of the record. (The storage has every page up to the last and those
  -- that are buffered, and keeps what is written; the page `next` that is written is not one of the
  -- page buffers; the count is below 9,999.)
  pub get-put_record :
      (t : Tree St) (r : Record) (p : Page) (b' : Buffer St) (next : ℕ)
      → IsSound d t
      → ((x : Record) → Has d t x → x.key ≢ r.key)
      → t.algorithm ≡ moving
      → t.levels ≡ 1
      → HasPages d keeps t.buffer
      → d.read_page t.buffer.storage (t.active_path 0) ≡ some p
      → get_count p < t.geometry.max_records
      → get_count p < 9999
      → next_valid_page d (set_free d t.buffer (t.active_path 0)) t.table ≡ some (b', next)
      → ((i : ℕ)
          → 1 ≤ i
          → i < t.buffer.num_pages
          → t.buffer.status i ≢ 0
          → (t.buffer.status i ≢ next) × has t.buffer.storage (t.buffer.status i))
      → (t' : Tree St) × (after : Buffer St) × (put_record d t r ≡ some (t', true))
        × (get d t' r.key ≡ some (with_buffer t' after, some r.value))
  get-put_record t r p b' next s fresh mov one all held room few found apart =
      let (t', run, sound, old, new, only) =
        put_record-inserts d keeps t r p b' next s mov one all held room few found apart in
      let (v, after, got, answers, same, later) = get-Answers d t' r.key sound in
      let right : v ≡ some r.value =
        Answers-only (Has d t') r new
          (λ x inn e. elim (only x inn) [ inl before ↦ absurd (fresh x before e) | inr it ↦ it ])
          answers in
      (t', after, run, rw right at got)
