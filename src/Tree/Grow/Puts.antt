-- ===== src/Tree/Grow/Puts.antt =====
-- Several calls of `vmtreePutRecord`, and `vmtreeGet` after one, on a tree of several levels, in
-- src/vmtree.c.
use vmtree.Base.{
  ℕ, ◌-◌, ◌≤◌, ◌<◌, ◌≡◌, ◌≢◌, ◌⊎◌, true, some, List, [], ◌∷◌, inl, inr, ◌∙◌, sym, subst,
}
use vmtree.Records.{Record}
use vmtree.Mapping.{add_mapping}
use vmtree.Node.{Page, get_count}
use vmtree.Storage.{Device, Keeps}
use vmtree.Buffer.{Buffer, set_free, next_valid_page}
use vmtree.Buffer.Allocate.{HasPages}
use vmtree.Tree.{Tree, moving, with_buffer}
use vmtree.Tree.Put.{put_record, find_leaf}
use vmtree.Tree.Get.{get}
use vmtree.Tree.Answers.{Has, get-Answers}
use vmtree.Tree.Found.{Answers-only}
use vmtree.Tree.Grow.{put_record-Added}
use vmtree.Tree.Grow.Ends.{Added}
use vmtree.Tree.Grow.Whole.{IsWhole}

module _ {St : Type 0} (d : Device Page St) {has : St → ℕ → Type 0} (keeps : Keeps d has) where
  -- A tree of two levels or more, run as VMTREE, in which the leaf for the record has space, so that
  -- the page to write is not one of the page buffers, and the table has room for its mapping.
  pub record Fits (t : Tree St) (r : Record) : Type 0 where
    pub mov : t.algorithm ≡ moving
    pub several : 2 ≤ t.levels
    pub pages : HasPages d keeps t.buffer
    pub t1 : Tree St
    pub leaf : ℕ
    pub next : ℕ
    pub p : Page
    pub chosen : Buffer St
    pub walked : find_leaf d (t.levels - 1) t r.key 0 (t.active_path 0) ≡ some (t1, some leaf)
    pub held : d.read_page t.buffer.storage leaf ≡ some p
    pub space : get_count p < t.geometry.max_records
    pub few : get_count p < 9999
    pub found : next_valid_page d (set_free d t1.buffer leaf) t.table ≡ some (chosen, next)
    pub room : (q : ℕ) → (q ≡ leaf) ⊎ (q ≡ p.prev) → (add_mapping t.table q next).1 ≡ true
    pub apart :
        (i : ℕ)
        → 1 ≤ i
        → i < t.buffer.num_pages
        → t1.buffer.status i ≢ 0
        → (t1.buffer.status i ≢ next) × has t.buffer.storage (t1.buffer.status i)

  -- Records put one after the other, each where it fits.
  pub data Puts : Tree St → List Record → Tree St → Type 0 where
    nothing : {t : Tree St} → Puts t [] t
    one_more :
        {t t1 t' : Tree St} {r : Record} {rs : List Record}
        → Fits t r
        → put_record d t r ≡ some (t1, true)
        → Puts t1 rs t'
        → Puts t (r ∷ rs) t'

  -- A record of the list.
  abbrev pub Among : Record → List Record → Type 0
  Among x [] = ⊥
  Among x (r ∷ rs) = (x ≡ r) ⊎ Among x rs

  put_record-inserts_deep :
      (t : Tree St) (r : Record)
      → IsWhole d t
      → Fits t r
      → (t' : Tree St) × (put_record d t r ≡ some (t', true)) × Added d keeps t r t'
  put_record-inserts_deep t r w f =
      put_record-Added d keeps t f.t1 r f.leaf f.next f.p f.chosen w f.mov f.several f.pages
        f.walked f.held f.space f.few f.found f.room f.apart

  -- What a call that returned did.
  Fits-Added :
      (t t' : Tree St) (r : Record)
      → IsWhole d t
      → Fits t r
      → put_record d t r ≡ some (t', true)
      → Added d keeps t r t'
  Fits-Added t t' r w f run =
      let (m, put, added) = put_record-inserts_deep t r w f in
      let both : some (m, true) ≡ some (t', true) = sym put ∙ run in
      let same : m ≡ t' = cc in subst (λ (x : Tree St). Added d keeps t r x) same added

  -- Records that are put one after the other into a whole tree of two levels or more, each where it
  -- fits without a split: the tree stays whole, and its records are those of before and the ones
  -- that were put.
  pub Puts-inserts :
      (t t' : Tree St) (rs : List Record)
      → IsWhole d t
      → Puts t rs t'
      → IsWhole d t'
        × ((x : Record) → Has d t x → Has d t' x)
        × ((x : Record) → Among x rs → Has d t' x)
        × ((x : Record) → Has d t' x → Has d t x ⊎ Among x rs)
  Puts-inserts t t' [] w nothing = (w, λ x inn. inn, λ x among. absurd among, λ x inn. inl inn)
  Puts-inserts t t' (r ∷ rs) w (one_more {t1 = t1} f run more) =
      let added = Fits-Added t t1 r w f run in
      let (whole, old, new, only) = Puts-inserts t1 t' rs added.whole more in
      (
        whole,
        λ x inn. old x (added.old x inn),
        λ x among. elim among [
          | inl e ↦ old x (subst (λ (y : Record). Has d t1 y) (sym e) added.new)
          | inr a ↦ new x a
        ],
        λ x inn. elim (only x inn) [
          | inl before ↦ elim (added.only x before) [ inl o ↦ inl o | inr e ↦ inr (inl e) ]
          | inr a ↦ inr (inr a)
        ],
      )

  -- A record whose key no record of a whole tree of two levels or more has, put where it fits
  -- without a split: the code returns 0, and then `vmtreeGet` of the key returns its data.
  pub get-put_record-Fits :
      (t : Tree St) (r : Record)
      → IsWhole d t
      → Fits t r
      → ((x : Record) → Has d t x → x.key ≢ r.key)
      → (t' : Tree St) × (after : Buffer St) × (put_record d t r ≡ some (t', true))
        × (get d t' r.key ≡ some (with_buffer t' after, some r.value))
  get-put_record-Fits t r w f fresh =
      let (t', run, added) = put_record-inserts_deep t r w f in
      let (v, after, got, answers, same, sound) = get-Answers d t' r.key added.whole.sound in
      let right : v ≡ some r.value =
        Answers-only (Has d t') r added.new
          (λ x inn e. elim (added.only x inn) [
            | inl before ↦ absurd (fresh x before e)
            | inr it ↦ it
          ])
          answers in
      (t', after, run, rw right at got)
