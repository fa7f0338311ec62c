-- ===== src/Nor/Interior.antt =====
-- The functions of src/vmtree.c on a page of OVERWRITE that search it and insert a child:
-- `vmtreeSearchNodeOverwrite`, `vmtreeInsertInterior` and `vmtreeInsertInteriorNew`.
pub mod Split
mod Parts
mod Halves
pub mod Sent
use vmtree.Base.{
  ℕ, zero, suc, ◌+◌, ◌-◌, Bool, true, false, ◌&&◌, Option, none, some, update, move, ltb, ◌==◌,
  if◌then◌else◌,
}
use vmtree.BitArr.{bitarr_get, bitarr_set}
use vmtree.Nor.{NorPage, NorGeometry, leaf_limit, interior_limit, is_live, is_empty, write_slot}

-- Location `c` is a valid record with a larger key, smaller than the best one so far.
unfoldable pub is_closer : NorPage → (key c : ℕ) → (best : Option ℕ) → Bool
is_closer p key c best =
    let smaller : Bool = elim best [ none ↦ true | some b ↦ ltb (p.keys c) b ] in
    is_live p c && ltb key (p.keys c) && smaller

-- The loop of the search in an interior page; `best` is what `minkey` points to.
unfoldable pub min_loop : (rounds : ℕ) → NorPage → (key c : ℕ) → (best : Option ℕ) → (loc : ℕ) → ℕ
unfolding is_closer
min_loop zero p key c best loc = loc
min_loop (suc rounds) p key c best loc =
    let closer = is_closer p key c best in
    min_loop rounds p key (c + 1) (if closer then some (p.keys c) else best)
      (if closer then c else loc)

-- The loop of the search in a leaf: 0 also where the key is not found.
unfoldable pub match_loop : (rounds : ℕ) → NorPage → (key c : ℕ) → ℕ
match_loop zero p key c = 0
match_loop (suc rounds) p key c =
    let rest = match_loop rounds p key (c + 1) in if is_live p c && key == p.keys c then c else rest

-- `vmtreeSearchNodeOverwrite`, on a page that is an interior one or not
unfoldable pub search_node_overwrite : NorGeometry → (interior : Bool) → NorPage → (key : ℕ) → ℕ
unfolding min_loop match_loop
search_node_overwrite g interior p key =
    if interior
    then min_loop (interior_limit g) p key 0 none 0
    else match_loop (leaf_limit g) p key 0

-- The first loop of `vmtreeInsertInterior`, which stops at an empty location: where it stops, and
-- `loc`.
unfoldable pub next_loop :
    (rounds : ℕ) → NorPage → (key c : ℕ) → (best : Option ℕ) → (loc : ℕ) → ℕ × ℕ
unfolding is_closer
next_loop zero p key c best loc = (c, loc)
next_loop (suc rounds) p key c best loc =
    let closer = is_closer p key c best in
    let rest =
      next_loop rounds p key (c + 1) (if closer then some (p.keys c) else best)
        (if closer then c else loc) in
    if is_empty p c then (c, loc) else rest

-- The loops that look for a free location.
unfoldable pub free_loop : (rounds : ℕ) → NorPage → (c : ℕ) → Option ℕ
free_loop zero p c = none
free_loop (suc rounds) p c =
    let rest = free_loop rounds p (c + 1) in
    if bitarr_get p.bm1 c == 1 && bitarr_get p.bm2 c == 1 then some c else rest

-- A record written in a free location.
unfoldable pub take_slot : NorPage → (at key value : ℕ) → NorPage
unfolding write_slot
take_slot p at key value = write_slot (record p { bm1 = bitarr_set p.bm1 at 0 }) at key value

-- `vmtreeInsertInterior`: the page after it, and whether it returned 1.
unfoldable pub insert_interior : NorGeometry → NorPage → (key left right : ℕ) → NorPage × Bool
unfolding next_loop free_loop take_slot
insert_interior g p key left right =
    let (c, loc) = next_loop (interior_limit g) p key 0 none 0 in
    elim (free_loop (interior_limit g - c) p c) [
      | none ↦ (p, false)
      | some first ↦
          let p1 = take_slot p first key left in
          elim (free_loop (interior_limit g - (first + 1)) p1 (first + 1)) [
            | none ↦ (record p1 { bm1 = bitarr_set p1.bm1 first 1 }, false)
            | some second ↦
                let p2 = take_slot p1 second (p1.keys loc) right in
                (record p2 { bm2 = bitarr_set p2.bm2 loc 0 }, true)
          ]
    ]

-- The loop of `vmtreeInsertInteriorNew`: the first of `left` keys from `c` on that is larger.
unfoldable pub first_larger : (left : ℕ) → NorPage → (key c : ℕ) → ℕ
first_larger zero p key c = c
first_larger (suc left) p key c =
    let rest = first_larger left p key (c + 1) in if ltb key (p.keys c) then c else rest

-- `vmtreeInsertInteriorNew`
unfoldable pub insert_interior_new : NorPage → (count key left right : ℕ) → NorPage
unfolding first_larger
insert_interior_new p count key left right =
    let c = first_larger count p key 0 in
    let keys = if ltb 0 count then move p.keys (c + 1) c (count - c) else p.keys in
    let values = if ltb 0 count then move p.values (c + 1) c (count - c) else p.values in
    record p { keys = update keys c key; values = update (update values c left) (c + 1) right }
