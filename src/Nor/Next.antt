-- ===== src/Nor/Next.antt =====
-- Which location of a page of OVERWRITE the searches of src/vmtree.c find.
use vmtree.Base.{
  ℕ, zero, suc, ◌+◌, ◌≤◌, ◌<◌, ◌≡◌, refl, true, Option, none, some, arith, ltb, ◌==◌, if◌then◌else◌,
  inl, inr, Bool-cases,
}
use vmtree.Nor.{NorPage, is_live, is_empty}
use vmtree.Nor.Interior.{is_closer, min_loop, next_loop}

-- The valid record with the smallest key above `key`.
pub record IsNext (limit : ℕ) (p : NorPage) (key c : ℕ) : Type 0 where
  pub inside : c < limit
  pub live : is_live p c ≡ true
  pub above : key < p.keys c
  pub least : (j : ℕ) → j < limit → is_live p j ≡ true → key < p.keys j → p.keys c ≤ p.keys j

-- What the loops know when they come to location `c`.
abbrev pub IsBest : NorPage → (key c : ℕ) → Option ℕ → (loc : ℕ) → Type 0
IsBest p key c none loc = (j : ℕ) → j < c → is_live p j ≡ true → p.keys j ≤ key
IsBest p key c (some b) loc = (p.keys loc ≡ b) × IsNext c p key loc

pub IsBest-step :
    (p : NorPage) (key c : ℕ) (best : Option ℕ) (loc : ℕ)
    → IsBest p key c best loc
    → IsBest p key
        (c + 1)
        (if is_closer p key c best then some (p.keys c) else best)
        (if is_closer p key c best then c else loc)
unfolding is_closer
IsBest-step p key c none loc h = elim (Bool-cases (is_closer p key c none)) [
  | inl closer ↦ rw closer (
    refl,
    record {
      inside = omega arith;
      live = ground (arith, closer);
      above = ground (arith, closer);
      least = λ j lt live above. elim (Bool-cases (j == c)) [
        | inl same ↦ (let e : j ≡ c = ground (arith, same) in rw e (omega arith))
        | inr other ↦ absurd (ground (arith, other, h j))
      ];
    },
  )
  | inr farther ↦ rw farther (λ j lt live. elim (Bool-cases (j == c)) [
    | inl same ↦ (let e : j ≡ c = ground (arith, same) in ground (arith, e, farther))
    | inr other ↦ ground (arith, other, h j)
  ])
]
IsBest-step p key c (some b) loc (e, n) = elim (Bool-cases (is_closer p key c (some b))) [
  | inl closer ↦ rw closer (
    refl,
    record {
      inside = omega arith;
      live = ground (arith, closer);
      above = ground (arith, closer);
      least = λ j lt live above. elim (Bool-cases (j == c)) [
        | inl same ↦ (let f : j ≡ c = ground (arith, same) in rw f (omega arith))
        | inr other ↦ ground (arith, other, closer, n.least j)
      ];
    },
  )
  | inr farther ↦ rw farther (
    e,
    record {
      inside = omega (arith, n.inside);
      live = n.live;
      above = n.above;
      least = λ j lt live above. elim (Bool-cases (j == c)) [
        | inl same ↦ (let f : j ≡ c = ground (arith, same) in ground (arith, f, farther, e))
        | inr other ↦ ground (arith, other, n.least j)
      ];
    },
  )
]

-- The result of a loop that has come to the end.
abbrev pub Found : (limit : ℕ) → NorPage → (key loc : ℕ) → Type 0
Found limit p key loc =
    (j : ℕ) → j < limit → is_live p j ≡ true → key < p.keys j → IsNext limit p key loc

pub IsBest-Found :
    (p : NorPage) (key c : ℕ) (best : Option ℕ) (loc : ℕ)
    → IsBest p key c best loc
    → Found c p key loc
IsBest-Found p key c none loc h j lt live above = absurd (omega (arith, h j lt live))
IsBest-Found p key c (some b) loc (e, n) j lt live above = n

pub min_loop-Found :
    (rounds : ℕ) (p : NorPage) (key c limit : ℕ) (best : Option ℕ) (loc : ℕ)
    → c + rounds ≡ limit
    → IsBest p key c best loc
    → Found limit p key (min_loop rounds p key c best loc)
unfolding min_loop
min_loop-Found zero p key c limit best loc e h =
    (let same : c ≡ limit = omega arith in rw (← same) (IsBest-Found p key c best loc h))
min_loop-Found (suc rounds) p key c limit best loc e h =
    min_loop-Found rounds p key (c + 1) limit
      (if is_closer p key c best then some (p.keys c) else best)
      (if is_closer p key c best then c else loc) (omega arith) (IsBest-step p key c best loc h)

-- The empty locations of a page stand behind the taken ones.
abbrev pub IsPacked : ℕ → NorPage → Type 0
IsPacked limit p = (i j : ℕ) → i ≤ j → j < limit → is_empty p i ≡ true → is_empty p j ≡ true

pub next_loop-Found :
    (rounds : ℕ) (p : NorPage) (key c limit : ℕ) (best : Option ℕ) (loc : ℕ)
    → IsPacked limit p
    → c + rounds ≡ limit
    → IsBest p key c best loc
    → Found limit p key (next_loop rounds p key c best loc).1
unfolding next_loop
next_loop-Found zero p key c limit best loc packed e h =
    (let same : c ≡ limit = omega arith in rw (← same) (IsBest-Found p key c best loc h))
next_loop-Found (suc rounds) p key c limit best loc packed e h = elim (Bool-cases (is_empty p c)) [
  | inl stops ↦ rw stops (λ j lt live above. elim (Bool-cases (ltb j c)) [
    | inl before ↦
        widen (IsBest-Found p key c best loc h j (ground (arith, before)) live above) stops
    | inr behind ↦ absurd (ground (arith, behind, packed c j))
  ])
  | inr goes ↦ rw goes (
      next_loop-Found rounds p key (c + 1) limit
        (if is_closer p key c best then some (p.keys c) else best)
        (if is_closer p key c best then c else loc) packed (omega arith)
        (IsBest-step p key c best loc h))
]
  where
    widen : IsNext c p key loc → is_empty p c ≡ true → IsNext limit p key loc
    widen n stops = record {
      inside = omega (arith, n.inside);
      live = n.live;
      above = n.above;
      least = λ j lt live above. elim (Bool-cases (ltb j c)) [
        | inl before ↦ n.least j (ground (arith, before)) live above
        | inr behind ↦ absurd (ground (arith, behind, packed c j))
      ];
    }
