-- ===== src/Balloc/Carve.antt =====
-- Taking a range from the tree and putting back its ends.
use mathlib.Core.List.{append_assoc}
use au_os.Prelude.{
  ℕ, ◌+◌, ◌≤◌, ◌<◌, ◌≡◌, refl, inl, inr, Bool, true, false, some, List, [], ◌∷◌, ◌++◌, arith, ltb,
  if◌then◌else◌, Bool-cases, length, length-append,
}
use au_os.Balloc.{Range, range, add_range, add_if, carve, max_ranges}
use au_os.Balloc.Place.{IsRanges, IsRanges-weaken, insert_range-between, erase_range-between}

-- What is left of a range outside of `from` and `to`.
abbrev pub left_piece : Range → (from : ℕ) → List Range
left_piece p from = if ltb p.begin from then range p.begin from ∷ [] else []

abbrev pub right_piece : Range → (to : ℕ) → List Range
right_piece p to = if ltb to p.end then range to p.end ∷ [] else []

-- Other ranges in the place of one and those after it.
pub IsRanges-replace :
    (lo : ℕ) (before : List Range) (p : Range) (after tail : List Range)
    → ((lo' : ℕ) → lo' ≤ p.begin → IsRanges (p.end + 1) after → IsRanges lo' tail)
    → IsRanges lo (before ++ p ∷ after)
    → IsRanges lo (before ++ tail)
IsRanges-replace lo [] p after tail fits (h, h', rest) = fits lo h rest
IsRanges-replace lo (x ∷ before) p after tail fits (h, h', rest) =
    (h, h', IsRanges-replace (x.end + 1) before p after tail fits rest)

pub length-between :
    (before : List Range) (p : Range) (after : List Range)
    → length (before ++ p ∷ after) ≡ length (before ++ after) + 1
length-between [] p after = omega arith
length-between (x ∷ before) p after = omega (arith, length-between before p after)

add_if_lem :
    (others lo : ℕ) (b : Bool) (before : List Range) (p : Range) (after : List Range)
    → others + length (before ++ after) < max_ranges
    → (b ≡ true → IsRanges lo (before ++ p ∷ after))
    → add_if b others (before ++ after) p.begin p.end
      ≡ some (before ++ ((if b then p ∷ [] else []) ++ after))
unfolding add_range
add_if_lem others lo false before p after room fits = refl
add_if_lem others lo true before p after room fits =
    let e : ltb (others + length (before ++ after)) max_ranges ≡ true = ground arith in
    let e' = insert_range-between lo before p after (fits refl) in rw (e, e') refl

pub left_piece-length : (p : Range) (from : ℕ) → length (left_piece p from) ≤ 1
left_piece-length p from = elim (Bool-cases (ltb p.begin from)) [
  | inl kept ↦ rw kept (omega arith)
  | inr gone ↦ rw gone (omega arith)
]

right-IsRanges :
    (lo : ℕ) (p : Range) (after : List Range) (to : ℕ)
    → lo ≤ to
    → lo ≤ p.end + 1
    → IsRanges (p.end + 1) after
    → IsRanges lo (right_piece p to ++ after)
right-IsRanges lo p after to le le' rest = elim (Bool-cases (ltb to p.end)) [
  | inl kept ↦ rw kept (le, ground arith, rest)
  | inr gone ↦ rw gone (IsRanges-weaken (p.end + 1) lo after le' rest)
]

-- The ranges with the pieces of one in its place are in order.
pub pieces-IsRanges :
    (lo : ℕ) (p : Range) (after : List Range) (from to : ℕ)
    → lo ≤ p.begin
    → p.begin ≤ p.end
    → from ≤ p.end
    → p.begin < to
    → from < to
    → IsRanges (p.end + 1) after
    → IsRanges lo (left_piece p from ++ (right_piece p to ++ after))
pieces-IsRanges lo p after from to le le' within begun lt rest =
    elim (Bool-cases (ltb p.begin from)) [
      | inl kept ↦
          rw kept (
            le,
            ground arith,
            right-IsRanges (from + 1) p after to (omega arith) (omega arith) rest,
          )
      | inr gone ↦ rw gone (right-IsRanges lo p after to (omega arith) (omega arith) rest)
    ]

module _ (others lo : ℕ) (before : List Range) (p : Range) (after : List Range) (from to : ℕ)
    (ok : IsRanges lo (before ++ p ∷ after)) (proper : p.begin ≤ p.end) (within : from ≤ p.end)
    (begun : p.begin < to) (lt : from < to)
    (room : others + length (before ++ p ∷ after) + 2 ≤ max_ranges) where
  add_left :
      add_if (ltb p.begin from) (others + 1) (before ++ after) p.begin from
      ≡ some (before ++ (left_piece p from ++ after))
  add_left =
      add_if_lem (others + 1) lo (ltb p.begin from) before (range p.begin from) after
        (omega (arith, length-between before p after))
        (λ kept.
          IsRanges-replace lo before p after (range p.begin from ∷ after)
            (λ lo' le rest.
              (le, ground arith, IsRanges-weaken (p.end + 1) (from + 1) after (omega arith) rest))
            ok)

  add_right :
      add_if (ltb to p.end) (others + 1) (before ++ (left_piece p from ++ after)) to p.end
      ≡ some (before ++ (left_piece p from ++ (right_piece p to ++ after)))
  add_right =
      rw
        (
          ← append_assoc before (left_piece p from) after,
          ← append_assoc before (left_piece p from) (right_piece p to ++ after),
        )
        (add_if_lem (others + 1) lo (ltb to p.end) (before ++ left_piece p from) (range to p.end)
          after
          (omega (
            arith,
            length-between before p after,
            length-append (before ++ left_piece p from) after,
            length-append before (left_piece p from),
            length-append before after,
            left_piece-length p from,
          ))
          (λ kept.
            let e : right_piece p to ≡ range to p.end ∷ [] = rw kept refl in
            rw (append_assoc before (left_piece p from) (range to p.end ∷ after)) (
              IsRanges-replace lo before p after (left_piece p from ++ (range to p.end ∷ after))
                (λ lo' le rest.
                  rw e at (pieces-IsRanges lo' p after from to le proper within begun lt rest))
                ok)))

  -- Taking a range out and putting back its ends leaves these in its place.
  pub carve_lem :
      carve others (before ++ p ∷ after) p from to
      ≡ some (before ++ (left_piece p from ++ (right_piece p to ++ after)))
  unfolding carve
  carve_lem = rw (erase_range-between lo before p after ok, add_left, add_right) refl
