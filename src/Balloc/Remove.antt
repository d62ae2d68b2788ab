-- ===== src/Balloc/Remove.antt =====
-- Removing a range from the tree: what is covered afterwards.
use mathlib.Core.List.{append_assoc}
use mathlib.Core.Path.{subst}
use au_os.Prelude.{
  ℕ, ◌+◌, ◌≤◌, ◌<◌, ◌≡◌, refl, ap, sym, ◌∙◌, inl, inr, true, false, not, ◌&&◌, ◌||◌, some, List, [],
  ◌∷◌, ◌++◌, arith, ltb, if◌then◌else◌, Bool-cases, length, length-append,
}
use au_os.Balloc.{Range, range, first_above, remove_each, remove_range, max_ranges}
use au_os.Balloc.Place.{IsRanges, IsRanges-weaken}
use au_os.Balloc.Cover.{holds, covers, covers-append}
use au_os.Balloc.Search.{AllAbove, first_above-IsSplit, covers-lt, covers-ge}
use au_os.Balloc.Carve.{
  left_piece, right_piece, IsRanges-replace, pieces-IsRanges, carve_lem, length-between,
  left_piece-length,
}

-- What the loop leaves of the ranges from `ptr` on.
pub removed : (ptr : List Range) → (from to : ℕ) → List Range
removed [] from to = []
removed (p ∷ ps) from to =
    let rest = left_piece p from ++ (right_piece p to ++ removed ps from to) in
    if ltb p.begin to then rest else p ∷ ps

removed-IsRanges :
    (lo : ℕ) (ptr : List Range) (from to : ℕ)
    → IsRanges lo ptr
    → AllAbove from ptr
    → from < to
    → IsRanges lo (removed ptr from to)
unfolding removed
removed-IsRanges lo [] from to h above lt = tt
removed-IsRanges lo (p ∷ ps) from to (h, h', rest) (end_above, above) lt =
    elim (Bool-cases (ltb p.begin to)) [
      | inl hit ↦ rw hit (
          pieces-IsRanges lo p (removed ps from to) from to h h' (omega arith) (ground arith) lt
            (removed-IsRanges (p.end + 1) ps from to rest above lt))
      | inr stop ↦ rw stop (h, h', rest)
    ]

pub pieces-covers :
    (p : Range) (from to a : ℕ)
    → p.begin < to
    → from < p.end
    → from < to
    → (covers (left_piece p from) a || covers (right_piece p to) a)
      ≡ (holds p a && not (holds (range from to) a))
pieces-covers p from to a begun within lt = elim (Bool-cases (ltb p.begin from)) [
  | inl kept ↦ elim (Bool-cases (ltb to p.end)) [
    | inl kept' ↦ rw (kept, kept') (ground arith)
    | inr gone' ↦ rw (kept, gone') (ground arith)
  ]
  | inr gone ↦ elim (Bool-cases (ltb to p.end)) [
    | inl kept' ↦ rw (gone, kept') (ground arith)
    | inr gone' ↦ rw (gone, gone') (ground arith)
  ]
]

removed-covers :
    (lo : ℕ) (ptr : List Range) (from to a : ℕ)
    → IsRanges lo ptr
    → AllAbove from ptr
    → from < to
    → covers (removed ptr from to) a ≡ (covers ptr a && not (holds (range from to) a))
unfolding removed
removed-covers lo [] from to a h above lt = refl
removed-covers lo (p ∷ ps) from to a (h, h', rest) (end_above, above) lt =
    elim (Bool-cases (ltb p.begin to)) [
      | inl hit ↦
          let e = removed-covers (p.end + 1) ps from to a rest above lt in
          let e' = covers-append (left_piece p from) (right_piece p to ++ removed ps from to) a in
          let e'' = covers-append (right_piece p to) (removed ps from to) a in
          let pieces = pieces-covers p from to a (ground arith) end_above lt in
          rw (hit, e', e'', e) (ground arith)
      | inr stop ↦ rw stop (elim (Bool-cases (ltb a to)) [
        | inl low ↦ let e = covers-lt (p.end + 1) ps a rest (ground arith) in ground (arith, e)
        | inr high ↦ ground arith
      ])
    ]

pub IsRanges-suffix :
    (lo : ℕ) (before : List Range) (p : Range) (after : List Range)
    → IsRanges lo (before ++ p ∷ after)
    → (p.begin ≤ p.end) × IsRanges (p.end + 1) after
IsRanges-suffix lo [] p after (h, h', rest) = (h', rest)
IsRanges-suffix lo (x ∷ before) p after (h, h', rest) =
    IsRanges-suffix (x.end + 1) before p after rest

-- The loop stops at once where the next range begins further on.
pub remove_each-stop :
    (others lo : ℕ) (xs ptr : List Range) (from to : ℕ)
    → IsRanges lo ptr
    → to ≤ lo
    → (remove_each others xs ptr from to ≡ some xs) × (removed ptr from to ≡ ptr)
unfolding remove_each removed
remove_each-stop others lo xs [] from to h le = (refl, refl)
remove_each-stop others lo xs (p ∷ ps) from to (h, h', rest) le =
    let e : ltb p.begin to ≡ false = ground arith in (rw e refl, rw e refl)

-- One round of the loop, on the range `p`.
module _ (others lo : ℕ) (before : List Range) (p : Range) (ps : List Range) (from to : ℕ)
    (ok : IsRanges lo (before ++ p ∷ ps)) (end_above : from < p.end) (hit : p.begin < to)
    (lt : from < to) (room : others + length (before ++ p ∷ ps) + 2 ≤ max_ranges) where
  round :
      remove_each others (before ++ p ∷ ps) (p ∷ ps) from to
      ≡ remove_each others (before ++ (left_piece p from ++ (right_piece p to ++ ps))) ps from to
  unfolding remove_each
  round =
      let e : ltb p.begin to ≡ true = ground arith in
      let (proper, rest) = IsRanges-suffix lo before p ps ok in
      let e' = carve_lem others lo before p ps from to ok proper (omega arith) hit lt room in
      rw (e, e') refl

  round-IsRanges : IsRanges lo (before ++ (left_piece p from ++ (right_piece p to ++ ps)))
  round-IsRanges =
      let (proper, rest) = IsRanges-suffix lo before p ps ok in
      IsRanges-replace lo before p ps (left_piece p from ++ (right_piece p to ++ ps))
        (λ lo' le rest'. pieces-IsRanges lo' p ps from to le proper (omega arith) hit lt rest') ok

  round-removed :
      before ++ removed (p ∷ ps) from to
      ≡ before ++ (left_piece p from ++ (right_piece p to ++ removed ps from to))
  unfolding removed
  round-removed = let e : ltb p.begin to ≡ true = ground arith in rw e refl

  -- Where the range goes beyond `to`, the loop ends.
  round-last :
      ltb to p.end ≡ true
      → remove_each others (before ++ p ∷ ps) (p ∷ ps) from to
        ≡ some (before ++ removed (p ∷ ps) from to)
  round-last last =
      let (proper, rest) = IsRanges-suffix lo before p ps ok in
      let (stopped, same) =
        remove_each-stop others (p.end + 1)
          (before ++ (left_piece p from ++ (right_piece p to ++ ps))) ps from to rest
          (ground arith) in
      round
      ∙ stopped
      ∙ ap some (
          sym (
            round-removed
            ∙ ap (λ ys. before ++ (left_piece p from ++ (right_piece p to ++ ys))) same))

  -- Elsewhere there is no right piece.
  to_prefix :
      (ys : List Range)
      → ltb to p.end ≡ false
      → before ++ (left_piece p from ++ (right_piece p to ++ ys))
        ≡ before ++ left_piece p from ++ ys
  to_prefix ys more = rw more (sym (append_assoc before (left_piece p from) ys))

  prefix-length : length (before ++ left_piece p from ++ ps) ≤ length (before ++ p ∷ ps)
  prefix-length = omega (
    arith,
    length-between before p ps,
    length-append (before ++ left_piece p from) ps,
    length-append before (left_piece p from),
    length-append before ps,
    left_piece-length p from,
  )

pub remove_each-removed :
    (others lo : ℕ) (before ptr : List Range) (from to : ℕ)
    → IsRanges lo (before ++ ptr)
    → AllAbove from ptr
    → from < to
    → others + length (before ++ ptr) + 2 ≤ max_ranges
    → remove_each others (before ++ ptr) ptr from to ≡ some (before ++ removed ptr from to)
unfolding remove_each removed
remove_each-removed others lo before [] from to ok above lt room = refl
remove_each-removed others lo before (p ∷ ps) from to ok (end_above, above) lt room =
    elim (Bool-cases (ltb p.begin to)) [
      | inr stop ↦ rw stop refl
      | inl hit ↦
          let hit' : p.begin < to = ground arith in
          elim (Bool-cases (ltb to p.end)) [
            | inl last ↦ round-last others lo before p ps from to ok end_above hit' lt room last
            | inr more ↦
                let q = to_prefix others lo before p ps from to ok end_above hit' lt room in
                round others lo before p ps from to ok end_above hit' lt room
                ∙ ap (λ xs. remove_each others xs ps from to) (q ps more)
                ∙ remove_each-removed others lo (before ++ left_piece p from) ps from to
                    (subst (IsRanges lo) (q ps more)
                      (round-IsRanges others lo before p ps from to ok end_above hit' lt room))
                    above lt
                    (omega (
                      arith,
                      prefix-length others lo before p ps from to ok end_above hit' lt room,
                    ))
                ∙ ap some (sym (q (removed ps from to) more))
                ∙ ap some
                    (sym (round-removed others lo before p ps from to ok end_above hit' lt room))
          ]
    ]

removed-length :
    (lo : ℕ) (ptr : List Range) (from to : ℕ)
    → IsRanges lo ptr
    → length (removed ptr from to) ≤ length ptr + 1
unfolding removed
removed-length lo [] from to h = omega arith
removed-length lo (p ∷ ps) from to (h, h', rest) = elim (Bool-cases (ltb p.begin to)) [
  | inr stop ↦ rw stop (omega arith)
  | inl hit ↦
      let n = removed-length (p.end + 1) ps from to rest in
      let left = left_piece-length p from in
      let all = length-append (left_piece p from) (right_piece p to ++ removed ps from to) in
      let behind = length-append (right_piece p to) (removed ps from to) in
      elim (Bool-cases (ltb to p.end)) [
        | inl last ↦
            let same = (remove_each-stop 0 (p.end + 1) [] ps from to rest (ground arith)).1 in
            let one : length (right_piece p to) ≡ 1 = rw last (omega arith) in
            rw hit (omega (arith, left, all, behind, one, ap length same))
        | inr more ↦
            let none_right : length (right_piece p to) ≡ 0 = rw more refl in
            rw hit (omega (arith, left, all, behind, none_right, n))
      ]
]

-- The ranges before `ptr` stay, and what the loop leaves is behind them.
pub kept-IsRanges :
    (lo : ℕ) (before ptr : List Range) (from to : ℕ)
    → IsRanges lo (before ++ ptr)
    → AllAbove from ptr
    → from < to
    → IsRanges lo (before ++ removed ptr from to)
kept-IsRanges lo [] ptr from to h above lt = removed-IsRanges lo ptr from to h above lt
kept-IsRanges lo (x ∷ before) ptr from to (h, h', rest) above lt =
    (h, h', kept-IsRanges (x.end + 1) before ptr from to rest above lt)

pub suffix-IsRanges :
    (lo : ℕ) (before ptr : List Range) → IsRanges lo (before ++ ptr) → IsRanges 0 ptr
suffix-IsRanges lo [] ptr h = IsRanges-weaken lo 0 ptr (omega arith) h
suffix-IsRanges lo (x ∷ before) ptr (h, h', rest) = suffix-IsRanges (x.end + 1) before ptr rest

-- `__balloc_remove_range` of a range that is not empty, from ranges in order with two nodes left:
-- the ranges stay in order, there is at most one more, and they cover what they did less the
-- addresses from `from` to `to`.
pub remove_range-covers :
    (others : ℕ) (xs : List Range) (from to : ℕ)
    → IsRanges 0 xs
    → from < to
    → others + length xs + 2 ≤ max_ranges
    → (ys : List Range) × (remove_range others xs from to ≡ some ys)
      × IsRanges 0 ys
      × (length ys ≤ length xs + 1)
      × ((a : ℕ) → covers ys a ≡ (covers xs a && not (holds (range from to) a)))
unfolding remove_range
remove_range-covers others xs from to ok lt room =
    let ptr = first_above from xs in
    let s = first_above-IsSplit 0 from xs ok in
    let ok' = subst (IsRanges 0) s.whole ok in
    let size = ap length s.whole in
    (
      s.before ++ removed ptr from to,
      ap (λ zs. remove_each others zs ptr from to) s.whole
          ∙ remove_each-removed others 0 s.before ptr from to ok' s.above lt (omega (arith, size)),
      kept-IsRanges 0 s.before ptr from to ok' s.above lt,
      omega (
        arith,
        length-append s.before (removed ptr from to),
        length-append s.before ptr,
        size,
        removed-length 0 ptr from to (suffix-IsRanges 0 s.before ptr ok'),
      ),
      λ a.
          let e = ap (λ zs. covers zs a) s.whole ∙ covers-append s.before ptr a in
          let e' = covers-append s.before (removed ptr from to) a in
          let e'' =
            removed-covers 0 ptr from to a (suffix-IsRanges 0 s.before ptr ok') s.above lt in
          elim (Bool-cases (ltb a from)) [
            | inl low ↦ ground (arith, e, e', e'')
            | inr high ↦
                let none_below = covers-ge from s.before a s.below (ground arith) in
                ground (arith, e, e', e'', none_below)
          ],
    )
