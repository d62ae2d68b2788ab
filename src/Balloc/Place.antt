-- ===== src/Balloc/Place.antt =====
-- Ranges in order, and the place of a new one among them.
use au_os.Prelude.{
  ℕ, ◌+◌, ◌≤◌, ◌<◌, ◌≡◌, refl, ap, inl, inr, true, false, List, [], ◌∷◌, ◌++◌, arith, ltb, leb,
  ◌==◌, if◌then◌else◌, Bool-cases,
}
use au_os.Balloc.{Range, range, join_next, join_prev, insert_after, insert_range, erase_range}

-- The ranges are in order, from `lo` on, with a gap between any two.
abbrev pub IsRanges : ℕ → List Range → Type 0
IsRanges lo [] = Unit
IsRanges lo (x ∷ xs) = (lo ≤ x.begin) × (x.begin ≤ x.end) × IsRanges (x.end + 1) xs

pub IsRanges-weaken : (lo lo' : ℕ) (xs : List Range) → lo' ≤ lo → IsRanges lo xs → IsRanges lo' xs
IsRanges-weaken lo lo' [] le h = tt
IsRanges-weaken lo lo' (x ∷ xs) le (h, h', rest) = (omega arith, h', rest)

-- A range that fits between others stands there once it is added.
join_next-between :
    (lo : ℕ) (p : Range) (xs : List Range) → IsRanges lo (p ∷ xs) → join_next p xs ≡ p ∷ xs
unfolding join_next
join_next-between lo p [] h = refl
join_next-between lo p (x ∷ xs) (h, h', (k, k', rest)) =
    let e : leb x.begin p.end ≡ false = ground arith in rw e refl

join_prev-between :
    (lo : ℕ) (q p : Range) (xs : List Range)
    → IsRanges lo (q ∷ p ∷ xs)
    → join_prev q p.begin p.end xs ≡ q ∷ p ∷ xs
unfolding join_prev
join_prev-between lo q p xs (h, h', (k, k', rest)) =
    let e : leb p.begin q.end ≡ false = ground arith in
    rw e (ap (λ ys. q ∷ ys) (join_next-between (q.end + 1) p xs (k, k', rest)))

insert_after-last :
    (lo : ℕ) (q p : Range) (xs : List Range)
    → IsRanges lo (q ∷ p ∷ xs)
    → insert_after q xs p.begin p.end ≡ q ∷ p ∷ xs
unfolding insert_after
insert_after-last lo q p [] h = join_prev-between lo q p [] h
insert_after-last lo q p (x ∷ xs) (h, h', (k, k', rest)) =
    let e : ltb x.begin p.begin ≡ false = ground arith in
    rw e (join_prev-between lo q p (x ∷ xs) (h, h', (k, k', rest)))

-- A range ends below each one that stands after it.
begin-lt :
    (lo : ℕ) (before : List Range) (p : Range) (after : List Range)
    → IsRanges lo (before ++ p ∷ after)
    → lo ≤ p.begin
begin-lt lo [] p after (h, h', rest) = h
begin-lt lo (x ∷ before) p after (h, h', rest) =
    omega (arith, begin-lt (x.end + 1) before p after rest)

insert_after-between :
    (lo : ℕ) (q : Range) (before : List Range) (p : Range) (after : List Range)
    → IsRanges lo (q ∷ before ++ p ∷ after)
    → insert_after q (before ++ after) p.begin p.end ≡ q ∷ before ++ p ∷ after
unfolding insert_after
insert_after-between lo q [] p after h = insert_after-last lo q p after h
insert_after-between lo q (x ∷ before) p after (h, h', (k, k', rest)) =
    let below = begin-lt (x.end + 1) before p after rest in
    let e : ltb x.begin p.begin ≡ true = ground arith in
    rw e (ap (λ ys. q ∷ ys) (insert_after-between (q.end + 1) x before p after (k, k', rest)))

pub insert_range-between :
    (lo : ℕ) (before : List Range) (p : Range) (after : List Range)
    → IsRanges lo (before ++ p ∷ after)
    → insert_range (before ++ after) p.begin p.end ≡ before ++ p ∷ after
unfolding insert_range
insert_range-between lo [] p [] h = refl
insert_range-between lo [] p (x ∷ after) (h, h', (k, k', rest)) =
    let e : ltb x.begin p.begin ≡ false = ground arith in
    rw e (join_next-between lo p (x ∷ after) (h, h', (k, k', rest)))
insert_range-between lo (x ∷ before) p after (h, h', rest) =
    let below = begin-lt (x.end + 1) before p after rest in
    let e : ltb x.begin p.begin ≡ true = ground arith in
    rw e (insert_after-between lo x before p after (h, h', rest))

-- A range is taken from its place.
pub erase_range-between :
    (lo : ℕ) (before : List Range) (p : Range) (after : List Range)
    → IsRanges lo (before ++ p ∷ after)
    → erase_range (before ++ p ∷ after) p ≡ before ++ after
unfolding erase_range
erase_range-between lo [] p after h =
    let e : (p.begin == p.begin) ≡ true = ground arith in rw e refl
erase_range-between lo (x ∷ before) p after (h, h', rest) =
    let below = begin-lt (x.end + 1) before p after rest in
    let e : (x.begin == p.begin) ≡ false = ground arith in
    rw e (ap (λ ys. x ∷ ys) (erase_range-between (x.end + 1) before p after rest))

-- Adding a range keeps the order.
join_next-IsRanges :
    (lo lo' : ℕ) (p : Range) (xs : List Range)
    → lo ≤ p.begin
    → p.begin ≤ p.end
    → p.begin ≤ lo'
    → IsRanges lo' xs
    → IsRanges lo (join_next p xs)
unfolding join_next
join_next-IsRanges lo lo' p [] le le' below h = (le, le', tt)
join_next-IsRanges lo lo' p (x ∷ xs) le le' below (h, h', rest) =
    elim (Bool-cases (leb x.begin p.end)) [
      | inl joined ↦ rw joined (le, omega arith, rest)
      | inr apart ↦ rw apart (le, le', (ground arith, h', rest))
    ]

join_prev-IsRanges :
    (lo : ℕ) (q : Range) (from to : ℕ) (xs : List Range)
    → lo ≤ q.begin
    → q.begin ≤ q.end
    → q.begin < from
    → from ≤ to
    → IsRanges (q.end + 1) xs
    → IsRanges from xs
    → IsRanges lo (join_prev q from to xs)
unfolding join_prev
join_prev-IsRanges lo q from to xs le le' lt lt' h h' = elim (Bool-cases (leb from q.end)) [
  | inl joined ↦ rw joined (
      join_next-IsRanges lo (q.end + 1) (range q.begin (if ltb to q.end then q.end else to)) xs le
        (ground arith) (omega arith) h)
  | inr apart ↦ rw apart (
    le,
    le',
    join_next-IsRanges (q.end + 1) from (range from to) xs (ground arith) lt' (omega arith) h',
  )
]

insert_after-IsRanges :
    (lo : ℕ) (q : Range) (xs : List Range) (from to : ℕ)
    → lo ≤ q.begin
    → q.begin ≤ q.end
    → q.begin < from
    → from ≤ to
    → IsRanges (q.end + 1) xs
    → IsRanges lo (insert_after q xs from to)
unfolding insert_after
insert_after-IsRanges lo q [] from to le le' lt lt' h =
    join_prev-IsRanges lo q from to [] le le' lt lt' tt tt
insert_after-IsRanges lo q (x ∷ xs) from to le le' lt lt' (h, h', rest) =
    elim (Bool-cases (ltb x.begin from)) [
      | inl below ↦
          rw below
            (le, le', insert_after-IsRanges (q.end + 1) x xs from to h h' (ground arith) lt' rest)
      | inr above ↦ rw above (
          join_prev-IsRanges lo q from to (x ∷ xs) le le' lt lt' (h, h', rest)
            (ground arith, h', rest))
    ]

pub insert_range-IsRanges :
    (xs : List Range) (from to : ℕ)
    → from ≤ to
    → IsRanges 0 xs
    → IsRanges 0 (insert_range xs from to)
unfolding insert_range
insert_range-IsRanges [] from to lt h = (omega arith, lt, tt)
insert_range-IsRanges (x ∷ xs) from to lt (h, h', rest) = elim (Bool-cases (ltb x.begin from)) [
  | inl below ↦ rw below (insert_after-IsRanges 0 x xs from to h h' (ground arith) lt rest)
  | inr above ↦ rw above (
      join_next-IsRanges 0 from (range from to) (x ∷ xs) (omega arith) lt (omega arith)
        (ground arith, h', rest))
]
