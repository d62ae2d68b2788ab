-- ===== src/Balloc/Cover.antt =====
-- The addresses that ranges cover, and adding a range to them.
use au_os.Prelude.{
  ℕ, ◌+◌, ◌≤◌, ◌<◌, ◌≡◌, refl, inl, inr, Bool, true, false, ◌&&◌, ◌||◌, some, List, [], ◌∷◌, ◌++◌,
  arith, ltb, leb, if◌then◌else◌, Bool-cases, length,
}
use au_os.Balloc.{
  Range, range, join_next, join_prev, insert_after, insert_range, add_range, max_ranges,
}
use au_os.Balloc.Place.{IsRanges, insert_range-IsRanges}

abbrev pub holds : Range → ℕ → Bool
holds x a = leb x.begin a && ltb a x.end

abbrev pub covers : List Range → ℕ → Bool
covers [] a = false
covers (x ∷ xs) a = holds x a || covers xs a

pub covers-append :
    (xs ys : List Range) (a : ℕ) → covers (xs ++ ys) a ≡ (covers xs a || covers ys a)
covers-append [] ys a = refl
covers-append (x ∷ xs) ys a = let e = covers-append xs ys a in ground (arith, e)

-- Each range that begins within the new one, or where it ends, reaches its end.
abbrev pub ReachesEnd : (from to : ℕ) → List Range → Type 0
ReachesEnd from to [] = Unit
ReachesEnd from to (x ∷ xs) = (from ≤ x.begin → x.begin ≤ to → to ≤ x.end) × ReachesEnd from to xs

-- What a new range takes the place of.
abbrev Reaches : Range → List Range → Type 0
Reaches p [] = Unit
Reaches p (x ∷ xs) = (p.begin ≤ x.begin) × (x.begin ≤ x.end) × (x.begin ≤ p.end → p.end ≤ x.end)

join_next-covers :
    (p : Range) (xs : List Range) (a : ℕ)
    → Reaches p xs
    → covers (join_next p xs) a ≡ (holds p a || covers xs a)
unfolding join_next
join_next-covers p [] a h = refl
join_next-covers p (x ∷ xs) a (h, h', reach) = elim (Bool-cases (leb x.begin p.end)) [
  | inl joined ↦ let le = reach (ground arith) in rw joined (ground arith)
  | inr apart ↦ rw apart refl
]

Reaches-joined :
    (q : Range) (from to : ℕ) (xs : List Range)
    → q.begin ≤ q.end
    → IsRanges (q.end + 1) xs
    → IsRanges from xs
    → ReachesEnd from to xs
    → Reaches (range q.begin (if ltb to q.end then q.end else to)) xs
Reaches-joined q from to [] le h h' reach = tt
Reaches-joined q from to (x ∷ xs) le (h, h', rest) (k, k', rest') (reach, more) = (
  omega arith,
  h',
  λ on. elim (Bool-cases (ltb to q.end)) [
    | inl past ↦ ground arith
    | inr within ↦ let r = reach k (ground arith) in ground arith
  ],
)

Reaches-alone :
    (from to : ℕ) (xs : List Range)
    → IsRanges from xs
    → ReachesEnd from to xs
    → Reaches (range from to) xs
Reaches-alone from to [] h reach = tt
Reaches-alone from to (x ∷ xs) (h, h', rest) (reach, more) = (h, h', reach h)

join_prev-covers :
    (q : Range) (from to : ℕ) (xs : List Range) (a : ℕ)
    → q.begin ≤ q.end
    → q.begin < from
    → from ≤ to
    → IsRanges (q.end + 1) xs
    → IsRanges from xs
    → ReachesEnd from to xs
    → covers (join_prev q from to xs) a ≡ (holds (range from to) a || covers (q ∷ xs) a)
unfolding join_prev
join_prev-covers q from to xs a le lt lt' h h' reach = elim (Bool-cases (leb from q.end)) [
  | inl joined ↦
      let e =
        join_next-covers (range q.begin (if ltb to q.end then q.end else to)) xs a
          (Reaches-joined q from to xs le h h' reach) in
      rw (joined, e) (ground arith)
  | inr apart ↦
      let e = join_next-covers (range from to) xs a (Reaches-alone from to xs h' reach) in
      rw (apart, e) (ground arith)
]

insert_after-covers :
    (q : Range) (xs : List Range) (from to a : ℕ)
    → q.begin ≤ q.end
    → q.begin < from
    → from ≤ to
    → IsRanges (q.end + 1) xs
    → ReachesEnd from to xs
    → covers (insert_after q xs from to) a ≡ (holds (range from to) a || covers (q ∷ xs) a)
unfolding insert_after
insert_after-covers q [] from to a le lt lt' h reach =
    join_prev-covers q from to [] a le lt lt' tt tt tt
insert_after-covers q (x ∷ xs) from to a le lt lt' (h, h', rest) reach =
    elim (Bool-cases (ltb x.begin from)) [
      | inl below ↦
          let e = insert_after-covers x xs from to a h' (ground arith) lt' rest reach.1 in
          rw (below, e) (ground arith)
      | inr above ↦ rw above (
          join_prev-covers q from to (x ∷ xs) a le lt lt' (h, h', rest) (ground arith, h', rest)
            reach)
    ]

insert_range-covers :
    (xs : List Range) (from to a : ℕ)
    → from ≤ to
    → IsRanges 0 xs
    → ReachesEnd from to xs
    → covers (insert_range xs from to) a ≡ (covers xs a || holds (range from to) a)
unfolding insert_range
insert_range-covers [] from to a lt h reach = ground arith
insert_range-covers (x ∷ xs) from to a lt (h, h', rest) reach =
    elim (Bool-cases (ltb x.begin from)) [
      | inl below ↦
          let e = insert_after-covers x xs from to a h' (ground arith) lt rest reach.1 in
          rw (below, e) (ground arith)
      | inr above ↦
          let e =
            join_next-covers (range from to) (x ∷ xs) a
              (Reaches-alone from to (x ∷ xs) (ground arith, h', rest) reach) in
          rw (above, e) (ground arith)
    ]

-- `__balloc_add_range` to ranges in order with a node left, where every range that begins in the
-- new one or at its end reaches that end: the ranges stay in order, and they cover what they did
-- and the new one.
pub add_range-covers :
    (others : ℕ) (xs : List Range) (from to : ℕ)
    → IsRanges 0 xs
    → from ≤ to
    → others + length xs < max_ranges
    → ReachesEnd from to xs
    → (ys : List Range) × (add_range others xs from to ≡ some ys)
      × IsRanges 0 ys
      × ((a : ℕ) → covers ys a ≡ (covers xs a || holds (range from to) a))
unfolding add_range
add_range-covers others xs from to h lt room reach =
    let e : ltb (others + length xs) max_ranges ≡ true = ground arith in
    (
      insert_range xs from to,
      rw e refl,
      insert_range-IsRanges xs from to lt h,
      λ a. insert_range-covers xs from to a lt h reach,
    )
