-- ===== src/Balloc/Lengths.antt =====
-- An addition gives one range more at most.
use au_os.Prelude.{
  ℕ, ◌+◌, ◌≤◌, inl, inr, List, [], ◌∷◌, arith, ltb, leb, if◌then◌else◌, Bool-cases, length,
}
use au_os.Balloc.{Range, range, join_next, join_prev, insert_after, insert_range}

join_next-length : (p : Range) (xs : List Range) → length (join_next p xs) ≤ length xs + 1
unfolding join_next
join_next-length p [] = omega arith
join_next-length p (x ∷ xs) = elim (Bool-cases (leb x.begin p.end)) [
  | inl joined ↦ rw joined (omega arith)
  | inr apart ↦ rw apart (omega arith)
]

join_prev-length :
    (q : Range) (from to : ℕ) (xs : List Range) → length (join_prev q from to xs) ≤ length xs + 2
unfolding join_prev
join_prev-length q from to xs = elim (Bool-cases (leb from q.end)) [
  | inl joined ↦
      rw joined
        (omega (arith, join_next-length (range q.begin (if ltb to q.end then q.end else to)) xs))
  | inr apart ↦ rw apart (omega (arith, join_next-length (range from to) xs))
]

insert_after-length :
    (q : Range) (xs : List Range) (from to : ℕ) → length (insert_after q xs from to) ≤ length xs + 2
unfolding insert_after
insert_after-length q [] from to = join_prev-length q from to []
insert_after-length q (x ∷ xs) from to = elim (Bool-cases (ltb x.begin from)) [
  | inl below ↦ rw below (omega (arith, insert_after-length x xs from to))
  | inr above ↦ rw above (join_prev-length q from to (x ∷ xs))
]

pub insert_range-length :
    (xs : List Range) (from to : ℕ) → length (insert_range xs from to) ≤ length xs + 1
unfolding insert_range
insert_range-length [] from to = omega arith
insert_range-length (x ∷ xs) from to = elim (Bool-cases (ltb x.begin from)) [
  | inl below ↦ rw below (omega (arith, insert_after-length x xs from to))
  | inr above ↦ rw above (join_next-length (range from to) (x ∷ xs))
]
