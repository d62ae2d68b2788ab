-- ===== src/Balloc/Search.antt =====
-- The search for the first range above an address, and the addresses on either side.
use au_os.Prelude.{
  ℕ, ◌+◌, ◌≤◌, ◌<◌, ◌≡◌, refl, ap, inl, inr, false, List, [], ◌∷◌, ◌++◌, arith, ltb, Bool-cases,
}
use au_os.Balloc.{Range, first_above}
use au_os.Balloc.Place.{IsRanges}
use au_os.Balloc.Cover.{covers}

-- Ranges in order cover nothing below the first.
pub covers-lt : (lo : ℕ) (xs : List Range) (a : ℕ) → IsRanges lo xs → a < lo → covers xs a ≡ false
covers-lt lo [] a h lt = refl
covers-lt lo (x ∷ xs) a (h, h', rest) lt =
    let e = covers-lt (x.end + 1) xs a rest (omega arith) in ground (arith, e)

-- Ranges that all end where `from` is, or below.
abbrev pub AllBelow : ℕ → List Range → Type 0
AllBelow from [] = Unit
AllBelow from (x ∷ xs) = (x.end ≤ from) × AllBelow from xs

pub covers-ge :
    (from : ℕ) (xs : List Range) (a : ℕ) → AllBelow from xs → from ≤ a → covers xs a ≡ false
covers-ge from [] a h le = refl
covers-ge from (x ∷ xs) a (h, rest) le = let e = covers-ge from xs a rest le in ground (arith, e)

-- Ranges that all end above `from`.
abbrev pub AllAbove : ℕ → List Range → Type 0
AllAbove from [] = Unit
AllAbove from (x ∷ xs) = (from < x.end) × AllAbove from xs

pub IsRanges-AllAbove :
    (lo from : ℕ) (xs : List Range) → IsRanges lo xs → from < lo → AllAbove from xs
IsRanges-AllAbove lo from [] h lt = tt
IsRanges-AllAbove lo from (x ∷ xs) (h, h', rest) lt =
    (omega arith, IsRanges-AllAbove (x.end + 1) from xs rest (omega arith))

-- The search splits the ranges in two.
pub record IsSplit (xs : List Range) (from : ℕ) (ptr : List Range) : Type 0 where
  pub before : List Range
  pub whole : xs ≡ before ++ ptr
  pub below : AllBelow from before
  pub above : AllAbove from ptr

pub first_above-IsSplit :
    (lo from : ℕ) (xs : List Range) → IsRanges lo xs → IsSplit xs from (first_above from xs)
unfolding first_above
first_above-IsSplit lo from [] h = record { before = []; whole = refl; below = tt; above = tt }
first_above-IsSplit lo from (x ∷ xs) (h, h', rest) = elim (Bool-cases (ltb from x.end)) [
  | inl here ↦ rw here (record {
    before = [];
    whole = refl;
    below = tt;
    above = (ground arith, IsRanges-AllAbove (x.end + 1) from xs rest (ground arith));
  })
  | inr further ↦
      let s = first_above-IsSplit (x.end + 1) from xs rest in
      rw further (record {
        before = x ∷ s.before;
        whole = ap (λ ys. x ∷ ys) s.whole;
        below = (ground arith, s.below);
        above = s.above;
      })
]
