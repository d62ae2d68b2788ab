-- ===== src/Balloc/Alloc.antt =====
-- Allocation from the free ranges.
use mathlib.Core.Path.{subst}
use mathlib.Core.List.{append_assoc}
use au_os.Prelude.{
  ℕ, ◌+◌, ◌%◌, ◌^◌, ◌≤◌, ◌<◌, ◌≡◌, refl, ap, sym, ◌⊎◌, inl, inr, true, false, not, ◌&&◌, ◌||◌,
  Option, none, some, List, [], ◌∷◌, ◌++◌, arith, ltb, leb, if◌then◌else◌, Bool-cases, length,
}
use au_os.Balloc.{Range, range, first_above, block_address, alloc_each, alloc_range, max_ranges}
use au_os.Balloc.Address.{block_address_lem}
use au_os.Balloc.Place.{IsRanges}
use au_os.Balloc.Cover.{holds, covers, covers-append}
use au_os.Balloc.Carve.{left_piece, right_piece, IsRanges-replace, pieces-IsRanges, carve_lem}
use au_os.Balloc.Search.{AllBelow, first_above-IsSplit, covers-lt}
use au_os.Balloc.Remove.{IsRanges-suffix, pieces-covers}

-- What the allocation of `size` bytes at a multiple of `align` gives: a block of free memory that
-- becomes busy, or `to` and no change.
pub record IsBlock (xs : List Range) (size align from to addr : ℕ) (ys : List Range) : Type 0 where
  pub inside : (from ≤ addr) × (addr + size ≤ to)
  pub aligned : addr % align ≡ 0
  pub was_free : (a : ℕ) → addr ≤ a → a < addr + size → covers xs a ≡ true
  pub in_order : IsRanges 0 ys
  pub left : (a : ℕ) → covers ys a ≡ (covers xs a && not (holds (range addr (addr + size)) a))

-- No block fits in any of the ranges `ptr`.
abbrev pub NoRoom : List Range → (size align from to : ℕ) → Type 0
NoRoom [] size align from to = Unit
NoRoom (x ∷ xs) size align from to =
    ((addr : ℕ)
      → addr % align ≡ 0
      → from ≤ addr
      → x.begin ≤ addr
      → addr + size ≤ x.end
      → addr + size ≤ to
      → ⊥)
    × NoRoom xs size align from to

-- A failure says that there is no room in the ranges `ptr`.
abbrev pub IsAllocation :
    (xs ptr : List Range) → (size align from to : ℕ) → Option (ℕ × List Range) → Type 0
IsAllocation xs ptr size align from to none = ⊥
IsAllocation xs ptr size align from to (some (addr, ys)) =
    ((addr ≡ to) × (ys ≡ xs) × NoRoom ptr size align from to)
    ⊎ IsBlock xs size align from to addr ys

NoRoom-above :
    (ptr : List Range) (size align from to lo : ℕ)
    → 0 < size
    → IsRanges lo ptr
    → to ≤ lo
    → NoRoom ptr size align from to
NoRoom-above [] size align from to lo pos h le = tt
NoRoom-above (x ∷ xs) size align from to lo pos (h, h', rest) le = (
  λ addr aligned a b c d. omega arith,
  NoRoom-above xs size align from to (x.end + 1) pos rest (omega arith),
)

NoRoom-below :
    (before ptr : List Range) (size align from to : ℕ)
    → 0 < size
    → AllBelow from before
    → NoRoom ptr size align from to
    → NoRoom (before ++ ptr) size align from to
NoRoom-below [] ptr size align from to pos h room = room
NoRoom-below (x ∷ before) ptr size align from to pos (h, rest) room =
    (λ addr aligned a b c d. omega arith, NoRoom-below before ptr size align from to pos rest room)

IsAllocation-map :
    (xs ptr ptr' : List Range) (size align from to : ℕ) (o : Option (ℕ × List Range))
    → (NoRoom ptr size align from to → NoRoom ptr' size align from to)
    → IsAllocation xs ptr size align from to o
    → IsAllocation xs ptr' size align from to o
IsAllocation-map xs ptr ptr' size align from to none f h = absurd h
IsAllocation-map xs ptr ptr' size align from to (some (addr, ys)) f (inl (e, e', room)) =
    inl (e, e', f room)
IsAllocation-map xs ptr ptr' size align from to (some (addr, ys)) f (inr block) = inr block

-- Blocks in these ranges do not go beyond the last address.
abbrev pub InMemory : ℕ → List Range → Type 0
InMemory room [] = Unit
InMemory room (x ∷ xs) = (x.begin + room < 2 ^ 64) × InMemory room xs

InMemory-suffix :
    (room : ℕ) (before ptr : List Range) → InMemory room (before ++ ptr) → InMemory room ptr
InMemory-suffix room [] ptr h = h
InMemory-suffix room (x ∷ before) ptr (h, rest) = InMemory-suffix room before ptr rest

-- Ranges with `p` in the middle, of which the part from `addr` to `stop` is taken.
module _ (before : List Range) (p : Range) (after : List Range) (addr stop : ℕ)
    (ok : IsRanges 0 (before ++ p ∷ after)) (le : p.begin ≤ addr) (lt : addr < stop)
    (le' : stop ≤ p.end) where
  taken : List Range
  taken = before ++ (left_piece p addr ++ (right_piece p stop ++ after))

  taken-IsRanges : IsRanges 0 taken
  unfolding taken
  taken-IsRanges =
      let (proper, rest) = IsRanges-suffix 0 before p after ok in
      IsRanges-replace 0 before p after (left_piece p addr ++ (right_piece p stop ++ after))
        (λ lo' le'' rest'.
          pieces-IsRanges lo' p after addr stop le'' proper (omega arith) (omega arith) lt rest')
        ok

  covers-middle :
      (a : ℕ) → covers (before ++ p ∷ after) a ≡ (covers before a || (holds p a || covers after a))
  covers-middle a = covers-append before (p ∷ after) a

  others-apart :
      (lo : ℕ) (xs : List Range) (a : ℕ)
      → IsRanges lo (xs ++ p ∷ after)
      → p.begin ≤ a
      → covers xs a ≡ false
  others-apart lo [] a h le'' = refl
  others-apart lo (x ∷ xs) a (h, h', rest) le'' =
      let e = others-apart (x.end + 1) xs a rest le'' in
      let below = head-begin (x.end + 1) xs rest in ground (arith, e, below)
    where
      head-begin : (lo : ℕ) (xs : List Range) → IsRanges lo (xs ++ p ∷ after) → lo ≤ p.begin
      head-begin lo [] (h, h', rest) = h
      head-begin lo (x ∷ xs) (h, h', rest) = omega (arith, head-begin (x.end + 1) xs rest)

  taken-covers :
      (a : ℕ) → covers taken a ≡ (covers (before ++ p ∷ after) a && not (holds (range addr stop) a))
  unfolding taken
  taken-covers a =
      let e = covers-middle a in
      let e₁ = covers-append before (left_piece p addr ++ (right_piece p stop ++ after)) a in
      let e₂ = covers-append (left_piece p addr) (right_piece p stop ++ after) a in
      let e₃ = covers-append (right_piece p stop) after a in
      let pieces = pieces-covers p addr stop a (omega arith) (omega arith) lt in
      let (proper, rest) = IsRanges-suffix 0 before p after ok in
      elim (Bool-cases (holds (range addr stop) a)) [
        | inl hit ↦
            let b = others-apart 0 before a ok (ground arith) in
            let c = covers-lt (p.end + 1) after a rest (ground arith) in
            rw (e, e₁, e₂, e₃, b, c) (ground (arith, pieces))
        | inr miss ↦ rw (e, e₁, e₂, e₃) (ground (arith, pieces, miss))
      ]

  taken-free : (a : ℕ) → addr ≤ a → a < stop → covers (before ++ p ∷ after) a ≡ true
  taken-free a low high =
      let e = covers-middle a in
      let on : holds p a ≡ true = ground arith in rw (e, on) (ground arith)

module _ (others size k from to : ℕ) (pos : 0 < size) (power : k < 64)
    (fits : from + (2 ^ k + size) < 2 ^ 64) where
  missed_room :
      (p : Range)
      → p.begin + (2 ^ k + size) < 2 ^ 64
      → leb (block_address p (2 ^ k) from + size) (if ltb p.end to then p.end else to) ≡ false
      → (a : ℕ) → a % 2 ^ k ≡ 0
      → from ≤ a
      → p.begin ≤ a
      → a + size ≤ p.end
      → a + size ≤ to
      → ⊥
  missed_room p small missed a multiple le le' in_range in_window =
      let (low, low', wrap, aligned, least) = block_address_lem p k size from power fits small in
      let before = least a multiple le le' in ground (arith, before, missed)

  alloc_each-IsAllocation :
      (before ptr : List Range)
      → IsRanges 0 (before ++ ptr)
      → InMemory (2 ^ k + size) ptr
      → others + length (before ++ ptr) + 2 ≤ max_ranges
      → IsAllocation
          (before ++ ptr)
          ptr
          size
          (2 ^ k)
          from
          to
          (alloc_each others (before ++ ptr) ptr size (2 ^ k) from to)
  unfolding alloc_each taken
  alloc_each-IsAllocation before [] ok mem room = inl (refl, refl, tt)
  alloc_each-IsAllocation before (p ∷ ps) ok (small, mem) room =
      let addr = block_address p (2 ^ k) from in
      let (low, low', wrap, aligned, least) = block_address_lem p k size from power fits small in
      let (proper, rest) = IsRanges-suffix 0 before p ps ok in
      elim (Bool-cases (ltb p.begin to)) [
        | inr stop ↦ rw stop (
            inl (
              refl,
              refl,
              NoRoom-above (p ∷ ps) size (2 ^ k) from to p.begin pos (omega arith, proper, rest)
                  (ground arith),
            ))
        | inl on ↦ elim (Bool-cases (leb (addr + size) (if ltb p.end to then p.end else to))) [
          | inl found ↦
              let end_le : addr + size ≤ p.end = ground arith in
              let to_le : addr + size ≤ to = ground arith in
              let lt : addr < addr + size = omega arith in
              let e =
                carve_lem others 0 before p ps addr (addr + size) ok proper (omega arith)
                  (omega arith) lt room in
              rw (on, wrap, found, e)
                (inr (record {
                  inside = (low, to_le);
                  aligned = aligned;
                  was_free = taken-free before p ps addr (addr + size) ok low' lt end_le;
                  in_order = taken-IsRanges before p ps addr (addr + size) ok low' lt end_le;
                  left = taken-covers before p ps addr (addr + size) ok low' lt end_le;
                }))
          | inr missed ↦
              let q = append_assoc before (p ∷ []) ps in
              let rest_done =
                IsAllocation-map (before ++ p ∷ [] ++ ps) ps (p ∷ ps) size (2 ^ k) from to
                  (alloc_each others (before ++ p ∷ [] ++ ps) ps size (2 ^ k) from to)
                  (λ none_left. (missed_room p small missed, none_left))
                  (alloc_each-IsAllocation (before ++ p ∷ []) ps (rw q ok) mem (rw q room)) in
              rw (on, wrap, missed) (rw q at rest_done)
        ]
      ]

-- `__balloc_alloc` over ranges in order with two nodes left, of a block that is not empty, at a power
-- of two, and where no address goes beyond 64 bits: it gives a free block between `from` and `to`,
-- aligned, which is not free afterwards while the rest is as it was; or it gives `to`, changes
-- nothing, and there is no such block in any of the ranges.
pub alloc_range-IsAllocation :
    (others : ℕ) (xs : List Range) (size k from to : ℕ)
    → IsRanges 0 xs
    → 0 < size
    → k < 64
    → from + (2 ^ k + size) < 2 ^ 64
    → InMemory (2 ^ k + size) xs
    → others + length xs + 2 ≤ max_ranges
    → IsAllocation xs xs size (2 ^ k) from to (alloc_range others xs size (2 ^ k) from to)
unfolding alloc_range
alloc_range-IsAllocation others xs size k from to ok pos power fits mem room =
    let ptr = first_above from xs in
    let s = first_above-IsSplit 0 from xs ok in
    let res = alloc_each others (s.before ++ ptr) ptr size (2 ^ k) from to in
    subst
      (λ zs.
        IsAllocation zs zs size (2 ^ k) from to (alloc_each others zs ptr size (2 ^ k) from to))
      (sym s.whole)
      (IsAllocation-map (s.before ++ ptr) ptr (s.before ++ ptr) size (2 ^ k) from to res
        (NoRoom-below s.before ptr size (2 ^ k) from to pos s.below)
        (alloc_each-IsAllocation others size k from to pos power fits s.before ptr
          (subst (IsRanges 0) s.whole ok)
          (InMemory-suffix (2 ^ k + size) s.before ptr
            (subst (InMemory (2 ^ k + size)) s.whole mem))
          (omega (arith, ap length s.whole))))
