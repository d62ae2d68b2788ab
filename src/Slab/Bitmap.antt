-- ===== src/Slab/Bitmap.antt =====
-- Clearing a bit of a bitmap, and bitmaps slot by slot.
use Prim.Native.Nat.{bit_and}
use au_os.Prelude.{
  ℕ, zero, suc, ◌+◌, ◌-◌, ◌/◌, ◌%◌, ◌^◌, ◌<◌, ◌≡◌, refl, inl, inr, List, [], ◌∷◌, arith, ◌==◌,
  if◌then◌else◌, Bool-cases, length, get_or, set, ◌∙◌, get_or-set_self, get_or-set_ne,
}
use au_os.Prelude.Bits.{
  bit_at, bit_at-lt, bit_at-and, bit_at-pow, bit_at-complement, two_pow_lt, eq_of_bits,
}
use au_os.Prelude.Words.{complement}
use au_os.Slab.Slots.{busy, busy-cons, AllWords}
use au_os.Slab.Pools.{IsUpdate}

-- Writing a word of the bitmap.
pub busy-set :
    (ms : List ℕ) (w v i : ℕ)
    → w < length ms
    → busy (set ms w v) i ≡ (if i / 64 == w then bit_at v (i % 64) else busy ms i)
unfolding busy
busy-set ms w v i lt = elim (Bool-cases (i / 64 == w)) [
  | inl same ↦
      let e : i / 64 ≡ w = ground arith in rw (e, get_or-set_self ms w v 0 lt) (ground arith)
  | inr other ↦ rw (other, get_or-set_ne ms w (i / 64) v 0 (λ e. ground arith)) refl
]

pub AllWords-set : (ms : List ℕ) (w v : ℕ) → AllWords ms → v < 2 ^ 64 → AllWords (set ms w v)
AllWords-set [] w v h lt = h
AllWords-set (m ∷ ms) zero v (small, rest) lt = (lt, rest)
AllWords-set (m ∷ ms) (suc w) v (small, rest) lt = (small, AllWords-set ms w v rest lt)

pub AllWords-get_or : (ms : List ℕ) (w : ℕ) → AllWords ms → get_or ms w 0 < 2 ^ 64
AllWords-get_or [] w h = omega arith
AllWords-get_or (m ∷ ms) zero (small, rest) = small
AllWords-get_or (m ∷ ms) (suc w) (small, rest) = AllWords-get_or ms w rest

-- `word &= ~(1 << bit)`
pub clear_bit :
    (w bit i : ℕ)
    → w < 2 ^ 64
    → bit < 64
    → i < 64
    → bit_at (bit_and w (complement 64 (2 ^ bit))) i ≡ (if i == bit then 0 else bit_at w i)
clear_bit w bit i small lt lt' = ground (
  arith,
  bit_at-and w (complement 64 (2 ^ bit)) i,
  bit_at-complement 64 (2 ^ bit) i (two_pow_lt bit 64 lt) lt',
  bit_at-pow bit i,
  bit_at-lt w i,
)

same_slot : (i j : ℕ) → i / 64 ≡ j / 64 → (i % 64 == j % 64) ≡ (i == j)
same_slot i j e = ground arith

-- Clearing the bit of slot `j` in its word.
pub clear-IsUpdate :
    (ms : List ℕ) (j : ℕ)
    → AllWords ms
    → j / 64 < length ms
    → IsUpdate ms
        (set ms (j / 64) (bit_and (get_or ms (j / 64) 0) (complement 64 (2 ^ (j % 64)))))
        j
        0
unfolding busy
clear-IsUpdate ms j words lt i = elim (Bool-cases (i / 64 == j / 64)) [
  | inl same ↦
      let e : i / 64 ≡ j / 64 = ground arith in
      let small = AllWords-get_or ms (j / 64) words in
      rw (busy-set ms (j / 64) _ i lt, same)
        (clear_bit (get_or ms (j / 64) 0) (j % 64) (i % 64) small (omega arith) (omega arith)
          ∙ rw (same_slot i j e, e) refl)
  | inr other ↦ rw (busy-set ms (j / 64) _ i lt, other) (ground arith)
]

-- Bitmaps with the same slots are the same.
pub same_bitmap :
    (ms ms' : List ℕ)
    → AllWords ms
    → AllWords ms'
    → length ms ≡ length ms'
    → ((i : ℕ) → busy ms i ≡ busy ms' i)
    → ms ≡ ms'
same_bitmap [] [] h h' len same = refl
same_bitmap [] (m' ∷ ms') h h' len same = absurd (omega arith)
same_bitmap (m ∷ ms) [] h h' len same = absurd (omega arith)
same_bitmap (m ∷ ms) (m' ∷ ms') (small, rest) (small', rest') len same =
    let head : m ≡ m' =
      eq_of_bits 64 m m' small small'
        (λ i lt. ground (arith, same i, busy-cons m ms i, busy-cons m' ms' i)) in
    let tail : ms ≡ ms' = same_bitmap ms ms' rest rest' (omega arith) (λ i. later i) in
    rw (head, tail) refl
  where
    later : (i : ℕ) → busy ms i ≡ busy ms' i
    later i =
        let e : i + 64 - 64 ≡ i = omega arith in
        ground (arith, same (i + 64), busy-cons m ms (i + 64), busy-cons m' ms' (i + 64), e)
