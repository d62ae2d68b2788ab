-- ===== src/Slab/Slots.antt =====
-- The slots of a pool: `ffs` finds the first set bit, and the bitmap is a set of busy slots.
use Prim.Native.Nat.{bit_and, bit_or}
use au_os.Prelude.{
  ℕ, zero, suc, ◌+◌, ◌-◌, ◌*◌, ◌/◌, ◌%◌, ◌^◌, ◌≤◌, ◌<◌, ◌≡◌, ◌≢◌, refl, ap, ◌⊎◌, inl, inr, true,
  false, ◌&&◌, Option, none, some, List, [], ◌∷◌, arith, ltb, leb, ◌==◌, if◌then◌else◌, Bool-cases,
  length, get_or, ◌∙◌, sym, ltb→lt,
}
use au_os.Prelude.Bits.{
  bit_at, bit_at-lt, bit_at-or, bit_at-and, bit_at-pow, bit_at-complement, bit_at-ones, bit_at-high,
  bit_at-shift, zero_of_bits, eq_of_bits, bit_test, or-lt, bit_at-zero, two_pow_lt,
}
use au_os.Prelude.Words.{complement}
use au_os.Slab.{find_byte, find_bit, ffs, take_slot}

-- The mask of a byte.
byte_mask_bits :
    (byte i : ℕ)
    → bit_at (0xff * 2 ^ (8 * byte)) i
      ≡ (if ltb i (8 * byte) then 0 else if ltb i (8 * byte + 8) then 1 else 0)
byte_mask_bits byte i = ground (
  arith,
  bit_at-shift (8 * byte) 0xff i,
  bit_at-ones 8 (i - 8 * byte),
  bit_at-high 8 0xff (i - 8 * byte),
)

byte_clear :
    (w byte i : ℕ)
    → bit_and w (0xff * 2 ^ (8 * byte)) ≡ 0
    → 8 * byte ≤ i
    → i < 8 * byte + 8
    → bit_at w i ≡ 0
byte_clear w byte i e lo hi = ground (
  arith,
  bit_at-and w (0xff * 2 ^ (8 * byte)) i,
  byte_mask_bits byte i,
  ap (λ x. bit_at x i) e,
  bit_at-zero i,
  bit_at-lt w i,
)

byte_set :
    (w byte : ℕ)
    → ((i : ℕ) → 8 * byte ≤ i → i < 8 * byte + 8 → bit_at w i ≡ 0)
    → bit_and w (0xff * 2 ^ (8 * byte)) ≡ 0
byte_set w byte h =
    zero_of_bits (bit_and w (0xff * 2 ^ (8 * byte))) (bit_and w (0xff * 2 ^ (8 * byte)))
      (omega arith)
      (λ i. elim (Bool-cases (leb (8 * byte) i && ltb i (8 * byte + 8))) [
        | inl on ↦ ground (arith, bit_at-and w (0xff * 2 ^ (8 * byte)) i, h i)
        | inr off ↦ ground (arith, bit_at-and w (0xff * 2 ^ (8 * byte)) i, byte_mask_bits byte i)
      ])

-- The bytes before the one that is found are 0, and that one is not, unless all are.
find_byte_lem :
    (fuel w byte : ℕ)
    → ((i : ℕ) → i < 8 * byte → bit_at w i ≡ 0)
    → let b = find_byte fuel w byte in
      ((i : ℕ) → i < 8 * b → bit_at w i ≡ 0)
      × (b ≤ byte + fuel)
      × ((b ≡ byte + fuel) ⊎ (bit_and w (0xff * 2 ^ (8 * b)) ≢ 0))
unfolding find_byte
find_byte_lem zero w byte h = (h, omega arith, inl (omega arith))
find_byte_lem (suc fuel) w byte h = elim (Bool-cases (bit_and w (0xff * 2 ^ (8 * byte)) == 0)) [
  | inl on ↦
      let (clear, le, stop) =
        find_byte_lem fuel w (byte + 1) (λ i lt. ground (arith, h i, byte_clear w byte i)) in
      rw on (clear, omega arith, elim stop [ inl e ↦ inl (omega arith) | inr n ↦ inr n ])
  | inr off ↦ rw off (h, omega arith, inr (λ e. ground arith))
]

find_bit_lem :
    (fuel w byte bit : ℕ)
    → ((i : ℕ) → i < byte * 8 + bit → bit_at w i ≡ 0)
    → let b = find_bit fuel w byte bit in
      ((i : ℕ) → i < byte * 8 + b → bit_at w i ≡ 0)
      × (b ≤ bit + fuel)
      × ((b ≡ bit + fuel) ⊎ (bit_at w (byte * 8 + b) ≡ 1))
unfolding find_bit
find_bit_lem zero w byte bit h = (h, omega arith, inl (omega arith))
find_bit_lem (suc fuel) w byte bit h = elim (Bool-cases (bit_and w (2 ^ (byte * 8 + bit)) == 0)) [
  | inl on ↦
      let here : bit_at w (byte * 8 + bit) ≡ 0 = ground (arith, bit_test w (byte * 8 + bit)) in
      let (clear, le, stop) = find_bit_lem fuel w byte (bit + 1) (λ i lt. ground (arith, h i)) in
      rw on (clear, omega arith, elim stop [ inl e ↦ inl (omega arith) | inr n ↦ inr n ])
  | inr off ↦ rw off (
    h,
    omega arith,
    inr (ground (arith, bit_test w (byte * 8 + bit), bit_at-lt w (byte * 8 + bit))),
  )
]

-- On a word of 64 bits that is not 0, `ffs` gives the lowest bit that is set.
pub ffs_lem :
    (w : ℕ)
    → w < 2 ^ 64
    → w ≢ 0
    → (ffs w < 64) × (bit_at w (ffs w) ≡ 1) × ((i : ℕ) → i < ffs w → bit_at w i ≡ 0)
unfolding ffs
ffs_lem w small ne =
    let b = find_byte 8 w 0 in
    let (below, _, stop) = find_byte_lem 8 w 0 (λ i lt. absurd (omega arith)) in
    let found : bit_and w (0xff * 2 ^ (8 * b)) ≢ 0 = elim stop [
      | inl e ↦ absurd (ne (no_byte b e below))
      | inr n ↦ n
    ] in
    let (clear, le, last) = find_bit_lem 8 w b 0 (λ i lt. below i (omega arith)) in
    let set : bit_at w (b * 8 + find_bit 8 w b 0) ≡ 1 = elim last [
      | inl e ↦ absurd (found (byte_set w b (λ i lo hi. clear i (omega arith))))
      | inr s ↦ s
    ] in
    (in_word (b * 8 + find_bit 8 w b 0) set, set, clear)
  where
    no_byte : (b : ℕ) → b ≡ 8 → ((i : ℕ) → i < 8 * b → bit_at w i ≡ 0) → w ≡ 0
    no_byte b e below =
        eq_of_bits 64 w 0 small (omega arith) (λ i lt. below i (omega arith) ∙ sym (bit_at-zero i))

    in_word : (i : ℕ) → bit_at w i ≡ 1 → i < 64
    in_word i e = elim (Bool-cases (ltb i 64)) [
      | inl lt ↦ ltb→lt i 64 lt
      | inr ge ↦ absurd (omega (arith, bit_at-high 64 w i small (ground arith)))
    ]

-- Whether the slot `i` of the bitmap is busy: 1 or 0.
unfoldable pub busy : List ℕ → ℕ → ℕ
busy ms i = bit_at (get_or ms (i / 64) 0) (i % 64)

pub busy-cons :
    (m : ℕ) (ms : List ℕ) (i : ℕ)
    → busy (m ∷ ms) i ≡ (if ltb i 64 then bit_at m i else busy ms (i - 64))
unfolding busy
busy-cons m ms i = elim (Bool-cases (ltb i 64)) [
  | inl lt ↦
      let e : i / 64 ≡ 0 = ground arith in let e' : i % 64 ≡ i = ground arith in rw (lt, e, e') refl
  | inr ge ↦
      let e : i / 64 ≡ suc ((i - 64) / 64) = ground arith in
      let e' : i % 64 ≡ (i - 64) % 64 = ground arith in rw (ge, e, e') refl
]

-- Each word of the bitmap has 64 bits.
abbrev pub AllWords : List ℕ → Type 0
AllWords [] = Unit {0}
AllWords (m ∷ ms) = (m < 2 ^ 64) × AllWords ms

-- What taking a slot comes to: none is left only where all are busy; else the first free slot `j`
-- becomes busy, and no other changes.
abbrev pub IsTaken : List ℕ → ℕ → Option (ℕ × List ℕ) → Type 0
IsTaken ms word none = (i : ℕ) → i < 64 * length ms → busy ms i ≡ 1
IsTaken ms word (some (pos, ms')) =
    (j : ℕ) × (pos ≡ 64 * word + j)
    × (j < 64 * length ms)
    × (busy ms j ≡ 0)
    × ((i : ℕ) → i < j → busy ms i ≡ 1)
    × ((i : ℕ) → busy ms' i ≡ (if i == j then 1 else busy ms i))
    × AllWords ms'
    × (length ms' ≡ length ms)

full_word : (i : ℕ) → i < 64 → bit_at (complement 64 0) i ≡ 1
full_word i lt = bit_at-ones 64 i lt

module _ (m : ℕ) (ms : List ℕ) (word : ℕ) (small : m < 2 ^ 64) where
  skip_word :
      (m == complement 64 0) ≡ true
      → (r : Option (ℕ × List ℕ)) → IsTaken ms (word + 1) r
      → IsTaken (m ∷ ms) word (elim r [ none ↦ none | some (pos, ms') ↦ some (pos, m ∷ ms') ])
  skip_word full none h = λ i lt. ground (arith, busy-cons m ms i, full_word i, h (i - 64))
  skip_word full (some (pos, ms')) (j, e, lt, free, first, others, words, len) = (
    j + 64,
    omega arith,
    omega arith,
    ground (arith, busy-cons m ms (j + 64), sub_back j),
    λ i below. ground (arith, busy-cons m ms i, full_word i, first (i - 64)),
    λ i. ground (arith, busy-cons m ms' i, busy-cons m ms i, others (i - 64)),
    (small, words),
    omega arith,
  )
    where
      sub_back : (j : ℕ) → j + 64 - 64 ≡ j
      sub_back j = omega arith

  -- A word that is not full: its lowest clear bit.
  take_word :
      (m == complement 64 0) ≡ false
      → AllWords ms
      → let bit = ffs (complement 64 m) in
        IsTaken (m ∷ ms) word (some (64 * word + bit, bit_or m (2 ^ bit) ∷ ms))
  take_word part words =
      let flip = λ (i : ℕ) (lt : i < 64). bit_at-complement 64 m i small lt in
      let (lt, clear, first) = ffs_lem (complement 64 m) (omega arith) (λ e. ground arith) in
      let bit = ffs (complement 64 m) in
      (
        bit,
        refl,
        omega arith,
        ground (arith, busy-cons m ms bit, flip bit, bit_at-lt m bit),
        λ i below. ground (arith, busy-cons m ms i, flip i, first i, bit_at-lt m i),
        λ i. ground (
          arith,
          busy-cons (bit_or m (2 ^ bit)) ms i,
          busy-cons m ms i,
          bit_at-or m (2 ^ bit) i,
          bit_at-pow bit i,
          bit_at-lt m i,
        ),
        (or-lt 64 m (2 ^ bit) small (two_pow_lt bit 64 lt), words),
        omega arith,
      )

pub take_slot-IsTaken : (ms : List ℕ) (word : ℕ) → AllWords ms → IsTaken ms word (take_slot ms word)
unfolding take_slot
take_slot-IsTaken [] word words = λ i lt. absurd (omega arith)
take_slot-IsTaken (m ∷ ms) word (small, words) = elim (Bool-cases (m == complement 64 0)) [
  | inl full ↦ rw full (
      skip_word m ms word small full (take_slot ms (word + 1))
        (take_slot-IsTaken ms (word + 1) words))
  | inr part ↦ rw part (take_word m ms word small part words)
]
