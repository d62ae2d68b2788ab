-- ===== src/Slab/Create.antt =====
-- A new pool is in order, and all of its objects are free.
use native.Mathlib.Nat.{one-le-pow}
use au_os.Prelude.{
  ℕ, zero, suc, ◌+◌, ◌-◌, ◌*◌, ◌/◌, ◌%◌, ◌^◌, ◌≤◌, ◌<◌, ◌≡◌, refl, ap, List, arith, ltb,
  if◌then◌else◌, length,
}
use au_os.Prelude.Bits.{
  bit_at, bit_at-ones, bit_at-high, bit_at-zero, bit_at-complement, two_pow_lt,
}
use au_os.Prelude.Words.{complement}
use au_os.Slab.{Layout, setup_word, setup_words, pool_create, ceil, objs_per_word}
use au_os.Slab.Slots.{busy, busy-cons, AllWords}
use au_os.Slab.Pools.{free_slots, IsPool}

-- The word of 64 bits with the bits below `k` clear.
high_bits :
    (k i : ℕ) → k < 64 → i < 64 → bit_at (complement 64 (2 ^ k - 1)) i ≡ (if ltb i k then 0 else 1)
high_bits k i lt lt' = ground (
  arith,
  bit_at-complement 64 (2 ^ k - 1) i (omega (arith, two_pow_lt k 64 lt)) lt',
  bit_at-ones k i,
  bit_at-high k (2 ^ k - 1) i (omega (arith, two_pow_lt k 64 lt, one-le-pow k 2)),
)

setup_word-bits :
    (c w i : ℕ)
    → w < (c + 64 - 1) / 64
    → i < 64
    → bit_at (setup_word c w) i ≡ (if ltb (64 * w + i) c then 0 else 1)
unfolding setup_word
setup_word-bits c w i here lt =
    ground (arith, bit_at-zero i, bit_at-ones 64 i lt, high_bits (c % 64) i (omega arith) lt)

setup_words-busy :
    (c n w i : ℕ)
    → w + n ≤ (c + 64 - 1) / 64
    → i < 64 * n
    → busy (setup_words c n w) i ≡ (if ltb (64 * w + i) c then 0 else 1)
unfolding setup_words
setup_words-busy c zero w i le lt = absurd (omega arith)
setup_words-busy c (suc n) w i le lt = ground (
  arith,
  busy-cons (setup_word c w) (setup_words c n (w + 1)) i,
  setup_word-bits c w i,
  setup_words-busy c n (w + 1) (i - 64),
)

setup_word-small : (c w : ℕ) → setup_word c w < 2 ^ 64
unfolding setup_word
setup_word-small c w = ground arith

setup_words-AllWords : (c n w : ℕ) → AllWords (setup_words c n w)
unfolding setup_words
setup_words-AllWords c zero w = tt
setup_words-AllWords c (suc n) w = (setup_word-small c w, setup_words-AllWords c n (w + 1))

length-setup_words : (c n w : ℕ) → length (setup_words c n w) ≡ n
unfolding setup_words
length-setup_words c zero w = refl
length-setup_words c (suc n) w = ap suc (length-setup_words c n (w + 1))

free_slots-all : (ms : List ℕ) (n : ℕ) → ((i : ℕ) → i < n → busy ms i ≡ 0) → free_slots ms n ≡ n
free_slots-all ms zero h = refl
free_slots-all ms (suc n) h =
    omega (arith, free_slots-all ms n (λ i lt. h i (omega arith)), h n (omega arith))

-- `mem_pool_create`, for a layout whose bitmap has just the words that its objects need: the pool is in order,
-- and each object is free.
pub pool_create-IsPool :
    (l : Layout) (addr : ℕ)
    → l.mask_words ≡ ceil l.obj_count objs_per_word
    → let pool = pool_create l addr in
      IsPool l pool
      × (pool.free ≡ l.obj_count)
      × ((i : ℕ) → i < l.obj_count → busy pool.bitmask i ≡ 0)
unfolding pool_create ceil
pool_create-IsPool l addr enough =
    let words = setup_words l.obj_count l.mask_words 0 in
    let len = length-setup_words l.obj_count l.mask_words 0 in
    let clear : (i : ℕ) → i < l.obj_count → busy words i ≡ 0 =
      λ i lt. ground (arith, setup_words-busy l.obj_count l.mask_words 0 i (omega arith)) in
    (
      record {
        words = setup_words-AllWords l.obj_count l.mask_words 0;
        enough = omega (arith, len);
        padding =
            λ i le lt. ground (arith, setup_words-busy l.obj_count l.mask_words 0 i (omega arith));
        count = omega (arith, free_slots-all words l.obj_count clear);
      },
      refl,
      clear,
    )
