-- ===== src/Slab.antt =====
-- alloc.c, lower half: how a pool of objects is laid out, and its bitmap. Sizes are numbers below
-- 2 ^ 64, where the arithmetic here does not wrap; words of the bitmap are 64 bits.
pub mod Sizes
pub mod Slots
pub mod Pools
pub mod Bitmap
pub mod Create
pub mod Release
mod Tests
use Prim.Native.Nat.{bit_and, bit_or}
use au_os.Prelude.{
  ℕ, zero, suc, ◌+◌, ◌-◌, ◌*◌, ◌/◌, ◌%◌, ◌^◌, Bool, true, false, not, ◌&&◌, ◌||◌, Option, none,
  some, List, [], ◌∷◌, ltb, leb, ◌==◌, if◌then◌else◌, length, get_or, set,
}
use au_os.Prelude.Words.{complement, sub64}

-- OBJS_PER_WORD, MIN_POOL_OBJS, PAGE_SHIFT, and the sizes of `struct mem_pool` and of its alignment.
abbrev pub objs_per_word : ℕ
objs_per_word = 64

abbrev pub min_pool_objs : ℕ
min_pool_objs = 8

abbrev pub page_shift : ℕ
page_shift = 12

abbrev pub pool_struct_size : ℕ
pool_struct_size = 48

abbrev pub meta_align : ℕ
meta_align = 8

-- `while (val < x) { val <<= 1; ++power; }`, on fuel: 64 rounds are enough below 2 ^ 64.
unfoldable pub ilog2_loop : ℕ → (x val power : ℕ) → ℕ
ilog2_loop zero x val power = power
ilog2_loop (suc fuel) x val power =
    let rest = ilog2_loop fuel x (2 * val) (power + 1) in if ltb val x then rest else power

unfoldable pub ilog2 : ℕ → ℕ
unfolding ilog2_loop
ilog2 x = ilog2_loop 64 x 1 0

unfoldable pub ceil : ℕ → ℕ → ℕ
ceil divident divisor = (divident + divisor - 1) / divisor

unfoldable pub floor : ℕ → ℕ → ℕ
floor divident divisor = divident / divisor

unfoldable pub align_up : ℕ → ℕ → ℕ
unfolding ceil
align_up size align = align * ceil size align

unfoldable pub align_down : ℕ → ℕ → ℕ
unfolding floor
align_down size align = align * floor size align

-- The header of a pool with its bitmap, whose first word is part of the structure, for a count
-- that is not 0.
unfoldable pub meta_size : ℕ → ℕ
unfolding align_up
meta_size objs = align_up (pool_struct_size + (ceil objs objs_per_word - 1) * 8) meta_align

-- `struct mem_cache`, the layout of its pools.
pub record Layout : Type 0 where
  pub meta_offs : ℕ
  pub obj_count : ℕ
  pub mask_words : ℕ
  pub obj_size : ℕ
  pub pool_order : ℕ

-- `while (obj_size * objs + meta_size(objs) > pool_size) --objs;`, by recursion on `objs`. In the
-- source the count would wrap below 0; a pool that holds a header does not come to that.
unfoldable pub fit_objs : (obj_size pool_size objs : ℕ) → ℕ
fit_objs obj_size pool_size zero = zero
fit_objs obj_size pool_size (suc objs) =
    if ltb pool_size (obj_size * suc objs + meta_size (suc objs))
    then fit_objs obj_size pool_size objs
    else suc objs

unfoldable pub layout_setup : (size align : ℕ) → Layout
unfolding fit_objs meta_size ilog2
layout_setup size align =
    let obj_size = align_up size align in
    let min_size = obj_size * min_pool_objs + meta_size min_pool_objs in
    let pool_order = ilog2 (min_size / 2 ^ page_shift) in
    let pool_size = 2 ^ (pool_order + page_shift) in
    let objs = fit_objs obj_size pool_size (pool_size / obj_size) in
    record {
      meta_offs = pool_size - meta_size objs;
      obj_count = objs;
      mask_words = ceil objs objs_per_word;
      obj_size = obj_size;
      pool_order = pool_order;
    }

-- `struct mem_pool`: where its objects are, how many are free, and a bit for each that is busy.
pub record Pool : Type 0 where
  pub base : ℕ
  pub free : ℕ
  pub bitmask : List ℕ

-- One word of `mem_pool_bitmap_setup`: the bits from `obj_count` on are set, since no object
-- belongs to them.
unfoldable pub setup_word : (obj_count w : ℕ) → ℕ
setup_word obj_count w =
    if ltb w (obj_count / objs_per_word)
    then 0
    else if w == obj_count / objs_per_word && not (obj_count % objs_per_word == 0)
    then complement 64 (2 ^ (obj_count % objs_per_word) - 1)
    else if w == obj_count / objs_per_word
    then 0
    else complement 64 0

unfoldable pub setup_words : (obj_count n w : ℕ) → List ℕ
unfolding setup_word
setup_words obj_count zero w = []
setup_words obj_count (suc n) w = setup_word obj_count w ∷ setup_words obj_count n (w + 1)

-- `mem_pool_create`, for a block of pages at `addr`.
unfoldable pub pool_create : Layout → ℕ → Pool
unfolding setup_words
pool_create l addr = record {
  base = addr;
  free = l.obj_count;
  bitmask = setup_words l.obj_count l.mask_words 0;
}

-- `ffs`: the first byte that is not 0, then its first bit. 64 where the word is 0.
unfoldable pub find_byte : ℕ → (bitmask byte : ℕ) → ℕ
find_byte zero bitmask byte = byte
find_byte (suc fuel) bitmask byte =
    let rest = find_byte fuel bitmask (byte + 1) in
    if bit_and bitmask (0xff * 2 ^ (8 * byte)) == 0 then rest else byte

unfoldable pub find_bit : ℕ → (bitmask byte bit : ℕ) → ℕ
find_bit zero bitmask byte bit = bit
find_bit (suc fuel) bitmask byte bit =
    let rest = find_bit fuel bitmask byte (bit + 1) in
    if bit_and bitmask (2 ^ (byte * 8 + bit)) == 0 then rest else bit

unfoldable pub ffs : ℕ → ℕ
unfolding find_byte find_bit
ffs bitmask = let byte = find_byte 8 bitmask 0 in byte * 8 + find_bit 8 bitmask byte 0

-- The loop of `mem_pool_alloc`: the first word with a clear bit gets it set. The result is the
-- position of the object and the new words; `none` is the BUG behind the loop.
unfoldable pub take_slot : List ℕ → (word : ℕ) → Option (ℕ × List ℕ)
take_slot [] word = none
take_slot (m ∷ ms) word =
    let later = take_slot ms (word + 1) in
    if m == complement 64 0
    then elim later [ none ↦ none | some (pos, ms') ↦ some (pos, m ∷ ms') ]
    else let bit = ffs (complement 64 m) in
      some (objs_per_word * word + bit, bit_or m (2 ^ bit) ∷ ms)

-- `mem_pool_alloc`: `none` is a BUG, for a pool that has no free object.
unfoldable pub pool_alloc : Layout → Pool → Option (ℕ × Pool)
unfolding take_slot
pool_alloc l pool = if pool.free == 0 then none else elim (take_slot pool.bitmask 0) [
  | none ↦ none
  | some (pos, words) ↦
      some (pool.base + pos * l.obj_size, record pool { bitmask = words; free = pool.free - 1 })
]

-- `mem_pool_free`: `none` is one of its three BUGs, a position behind the objects, an object that
-- is free already, and a count that is too large.
unfoldable pub pool_free : Layout → Pool → (ptr : ℕ) → Option Pool
pool_free l pool ptr =
    let pos = sub64 ptr pool.base / l.obj_size in
    let word = pos / objs_per_word in
    let bit = pos % objs_per_word in
    let old = get_or pool.bitmask word 0 in
    if leb l.obj_count pos
    then none
    else if bit_and old (2 ^ bit) == 0
    then none
    else if ltb l.obj_count (pool.free + 1)
    then none
    else some (record pool {
      bitmask = set pool.bitmask word (bit_and old (complement 64 (2 ^ bit)));
      free = pool.free + 1;
    })
