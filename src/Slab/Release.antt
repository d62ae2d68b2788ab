-- ===== src/Slab/Release.antt =====
-- Freeing an object of a pool: it undoes an allocation, and a double free is caught.
use Prim.Native.Nat.{bit_and}
use native.Mathlib.Nat.{le_refl, mul-le-mul_right}
use au_os.Prelude.{
  ℕ, ◌+◌, ◌*◌, ◌/◌, ◌%◌, ◌^◌, ◌<◌, ◌≡◌, refl, ap, true, false, Option, none, some, arith, ltb, leb,
  ◌==◌, length, get_or, set, ◌∙◌, length-set,
}
use au_os.Prelude.Bits.{bit_test, and-le}
use au_os.Prelude.Words.{complement, sub64}
use au_os.Slab.{Layout, Pool, pool_alloc, pool_free}
use au_os.Slab.Slots.{busy}
use au_os.Slab.Pools.{
  IsUpdate, free_slots-busy, IsPool, IsPool-update, IsObject, pool_alloc-IsObject,
}
use au_os.Slab.Bitmap.{clear-IsUpdate, AllWords-set, AllWords-get_or, same_bitmap}

-- An address within the `pos`-th object gives its position.
position :
    (base pos size r : ℕ)
    → r < size
    → base + pos * size + r < 2 ^ 64
    → sub64 (base + pos * size + r) base / size ≡ pos
position base pos size r lt fit =
    let e : sub64 (base + pos * size + r) base ≡ pos * size + r = omega arith in
    rw e (div_unique pos size r lt)
  where
    div_unique : (q m r : ℕ) → r < m → (q * m + r) / m ≡ q
    div_unique q m r lt = grind arith

-- What freeing gives: the slot is clear and no other changed.
pub record IsFreed (l : Layout) (pool : Pool) (pos : ℕ) (r : Option Pool) : Type 0 where
  pub after : Pool
  pub result : r ≡ some after
  pub cleared : IsUpdate pool.bitmask after.bitmask pos 0
  pub free_more : after.free ≡ pool.free + 1
  pub base_kept : after.base ≡ pool.base
  pub length_kept : length after.bitmask ≡ length pool.bitmask
  pub in_order : IsPool l after

module _ (l : Layout) (pool : Pool) (pos r : ℕ) (ok : IsPool l pool) (in_pool : pos < l.obj_count)
    (in_obj : r < l.obj_size) (fit : pool.base + pos * l.obj_size + r < 2 ^ 64) where
  -- `mem_pool_free` of any address within a busy object of a pool in order: none of its BUGs is
  -- reached, the object's slot becomes free, and no other slot changes.
  pub pool_free-IsFreed :
      busy pool.bitmask pos ≡ 1
      → IsFreed l pool pos (pool_free l pool (pool.base + pos * l.obj_size + r))
  unfolding pool_free busy
  pool_free-IsFreed is_busy =
      let at = position pool.base pos l.obj_size r in_obj fit in
      let word = get_or pool.bitmask (pos / 64) 0 in
      let small = AllWords-get_or pool.bitmask (pos / 64) ok.words in
      let there : pos / 64 < length pool.bitmask = omega (arith, ok.enough) in
      let inside : leb l.obj_count pos ≡ false = ground arith in
      let set_bit : (bit_and word (2 ^ (pos % 64)) == 0) ≡ false =
        ground (arith, bit_test word (pos % 64)) in
      let room : ltb l.obj_count (pool.free + 1) ≡ false =
        ground (arith, ok.count, free_slots-busy pool.bitmask l.obj_count pos) in
      let words' = set pool.bitmask (pos / 64) (bit_and word (complement 64 (2 ^ (pos % 64)))) in
      let upd = clear-IsUpdate pool.bitmask pos ok.words there in
      record {
        after = record pool { bitmask = words'; free = pool.free + 1 };
        result = rw (at, inside, set_bit, room) refl;
        cleared = upd;
        free_more = refl;
        base_kept = refl;
        length_kept = length-set pool.bitmask (pos / 64) _;
        in_order =
            IsPool-update l pool words' pos 0 (pool.free + 1) ok in_pool upd
              (AllWords-set pool.bitmask (pos / 64) _ ok.words
                (omega (arith, and-le word word (complement 64 (2 ^ (pos % 64))) (le_refl _))))
              (length-set pool.bitmask (pos / 64) _) (omega arith);
      }

  -- An address within an object that is free is a BUG: freeing twice is caught.
  pub pool_free-twice :
      busy pool.bitmask pos ≡ 0 → pool_free l pool (pool.base + pos * l.obj_size + r) ≡ none
  unfolding pool_free busy
  pool_free-twice is_free =
      let at = position pool.base pos l.obj_size r in_obj fit in
      let word = get_or pool.bitmask (pos / 64) 0 in
      let inside : leb l.obj_count pos ≡ false = ground arith in
      let clear : (bit_and word (2 ^ (pos % 64)) == 0) ≡ true =
        ground (arith, bit_test word (pos % 64)) in
      rw (at, inside, clear) refl

pool_eq : (p q : Pool) → p.base ≡ q.base → p.free ≡ q.free → p.bitmask ≡ q.bitmask → p ≡ q
pool_eq p q a b c = λ i. record { base = a i; free = b i; bitmask = c i }

-- Freeing what was just allocated.
free_after :
    (l : Layout) (pool : Pool) (r : Option (ℕ × Pool))
    → IsPool l pool
    → (o : IsObject l pool r) → 0 < l.obj_size
    → pool.base + l.obj_count * l.obj_size < 2 ^ 64
    → pool_free l o.after (pool.base + o.pos * l.obj_size) ≡ some pool
free_after l pool r ok o pos_size fit =
    let e : o.after.base + o.pos * l.obj_size + 0 ≡ pool.base + o.pos * l.obj_size =
      omega (arith, o.base_kept) in
    let f =
      pool_free-IsFreed l o.after o.pos 0 o.in_order o.in_pool pos_size
        (omega (arith, o.base_kept, mul-le-mul_right l.obj_size o.in_pool, fit))
        (ground (arith, o.marked o.pos)) in
    let undone : (i : ℕ) → busy f.after.bitmask i ≡ busy pool.bitmask i =
      λ i. ground (arith, f.cleared i, o.marked i, o.was_free) in
    let bits =
      same_bitmap f.after.bitmask pool.bitmask f.in_order.words ok.words
        (f.length_kept ∙ o.length_kept) undone in
    let back : f.after ≡ pool =
      pool_eq f.after pool (f.base_kept ∙ o.base_kept) (f.free_more ∙ o.free_less) bits in
    rw (← e) (f.result ∙ ap some back)

-- `mem_pool_free` undoes `mem_pool_alloc`: on a pool in order with a free object, that lies in the
-- address space, the allocation gives an address, and freeing it gives back the pool as it was.
pub pool_free-alloc :
    (l : Layout) (pool : Pool)
    → IsPool l pool
    → 0 < pool.free
    → 0 < l.obj_size
    → pool.base + l.obj_count * l.obj_size < 2 ^ 64
    → (ptr : ℕ) × (pool' : Pool) × (pool_alloc l pool ≡ some (ptr, pool'))
      × (pool_free l pool' ptr ≡ some pool)
pool_free-alloc l pool ok pos pos_size fit =
    let o = pool_alloc-IsObject l pool ok pos in
    (
      pool.base + o.pos * l.obj_size,
      o.after,
      o.result,
      free_after l pool (pool_alloc l pool) ok o pos_size fit,
    )
