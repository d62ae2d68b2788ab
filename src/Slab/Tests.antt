-- ===== src/Slab/Tests.antt =====
-- A pool of objects of 64 bytes, as values.
use Prim.Native.Nat.{◌+◌, ◌*◌, ◌^◌}
use au_os.Prelude.{ℕ, ◌≤◌, ◌<◌, ◌≡◌, refl, ◌%◌, suc, some, none, [], ◌∷◌, arith}
use au_os.Slab.{
  Layout, Pool, align_up, ilog2, ffs, layout_setup, meta_size, page_shift, objs_per_word, ceil,
  pool_create, pool_alloc, pool_free, ilog2_loop, find_byte, find_bit, take_slot, fit_objs,
}
use au_os.Slab.Sizes.{layout_setup_lem}
use au_os.Slab.Slots.{busy}
use au_os.Slab.Pools.{IsPool, IsObject, pool_alloc-IsObject}
use au_os.Slab.Release.{IsFreed, pool_free-IsFreed, pool_free-twice, pool_free-alloc}
use au_os.Slab.Create.{pool_create-IsPool}

abbrev small : Layout
small = record { meta_offs = 4048; obj_count = 63; mask_words = 1; obj_size = 64; pool_order = 0 }

-- Objects 0 and 2 are busy.
abbrev used : Pool
used = record { base = 8192; free = 61; bitmask = (2 ^ 63 + 5) ∷ [] }

layout_of_small : layout_setup 64 64 ≡ small
unfolding layout_setup fit_objs meta_size align_up ceil ilog2 ilog2_loop
layout_of_small = refl

-- A pool holds fewer objects than MIN_POOL_OBJS, since the number of pages is rounded down.
four_objects : (layout_setup 960 64).obj_count ≡ 4
unfolding layout_setup fit_objs meta_size align_up ceil ilog2 ilog2_loop
four_objects = refl

next_object :
    pool_alloc small used
    ≡ some (8192 + 64, record { base = 8192; free = 60; bitmask = (2 ^ 63 + 7) ∷ [] })
unfolding pool_alloc take_slot ffs find_byte find_bit
next_object = refl

double_free : pool_free small used (8192 + 64) ≡ none
unfolding pool_free
double_free = refl

used-IsPool : IsPool small used
unfolding busy
used-IsPool = record {
  words = (omega arith, tt);
  enough = omega arith;
  padding = λ i le lt. let e : i ≡ 63 = omega arith in rw e refl;
  count = refl;
}

words_of_small : small.mask_words ≡ ceil small.obj_count objs_per_word
unfolding ceil
words_of_small = refl

busy_two : busy used.bitmask 2 ≡ 1
unfolding busy
busy_two = refl

free_one : busy used.bitmask 1 ≡ 0
unfolding busy
free_one = refl

layout_setup_lem_example :
    let l = layout_setup 960 64 in
    let pool_size = 2 ^ (l.pool_order + page_shift) in
    (l.obj_size % 64 ≡ 0)
    × (960 ≤ l.obj_size)
    × (1 < l.obj_count)
    × (l.obj_count * l.obj_size ≤ l.meta_offs)
    × (l.meta_offs + meta_size l.obj_count ≡ pool_size)
    × (pool_size < l.obj_size * suc l.obj_count + meta_size (suc l.obj_count))
    × (l.mask_words ≡ ceil l.obj_count objs_per_word)
layout_setup_lem_example = layout_setup_lem 960 64 (omega arith) (omega arith) (omega arith)

pool_create-IsPool_example :
    let pool = pool_create small 8192 in
    IsPool small pool
    × (pool.free ≡ small.obj_count)
    × ((i : ℕ) → i < small.obj_count → busy pool.bitmask i ≡ 0)
pool_create-IsPool_example = pool_create-IsPool small 8192 words_of_small

pool_alloc-IsObject_example : IsObject small used (pool_alloc small used)
pool_alloc-IsObject_example = pool_alloc-IsObject small used used-IsPool (omega arith)

pool_free-IsFreed_example : IsFreed small used 2 (pool_free small used (8192 + 2 * 64 + 7))
pool_free-IsFreed_example =
    pool_free-IsFreed small used 2 7 used-IsPool (omega arith) (omega arith) (omega arith) busy_two

pool_free-twice_example : pool_free small used (8192 + 1 * 64 + 0) ≡ none
pool_free-twice_example =
    pool_free-twice small used 1 0 used-IsPool (omega arith) (omega arith) (omega arith) free_one

pool_free-alloc_example :
    (ptr : ℕ) × (pool' : Pool) × (pool_alloc small used ≡ some (ptr, pool'))
    × (pool_free small pool' ptr ≡ some used)
pool_free-alloc_example =
    pool_free-alloc small used used-IsPool (omega arith) (omega arith) (omega arith)
