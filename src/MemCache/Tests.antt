-- ===== src/MemCache/Tests.antt =====
-- A cache of objects of 64 bytes, with one pool that is partly busy.
use au_os.PageAlloc.{max_order}
use au_os.Prelude.{◌≤◌, ◌<◌, ◌⊎◌, ℕ, ◌+◌, ◌*◌, ◌^◌, ◌≡◌, refl, false, none, some, [], ◌∷◌, arith}
use au_os.Slab.{page_shift, Layout, Pool, ceil}
use au_os.Slab.Slots.{busy}
use au_os.Slab.Pools.{IsPool}
use au_os.MemCache.{PageSource, World, Cache, cache_alloc, cache_free}
use au_os.MemCache.Inv.{IsCache, listed}
use au_os.MemCache.Outcomes.{IsResult, cache_alloc-IsResult}
use au_os.MemCache.Free.{IsFree, cache_free-IsFree}
use au_os.MemCache.Heap.{
  mem_pool_lookup, mem_order_calculate, Heap, mem_alloc, mem_free, lookup_from, order_loop,
}
use au_os.MemCache.Sizes.{mem_free-alloc_large}

abbrev small : Layout
small = record { meta_offs = 4048; obj_count = 63; mask_words = 1; obj_size = 64; pool_order = 0 }

-- Objects 0 and 2 are busy.
abbrev used : Pool
used = record { base = 8192; free = 61; bitmask = (2 ^ 63 + 5) ∷ [] }

abbrev one_pool : Cache
one_pool = record {
  layout = small;
  free_pools = [];
  partial_pools = 8192 ∷ [];
  busy_pools = [];
  pools = λ a. used;
}

-- Blocks from a counter.
abbrev counter : PageSource
counter = record {
  State = ℕ;
  get = λ st order. some (2 ^ 40 + st * 2 ^ 32, st + 1);
  put = λ st addr order. st;
}

abbrev boot : World counter
boot = record { pages = 0; descr = λ f. record { cache_bit = false; u = 0 } }

used-IsPool : IsPool small used
unfolding busy
used-IsPool = record {
  words = (omega arith, tt);
  enough = omega arith;
  padding = λ i le lt. let e : i ≡ 63 = omega arith in rw e refl;
  count = refl;
}

one_pool-IsCache : IsCache one_pool
unfolding ceil
one_pool-IsCache = record {
  two_objects = omega arith;
  words = refl;
  entry = λ a. record {
    once = ground arith;
    in_order = λ _. used-IsPool;
    at_base = λ lt. ground arith;
    all_free = λ lt. absurd (omega arith);
    some_free = λ _. omega arith;
    some_busy = λ _. omega arith;
    none_free = λ lt. absurd (omega arith);
  };
}

busy_two : busy used.bitmask 2 ≡ 1
unfolding busy
busy_two = refl

large : mem_pool_lookup 10000 ≡ none
unfolding mem_pool_lookup lookup_from
large = refl

order_of_large : mem_order_calculate 10000 ≡ 2
unfolding mem_order_calculate order_loop
order_of_large = refl

cache_alloc-IsResult_example :
    IsResult counter boot 0 one_pool one_pool-IsCache (cache_alloc counter boot 0 one_pool)
cache_alloc-IsResult_example =
    cache_alloc-IsResult counter boot 0 one_pool one_pool-IsCache off_list
  where
    off_list : (p st : ℕ) → counter.get 0 0 ≡ some (p, st) → listed one_pool p ≡ 0
    off_list p st e = ground arith

cache_free-IsFree_example : IsFree one_pool 8192 2 (cache_free one_pool (8192 + 2 * 64 + 7))
cache_free-IsFree_example =
    cache_free-IsFree one_pool 8192 2 7 one_pool-IsCache (omega arith) refl (omega arith)
      (omega arith) (omega arith) (omega arith) busy_two

abbrev heap : Heap counter
heap = record { caches = λ i. one_pool; world = boot }

mem_free-alloc_large_example :
    (h' : Heap counter) × (h'' : Heap counter) × (mem_alloc counter heap 10000 ≡ some (2 ^ 40, h'))
    × (mem_free counter h' (2 ^ 40) ≡ some h'')
    × (h''.world.pages ≡ 1)
    × (h''.caches ≡ heap.caches)
    × ((mem_order_calculate 10000 ≡ max_order + 1)
        ⊎ (10000 ≤ 2 ^ (mem_order_calculate 10000 + page_shift)))
    × ((k : ℕ) → k < mem_order_calculate 10000 → 2 ^ (k + page_shift) < 10000)
mem_free-alloc_large_example =
    mem_free-alloc_large counter heap 10000 (2 ^ 40) 1 large refl (omega arith)
      (rw order_of_large refl)
