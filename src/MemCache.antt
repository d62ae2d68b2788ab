-- ===== src/MemCache.antt =====
-- alloc.c, upper half: the caches of objects, with their three lists of pools, and mem_alloc over
-- caches of 34 sizes. A pool is named by the address of its block of pages; physical and virtual
-- addresses, which differ by a constant, are not told apart.
pub mod Inv
pub mod Alloc
pub mod Outcomes
pub mod Free
pub mod Heap
pub mod Sizes
mod Tests
use au_os.Prelude.{
  ℕ, zero, suc, ◌+◌, ◌-◌, ◌*◌, ◌/◌, ◌^◌, Bool, true, false, ◌&&◌, Option, none, some, List, [], ◌∷◌,
  ltb, leb, ◌==◌, if◌then◌else◌,
}
use au_os.Slab.{
  Layout, Pool, align_down, layout_setup, pool_create, pool_alloc, pool_free, page_shift,
}

-- What the caches use of the page allocator: `__page_alloc` with the address of the block it
-- gives, and `__page_free`.
pub record PageSource : Type 1 where
  pub State : Type 0
  pub get : State → (order : ℕ) → Option (ℕ × State)
  pub put : State → (addr order : ℕ) → State

-- PAGE_CACHE_BIT and the union `u` of a page, which holds a cache or an order.
pub record Descr : Type 0 where
  pub cache_bit : Bool
  pub u : ℕ

-- The loop over the pages of a pool in `mem_pool_create` and `mem_pool_destroy`.
unfoldable pub mark : (ℕ → Descr) → (first n : ℕ) → Descr → ℕ → Descr
mark descr first zero v = descr
mark descr first (suc n) v = mark (λ f. if f == first then v else descr f) (first + 1) n v

-- `struct mem_cache`; the lists hold the addresses of pools.
pub record Cache : Type 0 where
  pub layout : Layout
  pub free_pools : List ℕ
  pub partial_pools : List ℕ
  pub busy_pools : List ℕ
  pub pools : ℕ → Pool

-- `mem_cache_setup`
unfoldable pub cache_setup : (ℕ → Pool) → (size align : ℕ) → Cache
cache_setup memory size align = record {
  layout = layout_setup size align;
  free_pools = [];
  partial_pools = [];
  busy_pools = [];
  pools = memory;
}

unfoldable pub put_pool : Cache → ℕ → Pool → Cache
put_pool c p pool = record c { pools = λ a. if a == p then pool else c.pools a }

unfoldable pub erase : ℕ → List ℕ → List ℕ
erase p [] = []
erase p (x ∷ xs) = let rest = x ∷ erase p xs in if x == p then xs else rest

-- `list_del(&pool->ll)`: the pool leaves the list that it is on.
unfoldable pub unlink : ℕ → Cache → Cache
unfolding erase
unlink p c = record c {
  free_pools = erase p c.free_pools;
  partial_pools = erase p c.partial_pools;
  busy_pools = erase p c.busy_pools;
}

unfoldable pub add_free : ℕ → Cache → Cache
add_free p c = record c { free_pools = p ∷ c.free_pools }

unfoldable pub add_partial : ℕ → Cache → Cache
add_partial p c = record c { partial_pools = p ∷ c.partial_pools }

unfoldable pub add_busy : ℕ → Cache → Cache
add_busy p c = record c { busy_pools = p ∷ c.busy_pools }

-- The two places where `__mem_cache_alloc` moves a pool that is on a list.
unfoldable pub then_partial : Cache → ℕ → Option (ℕ × Pool) → Option (ℕ × Cache)
unfolding put_pool add_busy unlink
then_partial c p none = none
then_partial c p (some (ptr, pool)) =
    let c' = put_pool c p pool in
    some (ptr, if pool.free == 0 then add_busy p (unlink p c') else c')

unfoldable pub serve_partial : Cache → ℕ → Option (ℕ × Cache)
unfolding then_partial
serve_partial c p = then_partial c p (pool_alloc c.layout (c.pools p))

unfoldable pub then_free : Cache → ℕ → Option (ℕ × Pool) → Option (ℕ × Cache)
unfolding put_pool add_partial unlink
then_free c p none = none
then_free c p (some (ptr, pool)) =
    let c' = put_pool c p pool in
    some (ptr, if pool.free == c.layout.obj_count then c' else add_partial p (unlink p c'))

unfoldable pub serve_free : Cache → ℕ → Option (ℕ × Cache)
unfolding then_free
serve_free c p = then_free c p (pool_alloc c.layout (c.pools p))

-- The allocation from a pool that was just created.
unfoldable pub then_new : Cache → ℕ → Option (ℕ × Pool) → Option (ℕ × Cache)
unfolding put_pool add_partial
then_new c p none = none
then_new c p (some (ptr, pool)) = some (ptr, add_partial p (put_pool c p pool))

unfoldable pub serve_new : Cache → ℕ → Option (ℕ × Cache)
unfolding then_new
serve_new c p = then_new c p (pool_alloc c.layout (pool_create c.layout p))

-- The moves of `__mem_cache_free`, by the count of free objects.
unfoldable pub then_freed : Cache → ℕ → Option Pool → Option Cache
unfolding put_pool add_partial add_free unlink
then_freed c p none = none
then_freed c p (some pool) =
    let c' = put_pool c p pool in
    let c'' = if pool.free == 1 then add_partial p (unlink p c') else c' in
    some (if pool.free == c.layout.obj_count then add_free p (unlink p c'') else c'')

-- `__mem_cache_free`; `none` is a BUG of `mem_pool_free`.
unfoldable pub cache_free : Cache → (ptr : ℕ) → Option Cache
unfolding then_freed
cache_free c ptr =
    let p = align_down ptr (2 ^ (c.layout.pool_order + page_shift)) in
    then_freed c p (pool_free c.layout (c.pools p) ptr)

module _ (src : PageSource) where
  -- The page allocator, and the descriptors of the pages.
  pub record World : Type 0 where
    pub pages : src.State
    pub descr : ℕ → Descr

  -- The part of `mem_pool_create` that takes pages: they are marked as those of cache `id`.
  unfoldable pub take_pages : World → (id order : ℕ) → Option (ℕ × World)
  unfolding mark
  take_pages w id order = elim (src.get w.pages order) [
    | none ↦ none
    | some (addr, pages) ↦ some (
      addr,
      record {
        pages = pages;
        descr =
            mark w.descr (addr / 2 ^ page_shift) (2 ^ order) (record { cache_bit = true; u = id });
      },
    )
  ]

  -- `mem_pool_destroy`: `none` is the BUG for a pool that is in use.
  unfoldable pub pool_destroy : World → Cache → ℕ → Option World
  unfolding mark
  pool_destroy w c p =
      if (c.pools p).free == c.layout.obj_count
      then some (record {
        pages = src.put w.pages p c.layout.pool_order;
        descr =
            mark w.descr (p / 2 ^ page_shift) (2 ^ c.layout.pool_order)
              (record { cache_bit = false; u = 0 });
      })
      else none

  unfoldable pub destroy_all : World → Cache → List ℕ → Option World
  destroy_all w c [] = some w
  destroy_all w c (p ∷ ps) = elim (pool_destroy w c p) [
    | none ↦ none
    | some w' ↦ destroy_all w' c ps
  ]

  -- `mem_cache_shrink`: the free pools are taken off and destroyed.
  unfoldable pub cache_shrink : World → Cache → Option (World × Cache)
  cache_shrink w c = elim (destroy_all w c c.free_pools) [
    | none ↦ none
    | some w' ↦ some (w', record c { free_pools = [] })
  ]

  -- `mem_cache_release`: a BUG while there are objects in use.
  unfoldable pub cache_release : World → Cache → Option World
  cache_release w c = elim c.busy_pools [
    | [] ↦ elim c.partial_pools [ [] ↦ destroy_all w c c.free_pools | p ∷ ps ↦ none ]
    | p ∷ ps ↦ none
  ]

  -- A BUG, no memory, or an object.
  pub data Outcome : Type 0 where
    bug : Outcome
    no_memory : Outcome
    object : (ptr : ℕ) → Cache → World → Outcome

  unfoldable pub served : World → Option (ℕ × Cache) → Outcome
  served w none = bug
  served w (some (ptr, c)) = object ptr c w

  -- `__mem_cache_alloc` of cache `id`: a pool that is partly used, else a free one, else a new one.
  unfoldable pub alloc_from : World → ℕ → Cache → (partial free : List ℕ) → Outcome
  unfolding served
  alloc_from w id c (p ∷ ps) free = served w (serve_partial c p)
  alloc_from w id c [] (p ∷ ps) = served w (serve_free c p)
  alloc_from w id c [] [] = elim (take_pages w id c.layout.pool_order) [
    | none ↦ no_memory
    | some (p, w') ↦ served w' (serve_new c p)
  ]

  unfoldable pub cache_alloc : World → ℕ → Cache → Outcome
  unfolding alloc_from
  cache_alloc w id c = alloc_from w id c c.partial_pools c.free_pools
