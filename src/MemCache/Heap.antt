-- ===== src/MemCache/Heap.antt =====
-- mem_alloc, mem_free and mem_realloc of alloc.c: a cache for each of 34 sizes, and pages of their
-- own for what is larger.
use au_os.Prelude.{
  ℕ, zero, suc, ◌+◌, ◌/◌, ◌^◌, false, Option, none, some, List, [], ◌∷◌, leb, ◌==◌, if◌then◌else◌,
  get_or, length,
}
use au_os.Slab.{align_down, page_shift}
use au_os.PageAlloc.{max_order}
use au_os.MemCache.{
  PageSource, World, Descr, Outcome, bug, no_memory, object, Cache, cache_setup, cache_alloc,
  cache_free, cache_shrink,
}

abbrev pub mem_pool_size : List ℕ
mem_pool_size =
    64 ∷ 128 ∷ 192 ∷ 256 ∷ 320 ∷ 384 ∷ 448 ∷ 512 ∷ 576 ∷ 640 ∷ 704 ∷ 768 ∷ 832 ∷ 896 ∷ 960 ∷ 1024
    ∷ 1152 ∷ 1280 ∷ 1408 ∷ 1536 ∷ 1664 ∷ 1792 ∷ 1920 ∷ 2048 ∷ 2304 ∷ 2560 ∷ 2816 ∷ 3072 ∷ 3584
    ∷ 4096 ∷ 5120 ∷ 6144 ∷ 7168 ∷ 8192 ∷ []

-- `mem_pool_lookup`, the number of the cache.
unfoldable pub lookup_from : List ℕ → (i size : ℕ) → Option ℕ
lookup_from [] i size = none
lookup_from (s ∷ ss) i size =
    let rest = lookup_from ss (i + 1) size in if leb size s then some i else rest

unfoldable pub mem_pool_lookup : ℕ → Option ℕ
unfolding lookup_from
mem_pool_lookup size = lookup_from mem_pool_size 0 size

-- The loop of `mem_order_calculate`, over the orders that are left.
unfoldable pub order_loop : (left size order : ℕ) → ℕ
order_loop zero size order = order
order_loop (suc left) size order =
    let rest = order_loop left size (order + 1) in
    if leb size (2 ^ (order + page_shift)) then order else rest

unfoldable pub mem_order_calculate : ℕ → ℕ
unfolding order_loop
mem_order_calculate size = order_loop (max_order + 1) size 0

module _ (src : PageSource) where
  -- The caches by number, and the pages.
  pub record Heap : Type 0 where
    pub caches : ℕ → Cache
    pub world : World src

  -- `mem_alloc_setup`: each cache is set up for objects of its size, aligned to 64.
  unfoldable pub mem_alloc_setup : Heap → Heap
  mem_alloc_setup h = record h {
    caches =
        λ i. cache_setup (h.caches i).pools (get_or mem_pool_size i 0) (get_or mem_pool_size 0 0);
  }

  unfoldable pub put_cache : Heap → ℕ → Cache → World src → Heap
  put_cache h i c w = record { caches = λ j. if j == i then c else h.caches j; world = w }

  unfoldable pub set_descr : World src → ℕ → Descr → World src
  set_descr w frame v = record w { descr = λ f. if f == frame then v else w.descr f }

  -- `mem_alloc_shrink`, over the `left` caches from `i` on: `none` is a BUG.
  unfoldable pub shrink_from : Heap → (left i : ℕ) → Option Heap
  unfolding put_cache
  shrink_from h zero i = some h
  shrink_from h (suc left) i = elim (cache_shrink src h.world (h.caches i)) [
    | none ↦ none
    | some (w, c) ↦ shrink_from (put_cache h i c w) left (i + 1)
  ]

  unfoldable pub mem_alloc_shrink : Heap → Option Heap
  unfolding shrink_from
  mem_alloc_shrink h = shrink_from h (length mem_pool_size) 0

  -- A BUG, or an address, which is 0 where there is no memory, and the heap.
  unfoldable pub then_alloc : Heap → ℕ → Outcome src → Option (ℕ × Heap)
  unfolding put_cache
  then_alloc h i bug = none
  then_alloc h i no_memory = some (0, h)
  then_alloc h i (object ptr c w) = some (ptr, put_cache h i c w)

  unfoldable pub then_pages : Heap → (order : ℕ) → Option (ℕ × src.State) → ℕ × Heap
  unfolding set_descr
  then_pages h order none = (0, h)
  then_pages h order (some (addr, pages)) = (
    addr,
    record h {
      world =
          set_descr (record h.world { pages = pages }) (addr / 2 ^ page_shift)
            (record { cache_bit = false; u = order });
    },
  )

  unfoldable pub mem_alloc : Heap → (size : ℕ) → Option (ℕ × Heap)
  unfolding then_alloc then_pages
  mem_alloc h size = elim (mem_pool_lookup size) [
    | some i ↦ then_alloc h i (cache_alloc src h.world i (h.caches i))
    | none ↦
        let order = mem_order_calculate size in
        some (then_pages h order (src.get h.world.pages order))
  ]

  unfoldable pub then_free : Heap → ℕ → Option Cache → Option Heap
  unfolding put_cache
  then_free h i none = none
  then_free h i (some c) = some (put_cache h i c h.world)

  -- The branch of `mem_free` for pages that are no cache's; `~mask & pa(ptr)` is the multiple of
  -- the block's size below the address.
  unfoldable pub free_large : Heap → (frame ptr : ℕ) → Heap
  unfolding set_descr
  free_large h frame ptr =
      let order = (h.world.descr frame).u in
      let w = set_descr h.world frame (record { cache_bit = false; u = 0 }) in
      record h {
        world = record w {
          pages = src.put w.pages (align_down ptr (2 ^ (order + page_shift))) order;
        };
      }

  unfoldable pub mem_free : Heap → (ptr : ℕ) → Option Heap
  unfolding then_free free_large
  mem_free h ptr =
      let frame = ptr / 2 ^ page_shift in
      let i = (h.world.descr frame).u in
      if ptr == 0
      then some h
      else if (h.world.descr frame).cache_bit
      then then_free h i (cache_free (h.caches i) ptr)
      else some (free_large h frame ptr)

  -- The size that `mem_realloc` finds for the object at `ptr`.
  unfoldable pub old_size : Heap → (ptr : ℕ) → ℕ
  old_size h ptr =
      let d = h.world.descr (ptr / 2 ^ page_shift) in
      if d.cache_bit then (h.caches d.u).layout.obj_size else 2 ^ (page_shift + d.u)

  -- What `mem_realloc` does after its `mem_alloc`: the old object is freed; the bytes that
  -- `memcpy` moves are those of `old_size`.
  unfoldable pub then_realloc : (ptr : ℕ) → Option (ℕ × Heap) → Option (ℕ × Heap)
  unfolding mem_free
  then_realloc ptr none = none
  then_realloc ptr (some (new, h)) = elim (mem_free h ptr) [
    | none ↦ if new == 0 then some (0, h) else none
    | some h' ↦ some (new, if new == 0 then h else h')
  ]

  unfoldable pub mem_realloc : Heap → (ptr size : ℕ) → Option (ℕ × Heap)
  unfolding then_realloc old_size
  mem_realloc h ptr size =
      if ptr == 0
      then mem_alloc h size
      else if leb size (old_size h ptr)
      then some (ptr, h)
      else then_realloc ptr (mem_alloc h size)
