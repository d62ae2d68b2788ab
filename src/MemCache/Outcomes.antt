-- ===== src/MemCache/Outcomes.antt =====
-- What an allocation from a cache comes to, whichever list it is served from.
use au_os.Prelude.{ℕ, ◌≡◌, refl, Option, none, some, List, [], ◌∷◌, arith}
use au_os.MemCache.{
  PageSource, World, Outcome, no_memory, object, Cache, serve_partial, serve_free, serve_new,
  served, alloc_from, cache_alloc, take_pages,
}
use au_os.MemCache.Inv.{IsCache, listed}
use au_os.MemCache.Alloc.{IsServed, Gives, serve_partial-Gives, serve_free-Gives, serve_new-Gives}

module _ (src : PageSource) (w : World src) (id : ℕ) (c : Cache) (ok : IsCache c) where
  -- What the allocation comes to: an object, or no memory where no pool has a free object and
  -- there are no pages.
  pub data IsResult : Outcome src → Type 0 where
    is_object :
        (ptr : ℕ) (after : Cache) (w' : World src)
        → IsServed c ptr after
        → IsResult (object ptr after w')
    is_empty :
        c.partial_pools ≡ []
        → c.free_pools ≡ []
        → src.get w.pages c.layout.pool_order ≡ none
        → IsResult no_memory

  served-IsResult :
      (w' : World src) (r : Option (ℕ × Cache)) → Gives c r → IsResult (served src w' r)
  unfolding served
  served-IsResult w' r (ptr, after, e, h) = rw (e, served) (is_object ptr after w' h)

  from_pages :
      c.partial_pools ≡ []
      → c.free_pools ≡ []
      → (r : Option (ℕ × src.State)) → src.get w.pages c.layout.pool_order ≡ r
      → ((p : ℕ) (st : src.State) → r ≡ some (p, st) → listed c p ≡ 0)
      → IsResult (alloc_from src w id c [] [])
  unfolding alloc_from take_pages
  from_pages no_partial no_free none e fresh = rw (e, alloc_from) (is_empty no_partial no_free e)
  from_pages no_partial no_free (some (p, st)) e fresh =
      rw (e, alloc_from)
        (served-IsResult _ (serve_new c p) (serve_new-Gives c p ok (fresh p st refl)))

  from_lists :
      (partial free : List ℕ)
      → c.partial_pools ≡ partial
      → c.free_pools ≡ free
      → ((p : ℕ) (st : src.State)
          → src.get w.pages c.layout.pool_order ≡ some (p, st)
          → listed c p ≡ 0)
      → IsResult (alloc_from src w id c partial free)
  unfolding alloc_from
  from_lists (p ∷ ps) free e e' fresh =
      served-IsResult w (serve_partial c p) (serve_partial-Gives c p ok (rw e (ground arith)))
  from_lists [] (p ∷ ps) e e' fresh =
      served-IsResult w (serve_free c p) (serve_free-Gives c p ok (rw e' (ground arith)))
  from_lists [] [] e e' fresh = from_pages e e' (src.get w.pages c.layout.pool_order) refl fresh

  -- `__mem_cache_alloc` on a cache in order, where the page allocator gives no block that is a
  -- pool of the cache already: no BUG is reached. It gives an object that was free and is busy
  -- now, leaves every other object alone and the cache in order, or there is no memory.
  pub cache_alloc-IsResult :
      ((p : ℕ) (st : src.State)
        → src.get w.pages c.layout.pool_order ≡ some (p, st)
        → listed c p ≡ 0)
      → IsResult (cache_alloc src w id c)
  unfolding cache_alloc
  cache_alloc-IsResult fresh = from_lists c.partial_pools c.free_pools refl refl fresh
