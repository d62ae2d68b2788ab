-- ===== src/MemCache/Free.antt =====
-- Freeing to a cache: the object's slot becomes free, and the cache stays in order.
use mathlib.Core.Path.{subst}
use au_os.Prelude.{
  ℕ, ◌+◌, ◌*◌, ◌%◌, ◌^◌, ◌≤◌, ◌<◌, ◌≡◌, ◌≢◌, refl, ap, inl, inr, true, false, Option, some, arith,
  ◌==◌, Bool-cases, ◌∙◌,
}
use au_os.Slab.{Pool, pool_free, align_down, floor, page_shift}
use au_os.Slab.Slots.{busy}
use au_os.Slab.Pools.{free-le}
use au_os.Slab.Release.{IsFreed, pool_free-IsFreed}
use au_os.MemCache.{Cache, erase, put_pool, unlink, add_partial, add_free, then_freed, cache_free}
use au_os.MemCache.Inv.{
  count_of, count_of-erase, IsEntry, IsCache, listed, IsOnly, IsOnly-IsCache, put-IsOnly,
  move_partial-IsOnly, move_free-IsOnly,
}

-- An address in an aligned block is rounded down to the block's.
align_down-block : (p size off : ℕ) → p % size ≡ 0 → off < size → align_down (p + off) size ≡ p
unfolding align_down floor
align_down-block p size off e lt = grind arith

-- What freeing the object `pos` of pool `p` gives.
pub record IsFree (c : Cache) (p pos : ℕ) (r : Option Cache) : Type 0 where
  pub after : Cache
  pub result : r ≡ some after
  pub now_free : busy (after.pools p).bitmask pos ≡ 0
  pub slots_kept : (i : ℕ) → i ≢ pos → busy (after.pools p).bitmask i ≡ busy (c.pools p).bitmask i
  pub one_more : (after.pools p).free ≡ (c.pools p).free + 1
  pub now_listed : 0 < listed after p
  pub only : IsOnly c after p
  pub in_order : IsCache after

module _ (c : Cache) (p pos : ℕ) (r : Option Pool) (ok : IsCache c) (on : 0 < listed c p)
    (f : IsFreed c.layout (c.pools p) pos r) where
  freed_to :
      (after : Cache)
      → after.pools p ≡ f.after
      → 0 < listed after p
      → IsOnly c after p
      → IsEntry c.layout f.after p
          (count_of p after.free_pools)
          (count_of p after.partial_pools)
          (count_of p after.busy_pools)
      → then_freed c p r ≡ some after
      → IsFree c p pos (then_freed c p r)
  freed_to after e still only entry result = record {
    after = after;
    result = result;
    now_free = rw e (ground (arith, f.cleared pos));
    slots_kept = λ i ne. rw e (ground (arith, f.cleared i));
    one_more = rw e f.free_more;
    now_listed = still;
    only = only;
    in_order = IsOnly-IsCache c after p ok only (rw (only.same_layout, e) entry);
  }

  base_at : (c.pools p).base ≡ p
  base_at = (ok.entry p).at_base on

  at_most : f.after.free ≤ c.layout.obj_count
  at_most = free-le c.layout f.after f.in_order

  -- The first object that is freed in a busy pool.
  partial-IsEntry :
      f.after.free ≡ 1
      → IsEntry c.layout f.after p
          (count_of p (erase p c.free_pools))
          (1 + count_of p (erase p c.partial_pools))
          (count_of p (erase p c.busy_pools))
  partial-IsEntry one =
      let once = (ok.entry p).once in
      record {
        once = ground (
          arith,
          count_of-erase p p c.free_pools,
          count_of-erase p p c.partial_pools,
          count_of-erase p p c.busy_pools,
        );
        in_order = λ _. f.in_order;
        at_base = λ _. f.base_kept ∙ base_at;
        all_free = λ lt. absurd (ground (arith, count_of-erase p p c.free_pools));
        some_free = λ _. omega arith;
        some_busy = λ _. omega (arith, ok.two_objects);
        none_free = λ lt. absurd (ground (arith, count_of-erase p p c.busy_pools));
      }

  -- The last one.
  free-IsEntry :
      f.after.free ≡ c.layout.obj_count
      → IsEntry c.layout f.after p
          (1 + count_of p (erase p c.free_pools))
          (count_of p (erase p c.partial_pools))
          (count_of p (erase p c.busy_pools))
  free-IsEntry all =
      let once = (ok.entry p).once in
      record {
        once = ground (
          arith,
          count_of-erase p p c.free_pools,
          count_of-erase p p c.partial_pools,
          count_of-erase p p c.busy_pools,
        );
        in_order = λ _. f.in_order;
        at_base = λ _. f.base_kept ∙ base_at;
        all_free = λ _. all;
        some_free = λ lt. absurd (ground (arith, count_of-erase p p c.partial_pools));
        some_busy = λ lt. absurd (ground (arith, count_of-erase p p c.partial_pools));
        none_free = λ lt. absurd (ground (arith, count_of-erase p p c.busy_pools));
      }

  -- One in between.
  same-IsEntry :
      f.after.free ≢ 1
      → f.after.free ≢ c.layout.obj_count
      → IsEntry c.layout f.after p
          (count_of p c.free_pools)
          (count_of p c.partial_pools)
          (count_of p c.busy_pools)
  same-IsEntry not_one not_all =
      let e = ok.entry p in
      record {
        once = e.once;
        in_order = λ _. f.in_order;
        at_base = λ _. f.base_kept ∙ base_at;
        all_free = λ lt. absurd (omega (arith, e.all_free lt, f.free_more, at_most));
        some_free = λ _. omega (arith, f.free_more);
        some_busy = λ lt. ground (arith, at_most);
        none_free = λ lt. absurd (not_one (omega (arith, e.none_free lt, f.free_more)));
      }

  then_freed-IsFree : IsFree c p pos (then_freed c p r)
  unfolding then_freed put_pool add_partial add_free unlink
  then_freed-IsFree =
      let same : (p == p) ≡ true = ground arith in
      let here : then_freed c p r ≡ then_freed c p (some f.after) = ap (then_freed c p) f.result in
      elim (Bool-cases (f.after.free == 1)) [
        | inl one ↦
            let part : (f.after.free == c.layout.obj_count) ≡ false =
              ground (arith, ok.two_objects) in
            freed_to (add_partial p (unlink p (put_pool c p f.after))) (rw same refl)
              (rw same (omega arith)) (move_partial-IsOnly c p f.after)
              (rw same (partial-IsEntry (ground arith))) (here ∙ rw (one, part) refl)
        | inr more ↦ elim (Bool-cases (f.after.free == c.layout.obj_count)) [
          | inl all ↦
              freed_to (add_free p (unlink p (put_pool c p f.after))) (rw same refl)
                (rw same (omega arith)) (move_free-IsOnly c _ p (put-IsOnly c p f.after))
                (rw same (free-IsEntry (ground arith))) (here ∙ rw (more, all) refl)
          | inr some_left ↦
              freed_to (put_pool c p f.after) (rw same refl) on (put-IsOnly c p f.after)
                (same-IsEntry (λ e. ground arith) (λ e. ground arith))
                (here ∙ rw (more, some_left) refl)
        ]
      ]

-- `__mem_cache_free` of an address within a busy object of a pool on one of the lists of a cache
-- in order, for a pool that lies in an aligned block: no BUG is reached, the object is free, the pool
-- has one free object more and is on a list, every other object and pool is as before, and the cache
-- is in order, so that each pool is on the list that its count of free objects calls for.
pub cache_free-IsFree :
    (c : Cache) (p pos r : ℕ)
    → IsCache c
    → 0 < listed c p
    → p % 2 ^ (c.layout.pool_order + page_shift) ≡ 0
    → pos < c.layout.obj_count
    → r < c.layout.obj_size
    → pos * c.layout.obj_size + r < 2 ^ (c.layout.pool_order + page_shift)
    → p + pos * c.layout.obj_size + r < 2 ^ 64
    → busy (c.pools p).bitmask pos ≡ 1
    → IsFree c p pos (cache_free c (p + pos * c.layout.obj_size + r))
unfolding cache_free
cache_free-IsFree c p pos r ok on aligned in_pool in_obj in_block fit is_busy =
    let e = ok.entry p in
    let base : (c.pools p).base ≡ p = e.at_base on in
    let block : align_down (p + pos * c.layout.obj_size + r)
          (2 ^ (c.layout.pool_order + page_shift))
        ≡ p =
      ap (λ a. align_down a (2 ^ (c.layout.pool_order + page_shift))) (omega arith)
      ∙ align_down-block p _ (pos * c.layout.obj_size + r) aligned in_block in
    let f =
      pool_free-IsFreed c.layout (c.pools p) pos r (e.in_order on) in_pool in_obj
        (omega (arith, base)) is_busy in
    let f' : IsFreed c.layout (c.pools p) pos
        (pool_free c.layout (c.pools p) (p + pos * c.layout.obj_size + r)) =
      subst
        (λ b.
          IsFreed c.layout (c.pools p) pos
            (pool_free c.layout (c.pools p) (b + pos * c.layout.obj_size + r)))
        base f in
    rw block (then_freed-IsFree c p pos _ ok on f')
