-- ===== src/MemCache/Alloc.antt =====
-- Allocation from a cache: the object handed out was free, and the cache stays in order.
use au_os.Prelude.{
  ℕ, ◌+◌, ◌*◌, ◌<◌, ◌≡◌, ◌≢◌, refl, ap, inl, inr, true, false, Option, some, arith, ◌==◌,
  Bool-cases, ◌∙◌,
}
use au_os.Slab.{pool_alloc, pool_create}
use au_os.Slab.Slots.{busy}
use au_os.Slab.Pools.{IsObject, pool_alloc-IsObject}
use au_os.Slab.Create.{pool_create-IsPool}
use au_os.MemCache.{
  Cache, put_pool, unlink, add_partial, add_busy, then_partial, then_free, then_new, serve_partial,
  serve_free, serve_new,
}
use au_os.MemCache.Inv.{
  count_of, count_of-erase, IsEntry, IsCache, listed, IsOnly, IsOnly-IsCache, put-IsOnly,
  IsOnly-trans, add_partial-IsOnly, move_partial-IsOnly, move_busy-IsOnly,
}

-- What a cache gives: an object of one pool, busy now, and free before where the pool was on a
-- list; nothing else changes, and the cache is in order.
pub record IsServed (c : Cache) (ptr : ℕ) (after : Cache) : Type 0 where
  pub pool : ℕ
  pub pos : ℕ
  pub address : ptr ≡ pool + pos * c.layout.obj_size
  pub in_pool : pos < c.layout.obj_count
  pub was_free : 0 < listed c pool → busy (c.pools pool).bitmask pos ≡ 0
  pub now_busy : busy (after.pools pool).bitmask pos ≡ 1
  pub slots_kept :
      0 < listed c pool
      → (i : ℕ) → i ≢ pos
      → busy (after.pools pool).bitmask i ≡ busy (c.pools pool).bitmask i
  pub now_listed : 0 < listed after pool
  pub only : IsOnly c after pool
  pub in_order : IsCache after

abbrev pub Gives : Cache → Option (ℕ × Cache) → Type 0
Gives c r = (ptr : ℕ) × (after : Cache) × (r ≡ some (ptr, after)) × IsServed c ptr after

-- From a pool that is on a list.
module _ (c : Cache) (p : ℕ) (ok : IsCache c) (on : 0 < listed c p)
    (o : IsObject c.layout (c.pools p) (pool_alloc c.layout (c.pools p))) where
  from_listed :
      (after : Cache)
      → after.pools p ≡ o.after
      → IsOnly c after p
      → IsEntry c.layout o.after p
          (count_of p after.free_pools)
          (count_of p after.partial_pools)
          (count_of p after.busy_pools)
      → 0 < listed after p
      → IsServed c (p + o.pos * c.layout.obj_size) after
  from_listed after e only entry there = record {
    pool = p;
    pos = o.pos;
    address = refl;
    in_pool = o.in_pool;
    was_free = λ _. o.was_free;
    now_busy = rw e (ground (arith, o.marked o.pos));
    slots_kept = λ _ i ne. rw e (ground (arith, o.marked i));
    now_listed = there;
    only = only;
    in_order = IsOnly-IsCache c after p ok only (rw (only.same_layout, e) entry);
  }

pub serve_partial-Gives :
    (c : Cache) (p : ℕ) → IsCache c → 0 < count_of p c.partial_pools → Gives c (serve_partial c p)
unfolding serve_partial then_partial add_busy unlink put_pool
serve_partial-Gives c p ok on =
    let e = ok.entry p in
    let o = pool_alloc-IsObject c.layout (c.pools p) (e.in_order (omega arith)) (e.some_free on) in
    let base : (c.pools p).base ≡ p = e.at_base (omega arith) in
    let same : (p == p) ≡ true = ground arith in
    let here = o.result ∙ ap (λ b. some (b + o.pos * c.layout.obj_size, o.after)) base in
    elim (Bool-cases (o.after.free == 0)) [
      | inl z ↦ (
        p + o.pos * c.layout.obj_size,
        add_busy p (unlink p (put_pool c p o.after)),
        ap (then_partial c p) here ∙ rw z refl,
        from_listed c p ok (omega arith) o _ (rw same refl) (move_busy-IsOnly c p o.after)
            (record {
              once = ground (
                arith,
                e.once,
                count_of-erase p p c.free_pools,
                count_of-erase p p c.partial_pools,
                count_of-erase p p c.busy_pools,
              );
              in_order = λ _. o.in_order;
              at_base = λ _. o.base_kept ∙ base;
              all_free = λ lt. absurd (ground (arith, e.once, count_of-erase p p c.free_pools));
              some_free = λ lt. absurd (ground (arith, e.once, count_of-erase p p c.partial_pools));
              some_busy = λ lt. absurd (ground (arith, e.once, count_of-erase p p c.partial_pools));
              none_free = λ _. ground arith;
            })
            (ground arith),
      )
      | inr nz ↦ (
        p + o.pos * c.layout.obj_size,
        put_pool c p o.after,
        ap (then_partial c p) here ∙ rw nz refl,
        from_listed c p ok (omega arith) o _ (rw same refl) (put-IsOnly c p o.after)
            (record {
              once = e.once;
              in_order = λ _. o.in_order;
              at_base = λ _. o.base_kept ∙ base;
              all_free = λ lt. absurd (omega (arith, e.once));
              some_free = λ _. ground arith;
              some_busy = λ _. omega (arith, e.some_busy on, o.free_less);
              none_free = λ lt. absurd (omega (arith, e.once));
            })
            (omega arith),
      )
    ]

pub serve_free-Gives :
    (c : Cache) (p : ℕ) → IsCache c → 0 < count_of p c.free_pools → Gives c (serve_free c p)
unfolding serve_free then_free add_partial unlink put_pool
serve_free-Gives c p ok on =
    let e = ok.entry p in
    let o =
      pool_alloc-IsObject c.layout (c.pools p) (e.in_order (omega arith))
        (omega (arith, e.all_free on, ok.two_objects)) in
    let base : (c.pools p).base ≡ p = e.at_base (omega arith) in
    let same : (p == p) ≡ true = ground arith in
    let here = o.result ∙ ap (λ b. some (b + o.pos * c.layout.obj_size, o.after)) base in
    let used : (o.after.free == c.layout.obj_count) ≡ false =
      ground (arith, o.free_less, e.all_free on) in
    (
      p + o.pos * c.layout.obj_size,
      add_partial p (unlink p (put_pool c p o.after)),
      ap (then_free c p) here ∙ rw used refl,
      from_listed c p ok (omega arith) o _ (rw same refl) (move_partial-IsOnly c p o.after)
          (record {
            once = ground (
              arith,
              e.once,
              count_of-erase p p c.free_pools,
              count_of-erase p p c.partial_pools,
              count_of-erase p p c.busy_pools,
            );
            in_order = λ _. o.in_order;
            at_base = λ _. o.base_kept ∙ base;
            all_free = λ lt. absurd (ground (arith, e.once, count_of-erase p p c.free_pools));
            some_free = λ _. omega (arith, o.free_less, e.all_free on, ok.two_objects);
            some_busy = λ _. omega (arith, o.free_less, e.all_free on);
            none_free = λ lt. absurd (ground (arith, e.once, count_of-erase p p c.busy_pools));
          })
          (ground arith),
    )

-- From a new pool, at an address that is on no list.
pub serve_new-Gives : (c : Cache) (p : ℕ) → IsCache c → listed c p ≡ 0 → Gives c (serve_new c p)
unfolding serve_new then_new add_partial put_pool pool_create
serve_new-Gives c p ok off =
    let (made, all_free, clear) = pool_create-IsPool c.layout p ok.words in
    let new = pool_create c.layout p in
    let o = pool_alloc-IsObject c.layout new made (omega (arith, ok.two_objects)) in
    let same : (p == p) ≡ true = ground arith in
    let only : IsOnly c (add_partial p (put_pool c p o.after)) p =
      IsOnly-trans _ _ _ p (put-IsOnly c p o.after) (add_partial-IsOnly _ p) in
    (
      p + o.pos * c.layout.obj_size,
      add_partial p (put_pool c p o.after),
      ap (then_new c p) o.result,
      record {
        pool = p;
        pos = o.pos;
        address = refl;
        in_pool = o.in_pool;
        was_free = λ lt. absurd (omega arith);
        now_busy = rw same (ground (arith, o.marked o.pos));
        slots_kept = λ lt i ne. absurd (omega arith);
        now_listed = ground arith;
        only = only;
        in_order = IsOnly-IsCache c _ p ok only (
            rw same (record {
              once = ground arith;
              in_order = λ _. o.in_order;
              at_base = λ _. o.base_kept;
              all_free = λ lt. absurd (omega arith);
              some_free = λ _. omega (arith, o.free_less, ok.two_objects);
              some_busy = λ _. omega (arith, o.free_less);
              none_free = λ lt. absurd (omega arith);
            }));
      },
    )
