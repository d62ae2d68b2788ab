-- ===== src/MemCache/Inv.antt =====
-- What holds of a cache between operations: a pool is on one list at most, the one that its count
-- of free objects calls for, and is in order.
use au_os.Prelude.{
  ℕ, ◌+◌, ◌-◌, ◌≤◌, ◌<◌, ◌≡◌, ◌≢◌, refl, List, [], ◌∷◌, arith, ◌==◌, if◌then◌else◌, Bool-cases, ◌∙◌,
  inl, inr,
}
use au_os.Slab.{Layout, Pool, ceil, objs_per_word}
use au_os.Slab.Pools.{IsPool}
use au_os.MemCache.{Cache, erase, put_pool, unlink, add_partial, add_busy, add_free}

-- How often an address is on a list.
abbrev pub count_of : ℕ → List ℕ → ℕ
count_of a [] = 0
count_of a (x ∷ xs) = (if x == a then 1 else 0) + count_of a xs

pub count_of-erase :
    (p a : ℕ) (xs : List ℕ)
    → count_of a (erase p xs) ≡ (if a == p then count_of a xs - 1 else count_of a xs)
unfolding erase
count_of-erase p a [] = ground arith
count_of-erase p a (x ∷ xs) = ground (arith, count_of-erase p a xs)

-- One pool, on the lists as often as the numbers say.
pub record IsEntry (l : Layout) (pool : Pool) (a f q b : ℕ) : Type 0 where
  pub once : f + q + b ≤ 1
  pub in_order : 0 < f + q + b → IsPool l pool
  pub at_base : 0 < f + q + b → pool.base ≡ a
  pub all_free : 0 < f → pool.free ≡ l.obj_count
  pub some_free : 0 < q → 0 < pool.free
  pub some_busy : 0 < q → pool.free < l.obj_count
  pub none_free : 0 < b → pool.free ≡ 0

abbrev pub EntryOf : Cache → ℕ → Type 0
EntryOf c a =
    IsEntry c.layout (c.pools a) a (count_of a c.free_pools) (count_of a c.partial_pools)
      (count_of a c.busy_pools)

-- A cache in order: each pool is, and a pool has two objects at least, and the words for them.
pub record IsCache (c : Cache) : Type 0 where
  pub two_objects : 1 < c.layout.obj_count
  pub words : c.layout.mask_words ≡ ceil c.layout.obj_count objs_per_word
  pub entry : (a : ℕ) → EntryOf c a

-- Whether a pool is on a list.
abbrev pub listed : Cache → ℕ → ℕ
listed c a = count_of a c.free_pools + count_of a c.partial_pools + count_of a c.busy_pools

-- An entry for equal numbers and an equal pool.
IsEntry-same :
    {l : Layout} {pool pool' : Pool} (a : ℕ) {f f' q q' b b' : ℕ}
    → pool' ≡ pool
    → f' ≡ f
    → q' ≡ q
    → b' ≡ b
    → IsEntry l pool a f q b
    → IsEntry l pool' a f' q' b'
IsEntry-same a e ef eq eb h = rw (e, ef, eq, eb) h

-- Operations that leave every pool but `p` alone.
pub record IsOnly (c c' : Cache) (p : ℕ) : Type 0 where
  pub same_layout : c'.layout ≡ c.layout
  pub pools_kept : (a : ℕ) → a ≢ p → c'.pools a ≡ c.pools a
  pub free_kept : (a : ℕ) → a ≢ p → count_of a c'.free_pools ≡ count_of a c.free_pools
  pub partial_kept : (a : ℕ) → a ≢ p → count_of a c'.partial_pools ≡ count_of a c.partial_pools
  pub busy_kept : (a : ℕ) → a ≢ p → count_of a c'.busy_pools ≡ count_of a c.busy_pools

pub IsOnly-IsCache : (c c' : Cache) (p : ℕ) → IsCache c → IsOnly c c' p → EntryOf c' p → IsCache c'
IsOnly-IsCache c c' p ok only here = record {
  two_objects = rw only.same_layout ok.two_objects;
  words = rw only.same_layout ok.words;
  entry = λ a. elim (Bool-cases (a == p)) [
    | inl same ↦ let e : a ≡ p = ground arith in rw e here
    | inr other ↦
        let ne : a ≢ p = λ e. ground arith in
        rw only.same_layout (
          IsEntry-same a (only.pools_kept a ne) (only.free_kept a ne) (only.partial_kept a ne)
            (only.busy_kept a ne) (ok.entry a))
  ];
}

-- Writing one pool, with what follows it: nothing, or a move to a list.
pub put-IsOnly : (c : Cache) (p : ℕ) (pool : Pool) → IsOnly c (put_pool c p pool) p
unfolding put_pool
put-IsOnly c p pool = record {
  same_layout = refl;
  pools_kept = λ a ne. ground arith;
  free_kept = λ a ne. refl;
  partial_kept = λ a ne. refl;
  busy_kept = λ a ne. refl;
}

pub IsOnly-trans : (c c' c'' : Cache) (p : ℕ) → IsOnly c c' p → IsOnly c' c'' p → IsOnly c c'' p
IsOnly-trans c c' c'' p h h' = record {
  same_layout = h'.same_layout ∙ h.same_layout;
  pools_kept = λ a ne. h'.pools_kept a ne ∙ h.pools_kept a ne;
  free_kept = λ a ne. h'.free_kept a ne ∙ h.free_kept a ne;
  partial_kept = λ a ne. h'.partial_kept a ne ∙ h.partial_kept a ne;
  busy_kept = λ a ne. h'.busy_kept a ne ∙ h.busy_kept a ne;
}

pub unlink-IsOnly : (c : Cache) (p : ℕ) → IsOnly c (unlink p c) p
unfolding unlink
unlink-IsOnly c p = record {
  same_layout = refl;
  pools_kept = λ a ne. refl;
  free_kept = λ a ne. ground (arith, count_of-erase p a c.free_pools);
  partial_kept = λ a ne. ground (arith, count_of-erase p a c.partial_pools);
  busy_kept = λ a ne. ground (arith, count_of-erase p a c.busy_pools);
}

pub add_partial-IsOnly : (c : Cache) (p : ℕ) → IsOnly c (add_partial p c) p
unfolding add_partial
add_partial-IsOnly c p = record {
  same_layout = refl;
  pools_kept = λ a ne. refl;
  free_kept = λ a ne. refl;
  partial_kept = λ a ne. ground arith;
  busy_kept = λ a ne. refl;
}

pub add_busy-IsOnly : (c : Cache) (p : ℕ) → IsOnly c (add_busy p c) p
unfolding add_busy
add_busy-IsOnly c p = record {
  same_layout = refl;
  pools_kept = λ a ne. refl;
  free_kept = λ a ne. refl;
  partial_kept = λ a ne. refl;
  busy_kept = λ a ne. ground arith;
}

pub add_free-IsOnly : (c : Cache) (p : ℕ) → IsOnly c (add_free p c) p
unfolding add_free
add_free-IsOnly c p = record {
  same_layout = refl;
  pools_kept = λ a ne. refl;
  free_kept = λ a ne. ground arith;
  partial_kept = λ a ne. refl;
  busy_kept = λ a ne. refl;
}

-- A pool that is written and goes to another list.
pub move_partial-IsOnly :
    (c : Cache) (p : ℕ) (pool : Pool) → IsOnly c (add_partial p (unlink p (put_pool c p pool))) p
move_partial-IsOnly c p pool =
    IsOnly-trans _ _ _ p (put-IsOnly c p pool)
      (IsOnly-trans _ _ _ p (unlink-IsOnly _ p) (add_partial-IsOnly _ p))

pub move_busy-IsOnly :
    (c : Cache) (p : ℕ) (pool : Pool) → IsOnly c (add_busy p (unlink p (put_pool c p pool))) p
move_busy-IsOnly c p pool =
    IsOnly-trans _ _ _ p (put-IsOnly c p pool)
      (IsOnly-trans _ _ _ p (unlink-IsOnly _ p) (add_busy-IsOnly _ p))

pub move_free-IsOnly :
    (c c' : Cache) (p : ℕ) → IsOnly c c' p → IsOnly c (add_free p (unlink p c')) p
move_free-IsOnly c c' p h =
    IsOnly-trans _ _ _ p h (IsOnly-trans _ _ _ p (unlink-IsOnly _ p) (add_free-IsOnly _ p))
