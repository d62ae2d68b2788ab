-- ===== src/Slab/Pools.antt =====
-- What a pool promises: its count of free slots, allocation and freeing on its bitmap.
use native.Mathlib.Nat.{le_refl}
use au_os.Prelude.{
  ℕ, zero, suc, ◌+◌, ◌-◌, ◌*◌, ◌≤◌, ◌<◌, ◌≡◌, refl, inl, inr, false, Option, none, some, List,
  arith, ◌==◌, if◌then◌else◌, Bool-cases, length,
}
use au_os.Slab.{Layout, Pool, pool_alloc, take_slot}
use au_os.Slab.Slots.{busy, AllWords, IsTaken, take_slot-IsTaken}

-- How many of the first `n` slots are free.
abbrev pub free_slots : List ℕ → ℕ → ℕ
free_slots ms zero = 0
free_slots ms (suc n) = free_slots ms n + (1 - busy ms n)

-- `ms'` is `ms` with slot `j` set to `v`.
abbrev pub IsUpdate : (ms ms' : List ℕ) (j v : ℕ) → Type 0
IsUpdate ms ms' j v = (i : ℕ) → busy ms' i ≡ (if i == j then v else busy ms i)

module _ (ms ms' : List ℕ) (j v : ℕ) (upd : IsUpdate ms ms' j v) where
  free_slots-above : (n : ℕ) → n ≤ j → free_slots ms' n ≡ free_slots ms n
  free_slots-above zero le = refl
  free_slots-above (suc n) le = ground (arith, free_slots-above n, upd n)

  free_slots-update :
      (n : ℕ) → j < n → free_slots ms' n + (1 - busy ms j) ≡ free_slots ms n + (1 - v)
  free_slots-update zero lt = absurd (omega arith)
  free_slots-update (suc n) lt = elim (Bool-cases (n == j)) [
    | inl same ↦
        let e : n ≡ j = ground arith in rw e (ground (arith, free_slots-above j (le_refl j), upd j))
    | inr other ↦ ground (arith, free_slots-update n, upd n)
  ]

free_slots-none : (ms : List ℕ) (n : ℕ) → ((i : ℕ) → i < n → busy ms i ≡ 1) → free_slots ms n ≡ 0
free_slots-none ms zero h = refl
free_slots-none ms (suc n) h =
    omega (arith, free_slots-none ms n (λ i lt. h i (omega arith)), h n (omega arith))

free_slots-le : (ms : List ℕ) (n : ℕ) → free_slots ms n ≤ n
free_slots-le ms zero = omega arith
free_slots-le ms (suc n) = omega (arith, free_slots-le ms n)

-- A busy slot is not counted, and a free one is.
pub free_slots-busy : (ms : List ℕ) (n j : ℕ) → j < n → busy ms j ≡ 1 → free_slots ms n < n
free_slots-busy ms zero j lt e = absurd (omega arith)
free_slots-busy ms (suc n) j lt e = elim (Bool-cases (j == n)) [
  | inl same ↦ let e' : j ≡ n = ground arith in omega (arith, free_slots-le ms n, rw e' at e)
  | inr other ↦ ground (arith, free_slots-busy ms n j)
]

free_slots-free : (ms : List ℕ) (n j : ℕ) → j < n → busy ms j ≡ 0 → 0 < free_slots ms n
free_slots-free ms zero j lt e = absurd (omega arith)
free_slots-free ms (suc n) j lt e = elim (Bool-cases (j == n)) [
  | inl same ↦ let e' : j ≡ n = ground arith in omega (arith, rw e' at e)
  | inr other ↦ ground (arith, free_slots-free ms n j)
]

-- A pool in order: a bit for each object, the bits behind the objects set, and the right count.
pub record IsPool (l : Layout) (pool : Pool) : Type 0 where
  pub words : AllWords pool.bitmask
  pub enough : l.obj_count ≤ 64 * length pool.bitmask
  pub padding : (i : ℕ) → l.obj_count ≤ i → i < 64 * length pool.bitmask → busy pool.bitmask i ≡ 1
  pub count : pool.free ≡ free_slots pool.bitmask l.obj_count

pub free-le : (l : Layout) (pool : Pool) → IsPool l pool → pool.free ≤ l.obj_count
free-le l pool ok = omega (arith, ok.count, free_slots-le pool.bitmask l.obj_count)

-- A pool after slot `j` became `v`.
pub IsPool-update :
    (l : Layout) (pool : Pool) (ms' : List ℕ) (j v free' : ℕ)
    → IsPool l pool
    → j < l.obj_count
    → IsUpdate pool.bitmask ms' j v
    → AllWords ms'
    → length ms' ≡ length pool.bitmask
    → free' + (1 - busy pool.bitmask j) ≡ pool.free + (1 - v)
    → IsPool l (record pool { bitmask = ms'; free = free' })
IsPool-update l pool ms' j v free' ok lt upd words len e = record {
  words = words;
  enough = omega (arith, ok.enough);
  padding = λ i le lt'. ground (arith, upd i, ok.padding i);
  count = omega (arith, ok.count, free_slots-update pool.bitmask ms' j v upd l.obj_count lt);
}

-- What an allocation gives: the object of the first free slot, which becomes busy.
pub record IsObject (l : Layout) (pool : Pool) (r : Option (ℕ × Pool)) : Type 0 where
  pub pos : ℕ
  pub after : Pool
  pub result : r ≡ some (pool.base + pos * l.obj_size, after)
  pub in_pool : pos < l.obj_count
  pub was_free : busy pool.bitmask pos ≡ 0
  pub first : (i : ℕ) → i < pos → busy pool.bitmask i ≡ 1
  pub marked : IsUpdate pool.bitmask after.bitmask pos 1
  pub free_less : after.free + 1 ≡ pool.free
  pub base_kept : after.base ≡ pool.base
  pub length_kept : length after.bitmask ≡ length pool.bitmask
  pub in_order : IsPool l after

pool_alloc-taken :
    (l : Layout) (pool : Pool)
    → IsPool l pool
    → 0 < pool.free
    → (r : Option (ℕ × List ℕ)) → take_slot pool.bitmask 0 ≡ r
    → IsTaken pool.bitmask 0 r
    → IsObject l pool (pool_alloc l pool)
unfolding pool_alloc
pool_alloc-taken l pool ok pos none e full = absurd (
    omega (
      arith,
      ok.count,
      free_slots-none pool.bitmask l.obj_count (λ i lt. full i (omega (arith, ok.enough))),
    ))
pool_alloc-taken l pool ok pos (some (p, ms')) e (j, at, lt, clear, first, others, words, len) =
    let nonzero : (pool.free == 0) ≡ false = ground arith in
    let same : p ≡ j = omega arith in
    let inside : j < l.obj_count = ground (arith, ok.padding j) in
    record {
      pos = j;
      after = record pool { bitmask = ms'; free = pool.free - 1 };
      result = rw (nonzero, e, same) refl;
      in_pool = inside;
      was_free = clear;
      first = first;
      marked = others;
      free_less = omega arith;
      base_kept = refl;
      length_kept = len;
      in_order =
          IsPool-update l pool ms' j 1 (pool.free - 1) ok inside others words len (omega arith);
    }

-- `mem_pool_alloc` on a pool in order with a free object: it does not run into its BUG, it gives
-- the object of the first free slot, which it marks, and no other slot changes.
pub pool_alloc-IsObject :
    (l : Layout) (pool : Pool) → IsPool l pool → 0 < pool.free → IsObject l pool (pool_alloc l pool)
pool_alloc-IsObject l pool ok pos =
    pool_alloc-taken l pool ok pos (take_slot pool.bitmask 0) refl
      (take_slot-IsTaken pool.bitmask 0 ok.words)
