-- ===== src/MemCache/Sizes.antt =====
-- The classes of sizes, and pages that are freed with the order that they were taken with.
use au_os.Prelude.{
  ℕ, zero, suc, ◌+◌, ◌/◌, ◌%◌, ◌^◌, ◌≤◌, ◌<◌, ◌≡◌, refl, ap, ◌⊎◌, inl, inr, true, false, Option,
  none, some, List, [], ◌∷◌, arith, leb, ltb, ◌==◌, ◌&&◌, if◌then◌else◌, Bool-cases, length, get_or,
  ◌∙◌,
}
use au_os.Slab.{align_down, floor, page_shift}
use au_os.PageAlloc.{max_order}
use au_os.MemCache.{PageSource, Descr, mark}
use au_os.MemCache.Heap.{
  mem_pool_size, lookup_from, mem_pool_lookup, order_loop, mem_order_calculate, Heap, then_pages,
  mem_alloc, free_large, mem_free, set_descr,
}

-- The first class that is no smaller, or none where all are smaller.
abbrev pub IsClass : List ℕ → ℕ → ℕ → Option ℕ → Type 0
IsClass ss i size none = (j : ℕ) → j < length ss → get_or ss j 0 < size
IsClass ss i size (some k) =
    (j : ℕ) × (k ≡ i + j)
    × (j < length ss)
    × (size ≤ get_or ss j 0)
    × ((n : ℕ) → n < j → get_or ss n 0 < size)

module _ (s : ℕ) (ss : List ℕ) (i size : ℕ) (small : s < size) where
  next-IsClass : (r : Option ℕ) → IsClass ss (i + 1) size r → IsClass (s ∷ ss) i size r
  next-IsClass none h = below
    where
      below : (j : ℕ) → j < suc (length ss) → get_or (s ∷ ss) j 0 < size
      below zero lt = small
      below (suc j) lt = h j (omega arith)
  next-IsClass (some k) (j, e, lt, le, first) = (suc j, omega arith, omega arith, le, below)
    where
      below : (n : ℕ) → n < suc j → get_or (s ∷ ss) n 0 < size
      below zero lt = small
      below (suc n) lt = first n (omega arith)

lookup_from-IsClass : (ss : List ℕ) (i size : ℕ) → IsClass ss i size (lookup_from ss i size)
unfolding lookup_from
lookup_from-IsClass [] i size = λ j lt. absurd (omega arith)
lookup_from-IsClass (s ∷ ss) i size = elim (Bool-cases (leb size s)) [
  | inl fits ↦ rw fits (0, omega arith, omega arith, ground arith, λ n lt. absurd (omega arith))
  | inr more ↦ rw more (
      next-IsClass s ss i size (ground arith) (lookup_from ss (i + 1) size)
        (lookup_from-IsClass ss (i + 1) size))
]

-- `mem_pool_lookup` gives the first cache whose objects are large enough, and fails only where
-- none are.
pub mem_pool_lookup-IsClass : (size : ℕ) → IsClass mem_pool_size 0 size (mem_pool_lookup size)
unfolding mem_pool_lookup
mem_pool_lookup-IsClass size = lookup_from-IsClass mem_pool_size 0 size

order_loop_lem :
    (left size order : ℕ)
    → let o = order_loop left size order in
      (order ≤ o)
      × (o ≤ order + left)
      × ((o ≡ order + left) ⊎ (size ≤ 2 ^ (o + page_shift)))
      × ((k : ℕ) → order ≤ k → k < o → 2 ^ (k + page_shift) < size)
unfolding order_loop
order_loop_lem zero size order =
    (omega arith, omega arith, inl (omega arith), λ k le lt. absurd (omega arith))
order_loop_lem (suc left) size order =
    let (ge, le, stop, least) = order_loop_lem left size (order + 1) in
    elim (Bool-cases (leb size (2 ^ (order + page_shift)))) [
      | inl fits ↦
          rw fits (omega arith, omega arith, inr (ground arith), λ k le lt. absurd (omega arith))
      | inr more ↦
          let small : 2 ^ (order + page_shift) < size = ground arith in
          rw more (
            omega arith,
            omega arith,
            elim stop [ inl e ↦ inl (omega arith) | inr e ↦ inr e ],
            λ k le lt. elim (Bool-cases (k == order)) [
              | inl same ↦ let e : k ≡ order = ground arith in rw e small
              | inr other ↦ least k (ground arith) lt
            ],
          )
    ]

-- `mem_order_calculate` gives the least order whose block holds the size, or MAX_ORDER + 1 where
-- there is none.
pub mem_order_calculate_lem :
    (size : ℕ)
    → let o = mem_order_calculate size in
      ((o ≡ max_order + 1) ⊎ (size ≤ 2 ^ (o + page_shift)))
      × (o ≤ max_order + 1)
      × ((k : ℕ) → k < o → 2 ^ (k + page_shift) < size)
unfolding mem_order_calculate
mem_order_calculate_lem size =
    let (_, le, stop, least) = order_loop_lem (max_order + 1) size 0 in
    (stop, le, λ k lt. least k (omega arith) lt)

-- The pages of a pool, and no others, are marked.
pub mark_lem :
    (descr : ℕ → Descr) (first n : ℕ) (v : Descr) (f : ℕ)
    → mark descr first n v f ≡ (if leb first f && ltb f (first + n) then v else descr f)
unfolding mark
mark_lem descr first zero v f = ground arith
mark_lem descr first (suc n) v f =
    mark_lem (λ g. if g == first then v else descr g) (first + 1) n v f ∙ ground arith

align_down-multiple : (p size : ℕ) → p % size ≡ 0 → align_down p size ≡ p
unfolding align_down floor
align_down-multiple p size e = grind arith

-- What is larger than every class: `mem_free` of the address that `mem_alloc` gives hands the
-- block back with the order that it was taken with, and leaves the caches alone; for a page allocator
-- that gives an aligned block at the order that `mem_order_calculate` asks for. Unless that is
-- MAX_ORDER + 1, a block of that order holds the size; and one of a smaller order does not.
pub mem_free-alloc_large :
    (src : PageSource) (h : Heap src) (size addr : ℕ) (st : src.State)
    → mem_pool_lookup size ≡ none
    → src.get h.world.pages (mem_order_calculate size) ≡ some (addr, st)
    → 0 < addr
    → addr % 2 ^ (mem_order_calculate size + page_shift) ≡ 0
    → (h' : Heap src) × (h'' : Heap src) × (mem_alloc src h size ≡ some (addr, h'))
      × (mem_free src h' addr ≡ some h'')
      × (h''.world.pages ≡ src.put st addr (mem_order_calculate size))
      × (h''.caches ≡ h.caches)
      × ((mem_order_calculate size ≡ max_order + 1)
          ⊎ (size ≤ 2 ^ (mem_order_calculate size + page_shift)))
      × ((k : ℕ) → k < mem_order_calculate size → 2 ^ (k + page_shift) < size)
unfolding mem_alloc then_pages mem_free free_large set_descr
mem_free-alloc_large src h size addr st large got pos aligned =
    let order = mem_order_calculate size in
    let frame = addr / 2 ^ page_shift in
    let (_, h') = then_pages src h order (some (addr, st)) in
    let nonzero : (addr == 0) ≡ false = ground arith in
    let same : (frame == frame) ≡ true = ground arith in
    (
      h',
      free_large src h' frame addr,
      rw (large, mem_alloc) (ap (λ r. some (then_pages src h order r)) got),
      rw (nonzero, same) refl,
      rw same (ap (λ a. src.put st a order) (align_down-multiple addr _ aligned)),
      refl,
      (mem_order_calculate_lem size).0,
      (mem_order_calculate_lem size).2,
    )
