-- ===== src/Balloc.antt =====
-- balloc.c: the ranges of memory at boot, which of them are free, and the allocation from those. A
-- tree of ranges is the list of its nodes in order: rb_prev and rb_next are the neighbours in it, and
-- a search of the tree ends where the first node stands for which the test of the search holds.
pub mod Place
pub mod Carve
pub mod Cover
pub mod Search
pub mod Remove
pub mod Address
pub mod Alloc
pub mod Lengths
pub mod Setup
mod Tests
use Prim.Native.Nat.{bit_and}
use au_os.Prelude.{
  ℕ, zero, suc, ◌+◌, ◌-◌, ◌^◌, Bool, true, false, Option, none, some, List, [], ◌∷◌, ltb, leb, ◌==◌,
  if◌then◌else◌, length,
}
use au_os.Prelude.Words.{u64, complement}

-- `struct memory_node`
pub record Range : Type 0 where
  pub begin : ℕ
  pub end : ℕ

abbrev pub range : ℕ → ℕ → Range
range b e = record { begin = b; end = e }

-- BALLOC_MAX_RANGES
abbrev pub max_ranges : ℕ
max_ranges = 128

-- The range after the new one.
unfoldable pub join_next : (new : Range) → List Range → List Range
join_next new [] = new ∷ []
join_next new (x ∷ xs) = if leb x.begin new.end then range new.begin x.end ∷ xs else new ∷ x ∷ xs

-- The range before the new one.
unfoldable pub join_prev : (prev : Range) → (from to : ℕ) → List Range → List Range
unfolding join_next
join_prev prev from to xs =
    if leb from prev.end
    then join_next (range prev.begin (if ltb to prev.end then prev.end else to)) xs
    else prev ∷ join_next (range from to) xs

unfoldable pub insert_after : (prev : Range) → List Range → (from to : ℕ) → List Range
unfolding join_prev
insert_after prev [] from to = join_prev prev from to []
insert_after prev (x ∷ xs) from to =
    let rest = insert_after x xs from to in
    if ltb x.begin from then prev ∷ rest else join_prev prev from to (x ∷ xs)

-- `__balloc_add_range` of a node that there is: the new one stands before the first that does not
-- begin below it.
unfoldable pub insert_range : List Range → (from to : ℕ) → List Range
unfolding insert_after join_next
insert_range [] from to = range from to ∷ []
insert_range (x ∷ xs) from to =
    let rest = insert_after x xs from to in
    if ltb x.begin from then rest else join_next (range from to) (x ∷ xs)

-- `__balloc_add_range`, with `others` nodes in use outside the tree; BUG_ON where none is left.
unfoldable pub add_range : (others : ℕ) → List Range → (from to : ℕ) → Option (List Range)
unfolding insert_range
add_range others xs from to =
    if ltb (others + length xs) max_ranges then some (insert_range xs from to) else none

-- `rb_erase`
unfoldable pub erase_range : List Range → Range → List Range
erase_range [] p = []
erase_range (x ∷ xs) p = let rest = erase_range xs p in if x.begin == p.begin then xs else x ∷ rest

-- The search for the first range that ends above `from`, with those after it.
unfoldable pub first_above : (from : ℕ) → List Range → List Range
first_above from [] = []
first_above from (x ∷ xs) =
    let rest = first_above from xs in if ltb from x.end then x ∷ xs else rest

-- An addition under a test.
abbrev pub add_if : Bool → (others : ℕ) → List Range → (from to : ℕ) → Option (List Range)
add_if true others xs from to = add_range others xs from to
add_if false others xs from to = some xs

abbrev pub and_then {ℓ κ} : {A : Type ℓ} {B : Type κ} → Option A → (A → Option B) → Option B
and_then none f = none
and_then (some a) f = f a

-- Taking a range from the tree and putting back what is left of it on either side of `from` and
-- `to`. The node of the range is freed at the end.
unfoldable pub carve : (others : ℕ) → List Range → Range → (from to : ℕ) → Option (List Range)
unfolding add_range erase_range
carve others xs p from to =
    and_then (add_if (ltb p.begin from) (others + 1) (erase_range xs p) p.begin from)
      (λ ys. add_if (ltb to p.end) (others + 1) ys to p.end)

-- The loop of `__balloc_remove_range` over the ranges from `ptr` on. What is put back stands before
-- the next one, so those that follow are as they were.
unfoldable pub remove_each :
    (others : ℕ) → List Range → (ptr : List Range) → (from to : ℕ) → Option (List Range)
unfolding carve
remove_each others xs [] from to = some xs
remove_each others xs (p ∷ ps) from to =
    let rest = and_then (carve others xs p from to) (λ ys. remove_each others ys ps from to) in
    if ltb p.begin to then rest else some xs

unfoldable pub remove_range : (others : ℕ) → List Range → (from to : ℕ) → Option (List Range)
unfolding first_above remove_each
remove_range others xs from to = remove_each others xs (first_above from xs) from to

-- Where a block can begin in a range.
unfoldable pub block_address : Range → (align from : ℕ) → ℕ
block_address p align from =
    let mask = u64 (align + 2 ^ 64 - 1) in
    bit_and (u64 ((if ltb from p.begin then p.begin else from) + mask)) (complement 64 mask)

-- The loop of `__balloc_alloc`.
unfoldable pub alloc_each :
    (others : ℕ)
    → List Range
    → (ptr : List Range) → (size align from to : ℕ) → Option (ℕ × List Range)
unfolding block_address carve
alloc_each others xs [] size align from to = some (to, xs)
alloc_each others xs (p ∷ ps) size align from to =
    let addr = block_address p align from in
    let taken = and_then (carve others xs p addr (u64 (addr + size))) (λ ys. some (addr, ys)) in
    let rest = alloc_each others xs ps size align from to in
    if ltb p.begin to
    then if leb (u64 (addr + size)) (if ltb p.end to then p.end else to) then taken else rest
    else some (to, xs)

-- `__balloc_alloc`: the address, or `to`.
unfoldable pub alloc_range :
    (others : ℕ) → List Range → (size align from to : ℕ) → Option (ℕ × List Range)
unfolding first_above alloc_each
alloc_range others xs size align from to =
    alloc_each others xs (first_above from xs) size align from to

unfoldable pub default_align : (size : ℕ) → ℕ
default_align size =
    if leb size 8 then 8 else if leb size 16 then 16 else if leb size 32 then 32 else 64

-- Both trees, which share the nodes.
pub record Balloc : Type 0 where
  pub memory_map : List Range
  pub free_ranges : List Range

unfoldable pub balloc_alloc : Balloc → (size from to : ℕ) → Option (ℕ × Balloc)
unfolding alloc_range default_align
balloc_alloc s size from to =
    and_then (alloc_range (length s.memory_map) s.free_ranges size (default_align size) from to)
      (λ r. some (r.0, record s { free_ranges = r.1 }))

unfoldable pub add_free : Balloc → (begin end : ℕ) → Option Balloc
unfolding add_range
add_free s begin end =
    and_then (add_range (length s.memory_map) s.free_ranges begin end)
      (λ xs. some (record s { free_ranges = xs }))

-- `balloc_free`
unfoldable pub balloc_free : Balloc → (begin end : ℕ) → Option Balloc
unfolding add_free
balloc_free s begin end = add_free s begin end

-- A range of the machine's memory goes to both trees.
unfoldable pub add_known : Balloc → (begin end : ℕ) → Option Balloc
unfolding add_range add_free
add_known s begin end =
    and_then (add_range (length s.free_ranges) s.memory_map begin end)
      (λ xs. add_free (record s { memory_map = xs }) begin end)

unfoldable pub remove_free : Balloc → (begin end : ℕ) → Option Balloc
unfolding remove_range
remove_free s begin end =
    and_then (remove_range (length s.memory_map) s.free_ranges begin end)
      (λ xs. some (record s { free_ranges = xs }))

-- `struct multiboot_mmap_entry`: an entry of the table of the boot loader; `extent` is its
-- length, and `kind` its type.
pub record MmapEntry : Type 0 where
  pub addr : ℕ
  pub extent : ℕ
  pub kind : ℕ

-- The first loop over the table.
unfoldable pub add_entries : Balloc → List MmapEntry → Option Balloc
unfolding add_known
add_entries s [] = some s
add_entries s (e ∷ es) =
    and_then (add_known s e.addr (u64 (e.addr + e.extent))) (λ s'. add_entries s' es)

-- The second loop.
unfoldable pub remove_entries : Balloc → List MmapEntry → Option Balloc
unfolding remove_free
remove_entries s [] = some s
remove_entries s (e ∷ es) =
    and_then (if e.kind == 1 then some s else remove_free s e.addr (u64 (e.addr + e.extent)))
      (λ s'. remove_entries s' es)

-- `balloc_parse_mmap` of a table that is there, with the kernel and the initial RAM disk.
unfoldable pub balloc_parse_mmap : List MmapEntry → (kernel initrd : Range) → Balloc → Option Balloc
unfolding add_entries add_known remove_entries remove_free
balloc_parse_mmap es kernel initrd s = and_then (add_entries s es) (λ s₁.
    and_then (add_known s₁ kernel.begin kernel.end) (λ s₂.
      and_then (add_known s₂ initrd.begin initrd.end) (λ s₃. and_then (remove_entries s₃ es) (λ s₄.
        and_then (remove_free s₄ kernel.begin kernel.end)
          (λ s₅. remove_free s₅ initrd.begin initrd.end)))))

-- `balloc_memory`: the end of the last range; of an empty map it reads a null node.
unfoldable pub balloc_memory : List Range → Option ℕ
balloc_memory [] = none
balloc_memory (x ∷ []) = some x.end
balloc_memory (x ∷ y ∷ ys) = balloc_memory (y ∷ ys)

-- `balloc_setup`: no tree has a node before.
unfoldable pub balloc_setup : List MmapEntry → (kernel initrd : Range) → Option Balloc
unfolding balloc_parse_mmap
balloc_setup es kernel initrd =
    balloc_parse_mmap es kernel initrd (record { memory_map = []; free_ranges = [] })
