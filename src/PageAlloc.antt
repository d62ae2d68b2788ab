-- ===== src/PageAlloc.antt =====
-- memory.c: the buddy allocator of page frames. A `struct page *` is the number of its frame, so
-- `zone->begin + (page - zone->pages)` is the page itself. The list operations on `zone->order[i]`
-- are those of a list, as the laws of the module for list.c allow.
pub mod Flags
pub mod Blocks
pub mod Inv
pub mod Alloc
pub mod Merge
pub mod Free
pub mod Zones
pub mod Range
mod Tests
use Prim.Native.Nat.{bit_and, bit_or, bit_xor}
use au_os.Prelude.{
  ℕ, zero, suc, ◌+◌, ◌-◌, ◌*◌, ◌/◌, ◌^◌, Bool, true, false, not, ◌&&◌, ◌||◌, Option, none, some,
  List, [], ◌∷◌, ◌++◌, ltb, leb, ◌==◌, if◌then◌else◌,
}
use au_os.Prelude.Words.{complement}

-- MAX_ORDER, PAGE_SHIFT, PAGE_FREE_OFFS, PAGE_USER_OFFS
abbrev pub max_order : ℕ
max_order = 18

abbrev pub page_shift : ℕ
page_shift = 12

abbrev pub page_free_offs : ℕ
page_free_offs = 8

abbrev pub page_user_offs : ℕ
page_user_offs = 16

abbrev pub page_free_mask : ℕ
page_free_mask = 2 ^ page_free_offs

abbrev pub page_order_mask : ℕ
page_order_mask = 2 ^ page_free_offs - 1

-- The operations on `page->flags`, an `unsigned long`.
unfoldable pub page_order : ℕ → ℕ
page_order flags = bit_and flags page_order_mask

-- `none` is the BUG_ON for an order above PAGE_ORDER_MASK. An order is never negative here.
unfoldable pub page_set_order : ℕ → ℕ → Option ℕ
page_set_order flags order =
    if ltb page_order_mask order
    then none
    else some (bit_or (bit_and flags (complement 64 page_order_mask)) order)

unfoldable pub page_is_free : ℕ → Bool
page_is_free flags = not (bit_and flags page_free_mask == 0)

unfoldable pub page_set_free : ℕ → ℕ
page_set_free flags = bit_or flags page_free_mask

unfoldable pub page_set_busy : ℕ → ℕ
page_set_busy flags = bit_and flags (complement 64 page_free_mask)

unfoldable pub page_set_bit : ℕ → ℕ → ℕ
page_set_bit flags bit = bit_or flags (2 ^ (bit + page_user_offs))

unfoldable pub page_clear_bit : ℕ → ℕ → ℕ
page_clear_bit flags bit = bit_and flags (complement 64 (2 ^ (bit + page_user_offs)))

unfoldable pub page_test_bit : ℕ → ℕ → Bool
page_test_bit flags bit = not (bit_and flags (2 ^ (bit + page_user_offs)) == 0)

-- `struct page_alloc_zone`: the frames from `begin` below `limit` (its field `end`), the free
-- blocks of each order, by their first frame, and the flags of each frame.
pub record Zone : Type 0 where
  pub begin : ℕ
  pub limit : ℕ
  pub order : ℕ → List ℕ
  pub flags : ℕ → ℕ

unfoldable pub update {ℓ} : {A : Type ℓ} → (ℕ → A) → ℕ → A → ℕ → A
update f k v j = if j == k then v else f j

abbrev pub is_empty : List ℕ → Bool
is_empty [] = true
is_empty (_ ∷ _) = false

-- `list_del` of an entry.
unfoldable pub remove : ℕ → List ℕ → List ℕ
remove b [] = []
remove b (x ∷ xs) = if x == b then xs else x ∷ remove b xs

-- `page_set_order(page, order); page_set_free(page);`. Each caller has an order of at most
-- MAX_ORDER, for which there is no BUG.
unfoldable pub mark_free : ℕ → ℕ → ℕ
unfolding page_set_order page_set_free
mark_free flags order = elim (page_set_order flags order) [
  | none ↦ flags
  | some f ↦ page_set_free f
]

-- The block joins the list of its order, which becomes `list`, and its first frame is marked free.
unfoldable pub place : Zone → (page order : ℕ) → List ℕ → Zone
unfolding update
place z page order list = record z {
  order = update z.order order list;
  flags = update z.flags page (mark_free (z.flags page) order);
}

-- By `list_add`, at the front, or by `list_add_tail`, at the end.
unfoldable pub put : Zone → ℕ → ℕ → Zone
put z page order = place z page order (page ∷ z.order order)

unfoldable pub put_tail : Zone → ℕ → ℕ → Zone
put_tail z page order = place z page order (z.order order ++ page ∷ [])

-- The block leaves the list of its order.
unfoldable pub unlink : Zone → ℕ → ℕ → Zone
unfolding update remove
unlink z page order = record z { order = update z.order order (remove page (z.order order)) }

-- `while (list_empty(&zone->order[current]) && current <= MAX_ORDER) ++current;` on fuel. At
-- `current = MAX_ORDER + 1` the list that is tested lies outside the array.
unfoldable pub find_order : ℕ → Zone → ℕ → ℕ
find_order zero z current = current
find_order (suc fuel) z current =
    let rest = find_order fuel z (current + 1) in
    if is_empty (z.order current) && leb current max_order then rest else current

-- `while (current != order)`, by recursion on `current`.
unfoldable pub split : Zone → (page order current : ℕ) → Zone
unfolding put
split z page order zero = z
split z page order (suc current) =
    if suc current == order
    then z
    else split (put z (bit_xor page (2 ^ current)) current) page order current

-- The block is taken: its first frame is busy, and it leaves its list.
unfoldable pub take_block : Zone → (page current : ℕ) → Zone
unfolding unlink
take_block z page current =
    unlink (record z { flags = update z.flags page (page_set_busy (z.flags page)) }) page current

-- The part of `__page_alloc_zone` behind the search. The list is not empty where `current` is an
-- order, which the code asserts.
unfoldable pub alloc_at : Zone → (order current : ℕ) → List ℕ → Option ℕ × Zone
unfolding take_block split
alloc_at z order current [] = (none, z)
alloc_at z order current (page ∷ _) =
    (some page, split (take_block z page current) page order current)

-- `__page_alloc_zone`; `none` is the null pointer. `page_alloc_zone` calls it under the zone's lock.
unfoldable pub page_alloc_zone : Zone → ℕ → Option ℕ × Zone
unfolding find_order alloc_at
page_alloc_zone z order =
    let current = find_order 20 z order in
    if ltb max_order current then (none, z) else alloc_at z order current (z.order current)

-- Whether the buddy lies in the zone and is a free block of the same order.
unfoldable pub can_merge : Zone → (buddy order : ℕ) → Bool
can_merge z buddy order =
    leb z.begin buddy
    && (ltb buddy z.limit && (page_is_free (z.flags buddy) && page_order (z.flags buddy) == order))

-- `while (order < MAX_ORDER)` of `__page_free_zone`, on fuel: MAX_ORDER rounds are enough. The
-- result is the zone, the first frame of the merged block, and its order.
unfoldable pub merge : ℕ → Zone → (page order : ℕ) → Zone × ℕ × ℕ
unfolding can_merge unlink
merge zero z page order = (z, page, order)
merge (suc fuel) z page order =
    let buddy = bit_xor page (2 ^ order) in
    let rest =
      merge fuel (unlink z buddy order) (if ltb buddy page then buddy else page) (order + 1) in
    if ltb order max_order && can_merge z buddy order then rest else (z, page, order)

-- `__page_free_zone`; `none` is the BUG_ON for a frame that is not aligned to the order, and an order
-- above MAX_ORDER, which is outside the array of lists.
unfoldable pub page_free_zone : Zone → (page order : ℕ) → Option Zone
unfolding merge put
page_free_zone z page order =
    if leb order max_order && bit_and page (2 ^ order - 1) == 0
    then (let (z', page', order') = merge max_order z page order in some (put z' page' order'))
    else none
