-- ===== src/PageAlloc/Zones.antt =====
-- The zones of memory.c: set up, searched, filled from the free ranges, and walked by the callers.
use Prim.Native.Nat.{bit_and}
use au_os.Prelude.{
  ℕ, zero, suc, ◌+◌, ◌-◌, ◌*◌, ◌/◌, ◌%◌, ◌^◌, ◌&&◌, Option, none, some, List, [], ◌∷◌, ◌++◌, ltb,
  leb, ◌==◌, if◌then◌else◌,
}
use au_os.PageAlloc.{Zone, max_order, page_shift, put_tail, page_alloc_zone, page_free_zone}

-- The first frame that lies wholly behind `zbegin`, where the sum does not wrap around, and the first that does not end before `zend`.
unfoldable pub first_frame : ℕ → ℕ
first_frame zbegin = ((zbegin + 2 ^ page_shift - 1) % 2 ^ 64) / 2 ^ page_shift

unfoldable pub end_frame : ℕ → ℕ
end_frame zend = zend / 2 ^ page_shift

-- `__page_alloc_zone_setup`: a zone with empty lists joins the end of the zones, unless it has no
-- whole frame. `memory` is what `balloc_alloc` gives: `none` where it fails, which
-- is a BUG, and else what the words of `flags` hold, since no byte is cleared: the call of `memset`
-- has size 0.
unfoldable pub zone_setup :
    (memory : Option (ℕ → ℕ)) → List Zone → (zbegin zend : ℕ) → Option (List Zone)
unfolding first_frame end_frame
zone_setup memory zones zbegin zend =
    if leb (end_frame zend) (first_frame zbegin) then some zones else elim memory [
      | none ↦ none
      | some flags ↦ some (
          zones
          ++ record {
            begin = first_frame zbegin;
            limit = end_frame zend;
            order = λ _. [];
            flags = flags;
          }
            ∷ [])
    ]

-- `page_alloc_zone_find`; `page_zone` and `addr_page` search by the same test, and halt where this
-- finds nothing.
unfoldable pub zone_find : List Zone → ℕ → Option Zone
zone_find [] idx = none
zone_find (z ∷ zones) idx =
    if leb z.begin idx && ltb idx z.limit then some z else zone_find zones idx

-- `addr_page` and `page_addr`: a frame and its address. `none` is a BUG.
unfoldable pub addr_page : List Zone → ℕ → Option ℕ
unfolding zone_find
addr_page zones addr =
    if bit_and addr (2 ^ page_shift - 1) == 0
    then elim (zone_find zones (addr / 2 ^ page_shift)) [
      | none ↦ none
      | some _ ↦ some (addr / 2 ^ page_shift)
    ]
    else none

unfoldable pub page_addr : List Zone → ℕ → Option ℕ
unfolding zone_find
page_addr zones page = elim (zone_find zones page) [
  | none ↦ none
  | some _ ↦ some (page * 2 ^ page_shift)
]

-- The inner loop of `__page_alloc_zone_free`: the order of the largest aligned block at `page`
-- that ends by `limit`. MAX_ORDER rounds are enough.
unfoldable pub block_order : ℕ → (page limit order : ℕ) → ℕ
block_order zero page limit order = order
block_order (suc fuel) page limit order =
    let rest = block_order fuel page limit (order + 1) in
    if ltb order max_order
      && ((bit_and page (2 ^ order) == 0) && leb (page + 2 ^ (order + 1)) limit)
    then rest
    else order

-- Its outer loop, on fuel; `none` means that the fuel ran out.
unfoldable pub free_blocks : ℕ → Zone → (page limit : ℕ) → Option Zone
free_blocks zero z page limit = none
free_blocks (suc fuel) z page limit =
    let order = block_order max_order page limit 0 in
    let rest = free_blocks fuel (put_tail z page order) (page + 2 ^ order) limit in
    if page == limit then some z else rest

-- The frames that `__page_alloc_zone_free` frees: frame 0 is left out, since its address is the
-- error value of `page_alloc`.
unfoldable pub free_begin : ℕ → ℕ
unfolding first_frame
free_begin zbegin = if first_frame zbegin == 0 then 1 else first_frame zbegin

-- `__page_alloc`: the zones in turn, until one has a block. `none` is the null pointer.
unfoldable pub page_alloc_zones : List Zone → ℕ → Option ℕ × List Zone
page_alloc_zones [] order = (none, [])
page_alloc_zones (z ∷ zones) order =
    let (page, z') = page_alloc_zone z order in
    let (later, zones') = page_alloc_zones zones order in
    elim page [ none ↦ (later, z' ∷ zones') | some p ↦ (some p, z' ∷ zones) ]

unfoldable pub alloc_pages : List Zone → ℕ → Option ℕ × List Zone
unfolding page_alloc_zones
alloc_pages zones order =
    if ltb max_order order then (none, zones) else page_alloc_zones zones order

-- `page_alloc`: the address of the block, or 0.
unfoldable pub page_alloc : List Zone → ℕ → ℕ × List Zone
unfolding alloc_pages
page_alloc zones order =
    let (page, zones') = alloc_pages zones order in
    (elim page [ none ↦ 0 | some p ↦ p * 2 ^ page_shift ], zones')

-- `__page_free`: the zone that holds the frame is freed in; `none` is a BUG.
unfoldable pub free_pages : List Zone → (page order : ℕ) → Option (List Zone)
free_pages [] page order = none
free_pages (z ∷ zones) page order =
    if leb z.begin page && ltb page z.limit
    then elim (page_free_zone z page order) [ none ↦ none | some z' ↦ some (z' ∷ zones) ]
    else elim (free_pages zones page order) [ none ↦ none | some zones' ↦ some (z ∷ zones') ]

-- `page_free`: address 0 is ignored.
unfoldable pub page_free : List Zone → (addr order : ℕ) → Option (List Zone)
unfolding free_pages
page_free zones addr order =
    if addr == 0 then some zones else free_pages zones (addr / 2 ^ page_shift) order
