-- ===== src/PageAlloc/Tests.antt =====
-- The allocator on a zone of four frames, and the theorems at it.
use au_os.Prelude.{ℕ, ◌+◌, ◌≤◌, ◌<◌, ◌≡◌, refl, true, some, [], ◌∷◌, arith}
use au_os.LinkedList.Chain.{has}
use au_os.PageAlloc.{
  Zone, place, put_tail, take_block, page_alloc_zone, page_free_zone, page_is_free,
}
use au_os.PageAlloc.Blocks.{weigh_free}
use au_os.PageAlloc.Inv.{Inv, covers, total, put_tail-Inv, take-Inv}
use au_os.PageAlloc.Alloc.{IsAllocated, page_alloc_zone-IsAllocated}
use au_os.PageAlloc.Free.{page_free_zone-Inv}
use au_os.PageAlloc.Zones.{free_blocks, block_order}
use au_os.PageAlloc.Range.{cut, in_range, free_blocks-Inv}

abbrev empty_zone : Zone
empty_zone = record { begin = 4; limit = 8; order = λ _. []; flags = λ _. 0 }

empty_zone-Inv : Inv empty_zone []
unfolding weigh_free page_is_free
empty_zone-Inv = record {
  once = λ p. omega arith;
  free = λ k b le h. absurd (cc);
  blocks = tt;
  flagged = λ x h le. absurd (cc);
}

unheld : (p : ℕ) → 4 ≤ p → p < 8 → total (covers p) empty_zone [] ≡ 0
unfolding weigh_free
unheld p lo hi = refl

-- Its four frames are one free block of order 2.
abbrev whole : Zone
whole = put_tail empty_zone 4 2

whole-Inv : Inv whole []
whole-Inv = put_tail-Inv empty_zone 2 4 [] (
    cut empty_zone 4 8 2 [] empty_zone-Inv (omega arith) (omega arith) unheld
      (record { aligned = (1, refl); small = omega arith; ends = omega arith }))

whole_lists : has 4 (whole.order 2) ≡ true
unfolding put_tail place
whole_lists = refl

-- The block is handed out whole.
abbrev held : Zone
held = take_block whole 4 2

held-Inv : Inv held ((2, 4) ∷ [])
held-Inv = take-Inv whole 2 4 [] (omega arith) whole_lists whole-Inv

alloc_splits : (page_alloc_zone whole 0).0 ≡ some 4
unfolding page_alloc_zone put_tail place
alloc_splits = refl

alloc_keeps_rest : (page_alloc_zone whole 0).1.order 1 ≡ 6 ∷ []
unfolding page_alloc_zone put_tail place
alloc_keeps_rest = refl

free_blocks_cuts : block_order 18 5 12 0 ≡ 0
unfolding block_order
free_blocks_cuts = refl

page_alloc_zone-IsAllocated_example : IsAllocated whole 0 [] (page_alloc_zone whole 0)
page_alloc_zone-IsAllocated_example = page_alloc_zone-IsAllocated whole 0 [] whole-Inv (omega arith)

page_free_zone-Inv_example :
    (t : Zone) × (page_free_zone held 4 2 ≡ some t)
    × Inv t []
    × ((p : ℕ)
        → weigh_free (covers p) 19 t.order ≡ weigh_free (covers p) 19 held.order + covers p 2 4)
page_free_zone-Inv_example = page_free_zone-Inv held 4 2 [] held-Inv

free_blocks-Inv_example :
    (t : Zone) × (free_blocks 5 empty_zone 4 8 ≡ some t)
    × Inv t []
    × ((p : ℕ)
        → weigh_free (covers p) 19 t.order
          ≡ weigh_free (covers p) 19 empty_zone.order + in_range 4 8 p)
free_blocks-Inv_example =
    free_blocks-Inv 5 empty_zone 4 8 [] empty_zone-Inv (omega arith) (omega arith) (omega arith)
      (omega arith) unheld
