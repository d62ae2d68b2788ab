-- ===== src/Balloc/Tests.antt =====
-- A few ranges.
use au_os.Prelude.{
  ℕ, ◌≤◌, ◌≡◌, ◌^◌, refl, true, false, not, ◌&&◌, ◌||◌, some, List, [], ◌∷◌, arith, length,
}
use au_os.Balloc.{
  Range, range, Balloc, MmapEntry, insert_range, add_range, remove_range, alloc_range, balloc_setup,
}
use au_os.Balloc.Place.{IsRanges}
use au_os.Balloc.Cover.{holds, covers, add_range-covers}
use au_os.Balloc.Remove.{remove_range-covers}
use au_os.Balloc.Alloc.{IsAllocation, alloc_range-IsAllocation}
use au_os.Balloc.Setup.{reserved, balloc_setup-reserved}

abbrev two_ranges : List Range
two_ranges = range 0x1000 0x2000 ∷ range 0x4000 0x8000 ∷ []

two_ranges-IsRanges : IsRanges 0 two_ranges
two_ranges-IsRanges = (omega arith, omega arith, (omega arith, omega arith, tt))

-- The end of the next range is taken for that of the new one, also where it is below: what is above
-- is lost.
loses_memory : insert_range (range 2 4 ∷ []) 0 10 ≡ range 0 4 ∷ []
unfolding insert_range
loses_memory = refl

-- A second range behind the new one is not joined, and what is between them is lost.
joins_one : insert_range (range 2 4 ∷ range 6 8 ∷ []) 0 7 ≡ range 0 4 ∷ range 6 8 ∷ []
unfolding insert_range
joins_one = refl

alloc_first :
    alloc_range 0 two_ranges 0x10 0x10 0x1008 0x9000
    ≡ some (0x1010, range 0x1000 0x1010 ∷ range 0x1020 0x2000 ∷ range 0x4000 0x8000 ∷ [])
unfolding alloc_range
alloc_first = refl

add_range-covers_example :
    (ys : List Range) × (add_range 3 two_ranges 0x1800 0x4000 ≡ some ys)
    × IsRanges 0 ys
    × ((a : ℕ) → covers ys a ≡ (covers two_ranges a || holds (range 0x1800 0x4000) a))
add_range-covers_example =
    add_range-covers 3 two_ranges 0x1800 0x4000 two_ranges-IsRanges (omega arith) (omega arith)
      ((λ h. absurd (omega arith)), ((λ h h'. omega arith), tt))

remove_range-covers_example :
    (ys : List Range) × (remove_range 3 two_ranges 0x1800 0x5000 ≡ some ys)
    × IsRanges 0 ys
    × (length ys ≤ 3)
    × ((a : ℕ) → covers ys a ≡ (covers two_ranges a && not (holds (range 0x1800 0x5000) a)))
remove_range-covers_example =
    remove_range-covers 3 two_ranges 0x1800 0x5000 two_ranges-IsRanges (omega arith) (omega arith)

alloc_range-IsAllocation_example :
    IsAllocation two_ranges two_ranges 48
      (2 ^ 6)
      0x1fff
      0x9000
      (alloc_range 3 two_ranges 48 (2 ^ 6) 0x1fff 0x9000)
alloc_range-IsAllocation_example =
    alloc_range-IsAllocation 3 two_ranges 48 6 0x1fff 0x9000 two_ranges-IsRanges (omega arith)
      (omega arith) (omega arith) (omega arith, (omega arith, tt)) (omega arith)

-- Low memory and a reserved part of it.
abbrev table : List MmapEntry
table =
    record { addr = 0; extent = 0x9000; kind = 1 }
    ∷ record { addr = 0x8000; extent = 0x2000; kind = 2 }
    ∷ []

balloc_setup-reserved_example :
    (s : Balloc) × (balloc_setup table (range 0x1000 0x2000) (range 0x3000 0x3800) ≡ some s)
    × IsRanges 0 s.memory_map
    × IsRanges 0 s.free_ranges
    × ((a : ℕ)
        → (reserved table a || (holds (range 0x1000 0x2000) a || holds (range 0x3000 0x3800) a))
          ≡ true
        → covers s.free_ranges a ≡ false)
balloc_setup-reserved_example =
    balloc_setup-reserved table (range 0x1000 0x2000) (range 0x3000 0x3800)
      ((omega arith, omega arith), ((omega arith, omega arith), tt)) (omega arith) (omega arith)
      (omega arith)
