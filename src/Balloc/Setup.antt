-- ===== src/Balloc/Setup.antt =====
-- Reading the table of the boot loader: reserved memory is not free afterwards.
use au_os.Prelude.{
  ℕ, suc, ◌+◌, ◌*◌, ◌^◌, ◌≤◌, ◌<◌, ◌≡◌, refl, inl, inr, Bool, true, false, not, ◌&&◌, ◌||◌, some,
  List, [], ◌∷◌, arith, ltb, ◌==◌, Bool-cases, length,
}
use au_os.Prelude.Words.{u64}
use au_os.Balloc.{
  Range, range, Balloc, MmapEntry, max_ranges, insert_range, add_range, add_free, add_known,
  add_entries, remove_free, remove_entries, balloc_parse_mmap, balloc_setup,
}
use au_os.Balloc.Place.{IsRanges, insert_range-IsRanges}
use au_os.Balloc.Cover.{holds, covers}
use au_os.Balloc.Lengths.{insert_range-length}
use au_os.Balloc.Remove.{remove_range-covers}

-- Both trees are in order, with `n` nodes at most.
pub record InOrder (n : ℕ) (s : Balloc) : Type 0 where
  pub map_order : IsRanges 0 s.memory_map
  pub free_order : IsRanges 0 s.free_ranges
  pub nodes : length s.memory_map + length s.free_ranges ≤ n

add_free-InOrder :
    (n : ℕ) (s : Balloc) (b e : ℕ)
    → InOrder n s
    → n < max_ranges
    → b ≤ e
    → (s' : Balloc) × (add_free s b e ≡ some s') × InOrder (n + 1) s'
unfolding add_free add_range
add_free-InOrder n s b e ok room le =
    let left : ltb (length s.memory_map + length s.free_ranges) max_ranges ≡ true =
      ground (arith, ok.nodes) in
    (
      record s { free_ranges = insert_range s.free_ranges b e },
      rw left refl,
      record {
        map_order = ok.map_order;
        free_order = insert_range-IsRanges s.free_ranges b e le ok.free_order;
        nodes = omega (arith, ok.nodes, insert_range-length s.free_ranges b e);
      },
    )

add_known-InOrder :
    (n : ℕ) (s : Balloc) (b e : ℕ)
    → InOrder n s
    → n + 1 < max_ranges
    → b ≤ e
    → (s' : Balloc) × (add_known s b e ≡ some s') × InOrder (n + 2) s'
unfolding add_known add_range
add_known-InOrder n s b e ok room le =
    let left : ltb (length s.free_ranges + length s.memory_map) max_ranges ≡ true =
      ground (arith, ok.nodes) in
    let (s', q, ok') =
      add_free-InOrder (n + 1) (record s { memory_map = insert_range s.memory_map b e }) b e
        (record {
          map_order = insert_range-IsRanges s.memory_map b e le ok.map_order;
          free_order = ok.free_order;
          nodes = omega (arith, ok.nodes, insert_range-length s.memory_map b e);
        })
        room le in
    let m : n + 1 + 1 ≡ n + 2 = omega arith in (s', rw (left, q) refl, rw m at ok')

-- An entry that ends where the addresses do, or below, and is not empty.
abbrev pub IsEntry : MmapEntry → Type 0
IsEntry e = (0 < e.extent) × (e.addr + e.extent < 2 ^ 64)

abbrev pub AreEntries : List MmapEntry → Type 0
AreEntries [] = Unit
AreEntries (e ∷ es) = IsEntry e × AreEntries es

abbrev pub entry_range : MmapEntry → Range
entry_range e = range e.addr (e.addr + e.extent)

-- An address that an entry of another kind than 1 reports.
abbrev pub reserved : List MmapEntry → ℕ → Bool
reserved [] a = false
reserved (e ∷ es) a = (not (e.kind == 1) && holds (entry_range e) a) || reserved es a

add_entries-cons :
    (s s₁ s₂ : Balloc) (e : MmapEntry) (es : List MmapEntry)
    → IsEntry e
    → add_known s e.addr (e.addr + e.extent) ≡ some s₁
    → add_entries s₁ es ≡ some s₂
    → add_entries s (e ∷ es) ≡ some s₂
unfolding add_entries
add_entries-cons s s₁ s₂ e es (some_bytes, small) q₁ q₂ =
    let wrap : u64 (e.addr + e.extent) ≡ e.addr + e.extent = omega arith in rw (wrap, q₁) q₂

add_entries-InOrder :
    (n : ℕ) (s : Balloc) (es : List MmapEntry)
    → InOrder n s
    → AreEntries es
    → n + 2 * length es < max_ranges
    → (s' : Balloc) × (add_entries s es ≡ some s') × InOrder (n + 2 * length es) s'
unfolding add_entries
add_entries-InOrder n s [] ok valid room = let m : n + 2 * 0 ≡ n = omega arith in (s, refl, rw m ok)
add_entries-InOrder n s (e ∷ es) ok ((some_bytes, small), valid) room =
    let (s₁, q₁, ok₁) =
      add_known-InOrder n s e.addr (e.addr + e.extent) ok (omega arith) (omega arith) in
    let (s₂, q₂, ok₂) = add_entries-InOrder (n + 2) s₁ es ok₁ valid (omega arith) in
    let m : n + 2 + 2 * length es ≡ n + 2 * suc (length es) = omega arith in
    (s₂, add_entries-cons s s₁ s₂ e es (some_bytes, small) q₁ q₂, rw m at ok₂)

-- `s'` is `s` less some of the free addresses, with `n` nodes at most.
pub record IsLess (n : ℕ) (s : Balloc) (busy : ℕ → Bool) (s' : Balloc) : Type 0 where
  pub order : InOrder n s'
  pub free : (a : ℕ) → covers s'.free_ranges a ≡ (covers s.free_ranges a && not (busy a))

remove_free-IsLess :
    (n : ℕ) (s : Balloc) (b e : ℕ)
    → InOrder n s
    → n + 2 ≤ max_ranges
    → b < e
    → (s' : Balloc) × (remove_free s b e ≡ some s') × IsLess (n + 1) s (holds (range b e)) s'
unfolding remove_free
remove_free-IsLess n s b e ok room lt =
    let (ys, q, order, size, free) =
      remove_range-covers (length s.memory_map) s.free_ranges b e ok.free_order lt
        (omega (arith, ok.nodes)) in
    (
      record s { free_ranges = ys },
      rw q refl,
      record {
        order = record {
          map_order = ok.map_order;
          free_order = order;
          nodes = omega (arith, ok.nodes, size);
        };
        free = free;
      },
    )

remove_entries-other :
    (s s₁ s₂ : Balloc) (e : MmapEntry) (es : List MmapEntry)
    → IsEntry e
    → (e.kind == 1) ≡ false
    → remove_free s e.addr (e.addr + e.extent) ≡ some s₁
    → remove_entries s₁ es ≡ some s₂
    → remove_entries s (e ∷ es) ≡ some s₂
unfolding remove_entries
remove_entries-other s s₁ s₂ e es (some_bytes, small) other q₁ q₂ =
    let wrap : u64 (e.addr + e.extent) ≡ e.addr + e.extent = omega arith in rw (other, wrap, q₁) q₂

remove_entries-usable :
    (s s₁ : Balloc) (e : MmapEntry) (es : List MmapEntry)
    → (e.kind == 1) ≡ true
    → remove_entries s es ≡ some s₁
    → remove_entries s (e ∷ es) ≡ some s₁
unfolding remove_entries
remove_entries-usable s s₁ e es usable q = rw usable q

InOrder-weaken : (n m : ℕ) (s : Balloc) → n ≤ m → InOrder n s → InOrder m s
InOrder-weaken n m s le ok = record {
  map_order = ok.map_order;
  free_order = ok.free_order;
  nodes = omega (arith, ok.nodes);
}

remove_entries-IsLess :
    (n : ℕ) (s : Balloc) (es : List MmapEntry)
    → InOrder n s
    → AreEntries es
    → n + length es + 2 ≤ max_ranges
    → (s' : Balloc) × (remove_entries s es ≡ some s') × IsLess (n + length es) s (reserved es) s'
unfolding remove_entries
remove_entries-IsLess n s [] ok valid room = (
  s,
  refl,
  record { order = InOrder-weaken n (n + 0) s (omega arith) ok; free = λ a. ground arith },
)
remove_entries-IsLess n s (e ∷ es) ok ((some_bytes, small), valid) room =
    elim (Bool-cases (e.kind == 1)) [
      | inl usable ↦
          let (s₁, q, less) = remove_entries-IsLess n s es ok valid (omega arith) in
          (
            s₁,
            remove_entries-usable s s₁ e es usable q,
            record {
              order =
                  InOrder-weaken (n + length es) (n + suc (length es)) s₁ (omega arith) less.order;
              free = λ a. let f = less.free a in ground (arith, usable, f);
            },
          )
      | inr other ↦
          let (s₁, q₁, less₁) =
            remove_free-IsLess n s e.addr (e.addr + e.extent) ok (omega arith) (omega arith) in
          let (s₂, q₂, less₂) =
            remove_entries-IsLess (n + 1) s₁ es less₁.order valid (omega arith) in
          (
            s₂,
            remove_entries-other s s₁ s₂ e es (some_bytes, small) other q₁ q₂,
            record {
              order =
                  InOrder-weaken (n + 1 + length es) (n + suc (length es)) s₂ (omega arith)
                    less₂.order;
              free = λ a.
                  let f = less₂.free a in let f' = less₁.free a in ground (arith, other, f, f');
            },
          )
    ]

setup_steps :
    (es : List MmapEntry) (kernel initrd : Range) (s s₁ s₂ s₃ s₄ s₅ s₆ : Balloc)
    → add_entries s es ≡ some s₁
    → add_known s₁ kernel.begin kernel.end ≡ some s₂
    → add_known s₂ initrd.begin initrd.end ≡ some s₃
    → remove_entries s₃ es ≡ some s₄
    → remove_free s₄ kernel.begin kernel.end ≡ some s₅
    → remove_free s₅ initrd.begin initrd.end ≡ some s₆
    → balloc_parse_mmap es kernel initrd s ≡ some s₆
unfolding balloc_parse_mmap
setup_steps es kernel initrd s s₁ s₂ s₃ s₄ s₅ s₆ q₁ q₂ q₃ q₄ q₅ q₆ = rw (q₁, q₂, q₃, q₄, q₅) q₆

-- `balloc_setup` of a table with at most 39 entries, none of them empty or beyond 64 bits, and of
-- a kernel and an initial RAM disk that are not empty, does not run out of nodes, and leaves both
-- trees in order; no address of a reserved entry, of the kernel or of the initial RAM disk is free
-- afterwards.
pub balloc_setup-reserved :
    (es : List MmapEntry) (kernel initrd : Range)
    → AreEntries es
    → length es < 40
    → kernel.begin < kernel.end
    → initrd.begin < initrd.end
    → (s : Balloc) × (balloc_setup es kernel initrd ≡ some s)
      × IsRanges 0 s.memory_map
      × IsRanges 0 s.free_ranges
      × ((a : ℕ)
          → (reserved es a || (holds kernel a || holds initrd a)) ≡ true
          → covers s.free_ranges a ≡ false)
unfolding balloc_setup
balloc_setup-reserved es kernel initrd valid few k i =
    let s : Balloc = record { memory_map = []; free_ranges = [] } in
    let n = length es in
    let (s₁, q₁, ok₁) =
      add_entries-InOrder 0 s es (record { map_order = tt; free_order = tt; nodes = omega arith })
        valid (omega arith) in
    let (s₂, q₂, ok₂) =
      add_known-InOrder (0 + 2 * n) s₁ kernel.begin kernel.end ok₁ (omega arith) (omega arith) in
    let (s₃, q₃, ok₃) =
      add_known-InOrder (0 + 2 * n + 2) s₂ initrd.begin initrd.end ok₂ (omega arith)
        (omega arith) in
    let (s₄, q₄, less₄) = remove_entries-IsLess (0 + 2 * n + 2 + 2) s₃ es ok₃ valid (omega arith) in
    let (s₅, q₅, less₅) =
      remove_free-IsLess (0 + 2 * n + 2 + 2 + n) s₄ kernel.begin kernel.end less₄.order
        (omega arith) k in
    let (s₆, q₆, less₆) =
      remove_free-IsLess (0 + 2 * n + 2 + 2 + n + 1) s₅ initrd.begin initrd.end less₅.order
        (omega arith) i in
    (
      s₆,
      setup_steps es kernel initrd s s₁ s₂ s₃ s₄ s₅ s₆ q₁ q₂ q₃ q₄ q₅ q₆,
      less₆.order.map_order,
      less₆.order.free_order,
      λ a taken.
          let f = less₄.free a in
          let f' = less₅.free a in let f'' = less₆.free a in ground (arith, f, f', f'', taken),
    )
