-- ===== src/PageAlloc/Inv.antt =====
-- The invariant of the buddy allocator: the blocks that are free and those that are handed out do
-- not overlap, are aligned and lie in the zone; a frame that reads as a free block of an order is
-- on the list of that order, or it is inside a larger block, where its flags are stale.
use au_os.Prelude.{
  ℕ, ◌+◌, ◌^◌, ◌≤◌, ◌<◌, ◌≡◌, ◌≢◌, refl, ◌⊎◌, inl, inr, true, ◌&&◌, List, [], ◌∷◌, arith, ltb, leb,
  ◌==◌, if◌then◌else◌, Bool-cases,
}
use au_os.LinkedList.Chain.{has}
use au_os.PageAlloc.{
  Zone, max_order, remove, place, put, put_tail, take_block, page_is_free, page_order,
}
use au_os.PageAlloc.Flags.{mark_free_reads, page_set_busy_reads}
use au_os.PageAlloc.Blocks.{
  IsAligned, weigh_free, weigh_taken, weigh_free-update, weigh_list-remove, has-remove,
  has-remove_ne, Adds, cons-Adds, append-Adds,
}

-- A block that is handed out: its order and its first frame.
abbrev pub Block : Type 0
Block = ℕ × ℕ

-- 1 where the block of order `k` at `b` holds the frame `p`, and where it holds it behind its first.
abbrev pub covers : ℕ → ℕ → ℕ → ℕ
covers p k b = if leb b p && ltb p (b + 2 ^ k) then 1 else 0

abbrev pub strictly : ℕ → ℕ → ℕ → ℕ
strictly p k b = if ltb b p && ltb p (b + 2 ^ k) then 1 else 0

-- The weight of all blocks of the zone, free and handed out.
abbrev pub total : (ℕ → ℕ → ℕ) → Zone → List Block → ℕ
total w z taken = weigh_free w 19 z.order + weigh_taken w taken

pub record IsBlock (z : Zone) (k b : ℕ) : Type 0 where
  pub small : k ≤ max_order
  pub aligned : IsAligned k b
  pub above : z.begin ≤ b
  pub below : b + 2 ^ k ≤ z.limit

abbrev pub AllBlocks : Zone → List Block → Type 0
AllBlocks z [] = Unit {0}
AllBlocks z ((k, b) ∷ taken) = IsBlock z k b × AllBlocks z taken

-- What the flags of the frame `x` say is so.
abbrev pub IsTrue : Zone → List Block → ℕ → Type 0
IsTrue z taken x =
    page_is_free (z.flags x) ≡ true
    → page_order (z.flags x) ≤ max_order
    → (has x (z.order (page_order (z.flags x))) ≡ true) ⊎ (0 < total (strictly x) z taken)

pub record Inv (z : Zone) (taken : List Block) : Type 0 where
  pub once : (p : ℕ) → total (covers p) z taken ≤ 1
  pub free : (k b : ℕ) → k ≤ max_order → has b (z.order k) ≡ true → IsBlock z k b
  pub blocks : AllBlocks z taken
  pub flagged : (x : ℕ) → IsTrue z taken x

-- The invariant while the block `(k, b)` is in hand: nothing is said of the flags of `b`.
pub record Pending (z : Zone) (k b : ℕ) (taken : List Block) : Type 0 where
  pub once : (p : ℕ) → total (covers p) z ((k, b) ∷ taken) ≤ 1
  pub free : (j c : ℕ) → j ≤ max_order → has c (z.order j) ≡ true → IsBlock z j c
  pub blocks : AllBlocks z ((k, b) ∷ taken)
  pub flagged : (x : ℕ) → x ≢ b → IsTrue z ((k, b) ∷ taken) x

pub Inv-Pending :
    (z : Zone) (k b : ℕ) (taken : List Block) → Inv z ((k, b) ∷ taken) → Pending z k b taken
Inv-Pending z k b taken v = record {
  once = v.once;
  free = v.free;
  blocks = v.blocks;
  flagged = λ x _. v.flagged x;
}

pub AllBlocks-same :
    (z t : Zone) (taken : List Block)
    → t.begin ≡ z.begin
    → t.limit ≡ z.limit
    → AllBlocks z taken
    → AllBlocks t taken
AllBlocks-same z t [] p q h = tt
AllBlocks-same z t ((k, b) ∷ taken) p q h = (ground arith, AllBlocks-same z t taken p q h.1)

-- What the flags of a frame say stays so where its flags are kept, it stays on its lists, and no
-- block around it is lost.
module _ (z t : Zone) (taken taken' : List Block) (x : ℕ) where
  pub IsTrue-mono :
      t.flags x ≡ z.flags x
      → ((j : ℕ) → has x (z.order j) ≡ true → has x (t.order j) ≡ true)
      → total (strictly x) z taken ≤ total (strictly x) t taken'
      → IsTrue z taken x
      → IsTrue t taken' x
  IsTrue-mono e on_list around h = rw e (λ is_free in_range. elim (h is_free in_range) [
    | inl l ↦ inl (on_list (page_order (z.flags x)) l)
    | inr l ↦ inr (omega arith)
  ])

pub IsTrue-weaken :
    (z : Zone) (taken taken' : List Block) (x : ℕ)
    → total (strictly x) z taken ≤ total (strictly x) z taken'
    → IsTrue z taken x
    → IsTrue z taken' x
IsTrue-weaken z taken taken' x le h = IsTrue-mono z z taken taken' x refl (λ j l. l) le h

-- Placing the block in hand on its list weighs nothing, and gives the invariant back.
module _ (z : Zone) (k b : ℕ) (taken : List Block) (l : List ℕ)
    (adds : Adds k b (z.order k) l) where
  total-place :
      (w : ℕ → ℕ → ℕ) → k ≤ max_order → total w (place z b k l) taken ≡ total w z ((k, b) ∷ taken)
  unfolding place
  total-place w small =
      omega (arith, weigh_free-update w 19 k z.order l (omega arith), adds.weight w)

  place-IsTrue : Pending z k b taken → (x : ℕ) → IsTrue (place z b k l) taken x
  unfolding place
  place-IsTrue v x is_free in_range = elim (Bool-cases (x == b)) [
    | inl same ↦ inl (ground (arith, mark_free_reads (z.flags b) k, v.blocks.0.small, adds.here))
    | inr other ↦
        IsTrue-mono z (place z b k l) ((k, b) ∷ taken) taken x (ground arith)
          (λ j h. ground (arith, adds.keeps x))
          (omega (arith, total-place (strictly x) v.blocks.0.small)) (v.flagged x (ground arith))
          is_free in_range
  ]

  place-free :
      Pending z k b taken
      → (j c : ℕ) → j ≤ max_order
      → has c ((place z b k l).order j) ≡ true
      → IsBlock (place z b k l) j c
  unfolding place
  place-free v j c small h = ground (arith, v.free j c, v.blocks.0, adds.only c)

  place-Inv : Pending z k b taken → Inv (place z b k l) taken
  place-Inv v = record {
    once = λ p. omega (arith, v.once p, total-place (covers p) v.blocks.0.small);
    free = place-free v;
    blocks = unfold place in AllBlocks-same z _ taken refl refl v.blocks.1;
    flagged = place-IsTrue v;
  }

module _ (z : Zone) (k b : ℕ) (taken : List Block) where
  pub total-put :
      (w : ℕ → ℕ → ℕ) → k ≤ max_order → total w (put z b k) taken ≡ total w z ((k, b) ∷ taken)
  unfolding put
  total-put = total-place z k b taken _ (cons-Adds k b (z.order k))

  pub put-Inv : Pending z k b taken → Inv (put z b k) taken
  unfolding put
  put-Inv = place-Inv z k b taken _ (cons-Adds k b (z.order k))

  pub total-put_tail :
      (w : ℕ → ℕ → ℕ) → k ≤ max_order → total w (put_tail z b k) taken ≡ total w z ((k, b) ∷ taken)
  unfolding put_tail
  total-put_tail = total-place z k b taken _ (append-Adds k b (z.order k))

  pub bounds-put_tail : ((put_tail z b k).begin ≡ z.begin) × ((put_tail z b k).limit ≡ z.limit)
  unfolding put_tail place
  bounds-put_tail = (refl, refl)

  pub put_tail-Inv : Pending z k b taken → Inv (put_tail z b k) taken
  unfolding put_tail
  put_tail-Inv = place-Inv z k b taken _ (append-Adds k b (z.order k))

-- A free block that is taken off its list is in hand, and its first frame is busy.
module _ (z : Zone) (k b : ℕ) (taken : List Block) (small : k ≤ max_order)
    (listed : has b (z.order k) ≡ true) where
  pub total-take : (w : ℕ → ℕ → ℕ) → total w (take_block z b k) ((k, b) ∷ taken) ≡ total w z taken
  unfolding take_block
  total-take w = omega (
    arith,
    weigh_free-update w 19 k z.order (remove b (z.order k)) (omega arith),
    weigh_list-remove w k b (z.order k) listed,
  )

  take-IsTrue : Inv z taken → (x : ℕ) → IsTrue (take_block z b k) ((k, b) ∷ taken) x
  unfolding take_block
  take-IsTrue v x is_free in_range = elim (Bool-cases (x == b)) [
    | inl same ↦ absurd (ground (arith, page_set_busy_reads (z.flags b)))
    | inr other ↦
        IsTrue-mono z (take_block z b k) taken ((k, b) ∷ taken) x (ground arith)
          (λ j h. ground (arith, has-remove_ne x b (z.order k)))
          (omega (arith, total-take (strictly x))) (v.flagged x) is_free in_range
  ]

  take-free :
      Inv z taken
      → (j c : ℕ) → j ≤ max_order
      → has c ((take_block z b k).order j) ≡ true
      → IsBlock (take_block z b k) j c
  unfolding take_block
  take-free v j c le h = ground (arith, v.free j c, has-remove c b (z.order k))

  pub take-Inv : Inv z taken → Inv (take_block z b k) ((k, b) ∷ taken)
  take-Inv v = record {
    once = λ p. omega (arith, v.once p, total-take (covers p));
    free = take-free v;
    blocks =
        unfold take_block in
        (
          let e = v.free k b small listed in ground arith,
          AllBlocks-same z _ taken refl refl v.blocks,
        );
    flagged = take-IsTrue v;
  }
