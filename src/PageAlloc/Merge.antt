-- ===== src/PageAlloc/Merge.antt =====
-- One round of the loop of `__page_free_zone`: the buddy that it merges with is a free block.
use native.Mathlib.Nat.{one-le-pow, pow-suc}
use au_os.Prelude.{
  ℕ, suc, ◌+◌, ◌^◌, ◌≤◌, ◌<◌, ◌≡◌, ◌≢◌, refl, ◌⊎◌, inl, inr, true, false, ◌||◌, List, [], ◌∷◌,
  arith, ltb, ◌==◌, if◌then◌else◌, Bool-cases,
}
use au_os.LinkedList.Chain.{has}
use au_os.PageAlloc.{Zone, max_order, unlink, remove, can_merge, page_is_free, page_order}
use au_os.PageAlloc.Blocks.{
  IsAligned, IsBuddy, upper, lower, inside_buddy, weigh_free, weigh_taken, weigh_free-update,
  weigh_list-remove, weigh_free_mono, has-remove, has-remove_ne,
}
use au_os.PageAlloc.Inv.{
  Block, covers, strictly, total, IsBlock, AllBlocks, IsTrue, Pending, IsTrue-mono, AllBlocks-same,
}

pub own_weight : {k page b : ℕ} → IsBuddy k page b → strictly b k page ≡ 0
own_weight (upper e _) = ground arith
own_weight (lower e _) = ground (arith, one-le-pow 0 2)

buddy_ne : {k page b : ℕ} → IsBuddy k page b → b ≢ page
buddy_ne {k} (upper e _) = omega (arith, one-le-pow k 2)
buddy_ne {k} (lower e _) = omega (arith, one-le-pow k 2)

own_cover : (k page : ℕ) → covers page k page ≡ 1
own_cover k page = ground (arith, one-le-pow k 2)

-- The buddy that the code finds free is on the list of the order: its flags cannot be stale, since
-- a block that held it strictly inside would hold the block in hand.
module _ (z : Zone) (k page b : ℕ) (taken : List Block) (v : Pending z k page taken)
    (bud : IsBuddy k page b) where
  weight_le : (j c : ℕ) → IsBlock z j c → strictly b j c ≤ covers page j c
  weight_le j c blk = ground (arith, inside_buddy j c bud blk.aligned)

  taken_le :
      (bs : List Block)
      → AllBlocks z bs
      → weigh_taken (strictly b) bs ≤ weigh_taken (covers page) bs
  taken_le [] h = omega arith
  taken_le ((j, c) ∷ bs) h = omega (arith, weight_le j c h.0, taken_le bs h.1)

  free_le : weigh_free (strictly b) 19 z.order ≤ weigh_free (covers page) 19 z.order
  free_le =
      weigh_free_mono (strictly b) (covers page) 19 z.order
        (λ j c lt h. weight_le j c (v.free j c (omega arith) h))

  not_inside : total (strictly b) z ((k, page) ∷ taken) ≡ 0
  not_inside =
      omega
        (arith, v.once page, free_le, taken_le taken v.blocks.1, own_weight bud, own_cover k page)

  pub buddy_listed : can_merge z b k ≡ true → has b (z.order k) ≡ true
  unfolding can_merge
  buddy_listed h =
      let free : page_is_free (z.flags b) ≡ true = ground arith in
      let at : page_order (z.flags b) ≡ k = ground arith in
      elim (v.flagged b (buddy_ne bud) free (omega (arith, v.blocks.0.small))) [
        | inl l ↦ rw at at l
        | inr l ↦ absurd (omega (arith, not_inside))
      ]

-- What the merged block `m` is: the pair of the block in hand and its buddy.
pub record IsPair (k page b m : ℕ) : Type 0 where
  pub aligned : IsAligned (suc k) m
  pub halves : ((m ≡ page) × (b ≡ page + 2 ^ k)) ⊎ ((m ≡ b) × (page ≡ b + 2 ^ k))

pub IsPair-of_buddy :
    {k page b : ℕ} → IsBuddy k page b → IsPair k page b (if ltb b page then b else page)
IsPair-of_buddy {k} {page} {b} (upper e al) =
    let t : ltb b page ≡ false = ground arith in
    rw t (record { aligned = al; halves = inl (refl, e) })
IsPair-of_buddy {k} {page} {b} (lower e al) =
    let t : ltb b page ≡ true = ground (arith, one-le-pow k 2) in
    rw t (record { aligned = al; halves = inr (refl, e) })

module _ (k page b m : ℕ) (pair : IsPair k page b m) where
  pub covers_pair : (p : ℕ) → covers p (suc k) m ≡ covers p k page + covers p k b
  covers_pair p = ground (arith, pair.halves, pow-suc 2 k)

  strictly_pair : (x : ℕ) → strictly x k page + strictly x k b ≤ strictly x (suc k) m
  strictly_pair x = ground (arith, pair.halves, pow-suc 2 k, one-le-pow k 2)

  upper_half_inside : (x : ℕ) → x ≢ m → (x ≡ page) ⊎ (x ≡ b) → strictly x (suc k) m ≡ 1
  upper_half_inside x ne h = ground (arith, pair.halves, pow-suc 2 k, one-le-pow k 2)

-- One round of the loop.
module _ (z : Zone) (k page b m : ℕ) (taken : List Block) (v : Pending z k page taken)
    (pair : IsPair k page b m) (listed : has b (z.order k) ≡ true) (room : k < max_order) where
  pub total-unlink :
      (w : ℕ → ℕ → ℕ) → weigh_free w 19 (unlink z b k).order + w k b ≡ weigh_free w 19 z.order
  unfolding unlink
  total-unlink w = omega (
    arith,
    weigh_free-update w 19 k z.order (remove b (z.order k)) (omega arith),
    weigh_list-remove w k b (z.order k) listed,
  )

  joined : IsBlock z (suc k) m
  joined =
      let low = v.blocks.0 in
      let high = v.free k b (omega arith) listed in
      record {
        small = omega arith;
        aligned = pair.aligned;
        above = ground (arith, pair.halves, low.above, high.above);
        below = ground (arith, pair.halves, pow-suc 2 k, low.below, high.below);
      }

  unlink-IsTrue : (x : ℕ) → x ≢ m → IsTrue (unlink z b k) ((suc k, m) ∷ taken) x
  unfolding unlink
  unlink-IsTrue x ne = elim (Bool-cases (x == b || x == page)) [
    | inl half ↦ λ _ _. inr (omega (arith, upper_half_inside k page b m pair x ne (ground arith)))
    | inr other ↦
        IsTrue-mono z (unlink z b k) ((k, page) ∷ taken) ((suc k, m) ∷ taken) x refl
          (λ j h. ground (arith, has-remove_ne x b (z.order k)))
          (omega (arith, total-unlink (strictly x), strictly_pair k page b m pair x))
          (v.flagged x (ground arith))
  ]

  unlink-free :
      (j c : ℕ) → j ≤ max_order → has c ((unlink z b k).order j) ≡ true → IsBlock (unlink z b k) j c
  unfolding unlink
  unlink-free j c le h = ground (arith, v.free j c, has-remove c b (z.order k))

  pub unlink-Pending : Pending (unlink z b k) (suc k) m taken
  unlink-Pending = record {
    once = λ p. omega (arith, v.once p, total-unlink (covers p), covers_pair k page b m pair p);
    free = unlink-free;
    blocks =
        unfold unlink in (ground (arith, joined), AllBlocks-same z _ taken refl refl v.blocks.1);
    flagged = unlink-IsTrue;
  }
