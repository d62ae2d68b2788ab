-- ===== src/PageAlloc/Alloc.antt =====
-- `__page_alloc_zone` hands out a block that was free, and no other frame changes hands.
use native.Mathlib.Nat.{one-le-pow, pow-suc}
use au_os.Prelude.{
  ℕ, zero, suc, ◌+◌, ◌^◌, ◌≤◌, ◌<◌, ◌≡◌, ◌≢◌, refl, inl, inr, true, false, ◌&&◌, Option, none, some,
  List, [], ◌∷◌, arith, ltb, leb, ◌==◌, Bool-cases, ◌∙◌,
}
use au_os.LinkedList.Chain.{has}
use au_os.PageAlloc.{
  Zone, max_order, is_empty, put, take_block, find_order, split, alloc_at, page_alloc_zone,
}
use au_os.PageAlloc.Blocks.{weigh_free, xor_upper, half-IsAligned}
use au_os.PageAlloc.Inv.{
  Block, covers, strictly, total, Inv, Pending, IsTrue-weaken, total-put, put-Inv, total-take,
  take-Inv,
}

-- The halves of a block hold its frames once.
covers_halves : (p k b : ℕ) → covers p (suc k) b ≡ covers p k b + covers p k (b + 2 ^ k)
covers_halves p k b = ground (arith, pow-suc 2 k)

strictly_halves :
    (x k b : ℕ) → x ≢ b + 2 ^ k → strictly x (suc k) b ≤ strictly x k b + strictly x k (b + 2 ^ k)
strictly_halves x k b ne = ground (arith, pow-suc 2 k, one-le-pow k 2)

halve :
    (z : Zone) (k b : ℕ) (taken : List Block)
    → Inv z ((suc k, b) ∷ taken)
    → Pending z k (b + 2 ^ k) ((k, b) ∷ taken)
halve z k b taken v =
    let blk = v.blocks.0 in
    let (low, high) = half-IsAligned k b blk.aligned in
    record {
      once = λ p. omega (arith, v.once p, covers_halves p k b);
      free = v.free;
      blocks = (
        record {
          small = omega (arith, blk.small);
          aligned = high;
          above = omega (arith, blk.above);
          below = omega (arith, blk.below, pow-suc 2 k);
        },
        (
          record {
            small = omega (arith, blk.small);
            aligned = low;
            above = blk.above;
            below = omega (arith, blk.below, pow-suc 2 k);
          },
          v.blocks.1,
        ),
      );
      flagged = λ x ne.
          IsTrue-weaken z ((suc k, b) ∷ taken) ((k, b + 2 ^ k) ∷ (k, b) ∷ taken) x
            (omega (arith, strictly_halves x k b ne)) (v.flagged x);
    }

-- Splitting a block in hand down to an order keeps the invariant, and every frame is held as often.
split-Inv :
    (z : Zone) (b order current : ℕ) (taken : List Block)
    → order ≤ current
    → Inv z ((current, b) ∷ taken)
    → Inv (split z b order current) ((order, b) ∷ taken)
      × ((p : ℕ)
          → total (covers p) (split z b order current) ((order, b) ∷ taken)
            ≡ total (covers p) z ((current, b) ∷ taken))
unfolding split
split-Inv z b order zero taken le v = let e : order ≡ 0 = omega arith in rw e (v, λ p. refl)
split-Inv z b order (suc c) taken le v = elim (Bool-cases (suc c == order)) [
  | inl done ↦ let e : order ≡ suc c = ground arith in rw done (rw e (v, λ p. refl))
  | inr more ↦
      let e = xor_upper c b v.blocks.0.aligned in
      let small : c ≤ max_order = omega (arith, v.blocks.0.small) in
      let w = put-Inv z c (b + 2 ^ c) ((c, b) ∷ taken) (halve z c b taken v) in
      let (ih, sums) = split-Inv (put z (b + 2 ^ c) c) b order c taken (ground arith) w in
      rw more (
        rw e (
          ih,
          λ p.
              sums p
              ∙ total-put z c (b + 2 ^ c) ((c, b) ∷ taken) (covers p) small
              ∙ omega (arith, covers_halves p c b),
        ))
]

-- The search ends at the first order from `current` on whose list is not empty, or above all.
find_order_first :
    (fuel : ℕ) (z : Zone) (current : ℕ)
    → max_order < current + fuel
    → (current ≤ find_order fuel z current)
      × ((k : ℕ) → current ≤ k → k < find_order fuel z current → is_empty (z.order k) ≡ true)
      × (find_order fuel z current ≤ max_order
          → is_empty (z.order (find_order fuel z current)) ≡ false)
unfolding find_order
find_order_first zero z current lt =
    (omega arith, λ k p q. absurd (omega arith), λ h. absurd (omega arith))
find_order_first (suc fuel) z current lt =
    elim (Bool-cases (is_empty (z.order current) && leb current max_order)) [
      | inl on ↦
          rw on
            let here : is_empty (z.order current) ≡ true = ground arith in
              let (below, empty, stops) = find_order_first fuel z (current + 1) (omega arith) in
              (
                omega arith,
                λ k p q. elim (Bool-cases (k == current)) [
                  | inl same ↦ let e : k ≡ current = ground arith in rw e here
                  | inr other ↦ empty k (ground arith) q
                ],
                stops,
              )
      | inr off ↦ rw off (omega arith, λ k p q. absurd (omega arith), λ h. ground arith)
    ]

-- What an allocation comes to: a null pointer only where no list from the order on has a block,
-- and then nothing changes; else a block of the order that is now handed out, whose frames are no
-- longer free, while all others are as free as before.
abbrev pub IsAllocated : Zone → ℕ → List Block → Option ℕ × Zone → Type 0
IsAllocated z order taken (none, t) =
    (t ≡ z) × ((k : ℕ) → order ≤ k → k ≤ max_order → is_empty (z.order k) ≡ true)
IsAllocated z order taken (some b, t) =
    Inv t ((order, b) ∷ taken)
    × ((p : ℕ)
        → weigh_free (covers p) 19 t.order + covers p order b ≡ weigh_free (covers p) 19 z.order)

module _ (z : Zone) (order current : ℕ) (taken : List Block) (le : order ≤ current)
    (small : current ≤ max_order) (v : Inv z taken) where
  alloc_at-IsAllocated :
      (bs : List ℕ)
      → z.order current ≡ bs
      → is_empty bs ≡ false
      → IsAllocated z order taken (alloc_at z order current bs)
  unfolding alloc_at
  alloc_at-IsAllocated [] e full = absurd (cc)
  alloc_at-IsAllocated (b ∷ bs) e full =
      let listed : has b (z.order current) ≡ true = rw e (ground arith) in
      let (w, sums) =
        split-Inv (take_block z b current) b order current taken le
          (take-Inv z current b taken small listed v) in
      (w, λ p. omega (arith, sums p, total-take z current b taken small listed (covers p)))

-- An allocation of an order up to MAX_ORDER in a zone in good order gives a null pointer only
-- where no list from that order on has a block, and then changes nothing. Otherwise it hands out
-- an aligned block of the order in the zone, the zone stays in good order, exactly the frames of
-- the block stop being free, and each other frame is as free as before.
pub page_alloc_zone-IsAllocated :
    (z : Zone) (order : ℕ) (taken : List Block)
    → Inv z taken
    → order ≤ max_order
    → IsAllocated z order taken (page_alloc_zone z order)
unfolding page_alloc_zone
page_alloc_zone-IsAllocated z order taken v le =
    let current = find_order 20 z order in
    let (above, empty, stops) = find_order_first 20 z order (omega arith) in
    elim (Bool-cases (ltb max_order current)) [
      | inl none_left ↦ rw none_left (refl, λ k p q. empty k p (ground arith))
      | inr found ↦
          let small : current ≤ max_order = ground arith in
          rw found (
            alloc_at-IsAllocated z order current taken above small v (z.order current) refl
              (stops small))
    ]
