-- ===== src/PageAlloc/Free.antt =====
-- `__page_free_zone` takes a block back: exactly its frames become free, and the block that is put
-- on a list has no free buddy left.
use Prim.Native.Nat.{bit_and, bit_xor}
use au_os.Prelude.{
  leb, ℕ, zero, suc, ◌+◌, ◌-◌, ◌^◌, ◌≤◌, ◌≡◌, refl, ◌⊎◌, inl, inr, true, false, ◌&&◌, some, List,
  ◌∷◌, arith, ltb, ◌==◌, if◌then◌else◌, Bool-cases,
}
use au_os.Prelude.Bits.{and-ones}
use au_os.PageAlloc.{Zone, max_order, put, unlink, can_merge, merge, page_free_zone}
use au_os.PageAlloc.Blocks.{aligned-mod, xor-IsBuddy, weigh_free}
use au_os.PageAlloc.Inv.{Block, covers, total, Inv, Pending, Inv-Pending, total-put, put-Inv}
use au_os.PageAlloc.Merge.{buddy_listed, IsPair-of_buddy, covers_pair, total-unlink, unlink-Pending}

-- What the loop comes to, from the block `(k, page)` in hand to the block `(j, m)`.
abbrev IsMerged : Zone → (k page : ℕ) → List Block → Zone × ℕ × ℕ → Type 0
IsMerged z k page taken (t, m, j) =
    Pending t j m taken
    × ((p : ℕ) → total (covers p) t ((j, m) ∷ taken) ≡ total (covers p) z ((k, page) ∷ taken))
    × ((j ≡ max_order) ⊎ (can_merge t (bit_xor m (2 ^ j)) j ≡ false))

merge-IsMerged :
    (fuel : ℕ) (z : Zone) (page k : ℕ) (taken : List Block)
    → max_order ≤ k + fuel
    → Pending z k page taken
    → IsMerged z k page taken (merge fuel z page k)
unfolding merge
merge-IsMerged zero z page k taken enough v = (v, λ p. refl, inl (omega (arith, v.blocks.0.small)))
merge-IsMerged (suc fuel) z page k taken enough v =
    let b = bit_xor page (2 ^ k) in
    elim (Bool-cases (ltb k max_order && can_merge z b k)) [
      | inl on ↦
          let bud = xor-IsBuddy k page v.blocks.0.aligned in
          let m = if ltb b page then b else page in
          let pair = IsPair-of_buddy bud in
          let listed = buddy_listed z k page b taken v bud (ground arith) in
          let next = unlink-Pending z k page b m taken v pair listed (ground arith) in
          let (last, sums, stop) =
            merge-IsMerged fuel (unlink z b k) m (suc k) taken (omega arith) next in
          let e : k + 1 ≡ suc k = omega arith in
          rw on (
            rw e (
              last,
              λ p. omega (
                arith,
                sums p,
                total-unlink z k page b m taken v pair listed (ground arith) (covers p),
                covers_pair k page b m pair p,
              ),
              stop,
            ))
      | inr off ↦ rw off (v, λ p. refl, ground (arith, v.blocks.0.small))
    ]

-- Freeing a block that is handed out, in a zone in good order, does not stop at the checks of
-- order and alignment, and leaves the zone in good order without the block: exactly its frames become free, and
-- each other frame is as free as before.
pub page_free_zone-Inv :
    (z : Zone) (b order : ℕ) (taken : List Block)
    → Inv z ((order, b) ∷ taken)
    → (t : Zone) × (page_free_zone z b order ≡ some t)
      × Inv t taken
      × ((p : ℕ)
          → weigh_free (covers p) 19 t.order ≡ weigh_free (covers p) 19 z.order + covers p order b)
unfolding page_free_zone
page_free_zone-Inv z b order taken v =
    let (last, sums, stop) =
      merge-IsMerged max_order z b order taken (omega arith) (Inv-Pending z order b taken v) in
    let (t, m, j) = merge max_order z b order in
    let small : j ≤ max_order = last.blocks.0.small in
    (
      put t m j,
      rw aligned,
      put-Inv t j m taken last,
      λ p. omega (arith, sums p, total-put t j m taken (covers p) small),
    )
  where
    aligned : (leb order max_order && bit_and b (2 ^ order - 1) == 0) ≡ true
    aligned =
        ground (arith, and-ones order b, aligned-mod order b v.blocks.0.aligned, v.blocks.0.small)
