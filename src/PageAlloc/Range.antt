-- ===== src/PageAlloc/Range.antt =====
-- `__page_alloc_zone_free` cuts a range of frames into aligned blocks: it terminates, stays in
-- good order, and frees exactly the frames of the range.
use native.Mathlib.Nat.{one-le-pow, pow-suc}
use Prim.Native.Nat.{bit_and}
use au_os.Prelude.{
  ℕ, zero, suc, ◌+◌, ◌-◌, ◌*◌, ◌/◌, ◌%◌, ◌^◌, ◌≤◌, ◌<◌, ◌≡◌, ap, inl, inr, true, ◌&&◌, some, List,
  ◌∷◌, arith, ltb, leb, ◌==◌, if◌then◌else◌, Bool-cases,
}
use au_os.Prelude.Bits.{bit_at, and-pow}
use au_os.PageAlloc.{Zone, max_order, put_tail}
use au_os.PageAlloc.Blocks.{IsAligned, two_pow_suc, weigh_free}
use au_os.PageAlloc.Inv.{
  Block, covers, total, Inv, Pending, IsTrue-weaken, total-put_tail, bounds-put_tail, put_tail-Inv,
}
use au_os.PageAlloc.Zones.{block_order, free_blocks}

bit_at-mul : (k q : ℕ) → bit_at (q * 2 ^ k) k ≡ q % 2
bit_at-mul zero q = omega arith
bit_at-mul (suc k) q =
    let e : q * 2 ^ suc k / 2 ≡ q * 2 ^ k = omega (arith, ap (λ (t : ℕ). q * t) (pow-suc 2 k)) in
    rw e (bit_at-mul k q)

-- An aligned frame whose next bit is clear is aligned to the next order.
next-IsAligned :
    (k page : ℕ) → IsAligned k page → (bit_and page (2 ^ k) == 0) ≡ true → IsAligned (suc k) page
next-IsAligned k page (q, e) clear =
    (q / 2, omega (arith, two_pow_suc (q / 2) k, ap (λ (t : ℕ). t * 2 ^ k) halves))
  where
    digit : q % 2 ≡ 0
    digit = elim (Bool-cases (q % 2 == 0)) [
      | inl even ↦ ground arith
      | inr odd ↦
          let one : q % 2 ≡ 1 = ground arith in
          absurd (
            ground
              (arith, and-pow k page, ap (λ (t : ℕ). bit_at t k) e, bit_at-mul k q, one-le-pow k 2))
    ]

    halves : q ≡ 2 * (q / 2)
    halves = omega (arith, digit)

-- The block that is cut off is aligned, has an order, and ends by the limit.
pub record Fits (page limit o : ℕ) : Type 0 where
  pub aligned : IsAligned o page
  pub small : o ≤ max_order
  pub ends : page + 2 ^ o ≤ limit

block_order-Fits :
    (fuel page limit order : ℕ)
    → Fits page limit order
    → Fits page limit (block_order fuel page limit order)
unfolding block_order
block_order-Fits zero page limit order f = f
block_order-Fits (suc fuel) page limit order f =
    elim (Bool-cases (
      ltb order max_order
      && ((bit_and page (2 ^ order) == 0) && leb (page + 2 ^ (order + 1)) limit))) [
        | inl on ↦
            let e : order + 1 ≡ suc order = omega arith in
            rw on (
              rw e (
                block_order-Fits fuel page limit (suc order) (record {
                  aligned = next-IsAligned order page f.aligned (ground arith);
                  small = ground arith;
                  ends = let le : page + 2 ^ (order + 1) ≤ limit = ground arith in rw e at le;
                })))
        | inr off ↦ rw off f
      ]

-- 1 for the frames of the range.
abbrev pub in_range : (page limit p : ℕ) → ℕ
in_range page limit p = if leb page p && ltb p limit then 1 else 0

range_split :
    (page o limit p : ℕ)
    → page + 2 ^ o ≤ limit
    → in_range page limit p ≡ covers p o page + in_range (page + 2 ^ o) limit p
range_split page o limit p le = ground arith

covers_beyond : (p o page : ℕ) → page + 2 ^ o ≤ p → covers p o page ≡ 0
covers_beyond p o page le = ground arith

-- A block that is cut off a range that nobody holds is in hand.
pub cut :
    (z : Zone) (page limit o : ℕ) (taken : List Block)
    → Inv z taken
    → z.begin ≤ page
    → limit ≤ z.limit
    → ((p : ℕ) → page ≤ p → p < limit → total (covers p) z taken ≡ 0)
    → Fits page limit o
    → Pending z o page taken
cut z page limit o taken v lo hi unheld f = record {
  once = λ p. elim (Bool-cases (leb page p && ltb p (page + 2 ^ o))) [
    | inl held ↦ rw held (omega (arith, unheld p (ground arith) (ground (arith, f.ends))))
    | inr out ↦ rw out (omega (arith, v.once p))
  ];
  free = v.free;
  blocks = (
    record { small = f.small; aligned = f.aligned; above = lo; below = omega (arith, f.ends) },
    v.blocks,
  );
  flagged = λ x ne. IsTrue-weaken z taken ((o, page) ∷ taken) x (omega arith) (v.flagged x);
}

-- Freeing a range of frames of the zone that nobody holds, with more fuel than frames, terminates
-- and leaves the zone in good order: exactly the frames of the range become free.
pub free_blocks-Inv :
    (fuel : ℕ) (z : Zone) (page limit : ℕ) (taken : List Block)
    → Inv z taken
    → z.begin ≤ page
    → page ≤ limit
    → limit ≤ z.limit
    → limit - page < fuel
    → ((p : ℕ) → page ≤ p → p < limit → total (covers p) z taken ≡ 0)
    → (t : Zone) × (free_blocks fuel z page limit ≡ some t)
      × Inv t taken
      × ((p : ℕ)
          → weigh_free (covers p) 19 t.order
            ≡ weigh_free (covers p) 19 z.order + in_range page limit p)
unfolding free_blocks
free_blocks-Inv zero z page limit taken v lo le hi enough unheld = absurd (omega arith)
free_blocks-Inv (suc fuel) z page limit taken v lo le hi enough unheld =
    elim (Bool-cases (page == limit)) [
      | inl done ↦ (z, rw done, v, λ p. ground arith)
      | inr more ↦
          let o = block_order max_order page limit 0 in
          let f =
            block_order-Fits max_order page limit 0 (record {
              aligned = (page, omega arith);
              small = omega arith;
              ends = ground arith;
            }) in
          let z' = put_tail z page o in
          let sums = λ (p : ℕ). total-put_tail z o page taken (covers p) f.small in
          let (t, e, w, freed) =
            free_blocks-Inv fuel z' (page + 2 ^ o) limit taken
              (put_tail-Inv z o page taken (cut z page limit o taken v lo hi unheld f))
              (omega (arith, bounds-put_tail z o page taken)) f.ends
              (omega (arith, bounds-put_tail z o page taken))
              (omega (arith, one-le-pow o 2, f.ends))
              (λ p a b.
                omega (arith, sums p, unheld p (omega arith) b, covers_beyond p o page a)) in
          (t, rw more e, w, λ p. omega (arith, freed p, sums p, range_split page o limit p f.ends))
    ]
