-- ===== src/Balloc/Address.antt =====
-- The address of a block: the first multiple of a power of two.
use native.Mathlib.Nat.{one-le-pow, div-add-mod, mod-lt, mul-mod_right, mul-le-mul_left, mul-suc}
use Prim.Native.Nat.{bit_and}
use au_os.Prelude.{
  ℕ, suc, ◌+◌, ◌-◌, ◌*◌, ◌/◌, ◌%◌, ◌^◌, ◌≤◌, ◌<◌, ◌≡◌, inl, inr, arith, ltb, leb, if◌then◌else◌,
  Bool-cases,
}
use au_os.Prelude.Words.{u64, complement}
use au_os.Prelude.Bits.{and-high, two_pow_lt}
use au_os.Balloc.{Range, block_address}

-- Rounding up to a power of two, on 64 bits.
round_up :
    (b k : ℕ)
    → k < 64
    → b + 2 ^ k ≤ 2 ^ 64
    → let mask = u64 (2 ^ k + 2 ^ 64 - 1) in
      let addr = bit_and (u64 (b + mask)) (complement 64 mask) in
      (b ≤ addr) × (addr < b + 2 ^ k) × (addr % 2 ^ k ≡ 0)
round_up b k lt fits =
    let n = b + (2 ^ k - 1) in
    let below = two_pow_lt k 64 lt in
    let pos : 0 < 2 ^ k = omega (arith, one-le-pow k 2) in
    let m : u64 (2 ^ k + 2 ^ 64 - 1) ≡ 2 ^ k - 1 = omega (arith, below, pos) in
    let s : u64 n ≡ n = omega (arith, below, pos) in
    let h = and-high 64 k n (omega arith) (omega (arith, pos)) in
    let v : n - n % 2 ^ k ≡ 2 ^ k * (n / 2 ^ k) = omega (arith, div-add-mod n (2 ^ k)) in
    rw (m, s, h, v)
      (
        omega (arith, v, mod-lt n {m = 2 ^ k} pos),
        omega (arith, v),
        mul-mod_right (2 ^ k) (n / 2 ^ k),
      )

-- Multiples that are different are apart.
multiples_apart : (m a b : ℕ) → 0 < m → a % m ≡ 0 → b % m ≡ 0 → a < b → a + m ≤ b
multiples_apart m a b pos e e' lt =
    let q = div-add-mod a m in
    let q' = div-add-mod b m in
    elim (Bool-cases (ltb (a / m) (b / m))) [
      | inl less ↦
          let t = mul-le-mul_left {m = suc (a / m)} {n = b / m} m (ground arith) in
          let u = mul-suc m (a / m) in omega (arith, q, q', e, e', t, u)
      | inr more ↦
          let t = mul-le-mul_left {m = b / m} {n = a / m} m (ground arith) in
          absurd (omega (arith, q, q', e, e', t))
    ]

-- The address in the range `p`, the least multiple from `from` and the range's begin on.
pub block_address_lem :
    (p : Range) (k size from : ℕ)
    → k < 64
    → from + (2 ^ k + size) < 2 ^ 64
    → p.begin + (2 ^ k + size) < 2 ^ 64
    → (from ≤ block_address p (2 ^ k) from)
      × (p.begin ≤ block_address p (2 ^ k) from)
      × (u64 (block_address p (2 ^ k) from + size) ≡ block_address p (2 ^ k) from + size)
      × (block_address p (2 ^ k) from % 2 ^ k ≡ 0)
      × ((a : ℕ) → a % 2 ^ k ≡ 0 → from ≤ a → p.begin ≤ a → block_address p (2 ^ k) from ≤ a)
unfolding block_address
block_address_lem p k size from lt fits fits' =
    let b = if ltb from p.begin then p.begin else from in
    let from_le : from ≤ b = ground arith in
    let begin_le : p.begin ≤ b = ground arith in
    let small : b + (2 ^ k + size) < 2 ^ 64 = ground arith in
    let (h, h', h'') = round_up b k lt (omega arith) in
    (
      omega arith,
      omega arith,
      omega arith,
      h'',
      λ a multiple le le'.
          let b_le : b ≤ a = ground arith in
          elim (Bool-cases (leb (block_address p (2 ^ k) from) a)) [
            | inl on ↦ ground (arith, on)
            | inr off ↦
                let far =
                  multiples_apart (2 ^ k) a (block_address p (2 ^ k) from)
                    (omega (arith, one-le-pow k 2)) multiple h'' (ground (arith, off)) in
                absurd (omega (arith, far))
          ],
    )
