-- ===== src/Prelude/Bits.antt =====
-- Facts about the native bit operations at variables. A word is read bit by bit, so that `|`, `&`,
-- `^` and `~` become tests of one bit.
use Prim.Native.Nat.{
  ℕ, zero, suc, ◌+◌, ◌-◌, ◌*◌, ◌/◌, ◌%◌, ◌^◌, ◌≤◌, ◌<◌, min, max, bit_and, bit_or, bit_xor, digits,
  bitwise, differ, bit_and-bitwise, bit_or-bitwise, bit_xor-bitwise,
}
use mathlib.Core.Path.{◌≡◌, refl, ap, ap₂}
use native.Mathlib.Nat.{pow-suc, one-le-pow, pow-le-pow_right, le_refl, mod-eq_of_lt}
use native.Mathlib.Omega.{arith}
use au_os.Prelude.Tests.{ltb, ◌==◌, if◌then◌else◌}

module _ (z : ℕ → ℕ) (f : ℕ → ℕ → ℕ) where
  fuel_irrelevant : (n m a b : ℕ) → a ≤ n → a ≤ m → digits z f n a b ≡ digits z f m a b
  fuel_irrelevant zero zero a b p q = refl
  fuel_irrelevant zero (suc m) zero b p q = refl
  fuel_irrelevant zero (suc m) (suc a) b p q = absurd (omega arith)
  fuel_irrelevant (suc n) zero zero b p q = refl
  fuel_irrelevant (suc n) zero (suc a) b p q = absurd (omega arith)
  fuel_irrelevant (suc n) (suc m) zero b p q = refl
  fuel_irrelevant (suc n) (suc m) (suc a) b p q =
      rw (fuel_irrelevant n m (suc a / 2) (b / 2) (omega arith) (omega arith))

  bitwise_step :
      (a b : ℕ)
      → bitwise z f (suc a) b ≡ bitwise z f (suc a / 2) (b / 2) * 2 + f (suc a % 2) (b % 2)
  bitwise_step a b =
      omega (arith, fuel_irrelevant a (suc a / 2) (suc a / 2) (b / 2) (omega arith) (le_refl _))

or_step : (a b : ℕ) → bit_or a b ≡ bit_or (a / 2) (b / 2) * 2 + max (a % 2) (b % 2)
or_step zero b = simp bit_or-bitwise (omega arith)
or_step (suc a) b = simp bit_or-bitwise (bitwise_step (λ y. y) max a b)

and_step : (a b : ℕ) → bit_and a b ≡ bit_and (a / 2) (b / 2) * 2 + min (a % 2) (b % 2)
and_step zero b = simp bit_and-bitwise (omega arith)
and_step (suc a) b = simp bit_and-bitwise (bitwise_step (λ y. 0) min a b)

differ_digits : (x y : ℕ) → x < 2 → y < 2 → differ x y ≡ (x + y) % 2
differ_digits zero y p q = omega arith
differ_digits (suc zero) zero p q = refl
differ_digits (suc zero) (suc y) p q = omega arith
differ_digits (suc (suc x)) y p q = absurd (omega arith)

xor_step : (a b : ℕ) → bit_xor a b ≡ bit_xor (a / 2) (b / 2) * 2 + (a % 2 + b % 2) % 2
xor_step zero b = simp bit_xor-bitwise (omega arith)
xor_step (suc a) b =
    rw (← differ_digits (suc a % 2) (b % 2) (omega arith) (omega arith))
      (simp bit_xor-bitwise (bitwise_step (λ y. y) differ a b))

-- `(w >> i) & 1`
abbrev pub bit_at : ℕ → ℕ → ℕ
bit_at w zero = w % 2
bit_at w (suc i) = bit_at (w / 2) i

pub bit_at-lt : (w i : ℕ) → bit_at w i < 2
bit_at-lt w zero = omega arith
bit_at-lt w (suc i) = bit_at-lt (w / 2) i

pub bit_at-or : (a b i : ℕ) → bit_at (bit_or a b) i ≡ max (bit_at a i) (bit_at b i)
bit_at-or a b zero = omega (arith, or_step a b)
bit_at-or a b (suc i) =
    let e : bit_or a b / 2 ≡ bit_or (a / 2) (b / 2) = omega (arith, or_step a b) in
    rw e (bit_at-or (a / 2) (b / 2) i)

pub bit_at-and : (a b i : ℕ) → bit_at (bit_and a b) i ≡ min (bit_at a i) (bit_at b i)
bit_at-and a b zero = omega (arith, and_step a b)
bit_at-and a b (suc i) =
    let e : bit_and a b / 2 ≡ bit_and (a / 2) (b / 2) = omega (arith, and_step a b) in
    rw e (bit_at-and (a / 2) (b / 2) i)

pub bit_at-zero : (i : ℕ) → bit_at 0 i ≡ 0
bit_at-zero zero = refl
bit_at-zero (suc i) = bit_at-zero i

-- `1 << j` has the one bit `j`.
pub bit_at-pow : (j i : ℕ) → bit_at (2 ^ j) i ≡ (if j == i then 1 else 0)
bit_at-pow zero zero = refl
bit_at-pow zero (suc i) = ground (arith, bit_at-zero i)
bit_at-pow (suc j) zero = ground (arith, pow-suc 2 j)
bit_at-pow (suc j) (suc i) =
    let e : 2 ^ suc j / 2 ≡ 2 ^ j = omega (arith, pow-suc 2 j) in
    rw e (rw (bit_at-pow j i) (ground arith))

-- `~w` turns every bit of the word.
pub bit_at-complement : (n w i : ℕ) → w < 2 ^ n → i < n → bit_at (2 ^ n - 1 - w) i ≡ 1 - bit_at w i
bit_at-complement zero w i h lt = absurd (omega arith)
bit_at-complement (suc n) w zero h lt = omega (arith, pow-suc 2 n, one-le-pow n 2)
bit_at-complement (suc n) w (suc i) h lt =
    let e : (2 ^ suc n - 1 - w) / 2 ≡ 2 ^ n - 1 - w / 2 =
      omega (arith, pow-suc 2 n, one-le-pow n 2) in
    rw e (bit_at-complement n (w / 2) i (omega (arith, pow-suc 2 n)) (omega arith))

-- `(1 << n) - 1` has the bits below `n`.
pub bit_at-ones : (n i : ℕ) → i < n → bit_at (2 ^ n - 1) i ≡ 1
bit_at-ones zero i lt = absurd (omega arith)
bit_at-ones (suc n) zero lt = omega (arith, pow-suc 2 n, one-le-pow n 2)
bit_at-ones (suc n) (suc i) lt =
    let e : (2 ^ suc n - 1) / 2 ≡ 2 ^ n - 1 = omega (arith, pow-suc 2 n, one-le-pow n 2) in
    rw e (bit_at-ones n i (omega arith))

-- A word below `2 ^ n` has no bit from `n` on.
pub bit_at-high : (n w i : ℕ) → w < 2 ^ n → n ≤ i → bit_at w i ≡ 0
bit_at-high zero w i h le = let e : w ≡ 0 = omega arith in rw e (bit_at-zero i)
bit_at-high (suc n) w zero h le = absurd (omega arith)
bit_at-high (suc n) w (suc i) h le =
    bit_at-high n (w / 2) i (omega (arith, pow-suc 2 n)) (omega arith)

-- Words of `n` bits with the same bits are the same.
pub eq_of_bits :
    (n a b : ℕ) → a < 2 ^ n → b < 2 ^ n → ((i : ℕ) → i < n → bit_at a i ≡ bit_at b i) → a ≡ b
eq_of_bits zero a b ha hb same = omega arith
eq_of_bits (suc n) a b ha hb same =
    let rest : a / 2 ≡ b / 2 =
      eq_of_bits n (a / 2) (b / 2) (omega (arith, pow-suc 2 n)) (omega (arith, pow-suc 2 n))
        (λ i lt. same (suc i) (omega arith)) in
    omega (arith, same 0 (omega arith))

xor-zero_fuel : (n a : ℕ) → a ≤ n → bit_xor a 0 ≡ a
xor-zero_fuel n zero h = refl
xor-zero_fuel zero (suc a) h = absurd (omega arith)
xor-zero_fuel (suc n) (suc a) h =
    ground (arith, xor_step (suc a) 0, xor-zero_fuel n (suc a / 2) (omega arith))

-- The number of the block that makes up an aligned pair with the `q`-th.
unfoldable pub buddy_no : ℕ → ℕ
buddy_no q = if q % 2 == 0 then q + 1 else q - 1

xor-one : (q : ℕ) → bit_xor q 1 ≡ buddy_no q
unfolding buddy_no
xor-one q = ground (arith, xor_step q 1, xor-zero_fuel (q / 2) (q / 2) (le_refl _))

two_pow_mul : (q k : ℕ) → q * 2 ^ suc k ≡ 2 * (q * 2 ^ k)
two_pow_mul q k = omega (arith, ap (λ (t : ℕ). q * t) (pow-suc 2 k))

-- `^ (1 << k)` takes the `q`-th block of size `2 ^ k` to its buddy.
pub xor_buddy : (k q : ℕ) → bit_xor (q * 2 ^ k) (2 ^ k) ≡ buddy_no q * 2 ^ k
xor_buddy zero q = let e : q * 2 ^ 0 ≡ q = omega arith in rw e (omega (arith, xor-one q))
xor_buddy (suc k) q =
    let e : q * 2 ^ suc k / 2 ≡ q * 2 ^ k = omega (arith, two_pow_mul q k) in
    let e' : 2 ^ suc k / 2 ≡ 2 ^ k = omega (arith, pow-suc 2 k) in
    let step : bit_xor (q * 2 ^ suc k) (2 ^ suc k) ≡ bit_xor (q * 2 ^ k) (2 ^ k) * 2 = omega (
      arith,
      ap₂ bit_xor e e',
      xor_step (q * 2 ^ suc k) (2 ^ suc k),
      two_pow_mul q k,
      pow-suc 2 k,
    ) in
    omega (arith, step, xor_buddy k q, two_pow_mul (buddy_no q) k)

and-zero : (a : ℕ) → bit_and a 0 ≡ 0
and-zero a = and-zero_fuel a a (le_refl _)
  where
    and-zero_fuel : (n m : ℕ) → m ≤ n → bit_and m 0 ≡ 0
    and-zero_fuel n zero h = refl
    and-zero_fuel zero (suc m) h = absurd (omega arith)
    and-zero_fuel (suc n) (suc m) h =
        omega (arith, and_step (suc m) 0, and-zero_fuel n (suc m / 2) (omega arith))

-- `w & (1 << j)` is not 0 exactly where bit `j` is set.
pub and-pow : (j a : ℕ) → bit_and a (2 ^ j) ≡ bit_at a j * 2 ^ j
and-pow zero a = omega (arith, and_step a 1, and-zero (a / 2))
and-pow (suc j) a =
    let e : 2 ^ suc j / 2 ≡ 2 ^ j = omega (arith, pow-suc 2 j) in
    omega (
      arith,
      ap (bit_and (a / 2)) e,
      and_step a (2 ^ suc j),
      and-pow j (a / 2),
      pow-suc 2 j,
      two_pow_mul (bit_at (a / 2) j) j,
    )

-- The remainder by twice `p`, from the half.
half_mod : (a p : ℕ) → 0 < p → a % (2 * p) ≡ 2 * (a / 2 % p) + a % 2
half_mod a p pos = grind arith

mod_pow_suc : (a k : ℕ) → a % 2 ^ suc k ≡ 2 * (a / 2 % 2 ^ k) + a % 2
mod_pow_suc a k =
    let e : 2 ^ suc k ≡ 2 * 2 ^ k = omega (arith, pow-suc 2 k) in
    rw e (half_mod a (2 ^ k) (omega (arith, one-le-pow k 2)))

-- `w & ((1 << k) - 1)` keeps the low `k` bits.
pub and-ones : (k a : ℕ) → bit_and a (2 ^ k - 1) ≡ a % 2 ^ k
and-ones zero a = omega (arith, and-zero a)
and-ones (suc k) a =
    let e : (2 ^ suc k - 1) / 2 ≡ 2 ^ k - 1 = omega (arith, pow-suc 2 k, one-le-pow k 2) in
    omega (
      arith,
      ap (bit_and (a / 2)) e,
      and_step a (2 ^ suc k - 1),
      and-ones k (a / 2),
      mod_pow_suc a k,
      pow-suc 2 k,
      one-le-pow k 2,
    )

pub bit_at-mod : (k a i : ℕ) → i < k → bit_at (a % 2 ^ k) i ≡ bit_at a i
bit_at-mod zero a i lt = absurd (omega arith)
bit_at-mod (suc k) a zero lt = omega (arith, mod_pow_suc a k)
bit_at-mod (suc k) a (suc i) lt =
    let e : a % 2 ^ suc k / 2 ≡ a / 2 % 2 ^ k = omega (arith, mod_pow_suc a k) in
    rw e (bit_at-mod k (a / 2) i (omega arith))

pub two_pow_lt : (a b : ℕ) → a < b → 2 ^ a < 2 ^ b
two_pow_lt a b lt = omega (
  arith,
  pow-suc 2 a,
  one-le-pow a 2,
  pow-le-pow_right {n = 2} (omega arith) {i = suc a} {j = b} lt,
)

-- `q << k` moves the bits up.
pub bit_at-shift : (k q i : ℕ) → bit_at (q * 2 ^ k) i ≡ (if ltb i k then 0 else bit_at q (i - k))
bit_at-shift zero q i =
    let e : q * 2 ^ 0 ≡ q = omega arith in
    let e' : i - 0 ≡ i = omega arith in rw (e, e') (ground arith)
bit_at-shift (suc k) q zero = ground (arith, two_pow_mul q k)
bit_at-shift (suc k) q (suc i) =
    let e : q * 2 ^ suc k / 2 ≡ q * 2 ^ k = omega (arith, two_pow_mul q k) in
    let e' : suc i - suc k ≡ i - k = omega arith in rw (e, e') (ground (arith, bit_at-shift k q i))

-- A word without a bit is 0.
pub zero_of_bits : (n x : ℕ) → x ≤ n → ((i : ℕ) → bit_at x i ≡ 0) → x ≡ 0
zero_of_bits zero x le h = omega arith
zero_of_bits (suc n) zero le h = refl
zero_of_bits (suc n) (suc x) le h =
    let half = zero_of_bits n (suc x / 2) (omega arith) (λ i. h (suc i)) in omega (arith, h 0)

zero-and : (b : ℕ) → bit_and 0 b ≡ 0
zero-and b = bit_and-bitwise 0 b

pub and-le : (n a b : ℕ) → a ≤ n → bit_and a b ≤ a
and-le n zero b le = omega (arith, zero-and b)
and-le zero (suc a) b le = absurd (omega arith)
and-le (suc n) (suc a) b le =
    omega (arith, and_step (suc a) b, and-le n (suc a / 2) (b / 2) (omega arith))

pub or-lt : (n a b : ℕ) → a < 2 ^ n → b < 2 ^ n → bit_or a b < 2 ^ n
or-lt zero a b ha hb =
    let e : a ≡ 0 = omega arith in let e' : b ≡ 0 = omega arith in rw (e, e') (omega arith)
or-lt (suc n) a b ha hb = omega (
  arith,
  or_step a b,
  pow-suc 2 n,
  or-lt n (a / 2) (b / 2) (omega (arith, pow-suc 2 n)) (omega (arith, pow-suc 2 n)),
)

scaled_test : (b p : ℕ) → b < 2 → 1 ≤ p → (b * p == 0) ≡ (b == 0)
scaled_test zero p lt pos = ground arith
scaled_test (suc zero) p lt pos = ground arith
scaled_test (suc (suc b)) p lt pos = absurd (omega arith)

-- `!(w & (1 << k))`
pub bit_test : (w k : ℕ) → (bit_and w (2 ^ k) == 0) ≡ (bit_at w k == 0)
bit_test w k =
    rw and-pow (scaled_test (bit_at w k) (2 ^ k) (bit_at-lt w k) (one-le-pow k 2 (omega arith)))

-- `w & ~((1 << k) - 1)` clears the low `k` bits.
pub and-high : (n k a : ℕ) → k ≤ n → a < 2 ^ n → bit_and a (2 ^ n - 1 - (2 ^ k - 1)) ≡ a - a % 2 ^ k
and-high n zero a le lt =
    let e : 2 ^ n - 1 - (2 ^ 0 - 1) ≡ 2 ^ n - 1 = omega arith in
    rw e (omega (arith, and-ones n a, mod-eq_of_lt {n = a} {m = 2 ^ n} lt))
and-high zero (suc k) a le lt = absurd (omega arith)
and-high (suc n) (suc k) a le lt =
    let w = 2 ^ suc n - 1 - (2 ^ suc k - 1) in
    let monotone : 2 ^ k ≤ 2 ^ n =
      pow-le-pow_right {n = 2} (omega arith) {i = k} {j = n} (omega arith) in
    let e : w / 2 ≡ 2 ^ n - 1 - (2 ^ k - 1) =
      omega (arith, pow-suc 2 n, pow-suc 2 k, one-le-pow n 2, one-le-pow k 2, monotone) in
    let even : w % 2 ≡ 0 =
      omega (arith, pow-suc 2 n, pow-suc 2 k, one-le-pow n 2, one-le-pow k 2, monotone) in
    omega (
      arith,
      and_step a w,
      ap (bit_and (a / 2)) e,
      even,
      and-high n k (a / 2) (omega arith) (omega (arith, pow-suc 2 n)),
      mod_pow_suc a k,
    )
