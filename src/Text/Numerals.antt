-- ===== src/Text/Numerals.antt =====
-- initramfs.c and string.c: numbers from digits, `cpiotoi` and `atoi`.
use native.Mathlib.Nat.{
  pow-le-pow_right, pow-zero, pow-suc, one-le-pow, mod-eq_of_lt, mul-le-mul_left, mul-add,
  mul_assoc, mul_comm,
}
use mathlib.Core.Path.{subst}
use au_os.Prelude.{ℕ, zero, suc, ◌+◌, ◌*◌, ◌^◌, ◌<◌, ◌≤◌, ◌≡◌, ap, sym, ◌∙◌, List, arith, get_or}
use au_os.Prelude.Words.{u32}
use au_os.Text.Laws.{char_to_digit-digit_to_char}
use au_os.Text.{sum_digits, atoi_digit, atoi, cpiotoi, extend, char_to_digit, digit_to_char}

-- The number that the first digits stand for.
unfoldable pub value : (base : ℕ) → (ds : ℕ → ℕ) → ℕ → ℕ
value base ds zero = 0
value base ds (suc n) = base * value base ds n + ds n

module _ (digit : ℕ → ℕ) (base : ℕ) (two : 2 ≤ base) where
  no_wrap : (n : ℕ) → n < 2 ^ 32 → u32 n ≡ n
  unfolding u32
  no_wrap n lt = mod-eq_of_lt lt

  -- A digit fits above what is there.
  fits : (res mul d : ℕ) → res < mul → d < base → res + mul * d < mul * base
  fits res mul d lt low =
      let e : d + 1 ≤ base = omega arith in
      let h = mul-le-mul_left mul e in let h' = mul-add mul d 1 in omega arith

  two_le_pow : (n : ℕ) → 2 ≤ base ^ suc n
  two_le_pow n =
      let some = one-le-pow n base (omega (arith, two)) in
      let h = mul-le-mul_left base some in
      omega (arith, h, pow-suc base n, mul_comm (base ^ n) base, two)

  pub sum_digits-value :
      (left : ℕ) (buf : List ℕ) (ds : ℕ → ℕ) (res mul : ℕ)
      → ((i : ℕ) → i < left → (ds i < base) × (digit (get_or buf i 0) ≡ ds i))
      → res < mul
      → mul * base ^ left ≤ 2 ^ 32
      → sum_digits digit base left buf res mul ≡ res + mul * value base ds left
  unfolding sum_digits value
  sum_digits-value zero buf ds res mul reads lt room = omega arith
  sum_digits-value (suc zero) buf ds res mul reads lt room =
      let (low, e) = reads 0 (omega arith) in
      let h = fits res mul (ds 0) lt low in
      let p : base ^ 1 ≡ base = pow-suc base 0 ∙ ap (λ z. z * base) (pow-zero base) ∙ omega arith in
      let room' : mul * base ≤ 2 ^ 32 = subst (λ z. mul * z ≤ 2 ^ 32) p room in
      ap (λ z. u32 (res + mul * z)) e ∙ no_wrap (res + mul * ds 0) (omega arith) ∙ omega arith
  sum_digits-value (suc (suc left)) buf ds res mul reads lt room =
      let (low, e) = reads (suc left) (omega arith) in
      let d = ds (suc left) in
      let h = fits res mul d lt low in
      let v = value base ds (suc left) in
      let some : 2 ≤ base ^ suc left = two_le_pow left in
      let p : base ^ suc (suc left) ≡ base * base ^ suc left =
        pow-suc base (suc left) ∙ mul_comm (base ^ suc left) base in
      let room' : mul * base * base ^ suc left ≤ 2 ^ 32 =
        subst (λ z. z ≤ 2 ^ 32) (ap (λ z. mul * z) p ∙ sym (mul_assoc mul base (base ^ suc left)))
          room in
      let twice = mul-le-mul_left (mul * base) some in
      let small : mul * base < 2 ^ 32 = omega (arith, twice, room') in
      let ih =
        sum_digits-value (suc left) buf ds (res + mul * d) (mul * base)
          (λ i lt'. reads i (omega arith)) h room' in
      ap (λ z. sum_digits digit base (suc left) buf (u32 (res + mul * z)) (u32 (mul * base))) e
      ∙ ap (λ z. sum_digits digit base (suc left) buf z (u32 (mul * base)))
          (no_wrap (res + mul * d) (omega arith))
      ∙ ap (λ z. sum_digits digit base (suc left) buf (res + mul * d) z)
          (no_wrap (mul * base) small)
      ∙ ih
      ∙ omega (arith, mul-add mul (base * v) d, mul_assoc mul base v)

hex_digit : (d c : ℕ) → d < 16 → c ≡ digit_to_char d → extend (char_to_digit c) ≡ d
hex_digit d c lt e =
    let e' = ap char_to_digit e ∙ char_to_digit-digit_to_char d lt in
    ap extend e' ∙ small d (omega arith)
  where
    small : (d : ℕ) → d < 128 → extend d ≡ d
    small d lt = ground arith

-- `cpiotoi` of at most 8 characters, each `digit_to_char` of a digit below 16, is the number that the
-- digits stand for in base 16, the first one the highest.
pub cpiotoi-value :
    (buf : List ℕ) (ds : ℕ → ℕ) (size : ℕ)
    → size ≤ 8
    → ((i : ℕ) → i < size → (ds i < 16) × (get_or buf i 0 ≡ digit_to_char (ds i)))
    → cpiotoi buf size ≡ value 16 ds size
unfolding cpiotoi
cpiotoi-value buf ds size le reads =
    let some : 0 < 16 = omega arith in
    let room : 1 * 16 ^ size ≤ 2 ^ 32 = omega (arith, pow-le-pow_right some le) in
    sum_digits-value (λ c. extend (char_to_digit c)) 16 (omega arith) size buf ds 0 1
      (λ i lt. let (low, e) = reads i lt in (low, hex_digit (ds i) (get_or buf i 0) low e))
      (omega arith) room
    ∙ omega arith

-- `atoi` in base 10 of at most 9 decimal digits is the number that they stand for.
pub atoi-value :
    (buf : List ℕ) (ds : ℕ → ℕ) (size : ℕ)
    → size ≤ 9
    → ((i : ℕ) → i < size → (ds i < 10) × (get_or buf i 0 ≡ ds i + 0x30))
    → atoi buf size 10 ≡ value 10 ds size
unfolding atoi
atoi-value buf ds size le reads =
    let some : 0 < 10 = omega arith in
    let room : 1 * 10 ^ size ≤ 2 ^ 32 = omega (arith, pow-le-pow_right some le) in
    sum_digits-value (atoi_digit 10) 10 (omega arith) size buf ds 0 1
      (λ i lt. let (low, e) = reads i lt in (low, ap (atoi_digit 10) e ∙ decimal_digit (ds i) low))
      (omega arith) room
    ∙ omega arith
  where
    decimal_digit : (d : ℕ) → d < 10 → atoi_digit 10 (d + 0x30) ≡ d
    decimal_digit d lt = unfold atoi_digit in unfold u32 in omega arith
