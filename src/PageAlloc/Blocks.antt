-- ===== src/PageAlloc/Blocks.antt =====
-- Blocks of frames: alignment, buddies, and counting by a weight over all blocks of a zone.
use Prim.Native.Nat.{bit_xor}
use native.Mathlib.Nat.{pow-suc, one-le-pow, lt_of_mul-lt-mul_right, mul-le-mul_right, mul-mod_left}
use au_os.Prelude.{
  ℕ, zero, suc, ◌+◌, ◌-◌, ◌*◌, ◌/◌, ◌%◌, ◌^◌, ◌≤◌, ◌<◌, ◌≡◌, ◌≢◌, refl, ap, ◌⊎◌, inl, inr, true,
  List, [], ◌∷◌, ◌++◌, arith, leb, ◌==◌, Bool-cases,
}
use au_os.Prelude.Bits.{xor_buddy, buddy_no}
use au_os.LinkedList.Chain.{has}
use au_os.PageAlloc.{update, remove}

abbrev pub IsAligned : ℕ → ℕ → Type 0
IsAligned k x = (q : ℕ) × (x ≡ q * 2 ^ k)

pub aligned-mod : (k x : ℕ) → IsAligned k x → x % 2 ^ k ≡ 0
aligned-mod k x (q, e) = rw e (mul-mod_left q (2 ^ k))

pub two_pow_suc : (q k : ℕ) → q * 2 ^ suc k ≡ q * 2 ^ k + q * 2 ^ k
two_pow_suc q k = omega (arith, ap (λ (t : ℕ). q * t) (pow-suc 2 k))

pub two_pow_add : (d k : ℕ) → 2 ^ (d + k) ≡ 2 ^ d * 2 ^ k
two_pow_add zero k = let e : zero + k ≡ k = omega arith in rw e (omega arith)
two_pow_add (suc d) k =
    let e : suc d + k ≡ suc (d + k) = omega arith in
    rw e (grind (arith, two_pow_add d k, pow-suc 2 (d + k), pow-suc 2 d))

-- `b` is the buddy of the aligned block `page`: its neighbour in an aligned pair.
pub data IsBuddy (k page b : ℕ) : Type 0 where
  upper : b ≡ page + 2 ^ k → IsAligned (suc k) page → IsBuddy k page b
  lower : page ≡ b + 2 ^ k → IsAligned (suc k) b → IsBuddy k page b

pub xor-IsBuddy : (k page : ℕ) → IsAligned k page → IsBuddy k page (bit_xor page (2 ^ k))
unfolding buddy_no
xor-IsBuddy k page (q, e) = rw e (elim (Bool-cases (q % 2 == 0)) [
  | inl even ↦
      let n : buddy_no q ≡ 2 * (q / 2) + 1 = ground arith in
      let h : q ≡ 2 * (q / 2) = ground arith in
      rw xor_buddy (
        upper (omega (arith, times n, times h))
          (q / 2, omega (arith, times h, two_pow_suc (q / 2) k)))
  | inr odd ↦
      let n : buddy_no q ≡ 2 * (q / 2) = ground arith in
      let h : q ≡ 2 * (q / 2) + 1 = ground arith in
      rw xor_buddy (
        lower (omega (arith, times n, times h))
          (q / 2, omega (arith, times n, two_pow_suc (q / 2) k)))
])
  where
    times : {x y : ℕ} → x ≡ y → x * 2 ^ k ≡ y * 2 ^ k
    times h = ap (λ (t : ℕ). t * 2 ^ k) h

-- The upper half of an aligned block is the buddy of its lower half.
pub xor_upper : (k page : ℕ) → IsAligned (suc k) page → bit_xor page (2 ^ k) ≡ page + 2 ^ k
unfolding buddy_no
xor_upper k page (q, e) =
    let two : page ≡ 2 * q * 2 ^ k = omega (arith, e, two_pow_suc q k) in
    let n : buddy_no (2 * q) ≡ 2 * q + 1 = ground arith in
    rw two (rw xor_buddy (omega (arith, ap (λ (t : ℕ). t * 2 ^ k) n)))

pub half-IsAligned :
    (k page : ℕ) → IsAligned (suc k) page → IsAligned k page × IsAligned k (page + 2 ^ k)
half-IsAligned k page (q, e) =
    ((2 * q, omega (arith, e, two_pow_suc q k)), (2 * q + 1, omega (arith, e, two_pow_suc q k)))

-- Products of a power of two, compared by their factors.
factor_lt : (x y p : ℕ) → x * p < y * p → x < y
factor_lt x y p h = lt_of_mul-lt-mul_right p h

factor_le : (x y p : ℕ) → x ≤ y → x * p ≤ y * p
factor_le x y p h = mul-le-mul_right p h

-- An aligned block that strictly holds the first frame `b` of a half of an aligned pair holds the
-- whole pair.
module _ (k q m b j r : ℕ) (half : b ≡ m * 2 ^ k) (lo : q * 2 ^ suc k ≤ b)
    (hi : b < q * 2 ^ suc k + 2 ^ suc k) (inside_lo : r * 2 ^ j < b)
    (inside_hi : b < r * 2 ^ j + 2 ^ j) where
  -- The block is no smaller than the half.
  not_small : (d : ℕ) → d + j ≡ k → ⊥
  not_small d e =
      let two : 2 ^ k ≡ 2 ^ d * 2 ^ j = rw (← e) (two_pow_add d j) in
      let b_eq : b ≡ m * 2 ^ d * 2 ^ j = grind arith in
      let below : r < m * 2 ^ d = factor_lt r (m * 2 ^ d) (2 ^ j) (omega arith) in
      let above : m * 2 ^ d < r + 1 = factor_lt (m * 2 ^ d) (r + 1) (2 ^ j) (omega arith) in
      omega arith

  wide :
      (d : ℕ)
      → d + suc k ≡ j
      → (r * 2 ^ j ≤ q * 2 ^ suc k) × (q * 2 ^ suc k + 2 ^ suc k ≤ r * 2 ^ j + 2 ^ j)
  wide d e =
      let two : 2 ^ j ≡ 2 ^ d * 2 ^ suc k = rw (← e) (two_pow_add d (suc k)) in
      let start : r * 2 ^ j ≡ r * 2 ^ d * 2 ^ suc k = grind arith in
      let above : q < r * 2 ^ d + 2 ^ d =
        factor_lt q (r * 2 ^ d + 2 ^ d) (2 ^ suc k) (omega arith) in
      let below : r * 2 ^ d < q + 1 = factor_lt (r * 2 ^ d) (q + 1) (2 ^ suc k) (omega arith) in
      let end = factor_le (q + 1) (r * 2 ^ d + 2 ^ d) (2 ^ suc k) (omega arith) in
      let begin = factor_le (r * 2 ^ d) q (2 ^ suc k) (omega arith) in omega arith

  pair_inside : (r * 2 ^ j ≤ q * 2 ^ suc k) × (q * 2 ^ suc k + 2 ^ suc k ≤ r * 2 ^ j + 2 ^ j)
  pair_inside = elim (Bool-cases (leb j k)) [
    | inl small ↦ absurd (not_small (k - j) (ground arith))
    | inr large ↦ wide (j - suc k) (ground arith)
  ]

-- Where two aligned blocks are buddies, a block that holds the first frame of the one strictly
-- inside holds the first frame of the other.
pub inside_buddy :
    {k page b : ℕ} (j c : ℕ)
    → IsBuddy k page b
    → IsAligned j c
    → c < b
    → b < c + 2 ^ j
    → (c ≤ page) × (page < c + 2 ^ j)
inside_buddy {k} {page} {b} j c (upper e (q, al)) (r, e') lo hi =
    let pair =
      pair_inside k q (2 * q + 1) b j r (omega (arith, two_pow_suc q k)) (omega arith)
        (omega (arith, two_pow_suc q k, pow-suc 2 k, one-le-pow k 2)) (omega arith) (omega arith) in
    omega (arith, pair, one-le-pow (suc k) 2)
inside_buddy {k} {page} {b} j c (lower e (q, al)) (r, e') lo hi =
    let pair =
      pair_inside k q (2 * q) b j r (omega (arith, two_pow_suc q k)) (omega arith)
        (omega (arith, one-le-pow (suc k) 2)) (omega arith) (omega arith) in
    omega (arith, pair, pow-suc 2 k, one-le-pow k 2)

-- What the free lists of the orders below `n` and the blocks of a list weigh.
module _ (w : ℕ → ℕ → ℕ) where
  abbrev pub weigh_list : ℕ → List ℕ → ℕ
  weigh_list k [] = 0
  weigh_list k (b ∷ bs) = w k b + weigh_list k bs

  unfoldable pub weigh_free : ℕ → (ℕ → List ℕ) → ℕ
  weigh_free zero o = 0
  weigh_free (suc n) o = weigh_list n (o n) + weigh_free n o

  abbrev pub weigh_taken : List (ℕ × ℕ) → ℕ
  weigh_taken [] = 0
  weigh_taken ((k, b) ∷ bs) = w k b + weigh_taken bs

  weigh_free-above :
      (n k : ℕ) (o : ℕ → List ℕ) (v : List ℕ) → n ≤ k → weigh_free n (update o k v) ≡ weigh_free n o
  unfolding update weigh_free
  weigh_free-above zero k o v le = refl
  weigh_free-above (suc n) k o v le = ground (arith, weigh_free-above n k o v)

  pub weigh_free-update :
      (n k : ℕ) (o : ℕ → List ℕ) (v : List ℕ)
      → k < n
      → weigh_free n (update o k v) + weigh_list k (o k) ≡ weigh_free n o + weigh_list k v
  unfolding update weigh_free
  weigh_free-update zero k o v lt = absurd (omega arith)
  weigh_free-update (suc n) k o v lt = elim (Bool-cases (n == k)) [
    | inl same ↦ ground (arith, weigh_free-above n k o v)
    | inr other ↦ ground (arith, weigh_free-update n k o v)
  ]

  pub weigh_list-remove :
      (k b : ℕ) (bs : List ℕ)
      → has b bs ≡ true
      → weigh_list k (remove b bs) + w k b ≡ weigh_list k bs
  unfolding remove
  weigh_list-remove k b [] h = absurd (cc)
  weigh_list-remove k b (x ∷ bs) h = ground (arith, weigh_list-remove k b bs)

  pub le-weigh_list : (k b : ℕ) (bs : List ℕ) → has b bs ≡ true → w k b ≤ weigh_list k bs
  le-weigh_list k b [] h = absurd (cc)
  le-weigh_list k b (x ∷ bs) h = ground (arith, le-weigh_list k b bs)

  pub le-weigh_free :
      (n k b : ℕ) (o : ℕ → List ℕ) → k < n → has b (o k) ≡ true → w k b ≤ weigh_free n o
  unfolding weigh_free
  le-weigh_free zero k b o lt h = absurd (omega arith)
  le-weigh_free (suc n) k b o lt h = ground (arith, le-weigh_free n k b o, le-weigh_list k b (o k))

-- A weight that is smaller on the blocks that are there weighs less.
module _ (w v : ℕ → ℕ → ℕ) where
  weigh_list_mono :
      (k : ℕ) (bs : List ℕ)
      → ((b : ℕ) → has b bs ≡ true → w k b ≤ v k b)
      → weigh_list w k bs ≤ weigh_list v k bs
  weigh_list_mono k [] h = omega arith
  weigh_list_mono k (b ∷ bs) h =
      let first : w k b ≤ v k b = h b (ground arith) in
      let rest = weigh_list_mono k bs (λ a i. h a (ground arith)) in omega arith

  pub weigh_free_mono :
      (n : ℕ) (o : ℕ → List ℕ)
      → ((k b : ℕ) → k < n → has b (o k) ≡ true → w k b ≤ v k b)
      → weigh_free w n o ≤ weigh_free v n o
  unfolding weigh_free
  weigh_free_mono zero o h = omega arith
  weigh_free_mono (suc n) o h =
      let first = weigh_list_mono n (o n) (λ b i. h n b (omega arith) i) in
      let rest = weigh_free_mono n o (λ k b lt i. h k b (omega arith) i) in omega arith

-- Membership after a removal.
pub has-remove : (x b : ℕ) (bs : List ℕ) → has x (remove b bs) ≡ true → has x bs ≡ true
unfolding remove
has-remove x b [] h = h
has-remove x b (c ∷ bs) h = ground (arith, has-remove x b bs)

pub has-remove_ne : (x b : ℕ) (bs : List ℕ) → x ≢ b → has x bs ≡ true → has x (remove b bs) ≡ true
unfolding remove
has-remove_ne x b [] ne h = h
has-remove_ne x b (c ∷ bs) ne h = ground (arith, has-remove_ne x b bs)

-- `new` is the list `old` with one more entry.
pub record Adds (k b : ℕ) (old new : List ℕ) : Type 0 where
  pub weight : (w : ℕ → ℕ → ℕ) → weigh_list w k new ≡ w k b + weigh_list w k old
  pub here : has b new ≡ true
  pub keeps : (c : ℕ) → has c old ≡ true → has c new ≡ true
  pub only : (c : ℕ) → has c new ≡ true → (c ≡ b) ⊎ (has c old ≡ true)

pub cons-Adds : (k b : ℕ) (old : List ℕ) → Adds k b old (b ∷ old)
cons-Adds k b old = record {
  weight = λ w. refl;
  here = ground arith;
  keeps = λ c h. ground arith;
  only = λ c h. ground arith;
}

pub append-Adds : (k b : ℕ) (old : List ℕ) → Adds k b old (old ++ b ∷ [])
append-Adds k b [] = cons-Adds k b []
append-Adds k b (x ∷ old) =
    let ih = append-Adds k b old in
    record {
      weight = λ w. omega (arith, ih.weight w);
      here = ground (arith, ih.here);
      keeps = λ c h. ground (arith, ih.keeps c);
      only = λ c h. ground (arith, ih.only c);
    }
