-- ===== src/PageAlloc/Flags.antt =====
-- The fields of `page->flags` do not disturb each other: order, free bit, user bits.
use native.Mathlib.Nat.{one-le-pow}
use Prim.Native.Nat.{bit_and, bit_or}
use mathlib.Core.Path.{sym, ◌∙◌}
use au_os.Prelude.{
  ℕ, ◌+◌, ◌-◌, ◌*◌, ◌^◌, ◌%◌, ◌<◌, ◌≡◌, true, false, arith, ltb, ◌==◌, if◌then◌else◌, Bool-cases,
  inl, inr,
}
use au_os.Prelude.Words.{complement}
use au_os.Prelude.Bits.{
  two_pow_lt, bit_at, bit_at-lt, bit_at-or, bit_at-and, bit_at-pow, bit_at-complement, bit_at-ones,
  bit_at-high, bit_at-mod, and-pow, and-ones, eq_of_bits,
}
use au_os.PageAlloc.{
  page_free_mask, page_order_mask, page_order, page_is_free, page_set_busy, page_set_bit,
  page_clear_bit, page_test_bit, page_user_offs, mark_free,
}

mul_pos_of : (b p : ℕ) → b < 2 → b * p ≡ (if b == 0 then 0 else p)
mul_pos_of b p lt = grind arith

page_order-mod : (f : ℕ) → page_order f ≡ f % 256
unfolding page_order
page_order-mod f = and-ones 8 f

page_is_free-bit : (f : ℕ) → page_is_free f ≡ (bit_at f 8 == 1)
unfolding page_is_free
page_is_free-bit f = ground (arith, and-pow 8 f, bit_at-lt f 8)

page_test_bit-bit : (f i : ℕ) → page_test_bit f i ≡ (bit_at f (i + page_user_offs) == 1)
unfolding page_test_bit
page_test_bit-bit f i = ground (
  arith,
  and-pow (i + page_user_offs) f,
  bit_at-lt f (i + page_user_offs),
  one-le-pow (i + page_user_offs) 2,
  mul_pos_of (bit_at f (i + page_user_offs)) (2 ^ (i + page_user_offs)),
)

-- The bits of the word that each operation leaves.
not_mask : (n m i : ℕ) → m < 2 ^ n → i < n → bit_at (complement n m) i ≡ 1 - bit_at m i
not_mask n m i h lt = bit_at-complement n m i h lt

order_mask_bits : (i : ℕ) → bit_at page_order_mask i ≡ (if ltb i 8 then 1 else 0)
order_mask_bits i = elim (Bool-cases (ltb i 8)) [
  | inl lt ↦ rw lt (bit_at-ones 8 i (ground arith))
  | inr ge ↦ rw ge (bit_at-high 8 page_order_mask i (omega arith) (ground arith))
]

mark_free_bits :
    (f o i : ℕ)
    → o < 256
    → i < 64
    → bit_at (mark_free f o) i ≡ (if ltb i 8 then bit_at o i else if i == 8 then 1 else bit_at f i)
unfolding mark_free
mark_free_bits f o i small lt = ground (
  arith,
  bit_at-or (bit_or (bit_and f (complement 64 page_order_mask)) o) page_free_mask i,
  bit_at-or (bit_and f (complement 64 page_order_mask)) o i,
  bit_at-and f (complement 64 page_order_mask) i,
  not_mask 64 page_order_mask i,
  order_mask_bits i,
  bit_at-pow 8 i,
  bit_at-high 8 o i,
  bit_at-lt f i,
  bit_at-lt o i,
)

-- The low eight bits are the order.
order_of_bits : (f g : ℕ) → g < 256 → ((i : ℕ) → i < 8 → bit_at f i ≡ bit_at g i) → page_order f ≡ g
order_of_bits f g lt same =
    page_order-mod f
    ∙ eq_of_bits 8 (f % 256) g (omega arith) lt (λ i h. bit_at-mod 8 f i h ∙ same i h)

order_of_same_bits :
    (f g : ℕ) → ((i : ℕ) → i < 8 → bit_at f i ≡ bit_at g i) → page_order f ≡ page_order g
order_of_same_bits f g same = simp page_order-mod (
    eq_of_bits 8 (f % 256) (g % 256) (omega arith) (omega arith)
      (λ i h. bit_at-mod 8 f i h ∙ same i h ∙ sym (bit_at-mod 8 g i h)))

-- After a block is marked free with an order of at most 255, its first frame reads as free and of
-- that order, and each of the 48 user bits reads as before.
pub mark_free_reads :
    (f o : ℕ)
    → o < 256
    → (page_order (mark_free f o) ≡ o)
      × (page_is_free (mark_free f o) ≡ true)
      × ((bit : ℕ) → bit < 48 → page_test_bit (mark_free f o) bit ≡ page_test_bit f bit)
mark_free_reads f o lt = (
  order_of_bits (mark_free f o) o lt (λ i h. ground (arith, mark_free_bits f o i)),
  ground (arith, page_is_free-bit (mark_free f o), mark_free_bits f o 8),
  λ bit h. ground (
    arith,
    page_test_bit-bit (mark_free f o) bit,
    page_test_bit-bit f bit,
    mark_free_bits f o (bit + page_user_offs),
  ),
)

busy_bits : (f i : ℕ) → i < 64 → bit_at (page_set_busy f) i ≡ (if i == 8 then 0 else bit_at f i)
unfolding page_set_busy
busy_bits f i lt = ground (
  arith,
  bit_at-and f (complement 64 page_free_mask) i,
  not_mask 64 page_free_mask i,
  bit_at-pow 8 i,
  bit_at-lt f i,
)

-- A frame that is marked busy does not read as free, and its order and each of the 48 user bits
-- read as before.
pub page_set_busy_reads :
    (f : ℕ)
    → (page_is_free (page_set_busy f) ≡ false)
      × (page_order (page_set_busy f) ≡ page_order f)
      × ((bit : ℕ) → bit < 48 → page_test_bit (page_set_busy f) bit ≡ page_test_bit f bit)
page_set_busy_reads f = (
  ground (arith, page_is_free-bit (page_set_busy f), busy_bits f 8),
  order_of_same_bits (page_set_busy f) f (λ i h. ground (arith, busy_bits f i)),
  λ bit h. ground (
    arith,
    page_test_bit-bit (page_set_busy f) bit,
    page_test_bit-bit f bit,
    busy_bits f (bit + page_user_offs),
  ),
)

set_bits :
    (f bit i : ℕ)
    → bit_at (page_set_bit f bit) i ≡ (if bit + page_user_offs == i then 1 else bit_at f i)
unfolding page_set_bit
set_bits f bit i = ground (
  arith,
  bit_at-or f (2 ^ (bit + page_user_offs)) i,
  bit_at-pow (bit + page_user_offs) i,
  bit_at-lt f i,
)

clear_bits :
    (f bit i : ℕ)
    → bit < 48
    → i < 64
    → bit_at (page_clear_bit f bit) i ≡ (if bit + page_user_offs == i then 0 else bit_at f i)
unfolding page_clear_bit
clear_bits f bit i small lt =
    let m = 2 ^ (bit + page_user_offs) in
    ground (
      arith,
      bit_at-and f (complement 64 m) i,
      not_mask 64 m i (two_pow_lt (bit + page_user_offs) 64 (omega arith)) lt,
      bit_at-pow (bit + page_user_offs) i,
      bit_at-lt f i,
    )

-- Setting or clearing a user bit below 48 changes what that bit reads, and leaves every other user
-- bit, the order and the free bit as they are.
pub user_bit_reads :
    (f bit other : ℕ)
    → bit < 48
    → other < 48
    → (page_test_bit (page_set_bit f bit) other
        ≡ (if bit == other then true else page_test_bit f other))
      × (page_test_bit (page_clear_bit f bit) other
          ≡ (if bit == other then false else page_test_bit f other))
      × (page_order (page_set_bit f bit) ≡ page_order f)
      × (page_order (page_clear_bit f bit) ≡ page_order f)
      × (page_is_free (page_set_bit f bit) ≡ page_is_free f)
      × (page_is_free (page_clear_bit f bit) ≡ page_is_free f)
user_bit_reads f bit other lt lt' = (
  ground (
    arith,
    page_test_bit-bit (page_set_bit f bit) other,
    page_test_bit-bit f other,
    set_bits f bit (other + page_user_offs),
  ),
  ground (
    arith,
    page_test_bit-bit (page_clear_bit f bit) other,
    page_test_bit-bit f other,
    clear_bits f bit (other + page_user_offs),
  ),
  order_of_same_bits (page_set_bit f bit) f (λ i h. ground (arith, set_bits f bit i)),
  order_of_same_bits (page_clear_bit f bit) f (λ i h. ground (arith, clear_bits f bit i)),
  ground (arith, page_is_free-bit (page_set_bit f bit), page_is_free-bit f, set_bits f bit 8),
  ground (arith, page_is_free-bit (page_clear_bit f bit), page_is_free-bit f, clear_bits f bit 8),
)
