-- ===== src/Ctype/Classes.antt =====
-- The table against the ranges of ASCII.
use au_os.Prelude.{
  ℕ, zero, suc, ◌+◌, ◌-◌, ◌<◌, ◌≡◌, refl, Bool, true, false, not, ◌&&◌, ◌||◌, arith, leb, ◌==◌,
  if◌then◌else◌, ==_iff,
}
use au_os.Ctype.{isprint, isalpha, isdigit, isxdigit, isspace, islower, isupper, toupper, tolower}

-- Whether a test holds of all numbers below one.
abbrev pub all_below : ℕ → (ℕ → Bool) → Bool
all_below zero p = true
all_below (suc n) p = p n && all_below n p

pub all_below_sound : (n : ℕ) (p : ℕ → Bool) (x : ℕ) → all_below n p ≡ true → x < n → p x ≡ true
all_below_sound zero p x h lt = absurd (omega arith)
all_below_sound (suc n) p x h lt = ground (arith, all_below_sound n p x)

abbrev pub within : (lo hi c : ℕ) → Bool
within lo hi c = leb lo c && leb c hi

abbrev iff : Bool → Bool → Bool
iff true b = b
iff false b = not b

iff-eq : (a b : Bool) → iff a b ≡ true → a ≡ b
iff-eq true b h = ground arith
iff-eq false b h = ground arith

abbrev pub holds : ℕ → Bool
holds n = not (n == 0)

abbrev agree : (ℕ → ℕ) → (ℕ → Bool) → Bool
agree test range = all_below 256 (λ c. iff (holds (test c)) (range c))

module _ (test : ℕ → ℕ) (range : ℕ → Bool) where
  by_table : agree test range ≡ true → (c : ℕ) → c < 256 → holds (test c) ≡ range c
  by_table e c lt =
      iff-eq (holds (test c)) (range c)
        (all_below_sound 256 (λ x. iff (holds (test x)) (range x)) c e lt)

-- The classes of ASCII.
abbrev pub ascii_digit : ℕ → Bool
ascii_digit c = within 0x30 0x39 c

abbrev pub ascii_lower : ℕ → Bool
ascii_lower c = within 0x61 0x7a c

abbrev pub ascii_upper : ℕ → Bool
ascii_upper c = within 0x41 0x5a c

abbrev pub ascii_alpha : ℕ → Bool
ascii_alpha c = within 0x41 0x5a c || within 0x61 0x7a c

abbrev pub ascii_hex : ℕ → Bool
ascii_hex c = within 0x30 0x39 c || within 0x41 0x46 c || within 0x61 0x66 c

abbrev pub ascii_space : ℕ → Bool
ascii_space c = within 9 13 c || c == 0x20

abbrev pub ascii_printing : ℕ → Bool
ascii_printing c = within 0x20 0x7e c

digit_table : agree isdigit ascii_digit ≡ true
unfolding isdigit
digit_table = refl

lower_table : agree islower ascii_lower ≡ true
unfolding islower
lower_table = refl

upper_table : agree isupper ascii_upper ≡ true
unfolding isupper
upper_table = refl

alpha_table : agree isalpha ascii_alpha ≡ true
unfolding isalpha
alpha_table = refl

hex_table : agree isxdigit ascii_hex ≡ true
unfolding isxdigit
hex_table = refl

space_table : agree isspace ascii_space ≡ true
unfolding isspace
space_table = refl

printing_table : agree isprint ascii_printing ≡ true
unfolding isprint
printing_table = refl

-- On bytes, each test holds of just the characters of its class in ASCII.
pub classes :
    (c : ℕ)
    → c < 256
    → (holds (isdigit c) ≡ ascii_digit c)
      × (holds (islower c) ≡ ascii_lower c)
      × (holds (isupper c) ≡ ascii_upper c)
      × (holds (isalpha c) ≡ ascii_alpha c)
      × (holds (isxdigit c) ≡ ascii_hex c)
      × (holds (isspace c) ≡ ascii_space c)
      × (holds (isprint c) ≡ ascii_printing c)
classes c lt = (
  by_table isdigit ascii_digit digit_table c lt,
  by_table islower ascii_lower lower_table c lt,
  by_table isupper ascii_upper upper_table c lt,
  by_table isalpha ascii_alpha alpha_table c lt,
  by_table isxdigit ascii_hex hex_table c lt,
  by_table isspace ascii_space space_table c lt,
  by_table isprint ascii_printing printing_table c lt,
)

toupper_table :
    all_below 256 (λ c. toupper c == (if within 0x61 0x7a c then c - 0x20 else c)) ≡ true
unfolding toupper
toupper_table = refl

tolower_table :
    all_below 256 (λ c. tolower c == (if within 0x41 0x5a c then c + 0x20 else c)) ≡ true
unfolding tolower
tolower_table = refl

-- On bytes, the two conversions move letters between the ranges and leave the rest.
pub cases :
    (c : ℕ)
    → c < 256
    → (toupper c ≡ (if within 0x61 0x7a c then c - 0x20 else c))
      × (tolower c ≡ (if within 0x41 0x5a c then c + 0x20 else c))
cases c lt = (
  (==_iff (toupper c) (if within 0x61 0x7a c then c - 0x20 else c)).0 (
      all_below_sound 256 (λ x. toupper x == (if within 0x61 0x7a x then x - 0x20 else x)) c
        toupper_table lt),
  (==_iff (tolower c) (if within 0x41 0x5a c then c + 0x20 else c)).0 (
      all_below_sound 256 (λ x. tolower x == (if within 0x41 0x5a x then x + 0x20 else x)) c
        tolower_table lt),
)
