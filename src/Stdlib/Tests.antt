-- ===== src/Stdlib/Tests.antt =====
-- Numbers as text.
use au_os.Prelude.{ℕ, List, some, ◌≡◌, ◌≢◌, refl, [], ◌∷◌, arith, ◌^◌, ◌-◌}
use au_os.Ctype.{isspace, isdigit, toupper, tolower}
use au_os.Stdlib.{strtoul, ulltoa, lltoa, skip_space, parse_digits, skip_prefix}
use au_os.Stdlib.Numeral.{IsNumeral, ulltoa-IsNumeral}
use au_os.Stdlib.RoundTrip.{strtoul-ulltoa}

forty_two : ulltoa 42 10 ≡ some (0x34 ∷ 0x32 ∷ [])
unfolding ulltoa
forty_two = refl

minus_one : lltoa (2 ^ 64 - 1) 10 ≡ some (0x2d ∷ 0x31 ∷ [])
unfolding lltoa
minus_one = refl

-- The prefix "0X" is not skipped: the digit 0 is read, and what follows is taken for a digit.
upper_prefix : (strtoul (0x30 ∷ 0x58 ∷ 0x31 ∷ []) 16).0 ≡ 529
unfolding strtoul skip_space parse_digits skip_prefix isspace isdigit toupper tolower
upper_prefix = refl

-- A text that is no number is read to its end.
not_stopped : (strtoul (0x31 ∷ 0x20 ∷ []) 10).1 ≡ []
unfolding strtoul skip_space parse_digits skip_prefix isspace isdigit toupper tolower
not_stopped = refl

abbrev number : ℕ
number = 65535

strtoul-ulltoa_example :
    (s : List ℕ) × (ulltoa number 16 ≡ some s)
    × ((strtoul s 16).0 ≡ number)
    × (number ≢ 0 → (strtoul s 16).1 ≡ [])
strtoul-ulltoa_example = strtoul-ulltoa 16 (omega arith) (omega arith) number (omega arith)

ulltoa-IsNumeral_example : (s : List ℕ) × (ulltoa number 10 ≡ some s) × IsNumeral 10 s number
ulltoa-IsNumeral_example = ulltoa-IsNumeral 10 (omega arith) (omega arith) number (omega arith)
