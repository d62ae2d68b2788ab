-- ===== src/Stdlib.antt =====
-- stdlib.c: numbers and text. A string is the list of its bytes up to the one that is 0; a pointer
-- into a string is what is left of it.
pub mod Print
pub mod RoundTrip
pub mod Numeral
mod Tests
use au_os.Prelude.{
  Option, none, some, ℕ, zero, suc, ◌+◌, ◌-◌, ◌*◌, ◌/◌, ◌%◌, ◌^◌, Bool, true, false, not, ◌&&◌,
  ◌||◌, List, [], ◌∷◌, ◌++◌, ltb, leb, ◌==◌, if◌then◌else◌, length, get_or, set,
}
use au_os.Prelude.Words.{u32, u64}
use au_os.Ctype.{isspace, isdigit, toupper, tolower}

-- `*ptr`, and `++ptr` where that is not the end.
abbrev pub char_at : List ℕ → ℕ
char_at [] = 0
char_at (c ∷ cs) = c

abbrev pub next : List ℕ → List ℕ
next [] = []
next (c ∷ cs) = cs

unfoldable pub skip_space : List ℕ → List ℕ
skip_space [] = []
skip_space (c ∷ cs) = let rest = skip_space cs in if isspace c == 0 then c ∷ cs else rest

-- A `char` as an `unsigned long`: it is signed.
abbrev pub extend : ℕ → ℕ
extend c = if ltb c 128 then c else c + (2 ^ 64 - 256)

-- `const int digit` as the unsigned arithmetic behind it reads it. A character that is no digit
-- and no letter gives a number all the same.
unfoldable pub digit_of : ℕ → ℕ
digit_of c =
    let up = toupper c in
    if isdigit up == 0
    then u64 (extend up + (2 ^ 64 - 0x41 + 10))
    else u64 (extend up + (2 ^ 64 - 0x30))

-- ULONG_MAX
abbrev pub ulong_max : ℕ
ulong_max = 2 ^ 64 - 1

pub record Parsed : Type 0 where
  pub ret : ℕ
  pub ptr : List ℕ
  pub consumed : Bool

-- The loop of `strtoul` over digits.
unfoldable pub parse_digits : (base : ℕ) → List ℕ → (ret : ℕ) → (consumed : Bool) → Parsed
unfolding digit_of
parse_digits base [] ret consumed = record { ret = ret; ptr = []; consumed = consumed }
parse_digits base (c ∷ cs) ret consumed =
    let digit = digit_of c in
    let rest = parse_digits base cs (u64 (ret * base + digit)) true in
    if ltb (u64 (ulong_max + 2 ^ 64 - digit) / base) ret
    then record { ret = ulong_max; ptr = c ∷ cs; consumed = consumed }
    else rest

-- The base and where the digits begin, for base 0.
unfoldable pub guess_base : List ℕ → ℕ × List ℕ
guess_base ptr =
    if char_at ptr == 0x30
    then if tolower (char_at (next ptr)) == 0x78 then (16, next (next ptr)) else (8, next ptr)
    else (10, ptr)

-- The prefix of a base that is given: the parentheses of `tolower(*(ptr + 1) == 'x')` make it a
-- conversion of the test's result.
unfoldable pub skip_prefix : (base : ℕ) → List ℕ → List ℕ
skip_prefix base ptr =
    let ptr' = if base == 8 && char_at ptr == 0x30 then next ptr else ptr in
    if base == 16
      && char_at ptr' == 0x30
      && not (tolower (if char_at (next ptr') == 0x78 then 1 else 0) == 0)
    then next (next ptr')
    else ptr'

-- `strtoul`: the number, and what `*endptr` is set to.
unfoldable pub strtoul : (str : List ℕ) → (base : ℕ) → ℕ × List ℕ
unfolding skip_space parse_digits guess_base skip_prefix
strtoul str base =
    let ptr = skip_space str in
    let negate = char_at ptr == 0x2d in
    let ptr' = if negate || char_at ptr == 0x2b then next ptr else ptr in
    let (base', digits) = if base == 0 then guess_base ptr' else (base, skip_prefix base ptr') in
    let r = parse_digits base' digits 0 false in
    (if negate then u64 (2 ^ 64 - r.ret) else r.ret, if r.consumed then r.ptr else str)

-- `digits` of `ulltoa`, at an index below 36.
unfoldable pub digit_char : ℕ → ℕ
digit_char r = if ltb r 10 then 0x30 + r else 0x61 + (r - 10)

-- The digits as they are written, the last one first, in a base from 2 to 36; 64 rounds are enough.
unfoldable pub write_digits : ℕ → (value base : ℕ) → List ℕ
unfolding digit_char
write_digits zero value base = []
write_digits (suc fuel) value base =
    let rest = write_digits fuel (value / base) base in
    digit_char (value % base) ∷ (if value / base == 0 then [] else rest)

-- The loop that turns the digits round, with `start` and `ptr` as indices. A round brings them
-- nearer by two.
unfoldable pub swap_ends : ℕ → List ℕ → (start ptr : ℕ) → List ℕ
swap_ends zero buf start ptr = buf
swap_ends (suc fuel) buf start ptr =
    let rest =
      swap_ends fuel (set (set buf ptr (get_or buf start 0)) start (get_or buf ptr 0)) (start + 1)
        (ptr - 1) in
    if ltb start ptr then rest else buf

unfoldable pub write_number : (value base : ℕ) → List ℕ
unfolding write_digits swap_ends
write_number value base =
    let buf = write_digits 64 value base in swap_ends (length buf) buf 0 (length buf - 1)

-- `ulltoa` of a 64-bit number. `none` is a base that the code is not for: it divides by 0 in base 0,
-- does not end in base 1, and above 36 has no characters for all the digits.
unfoldable pub ulltoa : (value base : ℕ) → Option (List ℕ)
unfolding write_number
ulltoa value base = if leb 2 base && leb base 36 then some (write_number value base) else none

-- `lltoa`: a `long long` by its 64 bits. The negation is done on those, so the least number stays.
unfoldable pub lltoa : (value base : ℕ) → Option (List ℕ)
unfolding ulltoa
lltoa value base =
    if ltb value (2 ^ 63)
    then ulltoa value base
    else elim (ulltoa (u64 (2 ^ 64 - value)) base) [ none ↦ none | some s ↦ some (0x2d ∷ s) ]

unfoldable pub ultoa : (value base : ℕ) → Option (List ℕ)
unfolding ulltoa
ultoa value base = ulltoa value base

unfoldable pub ltoa : (value base : ℕ) → Option (List ℕ)
unfolding lltoa
ltoa value base = lltoa value base

unfoldable pub utoa : (value base : ℕ) → Option (List ℕ)
unfolding ulltoa
utoa value base = ulltoa (u32 value) base

-- An `int` by its 32 bits.
unfoldable pub itoa : (value base : ℕ) → Option (List ℕ)
unfolding lltoa
itoa value base = lltoa (if ltb value (2 ^ 31) then value else value + (2 ^ 64 - 2 ^ 32)) base
