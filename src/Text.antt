-- ===== src/Text.antt =====
-- string.c, and pad4 and cpiotoi of initramfs.c: comparison of byte strings, digits, numbers, and
-- padding.
pub mod Laws
pub mod Numerals
mod Tests
use au_os.Prelude.{
  ℕ, zero, suc, ◌+◌, ◌-◌, ◌%◌, ◌^◌, Bool, ◌&&◌, ◌*◌, List, [], ◌∷◌, Option, none, some, ltb, leb,
  ◌==◌, if◌then◌else◌, get_or,
}
use mathlib.Core.Option.{map}
use au_os.Prelude.Words.{u32}

-- The results of `str_compare`: -1, 0 and 1.
pub data Order : Type 0 where
  below : Order
  same : Order
  above : Order

-- A `char` is signed: its order is that of the byte with its top bit turned.
abbrev pub signed : ℕ → ℕ
signed c = (c + 128) % 256

-- The loop of `str_compare`, with `left` bytes to go from `i` on.
unfoldable pub compare_from : (left : ℕ) → (a b : List ℕ) → (i : ℕ) → Order
compare_from zero a b i = same
compare_from (suc left) a b i =
    let rest = compare_from left a b (i + 1) in
    if ltb (signed (get_or a i 0)) (signed (get_or b i 0))
    then below
    else if ltb (signed (get_or b i 0)) (signed (get_or a i 0))
    then above
    else rest

unfoldable pub str_compare : (a b : List ℕ) → (size : ℕ) → Order
unfolding compare_from
str_compare a b size = compare_from size a b 0

unfoldable pub digit_to_char : ℕ → ℕ
digit_to_char digit = if ltb digit 10 then digit + 0x30 else 0x41 + (digit - 10)

-- For ASCII characters; the result is a `char`.
unfoldable pub char_to_digit : ℕ → ℕ
char_to_digit c =
    if leb c 0x39 && leb 0x30 c
    then c - 0x30
    else if leb 0x41 c && leb c 0x46
    then 10 + (c - 0x41)
    else (10 + c + (256 - 0x61)) % 256

-- `while (size % 4) size++;` on 32 bits; 4 rounds are enough.
unfoldable pub pad4_loop : ℕ → ℕ → ℕ
pad4_loop zero size = size
pad4_loop (suc fuel) size =
    let rest = pad4_loop fuel (u32 (size + 1)) in if size % 4 == 0 then size else rest

unfoldable pub pad4 : ℕ → ℕ
unfolding pad4_loop
pad4 size = pad4_loop 4 size

-- The length up to the 0 byte; `none` where the array has none.
abbrev pub strlen : List ℕ → Option ℕ
strlen [] = none
strlen (c ∷ cs) = let rest = strlen cs in if c == 0 then some 0 else map suc rest

-- `fill` is stored as a byte; `none` beyond the array.
unfoldable pub memset : List ℕ → (fill size : ℕ) → Option (List ℕ)
memset to fill zero = some to
memset [] fill (suc size) = none
memset (c ∷ cs) fill (suc size) = map (λ rest. fill % 256 ∷ rest) (memset cs fill size)

-- The loop of `atoi` and `cpiotoi`, on 32 bits. With `left` rounds to go, it reads the byte at
-- `size - i - 1`, which is `left - 1`.
unfoldable pub sum_digits : (digit : ℕ → ℕ) → (base left : ℕ) → List ℕ → (res mul : ℕ) → ℕ
sum_digits digit base zero buf res mul = res
sum_digits digit base (suc left) buf res mul =
    sum_digits digit base left buf (u32 (res + mul * digit (get_or buf left 0))) (u32 (mul * base))

-- `|c - x|` for characters, which are ASCII.
abbrev pub distance : (c x : ℕ) → ℕ
distance c x = if ltb c x then x - c else c - x

-- The digit that `atoi` takes: `c - '0'` on 32 bits, and the distance from the letters above base 10.
unfoldable pub atoi_digit : (base c : ℕ) → ℕ
atoi_digit base c =
    if ltb 10 base
    then if ltb (distance c 0x41) (distance c 0x61) then distance c 0x41 else distance c 0x61
    else u32 (c + 2 ^ 32 - 0x30)

unfoldable pub atoi : (buf : List ℕ) → (size base : ℕ) → ℕ
unfolding sum_digits atoi_digit
atoi buf size base = sum_digits (atoi_digit base) base size buf 0 1

-- A `char` as a number of 32 bits.
abbrev pub extend : ℕ → ℕ
extend c = if ltb c 128 then c else c + (2 ^ 32 - 256)

unfoldable pub cpiotoi : (buf : List ℕ) → (size : ℕ) → ℕ
unfolding sum_digits char_to_digit
cpiotoi buf size = sum_digits (λ c. extend (char_to_digit c)) 16 size buf 0 1
