-- ===== src/Printf.antt =====
-- print.c: formatted output. A string is the list of its bytes. What a call prints goes to a sink,
-- a function that takes the state of the output, the number of bytes written so far and the bytes,
-- and gives none where it fails.
pub mod Pieces
pub mod Buffer
mod Tests
use Prim.Native.Nat.{bit_and, bit_or}
use au_os.Prelude.{
  ℕ, zero, suc, ◌+◌, ◌-◌, ◌%◌, ◌^◌, Bool, true, false, not, ◌&&◌, ◌||◌, Option, none, some, List,
  [], ◌∷◌, ◌++◌, ltb, leb, ◌==◌, if◌then◌else◌, length, set, take, drop, min,
}
use au_os.Prelude.Words.{u64, u32}
use au_os.Ctype.{isdigit}
use au_os.Stdlib.{char_at, next, ulltoa, lltoa}

-- `enum format_type`
pub data FormatType : Type 0 where
  fmt_invalid : FormatType
  fmt_none : FormatType
  fmt_str : FormatType
  fmt_char : FormatType
  fmt_int : FormatType
  fmt_percent : FormatType

-- `enum fromat_spec`
abbrev pub fmt_sshort : ℕ
fmt_sshort = 2 ^ 8

abbrev pub fmt_short : ℕ
fmt_short = 2 ^ 9

abbrev pub fmt_long : ℕ
fmt_long = 2 ^ 10

abbrev pub fmt_llong : ℕ
fmt_llong = 2 ^ 11

abbrev pub fmt_unsigned : ℕ
fmt_unsigned = 2 ^ 12

abbrev pub fmt_hex : ℕ
fmt_hex = 2 ^ 13

abbrev pub fmt_oct : ℕ
fmt_oct = 2 ^ 14

-- What a format begins with, and what is left of it.
pub record Format : Type 0 where
  pub type_of : FormatType
  pub spec : ℕ
  pub rest : List ℕ

abbrev pub format : FormatType → ℕ → List ℕ → Format
format t s fmt = record { type_of = t; spec = s; rest = fmt }

-- The flag after the `%`.
unfoldable pub skip_flag : List ℕ → List ℕ
skip_flag fmt =
    let c = char_at fmt in
    if c == 0x2d || (c == 0x2b || (c == 0x20 || (c == 0x23 || c == 0x30))) then next fmt else fmt

unfoldable pub skip_digits : List ℕ → List ℕ
skip_digits [] = []
skip_digits (c ∷ cs) = let rest = skip_digits cs in if isdigit c == 0 then c ∷ cs else rest

unfoldable pub skip_precision : List ℕ → List ℕ
unfolding skip_digits
skip_precision fmt = if char_at fmt == 0x2e then skip_digits (next fmt) else fmt

-- The length of the argument.
unfoldable pub decode_length : List ℕ → ℕ × List ℕ
decode_length fmt =
    if char_at fmt == 0x6c
    then if char_at (next fmt) == 0x6c then (fmt_llong, next (next fmt)) else (fmt_long, next fmt)
    else if char_at fmt == 0x68
    then if char_at (next fmt) == 0x68 then (fmt_sshort, next (next fmt)) else (fmt_short, next fmt)
    else (0, fmt)

-- The last switch, whose first cases fall through to the next.
unfoldable pub decode_conversion : (c spec : ℕ) → (fmt : List ℕ) → Format
decode_conversion c spec fmt =
    let wide = if c == 0x70 then bit_or spec fmt_long else spec in
    let based = bit_or wide (if c == 0x6f then fmt_oct else fmt_hex) in
    if c == 0x70 || (c == 0x78 || (c == 0x58 || c == 0x6f))
    then format fmt_int (bit_or based fmt_unsigned) fmt
    else if c == 0x75
    then format fmt_int (bit_or spec fmt_unsigned) fmt
    else if c == 0x64 || c == 0x69
    then format fmt_int spec fmt
    else if c == 0x73
    then format fmt_str spec fmt
    else if c == 0x63
    then format fmt_char spec fmt
    else if c == 0x25
    then format fmt_percent spec fmt
    else format fmt_invalid spec fmt

-- What follows a `%`.
unfoldable pub decode_directive : List ℕ → Format
unfolding skip_flag skip_digits skip_precision decode_length decode_conversion
decode_directive fmt =
    let (spec, rest) = decode_length (skip_precision (skip_digits (skip_flag fmt))) in
    decode_conversion (char_at rest) spec (next rest)

abbrev pub is_invalid : FormatType → Bool
is_invalid fmt_invalid = true
is_invalid fmt_none = false
is_invalid fmt_str = false
is_invalid fmt_char = false
is_invalid fmt_int = false
is_invalid fmt_percent = false

-- The loop of `decode_format`; `type` is what it has found so far.
unfoldable pub decode_from : (type : FormatType) → List ℕ → Format
unfolding decode_directive
decode_from type [] = format type 0 []
decode_from type (c ∷ cs) =
    let rest = decode_from fmt_none cs in
    if c == 0x25
    then if is_invalid type then decode_directive cs else format type 0 (c ∷ cs)
    else rest

unfoldable pub decode_format : List ℕ → Format
unfolding decode_from
decode_format fmt = decode_from fmt_invalid fmt

-- An argument of a call: a word of the machine, or a pointer to a string.
pub data Arg : Type 0 where
  word : ℕ → Arg
  text : List ℕ → Arg

abbrev pub is_set : (spec flag : ℕ) → Bool
is_set spec flag = not (bit_and spec flag == 0)

-- `print_number` up to its call of `print`: the digits of an argument.
unfoldable pub number_text : (spec w : ℕ) → Option (List ℕ)
unfolding ulltoa lltoa
number_text spec w =
    let base = if is_set spec fmt_hex then 16 else if is_set spec fmt_oct then 8 else 10 in
    let wide = is_set spec fmt_long || is_set spec fmt_llong in
    let int = u32 w in
    if is_set spec fmt_unsigned
    then ulltoa (if wide then u64 w else u32 w) base
    else lltoa (if wide then u64 w else if ltb int (2 ^ 31) then int else int + (2 ^ 64 - 2 ^ 32))
        base

-- What a directive prints: the text and the arguments left, or none where `__vprintf` fails; an
-- argument that is missing or of another kind is not the program's memory.
pub data Piece : Type 0 where
  prints : List ℕ → List Arg → Piece
  invalid : Piece
  strays : Piece

unfoldable pub string_piece : List Arg → Piece
string_piece [] = strays
string_piece (word w ∷ args) = strays
string_piece (text s ∷ args) = prints s args

unfoldable pub char_piece : List Arg → Piece
char_piece [] = strays
char_piece (word w ∷ args) = prints (w % 256 ∷ []) args
char_piece (text s ∷ args) = strays

unfoldable pub number_piece : (spec : ℕ) → List Arg → Piece
unfolding number_text
number_piece spec [] = strays
number_piece spec (word w ∷ args) = elim (number_text spec w) [
  | none ↦ strays
  | some digits ↦ prints digits args
]
number_piece spec (text s ∷ args) = strays

-- The switch of `__vprintf`; `start` is the text that the format begins with.
unfoldable pub piece : FormatType → (spec : ℕ) → (start : List ℕ) → List Arg → Piece
unfolding string_piece char_piece number_piece
piece fmt_invalid spec start args = invalid
piece fmt_none spec start args = prints start args
piece fmt_str spec start args = string_piece args
piece fmt_char spec start args = char_piece args
piece fmt_int spec start args = number_piece spec args
piece fmt_percent spec start args = prints (0x25 ∷ []) args

-- What a call of `__vprintf` comes to: the state of the output and the number of bytes, or the state
-- at a failure, or what C leaves undefined: an access of memory that is not the program's, or an `int`
-- that overflows.
pub data Outcome {ℓ} (S : Type ℓ) : Type ℓ where
  printed : S → ℕ → Outcome S
  failed : S → Outcome S
  strayed : Outcome S

-- Whether the sink has failed.
abbrev pub after_out {ℓ} : {S : Type ℓ} → S → (S → Outcome S) → Option S → Outcome S
after_out s continue none = failed s
after_out s continue (some s') = continue s'

-- `print`: the call of the sink, and the count, an `int`, beyond which C leaves the outcome open. What
-- comes next is a function of the state, the count and the arguments left.
unfoldable pub print_piece {ℓ} :
    {S : Type ℓ}
    → (S → ℕ → List ℕ → Option S)
    → (S → ℕ → List Arg → Outcome S)
    → S
    → (written : ℕ) → Piece
    → Outcome S
print_piece out continue s written invalid = failed s
print_piece out continue s written strays = strayed
print_piece out continue s written (prints buf args) =
    if ltb (written + length buf) (2 ^ 31)
    then after_out s (λ s'. continue s' (written + length buf) args) (out s written buf)
    else strayed

-- The text that a format begins with, up to what is left of it.
abbrev pub start_of : (fmt rest : List ℕ) → List ℕ
start_of fmt rest = take (length fmt - length rest) fmt

-- The loop of `__vprintf`. A round takes a character of the format at least, so its length is fuel
-- enough.
unfoldable pub vprintf_loop {ℓ} :
    {S : Type ℓ}
    → ℕ
    → (S → ℕ → List ℕ → Option S)
    → S
    → (written : ℕ) → (fmt : List ℕ) → List Arg
    → Outcome S
unfolding print_piece piece decode_format
vprintf_loop zero out s written fmt args = printed s written
vprintf_loop (suc fuel) out s written [] args = printed s written
vprintf_loop (suc fuel) out s written (c ∷ cs) args =
    let f = decode_format (c ∷ cs) in
    print_piece out (λ s' written' args'. vprintf_loop fuel out s' written' f.rest args') s written
      (piece f.type_of f.spec (start_of (c ∷ cs) f.rest) args)

-- `__vprintf`
unfoldable pub vprintf_with {ℓ} :
    {S : Type ℓ} → (S → ℕ → List ℕ → Option S) → S → (fmt : List ℕ) → List Arg → Outcome S
unfolding vprintf_loop
vprintf_with out s fmt args = vprintf_loop (length fmt) out s 0 fmt args

-- `serial_out`: what the serial port has been given.
unfoldable pub serial_out : List ℕ → ℕ → List ℕ → Option (List ℕ)
serial_out sent written buf = some (sent ++ buf)

-- `vprintf`, and `printf` with its arguments.
unfoldable pub vprintf : (sent : List ℕ) → (fmt : List ℕ) → List Arg → Outcome (List ℕ)
unfolding vprintf_with serial_out
vprintf sent fmt args = vprintf_with serial_out sent fmt args

-- `memcpy` to a place in a buffer.
unfoldable pub store_at : (buf : List ℕ) → (i : ℕ) → List ℕ → List ℕ
store_at buf i bytes = take i buf ++ bytes ++ drop (i + length bytes) buf

-- `str_out` to a buffer of `size` bytes, an `int` by its 32 bits: below 0 nothing is stored.
unfoldable pub str_out : (size : ℕ) → List ℕ → ℕ → List ℕ → Option (List ℕ)
unfolding store_at
str_out size dst written buf =
    let remain = if ltb (length buf) (size - written) then length buf else size - written in
    if leb (2 ^ 31) size || ltb size written
    then some dst
    else some (store_at dst written (take remain buf))

-- The 0 that `vsnprintf` puts at the end: before the buffer where nothing is printed, or where the
-- size, an `int` by its 32 bits, is 0 or below.
unfoldable pub terminate : (size : ℕ) → Outcome (List ℕ) → Outcome (List ℕ)
terminate size (failed dst) = failed dst
terminate size strayed = strayed
terminate size (printed dst rc) =
    if ltb size (2 ^ 31) && ltb rc size
    then if rc == 0 then strayed else printed (set dst (rc - 1) 0) rc
    else if leb (2 ^ 31) size || size == 0
    then strayed
    else printed (set dst (size - 1) 0) rc

-- `vsnprintf`, and `snprintf` with its arguments, to a buffer of `length dst` bytes; the size
-- becomes an `int`.
unfoldable pub vsnprintf : (dst : List ℕ) → (fmt : List ℕ) → List Arg → Outcome (List ℕ)
unfolding vprintf_with str_out terminate
vsnprintf dst fmt args =
    let size = u32 (length dst) in terminate size (vprintf_with (str_out size) dst fmt args)
