-- ===== src/Ctype.antt =====
-- ctype.c: the classes of characters, by a table of 256 bytes, and the two conversions of case. A
-- character is a number; negative ones count from 2 ^ 32 down, as an `int` does.
pub mod Classes
mod Tests
use Prim.Native.Nat.{bit_and, bit_or}
use au_os.Prelude.{ℕ, ◌+◌, ◌-◌, ◌%◌, ◌^◌, List, [], ◌∷◌, ◌==◌, if◌then◌else◌, get_or}
use au_os.Prelude.Words.{u32}

abbrev pub ctype_sp : ℕ
ctype_sp = 0x01

abbrev pub ctype_di : ℕ
ctype_di = 0x02

abbrev pub ctype_lo : ℕ
ctype_lo = 0x04

abbrev pub ctype_up : ℕ
ctype_up = 0x08

abbrev pub ctype_xd : ℕ
ctype_xd = 0x10

abbrev pub ctype_pu : ℕ
ctype_pu = 0x20

abbrev pub ctype_xs : ℕ
ctype_xs = 0x40

unfoldable pub ctype : List ℕ
ctype =
    0
    ∷ 0
    ∷ 0
    ∷ 0
    ∷ 0
    ∷ 0
    ∷ 0
    ∷ 0
    ∷ 0
    ∷ ctype_sp
    ∷ ctype_sp
    ∷ ctype_sp
    ∷ ctype_sp
    ∷ ctype_sp
    ∷ 0
    ∷ 0
    ∷ 0
    ∷ 0
    ∷ 0
    ∷ 0
    ∷ 0
    ∷ 0
    ∷ 0
    ∷ 0
    ∷ 0
    ∷ 0
    ∷ 0
    ∷ 0
    ∷ 0
    ∷ 0
    ∷ 0
    ∷ 0
    ∷ bit_or ctype_xs ctype_sp
    ∷ ctype_pu
    ∷ ctype_pu
    ∷ ctype_pu
    ∷ ctype_pu
    ∷ ctype_pu
    ∷ ctype_pu
    ∷ ctype_pu
    ∷ ctype_pu
    ∷ ctype_pu
    ∷ ctype_pu
    ∷ ctype_pu
    ∷ ctype_pu
    ∷ ctype_pu
    ∷ ctype_pu
    ∷ ctype_pu
    ∷ bit_or ctype_di ctype_xd
    ∷ bit_or ctype_di ctype_xd
    ∷ bit_or ctype_di ctype_xd
    ∷ bit_or ctype_di ctype_xd
    ∷ bit_or ctype_di ctype_xd
    ∷ bit_or ctype_di ctype_xd
    ∷ bit_or ctype_di ctype_xd
    ∷ bit_or ctype_di ctype_xd
    ∷ bit_or ctype_di ctype_xd
    ∷ bit_or ctype_di ctype_xd
    ∷ ctype_pu
    ∷ ctype_pu
    ∷ ctype_pu
    ∷ ctype_pu
    ∷ ctype_pu
    ∷ ctype_pu
    ∷ ctype_pu
    ∷ bit_or ctype_up ctype_xd
    ∷ bit_or ctype_up ctype_xd
    ∷ bit_or ctype_up ctype_xd
    ∷ bit_or ctype_up ctype_xd
    ∷ bit_or ctype_up ctype_xd
    ∷ bit_or ctype_up ctype_xd
    ∷ ctype_up
    ∷ ctype_up
    ∷ ctype_up
    ∷ ctype_up
    ∷ ctype_up
    ∷ ctype_up
    ∷ ctype_up
    ∷ ctype_up
    ∷ ctype_up
    ∷ ctype_up
    ∷ ctype_up
    ∷ ctype_up
    ∷ ctype_up
    ∷ ctype_up
    ∷ ctype_up
    ∷ ctype_up
    ∷ ctype_up
    ∷ ctype_up
    ∷ ctype_up
    ∷ ctype_up
    ∷ ctype_pu
    ∷ ctype_pu
    ∷ ctype_pu
    ∷ ctype_pu
    ∷ ctype_pu
    ∷ ctype_pu
    ∷ bit_or ctype_lo ctype_xd
    ∷ bit_or ctype_lo ctype_xd
    ∷ bit_or ctype_lo ctype_xd
    ∷ bit_or ctype_lo ctype_xd
    ∷ bit_or ctype_lo ctype_xd
    ∷ bit_or ctype_lo ctype_xd
    ∷ ctype_lo
    ∷ ctype_lo
    ∷ ctype_lo
    ∷ ctype_lo
    ∷ ctype_lo
    ∷ ctype_lo
    ∷ ctype_lo
    ∷ ctype_lo
    ∷ ctype_lo
    ∷ ctype_lo
    ∷ ctype_lo
    ∷ ctype_lo
    ∷ ctype_lo
    ∷ ctype_lo
    ∷ ctype_lo
    ∷ ctype_lo
    ∷ ctype_lo
    ∷ ctype_lo
    ∷ ctype_lo
    ∷ ctype_lo
    ∷ ctype_pu
    ∷ ctype_pu
    ∷ ctype_pu
    ∷ ctype_pu
    ∷ 0
    ∷ 0
    ∷ 0
    ∷ 0
    ∷ 0
    ∷ 0
    ∷ 0
    ∷ 0
    ∷ 0
    ∷ 0
    ∷ 0
    ∷ 0
    ∷ 0
    ∷ 0
    ∷ 0
    ∷ 0
    ∷ 0
    ∷ 0
    ∷ 0
    ∷ 0
    ∷ 0
    ∷ 0
    ∷ 0
    ∷ 0
    ∷ 0
    ∷ 0
    ∷ 0
    ∷ 0
    ∷ 0
    ∷ 0
    ∷ 0
    ∷ 0
    ∷ 0
    ∷ 0
    ∷ 0
    ∷ 0
    ∷ 0
    ∷ 0
    ∷ 0
    ∷ 0
    ∷ 0
    ∷ 0
    ∷ 0
    ∷ 0
    ∷ 0
    ∷ 0
    ∷ 0
    ∷ 0
    ∷ 0
    ∷ 0
    ∷ 0
    ∷ 0
    ∷ 0
    ∷ 0
    ∷ 0
    ∷ 0
    ∷ 0
    ∷ 0
    ∷ 0
    ∷ 0
    ∷ 0
    ∷ 0
    ∷ 0
    ∷ 0
    ∷ 0
    ∷ 0
    ∷ 0
    ∷ 0
    ∷ 0
    ∷ 0
    ∷ 0
    ∷ 0
    ∷ 0
    ∷ 0
    ∷ 0
    ∷ 0
    ∷ 0
    ∷ 0
    ∷ 0
    ∷ 0
    ∷ 0
    ∷ 0
    ∷ 0
    ∷ 0
    ∷ 0
    ∷ 0
    ∷ 0
    ∷ 0
    ∷ 0
    ∷ 0
    ∷ 0
    ∷ 0
    ∷ 0
    ∷ 0
    ∷ 0
    ∷ 0
    ∷ 0
    ∷ 0
    ∷ 0
    ∷ 0
    ∷ 0
    ∷ 0
    ∷ 0
    ∷ 0
    ∷ 0
    ∷ 0
    ∷ 0
    ∷ 0
    ∷ 0
    ∷ 0
    ∷ 0
    ∷ 0
    ∷ 0
    ∷ 0
    ∷ 0
    ∷ 0
    ∷ 0
    ∷ 0
    ∷ 0
    ∷ 0
    ∷ 0
    ∷ 0
    ∷ 0
    ∷ 0
    ∷ 0
    ∷ 0
    ∷ 0
    ∷ 0
    ∷ 0
    ∷ []

-- A test gives the bits that it finds: 0 is false.
unfoldable pub is_class : (mask c : ℕ) → ℕ
unfolding ctype
is_class mask c = bit_and (get_or ctype (c % 256) 0) mask

unfoldable pub isprint : ℕ → ℕ
unfolding is_class
isprint c =
    is_class (bit_or ctype_lo (bit_or ctype_up (bit_or ctype_di (bit_or ctype_pu ctype_xs)))) c

unfoldable pub isalpha : ℕ → ℕ
unfolding is_class
isalpha c = is_class (bit_or ctype_lo ctype_up) c

unfoldable pub isdigit : ℕ → ℕ
unfolding is_class
isdigit c = is_class ctype_di c

unfoldable pub isxdigit : ℕ → ℕ
unfolding is_class
isxdigit c = is_class ctype_xd c

unfoldable pub isspace : ℕ → ℕ
unfolding is_class
isspace c = is_class ctype_sp c

unfoldable pub islower : ℕ → ℕ
unfolding is_class
islower c = is_class ctype_lo c

unfoldable pub isupper : ℕ → ℕ
unfolding is_class
isupper c = is_class ctype_up c

unfoldable pub toupper : ℕ → ℕ
unfolding islower
toupper c = if islower c == 0 then c else u32 (c + 2 ^ 32 - 0x20)

unfoldable pub tolower : ℕ → ℕ
unfolding isupper
tolower c = if isupper c == 0 then c else u32 (c + 0x20)
