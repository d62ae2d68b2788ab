-- ===== src/Ctype/Tests.antt =====
-- The classes of one letter.
use au_os.Prelude.{◌≡◌, arith}
use au_os.Ctype.{isprint, isalpha, isdigit, isxdigit, isspace, islower, isupper}
use au_os.Ctype.Classes.{
  holds, ascii_digit, ascii_lower, ascii_upper, ascii_alpha, ascii_hex, ascii_space, ascii_printing,
  classes,
}

classes_example :
    (holds (isdigit 0x41) ≡ ascii_digit 0x41)
    × (holds (islower 0x41) ≡ ascii_lower 0x41)
    × (holds (isupper 0x41) ≡ ascii_upper 0x41)
    × (holds (isalpha 0x41) ≡ ascii_alpha 0x41)
    × (holds (isxdigit 0x41) ≡ ascii_hex 0x41)
    × (holds (isspace 0x41) ≡ ascii_space 0x41)
    × (holds (isprint 0x41) ≡ ascii_printing 0x41)
classes_example = classes 0x41 (omega arith)
