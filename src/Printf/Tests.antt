-- ===== src/Printf/Tests.antt =====
-- Formats and buffers.
use au_os.Prelude.{ℕ, ◌≡◌, refl, List, [], ◌∷◌, arith, set}
use au_os.Ctype.{isdigit}
use au_os.Stdlib.{ulltoa}
use au_os.Printf.{
  printed, failed, strayed, word, vprintf_loop, vprintf_with, serial_out, vprintf, vsnprintf,
}
use au_os.Prelude.{length}
use au_os.Printf.Pieces.{vprintf_loop-fuel}
use au_os.Printf.Buffer.{filled, vsnprintf-vprintf}

-- "n=%x"
abbrev number_format : List ℕ
number_format = 0x6e ∷ 0x3d ∷ 0x25 ∷ 0x78 ∷ []

-- "n=ff"
abbrev number_printed : List ℕ
number_printed = 0x6e ∷ 0x3d ∷ 0x66 ∷ 0x66 ∷ []

abbrev count : ℕ
count = 4

abbrev blank : List ℕ
blank = 1 ∷ 1 ∷ 1 ∷ 1 ∷ 1 ∷ 1 ∷ []

prints_hex : vprintf [] number_format (word 255 ∷ []) ≡ printed number_printed 4
unfolding vprintf isdigit ulltoa
prints_hex = refl

-- The last byte of the text is overwritten although there is room for it.
last_lost :
    vsnprintf blank number_format (word 255 ∷ []) ≡ printed (0x6e ∷ 0x3d ∷ 0x66 ∷ 0 ∷ 1 ∷ 1 ∷ []) 4
unfolding vsnprintf isdigit ulltoa
last_lost = refl

-- An empty text: the byte before the buffer is set.
empty_strays : vsnprintf blank [] [] ≡ strayed
unfolding vsnprintf
empty_strays = refl

-- "%q"
unknown_fails : vprintf [] (0x25 ∷ 0x71 ∷ []) [] ≡ failed []
unfolding vprintf isdigit
unknown_fails = refl

vsnprintf-vprintf_example :
    (count ≡ length number_printed)
    × (vsnprintf blank number_format (word 255 ∷ [])
        ≡ printed (set (filled blank number_printed) 3 0) count)
vsnprintf-vprintf_example =
    vsnprintf-vprintf blank number_format number_printed (word 255 ∷ []) count prints_hex
      (omega arith) (omega arith) (omega arith)

vprintf_loop-fuel_example :
    vprintf_loop 100 serial_out [] 0 number_format (word 255 ∷ [])
    ≡ vprintf_with serial_out [] number_format (word 255 ∷ [])
vprintf_loop-fuel_example =
    vprintf_loop-fuel serial_out 100 [] number_format (word 255 ∷ []) (omega arith)
