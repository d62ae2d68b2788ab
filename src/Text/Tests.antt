-- ===== src/Text/Tests.antt =====
-- Runs on short strings.
use au_os.Prelude.{
  refl, ◌<◌, ◌==◌, if◌then◌else◌, get_or, some, ℕ, zero, suc, ◌≡◌, ◌↔◌, List, [], ◌∷◌, arith,
}
use au_os.Prelude.Words.{u32}
use au_os.Text.Numerals.{value, cpiotoi-value}
use au_os.Text.{
  digit_to_char, char_to_digit, cpiotoi, atoi, sum_digits, atoi_digit, strlen, memset, same,
  str_compare,
}
use au_os.Text.Laws.{SameBytes, AreBytes, str_compare-SameBytes}

abbrev magic : List ℕ
magic = 0x30 ∷ 0x37 ∷ []

magic-AreBytes : AreBytes magic
magic-AreBytes zero = omega arith
magic-AreBytes (suc zero) = omega arith
magic-AreBytes (suc (suc i)) = omega arith

str_compare-SameBytes_example : str_compare magic magic 2 ≡ same ↔ SameBytes magic magic 0 2
str_compare-SameBytes_example = str_compare-SameBytes magic magic 2 magic-AreBytes magic-AreBytes

-- "1F", with its digits.
abbrev hex_text : List ℕ
hex_text = 0x31 ∷ 0x46 ∷ []

abbrev hex_digits : ℕ → ℕ
hex_digits i = if i == 0 then 1 else 15

hex_text_reads :
    (i : ℕ) → i < 2 → (hex_digits i < 16) × (get_or hex_text i 0 ≡ digit_to_char (hex_digits i))
unfolding digit_to_char
hex_text_reads zero lt = (omega arith, refl)
hex_text_reads (suc zero) lt = (omega arith, refl)
hex_text_reads (suc (suc i)) lt = absurd (omega arith)

cpiotoi-value_example : cpiotoi hex_text 2 ≡ value 16 hex_digits 2
cpiotoi-value_example = cpiotoi-value hex_text hex_digits 2 (omega arith) hex_text_reads

thirty_one : cpiotoi hex_text 2 ≡ 31
unfolding cpiotoi sum_digits char_to_digit u32
thirty_one = refl

-- `atoi` reads the letter A as 0.
letter_lost : atoi (0x41 ∷ []) 1 16 ≡ 0
unfolding atoi sum_digits atoi_digit u32
letter_lost = refl

length_of_text : strlen (0x31 ∷ 0x46 ∷ 0 ∷ []) ≡ some 2
length_of_text = refl

cleared : memset (1 ∷ 2 ∷ 3 ∷ []) 0 2 ≡ some (0 ∷ 0 ∷ 3 ∷ [])
unfolding memset
cleared = refl
