-- ===== src/Stdlib/Print.antt =====
-- The loops of `ulltoa` against the plain recursion that writes the first digit first.
use au_os.Prelude.{
  some, true, ◌≤◌, ℕ, zero, suc, ◌+◌, ◌-◌, ◌*◌, ◌/◌, ◌%◌, ◌<◌, ◌≡◌, refl, ap, sym, ◌∙◌, inl, inr,
  ◌&&◌, List, [], ◌∷◌, ◌++◌, arith, ltb, leb, ◌==◌, if◌then◌else◌, Bool-cases, length, get_or, set,
  length-append, length-set, get_or-set_self, get_or-set_ne,
}
use au_os.Stdlib.{digit_char, write_digits, swap_ends, write_number, ulltoa}

abbrev pub rev : List ℕ → List ℕ
rev [] = []
rev (x ∷ xs) = rev xs ++ x ∷ []

length-rev : (xs : List ℕ) → length (rev xs) ≡ length xs
length-rev [] = refl
length-rev (x ∷ xs) = omega (arith, length-append (rev xs) (x ∷ []), length-rev xs)

get_or-append :
    (xs ys : List ℕ) (k : ℕ)
    → get_or (xs ++ ys) k 0
      ≡ (if ltb k (length xs) then get_or xs k 0 else get_or ys (k - length xs) 0)
get_or-append [] ys k = let e : k - 0 ≡ k = omega arith in rw e (ground arith)
get_or-append (x ∷ xs) ys zero = ground arith
get_or-append (x ∷ xs) ys (suc k) =
    let e : suc k - suc (length xs) ≡ k - length xs = omega arith in
    rw e (ground (arith, get_or-append xs ys k))

get_or-rev :
    (xs : List ℕ) (k : ℕ) → k < length xs → get_or (rev xs) k 0 ≡ get_or xs (length xs - 1 - k) 0
get_or-rev [] k lt = absurd (omega arith)
get_or-rev (x ∷ xs) k lt = elim (Bool-cases (ltb k (length xs))) [
  | inl inside ↦
      let e : suc (length xs) - 1 - k ≡ suc (length xs - 1 - k) = ground arith in
      rw e (ground (arith, get_or-append (rev xs) (x ∷ []) k, length-rev xs, get_or-rev xs k))
  | inr last ↦
      let e : suc (length xs) - 1 - k ≡ 0 = ground arith in
      let e' : k - length (rev xs) ≡ 0 = ground (arith, length-rev xs) in
      rw (e, get_or-append (rev xs) (x ∷ []) k, e') (ground (arith, length-rev xs))
]

-- Lists of one length with the same items are the same.
pub list_ext :
    (xs ys : List ℕ)
    → length xs ≡ length ys
    → ((k : ℕ) → k < length xs → get_or xs k 0 ≡ get_or ys k 0)
    → xs ≡ ys
list_ext [] [] e h = refl
list_ext [] (y ∷ ys) e h = absurd (omega arith)
list_ext (x ∷ xs) [] e h = absurd (omega arith)
list_ext (x ∷ xs) (y ∷ ys) e h =
    let tail = list_ext xs ys (omega arith) (λ k lt. h (suc k) (omega arith)) in
    rw (h 0 (omega arith), tail) refl

get_or-set :
    (xs : List ℕ) (i v k : ℕ)
    → i < length xs
    → get_or (set xs i v) k 0 ≡ (if k == i then v else get_or xs k 0)
get_or-set xs i v k lt = elim (Bool-cases (k == i)) [
  | inl same ↦ let e : k ≡ i = ground arith in rw (same, e) (get_or-set_self xs i v 0 lt)
  | inr other ↦ rw other (get_or-set_ne xs i k v 0 (λ e. ground arith))
]

-- What the loop has done by its end: the items from `i` to `j` are turned round.
swap_ends_lem :
    (fuel : ℕ) (buf : List ℕ) (i j k : ℕ)
    → j < length buf
    → j < 2 * fuel + i
    → get_or (swap_ends fuel buf i j) k 0
      ≡ (if leb i k && leb k j then get_or buf (i + j - k) 0 else get_or buf k 0)
unfolding swap_ends
swap_ends_lem zero buf i j k lt enough = ground arith
swap_ends_lem (suc fuel) buf i j k lt enough = elim (Bool-cases (ltb i j)) [
  | inl on ↦
      let one = set buf j (get_or buf i 0) in
      let two = set one i (get_or buf j 0) in
      let len : length two ≡ length buf =
        length-set one i (get_or buf j 0) ∙ length-set buf j (get_or buf i 0) in
      let ih = swap_ends_lem fuel two (i + 1) (j - 1) k (ground (arith, len)) (ground arith) in
      let at = λ (n : ℕ).
        get_or-set one i (get_or buf j 0) n (ground (arith, length-set buf j (get_or buf i 0)))
        ∙ ap (λ v. if n == i then get_or buf j 0 else v) (get_or-set buf j (get_or buf i 0) n lt) in
      let sum : i + 1 + (j - 1) ≡ i + j = ground arith in
      rw on (ih ∙ rw sum (ground (arith, at k, at (i + j - k))))
  | inr off ↦ rw off (ground arith)
]

length-swap_ends :
    (fuel : ℕ) (buf : List ℕ) (i j : ℕ) → length (swap_ends fuel buf i j) ≡ length buf
unfolding swap_ends
length-swap_ends zero buf i j = refl
length-swap_ends (suc fuel) buf i j = elim (Bool-cases (ltb i j)) [
  | inl on ↦ rw on (
      length-swap_ends fuel _ (i + 1) (j - 1)
      ∙ length-set (set buf j (get_or buf i 0)) i (get_or buf j 0)
      ∙ length-set buf j (get_or buf i 0))
  | inr off ↦ rw off refl
]

swap_ends-rev : (buf : List ℕ) → swap_ends (length buf) buf 0 (length buf - 1) ≡ rev buf
unfolding swap_ends
swap_ends-rev [] = refl
swap_ends-rev (x ∷ xs) =
    let buf = x ∷ xs in
    let n = length buf in
    let len = length-swap_ends n buf 0 (n - 1) in
    list_ext _ _ (len ∙ sym (length-rev buf)) (λ k lt.
      let inside : k < n = omega (arith, len) in
      let e : 0 + (n - 1) - k ≡ n - 1 - k = omega arith in
      swap_ends_lem n buf 0 (n - 1) k (omega arith) (omega arith)
      ∙ rw e (ground (arith, get_or-rev buf k inside)))

-- The first digit first, by recursion.
unfoldable pub print_digits : ℕ → (value base : ℕ) → List ℕ
print_digits zero value base = []
print_digits (suc fuel) value base =
    let front = print_digits fuel (value / base) base in
    (if value / base == 0 then [] else front) ++ digit_char (value % base) ∷ []

rev-write_digits :
    (fuel value base : ℕ) → rev (write_digits fuel value base) ≡ print_digits fuel value base
unfolding write_digits print_digits
rev-write_digits zero value base = refl
rev-write_digits (suc fuel) value base = elim (Bool-cases (value / base == 0)) [
  | inl last ↦ rw last refl
  | inr more ↦
      rw more (
        ap (λ xs. xs ++ digit_char (value % base) ∷ []) (rev-write_digits fuel (value / base) base))
]

-- `ulltoa` writes the digits backwards and then turns them round: the recursion that writes the first
-- digit first gives the same, in a base from 2 to 36.
write_number-print_digits : (value base : ℕ) → write_number value base ≡ print_digits 64 value base
unfolding write_number
write_number-print_digits value base =
    swap_ends-rev (write_digits 64 value base) ∙ rev-write_digits 64 value base

pub ulltoa-print_digits :
    (value base : ℕ) → 2 ≤ base → base ≤ 36 → ulltoa value base ≡ some (print_digits 64 value base)
unfolding ulltoa
ulltoa-print_digits value base two most =
    let fits : (leb 2 base && leb base 36) ≡ true = ground arith in
    rw fits (ap some (write_number-print_digits value base))
