-- ===== src/Ramfs/Names.antt =====
-- Names are compared byte by byte.
use au_os.Prelude.{
  ℕ, zero, suc, ◌<◌, ◌≡◌, refl, ap, true, List, [], ◌∷◌, arith, length, get_or, take,
}
use au_os.Text.{Order, below, same, above, str_compare}
use au_os.Text.Laws.{AreBytes, str_compare-SameBytes}
use au_os.Stdlib.Print.{list_ext}
use au_os.Ramfs.{Result, done, waits, fault, trim_filename, is_same, name_equals}

is_same-same : (o : Order) → is_same o ≡ true → o ≡ same
is_same-same same e = refl
is_same-same below e = absurd (ground arith)
is_same-same above e = absurd (ground arith)

-- `fentry_equals_filename` holds of equal names only.
pub name_equals-eq : (a b : List ℕ) → AreBytes a → AreBytes b → name_equals a b ≡ true → a ≡ b
unfolding name_equals
name_equals-eq a b bytes bytes' e =
    let len : length a ≡ length b = ground (arith, e) in
    let equal : str_compare a b (length b) ≡ same = is_same-same _ (ground (arith, e)) in
    let bs = (str_compare-SameBytes a b (length b) bytes bytes').0 equal in
    list_ext a b len (λ k lt. bs k (omega arith) (omega arith))

pub name_equals_refl : (a : List ℕ) → AreBytes a → name_equals a a ≡ true
unfolding name_equals
name_equals_refl a bytes =
    let e = (str_compare-SameBytes a a (length a) bytes bytes).1 (λ i le lt. refl) in
    rw e (ground arith)

get_or-take-lt : (n : ℕ) (xs : List ℕ) (i : ℕ) → AreBytes xs → get_or (take n xs) i 0 < 256
get_or-take-lt zero xs i h = omega arith
get_or-take-lt (suc n) [] i h = omega arith
get_or-take-lt (suc n) (x ∷ xs) zero h = h 0
get_or-take-lt (suc n) (x ∷ xs) (suc i) h = get_or-take-lt n xs i (λ j. h (suc j))

pub AreBytes-take : (n : ℕ) (xs : List ℕ) → AreBytes xs → AreBytes (take n xs)
AreBytes-take n xs h = λ i. get_or-take-lt n xs i h

-- The value of a result that is one.
abbrev pub value_or {ℓ} : {A : Type ℓ} → A → Result A → A
value_or d (done a) = a
value_or d waits = d
value_or d fault = d

pub trim_filename-AreBytes :
    (name fn : List ℕ) → AreBytes name → trim_filename name ≡ done fn → AreBytes fn
unfolding trim_filename
trim_filename-AreBytes [] fn bytes e = absurd (ground arith)
trim_filename-AreBytes (c ∷ cs) fn bytes e =
    rw (← ap (value_or []) e) (AreBytes-take _ (c ∷ cs) bytes)
