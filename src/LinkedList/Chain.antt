-- ===== src/LinkedList/Chain.antt =====
-- What a circular list in the store stands for: the list of its entries.
use au_os.Prelude.{ℕ, ◌≡◌, refl, ◌≢◌, Bool, true, false, ◌||◌, List, [], ◌∷◌, ◌++◌, arith, ◌==◌}
use au_os.LinkedList.{Store}

abbrev pub has : ℕ → List ℕ → Bool
has a [] = false
has a (x ∷ xs) = (a == x) || has a xs

abbrev pub Distinct : List ℕ → Type 0
Distinct [] = Unit {0}
Distinct (x ∷ xs) = (has x xs ≡ false) × Distinct xs

-- No entry of the one list is in the other.
abbrev pub Apart : List ℕ → List ℕ → Type 0
Apart xs ys = (a : ℕ) → has a xs ≡ true → has a ys ≡ false

-- From `s` the links lead through `xs` to `e`, and back.
abbrev pub Chain : Store → ℕ → List ℕ → ℕ → Type 0
Chain h s [] e = (h.next s ≡ e) × (h.prev e ≡ s)
Chain h s (x ∷ xs) e = (h.next s ≡ x) × (h.prev x ≡ s) × Chain h x xs e

abbrev pub last : ℕ → List ℕ → ℕ
last s [] = s
last s (x ∷ xs) = last x xs

-- `head` is the head of a circular list of the entries `xs`.
pub record IsRing (h : Store) (head : ℕ) (xs : List ℕ) : Type 0 where
  pub chain : Chain h head xs head
  pub distinct : Distinct (head ∷ xs)

pub has-append_false :
    (a : ℕ) (xs ys : List ℕ) → has a xs ≡ false → has a ys ≡ false → has a (xs ++ ys) ≡ false
has-append_false a [] ys p q = q
has-append_false a (x ∷ xs) ys p q = ground (arith, has-append_false a xs ys)

pub has-append_left : (a : ℕ) (xs ys : List ℕ) → has a (xs ++ ys) ≡ false → has a xs ≡ false
has-append_left a [] ys p = refl
has-append_left a (x ∷ xs) ys p = ground (arith, has-append_left a xs ys)

pub has-append_right : (a : ℕ) (xs ys : List ℕ) → has a (xs ++ ys) ≡ false → has a ys ≡ false
has-append_right a [] ys p = p
has-append_right a (x ∷ xs) ys p = ground (arith, has-append_right a xs ys)

pub Distinct-append :
    (xs ys : List ℕ) → Distinct xs → Distinct ys → Apart xs ys → Distinct (xs ++ ys)
Distinct-append [] ys p q apart = q
Distinct-append (x ∷ xs) ys p q apart = (
  has-append_false x xs ys p.0 (apart x (ground arith)),
  Distinct-append xs ys p.1 q (λ a i. apart a (ground arith)),
)

pub Distinct-right : (xs ys : List ℕ) → Distinct (xs ++ ys) → Distinct ys
Distinct-right [] ys p = p
Distinct-right (x ∷ xs) ys p = Distinct-right xs ys p.1

pub Distinct-left : (xs ys : List ℕ) → Distinct (xs ++ ys) → Distinct xs
Distinct-left [] ys p = tt
Distinct-left (x ∷ xs) ys p = (has-append_left x xs ys p.0, Distinct-left xs ys p.1)

pub Apart-append : (xs ys : List ℕ) → Distinct (xs ++ ys) → Apart xs ys
Apart-append [] ys p a i = absurd (cc)
Apart-append (x ∷ xs) ys p a i = ground (arith, has-append_right x xs ys, Apart-append xs ys p.1 a)

pub has-last : (s : ℕ) (xs : List ℕ) → has (last s xs) (s ∷ xs) ≡ true
has-last s [] = ground arith
has-last s (x ∷ xs) = ground (arith, has-last x xs)

module _ (h : Store) where
  pub Chain-join :
      (s : ℕ) (xs : List ℕ) (y : ℕ) (ys : List ℕ) (e : ℕ)
      → Chain h s xs y
      → Chain h y ys e
      → Chain h s (xs ++ y ∷ ys) e
  Chain-join s [] y ys e p q = (p.0, p.1, q)
  Chain-join s (x ∷ xs) y ys e p q = (p.0, p.1, Chain-join x xs y ys e p.2 q)

  pub Chain-split :
      (s : ℕ) (xs : List ℕ) (y : ℕ) (ys : List ℕ) (e : ℕ)
      → Chain h s (xs ++ y ∷ ys) e
      → Chain h s xs y × Chain h y ys e
  Chain-split s [] y ys e p = ((p.0, p.1), p.2)
  Chain-split s (x ∷ xs) y ys e p = let (a, b) = Chain-split x xs y ys e p.2 in ((p.0, p.1, a), b)

  pub prev-eq-last : (s : ℕ) (xs : List ℕ) (e : ℕ) → Chain h s xs e → h.prev e ≡ last s xs
  prev-eq-last s [] e p = p.1
  prev-eq-last s (x ∷ xs) e p = prev-eq-last x xs e p.2

-- A chain whose inner links are kept, and whose end is linked to `f`, leads to `f`.
pub relink :
    {h g : Store} (s : ℕ) (xs : List ℕ) (e f : ℕ)
    → Chain h s xs e
    → Distinct (s ∷ xs)
    → ((a : ℕ) → has a (s ∷ xs) ≡ true → a ≢ last s xs → g.next a ≡ h.next a)
    → ((a : ℕ) → has a xs ≡ true → g.prev a ≡ h.prev a)
    → g.next (last s xs) ≡ f
    → g.prev f ≡ last s xs
    → Chain g s xs f
relink s [] e f p d same_next same_prev out back = (out, back)
relink {h} {g} s (x ∷ xs) e f p d same_next same_prev out back =
    let ne : s ≢ last x xs = ground (arith, has-last x xs) in
    let first : g.next s ≡ x = ground (arith, same_next s) in
    let home : g.prev x ≡ s = ground (arith, same_prev x) in
    (
      first,
      home,
      relink x xs e f p.2 d.1 (λ a i n. same_next a (ground arith) n)
          (λ a i. same_prev a (ground arith)) out back,
    )

-- A chain is kept where its own links are.
pub keep :
    {h g : Store} (s : ℕ) (xs : List ℕ) (e : ℕ)
    → Chain h s xs e
    → ((a : ℕ) → has a (s ∷ xs) ≡ true → g.next a ≡ h.next a)
    → ((a : ℕ) → has a (e ∷ xs) ≡ true → g.prev a ≡ h.prev a)
    → Chain g s xs e
keep s [] e p same_next same_prev = (ground (arith, same_next s), ground (arith, same_prev e))
keep {g} s (x ∷ xs) e p same_next same_prev =
    let out : g.next s ≡ x = ground (arith, same_next s) in
    let home : g.prev x ≡ s = ground (arith, same_prev x) in
    (
      out,
      home,
      keep x xs e p.2 (λ a i. same_next a (ground arith)) (λ a i. same_prev a (ground arith)),
    )
