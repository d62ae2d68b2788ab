-- ===== src/Rbtree/Turn.antt =====
-- A rotation on trees.
use au_os.Prelude.{
  ℕ, ◌<◌, ◌≡◌, refl, ap, sym, inl, inr, false, List, [], ◌∷◌, ◌++◌, arith, ◌==◌, if◌then◌else◌,
  Bool-cases,
}
use au_os.Rbtree.{Side, left, right}
use au_os.Rbtree.Shape.{Tree, leaf, branch, inorder, count, AreOnce, left-apart, right-apart}
use au_os.Rbtree.Risen.{eq_test, ne_test}

abbrev pub turn_here : Side → Tree → Tree
turn_here right (branch l a (branch b c d)) = branch (branch l a b) c d
turn_here left (branch (branch b c d) a r) = branch b c (branch d a r)
turn_here d t = t

unfoldable pub turn : (up : Side) → (x : ℕ) → Tree → Tree
turn up x leaf = leaf
turn up x (branch l a r) =
    let l' = turn up x l in
    let r' = turn up x r in if a == x then turn_here up (branch l a r) else branch l' a r'

turn_absent : (up : Side) (x : ℕ) (t : Tree) → count x t ≡ 0 → turn up x t ≡ t
unfolding turn
turn_absent up x leaf off = refl
turn_absent up x (branch l a r) off =
    let e : (a == x) ≡ false = ground arith in
    let h = turn_absent up x l (omega arith) in
    let h' = turn_absent up x r (omega arith) in rw (e, h, h') refl

pub turn_at :
    (up : Side) (l : Tree) (x : ℕ) (r : Tree)
    → turn up x (branch l x r) ≡ turn_here up (branch l x r)
unfolding turn
turn_at up l x r = rw (eq_test x x refl) refl

pub turn_left :
    (up : Side) (x : ℕ) (l : Tree) (a : ℕ) (r : Tree)
    → AreOnce (branch l a r)
    → 0 < count x l
    → turn up x (branch l a r) ≡ branch (turn up x l) a r
unfolding turn
turn_left up x l a r once on =
    let (off, ne) = left-apart l a r x once on in
    rw (ne_test a x (λ q. ne (sym q)), turn_absent up x r off) refl

pub turn_right :
    (up : Side) (x : ℕ) (l : Tree) (a : ℕ) (r : Tree)
    → AreOnce (branch l a r)
    → 0 < count x r
    → turn up x (branch l a r) ≡ branch l a (turn up x r)
unfolding turn
turn_right up x l a r once on =
    let (off, ne) = right-apart l a r x once on in
    rw (ne_test a x (λ q. ne (sym q)), turn_absent up x l off) refl

append_assoc : (xs ys zs : List ℕ) → (xs ++ ys) ++ zs ≡ xs ++ (ys ++ zs)
append_assoc [] ys zs = refl
append_assoc (x ∷ xs) ys zs = ap (λ l. x ∷ l) (append_assoc xs ys zs)

inorder-turn_here : (up : Side) (t : Tree) → inorder (turn_here up t) ≡ inorder t
inorder-turn_here left leaf = refl
inorder-turn_here right leaf = refl
inorder-turn_here right (branch l a leaf) = refl
inorder-turn_here right (branch l a (branch b c d)) =
    append_assoc (inorder l) (a ∷ inorder b) (c ∷ inorder d)
inorder-turn_here left (branch leaf a r) = refl
inorder-turn_here left (branch (branch b c d) a r) =
    sym (append_assoc (inorder b) (c ∷ inorder d) (a ∷ inorder r))

pub inorder-turn : (up : Side) (x : ℕ) (t : Tree) → inorder (turn up x t) ≡ inorder t
unfolding turn
inorder-turn up x leaf = refl
inorder-turn up x (branch l a r) = elim (Bool-cases (a == x)) [
  | inl here ↦ rw here (inorder-turn_here up (branch l a r))
  | inr there ↦ rw (there, inorder-turn up x l, inorder-turn up x r) refl
]

count-turn_here : (up : Side) (y : ℕ) (t : Tree) → count y (turn_here up t) ≡ count y t
count-turn_here left y leaf = refl
count-turn_here right y leaf = refl
count-turn_here right y (branch l a leaf) = refl
count-turn_here right y (branch l a (branch b c d)) = omega arith
count-turn_here left y (branch leaf a r) = refl
count-turn_here left y (branch (branch b c d) a r) = omega arith

pub count-turn : (up : Side) (x y : ℕ) (t : Tree) → count y (turn up x t) ≡ count y t
unfolding turn
count-turn up x y leaf = refl
count-turn up x y (branch l a r) = elim (Bool-cases (a == x)) [
  | inl here ↦ rw here (count-turn_here up y (branch l a r))
  | inr there ↦ rw (there, count-turn up x y l, count-turn up x y r) refl
]
