-- ===== src/Rbtree/Beside.antt =====
-- Where a planted node stands.
use au_os.Prelude.{
  ℕ, ◌≡◌, ◌≢◌, refl, ◌∙◌, inl, inr, false, List, [], ◌∷◌, ◌++◌, arith, ◌==◌, Bool-cases,
}
use au_os.Rbtree.{Side, left, right}
use au_os.Rbtree.Shape.{Tree, leaf, branch, inorder, count}
use au_os.Rbtree.Risen.{eq_test, ne_test}
use au_os.Rbtree.Link.{plant, plant_here, beside}

pub beside-append :
    (d : Side) (parent node : ℕ) (xs ys : List ℕ)
    → beside d parent node (xs ++ ys) ≡ beside d parent node xs ++ beside d parent node ys
unfolding beside
beside-append d parent node [] ys = refl
beside-append left parent node (x ∷ xs) ys = elim (Bool-cases (x == parent)) [
  | inl here ↦ rw (here, beside-append left parent node xs ys) refl
  | inr off ↦ rw (off, beside-append left parent node xs ys) refl
]
beside-append right parent node (x ∷ xs) ys = elim (Bool-cases (x == parent)) [
  | inl here ↦ rw (here, beside-append right parent node xs ys) refl
  | inr off ↦ rw (off, beside-append right parent node xs ys) refl
]

pub beside_off :
    (d : Side) (parent node x : ℕ) (xs : List ℕ)
    → x ≢ parent
    → beside d parent node (x ∷ xs) ≡ x ∷ beside d parent node xs
unfolding beside
beside_off left parent node x xs ne = rw (ne_test x parent ne) refl
beside_off right parent node x xs ne = rw (ne_test x parent ne) refl

pub beside_absent :
    (d : Side) (parent node : ℕ) (t : Tree)
    → count parent t ≡ 0
    → beside d parent node (inorder t) ≡ inorder t
unfolding beside
beside_absent d parent node leaf off = refl
beside_absent d parent node (branch l a r) off =
    let ne : a ≢ parent = λ q. ground arith in
    let h = beside_absent d parent node l (omega arith) in
    let h' = beside_absent d parent node r (omega arith) in
    beside-append d parent node (inorder l) (a ∷ inorder r)
    ∙ rw (h, beside_off d parent node a (inorder r) ne, h') refl

pub plant_at :
    (d : Side) (parent node : ℕ) (l r : Tree)
    → plant d parent node (branch l parent r) ≡ plant_here d node l parent r
unfolding plant
plant_at d parent node l r = rw (eq_test parent parent refl) refl

pub plant_absent :
    (d : Side) (parent node : ℕ) (t : Tree) → count parent t ≡ 0 → plant d parent node t ≡ t
unfolding plant
plant_absent d parent node leaf off = refl
plant_absent d parent node (branch l a r) off =
    let e : (a == parent) ≡ false = ground arith in
    let h = plant_absent d parent node l (omega arith) in
    let h' = plant_absent d parent node r (omega arith) in rw (e, h, h') refl

pub plant_left :
    (d : Side) (parent node : ℕ) (l : Tree) (a : ℕ) (r : Tree)
    → a ≢ parent
    → count parent r ≡ 0
    → plant d parent node (branch l a r) ≡ branch (plant d parent node l) a r
unfolding plant
plant_left d parent node l a r ne off =
    rw (ne_test a parent ne, plant_absent d parent node r off) refl

pub plant_right :
    (d : Side) (parent node : ℕ) (l : Tree) (a : ℕ) (r : Tree)
    → a ≢ parent
    → count parent l ≡ 0
    → plant d parent node (branch l a r) ≡ branch l a (plant d parent node r)
unfolding plant
plant_right d parent node l a r ne off =
    rw (ne_test a parent ne, plant_absent d parent node l off) refl
