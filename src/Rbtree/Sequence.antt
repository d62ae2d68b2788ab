-- ===== src/Rbtree/Sequence.antt =====
-- The nodes of a tree as a sequence, in either direction.
use au_os.Prelude.{
  ℕ, ◌<◌, ◌≡◌, ◌≢◌, refl, sym, ◌∙◌, inl, inr, ◌⊎◌, List, [], ◌∷◌, ◌++◌, arith, ◌==◌, if◌then◌else◌,
  Bool-cases,
}
use au_os.Rbtree.{Side, left, right}
use au_os.Rbtree.Shape.{Tree, leaf, branch, inorder, count, at_root, at_left, at_right, count-IsIn}
use au_os.Rbtree.Risen.{eq_test, ne_test, ne_of_test}

-- The nodes from the last to the first.
abbrev pub backwards : Tree → List ℕ
backwards leaf = []
backwards (branch l a r) = backwards r ++ a ∷ backwards l

abbrev pub along : Side → Tree → List ℕ
along right t = inorder t
along left t = backwards t

abbrev pub first_or : ℕ → List ℕ → ℕ
first_or v [] = v
first_or v (x ∷ xs) = x

-- What follows `x` in a sequence, `v` at its end.
unfoldable pub following_or : (v x : ℕ) → List ℕ → ℕ
following_or v x [] = v
following_or v x (y ∷ ys) = let rest = following_or v x ys in if y == x then first_or v ys else rest

pub first_or-append : (v : ℕ) (xs ys : List ℕ) → first_or v (xs ++ ys) ≡ first_or (first_or v ys) xs
first_or-append v [] ys = refl
first_or-append v (x ∷ xs) ys = refl

abbrev pub Occurs : ℕ → List ℕ → Type 0
Occurs x [] = ⊥
Occurs x (y ∷ ys) = (y ≡ x) ⊎ Occurs x ys

pub Occurs-append_left : (x : ℕ) (xs ys : List ℕ) → Occurs x xs → Occurs x (xs ++ ys)
Occurs-append_left x [] ys o = elim o [ ]
Occurs-append_left x (y ∷ xs) ys (inl e) = inl e
Occurs-append_left x (y ∷ xs) ys (inr o) = inr (Occurs-append_left x xs ys o)

pub Occurs-append_right : (x : ℕ) (xs ys : List ℕ) → Occurs x ys → Occurs x (xs ++ ys)
Occurs-append_right x [] ys o = o
Occurs-append_right x (y ∷ xs) ys o = inr (Occurs-append_right x xs ys o)

-- The parts of a tree in the direction `d`: what comes first and what comes last.
abbrev pub near : Side → Tree → Tree → Tree
near right l r = l
near left l r = r

abbrev pub far : Side → Tree → Tree → Tree
far right l r = r
far left l r = l

pub along_branch :
    (d : Side) (l : Tree) (a : ℕ) (r : Tree)
    → along d (branch l a r) ≡ along d (near d l r) ++ a ∷ along d (far d l r)
along_branch left l a r = refl
along_branch right l a r = refl

pub following_or_absent :
    (v x : ℕ) (xs ys : List ℕ)
    → (Occurs x xs → ⊥)
    → following_or v x (xs ++ ys) ≡ following_or v x ys
unfolding following_or
following_or_absent v x [] ys off = refl
following_or_absent v x (y ∷ xs) ys off =
    rw (ne_test y x (λ e. off (inl e))) (following_or_absent v x xs ys (λ o. off (inr o)))

pub following_or_here :
    (v x : ℕ) (xs ys : List ℕ) → (Occurs x xs → ⊥) → following_or v x (xs ++ x ∷ ys) ≡ first_or v ys
unfolding following_or
following_or_here v x xs ys off =
    following_or_absent v x xs (x ∷ ys) off ∙ rw (eq_test x x refl) refl

pub following_or_before :
    (v x : ℕ) (xs ys : List ℕ)
    → Occurs x xs
    → following_or v x (xs ++ ys) ≡ following_or (first_or v ys) x xs
unfolding following_or
following_or_before v x [] ys o = elim o [ ]
following_or_before v x (y ∷ xs) ys o = elim (Bool-cases (y == x)) [
  | inl here ↦ rw here (first_or-append v xs ys)
  | inr off ↦ rw off (following_or_before v x xs ys (later o (ne_of_test y x off)))
]
  where
    later : (y ≡ x) ⊎ Occurs x xs → y ≢ x → Occurs x xs
    later (inl e) ne = absurd (ne e)
    later (inr o) ne = o

pub Occurs-count : (d : Side) (t : Tree) (x : ℕ) → 0 < count x t → Occurs x (along d t)
Occurs-count left leaf x on = absurd (omega arith)
Occurs-count right leaf x on = absurd (omega arith)
Occurs-count left (branch l a r) x on = elim (count-IsIn l a r x on) [
  | at_root e ↦ Occurs-append_right x (backwards r) (a ∷ backwards l) (inl (sym e))
  | at_left on_left ↦
      Occurs-append_right x (backwards r) (a ∷ backwards l) (inr (Occurs-count left l x on_left))
  | at_right on_right ↦
      Occurs-append_left x (backwards r) (a ∷ backwards l) (Occurs-count left r x on_right)
]
Occurs-count right (branch l a r) x on = elim (count-IsIn l a r x on) [
  | at_root e ↦ Occurs-append_right x (inorder l) (a ∷ inorder r) (inl (sym e))
  | at_left on_left ↦
      Occurs-append_left x (inorder l) (a ∷ inorder r) (Occurs-count right l x on_left)
  | at_right on_right ↦
      Occurs-append_right x (inorder l) (a ∷ inorder r) (inr (Occurs-count right r x on_right))
]

pub Occurs-split : (x : ℕ) (xs ys : List ℕ) → Occurs x (xs ++ ys) → Occurs x xs ⊎ Occurs x ys
Occurs-split x [] ys o = inr o
Occurs-split x (y ∷ xs) ys (inl e) = inl (inl e)
Occurs-split x (y ∷ xs) ys (inr o) = elim (Occurs-split x xs ys o) [
  | inl o' ↦ inl (inr o')
  | inr o' ↦ inr o'
]

pub root_off : (l : Tree) (a : ℕ) (r : Tree) (x : ℕ) → count x (branch l a r) ≡ 0 → a ≢ x
root_off l a r x off = λ e. ground arith

pub Occurs-absent : (d : Side) (t : Tree) (x : ℕ) → count x t ≡ 0 → Occurs x (along d t) → ⊥
Occurs-absent left leaf x off o = o
Occurs-absent right leaf x off o = o
Occurs-absent left (branch l a r) x off o =
    elim (Occurs-split x (backwards r) (a ∷ backwards l) o) [
      | inl o' ↦ Occurs-absent left r x (omega arith) o'
      | inr (inl e) ↦ root_off l a r x off e
      | inr (inr o') ↦ Occurs-absent left l x (omega arith) o'
    ]
Occurs-absent right (branch l a r) x off o = elim (Occurs-split x (inorder l) (a ∷ inorder r) o) [
  | inl o' ↦ Occurs-absent right l x (omega arith) o'
  | inr (inl e) ↦ root_off l a r x off e
  | inr (inr o') ↦ Occurs-absent right r x (omega arith) o'
]

pub along_leaf : (d : Side) → along d leaf ≡ []
along_leaf left = refl
along_leaf right = refl
