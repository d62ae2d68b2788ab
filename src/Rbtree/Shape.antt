-- ===== src/Rbtree/Shape.antt =====
-- When a store holds a tree.
use mathlib.Core.Path.{subst}
use au_os.Prelude.{
  ℕ, ◌+◌, ◌≤◌, ◌<◌, ◌≡◌, ◌≢◌, refl, ap, sym, ◌∙◌, inl, inr, List, [], ◌∷◌, ◌++◌, arith, ltb, ◌==◌,
  if◌then◌else◌, Bool-cases,
}
use au_os.Rbtree.{Side, left, right, Store}

pub data Tree : Type 0 where
  leaf : Tree
  branch : Tree → ℕ → Tree → Tree

-- The pointer to a tree.
abbrev pub top : Tree → ℕ
top leaf = 0
top (branch l a r) = a

abbrev pub inorder : Tree → List ℕ
inorder leaf = []
inorder (branch l a r) = inorder l ++ a ∷ inorder r

abbrev pub count : ℕ → Tree → ℕ
count x leaf = 0
count x (branch l a r) = count x l + (if a == x then 1 else 0) + count x r

abbrev pub size : Tree → ℕ
size leaf = 0
size (branch l a r) = size l + 1 + size r

-- Below `par` the store holds the tree.
abbrev pub Holds : Store → (par : ℕ) → Tree → Type 0
Holds s par leaf = Unit
Holds s par (branch l a r) =
    (0 < a)
    × (s.child left a ≡ top l)
    × (s.child right a ≡ top r)
    × (s.parent a ≡ par)
    × Holds s a l
    × Holds s a r

-- No node occurs twice.
abbrev pub AreOnce : Tree → Type 0
AreOnce t = (a : ℕ) → count a t ≤ 1

-- The store holds the tree at its root.
pub record IsTree (s : Store) (t : Tree) : Type 0 where
  pub rooted : s.root ≡ top t
  pub holds : Holds s 0 t
  pub once : AreOnce t

abbrev pub SameLinks : Store → Store → ℕ → Type 0
SameLinks s s' a =
    (s'.child left a ≡ s.child left a)
    × (s'.child right a ≡ s.child right a)
    × (s'.parent a ≡ s.parent a)

-- The nodes of a tree, one by one.
pub count-root : (l : Tree) (a : ℕ) (r : Tree) → 0 < count a (branch l a r)
count-root l a r = ground arith

pub count-left : (l : Tree) (a : ℕ) (r : Tree) (x : ℕ) → 0 < count x l → 0 < count x (branch l a r)
count-left l a r x on = omega arith

pub count-right : (l : Tree) (a : ℕ) (r : Tree) (x : ℕ) → 0 < count x r → 0 < count x (branch l a r)
count-right l a r x on = omega arith

pub data IsIn (l : Tree) (a : ℕ) (r : Tree) (x : ℕ) : Type 0 where
  at_root : x ≡ a → IsIn l a r x
  at_left : 0 < count x l → IsIn l a r x
  at_right : 0 < count x r → IsIn l a r x

pub count-IsIn : (l : Tree) (a : ℕ) (r : Tree) (x : ℕ) → 0 < count x (branch l a r) → IsIn l a r x
count-IsIn l a r x on = elim (Bool-cases (a == x)) [
  | inl same ↦ at_root (ground arith)
  | inr apart ↦ elim (Bool-cases (ltb 0 (count x l))) [
    | inl on_left ↦ at_left (ground arith)
    | inr off ↦ at_right (ground arith)
  ]
]

-- A tree survives any change that spares its own nodes.
pub Holds-frame :
    (s s' : Store) (par : ℕ) (t : Tree)
    → Holds s par t
    → ((a : ℕ) → 0 < count a t → SameLinks s s' a)
    → Holds s' par t
Holds-frame s s' par leaf h same = tt
Holds-frame s s' par (branch l a r) (pos, el, er, ep, hl, hr) same =
    let (fl, fr, fp) = same a (count-root l a r) in
    (
      pos,
      fl ∙ el,
      fr ∙ er,
      fp ∙ ep,
      Holds-frame s s' a l hl (λ b on. same b (count-left l a r b on)),
      Holds-frame s s' a r hr (λ b on. same b (count-right l a r b on)),
    )

pub top-count : (s : Store) (par : ℕ) (t : Tree) → Holds s par t → top t ≢ 0 → 0 < count (top t) t
top-count s par leaf h ne = absurd (ne refl)
top-count s par (branch l a r) h ne = count-root l a r

-- The null pointer is no node.
pub count-zero : (s : Store) (par : ℕ) (t : Tree) → Holds s par t → count 0 t ≡ 0
count-zero s par leaf h = refl
count-zero s par (branch l a r) (pos, el, er, ep, hl, hr) =
    sum_zero a (count 0 l) (count 0 r) pos (count-zero s a l hl) (count-zero s a r hr)
  where
    sum_zero : (a n m : ℕ) → 0 < a → n ≡ 0 → m ≡ 0 → n + (if a == 0 then 1 else 0) + m ≡ 0
    sum_zero a n m pos e e' = ground arith

-- The child of the root.
root_child :
    (s : Store) (par : ℕ) (l : Tree) (a : ℕ) (r : Tree) (d : Side)
    → Holds s par (branch l a r)
    → s.child d a ≢ 0
    → 0 < count (s.child d a) (branch l a r)
root_child s par l a r left (pos, el, er, ep, hl, hr) ne =
    subst (λ y. 0 < count y (branch l a r)) (sym el)
      (count-left l a r (top l) (top-count s a l hl (rw el at ne)))
root_child s par l a r right (pos, el, er, ep, hl, hr) ne =
    subst (λ y. 0 < count y (branch l a r)) (sym er)
      (count-right l a r (top r) (top-count s a r hr (rw er at ne)))

-- A child of a node is a node.
pub child-count :
    (s : Store) (par : ℕ) (t : Tree) (d : Side) (x : ℕ)
    → Holds s par t
    → 0 < count x t
    → s.child d x ≢ 0
    → 0 < count (s.child d x) t
child-count s par leaf d x h on ne = absurd (omega arith)
child-count s par (branch l a r) d x (pos, el, er, ep, hl, hr) on ne =
    elim (count-IsIn l a r x on) [
      | at_root e ↦
          subst (λ y. s.child d y ≢ 0 → 0 < count (s.child d y) (branch l a r)) (sym e)
            (root_child s par l a r d (pos, el, er, ep, hl, hr)) ne
      | at_left on_left ↦ count-left l a r (s.child d x) (child-count s a l d x hl on_left ne)
      | at_right on_right ↦ count-right l a r (s.child d x) (child-count s a r d x hr on_right ne)
    ]

-- A node is the root, below the pointer above the tree; or it is below one of the tree.
pub data IsBelow (s : Store) (par : ℕ) (t : Tree) (x : ℕ) : Type 0 where
  topmost : x ≡ top t → s.parent x ≡ par → IsBelow s par t x
  deeper : (d : Side) → 0 < count (s.parent x) t → s.child d (s.parent x) ≡ x → IsBelow s par t x

IsBelow-side :
    (s : Store) (par : ℕ) (l : Tree) (a : ℕ) (r sub : Tree) (d : Side) (x : ℕ)
    → s.child d a ≡ top sub
    → ((y : ℕ) → 0 < count y sub → 0 < count y (branch l a r))
    → IsBelow s a sub x
    → IsBelow s par (branch l a r) x
IsBelow-side s par l a r sub d x e inside (topmost e' ep) =
    deeper d (subst (λ y. 0 < count y (branch l a r)) (sym ep) (count-root l a r))
      (ap (s.child d) ep ∙ e ∙ sym e')
IsBelow-side s par l a r sub d x e inside (deeper d' on e') = deeper d' (inside (s.parent x) on) e'

pub parent-IsBelow :
    (s : Store) (par : ℕ) (t : Tree) (x : ℕ) → Holds s par t → 0 < count x t → IsBelow s par t x
parent-IsBelow s par leaf x h on = absurd (omega arith)
parent-IsBelow s par (branch l a r) x (pos, el, er, ep, hl, hr) on = elim (count-IsIn l a r x on) [
  | at_root e ↦ topmost e (ap s.parent e ∙ ep)
  | at_left on_left ↦
      IsBelow-side s par l a r l left x el (count-left l a r) (parent-IsBelow s a l x hl on_left)
  | at_right on_right ↦
      IsBelow-side s par l a r r right x er (count-right l a r) (parent-IsBelow s a r x hr on_right)
]

-- A child's parent is the node.
pub child-parent :
    (s : Store) (par : ℕ) (t : Tree) (d : Side) (x : ℕ)
    → Holds s par t
    → 0 < count x t
    → s.child d x ≢ 0
    → s.parent (s.child d x) ≡ x
child-parent s par leaf d x h on ne = absurd (omega arith)
child-parent s par (branch l a r) d x (pos, el, er, ep, hl, hr) on ne =
    elim (count-IsIn l a r x on) [
      | at_root e ↦ subst (λ y. s.child d y ≢ 0 → s.parent (s.child d y) ≡ y) (sym e) (at_top d) ne
      | at_left on_left ↦ child-parent s a l d x hl on_left ne
      | at_right on_right ↦ child-parent s a r d x hr on_right ne
    ]
  where
    top-parent : (t : Tree) → Holds s a t → top t ≢ 0 → s.parent (top t) ≡ a
    top-parent leaf h ne = absurd (ne refl)
    top-parent (branch l' a' r') (pos', el', er', ep', hl', hr') ne = ep'

    at_top : (d : Side) → s.child d a ≢ 0 → s.parent (s.child d a) ≡ a
    at_top left ne = ap s.parent el ∙ top-parent l hl (rw el at ne)
    at_top right ne = ap s.parent er ∙ top-parent r hr (rw er at ne)

-- The parts of a tree without repetitions.
pub once-left : (l : Tree) (a : ℕ) (r : Tree) → AreOnce (branch l a r) → AreOnce l
once-left l a r once = λ y. let n = once y in omega arith

pub once-right : (l : Tree) (a : ℕ) (r : Tree) → AreOnce (branch l a r) → AreOnce r
once-right l a r once = λ y. let n = once y in omega arith

pub once-root :
    (l : Tree) (a : ℕ) (r : Tree) → AreOnce (branch l a r) → (count a l ≡ 0) × (count a r ≡ 0)
once-root l a r once = let n = once a in (ground arith, ground arith)

pub left-apart :
    (l : Tree) (a : ℕ) (r : Tree) (y : ℕ)
    → AreOnce (branch l a r)
    → 0 < count y l
    → (count y r ≡ 0) × (y ≢ a)
left-apart l a r y once on = let n = once y in (omega arith, λ e. ground arith)

pub right-apart :
    (l : Tree) (a : ℕ) (r : Tree) (y : ℕ)
    → AreOnce (branch l a r)
    → 0 < count y r
    → (count y l ≡ 0) × (y ≢ a)
right-apart l a r y once on = let n = once y in (omega arith, λ e. ground arith)

-- A node that is in a tree is none that is not.
pub ne_of_count : (t : Tree) (x y : ℕ) → 0 < count x t → count y t ≡ 0 → x ≢ y
ne_of_count t x y on off = λ e. let z = rw e at on in omega arith
