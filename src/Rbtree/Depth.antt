-- ===== src/Rbtree/Depth.antt =====
-- A child is one level deeper than its parent, so the pointers around a rotation are different.
use mathlib.Core.Path.{subst}
use au_os.Prelude.{
  ℕ, ◌+◌, ◌<◌, ◌≡◌, ◌≢◌, refl, ap, sym, ◌∙◌, inl, inr, true, false, arith, ltb, ◌==◌, if◌then◌else◌,
  Bool-cases,
}
use au_os.Rbtree.{Side, left, right, other, Store}
use au_os.Rbtree.Shape.{
  Tree, leaf, branch, top, count, size, Holds, AreOnce, at_root, at_left, at_right, count-IsIn,
  count-zero, child-count, top-count, once-left, once-right, left-apart, right-apart, topmost,
  deeper, parent-IsBelow,
}

unfoldable pub depth : ℕ → Tree → ℕ
depth x leaf = 0
depth x (branch l a r) =
    let in_left = depth x l in
    let in_right = depth x r in
    if a == x then 0 else if ltb 0 (count x l) then in_left + 1 else in_right + 1

depth-top : (t : Tree) → depth (top t) t ≡ 0
unfolding depth
depth-top leaf = refl
depth-top (branch l a r) = let e : (a == a) ≡ true = ground arith in rw e refl

depth-left :
    (l : Tree) (a : ℕ) (r : Tree) (x : ℕ)
    → x ≢ a
    → 0 < count x l
    → depth x (branch l a r) ≡ depth x l + 1
unfolding depth
depth-left l a r x ne on =
    let e : (a == x) ≡ false = ground arith in
    let e' : ltb 0 (count x l) ≡ true = ground arith in rw (e, e') refl

depth-right :
    (l : Tree) (a : ℕ) (r : Tree) (x : ℕ)
    → x ≢ a
    → count x l ≡ 0
    → depth x (branch l a r) ≡ depth x r + 1
unfolding depth
depth-right l a r x ne off =
    let e : (a == x) ≡ false = ground arith in
    let e' : ltb 0 (count x l) ≡ false = ground arith in rw (e, e') refl

child-depth_top :
    (s : Store) (par : ℕ) (l : Tree) (a : ℕ) (r : Tree) (d : Side)
    → Holds s par (branch l a r)
    → AreOnce (branch l a r)
    → s.child d a ≢ 0
    → depth (s.child d a) (branch l a r) ≡ depth a (branch l a r) + 1
child-depth_top s par l a r left (pos, el, er, ep, hl, hr) once ne =
    let on = top-count s a l hl (rw el at ne) in
    let (off, apart) = left-apart l a r (top l) once on in
    ap (λ y. depth y (branch l a r)) el
    ∙ depth-left l a r (top l) apart on
    ∙ omega (arith, depth-top l, depth-top (branch l a r))
child-depth_top s par l a r right (pos, el, er, ep, hl, hr) once ne =
    let on = top-count s a r hr (rw er at ne) in
    let (off, apart) = right-apart l a r (top r) once on in
    ap (λ y. depth y (branch l a r)) er
    ∙ depth-right l a r (top r) apart off
    ∙ omega (arith, depth-top r, depth-top (branch l a r))

pub child-depth :
    (s : Store) (par : ℕ) (t : Tree) (d : Side) (x : ℕ)
    → Holds s par t
    → AreOnce t
    → 0 < count x t
    → s.child d x ≢ 0
    → depth (s.child d x) t ≡ depth x t + 1
child-depth s par leaf d x h once on ne = absurd (omega arith)
child-depth s par (branch l a r) d x (pos, el, er, ep, hl, hr) once on ne =
    elim (count-IsIn l a r x on) [
      | at_root e ↦
          subst
            (λ y. s.child d y ≢ 0 → depth (s.child d y) (branch l a r) ≡ depth y (branch l a r) + 1)
            (sym e) (child-depth_top s par l a r d (pos, el, er, ep, hl, hr) once) ne
      | at_left on_left ↦
          let on' = child-count s a l d x hl on_left ne in
          let (off, apart) = left-apart l a r x once on_left in
          let (off', apart') = left-apart l a r (s.child d x) once on' in
          let ih = child-depth s a l d x hl (once-left l a r once) on_left ne in
          omega
            (arith, depth-left l a r x apart on_left, depth-left l a r (s.child d x) apart' on', ih)
      | at_right on_right ↦
          let on' = child-count s a r d x hr on_right ne in
          let (off, apart) = right-apart l a r x once on_right in
          let (off', apart') = right-apart l a r (s.child d x) once on' in
          let ih = child-depth s a r d x hr (once-right l a r once) on_right ne in
          omega
            (arith, depth-right l a r x apart off, depth-right l a r (s.child d x) apart' off', ih)
    ]

-- The two children of a node are different.
pub siblings :
    (s : Store) (par : ℕ) (t : Tree) (x y : ℕ)
    → Holds s par t
    → AreOnce t
    → 0 < count x t
    → y ≢ 0
    → s.child left x ≡ y
    → s.child right x ≢ y
siblings s par leaf x y h once on ne e = absurd (omega arith)
siblings s par (branch l a r) x y (pos, el, er, ep, hl, hr) once on ne e =
    elim (count-IsIn l a r x on) [
      | at_root q ↦ λ e'.
          at_top (sym el ∙ ap (s.child left) (sym q) ∙ e) (sym er ∙ ap (s.child right) (sym q) ∙ e')
      | at_left on_left ↦ siblings s a l x y hl (once-left l a r once) on_left ne e
      | at_right on_right ↦ siblings s a r x y hr (once-right l a r once) on_right ne e
    ]
  where
    at_top : top l ≡ y → top r ≡ y → ⊥
    at_top q q' =
        let on_l = top-count s a l hl (λ z. ne (sym q ∙ z)) in
        let on_r = top-count s a r hr (λ z. ne (sym q' ∙ z)) in
        let (off, apart) = left-apart l a r (top l) once on_l in
        let off' = ap (λ z. count z r) (q ∙ sym q') in omega (arith, on_r, off, off')

pub sibling_sides :
    (s : Store) (t : Tree) (d : Side) (x y : ℕ)
    → Holds s 0 t
    → AreOnce t
    → 0 < count x t
    → y ≢ 0
    → s.child d x ≡ y
    → s.child (other d) x ≢ y
sibling_sides s t left x y h once on ne e = siblings s 0 t x y h once on ne e
sibling_sides s t right x y h once on ne e = λ e'. siblings s 0 t x y h once on ne e' e

pub ne_of_depth : (t : Tree) (x y : ℕ) → depth x t ≢ depth y t → x ≢ y
ne_of_depth t x y ne = λ e. ne (ap (λ z. depth z t) e)

-- A child is not the node, nor is a child's child.
pub child-ne :
    (s : Store) (t : Tree) (d : Side) (x y : ℕ)
    → Holds s 0 t
    → AreOnce t
    → 0 < count x t
    → s.child d x ≡ y
    → x ≢ y
child-ne s t d x y h once on e q =
    let some : y ≢ 0 = λ z. omega (arith, on, count-zero s 0 t h, ap (λ n. count n t) (q ∙ z)) in
    omega (
      arith,
      child-depth s 0 t d x h once on (λ z. some (sym e ∙ z)),
      ap (λ z. depth z t) (e ∙ sym q),
    )

pub grandchild-ne :
    (s : Store) (t : Tree) (d d' : Side) (x y : ℕ)
    → Holds s 0 t
    → AreOnce t
    → 0 < count x t
    → s.child d x ≡ y
    → y ≢ 0
    → s.child d' y ≢ x
grandchild-ne s t d d' x y h once on e ne q =
    let some : x ≢ 0 = λ z. omega (arith, on, count-zero s 0 t h, ap (λ n. count n t) z) in
    let on_y : 0 < count y t =
      subst (λ z. 0 < count z t) e (child-count s 0 t d x h on (λ z. ne (sym e ∙ z))) in
    let deep = child-depth s 0 t d x h once on (λ z. ne (sym e ∙ z)) in
    let deep' = child-depth s 0 t d' y h once on_y (λ z. some (sym q ∙ z)) in
    omega (arith, deep, deep', ap (λ z. depth z t) e, ap (λ z. depth z t) q)

pub parent_child :
    (s : Store) (t : Tree) (x : ℕ)
    → Holds s 0 t
    → 0 < count x t
    → s.parent x ≢ 0
    → (d : Side) × (0 < count (s.parent x) t) × (s.child d (s.parent x) ≡ x)
parent_child s t x h on ne = elim (parent-IsBelow s 0 t x h on) [
  | topmost e ep ↦ absurd (ne ep)
  | deeper d on_p e ↦ (d, on_p, e)
]

pub depth-size : (t : Tree) (x : ℕ) → 0 < count x t → depth x t < size t
unfolding depth
depth-size leaf x on = absurd (omega arith)
depth-size (branch l a r) x on = elim (Bool-cases (a == x)) [
  | inl here ↦ rw here (omega arith)
  | inr off ↦ elim (Bool-cases (ltb 0 (count x l))) [
    | inl on_left ↦
        let some : 0 < count x l = ground arith in
        let ih = depth-size l x some in rw (off, on_left) (omega arith)
    | inr none ↦
        let some : 0 < count x r = ground arith in
        let ih = depth-size r x some in rw (off, none) (omega arith)
  ]
]
