-- ===== src/Rbtree/Restored.antt =====
-- rbtree.c: `rb_insert` leaves a red-black tree.
use au_os.Prelude.{
  ℕ, ◌≤◌, ◌<◌, ◌≡◌, ◌≢◌, refl, ap, sym, ◌∙◌, inl, inr, true, false, ◌∷◌, none, some, arith, ◌==◌,
  length, length-append, if◌then◌else◌, Bool-cases,
}
use au_os.Rbtree.{Side, Store, and_then, set_color, rb_red, rb_insert}
use au_os.Rbtree.Shape.{
  Tree, leaf, branch, top, inorder, count, size, Holds, IsTree, child-parent, count-zero,
  ne_of_count,
}
use au_os.Rbtree.Risen.{ne_test, eq_test}
use au_os.Rbtree.Depth.{depth-size}
use au_os.Rbtree.Colour.{Colours, weight, rb_red-set_color, set_color-IsTree}
use au_os.Rbtree.Rotate.{top-parent}
use au_os.Rbtree.Insert.{insert_loop-IsMended}

-- A red-black tree: the links are those of a tree, every way down from a node has the same number of
-- black pointers, no red node is below a red one, and the root is black.
pub record IsRedBlack (s : Store) (t : Tree) : Type 0 where
  pub is : IsTree s t
  pub height : ℕ → ℕ
  pub colours : Colours s t height 0
  pub root_black : rb_red s s.root ≡ false

-- The root is nobody's child, so its colour is free.
blackened-Colours :
    (s : Store) (t : Tree) (height : ℕ → ℕ)
    → IsTree s t
    → Colours s t height 0
    → s.root ≢ 0
    → Colours (set_color s.root true s) t height 0
unfolding set_color
blackened-Colours s t height is colours ne = record {
  none_below = colours.none_below;
  even = λ a on e.
      let same = red_of (s.child e a) (child_off a e on) in
      omega (arith, colours.even a on e, ap weight same);
  reds = λ a on e red red'. colours.reds a on e (was_red a red) (was_red (s.child e a) red');
}
  where
    child_off : (a : ℕ) (e : Side) → 0 < count a t → s.child e a ≢ s.root
    child_off a e on q = ne_of_count t a 0 on (count-zero s 0 t is.holds) (
        sym (child-parent s 0 t e a is.holds on (λ z. ne (sym q ∙ z)))
        ∙ ap s.parent (q ∙ is.rooted)
        ∙ top-parent s 0 t is.holds (λ z. ne (is.rooted ∙ z)))

    red_of : (a : ℕ) → a ≢ s.root → rb_red (set_color s.root true s) a ≡ rb_red s a
    red_of a off = rb_red-set_color s s.root a true ne ∙ rw (ne_test a s.root off) refl

    was_red : (a : ℕ) → rb_red (set_color s.root true s) a ≡ true → rb_red s a ≡ true
    was_red a red = elim (Bool-cases (a == s.root)) [
      | inl at_root ↦
          let e : (if a == s.root then false else rb_red s a) ≡ false =
            ap (λ b. if b then false else rb_red s a) at_root in
          absurd (omega (arith, ap weight (sym red ∙ rb_red-set_color s s.root a true ne ∙ e)))
      | inr off ↦
          ap (λ b. if b then false else rb_red s a) (sym off)
          ∙ sym (rb_red-set_color s s.root a true ne)
          ∙ red
    ]

length-inorder : (t : Tree) → length (inorder t) ≡ size t
length-inorder leaf = refl
length-inorder (branch l a r) =
    let e = length-append (inorder l) (a ∷ inorder r) in
    let h = length-inorder l in let h' = length-inorder r in omega arith

count-size : (t : Tree) (x : ℕ) → count x t ≤ size t
count-size leaf x = omega arith
count-size (branch l a r) x = let h = count-size l x in let h' = count-size r x in ground arith

some_top : (s : Store) (par : ℕ) (t : Tree) → Holds s par t → 0 < size t → top t ≢ 0
some_top s par leaf h on = absurd (omega arith)
some_top s par (branch l a r) (pos, el, er, ep, hl, hr) on = λ q. omega arith

-- `rb_insert` of a red node that a tree already has, where the tree is red-black but for the node, which
-- may be below a red one or be a red root. With fuel for the size of the tree it succeeds, and the
-- store then holds a red-black tree with the same nodes in the same order.
pub rb_insert-IsRedBlack :
    (fuel : ℕ) (s : Store) (t : Tree) (height : ℕ → ℕ) (node : ℕ)
    → IsTree s t
    → Colours s t height node
    → 0 < count node t
    → rb_red s node ≡ true
    → (rb_red s s.root ≡ true → s.root ≡ node)
    → size t ≤ fuel
    → (s' : Store) × (t' : Tree) × (rb_insert fuel node s ≡ some s')
      × IsRedBlack s' t'
      × (inorder t' ≡ inorder t)
unfolding rb_insert set_color
rb_insert-IsRedBlack fuel s t height node is colours on red root enough =
    let (s', run, mended) =
      insert_loop-IsMended fuel s t height node is colours on red root
        (omega (arith, enough, depth-size t node on)) in
    let some_size : 0 < size mended.tree = omega (
      arith,
      on,
      count-size t node,
      length-inorder t,
      length-inorder mended.tree,
      ap length mended.order,
    ) in
    let rooted : s'.root ≢ 0 =
      λ q. some_top s' 0 mended.tree mended.is.holds some_size (sym mended.is.rooted ∙ q) in
    (
      set_color s'.root true s',
      mended.tree,
      ap (λ o. and_then o (λ s'. if s'.root == 0 then none else some (set_color s'.root true s')))
            run
          ∙ ap (λ b. if b then none else some (set_color s'.root true s'))
              (ne_test s'.root 0 rooted),
      record {
        is = set_color-IsTree s' mended.tree s'.root true mended.is;
        height = mended.height;
        colours = blackened-Colours s' mended.tree mended.height mended.is mended.colours rooted;
        root_black =
            rb_red-set_color s' s'.root s'.root true rooted
            ∙ ap (λ b. if b then false else rb_red s' s'.root) (eq_test s'.root s'.root refl);
      },
      mended.order,
    )
