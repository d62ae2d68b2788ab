-- ===== src/Rbtree/Added.antt =====
-- rbtree.c, rbtree.h: `rb_link` and `rb_insert` together.
use mathlib.Core.Path.{subst}
use au_os.Prelude.{
  ℕ, zero, ◌+◌, ◌≤◌, ◌<◌, ◌≡◌, ◌≢◌, refl, ap, sym, ◌∙◌, inl, inr, true, List, [], ◌∷◌, ◌++◌, some,
  arith, ◌==◌, if◌then◌else◌, Bool-cases,
}
use au_os.Rbtree.{
  Side, left, right, other, Store, set_child, set_parent, set_color, rb_red, rb_link, rb_insert,
}
use au_os.Rbtree.Shape.{Tree, leaf, branch, inorder, count, size, IsTree}
use au_os.Rbtree.Risen.{ne_test, eq_test, eq_of_test, ne_of_test}
use au_os.Rbtree.Colour.{Colours, weight, rb_red_zero, red_some, red_not_black}
use au_os.Rbtree.Link.{plant, beside}
use au_os.Rbtree.Restored.{IsRedBlack, rb_insert-IsRedBlack}
use au_os.Rbtree.Linked.{
  linked-red, levels, linked-Colours, linked-root, linked-IsTree, planted, red_at, red_off,
}

-- A link that is free: below a node, or the root of an empty tree.
pub data IsFree (s : Store) (t : Tree) (d : Side) : (parent : ℕ) → Type 0 where
  below : (parent : ℕ) → 0 < count parent t → s.child d parent ≡ 0 → IsFree s t d parent
  alone : s.root ≡ 0 → IsFree s t d 0

-- The new sequence of the nodes.
unfoldable pub placed : Side → (parent node : ℕ) → List ℕ → List ℕ
placed d parent node [] = node ∷ []
placed d parent node (x ∷ xs) = beside d parent node (x ∷ xs)

placed-inorder :
    (d : Side) (parent node : ℕ) (t : Tree)
    → 0 < count parent t
    → placed d parent node (inorder t) ≡ beside d parent node (inorder t)
placed-inorder d parent node leaf on = absurd (omega arith)
placed-inorder d parent node (branch l a r) on = same (inorder l) (a ∷ inorder r) refl
  where
    same :
        (xs ys : List ℕ)
        → ys ≡ a ∷ inorder r
        → placed d parent node (xs ++ ys) ≡ beside d parent node (xs ++ ys)
    same (x ∷ xs) ys e = unfold placed in refl
    same [] ys e = rw e (unfold placed in refl)

-- The first node.
first-IsTree :
    (s : Store) (d : Side) (node : ℕ)
    → 0 < node
    → IsTree (rb_link node 0 d s) (branch leaf node leaf)
unfolding rb_link set_child set_parent set_color
first-IsTree s d node pos =
    let e = eq_test node node refl in
    record {
      rooted = refl;
      holds = (pos, rw e refl, rw e refl, rw e refl, tt, tt);
      once = λ y. ground arith;
    }

first-child : (s : Store) (d e : Side) (node : ℕ) → (rb_link node 0 d s).child e node ≡ 0
unfolding rb_link set_child set_parent set_color
first-child s d left node = rw (eq_test node node refl) refl
first-child s d right node = rw (eq_test node node refl) refl

first-Colours :
    (s : Store) (d : Side) (node : ℕ)
    → node ≢ 0
    → Colours (rb_link node 0 d s) (branch leaf node leaf) (levels (λ a. 0) node) node
first-Colours s d node ne = record {
  none_below = unfold levels in rw (ne_test 0 node (λ q. ne (sym q))) refl;
  even = λ a on e.
      subst
        (λ y.
          levels (λ a. 0) node y
          ≡ levels (λ a. 0) node ((rb_link node 0 d s).child e y)
            + weight (rb_red (rb_link node 0 d s) ((rb_link node 0 d s).child e y)))
        (same a on)
        (subst
          (λ c.
            levels (λ a. 0) node node
            ≡ levels (λ a. 0) node c + weight (rb_red (rb_link node 0 d s) c))
          (sym (first-child s d e node))
          (unfold levels in
            rw
              (
                eq_test node node refl,
                ne_test 0 node (λ q. ne (sym q)),
                rb_red_zero (rb_link node 0 d s),
              )
              refl));
  reds = λ a on e red red'. absurd (
      red_some (rb_link node 0 d s) ((rb_link node 0 d s).child e a) red'
        (ap ((rb_link node 0 d s).child e) (sym (same a on)) ∙ first-child s d e node));
}
  where
    same : (a : ℕ) → 0 < count a (branch leaf node leaf) → node ≡ a
    same a on = ground arith

empty_tree : (s : Store) (t : Tree) → IsTree s t → s.root ≡ 0 → inorder t ≡ []
empty_tree s leaf is e = refl
empty_tree s (branch l a r) is e = absurd (omega (arith, is.holds.0, is.rooted, e))

own_count : (x n : ℕ) {m : ℕ} → m ≡ n + (if x == x then 1 else 0) → 0 < m
own_count x n e = ground arith

positive : (n : ℕ) → n ≢ 0 → 0 < n
positive n ne = ground arith

-- `rb_link` of a new node at a free link of a red-black tree, and `rb_insert` of the node. With
-- fuel for the size of the new tree it succeeds, and the store then holds a red-black tree, where the
-- new node is next to the one it was linked below, on that side, and the others are in their order.
pub rb_insert-rb_link :
    (fuel : ℕ) (s : Store) (t : Tree) (node parent : ℕ) (d : Side)
    → IsRedBlack s t
    → node ≢ 0
    → count node t ≡ 0
    → IsFree s t d parent
    → size t + 1 ≤ fuel
    → (s' : Store) × (t' : Tree) × (rb_insert fuel node (rb_link node parent d s) ≡ some s')
      × IsRedBlack s' t'
      × (inorder t' ≡ placed d parent node (inorder t))
rb_insert-rb_link fuel s t node _ d is nz off (below parent on free) enough =
    let grown = planted s t is.height node parent d is.is is.colours on off nz free in
    let on_node : 0 < count node (plant d parent node t) =
      own_count node (count node t) (grown.counts node) in
    let at_root = linked-root s t is.height node parent d is.is is.colours on off nz free in
    let (s', t', run, is', order) =
      rb_insert-IsRedBlack fuel (rb_link node parent d s) (plant d parent node t)
        (levels is.height node) node
        (linked-IsTree s t is.height node parent d is.is is.colours on off nz free)
        (linked-Colours s t is.height node parent d is.is is.colours on off nz free) on_node
        (red_at s t is.height node parent d is.is is.colours on off nz free)
        (λ red. root_case at_root red) (omega (arith, enough, grown.grown)) in
    (s', t', run, is', order ∙ grown.order ∙ sym (placed-inorder d parent node t on))
  where
    root_case :
        (rb_link node parent d s).root ≡ s.root
        → rb_red (rb_link node parent d s) (rb_link node parent d s).root ≡ true
        → (rb_link node parent d s).root ≡ node
    root_case at_root red = elim (Bool-cases (s.root == node)) [
      | inl same ↦ at_root ∙ eq_of_test s.root node same
      | inr other ↦ absurd (
          red_not_black (rb_red s s.root)
            (sym (
                red_off s t is.height node parent d is.is is.colours on off nz free s.root
                  (ne_of_test s.root node other))
              ∙ ap (rb_red (rb_link node parent d s)) (sym at_root)
              ∙ red)
            is.root_black)
    ]
rb_insert-rb_link fuel s t node zero d is nz off (alone bare) enough =
    let (s', t', run, is', order) =
      rb_insert-IsRedBlack fuel (rb_link node 0 d s) (branch leaf node leaf) (levels (λ a. 0) node)
        node (first-IsTree s d node (positive node nz)) (first-Colours s d node nz) (on_node node)
        (linked-red s node 0 d node nz
          ∙ ap (λ b. if b then true else rb_red s node) (eq_test node node refl))
        (λ red. unfold rb_link in refl) (omega (arith, enough)) in
    (
      s',
      t',
      run,
      is',
      order ∙ unfold placed in ap (placed d 0 node) (sym (empty_tree s t is.is bare)),
    )
  where
    on_node : (x : ℕ) → 0 < count x (branch leaf x leaf)
    on_node x = ground arith
