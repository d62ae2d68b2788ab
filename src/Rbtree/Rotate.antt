-- ===== src/Rbtree/Rotate.antt =====
-- rbtree.c: what a rotation does to the tree that the store holds.
use mathlib.Core.Path.{subst}
use au_os.Prelude.{
  ℕ, ◌≤◌, ◌<◌, ◌≡◌, ◌≢◌, refl, ap, sym, ◌∙◌, inl, inr, some, ◌==◌, if◌then◌else◌, Bool-cases,
}
use au_os.Rbtree.{Side, other, Store, rotate}
use au_os.Rbtree.Shape.{
  Tree, leaf, branch, top, inorder, count, Holds, IsTree, count-zero, topmost, deeper,
  parent-IsBelow, ne_of_count,
}
use au_os.Rbtree.Turned.{Turned, rotate-Turned}
use au_os.Rbtree.Risen.{eq_test, ne_test, eq_of_test, ne_of_test}
use au_os.Rbtree.Turn.{turn, inorder-turn, count-turn}
use au_os.Rbtree.Near.{child-Around}
use au_os.Rbtree.Moved.{Turned-all}

pub top-parent :
    (s : Store) (par : ℕ) (t : Tree) → Holds s par t → top t ≢ 0 → s.parent (top t) ≡ par
top-parent s par leaf h ne = absurd (ne refl)
top-parent s par (branch l a r) (pos, el, er, ep, hl, hr) ne = ep

-- The node at the root is the one without a parent.
root_test :
    (s : Store) (t : Tree) (x : ℕ) → Holds s 0 t → 0 < count x t → (s.parent x == 0) ≡ (top t == x)
root_test s t x h on = elim (Bool-cases (top t == x)) [
  | inl here ↦
      let e = eq_of_test (top t) x here in
      let some : x ≢ 0 = ne_of_count t x 0 on (count-zero s 0 t h) in
      eq_test (s.parent x) 0 (ap s.parent (sym e) ∙ top-parent s 0 t h (λ q. some (sym e ∙ q)))
      ∙ sym here
  | inr there ↦ elim (parent-IsBelow s 0 t x h on) [
    | topmost e ep ↦ absurd (ne_of_test (top t) x there (sym e))
    | deeper d on_p e ↦
        ne_test (s.parent x) 0 (ne_of_count t (s.parent x) 0 on_p (count-zero s 0 t h)) ∙ sym there
  ]
]

-- A rotation with its links.
pub rotate_links :
    (s : Store) (t : Tree) (up : Side) (x r : ℕ)
    → IsTree s t
    → 0 < count x t
    → s.child up x ≡ r
    → r ≢ 0
    → (s' : Store) × (rotate up x s ≡ some s')
      × IsTree s' (turn up x t)
      × Turned s s' up x (s.parent x) r (s.child (other up) r)
rotate_links s t up x r is on e ne =
    let near = child-Around s t up x r is.holds is.once on e ne in
    let (s', run, turned) = rotate-Turned s up x (s.parent x) r (s.child (other up) r) near in
    let (h, at_top) =
      Turned-all s s' up x (s.parent x) r (s.child (other up) r) near turned 0 t is.holds is.once
        on in
    (
      s',
      run,
      record {
        rooted =
            turned.root_lem
            ∙ ap (λ b. if b then r else s.root) (root_test s t x is.holds on)
            ∙ ap (λ z. if top t == x then r else z) is.rooted
            ∙ sym at_top;
        holds = h;
        once = λ y. subst (λ n. n ≤ 1) (sym (count-turn up x y t)) (is.once y);
      },
      turned,
    )

-- A rotation at a node of a tree, with a child on the side that goes up, succeeds; the store then
-- holds the tree turned at the node, links to parents and the root included. The nodes are in the
-- same order, and every one has its colour.
pub rotate-IsTree :
    (s : Store) (t : Tree) (up : Side) (x : ℕ)
    → IsTree s t
    → 0 < count x t
    → s.child up x ≢ 0
    → (s' : Store) × (rotate up x s ≡ some s')
      × IsTree s' (turn up x t)
      × (inorder (turn up x t) ≡ inorder t)
      × ((a : ℕ) → s'.black a ≡ s.black a)
rotate-IsTree s t up x is on ne =
    let (s', run, is', turned) = rotate_links s t up x (s.child up x) is on refl ne in
    (s', run, is', inorder-turn up x t, turned.black_lem)
