-- ===== src/Rbtree/RedPair.antt =====
-- rbtree.c: a red node below a red node, where `rb_insert` has work to do.
use mathlib.Core.Path.{subst}
use au_os.Prelude.{ℕ, ◌<◌, ◌≡◌, ◌≢◌, ap, sym, ◌∙◌, inl, inr, true, false, Bool-cases}
use au_os.Rbtree.{Side, Store, rb_red}
use au_os.Rbtree.Shape.{
  Tree, count, Holds, IsTree, child-count, child-parent, count-zero, ne_of_count,
}
use au_os.Rbtree.Depth.{child-ne, grandchild-ne}
use au_os.Rbtree.Colour.{Colours, red_some}

-- `node` is red below a red `p`, which is below `g`.
pub record IsRedPair (s : Store) (t : Tree) (height : ℕ → ℕ) (node p g : ℕ) (d e : Side)
    : Type 0 where
  pub is : IsTree s t
  pub colours : Colours s t height node
  pub node_red : rb_red s node ≡ true
  pub p_red : rb_red s p ≡ true
  pub on_g : 0 < count g t
  pub g_child : s.child d g ≡ p
  pub p_child : s.child e p ≡ node

module _ (s : Store) (t : Tree) (height : ℕ → ℕ) (node p g : ℕ) (d e : Side)
    (pair : IsRedPair s t height node p g d e) where
  pub holds : Holds s 0 t
  holds = pair.is.holds

  pub some_p : p ≢ 0
  some_p = red_some s p pair.p_red

  pub some_g : g ≢ 0
  some_g = ne_of_count t g 0 pair.on_g (count-zero s 0 t holds)

  pub on_p : 0 < count p t
  on_p =
      subst (λ z. 0 < count z t) pair.g_child
        (child-count s 0 t d g holds pair.on_g (λ q. some_p (sym pair.g_child ∙ q)))

  pub g-ne-p : g ≢ p
  g-ne-p = child-ne s t d g p holds pair.is.once pair.on_g pair.g_child

  pub p-ne-node : p ≢ node
  p-ne-node = child-ne s t e p node holds pair.is.once on_p pair.p_child

  pub node-ne-g : node ≢ g
  node-ne-g = λ q.
      grandchild-ne s t d e g p holds pair.is.once pair.on_g pair.g_child some_p (pair.p_child ∙ q)

  -- The grandparent is black.
  pub g_black : rb_red s g ≡ false
  g_black = elim (Bool-cases (rb_red s g)) [
    | inl red ↦ absurd (
        p-ne-node (
          sym pair.g_child
          ∙ pair.colours.reds g pair.on_g d red (ap (rb_red s) pair.g_child ∙ pair.p_red)))
    | inr black ↦ black
  ]

  -- A node with `node` as its child is `p`.
  pub node_parent : (a : ℕ) (f : Side) → 0 < count a t → s.child f a ≡ node → a ≡ p
  node_parent a f on q =
      let some = red_some s node pair.node_red in
      sym (child-parent s 0 t f a holds on (λ z. some (sym q ∙ z)))
      ∙ ap s.parent (q ∙ sym pair.p_child)
      ∙ child-parent s 0 t e p holds on_p (λ z. some (sym pair.p_child ∙ z))

  -- A node with `p` as its child is `g`.
  pub p_parent : (a : ℕ) (f : Side) → 0 < count a t → s.child f a ≡ p → a ≡ g
  p_parent a f on q =
      sym (child-parent s 0 t f a holds on (λ z. some_p (sym q ∙ z)))
      ∙ ap s.parent (q ∙ sym pair.g_child)
      ∙ child-parent s 0 t d g holds pair.on_g (λ z. some_p (sym pair.g_child ∙ z))
