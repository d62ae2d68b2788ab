-- ===== src/Rbtree/Mended.antt =====
-- rbtree.c: the rotations of `rb_insert`.
use au_os.Prelude.{ℕ, ◌≡◌, ◌≢◌, ap, sym, ◌∙◌, inl, inr, false, some, ◌==◌, Bool-cases}
use au_os.Rbtree.{Side, other, Store, and_then, rb_red, turn_up, insert_rotate}
use au_os.Rbtree.Shape.{Tree, inorder, IsTree}
use au_os.Rbtree.Risen.{eq_of_test, ne_of_test}
use au_os.Rbtree.Turn.{turn, inorder-turn}
use au_os.Rbtree.Colour.{Colours, by_side}
use au_os.Rbtree.RedPair.{IsRedPair}
use au_os.Rbtree.Straight.{turned_up}
use au_os.Rbtree.Inner.{turned_in}

-- A store that holds the nodes of `t` in their order, with no red node below a red one.
pub record IsMended (t : Tree) (s' : Store) : Type 0 where
  pub tree : Tree
  pub height : ℕ → ℕ
  pub is : IsTree s' tree
  pub colours : Colours s' tree height 0
  pub order : inorder tree ≡ inorder t

-- The branch with rotations.
pub IsMended-rotate :
    (s : Store) (t : Tree) (height : ℕ → ℕ) (node p g : ℕ) (d e : Side)
    → IsRedPair s t height node p g d e
    → rb_red s (s.child (other d) g) ≡ false
    → (s' : Store) × (insert_rotate d node p g s ≡ some s') × IsMended t s'
unfolding insert_rotate
IsMended-rotate s t height node p g d e pair u_black =
    elim (Bool-cases (node == s.child (other d) p)) [
      | inl crossed ↦
          let q = eq_of_test node (s.child (other d) p) crossed in
          let pair' : IsRedPair s t height node p g d (other d) = record {
            is = pair.is;
            colours = pair.colours;
            node_red = pair.node_red;
            p_red = pair.p_red;
            on_g = pair.on_g;
            g_child = pair.g_child;
            p_child = sym q;
          } in
          let (s1, run, pair1, u_black1, off) = turned_in s t height node p g d pair' u_black in
          let (s2, run', is, colours) =
            turned_up s1 (turn (other d) p t) height p node g d pair1 u_black1 off in
          (
            s2,
            rw crossed (ap (λ o. and_then o (λ s'. turn_up d node g s')) run ∙ run'),
            record {
              tree = turn d g (turn (other d) p t);
              height = height;
              is = is;
              colours = colours;
              order = inorder-turn d g (turn (other d) p t) ∙ inorder-turn (other d) p t;
            },
          )
      | inr straight ↦
          let off : s.child (other d) p ≢ node =
            λ q. ne_of_test node (s.child (other d) p) straight (sym q) in
          let pair' : IsRedPair s t height node p g d d = record {
            is = pair.is;
            colours = pair.colours;
            node_red = pair.node_red;
            p_red = pair.p_red;
            on_g = pair.on_g;
            g_child = pair.g_child;
            p_child =
                by_side d e (λ f. s.child f p ≡ node → s.child d p ≡ node) (λ q. q)
                  (λ q. absurd (off q)) pair.p_child;
          } in
          let (s', run, is, colours) = turned_up s t height node p g d pair' u_black off in
          (
            s',
            rw straight run,
            record {
              tree = turn d g t;
              height = height;
              is = is;
              colours = colours;
              order = inorder-turn d g t;
            },
          )
    ]
