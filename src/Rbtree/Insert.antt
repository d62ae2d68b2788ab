-- ===== src/Rbtree/Insert.antt =====
-- rbtree.c: what the loop of `rb_insert` leaves.
use au_os.Prelude.{
  ℕ, zero, suc, ◌+◌, ◌<◌, ◌≡◌, ◌≢◌, refl, ap, sym, ◌∙◌, inl, inr, true, false, some, arith, ◌==◌,
  Bool-cases,
}
use au_os.Rbtree.{
  Side, left, right, other, Store, side_of, set_color, rb_red, insert_rotate, insert_loop,
}
use au_os.Rbtree.Shape.{
  Tree, count, IsTree, child-parent, count-zero, ne_of_count, topmost, deeper, parent-IsBelow,
}
use au_os.Rbtree.Risen.{ne_test, eq_of_test, ne_of_test}
use au_os.Rbtree.Depth.{depth, child-depth, parent_child}
use au_os.Rbtree.Colour.{Colours, red_some, red_not_black}
use au_os.Rbtree.RedPair.{IsRedPair, on_p}
use au_os.Rbtree.Rotate.{top-parent}
use au_os.Rbtree.Recolour.{
  recoloured, raised, recoloured-IsTree, recoloured-Colours, recoloured_red, recoloured_root,
}
use au_os.Rbtree.Mended.{IsMended, IsMended-rotate}

-- The branches of the loop.
loop_stop :
    (fuel node p : ℕ) (s : Store) → rb_red s p ≡ false → insert_loop (suc fuel) node p s ≡ some s
unfolding insert_loop
loop_stop fuel node p s e = rw e refl

loop_up :
    (fuel node p g u : ℕ) (d : Side) (s : Store)
    → rb_red s p ≡ true
    → s.parent p ≡ g
    → g ≢ 0
    → side_of s g p ≡ d
    → s.child (other d) g ≡ u
    → rb_red s u ≡ true
    → insert_loop (suc fuel) node p s ≡ insert_loop fuel g (s.parent g) (recoloured g p u s)
unfolding insert_loop recoloured
loop_up fuel node p g u d s e eg ne ed eu e' = rw (e, eg, ed, eu, e', ne_test g 0 ne) refl

loop_rotate :
    (fuel node p g : ℕ) (d : Side) (s : Store)
    → rb_red s p ≡ true
    → s.parent p ≡ g
    → g ≢ 0
    → side_of s g p ≡ d
    → rb_red s (s.child (other d) g) ≡ false
    → insert_loop (suc fuel) node p s ≡ insert_rotate d node p g s
unfolding insert_loop
loop_rotate fuel node p g d s e eg ne ed e' = rw (e, eg, ed, e', ne_test g 0 ne) refl

side_of-child : (s : Store) (g p : ℕ) (d : Side) → s.child d g ≡ p → s.child (side_of s g p) g ≡ p
side_of-child s g p d e = elim (Bool-cases (p == s.child left g)) [
  | inl on_left ↦ rw on_left (sym (eq_of_test p (s.child left g) on_left))
  | inr off ↦ rw off (at_right d e (ne_of_test p (s.child left g) off))
]
  where
    at_right : (d : Side) → s.child d g ≡ p → p ≢ s.child left g → s.child right g ≡ p
    at_right left e ne = absurd (ne (sym e))
    at_right right e ne = e

-- A root that is red is not below another node.
root_black :
    (s : Store) (t : Tree) (node : ℕ)
    → IsTree s t
    → 0 < count node t
    → s.parent node ≢ 0
    → (rb_red s s.root ≡ true → s.root ≡ node)
    → rb_red s s.root ≡ false
root_black s t node is on ne f = elim (Bool-cases (rb_red s s.root)) [
  | inr black ↦ black
  | inl red ↦
      let e = sym is.rooted ∙ f red in
      absurd (
        ne (
          ap s.parent (sym e)
          ∙ top-parent s 0 t is.holds (λ q. red_some s s.root red (is.rooted ∙ q))))
]

top_of : (s : Store) (t : Tree) (x : ℕ) → IsTree s t → 0 < count x t → s.parent x ≡ 0 → x ≡ s.root
top_of s t x is on q = elim (parent-IsBelow s 0 t x is.holds on) [
  | topmost e ep ↦ e ∙ sym is.rooted
  | deeper d on_p e ↦ absurd (ne_of_count t (s.parent x) 0 on_p (count-zero s 0 t is.holds) q)
]

deeper_by :
    (s : Store) (t : Tree) (d : Side) (x y : ℕ)
    → IsTree s t
    → 0 < count x t
    → s.child d x ≡ y
    → y ≢ 0
    → depth y t ≡ depth x t + 1
deeper_by s t d x y is on e ne =
    ap (λ z. depth z t) (sym e) ∙ child-depth s 0 t d x is.holds is.once on (λ q. ne (sym e ∙ q))

-- Where no red node has a red parent, `node` is no exception.
no_pair :
    (s : Store) (t : Tree) (height : ℕ → ℕ) (node : ℕ)
    → IsTree s t
    → Colours s t height node
    → rb_red s (s.parent node) ≡ false
    → rb_red s node ≡ true
    → Colours s t height 0
no_pair s t height node is colours black red = record {
  none_below = colours.none_below;
  even = colours.even;
  reds = λ a on e red_a red_c.
      let q = colours.reds a on e red_a red_c in
      let e' = child-parent s 0 t e a is.holds on (red_some s (s.child e a) red_c) in
      absurd (red_not_black (rb_red s a) red_a (ap (rb_red s) (sym e' ∙ ap s.parent q) ∙ black));
}

pub insert_loop-IsMended :
    (fuel : ℕ) (s : Store) (t : Tree) (height : ℕ → ℕ) (node : ℕ)
    → IsTree s t
    → Colours s t height node
    → 0 < count node t
    → rb_red s node ≡ true
    → (rb_red s s.root ≡ true → s.root ≡ node)
    → depth node t < fuel
    → (s' : Store) × (insert_loop fuel node (s.parent node) s ≡ some s') × IsMended t s'
unfolding recoloured set_color
insert_loop-IsMended zero s t height node is colours on red root enough = absurd (omega arith)
insert_loop-IsMended (suc fuel) s t height node is colours on red root enough =
    let p = s.parent node in
    elim (Bool-cases (rb_red s p)) [
      | inr black ↦ (
        s,
        loop_stop fuel node p s black,
        record {
          tree = t;
          height = height;
          is = is;
          colours = no_pair s t height node is colours black red;
          order = refl;
        },
      )
      | inl p_red ↦
          let pz = red_some s p p_red in
          let (e, on_p, p_child) = parent_child s t node is.holds on pz in
          let black_root = root_black s t node is on pz root in
          let gz : s.parent p ≢ 0 = λ q.
            red_not_black (rb_red s p) p_red
              (ap (rb_red s) (top_of s t p is on_p q) ∙ black_root) in
          let g = s.parent p in
          let (d0, on_g, g_child) = parent_child s t p is.holds on_p gz in
          let d = side_of s g p in
          let pair : IsRedPair s t height node p g d e = record {
            is = is;
            colours = colours;
            node_red = red;
            p_red = p_red;
            on_g = on_g;
            g_child = side_of-child s g p d0 g_child;
            p_child = p_child;
          } in
          elim (Bool-cases (rb_red s (s.child (other d) g))) [
            | inl u_red ↦
                let u = s.child (other d) g in
                let ih =
                  insert_loop-IsMended fuel (recoloured g p u s) t (raised height g) g
                    (recoloured-IsTree s t height node p g u d e pair refl u_red)
                    (recoloured-Colours s t height node p g u d e pair refl u_red) on_g
                    (recoloured_red s t height node p g u d e pair refl u_red)
                    (recoloured_root s t height node p g u d e pair refl u_red black_root)
                    (omega (
                      arith,
                      enough,
                      deeper_by s t e p node is on_p p_child (red_some s node red),
                      deeper_by s t d0 g p is on_g g_child pz,
                    )) in
                (ih.0, loop_up fuel node p g u d s p_red refl gz refl refl u_red ∙ ih.1, ih.2)
            | inr u_black ↦
                let (s', run, mended) = IsMended-rotate s t height node p g d e pair u_black in
                (s', loop_rotate fuel node p g d s p_red refl gz refl u_black ∙ run, mended)
          ]
    ]
