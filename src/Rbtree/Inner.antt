-- ===== src/Rbtree/Inner.antt =====
-- rbtree.c: `rb_insert` where the uncle is black and the two red nodes are on different sides.
use mathlib.Core.Path.{subst}
use au_os.Prelude.{
  ℕ, ◌+◌, ◌<◌, ◌≡◌, ◌≢◌, refl, ap, sym, ◌∙◌, true, false, some, arith, if◌then◌else◌,
}
use au_os.Rbtree.{Side, left, right, other, Store, rb_red, rotate}
use au_os.Rbtree.Shape.{Tree, count, child-count}
use au_os.Rbtree.Turned.{Turned, Around}
use au_os.Rbtree.Risen.{eq_test, ne_test}
use au_os.Rbtree.Turn.{turn, count-turn}
use au_os.Rbtree.Depth.{child-ne, grandchild-ne, sibling_sides}
use au_os.Rbtree.Near.{child-Around}
use au_os.Rbtree.Colour.{Colours, weight, red_some, rb_red_same, turned_links, seen_child}
use au_os.Rbtree.RedPair.{IsRedPair, some_p, on_p, g-ne-p, p-ne-node, node-ne-g, node_parent}
use au_os.Rbtree.Rotate.{rotate_links}

module _ (s : Store) (t : Tree) (height : ℕ → ℕ) (node p g m : ℕ) (d up : Side)
    (pair : IsRedPair s t height node p g d up) (inner : s.child (other up) node ≡ m) (s' : Store)
    (near : Around s up p (s.parent p) node m) (turned : Turned s s' up p (s.parent p) node m) where
  red_lem : (a : ℕ) → rb_red s' a ≡ rb_red s a
  red_lem = rb_red_same s s' turned.black_lem

  some_height :
      (f : Side) (a c : ℕ)
      → 0 < count a t
      → s.child f a ≡ c
      → height a ≡ height c + weight (rb_red s c)
  some_height f a c on q =
      subst (λ y. height a ≡ height y + weight (rb_red s y)) q (pair.colours.even a on f)

  on_node : 0 < count node t
  on_node =
      subst (λ z. 0 < count z t) pair.p_child
        (child-count s 0 t up p pair.is.holds (on_p s t height node p g d up pair)
          (λ q. red_some s node pair.node_red (sym pair.p_child ∙ q)))

  height_p : height p ≡ height node
  height_p = omega (
    arith,
    some_height up p node (on_p s t height node p g d up pair) pair.p_child,
    ap weight pair.node_red,
  )

  Even : ℕ → ℕ → Type 0
  Even a c = height a ≡ height c + weight (rb_red s' c)

  Even-of : (a c : ℕ) → height a ≡ height c + weight (rb_red s c) → Even a c
  unfolding Even
  Even-of a c e = omega (arith, e, ap weight (red_lem c))

  Even-after : (a : ℕ) → 0 < count a (turn up p t) → (f : Side) → Even a (s'.child f a)
  Even-after =
      let on_p' = on_p s t height node p g d up pair in
      turned_links s s' t up p (s.parent p) node m near turned pair.is.holds Even
        (Even-of p m (height_p ∙ some_height (other up) node m on_node inner))
        (Even-of p (s.child (other up) p) (pair.colours.even p on_p' (other up)))
        (Even-of node (s.child up node) (pair.colours.even node on_node up))
        (Even-of node p (omega (arith, height_p, ap weight pair.p_red)))
        (λ a on f ap' an q. Even-of a node (
          omega (
            arith,
            some_height f a p on q,
            height_p,
            ap weight pair.p_red,
            ap weight pair.node_red,
          )))
        (λ a on f ap' an q. Even-of a (s.child f a) (pair.colours.even a on f))

  Clash : ℕ → ℕ → Type 0
  Clash a c = rb_red s' a ≡ true → rb_red s' c ≡ true → c ≡ p

  Clash-of : (a c : ℕ) → (rb_red s a ≡ true → rb_red s c ≡ true → ⊥) → Clash a c
  unfolding Clash
  Clash-of a c f red red' = absurd (f (sym (red_lem a) ∙ red) (sym (red_lem c) ∙ red'))

  Clash-after : (a : ℕ) → 0 < count a (turn up p t) → (f : Side) → Clash a (s'.child f a)
  unfolding Clash
  Clash-after =
      let on_p' = on_p s t height node p g d up pair in
      let node_off = red_some s node pair.node_red in
      turned_links s s' t up p (s.parent p) node m near turned pair.is.holds Clash
        (Clash-of p m (λ red red'.
          child-ne s t (other up) node m pair.is.holds pair.is.once on_node inner (
            sym (
              sym inner
              ∙ pair.colours.reds node on_node (other up) pair.node_red
                  (ap (rb_red s) inner ∙ red')))))
        (Clash-of p (s.child (other up) p) (λ red red'.
          sibling_sides s t up p node pair.is.holds pair.is.once on_p' node_off pair.p_child
            (pair.colours.reds p on_p' (other up) red red')))
        (Clash-of node (s.child up node) (λ red red'.
          child-ne s t up node (s.child up node) pair.is.holds pair.is.once on_node refl
            (sym (pair.colours.reds node on_node up red red'))))
        (λ red red'. refl)
        (λ a on f ap' an q. Clash-of a node (λ red red'.
          p-ne-node s t height node p g d up pair
            (sym q ∙ pair.colours.reds a on f red (ap (rb_red s) q ∙ pair.p_red))))
        (λ a on f ap' an q. Clash-of a (s.child f a) (λ red red'.
          ap'
            (node_parent s t height node p g d up pair a f on (pair.colours.reds a on f red red'))))

  inner-Colours : Colours s' (turn up p t) height p
  unfolding Even Clash
  inner-Colours = record {
    none_below = pair.colours.none_below;
    even = Even-after;
    reds = Clash-after;
  }

other-other : (d : Side) → other (other d) ≡ d
other-other left = refl
other-other right = refl

-- The rotation at the parent puts the two red nodes on one side.
pub turned_in :
    (s : Store) (t : Tree) (height : ℕ → ℕ) (node p g : ℕ) (d : Side)
    → IsRedPair s t height node p g d (other d)
    → rb_red s (s.child (other d) g) ≡ false
    → (s' : Store) × (rotate (other d) p s ≡ some s')
      × IsRedPair s' (turn (other d) p t) height p node g d d
      × (rb_red s' (s'.child (other d) g) ≡ false)
      × (s'.child (other d) node ≢ p)
turned_in s t height node p g d pair u_black =
    let on = on_p s t height node p g d (other d) pair in
    let nz = red_some s node pair.node_red in
    let near = child-Around s t (other d) p node pair.is.holds pair.is.once on pair.p_child nz in
    let (s', run, is', turned) = rotate_links s t (other d) p node pair.is on pair.p_child nz in
    let m = s.child (other (other d)) node in
    let of_g = λ (e : Side).
      seen_child s s' t (other d) p (s.parent p) node m g e near turned pair.is.holds pair.on_g
        (g-ne-p s t height node p g d (other d) pair)
        (λ q. node-ne-g s t height node p g d (other d) pair (sym q)) in
    let uncle_off =
      sibling_sides s t d g p pair.is.holds pair.is.once pair.on_g
        (some_p s t height node p g d (other d) pair) pair.g_child in
    let uncle : s'.child (other d) g ≡ s.child (other d) g =
      of_g (other d)
      ∙ ap (λ b. if b then node else s.child (other d) g)
          (ne_test (s.child (other d) g) p uncle_off) in
    (
      s',
      run,
      record {
        is = is';
        colours = inner-Colours s t height node p g m d (other d) pair refl s' near turned;
        node_red = rb_red_same s s' turned.black_lem p ∙ pair.p_red;
        p_red = rb_red_same s s' turned.black_lem node ∙ pair.node_red;
        on_g = subst (λ n. 0 < n) (sym (count-turn (other d) p g t)) pair.on_g;
        g_child =
            of_g d
            ∙ ap (λ b. if b then node else s.child d g) (eq_test (s.child d g) p pair.g_child);
        p_child = subst (λ e. s'.child e node ≡ p) (other-other d) turned.r_other;
      },
      rb_red_same s s' turned.black_lem (s'.child (other d) g) ∙ ap (rb_red s) uncle ∙ u_black,
      λ q.
          grandchild-ne s t (other d) (other d) p node pair.is.holds pair.is.once on pair.p_child nz
            (sym turned.r_up ∙ q),
    )
