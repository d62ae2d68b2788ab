-- ===== src/Rbtree/Straight.antt =====
-- rbtree.c: `rb_insert` where the uncle is black and the two red nodes are on one side.
use mathlib.Core.Path.{subst}
use au_os.Prelude.{
  ℕ, ◌+◌, ◌<◌, ◌≡◌, ◌≢◌, refl, ap, sym, ◌∙◌, inl, inr, Bool, true, false, some, arith, ◌==◌,
  if◌then◌else◌, Bool-cases,
}
use au_os.Rbtree.{Side, other, Store, and_then, set_color, rb_red, turn_up}
use au_os.Rbtree.Shape.{Tree, count, IsTree}
use au_os.Rbtree.Turned.{Turned, Around}
use au_os.Rbtree.Risen.{eq_test, ne_test}
use au_os.Rbtree.Turn.{turn}
use au_os.Rbtree.Depth.{child-ne, grandchild-ne}
use au_os.Rbtree.Near.{child-Around}
use au_os.Rbtree.Colour.{
  Colours, weight, red_not_black, rb_red-set_color, rb_red_same, set_color-IsTree, turned_links,
}
use au_os.Rbtree.RedPair.{IsRedPair, some_p, some_g, on_p, g-ne-p, g_black, node_parent, p_parent}
use au_os.Rbtree.Rotate.{rotate_links}

pub swapped : (g p : ℕ) → Store → Store
unfolding set_color
swapped g p s = set_color g false (set_color p true s)

red_after :
    (s s' : Store) (g p a : ℕ)
    → ((b : ℕ) → s'.black b ≡ s.black b)
    → g ≢ 0
    → p ≢ 0
    → rb_red (swapped g p s') a ≡ (if a == g then true else if a == p then false else rb_red s a)
unfolding swapped
red_after s s' g p a same gz pz =
    rb_red-set_color (set_color p true s') g a false gz
    ∙ ap (λ b. if a == g then true else b)
        (rb_red-set_color s' p a true pz
          ∙ ap (λ b. if a == p then false else b) (rb_red_same s s' same a))

module _ (s : Store) (t : Tree) (height : ℕ → ℕ) (node p g u m : ℕ) (d : Side)
    (pair : IsRedPair s t height node p g d d) (uncle : s.child (other d) g ≡ u)
    (u_black : rb_red s u ≡ false) (inner : s.child (other d) p ≡ m) (m-ne-node : m ≢ node)
    (s' : Store) (near : Around s d g (s.parent g) p m)
    (turned : Turned s s' d g (s.parent g) p m) where
  after : ℕ → Bool
  after a = rb_red (swapped g p s') a

  red_lem : (a : ℕ) → after a ≡ (if a == g then true else if a == p then false else rb_red s a)
  unfolding after
  red_lem a =
      red_after s s' g p a turned.black_lem (some_g s t height node p g d d pair)
        (some_p s t height node p g d d pair)

  after_g : after g ≡ true
  after_g = red_lem g ∙ rw (eq_test g g refl) refl

  after_p : after p ≡ false
  after_p =
      red_lem p
      ∙ rw (ne_test p g (λ q. g-ne-p s t height node p g d d pair (sym q)), eq_test p p refl) refl

  after_off : (a : ℕ) → a ≢ g → a ≢ p → after a ≡ rb_red s a
  after_off a ag ap' = red_lem a ∙ rw (ne_test a g ag, ne_test a p ap') refl

  Even : ℕ → ℕ → Type 0
  Even a c = height a ≡ height c + weight (after c)

  -- A link that stays.
  Even-same : (a c : ℕ) → height a ≡ height c + weight (rb_red s c) → c ≢ g → c ≢ p → Even a c
  unfolding Even
  Even-same a c up cg cp = omega (arith, up, ap weight (after_off c cg cp))

  some_height :
      (f : Side) (a c : ℕ)
      → 0 < count a t
      → s.child f a ≡ c
      → height a ≡ height c + weight (rb_red s c)
  some_height f a c on q =
      subst (λ y. height a ≡ height y + weight (rb_red s y)) q (pair.colours.even a on f)

  height_p : height g ≡ height p
  height_p = omega (arith, some_height d g p pair.on_g pair.g_child, ap weight pair.p_red)

  off_g : (f : Side) (c : ℕ) → s.child f p ≡ c → c ≢ g
  off_g f c q z =
      grandchild-ne s t d f g p pair.is.holds pair.is.once pair.on_g pair.g_child
        (some_p s t height node p g d d pair) (q ∙ z)

  Even-after : (a : ℕ) → 0 < count a (turn d g t) → (f : Side) → Even a (s'.child f a)
  unfolding Even
  Even-after =
      let on_p' = on_p s t height node p g d d pair in
      turned_links s s' t d g (s.parent g) p m near turned pair.is.holds Even
        (omega (
          arith,
          height_p,
          Even-same p m (some_height (other d) p m on_p' inner) (off_g (other d) m inner)
              (λ q. child-ne s t (other d) p m pair.is.holds pair.is.once on_p' inner (sym q)),
        ))
        (subst (Even g) (sym uncle) (
          Even-same g u (some_height (other d) g u pair.on_g uncle)
            (λ q. child-ne s t (other d) g u pair.is.holds pair.is.once pair.on_g uncle (sym q))
            (λ q. red_not_black (rb_red s u) (ap (rb_red s) q ∙ pair.p_red) u_black)))
        (Even-same p (s.child d p) (pair.colours.even p on_p' d) (off_g d (s.child d p) refl)
          (λ q. child-ne s t d p (s.child d p) pair.is.holds pair.is.once on_p' refl (sym q)))
        (omega (arith, height_p, ap weight after_g))
        (λ a on f ag ap' q. omega (
          arith,
          some_height f a g on q,
          ap weight (g_black s t height node p g d d pair),
          height_p,
          ap weight after_p,
        ))
        (λ a on f ag ap' q.
          Even-same a (s.child f a) (pair.colours.even a on f) q
            (λ z. ag (p_parent s t height node p g d d pair a f on z)))

  Clash : ℕ → ℕ → Type 0
  Clash a c = after a ≡ true → after c ≡ true → ⊥

  Clash-black : (a c : ℕ) → rb_red s c ≡ false → c ≢ g → c ≢ p → Clash a c
  unfolding Clash
  Clash-black a c black cg cp red red' =
      red_not_black (rb_red s c) (sym (after_off c cg cp) ∙ red') black

  m_black : rb_red s m ≡ false
  m_black = elim (Bool-cases (rb_red s m)) [
    | inl red ↦ absurd (
        m-ne-node (
          sym inner
          ∙ pair.colours.reds p (on_p s t height node p g d d pair) (other d) pair.p_red
              (ap (rb_red s) inner ∙ red)))
    | inr black ↦ black
  ]

  Clash-after : (a : ℕ) → 0 < count a (turn d g t) → (f : Side) → Clash a (s'.child f a)
  unfolding Clash
  Clash-after =
      let on_p' = on_p s t height node p g d d pair in
      turned_links s s' t d g (s.parent g) p m near turned pair.is.holds Clash
        (Clash-black g m m_black (off_g (other d) m inner)
          (λ q. child-ne s t (other d) p m pair.is.holds pair.is.once on_p' inner (sym q)))
        (subst (Clash g) (sym uncle) (
          Clash-black g u u_black
            (λ q. child-ne s t (other d) g u pair.is.holds pair.is.once pair.on_g uncle (sym q))
            (λ q. red_not_black (rb_red s u) (ap (rb_red s) q ∙ pair.p_red) u_black)))
        (λ red red'. red_not_black (after p) red after_p)
        (λ red red'. red_not_black (after p) red after_p)
        (λ a on f ag ap' q red red'. red_not_black (after p) red' after_p)
        (λ a on f ag ap' q red red'.
          let cp : s.child f a ≢ p = λ z. ag (p_parent s t height node p g d d pair a f on z) in
          let z =
            pair.colours.reds a on f (sym (after_off a ag ap') ∙ red)
              (sym (after_off (s.child f a) q cp) ∙ red') in
          ap' (node_parent s t height node p g d d pair a f on z))

  swapped-Colours : Colours (swapped g p s') (turn d g t) height 0
  unfolding swapped set_color after Even Clash
  swapped-Colours = record {
    none_below = pair.colours.none_below;
    even = Even-after;
    reds = λ a on f red red'. absurd (Clash-after a on f red red');
  }

-- The rotation at the grandparent ends it.
pub turned_up :
    (s : Store) (t : Tree) (height : ℕ → ℕ) (node p g : ℕ) (d : Side)
    → IsRedPair s t height node p g d d
    → rb_red s (s.child (other d) g) ≡ false
    → s.child (other d) p ≢ node
    → (s' : Store) × (turn_up d p g s ≡ some s')
      × IsTree s' (turn d g t)
      × Colours s' (turn d g t) height 0
unfolding turn_up swapped
turned_up s t height node p g d pair u_black ne =
    let pz = some_p s t height node p g d d pair in
    let near' = child-Around s t d g p pair.is.holds pair.is.once pair.on_g pair.g_child pz in
    let (s', run, is', turned) = rotate_links s t d g p pair.is pair.on_g pair.g_child pz in
    (
      swapped g p s',
      ap (λ o. and_then o (λ s'. some (set_color g false (set_color p true s')))) run,
      set_color-IsTree (set_color p true s') (turn d g t) g false
          (set_color-IsTree s' (turn d g t) p true is'),
      swapped-Colours s t height node p g (s.child (other d) g) (s.child (other d) p) d pair refl
          u_black refl ne s' near' turned,
    )
