-- ===== src/Rbtree/Recolour.antt =====
-- rbtree.c: `rb_insert` where the uncle is red.
use mathlib.Core.Path.{subst}
use au_os.Prelude.{
  ℕ, ◌+◌, ◌<◌, ◌≡◌, ◌≢◌, refl, ap, sym, ◌∙◌, inl, inr, ◌⊎◌, Bool, true, false, ◌||◌, arith, ◌==◌,
  if◌then◌else◌, Bool-cases,
}
use au_os.Rbtree.{Side, other, Store, set_color, rb_red}
use au_os.Rbtree.Shape.{Tree, count, IsTree, child-parent}
use au_os.Rbtree.Risen.{eq_test, ne_test, eq_of_test, ne_of_test}
use au_os.Rbtree.Depth.{child-ne}
use au_os.Rbtree.Colour.{
  Colours, weight, red_some, red_not_black, rb_red-set_color, set_color-IsTree, by_side,
}
use au_os.Rbtree.RedPair.{IsRedPair, some_p, some_g, g-ne-p, g_black, node_parent, p_parent}

pub raised : (ℕ → ℕ) → ℕ → ℕ → ℕ
raised height g a = if a == g then height g + 1 else height a

unfoldable pub recoloured : (g p u : ℕ) → Store → Store
unfolding set_color
recoloured g p u s = set_color u true (set_color p true (set_color g false s))

-- The colours after it.
red_after :
    (s : Store) (g p u a : ℕ)
    → g ≢ 0
    → p ≢ 0
    → u ≢ 0
    → g ≢ p
    → g ≢ u
    → rb_red (recoloured g p u s) a
      ≡ (if a == g then true else if a == u || a == p then false else rb_red s a)
unfolding recoloured
red_after s g p u a gz pz uz gp gu =
    rb_red-set_color (set_color p true (set_color g false s)) u a true uz
    ∙ ap (λ b. if a == u then false else b)
        (rb_red-set_color (set_color g false s) p a true pz
          ∙ ap (λ b. if a == p then false else b) (rb_red-set_color s g a false gz))
    ∙ by_tests (rb_red s a) (Bool-cases (a == g)) (Bool-cases (a == u))
  where
    Tests : Bool → Type 0
    Tests b = (b ≡ true) ⊎ (b ≡ false)

    by_tests :
        (b : Bool)
        → Tests (a == g)
        → Tests (a == u)
        → (if a == u then false else if a == p then false else if a == g then true else b)
          ≡ (if a == g then true else if a == u || a == p then false else b)
    by_tests b (inl at_g) at_u =
        let q = eq_of_test a g at_g in
        rw (at_g, ne_test a u (λ z. gu (sym q ∙ z)), ne_test a p (λ z. gp (sym q ∙ z))) refl
    by_tests b (inr off_g) (inl at_u) = rw (off_g, at_u) refl
    by_tests b (inr off_g) (inr off_u) = rw (off_g, off_u) refl

raised_at : (height : ℕ → ℕ) (g : ℕ) → raised height g g ≡ height g + 1
unfolding raised
raised_at height g = rw (eq_test g g refl) refl

raised_off : (height : ℕ → ℕ) (g a : ℕ) → a ≢ g → raised height g a ≡ height a
unfolding raised
raised_off height g a ne = rw (ne_test a g ne) refl

module _ (s : Store) (t : Tree) (height : ℕ → ℕ) (node p g u : ℕ) (d e : Side)
    (pair : IsRedPair s t height node p g d e) (uncle : s.child (other d) g ≡ u)
    (u_red : rb_red s u ≡ true) where
  u_off : u ≢ 0
  u_off = red_some s u u_red

  g-ne-u : g ≢ u
  g-ne-u = child-ne s t (other d) g u pair.is.holds pair.is.once pair.on_g uncle

  after : ℕ → Bool
  after a = rb_red (recoloured g p u s) a

  red_lem :
      (a : ℕ) → after a ≡ (if a == g then true else if a == u || a == p then false else rb_red s a)
  unfolding after
  red_lem a =
      red_after s g p u a (some_g s t height node p g d e pair)
        (some_p s t height node p g d e pair) u_off (g-ne-p s t height node p g d e pair) g-ne-u

  after_g : after g ≡ true
  after_g = red_lem g ∙ rw (eq_test g g refl) refl

  after_u : after u ≡ false
  after_u = red_lem u ∙ rw (ne_test u g (λ q. g-ne-u (sym q)), eq_test u u refl) refl

  after_p : after p ≡ false
  after_p =
      red_lem p
      ∙ rw (ne_test p g (λ q. g-ne-p s t height node p g d e pair (sym q)), eq_test p p refl)
          (drop (p == u))
    where
      drop : (b : Bool) → (if b || true then false else rb_red s p) ≡ false
      drop true = refl
      drop false = refl

  after_off : (a : ℕ) → a ≢ g → a ≢ u → a ≢ p → after a ≡ rb_red s a
  after_off a ag au ap' = red_lem a ∙ rw (ne_test a g ag, ne_test a u au, ne_test a p ap') refl

  -- A node with `u` as its child is `g`.
  u_parent : (a : ℕ) (f : Side) → 0 < count a t → s.child f a ≡ u → a ≡ g
  u_parent a f on q =
      sym (child-parent s 0 t f a pair.is.holds on (λ z. u_off (sym q ∙ z)))
      ∙ ap s.parent (q ∙ sym uncle)
      ∙ child-parent s 0 t (other d) g pair.is.holds pair.on_g (λ z. u_off (sym uncle ∙ z))

  Even : ℕ → ℕ → Type 0
  Even a c = raised height g a ≡ raised height g c + weight (after c)

  Even-below :
      (c : ℕ) (f : Side) → s.child f g ≡ c → c ≢ g → rb_red s c ≡ true → after c ≡ false → Even g c
  unfolding Even
  Even-below c f q ne red black =
      let up : height g ≡ height c + weight (rb_red s c) =
        subst (λ y. height g ≡ height y + weight (rb_red s y)) q
          (pair.colours.even g pair.on_g f) in
      omega
        (arith, raised_at height g, raised_off height g c ne, up, ap weight red, ap weight black)

  Even-after : (a : ℕ) → 0 < count a t → (f : Side) → Even a (s.child f a)
  unfolding Even
  Even-after a on f = elim (Bool-cases (a == g)) [
    | inl at_g ↦
        subst (λ y. Even y (s.child f y)) (sym (eq_of_test a g at_g))
          (by_side d f (λ f. Even g (s.child f g))
            (subst (Even g) (sym pair.g_child) (
              Even-below p d pair.g_child (λ q. g-ne-p s t height node p g d e pair (sym q))
                pair.p_red after_p))
            (subst (Even g) (sym uncle)
              (Even-below u (other d) uncle (λ q. g-ne-u (sym q)) u_red after_u)))
    | inr off_g ↦
        let ne = ne_of_test a g off_g in
        let c = s.child f a in
        let up = pair.colours.even a on f in
        elim (Bool-cases (c == g)) [
          | inl to_g ↦
              let up' =
                subst (λ y. height a ≡ height y + weight (rb_red s y)) (eq_of_test c g to_g) up in
              subst (Even a) (sym (eq_of_test c g to_g)) (
                omega (
                  arith,
                  raised_off height g a ne,
                  raised_at height g,
                  up',
                  ap weight (g_black s t height node p g d e pair),
                  ap weight after_g,
                ))
          | inr off ↦
              let ne' = ne_of_test c g off in
              let same =
                after_off c ne' (λ q. ne (u_parent a f on q))
                  (λ q. ne (p_parent s t height node p g d e pair a f on q)) in
              omega (arith, raised_off height g a ne, raised_off height g c ne', up, ap weight same)
        ]
  ]

  not_red : (a b : ℕ) → after b ≡ false → after a ≡ true → a ≢ b
  not_red a b black red q = red_not_black (after b) (ap after (sym q) ∙ red) black

  reds_after :
      (a : ℕ)
      → 0 < count a t
      → (f : Side) → after a ≡ true
      → after (s.child f a) ≡ true
      → s.child f a ≡ g
  reds_after a on f red red' = elim (Bool-cases (s.child f a == g)) [
    | inl to_g ↦ eq_of_test (s.child f a) g to_g
    | inr off ↦
        let at_c =
          after_off (s.child f a) (ne_of_test (s.child f a) g off)
            (not_red (s.child f a) u after_u red') (not_red (s.child f a) p after_p red') in
        elim (Bool-cases (a == g)) [
          | inl at_g ↦ absurd (
              by_side d f (λ f. after (s.child f g) ≡ true → ⊥)
                (λ q. red_not_black (after p) (ap after (sym pair.g_child) ∙ q) after_p)
                (λ q. red_not_black (after u) (ap after (sym uncle) ∙ q) after_u)
                (ap (λ y. after (s.child f y)) (sym (eq_of_test a g at_g)) ∙ red'))
          | inr off_g ↦
              let off_p = not_red a p after_p red in
              let at_a = after_off a (ne_of_test a g off_g) (not_red a u after_u red) off_p in
              let q = pair.colours.reds a on f (sym at_a ∙ red) (sym at_c ∙ red') in
              absurd (off_p (node_parent s t height node p g d e pair a f on q))
        ]
  ]

  pub recoloured-IsTree : IsTree (recoloured g p u s) t
  unfolding recoloured
  recoloured-IsTree =
      set_color-IsTree (set_color p true (set_color g false s)) t u true
        (set_color-IsTree (set_color g false s) t p true (set_color-IsTree s t g false pair.is))

  pub recoloured-Colours : Colours (recoloured g p u s) t (raised height g) g
  unfolding recoloured after set_color Even
  recoloured-Colours = record {
    none_below =
        raised_off height g 0 (λ q. some_g s t height node p g d e pair (sym q))
        ∙ pair.colours.none_below;
    even = Even-after;
    reds = reds_after;
  }

  pub recoloured_red : rb_red (recoloured g p u s) g ≡ true
  unfolding after
  recoloured_red = after_g

  -- The root stays black but where it is the grandparent.
  pub recoloured_root :
      rb_red s s.root ≡ false
      → rb_red (recoloured g p u s) (recoloured g p u s).root ≡ true
      → (recoloured g p u s).root ≡ g
  unfolding after recoloured set_color
  recoloured_root black red = elim (Bool-cases (s.root == g)) [
    | inl at_g ↦ eq_of_test s.root g at_g
    | inr off ↦ absurd (
        red_not_black (rb_red s s.root)
          (sym (
              after_off s.root (ne_of_test s.root g off) (not_red s.root u after_u red)
                (not_red s.root p after_p red))
            ∙ red)
          black)
  ]
