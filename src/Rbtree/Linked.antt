-- ===== src/Rbtree/Linked.antt =====
-- rbtree.h: the colours after `rb_link`.
use mathlib.Core.Path.{subst}
use au_os.Prelude.{
  ℕ, ◌+◌, ◌≤◌, ◌<◌, ◌≡◌, ◌≢◌, refl, ap, sym, ◌∙◌, inl, inr, ◌⊎◌, true, false, not, ◌&&◌, arith,
  ◌==◌, if◌then◌else◌, Bool-cases,
}
use au_os.Rbtree.{Side, other, Store, set_child, set_parent, set_color, rb_red, rb_link}
use au_os.Rbtree.Shape.{Tree, count, IsTree, child-count, count-zero, ne_of_count}
use au_os.Rbtree.Risen.{ne_test, eq_test, eq_of_test, ne_of_test}
use au_os.Rbtree.Colour.{Colours, weight, rb_red_zero, red_some, by_side}
use au_os.Rbtree.Link.{plant, at_link, at_other, at_node, far, linked-black}
use au_os.Rbtree.Planted.{IsPlanted, rb_link-IsPlanted}

pub linked-red :
    (s : Store) (node parent : ℕ) (d : Side) (a : ℕ)
    → node ≢ 0
    → rb_red (rb_link node parent d s) a ≡ (if a == node then true else rb_red s a)
unfolding rb_red
linked-red s node parent d a ne =
    ap (λ b. not (a == 0) && not b) (linked-black s node parent d a)
    ∙ by_test (Bool-cases (a == node))
  where
    by_test :
        ((a == node) ≡ true) ⊎ ((a == node) ≡ false)
        → (not (a == 0) && not (if a == node then false else s.black a))
          ≡ (if a == node then true else not (a == 0) && not (s.black a))
    by_test (inl here) = rw (here, ne_test a 0 (λ q. ne (sym (eq_of_test a node here) ∙ q))) refl
    by_test (inr off) = rw off refl

unfoldable pub levels : (ℕ → ℕ) → ℕ → ℕ → ℕ
levels height node a = if a == node then 1 else height a

levels_at : (height : ℕ → ℕ) (node : ℕ) → levels height node node ≡ 1
unfolding levels
levels_at height node = rw (eq_test node node refl) refl

levels_off : (height : ℕ → ℕ) (node a : ℕ) → a ≢ node → levels height node a ≡ height a
unfolding levels
levels_off height node a ne = rw (ne_test a node ne) refl

module _ (s : Store) (t : Tree) (height : ℕ → ℕ) (node parent : ℕ) (d : Side) (is : IsTree s t)
    (colours : Colours s t height 0) (on : 0 < count parent t) (off : count node t ≡ 0)
    (some : node ≢ 0) (free : s.child d parent ≡ 0) where
  ne : parent ≢ 0
  ne = ne_of_count t parent 0 on (count-zero s 0 t is.holds)

  apart : node ≢ parent
  apart = λ q. ne_of_count t parent node on off (sym q)

  -- What holds of the new links and of the old ones.
  link_cases :
      (P : ℕ → ℕ → Type 0)
      → P node 0
      → P parent node
      → ((a : ℕ) → 0 < count a t → (e : Side) → P a (s.child e a))
      → (a : ℕ) → 0 < count a t + (if node == a then 1 else 0)
      → (e : Side) → P a ((rb_link node parent d s).child e a)
  link_cases P low link old a on' e = elim (Bool-cases (a == node)) [
    | inl at_n ↦
        subst (λ y. P y ((rb_link node parent d s).child e y)) (sym (eq_of_test a node at_n))
          (subst (P node) (sym (at_node s node parent d ne apart e)) low)
    | inr off_n ↦
        let an = ne_of_test a node off_n in
        let on_a : 0 < count a t = old_node a on' an in
        elim (Bool-cases (a == parent)) [
          | inl at_p ↦
              subst (λ y. P y ((rb_link node parent d s).child e y))
                (sym (eq_of_test a parent at_p))
                (by_side d e (λ e. P parent ((rb_link node parent d s).child e parent))
                  (subst (P parent) (sym (at_link s node parent d ne apart)) link)
                  (subst (P parent) (sym (at_other s node parent d ne apart))
                    (old parent on (other d))))
          | inr off_p ↦
              subst (P a) (sym (far s node parent d ne apart e a (ne_of_test a parent off_p) an))
                (old a on_a e)
        ]
  ]
    where
      old_node : (a : ℕ) → 0 < count a t + (if node == a then 1 else 0) → a ≢ node → 0 < count a t
      old_node a on' an = ground arith

  pub red_off : (a : ℕ) → a ≢ node → rb_red (rb_link node parent d s) a ≡ rb_red s a
  red_off a an =
      linked-red s node parent d a some
      ∙ ap (λ b. if b then true else rb_red s a) (ne_test a node an)

  pub red_at : rb_red (rb_link node parent d s) node ≡ true
  red_at =
      linked-red s node parent d node some
      ∙ ap (λ b. if b then true else rb_red s node) (eq_test node node refl)

  child_off : (a : ℕ) → 0 < count a t → (e : Side) → s.child e a ≢ node
  child_off a on_a e q =
      ne_of_count t (s.child e a) node (child-count s 0 t e a is.holds on_a (λ z. some (sym q ∙ z)))
        off q

  pub planted : IsPlanted (rb_link node parent d s) 0 d parent node t (plant d parent node t)
  planted =
      rb_link-IsPlanted s node parent d ne apart (positive node some) free 0 t is.holds is.once on
        off
    where
      positive : (n : ℕ) → n ≢ 0 → 0 < n
      positive n ne = ground arith

  on_of :
      (a : ℕ) → 0 < count a (plant d parent node t) → 0 < count a t + (if node == a then 1 else 0)
  on_of a on_a = omega (arith, on_a, planted.counts a)

  pub linked-Colours :
      Colours (rb_link node parent d s) (plant d parent node t) (levels height node) node
  linked-Colours =
      let h0 = levels_off height node 0 (λ q. some (sym q)) ∙ colours.none_below in
      let at_null = ap weight (rb_red_zero (rb_link node parent d s)) in
      let hp : height parent ≡ 1 = omega (
        arith,
        subst (λ c. height parent ≡ height c + weight (rb_red s c)) free (colours.even parent on d),
        colours.none_below,
        ap weight (rb_red_zero s),
      ) in
      record {
        none_below = h0;
        even = λ a on_a e.
            link_cases
              (λ a c.
                levels height node a
                ≡ levels height node c + weight (rb_red (rb_link node parent d s) c))
              (omega (arith, levels_at height node, h0, at_null))
              (omega (
                arith,
                levels_off height node parent (λ q. apart (sym q)),
                hp,
                levels_at height node,
                ap weight red_at,
              ))
              (λ a on_a e.
                let c = s.child e a in
                omega (
                  arith,
                  levels_off height node a (ne_of_count t a node on_a off),
                  levels_off height node c (child_off a on_a e),
                  colours.even a on_a e,
                  ap weight (red_off c (child_off a on_a e)),
                ))
              a (on_of a on_a) e;
        reds = λ a on_a e.
            link_cases
              (λ a c.
                rb_red (rb_link node parent d s) a ≡ true
                → rb_red (rb_link node parent d s) c ≡ true
                → c ≡ node)
              (λ red red'. absurd (red_some (rb_link node parent d s) 0 red' refl))
              (λ red red'. refl)
              (λ a on_a e red red'.
                let red_c = sym (red_off (s.child e a) (child_off a on_a e)) ∙ red' in
                absurd (
                  red_some s (s.child e a) red_c (
                    colours.reds a on_a e (sym (red_off a (ne_of_count t a node on_a off)) ∙ red)
                      red_c)))
              a (on_of a on_a) e;
      }

  pub linked-root : (rb_link node parent d s).root ≡ s.root
  unfolding rb_link set_child set_parent set_color
  linked-root = rw (ne_test parent 0 ne) refl

  pub linked-IsTree : IsTree (rb_link node parent d s) (plant d parent node t)
  linked-IsTree = record {
    rooted = linked-root ∙ is.rooted ∙ sym planted.same_top;
    holds = planted.holds;
    once = λ y.
        at_most y (count y t) (planted.counts y) (is.once y)
          (λ q. ap (λ z. count z t) (sym q) ∙ off);
  }
    where
      at_most :
          (y n : ℕ)
          → count y (plant d parent node t) ≡ n + (if node == y then 1 else 0)
          → n ≤ 1
          → (node ≡ y → n ≡ 0)
          → count y (plant d parent node t) ≤ 1
      at_most y n e once f = elim (Bool-cases (node == y)) [
        | inl same ↦ let z = f (eq_of_test node y same) in ground arith
        | inr other ↦ ground arith
      ]
