-- ===== src/Rbtree/Colour.antt =====
-- The colours of a tree, node by node.
use mathlib.Core.Path.{subst}
use au_os.Prelude.{
  ℕ, ◌+◌, ◌<◌, ◌≡◌, ◌≢◌, refl, ap, sym, ◌∙◌, inl, inr, Bool, true, false, not, ◌&&◌, arith, ◌==◌,
  if◌then◌else◌, Bool-cases,
}
use au_os.Rbtree.{Side, left, right, other, Store, set_color, rb_red}
use au_os.Rbtree.Shape.{
  Tree, count, Holds, IsTree, child-parent, count-zero, Holds-frame, ne_of_count,
}
use au_os.Rbtree.Turned.{Turned, Around}
use au_os.Rbtree.Risen.{ne_test, eq_of_test, ne_of_test}
use au_os.Rbtree.Spared.{seen}
use au_os.Rbtree.Turn.{turn, count-turn}

-- What a pointer adds to the number of black nodes on a way down.
abbrev pub weight : Bool → ℕ
weight true = 0
weight false = 1

-- On every way down from `a` there are `height a` black pointers, and a red node below a red one is
-- `node`.
pub record Colours (s : Store) (t : Tree) (height : ℕ → ℕ) (node : ℕ) : Type 0 where
  pub none_below : height 0 ≡ 0
  pub even :
      (a : ℕ)
      → 0 < count a t
      → (e : Side) → height a ≡ height (s.child e a) + weight (rb_red s (s.child e a))
  pub reds :
      (a : ℕ)
      → 0 < count a t
      → (e : Side) → rb_red s a ≡ true
      → rb_red s (s.child e a) ≡ true
      → s.child e a ≡ node

pub rb_red_zero : (s : Store) → rb_red s 0 ≡ false
unfolding rb_red
rb_red_zero s = refl

pub red_some : (s : Store) (a : ℕ) → rb_red s a ≡ true → a ≢ 0
red_some s a e q = absurd_of (sym e ∙ ap (rb_red s) q ∙ rb_red_zero s)
  where
    absurd_of : true ≡ false → ⊥
    absurd_of e = omega (arith, ap weight e)

pub red_not_black : (b : Bool) → b ≡ true → b ≡ false → ⊥
red_not_black b e e' = omega (arith, ap weight (sym e ∙ e'))

pub rb_red-set_color :
    (s : Store) (node a : ℕ) (c : Bool)
    → node ≢ 0
    → rb_red (set_color node c s) a ≡ (if a == node then not c else rb_red s a)
unfolding rb_red set_color
rb_red-set_color s node a c ne = elim (Bool-cases (a == node)) [
  | inl here ↦ rw (here, ne_test a 0 (λ q. ne (sym (eq_of_test a node here) ∙ q))) refl
  | inr there ↦ rw there refl
]

pub rb_red_same :
    (s s' : Store) → ((a : ℕ) → s'.black a ≡ s.black a) → (a : ℕ) → rb_red s' a ≡ rb_red s a
unfolding rb_red
rb_red_same s s' f a = ap (λ b. not (a == 0) && not b) (f a)

pub set_color-IsTree :
    (s : Store) (t : Tree) (node : ℕ) (c : Bool) → IsTree s t → IsTree (set_color node c s) t
unfolding set_color
set_color-IsTree s t node c is = record {
  rooted = is.rooted;
  holds = Holds-frame s (set_color node c s) 0 t is.holds (λ a on. (refl, refl, refl));
  once = is.once;
}

pub by_side : (up e : Side) (P : Side → Type 0) → P up → P (other up) → P e
by_side left left P a b = a
by_side left right P a b = b
by_side right left P a b = b
by_side right right P a b = a

pub seen_child :
    (s s' : Store) (t : Tree) (up : Side) (x p r m a : ℕ) (e : Side)
    → Around s up x p r m
    → Turned s s' up x p r m
    → Holds s 0 t
    → 0 < count a t
    → a ≢ x
    → a ≢ r
    → s'.child e a ≡ (if s.child e a == x then r else s.child e a)
seen_child s s' t up x p r m a e near turned h on ax ar = elim (Bool-cases (a == m)) [
  | inl at_m ↦
      let q = eq_of_test a m at_m in
      let some : m ≢ 0 = λ z. ne_of_count t a 0 on (count-zero s 0 t h) (q ∙ z) in
      let unlinked : s.child e a ≢ x = λ z. near.m-ne-p some (
        sym q
        ∙ sym (child-parent s 0 t e a h on (λ n. omega (arith, near.some_x, z, n)))
        ∙ ap s.parent z
        ∙ near.is_p) in
      rw (ne_test (s.child e a) x unlinked)
        (ap (s'.child e) q ∙ turned.m_child some e ∙ ap (s.child e) (sym q))
  | inr off_m ↦ (seen s s' up x p r m near turned 0 t a e h on ax ar (ne_of_test a m off_m)).0
]

-- What holds of every node and its children after a rotation, from the nodes before.
pub turned_links :
    (s s' : Store) (t : Tree) (up : Side) (x p r m : ℕ)
    → Around s up x p r m
    → Turned s s' up x p r m
    → Holds s 0 t
    → (P : ℕ → ℕ → Type 0) → P x m
    → P x (s.child (other up) x)
    → P r (s.child up r)
    → P r x
    → ((a : ℕ) → 0 < count a t → (e : Side) → a ≢ x → a ≢ r → s.child e a ≡ x → P a r)
    → ((a : ℕ) → 0 < count a t → (e : Side) → a ≢ x → a ≢ r → s.child e a ≢ x → P a (s.child e a))
    → (a : ℕ) → 0 < count a (turn up x t)
    → (e : Side) → P a (s'.child e a)
turned_links s s' t up x p r m near turned h P xm xo ru rx link far a on' e =
    let on : 0 < count a t = subst (λ n. 0 < n) (count-turn up x a t) on' in
    elim (Bool-cases (a == x)) [
      | inl at_x ↦
          subst (λ y. P y (s'.child e y)) (sym (eq_of_test a x at_x))
            (by_side up e (λ e. P x (s'.child e x)) (subst (P x) (sym turned.x_up) xm)
              (subst (P x) (sym turned.x_other) xo))
      | inr off_x ↦ elim (Bool-cases (a == r)) [
        | inl at_r ↦
            subst (λ y. P y (s'.child e y)) (sym (eq_of_test a r at_r))
              (by_side up e (λ e. P r (s'.child e r)) (subst (P r) (sym turned.r_up) ru)
                (subst (P r) (sym turned.r_other) rx))
        | inr off_r ↦
            let ax = ne_of_test a x off_x in
            let ar = ne_of_test a r off_r in
            let now = seen_child s s' t up x p r m a e near turned h on ax ar in
            elim (Bool-cases (s.child e a == x)) [
              | inl linked ↦
                  subst (P a) (sym (now ∙ ap (λ b. if b then r else s.child e a) linked))
                    (link a on e ax ar (eq_of_test (s.child e a) x linked))
              | inr unlinked ↦
                  subst (P a) (sym (now ∙ ap (λ b. if b then r else s.child e a) unlinked))
                    (far a on e ax ar (ne_of_test (s.child e a) x unlinked))
            ]
      ]
    ]
