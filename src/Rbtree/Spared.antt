-- ===== src/Rbtree/Spared.antt =====
-- rbtree.c: the nodes that a rotation does not change.
use mathlib.Core.Path.{subst}
use au_os.Prelude.{
  ℕ, zero, suc, ◌+◌, ◌≤◌, ◌<◌, ◌≡◌, ◌≢◌, refl, ap, sym, ◌∙◌, inl, inr, arith, ◌==◌, if◌then◌else◌,
  Bool-cases,
}
use au_os.Rbtree.{Side, left, right, other, Store}
use au_os.Rbtree.Shape.{
  Tree, leaf, branch, top, count, Holds, AreOnce, SameLinks, count-zero, count-root, child-count,
  child-parent, top-count, once-root, Holds-frame, ne_of_count,
}
use au_os.Rbtree.Turned.{Turned, Around}
use au_os.Rbtree.Risen.{ne_test, eq_of_test, ne_of_test}

off_zero : (n : ℕ) → (0 < n → ⊥) → n ≡ 0
off_zero zero f = refl
off_zero (suc n) f = absurd (f (omega arith))

same_child : (s s' : Store) (a : ℕ) (e : Side) → SameLinks s s' a → s'.child e a ≡ s.child e a
same_child s s' a left (l, r, q) = l
same_child s s' a right (l, r, q) = r

-- Three trees and two nodes without repetitions.
pub record AreApart (u v w : Tree) (x c : ℕ) : Type 0 where
  pub x_u : count x u ≡ 0
  pub x_v : count x v ≡ 0
  pub x_w : count x w ≡ 0
  pub c_u : count c u ≡ 0
  pub c_v : count c v ≡ 0
  pub c_w : count c w ≡ 0
  pub v_u : (y : ℕ) → 0 < count y v → count y u ≡ 0
  pub v_w : (y : ℕ) → 0 < count y v → count y w ≡ 0

pub count-AreApart :
    (u v w : Tree) (x c : ℕ)
    → ((y : ℕ)
        → count y u
            + (if x == y then 1 else 0)
            + (count y v + (if c == y then 1 else 0) + count y w)
          ≤ 1)
    → AreApart u v w x c
count-AreApart u v w x c f = record {
  x_u = let n = f x in ground arith;
  x_v = let n = f x in ground arith;
  x_w = let n = f x in ground arith;
  c_u = let n = f c in ground arith;
  c_v = let n = f c in ground arith;
  c_w = let n = f c in ground arith;
  v_u = λ y on. let n = f y in omega arith;
  v_w = λ y on. let n = f y in omega arith;
}

module _ (s s' : Store) (up : Side) (x p r m : ℕ) (near : Around s up x p r m)
    (turned : Turned s s' up x p r m) where
  x_off : x ≢ 0
  x_off = λ q. omega (arith, near.some_x)

  r_off : r ≢ 0
  r_off = λ q. omega (arith, near.some_r)

  -- A tree with `x` has the other nodes around the rotation.
  pub on_r : (par : ℕ) (t : Tree) → Holds s par t → 0 < count x t → 0 < count r t
  on_r par t h on =
      subst (λ z. 0 < count z t) near.is_r
        (child-count s par t up x h on (λ q. r_off (sym near.is_r ∙ q)))

  pub on_m : (par : ℕ) (t : Tree) → Holds s par t → 0 < count x t → m ≢ 0 → 0 < count m t
  on_m par t h on ne =
      subst (λ z. 0 < count z t) near.is_m
        (child-count s par t (other up) r h (on_r par t h on) (λ q. ne (sym near.is_m ∙ q)))

  off_p : (par : ℕ) (t : Tree) → Holds s par t → count x t ≡ 0 → p ≢ 0 → count p t ≡ 0
  off_p par t h off ne = off_zero (count p t) (λ on_p.
      let (d, e, _) = near.below_p ne in
      let on =
        subst (λ z. 0 < count z t) e (child-count s par t d p h on_p (λ q. x_off (sym e ∙ q))) in
      omega (arith, on, off))

  -- A subtree without them is left alone.
  pub spared :
      (par : ℕ) (t : Tree)
      → Holds s par t
      → count x t ≡ 0
      → count r t ≡ 0
      → (m ≢ 0 → count m t ≡ 0)
      → Holds s' par t
  spared par t h off off' off_m = Holds-frame s s' par t h (λ a on.
      let some : a ≢ 0 = ne_of_count t a 0 on (count-zero s par t h) in
      turned.same a (ne_of_count t a x on off) (ne_of_count t a r on off')
        (λ q. ne_of_count t a m on (off_m (λ z. some (q ∙ z))) q)
        (λ q. ne_of_count t a p on (off_p par t h off (λ z. some (q ∙ z))) q))

  -- The subtree that changes sides.
  pub moved :
      (t : Tree)
      → Holds s r t
      → AreOnce t
      → m ≡ top t
      → count x t ≡ 0
      → count r t ≡ 0
      → Holds s' x t
  moved leaf h once e off off' = tt
  moved (branch l a rr) (pos, el, er, ep, hl, hr) once e off off' =
      let some : m ≢ 0 = λ q. omega (arith, pos, e) in
      let (out_l, out_r) = once-root l a rr once in
      (
        pos,
        ap (s'.child left) (sym e) ∙ turned.m_child some left ∙ ap (s.child left) e ∙ el,
        ap (s'.child right) (sym e) ∙ turned.m_child some right ∙ ap (s.child right) e ∙ er,
        ap s'.parent (sym e) ∙ turned.m_parent some,
        spared a l hl (omega arith) (omega arith) (λ _. ap (λ z. count z l) e ∙ out_l),
        spared a rr hr (omega arith) (omega arith) (λ _. ap (λ z. count z rr) e ∙ out_r),
      )

  -- What the rotation leaves of a node that is none of the three.
  pub seen :
      (par : ℕ) (t : Tree) (a : ℕ) (e : Side)
      → Holds s par t
      → 0 < count a t
      → a ≢ x
      → a ≢ r
      → a ≢ m
      → (s'.child e a ≡ (if s.child e a == x then r else s.child e a)) × (s'.parent a ≡ s.parent a)
  seen par t a e h on ax ar am = elim (Bool-cases (a == p)) [
    | inl at_p ↦
        let q = eq_of_test a p at_p in
        let some : p ≢ 0 = λ z. ne_of_count t a 0 on (count-zero s par t h) (q ∙ z) in
        subst
          (λ y.
            (s'.child e y ≡ (if s.child e y == x then r else s.child e y))
            × (s'.parent y ≡ s.parent y))
          (sym q) (turned.p_child some e, turned.p_parent some)
    | inr away ↦
        let links = turned.same a ax ar am (ne_of_test a p away) in
        let unlinked : s.child e a ≢ x = λ q. ne_of_test a p away (
          sym (child-parent s par t e a h on (λ z. x_off (sym q ∙ z)))
          ∙ ap s.parent q
          ∙ near.is_p) in
        (same_child s s' a e links ∙ rw (ne_test (s.child e a) x unlinked) refl, links.2)
  ]

  -- A link to a subtree without `x` stays.
  pub kept :
      (par : ℕ) (t : Tree)
      → Holds s par t
      → count x t ≡ 0
      → (if top t == x then r else top t) ≡ top t
  kept par t h off =
      let ne : top t ≢ x = λ q. off_top (top-count s par t h (λ z. x_off (sym q ∙ z))) q in
      rw (ne_test (top t) x ne) refl
    where
      off_top : 0 < count (top t) t → top t ≡ x → ⊥
      off_top on q = omega (arith, on, off, ap (λ z. count z t) q)

  -- A node with `x` below it.
  pub rejoin :
      (par : ℕ) (l : Tree) (a : ℕ) (rr : Tree)
      → Holds s par (branch l a rr)
      → x ≢ a
      → r ≢ a
      → (m ≢ 0 → m ≢ a)
      → (s'.child left a ≡ (if top l == x then r else top l))
        × (s'.child right a ≡ (if top rr == x then r else top rr))
        × (s'.parent a ≡ par)
  rejoin par l a rr (pos, el, er, ep, hl, hr) ax ar am =
      let all : Holds s par (branch l a rr) = (pos, el, er, ep, hl, hr) in
      let away : a ≢ m = λ q. am (λ z. omega (arith, pos, q, z)) (sym q) in
      let of_side = λ (e : Side).
        seen par (branch l a rr) a e all (count-root l a rr) (λ q. ax (sym q)) (λ q. ar (sym q))
          away in
      (
        (of_side left).0 ∙ ap (λ z. if z == x then r else z) el,
        (of_side right).0 ∙ ap (λ z. if z == x then r else z) er,
        (of_side left).1 ∙ ep,
      )
