-- ===== src/Rbtree/Near.antt =====
-- The pointers around a rotation are different.
use mathlib.Core.Path.{subst}
use au_os.Prelude.{ℕ, zero, suc, ◌+◌, ◌≤◌, ◌<◌, ◌≡◌, ◌≢◌, refl, ap, sym, ◌∙◌, arith}
use au_os.Rbtree.{Side, other, Store}
use au_os.Rbtree.Shape.{
  Tree, count, Holds, AreOnce, count-zero, child-count, topmost, deeper, parent-IsBelow,
}
use au_os.Rbtree.Turned.{Around}
use au_os.Rbtree.Depth.{depth, child-depth, sibling_sides, ne_of_depth}

pub positive : (n : ℕ) → n ≢ 0 → 0 < n
positive n ne = ground arith

pub ne_or_zero : (n m : ℕ) → n ≢ 0 → (m ≢ 0 → n ≢ m) → n ≢ m
ne_or_zero n zero ne f = ne
ne_or_zero n (suc m) ne f = f (λ q. absurd (omega arith))

-- The parent is no node from `x` downwards, and has `x` on one side only.
pub above-ne :
    (s : Store) (t : Tree) (x : ℕ)
    → Holds s 0 t
    → AreOnce t
    → 0 < count x t
    → ((y : ℕ) → depth x t ≤ depth y t → y ≢ 0 → s.parent x ≢ y)
      × (s.parent x ≢ 0
          → (d : Side) × (s.child d (s.parent x) ≡ x) × (s.child (other d) (s.parent x) ≢ x))
above-ne s t x h once on = elim (parent-IsBelow s 0 t x h on) [
  | topmost e ep ↦ (λ y deep ne q. ne (sym q ∙ ep), λ ne. absurd (ne ep))
  | deeper d on_p e ↦
      let some : x ≢ 0 = λ q. omega (arith, on, count-zero s 0 t h, ap (λ z. count z t) q) in
      let deep = child-depth s 0 t d (s.parent x) h once on_p (λ q. some (sym e ∙ q)) in
      let deep' : depth x t ≡ depth (s.parent x) t + 1 =
        subst (λ z. depth z t ≡ depth (s.parent x) t + 1) e deep in
      (
        λ y low ne. ne_of_depth t (s.parent x) y (λ q. omega (arith, q, low, deep')),
        λ ne. (d, e, sibling_sides s t d (s.parent x) x h once on_p some e),
      )
]

-- A node of a tree with a child on the side `up`.
pub child-Around :
    (s : Store) (t : Tree) (up : Side) (x r : ℕ)
    → Holds s 0 t
    → AreOnce t
    → 0 < count x t
    → s.child up x ≡ r
    → r ≢ 0
    → Around s up x (s.parent x) r (s.child (other up) r)
child-Around s t up x r h once on e ne =
    let zero_off = count-zero s 0 t h in
    let some : x ≢ 0 = λ q. omega (arith, on, zero_off, ap (λ z. count z t) q) in
    let m = s.child (other up) r in
    let p = s.parent x in
    let on_r : 0 < count r t =
      subst (λ z. 0 < count z t) e (child-count s 0 t up x h on (λ q. ne (sym e ∙ q))) in
    let deep_r : depth r t ≡ depth x t + 1 =
      ap (λ z. depth z t) (sym e) ∙ child-depth s 0 t up x h once on (λ q. ne (sym e ∙ q)) in
    let deep_m : m ≢ 0 → depth m t ≡ depth r t + 1 = child-depth s 0 t (other up) r h once on_r in
    let x-ne-r = ne_of_depth t x r (λ q. omega (arith, q, deep_r)) in
    let above = above-ne s t x h once on in
    record {
      is_p = refl;
      is_r = e;
      is_m = refl;
      some_x = positive x some;
      some_r = positive r ne;
      x-ne-r = x-ne-r;
      x-ne-p = λ q. above.0 x (omega arith) some (sym q);
      x-ne-m =
          ne_or_zero x m some
            (λ some_m. ne_of_depth t x m (λ q. omega (arith, q, deep_r, deep_m some_m)));
      r-ne-p = λ q. above.0 r (omega (arith, deep_r)) ne (sym q);
      r-ne-m =
          ne_or_zero r m ne (λ some_m. ne_of_depth t r m (λ q. omega (arith, q, deep_m some_m)));
      m-ne-p = λ some_m q. above.0 m (omega (arith, deep_r, deep_m some_m)) some_m (sym q);
      below_p = above.1;
    }
