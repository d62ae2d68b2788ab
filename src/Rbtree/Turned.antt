-- ===== src/Rbtree/Turned.antt =====
-- A rotation link by link.
use au_os.Prelude.{
  ℕ, ◌<◌, ◌≡◌, ◌≢◌, refl, ap, sym, ◌∙◌, inl, inr, false, not, ◌&&◌, some, arith, ◌==◌,
  if◌then◌else◌, Bool-cases,
}
use au_os.Rbtree.{Side, left, right, other, Store, set_child, set_parent, replace_child, rotate}
use au_os.Rbtree.Shape.{SameLinks}
use au_os.Rbtree.Risen.{
  replace_child-side, risen, risen-parent, risen_root, risen-black, eq_test, ne_test, risen_x_up,
  risen_x_other, risen_r_up, risen_r_other, risen-far, no_test, link-side,
}

-- What a rotation at `x` leaves, where `r` goes up, `m` changes sides, and `p` was above.
pub record Turned (s s' : Store) (up : Side) (x p r m : ℕ) : Type 0 where
  pub same : (a : ℕ) → a ≢ x → a ≢ r → a ≢ m → a ≢ p → SameLinks s s' a
  pub x_up : s'.child up x ≡ m
  pub x_other : s'.child (other up) x ≡ s.child (other up) x
  pub x_parent : s'.parent x ≡ r
  pub r_up : s'.child up r ≡ s.child up r
  pub r_other : s'.child (other up) r ≡ x
  pub r_parent : s'.parent r ≡ p
  pub m_child : m ≢ 0 → (e : Side) → s'.child e m ≡ s.child e m
  pub m_parent : m ≢ 0 → s'.parent m ≡ x
  pub p_child : p ≢ 0 → (e : Side) → s'.child e p ≡ (if s.child e p == x then r else s.child e p)
  pub p_parent : p ≢ 0 → s'.parent p ≡ s.parent p
  pub root_lem : s'.root ≡ (if p == 0 then r else s.root)
  pub black_lem : (a : ℕ) → s'.black a ≡ s.black a

-- The pointers around a rotation are different, and `x` is a child of `p`.
pub record Around (s : Store) (up : Side) (x p r m : ℕ) : Type 0 where
  pub is_p : s.parent x ≡ p
  pub is_r : s.child up x ≡ r
  pub is_m : s.child (other up) r ≡ m
  pub some_x : 0 < x
  pub some_r : 0 < r
  pub x-ne-r : x ≢ r
  pub x-ne-p : x ≢ p
  pub x-ne-m : x ≢ m
  pub r-ne-p : r ≢ p
  pub r-ne-m : r ≢ m
  pub m-ne-p : m ≢ 0 → m ≢ p
  pub below_p : p ≢ 0 → (d : Side) × (s.child d p ≡ x) × (s.child (other d) p ≢ x)

module _ (s : Store) (up : Side) (x p r m : ℕ) (near : Around s up x p r m) where
  final : Store
  final = set_parent x r (replace_child p x r (risen s up x p r m))

  -- The link from `p` goes to `r` in place of `x`.
  risen_p : (e : Side) → (risen s up x p r m).child e p ≡ s.child e p
  risen_p e = risen-far s up e x p r m p (λ q. near.x-ne-p (sym q)) (λ q. near.r-ne-p (sym q))

  final-child :
      (e : Side) (a : ℕ)
      → final.child e a ≡ (
          if not (p == 0) && (a == p && s.child e p == x)
          then r
          else (risen s up x p r m).child e a)
  unfolding final set_parent
  final-child e a = elim (Bool-cases (p == 0)) [
    | inl at_root ↦ rw at_root (unfold replace_child in rw at_root refl)
    | inr deep ↦
        let ne : p ≢ 0 = λ q. ground arith in
        let (d, on, off) = near.below_p ne in
        let h =
          replace_child-side (risen s up x p r m) p x r d ne (risen_p d ∙ on)
            (λ q. off (sym (risen_p (other d)) ∙ q)) in
        rw deep
          (ap (λ (z : Store). z.child e a) h ∙ link-side s (risen s up x p r m) d e p x r a on off)
  ]

  final-parent : (a : ℕ) → final.parent a ≡ (if a == x then r else (risen s up x p r m).parent a)
  unfolding final set_parent risen set_child
  final-parent a = elim (Bool-cases (p == 0)) [
    | inl at_root ↦ unfold replace_child in rw at_root refl
    | inr deep ↦
        let ne : p ≢ 0 = λ q. ground arith in
        let (d, on, off) = near.below_p ne in
        let h =
          replace_child-side (risen s up x p r m) p x r d ne (risen_p d ∙ on)
            (λ q. off (sym (risen_p (other d)) ∙ q)) in
        ap (λ (z : Store). if a == x then r else z.parent a) h
  ]

  final-black : (a : ℕ) → final.black a ≡ s.black a
  unfolding final set_parent set_child
  final-black a = elim (Bool-cases (p == 0)) [
    | inl at_root ↦ unfold replace_child in rw at_root (risen-black s up x p r m a)
    | inr deep ↦
        let ne : p ≢ 0 = λ q. ground arith in
        let (d, on, off) = near.below_p ne in
        let h =
          replace_child-side (risen s up x p r m) p x r d ne (risen_p d ∙ on)
            (λ q. off (sym (risen_p (other d)) ∙ q)) in
        ap (λ (z : Store). z.black a) h ∙ risen-black s up x p r m a
  ]

  final_root : final.root ≡ (if p == 0 then r else s.root)
  unfolding final set_parent set_child
  final_root = elim (Bool-cases (p == 0)) [
    | inl at_root ↦ unfold replace_child in rw at_root refl
    | inr deep ↦
        let ne : p ≢ 0 = λ q. ground arith in
        let (d, on, off) = near.below_p ne in
        let h =
          replace_child-side (risen s up x p r m) p x r d ne (risen_p d ∙ on)
            (λ q. off (sym (risen_p (other d)) ∙ q)) in
        rw deep (ap (λ (z : Store). z.root) h ∙ risen_root s up x p r m)
  ]

  -- Away from `p` the children are those of the risen store.
  final-far : (e : Side) (a : ℕ) → a ≢ p → final.child e a ≡ (risen s up x p r m).child e a
  final-far e a ne =
      let t = ne_test a p ne in
      final-child e a
      ∙ rw t (sym (no_test (not (p == 0)) false r ((risen s up x p r m).child e a) refl))

  -- The parents one by one.
  parent-far : (a : ℕ) → a ≢ x → a ≢ r → (m ≢ 0 → a ≢ m) → final.parent a ≡ s.parent a
  parent-far a ne ne' ne'' =
      final-parent a
      ∙ rw (ne_test a x ne) (
          risen-parent s up x p r m a
          ∙ rw (ne_test a r ne') (elim (Bool-cases (m == 0)) [
            | inl none_moved ↦ rw none_moved refl
            | inr moved ↦ rw (moved, ne_test a m (ne'' (λ q. ground arith))) refl
          ]))

  final-Turned : Turned s final up x p r m
  final-Turned = record {
    same = λ a ax ar am ap'. (
      final-far left a ap' ∙ risen-far s up left x p r m a ax ar,
      final-far right a ap' ∙ risen-far s up right x p r m a ax ar,
      parent-far a ax ar (λ ne. am),
    );
    x_up = final-far up x near.x-ne-p ∙ risen_x_up s up x p r m;
    x_other = final-far (other up) x near.x-ne-p ∙ risen_x_other s up x p r m near.x-ne-r;
    x_parent = final-parent x ∙ rw (eq_test x x refl) refl;
    r_up = final-far up r near.r-ne-p ∙ risen_r_up s up x p r m (λ q. near.x-ne-r (sym q));
    r_other = final-far (other up) r near.r-ne-p ∙ risen_r_other s up x p r m;
    r_parent =
        final-parent r
        ∙ rw (ne_test r x (λ q. near.x-ne-r (sym q)))
            (risen-parent s up x p r m r ∙ rw (eq_test r r refl) refl);
    m_child = λ ne e.
        final-far e m (near.m-ne-p ne)
        ∙ risen-far s up e x p r m m (λ q. near.x-ne-m (sym q)) (λ q. near.r-ne-m (sym q));
    m_parent = λ ne.
        final-parent m
        ∙ rw (ne_test m x (λ q. near.x-ne-m (sym q))) (
            risen-parent s up x p r m m
            ∙ rw (ne_test m r (λ q. near.r-ne-m (sym q)), eq_test m m refl, ne_test m 0 ne) refl);
    p_child = λ ne e. final-child e p ∙ rw (eq_test p p refl, ne_test p 0 ne, risen_p e) refl;
    p_parent = λ ne.
        parent-far p (λ q. near.x-ne-p (sym q)) (λ q. near.r-ne-p (sym q))
          (λ some_m q. near.m-ne-p some_m (sym q));
    root_lem = final_root;
    black_lem = final-black;
  }

-- What a rotation comes to.
pub rotate-Turned :
    (s : Store) (up : Side) (x p r m : ℕ)
    → Around s up x p r m
    → (s' : Store) × (rotate up x s ≡ some s') × Turned s s' up x p r m
unfolding rotate final risen
rotate-Turned s up x p r m near =
    let e : (r == 0) ≡ false = ne_test r 0 (λ q. omega (arith, near.some_r)) in
    (
      final s up x p r m near,
      rw (near.is_p, near.is_r, near.is_m, e) refl,
      final-Turned s up x p r m near,
    )
