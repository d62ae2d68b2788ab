-- ===== src/Rbtree/Risen.antt =====
-- A rotation before the parent is told of it.
use au_os.Prelude.{
  ℕ, ◌≡◌, ◌≢◌, refl, ◌∙◌, inl, inr, Bool, true, false, not, ◌&&◌, arith, ◌==◌, if◌then◌else◌,
  Bool-cases,
}
use au_os.Rbtree.{
  Side, left, right, other, same_side, Store, set_child, set_parent, set_parent_if, replace_child,
}

pub replace_child-side :
    (s : Store) (p x r : ℕ) (d : Side)
    → p ≢ 0
    → s.child d p ≡ x
    → s.child (other d) p ≢ x
    → replace_child p x r s ≡ set_child d p r s
unfolding replace_child
replace_child-side s p x r left ne e e' =
    let h : (p == 0) ≡ false = ground arith in
    let h' : (s.child left p == x) ≡ true = ground arith in rw (h, h') refl
replace_child-side s p x r right ne e e' =
    let h : (p == 0) ≡ false = ground arith in
    let h' : (s.child left p == x) ≡ false = ground arith in rw (h, h') refl

-- The rotation before the parent is told of it.
unfoldable pub risen : Store → Side → (x p r m : ℕ) → Store
unfolding set_child set_parent set_parent_if
risen s up x p r m =
    set_parent r p (set_child (other up) r x (set_parent_if m x (set_child up x m s)))

-- The children after the first three changes.
pub risen-child :
    (s : Store) (up e : Side) (x p r m a : ℕ)
    → (risen s up x p r m).child e a ≡ (
        if same_side e (other up) && a == r
        then x
        else if same_side e up && a == x
        then m
        else s.child e a)
unfolding risen
risen-child s up e x p r m a = elim (Bool-cases (m == 0)) [
  | inl none_moved ↦ rw none_moved refl
  | inr moved ↦ rw moved refl
]

pub risen-parent :
    (s : Store) (up : Side) (x p r m a : ℕ)
    → (risen s up x p r m).parent a
      ≡ (if a == r then p else if not (m == 0) && a == m then x else s.parent a)
unfolding risen
risen-parent s up x p r m a = elim (Bool-cases (m == 0)) [
  | inl none_moved ↦ rw none_moved refl
  | inr moved ↦ rw moved refl
]

pub risen_root : (s : Store) (up : Side) (x p r m : ℕ) → (risen s up x p r m).root ≡ s.root
unfolding risen
risen_root s up x p r m = elim (Bool-cases (m == 0)) [
  | inl none_moved ↦ rw none_moved refl
  | inr moved ↦ rw moved refl
]

pub risen-black : (s : Store) (up : Side) (x p r m a : ℕ) → (risen s up x p r m).black a ≡ s.black a
unfolding risen
risen-black s up x p r m a = elim (Bool-cases (m == 0)) [
  | inl none_moved ↦ rw none_moved refl
  | inr moved ↦ rw moved refl
]

pub eq_test : (a b : ℕ) → a ≡ b → (a == b) ≡ true
eq_test a b e = ground arith

pub ne_test : (a b : ℕ) → a ≢ b → (a == b) ≡ false
ne_test a b ne = ground arith

pub eq_of_test : (a b : ℕ) → (a == b) ≡ true → a ≡ b
eq_of_test a b e = ground arith

pub ne_of_test : (a b : ℕ) → (a == b) ≡ false → a ≢ b
ne_of_test a b e = λ q. ground arith

-- The children of the risen store at the nodes that change.
pub risen_x_up : (s : Store) (up : Side) (x p r m : ℕ) → (risen s up x p r m).child up x ≡ m
risen_x_up s left x p r m = risen-child s left left x p r m x ∙ rw (eq_test x x refl) refl
risen_x_up s right x p r m = risen-child s right right x p r m x ∙ rw (eq_test x x refl) refl

pub risen_x_other :
    (s : Store) (up : Side) (x p r m : ℕ)
    → x ≢ r
    → (risen s up x p r m).child (other up) x ≡ s.child (other up) x
risen_x_other s left x p r m ne = risen-child s left right x p r m x ∙ rw (ne_test x r ne) refl
risen_x_other s right x p r m ne = risen-child s right left x p r m x ∙ rw (ne_test x r ne) refl

pub risen_r_up :
    (s : Store) (up : Side) (x p r m : ℕ) → r ≢ x → (risen s up x p r m).child up r ≡ s.child up r
risen_r_up s left x p r m ne = risen-child s left left x p r m r ∙ rw (ne_test r x ne) refl
risen_r_up s right x p r m ne = risen-child s right right x p r m r ∙ rw (ne_test r x ne) refl

pub risen_r_other :
    (s : Store) (up : Side) (x p r m : ℕ) → (risen s up x p r m).child (other up) r ≡ x
risen_r_other s left x p r m = risen-child s left right x p r m r ∙ rw (eq_test r r refl) refl
risen_r_other s right x p r m = risen-child s right left x p r m r ∙ rw (eq_test r r refl) refl

pub risen-far :
    (s : Store) (up e : Side) (x p r m a : ℕ)
    → a ≢ x
    → a ≢ r
    → (risen s up x p r m).child e a ≡ s.child e a
risen-far s left left x p r m a ne ne' =
    risen-child s left left x p r m a ∙ rw (ne_test a x ne) refl
risen-far s left right x p r m a ne ne' =
    risen-child s left right x p r m a ∙ rw (ne_test a r ne') refl
risen-far s right left x p r m a ne ne' =
    risen-child s right left x p r m a ∙ rw (ne_test a r ne') refl
risen-far s right right x p r m a ne ne' =
    risen-child s right right x p r m a ∙ rw (ne_test a x ne) refl

pub both_tests :
    (b c : Bool) (v w : ℕ) → c ≡ true → (if b then v else w) ≡ (if b && c then v else w)
both_tests true c v w e = rw e refl
both_tests false c v w e = refl

pub no_test : (b c : Bool) (v w : ℕ) → c ≡ false → w ≡ (if b && c then v else w)
no_test true c v w e = rw e refl
no_test false c v w e = refl

pub link-side :
    (s q : Store) (d e : Side) (p x r a : ℕ)
    → s.child d p ≡ x
    → s.child (other d) p ≢ x
    → (set_child d p r q).child e a ≡ (if a == p && s.child e p == x then r else q.child e a)
unfolding set_child
link-side s q left left p x r a on off =
    both_tests (a == p) (s.child left p == x) r (q.child left a) (eq_test _ _ on)
link-side s q left right p x r a on off =
    no_test (a == p) (s.child right p == x) r (q.child right a) (ne_test _ _ off)
link-side s q right left p x r a on off =
    no_test (a == p) (s.child left p == x) r (q.child left a) (ne_test _ _ off)
link-side s q right right p x r a on off =
    both_tests (a == p) (s.child right p == x) r (q.child right a) (eq_test _ _ on)
