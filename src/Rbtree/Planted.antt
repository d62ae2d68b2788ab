-- ===== src/Rbtree/Planted.antt =====
-- rbtree.h: the tree after `rb_link`.
use mathlib.Core.Path.{subst}
use au_os.Prelude.{
  ℕ, ◌+◌, ◌<◌, ◌≡◌, ◌≢◌, refl, ap, sym, ◌∙◌, [], ◌∷◌, ◌++◌, arith, ◌==◌, if◌then◌else◌,
}
use au_os.Rbtree.{Side, left, right, Store, rb_link}
use au_os.Rbtree.Shape.{
  Tree, leaf, branch, top, inorder, count, size, Holds, AreOnce, at_root, at_left, at_right,
  count-IsIn, once-left, once-right, once-root, left-apart, right-apart, Holds-frame, ne_of_count,
}
use au_os.Rbtree.Risen.{eq_test}
use au_os.Rbtree.Link.{
  plant, plant_here, beside, at_link, at_other, at_node, far, parent_node, parent_far,
}
use au_os.Rbtree.Beside.{
  beside-append, beside_off, beside_absent, plant_at, plant_left, plant_right,
}

-- What `rb_link` leaves of a tree that has the parent.
pub record IsPlanted (s' : Store) (par : ℕ) (d : Side) (parent node : ℕ) (t t' : Tree)
    : Type 0 where
  pub holds : Holds s' par t'
  pub same_top : top t' ≡ top t
  pub order : inorder t' ≡ beside d parent node (inorder t)
  pub grown : size t' ≡ size t + 1
  pub counts : (y : ℕ) → count y t' ≡ count y t + (if node == y then 1 else 0)

module _ (s : Store) (node parent : ℕ) (d : Side) (ne : parent ≢ 0) (apart : node ≢ parent)
    (some : 0 < node) (free : s.child d parent ≡ 0) where
  -- A tree without the two nodes.
  pub kept :
      (par : ℕ) (t : Tree)
      → Holds s par t
      → count parent t ≡ 0
      → count node t ≡ 0
      → Holds (rb_link node parent d s) par t
  kept par t h off off' = Holds-frame s (rb_link node parent d s) par t h (λ a on.
      let ap' = ne_of_count t a parent on off in
      let an = ne_of_count t a node on off' in
      (
        far s node parent d ne apart left a ap' an,
        far s node parent d ne apart right a ap' an,
        parent_far s node parent d ne apart a an,
      ))

  pub fresh : Holds (rb_link node parent d s) parent (branch leaf node leaf)
  fresh = (
    some,
    at_node s node parent d ne apart left,
    at_node s node parent d ne apart right,
    parent_node s node parent d ne apart,
    tt,
    tt,
  )

root_apart : (l : Tree) (a : ℕ) (r : Tree) (x : ℕ) → count x (branch l a r) ≡ 0 → a ≢ x
root_apart l a r x off = λ q. ground arith

IsPlanted-here :
    (s : Store) (node parent : ℕ) (d : Side) (ne : parent ≢ 0) (apart : node ≢ parent)
    → 0 < node
    → s.child d parent ≡ 0
    → (par : ℕ) (l r : Tree) → Holds s par (branch l parent r)
    → AreOnce (branch l parent r)
    → count node (branch l parent r) ≡ 0
    → IsPlanted
        (rb_link node parent d s)
        par
        d
        parent
        node
        (branch l parent r)
        (plant_here d node l parent r)
unfolding beside
IsPlanted-here s node parent left ne apart some free par leaf r (pos, el, er, ep, hl, hr) once off =
    let (off_l, off_r) = once-root leaf parent r once in
    record {
      holds = (
        pos,
        at_link s node parent left ne apart,
        at_other s node parent left ne apart ∙ er,
        parent_far s node parent left ne apart parent (λ q. apart (sym q)) ∙ ep,
        fresh s node parent left ne apart some free,
        kept s node parent left ne apart some free parent r hr off_r (omega arith),
      );
      same_top = refl;
      order = rw (eq_test parent parent refl, beside_absent left parent node r off_r) refl;
      grown = omega arith;
      counts = λ y. omega arith;
    }
IsPlanted-here s node parent right ne apart some free par l leaf (pos, el, er, ep, hl, hr) once
      off =
    let (off_l, off_r) = once-root l parent leaf once in
    record {
      holds = (
        pos,
        at_other s node parent right ne apart ∙ el,
        at_link s node parent right ne apart,
        parent_far s node parent right ne apart parent (λ q. apart (sym q)) ∙ ep,
        kept s node parent right ne apart some free parent l hl off_l (omega arith),
        fresh s node parent right ne apart some free,
      );
      same_top = refl;
      order = sym (
          beside-append right parent node (inorder l) (parent ∷ [])
          ∙ rw (eq_test parent parent refl, beside_absent right parent node l off_l) refl);
      grown = omega arith;
      counts = λ y. omega arith;
    }
IsPlanted-here s node parent left ne apart some free par (branch l' a' r') r
      (pos, el, er, ep, (pos', _, _, _, _, _), hr) once off =
    absurd (omega (arith, pos', sym free ∙ el))
IsPlanted-here s node parent right ne apart some free par l (branch l' a' r')
      (pos, el, er, ep, hl, (pos', _, _, _, _, _)) once off =
    absurd (omega (arith, pos', sym free ∙ er))

pub rb_link-IsPlanted :
    (s : Store) (node parent : ℕ) (d : Side) (ne : parent ≢ 0) (apart : node ≢ parent)
    → 0 < node
    → s.child d parent ≡ 0
    → (par : ℕ) (t : Tree) → Holds s par t
    → AreOnce t
    → 0 < count parent t
    → count node t ≡ 0
    → IsPlanted (rb_link node parent d s) par d parent node t (plant d parent node t)
rb_link-IsPlanted s node parent d ne apart some free par leaf h once on off = absurd (omega arith)
rb_link-IsPlanted s node parent d ne apart some free par (branch l a r) (pos, el, er, ep, hl, hr)
      once on off =
    elim (count-IsIn l a r parent on) [
      | at_root e ↦
          subst
            (λ y.
              IsPlanted (rb_link node parent d s) par d parent node (branch l y r)
                (plant d parent node (branch l y r)))
            e
            (subst (IsPlanted (rb_link node parent d s) par d parent node (branch l parent r))
              (sym (plant_at d parent node l r))
              (IsPlanted-here s node parent d ne apart some free par l r
                (subst (λ y. Holds s par (branch l y r)) (sym e) (pos, el, er, ep, hl, hr))
                (subst (λ y. AreOnce (branch l y r)) (sym e) once)
                (subst (λ y. count node (branch l y r) ≡ 0) (sym e) off)))
      | at_left on_side ↦
          let ih =
            rb_link-IsPlanted s node parent d ne apart some free a l hl (once-left l a r once)
              on_side (omega arith) in
          let (off_r, pa) = left-apart l a r parent once on_side in
          let an = root_apart l a r node off in
          let ap' : a ≢ parent = λ q. pa (sym q) in
          subst (IsPlanted (rb_link node parent d s) par d parent node (branch l a r))
            (sym (plant_left d parent node l a r ap' off_r))
            (record {
              holds = (
                pos,
                far s node parent d ne apart left a ap' an ∙ el ∙ sym ih.same_top,
                far s node parent d ne apart right a ap' an ∙ er,
                parent_far s node parent d ne apart a an ∙ ep,
                ih.holds,
                kept s node parent d ne apart some free a r hr off_r (omega arith),
              );
              same_top = refl;
              order =
                  ap (λ xs. xs ++ a ∷ inorder r) ih.order
                  ∙ sym (
                      beside-append d parent node (inorder l) (a ∷ inorder r)
                      ∙ rw
                          (
                            beside_off d parent node a (inorder r) ap',
                            beside_absent d parent node r off_r,
                          )
                          refl);
              grown = omega (arith, ih.grown);
              counts = λ y. omega (arith, ih.counts y);
            })
      | at_right on_side ↦
          let ih =
            rb_link-IsPlanted s node parent d ne apart some free a r hr (once-right l a r once)
              on_side (omega arith) in
          let (off_l, pa) = right-apart l a r parent once on_side in
          let an = root_apart l a r node off in
          let ap' : a ≢ parent = λ q. pa (sym q) in
          subst (IsPlanted (rb_link node parent d s) par d parent node (branch l a r))
            (sym (plant_right d parent node l a r ap' off_l))
            (record {
              holds = (
                pos,
                far s node parent d ne apart left a ap' an ∙ el,
                far s node parent d ne apart right a ap' an ∙ er ∙ sym ih.same_top,
                parent_far s node parent d ne apart a an ∙ ep,
                kept s node parent d ne apart some free a l hl off_l (omega arith),
                ih.holds,
              );
              same_top = refl;
              order =
                  ap (λ xs. inorder l ++ a ∷ xs) ih.order
                  ∙ sym (
                      beside-append d parent node (inorder l) (a ∷ inorder r)
                      ∙ rw
                          (
                            beside_off d parent node a (inorder r) ap',
                            beside_absent d parent node l off_l,
                          )
                          refl);
              grown = omega (arith, ih.grown);
              counts = λ y. omega (arith, ih.counts y);
            })
    ]
