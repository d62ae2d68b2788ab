-- ===== src/Rbtree/Neighbour.antt =====
-- rbtree.c: `rb_next` and `rb_prev` walk along the order of the nodes.
use mathlib.Core.Path.{subst}
use au_os.Prelude.{
  ℕ, zero, suc, ◌+◌, ◌≤◌, ◌<◌, ◌≡◌, ◌≢◌, refl, ap, sym, ◌∙◌, inl, inr, Bool, true, false, not, ◌&&◌,
  ◌∷◌, arith, ◌==◌, if◌then◌else◌, Bool-cases,
}
use au_os.Rbtree.{Side, left, right, other, Store, outermost, climb, neighbour, rb_next, rb_prev}
use au_os.Rbtree.Shape.{
  Tree, leaf, branch, top, inorder, count, size, Holds, AreOnce, IsTree, count-zero, count-root,
  ne_of_count, top-count,
}
use au_os.Rbtree.Risen.{eq_test, ne_test, eq_of_test, ne_of_test}
use au_os.Rbtree.Sequence.{
  backwards, along, first_or, following_or, near, far, following_or_absent, following_or_here,
  following_or_before, Occurs-count, Occurs-absent, along_leaf,
}
use au_os.Rbtree.Parts.{Parts, tree-Parts, outermost-first}

-- The climb from the top of a subtree ends at `v`, given fuel for `n` rounds.
Climbs : Store → Side → (x p v n : ℕ) → Type 0
Climbs s d x p v n = (fuel : ℕ) → n ≤ fuel → climb fuel d s x p ≡ v

climb_far :
    (s : Store) (d : Side) (a p x v n : ℕ)
    → 0 < a
    → s.child d a ≡ x
    → s.parent a ≡ p
    → Climbs s d a p v n
    → Climbs s d x a v (n + 1)
unfolding Climbs climb
climb_far s d a p x v n pos e ep up zero enough = absurd (omega arith)
climb_far s d a p x v n pos e ep up (suc fuel) enough =
    rw (ne_test a 0 (λ q. omega (arith, pos, q)), eq_test (s.child d a) x e, ep)
      (up fuel (omega arith))

climb_near : (s : Store) (d : Side) (a x : ℕ) → s.child d a ≢ x → Climbs s d x a a 1
unfolding Climbs climb
climb_near s d a x ne zero enough = absurd (omega arith)
climb_near s d a x ne (suc fuel) enough = rw (ne_test (s.child d a) x ne) (drop (not (a == 0)))
  where
    drop : (b : Bool) → (if b && false then climb fuel d s a (s.parent a) else a) ≡ a
    drop true = refl
    drop false = refl

climb_root : (s : Store) (d : Side) (x : ℕ) → Climbs s d x 0 0 0
unfolding Climbs climb
climb_root s d x zero enough = refl
climb_root s d x (suc fuel) enough = refl

-- Where a node of a tree is, by the parts.
data PartOf (a x : ℕ) (n f : Tree) : Type 0 where
  part_root : a ≡ x → count x n ≡ 0 → PartOf a x n f
  part_near : 0 < count x n → PartOf a x n f
  part_far : 0 < count x f → a ≢ x → count x n ≡ 0 → PartOf a x n f

count-PartOf :
    (a x : ℕ) (n f : Tree)
    → count x n + (if a == x then 1 else 0) + count x f ≤ 1
    → 0 < count x n + (if a == x then 1 else 0) + count x f
    → PartOf a x n f
count-PartOf a x n f once on = elim (Bool-cases (a == x)) [
  | inl here ↦ part_root (eq_of_test a x here) (ground arith)
  | inr off ↦ elim (Bool-cases (count x n == 0)) [
    | inl none ↦ part_far (ground arith) (ne_of_test a x off) (eq_of_test (count x n) 0 none)
    | inr some ↦ part_near (ground arith)
  ]
]

module _ (s : Store) (par : ℕ) (d : Side) (a : ℕ) (t n f : Tree) (parts : Parts s par d a t n f)
    (v fuel : ℕ) where
  a_off : a ≢ 0
  a_off = λ q. omega (arith, parts.some_root, q)

  far_top : 0 < count (top n) n → s.child d a ≢ top n
  far_top on q =
      let nz = ne_of_count n (top n) 0 on (count-zero s a n parts.holds_near) in
      let e = sym parts.link_far ∙ q in
      let on' : 0 < count (top n) f =
        subst (λ z. 0 < count z f) e (top-count s a f parts.holds_far (λ z. nz (sym e ∙ z))) in
      omega (arith, on, on', parts.counts (top n))

  at_root-following :
      Climbs s d a par v fuel
      → count a n ≡ 0
      → AreOnce f
      → size f ≤ fuel
      → neighbour fuel d s a ≡ following_or v a (along d t)
  unfolding neighbour Climbs
  at_root-following up off once low =
      ap
        (λ b.
          if b
          then 0
          else if s.child d a == 0
          then climb fuel d s a (s.parent a)
          else outermost fuel (other d) s (s.child d a))
        (ne_test a 0 a_off)
      ∙ ap (λ c. if c == 0 then climb fuel d s a (s.parent a) else outermost fuel (other d) s c)
          parts.link_far
      ∙ from f parts.holds_far once low
      ∙ sym (
          ap (following_or v a) parts.listed
          ∙ following_or_here v a (along d n) (along d f) (Occurs-absent d n a off))
    where
      from :
          (f : Tree)
          → Holds s a f
          → AreOnce f
          → size f ≤ fuel
          → (if top f == 0
              then climb fuel d s a (s.parent a)
              else outermost fuel (other d) s (top f))
            ≡ first_or v (along d f)
      from leaf h once low =
          ap (climb fuel d s a) parts.up
          ∙ up fuel (omega arith)
          ∙ ap (first_or v) (sym (along_leaf d))
      from (branch l b r) (pos, el, er, ep, hl, hr) once low =
          let ne : b ≢ 0 = λ q. omega (arith, pos, q) in
          ap (λ c. if c then climb fuel d s a (s.parent a) else outermost fuel (other d) s b)
            (ne_test b 0 ne)
          ∙ outermost-first fuel s a d (branch l b r) v (pos, el, er, ep, hl, hr) once ne low

following_within :
    (m : ℕ) (s : Store) (par : ℕ) (d : Side) (t : Tree) (v k x fuel : ℕ)
    → size t ≤ m
    → Holds s par t
    → AreOnce t
    → 0 < count x t
    → Climbs s d (top t) par v k
    → k + size t ≤ fuel
    → neighbour fuel d s x ≡ following_or v x (along d t)
following_within m s par d leaf v k x fuel low h once on up enough = absurd (omega arith)
following_within zero s par d (branch l a r) v k x fuel low h once on up enough =
    absurd (omega arith)
following_within (suc m) s par d (branch l a r) v k x fuel low h once on up enough =
    let n = near d l r in
    let f = far d l r in
    let parts = tree-Parts s par d l a r h once in
    elim (count-PartOf a x n f (parts.counts x) (omega (arith, on, parts.total x))) [
      | part_root e off ↦
          subst (λ y. neighbour fuel d s y ≡ following_or v y (along d (branch l a r))) e
            (at_root-following s par d a (branch l a r) n f parts v fuel
              (unfold Climbs in λ fuel' le. up fuel' (omega arith)) (ap (λ y. count y n) e ∙ off)
              (λ y. let c = parts.counts y in omega arith) (omega (arith, enough, parts.sizes)))
      | part_near on_n ↦
          following_within m s a d n a 1 x fuel (omega (arith, low, parts.sizes)) parts.holds_near
            (λ y. let c = parts.counts y in omega arith) on_n
            (climb_near s d a (top n) (
              far_top s par d a (branch l a r) n f parts v fuel
                (top_of_count n parts.holds_near on_n)))
            (omega (arith, enough, parts.sizes))
          ∙ sym (
              ap (following_or v x) parts.listed
              ∙ following_or_before v x (along d n) (a ∷ along d f) (Occurs-count d n x on_n))
      | part_far on_f ne off ↦
          following_within m s a d f v (k + 1) x fuel (omega (arith, low, parts.sizes))
            parts.holds_far (λ y. let c = parts.counts y in omega arith) on_f
            (climb_far s d a par (top f) v k parts.some_root parts.link_far parts.up up)
            (omega (arith, enough, parts.sizes))
          ∙ sym (
              ap (following_or v x) parts.listed
              ∙ following_or_absent v x (along d n) (a ∷ along d f) (Occurs-absent d n x off)
              ∙ unfold following_or in
                ap (λ b. if b then first_or v (along d f) else following_or v x (along d f))
                  (ne_test a x ne))
    ]
  where
    top_of_count : (n : Tree) → Holds s a n → 0 < count x n → 0 < count (top n) n
    top_of_count leaf h on = absurd (omega arith)
    top_of_count (branch l b r) h on = count-root l b r

-- In a store that holds a tree, with fuel for its size, `rb_next` of a node is what follows it in
-- the order of the nodes, and `rb_prev` what follows it backwards; the null pointer at the end.
pub rb_next-following :
    (fuel : ℕ) (s : Store) (t : Tree) (x : ℕ)
    → IsTree s t
    → 0 < count x t
    → size t ≤ fuel
    → (rb_next fuel s x ≡ following_or 0 x (inorder t))
      × (rb_prev fuel s x ≡ following_or 0 x (backwards t))
unfolding rb_next rb_prev
rb_next-following fuel s t x is on enough =
    let walk = λ (d : Side).
      following_within (size t) s 0 d t 0 0 x fuel (omega arith) is.holds is.once on
        (climb_root s d (top t)) (omega arith) in
    (walk right, walk left)
