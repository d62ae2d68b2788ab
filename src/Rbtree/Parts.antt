-- ===== src/Rbtree/Parts.antt =====
-- The parts of a tree in one direction, and the outermost node.
use au_os.Prelude.{
  ℕ, zero, suc, ◌+◌, ◌≤◌, ◌<◌, ◌≡◌, ◌≢◌, refl, ap, sym, ◌∙◌, ◌∷◌, ◌++◌, arith, ◌==◌, if◌then◌else◌,
}
use au_os.Rbtree.{Side, left, right, other, Store, outermost}
use au_os.Rbtree.Shape.{Tree, leaf, branch, top, count, size, Holds, AreOnce}
use au_os.Rbtree.Risen.{ne_test}
use au_os.Rbtree.Sequence.{along, first_or, first_or-append, near, far, along_leaf}

-- A tree by its parts in the direction `d`.
pub record Parts (s : Store) (par : ℕ) (d : Side) (a : ℕ) (t n f : Tree) : Type 0 where
  pub some_root : 0 < a
  pub link_far : s.child d a ≡ top f
  pub link_near : s.child (other d) a ≡ top n
  pub up : s.parent a ≡ par
  pub holds_far : Holds s a f
  pub holds_near : Holds s a n
  pub total : (x : ℕ) → count x t ≡ count x n + (if a == x then 1 else 0) + count x f
  pub sizes : size t ≡ size n + 1 + size f
  pub counts : (x : ℕ) → count x n + (if a == x then 1 else 0) + count x f ≤ 1
  pub listed : along d t ≡ along d n ++ a ∷ along d f

pub tree-Parts :
    (s : Store) (par : ℕ) (d : Side) (l : Tree) (a : ℕ) (r : Tree)
    → Holds s par (branch l a r)
    → AreOnce (branch l a r)
    → Parts s par d a (branch l a r) (near d l r) (far d l r)
tree-Parts s par right l a r (pos, el, er, ep, hl, hr) once = record {
  some_root = pos;
  link_far = er;
  link_near = el;
  up = ep;
  holds_far = hr;
  holds_near = hl;
  total = λ x. refl;
  sizes = refl;
  counts = once;
  listed = refl;
}
tree-Parts s par left l a r (pos, el, er, ep, hl, hr) once = record {
  some_root = pos;
  link_far = el;
  link_near = er;
  up = ep;
  holds_far = hl;
  holds_near = hr;
  total = λ x. omega arith;
  sizes = omega arith;
  counts = λ x. let n = once x in omega arith;
  listed = refl;
}

-- The outermost node comes first.
pub outermost-first :
    (fuel : ℕ) (s : Store) (par : ℕ) (d : Side) (t : Tree) (v : ℕ)
    → Holds s par t
    → AreOnce t
    → top t ≢ 0
    → size t ≤ fuel
    → outermost fuel (other d) s (top t) ≡ first_or v (along d t)
unfolding outermost
outermost-first fuel s par d leaf v h once ne enough = absurd (ne refl)
outermost-first zero s par d (branch l a r) v h once ne enough = absurd (omega arith)
outermost-first (suc fuel) s par d (branch l a r) v h once ne enough =
    let parts = tree-Parts s par d l a r h once in
    step (near d l r) parts (
      outermost-first fuel s a d (near d l r) a parts.holds_near
        (λ x. let n = parts.counts x in omega arith))
  where
    Walk : Tree → Type 0
    Walk n = top n ≢ 0 → size n ≤ fuel → outermost fuel (other d) s (top n) ≡ first_or a (along d n)

    from :
        (n : Tree)
        → Holds s a n
        → size n ≤ fuel
        → Walk n
        → (if top n == 0 then a else outermost fuel (other d) s (top n)) ≡ first_or a (along d n)
    from leaf hn low ih = ap (first_or a) (sym (along_leaf d))
    from (branch l' a' r') (pos, el, er, ep, hl, hr) low ih =
        let ne' : a' ≢ 0 = λ q. omega (arith, pos, q) in
        ap (λ b. if b then a else outermost fuel (other d) s a') (ne_test a' 0 ne') ∙ ih ne' low

    step :
        (n : Tree)
        → Parts s par d a (branch l a r) n (far d l r)
        → Walk n
        → (if a == 0
            then 0
            else if s.child (other d) a == 0
            then a
            else outermost fuel (other d) s (s.child (other d) a))
          ≡ first_or v (along d (branch l a r))
    step n parts ih =
        ap
          (λ b.
            if b
            then 0
            else if s.child (other d) a == 0
            then a
            else outermost fuel (other d) s (s.child (other d) a))
          (ne_test a 0 ne)
        ∙ ap (λ c. if c == 0 then a else outermost fuel (other d) s c) parts.link_near
        ∙ from n parts.holds_near (omega (arith, enough, parts.sizes)) ih
        ∙ sym
            (ap (first_or v) parts.listed ∙ first_or-append v (along d n) (a ∷ along d (far d l r)))
