-- ===== src/Rbtree/Balance.antt =====
-- How deep a red-black tree is.
use mathlib.Core.Path.{subst}
use native.Mathlib.Nat.{pow-suc}
use au_os.Prelude.{
  ℕ, suc, ◌+◌, ◌*◌, ◌^◌, ◌≤◌, ◌<◌, ◌≡◌, ◌≢◌, refl, ap, sym, ◌∙◌, inl, inr, Bool, true, false, some,
  arith, ◌==◌, Bool-cases, ltb,
}
use au_os.Rbtree.{Side, left, right, Store, rb_red, rb_link, rb_insert}
use au_os.Rbtree.Shape.{
  Tree, leaf, branch, top, count, size, Holds, IsTree, count-root, count-left, count-right,
}
use au_os.Rbtree.Depth.{depth}
use au_os.Rbtree.Colour.{weight, red_some, rb_red_zero}
use au_os.Rbtree.Restored.{IsRedBlack}
use au_os.Rbtree.Added.{IsFree, rb_insert-rb_link}

IsEven : Store → (height : ℕ → ℕ) → Tree → Type 0
IsEven s height t =
    (a : ℕ)
    → 0 < count a t
    → (e : Side) → height a ≡ height (s.child e a) + weight (rb_red s (s.child e a))

HasNoPair : Store → Tree → Type 0
HasNoPair s t =
    (a : ℕ) → 0 < count a t → (e : Side) → rb_red s a ≡ true → rb_red s (s.child e a) ≡ false

pow_next : (n : ℕ) → 2 ^ (n + 1) ≡ 2 * 2 ^ n
pow_next n =
    let e : n + 1 ≡ suc n = omega arith in
    let e' : 2 ^ suc n ≡ 2 * 2 ^ n = omega (arith, pow-suc 2 n) in ap (λ z. 2 ^ z) e ∙ e'

pow_weight : (n : ℕ) (b : Bool) → 2 ^ (n + weight b) ≤ 2 * 2 ^ n
pow_weight n true =
    let e : n + 0 ≡ n = omega arith in let e' = ap (λ z. 2 ^ z) e in omega (arith, e')
pow_weight n false = let e = pow_next n in omega arith

half_pow : (n k : ℕ) → 2 ^ (n + 1) ≤ 2 * k → 2 ^ n ≤ k
half_pow n k le = omega (arith, pow_next n, le)

in_left : (x : ℕ) (l : Tree) → ltb 0 (count x l) ≡ true → 0 < count x l
in_left x l e = ground arith

in_right :
    (x : ℕ) (l : Tree) (a : ℕ) (r : Tree)
    → (a == x) ≡ false
    → ltb 0 (count x l) ≡ false
    → 0 < count x (branch l a r)
    → 0 < count x r
in_right x l a r e e' on = ground arith

-- The black pointers on a way down are few for the size.
weigh-size :
    (s : Store) (par : ℕ) (height : ℕ → ℕ) (t : Tree)
    → Holds s par t
    → height 0 ≡ 0
    → IsEven s height t
    → 2 ^ (height (top t) + weight (rb_red s (top t))) ≤ 2 * (size t + 1)
unfolding IsEven
weigh-size s par height leaf h e0 even =
    let e : height 0 + weight (rb_red s 0) ≡ 1 = omega (arith, e0, ap weight (rb_red_zero s)) in
    subst (λ z. 2 ^ z ≤ 2) (sym e) (omega arith)
weigh-size s par height (branch l a r) (pos, el, er, ep, hl, hr) e0 even =
    let ih = weigh-size s a height l hl e0 (λ b on. even b (count-left l a r b on)) in
    let ih' = weigh-size s a height r hr e0 (λ b on. even b (count-right l a r b on)) in
    let e : height a ≡ height (top l) + weight (rb_red s (top l)) =
      subst (λ c. height a ≡ height c + weight (rb_red s c)) el (even a (count-root l a r) left) in
    let e' : height a ≡ height (top r) + weight (rb_red s (top r)) =
      subst (λ c. height a ≡ height c + weight (rb_red s c)) er (even a (count-root l a r) right) in
    let low : 2 ^ height a ≤ 2 * (size l + 1) = subst (λ z. 2 ^ z ≤ 2 * (size l + 1)) (sym e) ih in
    let low' : 2 ^ height a ≤ 2 * (size r + 1) =
      subst (λ z. 2 ^ z ≤ 2 * (size r + 1)) (sym e') ih' in
    let last = pow_weight (height a) (rb_red s a) in omega (arith, low, low', last)

one_down :
    (n h h' : ℕ) (b b' : Bool)
    → h ≡ h' + weight b'
    → (b ≡ true → b' ≡ false)
    → n + 1 ≤ 2 * h' + weight b'
    → n + 1 + 1 ≤ 2 * h + weight b
one_down n h h' false false e f le = omega arith
one_down n h h' false true e f le = omega arith
one_down n h h' true false e f le = omega arith
one_down n h h' true true e f le = omega (arith, ap weight (f refl))

at_top :
    (h h' : ℕ) (b b' : Bool)
    → h ≡ h' + weight b'
    → (b ≡ true → b' ≡ false)
    → 0 + 1 ≤ 2 * h + weight b
at_top h h' false b' e f = omega arith
at_top h h' true false e f = omega arith
at_top h h' true true e f = omega (arith, ap weight (f refl))

-- A way down has twice as many pointers as black ones at most, one less below a red node.
depth-height :
    (s : Store) (par : ℕ) (height : ℕ → ℕ) (t : Tree) (x : ℕ)
    → Holds s par t
    → IsEven s height t
    → HasNoPair s t
    → 0 < count x t
    → depth x t + 1 ≤ 2 * height (top t) + weight (rb_red s (top t))
unfolding depth IsEven HasNoPair
depth-height s par height leaf x h even alone on = absurd (omega arith)
depth-height s par height (branch l a r) x (pos, el, er, ep, hl, hr) even alone on =
    let below : (sub : Tree) (e : Side)
        → s.child e a ≡ top sub
        → (height a ≡ height (top sub) + weight (rb_red s (top sub)))
          × (rb_red s a ≡ true → rb_red s (top sub) ≡ false) =
      λ sub e q. (
        subst (λ c. height a ≡ height c + weight (rb_red s c)) q (even a (count-root l a r) e),
        subst (λ c. rb_red s a ≡ true → rb_red s c ≡ false) q (alone a (count-root l a r) e),
      ) in
    elim (Bool-cases (a == x)) [
      | inl here ↦
          let (e, f) = below l left el in
          rw here (at_top (height a) (height (top l)) (rb_red s a) (rb_red s (top l)) e f)
      | inr off ↦ elim (Bool-cases (ltb 0 (count x l))) [
        | inl on_left ↦
            let some = in_left x l on_left in
            let ih =
              depth-height s a height l x hl (λ b o. even b (count-left l a r b o))
                (λ b o. alone b (count-left l a r b o)) some in
            let (e, f) = below l left el in
            rw (off, on_left)
              (one_down (depth x l) (height a) (height (top l)) (rb_red s a) (rb_red s (top l)) e f
                ih)
        | inr none ↦
            let some = in_right x l a r off none on in
            let ih =
              depth-height s a height r x hr (λ b o. even b (count-right l a r b o))
                (λ b o. alone b (count-right l a r b o)) some in
            let (e, f) = below r right er in
            rw (off, none)
              (one_down (depth x r) (height a) (height (top r)) (rb_red s a) (rb_red s (top r)) e f
                ih)
      ]
    ]

-- After `rb_link` and `rb_insert` on a red-black tree, with fuel for its size: where the new tree has n
-- nodes, no node is deeper than 2 k, for a k with 2 ^ k at most n + 1.
pub rb_insert-depth :
    (fuel : ℕ) (s : Store) (t : Tree) (node parent : ℕ) (d : Side)
    → IsRedBlack s t
    → node ≢ 0
    → count node t ≡ 0
    → IsFree s t d parent
    → size t + 1 ≤ fuel
    → (s' : Store) × (t' : Tree) × (k : ℕ) × (rb_insert fuel node (rb_link node parent d s)
        ≡ some s')
      × IsTree s' t'
      × (2 ^ k ≤ size t' + 1)
      × ((x : ℕ) → 0 < count x t' → depth x t' ≤ 2 * k)
unfolding IsEven HasNoPair
rb_insert-depth fuel s t node parent d is nz off free enough =
    let (s', t', run, is', order) =
      rb_insert-rb_link fuel s t node parent d is nz off free enough in
    let black : rb_red s' (top t') ≡ false = ap (rb_red s') (sym is'.is.rooted) ∙ is'.root_black in
    let few = weigh-size s' 0 is'.height t' is'.is.holds is'.colours.none_below is'.colours.even in
    let few' : 2 ^ (is'.height (top t') + 1) ≤ 2 * (size t' + 1) =
      subst (λ b. 2 ^ (is'.height (top t') + weight b) ≤ 2 * (size t' + 1)) black few in
    (
      s',
      t',
      is'.height (top t'),
      run,
      is'.is,
      half_pow (is'.height (top t')) (size t' + 1) few',
      λ x on.
          let deep =
            depth-height s' 0 is'.height t' x is'.is.holds is'.colours.even
              (λ a on e red. no_red s' (s'.child e a) (is'.colours.reds a on e red)) on in
          omega (arith, deep, ap weight black),
    )
  where
    no_red : (s : Store) (a : ℕ) → (rb_red s a ≡ true → a ≡ 0) → rb_red s a ≡ false
    no_red s a f = elim (Bool-cases (rb_red s a)) [
      | inl red ↦ absurd (red_some s a red (f red))
      | inr black ↦ black
    ]
