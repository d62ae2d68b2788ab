-- ===== src/Rbtree/Moved.antt =====
-- rbtree.c: the tree after a rotation, from its links.
use mathlib.Core.Path.{subst}
use au_os.Prelude.{ℕ, ◌<◌, ◌≡◌, ◌≢◌, refl, ap, sym, ◌∙◌, arith, ◌==◌, if◌then◌else◌}
use au_os.Rbtree.{Side, left, right, Store}
use au_os.Rbtree.Shape.{
  Tree, leaf, branch, top, count, Holds, AreOnce, at_root, at_left, at_right, count-IsIn, top-count,
  once-left, once-right, left-apart, right-apart,
}
use au_os.Rbtree.Turned.{Turned, Around}
use au_os.Rbtree.Risen.{eq_test, ne_test}
use au_os.Rbtree.Turn.{turn, turn_here, turn_at, turn_left, turn_right}
use au_os.Rbtree.Spared.{count-AreApart, on_r, on_m, spared, moved, kept, rejoin}

-- The subtree of `x`, where its right child goes up.
Turned-right :
    (s s' : Store) (x p r m : ℕ)
    → Around s right x p r m
    → Turned s s' right x p r m
    → (par : ℕ) (l rr : Tree) → Holds s par (branch l x rr)
    → AreOnce (branch l x rr)
    → Holds s' par (turn_here right (branch l x rr)) × (top (turn_here right (branch l x rr)) ≡ r)
Turned-right s s' x p r m near turned par l leaf (pos, el, er, ep, hl, hr) once =
    absurd (omega (arith, near.some_r, near.is_r, er))
Turned-right s s' x p r m near turned par l (branch b c d)
      (pos, el, er, ep, hl, (pos', el', er', ep', hb, hd)) once =
    let q : r ≡ c = sym near.is_r ∙ er in
    let em : m ≡ top b = sym near.is_m ∙ ap (s.child left) q ∙ el' in
    let apart = count-AreApart l b d x c once in
    let off : (t : Tree) → count c t ≡ 0 → count r t ≡ 0 = λ t e. ap (λ z. count z t) q ∙ e in
    let on_m : m ≢ 0 → 0 < count m b =
      λ ne. subst (λ z. 0 < count z b) (sym em) (top-count s c b hb (λ z. ne (em ∙ z))) in
    let low = spared s s' right x p r m near turned in
    (
      (
        pos',
        ap (s'.child left) (sym q) ∙ turned.r_other,
        ap (s'.child right) (sym q) ∙ turned.r_up ∙ ap (s.child right) q ∙ er',
        ap s'.parent (sym q) ∙ turned.r_parent ∙ sym near.is_p ∙ ep,
        (
          pos,
          turned.x_other ∙ el,
          turned.x_up ∙ em,
          turned.x_parent ∙ q,
          low x l hl apart.x_u (off l apart.c_u) (λ ne. apart.v_u m (on_m ne)),
          moved s s' right x p r m near turned b (subst (λ z. Holds s z b) (sym q) hb)
              (once-left b c d (once-right l x (branch b c d) once)) em apart.x_v (off b apart.c_v),
        ),
        low c d hd apart.x_w (off d apart.c_w) (λ ne. apart.v_w m (on_m ne)),
      ),
      sym q,
    )

Turned-left :
    (s s' : Store) (x p r m : ℕ)
    → Around s left x p r m
    → Turned s s' left x p r m
    → (par : ℕ) (l rr : Tree) → Holds s par (branch l x rr)
    → AreOnce (branch l x rr)
    → Holds s' par (turn_here left (branch l x rr)) × (top (turn_here left (branch l x rr)) ≡ r)
Turned-left s s' x p r m near turned par leaf rr (pos, el, er, ep, hl, hr) once =
    absurd (omega (arith, near.some_r, near.is_r, el))
Turned-left s s' x p r m near turned par (branch b c d) rr
      (pos, el, er, ep, (pos', el', er', ep', hb, hd), hr) once =
    let q : r ≡ c = sym near.is_r ∙ el in
    let em : m ≡ top d = sym near.is_m ∙ ap (s.child right) q ∙ er' in
    let apart = count-AreApart rr d b x c (λ y. let n = once y in omega arith) in
    let off : (t : Tree) → count c t ≡ 0 → count r t ≡ 0 = λ t e. ap (λ z. count z t) q ∙ e in
    let on_m : m ≢ 0 → 0 < count m d =
      λ ne. subst (λ z. 0 < count z d) (sym em) (top-count s c d hd (λ z. ne (em ∙ z))) in
    let low = spared s s' left x p r m near turned in
    (
      (
        pos',
        ap (s'.child left) (sym q) ∙ turned.r_up ∙ ap (s.child left) q ∙ el',
        ap (s'.child right) (sym q) ∙ turned.r_other,
        ap s'.parent (sym q) ∙ turned.r_parent ∙ sym near.is_p ∙ ep,
        low c b hb apart.x_w (off b apart.c_w) (λ ne. apart.v_w m (on_m ne)),
        (
          pos,
          turned.x_up ∙ em,
          turned.x_other ∙ er,
          turned.x_parent ∙ q,
          moved s s' left x p r m near turned d (subst (λ z. Holds s z d) (sym q) hd)
              (once-right b c d (once-left (branch b c d) x rr once)) em apart.x_v
              (off d apart.c_v),
          low x rr hr apart.x_u (off rr apart.c_u) (λ ne. apart.v_u m (on_m ne)),
        ),
      ),
      sym q,
    )

Turned-here :
    (s s' : Store) (up : Side) (x p r m : ℕ)
    → Around s up x p r m
    → Turned s s' up x p r m
    → (par : ℕ) (l rr : Tree) → Holds s par (branch l x rr)
    → AreOnce (branch l x rr)
    → Holds s' par (turn_here up (branch l x rr)) × (top (turn_here up (branch l x rr)) ≡ r)
Turned-here s s' left x p r m near turned par l rr h once =
    Turned-left s s' x p r m near turned par l rr h once
Turned-here s s' right x p r m near turned par l rr h once =
    Turned-right s s' x p r m near turned par l rr h once

-- The whole tree.
pub Turned-all :
    (s s' : Store) (up : Side) (x p r m : ℕ)
    → Around s up x p r m
    → Turned s s' up x p r m
    → (par : ℕ) (t : Tree) → Holds s par t
    → AreOnce t
    → 0 < count x t
    → Holds s' par (turn up x t) × (top (turn up x t) ≡ (if top t == x then r else top t))
Turned-all s s' up x p r m near turned par leaf h once on = absurd (omega arith)
Turned-all s s' up x p r m near turned par (branch l a rr) (pos, el, er, ep, hl, hr) once on =
    elim (count-IsIn l a rr x on) [
      | at_root e ↦
          let (h, e') =
            Turned-here s s' up x p r m near turned par l rr
              (subst (λ y. Holds s par (branch l y rr)) (sym e) (pos, el, er, ep, hl, hr))
              (subst (λ y. AreOnce (branch l y rr)) (sym e) once) in
          subst
            (λ y.
              Holds s' par (turn up x (branch l y rr))
              × (top (turn up x (branch l y rr)) ≡ (if y == x then r else y)))
            e
            (subst (λ t. Holds s' par t × (top t ≡ (if x == x then r else x)))
              (sym (turn_at up l x rr)) (h, e' ∙ rw (eq_test x x refl) refl))
      | at_left on_side ↦
          let (h, e) =
            Turned-all s s' up x p r m near turned a l hl (once-left l a rr once) on_side in
          let (off, ax) = left-apart l a rr x once on_side in
          let (off_r, ar) =
            left-apart l a rr r once (on_r s s' up x p r m near turned a l hl on_side) in
          let am : m ≢ 0 → m ≢ a = λ ne.
            (left-apart l a rr m once (on_m s s' up x p r m near turned a l hl on_side ne)).1 in
          let e'' =
            rejoin s s' up x p r m near turned par l a rr (pos, el, er, ep, hl, hr) ax ar am in
          subst (λ t. Holds s' par t × (top t ≡ (if a == x then r else a)))
            (sym (turn_left up x l a rr once on_side))
            (
              (
                pos,
                e''.0 ∙ sym e,
                e''.1 ∙ kept s s' up x p r m near turned a rr hr off,
                e''.2,
                h,
                spared s s' up x p r m near turned a rr hr off off_r (λ ne.
                    (left-apart l a rr m once
                      (on_m s s' up x p r m near turned a l hl on_side ne)).0),
              ),
              rw (ne_test a x (λ q. ax (sym q))) refl,
            )
      | at_right on_side ↦
          let (h, e) =
            Turned-all s s' up x p r m near turned a rr hr (once-right l a rr once) on_side in
          let (off, ax) = right-apart l a rr x once on_side in
          let (off_r, ar) =
            right-apart l a rr r once (on_r s s' up x p r m near turned a rr hr on_side) in
          let am : m ≢ 0 → m ≢ a = λ ne.
            (right-apart l a rr m once (on_m s s' up x p r m near turned a rr hr on_side ne)).1 in
          let e'' =
            rejoin s s' up x p r m near turned par l a rr (pos, el, er, ep, hl, hr) ax ar am in
          subst (λ t. Holds s' par t × (top t ≡ (if a == x then r else a)))
            (sym (turn_right up x l a rr once on_side))
            (
              (
                pos,
                e''.0 ∙ kept s s' up x p r m near turned a l hl off,
                e''.1 ∙ sym e,
                e''.2,
                spared s s' up x p r m near turned a l hl off off_r (λ ne.
                    (right-apart l a rr m once
                      (on_m s s' up x p r m near turned a rr hr on_side ne)).0),
                h,
              ),
              rw (ne_test a x (λ q. ax (sym q))) refl,
            )
    ]
