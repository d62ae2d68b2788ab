-- ===== src/Rbtree/Erase.antt =====
-- rbtree.c: `rb_erase` and `rb_erase_fix`. `none` is an access through a null pointer.
use au_os.Prelude.{
  ℕ, zero, suc, Bool, true, false, not, ◌&&◌, ◌||◌, Option, none, some, ◌==◌, if◌then◌else◌,
}
use au_os.Rbtree.{
  Side, left, right, other, Store, and_then, set_child, set_parent, set_parent_if, set_color,
  rb_red, replace_child, rotate, rb_next,
}

-- What follows the loop.
unfoldable pub fix_done : (child : ℕ) → Store → Option Store
unfolding set_color
fix_done child s = if child == 0 then some s else some (set_color child true s)

-- A red sibling goes up.
unfoldable pub fix_sibling : (d : Side) → (parent : ℕ) → Store → Option Store
unfolding rb_red set_color rotate
fix_sibling d parent s =
    let b = s.child (other d) parent in
    if rb_red s b
    then rotate (other d) parent (set_color parent false (set_color b true s))
    else some s

-- The inner child of the sibling goes up where the outer one is black.
unfoldable pub fix_inner : (d : Side) → (b : ℕ) → Store → Option Store
unfolding rb_red set_color rotate
fix_inner d b s =
    if rb_red s (s.child (other d) b)
    then some s
    else rotate d b (set_color b false (set_color (s.child d b) true s))

-- The sibling goes up, with the colour of the parent.
unfoldable pub fix_outer : (d : Side) → (parent : ℕ) → Store → Option Store
unfolding set_color rotate
fix_outer d parent s =
    let b = s.child (other d) parent in
    let outer = s.child (other d) b in
    let coloured = set_color parent true (set_color b (s.black parent) s) in
    rotate (other d) parent (if outer == 0 then coloured else set_color outer true coloured)

unfoldable pub fix_rotate : (d : Side) → (b parent : ℕ) → Store → Option Store
unfolding fix_inner fix_outer fix_done
fix_rotate d b parent s =
    and_then (fix_inner d b s)
      (λ s'. and_then (fix_outer d parent s') (λ s''. fix_done s''.root s''))

-- Fuel for the depth of `child`; `none` without.
unfoldable pub rb_erase_fix : ℕ → (child parent : ℕ) → Store → Option Store
unfolding rb_red set_color fix_sibling fix_rotate fix_done
rb_erase_fix zero child parent s = none
rb_erase_fix (suc fuel) child parent s =
    let d = if child == s.child left parent then left else right in
    if rb_red s child || child == s.root
    then fix_done child s
    else if parent == 0
    then none
    else and_then (fix_sibling d parent s) (λ s'.
      let b = s'.child (other d) parent in
      if b == 0
      then none
      else if not (rb_red s' (s'.child left b)) && not (rb_red s' (s'.child right b))
      then rb_erase_fix fuel parent (s'.parent parent) (set_color b false s')
      else fix_rotate d b parent s')

-- `x->parent = node->parent`, the colour with it.
unfoldable pub copy_parent : (x node : ℕ) → Store → Store
unfolding set_parent set_color
copy_parent x node s = set_color x (s.black node) (set_parent x (s.parent node) s)

-- `*x = *node`.
unfoldable pub copy_node : (x node : ℕ) → Store → Store
unfolding set_child copy_parent
copy_node x node s =
    copy_parent x node
      (set_child right x (s.child right node) (set_child left x (s.child left node) s))

-- `x` takes the place of `node` among the children's links, where it is the right child.
unfoldable pub lift_child : (x node : ℕ) → Store → Store
unfolding set_child set_parent copy_parent
lift_child x node s =
    set_parent (s.child left node) x (copy_parent x node (set_child left x (s.child left node) s))

-- And where it is further down.
unfoldable pub lift_far : (x node : ℕ) → Store → Store
unfolding set_child set_parent set_parent_if copy_node
lift_far x node s =
    let p = s.parent x in
    let c = s.child right x in
    set_parent (s.child right node) x (
      set_parent (s.child left node) x
        (set_parent_if c p (set_child left p c (copy_node x node s))))

-- The end of `rb_erase`: `x` in the place of `node`, and the loop where a black node is missing.
unfoldable pub erase_end : ℕ → (node x c p : ℕ) → (black : Bool) → Store → Option Store
unfolding replace_child rb_erase_fix
erase_end fuel node x c p black s =
    let replaced = replace_child (s.parent node) node x s in
    if black then rb_erase_fix fuel c p replaced else some replaced

unfoldable pub rb_erase : ℕ → (node : ℕ) → Store → Option Store
unfolding rb_next lift_child lift_far set_parent_if erase_end
rb_erase fuel node s =
    let x = rb_next fuel s node in
    let only = if s.child left node == 0 then s.child right node else s.child left node in
    if node == 0
    then none
    else if s.child left node == 0 || s.child right node == 0
    then erase_end fuel node only only (s.parent node) (s.black node)
        (set_parent_if only (s.parent node) s)
    else if x == s.child right node
    then erase_end fuel node x (s.child right x) x (s.black x) (lift_child x node s)
    else erase_end fuel node x (s.child right x) (s.parent x) (s.black x) (lift_far x node s)
