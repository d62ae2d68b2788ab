-- ===== src/Rbtree.antt =====
-- rbtree.c: red-black trees over a store of nodes. A node is a number, 0 is the null pointer, and the
-- colour, which the C code keeps in the low bit of the parent's address, is a field of its own. The
-- functions of the C code that differ in nothing but the words left and right are one, with a side
-- to tell them apart. `none` is an access through a null pointer.
pub mod Shape
pub mod Risen
pub mod Turned
pub mod Depth
pub mod Near
pub mod Turn
pub mod Spared
pub mod Moved
pub mod Rotate
pub mod Colour
pub mod RedPair
pub mod Recolour
pub mod Straight
pub mod Inner
pub mod Link
pub mod Beside
pub mod Planted
pub mod Mended
pub mod Insert
pub mod Restored
pub mod Linked
pub mod Added
pub mod Sequence
pub mod Erase
pub mod Balance
pub mod Parts
pub mod Neighbour
mod Tests
use au_os.Prelude.{
  ℕ, zero, suc, ◌+◌, Bool, true, false, not, ◌&&◌, ◌||◌, Option, none, some, ◌==◌, if◌then◌else◌,
}

pub data Side : Type 0 where
  left : Side
  right : Side

abbrev pub other : Side → Side
other left = right
other right = left

abbrev pub same_side : Side → Side → Bool
same_side left left = true
same_side left right = false
same_side right left = false
same_side right right = true

-- `struct rb_node` by its fields, and the root of the tree.
pub record Store : Type 0 where
  pub child : Side → ℕ → ℕ
  pub parent : ℕ → ℕ
  pub black : ℕ → Bool
  pub root : ℕ

unfoldable pub set_child : Side → (node v : ℕ) → Store → Store
set_child d node v s = record s {
  child = λ e a. if same_side e d && a == node then v else s.child e a;
}

-- `rb_set_parent` keeps the colour.
unfoldable pub set_parent : (node v : ℕ) → Store → Store
set_parent node v s = record s { parent = λ a. if a == node then v else s.parent a }

-- `rb_set_color`, which keeps the parent.
unfoldable pub set_color : (node : ℕ) → Bool → Store → Store
set_color node c s = record s { black = λ a. if a == node then c else s.black a }

-- `rb_red`: a null pointer is black.
unfoldable pub rb_red : Store → ℕ → Bool
rb_red s node = not (node == 0) && not (s.black node)

abbrev pub and_then {ℓ κ} : {A : Type ℓ} {B : Type κ} → Option A → (A → Option B) → Option B
and_then none f = none
and_then (some a) f = f a

unfoldable pub set_parent_if : (node v : ℕ) → Store → Store
unfolding set_parent
set_parent_if node v s = if node == 0 then s else set_parent node v s

-- `r` in the place of `x` below `p`.
unfoldable pub replace_child : (p x r : ℕ) → Store → Store
unfolding set_child
replace_child p x r s =
    if p == 0
    then record s { root = r }
    else if s.child left p == x
    then set_child left p r s
    else set_child right p r s

-- `rb_rotate_left` and `rb_rotate_right`, by the side of the child that goes up.
unfoldable pub rotate : (up : Side) → (x : ℕ) → Store → Option Store
unfolding set_child set_parent set_parent_if replace_child
rotate up x s =
    let p = s.parent x in
    let r = s.child up x in
    let m = s.child (other up) r in
    let moved = set_parent_if m x (set_child up x m s) in
    let risen = set_parent r p (set_child (other up) r x moved) in
    if r == 0 then none else some (set_parent x r (replace_child p x r risen))

unfoldable pub rb_rotate_left : (x : ℕ) → Store → Option Store
unfolding rotate
rb_rotate_left x s = rotate right x s

unfoldable pub rb_rotate_right : (x : ℕ) → Store → Option Store
unfolding rotate
rb_rotate_right x s = rotate left x s

-- `__rb_leftmost` and `__rb_rightmost`. Fuel for the depth of the tree.
unfoldable pub outermost : ℕ → Side → Store → (node : ℕ) → ℕ
outermost zero d s node = node
outermost (suc fuel) d s node =
    let rest = outermost fuel d s (s.child d node) in
    if node == 0 then 0 else if s.child d node == 0 then node else rest

-- The loop of `rb_next` and `rb_prev` towards the root.
unfoldable pub climb : ℕ → Side → Store → (node p : ℕ) → ℕ
climb zero d s node p = p
climb (suc fuel) d s node p =
    let rest = climb fuel d s p (s.parent p) in
    if not (p == 0) && s.child d p == node then rest else p

-- `rb_next` on the right, and `rb_prev` on the left.
unfoldable pub neighbour : ℕ → Side → Store → (node : ℕ) → ℕ
unfolding outermost climb
neighbour fuel d s node =
    if node == 0
    then 0
    else if s.child d node == 0
    then climb fuel d s node (s.parent node)
    else outermost fuel (other d) s (s.child d node)

unfoldable pub rb_next : ℕ → Store → (node : ℕ) → ℕ
unfolding neighbour
rb_next fuel s node = neighbour fuel right s node

unfoldable pub rb_prev : ℕ → Store → (node : ℕ) → ℕ
unfolding neighbour
rb_prev fuel s node = neighbour fuel left s node

-- `rb_link` below `parent`, on the side of the link that it is given.
unfoldable pub rb_link : (node parent : ℕ) → Side → Store → Store
unfolding set_child set_parent set_color
rb_link node parent d s =
    let fresh =
      set_child right node 0
        (set_child left node 0 (set_color node false (set_parent node parent s))) in
    if parent == 0 then record fresh { root = node } else set_child d parent node fresh

-- The side of `p` below `g`.
abbrev pub side_of : Store → (g p : ℕ) → Side
side_of s g p = if p == s.child left g then left else right

-- `rb_insert` where the uncle is black: the inner grandchild goes up first, then `p`, which takes the
-- place of `g`.
unfoldable pub turn_up : (d : Side) → (p g : ℕ) → Store → Option Store
unfolding rotate set_color
turn_up d p g s = and_then (rotate d g s) (λ s'. some (set_color g false (set_color p true s')))

unfoldable pub insert_rotate : (d : Side) → (node p g : ℕ) → Store → Option Store
unfolding rotate turn_up
insert_rotate d node p g s =
    if node == s.child (other d) p
    then and_then (rotate (other d) p s) (λ s'. turn_up d node g s')
    else turn_up d p g s

-- The loop of `rb_insert`. Fuel for the depth of the node; `none` without.
unfoldable pub insert_loop : ℕ → (node p : ℕ) → Store → Option Store
unfolding rb_red set_color insert_rotate
insert_loop zero node p s = none
insert_loop (suc fuel) node p s =
    let g = s.parent p in
    let d = side_of s g p in
    let u = s.child (other d) g in
    let recoloured = set_color u true (set_color p true (set_color g false s)) in
    let rest = insert_loop fuel g (s.parent g) recoloured in
    if not (rb_red s p)
    then some s
    else if g == 0
    then none
    else if rb_red s u
    then rest
    else insert_rotate d node p g s

unfoldable pub rb_insert : ℕ → (node : ℕ) → Store → Option Store
unfolding insert_loop set_color
rb_insert fuel node s =
    and_then (insert_loop fuel node (s.parent node) s)
      (λ s'. if s'.root == 0 then none else some (set_color s'.root true s'))
