-- ===== src/Rbtree/Tests.antt =====
-- Three nodes: 2 at the root, 1 and 3 below it.
use mathlib.Core.Path.{subst}
use au_os.Prelude.{
  [], ◌∷◌, ◌*◌, ◌^◌, ◌≤◌, ℕ, sym, ◌==◌, ◌||◌, if◌then◌else◌, Bool-cases, inl, inr, ◌+◌, ◌<◌, ◌≡◌,
  refl, true, false, some, arith,
}
use au_os.Rbtree.{
  set_parent_if, replace_child, Side, left, right, Store, rotate, rb_red, rb_insert, rb_link,
  rb_next, rb_prev, neighbour, outermost, climb, set_child, set_parent, set_color,
}
use au_os.Rbtree.Shape.{size, Tree, leaf, branch, inorder, count, IsTree}
use mathlib.Core.Option.{map}
use au_os.Rbtree.Erase.{
  rb_erase, lift_child, copy_parent, erase_end, rb_erase_fix, fix_sibling, fix_done,
}
use au_os.Rbtree.Risen.{eq_of_test}
use au_os.Rbtree.Turn.{turn}
use au_os.Rbtree.Rotate.{rotate-IsTree}
use au_os.Rbtree.Colour.{Colours, weight, red_not_black}
use au_os.Rbtree.Link.{plant}
use au_os.Rbtree.Linked.{levels, linked-IsTree, linked-Colours, red_at}
use au_os.Rbtree.Restored.{IsRedBlack, rb_insert-IsRedBlack}
use au_os.Rbtree.Sequence.{backwards, following_or}
use au_os.Rbtree.Depth.{depth}
use au_os.Rbtree.Balance.{rb_insert-depth}
use au_os.Rbtree.Neighbour.{rb_next-following}
use au_os.Rbtree.Added.{IsFree, below, placed, rb_insert-rb_link}

abbrev children : Side → ℕ → ℕ
children left a = if a == 2 then 1 else 0
children right a = if a == 2 then 3 else 0

abbrev parents : ℕ → ℕ
parents a = if a == 1 || a == 3 then 2 else 0

abbrev three : Store
three = record { child = children; parent = parents; black = λ a. a == 2; root = 2 }

abbrev three_tree : Tree
three_tree = branch (branch leaf 1 leaf) 2 (branch leaf 3 leaf)

abbrev heights : ℕ → ℕ
heights a = if a == 0 then 0 else 1

three-IsTree : IsTree three three_tree
three-IsTree = record {
  rooted = refl;
  holds = (
    omega arith,
    refl,
    refl,
    refl,
    (omega arith, refl, refl, refl, tt, tt),
    (omega arith, refl, refl, refl, tt, tt),
  );
  once = λ a. ground arith;
}

three_nodes : (P : ℕ → Type 0) → P 1 → P 2 → P 3 → (a : ℕ) → 0 < count a three_tree → P a
three_nodes P p q r a on = elim (Bool-cases (a == 1)) [
  | inl at_1 ↦ subst P (sym (eq_of_test a 1 at_1)) p
  | inr off_1 ↦ elim (Bool-cases (a == 2)) [
    | inl at_2 ↦ subst P (sym (eq_of_test a 2 at_2)) q
    | inr off_2 ↦ subst P (sym (eq_of_test a 3 (ground arith))) r
  ]
]

abbrev IsEven : ℕ → ℕ → Type 0
IsEven a c = heights a ≡ heights c + weight (rb_red three c)

abbrev IsFine : ℕ → ℕ → Type 0
IsFine a c = rb_red three a ≡ true → rb_red three c ≡ true → c ≡ 0

both :
    (a : ℕ) (P : ℕ → ℕ → Type 0)
    → P a (children left a)
    → P a (children right a)
    → (e : Side) → P a (children e a)
both a P p q left = p
both a P p q right = q

three-Colours : Colours three three_tree heights 0
unfolding rb_red
three-Colours = record {
  none_below = refl;
  even =
      three_nodes (λ a. (e : Side) → IsEven a (children e a)) (both 1 IsEven refl refl)
        (both 2 IsEven refl refl) (both 3 IsEven refl refl);
  reds =
      three_nodes (λ a. (e : Side) → IsFine a (children e a))
        (both 1 IsFine (λ p q. refl) (λ p q. refl))
        (both 2 IsFine (λ p q. absurd (red_not_black (rb_red three 2) p refl))
          (λ p q. absurd (red_not_black (rb_red three 2) p refl)))
        (both 3 IsFine (λ p q. refl) (λ p q. refl));
}

three-IsRedBlack : IsRedBlack three three_tree
unfolding rb_red
three-IsRedBlack = record {
  is = three-IsTree;
  height = heights;
  colours = three-Colours;
  root_black = refl;
}

three-IsFree : IsFree three three_tree right 3
three-IsFree = below 3 (omega arith) refl

rb_insert-rb_link_example :
    (s' : Store) × (t' : Tree) × (rb_insert 4 4 (rb_link 4 3 right three) ≡ some s')
    × IsRedBlack s' t'
    × (inorder t' ≡ placed right 3 4 (inorder three_tree))
rb_insert-rb_link_example =
    rb_insert-rb_link 4 three three_tree 4 3 right three-IsRedBlack (λ e. omega (arith, e)) refl
      three-IsFree (omega arith)

rotate-IsTree_example :
    (s' : Store) × (rotate right 2 three ≡ some s')
    × IsTree s' (turn right 2 three_tree)
    × (inorder (turn right 2 three_tree) ≡ inorder three_tree)
    × ((a : ℕ) → s'.black a ≡ three.black a)
rotate-IsTree_example =
    rotate-IsTree three three_tree right 2 three-IsTree (omega arith) (λ e. omega (arith, e))

-- The store with a fourth node, before it is mended.
abbrev four : Store
four = rb_link 4 3 right three

four-root : rb_red four four.root ≡ true → four.root ≡ 4
unfolding rb_link rb_red set_child set_parent set_color
four-root e = absurd (red_not_black false e refl)

rb_insert-IsRedBlack_example :
    (s' : Store) × (t' : Tree) × (rb_insert 4 4 four ≡ some s')
    × IsRedBlack s' t'
    × (inorder t' ≡ inorder (plant right 3 4 three_tree))
rb_insert-IsRedBlack_example =
    rb_insert-IsRedBlack 4 four (plant right 3 4 three_tree) (levels heights 4) 4
      (linked-IsTree three three_tree heights 4 3 right three-IsTree three-Colours (omega arith)
        refl (λ e. omega (arith, e)) refl)
      (linked-Colours three three_tree heights 4 3 right three-IsTree three-Colours (omega arith)
        refl (λ e. omega (arith, e)) refl)
      (unfold plant in omega arith)
      (red_at three three_tree heights 4 3 right three-IsTree three-Colours (omega arith) refl
        (λ e. omega (arith, e)) refl)
      four-root (unfold plant in omega arith)

rb_next-following_example :
    (rb_next 3 three 2 ≡ following_or 0 2 (inorder three_tree))
    × (rb_prev 3 three 2 ≡ following_or 0 2 (backwards three_tree))
rb_next-following_example =
    rb_next-following 3 three three_tree 2 three-IsTree (omega arith) (omega arith)

rb_insert-depth_example :
    (s' : Store) × (t' : Tree) × (k : ℕ) × (rb_insert 4 4 (rb_link 4 3 right three) ≡ some s')
    × IsTree s' t'
    × (2 ^ k ≤ size t' + 1)
    × ((x : ℕ) → 0 < count x t' → depth x t' ≤ 2 * k)
rb_insert-depth_example =
    rb_insert-depth 4 three three_tree 4 3 right three-IsRedBlack (λ e. omega (arith, e)) refl
      three-IsFree (omega arith)

two_then_three : rb_next 3 three 2 ≡ 3
unfolding rb_next neighbour outermost climb
two_then_three = refl

none_after_three : rb_next 3 three 3 ≡ 0
unfolding rb_next neighbour outermost climb
none_after_three = refl

-- The root goes: 3 takes its place, and 1 is below it.
erased_root :
    map (λ (s : Store). (s.root ∷ s.child left 3 ∷ s.parent 1 ∷ [])) (rb_erase 4 2 three)
    ≡ some (3 ∷ 1 ∷ 3 ∷ [])
unfolding rb_erase rb_next neighbour outermost lift_child copy_parent set_child set_parent set_color
    erase_end replace_child
erased_root = refl

-- Three black nodes.
abbrev black_three : Store
black_three = record three { black = λ a. true }

-- Where 1 goes, 3 gets red.
erased_black :
    map (λ (s : Store). (s.root ∷ s.child left 2 ∷ s.child right 2 ∷ [])) (rb_erase 4 1 black_three)
    ≡ some (2 ∷ 0 ∷ 3 ∷ [])
unfolding rb_erase rb_next neighbour climb set_parent_if set_child set_parent set_color erase_end
    replace_child rb_erase_fix fix_sibling fix_done rb_red
erased_black = refl

erased_black_colours : map (λ (s : Store). rb_red s 3) (rb_erase 4 1 black_three) ≡ some true
unfolding rb_erase rb_next neighbour climb set_parent_if set_child set_parent set_color erase_end
    replace_child rb_erase_fix fix_sibling fix_done rb_red
erased_black_colours = refl
