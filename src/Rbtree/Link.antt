-- ===== src/Rbtree/Link.antt =====
-- rbtree.h: `rb_link` of a new node below a free link.
use au_os.Prelude.{
  ℕ, ◌≡◌, ◌≢◌, refl, sym, ◌∙◌, inl, inr, Bool, true, false, ◌&&◌, List, [], ◌∷◌, ◌==◌,
  if◌then◌else◌, Bool-cases,
}
use au_os.Rbtree.{
  Side, left, right, other, same_side, Store, set_child, set_parent, set_color, rb_link,
}
use au_os.Rbtree.Shape.{Tree, leaf, branch}
use au_os.Rbtree.Risen.{eq_test, ne_test}

-- The tree with a new node below `parent`.
abbrev pub plant_here : Side → (node : ℕ) → Tree → ℕ → Tree → Tree
plant_here left node l a r = branch (branch leaf node leaf) a r
plant_here right node l a r = branch l a (branch leaf node leaf)

unfoldable pub plant : Side → (parent node : ℕ) → Tree → Tree
plant d parent node leaf = leaf
plant d parent node (branch l a r) =
    let l' = plant d parent node l in
    let r' = plant d parent node r in
    if a == parent then plant_here d node l a r else branch l' a r'

-- A sequence with `node` next to `parent`.
unfoldable pub beside : Side → (parent node : ℕ) → List ℕ → List ℕ
beside d parent node [] = []
beside left parent node (x ∷ xs) =
    let rest = beside left parent node xs in if x == parent then node ∷ x ∷ rest else x ∷ rest
beside right parent node (x ∷ xs) =
    let rest = beside right parent node xs in if x == parent then x ∷ node ∷ rest else x ∷ rest

-- The links after `rb_link`.
linked-child :
    (s : Store) (node parent : ℕ) (d e : Side) (a : ℕ)
    → parent ≢ 0
    → (rb_link node parent d s).child e a
      ≡ (if same_side e d && a == parent then node else if a == node then 0 else s.child e a)
unfolding rb_link set_child set_parent set_color
linked-child s node parent d left a ne = rw (ne_test parent 0 ne) refl
linked-child s node parent d right a ne = rw (ne_test parent 0 ne) refl

pub linked-parent :
    (s : Store) (node parent : ℕ) (d : Side) (a : ℕ)
    → (rb_link node parent d s).parent a ≡ (if a == node then parent else s.parent a)
unfolding rb_link set_child set_parent set_color
linked-parent s node parent d a = elim (Bool-cases (parent == 0)) [
  | inl none ↦ rw none refl
  | inr some ↦ rw some refl
]

pub linked-black :
    (s : Store) (node parent : ℕ) (d : Side) (a : ℕ)
    → (rb_link node parent d s).black a ≡ (if a == node then false else s.black a)
unfolding rb_link set_child set_parent set_color
linked-black s node parent d a = elim (Bool-cases (parent == 0)) [
  | inl none ↦ rw none refl
  | inr some ↦ rw some refl
]

module _ (s : Store) (node parent : ℕ) (d : Side) (ne : parent ≢ 0) (apart : node ≢ parent) where
  pub at_link : (rb_link node parent d s).child d parent ≡ node
  at_link = linked-child s node parent d d parent ne ∙ same d
    where
      same :
          (d : Side)
          → (if same_side d d && parent == parent
              then node
              else if parent == node
              then 0
              else s.child d parent)
            ≡ node
      same left = rw (eq_test parent parent refl) refl
      same right = rw (eq_test parent parent refl) refl

  pub at_other : (rb_link node parent d s).child (other d) parent ≡ s.child (other d) parent
  at_other = linked-child s node parent d (other d) parent ne ∙ same d
    where
      same :
          (d : Side)
          → (if same_side (other d) d && parent == parent
              then node
              else if parent == node
              then 0
              else s.child (other d) parent)
            ≡ s.child (other d) parent
      same left = rw (ne_test parent node (λ q. apart (sym q))) refl
      same right = rw (ne_test parent node (λ q. apart (sym q))) refl

  pub at_node : (e : Side) → (rb_link node parent d s).child e node ≡ 0
  at_node e = linked-child s node parent d e node ne ∙ drop (same_side e d)
    where
      drop :
          (b : Bool)
          → (if b && node == parent then node else if node == node then 0 else s.child e node) ≡ 0
      drop true = rw (ne_test node parent apart, eq_test node node refl) refl
      drop false = rw (eq_test node node refl) refl

  pub far :
      (e : Side) (a : ℕ) → a ≢ parent → a ≢ node → (rb_link node parent d s).child e a ≡ s.child e a
  far e a ap' an = linked-child s node parent d e a ne ∙ drop (same_side e d)
    where
      drop :
          (b : Bool)
          → (if b && a == parent then node else if a == node then 0 else s.child e a) ≡ s.child e a
      drop true = rw (ne_test a parent ap', ne_test a node an) refl
      drop false = rw (ne_test a node an) refl

  pub parent_node : (rb_link node parent d s).parent node ≡ parent
  parent_node = linked-parent s node parent d node ∙ rw (eq_test node node refl) refl

  pub parent_far : (a : ℕ) → a ≢ node → (rb_link node parent d s).parent a ≡ s.parent a
  parent_far a an = linked-parent s node parent d a ∙ rw (ne_test a node an) refl
