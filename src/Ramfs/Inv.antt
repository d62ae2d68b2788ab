-- ===== src/Ramfs/Inv.antt =====
-- The tree of entries: what holds of it, and that each entry is below the root.
use au_os.Prelude.{ℕ, zero, suc, ◌≤◌, ◌<◌, ◌≡◌, inl, inr, some, arith, ◌==◌, Bool-cases}
use au_os.MemCache.Inv.{count_of}
use au_os.Text.Laws.{AreBytes}
use au_os.Ramfs.{Fs}

-- A tree with root `r`. Its entries are the pointers from the root's to the fresh one; a child is
-- younger than its parent; each entry but the root is among its parent's children; and no two have
-- the same name.
pub record IsFs (fs : Fs) (r : ℕ) : Type 0 where
  pub rooted : fs.root ≡ some r
  pub root_old : r < fs.fresh
  pub younger :
      (p c : ℕ)
      → r ≤ p
      → p < fs.fresh
      → 0 < count_of c (fs.entry p).children
      → (p < c) × (c < fs.fresh)
  pub parents :
      (c : ℕ)
      → r < c
      → c < fs.fresh
      → (p : ℕ) × (r ≤ p) × (p < c) × (0 < count_of c (fs.entry p).children)
  pub unique :
      (p q : ℕ)
      → r ≤ p
      → p < fs.fresh
      → r ≤ q
      → q < fs.fresh
      → (fs.entry p).filename ≡ (fs.entry q).filename
      → p ≡ q
  pub bytes : (p : ℕ) → r ≤ p → p < fs.fresh → AreBytes (fs.entry p).filename

-- `q` is reached from `p` by children.
pub data IsBelow (fs : Fs) : ℕ → ℕ → Type 0 where
  here : (p : ℕ) → IsBelow fs p p
  down : (p c q : ℕ) → 0 < count_of c (fs.entry p).children → IsBelow fs c q → IsBelow fs p q

IsBelow-child :
    (fs : Fs) (p q c : ℕ) → IsBelow fs p q → 0 < count_of c (fs.entry q).children → IsBelow fs p c
IsBelow-child fs _ _ c (here p) on = down p c c on (here c)
IsBelow-child fs _ _ c (down p d q on' h) on = down p d c on' (IsBelow-child fs d q c h on)

IsBelow-root : (fs : Fs) (r n p : ℕ) → IsFs fs r → p < n → r ≤ p → p < fs.fresh → IsBelow fs r p
IsBelow-root fs r zero p ok lt le fresh = absurd (omega arith)
IsBelow-root fs r (suc n) p ok lt le fresh = elim (Bool-cases (p == r)) [
  | inl root ↦ let e : p ≡ r = ground arith in rw e (here r)
  | inr other ↦
      let (q, le', lt', on) = ok.parents p (ground arith) fresh in
      IsBelow-child fs r q p (IsBelow-root fs r n q ok (omega arith) le' (omega arith)) on
]

pub IsFs-IsBelow : (fs : Fs) (r p : ℕ) → IsFs fs r → r ≤ p → p < fs.fresh → IsBelow fs r p
IsFs-IsBelow fs r p ok le lt = IsBelow-root fs r (suc p) p ok (omega arith) le lt
