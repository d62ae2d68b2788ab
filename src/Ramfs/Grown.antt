-- ===== src/Ramfs/Grown.antt =====
-- A file system with one more entry in a directory: the tree stays in order.
use au_os.Prelude.{
  ℕ, ◌+◌, ◌≤◌, ◌<◌, ◌≡◌, ◌≢◌, refl, ap, sym, ◌∙◌, inl, inr, Bool, true, false, Option, none, some,
  List, [], ◌∷◌, ◌++◌, arith, ◌==◌, if◌then◌else◌, Bool-cases,
}
use au_os.MemCache.Inv.{count_of}
use au_os.Threads.Inv.{count_of-append}
use au_os.Text.Laws.{AreBytes}
use au_os.Ramfs.{
  Fs, Fentry, done, put_entry, new_entry, find_with_name, add_child, ramfs_find, trim_filename,
}
use au_os.Ramfs.Names.{name_equals-eq}
use au_os.Ramfs.Inv.{IsFs}
use au_os.Ramfs.Find.{IsFound, IsChild, find_with_name-IsChild, ramfs_find-IsFound}

module _ (fs : Fs) (r p : ℕ) (fn : List ℕ) (is_dir : Bool) (ok : IsFs fs r) (le : r ≤ p)
    (lt : p < fs.fresh) (bytes : AreBytes fn)
    (new_name : (q : ℕ) → r ≤ q → q < fs.fresh → (fs.entry q).filename ≢ fn) where
  pub grown : Fs
  grown =
      let e = fs.entry p in
      let linked = put_entry fs p (record e { children = e.children ++ fs.fresh ∷ [] }) in
      record (put_entry linked fs.fresh (new_entry fn (some p) is_dir)) { fresh = fs.fresh + 1 }

  -- The fields of an entry afterwards, by its pointer.
  pub entry_new : grown.entry fs.fresh ≡ new_entry fn (some p) is_dir
  unfolding grown put_entry
  entry_new = let e : (fs.fresh == fs.fresh) ≡ true = ground arith in rw e refl

  pub entry_other : (q : ℕ) → q < fs.fresh → q ≢ p → grown.entry q ≡ fs.entry q
  unfolding grown put_entry
  entry_other q lt' ne =
      let e : (q == fs.fresh) ≡ false = ground arith in
      let e' : (q == p) ≡ false = ground arith in rw (e, e') refl

  pub children_parent : (grown.entry p).children ≡ (fs.entry p).children ++ fs.fresh ∷ []
  unfolding grown put_entry
  children_parent =
      let e : (p == fs.fresh) ≡ false = ground arith in
      let e' : (p == p) ≡ true = ground arith in rw (e, e') refl

  pub name_old : (q : ℕ) → q < fs.fresh → (grown.entry q).filename ≡ (fs.entry q).filename
  unfolding grown put_entry
  name_old q lt' =
      let e : (q == fs.fresh) ≡ false = ground arith in
      elim (Bool-cases (q == p)) [
        | inl same ↦ let e' : q ≡ p = ground arith in rw (e, same, e') refl
        | inr other ↦ rw (e, other) refl
      ]

  grown_fresh : grown.fresh ≡ fs.fresh + 1
  unfolding grown put_entry
  grown_fresh = refl

  children_count :
      (q c : ℕ)
      → q < fs.fresh
      → count_of c (grown.entry q).children ≡ (
          if q == p
          then count_of c (fs.entry q).children + (if fs.fresh == c then 1 else 0)
          else count_of c (fs.entry q).children)
  children_count q c lt' = elim (Bool-cases (q == p)) [
    | inl same ↦
        let e : q ≡ p = ground arith in
        rw (same, e)
          (ap (count_of c) children_parent
            ∙ count_of-append c (fs.entry p).children (fs.fresh ∷ [])
            ∙ omega arith)
    | inr other ↦
        rw other
          (ap (λ (x : Fentry). count_of c x.children) (entry_other q lt' (λ e. ground arith)))
  ]

  new_children : (c : ℕ) → count_of c (grown.entry fs.fresh).children ≡ 0
  new_children c = ap (λ (x : Fentry). count_of c x.children) entry_new

  name_by :
      (q : ℕ)
      → q < fs.fresh + 1
      → (grown.entry q).filename ≡ (if q == fs.fresh then fn else (fs.entry q).filename)
  name_by q lt' = elim (Bool-cases (q == fs.fresh)) [
    | inl same ↦
        let e : q ≡ fs.fresh = ground arith in
        rw (same, e) (ap (λ (x : Fentry). x.filename) entry_new)
    | inr other ↦ rw other (name_old q (ground arith))
  ]

  grown_unique :
      (a b : ℕ)
      → r ≤ a
      → a < fs.fresh + 1
      → r ≤ b
      → b < fs.fresh + 1
      → (grown.entry a).filename ≡ (grown.entry b).filename
      → a ≡ b
  grown_unique a b la ha lb hb e =
      let e' = sym (name_by a ha) ∙ e ∙ name_by b hb in
      elim (Bool-cases (a == fs.fresh)) [
        | inl a_new ↦ elim (Bool-cases (b == fs.fresh)) [
          | inl b_new ↦ ground arith
          | inr b_old ↦ absurd (new_name b lb (ground arith) (sym (rw (a_new, b_old) at e')))
        ]
        | inr a_old ↦ elim (Bool-cases (b == fs.fresh)) [
          | inl b_new ↦ absurd (new_name a la (ground arith) (rw (a_old, b_new) at e'))
          | inr b_old ↦ ok.unique a b la (ground arith) lb (ground arith) (rw (a_old, b_old) at e')
        ]
      ]

  grown-younger :
      (q c : ℕ)
      → r ≤ q
      → q < fs.fresh + 1
      → 0 < count_of c (grown.entry q).children
      → (q < c) × (c < fs.fresh + 1)
  grown-younger q c le' lt' on = elim (Bool-cases (q == fs.fresh)) [
    | inl new ↦
        let e : q ≡ fs.fresh = ground arith in absurd (omega (arith, new_children c, rw e at on))
    | inr old ↦
        let on' = rw (children_count q c (ground arith)) at on in
        elim (Bool-cases (fs.fresh == c)) [
          | inl same ↦ ground arith
          | inr other ↦
              let (young, fresh) = ok.younger q c le' (ground arith) (ground arith) in
              (young, omega arith)
        ]
  ]

  grown-parents :
      (c : ℕ)
      → r < c
      → c < fs.fresh + 1
      → (q : ℕ) × (r ≤ q) × (q < c) × (0 < count_of c (grown.entry q).children)
  grown-parents c lt' fresh = elim (Bool-cases (fs.fresh == c)) [
    | inl same ↦ let e = children_count p c lt in (p, le, ground arith, ground arith)
    | inr other ↦
        let (q, le', young, on) = ok.parents c lt' (ground arith) in
        let e = children_count q c (ground arith) in (q, le', young, ground arith)
  ]

  grown-bytes : (q : ℕ) → r ≤ q → q < fs.fresh + 1 → AreBytes (grown.entry q).filename
  grown-bytes q le' lt' = elim (Bool-cases (q == fs.fresh)) [
    | inl new ↦ rw (name_by q lt', new) bytes
    | inr old ↦ rw (name_by q lt', old) (ok.bytes q le' (ground arith))
  ]

  grown_root : grown.root ≡ fs.root
  unfolding grown put_entry
  grown_root = refl

  pub grown-IsFs : IsFs grown r
  grown-IsFs = record {
    rooted = grown_root ∙ ok.rooted;
    root_old = omega (arith, ok.root_old, grown_fresh);
    younger = λ q c le' lt' on.
        let (young, fresh) = grown-younger q c le' (omega (arith, grown_fresh)) on in
        (young, omega (arith, grown_fresh));
    parents = λ c lt' fresh. grown-parents c lt' (omega (arith, grown_fresh));
    unique = λ a b la ha lb hb e.
        grown_unique a b la (omega (arith, grown_fresh)) lb (omega (arith, grown_fresh)) e;
    bytes = λ q le' lt'. grown-bytes q le' (omega (arith, grown_fresh));
  }

  -- No child of the directory has the new name.
  none_named : (o : Option ℕ) → IsChild fs (fs.entry p).children fn o → o ≡ none
  none_named none h = refl
  none_named (some q) (on, e) =
      let (young, fresh) = ok.younger p q le lt on in
      absurd (
        new_name q (omega arith) fresh
          (name_equals-eq (fs.entry q).filename fn (ok.bytes q (omega arith) fresh) bytes e))

  pub add_child-grown :
      (fs.entry p).locked ≡ false → add_child fs p fn is_dir ≡ done (some fs.fresh, grown)
  unfolding add_child grown put_entry
  add_child-grown free =
      let e =
        none_named (find_with_name fs (fs.entry p).children fn)
          (find_with_name-IsChild fs (fs.entry p).children fn) in
      rw (free, e) refl

  pub grown-found :
      (name : List ℕ)
      → AreBytes name
      → trim_filename name ≡ done fn
      → ramfs_find grown name ≡ done (some fs.fresh)
  grown-found name name_bytes trimmed =
      let (o, e, h) = ramfs_find-IsFound grown r name fn grown-IsFs name_bytes trimmed in
      e ∙ ap done (only_found o h)
    where
      only_found : (o : Option ℕ) → IsFound grown r fn o → o ≡ some fs.fresh
      only_found none h = absurd (
          h fs.fresh (omega (arith, ok.root_old)) (omega (arith, grown_fresh))
            (ap (λ (x : Fentry). x.filename) entry_new))
      only_found (some q) (le', lt', e) = ap some (
          grown_unique q fs.fresh le' (omega (arith, grown_fresh)) (omega (arith, ok.root_old))
            (omega arith) (e ∙ sym (ap (λ (x : Fentry). x.filename) entry_new)))
