-- ===== src/Ramfs/Open.antt =====
-- Opening and closing a file: the lock of one entry changes.
use au_os.Prelude.{
  ℕ, ◌≤◌, ◌<◌, ◌≡◌, refl, ap, sym, ◌∙◌, inl, inr, Bool, true, false, Option, none, some, List,
  arith, ◌==◌, Bool-cases,
}
use au_os.Text.Laws.{AreBytes}
use au_os.Ramfs.{Fs, Result, done, waits, put_entry, ramfs_find, trim_filename}
use au_os.Ramfs.Inv.{IsFs}
use au_os.Ramfs.Find.{IsFound, ramfs_find-IsFound}
use au_os.Ramfs.Files.{ramfs_open, open_found, lock_found, ramfs_close}

-- A change of the lock alone.
locked_as : Fs → ℕ → Bool → Fs
locked_as fs f b = put_entry fs f (record (fs.entry f) { locked = b })

module _ (fs : Fs) (f : ℕ) (b : Bool) where
  locked_as-filename : (q : ℕ) → ((locked_as fs f b).entry q).filename ≡ (fs.entry q).filename
  unfolding locked_as put_entry
  locked_as-filename q = elim (Bool-cases (q == f)) [
    | inl same ↦ let e : q ≡ f = ground arith in rw (same, e) refl
    | inr other ↦ rw other refl
  ]

  locked_as-children : (q : ℕ) → ((locked_as fs f b).entry q).children ≡ (fs.entry q).children
  unfolding locked_as put_entry
  locked_as-children q = elim (Bool-cases (q == f)) [
    | inl same ↦ let e : q ≡ f = ground arith in rw (same, e) refl
    | inr other ↦ rw other refl
  ]

  locked_as_root : (locked_as fs f b).root ≡ fs.root
  unfolding locked_as put_entry
  locked_as_root = refl

  locked_as_fresh : (locked_as fs f b).fresh ≡ fs.fresh
  unfolding locked_as put_entry
  locked_as_fresh = refl

  locked_as_lock : ((locked_as fs f b).entry f).locked ≡ b
  unfolding locked_as put_entry
  locked_as_lock = let e : (f == f) ≡ true = ground arith in rw e refl

  locked_as-IsFs : (r : ℕ) → IsFs fs r → IsFs (locked_as fs f b) r
  locked_as-IsFs r ok = record {
    rooted = locked_as_root ∙ ok.rooted;
    root_old = omega (arith, ok.root_old, locked_as_fresh);
    younger = λ q c le lt on.
        let (young, fresh) =
          ok.younger q c le (omega (arith, locked_as_fresh)) (rw (locked_as-children q) at on) in
        (young, omega (arith, locked_as_fresh));
    parents = λ c lt fresh.
        let (q, le, young, on) = ok.parents c lt (omega (arith, locked_as_fresh)) in
        (q, le, young, rw (locked_as-children q) on);
    unique = λ p q le lt le' lt' e.
        ok.unique p q le (omega (arith, locked_as_fresh)) le' (omega (arith, locked_as_fresh))
          (sym (locked_as-filename p) ∙ e ∙ locked_as-filename q);
    bytes = λ q le lt. rw (locked_as-filename q) (ok.bytes q le (omega (arith, locked_as_fresh)));
  }

-- What opening the file `q` gives: it is locked, the tree stays in order, a second one that opens it
-- waits, and closing it gives back what was there, or leaves it locked for one that waits.
pub record IsOpened (fs : Fs) (r q : ℕ) (name : List ℕ) (res : Result (ℕ × Fs)) : Type 0 where
  pub after : Fs
  pub result : res ≡ done (q, after)
  pub in_order : IsFs after r
  pub held : (after.entry q).locked ≡ true
  pub second : ramfs_open after name ≡ waits
  pub closed : (p : ℕ) → (ramfs_close after q false).entry p ≡ fs.entry p
  pub handed : (p : ℕ) → (ramfs_close after q true).entry p ≡ after.entry p

-- The file of a name that is found.
found_file :
    (fs : Fs) (r q : ℕ) (name fn : List ℕ)
    → IsFs fs r
    → AreBytes name
    → trim_filename name ≡ done fn
    → r ≤ q
    → q < fs.fresh
    → (fs.entry q).filename ≡ fn
    → ramfs_find fs name ≡ done (some q)
found_file fs r q name fn ok bytes trimmed le lt named =
    let (o, e, h) = ramfs_find-IsFound fs r name fn ok bytes trimmed in e ∙ ap done (it_is o h)
  where
    it_is : (o : Option ℕ) → IsFound fs r fn o → o ≡ some q
    it_is none h = absurd (h q le lt named)
    it_is (some p) (le', lt', e) = ap some (ok.unique p q le' lt' le lt (e ∙ sym named))

open_free :
    (fs : Fs) (name : List ℕ) (q : ℕ)
    → ramfs_find fs name ≡ done (some q)
    → (fs.entry q).locked ≡ false
    → ramfs_open fs name ≡ done (q, locked_as fs q true)
unfolding ramfs_open open_found lock_found locked_as
open_free fs name q found free = rw (found, free) refl

open_held :
    (fs : Fs) (name : List ℕ) (q : ℕ)
    → ramfs_find fs name ≡ done (some q)
    → (fs.entry q).locked ≡ true
    → ramfs_open fs name ≡ waits
unfolding ramfs_open open_found lock_found
open_held fs name q found held = rw (found, held) refl

close_back :
    (fs : Fs) (q : ℕ)
    → (fs.entry q).locked ≡ false
    → (p : ℕ) → (ramfs_close (locked_as fs q true) q false).entry p ≡ fs.entry p
unfolding ramfs_close locked_as put_entry
close_back fs q free p =
    let at_q : (q == q) ≡ true = ground arith in
    elim (Bool-cases (p == q)) [
      | inl same ↦ let e : p ≡ q = ground arith in rw (same, at_q, e, ← free) refl
      | inr other ↦ rw other refl
    ]

close_hands :
    (fs : Fs) (q p : ℕ)
    → (ramfs_close (locked_as fs q true) q true).entry p ≡ (locked_as fs q true).entry p
unfolding ramfs_close locked_as put_entry
close_hands fs q p =
    let at_q : (q == q) ≡ true = ground arith in
    elim (Bool-cases (p == q)) [
      | inl same ↦ let e : p ≡ q = ground arith in rw (same, at_q) refl
      | inr other ↦ rw other refl
    ]

-- In a tree in order, `ramfs_open` of the name of a file that is not open gives that file and locks
-- it: the tree stays in order, a second `ramfs_open` of the name waits, and `ramfs_close` gives back
-- what was there, or leaves the file locked where another thread waits for it.
pub ramfs_open-IsOpened :
    (fs : Fs) (r q : ℕ) (name fn : List ℕ)
    → IsFs fs r
    → AreBytes name
    → trim_filename name ≡ done fn
    → r ≤ q
    → q < fs.fresh
    → (fs.entry q).filename ≡ fn
    → (fs.entry q).locked ≡ false
    → IsOpened fs r q name (ramfs_open fs name)
ramfs_open-IsOpened fs r q name fn ok bytes trimmed le lt named free =
    let after = locked_as fs q true in
    let ok' = locked_as-IsFs fs q true r ok in
    let found' =
      found_file after r q name fn ok' bytes trimmed le (omega (arith, locked_as_fresh fs q true))
        (locked_as-filename fs q true q ∙ named) in
    record {
      after = after;
      result = open_free fs name q (found_file fs r q name fn ok bytes trimmed le lt named) free;
      in_order = ok';
      held = locked_as_lock fs q true;
      second = open_held after name q found' (locked_as_lock fs q true);
      closed = close_back fs q free;
      handed = close_hands fs q;
    }
