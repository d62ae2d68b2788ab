-- ===== src/Ramfs/Contents.antt =====
-- What files hold: reading, and the writes that store nothing.
use mathlib.Core.List.{append-nil}
use au_os.Prelude.{
  take-drop, ℕ, zero, suc, ◌+◌, ◌≡◌, ◌%◌, ◌^◌, ◌≤◌, refl, ◌⊎◌, inl, inr, Bool, true, false, ◌&&◌,
  List, ◌++◌, arith, ltb, leb, ◌==◌, if◌then◌else◌, Bool-cases, length, take, drop,
}
use au_os.Prelude.Words.{u64}
use au_os.Ramfs.{Fs, Fentry, Result, done, fault, put_entry}
use au_os.Ramfs.Files.{ramfs_write}

-- What every call of `ramfs_write` comes to.
pub data StoresNothing (fs : Fs) : Result (ℕ × Fs) → Type 0 where
  strays : StoresNothing fs fault
  returns : (fs' : Fs) → ((q : ℕ) → fs'.entry q ≡ fs.entry q) → StoresNothing fs (done (0, fs'))

either_strays : (fs : Fs) (b : Bool) → StoresNothing fs (if b then fault else fault)
either_strays fs true = strays
either_strays fs false = strays

wrapped_le : (a b n : ℕ) → a + b ≤ n → leb (u64 (a + b)) n ≡ true
unfolding u64
wrapped_le a b n le = let h : (a + b) % 2 ^ 64 ≤ n = omega arith in below ((a + b) % 2 ^ 64) n h
  where
    below : (m n : ℕ) → m ≤ n → leb m n ≡ true
    below m n h = ground arith

put_same :
    (fs : Fs) (f : ℕ) (e : Fentry)
    → e ≡ fs.entry f
    → (q : ℕ) → (put_entry fs f e).entry q ≡ fs.entry q
unfolding put_entry
put_same fs f e eq q = elim (Bool-cases (q == f)) [
  | inl same ↦ let e' : q ≡ f = ground arith in rw (same, e') eq
  | inr other ↦ rw other refl
]

same_entry :
    (e : Fentry) (c : List ℕ) (d l : Bool)
    → c ≡ e.contents
    → e.is_dir ≡ d
    → e.locked ≡ l
    → (record e { contents = c; is_dir = d; locked = l }) ≡ e
same_entry e c d l h h' h'' = rw (h, ← h', ← h'') refl

-- No bytes within the file: the contents are copied onto themselves.
write_none :
    (fs : Fs) (f seek : ℕ) (contents : List ℕ)
    → (fs.entry f).is_dir ≡ false
    → (fs.entry f).locked ≡ true
    → StoresNothing fs (ramfs_write fs f seek contents 0)
unfolding ramfs_write
write_none fs f seek contents file held =
    elim (Bool-cases (leb seek (length (fs.entry f).contents))) [
      | inl within ↦
          let none_wanted : (leb seek (length (fs.entry f).contents) && ltb 0 0) ≡ false =
            ground arith in
          let short = wrapped_le seek 0 (length (fs.entry f).contents) (ground arith) in
          let inside : ltb (length (fs.entry f).contents) (seek + 0) ≡ false = ground arith in
          let e : seek + 0 ≡ seek = omega arith in
          let same_bytes : take seek (fs.entry f).contents
                ++ take 0 contents
                ++ drop (seek + 0) (fs.entry f).contents
              ≡ (fs.entry f).contents =
            rw (e, append-nil (take seek (fs.entry f).contents))
              (take-drop seek (fs.entry f).contents) in
          rw (file, held, none_wanted, short, inside)
            (returns _
              (put_same fs f _ (same_entry (fs.entry f) _ false true same_bytes file held)))
      | inr past ↦
          let none_wanted : (leb seek (length (fs.entry f).contents) && ltb 0 0) ≡ false =
            ground arith in
          let over : ltb (length (fs.entry f).contents) seek ≡ true = ground arith in
          let over' : ltb (length (fs.entry f).contents) (seek + 0) ≡ true = ground arith in
          rw (file, held, none_wanted, over, over')
            (either_strays fs (leb (u64 (seek + 0)) (length (fs.entry f).contents)))
    ]

write_some :
    (fs : Fs) (f seek n : ℕ) (contents : List ℕ)
    → (fs.entry f).is_dir ≡ false
    → (fs.entry f).locked ≡ true
    → StoresNothing fs (ramfs_write fs f seek contents (suc n))
unfolding ramfs_write
write_some fs f seek n contents file held =
    elim (Bool-cases (leb seek (length (fs.entry f).contents))) [
      | inl within ↦
          let refused : (leb seek (length (fs.entry f).contents) && ltb 0 (suc n)) ≡ true =
            ground arith in
          rw (file, held, refused) (returns fs (λ q. refl))
      | inr past ↦
          let tried : (leb seek (length (fs.entry f).contents) && ltb 0 (suc n)) ≡ false =
            ground arith in
          let over : ltb (length (fs.entry f).contents) seek ≡ true = ground arith in
          let over' : ltb (length (fs.entry f).contents) (seek + suc n) ≡ true = ground arith in
          rw (file, held, tried, over, over')
            (either_strays fs (leb (u64 (seek + suc n)) (length (fs.entry f).contents)))
    ]

write_refused :
    (fs : Fs) (f seek count : ℕ) (contents : List ℕ)
    → ((fs.entry f).is_dir ≡ true) ⊎ (((fs.entry f).is_dir ≡ false) × ((fs.entry f).locked ≡ false))
    → StoresNothing fs (ramfs_write fs f seek contents count)
unfolding ramfs_write
write_refused fs f seek count contents (inl dir) = rw dir (returns fs (λ q. refl))
write_refused fs f seek count contents (inr (file, closed)) =
    rw (file, closed) (returns fs (λ q. refl))

write_open :
    (fs : Fs) (f seek count : ℕ) (contents : List ℕ)
    → (fs.entry f).is_dir ≡ false
    → (fs.entry f).locked ≡ true
    → StoresNothing fs (ramfs_write fs f seek contents count)
write_open fs f seek zero contents file held = write_none fs f seek contents file held
write_open fs f seek (suc n) contents file held = write_some fs f seek n contents file held

-- Every call of `ramfs_write`, the sum of the place and the count wrapping on 64 bits, either copies
-- from or to memory outside the contents of the file, or returns 0 and leaves every entry as it was.
pub ramfs_write-StoresNothing :
    (fs : Fs) (f seek count : ℕ) (contents : List ℕ)
    → StoresNothing fs (ramfs_write fs f seek contents count)
ramfs_write-StoresNothing fs f seek count contents = elim (Bool-cases (fs.entry f).is_dir) [
  | inl dir ↦ write_refused fs f seek count contents (inl dir)
  | inr file ↦ elim (Bool-cases (fs.entry f).locked) [
    | inl held ↦ write_open fs f seek count contents file held
    | inr closed ↦ write_refused fs f seek count contents (inr (file, closed))
  ]
]
