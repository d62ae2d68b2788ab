-- ===== src/Ramfs/Find.antt =====
-- The search finds an entry just where there is one of that name.
use native.Mathlib.Nat.{le_refl}
use mathlib.Core.Option.{none-ne-some}
use au_os.Prelude.{
  ℕ, zero, suc, ◌+◌, ◌≤◌, ◌<◌, ◌≡◌, ◌≢◌, refl, ap, sym, ◌∙◌, ◌⊎◌, inl, inr, true, false, Option,
  none, some, List, [], ◌∷◌, arith, ◌==◌, if◌then◌else◌, Bool-cases,
}
use au_os.MemCache.Inv.{count_of}
use au_os.Text.Laws.{AreBytes}
use au_os.Ramfs.{
  Fs, done, name_equals, find_with_name, first_found, find_recursive, find_from, ramfs_find,
  trim_filename, or_else,
}
use au_os.Ramfs.Names.{name_equals-eq, name_equals_refl, trim_filename-AreBytes}
use au_os.Ramfs.Inv.{IsFs, IsBelow, here, down, IsFs-IsBelow}

-- What looking among children gives.
abbrev pub IsChild : Fs → List ℕ → List ℕ → Option ℕ → Type 0
IsChild fs ps name none =
    (q : ℕ) → 0 < count_of q ps → name_equals (fs.entry q).filename name ≡ false
IsChild fs ps name (some q) = (0 < count_of q ps) × (name_equals (fs.entry q).filename name ≡ true)

find_with_name-cons :
    (fs : Fs) (p : ℕ) (ps name : List ℕ) (o : Option ℕ)
    → name_equals (fs.entry p).filename name ≡ false
    → IsChild fs ps name o
    → IsChild fs (p ∷ ps) name o
find_with_name-cons fs p ps name none e h = λ q lt. elim (Bool-cases (p == q)) [
  | inl same ↦ let e' : q ≡ p = ground arith in rw e' e
  | inr other ↦ h q (ground arith)
]
find_with_name-cons fs p ps name (some q) e (on, e') = (ground arith, e')

pub find_with_name-IsChild :
    (fs : Fs) (ps name : List ℕ) → IsChild fs ps name (find_with_name fs ps name)
unfolding find_with_name
find_with_name-IsChild fs [] name = λ q lt. absurd (omega arith)
find_with_name-IsChild fs (p ∷ ps) name =
    elim (Bool-cases (name_equals (fs.entry p).filename name)) [
      | inl yes_p ↦ rw yes_p (ground arith, yes_p)
      | inr no_p ↦ rw no_p (
          find_with_name-cons fs p ps name (find_with_name fs ps name) no_p
            (find_with_name-IsChild fs ps name))
    ]

-- `q` is an entry of that name.
abbrev pub HasName : Fs → ℕ → List ℕ → ℕ → Type 0
HasName fs r name q = (r ≤ q) × (q < fs.fresh) × (name_equals (fs.entry q).filename name ≡ true)

abbrev pub IsSound : Fs → ℕ → List ℕ → Option ℕ → Type 0
IsSound fs r name none = Unit
IsSound fs r name (some q) = HasName fs r name q

or_else-IsSound :
    (fs : Fs) (r : ℕ) (name : List ℕ) (o o' : Option ℕ)
    → IsSound fs r name o
    → IsSound fs r name o'
    → IsSound fs r name (or_else o o')
or_else-IsSound fs r name none o' h h' = h'
or_else-IsSound fs r name (some q) o' h h' = h

first_found-IsSound :
    (fs : Fs) (r : ℕ) (name : List ℕ) (find : ℕ → Option ℕ) (ps : List ℕ)
    → ((p : ℕ) → 0 < count_of p ps → IsSound fs r name (find p))
    → IsSound fs r name (first_found find ps)
unfolding first_found
first_found-IsSound fs r name find [] h = tt
first_found-IsSound fs r name find (p ∷ ps) h =
    or_else-IsSound fs r name (find p) (first_found find ps) (h p (ground arith))
      (first_found-IsSound fs r name find ps (λ q lt. h q (ground arith)))

module _ (fs : Fs) (r : ℕ) (name : List ℕ) (ok : IsFs fs r) where
  child-IsSound :
      (f : ℕ) (o : Option ℕ)
      → r ≤ f
      → f < fs.fresh
      → IsChild fs (fs.entry f).children name o
      → IsSound fs r name o
  child-IsSound f none le lt h = tt
  child-IsSound f (some q) le lt (on, e) =
      let (young, fresh) = ok.younger f q le lt on in (omega arith, fresh, e)

  find_recursive-IsSound :
      (fuel f : ℕ) → r ≤ f → f < fs.fresh → IsSound fs r name (find_recursive fuel fs f name)
  unfolding find_recursive
  find_recursive-IsSound zero f le lt = tt
  find_recursive-IsSound (suc fuel) f le lt =
      elim (Bool-cases (name_equals (fs.entry f).filename name)) [
        | inl on ↦ rw on (le, lt, on)
        | inr off ↦ rw off (
            or_else-IsSound fs r name (find_with_name fs (fs.entry f).children name) _
              (child-IsSound f _ le lt (find_with_name-IsChild fs (fs.entry f).children name))
              (first_found-IsSound fs r name (λ p. find_recursive fuel fs p name)
                (fs.entry f).children
                (λ p on.
                  let (young, fresh) = ok.younger f p le lt on in
                  find_recursive-IsSound fuel p (omega arith) fresh)))
      ]

  module _ (bytes : AreBytes name) where
    HasName-unique : (p q : ℕ) → HasName fs r name p → HasName fs r name q → p ≡ q
    HasName-unique p q (le, lt, e) (le', lt', e') = ok.unique p q le lt le' lt' (
        name_equals-eq (fs.entry p).filename name (ok.bytes p le lt) bytes e
        ∙ sym (name_equals-eq (fs.entry q).filename name (ok.bytes q le' lt') bytes e'))

    or_else-found :
        (q : ℕ) (o o' : Option ℕ)
        → HasName fs r name q
        → IsSound fs r name o
        → (o ≡ some q) ⊎ (o' ≡ some q)
        → or_else o o' ≡ some q
    or_else-found q none o' has h (inl e) = absurd (ground arith)
    or_else-found q none o' has h (inr e) = e
    or_else-found q (some p) o' has h e = ap some (HasName-unique p q h has)

    first_found-found :
        (q c : ℕ) (find : ℕ → Option ℕ) (ps : List ℕ)
        → HasName fs r name q
        → ((p : ℕ) → 0 < count_of p ps → IsSound fs r name (find p))
        → 0 < count_of c ps
        → find c ≡ some q
        → first_found find ps ≡ some q
    unfolding first_found
    first_found-found q c find [] has h on e = absurd (omega arith)
    first_found-found q c find (p ∷ ps) has h on e = elim (Bool-cases (p == c)) [
      | inl same ↦
          let e' : p ≡ c = ground arith in
          or_else-found q (find p) (first_found find ps) has (h p (ground arith))
            (inl (ap find e' ∙ e))
      | inr other ↦
          or_else-found q (find p) (first_found find ps) has (h p (ground arith))
            (inr (first_found-found q c find ps has (λ u lt. h u (ground arith)) (ground arith) e))
    ]

    -- The search below an entry finds what is below it.
    find_recursive-found :
        (fuel f q : ℕ)
        → HasName fs r name q
        → r ≤ f
        → f < fs.fresh
        → fs.fresh ≤ fuel + f
        → IsBelow fs f q
        → find_recursive fuel fs f name ≡ some q
    unfolding find_recursive
    find_recursive-found zero f q has le lt enough h = absurd (omega arith)
    find_recursive-found (suc fuel) _ _ has le lt enough (here f) = rw has.2 refl
    find_recursive-found (suc fuel) _ _ has le lt enough (down f c q on h) =
        let (young, fresh) = ok.younger f c le lt on in
        let among = first_found (λ p. find_recursive fuel fs p name) (fs.entry f).children in
        let sound : (p : ℕ)
            → 0 < count_of p (fs.entry f).children
            → IsSound fs r name (find_recursive fuel fs p name) =
          λ p on'.
            let (y, f') = ok.younger f p le lt on' in
            find_recursive-IsSound fuel p (omega arith) f' in
        let found : among ≡ some q =
          first_found-found q c (λ p. find_recursive fuel fs p name) (fs.entry f).children has sound
            on (find_recursive-found fuel c q has (omega arith) fresh (omega arith) h) in
        elim (Bool-cases (name_equals (fs.entry f).filename name)) [
          | inl hit ↦ rw hit (ap some (HasName-unique f q (le, lt, hit) has))
          | inr miss ↦ rw miss (
              or_else-found q (find_with_name fs (fs.entry f).children name) among has
                (child-IsSound f _ le lt (find_with_name-IsChild fs (fs.entry f).children name))
                (inr found))
        ]

-- What a search gives: the entry of that name, or none where no entry has it.
abbrev pub IsFound : Fs → ℕ → List ℕ → Option ℕ → Type 0
IsFound fs r fn (some p) = (r ≤ p) × (p < fs.fresh) × ((fs.entry p).filename ≡ fn)
IsFound fs r fn none = (p : ℕ) → r ≤ p → p < fs.fresh → (fs.entry p).filename ≢ fn

module _ (fs : Fs) (r : ℕ) (fn : List ℕ) (ok : IsFs fs r) (bytes : AreBytes fn) where
  IsSound-IsFound :
      (o : Option ℕ)
      → IsSound fs r fn o
      → ((q : ℕ) → HasName fs r fn q → o ≡ some q)
      → IsFound fs r fn o
  IsSound-IsFound none h all =
      λ p le lt e. absurd (none-ne-some p (all p (le, lt, rw e (name_equals_refl fn bytes))))
  IsSound-IsFound (some p) (le, lt, e) all =
      (le, lt, name_equals-eq (fs.entry p).filename fn (ok.bytes p le lt) bytes e)

  search-IsFound :
      IsFound fs r fn
        (if name_equals (fs.entry r).filename fn then some r else find_recursive fs.fresh fs r fn)
  search-IsFound = elim (Bool-cases (name_equals (fs.entry r).filename fn)) [
    | inl on ↦ rw on (
      le_refl r,
      ok.root_old,
      name_equals-eq (fs.entry r).filename fn (ok.bytes r (le_refl r) ok.root_old) bytes on,
    )
    | inr off ↦ rw off (
        IsSound-IsFound (find_recursive fs.fresh fs r fn)
          (find_recursive-IsSound fs r fn ok fs.fresh r (le_refl r) ok.root_old)
          (λ q has.
            find_recursive-found fs r fn ok bytes fs.fresh r q has (le_refl r) ok.root_old
              (omega arith) (IsFs-IsBelow fs r q ok has.0 has.1)))
  ]

-- `ramfs_find` of a string of bytes that is not empty, in a tree in order: it finds the entry
-- whose name is the trimmed one, and nothing only where no entry has that name.
pub ramfs_find-IsFound :
    (fs : Fs) (r : ℕ) (name fn : List ℕ)
    → IsFs fs r
    → AreBytes name
    → trim_filename name ≡ done fn
    → (o : Option ℕ) × (ramfs_find fs name ≡ done o) × IsFound fs r fn o
unfolding ramfs_find find_from
ramfs_find-IsFound fs r name fn ok bytes trimmed = (
  if name_equals (fs.entry r).filename fn then some r else find_recursive fs.fresh fs r fn,
  ap (λ o. find_from fs o name) ok.rooted ∙ rw trimmed refl,
  search-IsFound fs r fn ok (trim_filename-AreBytes name fn bytes trimmed),
)
