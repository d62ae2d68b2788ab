-- ===== src/LinkedList/Laws.antt =====
-- The operations of list.c on a ring are those of a list: each ring that they make is shown link
-- by link.
use au_os.Prelude.{
  ℕ, zero, suc, ◌+◌, ◌<◌, ◌≡◌, refl, true, false, some, List, [], ◌∷◌, ◌++◌, arith, length,
}
use au_os.LinkedList.{
  Store, list_init, list_add, list_add_tail, list_empty, list_first, size_loop, list_size,
}
use au_os.LinkedList.Chain.{
  has, Distinct, Chain, last, IsRing, Chain-join, prev-eq-last, relink, keep, has-last,
  Distinct-append,
}

-- `list_init` makes an empty ring.
pub list_init-IsRing : (h : Store) (head : ℕ) → IsRing (list_init h head) head []
unfolding list_init
list_init-IsRing h head = record { chain = (ground arith, ground arith); distinct = (refl, tt) }

module _ (h : Store) (head new : ℕ) (xs : List ℕ) (r : IsRing h head xs)
    (fresh : has new (head ∷ xs) ≡ false) where
  Distinct-cons : Distinct (head ∷ new ∷ xs)
  Distinct-cons = (ground (arith, r.distinct.0), (ground arith, r.distinct.1))

-- `list_add` puts the new entry in front.
pub list_add-cons :
    (h : Store) (head new : ℕ) (xs : List ℕ)
    → IsRing h head xs
    → has new (head ∷ xs) ≡ false
    → IsRing (list_add h new head) head (new ∷ xs)
unfolding list_add
list_add-cons h head new [] r fresh = record {
  chain = ground (arith, r.chain);
  distinct = Distinct-cons h head new [] r fresh;
}
list_add-cons h head new (x ∷ xs) r fresh =
    let (out, home, rest) = r.chain in
    let d = r.distinct in
    record {
      chain = (
        ground arith,
        ground arith,
        (
          ground arith,
          ground arith,
          keep x xs head rest (λ a i. ground arith) (λ a i. ground arith),
        ),
      );
      distinct = Distinct-cons h head new (x ∷ xs) r fresh;
    }

-- `list_add_tail` puts the new entry at the end.
pub list_add_tail-append :
    (h : Store) (head new : ℕ) (xs : List ℕ)
    → IsRing h head xs
    → has new (head ∷ xs) ≡ false
    → IsRing (list_add_tail h new head) head (xs ++ new ∷ [])
unfolding list_add_tail
list_add_tail-append h head new xs r fresh =
    let back : h.prev head ≡ last head xs = prev-eq-last h head xs head r.chain in
    let tail = has-last head xs in
    record {
      chain =
          Chain-join _ head xs new [] head
            (relink head xs head new r.chain r.distinct (λ a i n. ground arith)
              (λ a i. ground (arith, r.distinct)) (ground arith) (ground arith))
            (ground arith, ground arith);
      distinct = Distinct-append (head ∷ xs) (new ∷ []) r.distinct (refl, tt) (λ a i. ground arith);
    }

-- On a ring `list_empty` tells whether it is empty, and `list_first` gives the first entry.
pub list_empty-first :
    (h : Store) (head x : ℕ) (xs : List ℕ)
    → (IsRing h head [] → list_empty h head ≡ true)
      × (IsRing h head (x ∷ xs) → (list_empty h head ≡ false) × (list_first h head ≡ x))
unfolding list_empty list_first
list_empty-first h head x xs =
    (λ r. ground (arith, r.chain), λ r. ground (arith, r.chain, r.distinct))

size_loop-length :
    (h : Store) (head : ℕ) (fuel s : ℕ) (xs : List ℕ) (n : ℕ)
    → Chain h s xs head
    → has head xs ≡ false
    → length xs < fuel
    → size_loop fuel h head (h.next s) n ≡ some (n + length xs)
unfolding size_loop
size_loop-length h head zero s xs n p out lt = absurd (omega arith)
size_loop-length h head (suc fuel) s [] n p out lt = ground arith
size_loop-length h head (suc fuel) s (x ∷ xs) n p out lt =
    ground (arith, size_loop-length h head fuel x xs (n + 1) p.2)

-- With more fuel than entries `list_size` terminates, and counts the entries of the ring.
pub list_size-length :
    (h : Store) (head fuel : ℕ) (xs : List ℕ)
    → IsRing h head xs
    → length xs < fuel
    → list_size fuel h head ≡ some (length xs)
unfolding list_size
list_size-length h head fuel xs r lt =
    ground (arith, size_loop-length h head fuel head xs 0 r.chain r.distinct.0)
