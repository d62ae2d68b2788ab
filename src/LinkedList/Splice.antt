-- ===== src/LinkedList/Splice.antt =====
-- `list_del` and `list_splice`: taking an entry out of the middle, moving a whole ring.
use mathlib.Core.List.{append-nil}
use au_os.Prelude.{ℕ, ◌≡◌, refl, true, false, ◌||◌, List, [], ◌∷◌, ◌++◌, arith, ◌==◌}
use au_os.LinkedList.{Store, list_init, splice_between, list_del, list_splice}
use au_os.LinkedList.Chain.{
  has, Distinct, Apart, Chain, last, IsRing, Chain-join, Chain-split, prev-eq-last, relink, keep,
  has-last, has-append_false, has-append_left, has-append_right, Distinct-append, Distinct-left,
  Distinct-right, Apart-append,
}

-- What the entries on both sides of an entry `y` have to do with each other.
record Around (head : ℕ) (xs : List ℕ) (y : ℕ) (ys : List ℕ) : Type 0 where
  head_xs : has head xs ≡ false
  head_y : (head == y) ≡ false
  head_ys : has head ys ≡ false
  xs_apart : (a : ℕ) → has a xs ≡ true → (a == y) || has a ys ≡ false
  y_ys : has y ys ≡ false
  distinct_xs : Distinct xs
  distinct_ys : Distinct ys

Around-of_Distinct :
    (head : ℕ) (xs : List ℕ) (y : ℕ) (ys : List ℕ)
    → Distinct (head ∷ xs ++ y ∷ ys)
    → Around head xs y ys
Around-of_Distinct head xs y ys d =
    let right = has-append_right head xs (y ∷ ys) d.0 in
    let rest = Distinct-right xs (y ∷ ys) d.1 in
    record {
      head_xs = has-append_left head xs (y ∷ ys) d.0;
      head_y = ground arith;
      head_ys = ground arith;
      xs_apart = Apart-append xs (y ∷ ys) d.1;
      y_ys = rest.0;
      distinct_xs = Distinct-left xs (y ∷ ys) d.1;
      distinct_ys = rest.1;
    }

module _ (h : Store) (head : ℕ) (xs : List ℕ) (y : ℕ) where
  del-Chain :
      (ys : List ℕ)
      → Chain h head xs y
      → Chain h y ys head
      → Around head xs y ys
      → Chain (list_del h y) head (xs ++ ys) head
  unfolding list_del
  del-Chain [] p q o =
      let back : h.prev y ≡ last head xs = prev-eq-last h head xs y p in
      rw append-nil (
        relink head xs y head p (o.head_xs, o.distinct_xs) (λ a i n. ground (arith, o.xs_apart a))
          (λ a i. ground (arith, o.xs_apart a)) ground
          (arith, has-last head xs, o.xs_apart (last head xs)) ground
          (arith, has-last head xs, o.xs_apart (last head xs)))
  del-Chain (z ∷ zs) p q o =
      let back : h.prev y ≡ last head xs = prev-eq-last h head xs y p in
      Chain-join _ head xs z zs head
        (relink head xs y z p (o.head_xs, o.distinct_xs) (λ a i n. ground (arith, o.xs_apart a))
          (λ a i. ground (arith, o.xs_apart a)) ground
          (arith, has-last head xs, o.xs_apart (last head xs)) ground
          (arith, has-last head xs, o.xs_apart (last head xs)))
        (keep z zs head q.2
          (λ a i. ground (arith, o.xs_apart (last head xs), o.head_ys, o.y_ys, has-last head xs))
          (λ a i. ground (arith, o.head_ys, o.y_ys, o.distinct_ys)))

-- `list_del` takes the entry out of the ring, wherever it stands, leaves the others in their order,
-- and clears its links.
pub list_del_lem :
    (h : Store) (head : ℕ) (xs : List ℕ) (y : ℕ) (ys : List ℕ)
    → IsRing h head (xs ++ y ∷ ys)
    → IsRing (list_del h y) head (xs ++ ys)
      × ((list_del h y).next y ≡ 0)
      × ((list_del h y).prev y ≡ 0)
list_del_lem h head xs y ys r =
    let o = Around-of_Distinct head xs y ys r.distinct in
    let (p, q) = Chain-split h head xs y ys head r.chain in
    (
      record {
        chain = del-Chain h head xs y ys p q o;
        distinct = (
          has-append_false head xs ys o.head_xs o.head_ys,
          Distinct-append xs ys o.distinct_xs o.distinct_ys (λ a i. ground (arith, o.xs_apart a)),
        );
      },
      unfold list_del in ground arith,
      unfold list_del in ground arith,
    )

-- The store that `list_splice` leaves, where the list is not empty.
abbrev spliced : Store → (list head : ℕ) → Store
unfolding splice_between
spliced h list head = list_init (splice_between h list head (h.next head)) list

module _ (h : Store) (list head : ℕ) (y : ℕ) (ys : List ℕ) (r : IsRing h list (y ∷ ys)) where
  splice-Chain :
      (xs : List ℕ)
      → IsRing h head xs
      → Apart (list ∷ y ∷ ys) (head ∷ xs)
      → Chain (spliced h list head) head ((y ∷ ys) ++ xs) head
  unfolding spliced list_init
  splice-Chain [] s apart =
      let back : h.prev list ≡ last y ys = prev-eq-last h y ys list r.chain.2 in
      let final = has-last y ys in
      (
        ground (arith, apart list, apart (last y ys)),
        ground (arith, apart list, apart (last y ys)),
        rw append-nil (
            relink y ys list head r.chain.2 r.distinct.1
              (λ a i n. ground (arith, apart a, r.distinct))
              (λ a i. ground (arith, apart a, r.distinct))
              (ground (arith, apart (last y ys), r.distinct))
              (ground (arith, apart list, apart (last y ys), apart y))),
      )
  splice-Chain (x ∷ xs) s apart =
      let back : h.prev list ≡ last y ys = prev-eq-last h y ys list r.chain.2 in
      let final = has-last y ys in
      (
        ground (arith, apart list, apart (last y ys)),
        ground (arith, apart list, apart (last y ys), apart y),
        Chain-join _ y ys x xs head
            (relink y ys list x r.chain.2 r.distinct.1
              (λ a i n. ground (arith, apart a, r.distinct))
              (λ a i. ground (arith, apart a, r.distinct))
              (ground (arith, apart (last y ys), r.distinct))
              (ground (arith, apart list, apart (last y ys), apart y)))
            (keep x xs head s.chain.2
              (λ a i. ground (arith, apart list, apart (last y ys), s.distinct))
              (λ a i. ground (arith, apart list, apart (last y ys), apart y, s.distinct))),
      )

-- `list_splice` moves the entries of one ring, in their order, in front of another, and leaves the
-- first ring empty; the two rings share no address.
pub list_splice-append :
    (h : Store) (list head : ℕ) (ys xs : List ℕ)
    → IsRing h list ys
    → IsRing h head xs
    → Apart (list ∷ ys) (head ∷ xs)
    → IsRing (list_splice h list head) head (ys ++ xs) × IsRing (list_splice h list head) list []
unfolding list_splice
list_splice-append h list head [] xs r s apart =
    let e : list_splice h list head ≡ h = ground (arith, r.chain) in rw e (s, r)
list_splice-append h list head (y ∷ ys) xs r s apart =
    let e : list_splice h list head ≡ spliced h list head = ground (arith, r.chain, r.distinct) in
    rw e (
      record {
        chain = splice-Chain h list head y ys r xs s apart;
        distinct = (
          has-append_false head (y ∷ ys) xs (ground (arith, apart head)) s.distinct.0,
          Distinct-append (y ∷ ys) xs r.distinct.1 s.distinct.1 (λ a i. ground (arith, apart a)),
        );
      },
      record { chain = (ground arith, ground arith); distinct = (refl, tt) },
    )
