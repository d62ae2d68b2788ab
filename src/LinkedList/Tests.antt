-- ===== src/LinkedList/Tests.antt =====
-- The operations of list.c on a store of a few addresses, and the theorems at it.
use au_os.Prelude.{◌≡◌, refl, some, [], ◌∷◌, arith}
use au_os.LinkedList.{Store, list_init, list_add, list_add_tail, list_del, list_size, list_splice}
use au_os.LinkedList.Chain.{IsRing, Apart}
use au_os.LinkedList.Laws.{list_init-IsRing, list_add-cons, list_add_tail-append}
use au_os.LinkedList.Splice.{list_del_lem, list_splice-append}

abbrev blank : Store
blank = record { next = λ _. 0; prev = λ _. 0 }

-- A ring at 100, with the entry 10.
abbrev one : Store
one = list_add (list_init blank 100) 10 100

one-IsRing : IsRing one 100 (10 ∷ [])
one-IsRing = list_add-cons (list_init blank 100) 100 10 [] (list_init-IsRing blank 100) refl

abbrev two : Store
two = list_add_tail one 20 100

two-IsRing : IsRing two 100 (10 ∷ 20 ∷ [])
two-IsRing = list_add_tail-append one 100 20 (10 ∷ []) one-IsRing refl

two_size : list_size 3 two 100 ≡ some 2
unfolding list_size list_add_tail list_add list_init
two_size = refl

list_del_lem_example :
    IsRing (list_del two 10) 100 (20 ∷ [])
    × ((list_del two 10).next 10 ≡ 0)
    × ((list_del two 10).prev 10 ≡ 0)
list_del_lem_example = list_del_lem two 100 [] 10 (20 ∷ []) two-IsRing

-- A second ring, at 200, in the same store.
abbrev both : Store
both = list_init two 200

both_first : IsRing both 100 (10 ∷ 20 ∷ [])
unfolding list_init list_add_tail list_add
both_first = record {
  chain = (refl, refl, (refl, refl, (refl, refl)));
  distinct = (refl, (refl, (refl, tt)));
}

rings-Apart : Apart (100 ∷ 10 ∷ 20 ∷ []) (200 ∷ [])
rings-Apart a h = ground arith

list_splice-append_example :
    IsRing (list_splice both 100 200) 200 (10 ∷ 20 ∷ []) × IsRing (list_splice both 100 200) 100 []
list_splice-append_example =
    list_splice-append both 100 200 (10 ∷ 20 ∷ []) [] both_first (list_init-IsRing two 200)
      rings-Apart
