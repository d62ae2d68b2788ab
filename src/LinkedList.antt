-- ===== src/LinkedList.antt =====
-- list.c and list.h: intrusive circular doubly linked lists. A `struct list_head` is an address;
-- the store gives the two fields of every address. No function tests for a null pointer.
pub mod Chain
pub mod Laws
pub mod Splice
mod Tests
use au_os.Prelude.{ℕ, zero, suc, ◌+◌, Bool, Option, none, some, ◌==◌, if◌then◌else◌}

-- The memory that holds the `struct list_head` objects.
pub record Store : Type 0 where
  pub next : ℕ → ℕ
  pub prev : ℕ → ℕ

-- `p->field = v`
unfoldable pub write : (ℕ → ℕ) → ℕ → ℕ → ℕ → ℕ
write f p v a = if a == p then v else f a

-- `p->next = v` and `p->prev = v`
abbrev pub set_next : Store → ℕ → ℕ → Store
set_next h p v = record h { next = write h.next p v }

abbrev pub set_prev : Store → ℕ → ℕ → Store
set_prev h p v = record h { prev = write h.prev p v }

unfoldable pub list_init : Store → ℕ → Store
unfolding write
list_init h head = set_next (set_prev h head head) head head

-- `list_insert` of the source, the four writes in its order.
unfoldable pub list_insert : Store → (new prev next : ℕ) → Store
unfolding write
list_insert h new prev next =
    let h1 = set_prev h new prev in
    let h2 = set_next h1 new next in let h3 = set_next h2 prev new in set_prev h3 next new

unfoldable pub list_add : Store → (new head : ℕ) → Store
unfolding list_insert
list_add h new head = list_insert h new head (h.next head)

unfoldable pub list_add_tail : Store → (new head : ℕ) → Store
unfolding list_insert
list_add_tail h new head = list_insert h new (h.prev head) head

-- `__list_del`
unfoldable pub del_between : Store → (prev next : ℕ) → Store
unfolding write
del_between h prev next = set_prev (set_next h prev next) next prev

unfoldable pub list_del : Store → ℕ → Store
unfolding write del_between
list_del h entry =
    let h1 = del_between h (h.prev entry) (h.next entry) in set_prev (set_next h1 entry 0) entry 0

-- `__list_splice`
unfoldable pub splice_between : Store → (list prev next : ℕ) → Store
unfolding write
splice_between h list prev next =
    let first = h.next list in
    let last = h.prev list in
    let h1 = set_prev h first prev in
    let h2 = set_next h1 prev first in let h3 = set_next h2 last next in set_prev h3 next last

unfoldable pub list_empty : Store → ℕ → Bool
list_empty h head = h.next head == head

unfoldable pub list_splice : Store → (list head : ℕ) → Store
unfolding list_empty splice_between list_init
list_splice h list head =
    if list_empty h list then h else list_init (splice_between h list head (h.next head)) list

unfoldable pub list_first : Store → ℕ → ℕ
list_first h head = h.next head

-- The loop of `list_size`, on fuel: `none` means that the fuel ran out.
unfoldable pub size_loop : ℕ → Store → (head pos size : ℕ) → Option ℕ
size_loop zero h head pos size = none
size_loop (suc fuel) h head pos size =
    let rest = size_loop fuel h head (h.next pos) (size + 1) in
    if pos == head then some size else rest

unfoldable pub list_size : ℕ → Store → ℕ → Option ℕ
unfolding size_loop
list_size fuel h head = size_loop fuel h head (h.next head) 0
