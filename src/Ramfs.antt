-- ===== src/Ramfs.antt =====
-- ramfs.c: the file system in memory, a tree of entries that are found by their whole path. An
-- entry is a number, as a pointer is; memory is not used up. Names are the bytes of a string, up to
-- the one that is 0.
pub mod Names
pub mod Inv
pub mod Find
pub mod Root
pub mod Grown
pub mod Create
pub mod Files
pub mod Contents
pub mod Open
mod Tests
use au_os.Prelude.{
  ℕ, zero, suc, ◌+◌, ◌-◌, Bool, true, false, not, ◌&&◌, ◌||◌, Option, none, some, List, [], ◌∷◌,
  ◌++◌, ltb, leb, ◌==◌, if◌then◌else◌, length, get_or, take, drop, min,
}
use au_os.Text.{Order, below, same, above, str_compare}

-- What an operation comes to: a value, a wait for a mutex that is locked, or an access of memory
-- that is not the program's, through a null pointer or out of bounds.
pub data Result {ℓ} (A : Type ℓ) : Type ℓ where
  done : A → Result A
  waits : Result A
  fault : Result A

infixl 5 ◌>>=◌
abbrev pub ◌>>=◌ {ℓ κ} : {A : Type ℓ} {B : Type κ} → Result A → (A → Result B) → Result B
done a >>= f = f a
waits >>= f = waits
fault >>= f = fault

-- `struct fentry`; the list of children by their pointers.
pub record Fentry : Type 0 where
  pub filename : List ℕ
  pub parent : Option ℕ
  pub children : List ℕ
  pub contents : List ℕ
  pub is_dir : Bool
  pub locked : Bool

-- The root, the entries by their pointers, and the pointer that `mem_alloc` gives next.
pub record Fs : Type 0 where
  pub root : Option ℕ
  pub entry : ℕ → Fentry
  pub fresh : ℕ

unfoldable pub put_entry : Fs → ℕ → Fentry → Fs
put_entry fs p e = record fs { entry = λ q. if q == p then e else fs.entry q }

-- RAMFS_MAX_FILENAME_SIZE
abbrev pub max_name : ℕ
max_name = 256

-- `trim_filename`: of an empty name it reads the byte before it.
unfoldable pub trim_filename : List ℕ → Result (List ℕ)
trim_filename [] = fault
trim_filename (c ∷ cs) =
    let name = c ∷ cs in
    let size = length name in
    done (take (if get_or name (size - 1) 0 == 0x2f then size - 1 else size) name)

abbrev pub is_same : Order → Bool
is_same same = true
is_same below = false
is_same above = false

-- `fentry_equals_filename`
unfoldable pub name_equals : (filename name : List ℕ) → Bool
name_equals filename name =
    length filename == length name && is_same (str_compare filename name (length name))

-- `fentry_list_find_with_name`
unfoldable pub find_with_name : Fs → List ℕ → (name : List ℕ) → Option ℕ
unfolding name_equals
find_with_name fs [] name = none
find_with_name fs (p ∷ ps) name =
    let rest = find_with_name fs ps name in
    if name_equals (fs.entry p).filename name then some p else rest

-- A pointer, or another one where it is null.
abbrev pub or_else : Option ℕ → Option ℕ → Option ℕ
or_else (some p) o = some p
or_else none o = o

-- The loop of `ramfs_find_recursive` over the children.
unfoldable pub first_found : (ℕ → Option ℕ) → List ℕ → Option ℕ
first_found find [] = none
first_found find (p ∷ ps) = or_else (find p) (first_found find ps)

-- `ramfs_find_recursive`, on fuel for the depth of the tree.
unfoldable pub find_recursive : ℕ → Fs → (f : ℕ) → (name : List ℕ) → Option ℕ
unfolding find_with_name first_found name_equals
find_recursive zero fs f name = none
find_recursive (suc fuel) fs f name =
    let among = first_found (λ p. find_recursive fuel fs p name) (fs.entry f).children in
    if name_equals (fs.entry f).filename name
    then some f
    else or_else (find_with_name fs (fs.entry f).children name) among

-- `ramfs_find`. Pointers grow towards the leaves, so there are fewer levels than pointers.
unfoldable pub find_from : Fs → Option ℕ → (name : List ℕ) → Result (Option ℕ)
unfolding find_recursive trim_filename
find_from fs none name = done none
find_from fs (some root) name = trim_filename name >>= λ fn. done (
    if name_equals (fs.entry root).filename fn
    then some root
    else find_recursive fs.fresh fs root fn)

unfoldable pub ramfs_find : Fs → (filename : List ℕ) → Result (Option ℕ)
unfolding find_from
ramfs_find fs filename = find_from fs fs.root filename

-- The loop of `get_directory_name`: the index of the last slash.
unfoldable pub last_slash : List ℕ → (i index : ℕ) → ℕ
last_slash [] i index = index
last_slash (c ∷ cs) i index = last_slash cs (i + 1) (if c == 0x2f then i else index)

abbrev pub is_null : Option ℕ → Bool
is_null none = true
is_null (some p) = false

-- `get_directory_name`: a null pointer for a name without a slash, unless there is no root.
unfoldable pub get_directory_name : Fs → (filename : List ℕ) → Result (Option (List ℕ))
unfolding trim_filename last_slash
get_directory_name fs filename = trim_filename filename >>= λ fn.
    let index = last_slash fn 0 (max_name + 1) in
    if ltb max_name index
    then (if is_null fs.root then done (some (take (length fn) fn)) else done none)
    else done (some (take index fn))

abbrev pub new_entry : List ℕ → Option ℕ → Bool → Fentry
new_entry fn parent is_dir = record {
  filename = fn;
  parent = parent;
  children = [];
  contents = [];
  is_dir = is_dir;
  locked = false;
}

-- `fentry_list_add` to the children of `p`, under its mutex: `none` where the name is taken.
unfoldable pub add_child : Fs → (p : ℕ) → (fn : List ℕ) → Bool → Result (Option ℕ × Fs)
unfolding put_entry find_with_name
add_child fs p fn is_dir =
    let e = fs.entry p in
    let new = fs.fresh in
    let linked = put_entry fs p (record e { children = e.children ++ new ∷ [] }) in
    let created = put_entry linked new (new_entry fn (some p) is_dir) in
    if e.locked
    then waits
    else if is_null (find_with_name fs e.children fn)
    then done (some new, record created { fresh = new + 1 })
    else done (none, fs)

unfoldable pub create_root : Fs → (fn : List ℕ) → Bool → Result (Option ℕ × Fs)
unfolding put_entry
create_root fs fn is_dir = done (
  some fs.fresh,
  record (put_entry fs fs.fresh (new_entry fn none is_dir)) {
    root = some fs.fresh;
    fresh = fs.fresh + 1;
  },
)

-- `fentry_create` by its parent: without one, the entry is the root, if there is none yet.
unfoldable pub create_in : Option ℕ → Fs → (fn : List ℕ) → Bool → Result (Option ℕ × Fs)
unfolding add_child create_root
create_in none fs fn is_dir = if is_null fs.root then create_root fs fn is_dir else fault
create_in (some p) fs fn is_dir = add_child fs p fn is_dir

unfoldable pub fentry_create : Fs → (filename : List ℕ) → Option ℕ → Bool → Result (Option ℕ × Fs)
unfolding create_in trim_filename
fentry_create fs filename parent is_dir =
    trim_filename filename >>= λ fn. create_in parent fs fn is_dir

-- `ramfs_create_file` for a name that is not found: its directory, and the entry. `strlen` of a
-- null pointer is a fault.
unfoldable pub create_at :
    Fs → (filename : List ℕ) → Bool → Option (List ℕ) → Result (Option ℕ × Fs)
unfolding ramfs_find fentry_create
create_at fs filename is_dir none =
    if is_null fs.root then fentry_create fs filename none is_dir else fault
create_at fs filename is_dir (some directory) = ramfs_find fs directory >>= λ parent.
    if not (is_null fs.root) && is_null parent
    then done (none, fs)
    else fentry_create fs filename parent is_dir

unfoldable pub create_unless : Fs → (filename : List ℕ) → Bool → Option ℕ → Result (Option ℕ × Fs)
unfolding create_at get_directory_name
create_unless fs filename is_dir (some f) = done (some f, fs)
create_unless fs filename is_dir none =
    get_directory_name fs filename >>= λ directory. create_at fs filename is_dir directory

unfoldable pub ramfs_create_file : Fs → (filename : List ℕ) → Bool → Result (Option ℕ × Fs)
unfolding create_unless ramfs_find
ramfs_create_file fs filename is_dir =
    if ltb max_name (length filename)
    then done (none, fs)
    else ramfs_find fs filename >>= λ f. create_unless fs filename is_dir f
