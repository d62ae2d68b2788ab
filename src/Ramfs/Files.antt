-- ===== src/Ramfs/Files.antt =====
-- ramfs.c: the directories and the files. An open file is a locked one.
use au_os.Prelude.{
  Bool, ℕ, ◌+◌, ◌-◌, true, false, not, ◌&&◌, Option, none, some, List, [], ◌++◌, ltb, leb,
  if◌then◌else◌, length, take, drop, min,
}
use au_os.Prelude.Words.{u64}
use au_os.Ramfs.{Fs, Result, done, waits, fault, ◌>>=◌, put_entry, ramfs_find, ramfs_create_file}

-- The file that `ramfs_create_file` gives is used without a test: of a null one, the error message
-- reads the name.
abbrev pub created_or_fault : (Option ℕ × Fs) → Result (Option ℕ × Fs)
created_or_fault (none, fs) = fault
created_or_fault (some f, fs) = done (some f, fs)

unfoldable pub mkdir_unless : Fs → (filename : List ℕ) → Option ℕ → Result (Option ℕ × Fs)
unfolding ramfs_create_file
mkdir_unless fs filename (some f) = done (some f, fs)
mkdir_unless fs filename none = ramfs_create_file fs filename false >>= created_or_fault

unfoldable pub ramfs_mkdir : Fs → (filename : List ℕ) → Result (Option ℕ × Fs)
unfolding ramfs_find mkdir_unless
ramfs_mkdir fs filename = ramfs_find fs filename >>= λ f. mkdir_unless fs filename f

-- `mutex_lock(f->mtx)` of the file that was found.
unfoldable pub lock_found : Fs → Option ℕ → Result (ℕ × Fs)
unfolding put_entry
lock_found fs none = fault
lock_found fs (some f) =
    let e = fs.entry f in
    let taken = put_entry fs f (record e { locked = true }) in
    if e.locked then waits else done (f, taken)

-- A file that is not created is searched for again.
unfoldable pub open_created : (filename : List ℕ) → (Option ℕ × Fs) → Result (ℕ × Fs)
unfolding lock_found ramfs_find
open_created filename (some f, fs) = lock_found fs (some f)
open_created filename (none, fs) = ramfs_find fs filename >>= lock_found fs

unfoldable pub open_found : Fs → (filename : List ℕ) → Option ℕ → Result (ℕ × Fs)
unfolding lock_found ramfs_create_file open_created
open_found fs filename (some f) = lock_found fs (some f)
open_found fs filename none = ramfs_create_file fs filename false >>= open_created filename

unfoldable pub ramfs_open : Fs → (filename : List ℕ) → Result (ℕ × Fs)
unfolding ramfs_find open_found
ramfs_open fs filename = ramfs_find fs filename >>= λ f. open_found fs filename f

-- `ramfs_close`: `mutex_unlock` leaves the mutex locked, for the thread that it wakes, where one
-- waits.
unfoldable pub ramfs_close : Fs → (f : ℕ) → (waiting : Bool) → Fs
unfolding put_entry
ramfs_close fs f waiting =
    let e = fs.entry f in put_entry fs f (record e { locked = waiting && e.locked })

-- `ramfs_read`: the number of bytes read, and the bytes.
unfoldable pub ramfs_read : Fs → (f seek count : ℕ) → ℕ × List ℕ
ramfs_read fs f seek count =
    let e = fs.entry f in
    let size = length e.contents in
    let res_count = min (size - seek) count in
    if not e.locked
    then (0, [])
    else if leb size seek
    then (0, [])
    else (res_count, take res_count (drop seek e.contents))

-- `ramfs_write` of the first `count` bytes of `contents`: the copy of the old contents reads them up
-- to `seek`, and the copy in place writes from there; `seek + count` wraps on 64 bits. `fault` is a
-- copy that leaves the contents.
unfoldable pub ramfs_write : Fs → (f seek : ℕ) → (contents : List ℕ) → (count : ℕ) → Result (ℕ × Fs)
unfolding put_entry
ramfs_write fs f seek contents count =
    let e = fs.entry f in
    let size = length e.contents in
    let stored = take seek e.contents ++ take count contents ++ drop (seek + count) e.contents in
    let longer = take seek e.contents ++ take count contents in
    if e.is_dir
    then done (0, fs)
    else if not e.locked
    then done (0, fs)
    else if leb seek size && ltb 0 count
    then done (0, fs)
    else if leb (u64 (seek + count)) size
    then (if ltb size (seek + count)
        then fault
        else done (count, put_entry fs f (record e { contents = stored })))
    else if ltb size seek
    then fault
    else done (count, put_entry fs f (record e { contents = longer }))
