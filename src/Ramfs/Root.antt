-- ===== src/Ramfs/Root.antt =====
-- The first entry of a file system is its root.
use au_os.Prelude.{ℕ, ◌+◌, Bool, none, some, List}
use au_os.Text.Laws.{AreBytes}
use au_os.Ramfs.{Fs, put_entry, new_entry}

module _ (fs : Fs) (fn : List ℕ) (is_dir : Bool) (bytes : AreBytes fn) where
  rooted_fs : Fs
  rooted_fs = record (put_entry fs fs.fresh (new_entry fn none is_dir)) {
    root = some fs.fresh;
    fresh = fs.fresh + 1;
  }
