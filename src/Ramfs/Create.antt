-- ===== src/Ramfs/Create.antt =====
-- Creating an entry in a directory.
use au_os.Prelude.{ℕ, ◌<◌, ◌≡◌, ◌≢◌, Bool, Option, some, List, [], ◌∷◌, ◌++◌}
use au_os.Ramfs.{Fs, Result, done, new_entry, ramfs_find}
use au_os.Ramfs.Inv.{IsFs}

-- What creating `name`, trimmed to `fn`, in the directory `p` gives.
pub record IsCreated (fs : Fs) (r p : ℕ) (name fn : List ℕ) (is_dir : Bool)
    (res : Result (Option ℕ × Fs)) : Type 0 where
  pub after : Fs
  pub result : res ≡ done (some fs.fresh, after)
  pub in_order : IsFs after r
  pub found : ramfs_find after name ≡ done (some fs.fresh)
  pub created : after.entry fs.fresh ≡ new_entry fn (some p) is_dir
  pub linked : (after.entry p).children ≡ (fs.entry p).children ++ fs.fresh ∷ []
  pub kept : (q : ℕ) → q < fs.fresh → q ≢ p → after.entry q ≡ fs.entry q
  pub name_kept : (q : ℕ) → q < fs.fresh → (after.entry q).filename ≡ (fs.entry q).filename
