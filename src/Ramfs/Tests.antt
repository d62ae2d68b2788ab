-- ===== src/Ramfs/Tests.antt =====
-- Small trees.
use native.Mathlib.Nat.{le_refl}
use au_os.Prelude.{
  ℕ, zero, suc, ◌<◌, ◌≡◌, refl, true, false, Option, none, some, List, [], ◌∷◌, arith, get_or,
}
use au_os.Text.{str_compare}
use au_os.Text.Laws.{AreBytes}
use au_os.Ramfs.{Fs, Fentry, done, fault, new_entry, ramfs_create_file, ramfs_find, trim_filename}
use au_os.Ramfs.Inv.{IsFs}
use au_os.Ramfs.Find.{IsFound, ramfs_find-IsFound}
use au_os.Ramfs.Files.{ramfs_open, ramfs_write, ramfs_mkdir, mkdir_unless}
use au_os.Ramfs.Open.{IsOpened, ramfs_open-IsOpened}
use au_os.Ramfs.Contents.{StoresNothing, ramfs_write-StoresNothing}

-- No file system yet.
abbrev empty_fs : Fs
empty_fs = record { root = none; entry = λ p. new_entry [] none false; fresh = 0 }

-- "d", "d/" and "d/f"
abbrev dir_name : List ℕ
dir_name = 0x64 ∷ []

abbrev dir_slash : List ℕ
dir_slash = 0x64 ∷ 0x2f ∷ []

abbrev file_name : List ℕ
file_name = 0x64 ∷ 0x2f ∷ 0x66 ∷ []

-- A tree of its root, "d".
abbrev rooted_fs : Fs
rooted_fs = record { root = some 0; entry = λ p. new_entry dir_name none true; fresh = 1 }

abbrev hello_file : Fentry
hello_file = record (new_entry dir_name none false) { contents = 1 ∷ 2 ∷ 3 ∷ []; locked = true }

-- An open file of three bytes.
abbrev open_fs : Fs
open_fs = record { root = some 0; entry = λ p. hello_file; fresh = 1 }

dir_name-AreBytes : AreBytes dir_name
dir_name-AreBytes zero = omega arith
dir_name-AreBytes (suc k) = omega arith

dir_slash-AreBytes : AreBytes dir_slash
dir_slash-AreBytes zero = omega arith
dir_slash-AreBytes (suc k) = dir_slash-tail k
  where
    dir_slash-tail : (k : ℕ) → get_or (0x2f ∷ []) k 0 < 256
    dir_slash-tail zero = omega arith
    dir_slash-tail (suc k) = omega arith

rooted_fs-IsFs : IsFs rooted_fs 0
rooted_fs-IsFs = record {
  rooted = refl;
  root_old = omega arith;
  younger = λ p c le lt on. absurd (omega arith);
  parents = λ c lt fresh. absurd (omega arith);
  unique = λ p q le lt le' lt' e. omega arith;
  bytes = λ p le lt. dir_name-AreBytes;
}

trimmed_slash : trim_filename dir_slash ≡ done dir_name
unfolding trim_filename
trimmed_slash = refl

trimmed_dir : trim_filename dir_name ≡ done dir_name
unfolding trim_filename
trimmed_dir = refl

-- A name without a slash has no directory once there is a root: its `strlen` is of a null pointer.
no_directory : ramfs_create_file rooted_fs (0x66 ∷ []) false ≡ fault
unfolding ramfs_create_file str_compare
no_directory = refl

-- A directory that does not exist: `ramfs_mkdir` prints the name of the null entry.
mkdir_faults : ramfs_mkdir rooted_fs (0x66 ∷ 0x2f ∷ 0x66 ∷ []) ≡ fault
unfolding ramfs_mkdir mkdir_unless ramfs_create_file str_compare
mkdir_faults = refl

ramfs_find-IsFound_example :
    (o : Option ℕ) × (ramfs_find rooted_fs dir_slash ≡ done o) × IsFound rooted_fs 0 dir_name o
ramfs_find-IsFound_example =
    ramfs_find-IsFound rooted_fs 0 dir_slash dir_name rooted_fs-IsFs dir_slash-AreBytes
      trimmed_slash

ramfs_write-StoresNothing_example : StoresNothing open_fs (ramfs_write open_fs 0 1 (9 ∷ []) 1)
ramfs_write-StoresNothing_example = ramfs_write-StoresNothing open_fs 0 1 1 (9 ∷ [])

ramfs_open-IsOpened_example : IsOpened rooted_fs 0 0 dir_name (ramfs_open rooted_fs dir_name)
ramfs_open-IsOpened_example =
    ramfs_open-IsOpened rooted_fs 0 0 dir_name dir_name rooted_fs-IsFs dir_name-AreBytes trimmed_dir
      (le_refl 0) (omega arith) refl refl
