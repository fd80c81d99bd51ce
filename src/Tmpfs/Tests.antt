-- ===== src/Tmpfs/Tests.antt =====
-- Tests of userland/servers/tmpfs.
use chcore.Common.{
  Bool, List, [], arith, false, if◌then◌else◌, inr, ltb, none, ok, refl, some, true, ℕ, ◌%◌, ◌+◌,
  ◌∷◌, ◌≡◌,
}
use chcore.Tmpfs.{Bytes, Reg, tfs_file_read, tfs_file_write}
use chcore.Tmpfs.Write.{FileWritten, byte, tfs_file_write-FileWritten}
use chcore.Tmpfs.Read.{tfs_file_read_lem}
use chcore.Tmpfs.File.{
  AppendedAndLost, WrittenAndRead, tfs_file_read-tfs_file_write, tfs_file_write-append,
}
use chcore.Tmpfs.Names.{Fs, new_dir}
use chcore.Tmpfs.Names.Lookup.{CreatedAndRemoved, tfs_remove-tfs_mknod}
use chcore.Tmpfs.Names.Paths.{CreatedAndOpened, tfs_open_path-fs_creat}

abbrev counting : Bytes
counting j = j % 256

abbrev blank : Bytes
blank j = 0

-- A file of 6000 bytes on two pages.
abbrev two_pages : Reg
two_pages = record { size = 6000; pages = λ i. if ltb i 2 then some blank else none }

abbrev served : List Bool
served = true ∷ true ∷ true ∷ true ∷ []

tfs_file_read-tfs_file_write_example : WrittenAndRead two_pages 4000 counting 1000 served blank
tfs_file_read-tfs_file_write_example =
    tfs_file_read-tfs_file_write two_pages 4000 counting 1000 served blank (omega arith)
      (omega arith) (omega arith) refl (inr (omega arith))

tfs_file_write-FileWritten_example :
    (f' : Reg) × (rest : List Bool) × (tfs_file_write two_pages 6000 counting 5000 served
      ≡ ok (5000, f', rest))
    × FileWritten two_pages f' 6000 counting 5000
tfs_file_write-FileWritten_example =
    tfs_file_write-FileWritten two_pages 6000 counting 5000 served (omega arith) (omega arith) refl

tfs_file_write-append_example : AppendedAndLost two_pages counting 100 served blank
tfs_file_write-append_example =
    tfs_file_write-append two_pages counting 100 served blank (omega arith) (omega arith) refl

abbrev just_root : Fs
just_root = record { inode_at = λ i. new_dir; next = 1 }

tfs_remove-tfs_mknod_example : CreatedAndRemoved 0 0 (λ b. []) (97 ∷ 98 ∷ []) false just_root
tfs_remove-tfs_mknod_example =
    tfs_remove-tfs_mknod 0 0 (λ b. []) 97 (98 ∷ []) false just_root refl (omega arith)

tfs_open_path-fs_creat_example : CreatedAndOpened (47 ∷ 97 ∷ 98 ∷ []) just_root
tfs_open_path-fs_creat_example =
    tfs_open_path-fs_creat 0 (λ b. []) 97 (98 ∷ []) just_root refl (omega arith) refl

tfs_file_read_lem_example :
    (buff' : Bytes) × (tfs_file_read two_pages 5000 blank 3000 ≡ ok (1000, buff'))
    × ((i : ℕ) → buff' i ≡ (if ltb i 1000 then byte two_pages (5000 + i) else blank i))
tfs_file_read_lem_example =
    tfs_file_read_lem two_pages 5000 blank 3000 (omega arith) (omega arith) (omega arith)
      (λ k h. ground (arith, h))
