-- ===== src/Tmpfs.antt =====
-- The files of userland/servers/tmpfs/tmpfs.c: reads and writes of a regular file whose pages are in
-- a radix tree, here the map that the tree is (see Radix). The caller's test of the inode's type is
-- its type here, and the nodes of the tree are always granted by the heap; `grants` says which of
-- the coming calls of calloc for a page succeed, and a page that is not granted is NULL.
pub mod Write
pub mod Read
pub mod File
pub mod Names
pub mod Tests
use chcore.Common.{
  Bool, List, Option, Run, bug, bug_on, false, granted, if◌then◌else◌, later_grants, leb, ltb, none,
  ok, some, suc, true, update, zero, ℕ, ◌%◌, ◌&&◌, ◌+◌, ◌-◌, ◌/◌, ◌>>=◌, ◌^◌,
}

-- The bytes of a page, or of a buffer.
abbrev pub Bytes : Type 0
Bytes = ℕ → ℕ

pub record Reg : Type 0 where
  pub size : ℕ
  pub pages : ℕ → Option Bytes

abbrev pub page_size : ℕ
page_size = 4096

-- `a - b` on 64 bits.
abbrev pub sub64 : ℕ → ℕ → ℕ
sub64 a b = (a + 2 ^ 64 - b) % 2 ^ 64

-- `to_write` and `to_read`: what is left of the page, or of the request.
abbrev pub in_page : ℕ → ℕ → ℕ
in_page cur_off size =
    if ltb page_size (cur_off % page_size + size) then page_size - cur_off % page_size else size

-- memcpy of `n` bytes from `src + from` to `dest + to`.
abbrev pub memcpy : Bytes → ℕ → Bytes → ℕ → ℕ → Bytes
memcpy dest to src from n j = if leb to j && ltb j (to + n) then src (from + (j - to)) else dest j

abbrev pub zero_page : Bytes
zero_page j = 0

-- The page of the file, made if it is missing.
abbrev pub page_for_write : Option Bytes → List Bool → Run (Bytes × List Bool)
page_for_write (some page) grants = ok (page, grants)
page_for_write none grants = elim (granted grants) [
  | false ↦ bug
  | true ↦ ok (zero_page, later_grants grants)
]

-- The loop of `tfs_file_write`; the fuel is the pages that the request can touch and one more.
pub write_loop : ℕ → Reg → ℕ → Bytes → ℕ → ℕ → List Bool → Run (Reg × ℕ × List Bool)
write_loop zero inode offset bytes cur_off size grants = bug
write_loop (suc fuel) inode offset bytes cur_off size grants = elim (ltb 0 size) [
  | false ↦ ok (inode, cur_off, grants)
  | true ↦ do
    (page, rest) ← page_for_write (inode.pages (cur_off / page_size)) grants
    write_loop fuel
        (record inode {
          pages = update inode.pages (cur_off / page_size) (
              some (
                memcpy page (cur_off % page_size) bytes (sub64 cur_off offset)
                  (in_page cur_off size)));
        })
        offset bytes ((cur_off + in_page cur_off size) % 2 ^ 64) (size - in_page cur_off size) rest
]

-- The size is set to the length of the request if it is below it.
abbrev pub resized : Reg → ℕ → Reg
resized inode n = record inode { size = if ltb inode.size n then n else inode.size }

-- The return value, the file and the grants left.
pub tfs_file_write : Reg → ℕ → Bytes → ℕ → List Bool → Run (ℕ × Reg × List Bool)
tfs_file_write inode offset bytes size grants = bug_on (ltb inode.size offset) (do
  (inode', cur_off, rest) ← write_loop (size / page_size + 3) inode offset bytes offset size grants
  ok (sub64 cur_off offset, resized inode' (sub64 cur_off offset), rest))

-- The loop of `tfs_file_read`, fuelled in the same way. A page that is missing is read at NULL.
pub read_loop : ℕ → Reg → ℕ → Bytes → ℕ → ℕ → Run (Bytes × ℕ)
read_loop zero inode offset buff cur_off size = bug
read_loop (suc fuel) inode offset buff cur_off size = elim (ltb 0 size) [
  | false ↦ ok (buff, cur_off)
  | true ↦ elim (inode.pages (cur_off / page_size)) [
    | none ↦ bug
    | some page ↦
        read_loop fuel inode offset
          (memcpy buff (sub64 cur_off offset) page (cur_off % page_size) (in_page cur_off size))
          ((cur_off + in_page cur_off size) % 2 ^ 64) (size - in_page cur_off size)
  ]
]

abbrev pub truncated : Reg → ℕ → ℕ → ℕ
truncated inode offset size =
    if ltb inode.size ((offset + size) % 2 ^ 64) then sub64 inode.size offset else size

-- The return value and the buffer.
pub tfs_file_read : Reg → ℕ → Bytes → ℕ → Run (ℕ × Bytes)
tfs_file_read inode offset buff size = bug_on (ltb inode.size offset) (do
  (buff', cur_off) ←
      read_loop (truncated inode offset size / page_size + 3) inode offset buff offset
        (truncated inode offset size)
  ok (sub64 cur_off offset, buff'))
