-- ===== src/Tmpfs/File.antt =====
-- A file of userland/servers/tmpfs/tmpfs.c that is written and then read.
use chcore.Common.{
  Bool, List, ap, arith, bug, if◌then◌else◌, inl, inr, ltb, none, ok, suc, true, ℕ, ◌+◌, ◌-◌, ◌/◌,
  ◌<◌, ◌^◌, ◌∙◌, ◌≡◌, ◌≤◌, ◌⊎◌,
}
use chcore.Tmpfs.{Bytes, Reg, page_size, read_loop, tfs_file_read, tfs_file_write, truncated}
use chcore.Tmpfs.Write.{byte, serves, tfs_file_write-FileWritten, within}
use chcore.Tmpfs.Read.{readable, tfs_file_read-read_loop, tfs_file_read_lem}

-- A write and a read of the same range.
abbrev pub WrittenAndRead : Reg → ℕ → Bytes → ℕ → List Bool → Bytes → Type 0
WrittenAndRead f offset bytes size grants buff =
    (f' : Reg) × (rest : List Bool) × (buff' : Bytes) × (tfs_file_write f offset bytes size grants
      ≡ ok (size, f', rest))
    × (tfs_file_read f' offset buff size ≡ ok (size, buff'))
    × ((i : ℕ) → buff' i ≡ (if ltb i size then bytes i else buff i))

readable_all :
    (f f' : Reg) (offset size : ℕ)
    → offset ≤ f.size
    → f'.size ≡ (if ltb f.size size then size else f.size)
    → (offset ≡ 0) ⊎ (offset + size ≤ f.size)
    → readable f' offset size ≡ size
readable_all f f' offset size le e (inl start) = ground (arith, e, start)
readable_all f f' offset size le e (inr inside) = ground (arith, e, inside)

-- Let a file and a request end below 2^63, the request begin within the file, and begin at 0 or end
-- within the file, and let the heap serve the pages. tfs_file_write returns the length, and
-- tfs_file_read of the same range returns it too and fills the buffer with the bytes written;
-- beyond them the buffer is as before.
pub tfs_file_read-tfs_file_write :
    (f : Reg) (offset : ℕ) (bytes : Bytes) (size : ℕ) (grants : List Bool) (buff : Bytes)
    → offset ≤ f.size
    → f.size < 2 ^ 63
    → offset + size < 2 ^ 63
    → serves (size / page_size + 2) grants ≡ true
    → (offset ≡ 0) ⊎ (offset + size ≤ f.size)
    → WrittenAndRead f offset bytes size grants buff
tfs_file_read-tfs_file_write f offset bytes size grants buff le small small' served inside =
    let (f', rest, run, (resize, new, kept, made)) =
      tfs_file_write-FileWritten f offset bytes size grants le small' served in
    let all = readable_all f f' offset size le resize inside in
    let (buff', run', filled) =
      tfs_file_read_lem f' offset buff size (ground (arith, resize)) (ground (arith, resize)) small'
        (λ k h. made k (ground (arith, h, all))) in
    (
      f',
      rest,
      buff',
      run,
      run' ∙ ap (λ n. ok (n, buff')) all,
      λ i. as_written f' offset bytes size buff buff' i all (filled i) (new (offset + i)),
    )
  where
    as_written :
        (f' : Reg) (offset : ℕ) (bytes : Bytes) (size : ℕ) (buff buff' : Bytes) (i : ℕ)
        → readable f' offset size ≡ size
        → buff' i ≡ (if ltb i (readable f' offset size) then byte f' (offset + i) else buff i)
        → (byte f' (offset + i) ≡ (
            if within offset size (offset + i)
            then bytes (offset + i - offset)
            else byte f (offset + i)))
        → buff' i ≡ (if ltb i size then bytes i else buff i)
    as_written f' offset bytes size buff buff' i all e e' =
        ground (arith, all, e, e', ap bytes (back offset i))
      where
        back : (a b : ℕ) → a + b - a ≡ b
        back a b = omega arith

read_at_end :
    (f : Reg) (offset : ℕ) (buff : Bytes) (size : ℕ)
    → f.size ≡ offset
    → offset + size < 2 ^ 63
    → tfs_file_read f offset buff size ≡ ok (0, buff)
unfolding read_loop
read_at_end f offset buff size e small =
    tfs_file_read-read_loop f offset buff buff size 0 (omega arith) (omega arith)
      (ground (arith, e)) (ground arith)

-- A write at the end of a file that is not shorter than the request, and a read from there.
abbrev pub AppendedAndLost : Reg → Bytes → ℕ → List Bool → Bytes → Type 0
AppendedAndLost f bytes size grants buff =
    (f' : Reg) × (rest : List Bool) × (tfs_file_write f f.size bytes size grants
      ≡ ok (size, f', rest))
    × ((f'.size ≡ f.size) × (tfs_file_read f' f.size buff size ≡ ok (0, buff)))

-- A write at the end of a file that is at least as long as the request, with the pages served,
-- returns the length of the request and leaves the size of the file as it was; a read from that
-- offset then returns 0.
pub tfs_file_write-append :
    (f : Reg) (bytes : Bytes) (size : ℕ) (grants : List Bool) (buff : Bytes)
    → size ≤ f.size
    → f.size + size < 2 ^ 63
    → serves (size / page_size + 2) grants ≡ true
    → AppendedAndLost f bytes size grants buff
tfs_file_write-append f bytes size grants buff le small served =
    let (f', rest, run, (resize, new, kept, made)) =
      tfs_file_write-FileWritten f f.size bytes size grants (omega arith) small served in
    (
      f',
      rest,
      run,
      (ground (arith, resize), read_at_end f' f.size buff size (ground (arith, resize)) small),
    )

read_loop-missing :
    (fuel : ℕ) (f : Reg) (offset : ℕ) (buff : Bytes) (cur_off size : ℕ)
    → 0 < size
    → f.pages (cur_off / page_size) ≡ none
    → read_loop (suc fuel) f offset buff cur_off size ≡ bug
unfolding read_loop
read_loop-missing fuel f offset buff cur_off size more e = ground (arith, e)

-- A read of some bytes from the start of a file that has no pages and a size above 0, as tfs_mknod
-- makes it, is an access through NULL.
pub tfs_file_read-new :
    (f : Reg) (buff : Bytes) (size : ℕ)
    → ((k : ℕ) → f.pages k ≡ none)
    → 0 < f.size
    → 0 < size
    → f.size < 2 ^ 63
    → size < 2 ^ 63
    → tfs_file_read f 0 buff size ≡ bug
unfolding tfs_file_read
tfs_file_read-new f buff size empty named more small small' = ground (
  arith,
  ap (λ n. read_loop n f 0 buff 0 (truncated f 0 size)) (rounds (truncated f 0 size)),
  read_loop-missing (truncated f 0 size / page_size + 2) f 0 buff 0 (truncated f 0 size)
      (ground arith) (empty 0),
)
  where
    rounds : (n : ℕ) → n / page_size + 3 ≡ suc (n / page_size + 2)
    rounds n = omega arith
