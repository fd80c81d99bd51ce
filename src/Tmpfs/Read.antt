-- ===== src/Tmpfs/Read.antt =====
-- `tfs_file_read` of userland/servers/tmpfs/tmpfs.c, and that it finds what was written.
use chcore.Common.{
  Bool-cases, Option-cases, Run, ap, arith, if◌then◌else◌, inl, inr, ltb, ok, some, suc, true, zero,
  ℕ, ◌%◌, ◌*◌, ◌+◌, ◌-◌, ◌/◌, ◌<◌, ◌^◌, ◌∙◌, ◌≡◌, ◌≤◌,
}
use chcore.Tmpfs.{
  Bytes, Reg, in_page, memcpy, page_size, read_loop, sub64, tfs_file_read, truncated,
}
use chcore.Tmpfs.Write.{
  below_word, byte, has_page, in_page-le, in_page_fits, next_pages, sub64-add, within,
}
use native.Mathlib.Nat.{mod-eq_of_lt}

-- The buffer has the bytes of the file from `cur_off` on, at their places from `offset` on.
abbrev Filled : Reg → ℕ → Bytes → Bytes → ℕ → ℕ → Type 0
Filled f offset buff buff' cur_off size =
    (i : ℕ) → buff' i ≡ (if within (cur_off - offset) size i then byte f (offset + i) else buff i)

Filled-page :
    (f : Reg) (offset : ℕ) (buff : Bytes) (cur_off n : ℕ) (page : Bytes)
    → f.pages (cur_off / page_size) ≡ some page
    → cur_off % page_size + n ≤ page_size
    → offset ≤ cur_off
    → cur_off < 2 ^ 63
    → Filled f offset buff
        (memcpy buff (sub64 cur_off offset) page (cur_off % page_size) n)
        cur_off
        n
Filled-page f offset buff cur_off n page e fits le small i =
    elim (Bool-cases (within (cur_off - offset) n i)) [
      | inl h ↦ ground (arith, h, sub, e, ap f.pages (same_page h), ap page (place h))
      | inr o ↦ ground (arith, o, sub)
    ]
  where
    sub : sub64 cur_off offset ≡ cur_off - offset
    sub = omega arith

    same_page :
        within (cur_off - offset) n i ≡ true → (offset + i) / page_size ≡ cur_off / page_size
    same_page h = ground (arith, h)

    place :
        within (cur_off - offset) n i ≡ true
        → cur_off % page_size + (i - (cur_off - offset)) ≡ (offset + i) % page_size
    place h = ground (arith, h)

read_loop-round :
    (fuel : ℕ) (f : Reg) (offset : ℕ) (buff : Bytes) (cur_off size : ℕ) (page : Bytes)
    (r : Run (Bytes × ℕ))
    → 0 < size
    → cur_off + size < 2 ^ 63
    → f.pages (cur_off / page_size) ≡ some page
    → (read_loop fuel f offset
          (memcpy buff (sub64 cur_off offset) page (cur_off % page_size) (in_page cur_off size))
          (cur_off + in_page cur_off size)
          (size - in_page cur_off size)
        ≡ r)
    → read_loop (suc fuel) f offset buff cur_off size ≡ r
unfolding read_loop
read_loop-round fuel f offset buff cur_off size page r more small e run =
    ground (arith, e, run, mod-eq_of_lt (below_word cur_off size small))

Filled-append :
    (f : Reg) (offset : ℕ) (buff buff' buff'' : Bytes) (cur_off n more size : ℕ)
    → offset ≤ cur_off
    → size ≡ n + more
    → Filled f offset buff buff' cur_off n
    → Filled f offset buff' buff'' (cur_off + n) more
    → Filled f offset buff buff'' cur_off size
Filled-append f offset buff buff' buff'' cur_off n more size le e first rest i =
    ground (arith, e, first i, rest i)

read_loop_lem :
    (fuel : ℕ) (f : Reg) (offset : ℕ) (buff : Bytes) (cur_off size : ℕ)
    → (0 < size → cur_off % page_size + size ≤ page_size * fuel)
    → offset ≤ cur_off
    → cur_off + size < 2 ^ 63
    → ((k : ℕ) → within cur_off size k ≡ true → has_page f k ≡ true)
    → (buff' : Bytes) × (read_loop (suc fuel) f offset buff cur_off size
        ≡ ok (buff', cur_off + size))
      × Filled f offset buff buff' cur_off size
unfolding read_loop
read_loop_lem fuel f offset buff cur_off zero enough le small there =
    (buff, ground arith, λ i. ground arith)
read_loop_lem zero f offset buff cur_off (suc size) enough le small there =
    absurd (omega (arith, enough (omega arith)))
read_loop_lem (suc fuel) f offset buff cur_off (suc size) enough le small there =
    elim (Option-cases (f.pages (cur_off / page_size))) [
      | inl e ↦ absurd (ground (arith, e, there cur_off (ground arith)))
      | inr (page, e) ↦
          let (buff', run, filled) =
            read_loop_lem fuel f offset
              (memcpy buff (sub64 cur_off offset) page (cur_off % page_size)
                (in_page cur_off (suc size)))
              (cur_off + in_page cur_off (suc size)) (suc size - in_page cur_off (suc size))
              (next_pages fuel cur_off (suc size) (enough (omega arith))) (omega arith)
              (omega (arith, in_page-le cur_off (suc size)))
              (λ k h. there k (ground (arith, h, in_page-le cur_off (suc size)))) in
          (
            buff',
            read_loop-round (suc fuel) f offset buff cur_off (suc size) page
                (ok (buff', cur_off + suc size)) (omega arith) small e
                (run ∙ ap (λ x. ok (buff', x)) (omega (arith, in_page-le cur_off (suc size)))),
            Filled-append f offset buff
                (memcpy buff (sub64 cur_off offset) page (cur_off % page_size)
                  (in_page cur_off (suc size)))
                buff' cur_off (in_page cur_off (suc size)) (suc size - in_page cur_off (suc size))
                (suc size) le (omega (arith, in_page-le cur_off (suc size)))
                (Filled-page f offset buff cur_off (in_page cur_off (suc size)) page e
                  (in_page_fits cur_off (suc size)) le (omega arith))
                filled,
          )
    ]

-- How much of a request there is in the file.
abbrev pub readable : Reg → ℕ → ℕ → ℕ
readable f offset size = if ltb f.size (offset + size) then f.size - offset else size

truncated_eq :
    (f : Reg) (offset size : ℕ)
    → offset ≤ f.size
    → f.size < 2 ^ 63
    → offset + size < 2 ^ 63
    → truncated f offset size ≡ readable f offset size
truncated_eq f offset size le small small' = ground arith

readable_small :
    (f : Reg) (offset size : ℕ)
    → offset ≤ f.size
    → f.size < 2 ^ 63
    → offset + size < 2 ^ 63
    → offset + readable f offset size < 2 ^ 63
readable_small f offset size le small small' = ground arith

pub tfs_file_read-read_loop :
    (f : Reg) (offset : ℕ) (buff buff' : Bytes) (size n : ℕ)
    → offset ≤ f.size
    → offset + n < 2 ^ 63
    → truncated f offset size ≡ n
    → read_loop (n / page_size + 3) f offset buff offset n ≡ ok (buff', offset + n)
    → tfs_file_read f offset buff size ≡ ok (n, buff')
unfolding tfs_file_read
tfs_file_read-read_loop f offset buff buff' size n le small e run =
    ground (arith, e, run, sub64-add offset n small)

-- For a request that begins within a file of less than 2^63 bytes and ends below 2^63, where the
-- pages that it needs are there, tfs_file_read returns the length cut at the end of the file, and
-- the buffer has just that many bytes of the file from the offset on; beyond them it is as before.
pub tfs_file_read_lem :
    (f : Reg) (offset : ℕ) (buff : Bytes) (size : ℕ)
    → offset ≤ f.size
    → f.size < 2 ^ 63
    → offset + size < 2 ^ 63
    → ((k : ℕ) → within offset (readable f offset size) k ≡ true → has_page f k ≡ true)
    → (buff' : Bytes) × (tfs_file_read f offset buff size ≡ ok (readable f offset size, buff'))
      × ((i : ℕ)
          → buff' i ≡ (if ltb i (readable f offset size) then byte f (offset + i) else buff i))
tfs_file_read_lem f offset buff size le small small' there =
    let (buff', run, filled) =
      read_loop_lem (readable f offset size / page_size + 2) f offset buff offset
        (readable f offset size) (λ more. omega arith) (omega arith)
        (readable_small f offset size le small small') there in
    (
      buff',
      tfs_file_read-read_loop f offset buff buff' size (readable f offset size) le
          (readable_small f offset size le small small')
          (truncated_eq f offset size le small small')
          (ap (λ m. read_loop m f offset buff offset (readable f offset size)) (omega arith) ∙ run),
      λ i. ground (arith, filled i),
    )
