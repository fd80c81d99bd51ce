-- ===== src/Tmpfs/Write.antt =====
-- `tfs_file_write` of userland/servers/tmpfs/tmpfs.c: which bytes a file has after it.
use chcore.Common.{
  Bool, Bool-cases, List, Option-cases, Run, ap, arith, granted, if◌then◌else◌, inl, inr, is_some,
  later_grants, leb, ltb, none, ok, refl, some, suc, true, update, zero, ℕ, ℕ_discrete, ◌%◌, ◌&&◌,
  ◌*◌, ◌+◌, ◌-◌, ◌/◌, ◌<◌, ◌^◌, ◌∙◌, ◌≡◌, ◌≤◌,
}
use chcore.Tmpfs.{
  Bytes, Reg, in_page, memcpy, page_for_write, page_size, resized, sub64, tfs_file_write,
  write_loop, zero_page,
}
use native.Mathlib.Nat.{mod-eq_of_lt}

-- A byte of a file, 0 where there is no page.
abbrev pub byte : Reg → ℕ → ℕ
byte f k = elim (f.pages (k / page_size)) [ none ↦ 0 | some page ↦ page (k % page_size) ]

abbrev pub has_page : Reg → ℕ → Bool
has_page f k = is_some (f.pages (k / page_size))

-- The heap serves the next `n` requests.
abbrev pub serves : ℕ → List Bool → Bool
serves zero grants = true
serves (suc n) grants = granted grants && serves n (later_grants grants)

abbrev pub within : ℕ → ℕ → ℕ → Bool
within from size k = leb from k && ltb k (from + size)

-- The bytes from `cur_off` on are the data's, which begin at `offset`; all other bytes are as
-- before, and the file has the pages that it had and those of the bytes.
abbrev pub Written : Reg → Reg → ℕ → Bytes → ℕ → ℕ → Type 0
Written f f' offset bytes cur_off size =
    (f'.size ≡ f.size)
    × ((k : ℕ) → byte f' k ≡ (if within cur_off size k then bytes (k - offset) else byte f k))
    × ((k : ℕ) → has_page f k ≡ true → has_page f' k ≡ true)
    × ((k : ℕ) → within cur_off size k ≡ true → has_page f' k ≡ true)

pub in_page-le : (cur_off size : ℕ) → in_page cur_off size ≤ size
in_page-le cur_off size = ground arith

-- The file with the part of one page written.
abbrev written_page : Reg → ℕ → Bytes → ℕ → ℕ → Bytes → Reg
written_page f offset bytes cur_off n page = record f {
  pages =
      update f.pages (cur_off / page_size)
        (some (memcpy page (cur_off % page_size) bytes (sub64 cur_off offset) n));
}

-- The write of the part of one page, with the page that it was or a new one.
Written-page :
    (f : Reg) (offset : ℕ) (bytes : Bytes) (cur_off n : ℕ) (page : Bytes)
    → cur_off % page_size + n ≤ page_size
    → offset ≤ cur_off
    → cur_off < 2 ^ 63
    → ((k : ℕ) → k / page_size ≡ cur_off / page_size → page (k % page_size) ≡ byte f k)
    → Written f
        (record f {
          pages =
              update f.pages
                (cur_off / page_size)
                (some (memcpy page (cur_off % page_size) bytes (sub64 cur_off offset) n));
        })
        offset
        bytes
        cur_off
        n
Written-page f offset bytes cur_off n page fits le small same = (
  refl,
  λ k. elim (ℕ_discrete (k / page_size) (cur_off / page_size)) [
    | yes e ↦ elim (Bool-cases (within cur_off n k)) [
      | inl i ↦ ground (arith, e, i, ap bytes (from_start k i))
      | inr o ↦ ground (arith, e, o, same k e)
    ]
    | no ne ↦ ground arith
  ],
  λ k h. ground (arith, h),
  λ k h. ground (arith, h),
)
  where
    from_start :
        (k : ℕ)
        → within cur_off n k ≡ true
        → sub64 cur_off offset + (k % page_size - cur_off % page_size) ≡ k - offset
    from_start k i = ground (arith, i)

Written-append :
    (f f' f'' : Reg) (offset : ℕ) (bytes : Bytes) (cur_off n more size : ℕ)
    → size ≡ n + more
    → Written f f' offset bytes cur_off n
    → Written f' f'' offset bytes (cur_off + n) more
    → Written f f'' offset bytes cur_off size
Written-append f f' f'' offset bytes cur_off n more size e (same, new, kept, made)
      (same', new', kept', made') =
    (
      same' ∙ same,
      λ k. ground (arith, e, new k, new' k),
      λ k h. kept' k (kept k h),
      λ k i. elim (Bool-cases (within cur_off n k)) [
        | inl first ↦ kept' k (made k first)
        | inr later ↦ made' k (ground (arith, e, i, later))
      ],
    )

-- The page that a round writes to: it has the bytes of the file, and the heap serves the others.
abbrev PageFor : Reg → ℕ → ℕ → List Bool → Type 0
PageFor f cur_off fuel grants =
    (page : Bytes) × (rest : List Bool) × (page_for_write (f.pages (cur_off / page_size)) grants
      ≡ ok (page, rest))
    × (serves fuel rest ≡ true)
    × ((k : ℕ) → k / page_size ≡ cur_off / page_size → page (k % page_size) ≡ byte f k)

serves-later : (n : ℕ) (grants : List Bool) → serves (suc n) grants ≡ true → serves n grants ≡ true
serves-later zero grants h = refl
serves-later (suc n) grants h = ground (arith, h, serves-later n (later_grants grants))

page_for_write_lem :
    (f : Reg) (cur_off fuel : ℕ) (grants : List Bool)
    → serves (suc fuel) grants ≡ true
    → PageFor f cur_off fuel grants
page_for_write_lem f cur_off fuel grants h = elim (Option-cases (f.pages (cur_off / page_size))) [
  | inl e ↦ (
    zero_page,
    later_grants grants,
    ground (arith, e, h),
    ground (arith, h),
    λ k same. ground (arith, e, same),
  )
  | inr (page, e) ↦ (
    page,
    grants,
    ground (arith, e),
    serves-later fuel grants h,
    λ k same. ground (arith, e, same),
  )
]

pub below_word :
    (cur_off size : ℕ) → cur_off + size < 2 ^ 63 → cur_off + in_page cur_off size < 2 ^ 64
below_word cur_off size small = omega (arith, in_page-le cur_off size)

write_loop-round :
    (fuel : ℕ) (f : Reg) (offset : ℕ) (bytes : Bytes) (cur_off size : ℕ) (grants : List Bool)
    (page : Bytes) (rest : List Bool) (r : Run (Reg × ℕ × List Bool))
    → 0 < size
    → cur_off + size < 2 ^ 63
    → (page_for_write (f.pages (cur_off / page_size)) grants ≡ ok (page, rest))
    → (write_loop fuel
          (record f {
            pages = update f.pages (cur_off / page_size) (
                some (
                  memcpy page
                    (cur_off % page_size)
                    bytes
                    (sub64 cur_off offset)
                    (in_page cur_off size)));
          })
          offset
          bytes
          (cur_off + in_page cur_off size)
          (size - in_page cur_off size)
          rest
        ≡ r)
    → write_loop (suc fuel) f offset bytes cur_off size grants ≡ r
unfolding write_loop
write_loop-round fuel f offset bytes cur_off size grants page rest r more small found run =
    ground (arith, found, run, mod-eq_of_lt (below_word cur_off size small))

abbrev WriteRun : Run (Reg × ℕ × List Bool) → Reg → ℕ → Bytes → ℕ → ℕ → Type 0
WriteRun run f offset bytes cur_off size =
    (f' : Reg) × (rest : List Bool) × (run ≡ ok (f', cur_off + size, rest))
    × Written f f' offset bytes cur_off size

pub in_page_fits : (cur_off size : ℕ) → cur_off % page_size + in_page cur_off size ≤ page_size
in_page_fits cur_off size = ground arith

pub next_pages :
    (fuel cur_off size : ℕ)
    → cur_off % page_size + size ≤ page_size * suc fuel
    → 0 < size - in_page cur_off size
    → (cur_off + in_page cur_off size) % page_size + (size - in_page cur_off size)
      ≤ page_size * fuel
next_pages fuel cur_off size enough more = ground (arith, enough, more)

write_loop_lem :
    (fuel : ℕ) (f : Reg) (offset : ℕ) (bytes : Bytes) (cur_off size : ℕ) (grants : List Bool)
    → (0 < size → cur_off % page_size + size ≤ page_size * fuel)
    → offset ≤ cur_off
    → cur_off + size < 2 ^ 63
    → serves fuel grants ≡ true
    → WriteRun
        (write_loop (suc fuel) f offset bytes cur_off size grants)
        f
        offset
        bytes
        cur_off
        size
unfolding write_loop
write_loop_lem fuel f offset bytes cur_off zero grants enough le small served = (
  f,
  grants,
  ground arith,
  (refl, λ k. ground arith, λ k h. h, λ k i. absurd (ground (arith, i))),
)
write_loop_lem zero f offset bytes cur_off (suc size) grants enough le small served =
    absurd (omega (arith, enough (omega arith)))
write_loop_lem (suc fuel) f offset bytes cur_off (suc size) grants enough le small served =
    let (page, rest, found, served', same) = page_for_write_lem f cur_off fuel grants served in
    let (f', rest', run, written) =
      write_loop_lem fuel
        (record f {
          pages = update f.pages (cur_off / page_size) (
              some (
                memcpy page (cur_off % page_size) bytes (sub64 cur_off offset)
                  (in_page cur_off (suc size))));
        })
        offset bytes (cur_off + in_page cur_off (suc size)) (suc size - in_page cur_off (suc size))
        rest (next_pages fuel cur_off (suc size) (enough (omega arith))) (omega arith)
        (omega (arith, in_page-le cur_off (suc size))) served' in
    (
      f',
      rest',
      write_loop-round (suc fuel) f offset bytes cur_off (suc size) grants page rest
          (ok (f', cur_off + suc size, rest')) (omega arith) small found
          (run ∙ ap (λ x. ok (f', x, rest')) (omega (arith, in_page-le cur_off (suc size)))),
      Written-append f (written_page f offset bytes cur_off (in_page cur_off (suc size)) page) f'
          offset bytes cur_off (in_page cur_off (suc size)) (suc size - in_page cur_off (suc size))
          (suc size) (omega (arith, in_page-le cur_off (suc size)))
          (Written-page f offset bytes cur_off (in_page cur_off (suc size)) page
            (in_page_fits cur_off (suc size)) le (omega arith) same)
          written,
    )

pub sub64-add : (a b : ℕ) → a + b < 2 ^ 63 → sub64 (a + b) a ≡ b
sub64-add a b small = omega arith

-- What a write leaves: the bytes of the range, all others as before, the pages that there were, and
-- the size, which is raised to the length of the request.
abbrev pub FileWritten : Reg → Reg → ℕ → Bytes → ℕ → Type 0
FileWritten f f' offset bytes size =
    (f'.size ≡ (if ltb f.size size then size else f.size))
    × ((k : ℕ) → byte f' k ≡ (if within offset size k then bytes (k - offset) else byte f k))
    × ((k : ℕ) → has_page f k ≡ true → has_page f' k ≡ true)
    × ((k : ℕ) → within offset size k ≡ true → has_page f' k ≡ true)

tfs_file_write-write_loop :
    (f f' : Reg) (offset : ℕ) (bytes : Bytes) (size : ℕ) (grants rest : List Bool)
    → offset ≤ f.size
    → offset + size < 2 ^ 63
    → (write_loop (size / page_size + 3) f offset bytes offset size grants
        ≡ ok (f', offset + size, rest))
    → tfs_file_write f offset bytes size grants ≡ ok (size, resized f' size, rest)
unfolding tfs_file_write
tfs_file_write-write_loop f f' offset bytes size grants rest le small run =
    ground (arith, run, sub64-add offset size small)

-- For a request that begins within the file and ends below 2^63, whose pages the heap serves,
-- tfs_file_write returns the length; the bytes of the range are those of the request and all others
-- are as before; the pages of the range are there, and those that were; the size is the greater of
-- the old one and the length of the request.
pub tfs_file_write-FileWritten :
    (f : Reg) (offset : ℕ) (bytes : Bytes) (size : ℕ) (grants : List Bool)
    → offset ≤ f.size
    → offset + size < 2 ^ 63
    → serves (size / page_size + 2) grants ≡ true
    → (f' : Reg) × (rest : List Bool) × (tfs_file_write f offset bytes size grants
        ≡ ok (size, f', rest))
      × FileWritten f f' offset bytes size
tfs_file_write-FileWritten f offset bytes size grants le small served =
    let (f', rest, run, written) =
      write_loop_lem (size / page_size + 2) f offset bytes offset size grants (λ more. omega arith)
        (omega arith) small served in
    (
      resized f' size,
      rest,
      tfs_file_write-write_loop f f' offset bytes size grants rest le small
          (ap (λ n. write_loop n f offset bytes offset size grants) (omega arith) ∙ run),
      (ground (arith, written.0), written.1, written.2, written.3),
    )
