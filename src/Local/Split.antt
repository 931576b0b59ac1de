-- ===== src/Local/Split.antt =====
-- How the two ends of a bind are split by pages: the macros of vfi_smb.h and the loops of
-- `vfi_local_dsts_create` and `vfi_local_srcs_create` (vfi_local_ops.c).
use vfi.Prelude.{
  ℕ, zero, suc, ◌+◌, ◌-◌, ◌*◌, ◌/◌, ◌%◌, ◌^◌, Bool, not, ◌&&◌, List, Option, none, some, [], ◌∷◌,
  if◌then◌else◌, ltb, leb, ◌==◌,
}
use vfi.Ops.Model.{ℤ}

-- The macros take a buffer and a part of it. `b` is the offset of the buffer, `d` and `n` are the offset
-- and extent of the part, and pages have 4096 bytes.
unfoldable pub desc_valid : ℕ → ℕ → ℕ → Bool
desc_valid size d n = leb ((d + n) % 2 ^ 64) size

unfoldable pub start_page : ℕ → ℕ → ℕ
start_page b d = (b + d) % 2 ^ 64 / 4096

unfoldable pub end_page : ℕ → ℕ → ℕ → ℕ
end_page b d n = (b + d + n + 2 ^ 64 - 1) % 2 ^ 64 / 4096

unfoldable pub start_offset : ℕ → ℕ → ℕ
start_offset b d = (b + d) % 2 ^ 64 % 4096

unfoldable pub start_size : ℕ → ℕ → ℕ → ℕ
unfolding start_offset
start_size b d n = let avail = 4096 - start_offset b d in if ltb n avail then n else avail

unfoldable pub end_size : ℕ → ℕ → ℕ → ℕ
end_size b d n = let apsize = (b + d + n) % 2 ^ 64 % 4096 in if ltb n apsize then 0 else apsize

-- The number of pages is an `int` in the loops.
unfoldable pub num_dma : ℕ → ℕ → ℕ → ℕ
unfolding end_page start_page
num_dma b d n = (end_page b d n + 1 - start_page b d) % 2 ^ 32

-- A fragment: where it lies in memory, its extent, and the place on the other side that goes with it
-- (`src.offset` for a dst, and the address of the dst, kept in `dst.extent`, for a src).
pub record Fragment : Type 0 where
  pub address : ℕ
  pub extent : ℕ
  pub peer : ℕ

-- The bytes in the next page, if `left` more pages follow that one.
abbrev pub next_size : ℕ → ℕ → ℕ
next_size end left = if left == 0 && not (end == 0) then end else 4096

-- One call of `dst_create` or `src_create`, and what the loop asked for after it. The call returns
-- whether the loop goes on, and its result, which is kept if the loop stops. A loop of
-- `vfi_local_dsts_create` goes on if the result is 0, one of `vfi_local_srcs_create` if `src` is set.
abbrev pub created :
    (Fragment → Bool × ℤ) → Fragment → List Fragment × Option ℤ → List Fragment × Option ℤ
created create f (fs, ret) =
    let (go, r) = create f in if go then (f ∷ fs, ret) else (f ∷ [], some r)

-- The loop and the jump to `join` inside of it. `page` is the last page of the fragment that is open,
-- and `left` pages follow it; `frame` has the numbers of the page frames, so that two pages are adjacent
-- in memory if their frames are, and a page begins at 4096 times its frame, which fits into 64 bits. `width` is the modulus
-- of the variable that counts on the other side.
unfoldable pub split :
    (ℕ → ℕ) → ℕ → ℕ → (Fragment → Bool × ℤ) → ℕ → ℕ → Fragment → List Fragment × Option ℤ
split frame end width create zero page f = created create f ([], none)
split frame end width create (suc left) page f =
    let joined =
      split frame end width create left (page + 1)
        (record f { extent = (f.extent + next_size end left) % 2 ^ 32 }) in
    let apart = split frame end width create left (page + 1) (record {
      address = frame (page + 1) * 4096;
      extent = next_size end left;
      peer = (f.peer + f.extent) % width;
    }) in
    if frame page + 1 == frame (page + 1) then joined else created create f apart

-- The loop from its start: no fragment if there is no page.
abbrev pub split_from :
    (ℕ → ℕ) → ℕ → ℕ → (Fragment → Bool × ℤ) → ℕ → ℕ → ℕ → ℕ → ℕ → List Fragment × Option ℤ
split_from frame end width create zero page offset size peer = ([], none)
split_from frame end width create (suc left) page offset size peer =
    split frame end width create left page
      (record { address = offset + frame page * 4096; extent = size; peer = peer })

-- The fragments of a dst: `peer` is the offset of the src, a `u64`.
unfoldable pub split_dst :
    (ℕ → ℕ) → (Fragment → Bool × ℤ) → ℕ → ℕ → ℕ → ℕ → List Fragment × Option ℤ
unfolding split num_dma start_page start_offset start_size end_size
split_dst frame create b d n src =
    split_from frame (end_size b d n) (2 ^ 64) create (num_dma b d n) (start_page b d)
      (start_offset b d) (start_size b d n) src

-- The fragments of a src: `peer` is the address of the dst, cut to an `unsigned int`.
unfoldable pub split_src :
    (ℕ → ℕ) → (Fragment → Bool × ℤ) → ℕ → ℕ → ℕ → ℕ → List Fragment × Option ℤ
unfolding split num_dma start_page start_offset start_size end_size
split_src frame create b d n dst =
    split_from frame (end_size b d n) (2 ^ 32) create (num_dma b d n) (start_page b d)
      (start_offset b d) (start_size b d n) (dst % 2 ^ 32)
