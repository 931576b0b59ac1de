-- ===== src/Cdev/File.antt =====
-- The state of an open file and the operations on it.
use vfi.Prelude.{
  ℕ, zero, suc, ◌+◌, ◌-◌, Bool, true, false, not, List, [], ◌∷◌, ◌++◌, Option, none, some,
  if◌then◌else◌, ltb, leb, ◌==◌, take, drop,
}
use vfi.Ops.Model.{ℤ, pos, negsuc}

-- `struct mybuffers`: an answer; `reply` is the memory from its field of that name on.
pub record Mybuf : Type 0 where
  pub size : ℕ
  pub reply : List ℕ

-- `struct privdata`
pub record Priv : Type 0 where
  pub readlist : List Mybuf
  pub seeklist : List Mybuf
  pub seekbufs : ℕ
  pub pos : ℤ
  pub is_open : Bool
  pub mybuf : Option Mybuf
  pub offset : ℕ
  pub size : ℕ

-- `vfi_open`
abbrev pub opened : Priv
opened = record {
  readlist = [];
  seeklist = [];
  seekbufs = 0;
  pos = pos 0;
  is_open = true;
  mybuf = none;
  offset = 0;
  size = 0;
}

abbrev pub drop_last : List Mybuf → List Mybuf
drop_last [] = []
drop_last (b ∷ []) = []
drop_last (b ∷ c ∷ bs) = b ∷ drop_last (c ∷ bs)

-- An answer that is read to its end can be read again, until 17 younger ones are.
unfoldable pub retire : Mybuf → Priv → Priv
retire b p =
    let kept = b ∷ p.seeklist in
    if ltb 16 p.seekbufs
    then record p { mybuf = none; seeklist = drop_last kept }
    else record p { mybuf = none; seeklist = kept; seekbufs = p.seekbufs + 1 }

-- The answer to read from: the current one, or else the oldest that has not been read.
unfoldable pub current : Priv → Option (Mybuf × Priv)
current p = elim p.mybuf [
  | some b ↦ some (b, p)
  | none ↦ elim p.readlist [
    | [] ↦ none
    | b ∷ bs ↦ some (b, record p { readlist = bs; mybuf = some b; size = b.size; offset = 0 })
  ]
]

-- One pass of the loop of `vfi_read`, of whose bytes `copy_to_user` leaves `uncopied`: the number of
-- bytes that the caller gets, and the state after it.
unfoldable pub serve : ℕ → ℕ → Mybuf → Priv → ℕ × Priv
serve count uncopied b p =
    let left = p.size - p.offset in
    let copied = if ltb count left then count else left in
    if not (uncopied == 0)
    then (copied - uncopied, record p { offset = p.offset + (copied - uncopied) })
    else if ltb count left
    then (copied, record p { offset = p.offset + copied })
    else (left, retire b p)

pub data Got : Type 0 where
  chunk : List ℕ → Priv → Got
  nothing : Priv → Got
  out_of_fuel : Got

-- The position after a read that has given something.
abbrev pub moved : ℕ → Priv → Priv
moved n p = record p { pos = pos n }

-- `vfi_read` at a position of the file; `uncopied` gives what `copy_to_user` leaves in each pass.
unfoldable pub read : ℕ → ℕ → (ℕ → ℕ) → ℕ → Priv → Got
read zero count uncopied at p = out_of_fuel
read (suc fuel) count uncopied at p = elim (current p) [
  | none ↦ nothing p
  | some (b, q) ↦
      let (n, r) = serve count (uncopied fuel) b q in
      let again = read fuel count uncopied at r in
      if n == 0 then again else chunk (take n (drop q.offset b.reply)) (moved (at + n) r)
]

-- `queue_to_read`
unfoldable pub queue_to_read : Priv → Mybuf → Priv
queue_to_read p b = if p.is_open then record p { readlist = p.readlist ++ b ∷ [] } else p

pub data Origin : Type 0 where
  set cur end : Origin

-- `z - n`
abbrev minus : ℤ → ℕ → ℤ
minus (pos m) n = if leb n m then pos (m - n) else negsuc (n - m - 1)
minus (negsuc m) n = negsuc (m + n)

-- `vfi_llseek` by `back` bytes backwards; 0 sets the position, and other seeks are refused.
unfoldable pub llseek : Origin → ℕ → Priv → Priv
llseek cur zero p = record p { pos = pos 0 }
llseek cur (suc back) p = elim p.seeklist [
  | [] ↦ p
  | b ∷ bs ↦ record p {
    seeklist = bs;
    readlist = b ∷ p.readlist;
    seekbufs = p.seekbufs - 1;
    pos = minus p.pos (suc back);
  }
]
llseek set back p = p
llseek end back p = p

-- `vfi_release`; the answer that is being read stays.
unfoldable pub release : Priv → Priv
release p = record p { is_open = false; readlist = []; seeklist = []; seekbufs = 0; pos = pos 0 }

-- What `vfi_poll` says of reading.
unfoldable pub readable : Priv → Bool
readable p = elim p.mybuf [ some b ↦ true | none ↦ elim p.readlist [ [] ↦ false | b ∷ bs ↦ true ] ]
