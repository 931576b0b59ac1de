-- ===== src/Ops/Lines.antt =====
-- Which command lines run which handler.
use vfi.Prelude.{
  ℕ, suc, ◌+◌, ◌≡◌, ◌↔◌, refl, sym, ap, ap₂, subst, ◌∙◌, arith, Bool, true, false, not, ◌&&◌, ◌==◌,
  List, [], ◌∷◌, ◌++◌, Option, none, some, if◌then◌else◌, ltb, length, take, drop, drop-drop, bytes,
  strstr, starts_with, str_eq, str_eq-true,
}
use mathlib.Core.Option.{map}
use vfi.Ops.Model.{Op, Driver, Outcome}
use vfi.Ops.Dispatch.{
  line, handler, name, ops, find_op, max_op_len, ran, run_op, split_at, do_operation,
}

abbrev colonless : List ℕ → Bool
colonless [] = true
colonless (c ∷ s) = not (c == 58) && colonless s

strstr-colonless :
    (s rest : List ℕ)
    → colonless s ≡ true
    → strstr (s ++ (bytes "://" ++ rest)) (bytes "://") ≡ some (length s)
strstr-colonless [] rest h = refl
strstr-colonless (c ∷ s) rest h = ground (arith, strstr-colonless s rest)

take-length : (s t : List ℕ) → take (length s) (s ++ t) ≡ s
take-length [] t = refl
take-length (c ∷ s) t = ap (◌∷◌ c) (take-length s t)

drop-length : (s t : List ℕ) (n : ℕ) → drop (length s + n) (s ++ t) ≡ drop n t
drop-length [] t n = ap (λ k. drop k t) (omega arith)
drop-length (c ∷ s) t n =
    let e : suc (length s) + n ≡ suc (length s + n) = omega arith in
    ap (λ k. drop k (c ∷ s ++ t)) e ∙ drop-length s t n

-- A row of the table: its name has no colon, is not longer than `MAX_OP_LEN`, and is found there.
row-fits :
    (op : Op)
    → (colonless (bytes (name op)) ≡ true)
      × (ltb max_op_len (length (bytes (name op))) ≡ false)
      × (find_op (bytes (name op)) ops ≡ some op)
unfolding str_eq
row-fits Op.event_start = (refl, refl, refl)
row-fits Op.event_find = (refl, refl, refl)
row-fits Op.event_chain = (refl, refl, refl)
row-fits Op.location_create = (refl, refl, refl)
row-fits Op.location_delete = (refl, refl, refl)
row-fits Op.location_find = (refl, refl, refl)
row-fits Op.location_put = (refl, refl, refl)
row-fits Op.smb_create = (refl, refl, refl)
row-fits Op.smb_delete = (refl, refl, refl)
row-fits Op.smb_find = (refl, refl, refl)
row-fits Op.smb_put = (refl, refl, refl)
row-fits Op.smb_lose = (refl, refl, refl)
row-fits Op.mmap_create = (refl, refl, refl)
row-fits Op.mmap_delete = (refl, refl, refl)
row-fits Op.mmap_find = (refl, refl, refl)
row-fits Op.mmap_put = (refl, refl, refl)
row-fits Op.sync_create = (refl, refl, refl)
row-fits Op.sync_delete = (refl, refl, refl)
row-fits Op.sync_find = (refl, refl, refl)
row-fits Op.sync_put = (refl, refl, refl)
row-fits Op.sync_send = (refl, refl, refl)
row-fits Op.sync_wait = (refl, refl, refl)
row-fits Op.xfer_create = (refl, refl, refl)
row-fits Op.xfer_delete = (refl, refl, refl)
row-fits Op.xfer_find = (refl, refl, refl)
row-fits Op.xfer_put = (refl, refl, refl)
row-fits Op.xfer_lose = (refl, refl, refl)
row-fits Op.bind_create = (refl, refl, refl)
row-fits Op.bind_delete = (refl, refl, refl)
row-fits Op.bind_find = (refl, refl, refl)
row-fits Op.bind_lose = (refl, refl, refl)
row-fits Op.dsts_create = (refl, refl, refl)
row-fits Op.dsts_delete = (refl, refl, refl)
row-fits Op.dsts_find = (refl, refl, refl)
row-fits Op.dst_create = (refl, refl, refl)
row-fits Op.dst_delete = (refl, refl, refl)
row-fits Op.dst_find = (refl, refl, refl)
row-fits Op.srcs_create = (refl, refl, refl)
row-fits Op.srcs_delete = (refl, refl, refl)
row-fits Op.srcs_find = (refl, refl, refl)
row-fits Op.src_create = (refl, refl, refl)
row-fits Op.src_delete = (refl, refl, refl)
row-fits Op.src_find = (refl, refl, refl)

pub runs-line :
    (d : Driver) (op : Op) (rest : List ℕ) (wanted : Bool)
    → do_operation d (line op rest) wanted ≡ ran (handler op d rest wanted)
unfolding do_operation
runs-line d op rest wanted =
    let (plain, short, here) = row-fits op in
    let s = bytes (name op) in
    ap (split_at d (line op rest) wanted) (strstr-colonless s rest plain)
    ∙ rw short (
        ap₂ (λ args test. run_op d (line op rest) args wanted (find_op test ops))
          (drop-length s (bytes "://" ++ rest) 3) (take-length s (bytes "://" ++ rest))
        ∙ ap (run_op d (line op rest) rest wanted) here)

find_op_sound :
    (test : List ℕ) (table : List Op) (op : Op)
    → find_op test table ≡ some op
    → test ≡ bytes (name op)
find_op_sound test [] op h = ground arith
find_op_sound test (o ∷ table) op h =
    by_test (str_eq test (bytes (name o))) refl h (find_op_sound test table op)
  where
    by_test :
        (c : Bool)
        → str_eq test (bytes (name o)) ≡ c
        → (if c then some o else find_op test table) ≡ some op
        → (find_op test table ≡ some op → test ≡ bytes (name op))
        → test ≡ bytes (name op)
    by_test true e f g =
        let same : o ≡ op = ground (arith, f) in
        str_eq-true test (bytes (name o)) e ∙ ap (λ x. bytes (name x)) same
    by_test false e f g = g f

some_inj : {i j : ℕ} → some i ≡ some j → i ≡ j
some_inj {i} {j} h = ground (arith, h)

starts_with-split : (s t : List ℕ) → starts_with s t ≡ true → s ≡ t ++ drop (length t) s
starts_with-split s [] h = refl
starts_with-split [] (d ∷ t) h = ground arith
starts_with-split (c ∷ s) (d ∷ t) h = ground (arith, starts_with-split s t)

strstr-split :
    (s t : List ℕ) (n : ℕ) → strstr s t ≡ some n → s ≡ take n s ++ (t ++ drop (length t) (drop n s))
strstr-split [] t n h = ground (arith, starts_with-split [] t)
strstr-split (c ∷ s) t n h = by_prefix (starts_with (c ∷ s) t) refl h (strstr-split s t)
  where
    Split : ℕ → Type 0
    Split k = c ∷ s ≡ take k (c ∷ s) ++ (t ++ drop (length t) (drop k (c ∷ s)))

    by_rest :
        (r : Option ℕ)
        → strstr s t ≡ r
        → map suc r ≡ some n
        → ((m : ℕ) → strstr s t ≡ some m → s ≡ take m s ++ (t ++ drop (length t) (drop m s)))
        → Split n
    by_rest none q f g = ground (arith, f)
    by_rest (some m) q f g = subst Split (some_inj f) (ap (◌∷◌ c) (g m q))

    by_prefix :
        (b : Bool)
        → starts_with (c ∷ s) t ≡ b
        → (if b then some 0 else map suc (strstr s t)) ≡ some n
        → ((m : ℕ) → strstr s t ≡ some m → s ≡ take m s ++ (t ++ drop (length t) (drop m s)))
        → c ∷ s ≡ take n (c ∷ s) ++ (t ++ drop (length t) (drop n (c ∷ s)))
    by_prefix true e f g = subst Split (some_inj f) (starts_with-split (c ∷ s) t e)
    by_prefix false e f g = by_rest (strstr s t) refl f g

ran_inj : {a b : Option Outcome} → ran a ≡ ran b → a ≡ b
ran_inj {a} {b} h = ground (arith, h)

-- The line is that of a command, whose handler comes to `o`.
abbrev pub Runs : Driver → List ℕ → Bool → Option Outcome → Type 0
Runs d cmd wanted o =
    (op : Op) × (rest : List ℕ) × (cmd ≡ line op rest) × (handler op d rest wanted ≡ o)

-- `do_operation` runs the handler of a command exactly on the lines that are that command's name, "://" and a rest, and gives the handler the rest.
pub do_operation_lem :
    (d : Driver) (cmd : List ℕ) (wanted : Bool) (o : Option Outcome)
    → (do_operation d cmd wanted ≡ ran o) ↔ Runs d cmd wanted o
unfolding do_operation
do_operation_lem d cmd wanted o = (
  λ h. by_strstr (strstr cmd (bytes "://")) refl h,
  λ (op, rest, e, h).
      subst (λ c. do_operation d c wanted ≡ ran o) (sym e) (runs-line d op rest wanted ∙ ap ran h),
)
  where
    by_op :
        (n : ℕ) (q : Option Op)
        → strstr cmd (bytes "://") ≡ some n
        → find_op (take n cmd) ops ≡ q
        → run_op d cmd (drop (n + 3) cmd) wanted q ≡ ran o
        → Runs d cmd wanted o
    by_op n none s f h = ground (arith, h)
    by_op n (some op) s f h = (
      op,
      drop (n + 3) cmd,
      strstr-split cmd (bytes "://") n s
          ∙ ap₂ (λ x y. x ++ (bytes "://" ++ y)) (find_op_sound (take n cmd) ops op f)
              (drop-drop cmd n 3),
      ran_inj h,
    )

    by_length :
        (n : ℕ) (b : Bool)
        → strstr cmd (bytes "://") ≡ some n
        → (if b
            then run_op d cmd [] wanted none
            else run_op d cmd (drop (n + 3) cmd) wanted (find_op (take n cmd) ops))
          ≡ ran o
        → Runs d cmd wanted o
    by_length n true s h = ground (arith, h)
    by_length n false s h = by_op n (find_op (take n cmd) ops) s refl h

    by_strstr :
        (r : Option ℕ)
        → strstr cmd (bytes "://") ≡ r
        → split_at d cmd wanted r ≡ ran o
        → Runs d cmd wanted o
    by_strstr none s h = ground (arith, h)
    by_strstr (some n) s h = by_length n (ltb max_op_len n) s h
