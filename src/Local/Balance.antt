-- ===== src/Local/Balance.antt =====
-- Whose references the members for binds and their ends take and give back (vfi_local_ops.c).
use vfi.Prelude.{
  ℕ, ◌+◌, ◌≡◌, refl, arith, List, [], ◌∷◌, ◌++◌, total, total-append, Option, none, some,
  if◌then◌else◌, Bool-cases, inl, inr,
}
use vfi.Ops.Model.{ℤ, is_zero, Op, BindDesc, Object, a_dsts, a_srcs}
use vfi.Local.Split.{Fragment}
use vfi.Local.Model.{Site, Effect, found, put, made, deleted, events_asked, Run}
use vfi.Local.Ends.{
  hit, asked_for, dsts_ended, dsts_split, dsts_checked, dsts_found, dsts_made, srcs_ended,
  srcs_split, srcs_checked, srcs_found, srcs_made, go_on, local_dsts_create, local_srcs_create,
  valid_part,
}

-- The references that a log takes, and those that it gives back, where a reference to an object
-- weighs what `w` says: a weight of 1 for one object and 0 for all others counts those of that one.
abbrev pub gain : (Object → ℕ) → Effect → ℕ
gain w (found o) = w o
gain w (made k o) = w o
gain w _ = 0

abbrev pub loss : (Object → ℕ) → Effect → ℕ
loss w (put o) = w o
loss w (deleted k o) = w o
loss w _ = 0

abbrev pub held : (Object → ℕ) → Option Object → ℕ
held w none = 0
held w (some o) = w o

-- A run that begins with references of the weight `n` ends with those of the weight `kept`.
abbrev pub Balance : (Object → ℕ) → Run → ℕ → ℕ → Type 0
Balance w r n kept = n + total (gain w) r.log ≡ total (loss w) r.log + kept

module _ (w : Object → ℕ) where
  gain-asked_for :
      (op : Op) (parent : Object) (fs : List Fragment) (log : List Effect)
      → total (gain w) (asked_for op parent fs ++ log) ≡ total (gain w) log
  gain-asked_for op parent [] log = refl
  gain-asked_for op parent (f ∷ fs) log = omega (arith, gain-asked_for op parent fs log)

  loss-asked_for :
      (op : Op) (parent : Object) (fs : List Fragment) (log : List Effect)
      → total (loss w) (asked_for op parent fs ++ log) ≡ total (loss w) log
  loss-asked_for op parent [] log = refl
  loss-asked_for op parent (f ∷ fs) log = omega (arith, loss-asked_for op parent fs log)

  -- What dsts_create keeps: the dsts, if it succeeds.
  abbrev pub dsts_kept : Run → ℕ
  dsts_kept r = if is_zero r.ret then held w r.obj else 0

  module _ (t : Site) (parent : Object) (d : BindDesc) where
    dsts_ended-Balance :
        (dsts smb : Object) (fs : List Fragment) (stop : Option ℤ)
        → (let r = dsts_ended t parent d dsts smb (asked_for Op.dst_create parent fs) stop in
            Balance w r (w smb + w dsts) (dsts_kept r))
    dsts_ended-Balance dsts smb fs none =
        omega (
          arith,
          gain-asked_for Op.dst_create parent fs _,
          loss-asked_for Op.dst_create parent fs _,
        )
    dsts_ended-Balance dsts smb fs (some r) =
        omega (
          arith,
          gain-asked_for Op.dst_create parent fs _,
          loss-asked_for Op.dst_create parent fs _,
        )

    dsts_split-Balance :
        (dsts smb : Object) (frames : Option (ℕ → ℕ))
        → (let r = dsts_split t parent d dsts smb frames in
            Balance w r (w smb + w dsts) (dsts_kept r))
    dsts_split-Balance dsts smb none = omega arith
    dsts_split-Balance dsts smb (some frame) = dsts_ended-Balance dsts smb _ _

    dsts_checked-Balance :
        (dsts smb : Object)
        → (let r = dsts_checked t parent d dsts smb in Balance w r (w smb + w dsts) (dsts_kept r))
    dsts_checked-Balance dsts smb = elim (Bool-cases (valid_part t smb d.dst)) [
      | inl e ↦ rw e (dsts_split-Balance dsts smb (t.frames smb))
      | inr e ↦ rw e (omega arith)
    ]

    dsts_found-Balance :
        (dsts : Object) (o : Option Object)
        → (let r = dsts_found t parent d dsts o in Balance w r (w dsts) (dsts_kept r))
    dsts_found-Balance dsts none = omega arith
    dsts_found-Balance dsts (some smb) = omega (arith, dsts_checked-Balance dsts smb)

    dsts_made-Balance :
        (o : Option Object) → (let r = dsts_made t parent d o in Balance w r 0 (dsts_kept r))
    dsts_made-Balance none = refl
    dsts_made-Balance (some dsts) =
        omega (arith, dsts_found-Balance dsts (hit (t.find_vfi_smb d.dst)))

    -- dsts_create gives back every reference that it takes, on every way: that of the smb always, and
    -- that of the new dsts if it fails; if it succeeds, the dsts that it hands out is all that it keeps.
    pub dsts_create-Balance : (let r = local_dsts_create t parent d in Balance w r 0 (dsts_kept r))
    unfolding local_dsts_create
    dsts_create-Balance = elim (Bool-cases (is_zero (t.part_events parent d))) [
      | inl e ↦
          rw (e, local_dsts_create)
            (omega (arith, dsts_made-Balance (hit (t.create_bind a_dsts parent d))))
      | inr e ↦ rw (e, local_dsts_create) refl
    ]

    -- The same for srcs, with the object in place of the result.
    srcs_ended-Balance :
        (srcs smb : Object) (fs : List Fragment) (stop : Option ℤ)
        → (let r = srcs_ended t parent d srcs smb (asked_for Op.src_create parent fs) stop in
            Balance w r (w smb + w srcs) (held w r.obj))
    srcs_ended-Balance srcs smb fs none =
        omega (
          arith,
          gain-asked_for Op.src_create parent fs _,
          loss-asked_for Op.src_create parent fs _,
        )
    srcs_ended-Balance srcs smb fs (some r) =
        omega (
          arith,
          gain-asked_for Op.src_create parent fs _,
          loss-asked_for Op.src_create parent fs _,
        )

    abbrev pub Keeps : ℕ → Option Run → Type 0
    Keeps n none = Unit
    Keeps n (some r) = Balance w r n (held w r.obj)

    srcs_split-Keeps :
        (srcs smb : Object) (frames : Option (ℕ → ℕ))
        → Keeps (w smb + w srcs) (srcs_split t parent d srcs smb frames)
    srcs_split-Keeps srcs smb none = tt
    srcs_split-Keeps srcs smb (some frame) = srcs_ended-Balance srcs smb _ _

    srcs_checked-Keeps :
        (srcs smb : Object) → Keeps (w smb + w srcs) (srcs_checked t parent d srcs smb)
    srcs_checked-Keeps srcs smb = elim (Bool-cases (valid_part t smb d.src)) [
      | inl e ↦ rw e (srcs_split-Keeps srcs smb (t.frames smb))
      | inr e ↦ rw e (omega arith)
    ]

    -- What comes before a run takes references of the weight `m` and gives none back.
    go_on-Keeps :
        (log : List Effect) (n m : ℕ) (r : Option Run)
        → n + total (gain w) log ≡ m
        → total (loss w) log ≡ 0
        → Keeps m r
        → Keeps n (go_on log r)
    go_on-Keeps log n m none e z k = tt
    go_on-Keeps log n m (some r) e z k =
        omega (arith, total-append (gain w) log r.log, total-append (loss w) log r.log)

    srcs_found-Keeps :
        (srcs : Object) (ret : ℤ) (o : Option Object)
        → Keeps (w srcs) (srcs_found t parent d srcs ret o)
    srcs_found-Keeps srcs ret none = omega arith
    srcs_found-Keeps srcs ret (some smb) =
        go_on-Keeps (found smb ∷ []) _ _ _ (omega arith) refl (srcs_checked-Keeps srcs smb)

    srcs_made-Keeps : (ret : ℤ) (o : Option Object) → Keeps 0 (srcs_made t parent d ret o)
    srcs_made-Keeps ret none = refl
    srcs_made-Keeps ret (some srcs) = elim (Bool-cases (is_zero (t.part_events parent d))) [
      | inl e ↦ rw e (
          go_on-Keeps (made a_srcs srcs ∷ events_asked parent ∷ []) _ _ _ (omega arith) refl
            (srcs_found-Keeps srcs (t.find_vfi_smb d.src).ret (hit (t.find_vfi_smb d.src))))
      | inr e ↦ rw e (omega arith)
    ]

    -- srcs_create gives back every reference that it takes but that of the srcs that it hands out.
    pub srcs_create-Keeps : Keeps 0 (local_srcs_create t parent d)
    unfolding local_srcs_create
    srcs_create-Keeps = let c = t.create_bind a_srcs parent d in srcs_made-Keeps c.ret (hit c)
