-- ===== src/Forward/Answers.antt =====
-- Which members of vfi_fabric_ops.c give back the result of the other board.
use vfi.Prelude.{
  ℕ, ◌≡◌, refl, sym, ap, arith, Bool, true, false, List, [], ◌∷◌, ◌++◌, Option, none, some,
  if◌then◌else◌, bytes,
}
use vfi.Ops.Model.{ℤ, is_zero, einval, Op, Object, Desc, BindDesc, a_sync, a_xfer, a_bind}
use vfi.Parse.Desc.{get_option}
use vfi.Ops.Dispatch.{line}
use vfi.Forward.Model.{
  Board, Called, replied, failed, Verdict, unparsed, nameless, read, sent, Run, before, read_desc,
  is_eexist,
}
use vfi.Forward.Requests.{at, bind_name, bind_spot, event_name_of}
use vfi.Forward.Finds.{
  or_ask, sizeless, taken_again, sync_again, local_dst_find, make, fabric_xfer_find,
  fabric_sync_find, fabric_sync_send, fabric_sync_wait, fabric_bind_find, fabric_dst_find,
  fabric_src_find,
}
use vfi.Forward.Creates.{
  dst_or_new, if_named, lost_error, fabric_smb_create, fabric_xfer_create, fabric_sync_create,
  fabric_bind_create, fabric_dst_create, fabric_src_create,
}
use vfi.Forward.Events.{
  event_sent, event_called, event_heard, event_result, fabric_event_start, fabric_event_find,
  fabric_event_chain,
}
use vfi.Forward.Table.{Member, serve}
use vfi.Forward.Results.{
  Fails, result_of, told, Agrees, Faithful, RunFaithful, choice-Faithful, answered-Faithful,
  asked-Faithful,
}

or_ask-Faithful :
    (b : Board) (k : Bool) (o : Option Object) (asked : Option Run)
    → RunFaithful b k asked
    → RunFaithful b k (or_ask o asked)
or_ask-Faithful b k none asked h = h
or_ask-Faithful b k (some o) asked h = (tt, tt)

taken_again-Faithful :
    (b : Board) (ret : ℤ) (loc : Object) (d : Desc) (o : Option Object)
    → Faithful b false ret (taken_again (make b a_sync loc d) o).log
taken_again-Faithful b ret loc d none = (tt, tt)
taken_again-Faithful b ret loc d (some o) = (tt, (tt, tt))

sync_again-Faithful :
    (b : Board) (loc : Object) (d reply : Desc) (ret : ℤ)
    → Faithful b false ret (sync_again b loc d (make b a_sync loc reply)).log
sync_again-Faithful b loc d reply ret =
    choice_log (is_eexist (b.create a_sync loc reply).ret) _ _
      (taken_again-Faithful b ret loc reply (b.kset_find_again loc a_sync d.name)) (tt, tt)
  where
    choice_log :
        (c : Bool) (x y : Run)
        → Faithful b false ret x.log
        → Faithful b false ret y.log
        → Faithful b false ret (if c then x else y).log
    choice_log true x y h g = h
    choice_log false x y h g = g

dst_or_new-Faithful :
    (b : Board) (o : Object) (d : BindDesc) (dst : Option Object) (ret : ℤ)
    → Faithful b true ret (dst_or_new b o d dst).log
dst_or_new-Faithful b o d none ret = (tt, tt)
dst_or_new-Faithful b o d (some x) ret = (tt, tt)

named-Faithful :
    (b : Board) (s : Option (List ℕ)) (f : List ℕ → Option Run)
    → ((name : List ℕ) → RunFaithful b true (f name))
    → RunFaithful b true (if_named s f)
named-Faithful b none f h = tt
named-Faithful b (some name) f h = h name

module _ (b : Board) (f : Fails b) (o : Object) (d : Desc) where
  smb_create-Faithful : RunFaithful b false (fabric_smb_create b o d)
  unfolding fabric_smb_create
  smb_create-Faithful = asked-Faithful b false einval refl _ _ _ _ (λ r. refl) f (λ a ret. (tt, tt))

  xfer_create-Faithful : RunFaithful b false (fabric_xfer_create b o d)
  unfolding fabric_xfer_create
  xfer_create-Faithful =
      asked-Faithful b false einval refl _ _ _ _ (λ r. refl) f (λ a ret. (tt, tt))

  sync_create-Faithful : RunFaithful b false (fabric_sync_create b o d)
  unfolding fabric_sync_create
  sync_create-Faithful =
      asked-Faithful b false einval refl _ _ _ _ (λ r. refl) f (λ a ret. (tt, tt))

  sync_send-Faithful : RunFaithful b false (fabric_sync_send b o d)
  unfolding fabric_sync_send
  sync_send-Faithful = asked-Faithful b false einval refl _ _ _ _ (λ r. refl) f (λ a ret. tt)

  sync_wait-Faithful : RunFaithful b false (fabric_sync_wait b o d)
  unfolding fabric_sync_wait
  sync_wait-Faithful = asked-Faithful b false einval refl _ _ _ _ (λ r. refl) f (λ a ret. tt)

  xfer_find-Faithful : RunFaithful b false (fabric_xfer_find b o d)
  unfolding fabric_xfer_find
  xfer_find-Faithful =
      or_ask-Faithful b false (b.kset_find_obj o a_xfer d.name) _
        (asked-Faithful b false einval refl _ _ _ _ (λ r. refl) f (λ a ret. (tt, tt)))

  bind_find-Faithful : RunFaithful b true (fabric_bind_find b o d)
  unfolding fabric_bind_find
  bind_find-Faithful =
      or_ask-Faithful b true (b.kset_find_obj o a_bind (bind_name b.text d)) _
        (asked-Faithful b true einval refl _ _ _ _ (λ r. refl) f (λ a ret. (tt, tt)))

  sync_find-Faithful : RunFaithful b false (fabric_sync_find b o d)
  unfolding fabric_sync_find
  sync_find-Faithful =
      choice-Faithful b false (b.has_set o a_sync) _ _
        (or_ask-Faithful b false (b.kset_find_obj o a_sync d.name) _ (
          asked-Faithful b false einval refl _ _ _ _ (λ r. refl) f
            (λ a ret. sync_again-Faithful b o d (sizeless a) ret)))
        tt

  event_heard-Agrees : (n : Option ℤ) → Agrees n (event_result n)
  event_heard-Agrees none = ground arith
  event_heard-Agrees (some n) = ground arith

  event_read-Faithful :
      (text : List ℕ) (v : Verdict Desc)
      → result_of v ≡ told b false (b.vfi_fabric_call o text)
      → RunFaithful b false (before (sent o text ∷ []) (event_heard v))
  event_read-Faithful text unparsed e = (rw (← e) (event_heard-Agrees none), (tt, (tt, tt)))
  event_read-Faithful text nameless e = tt
  event_read-Faithful text (read a n) e =
      (rw (← e) (event_heard-Agrees n), (tt, (tt, (tt, (tt, tt)))))

  event_called-Faithful :
      (text : List ℕ) (c : Called)
      → b.vfi_fabric_call o text ≡ c
      → RunFaithful b false (before (sent o text ∷ []) (event_called b c))
  event_called-Faithful text (failed e) h = (rw h (event_heard-Agrees none), tt)
  event_called-Faithful text (replied r) h =
      event_read-Faithful text (read_desc b.text r) (ap (told b false) (sym h))

  event-Faithful : (text : List ℕ) → RunFaithful b false (event_sent b o text)
  event-Faithful text = event_called-Faithful text (b.vfi_fabric_call o text) refl

module _ (b : Board) (f : Fails b) (o : Object) (d : BindDesc) where
  dst_find-Faithful : RunFaithful b true (fabric_dst_find b o d)
  unfolding fabric_dst_find
  dst_find-Faithful =
      or_ask-Faithful b true (local_dst_find b o d) _
        (asked-Faithful b true einval refl _ _ _ _ (λ r. refl) f (λ a ret. (tt, tt)))

  src_find-Faithful : RunFaithful b true (fabric_src_find b o d)
  unfolding fabric_src_find
  src_find-Faithful = asked-Faithful b true einval refl _ _ _ _ (λ r. refl) f (λ a ret. (tt, tt))

  bind_create-Faithful : RunFaithful b true (fabric_bind_create b o d)
  unfolding fabric_bind_create
  bind_create-Faithful = asked-Faithful b true einval refl _ _ _ _ (λ r. refl) f (λ a ret. (tt, tt))

  dst_create-Faithful : RunFaithful b true (fabric_dst_create b o d)
  unfolding fabric_dst_create
  dst_create-Faithful = named-Faithful b (get_option d.src.query (bytes "event_name")) _ (λ name.
      asked-Faithful b true einval refl _ _ _ _ (λ r. refl) f
        (λ reply. dst_or_new-Faithful b o reply (local_dst_find b o reply)))

  lost_told : (c : Called) → told b true c ≡ told b true (lost_error c)
  lost_told (replied r) = refl
  lost_told (failed e) = refl

  lost_fails : (c : Called) (e : ℤ) → lost_error c ≡ failed e → is_zero e ≡ false
  lost_fails (replied r) e h = ground (arith, h)
  lost_fails (failed x) e h = ground (arith, h)

  src_create-Faithful : RunFaithful b true (fabric_src_create b o d)
  unfolding fabric_src_create
  src_create-Faithful =
      let c = b.vfi_fabric_call (b.xfer_ploc o) (line Op.src_create (bind_spot b.text d [] [])) in
      answered-Faithful b true einval refl _ _ _ _ (lost_error c) (lost_told c) (λ r. refl)
        (lost_fails c) (λ a ret. (tt, tt))

-- The members that give back a result of the other board: whether the reply is that of a bind.
abbrev pub reply_kind : Member → Option Bool
reply_kind (Member.smb_create o d) = some false
reply_kind (Member.xfer_create o d) = some false
reply_kind (Member.xfer_find o d) = some false
reply_kind (Member.sync_create o d) = some false
reply_kind (Member.sync_find o d) = some false
reply_kind (Member.sync_send o d) = some false
reply_kind (Member.sync_wait o d) = some false
reply_kind (Member.src_create o d) = some true
reply_kind (Member.src_find o d) = some true
reply_kind (Member.dst_create o d) = some true
reply_kind (Member.dst_find o d) = some true
reply_kind (Member.bind_find o d) = some true
reply_kind (Member.bind_create o d) = some true
reply_kind (Member.event_start o d) = some false
reply_kind (Member.event_find o d) = some false
reply_kind (Member.event_chain o d) = some false
reply_kind m = none

abbrev pub FaithfulAs : Board → Option Bool → Option Run → Type 0
FaithfulAs b none r = Unit
FaithfulAs b (some k) r = RunFaithful b k r

-- The members that create or find objects of another board, wait for it, or start, find and chain its
-- events, apart from `smb_find`, `location_find`, `dsts_create` and `srcs_create`: where a command is
-- sent, the result is 0 only if the other board replies the result 0, and any other number that it
-- replies is the result. Calls that fail have an error for it.
pub serve-Faithful : (b : Board) (m : Member) → Fails b → FaithfulAs b (reply_kind m) (serve b m)
unfolding serve fabric_event_start fabric_event_find fabric_event_chain
serve-Faithful b (Member.location_create o d) f = tt
serve-Faithful b (Member.location_find o d) f = tt
serve-Faithful b (Member.location_lose o d) f = tt
serve-Faithful b (Member.location_put o) f = tt
serve-Faithful b (Member.location_delete o d) f = tt
serve-Faithful b (Member.smb_create o d) f = smb_create-Faithful b f o d
serve-Faithful b (Member.smb_find o d) f = tt
serve-Faithful b (Member.smb_delete o) f = tt
serve-Faithful b (Member.smb_put o) f = tt
serve-Faithful b (Member.smb_lose o) f = tt
serve-Faithful b (Member.mmap_create o d) f = tt
serve-Faithful b (Member.mmap_find o d) f = tt
serve-Faithful b (Member.mmap_delete o) f = tt
serve-Faithful b (Member.mmap_put o) f = tt
serve-Faithful b (Member.xfer_create o d) f = xfer_create-Faithful b f o d
serve-Faithful b (Member.xfer_find o d) f = xfer_find-Faithful b f o d
serve-Faithful b (Member.xfer_delete o) f = tt
serve-Faithful b (Member.xfer_put o) f = tt
serve-Faithful b (Member.xfer_lose o) f = tt
serve-Faithful b (Member.sync_create o d) f = sync_create-Faithful b f o d
serve-Faithful b (Member.sync_find o d) f = sync_find-Faithful b f o d
serve-Faithful b (Member.sync_delete o d) f = tt
serve-Faithful b (Member.sync_send o d) f = sync_send-Faithful b f o d
serve-Faithful b (Member.sync_wait o d) f = sync_wait-Faithful b f o d
serve-Faithful b (Member.sync_lose o d) f = tt
serve-Faithful b (Member.sync_put o) f = tt
serve-Faithful b (Member.srcs_create o d) f = tt
serve-Faithful b (Member.src_create o d) f = src_create-Faithful b f o d
serve-Faithful b (Member.src_find o d) f = src_find-Faithful b f o d
serve-Faithful b (Member.dsts_create o d) f = tt
serve-Faithful b (Member.dst_create o d) f = dst_create-Faithful b f o d
serve-Faithful b (Member.dst_find o d) f = dst_find-Faithful b f o d
serve-Faithful b (Member.src_delete o d) f = tt
serve-Faithful b (Member.dsts_delete o d) f = tt
serve-Faithful b (Member.srcs_delete o p d) f = tt
serve-Faithful b (Member.dst_delete o p d) f = tt
serve-Faithful b (Member.bind_find o d) f = bind_find-Faithful b f o d
serve-Faithful b (Member.bind_delete o d) f = tt
serve-Faithful b (Member.bind_lose o d) f = tt
serve-Faithful b (Member.bind_create o d) f = bind_create-Faithful b f o d
serve-Faithful b (Member.src_done o p w) f = tt
serve-Faithful b (Member.dst_done o p w) f = tt
serve-Faithful b (Member.src_ready o p w) f = tt
serve-Faithful b (Member.dst_ready o p w) f = tt
serve-Faithful b (Member.src_events o d) f = tt
serve-Faithful b (Member.dst_events o d) f = tt
serve-Faithful b (Member.src_ev_delete o) f = tt
serve-Faithful b (Member.dst_ev_delete o) f = tt
serve-Faithful b (Member.event_start o d) f = event-Faithful b f o d (line Op.event_start (at d))
serve-Faithful b (Member.event_find o d) f = event-Faithful b f o d (line Op.event_find (at d))
serve-Faithful b (Member.event_chain o d) f =
    event-Faithful b f o d (line Op.event_chain (at d ++ 63 ∷ event_name_of d))
