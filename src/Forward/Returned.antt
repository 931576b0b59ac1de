-- ===== src/Forward/Returned.antt =====
-- Every member of vfi_fabric_ops.c, with respect to the buffers and descriptions of its replies.
use vfi.Prelude.{ℕ, refl, arith, false, List, [], ◌∷◌, ◌++◌, Option, none, some, bytes}
use vfi.Ops.Model.{ℤ, Op, Object, Desc, BindDesc, a_smb, a_sync, a_xfer, a_bind}
use vfi.Parse.Desc.{get_option}
use vfi.Forward.Model.{Board, Called, replied, failed, Verdict, sent, Run}
use vfi.Forward.Finds.{
  or_ask, sizeless, smb_again, sync_again, local_dst_find, fabric_smb_find, fabric_smb_put,
  fabric_smb_lose, fabric_xfer_find, fabric_xfer_put, fabric_xfer_lose, fabric_sync_find,
  fabric_sync_lose, fabric_sync_send, fabric_sync_wait, fabric_bind_find, fabric_dst_find,
  fabric_src_find, make,
}
use vfi.Forward.Creates.{
  dst_or_new, if_named, lost_error, fabric_smb_create, fabric_xfer_create, fabric_sync_create,
  fabric_bind_create, fabric_dst_create, fabric_src_create,
}
use vfi.Forward.Deletes.{
  fabric_location_delete, fabric_bind_delete, fabric_bind_lose, fabric_sync_delete,
  fabric_dst_delete, fabric_src_delete, fabric_srcs_delete, fabric_dsts_delete, dsts_gone, held,
  released,
}
use vfi.Forward.Requests.{bind_name}
use vfi.Forward.Buffers.{
  Neutral, Named, IsNaming, RunReturned, quiet-Returned, exchange-Returned, asked-Returned,
  answered-Returned, told-Returned, choice-Returned,
}

smb_again-Neutral :
    (b : Board) (parent : Object) (d reply : Desc)
    → Neutral (smb_again b parent d (make b a_smb parent reply)).log
smb_again-Neutral b parent d reply = ground arith

sync_again-Neutral :
    (b : Board) (loc : Object) (d reply : Desc)
    → Neutral (sync_again b loc d (make b a_sync loc reply)).log
sync_again-Neutral b loc d reply = ground arith

or_ask-Returned :
    (o : Option Object) (asked : Option Run)
    → RunReturned false asked
    → RunReturned false (or_ask o asked)
or_ask-Returned none asked h = h
or_ask-Returned (some o) asked h = (refl, refl)

named-Returned :
    (s : Option (List ℕ)) (f : List ℕ → Option Run)
    → ((name : List ℕ) → RunReturned false (f name))
    → RunReturned false (if_named s f)
named-Returned none f h = (refl, refl)
named-Returned (some name) f h = h name

dst_or_new-Neutral :
    (b : Board) (o : Object) (d : BindDesc) (dst : Option Object)
    → Neutral (dst_or_new b o d dst).log
dst_or_new-Neutral b o d none = (refl, refl, refl, refl)
dst_or_new-Neutral b o d (some x) = (refl, refl, refl, refl)

dsts_gone-Neutral :
    (b : Board) (o : Object) (d : BindDesc) (n : Option ℤ) → Neutral (dsts_gone b o d n).log
dsts_gone-Neutral b o d none = (refl, refl, refl, refl)
dsts_gone-Neutral b o d (some n) = ground arith

held-Neutral :
    (b : Board) (dst : Option Object) (loc : Object) (text : List ℕ)
    → Neutral (held dst ++ sent loc text ∷ released dst)
held-Neutral b none loc text = (refl, refl, refl, refl)
held-Neutral b (some o) loc text = (refl, refl, refl, refl)

none_added : Neutral []
none_added = (refl, refl, refl, refl)

lost_error-Named :
    (b : Board) (reader : List ℕ → Verdict BindDesc) (c : Called)
    → Named reader c
    → Named reader (lost_error c)
lost_error-Named b reader (failed e) h = ground arith
lost_error-Named b reader (replied r) h = h

module _ (b : Board) (h : IsNaming b) (o : Object) (d : Desc) where
  pub smb_find-Returned : RunReturned false (fabric_smb_find b o d)
  unfolding fabric_smb_find
  smb_find-Returned =
      or_ask-Returned (b.kset_find_obj o a_smb d.name) _
        (asked-Returned b o _ _ _ _ (h.desc _ Op.smb_find _ refl) (smb_again-Neutral b o d))

  pub smb_put-Returned : RunReturned false (fabric_smb_put b o)
  unfolding fabric_smb_put
  smb_put-Returned = told-Returned b _ _ _ _ _ (h.desc _ Op.smb_put _ refl) (λ x. none_added)

  pub smb_lose-Returned : RunReturned false (fabric_smb_lose b o)
  unfolding fabric_smb_lose
  smb_lose-Returned = told-Returned b _ _ _ _ _ (h.desc _ Op.smb_lose _ refl) (λ x. none_added)

  pub xfer_put-Returned : RunReturned false (fabric_xfer_put b o)
  unfolding fabric_xfer_put
  xfer_put-Returned = told-Returned b _ _ _ _ _ (h.desc _ Op.xfer_put _ refl) (λ x. none_added)

  pub xfer_lose-Returned : RunReturned false (fabric_xfer_lose b o)
  unfolding fabric_xfer_lose
  xfer_lose-Returned = told-Returned b _ _ _ _ _ (h.desc _ Op.xfer_lose _ refl) (λ x. none_added)

  pub sync_lose-Returned : RunReturned false (fabric_sync_lose b o d)
  unfolding fabric_sync_lose
  sync_lose-Returned = told-Returned b _ _ _ _ _ (h.desc _ Op.sync_put _ refl) (λ x. none_added)

  pub location_delete-Returned : RunReturned false (fabric_location_delete b o d)
  unfolding fabric_location_delete
  location_delete-Returned =
      told-Returned b _ _ _ _ _ (h.desc _ Op.location_delete _ refl) (λ x. none_added)

  pub bind_delete-Returned : RunReturned false (fabric_bind_delete b o d)
  unfolding fabric_bind_delete
  bind_delete-Returned =
      told-Returned b _ _ _ _ _ (h.desc _ Op.bind_delete _ refl) (λ x. none_added)

  pub bind_lose-Returned : RunReturned false (fabric_bind_lose b o d)
  unfolding fabric_bind_lose
  bind_lose-Returned = told-Returned b _ _ _ _ _ (h.desc _ Op.bind_lose _ refl) (λ x. none_added)

  pub sync_delete-Returned : RunReturned false (fabric_sync_delete b o d)
  unfolding fabric_sync_delete
  sync_delete-Returned =
      told-Returned b _ _ _ _ _ (h.desc _ Op.sync_delete _ refl) (λ x. none_added)

  pub sync_send-Returned : RunReturned false (fabric_sync_send b o d)
  unfolding fabric_sync_send
  sync_send-Returned = asked-Returned b _ _ _ _ _ (h.desc _ Op.sync_send _ refl) (λ x. none_added)

  pub sync_wait-Returned : RunReturned false (fabric_sync_wait b o d)
  unfolding fabric_sync_wait
  sync_wait-Returned = asked-Returned b _ _ _ _ _ (h.desc _ Op.sync_wait _ refl) (λ x. none_added)

  pub smb_create-Returned : RunReturned false (fabric_smb_create b o d)
  unfolding fabric_smb_create
  smb_create-Returned = asked-Returned b _ _ _ _ _ (h.desc _ Op.smb_create _ refl) (λ x. none_added)

  pub xfer_create-Returned : RunReturned false (fabric_xfer_create b o d)
  unfolding fabric_xfer_create
  xfer_create-Returned =
      asked-Returned b _ _ _ _ _ (h.desc _ Op.xfer_create _ refl) (λ x. none_added)

  pub sync_create-Returned : RunReturned false (fabric_sync_create b o d)
  unfolding fabric_sync_create
  sync_create-Returned =
      asked-Returned b _ _ _ _ _ (h.desc _ Op.sync_create _ refl) (λ x. none_added)

  pub xfer_find-Returned : RunReturned false (fabric_xfer_find b o d)
  unfolding fabric_xfer_find
  xfer_find-Returned =
      or_ask-Returned (b.kset_find_obj o a_xfer d.name) _
        (asked-Returned b o _ _ _ _ (h.desc _ Op.xfer_find _ refl) (λ x. none_added))

  pub sync_find-Returned : RunReturned false (fabric_sync_find b o d)
  unfolding fabric_sync_find
  sync_find-Returned =
      choice-Returned false (b.has_set o a_sync) _ _
        (or_ask-Returned (b.kset_find_obj o a_sync d.name) _ (
          asked-Returned b o _ _ _ _ (h.desc _ Op.sync_find _ refl)
            (λ x. sync_again-Neutral b o d (sizeless x))))
        (refl, refl)

  pub bind_find-Returned : RunReturned false (fabric_bind_find b o d)
  unfolding fabric_bind_find
  bind_find-Returned =
      or_ask-Returned (b.kset_find_obj o a_bind (bind_name b.text d)) _
        (asked-Returned b _ _ _ _ _ (h.bind _ Op.bind_find _ refl) (λ x. none_added))

module _ (b : Board) (h : IsNaming b) (o : Object) (d : BindDesc) where
  pub dst_find-Returned : RunReturned false (fabric_dst_find b o d)
  unfolding fabric_dst_find
  dst_find-Returned =
      or_ask-Returned (local_dst_find b o d) _
        (asked-Returned b _ _ _ _ _ (h.bind _ Op.dst_find _ refl) (λ x. none_added))

  pub src_find-Returned : RunReturned false (fabric_src_find b o d)
  unfolding fabric_src_find
  src_find-Returned = asked-Returned b _ _ _ _ _ (h.bind _ Op.src_find _ refl) (λ x. none_added)

  pub bind_create-Returned : RunReturned false (fabric_bind_create b o d)
  unfolding fabric_bind_create
  bind_create-Returned =
      asked-Returned b _ _ _ _ _ (h.bind _ Op.bind_create _ refl) (λ x. none_added)

  pub src_delete-Returned : RunReturned false (fabric_src_delete b o d)
  unfolding fabric_src_delete
  src_delete-Returned = told-Returned b _ _ _ _ _ (h.bind _ Op.src_delete _ refl) (λ x. none_added)

  pub dst_create-Returned : RunReturned false (fabric_dst_create b o d)
  unfolding fabric_dst_create
  dst_create-Returned = named-Returned (get_option d.src.query (bytes "event_name")) _ (λ name.
      asked-Returned b _ _ _ _ _ (h.bind _ Op.dst_create _ refl)
        (λ reply. dst_or_new-Neutral b o reply (local_dst_find b o reply)))

  pub src_create-Returned : RunReturned false (fabric_src_create b o d)
  unfolding fabric_src_create
  src_create-Returned =
      answered-Returned _ _ _ _ _ (lost_error-Named b _ _ (h.bind _ Op.src_create _ refl))
        none_added (λ x. none_added)

  pub dsts_delete-Returned : RunReturned false (fabric_dsts_delete b o d)
  unfolding fabric_dsts_delete
  dsts_delete-Returned =
      quiet-Returned false _
        (exchange-Returned _ _ b _ _ _ (h.bind _ Op.dsts_delete _ refl) (dsts_gone-Neutral b o))

  pub srcs_delete-Returned : (bind : Object) → RunReturned false (fabric_srcs_delete b bind o d)
  unfolding fabric_srcs_delete
  srcs_delete-Returned bind =
      told-Returned b _ _ _ _ _ (h.bind _ Op.srcs_delete _ refl) (λ x. none_added)

  pub dst_delete-Returned : (dst : Option Object) → RunReturned false (fabric_dst_delete b dst o d)
  unfolding fabric_dst_delete
  dst_delete-Returned dst = quiet-Returned false _ (
      answered-Returned _ _ _ _ _ (h.bind _ Op.dst_delete _ refl) (held-Neutral b dst _ _)
        (λ x. none_added))
