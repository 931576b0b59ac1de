-- ===== src/Ops/Tests.antt =====
-- A driver with one location, whose buffer, transfer agent and bind are found at once.
use vfi.Prelude.{◌≡◌, ◌↔◌, refl, arith, true, [], ◌∷◌, none, some, bytes, str_eq}
use vfi.Ops.Model.{
  pos, Op, Vtable, Desc, Kind, Object, Lookup, Driver, found, put, invoked, cleaned, the_object,
  Params, Outcome,
}
use vfi.Ops.Frame.{with_desc, finish, ask}
use vfi.Ops.Buffers.{smb_create}
use vfi.Ops.Dispatch.{ran, not_found, do_operation}
use vfi.Ops.References.{Settled, IsCareful}
use vfi.Ops.Settled.{handler-Settled}
use vfi.Ops.Lines.{Runs, do_operation_lem}

abbrev parsed : Desc
parsed = record {
  name = bytes "buf";
  location = some (bytes "board");
  offset = 0;
  extent = 4096;
  query = [];
  ops = none;
}

abbrev obj : Kind → Object
obj k = record { kind = k; address = 65536 }

abbrev hit : Kind → Lookup
hit k = record { ret = pos 0; obj = some (obj k) }

abbrev pub board : Driver
board = record {
  vfi_parse_desc = λ s. (pos 0, parsed);
  vfi_parse_bind = λ s. (pos 0, record { xfer = parsed; dst = parsed; src = parsed });
  locate_vfi_location = λ p. hit Kind.a_location;
  find_vfi_name = λ p. hit Kind.a_location;
  kset_find_obj = λ s. some (obj Kind.a_location);
  find_vfi_smb = λ p. hit Kind.a_smb;
  find_vfi_sync = λ p. hit Kind.a_sync;
  find_vfi_xfer = λ p. hit Kind.a_xfer;
  find_vfi_bind = λ p. hit Kind.a_bind;
  find_vfi_dst = λ p. hit Kind.a_dst;
  desc_ops = λ o. some Vtable.local;
  dst_ops = λ o. some Vtable.fabric;
  src_ops = λ o. some Vtable.fabric;
  invoke = λ v op o. hit Kind.a_mmap;
  vfi_dst_parent = λ o. obj Kind.a_bind;
  src_done_event = λ o. some 3;
  dst_done_event = λ o. none;
}

board-IsCareful : IsCareful board
board-IsCareful = record {
  location = λ p e. ground arith;
  smb = λ p e. ground arith;
  sync = λ p e. ground arith;
  xfer = λ p e. ground arith;
  bind = λ p e. ground arith;
  dst = λ p e. ground arith;
}

abbrev created_outcome : Outcome
created_outcome = record {
  ret = pos 0;
  reply = some (record {
    op = Op.smb_create;
    quoted = the_object (obj Kind.a_mmap);
    ret = pos 0;
    params = Params.of_desc parsed;
  });
  log =
      found (obj Kind.a_location)
      ∷ invoked Vtable.local Op.smb_create (some (obj Kind.a_location))
      ∷ put (obj Kind.a_location)
      ∷ cleaned
      ∷ [];
}

smb_create_run : smb_create board (bytes "buf.board") true ≡ some created_outcome
unfolding smb_create with_desc finish ask
smb_create_run = refl

unknown_line : do_operation board (bytes "smb_move://buf?request(5)") true ≡ not_found true
unfolding do_operation str_eq
unknown_line = refl

handler-Settled_example : Settled created_outcome.log
handler-Settled_example =
    handler-Settled board Op.smb_create (bytes "buf.board") true created_outcome board-IsCareful
      refl smb_create_run

do_operation_lem_example :
    (do_operation board (bytes "smb_create://buf.board") true ≡ ran (some created_outcome))
    ↔ Runs board (bytes "smb_create://buf.board") true (some created_outcome)
do_operation_lem_example =
    do_operation_lem board (bytes "smb_create://buf.board") true (some created_outcome)
