-- ===== src/Forward/Tests.antt =====
-- Runs of members of vfi_fabric_ops.c against a board that always gives the same reply.
use vfi.Prelude.{
  ℕ, ◌+◌, ◌-◌, ◌*◌, ◌≡◌, refl, true, false, ◌&&◌, List, [], ◌∷◌, Option, none, some, if◌then◌else◌,
  leb, bytes, arith, ap, subst, length, ◌<◌, ◌==◌, total,
}
use vfi.Ops.Model.{ℤ, pos, negsuc, Object, Desc, BindDesc, Op, a_smb, a_bind, a_srcs, a_location}
use vfi.Ops.Tests
use vfi.Ops.Dispatch.{do_operation, handler, ran}
use vfi.Parse.Desc.{
  name_remainder, split_name, split_numbers, split_commas, parse_option, parse_options, get_option,
  parse, parse_desc, parse_part, parse_bind, split_bind,
}
use vfi.Parse.Print.{meant}
use vfi.Parse.Tests.{hex, strtoul, source}
use vfi.Fabric.Call.{request_text, request}
use vfi.Forward.Model.{
  Board, Text, Called, replied, failed, read_desc, read_bind, run, sent, got, parsed, freed,
  cleaned, stub, answer, exchange,
}
use vfi.Forward.Creates.{fabric_smb_create}
use vfi.Forward.Ends.{fabric_dsts_create}
use vfi.Forward.Table.{Member, serve}
use vfi.Forward.Buffers.{named, IsNaming}
use vfi.Forward.Answers.{FaithfulAs, serve-Faithful}
use vfi.Forward.Understood.{Sized, member_of, asked, Sends, sized_understood}
use vfi.Forward.Bells.{offs}

-- A number in decimal, without a sign.
abbrev digits_from : ℕ → List ℕ → Option ℤ
digits_from n [] = some (pos n)
digits_from n (c ∷ s) =
    let more = digits_from (n * 10 + (c - 48)) s in
    if leb 48 c && leb c 57 then more else some (pos n)

abbrev scan : List ℕ → Option ℤ
scan [] = none
scan (c ∷ s) = if leb 48 c && leb c 57 then digits_from 0 (c ∷ s) else none

abbrev dec : ℤ → List ℕ
dec n = bytes "9"

abbrev text : Text
text = record { strtoul = strtoul; debug = false; scan = scan; hex = hex; dec = dec }

abbrev here : Object
here = record { kind = a_location; address = 8192 }

abbrev made : Object
made = record { kind = a_srcs; address = 12288 }

abbrev the_bind : Object
the_bind = record { kind = a_bind; address = 16384 }

abbrev event : Desc
event = record {
  name = bytes "buf";
  location = some (bytes "far");
  offset = 0;
  extent = 16;
  query = bytes "event_name=go" ∷ [];
  ops = none;
}

abbrev bound : BindDesc
bound = record { xfer = event; dst = event; src = event }

-- The board, by what the other board replies.
abbrev board : List ℕ → Board
board reply = record {
  text = text;
  vfi_fabric_call = λ o t. replied reply;
  kzalloc = true;
  kset_find_obj = λ o k s. none;
  kset_find_again = λ o k s. none;
  has_set = λ o k. true;
  new_set = λ o k. pos 0;
  find_vfi_name = λ o d. record { ret = negsuc 21; obj = none };
  find_vfi_name_again = λ o d. record { ret = negsuc 21; obj = none };
  create_location = λ o d. record { ret = pos 0; obj = some made };
  create = λ k o d. record { ret = pos 0; obj = some made };
  create_bind = λ k o d. record { ret = pos 0; obj = some made };
  desc = λ o. event;
  bind_desc = λ o. bound;
  ploc = λ o. here;
  xfer_ploc = λ o. here;
  dst_ploc = λ o. here;
  src_ploc = λ o. here;
  has_address = λ o. true;
  vfi_bind_of = λ o. some the_bind;
  has_event = λ o s. false;
  event_id = λ o s. negsuc 0;
  vfi_doorbell_register = λ o s. pos 9;
  find_vfi_events = λ s. true;
  fresh = here;
  kset_register = pos 0;
}

abbrev good_reply : List ℕ
good_reply = bytes "smb_create://buf.far#0:10?result(0),reply(7)"

abbrev bind_reply : List ℕ
bind_reply = bytes "srcs_create://x.far#0:10/buf.far#0:10=buf.far#0:10?result(0),reply(7)"

-- The other board makes the buffer, and it is made here too.
smb_created :
    fabric_smb_create (board good_reply) here event
    ≡ some (
        run (pos 0) (some made) (
          sent here (bytes "smb_create://buf.far#0:10")
          ∷ got
          ∷ parsed
          ∷ freed
          ∷ stub a_smb here
          ∷ cleaned
          ∷ []))
unfolding fabric_smb_create exchange answer parse_part parse_desc parse name_remainder split_name
    split_numbers split_commas parse_option parse_options get_option
smb_created = refl

abbrev reply_of : Called → List ℕ
reply_of (replied r) = r
reply_of (failed e) = []

-- A reply that has its result, read as a description and as a bind.
board-IsNaming :
    (s : List ℕ)
    → named (read_desc text s) ≡ true
    → named (read_bind text s) ≡ true
    → IsNaming (board s)
board-IsNaming s d b = record {
  desc = λ loc op t k r h. subst (λ x. named (read_desc text x) ≡ true) (ap reply_of h) d;
  bind = λ loc op t k r h. subst (λ x. named (read_bind text x) ≡ true) (ap reply_of h) b;
}

bind-IsNaming : IsNaming (board bind_reply)
unfolding parse_part parse_bind parse_desc parse name_remainder split_name split_numbers
    split_commas split_bind parse_option parse_options get_option
bind-IsNaming = board-IsNaming bind_reply refl refl

serve-Faithful_example :
    FaithfulAs
      (board good_reply)
      (some false)
      (serve (board good_reply) (Member.smb_create here event))
serve-Faithful_example =
    serve-Faithful (board good_reply) (Member.smb_create here event)
      (λ loc t e h. ground (arith, h))

abbrev sized : Desc
sized = record {
  name = bytes "buf";
  location = some (bytes "board.net");
  offset = 4096;
  extent = 2748;
  query = [];
  ops = none;
}

request_short : length (request_text hex (bytes "smb_create://buf.board.net#1000:abc") 8192) < 1920
unfolding request_text
request_short = omega arith

sized_understood_example :
    let argument = bytes "buf.board.net#1000:abc?request(2000)" in
    Sends here
      (bytes "smb_create://buf.board.net#1000:abc")
      (serve (board bind_reply) (member_of Sized.smb_create here sized))
    × (request hex (bytes "smb_create://buf.board.net#1000:abc") 8192
        ≡ some (request_text hex (bytes "smb_create://buf.board.net#1000:abc") 8192))
    × (do_operation Tests.board
          (request_text hex (bytes "smb_create://buf.board.net#1000:abc") 8192)
          true
        ≡ ran (handler Op.smb_create Tests.board argument true))
    × (parse_desc strtoul false argument
        ≡ some (false, meant (asked (bytes "2000") (source (bytes "uf") (bytes "7")))))
sized_understood_example =
    sized_understood (board bind_reply) Sized.smb_create here sized
      (source (bytes "uf") (bytes "7")) hex 8192 Tests.board true bind-IsNaming
      (refl, refl, refl, refl) (refl, refl) refl request_short refl

-- The weights are 1 for doorbell 9 and for the object that is made.
abbrev for_nine : ℤ → ℕ
for_nine (pos n) = if n == 9 then 1 else 0
for_nine (negsuc n) = 0

abbrev for_made : Object → ℕ
for_made o = if o.address == 12288 then 1 else 0

-- The reply has no option `event_id`: the doorbell is given back and the dsts deleted.
dsts_given_up :
    total
      (offs for_nine)
      (elim (fabric_dsts_create (board bind_reply) the_bind bound) [ none ↦ [] | some r ↦ r.log ])
    ≡ 1
unfolding fabric_dsts_create parse_part parse_bind parse_desc parse name_remainder split_name
    split_numbers split_commas split_bind parse_option parse_options get_option
dsts_given_up = refl
