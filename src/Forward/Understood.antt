-- ===== src/Forward/Understood.antt =====
-- What the other board makes of a command that a member of vfi_fabric_ops.c sends: the texts of
-- vfi_fabric_ops.c and `vfi_fabric_call`, `do_operation` (vfi_ops.c) and the parser (vfi_parse.c).
use vfi.Prelude.{
  ℕ, ◌≡◌, refl, ap, ◌∙◌, arith, Bool, true, false, List, [], ◌∷◌, ◌++◌, Option, none, some,
  append_assoc, bytes, strstr, length, ◌<◌, Bool-cases, inl, inr,
}
use vfi.Ops.Model.{ℤ, is_zero, Op, Desc, Object, Driver}
use vfi.Ops.Dispatch.{name, line, handler, do_operation, ran}
use vfi.Ops.Lines.{runs-line}
use vfi.Parse.Desc.{parse, parse_desc, str_dup_fits}
use vfi.Parse.Split.{lacks, lacks-append}
use vfi.Parse.Print.{Source, front, print, meant, plain_source, Reads, parse-print}
use vfi.Fabric.Call.{request_text, request}
use vfi.Forward.Model.{
  Board, Text, Called, replied, failed, Verdict, unparsed, nameless, read, Effect, sent, cleaned,
  Run, before, hear, heard, on_success, exchange, answer, quiet,
}
use vfi.Forward.Buffers.{IsNaming, RunReturned}
use vfi.Forward.Balance.{serve-Returned}
use vfi.Forward.Requests.{spot}
use vfi.Forward.Creates.{fabric_smb_create, fabric_xfer_create, fabric_sync_create}
use vfi.Forward.Deletes.{fabric_bind_delete, fabric_bind_lose}
use vfi.Forward.Table.{Member, serve}

-- The members that send a description with its offset and extent.
pub data Sized : Type 0 where
  smb_create xfer_create sync_create bind_delete bind_lose : Sized

abbrev pub member_of : Sized → Object → Desc → Member
member_of Sized.smb_create = Member.smb_create
member_of Sized.xfer_create = Member.xfer_create
member_of Sized.sync_create = Member.sync_create
member_of Sized.bind_delete = Member.bind_delete
member_of Sized.bind_lose = Member.bind_lose

abbrev pub op_of : Sized → Op
op_of Sized.smb_create = Op.smb_create
op_of Sized.xfer_create = Op.xfer_create
op_of Sized.sync_create = Op.sync_create
op_of Sized.bind_delete = Op.bind_delete
op_of Sized.bind_lose = Op.bind_lose

-- Where the member is: at a location, or with a transfer agent, whose location has the command.
abbrev pub target_of : Board → Sized → Object → Object
target_of b Sized.smb_create loc = loc
target_of b Sized.xfer_create loc = loc
target_of b Sized.sync_create loc = loc
target_of b Sized.bind_delete xfer = b.ploc xfer
target_of b Sized.bind_lose xfer = b.ploc xfer

-- The texts that a run sends, with the locations.
abbrev pub texts_sent : List Effect → List (Object × List ℕ)
texts_sent [] = []
texts_sent (sent loc text ∷ log) = (loc, text) ∷ texts_sent log
texts_sent (_ ∷ log) = texts_sent log

-- A run sends the text to the location, and nothing else.
abbrev pub Sends : Object → List ℕ → Option Run → Type 0
Sends loc text none = ⊥
Sends loc text (some r) = texts_sent r.log ≡ (loc, text) ∷ []

-- The same of a run that may not come to its end.
abbrev SendsIf : Object → List ℕ → Option Run → Type 0
SendsIf loc text none = Unit
SendsIf loc text (some r) = texts_sent r.log ≡ (loc, text) ∷ []

abbrev Silent : Option Run → Type 0
Silent none = Unit
Silent (some r) = texts_sent r.log ≡ []

before-SendsIf :
    (loc : Object) (text : List ℕ) (r : Option Run)
    → Silent r
    → SendsIf loc text (before (sent loc text ∷ []) r)
before-SendsIf loc text none h = tt
before-SendsIf loc text (some r) h = ap (◌∷◌ (loc, text)) h

quiet-SendsIf :
    (loc : Object) (text : List ℕ) (r : Option Run)
    → SendsIf loc text r
    → SendsIf loc text (quiet r)
quiet-SendsIf loc text none h = tt
quiet-SendsIf loc text (some r) h = h

texts_sent-cleaned :
    (log : List Effect) → texts_sent log ≡ [] → texts_sent (log ++ cleaned ∷ []) ≡ []
texts_sent-cleaned [] h = refl
texts_sent-cleaned (e ∷ log) h = ground (arith, h, texts_sent-cleaned log)

heard-Silent {ℓ} :
    {A : Type ℓ} (reader : List ℕ → Verdict A) (silent : ℤ) (next : A → Run) (c : Called)
    → ((a : A) → texts_sent (next a).log ≡ [])
    → Silent (heard reader silent (on_success silent next) c)
heard-Silent reader silent next (failed e) h = refl
heard-Silent reader silent next (replied r) h = by_verdict (reader r)
  where
    by_verdict : (v : Verdict _) → Silent (hear silent (on_success silent next) v)
    by_verdict unparsed = refl
    by_verdict nameless = tt
    by_verdict (read a none) = refl
    by_verdict (read a (some n)) = elim (Bool-cases (is_zero n)) [
      | inl e ↦ rw e (texts_sent-cleaned (next a).log (h a))
      | inr e ↦ rw e refl
    ]

serve-SendsIf :
    (b : Board) (k : Sized) (loc : Object) (d : Desc)
    → SendsIf (target_of b k loc) (line (op_of k) (spot b.text d)) (serve b (member_of k loc d))
unfolding serve fabric_smb_create fabric_xfer_create fabric_sync_create fabric_bind_delete
    fabric_bind_lose exchange answer
serve-SendsIf b Sized.smb_create loc d =
    before-SendsIf loc _ _ (heard-Silent _ _ _ (b.vfi_fabric_call loc _) (λ a. refl))
serve-SendsIf b Sized.xfer_create loc d =
    before-SendsIf loc _ _ (heard-Silent _ _ _ (b.vfi_fabric_call loc _) (λ a. refl))
serve-SendsIf b Sized.sync_create loc d =
    before-SendsIf loc _ _ (heard-Silent _ _ _ (b.vfi_fabric_call loc _) (λ a. refl))
serve-SendsIf b Sized.bind_delete loc d = quiet-SendsIf _ _ _ (
    before-SendsIf (b.ploc loc) _ _
      (heard-Silent _ _ _ (b.vfi_fabric_call (b.ploc loc) _) (λ a. refl)))
serve-SendsIf b Sized.bind_lose loc d = quiet-SendsIf _ _ _ (
    before-SendsIf (b.ploc loc) _ _
      (heard-Silent _ _ _ (b.vfi_fabric_call (b.ploc loc) _) (λ a. refl)))

ended-Sends :
    (loc : Object) (text : List ℕ) (careful : Bool) (r : Option Run)
    → RunReturned careful r
    → SendsIf loc text r
    → Sends loc text r
ended-Sends loc text careful none e h = e
ended-Sends loc text careful (some r) e h = h

-- The description has the name, location, offset and extent of `s`.
abbrev pub Has : Desc → Source → Type 0
Has d s =
    (d.name ≡ s.first ∷ s.name)
    × (d.location ≡ some s.location)
    × (d.offset ≡ s.offset)
    × (d.extent ≡ s.extent)

spot-front : (t : Text) (d : Desc) (s : Source) → Has d s → spot t d ≡ front t.hex s
spot-front t d s (n, l, o, e) = rw (n, l, o, e) refl

strstr-lacking : (s : List ℕ) → lacks 63 s ≡ true → strstr s (bytes "?") ≡ none
strstr-lacking [] h = refl
strstr-lacking (c ∷ s) h = ground (arith, h, strstr-lacking s)

name-lacks : (op : Op) → lacks 63 (bytes (name op)) ≡ true
name-lacks Op.event_start = refl
name-lacks Op.event_find = refl
name-lacks Op.event_chain = refl
name-lacks Op.location_create = refl
name-lacks Op.location_delete = refl
name-lacks Op.location_find = refl
name-lacks Op.location_put = refl
name-lacks Op.smb_create = refl
name-lacks Op.smb_delete = refl
name-lacks Op.smb_find = refl
name-lacks Op.smb_put = refl
name-lacks Op.smb_lose = refl
name-lacks Op.mmap_create = refl
name-lacks Op.mmap_delete = refl
name-lacks Op.mmap_find = refl
name-lacks Op.mmap_put = refl
name-lacks Op.sync_create = refl
name-lacks Op.sync_delete = refl
name-lacks Op.sync_find = refl
name-lacks Op.sync_put = refl
name-lacks Op.sync_send = refl
name-lacks Op.sync_wait = refl
name-lacks Op.xfer_create = refl
name-lacks Op.xfer_delete = refl
name-lacks Op.xfer_find = refl
name-lacks Op.xfer_put = refl
name-lacks Op.xfer_lose = refl
name-lacks Op.bind_create = refl
name-lacks Op.bind_delete = refl
name-lacks Op.bind_find = refl
name-lacks Op.bind_lose = refl
name-lacks Op.dsts_create = refl
name-lacks Op.dsts_delete = refl
name-lacks Op.dsts_find = refl
name-lacks Op.dst_create = refl
name-lacks Op.dst_delete = refl
name-lacks Op.dst_find = refl
name-lacks Op.srcs_create = refl
name-lacks Op.srcs_delete = refl
name-lacks Op.srcs_find = refl
name-lacks Op.src_create = refl
name-lacks Op.src_delete = refl
name-lacks Op.src_find = refl

line-lacks : (op : Op) (s : List ℕ) → lacks 63 s ≡ true → lacks 63 (line op s) ≡ true
line-lacks op s h =
    lacks-append 63 (bytes (name op)) (bytes "://" ++ s) (name-lacks op)
      (lacks-append 63 (bytes "://") s refl h)

-- The request of `vfi_fabric_call` is the option `request` with the address of the call.
abbrev pub asked : List ℕ → Source → Source
asked address s = record s { option = (bytes "request", address); options = [] }

request-line :
    (hex show : ℕ → List ℕ) (op : Op) (s : Source) (a : ℕ)
    → lacks 63 (front hex s) ≡ true
    → request_text show (line op (front hex s)) a ≡ line op (print hex (asked (show a) s))
unfolding request_text
request-line hex show op s a h =
    rw (strstr-lacking (line op (front hex s)) (line-lacks op (front hex s) h)) (
      append_assoc (bytes (name op)) (bytes "://" ++ front hex s) _
      ∙ ap (λ x. bytes (name op) ++ x) (append_assoc (bytes "://") (front hex s) _))

request-fits :
    (show : ℕ → List ℕ) (text : List ℕ) (a : ℕ)
    → length (request_text show text a) < 1920
    → request show text a ≡ some (request_text show text a)
unfolding request
request-fits show text a h = ground (arith, h)

parse_desc-fits :
    (t : Text) (s : List ℕ)
    → str_dup_fits s ≡ true
    → parse_desc t.strtoul t.debug s ≡ some (parse t.strtoul t.debug s)
unfolding parse_desc
parse_desc-fits t s h = rw h refl

-- The members that send a description with its offset and extent: smb_create, xfer_create and
-- sync_create for a location, bind_delete and bind_lose for a transfer agent. The description has all its
-- parts, none with a character that would cut it, and numbers that are read as they are written; each
-- reply of another board that is parsed, as a description or as a bind as the command is read here, has
-- the option `result`; the request has less than 1920
-- characters, and `vfi_str_dup` takes its argument. Then the member sends one line, to that location or
-- that of the agent, and nothing else; `vfi_fabric_call`, which adds the option for the reply, has memory
-- for it; and what comes of it runs on the other board the handler of the same command, with an argument
-- that `vfi_parse_desc` parses to that name, location and offset, the extent cut to 32 bits, and that
-- option.
pub sized_understood :
    (b : Board) (k : Sized) (loc : Object) (d : Desc) (s : Source) (show : ℕ → List ℕ) (a : ℕ)
    (driver : Driver) (wanted : Bool)
    → IsNaming b
    → Has d s
    → Reads b.text.strtoul b.text.hex s
    → plain_source b.text.hex (asked (show a) s) ≡ true
    → length (request_text show (line (op_of k) (spot b.text d)) a) < 1920
    → str_dup_fits (print b.text.hex (asked (show a) s)) ≡ true
    → let command = line (op_of k) (spot b.text d) in
      let argument = print b.text.hex (asked (show a) s) in
      Sends (target_of b k loc) command (serve b (member_of k loc d))
      × (request show command a ≡ some (request_text show command a))
      × (do_operation driver (request_text show command a) wanted
          ≡ ran (handler (op_of k) driver argument wanted))
      × (parse_desc b.text.strtoul b.text.debug argument ≡ some (false, meant (asked (show a) s)))
sized_understood b k loc d s show a driver wanted naming h r p short fits =
    let hex = b.text.hex in
    let text = request-line hex show (op_of k) s a (ground (arith, p)) in
    (
      ended-Sends _ _ _ _ (serve-Returned b (member_of k loc d) naming) (serve-SendsIf b k loc d),
      request-fits show _ a short,
      ap (λ c. do_operation driver (request_text show (line (op_of k) c) a) wanted)
            (spot-front b.text d s h)
          ∙ ap (λ c. do_operation driver c wanted) text
          ∙ runs-line driver (op_of k) (print hex (asked (show a) s)) wanted,
      parse_desc-fits b.text _ fits
          ∙ ap some (parse-print b.text.strtoul b.text.debug hex (asked (show a) s) r p),
    )
