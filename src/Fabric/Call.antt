-- ===== src/Fabric/Call.antt =====
-- The tags of the calls that wait, and what `vfi_fabric_receive` does with a message.
use vfi.Prelude.{
  ℕ, ◌*◌, Bool, true, false, List, [], ◌∷◌, ◌++◌, Option, none, some, if◌then◌else◌, ◌==◌, drop,
  ltb, length, bytes, strstr,
}

-- `struct call_back_tag` of a call: `check` says whether its field `check` still points to the tag.
pub record Tag : Type 0 where
  pub address : ℕ
  pub check : Bool
  pub rply_skb : Option (List ℕ)

-- The tags in memory, the newest first, and the requests of others that are to be run.
pub record Fabric : Type 0 where
  pub tags : List Tag
  pub requests : List (List ℕ)

-- What a pointer to a tag points to, if the tag is in memory.
abbrev pub tag_at : ℕ → List Tag → Option Tag
tag_at a [] = none
tag_at a (t ∷ ts) = if t.address == a then some t else tag_at a ts

abbrev pub set_at : ℕ → Tag → List Tag → List Tag
set_at a u [] = []
set_at a u (t ∷ ts) = if t.address == a then u ∷ ts else t ∷ set_at a u ts

abbrev pub free_at : ℕ → List Tag → List Tag
free_at a [] = []
free_at a (t ∷ ts) = if t.address == a then ts else t ∷ free_at a ts

-- The request of a call for the tag at `a`, with the address as `print` writes it.
unfoldable pub request_text : (ℕ → List ℕ) → List ℕ → ℕ → List ℕ
request_text print text a =
    let sign : ℕ = elim (strstr text (bytes "?")) [ none ↦ 63 | some i ↦ 44 ] in
    text ++ sign ∷ (bytes "request(" ++ (print a ++ bytes ")"))

-- The request, if it fits the memory of the message with its end mark: 2048 bytes, of which 128 are
-- reserved. A longer one is printed past the end of that memory.
unfoldable pub request : (ℕ → List ℕ) → List ℕ → ℕ → Option (List ℕ)
unfolding request_text
request print text a =
    let sent = request_text print text a in if ltb (length sent) 1920 then some sent else none

-- `vfi_fabric_call` up to its wait: memory for a tag may be had at `a`, and the message is sent or not.
pub data Started : Type 0 where
  no_mem failed waiting : Started

unfoldable pub call : Option ℕ → Bool → Fabric → Started × Fabric
call none sent s = (no_mem, s)
call (some a) false s = (failed, s)
call (some a) true s =
    (waiting, record s { tags = record { address = a; check = true; rply_skb = none } ∷ s.tags })

-- How long it waits, in seconds.
unfoldable pub timeout : List ℕ → ℕ → ℕ
timeout text to = elim (strstr text (bytes "_find:")) [ none ↦ to * 20 | some i ↦ to ]

-- The rest of the call, after the wait: the reply, or none for -EIO.
unfoldable pub end_call : ℕ → Fabric → Option (List ℕ) × Fabric
end_call a s = elim (tag_at a s.tags) [
  | none ↦ (none, s)
  | some t ↦ (t.rply_skb, record s { tags = free_at a s.tags })
]

-- A message is the reply of a call, a request to run, or dropped; `stray` reads a tag that is no longer
-- in memory.
pub data Taken : Type 0 where
  delivered requested dropped stray : Taken

abbrev pub take_reply : List ℕ → Option ℕ → Fabric → Taken × Fabric
take_reply msg none s = (dropped, s)
take_reply msg (some a) s = if a == 0 then (dropped, s) else elim (tag_at a s.tags) [
  | none ↦ (stray, s)
  | some t ↦
      if t.check
      then (
        delivered,
        record s { tags = set_at a (record t { check = false; rply_skb = some msg }) s.tags },
      )
      else (dropped, s)
]

abbrev pub take_request : Bool → List ℕ → Option ℕ → Fabric → Taken × Fabric
take_request known msg none s = (dropped, s)
take_request false msg (some i) s = (dropped, s)
take_request true msg (some i) s = (requested, record s { requests = s.requests ++ msg ∷ [] })

-- `scan` is the `sscanf` of "reply(%x)"; `known` says whether the sender can be held. The second search
-- is for a message without the first text.
abbrev pub take_message : (List ℕ → Option ℕ) → Bool → List ℕ → Option ℕ → Fabric → Taken × Fabric
take_message scan known msg (some i) s = take_reply msg (scan (drop i msg)) s
take_message scan known msg none s = take_request known msg (strstr msg (bytes "request(")) s

unfoldable pub receive : (List ℕ → Option ℕ) → Bool → List ℕ → Fabric → Taken × Fabric
receive scan known msg s = take_message scan known msg (strstr msg (bytes "reply(")) s
