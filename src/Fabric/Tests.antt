-- ===== src/Fabric/Tests.antt =====
-- Two calls that wait.
use vfi.Prelude.{
  ℕ, ◌≡◌, ◌≢◌, refl, arith, true, List, [], ◌∷◌, Option, none, some, bytes, get_elem?, ◌-◌,
}
use vfi.Fabric.Call.{
  Tag, Fabric, receive, timeout, request_text, delivered, dropped, requested, stray,
}
use vfi.Fabric.Replies.{Carries, answer, reply_reaches_caller}

-- One digit behind "reply(".
abbrev scan : List ℕ → Option ℕ
scan s = elim (get_elem? s 6) [ none ↦ none | some c ↦ some (c - 48) ]

abbrev tag : ℕ → Tag
tag a = record { address = a; check = true; rply_skb = none }

abbrev two_calls : Fabric
two_calls = record { tags = tag 7 ∷ tag 5 ∷ []; requests = [] }

abbrev message : List ℕ
message = bytes "smb_find://a.b?result(0),reply(5)"

message-Carries : Carries scan message 5
message-Carries = (25, refl, refl)

other_message :
    receive scan true (bytes "smb_put://a.b?request(9)") two_calls
    ≡ (requested, record two_calls { requests = bytes "smb_put://a.b?request(9)" ∷ [] })
unfolding receive
other_message = refl

freed_tag : (receive scan true (bytes "x?reply(4)") two_calls).0 ≡ stray
unfolding receive
freed_tag = refl

written :
    request_text (λ a. bytes "c0") (bytes "smb_find://a?x") 192 ≡ bytes "smb_find://a?x,request(c0)"
unfolding request_text
written = refl

patience : timeout (bytes "smb_create://a") 5 ≡ 100
unfolding timeout
patience = refl

reply_reaches_caller_example :
    let (taken, r) = receive scan true message two_calls in
    (taken ≡ delivered)
    × (answer 5 r ≡ some message)
    × ((b : ℕ) → b ≢ 5 → answer b r ≡ answer b two_calls)
    × ((again : List ℕ) → Carries scan again 5 → receive scan true again r ≡ (dropped, r))
reply_reaches_caller_example =
    reply_reaches_caller scan true message two_calls 5 (tag 5) message-Carries (omega arith) refl
      refl
