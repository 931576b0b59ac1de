-- ===== src/Fabric/Replies.antt =====
-- A reply goes to the call whose tag it carries, and only one does.
use vfi.Prelude.{
  ℕ, ◌≡◌, ◌≢◌, refl, sym, ap, subst, ◌∙◌, arith, Bool, true, false, List, [], ◌∷◌, Option, none,
  some, drop, bytes, strstr,
}
use vfi.Fabric.Call.{
  Tag, Fabric, tag_at, set_at, delivered, dropped, take_reply, take_message, receive, end_call,
  call,
}

-- What a call would get if it stopped waiting now.
abbrev pub answer : ℕ → Fabric → Option (List ℕ)
answer a s = (end_call a s).0

-- The message carries the address of a tag as that of its reply.
abbrev pub Carries : (List ℕ → Option ℕ) → List ℕ → ℕ → Type 0
Carries scan msg a = (i : ℕ) × (strstr msg (bytes "reply(") ≡ some i) × (scan (drop i msg) ≡ some a)

tag_at-address : (a : ℕ) (ts : List Tag) (t : Tag) → tag_at a ts ≡ some t → t.address ≡ a
tag_at-address a [] t h = ground (arith, h)
tag_at-address a (u ∷ ts) t h = ground (arith, h, tag_at-address a ts t)

tag_at-set :
    (a : ℕ) (ts : List Tag) (t u : Tag)
    → tag_at a ts ≡ some t
    → u.address ≡ a
    → tag_at a (set_at a u ts) ≡ some u
tag_at-set a [] t u h e = ground (arith, h)
tag_at-set a (v ∷ ts) t u h e = ground (arith, h, e, tag_at-set a ts t u)

tag_at-set_ne :
    (a b : ℕ) (ts : List Tag) (u : Tag)
    → u.address ≡ a
    → b ≢ a
    → tag_at b (set_at a u ts) ≡ tag_at b ts
tag_at-set_ne a b [] u e n = refl
tag_at-set_ne a b (v ∷ ts) u e n = ground (arith, e, n, tag_at-set_ne a b ts u)

receive-reply :
    (scan : List ℕ → Option ℕ) (known : Bool) (msg : List ℕ) (s : Fabric) (a : ℕ)
    → Carries scan msg a
    → receive scan known msg s ≡ take_reply msg (some a) s
unfolding receive
receive-reply scan known msg s a (i, here, number) =
    ap (λ r. take_message scan known msg r s) here ∙ ap (λ n. take_reply msg n s) number

-- The state after a reply is taken.
abbrev replied : ℕ → Tag → List ℕ → Fabric → Fabric
replied a t msg s = record s {
  tags = set_at a (record t { check = false; rply_skb = some msg }) s.tags;
}

take_reply-delivers :
    (msg : List ℕ) (s : Fabric) (a : ℕ) (t : Tag)
    → a ≢ 0
    → tag_at a s.tags ≡ some t
    → t.check ≡ true
    → take_reply msg (some a) s ≡ (delivered, replied a t msg s)
take_reply-delivers msg s a t n h c = ground (arith, n, h, c)

take_reply-refused :
    (msg : List ℕ) (s : Fabric) (a : ℕ) (t : Tag)
    → a ≢ 0
    → tag_at a s.tags ≡ some t
    → t.check ≡ false
    → take_reply msg (some a) s ≡ (dropped, s)
take_reply-refused msg s a t n h c = ground (arith, n, h, c)

answer-tag : (a : ℕ) (s : Fabric) (t : Tag) → tag_at a s.tags ≡ some t → answer a s ≡ t.rply_skb
unfolding end_call
answer-tag a s t h = ground (arith, h)

answer-same : (b : ℕ) (s r : Fabric) → tag_at b s.tags ≡ tag_at b r.tags → answer b s ≡ answer b r
unfolding end_call
answer-same b s r h = ground (arith, h)

-- A reply that carries the tag of a call that still waits is delivered: that call gets the message,
-- what the other calls would get stays, and a second reply with the same tag is dropped.
pub reply_reaches_caller :
    (scan : List ℕ → Option ℕ) (known : Bool) (msg : List ℕ) (s : Fabric) (a : ℕ) (t : Tag)
    → Carries scan msg a
    → a ≢ 0
    → tag_at a s.tags ≡ some t
    → t.check ≡ true
    → let (taken, r) = receive scan known msg s in
      (taken ≡ delivered)
      × (answer a r ≡ some msg)
      × ((b : ℕ) → b ≢ a → answer b r ≡ answer b s)
      × ((again : List ℕ) → Carries scan again a → receive scan known again r ≡ (dropped, r))
reply_reaches_caller scan known msg s a t carries nonzero here unanswered = (
  ap (λ x. x.0) got,
  ap (λ x. answer a x.1) got ∙ answer-tag a r u now,
  λ b ne. ap (λ x. answer b x.1) got ∙ answer-same b r s (tag_at-set_ne a b s.tags u named ne),
  λ again c.
      receive-reply scan known again (receive scan known msg s).1 a c
      ∙ subst (λ x. take_reply again (some a) x ≡ (dropped, x)) (sym (ap (λ x. x.1) got))
          (take_reply-refused again r a u nonzero now refl),
)
  where
    r : Fabric
    r = replied a t msg s

    u : Tag
    u = record t { check = false; rply_skb = some msg }

    named : u.address ≡ a
    named = tag_at-address a s.tags t here

    now : tag_at a r.tags ≡ some u
    now = tag_at-set a s.tags t u here named

    got : receive scan known msg s ≡ (delivered, r)
    got =
        receive-reply scan known msg s a carries
        ∙ take_reply-delivers msg s a t nonzero here unanswered

-- A tag is only an address: once a call has ended, a new call may get memory for its tag at the same
-- place, and a late reply to the old call is then the answer of the new one.
pub late_reply_taken :
    (scan : List ℕ → Option ℕ) (known : Bool) (late : List ℕ) (s : Fabric) (a : ℕ)
    → Carries scan late a
    → a ≢ 0
    → answer a (receive scan known late (call (some a) true (end_call a s).1).1).1 ≡ some late
unfolding call
late_reply_taken scan known late s a carries nonzero =
    (reply_reaches_caller scan known late
      (record (end_call a s).1 { tags = fresh ∷ (end_call a s).1.tags }) a fresh carries nonzero
      ground arith refl).1
  where
    fresh : Tag
    fresh = record { address = a; check = true; rply_skb = none }
