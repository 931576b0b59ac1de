-- ===== src/Ops/Sound.antt =====
-- What the searches and members promise the handlers of vfi_ops.c, and the replies of the frame
-- that cannot lack their object.
use vfi.Prelude.{
  ℕ, ◌≡◌, refl, arith, Bool, true, false, List, [], Option, none, some, if◌then◌else◌,
}
use vfi.Ops.Model.{
  ℤ, is_zero, Op, Vtable, Desc, BindDesc, Object, Driver, Body, Quoted, Params, Outcome,
}
use vfi.Ops.Frame.{
  replied, plain, Quoting, by_params, by_made, by_result, by_ticket, by_ticket_always, by_event,
  quote, finish, with_desc, with_bind,
}

-- An object that is not NULL, and one that has a table as well.
abbrev pub given : Option Object → Bool
given none = false
given (some o) = true

abbrev pub listed : Option Vtable → Bool
listed none = false
listed (some v) = true

abbrev pub rooted : Driver → Option Object → Bool
rooted d none = false
rooted d (some o) = listed (d.desc_ops o)

abbrev pub rooted_if_given : Driver → Option Object → Bool
rooted_if_given d none = true
rooted_if_given d (some o) = listed (d.desc_ops o)

-- What the handlers rely on: a search or a member that gives 0 has found its object, and
-- locations and mappings have a table.
pub record IsSound (d : Driver) : Type 0 where
  pub location :
      (p : Desc)
      → is_zero (d.locate_vfi_location p).ret ≡ true
      → rooted d (d.locate_vfi_location p).obj ≡ true
  pub by_name :
      (p : Desc) → is_zero (d.find_vfi_name p).ret ≡ true → given (d.find_vfi_name p).obj ≡ true
  pub in_set : (s : List ℕ) → rooted_if_given d (d.kset_find_obj s) ≡ true
  pub created :
      (v : Vtable) (o : Option Object)
      → is_zero (d.invoke v Op.location_create o).ret ≡ true
      → given (d.invoke v Op.location_create o).obj ≡ true
  pub named :
      (v : Vtable) (o : Option Object)
      → is_zero (d.invoke v Op.location_find o).ret ≡ true
      → given (d.invoke v Op.location_find o).obj ≡ true
  pub mapped :
      (v : Vtable) (o : Option Object)
      → is_zero (d.invoke v Op.mmap_find o).ret ≡ true
      → rooted d (d.invoke v Op.mmap_find o).obj ≡ true

abbrev quotable : Option Quoted → Bool
quotable none = false
quotable (some q) = true

abbrev pub answers : Quoting → Option Body → Bool
answers q none = false
answers q (some b) = quotable (quote q b)

abbrev pub finished : Option Outcome → Bool
finished none = false
finished (some o) = true

abbrev pub needs_object : Quoting → Bool
needs_object by_result = true
needs_object _ = false

-- Only a reply that quotes the object of a success can lack it.
pub always-answers : (q : Quoting) (b : Body) → needs_object q ≡ false → answers q (some b) ≡ true
always-answers by_params b h = refl
always-answers by_made b h = ground arith
always-answers by_result b h = ground arith
always-answers by_ticket b h = ground arith
always-answers by_ticket_always b h = ground arith
always-answers by_event b h = refl

replied-finished :
    (op : Op) (p : Params) (b : Body) (q : Option Quoted)
    → quotable q ≡ true
    → finished (replied op p b q) ≡ true
replied-finished op p b none h = h
replied-finished op p b (some q) h = refl

pub finish-finished :
    (op : Op) (q : Quoting) (wanted : Bool) (p : Params) (b : Option Body)
    → answers q b ≡ true
    → finished (finish op q wanted p b) ≡ true
unfolding finish
finish-finished op q true p none h = h
finish-finished op q false p none h = h
finish-finished op q true p (some b) h = replied-finished op p b (quote q b) h
finish-finished op q false p (some b) h = refl

choice-answers :
    (q : Quoting) (ret : ℤ) (b : Option Body)
    → (is_zero ret ≡ true → answers q b ≡ true)
    → answers q (if is_zero ret then b else some (plain ret [])) ≡ true
choice-answers q ret b h = ground arith

module _ (d : Driver) (op : Op) (q : Quoting) (text : List ℕ) (wanted : Bool) where
  pub with_desc-finished :
      (body : Desc → Option Body)
      → ((p : Desc) → answers q (body p) ≡ true)
      → finished (with_desc d op q body text wanted) ≡ true
  unfolding with_desc
  with_desc-finished body h =
      let (ret, p) = d.vfi_parse_desc text in
      finish-finished op q wanted (Params.of_desc p) _ (choice-answers q ret (body p) (λ z. h p))

  pub with_bind-finished :
      (body : BindDesc → Option Body)
      → ((p : BindDesc) → answers q (body p) ≡ true)
      → finished (with_bind d op q body text wanted) ≡ true
  unfolding with_bind
  with_bind-finished body h =
      let (ret, p) = d.vfi_parse_bind text in
      finish-finished op q wanted (Params.of_bind p) _ (choice-answers q ret (body p) (λ z. h p))

  pub with_desc-total :
      (body : Desc → Body)
      → needs_object q ≡ false
      → finished (with_desc d op q (λ p. some (body p)) text wanted) ≡ true
  with_desc-total body n =
      with_desc-finished (λ p. some (body p)) (λ p. always-answers q (body p) n)

  pub with_bind-total :
      (body : BindDesc → Body)
      → needs_object q ≡ false
      → finished (with_bind d op q (λ p. some (body p)) text wanted) ≡ true
  with_bind-total body n =
      with_bind-finished (λ p. some (body p)) (λ p. always-answers q (body p) n)
