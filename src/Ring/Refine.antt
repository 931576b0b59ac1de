-- ===== src/Ring/Refine.antt =====
-- ringbuf.c as a queue: the pointers between `iRead` and `iWrite`, going round at `iLen`.
use vfi.Prelude.{
  ℕ, zero, suc, ◌+◌, ◌-◌, ◌%◌, ◌≤◌, ◌<◌, ◌≡◌, ◌≢◌, refl, sym, ap, ap₂, ◌∙◌, List, [], ◌∷◌, ◌++◌,
  arith, length, get_or, set, get_or-set_self, get_or-set_ne, length-set, ◌==◌, leb, if◌then◌else◌,
  Bool, true, false, take, drop, drop-cons,
}
use native.Mathlib.Nat.{mod-add-mod, mod-eq_of_lt, mod-eq-sub-mod, mod_self, mod-mod, add-zero}
use native.Mathlib.Decide.{dec_lt, ℕ_discrete}
use native.Mathlib.Numerals.{add-one}
use vfi.Ring.{Ring, init, get, put}

-- The indices are in range and the storage is there.
pub record IsValid (r : Ring) : Type 0 where
  pub storage : r.i_len ≤ length r.array
  pub read_in : r.i_read < r.i_len
  pub write_in : r.i_write < r.i_len

-- How many pointers the ring holds.
abbrev pub held : Ring → ℕ
held r = if leb r.i_read r.i_write then r.i_write - r.i_read else r.i_len + r.i_write - r.i_read

-- The `n` pointers of an array of `len` slots that come after `i` steps round it.
abbrev pub span : List ℕ → ℕ → ℕ → ℕ → List ℕ
span buf len i zero = []
span buf len i (suc n) = get_or buf (i % len) 0 ∷ span buf len (i + 1) n

abbrev pub contents : Ring → List ℕ
contents r = span r.array r.i_len r.i_read (held r)

pub length-span : (buf : List ℕ) (len i n : ℕ) → length (span buf len i n) ≡ n
length-span buf len i zero = refl
length-span buf len i (suc n) = ap suc (length-span buf len (i + 1) n)

-- The specification: a FIFO queue of at most `cap` pointers, oldest first; NULL is 0.
unfoldable pub take_oldest : List ℕ → ℕ × List ℕ
take_oldest [] = (0, [])
take_oldest (x ∷ q) = (x, q)

unfoldable pub add_newest : ℕ → List ℕ → ℕ → ℕ × List ℕ
add_newest cap q p = if length q == cap then (0, q) else (p, q ++ p ∷ [])

-- Going round does not change the span.
span-mod : (buf : List ℕ) (len i j n : ℕ) → i % len ≡ j % len → span buf len i n ≡ span buf len j n
span-mod buf len i j zero e = refl
span-mod buf len i j (suc n) e =
    ap₂ ◌∷◌ (ap (λ k. get_or buf k 0) e) (span-mod buf len (i + 1) (j + 1) n next)
  where
    next : (i + 1) % len ≡ (j + 1) % len
    next = rw (← mod-add-mod i len 1, e) (mod-add-mod j len 1)

-- Two indices less than `len` steps apart fall on different slots.
mod-apart : (len i d : ℕ) → 0 < d → d < len → i % len ≢ (i + d) % len
mod-apart len i d h k = λ e. grind arith

-- A span that does not go round is a part of the array.
span-take :
    (buf : List ℕ) (len i n : ℕ)
    → len ≤ length buf
    → i + n ≤ len
    → span buf len i n ≡ take n (drop i buf)
span-take buf len i zero hs h = refl
span-take buf len i (suc n) hs h =
    rw (mod-eq_of_lt {n = i} {m = len} (omega arith), drop-cons buf i 0 (omega arith), add-one)
      (ap (◌∷◌ (get_or buf i 0)) (span-take buf len (suc i) n hs (omega arith)))

-- Writing the slot after a span leaves the span, and adds to its end.
span-set :
    (buf : List ℕ) (len x i n w : ℕ)
    → len ≤ length buf
    → n < len
    → w ≡ (i + n) % len
    → span (set buf w x) len i (suc n) ≡ span buf len i n ++ x ∷ []
span-set buf len x i zero w hs hn e =
    ap (λ v. v ∷ []) (rw (e, add-zero) (get_or-set_self buf (i % len) x 0 (omega arith)))
span-set buf len x i (suc n) w hs hn e =
    ap₂ ◌∷◌ ((get_or-set_ne buf x 0 (λ q. mod-apart len i (suc n) (omega arith) hn (sym q ∙ e))))
      ((span-set buf len x (i + 1) n w hs (omega arith) (e ∙ ap (λ k. k % len) (omega arith))))

-- `iWrite` lies `held` steps after `iRead`, and one slot is never used.
pub held_bounds :
    {r : Ring} → IsValid r → (held r < r.i_len) × (r.i_write ≡ (r.i_read + held r) % r.i_len)
held_bounds {r} v = ground (
  arith,
  mod-eq-sub-mod {n = r.i_read + held r} {m = r.i_len},
  mod-eq_of_lt {n = r.i_read + held r - r.i_len} {m = r.i_len},
  mod-eq_of_lt {n = r.i_read + held r} {m = r.i_len},
)

-- One step round the ring.
next-slot : (len i : ℕ) → i < len → ((i + 1) % len ≡ (if i + 1 == len then 0 else i + 1))
next-slot len i h = elim (dec_lt (i + 1) len) [
  | yes p ↦ rw (mod-eq_of_lt p) (ground arith)
  | no p ↦ let e : i + 1 ≡ len = omega arith in rw (e, mod_self len) (ground arith)
]

-- The ring after a pointer is taken, and after one is added.
abbrev taken : Ring → Ring
taken r = record r { i_read = (r.i_read + 1) % r.i_len }

abbrev added : Ring → ℕ → Ring
added r p = record r { array = set r.array r.i_write p; i_write = (r.i_write + 1) % r.i_len }

contents-taken :
    {r : Ring}
    → IsValid r
    → r.i_read ≢ r.i_write
    → contents r ≡ get_or r.array r.i_read 0 ∷ contents (taken r)
contents-taken {r} v ne = rw more (
    ap₂ ◌∷◌ (ap (λ k. get_or r.array k 0) (mod-eq_of_lt v.read_in))
      (span-mod r.array r.i_len _ _ (held (taken r)) (sym (mod-mod (r.i_read + 1) r.i_len))))
  where
    more : held r ≡ suc (held (taken r))
    more = ground (arith, next-slot r.i_len r.i_read)

contents-added :
    {r : Ring} (p : ℕ)
    → IsValid r
    → (r.i_write + 1) % r.i_len ≢ r.i_read
    → contents (added r p) ≡ contents r ++ p ∷ []
contents-added {r} p v ne =
    ap (span _ r.i_len r.i_read) more
    ∙ span-set r.array r.i_len p r.i_read (held r) r.i_write v.storage (held_bounds v).0
        (held_bounds v).1
  where
    more : held (added r p) ≡ suc (held r)
    more = ground (arith, next-slot r.i_len r.i_write)

pub length-contents : (r : Ring) → length (contents r) ≡ held r
length-contents r = length-span r.array r.i_len r.i_read (held r)

-- `ringbuf_get` takes the oldest pointer of a valid ring, and reports an empty one by NULL.
pub get_refines :
    {r : Ring} → IsValid r → let (p, r') = get r in (p, contents r') ≡ take_oldest (contents r)
unfolding take_oldest get
get_refines {r} v = elim (ℕ_discrete r.i_read r.i_write) [
  | yes e ↦ ground (arith, length-contents r)
  | no ne ↦ ground (arith, contents-taken v ne)
]

-- `ringbuf_put` adds a pointer at the end of a valid ring, or reports by NULL that `iLen - 1`
-- pointers are held and changes nothing.
pub put_refines :
    {r : Ring} (p : ℕ)
    → IsValid r
    → let (q, r') = put r p in (q, contents r') ≡ add_newest (r.i_len - 1) (contents r) p
unfolding add_newest put
put_refines {r} p v = elim (ℕ_discrete ((r.i_write + 1) % r.i_len) r.i_read) [
  | yes e ↦ ground (arith, length-contents r, next-slot r.i_len r.i_write)
  | no ne ↦ ground (arith, length-contents r, contents-added p v ne, next-slot r.i_len r.i_write)
]

-- `ringbuf_get` keeps the indices in range.
pub get-IsValid : {r : Ring} → IsValid r → IsValid (get r).1
unfolding get
get-IsValid v = ground arith

-- `ringbuf_put` keeps the indices in range.
pub put-IsValid : {r : Ring} (p : ℕ) → IsValid r → IsValid (put r p).1
unfolding put
put-IsValid {r} p v = ground (arith, length-set r.array r.i_write p)

-- `ringbuf_init`: an empty ring, or with `full` set one that holds the first `len - 1` pointers of
-- the array in order.
pub init_lem :
    (array : List ℕ) (len : ℕ) (full : Bool)
    → 0 < len
    → len ≤ length array
    → IsValid (init array len full)
      × (contents (init array len full) ≡ (if full then take (len - 1) array else []))
unfolding init
init_lem array len true h k =
    (ground arith, rw held_all (span-take array len 0 (len - 1) k (omega arith)))
  where
    held_all : held (init array len true) ≡ len - 1
    held_all = ground arith
init_lem array len false h k = (ground arith, refl)
