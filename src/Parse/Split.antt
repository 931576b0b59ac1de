-- ===== src/Parse/Split.antt =====
-- Where the functions of the parser cut a string.
use vfi.Prelude.{
  ℕ, suc, ◌≡◌, refl, ap, ap₂, ◌∙◌, arith, Bool, true, not, ◌&&◌, List, [], ◌∷◌, ◌++◌, map, none,
  some, ◌==◌, length, take, drop, bytes, strstr, strchr,
}
use vfi.Parse.Desc.{
  name_remainder, split_name, split_numbers, split_commas, parse_option, parse_options,
  after_scheme, behind,
}

abbrev pub lacks : ℕ → List ℕ → Bool
lacks c [] = true
lacks c (x ∷ s) = not (x == c) && lacks c s

pub lacks-append :
    (c : ℕ) (s t : List ℕ) → lacks c s ≡ true → lacks c t ≡ true → lacks c (s ++ t) ≡ true
lacks-append c [] t g h = h
lacks-append c (x ∷ s) t g h = ground (arith, g, lacks-append c s t)

pub name_remainder-cut :
    (s t : List ℕ) (c : ℕ) → lacks c s ≡ true → name_remainder (s ++ c ∷ t) c ≡ (s, some t)
unfolding name_remainder
name_remainder-cut [] t c h = ground arith
name_remainder-cut (x ∷ s) t c h = ground (arith, h, name_remainder-cut s t c)

pub name_remainder-whole : (s : List ℕ) (c : ℕ) → lacks c s ≡ true → name_remainder s c ≡ (s, none)
unfolding name_remainder
name_remainder-whole [] c h = refl
name_remainder-whole (x ∷ s) c h = ground (arith, h, name_remainder-whole s c)

-- A string without a slash has no scheme.
pub strstr-plain : (s : List ℕ) → lacks 47 s ≡ true → strstr s (bytes "://") ≡ none
strstr-plain [] h = refl
strstr-plain (x ∷ []) h = ground arith
strstr-plain (x ∷ y ∷ s) h = ground (arith, h, strstr-plain (y ∷ s))

pub after_scheme_plain : (s : List ℕ) → lacks 47 s ≡ true → after_scheme s ≡ s
after_scheme_plain s h = ap (behind s) (strstr-plain s h)

pub split_name-plain :
    (x : ℕ) (name location : List ℕ)
    → lacks 46 (x ∷ name) ≡ true
    → split_name (x ∷ name ++ 46 ∷ location) ≡ (x ∷ name, some location)
unfolding split_name
split_name-plain x name location h = ground (arith, h, name_remainder-cut (x ∷ name) location 46)

pub split_numbers-plain :
    (place soffset sextent : List ℕ)
    → lacks 35 place ≡ true
    → lacks 58 place ≡ true
    → lacks 58 soffset ≡ true
    → split_numbers ((place ++ 35 ∷ soffset) ++ 58 ∷ sextent) ≡ (place, some soffset, some sextent)
unfolding split_numbers
split_numbers-plain place soffset sextent a b c = ground (
  arith,
  name_remainder-cut (place ++ 35 ∷ soffset) sextent 58 (lacks-append 58 place (35 ∷ soffset) b c),
  name_remainder-cut place soffset 35 a,
)

pub strchr-plain :
    (s t : List ℕ) (c : ℕ) → lacks c s ≡ true → strchr (s ++ c ∷ t) c ≡ some (length s)
strchr-plain [] t c h = ground arith
strchr-plain (x ∷ s) t c h = ground (arith, h, strchr-plain s t c)

-- The options of a list of names and values, as they are written and as they are kept.
abbrev pub written : List ℕ × List ℕ → List ℕ
written (var, val) = var ++ 40 ∷ (val ++ 41 ∷ [])

abbrev pub kept : List ℕ × List ℕ → List ℕ
kept (var, val) = var ++ 61 ∷ val

abbrev pub join_options : List ℕ × List ℕ → List (List ℕ × List ℕ) → List ℕ
join_options o [] = written o
join_options o (p ∷ os) = written o ++ 44 ∷ join_options p os

pub take-at : (s t : List ℕ) (c : ℕ) → take (length s) (s ++ c ∷ t) ≡ s
take-at [] t c = refl
take-at (x ∷ s) t c = ap (◌∷◌ x) (take-at s t c)

pub drop-at : (s t : List ℕ) (c : ℕ) → drop (suc (length s)) (s ++ c ∷ t) ≡ t
drop-at [] t c = refl
drop-at (x ∷ s) t c = drop-at s t c

pub parse_option-written :
    (var val : List ℕ)
    → lacks 40 var ≡ true
    → lacks 41 val ≡ true
    → parse_option (written (var, val)) ≡ kept (var, val)
unfolding parse_option
parse_option-written var val a b = ground (
  arith,
  strchr-plain var (val ++ 41 ∷ []) 40 a,
  take-at var (val ++ 41 ∷ []) 40,
  drop-at var (val ++ 41 ∷ []) 40,
  name_remainder-cut val [] 41 b,
)

pub split_commas-cut :
    (s t : List ℕ) → lacks 44 s ≡ true → split_commas (s ++ 44 ∷ t) ≡ s ∷ split_commas t
unfolding split_commas
split_commas-cut [] t h = ground arith
split_commas-cut (x ∷ s) t h = ground (arith, h, split_commas-cut s t)

pub split_commas-whole : (s : List ℕ) → lacks 44 s ≡ true → split_commas s ≡ s ∷ []
unfolding split_commas
split_commas-whole [] h = ground arith
split_commas-whole (x ∷ s) h = ground (arith, h, split_commas-whole s)

-- Names without comma and "(", and values without comma and ")".
abbrev pub plain_option : List ℕ × List ℕ → Bool
plain_option (var, val) = lacks 40 var && lacks 44 var && lacks 41 val && lacks 44 val

abbrev pub plain_options : List (List ℕ × List ℕ) → Bool
plain_options [] = true
plain_options (o ∷ os) = plain_option o && plain_options os

written-lacks : (o : List ℕ × List ℕ) → plain_option o ≡ true → lacks 44 (written o) ≡ true
written-lacks (var, val) h =
    ground (arith, h, lacks-append 44 var (40 ∷ (val ++ 41 ∷ [])), lacks-append 44 val (41 ∷ []))

parse_option-plain :
    (o : List ℕ × List ℕ) → plain_option o ≡ true → parse_option (written o) ≡ kept o
parse_option-plain (var, val) h =
    parse_option-written var val (ground (arith, h)) (ground (arith, h))

-- The options come back, each with its "(" as "=" and without its ")".
pub parse_options-join :
    (o : List ℕ × List ℕ) (os : List (List ℕ × List ℕ))
    → plain_options (o ∷ os) ≡ true
    → parse_options (some (join_options o os)) ≡ map kept (o ∷ os)
unfolding parse_options
parse_options-join o [] h =
    ap (map parse_option) (split_commas-whole (written o) (written-lacks o (ground (arith, h))))
    ∙ ap (λ z. z ∷ []) (parse_option-plain o (ground (arith, h)))
parse_options-join o (p ∷ os) h =
    ap (map parse_option)
      (split_commas-cut (written o) (join_options p os) (written-lacks o (ground (arith, h))))
    ∙ ap₂ (λ x y. x ∷ y) (parse_option-plain o (ground (arith, h)))
        (parse_options-join p os (ground (arith, h)))
