-- ===== src/Parse/Print.antt =====
-- A description or a bind that is written out is parsed back.
use vfi.Prelude.{
  ℕ, ◌%◌, ◌^◌, ◌≡◌, refl, ap, ap₂, ◌∙◌, arith, Bool, true, false, ◌&&◌, List, [], ◌∷◌, ◌++◌, map,
  Option, none, some, if◌then◌else◌, bytes, strstr,
}
use vfi.Ops.Model.{Desc}
use vfi.Parse.Desc.{
  name_remainder, default_ops, get_option, with_numbers, with_name, with_query, parse, parse_desc,
  str_dup_fits, accepted, three, parse_part, parse_parts, parse_bind, split_bind, split_scheme,
  bind_parts,
}
use vfi.Parse.Split.{
  lacks, name_remainder-cut, after_scheme_plain, split_name-plain, split_numbers-plain,
  join_options, plain_options, kept, parse_options-join,
}

-- The parts of a description that has all of them; the options are one and the rest.
pub record Source : Type 0 where
  pub first : ℕ
  pub name : List ℕ
  pub location : List ℕ
  pub offset : ℕ
  pub extent : ℕ
  pub option : List ℕ × List ℕ
  pub options : List (List ℕ × List ℕ)

-- `name.location#offset:extent?var(val),...`, with numbers written by `hex`.
module _ (hex : ℕ → List ℕ) where
  abbrev pub place : Source → List ℕ
  place s = (s.location ++ 35 ∷ hex s.offset) ++ 58 ∷ hex s.extent

  abbrev pub front : Source → List ℕ
  front s = s.first ∷ s.name ++ 46 ∷ place s

  abbrev pub print : Source → List ℕ
  print s = front s ++ 63 ∷ join_options s.option s.options

  -- No part has a character that would cut it.
  abbrev pub plain_source : Source → Bool
  plain_source s =
      lacks 46 (s.first ∷ s.name)
      && lacks 35 s.location
      && lacks 58 s.location
      && lacks 58 (hex s.offset)
      && lacks 63 (front s)
      && lacks 47 (print s)
      && plain_options (s.option ∷ s.options)

-- The description that such a string stands for.
abbrev pub meant : Source → Desc
meant s =
    let query = map kept (s.option ∷ s.options) in
    record {
      name = s.first ∷ s.name;
      location = some s.location;
      offset = s.offset;
      extent = s.extent % 2 ^ 32;
      query = query;
      ops = default_ops (get_option query (bytes "default_ops"));
    }

pub and_false : (b : Bool) → b && false ≡ false
and_false true = refl
and_false false = refl

-- The numbers of a description are read as they are written.
abbrev pub Reads : (List ℕ → ℕ × List ℕ) → (ℕ → List ℕ) → Source → Type 0
Reads strtoul hex s =
    (strtoul (hex s.offset) ≡ (s.offset, [])) × (strtoul (hex s.extent) ≡ (s.extent, []))

module _ (strtoul : List ℕ → ℕ × List ℕ) (debug : Bool) (hex : ℕ → List ℕ) where
  numbers-hex :
      (s : Source)
      → Reads strtoul hex s
      → with_numbers strtoul debug
          (map kept (s.option ∷ s.options))
          (s.first ∷ s.name)
          (some (place hex s))
          (s.location, some (hex s.offset), some (hex s.extent))
        ≡ (false, meant s)
  numbers-hex s (off, ext) = rw (off, ext) (ap (λ b. (b, meant s)) (and_false debug))

  -- A description that is written out with all its parts, none of which has a character that would cut
  -- it and whose numbers are read as they are written, is parsed without an error and gives the parts back; the extent is cut to 32 bits, and an
  -- option `var(val)` becomes `var=val`.
  pub parse-print :
      (s : Source)
      → Reads strtoul hex s
      → plain_source hex s ≡ true
      → parse strtoul debug (print hex s) ≡ (false, meant s)
  unfolding parse
  parse-print s r h =
      ap (λ t. with_query strtoul debug (name_remainder t 63))
        (after_scheme_plain (print hex s) (ground (arith, h)))
      ∙ ap (with_query strtoul debug) (
          name_remainder-cut (front hex s) (join_options s.option s.options) 63 (ground (arith, h)))
      ∙ ap₂ (with_name strtoul debug) (parse_options-join s.option s.options (ground (arith, h)))
          (split_name-plain s.first s.name (place hex s) (ground (arith, h)))
      ∙ ap
          (with_numbers strtoul debug (map kept (s.option ∷ s.options)) (s.first ∷ s.name)
            (some (place hex s)))
          (split_numbers-plain s.location (hex s.offset) (hex s.extent) (ground (arith, h))
            (ground (arith, h)) (ground (arith, h)))
      ∙ numbers-hex s r

  parse_desc-print :
      (s : Source)
      → Reads strtoul hex s
      → plain_source hex s ≡ true
      → str_dup_fits (print hex s) ≡ true
      → parse_part strtoul debug (some (print hex s)) ≡ some (meant s)
  unfolding parse_desc parse_part
  parse_desc-print s r h fits =
      ap (λ b. accepted (if b then some (parse strtoul debug (print hex s)) else none)) fits
      ∙ ap (λ r. accepted (some r)) (parse-print s r h)

  -- `xfer/dst=src` for three descriptions.
  abbrev pub print_bind : Source → Source → Source → List ℕ
  print_bind f d s = print hex f ++ 47 ∷ (print hex d ++ 61 ∷ print hex s)

  split_bind-print :
      (f d s : Source)
      → plain_source hex f ≡ true
      → lacks 61 (print hex d) ≡ true
      → strstr (print_bind f d s) (bytes "://") ≡ none
      → split_bind (print_bind f d s) ≡ (print hex f, some (print hex d), some (print hex s))
  unfolding split_bind
  split_bind-print f d s h no_equals no_scheme =
      ap (split_scheme (print_bind f d s)) no_scheme
      ∙ ap (bind_parts []) (
          name_remainder-cut (print hex f) (print hex d ++ 61 ∷ print hex s) 47 (ground (arith, h)))
      ∙ ap (λ (x, y). (print hex f, some x, y))
          (name_remainder-cut (print hex d) (print hex s) 61 no_equals)

  -- A bind that is written out as `xfer/dst=src` with three such descriptions, of which dst has no "="
  -- and the whole has no scheme and fits a page, is parsed to the three.
  pub parse_bind-print :
      (f d s : Source)
      → Reads strtoul hex f
      → Reads strtoul hex d
      → Reads strtoul hex s
      → plain_source hex f ≡ true
      → plain_source hex d ≡ true
      → plain_source hex s ≡ true
      → lacks 61 (print hex d) ≡ true
      → strstr (print_bind f d s) (bytes "://") ≡ none
      → str_dup_fits (print_bind f d s) ≡ true
      → str_dup_fits (print hex f) ≡ true
      → str_dup_fits (print hex d) ≡ true
      → str_dup_fits (print hex s) ≡ true
      → parse_bind strtoul debug (print_bind f d s)
        ≡ some (record { xfer = meant f; dst = meant d; src = meant s })
  unfolding parse_bind
  parse_bind-print f d s rf rd rs hf hd hs no_equals no_scheme fits fits_f fits_d fits_s =
      ap (λ b. if b then parse_parts part (split_bind (print_bind f d s)) else none) fits
      ∙ ap (parse_parts part) (split_bind-print f d s hf no_equals no_scheme)
      ∙ ap (λ z. three z (part (some (print hex d))) (part (some (print hex f))))
          (parse_desc-print s rs hs fits_s)
      ∙ ap₂ (three (some (meant s))) (parse_desc-print d rd hd fits_d)
          (parse_desc-print f rf hf fits_f)
    where
      part : Option (List ℕ) → Option Desc
      part = parse_part strtoul debug
