-- ===== src/Parse/Dotted.antt =====
-- Paths of locations, as the parser takes them apart.
use vfi.Prelude.{
  ℕ, ◌≡◌, ap, ◌∙◌, arith, Bool, true, false, ◌&&◌, List, [], ◌∷◌, ◌++◌, Option, none, some,
  if◌then◌else◌, length-append, ◌≤◌,
}
use vfi.Parse.Desc.{
  name_remainder, split_name, split_numbers, parse_options, parse, parse_desc, parse_part,
  with_query, with_name, with_numbers, str_dup_fits, accepted, empty, get_option, argc,
}
use vfi.Parse.Split.{
  lacks, lacks-append, name_remainder-whole, after_scheme_plain, split_name-plain,
}
use vfi.Parse.Print.{and_false}

-- Names that are joined by dots.
abbrev pub dotted : List ℕ → List (List ℕ) → List ℕ
dotted n [] = n
dotted n (m ∷ ms) = n ++ 46 ∷ dotted m ms

abbrev pub rest_of : List (List ℕ) → Option (List ℕ)
rest_of [] = none
rest_of (m ∷ ms) = some (dotted m ms)

-- A name that is not empty and has no character at which a description is cut.
abbrev pub is_proper : List ℕ → Bool
is_proper [] = false
is_proper (x ∷ s) =
    lacks 46 (x ∷ s) && lacks 47 (x ∷ s) && lacks 63 (x ∷ s) && lacks 58 (x ∷ s) && lacks 35 (x ∷ s)

abbrev pub are_proper : List (List ℕ) → Bool
are_proper [] = true
are_proper (n ∷ ns) = is_proper n && are_proper ns

-- The characters at which a path is not cut.
record Uncut (s : List ℕ) : Type 0 where
  slash : lacks 47 s ≡ true
  mark : lacks 63 s ≡ true
  colon : lacks 58 s ≡ true
  hash : lacks 35 s ≡ true

name-Uncut : (n : List ℕ) → is_proper n ≡ true → Uncut n
name-Uncut [] h = cc
name-Uncut (x ∷ s) h = record {
  slash = ground (arith, h);
  mark = ground (arith, h);
  colon = ground (arith, h);
  hash = ground (arith, h);
}

dotted-Uncut : (n : List ℕ) (ns : List (List ℕ)) → are_proper (n ∷ ns) ≡ true → Uncut (dotted n ns)
dotted-Uncut n [] h = name-Uncut n (ground (arith, h))
dotted-Uncut n (m ∷ ms) h =
    let a = name-Uncut n (ground (arith, h)) in
    let b = dotted-Uncut m ms (ground (arith, h)) in
    record {
      slash = lacks-append 47 n (46 ∷ dotted m ms) a.slash b.slash;
      mark = lacks-append 63 n (46 ∷ dotted m ms) a.mark b.mark;
      colon = lacks-append 58 n (46 ∷ dotted m ms) a.colon b.colon;
      hash = lacks-append 35 n (46 ∷ dotted m ms) a.hash b.hash;
    }

split_numbers-Uncut : (s : List ℕ) → Uncut s → split_numbers s ≡ (s, none, none)
unfolding split_numbers
split_numbers-Uncut s u =
    ground (arith, name_remainder-whole s 58 u.colon, name_remainder-whole s 35 u.hash)

split_name-dotted :
    (n : List ℕ) (ns : List (List ℕ))
    → are_proper (n ∷ ns) ≡ true
    → split_name (dotted n ns) ≡ (n, rest_of ns)
unfolding split_name
split_name-dotted [] ns h = cc
split_name-dotted (x ∷ n) [] h =
    ground (arith, h, name_remainder-whole (x ∷ n) 46 (ground (arith, h)))
split_name-dotted (x ∷ n) (m ∷ ms) h = split_name-plain x n (dotted m ms) (ground (arith, h))

module _ (strtoul : List ℕ → ℕ × List ℕ) (debug : Bool) where
  with_name-dotted :
      (n : List ℕ) (ns : List (List ℕ))
      → are_proper (n ∷ ns) ≡ true
      → with_name strtoul debug [] (n, rest_of ns)
        ≡ (false, record empty { name = n; location = rest_of ns })
  unfolding get_option
  with_name-dotted n [] h =
      ap (with_numbers strtoul debug [] n none)
        (split_numbers-Uncut n (name-Uncut n (ground (arith, h))))
      ∙ ap (λ b. (b, record empty { name = n })) (and_false debug)
  with_name-dotted n (m ∷ ms) h =
      ap (with_numbers strtoul debug [] n (some (dotted m ms)))
        (split_numbers-Uncut (dotted m ms) (dotted-Uncut m ms (ground (arith, h))))
      ∙ ap (λ b. (b, record empty { name = n; location = some (dotted m ms) })) (and_false debug)

  -- A path is parsed to its first name and the rest.
  pub parse-dotted :
      (n : List ℕ) (ns : List (List ℕ))
      → are_proper (n ∷ ns) ≡ true
      → str_dup_fits (dotted n ns) ≡ true
      → parse_part strtoul debug (some (dotted n ns))
        ≡ some (record empty { name = n; location = rest_of ns })
  unfolding parse parse_desc parse_part parse_options
  parse-dotted n ns h fits =
      let s = dotted n ns in
      let u = dotted-Uncut n ns h in
      ap (λ b. accepted (if b then some (parse strtoul debug s) else none)) fits
      ∙ ap (λ t. accepted (some (with_query strtoul debug (name_remainder t 63))))
          (after_scheme_plain s u.slash)
      ∙ ap (λ p. accepted (some (with_query strtoul debug p))) (name_remainder-whole s 63 u.mark)
      ∙ ap (λ p. accepted (some (with_name strtoul debug [] p))) (split_name-dotted n ns h)
      ∙ ap (λ p. accepted (some p)) (with_name-dotted n ns h)

argc-append : (s t : List ℕ) → argc t ≤ argc (s ++ t)
argc-append [] t = omega arith
argc-append (c ∷ s) t = ground (arith, argc-append s t)

-- What is behind a dot fits if the whole path does.
pub str_dup_fits-behind : (s t : List ℕ) → str_dup_fits (s ++ 46 ∷ t) ≡ true → str_dup_fits t ≡ true
str_dup_fits-behind s t h =
    ground (arith, h, length-append s (46 ∷ t), argc-append s (46 ∷ t), argc-append (46 ∷ []) t)
