-- ===== src/Parse/Desc.antt =====
-- The functions of the parser. A string is cut by a zero byte that replaces the character at the cut;
-- here a cut gives the two parts.
use vfi.Prelude.{
  ℕ, suc, ◌+◌, ◌*◌, ◌/◌, ◌%◌, ◌^◌, Bool, true, false, ◌&&◌, ◌||◌, List, [], ◌∷◌, ◌++◌, map, Option,
  none, some, if◌then◌else◌, leb, ◌==◌, length, take, drop, bytes, strstr, strchr, starts_with,
}
use vfi.Ops.Model.{Desc, BindDesc, Vtable}

-- The part before the first `c`, and the part behind it.
unfoldable pub name_remainder : List ℕ → ℕ → List ℕ × Option (List ℕ)
name_remainder [] c = ([], none)
name_remainder (x ∷ s) c =
    let (head, rest) = name_remainder s c in if x == c then ([], some s) else (x ∷ head, rest)

-- The same for a pointer that may be NULL.
abbrev pub remainder? : Option (List ℕ) → ℕ → Option (List ℕ) × Option (List ℕ)
remainder? none c = (none, none)
remainder? (some s) c = let (head, rest) = name_remainder s c in (some head, rest)

-- What stands behind "://", or all of it.
abbrev pub behind : List ℕ → Option ℕ → List ℕ
behind s none = s
behind s (some i) = drop (i + 3) s

abbrev pub after_scheme : List ℕ → List ℕ
after_scheme s = behind s (strstr s (bytes "://"))

-- A name and its location; dots in front are skipped.
unfoldable pub split_name : List ℕ → List ℕ × Option (List ℕ)
unfolding name_remainder
split_name [] = ([], none)
split_name (c ∷ s) =
    let later = split_name s in if c == 46 then later else name_remainder (c ∷ s) 46

-- The part before offset and extent, which come in either order, and the strings of the two.
unfoldable pub split_numbers : List ℕ → List ℕ × Option (List ℕ) × Option (List ℕ)
split_numbers s =
    let (a, sextent) = name_remainder s 58 in
    let (b, soffset) = name_remainder a 35 in
    elim sextent [
      | none ↦ let (o, e) = remainder? soffset 58 in (b, o, e)
      | some e ↦ elim soffset [
        | none ↦ let (f, o) = name_remainder e 35 in (b, o, some f)
        | some o ↦ (b, some o, some e)
      ]
    ]

-- The options between commas.
unfoldable pub split_commas : List ℕ → List (List ℕ)
split_commas [] = [] ∷ []
split_commas (c ∷ s) =
    let rest = split_commas s in
    if c == 44 then [] ∷ rest else elim rest [ [] ↦ (c ∷ []) ∷ [] | o ∷ os ↦ (c ∷ o) ∷ os ]

-- `var(val)` becomes `var=val`.
unfoldable pub parse_option : List ℕ → List ℕ
parse_option s = elim (strchr s 40) [
  | none ↦ s
  | some i ↦ take i s ++ 61 ∷ (name_remainder (drop (suc i) s) 41).0
]

unfoldable pub parse_options : Option (List ℕ) → List (List ℕ)
parse_options none = []
parse_options (some s) = map parse_option (split_commas s)

-- The first option that has the needle somewhere: what stands behind the "=" that follows it, or the
-- option from the needle on.
unfoldable pub get_option : List (List ℕ) → List ℕ → Option (List ℕ)
get_option [] needle = none
get_option (q ∷ qs) needle =
    let later = get_option qs needle in
    elim (strstr q needle) [
      | none ↦ later
      | some i ↦
          let found = drop i q in
          some (elim (strstr found (bytes "=")) [ none ↦ found | some j ↦ drop (suc j) found ])
    ]

abbrev pub default_ops : Option (List ℕ) → Option Vtable
default_ops none = none
default_ops (some s) =
    if starts_with s (bytes "private")
    then some Vtable.local
    else if starts_with s (bytes "public")
    then some Vtable.fabric
    else none

-- The value of a number's string, and whether something stands behind it.
abbrev pub number : (List ℕ → ℕ × List ℕ) → Option (List ℕ) → ℕ × Bool
number strtoul none = (0, false)
number strtoul (some s) = let (n, rest) = strtoul s in (n, elim rest [ [] ↦ false | c ∷ t ↦ true ])

-- The stages of `_vfi_parse_desc`, the last one first: numbers and options, the parts of the place,
-- name and location, and the query. `strtoul` is `simple_strtoul` for base 16; `debug` is
-- CONFIG_VFI_DEBUG, without which a number that is followed by something else is no error.
module _ (strtoul : List ℕ → ℕ × List ℕ) (debug : Bool) where
  abbrev pub with_numbers :
      List (List ℕ)
      → List ℕ
      → Option (List ℕ)
      → List ℕ × Option (List ℕ) × Option (List ℕ)
      → Bool × Desc
  with_numbers options name location (place, soffset, sextent) =
      let (extent, dodgy_extent) = number strtoul sextent in
      let (offset, dodgy_offset) = number strtoul soffset in
      (
        debug && (dodgy_extent || dodgy_offset),
        record {
          name = elim location [ none ↦ place | some l ↦ name ];
          location = elim location [ none ↦ none | some l ↦ some place ];
          offset = offset;
          extent = extent % 2 ^ 32;
          query = options;
          ops = default_ops (get_option options (bytes "default_ops"));
        },
      )

  abbrev pub with_name : List (List ℕ) → List ℕ × Option (List ℕ) → Bool × Desc
  with_name options (name, location) =
      with_numbers options name location
        (split_numbers (elim location [ none ↦ name | some l ↦ l ]))

  abbrev pub with_query : List ℕ × Option (List ℕ) → Bool × Desc
  with_query (front, query) = with_name (parse_options query) (split_name front)

  -- `_vfi_parse_desc`: whether it gives an error, and the description.
  unfoldable pub parse : List ℕ → Bool × Desc
  parse s = with_query (name_remainder (after_scheme s) 63)

-- `vfi_str_dup` refuses a string that does not fit a page together with the pointers to its options.
abbrev pub argc : List ℕ → ℕ
argc [] = 1
argc (c ∷ s) = if c == 63 || c == 44 then suc (argc s) else argc s

abbrev pub str_dup_fits : List ℕ → Bool
str_dup_fits s = leb (length s + 1) 4096 && leb (((length s + 1) / 4 + 1) * 4 + argc s * 4) 4096

-- `vfi_parse_desc`; none is an error that leaves the description as it was.
unfoldable pub parse_desc : (List ℕ → ℕ × List ℕ) → Bool → List ℕ → Option (Bool × Desc)
parse_desc strtoul debug s = if str_dup_fits s then some (parse strtoul debug s) else none

-- The three parts of a bind. `empty` is a description that is cleared to zero.
abbrev pub empty : Desc
empty = record { name = []; location = none; offset = 0; extent = 0; query = []; ops = none }

-- A part that is there is parsed; an error or a refusal ends the parsing of the bind.
abbrev pub accepted : Option (Bool × Desc) → Option Desc
accepted none = none
accepted (some (failed, d)) = if failed then none else some d

unfoldable pub parse_part : (List ℕ → ℕ × List ℕ) → Bool → Option (List ℕ) → Option Desc
unfolding parse_desc
parse_part strtoul debug none = some empty
parse_part strtoul debug (some s) = accepted (parse_desc strtoul debug s)

-- `<dst>=<src>`
abbrev pub split_dst : Option (List ℕ) → Option (List ℕ) × Option (List ℕ)
split_dst none = (none, none)
split_dst (some t) = let (dst, src) = name_remainder t 61 in (some dst, src)

-- Where a bind is cut: the part in front of the slash keeps its scheme.
abbrev pub bind_parts :
    List ℕ → List ℕ × Option (List ℕ) → List ℕ × Option (List ℕ) × Option (List ℕ)
bind_parts scheme (x, dst_src) = let (dst, src) = split_dst dst_src in (scheme ++ x, dst, src)

abbrev pub split_scheme : List ℕ → Option ℕ → List ℕ × Option (List ℕ) × Option (List ℕ)
split_scheme s none = bind_parts [] (name_remainder s 47)
split_scheme s (some i) = bind_parts (take (i + 3) s) (name_remainder (drop (i + 3) s) 47)

unfoldable pub split_bind : List ℕ → List ℕ × Option (List ℕ) × Option (List ℕ)
split_bind s = split_scheme s (strstr s (bytes "://"))

-- The parts are parsed from the last to the first, until there is an error.
abbrev pub three : Option Desc → Option Desc → Option Desc → Option BindDesc
three none dst xfer = none
three (some s) none xfer = none
three (some s) (some d) none = none
three (some s) (some d) (some f) = some (record { xfer = f; dst = d; src = s })

abbrev pub parse_parts :
    (Option (List ℕ) → Option Desc) → List ℕ × Option (List ℕ) × Option (List ℕ) → Option BindDesc
parse_parts part (x, dst, src) = three (part src) (part dst) (part (some x))

-- `vfi_parse_bind`; none stands for an error.
unfoldable pub parse_bind : (List ℕ → ℕ × List ℕ) → Bool → List ℕ → Option BindDesc
unfolding split_bind parse_part
parse_bind strtoul debug s =
    if str_dup_fits s then parse_parts (parse_part strtoul debug) (split_bind s) else none
