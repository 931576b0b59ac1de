-- ===== src/Parse/Tests.antt =====
-- Numbers in hexadecimal, and a bind between two boards.
use vfi.Prelude.{
  ℕ, zero, suc, ◌+◌, ◌-◌, ◌*◌, ◌/◌, ◌%◌, ◌≡◌, refl, Bool, true, false, ◌&&◌, List, [], ◌∷◌, none,
  some, if◌then◌else◌, leb, ltb, ◌==◌, bytes,
}
use vfi.Parse.Desc.{
  name_remainder, split_name, split_numbers, parse_options, get_option, parse, parse_bind,
}
use vfi.Parse.Print.{Source, print, meant, parse-print, print_bind, parse_bind-print}

abbrev digit : ℕ → ℕ
digit n = if ltb n 10 then 48 + n else 87 + n

abbrev digits : ℕ → ℕ → List ℕ → List ℕ
digits zero n s = s
digits (suc fuel) n s =
    let more = digits fuel (n / 16) (digit (n % 16) ∷ s) in
    if n / 16 == 0 then digit (n % 16) ∷ s else more

abbrev pub hex : ℕ → List ℕ
hex n = digits 16 n []

abbrev is_digit : ℕ → Bool
is_digit c = (leb 48 c && leb c 57)

abbrev read_from : ℕ → List ℕ → ℕ × List ℕ
read_from n [] = (n, [])
read_from n (c ∷ s) =
    let small = read_from (n * 16 + (c - 48)) s in
    let large = read_from (n * 16 + (c - 87)) s in
    if is_digit c then small else if leb 97 c && leb c 102 then large else (n, c ∷ s)

abbrev pub strtoul : List ℕ → ℕ × List ℕ
strtoul = read_from 0

abbrev pub source : List ℕ → List ℕ → Source
source name val = record {
  first = 98;
  name = name;
  location = bytes "board.net";
  offset = 4096;
  extent = 2748;
  option = (bytes "request", val);
  options = (bytes "default_ops", bytes "public") ∷ [];
}

written_out :
    print hex (source (bytes "uf") (bytes "7"))
    ≡ bytes "buf.board.net#1000:abc?request(7),default_ops(public)"
written_out = refl

-- Extent and offset may change places, and dots in front are skipped.
other_order : parse strtoul true (bytes "smb_find://..buf.board:abc#1000") ≡ (
  false,
  record {
    name = bytes "buf";
    location = some (bytes "board");
    offset = 4096;
    extent = 2748;
    query = [];
    ops = none;
  },
)
unfolding parse name_remainder split_name split_numbers parse_options get_option
other_order = refl

-- An option is found by a part of its name.
found_by_part :
    get_option (bytes "nickname=x" ∷ bytes "name=y" ∷ []) (bytes "name") ≡ some (bytes "x")
unfolding get_option
found_by_part = refl

parse-print_example :
    parse strtoul true (print hex (source (bytes "uf") (bytes "7")))
    ≡ (false, meant (source (bytes "uf") (bytes "7")))
parse-print_example =
    parse-print strtoul true hex (source (bytes "uf") (bytes "7")) (refl, refl) refl

parse_bind-print_example :
    parse_bind strtoul false (
      print_bind strtoul false hex
        (source (bytes "x") [])
        (source (bytes "d") (bytes "1"))
        (source (bytes "s") (bytes "2")))
    ≡ some (record {
      xfer = meant (source (bytes "x") []);
      dst = meant (source (bytes "d") (bytes "1"));
      src = meant (source (bytes "s") (bytes "2"));
    })
parse_bind-print_example =
    parse_bind-print strtoul false hex (source (bytes "x") []) (source (bytes "d") (bytes "1"))
      (source (bytes "s") (bytes "2")) (refl, refl) (refl, refl) (refl, refl) refl refl refl refl
      refl refl refl refl refl
