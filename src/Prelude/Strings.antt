-- ===== src/Prelude/Strings.antt =====
-- C strings as lists of bytes, and the functions of the C library on them.
use Prim.Native.Nat.{ℕ, zero, suc}
use Prim.Native.Char.{code}
use Prim.Native.String.{String, [], ◌∷◌}
use mathlib.Core.List.{List, [] as []ᴸ, ◌∷◌ as ◌∷ᴸ◌}
use mathlib.Core.Option.{Option, none, some, map}
use mathlib.Core.Bool.{Bool, true, false, ◌&&◌}
use vfi.Prelude.Tests.{◌==◌, if◌then◌else◌}

-- A literal of the source, in ASCII.
abbrev pub bytes : String → List ℕ
bytes [] = []ᴸ
bytes (c ∷ s) = code c ∷ᴸ bytes s

abbrev pub starts_with : List ℕ → List ℕ → Bool
starts_with s []ᴸ = true
starts_with []ᴸ (d ∷ᴸ t) = false
starts_with (c ∷ᴸ s) (d ∷ᴸ t) = (c == d) && starts_with s t

-- `strstr`: where the first occurrence of `t` begins, and `strchr`.
abbrev pub strstr : List ℕ → List ℕ → Option ℕ
strstr []ᴸ t = if starts_with []ᴸ t then some zero else none
strstr (c ∷ᴸ s) t = if starts_with (c ∷ᴸ s) t then some zero else map suc (strstr s t)

abbrev pub strchr : List ℕ → ℕ → Option ℕ
strchr []ᴸ d = none
strchr (c ∷ᴸ s) d = if c == d then some zero else map suc (strchr s d)
