-- ===== src/Forward/Requests.antt =====
-- The texts of the commands that the members of vfi_fabric_ops.c send.
use vfi.Prelude.{ℕ, List, ◌∷◌, ◌++◌, Option, none, some, bytes}
use vfi.Ops.Model.{ℤ, Desc, BindDesc}
use vfi.Parse.Desc.{get_option}
use vfi.Forward.Model.{Text}

-- "%s"; the kernel prints NULL as "<NULL>".
abbrev pub string : Option (List ℕ) → List ℕ
string none = bytes "<NULL>"
string (some s) = s

-- "%s.%s"
abbrev pub at : Desc → List ℕ
at d = d.name ++ 46 ∷ string d.location

module _ (t : Text) where
  -- "%s.%s#%llx"
  abbrev pub at_offset : Desc → List ℕ
  at_offset d = d.name ++ 46 ∷ (string d.location ++ 35 ∷ t.hex d.offset)

  -- "%s.%s#%llx:%x"
  abbrev pub spot : Desc → List ℕ
  spot d = d.name ++ 46 ∷ ((string d.location ++ 35 ∷ t.hex d.offset) ++ 58 ∷ t.hex d.extent)

  -- "#%llx:%x", the name of a bind in its xfer.
  abbrev pub bind_name : Desc → List ℕ
  bind_name d = 35 ∷ (t.hex d.offset ++ 58 ∷ t.hex d.extent)

  -- "%s.%s#%llx:%x/%s.%s#%llx:%x=%s.%s#%llx:%x", with what stands behind the dst and the src.
  abbrev pub bind_spot : BindDesc → List ℕ → List ℕ → List ℕ
  bind_spot d on_dst on_src =
      spot d.xfer ++ 47 ∷ ((spot d.dst ++ on_dst) ++ 61 ∷ (spot d.src ++ on_src))

-- "event_name(%s)"
abbrev pub event_name : List ℕ → List ℕ
event_name s = bytes "event_name(" ++ (s ++ bytes ")")

abbrev pub event_name_of : Desc → List ℕ
event_name_of d = event_name (string (get_option d.query (bytes "event_name")))

-- "event_id(%d)"
abbrev pub event_id : Text → ℤ → List ℕ
event_id t n = bytes "event_id(" ++ (t.dec n ++ bytes ")")
