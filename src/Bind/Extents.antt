-- ===== src/Bind/Extents.antt =====
-- `valid_extents` (vfi_ops.c): the extents of `<xfer>/<dst>=<src>` must agree; 0 stands for one that
-- was not given, and is filled in.
use vfi.Prelude.{
  ◌↔◌, subst, ap, ℕ, ◌≡◌, ◌≢◌, ◌⊎◌, Bool, true, false, not, ◌&&◌, ◌||◌, arith, ◌==◌, if◌then◌else◌,
}

-- The extents of `struct vfi_bind_param`.
pub record Extents : Type 0 where
  pub xfer : ℕ
  pub dst : ℕ
  pub src : ℕ

-- The three substitutions, each reading what the one above it wrote.
fill_dst : Extents → Extents
fill_dst x = if x.dst == 0 then record x { dst = x.src } else x

fill_src : Extents → Extents
fill_src x = if x.src == 0 then record x { src = x.dst } else x

fill_xfer : Extents → Extents
fill_xfer x = if x.xfer == 0 then record x { xfer = x.dst } else x

-- The result of the function, and the parameters after it.
unfoldable pub valid_extents : Extents → Bool × Extents
unfolding fill_dst fill_src fill_xfer
valid_extents x =
    if x.xfer == 0 && x.dst == 0 && x.src == 0
    then (false, x)
    else if x.dst == 0 && x.src == 0
    then (true, record x { dst = x.xfer; src = x.xfer })
    else let y = fill_xfer (fill_src (fill_dst x)) in
      if not (y.xfer == y.dst) || not (y.xfer == y.src) || not (y.dst == y.src)
      then (false, y)
      else (true, y)

-- An extent that was not given, or is `e`.
abbrev pub Fits : ℕ → ℕ → Type 0
Fits e n = (n ≡ 0) ⊎ (n ≡ e)

-- The extents that a bind may be given: all that are not 0 are the same, and at least one is not 0.
abbrev pub Agree : Extents → ℕ → Type 0
Agree x e =
    (e ≢ 0)
    × Fits e x.xfer
    × Fits e x.dst
    × Fits e x.src
    × ((x.xfer ≡ e) ⊎ (x.dst ≡ e) ⊎ (x.src ≡ e))

valid_extents_complete :
    (x : Extents) (e : ℕ)
    → Agree x e
    → valid_extents x ≡ (true, record { xfer = e; dst = e; src = e })
unfolding valid_extents
valid_extents_complete x e h = ground arith

valid_extents_sound : (x : Extents) → (valid_extents x).0 ≡ true → Agree x (valid_extents x).1.xfer
unfolding valid_extents
valid_extents_sound x h = ground arith

-- Extents are accepted, and all three become `e`, if and only if those that were given agree on `e`.
pub valid_extents_iff :
    (x : Extents) (e : ℕ)
    → Agree x e ↔ (valid_extents x ≡ (true, record { xfer = e; dst = e; src = e }))
valid_extents_iff x e = (
  valid_extents_complete x e,
  λ h. subst (Agree x) (ap (λ p. p.1.xfer) h) (valid_extents_sound x (ap (λ p. p.0) h)),
)
