-- ===== src/Local/Pages.antt =====
-- The pages of a part of a buffer, by the macros of vfi_smb.h.
use vfi.Prelude.{ℕ, zero, suc, ◌+◌, ◌-◌, ◌*◌, ◌/◌, ◌^◌, ◌≤◌, ◌<◌, ◌≡◌, refl, arith, ◌⊎◌, inl, inr}
use vfi.Local.Split.{next_size, num_dma, start_page, end_page, start_offset, start_size, end_size}

-- The bytes in the pages that are left.
abbrev pub rest : ℕ → ℕ → ℕ
rest end zero = 0
rest end (suc left) = next_size end left + rest end left

-- Only the last page may be a part of one.
pub next_size-cases :
    (end left : ℕ)
    → end < 4096
    → (0 < next_size end left)
      × (next_size end left ≤ 4096)
      × ((next_size end left ≡ 4096) ⊎ (left ≡ 0))
next_size-cases end left h = ground arith

-- All pages but the last are whole.
rest-pages :
    (end left : ℕ)
    → ((left ≡ 0) × (rest end left ≡ 0))
      ⊎ ((0 < left) × (end ≡ 0) × (rest end left ≡ left * 4096))
      ⊎ ((0 < left) × (0 < end) × (rest end left ≡ (left - 1) * 4096 + end))
rest-pages end zero = inl (refl, refl)
rest-pages end (suc zero) = ground arith
rest-pages end (suc (suc k)) = elim (rest-pages end (suc k)) [
  | inl (e, h) ↦ absurd (omega arith)
  | inr (inl (p, e, h)) ↦ inr (inl (omega arith, e, omega (arith, h, whole k)))
  | inr (inr (p, e, h)) ↦ inr (inr (omega arith, e, omega (arith, h, whole k)))
]
  where
    whole : (k : ℕ) → next_size end (suc k) ≡ 4096
    whole k = ground arith

-- The pages of a part of a buffer: one or more, the first used from the start offset on, all used to
-- their end but the last, and together as long as the part.
pub pages_fit :
    (b d n : ℕ)
    → 0 < n
    → b + d + n < 2 ^ 43
    → (left : ℕ) × (num_dma b d n ≡ suc left)
      × (0 < start_size b d n)
      × (start_size b d n + rest (end_size b d n) left ≡ n)
      × (start_offset b d + start_size b d n ≤ 4096)
      × ((left ≡ 0) ⊎ (start_offset b d + start_size b d n ≡ 4096))
      × (end_size b d n < 4096)
      × (start_page b d * 4096 + start_offset b d ≡ b + d)
unfolding num_dma start_page end_page start_offset start_size end_size
pages_fit b d n some small = (
  (b + d + n - 1) / 4096 - (b + d) / 4096,
  omega arith,
  ground arith,
  ground (arith, rest-pages (end_size b d n) ((b + d + n - 1) / 4096 - (b + d) / 4096)),
  ground arith,
  ground arith,
  ground arith,
  omega arith,
)
