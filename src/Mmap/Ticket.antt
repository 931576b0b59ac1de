-- ===== src/Mmap/Ticket.antt =====
-- The ticket of a mapping: its address with the low half folded into the high half, so that the
-- ticket is a page-aligned offset for mmap(2).
use vfi.Prelude.{ℕ, ◌-◌, ◌*◌, ◌/◌, ◌%◌, ◌^◌, ◌≡◌, Bool, arith, bit_xor, ◌==◌, bit_xor-multiple}

-- `m & 0xffffffffUL`, `t & ~0xffff` and `(t & 0xffff) << 16`.
abbrev low_word : ℕ → ℕ
low_word m = m % 2 ^ 32

unfoldable pub to_ticket : ℕ → ℕ
to_ticket m = let t = low_word m in bit_xor (t - t % 2 ^ 16) (t % 2 ^ 16 * 2 ^ 16)

unfoldable pub is_ticket : ℕ → ℕ → Bool
is_ticket m t = let s = low_word m in bit_xor (s - s % 2 ^ 16) t / 2 ^ 16 == s % 2 ^ 16

-- The two halves of an address.
abbrev pub high : ℕ → ℕ
high m = low_word m / 2 ^ 16

abbrev pub low : ℕ → ℕ
low m = low_word m % 2 ^ 16

high_part : (m : ℕ) → low_word m - low_word m % 2 ^ 16 ≡ high m * 2 ^ 16
high_part m = omega arith

ticket_parts : (m : ℕ) → to_ticket m ≡ bit_xor (high m) (low m) * 2 ^ 16
unfolding to_ticket
ticket_parts m = rw high_part (bit_xor-multiple 16 (high m) (low m))
