-- ===== src/Prelude/Bits.antt =====
-- Laws of `^` on words, from the digit recursion that the native operation stands for.
use Prim.Native.Nat.{
  ℕ, zero, suc, ◌+◌, ◌*◌, ◌/◌, ◌%◌, ◌^◌, ◌≤◌, ◌<◌, bit_xor, digits, bitwise, differ,
  bit_xor-bitwise,
}
use mathlib.Core.Path.{◌≡◌, refl, ◌∙◌, ap}
use native.Mathlib.Nat.{le_refl, pow-suc, mul-one, div-one, div-div-eq-div-mul}
use native.Mathlib.Omega.{arith}
use native.Mathlib.Decide.{dec_lt}

abbrev keep : ℕ → ℕ
keep y = y

-- One unit of fuel beyond the number itself changes nothing, so no fuel does.
one_more : (n a b : ℕ) → a ≤ n → digits keep differ (suc n) a b ≡ digits keep differ n a b
one_more zero zero b h = refl
one_more (suc n) zero b h = refl
one_more zero (suc a) b h = absurd (omega arith)
one_more (suc n) (suc a) b h = rw (one_more n (suc a / 2) (b / 2) (omega arith))

settled : (n a b : ℕ) → a ≤ n → digits keep differ n a b ≡ bitwise keep differ a b
settled zero zero b h = refl
settled zero (suc a) b h = absurd (omega arith)
settled (suc n) a b h = elim (dec_lt n a) [
  | yes k ↦ let e : a ≡ suc n = omega arith in rw e
  | no k ↦ one_more n a b (omega arith) ∙ settled n a b (omega arith)
]

pub zero-bit_xor : (b : ℕ) → bit_xor 0 b ≡ b
zero-bit_xor b = simp bit_xor-bitwise

-- The lowest binary digit splits off.
pub bit_xor_step : (a b : ℕ) → bit_xor a b ≡ bit_xor (a / 2) (b / 2) * 2 + differ (a % 2) (b % 2)
bit_xor_step zero b = omega (arith, zero-bit_xor b, zero-bit_xor (b / 2))
bit_xor_step (suc a) b =
    let half = settled a (suc a / 2) (b / 2) (omega arith) in
    let left = bit_xor-bitwise (suc a) b in
    omega (arith, half, left, bit_xor-bitwise (suc a / 2) (b / 2))

-- On the digits 0 and 1.
differ_digits : (x y : ℕ) → x < 2 → y < 2 → (differ x y < 2) × (differ x (differ x y) ≡ y)
differ_digits zero y p q = (q, refl)
differ_digits (suc zero) zero p q = (omega arith, refl)
differ_digits (suc zero) (suc zero) p q = (omega arith, refl)
differ_digits (suc zero) (suc (suc y)) p q = absurd (omega arith)
differ_digits (suc (suc x)) y p q = absurd (omega arith)

bit_xor_cancel_fuel : (n a b : ℕ) → a ≤ n → bit_xor a (bit_xor a b) ≡ b
bit_xor_cancel_fuel zero zero b h = zero-bit_xor _ ∙ zero-bit_xor b
bit_xor_cancel_fuel zero (suc a) b h = absurd (omega arith)
bit_xor_cancel_fuel (suc n) zero b h = zero-bit_xor _ ∙ zero-bit_xor b
bit_xor_cancel_fuel (suc n) (suc a) b h =
    let x : ℕ = bit_xor (suc a) b in
    let d = differ_digits (suc a % 2) (b % 2) (omega arith) (omega arith) in
    let half : x / 2 ≡ bit_xor (suc a / 2) (b / 2) = omega (arith, bit_xor_step (suc a) b) in
    let low : x % 2 ≡ differ (suc a % 2) (b % 2) = omega (arith, bit_xor_step (suc a) b) in
    bit_xor_step (suc a) x
    ∙ rw (half, low, bit_xor_cancel_fuel n (suc a / 2) (b / 2) (omega arith), d.1) (omega arith)

-- `^` by the same word twice gives the other word back.
pub bit_xor_cancel : (a b : ℕ) → bit_xor a (bit_xor a b) ≡ b
bit_xor_cancel a b = bit_xor_cancel_fuel a a b (le_refl a)

bit_xor-half : (a b : ℕ) → bit_xor a b / 2 ≡ bit_xor (a / 2) (b / 2)
bit_xor-half a b =
    omega (arith, bit_xor_step a b, (differ_digits (a % 2) (b % 2) (omega arith) (omega arith)).0)

-- `(a ^ b) >> k` is `(a >> k) ^ (b >> k)`.
pub bit_xor-shift : (k a b : ℕ) → bit_xor a b / 2 ^ k ≡ bit_xor (a / 2 ^ k) (b / 2 ^ k)
bit_xor-shift zero a b = simp div-one
bit_xor-shift (suc k) a b = rw (pow-suc 2 k) (
    rw
      (
        ← div-div-eq-div-mul (bit_xor a b) (2 ^ k) 2,
        ← div-div-eq-div-mul a (2 ^ k) 2,
        ← div-div-eq-div-mul b (2 ^ k) 2,
        bit_xor-shift k a b,
      )
      (bit_xor-half (a / 2 ^ k) (b / 2 ^ k)))

bit_xor_self_fuel : (n a : ℕ) → a ≤ n → bit_xor a a ≡ 0
bit_xor_self_fuel n zero h = zero-bit_xor 0
bit_xor_self_fuel zero (suc a) h = absurd (omega arith)
bit_xor_self_fuel (suc n) (suc a) h =
    bit_xor_step (suc a) (suc a)
    ∙ rw (bit_xor_self_fuel n (suc a / 2) (omega arith), same (suc a % 2) (omega arith)) refl
  where
    same : (x : ℕ) → x < 2 → differ x x ≡ 0
    same zero p = refl
    same (suc zero) p = refl
    same (suc (suc x)) p = absurd (omega arith)

pub bit_xor_self : (a : ℕ) → bit_xor a a ≡ 0
bit_xor_self a = bit_xor_self_fuel a a (le_refl a)

bit_xor-double : (a b : ℕ) → bit_xor (a * 2) (b * 2) ≡ bit_xor a b * 2
bit_xor-double a b =
    bit_xor_step (a * 2) (b * 2) ∙ rw (half a, half b, even a, even b) (omega arith)
  where
    half : (x : ℕ) → x * 2 / 2 ≡ x
    half x = omega arith

    even : (x : ℕ) → x * 2 % 2 ≡ 0
    even x = omega arith

two_pow-suc : (x k : ℕ) → x * 2 ^ suc k ≡ x * 2 ^ k * 2
two_pow-suc x k = rw pow-suc (omega arith)

-- `^` of words that are multiples of 2 ^ k.
pub bit_xor-multiple : (k a b : ℕ) → bit_xor (a * 2 ^ k) (b * 2 ^ k) ≡ bit_xor a b * 2 ^ k
bit_xor-multiple zero a b = simp mul-one
bit_xor-multiple (suc k) a b =
    rw
      (
        two_pow-suc a k,
        two_pow-suc b k,
        two_pow-suc (bit_xor a b) k,
        bit_xor-double (a * 2 ^ k) (b * 2 ^ k),
      )
      (ap (λ x. x * 2) (bit_xor-multiple k a b))

-- `^` does not leave the words of k bits.
pub bit_xor-lt : (k a b : ℕ) → a < 2 ^ k → b < 2 ^ k → bit_xor a b < 2 ^ k
bit_xor-lt zero a b h l =
    let ea : a ≡ 0 = omega arith in let eb : b ≡ 0 = omega arith in rw (ea, eb) (omega arith)
bit_xor-lt (suc k) a b h l = omega (
  arith,
  pow-suc 2 k,
  bit_xor-half a b,
  bit_xor-lt k (a / 2) (b / 2) (omega (arith, pow-suc 2 k)) (omega (arith, pow-suc 2 k)),
)
