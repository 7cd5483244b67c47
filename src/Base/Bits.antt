-- ===== src/Base/Bits.antt =====
-- Laws of the bit operations at every width, from one equation for the lowest digit.
use Prim.Native.Nat.{ℕ, zero, suc, ◌+◌, ◌*◌, ◌/◌, ◌%◌, ◌^◌, ◌≤◌, ◌<◌, min, max}
use Prim.Native.Nat.{bit_and, bit_or, bit_xor, digits, bitwise, differ}
use Prim.Native.Nat.{bit_and-bitwise, bit_or-bitwise, bit_xor-bitwise}
use mathlib.Core.Path.{◌≡◌, refl, sym, ap, ◌∙◌}
use native.Mathlib.Nat.{pow-suc}
use native.Mathlib.Decide.{dec_le}
use native.Mathlib.Omega.{arith}

-- `digits` counts its rounds down. A round more than the first number needs changes nothing.
module _ (z : ℕ → ℕ) (f : ℕ → ℕ → ℕ) where
  spare_round : (rounds a b : ℕ) → a ≤ rounds → digits z f (suc rounds) a b ≡ digits z f rounds a b
  spare_round zero zero b h = refl
  spare_round zero (suc a) b h = absurd (omega arith)
  spare_round (suc rounds) zero b h = refl
  spare_round (suc rounds) (suc a) b h =
      ap (λ t. t * 2 + f (suc a % 2) (b % 2)) (spare_round rounds (suc a / 2) (b / 2) (omega arith))

  enough_rounds : (rounds a b : ℕ) → a ≤ rounds → digits z f rounds a b ≡ bitwise z f a b
  enough_rounds zero zero b h = refl
  enough_rounds zero (suc a) b h = absurd (omega arith)
  enough_rounds (suc rounds) a b h = elim (dec_le a rounds) [
    | yes within ↦ spare_round rounds a b within ∙ enough_rounds rounds a b within
    | no above ↦ let top : suc rounds ≡ a = omega arith in ap (λ t. digits z f t a b) top
  ]

  lowest_digit :
      (m n : ℕ)
      → bitwise z f (suc m) n ≡ f (suc m % 2) (n % 2) + 2 * bitwise z f (suc m / 2) (n / 2)
  lowest_digit m n = omega (arith, enough_rounds m (suc m / 2) (n / 2) (omega arith))

-- The laws of the lowest digit.
pub bit_and_step : (a b : ℕ) → bit_and a b ≡ min (a % 2) (b % 2) + 2 * bit_and (a / 2) (b / 2)
bit_and_step zero b = omega (arith, bit_and-bitwise 0 b, bit_and-bitwise 0 (b / 2))
bit_and_step (suc a) b = omega (
  arith,
  bit_and-bitwise (suc a) b,
  bit_and-bitwise (suc a / 2) (b / 2),
  lowest_digit (λ y. 0) min a b,
)

pub bit_or_step : (a b : ℕ) → bit_or a b ≡ max (a % 2) (b % 2) + 2 * bit_or (a / 2) (b / 2)
bit_or_step zero b = omega (arith, bit_or-bitwise 0 b, bit_or-bitwise 0 (b / 2))
bit_or_step (suc a) b = omega (
  arith,
  bit_or-bitwise (suc a) b,
  bit_or-bitwise (suc a / 2) (b / 2),
  lowest_digit (λ y. y) max a b,
)

differ_bit : (x y : ℕ) → x < 2 → y < 2 → differ x y ≡ (x + y) % 2
differ_bit zero y p q = omega arith
differ_bit (suc zero) zero p q = refl
differ_bit (suc zero) (suc zero) p q = refl
differ_bit (suc zero) (suc (suc y)) p q = absurd (omega arith)
differ_bit (suc (suc x)) y p q = absurd (omega arith)

pub bit_xor_step : (a b : ℕ) → bit_xor a b ≡ (a % 2 + b % 2) % 2 + 2 * bit_xor (a / 2) (b / 2)
bit_xor_step zero b = omega (arith, bit_xor-bitwise 0 b, bit_xor-bitwise 0 (b / 2))
bit_xor_step (suc a) b = omega (
  arith,
  bit_xor-bitwise (suc a) b,
  bit_xor-bitwise (suc a / 2) (b / 2),
  lowest_digit (λ y. y) differ a b,
  differ_bit (suc a % 2) (b % 2) (omega arith) (omega arith),
)

-- The results fit the width that the operands fit.
pub bit_and-lt : (k a b : ℕ) → a < 2 ^ k → bit_and a b < 2 ^ k
bit_and-lt zero zero b h = rw (bit_and-bitwise 0 b) (omega arith)
bit_and-lt zero (suc a) b h = absurd (omega arith)
bit_and-lt (suc k) a b h =
    omega (arith, pow-suc 2 k, bit_and_step a b, bit_and-lt k (a / 2) (b / 2))

pub bit_or-lt : (k a b : ℕ) → a < 2 ^ k → b < 2 ^ k → bit_or a b < 2 ^ k
bit_or-lt zero zero zero h g = omega arith
bit_or-lt zero zero (suc b) h g = absurd (omega arith)
bit_or-lt zero (suc a) b h g = absurd (omega arith)
bit_or-lt (suc k) a b h g = omega (arith, pow-suc 2 k, bit_or_step a b, bit_or-lt k (a / 2) (b / 2))

pub bit_xor-lt : (k a b : ℕ) → a < 2 ^ k → b < 2 ^ k → bit_xor a b < 2 ^ k
bit_xor-lt zero zero zero h g = omega arith
bit_xor-lt zero zero (suc b) h g = absurd (omega arith)
bit_xor-lt zero (suc a) b h g = absurd (omega arith)
bit_xor-lt (suc k) a b h g =
    omega (arith, pow-suc 2 k, bit_xor_step a b, bit_xor-lt k (a / 2) (b / 2))

-- Induction by halves, for laws that go down digit by digit.
by_halves :
    (P : ℕ → Type 0)
    → P 0
    → ((a : ℕ) → P (suc a / 2) → P (suc a))
    → (rounds a : ℕ) → a ≤ rounds
    → P a
by_halves P base step rounds zero h = base
by_halves P base step zero (suc a) h = absurd (omega arith)
by_halves P base step (suc rounds) (suc a) h =
    step a (by_halves P base step rounds (suc a / 2) (omega arith))

pub bit_xor-zero_left : (b : ℕ) → bit_xor 0 b ≡ b
bit_xor-zero_left b = bit_xor-bitwise 0 b

pub bit_xor-zero_right : (a : ℕ) → bit_xor a 0 ≡ a
bit_xor-zero_right a =
    by_halves (λ n. bit_xor n 0 ≡ n) refl (λ n ih. omega (arith, bit_xor_step (suc n) 0, ih)) a a
      (omega arith)

pub bit_xor_self : (a : ℕ) → bit_xor a a ≡ 0
bit_xor_self a =
    by_halves (λ n. bit_xor n n ≡ 0) refl (λ n ih. omega (arith, bit_xor_step (suc n) (suc n), ih))
      a a (omega arith)

pub bit_or-zero : (a : ℕ) → bit_or a 0 ≡ a
bit_or-zero a =
    by_halves (λ n. bit_or n 0 ≡ n) refl (λ n ih. omega (arith, bit_or_step (suc n) 0, ih)) a a
      (omega arith)

pub bit_and-zero : (a : ℕ) → bit_and a 0 ≡ 0
bit_and-zero a =
    by_halves (λ n. bit_and n 0 ≡ 0) refl (λ n ih. omega (arith, bit_and_step (suc n) 0, ih)) a a
      (omega arith)

-- Xoring twice with the same number gives the first number back.
cancel_step :
    (a b : ℕ) → bit_xor (bit_xor (a / 2) (b / 2)) (b / 2) ≡ a / 2 → bit_xor (bit_xor a b) b ≡ a
cancel_step a b ih =
    let half : bit_xor a b / 2 ≡ bit_xor (a / 2) (b / 2) = omega (arith, bit_xor_step a b) in
    let low : bit_xor a b % 2 ≡ (a % 2 + b % 2) % 2 = omega (arith, bit_xor_step a b) in
    omega (arith, bit_xor_step (bit_xor a b) b, ap (λ (t : ℕ). bit_xor t (b / 2)) half, low, ih)

pub bit_xor_cancel : (a b : ℕ) → bit_xor (bit_xor a b) b ≡ a
bit_xor_cancel a =
    by_halves (λ n. (b : ℕ) → bit_xor (bit_xor n b) b ≡ n)
      (λ b. ap (λ t. bit_xor t b) (bit_xor-zero_left b) ∙ bit_xor_self b)
      (λ n ih b. cancel_step (suc n) b (ih (b / 2))) a a (omega arith)

pub bit_xor_comm : (a b : ℕ) → bit_xor a b ≡ bit_xor b a
bit_xor_comm a =
    by_halves (λ n. (b : ℕ) → bit_xor n b ≡ bit_xor b n)
      (λ b. bit_xor-zero_left b ∙ sym (bit_xor-zero_right b))
      (λ n ih b. omega (arith, bit_xor_step (suc n) b, bit_xor_step b (suc n), ih (b / 2))) a a
      (omega arith)

-- A number shifted left by `k` and one of `k` bits have no digit in common.
pub bit_or_disjoint : (k r q : ℕ) → r < 2 ^ k → bit_or (q * 2 ^ k) r ≡ q * 2 ^ k + r
bit_or_disjoint zero zero q h = omega (arith, bit_or-zero (q * 1))
bit_or_disjoint zero (suc r) q h = absurd (omega arith)
bit_or_disjoint (suc k) r q h =
    let doubled : q * 2 ^ suc k ≡ q * 2 ^ k * 2 =
      omega (arith, ap (λ (t : ℕ). q * t) (pow-suc 2 k)) in
    let half : q * 2 ^ k * 2 / 2 ≡ q * 2 ^ k = omega arith in
    let ih = bit_or_disjoint k (r / 2) q (omega (arith, pow-suc 2 k)) in
    rw doubled
      (omega (arith, bit_or_step (q * 2 ^ k * 2) r, ap (λ (t : ℕ). bit_or t (r / 2)) half, ih))

-- What a mask of `k` bits leaves fits `k` bits.
pub bit_and-lt_mask : (k a b : ℕ) → b < 2 ^ k → bit_and a b < 2 ^ k
bit_and-lt_mask zero a zero h = omega (arith, bit_and-zero a)
bit_and-lt_mask zero a (suc b) h = absurd (omega arith)
bit_and-lt_mask (suc k) a b h =
    omega (arith, pow-suc 2 k, bit_and_step a b, bit_and-lt_mask k (a / 2) (b / 2))

assoc_step :
    (a b c : ℕ)
    → bit_xor (bit_xor (a / 2) (b / 2)) (c / 2) ≡ bit_xor (a / 2) (bit_xor (b / 2) (c / 2))
    → bit_xor (bit_xor a b) c ≡ bit_xor a (bit_xor b c)
assoc_step a b c ih =
    let left : bit_xor a b / 2 ≡ bit_xor (a / 2) (b / 2) = omega (arith, bit_xor_step a b) in
    let right : bit_xor b c / 2 ≡ bit_xor (b / 2) (c / 2) = omega (arith, bit_xor_step b c) in
    let low : bit_xor a b % 2 ≡ (a % 2 + b % 2) % 2 = omega (arith, bit_xor_step a b) in
    let low' : bit_xor b c % 2 ≡ (b % 2 + c % 2) % 2 = omega (arith, bit_xor_step b c) in
    omega (
      arith,
      bit_xor_step (bit_xor a b) c,
      bit_xor_step a (bit_xor b c),
      ap (λ (t : ℕ). bit_xor t (c / 2)) left,
      ap (λ (t : ℕ). bit_xor (a / 2) t) right,
      low,
      low',
      ih,
    )

pub bit_xor_assoc : (a b c : ℕ) → bit_xor (bit_xor a b) c ≡ bit_xor a (bit_xor b c)
bit_xor_assoc a =
    by_halves (λ n. (b c : ℕ) → bit_xor (bit_xor n b) c ≡ bit_xor n (bit_xor b c))
      (λ b c. ap (λ t. bit_xor t c) (bit_xor-zero_left b) ∙ sym (bit_xor-zero_left (bit_xor b c)))
      (λ n ih b c. assoc_step (suc n) b c (ih (b / 2) (c / 2))) a a (omega arith)

pub bit_xor_disjoint : (k r q : ℕ) → r < 2 ^ k → bit_xor (q * 2 ^ k) r ≡ q * 2 ^ k + r
bit_xor_disjoint zero zero q h = omega (arith, bit_xor-zero_right (q * 1))
bit_xor_disjoint zero (suc r) q h = absurd (omega arith)
bit_xor_disjoint (suc k) r q h =
    let doubled : q * 2 ^ suc k ≡ q * 2 ^ k * 2 =
      omega (arith, ap (λ (t : ℕ). q * t) (pow-suc 2 k)) in
    let half : q * 2 ^ k * 2 / 2 ≡ q * 2 ^ k = omega arith in
    let ih = bit_xor_disjoint k (r / 2) q (omega (arith, pow-suc 2 k)) in
    rw doubled
      (omega (arith, bit_xor_step (q * 2 ^ k * 2) r, ap (λ (t : ℕ). bit_xor t (r / 2)) half, ih))

mask_step : (a m : ℕ) → bit_and a (suc (m * 2)) ≡ a % 2 + 2 * bit_and (a / 2) m
mask_step a m =
    let half : suc (m * 2) / 2 ≡ m = omega arith in
    omega (arith, bit_and_step a (suc (m * 2)), ap (λ (t : ℕ). bit_and (a / 2) t) half)

nibble : (a : ℕ) → bit_and a 15 ≡ a % 16
nibble a = omega (
  arith,
  mask_step a 7,
  mask_step (a / 2) 3,
  mask_step (a / 2 / 2) 1,
  mask_step (a / 2 / 2 / 2) 0,
  bit_and-zero (a / 2 / 2 / 2 / 2),
)

pub bit_and_byte : (a : ℕ) → bit_and a 255 ≡ a % 256
bit_and_byte a = omega (
  arith,
  mask_step a 127,
  mask_step (a / 2) 63,
  mask_step (a / 2 / 2) 31,
  mask_step (a / 2 / 2 / 2) 15,
  nibble (a / 2 / 2 / 2 / 2),
)
