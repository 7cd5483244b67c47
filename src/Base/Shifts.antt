-- ===== src/Base/Shifts.antt =====
-- Xor against shifts and masks, and rearranged.
use Prim.Native.Nat.{ℕ, zero, suc, ◌+◌, ◌*◌, ◌/◌, ◌%◌, ◌^◌, ◌<◌, bit_xor}
use mathlib.Core.Path.{◌≡◌, sym, ap, ap₂, ◌∙◌}
use native.Mathlib.Nat.{pow-suc, div-div-eq-div-mul}
use native.Mathlib.Omega.{arith}
use addnas_mldonkey.Base.Bits.{
  bit_xor_step, bit_xor_assoc, bit_xor_comm, bit_xor_cancel, bit_xor-lt, bit_xor_disjoint,
}

pub swap_last : (a b c : ℕ) → bit_xor (bit_xor a b) c ≡ bit_xor (bit_xor a c) b
swap_last a b c = rw (bit_xor_assoc a b c) (rw (bit_xor_comm b c) (sym (bit_xor_assoc a c b)))

pub cancel_both : (a b p : ℕ) → bit_xor (bit_xor a p) (bit_xor b p) ≡ bit_xor a b
cancel_both a b p =
    sym (bit_xor_assoc (bit_xor a p) b p)
    ∙ ap (λ (t : ℕ). bit_xor t p) (swap_last a p b)
    ∙ bit_xor_cancel (bit_xor a b) p

pub half-xor : (a b : ℕ) → bit_xor a b / 2 ≡ bit_xor (a / 2) (b / 2)
half-xor a b = omega (arith, bit_xor_step a b)

pub low-xor : (a b : ℕ) → bit_xor a b % 2 ≡ (a % 2 + b % 2) % 2
low-xor a b = omega (arith, bit_xor_step a b)

whole_by_one : (a : ℕ) → a / 2 ^ 0 ≡ a
whole_by_one a = omega arith

once : (a : ℕ) → a * 2 ^ 0 ≡ a
once a = omega arith

halves : (k n : ℕ) → n / 2 ^ suc k ≡ n / 2 / 2 ^ k
halves k n =
    let power : 2 ^ suc k ≡ 2 * 2 ^ k = omega (arith, pow-suc 2 k) in
    ap (λ (t : ℕ). n / t) power ∙ sym (div-div-eq-div-mul n 2 (2 ^ k))

doubled : (k a : ℕ) → a * 2 ^ suc k ≡ a * 2 ^ k * 2
doubled k a = omega (arith, ap (λ (t : ℕ). a * t) (pow-suc 2 k))

-- Xor goes through shifts and masks.
pub xor-shr : (k a b : ℕ) → bit_xor a b / 2 ^ k ≡ bit_xor (a / 2 ^ k) (b / 2 ^ k)
xor-shr zero a b = omega (arith, ap₂ bit_xor (whole_by_one a) (whole_by_one b))
xor-shr (suc k) a b =
    halves k (bit_xor a b)
    ∙ ap (λ (t : ℕ). t / 2 ^ k) (half-xor a b)
    ∙ xor-shr k (a / 2) (b / 2)
    ∙ ap₂ bit_xor (sym (halves k a)) (sym (halves k b))

pub xor-double : (a b : ℕ) → bit_xor (a * 2) (b * 2) ≡ bit_xor a b * 2
xor-double a b =
    let e1 : a * 2 / 2 ≡ a = omega arith in
    let e2 : b * 2 / 2 ≡ b = omega arith in
    omega (arith, bit_xor_step (a * 2) (b * 2), ap₂ bit_xor e1 e2)

pub xor-shl : (k a b : ℕ) → bit_xor (a * 2 ^ k) (b * 2 ^ k) ≡ bit_xor a b * 2 ^ k
xor-shl zero a b = omega (arith, ap₂ bit_xor (once a) (once b))
xor-shl (suc k) a b =
    ap₂ bit_xor (doubled k a) (doubled k b)
    ∙ xor-double (a * 2 ^ k) (b * 2 ^ k)
    ∙ ap (λ (t : ℕ). t * 2) (xor-shl k a b)
    ∙ sym (doubled k (bit_xor a b))

regroup : (p r q s : ℕ) → bit_xor (bit_xor p r) (bit_xor q s) ≡ bit_xor (bit_xor p q) (bit_xor r s)
regroup p r q s =
    sym (bit_xor_assoc (bit_xor p r) q s)
    ∙ ap (λ (t : ℕ). bit_xor t s) (swap_last p r q)
    ∙ bit_xor_assoc (bit_xor p q) r s

parts : (a : ℕ) → a ≡ bit_xor (a / 2 ^ 16 * 2 ^ 16) (a % 2 ^ 16)
parts a = omega (arith, bit_xor_disjoint 16 (a % 2 ^ 16) (a / 2 ^ 16) (omega arith))

pub xor-u16 : (a b : ℕ) → bit_xor a b % 2 ^ 16 ≡ bit_xor (a % 2 ^ 16) (b % 2 ^ 16)
xor-u16 a b =
    let p = a / 2 ^ 16 in
    let q = b / 2 ^ 16 in
    let low = bit_xor (a % 2 ^ 16) (b % 2 ^ 16) in
    let fits : low < 2 ^ 16 = bit_xor-lt 16 (a % 2 ^ 16) (b % 2 ^ 16) (omega arith) (omega arith) in
    let split : bit_xor a b ≡ bit_xor p q * 2 ^ 16 + low =
      ap₂ bit_xor (parts a) (parts b)
      ∙ regroup (p * 2 ^ 16) (a % 2 ^ 16) (q * 2 ^ 16) (b % 2 ^ 16)
      ∙ ap (λ (t : ℕ). bit_xor t low) (xor-shl 16 p q)
      ∙ bit_xor_disjoint 16 low (bit_xor p q) fits in
    omega (arith, split, fits)
