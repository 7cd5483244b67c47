-- ===== src/Che3/Read.antt =====
-- `get_bits` gives back the pattern that `add_bits` wrote.
use addnas_mldonkey.Base.{
  ℕ, zero, suc, ◌+◌, ◌*◌, ◌/◌, ◌%◌, ◌^◌, ◌<◌, ◌≤◌, ◌≡◌, ap, ap₂, ◌∙◌, arith, bit_and, bit_or,
  bit_or_disjoint, bit_and_step, bit_and-zero, some, List, length, get_elem?-eq-get_or, get_or,
  AllBelow,
}
use native.Mathlib.Nat.{
  pow-suc, pow-le-pow_right, one-le-pow, mul-le-mul_left, div-add-mod', mod-lt,
  add-mul-mod_self_right, mod-eq_of_lt,
}
use addnas_mldonkey.Che3.{get_bit, bits_loop, get_bits, add_bits}
use addnas_mldonkey.Che3.Bits.{bit_at, low_bits}
use addnas_mldonkey.Che3.Stream.{HasPattern, add_bits_lem}

last_bit : (a : ℕ) → bit_and a 1 ≡ a % 2
last_bit a = omega (arith, bit_and_step a 1, bit_and-zero (a / 2))

get_bit_lem :
    (bytes : List ℕ) (p : ℕ)
    → p / 8 < length bytes
    → p + 1 < 2 ^ 64
    → get_bit bytes p ≡ some (bit_at bytes p, p + 1)
unfolding get_bit bit_at
get_bit_lem bytes p h room =
    let next : (p + 1) % 2 ^ 64 ≡ p + 1 = omega arith in
    rw (get_elem?-eq-get_or bytes (p / 8) 0 h) rw (low_bits p) rw next
      (ap (λ (b : ℕ). some (b, p + 1)) (last_bit (get_or bytes (p / 8) 0 / 2 ^ (p % 8))))

pushed : (res bit : ℕ) → res * 2 < 2 ^ 64 → bit < 2 → bit_or (res * 2 % 2 ^ 64) bit ≡ res * 2 + bit
pushed res bit h hb =
    let whole : res * 2 % 2 ^ 64 ≡ res * 2 ^ 1 = omega arith in
    rw whole (bit_or_disjoint 1 bit res hb)

-- The bit above the `m` lowest.
mod_split : (pattern m : ℕ) → 0 < m → pattern % (m * 2) ≡ pattern / m % 2 * m + pattern % m
mod_split pattern m pos =
    let a = pattern / m in
    let small = mod-lt pattern pos in
    let outer = div-add-mod' pattern m in
    let inner : a ≡ a / 2 * 2 + a % 2 = omega arith in
    let scaled = ap (λ (t : ℕ). t * m) inner in
    let whole : pattern ≡ (a % 2 * m + pattern % m) + a / 2 * (m * 2) =
      omega (arith, outer, scaled) in
    let bit : a % 2 ≤ 1 = omega arith in
    let top : m * (a % 2) ≤ m * 1 = mul-le-mul_left m bit in
    let fits : a % 2 * m + pattern % m < m * 2 = omega (arith, top, small) in
    ap (λ (t : ℕ). t % (m * 2)) whole
    ∙ add-mul-mod_self_right (a % 2 * m + pattern % m) (a / 2) (m * 2)
    ∙ mod-eq_of_lt fits

bits_loop_lem :
    (left : ℕ) (bytes : List ℕ) (p res pattern : ℕ)
    → p + left ≤ 8 * length bytes
    → p + left < 2 ^ 64
    → suc res * 2 ^ left ≤ 2 ^ 64
    → HasPattern bytes p pattern left
    → bits_loop bytes left res p ≡ some (res * 2 ^ left + pattern % 2 ^ left, p + left)
unfolding bits_loop HasPattern
bits_loop_lem zero bytes p res pattern h room fits holds =
    let one : pattern % 2 ^ 0 ≡ 0 = omega arith in
    let total : res ≡ res * 2 ^ 0 + pattern % 2 ^ 0 = omega (arith, one) in
    let here : p ≡ p + 0 = omega arith in ap₂ (λ (r n : ℕ). some (r, n)) total here
bits_loop_lem (suc left) bytes p res pattern h room fits (first, others) =
    let m = 2 ^ left in
    let double : 2 ^ suc left ≡ m * 2 = pow-suc 2 left in
    let pos : 0 < m = one-le-pow left 2 (omega arith) in
    let bit = bit_at bytes p in
    let small : bit < 2 = omega (arith, first) in
    let scaled = ap (λ (t : ℕ). suc res * t) double in
    let least : res * 2 * 1 ≤ res * 2 * m = mul-le-mul_left (res * 2) pos in
    let push : bit_or (res * 2 % 2 ^ 64) bit ≡ res * 2 + bit =
      pushed res bit (omega (arith, scaled, least, fits, pos)) small in
    let le : m * bit ≤ m * 1 = mul-le-mul_left m (omega (arith, small)) in
    let ih =
      bits_loop_lem left bytes (p + 1) (res * 2 + bit) pattern (omega arith) (omega arith)
        (omega (arith, scaled, fits, le)) others in
    let split = mod_split pattern m pos in
    let bits = ap (λ (t : ℕ). t * m) first in
    let modulus = ap (λ (t : ℕ). pattern % t) double in
    let shifted = ap (λ (t : ℕ). res * t) double in
    let total : (res * 2 + bit) * m + pattern % m ≡ res * 2 ^ suc left + pattern % 2 ^ suc left =
      omega (arith, split, bits, modulus, shifted) in
    let end : p + 1 + left ≡ p + suc left = omega arith in
    rw (get_bit_lem bytes p (omega arith) (omega arith)) rw push
      (ih ∙ ap₂ (λ (r n : ℕ). some (r, n)) total end)

-- Into an array of bytes that is clear from the position on and has room for the pattern, `add_bits`
-- writes up to 64 bits of it and leaves the bits before as they are, and `get_bits` reads from that
-- position the lowest of as many bits of the pattern; both end behind the pattern.
pub get_bits-add_bits :
    (bytes : List ℕ) (bit_pos pattern n : ℕ)
    → n ≤ 64
    → bit_pos + n ≤ 8 * length bytes
    → bit_pos + n < 2 ^ 64
    → AllBelow 256 bytes
    → ((q : ℕ) → bit_pos ≤ q → bit_at bytes q ≡ 0)
    → (bytes' : List ℕ) × (add_bits bytes bit_pos pattern n ≡ some (bytes', bit_pos + n))
      × (length bytes' ≡ length bytes)
      × ((q : ℕ) → q < bit_pos → bit_at bytes' q ≡ bit_at bytes q)
      × (get_bits bytes' bit_pos n ≡ some (pattern % 2 ^ n, bit_pos + n))
unfolding get_bits
get_bits-add_bits bytes bit_pos pattern n most h room hb clear =
    let (bytes', run, size, below, holds, kept) =
      add_bits_lem n bytes bit_pos pattern h hb room clear in
    let two : 0 < 2 = omega arith in
    let powers : 2 ^ n ≤ 2 ^ 64 = pow-le-pow_right two most in
    let read =
      bits_loop_lem n bytes' bit_pos 0 pattern (omega (arith, size)) room (omega (arith, powers))
        holds in
    let total : 0 * 2 ^ n + pattern % 2 ^ n ≡ pattern % 2 ^ n = omega arith in
    (bytes', run, size, kept, read ∙ ap (λ (r : ℕ). some (r, bit_pos + n)) total)
