-- ===== src/FstHash/Checksum.antt =====
-- What the table of `fst_hash_checksum` computes: CRC-16, highest bit first.
use addnas_mldonkey.Base.{
  xor-shr, xor-double, xor-shl, xor-u16, low-xor, swap_last, cancel_both, ℕ, zero, suc, ◌+◌, ◌*◌,
  ◌/◌, ◌%◌, ◌^◌, ◌<◌, ◌≤◌, ◌≡◌, refl, sym, ap, ap₂, ◌∙◌, arith, bit_and, bit_xor, some, List, [],
  ◌∷◌, shr, get_elem?, get_or, length, get_elem?-eq-get_or, ◌==◌, ==_iff, if◌then◌else◌, AllBelow,
  all_below, all_below-true, inl, inr, true, bit_xor_assoc, bit_xor_comm, bit_xor-lt,
  bit_xor_disjoint, take, ge→ltb, take-AllBelow, bit_and-lt_mask,
}
use addnas_mldonkey.FstHash.Crc.{parity}
use addnas_mldonkey.FstHash.{checksum_loop, fst_hash_checksum}
use addnas_mldonkey.FstHash.Tables.{checksumtable}

-- One bit: a shift, and the polynomial of CRC-16 where the bit shifted out is set.
unfoldable pub ccitt_bit : ℕ → ℕ
ccitt_bit c = if c / 2 ^ 15 % 2 == 0 then c * 2 % 2 ^ 16 else bit_xor (c * 2 % 2 ^ 16) 0x1021

unfoldable pub ccitt_bits : ℕ → ℕ → ℕ
ccitt_bits zero c = c
ccitt_bits (suc n) c = ccitt_bits n (ccitt_bit c)

-- CRC-16 of some bytes, from the register `c`.
unfoldable pub ccitt_bytes : List ℕ → ℕ → ℕ
ccitt_bytes [] c = c
ccitt_bytes (x ∷ xs) c = ccitt_bytes xs (ccitt_bits 8 (bit_xor c (x * 256)))

table_agrees : all_below 256 (λ n. get_or checksumtable n 0 == ccitt_bits 8 (n * 256)) ≡ true
unfolding ccitt_bits ccitt_bit
table_agrees = refl

ccitt_bit-clear : (c : ℕ) → c / 2 ^ 15 % 2 ≡ 0 → ccitt_bit c ≡ c * 2 % 2 ^ 16
unfolding ccitt_bit
ccitt_bit-clear c h = rw h refl

ccitt_bit-set : (c : ℕ) → c / 2 ^ 15 % 2 ≡ 1 → ccitt_bit c ≡ bit_xor (c * 2 % 2 ^ 16) 0x1021
unfolding ccitt_bit
ccitt_bit-set c h = rw h refl

top-xor : (a b : ℕ) → bit_xor a b / 2 ^ 15 % 2 ≡ (a / 2 ^ 15 % 2 + b / 2 ^ 15 % 2) % 2
top-xor a b = ap (λ (t : ℕ). t % 2) (xor-shr 15 a b) ∙ low-xor (a / 2 ^ 15) (b / 2 ^ 15)

shift-xor : (a b : ℕ) → bit_xor a b * 2 % 2 ^ 16 ≡ bit_xor (a * 2 % 2 ^ 16) (b * 2 % 2 ^ 16)
shift-xor a b = ap (λ (t : ℕ). t % 2 ^ 16) (sym (xor-double a b)) ∙ xor-u16 (a * 2) (b * 2)

-- A step of CRC-16 is linear.
ccitt_bit-xor : (a b : ℕ) → ccitt_bit (bit_xor a b) ≡ bit_xor (ccitt_bit a) (ccitt_bit b)
ccitt_bit-xor a b =
    let h = shift-xor a b in
    let l = top-xor a b in
    let p : ℕ = 0x1021 in
    let a' : ℕ = a * 2 % 2 ^ 16 in
    let b' : ℕ = b * 2 % 2 ^ 16 in
    elim (parity (a / 2 ^ 15)) [
      | inl ea ↦ elim (parity (b / 2 ^ 15)) [
        | inl eb ↦
            ccitt_bit-clear _ (omega arith)
            ∙ h
            ∙ ap₂ bit_xor (sym (ccitt_bit-clear a ea)) (sym (ccitt_bit-clear b eb))
        | inr ob ↦
            ccitt_bit-set _ (omega arith)
            ∙ ap (λ (t : ℕ). bit_xor t p) h
            ∙ bit_xor_assoc a' b' p
            ∙ ap₂ bit_xor (sym (ccitt_bit-clear a ea)) (sym (ccitt_bit-set b ob))
      ]
      | inr oa ↦ elim (parity (b / 2 ^ 15)) [
        | inl eb ↦
            ccitt_bit-set _ (omega arith)
            ∙ ap (λ (t : ℕ). bit_xor t p) h
            ∙ swap_last a' b' p
            ∙ ap₂ bit_xor (sym (ccitt_bit-set a oa)) (sym (ccitt_bit-clear b eb))
        | inr ob ↦
            ccitt_bit-clear _ (omega arith)
            ∙ h
            ∙ sym (cancel_both a' b' p)
            ∙ ap₂ bit_xor (sym (ccitt_bit-set a oa)) (sym (ccitt_bit-set b ob))
      ]
    ]

ccitt_bits-xor :
    (n a b : ℕ) → ccitt_bits n (bit_xor a b) ≡ bit_xor (ccitt_bits n a) (ccitt_bits n b)
unfolding ccitt_bits
ccitt_bits-xor zero a b = refl
ccitt_bits-xor (suc n) a b =
    ap (ccitt_bits n) (ccitt_bit-xor a b) ∙ ccitt_bits-xor n (ccitt_bit a) (ccitt_bit b)

-- A byte below the bits that are shifted out only moves up.
low_agrees : all_below 256 (λ n. ccitt_bits 8 n == n * 256) ≡ true
unfolding ccitt_bits ccitt_bit
low_agrees = refl

ccitt_bits-low : (l : ℕ) → l < 256 → ccitt_bits 8 l ≡ l * 256
ccitt_bits-low l h =
    (==_iff _ _).0 (all_below-true 256 (λ n. ccitt_bits 8 n == n * 256) l low_agrees h)

checksumtable_lem : (n : ℕ) → n < 256 → get_elem? checksumtable n ≡ some (ccitt_bits 8 (n * 256))
checksumtable_lem n h =
    let entry : get_or checksumtable n 0 ≡ ccitt_bits 8 (n * 256) = (==_iff _ _).0 (
      all_below-true 256 (λ m. get_or checksumtable m 0 == ccitt_bits 8 (m * 256)) n table_agrees
        h) in
    get_elem?-eq-get_or checksumtable n 0 (omega arith) ∙ ap some entry

ccitt_bit-lt : (c : ℕ) → ccitt_bit c < 2 ^ 16
ccitt_bit-lt c = elim (parity (c / 2 ^ 15)) [
  | inl even ↦ rw (ccitt_bit-clear c even) (omega arith)
  | inr odd ↦
      rw (ccitt_bit-set c odd) (bit_xor-lt 16 (c * 2 % 2 ^ 16) 0x1021 (omega arith) (omega arith))
]

ccitt_bits-lt : (n c : ℕ) → c < 2 ^ 16 → ccitt_bits n c < 2 ^ 16
unfolding ccitt_bits
ccitt_bits-lt zero c h = h
ccitt_bits-lt (suc n) c h = ccitt_bits-lt n (ccitt_bit c) (ccitt_bit-lt c)

-- One byte: the entry for the high byte, xored with the low byte moved up.
byte_step :
    (c x : ℕ)
    → c < 2 ^ 16
    → x < 256
    → bit_xor (ccitt_bits 8 (bit_xor x (shr c 8) * 256)) (c * 2 ^ 8) % 2 ^ 16
      ≡ ccitt_bits 8 (bit_xor c (x * 256))
byte_step c x hc hx =
    let h = shr c 8 in
    let l = c % 256 in
    let t = ccitt_bits 8 (bit_xor x h * 256) in
    let index : bit_xor x h < 256 = bit_xor-lt 8 x h hx (omega arith) in
    let t_fits : t < 2 ^ 16 = ccitt_bits-lt 8 (bit_xor x h * 256) (omega (arith, index)) in
    let entry : t % 2 ^ 16 ≡ t = omega (arith, t_fits) in
    let shifted : c * 2 ^ 8 % 2 ^ 16 ≡ l * 256 = omega arith in
    let cut : bit_xor t (c * 2 ^ 8) % 2 ^ 16 ≡ bit_xor t (l * 256) =
      xor-u16 t (c * 2 ^ 8) ∙ ap₂ bit_xor entry shifted in
    let whole : c ≡ bit_xor (h * 2 ^ 8) l = omega (arith, bit_xor_disjoint 8 l h (omega arith)) in
    let moved : bit_xor c (x * 256) ≡ bit_xor (bit_xor x h * 256) l =
      ap (λ (t : ℕ). bit_xor t (x * 256)) whole
      ∙ swap_last (h * 2 ^ 8) l (x * 256)
      ∙ ap (λ (t : ℕ). bit_xor t l) (bit_xor_comm (h * 2 ^ 8) (x * 256) ∙ xor-shl 8 x h) in
    cut
    ∙ sym (
        ap (ccitt_bits 8) moved
        ∙ ccitt_bits-xor 8 (bit_xor x h * 256) l
        ∙ ap (bit_xor t) (ccitt_bits-low l (omega arith)))

checksum_loop_lem :
    (xs : List ℕ) (sum : ℕ)
    → AllBelow 256 xs
    → sum < 2 ^ 16
    → checksum_loop xs sum ≡ some (ccitt_bytes xs sum)
unfolding checksum_loop ccitt_bytes
checksum_loop_lem [] sum h hs = refl
checksum_loop_lem (x ∷ xs) sum h hs =
    let index : bit_xor x (shr sum 8) < 256 = bit_xor-lt 8 x (shr sum 8) h.0 (omega arith) in
    let moved : bit_xor sum (x * 256) < 2 ^ 16 =
      bit_xor-lt 16 sum (x * 256) hs (omega (arith, h.0)) in
    rw (checksumtable_lem (bit_xor x (shr sum 8)) index, checksum_loop)
      (rw (byte_step sum x hs h.0) (
        checksum_loop_lem xs (ccitt_bits 8 (bit_xor sum (x * 256))) h.1
          (ccitt_bits-lt 8 (bit_xor sum (x * 256)) moved)))

-- On a hash of twenty bytes or more `fst_hash_checksum` never leaves its table, and what it returns
-- is the low 14 bits of the CRC-16 of the first twenty bytes, one bit at a time, from the register
-- 0.
pub fst_hash_checksum_lem :
    (hash : List ℕ)
    → AllBelow 256 hash
    → 20 ≤ length hash
    → (fst_hash_checksum hash ≡ some (bit_and (ccitt_bytes (take 20 hash) 0) 0x3fff))
      × (bit_and (ccitt_bytes (take 20 hash) 0) 0x3fff < 2 ^ 14)
unfolding fst_hash_checksum
fst_hash_checksum_lem hash bytes size = (
  rw (ge→ltb (length hash) 20 size) (
      rw (checksum_loop_lem (take 20 hash) 0 (take-AllBelow 256 20 hash bytes) (omega arith)) refl),
  bit_and-lt_mask 14 (ccitt_bytes (take 20 hash) 0) 0x3fff (omega arith),
)
