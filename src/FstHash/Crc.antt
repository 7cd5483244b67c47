-- ===== src/FstHash/Crc.antt =====
-- What the table of `fst_hash_small` computes: CRC-32, bit by bit.
use addnas_mldonkey.Base.{
  half-xor, low-xor, swap_last, cancel_both, ℕ, zero, suc, ◌*◌, ◌/◌, ◌%◌, ◌^◌, ◌<◌, ◌≡◌, ◌⊎◌, refl,
  sym, ap, ap₂, ◌∙◌, arith, bit_and, bit_xor, some, List, [], ◌∷◌, ◌++◌, shr, get_elem?, get_or,
  length, get_elem?-eq-get_or, ◌==◌, ==_iff, if◌then◌else◌, AllBelow, all_below, all_below-true,
  Bool-cases, inl, inr, true, bit_xor_assoc, bit_xor_comm, bit_xor-lt, bit_xor_disjoint,
  bit_and_byte,
}
use native.Mathlib.Nat.{pow-suc}
use addnas_mldonkey.FstHash.{fst_hash_small}
use addnas_mldonkey.FstHash.Tables.{smalltable}

-- One bit: a shift, and the polynomial of CRC-32 where the bit shifted out is set.
unfoldable pub crc_bit : ℕ → ℕ
crc_bit c = if c % 2 == 0 then c / 2 else bit_xor (c / 2) 0xedb88320

unfoldable pub crc_bits : ℕ → ℕ → ℕ
crc_bits zero c = c
crc_bits (suc n) c = crc_bits n (crc_bit c)

-- CRC-32 of some bytes, from the register `c`.
unfoldable pub crc_bytes : List ℕ → ℕ → ℕ
crc_bytes [] c = c
crc_bytes (x ∷ xs) c = crc_bytes xs (crc_bits 8 (bit_xor c x))

crc_bit-even : (c : ℕ) → c % 2 ≡ 0 → crc_bit c ≡ c / 2
unfolding crc_bit
crc_bit-even c h = rw h refl

crc_bit-odd : (c : ℕ) → c % 2 ≡ 1 → crc_bit c ≡ bit_xor (c / 2) 0xedb88320
unfolding crc_bit
crc_bit-odd c h = rw h refl

pub parity : (c : ℕ) → (c % 2 ≡ 0) ⊎ (c % 2 ≡ 1)
parity c = elim (Bool-cases (c % 2 == 0)) [
  | inl even ↦ inl ((==_iff (c % 2) 0).0 even)
  | inr odd ↦ inr (ground arith)
]

-- A step of CRC-32 is linear.
crc_bit-xor : (a b : ℕ) → crc_bit (bit_xor a b) ≡ bit_xor (crc_bit a) (crc_bit b)
crc_bit-xor a b =
    let h = half-xor a b in
    let l = low-xor a b in
    let p : ℕ = 0xedb88320 in
    elim (parity a) [
      | inl ea ↦ elim (parity b) [
        | inl eb ↦
            crc_bit-even _ (omega arith)
            ∙ h
            ∙ ap₂ bit_xor (sym (crc_bit-even a ea)) (sym (crc_bit-even b eb))
        | inr ob ↦
            crc_bit-odd _ (omega arith)
            ∙ ap (λ (t : ℕ). bit_xor t p) h
            ∙ bit_xor_assoc (a / 2) (b / 2) p
            ∙ ap₂ bit_xor (sym (crc_bit-even a ea)) (sym (crc_bit-odd b ob))
      ]
      | inr oa ↦ elim (parity b) [
        | inl eb ↦
            crc_bit-odd _ (omega arith)
            ∙ ap (λ (t : ℕ). bit_xor t p) h
            ∙ swap_last (a / 2) (b / 2) p
            ∙ ap₂ bit_xor (sym (crc_bit-odd a oa)) (sym (crc_bit-even b eb))
        | inr ob ↦
            crc_bit-even _ (omega arith)
            ∙ h
            ∙ sym (cancel_both (a / 2) (b / 2) p)
            ∙ ap₂ bit_xor (sym (crc_bit-odd a oa)) (sym (crc_bit-odd b ob))
      ]
    ]

crc_bits-xor : (n a b : ℕ) → crc_bits n (bit_xor a b) ≡ bit_xor (crc_bits n a) (crc_bits n b)
unfolding crc_bits
crc_bits-xor zero a b = refl
crc_bits-xor (suc n) a b =
    ap (crc_bits n) (crc_bit-xor a b) ∙ crc_bits-xor n (crc_bit a) (crc_bit b)

-- Digits above those that are shifted out only move down.
crc_bits-high : (n q : ℕ) → crc_bits n (q * 2 ^ n) ≡ q
unfolding crc_bits
crc_bits-high zero q = omega arith
crc_bits-high (suc n) q =
    let doubled : q * 2 ^ suc n ≡ q * 2 ^ n * 2 =
      omega (arith, ap (λ (t : ℕ). q * t) (pow-suc 2 n)) in
    let one : crc_bit (q * 2 ^ n * 2) ≡ q * 2 ^ n =
      crc_bit-even (q * 2 ^ n * 2) (omega arith) ∙ omega arith in
    rw doubled (rw one (crc_bits-high n q))

table_agrees : all_below 256 (λ n. get_or smalltable n 0 == crc_bits 8 n) ≡ true
unfolding crc_bits crc_bit
table_agrees = refl

table_size : length smalltable ≡ 256
table_size = refl

-- An entry of the table is eight steps.
smalltable_lem : (n : ℕ) → n < 256 → get_elem? smalltable n ≡ some (crc_bits 8 n)
smalltable_lem n h =
    let entry : get_or smalltable n 0 ≡ crc_bits 8 n =
      (==_iff _ _).0
        (all_below-true 256 (λ m. get_or smalltable m 0 == crc_bits 8 m) n table_agrees h) in
    get_elem?-eq-get_or smalltable n 0 (omega (arith, table_size)) ∙ ap some entry

-- One byte: eight steps are the entry for the low byte, xored with the other bytes.
byte_step :
    (c x : ℕ)
    → crc_bits 8 (bit_xor c x) ≡ bit_xor (crc_bits 8 (bit_xor x (bit_and c 0xff))) (shr c 8)
byte_step c x =
    let r = bit_and c 0xff in
    let high = c / 256 * 2 ^ 8 in
    let whole : c ≡ bit_xor high r = sym (
      bit_xor_disjoint 8 r (c / 256) (omega (arith, bit_and_byte c))
      ∙ omega (arith, bit_and_byte c)) in
    let regrouped : bit_xor c x ≡ bit_xor high (bit_xor x r) =
      ap (λ (t : ℕ). bit_xor t x) whole
      ∙ bit_xor_assoc high r x
      ∙ ap (bit_xor high) (bit_xor_comm r x) in
    ap (crc_bits 8) regrouped
    ∙ crc_bits-xor 8 high (bit_xor x r)
    ∙ ap (λ (t : ℕ). bit_xor t (crc_bits 8 (bit_xor x r))) (crc_bits-high 8 (c / 256))
    ∙ bit_xor_comm (c / 256) (crc_bits 8 (bit_xor x r))

-- On bytes `fst_hash_small` never leaves its table, and what it returns is the CRC-32 of the bytes
-- from the given register, one bit at a time, with no final complement.
pub fst_hash_small_lem :
    (xs : List ℕ) (c : ℕ) → AllBelow 256 xs → fst_hash_small xs c ≡ some (crc_bytes xs c)
unfolding fst_hash_small crc_bytes
fst_hash_small_lem [] c h = refl
fst_hash_small_lem (x ∷ xs) c h =
    let index : bit_xor x (bit_and c 0xff) < 256 =
      bit_xor-lt 8 x (bit_and c 0xff) h.0 (omega (arith, bit_and_byte c)) in
    rw (smalltable_lem _ index, fst_hash_small)
      (rw (sym (byte_step c x)) (fst_hash_small_lem xs (crc_bits 8 (bit_xor c x)) h.1))

crc_bit-lt : (c : ℕ) → c < 2 ^ 32 → crc_bit c < 2 ^ 32
crc_bit-lt c h = elim (parity c) [
  | inl even ↦ rw (crc_bit-even c even) (omega arith)
  | inr odd ↦ rw (crc_bit-odd c odd) (bit_xor-lt 32 (c / 2) 0xedb88320 (omega arith) (omega arith))
]

crc_bits-lt : (n c : ℕ) → c < 2 ^ 32 → crc_bits n c < 2 ^ 32
unfolding crc_bits
crc_bits-lt zero c h = h
crc_bits-lt (suc n) c h = crc_bits-lt n (crc_bit c) (crc_bit-lt c h)

-- The register keeps 32 bits.
pub crc_bytes-lt : (xs : List ℕ) (c : ℕ) → AllBelow 256 xs → c < 2 ^ 32 → crc_bytes xs c < 2 ^ 32
unfolding crc_bytes
crc_bytes-lt [] c h hc = hc
crc_bytes-lt (x ∷ xs) c h hc =
    crc_bytes-lt xs _ h.1 (crc_bits-lt 8 (bit_xor c x) (bit_xor-lt 32 c x hc (omega (arith, h.0))))

-- The register runs on from one window to the next.
pub crc_bytes-append :
    (xs ys : List ℕ) (c : ℕ) → crc_bytes (xs ++ ys) c ≡ crc_bytes ys (crc_bytes xs c)
unfolding crc_bytes
crc_bytes-append [] ys c = refl
crc_bytes-append (x ∷ xs) ys c = crc_bytes-append xs ys (crc_bits 8 (bit_xor c x))
