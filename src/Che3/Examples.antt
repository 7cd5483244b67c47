-- ===== src/Che3/Examples.antt =====
-- The bit stream at a concrete array.
use addnas_mldonkey.Base.{
  ℕ, zero, suc, ◌+◌, ◌%◌, ◌^◌, ◌<◌, ◌≤◌, ◌≡◌, refl, arith, some, List, [], ◌∷◌, length, ◌/◌, get_or,
  all_below, all_below-true, ◌==◌, ==_iff, ◌-◌, true, ap, sym, ◌∙◌,
}
use native.Mathlib.Decide.{dec_lt}
use native.Mathlib.Nat.{zero-div}
use addnas_mldonkey.Che3.{add_bits, get_bits}
use addnas_mldonkey.Che3.Bits.{bit_at}
use addnas_mldonkey.Che3.Read.{get_bits-add_bits}

-- Three bits are taken.
abbrev begun_bytes : List ℕ
begun_bytes = 5 ∷ 0 ∷ []

far_byte : (i : ℕ) → 2 ≤ i → get_or begun_bytes i 0 ≡ 0
far_byte zero h = absurd (omega arith)
far_byte (suc zero) h = absurd (omega arith)
far_byte (suc (suc i)) h = refl

near_clear : all_below 13 (λ j. bit_at begun_bytes (j + 3) == 0) ≡ true
unfolding bit_at
near_clear = refl

begun_clear : (q : ℕ) → 3 ≤ q → bit_at begun_bytes q ≡ 0
unfolding bit_at
begun_clear q h = elim (dec_lt q 16) [
  | yes near ↦
      let whole : q - 3 + 3 ≡ q = omega arith in
      let clear =
        all_below-true 13 (λ j. bit_at begun_bytes (j + 3) == 0) (q - 3) near_clear (omega arith) in
      ap (λ (n : ℕ). bit_at begun_bytes n) (sym whole)
      ∙ (==_iff (bit_at begun_bytes (q - 3 + 3)) 0).0 clear
  | no far ↦
      rw (far_byte (q / 8) (omega (arith, far))) (ap (λ (t : ℕ). t % 2) (zero-div (2 ^ (q % 8))))
]

get_bits-add_bits_example :
    (bytes' : List ℕ) × (add_bits begun_bytes 3 13 4 ≡ some (bytes', 7))
    × (length bytes' ≡ 2)
    × ((q : ℕ) → q < 3 → bit_at bytes' q ≡ bit_at begun_bytes q)
    × (get_bits bytes' 3 4 ≡ some (13 % 2 ^ 4, 7))
get_bits-add_bits_example =
    get_bits-add_bits begun_bytes 3 13 4 (omega arith) (omega arith) (omega arith)
      (omega arith, (omega arith, tt)) begun_clear
