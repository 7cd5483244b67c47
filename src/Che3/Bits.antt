-- ===== src/Che3/Bits.antt =====
-- The bits of an array, and what reading and writing one does to them.
use addnas_mldonkey.Base.{
  ℕ, ◌/◌, ◌%◌, ◌^◌, ◌<◌, ◌≡◌, ◌≢◌, refl, sym, ap, ap₂, ◌∙◌, arith, bit_and, bit_or, bit_and_step,
  bit_and-zero, bit_or-zero, Bool, true, false, Bool-cases, inl, inr, some, List, length,
  get_elem?-eq-get_or, get_or, set, set?-eq-set, get_or-set_self, get_or-set_ne, get_or-lt,
  AllBelow, ◌==◌, ==_iff, if◌then◌else◌, all_below, all_below-true,
}
use addnas_mldonkey.Che3.{or_at}
use native.Mathlib.Decide.{ℕ_discrete}

-- The bit at a position, 0 behind the array.
unfoldable pub bit_at : List ℕ → ℕ → ℕ
bit_at bytes pos = get_or bytes (pos / 8) 0 / 2 ^ (pos % 8) % 2

abbrev check_bit : ℕ → ℕ → ℕ → Bool
check_bit b k j = (bit_or b (2 ^ k) % 2 ^ 8 / 2 ^ j % 2) == (if k == j then 1 else b / 2 ^ j % 2)

all_bits : all_below 256 (λ b. all_below 8 (λ k. all_below 8 (λ j. check_bit b k j))) ≡ true
all_bits = refl

byte_bit :
    (b k j : ℕ)
    → b < 256
    → k < 8
    → j < 8
    → bit_or b (2 ^ k) % 2 ^ 8 / 2 ^ j % 2 ≡ (if k == j then 1 else b / 2 ^ j % 2)
byte_bit b k j hb hk hj =
    let rows =
      all_below-true 256 (λ b. all_below 8 (λ k. all_below 8 (λ j. check_bit b k j))) b all_bits
        hb in
    let bits = all_below-true 8 (λ k. all_below 8 (λ j. check_bit b k j)) k rows hk in
    (==_iff _ _).0 (all_below-true 8 (λ j. check_bit b k j) j bits hj)

pub low_bits : (i : ℕ) → bit_and i 7 ≡ i % 8
low_bits i = omega (
  arith,
  bit_and_step i 7,
  bit_and_step (i / 2) 3,
  bit_and_step (i / 2 / 2) 1,
  bit_and-zero (i / 2 / 2 / 2),
)

pub or_at_lem :
    (bytes : List ℕ) (i v : ℕ)
    → i < length bytes
    → or_at bytes i v ≡ some (set bytes i (bit_or (get_or bytes i 0) v % 2 ^ 8))
unfolding or_at
or_at_lem bytes i v h =
    rw (get_elem?-eq-get_or bytes i 0 h)
      (set?-eq-set bytes i (bit_or (get_or bytes i 0) v % 2 ^ 8) h)

bit_at-set_same :
    (bytes : List ℕ) (i w q : ℕ)
    → i < length bytes
    → q / 8 ≡ i
    → bit_at (set bytes i w) q ≡ w / 2 ^ (q % 8) % 2
unfolding bit_at
bit_at-set_same bytes i w q h e = rw e rw (get_or-set_self bytes i w 0 h) refl

bit_at-set_ne : (bytes : List ℕ) (i w q : ℕ) → i ≢ q / 8 → bit_at (set bytes i w) q ≡ bit_at bytes q
unfolding bit_at
bit_at-set_ne bytes i w q ne = rw (get_or-set_ne bytes i (q / 8) w 0 ne) refl

pub or_zero :
    (bytes : List ℕ) (i : ℕ)
    → i < length bytes
    → AllBelow 256 bytes
    → (q : ℕ) → bit_at (set bytes i (bit_or (get_or bytes i 0) 0 % 2 ^ 8)) q ≡ bit_at bytes q
unfolding bit_at
or_zero bytes i h hb q =
    let b = get_or bytes i 0 in
    let fits : b < 256 = get_or-lt 256 bytes i 0 hb (omega arith) in
    let same : bit_or b 0 % 2 ^ 8 ≡ b = omega (arith, bit_or-zero b, fits) in
    elim (ℕ_discrete i (q / 8)) [
      | yes e ↦
          bit_at-set_same bytes i (bit_or b 0 % 2 ^ 8) q h (sym e)
          ∙ ap (λ (t : ℕ). t / 2 ^ (q % 8) % 2) (same ∙ ap (λ (t : ℕ). get_or bytes t 0) e)
      | no ne ↦ bit_at-set_ne bytes i (bit_or b 0 % 2 ^ 8) q ne
    ]

same_test : (p q : ℕ) → p / 8 ≡ q / 8 → (p % 8 == q % 8) ≡ (p == q)
same_test p q e = ground arith

other_test : (p q : ℕ) → p / 8 ≢ q / 8 → (p == q) ≡ false
other_test p q ne = elim (Bool-cases (p == q)) [
  | inl t ↦ absurd (ne (ap (λ (n : ℕ). n / 8) ((==_iff p q).0 t)))
  | inr f ↦ f
]

pub or_one :
    (bytes : List ℕ) (p : ℕ)
    → p / 8 < length bytes
    → AllBelow 256 bytes
    → (q : ℕ)
    → bit_at (set bytes (p / 8) (bit_or (get_or bytes (p / 8) 0) (2 ^ (p % 8)) % 2 ^ 8)) q
      ≡ (if p == q then 1 else bit_at bytes q)
unfolding bit_at
or_one bytes p h hb q =
    let i = p / 8 in
    let b = get_or bytes i 0 in
    let w = bit_or b (2 ^ (p % 8)) % 2 ^ 8 in
    let fits : b < 256 = get_or-lt 256 bytes i 0 hb (omega arith) in
    elim (ℕ_discrete i (q / 8)) [
      | yes e ↦
          let old : b / 2 ^ (q % 8) % 2 ≡ bit_at bytes q =
            ap (λ (t : ℕ). get_or bytes t 0 / 2 ^ (q % 8) % 2) e in
          let test : (p % 8 == q % 8) ≡ (p == q) = same_test p q e in
          bit_at-set_same bytes i w q h (sym e)
          ∙ byte_bit b (p % 8) (q % 8) fits (omega arith) (omega arith)
          ∙ ap₂ (λ (c : Bool) (t : ℕ). if c then 1 else t) test old
      | no ne ↦
          let test : (p == q) ≡ false = other_test p q ne in rw test (bit_at-set_ne bytes i w q ne)
    ]
