-- ===== src/Che3/Stream.antt =====
-- What `add_bits` writes `get_bits` reads.
use addnas_mldonkey.Base.{
  ℕ, zero, suc, ◌+◌, ◌*◌, ◌/◌, ◌%◌, ◌^◌, ◌<◌, ◌≤◌, ◌≡◌, ◌≢◌, refl, sym, ap, ◌∙◌, arith, bit_and,
  bit_or, bit_and_step, bit_and-zero, Bool, true, false, Bool-cases, inl, inr, some, List, length,
  get_or, set, set-AllBelow, length-set, AllBelow, shr, ◌==◌, ==_iff, if◌then◌else◌,
}
use addnas_mldonkey.Che3.{or_at, add_bit, add_bits}
use addnas_mldonkey.Che3.Bits.{bit_at, or_zero, or_one, or_at_lem, low_bits}

begun :
    (bytes : List ℕ) (p : ℕ) (start : Bool)
    → p / 8 < length bytes
    → AllBelow 256 bytes
    → (bytes' : List ℕ) × ((if start then or_at bytes (p / 8) 0 else some bytes) ≡ some bytes')
      × (length bytes' ≡ length bytes)
      × AllBelow 256 bytes'
      × ((q : ℕ) → bit_at bytes' q ≡ bit_at bytes q)
begun bytes p true h hb =
    let w = bit_or (get_or bytes (p / 8) 0) 0 % 2 ^ 8 in
    (
      set bytes (p / 8) w,
      or_at_lem bytes (p / 8) 0 h,
      length-set bytes (p / 8) w,
      set-AllBelow 256 bytes (p / 8) w hb (omega arith),
      or_zero bytes (p / 8) h hb,
    )
begun bytes p false h hb = (bytes, refl, refl, hb, λ q. refl)

differs : (p q : ℕ) → q ≢ p → (p == q) ≡ false
differs p q ne = elim (Bool-cases (p == q)) [
  | inl t ↦ absurd (ne (sym ((==_iff p q).0 t)))
  | inr f ↦ f
]

apart : (q p : ℕ) → p + 1 ≤ q → q ≢ p
apart q p le e = omega (arith, le, e)

below_apart : (q p : ℕ) → q < p → q ≢ p
below_apart q p less e = omega (arith, less, e)

marked :
    (bytes : List ℕ) (p v : ℕ)
    → p / 8 < length bytes
    → AllBelow 256 bytes
    → v < 2
    → bit_at bytes p ≡ 0
    → (bytes' : List ℕ) × ((if v == 0 then some bytes else or_at bytes (p / 8) (2 ^ (p % 8)))
        ≡ some bytes')
      × (length bytes' ≡ length bytes)
      × AllBelow 256 bytes'
      × (bit_at bytes' p ≡ v)
      × ((q : ℕ) → q ≢ p → bit_at bytes' q ≡ bit_at bytes q)
marked bytes p zero h hb hv e = (bytes, refl, refl, hb, e, λ q ne. refl)
marked bytes p (suc zero) h hb hv e =
    let w = bit_or (get_or bytes (p / 8) 0) (2 ^ (p % 8)) % 2 ^ 8 in
    let itself : (p == p) ≡ true = (==_iff p p).1 refl in
    let here : bit_at (set bytes (p / 8) w) p ≡ 1 =
      or_one bytes p h hb p ∙ ap (λ (c : Bool). if c then 1 else bit_at bytes p) itself in
    (
      set bytes (p / 8) w,
      or_at_lem bytes (p / 8) (2 ^ (p % 8)) h,
      length-set bytes (p / 8) w,
      set-AllBelow 256 bytes (p / 8) w hb (omega arith),
      here,
      λ q ne.
          or_one bytes p h hb q
          ∙ ap (λ (c : Bool). if c then 1 else bit_at bytes q) (differs p q ne),
    )
marked bytes p (suc (suc v)) h hb hv e = absurd (omega arith)

add_bit_lem :
    (bytes : List ℕ) (p v : ℕ)
    → p / 8 < length bytes
    → AllBelow 256 bytes
    → p + 1 < 2 ^ 64
    → v < 2
    → bit_at bytes p ≡ 0
    → (bytes' : List ℕ) × (add_bit bytes p v ≡ some (bytes', p + 1))
      × (length bytes' ≡ length bytes)
      × AllBelow 256 bytes'
      × (bit_at bytes' p ≡ v)
      × ((q : ℕ) → q ≢ p → bit_at bytes' q ≡ bit_at bytes q)
unfolding add_bit
add_bit_lem bytes p v h hb room hv e =
    let (bytes1, run1, size1, below1, same1) = begun bytes p (p % 8 == 0) h hb in
    let (bytes2, run2, size2, below2, here, others) =
      marked bytes1 p v (omega (arith, size1)) below1 hv (same1 p ∙ e) in
    let next : (p + 1) % 2 ^ 64 ≡ p + 1 = omega arith in
    (
      bytes2,
      rw (low_bits p) rw run1 rw run2 rw next refl,
      size2 ∙ size1,
      below2,
      here,
      λ q ne. others q ne ∙ same1 q,
    )

-- The bits of a pattern stand from `p` on, the highest first.
unfoldable pub HasPattern : List ℕ → ℕ → ℕ → ℕ → Type 0
HasPattern bytes p pattern zero = Unit
HasPattern bytes p pattern (suc left) =
    (bit_at bytes p ≡ shr pattern left % 2) × HasPattern bytes (p + 1) pattern left

one_bit : (a : ℕ) → bit_and (a % 256) 1 ≡ a % 2
one_bit a = omega (arith, bit_and_step (a % 256) 1, bit_and-zero (a % 256 / 2))

pub add_bits_lem :
    (left : ℕ) (bytes : List ℕ) (p pattern : ℕ)
    → p + left ≤ 8 * length bytes
    → AllBelow 256 bytes
    → p + left < 2 ^ 64
    → ((q : ℕ) → p ≤ q → bit_at bytes q ≡ 0)
    → (bytes' : List ℕ) × (add_bits bytes p pattern left ≡ some (bytes', p + left))
      × (length bytes' ≡ length bytes)
      × AllBelow 256 bytes'
      × HasPattern bytes' p pattern left
      × ((q : ℕ) → q < p → bit_at bytes' q ≡ bit_at bytes q)
unfolding add_bits HasPattern
add_bits_lem zero bytes p pattern h hb room clear =
    let here : p + 0 ≡ p = omega arith in
    (bytes, ap (λ (n : ℕ). some (bytes, n)) (sym here), refl, hb, tt, λ q less. refl)
add_bits_lem (suc left) bytes p pattern h hb room clear =
    let v = bit_and (shr pattern left % 256) 1 in
    let bit : v ≡ shr pattern left % 2 = one_bit (shr pattern left) in
    let (bytes1, run1, size1, below1, here, others) =
      add_bit_lem bytes p v (omega arith) hb (omega arith) (omega (arith, bit))
        (clear p (omega arith)) in
    let (bytes2, run2, size2, below2, rest, kept) =
      add_bits_lem left bytes1 (p + 1) pattern (omega (arith, size1)) below1 (omega arith)
        (λ q le. others q (apart q p le) ∙ clear q (omega arith)) in
    let end : p + 1 + left ≡ p + suc left = omega arith in
    (
      bytes2,
      rw run1 (run2 ∙ ap (λ (n : ℕ). some (bytes2, n)) end),
      size2 ∙ size1,
      below2,
      (kept p (omega arith) ∙ here ∙ bit, rest),
      λ q less. kept q (omega arith) ∙ others q (λ e. below_apart q p less e),
    )
