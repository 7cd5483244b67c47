-- ===== src/FastTrack/Seed/Laws.antt =====
use addnas_mldonkey.Base.{
  ℕ, zero, suc, ◌+◌, ◌*◌, ◌^◌, ◌≤◌, ◌<◌, ◌≡◌, refl, ◌∙◌, ap, ap₂, arith, bit_xor, some, List, [],
  ◌∷◌, shr, shl32, get_elem?, get_or, get_elem?-eq-get_or, length, AllBelow, bit_xor_cancel,
  bit_xor-lt, get_or-lt, bit_or_disjoint,
}
use addnas_mldonkey.FastTrack.EncType2.Bounds.{enc_type_2-runs}
use addnas_mldonkey.FastTrack.Seed.{
  seed_step, seed_keys, mixed_keys, calculate_num, mangle_enc_type, word_of_bytes, reverse_bytes,
}

pub seed_step-lt : (s : ℕ) → seed_step s < 2 ^ 32
unfolding seed_step
seed_step-lt s = omega arith

pub seed_keys-AllBelow : (n s : ℕ) → AllBelow (2 ^ 32) (seed_keys n s).0
unfolding seed_keys
seed_keys-AllBelow zero s = tt
seed_keys-AllBelow (suc n) s = (seed_step-lt s, seed_keys-AllBelow n (seed_step s))

pub length-seed_keys : (n s : ℕ) → length (seed_keys n s).0 ≡ n
unfolding seed_keys
length-seed_keys zero s = refl
length-seed_keys (suc n) s = ap suc (length-seed_keys n (seed_step s))

pub seed_keys-lt : (n s : ℕ) → s < 2 ^ 32 → (seed_keys n s).1 < 2 ^ 32
unfolding seed_keys
seed_keys-lt zero s h = h
seed_keys-lt (suc n) s h = seed_keys-lt n (seed_step s) (seed_step-lt s)

pub mixed_keys-runs :
    (s : ℕ) → (key : List ℕ) × (mixed_keys s ≡ some key) × (length key ≡ 20) × AllBelow (2 ^ 32) key
unfolding mixed_keys
mixed_keys-runs s =
    enc_type_2-runs (seed_keys 20 s).0 (seed_step (seed_keys 20 s).1) (length-seed_keys 20 s)
      (seed_keys-AllBelow 20 s) (seed_step-lt _)

-- Mangling a 32-bit encryption type faults on no seed, keeps 32 bits, and mangling the result
-- again under the same seed undoes it.
pub mangle_enc_type_undo :
    (seed enc_type : ℕ)
    → enc_type < 2 ^ 32
    → (e : ℕ) × (mangle_enc_type seed enc_type ≡ some e)
      × (mangle_enc_type seed e ≡ some enc_type)
      × (e < 2 ^ 32)
unfolding mangle_enc_type
mangle_enc_type_undo seed enc_type h =
    let (key, made, size, fit) = mixed_keys-runs seed in
    let k = get_or key 7 0 in
    let at7 : get_elem? key 7 ≡ some k = get_elem?-eq-get_or key 7 0 (omega (arith, size)) in
    (
      bit_xor enc_type k,
      rw (made, at7, mangle_enc_type),
      rw (made, at7, mangle_enc_type) (ap some (bit_xor_cancel enc_type k)),
      bit_xor-lt 32 enc_type k h (get_or-lt (2 ^ 32) key 7 0 fit (omega arith)),
    )

pub calculate_num-lt : (num val : ℕ) → 0 < val → val ≤ 0x10001 → (calculate_num num val).1 < val
unfolding calculate_num
calculate_num-lt num val h small =
    let high : shr (seed_step num) 16 < 65536 = omega (arith, seed_step-lt num) in
    let product : shr (seed_step num) 16 * val < 65536 * val = grind arith in
    let quotient : shr (shr (seed_step num) 16 * val) 16 < val = omega (arith, product) in
    ground (arith, quotient)

-- Four bytes make up their word, lowest first.
pub word_of_bytes-sum :
    (b0 b1 b2 b3 : ℕ)
    → b0 < 256
    → b1 < 256
    → b2 < 256
    → b3 < 256
    → word_of_bytes b0 b1 b2 b3 ≡ ((b3 * 256 + b2) * 256 + b1) * 256 + b0
unfolding word_of_bytes
word_of_bytes-sum b0 b1 b2 b3 h0 h1 h2 h3 =
    let s3 : shl32 b3 8 ≡ b3 * 2 ^ 8 = omega arith in
    let s1 : shl32 b1 8 ≡ b1 * 2 ^ 8 = omega arith in
    let s2 : shl32 (b3 * 2 ^ 8 + b2) 16 ≡ (b3 * 2 ^ 8 + b2) * 2 ^ 16 = omega arith in
    rw (s3, s1, bit_or_disjoint 8 b2 b3 h2, bit_or_disjoint 8 b0 b1 h0, s2)
      (bit_or_disjoint 16 (b1 * 2 ^ 8 + b0) (b3 * 2 ^ 8 + b2) (omega arith) ∙ omega arith)

-- On a little-endian machine `reverse_bytes` leaves an array of 32-bit words as it is.
pub reverse_bytes_lem : (ws : List ℕ) → AllBelow (2 ^ 32) ws → reverse_bytes ws ≡ ws
unfolding reverse_bytes
reverse_bytes_lem [] h = refl
reverse_bytes_lem (w ∷ ws) h =
    ap₂ ◌∷◌
      (word_of_bytes-sum _ _ _ _ (omega arith) (omega arith) (omega arith) (omega arith)
        ∙ omega arith)
      (reverse_bytes_lem ws h.1)
