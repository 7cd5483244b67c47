-- ===== src/FastTrack/EncType1/Cube.antt =====
-- `enc_type_1` as a whole: the exponent 3, the table `modulus`, and the bytes.
use addnas_mldonkey.Base.{
  ℕ, zero, suc, ◌*◌, ◌%◌, ◌^◌, ◌<◌, ◌≤◌, ◌≡◌, refl, ap, ap₂, ◌∙◌, arith, none, some, List, [], ◌∷◌,
  ◌++◌, Bool, true, ◌&&◌, length, take, AllBelow, get_or, length-append, length-take, take-AllBelow,
  append-AllBelow, leb→le, ltb, ltb→lt,
}
use addnas_mldonkey.FastTrack.EncType1.{
  big_set, big_letoh, big_htole, big_expmod, top_bit, exp_loop, words_of, enc_type_1,
}
use addnas_mldonkey.FastTrack.EncType1.Modulus.{modulus}
use addnas_mldonkey.FastTrack.EncType1.Value.{value, replicate-AllBelow}
use addnas_mldonkey.FastTrack.EncType1.Reduce.{and-true}
use addnas_mldonkey.FastTrack.EncType1.Bytes.{number, bytes_of, big_letoh_lem, big_htole_lem}
use addnas_mldonkey.FastTrack.EncType1.Mulmod.{IsReduced, words_of_all}
use addnas_mldonkey.FastTrack.EncType1.Expmod.{exp_keeps, exp_loop_lem, odd_power}

all_fit : List ℕ → Bool
all_fit [] = true
all_fit (x ∷ xs) = ltb x (2 ^ 32) && all_fit xs

all_fit-AllBelow : (xs : List ℕ) → all_fit xs ≡ true → AllBelow (2 ^ 32) xs
unfolding all_fit
all_fit-AllBelow [] h = tt
all_fit-AllBelow (x ∷ xs) h =
    let (first, others) = and-true (ltb x (2 ^ 32)) (all_fit xs) h in
    (ltb→lt x (2 ^ 32) first, all_fit-AllBelow xs others)

pub modulus-AllBelow : AllBelow (2 ^ 32) modulus
unfolding modulus all_fit
modulus-AllBelow = all_fit-AllBelow modulus refl

pub length-modulus : length modulus ≡ 64
unfolding modulus
length-modulus = refl

pub modulus-high : 2 ^ 31 ≤ get_or modulus 63 0
unfolding modulus
modulus-high = leb→le (2 ^ 31) (get_or modulus 63 0) refl

-- One more than the largest number of `n` bytes.
pub top_bytes : ℕ → ℕ
top_bytes zero = 1
top_bytes (suc n) = 2 ^ 8 * top_bytes n

pub padded-lt :
    (key : List ℕ) → AllBelow 256 key → number (key ++ 1 ∷ []) < 2 * top_bytes (length key)
unfolding number top_bytes
padded-lt [] h = omega arith
padded-lt (b ∷ key) h = omega (arith, h.0, padded-lt key h.1)

pub modulus-large : 2 * top_bytes 255 ≤ value modulus
unfolding top_bytes value modulus
modulus-large = leb→le (2 * top_bytes 255) (value modulus) refl

one-lt : 1 < value modulus
unfolding value modulus
one-lt = ltb→lt 1 (value modulus) refl

pub big_set-IsReduced : IsReduced modulus (big_set 1)
unfolding IsReduced big_set value
big_set-IsReduced = (refl, (omega arith, replicate-AllBelow 63), one-lt)

top_bit_lem : top_bit 2048 (big_set 3) ≡ some 2
unfolding top_bit big_set addnas_mldonkey.FastTrack.EncType1.big_getbit
top_bit_lem = refl

-- The number that is raised: the first 255 bytes of the key and a byte 1 on top.
unfoldable pub padded : List ℕ → ℕ
padded in_key = number (take 255 in_key ++ 1 ∷ [])

-- No division on the way to the cube loses a borrow.
unfoldable pub enc_keeps : ℕ → List ℕ → Bool
enc_keeps fuel in_key = elim (big_letoh 64 (take 255 in_key ++ 1 ∷ [])) [
  | none ↦ true
  | some num ↦ exp_keeps fuel 2 (big_set 1) num modulus
]

enc_keeps-opens :
    (fuel : ℕ) (in_key num : List ℕ)
    → big_letoh 64 (take 255 in_key ++ 1 ∷ []) ≡ some num
    → enc_keeps fuel in_key ≡ true
    → exp_keeps fuel 2 (big_set 1) num modulus ≡ true
unfolding enc_keeps
enc_keeps-opens fuel in_key num e keeps = rw (e, enc_keeps) at keeps

pub big_expmod-opens :
    (fuel : ℕ) (num mod_words : List ℕ)
    → big_expmod fuel num (big_set 3) mod_words ≡ exp_loop fuel 2 (big_set 1) num mod_words
unfolding big_expmod
big_expmod-opens fuel num mod_words = rw top_bit_lem refl

pub enc_type_1-opens :
    (fuel : ℕ) (in_key num num' : List ℕ)
    → 255 ≤ length in_key
    → big_letoh 64 (take 255 in_key ++ 1 ∷ []) ≡ some num
    → big_expmod fuel num (big_set 3) modulus ≡ some num'
    → enc_type_1 fuel in_key ≡ big_htole 256 0 num'
unfolding enc_type_1
enc_type_1-opens fuel in_key num num' long el ee =
    rw (words_of_all 255 in_key long) rw el rw ee refl

cube_lem : (k : ℕ) → odd_power 2 1 k ≡ k * k * k
unfolding odd_power
cube_lem k = omega arith

one_lem : value (big_set 1) ≡ 1
unfolding value big_set
one_lem = refl

-- On a key of 255 bytes or more, with four rounds or more for the inner loop of `big_mod`, and if no
-- subtraction loses a borrow, `enc_type_1` ends, accesses nothing outside its arrays and gives 256
-- bytes, the lowest first: the cube of the first 255 bytes with a byte 1 on top, modulo the number of
-- the table.
pub enc_type_1_lem :
    (fuel : ℕ) (in_key : List ℕ)
    → 4 ≤ fuel
    → 255 ≤ length in_key
    → AllBelow 256 in_key
    → enc_keeps fuel in_key ≡ true
    → (out_key : List ℕ) × (enc_type_1 fuel in_key ≡ some out_key)
      × (length out_key ≡ 256)
      × AllBelow 256 out_key
      × (number out_key ≡ padded in_key * padded in_key * padded in_key % value modulus)
unfolding padded bytes_of IsReduced
enc_type_1_lem fuel in_key rounds long bytes keeps =
    let key = take 255 in_key in
    let size : length key ≡ 255 = omega (arith, length-take 255 in_key) in
    let full : length (key ++ 1 ∷ []) ≡ 256 = omega (arith, length-append key (1 ∷ [])) in
    let below = take-AllBelow 256 255 in_key bytes in
    let (num, run, size', below', total) =
      big_letoh_lem 64 (key ++ 1 ∷ []) full
        (append-AllBelow 256 key (1 ∷ []) below (omega arith, tt)) in
    let short : number (key ++ 1 ∷ []) < 2 * top_bytes 255 =
      let less : number (key ++ 1 ∷ []) < 2 * top_bytes (length key) = padded-lt key below in
      rw size at less in
    let less : value num < value modulus = omega (arith, total, short, modulus-large) in
    let (num', run', reduced, total') =
      exp_loop_lem modulus modulus-AllBelow length-modulus modulus-high fuel rounds 2 (big_set 1)
        num big_set-IsReduced (size', below', less) (enc_keeps-opens fuel in_key num run keeps) in
    let (out, run'', size'', below'', total'') = big_htole_lem 64 num' reduced.0 reduced.1 in
    let cube : odd_power 2 (value (big_set 1)) (value num)
        ≡ padded in_key * padded in_key * padded in_key =
      ap₂ (odd_power 2) one_lem total ∙ cube_lem (padded in_key) in
    let powered : big_expmod fuel num (big_set 3) modulus ≡ some num' =
      big_expmod-opens fuel num modulus ∙ run' in
    (
      out,
      enc_type_1-opens fuel in_key num num' long run powered ∙ run'',
      size'',
      below'',
      total'' ∙ total' ∙ ap (λ (t : ℕ). t % value modulus) cube,
    )
