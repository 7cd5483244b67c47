-- ===== src/FastTrack/EncType1/Examples.antt =====
-- The arithmetic of enc_type_1.c at concrete numbers.
use addnas_mldonkey.Base.{
  ℕ, ◌+◌, ◌-◌, ◌*◌, ◌%◌, ◌^◌, ◌<◌, ◌≤◌, ◌≡◌, refl, arith, some, List, [], ◌∷◌, ◌++◌, length, take,
  replicate, AllBelow, ltb, leb→le, true, zero, suc,
}
use addnas_mldonkey.FastTrack.EncType1.{
  big_set, big_mul, big_isless, sub_once, big_mod, exp_loop, big_letoh, big_htole, enc_type_1,
  is_above, reduce, sub_product, take_off, mod_step, mod_loop, big_mulmod, keep_first, mul_row,
  mul_rows, words_of,
}
use addnas_mldonkey.FastTrack.EncType1.Modulus.{modulus}
use addnas_mldonkey.FastTrack.EncType1.Value.{value, top_of}
use addnas_mldonkey.FastTrack.EncType1.Multiply.{big_mul_lem}
use addnas_mldonkey.FastTrack.EncType1.Subtract.{lost, sub_once_lem}
use addnas_mldonkey.FastTrack.EncType1.Compare.{big_isless_lem}
use addnas_mldonkey.FastTrack.EncType1.Reduce.{reduce_keeps}
use addnas_mldonkey.FastTrack.EncType1.Remainder.{step_keeps}
use addnas_mldonkey.FastTrack.EncType1.Modulo.{loop_keeps}
use addnas_mldonkey.FastTrack.EncType1.Mulmod.{IsReduced, mulmod_keeps, big_mod_lem}
use addnas_mldonkey.FastTrack.EncType1.Expmod.{exp_keeps, exp_loop_lem, odd_power}
use addnas_mldonkey.FastTrack.EncType1.Total.{enc_type_1-returns}
use addnas_mldonkey.FastTrack.EncType1.Bytes.{number, bytes_of, big_htole-big_letoh}
use addnas_mldonkey.FastTrack.EncType1.Cube.{
  enc_keeps, padded, enc_type_1_lem, modulus-AllBelow, length-modulus, modulus-high,
  big_set-IsReduced,
}

abbrev two_words : List ℕ
two_words = 5 ∷ 0x80000001 ∷ []

two_words-AllBelow : AllBelow (2 ^ 32) two_words
two_words-AllBelow = (omega arith, (omega arith, tt))

big_mul_example :
    (out : List ℕ) × (big_mul 2 two_words two_words ≡ some out)
    × (length out ≡ 4)
    × AllBelow (2 ^ 32) out
    × (value out ≡ value (take 2 two_words) * value (take 2 two_words))
big_mul_example =
    big_mul_lem 2 two_words two_words (omega arith) (omega arith) two_words-AllBelow
      two_words-AllBelow

big_isless_example :
    big_isless 2 two_words (6 ∷ 0x80000001 ∷ [])
    ≡ some (ltb (value (take 2 two_words)) (value (take 2 (6 ∷ 0x80000001 ∷ []))))
big_isless_example =
    big_isless_lem 2 two_words (6 ∷ 0x80000001 ∷ []) (omega arith) (omega arith) two_words-AllBelow
      (omega arith, (omega arith, tt))

-- The borrow of the first word gets lost at the second.
sub_once_example :
    (c : List ℕ) × (owed : ℕ) × (sub_once (1 ∷ 0 ∷ []) (0 ∷ 0 ∷ 1 ∷ []) 0
      ≡ some (c ++ (1 + 2 ^ 32 - owed) % 2 ^ 32 ∷ []))
    × (length c ≡ 2)
    × AllBelow (2 ^ 32) c
    × (owed ≤ 1)
    × (value (0 ∷ 0 ∷ []) + owed * top_of 2 + lost (1 ∷ 0 ∷ []) (0 ∷ 0 ∷ 1 ∷ []) 0
        ≡ value c + value (1 ∷ 0 ∷ []) + 0)
sub_once_example =
    sub_once_lem (1 ∷ 0 ∷ []) (0 ∷ 0 ∷ []) 1 [] 0 (omega arith, (omega arith, tt))
      (omega arith, (omega arith, tt)) refl (omega arith)

-- What is lost there.
lost_words : lost (1 ∷ 0 ∷ []) (0 ∷ 0 ∷ 1 ∷ []) 0 ≡ 2 ^ 64
unfolding lost
lost_words = refl

abbrev four_words : List ℕ
four_words = 7 ∷ 8 ∷ 9 ∷ 0x70000000 ∷ []

four_words-keep : loop_keeps 4 2 2 two_words four_words ≡ true
unfolding loop_keeps step_keeps reduce_keeps lost is_above reduce sub_once sub_product take_off
    mod_step big_isless
four_words-keep = refl

four_words-fit : value four_words < value two_words * top_of 2
unfolding value top_of
four_words-fit = omega arith

big_mod_example :
    (out : List ℕ) × (big_mod 4 2 four_words two_words ≡ some out)
    × (length out ≡ 2)
    × AllBelow (2 ^ 32) out
    × (value out ≡ value four_words % value two_words)
    × (value out < value two_words)
big_mod_example =
    big_mod_lem two_words two_words-AllBelow 1 refl (omega arith) 4 (omega arith) four_words
      (omega arith, (omega arith, (omega arith, (omega arith, tt)))) refl four_words-fit
      four_words-keep

sevens-AllBelow : (n : ℕ) → AllBelow 256 (replicate n 7)
sevens-AllBelow zero = tt
sevens-AllBelow (suc n) = (omega arith, sevens-AllBelow n)

ones-keep : exp_keeps 4 2 (big_set 1) (big_set 1) modulus ≡ true
unfolding exp_keeps mulmod_keeps loop_keeps step_keeps reduce_keeps lost is_above reduce sub_once
    sub_product take_off mod_step mod_loop big_isless big_mod big_mulmod big_mul mul_rows mul_row
    keep_first words_of big_set modulus
ones-keep = refl

exp_loop_example :
    (out : List ℕ) × (exp_loop 4 2 (big_set 1) (big_set 1) modulus ≡ some out)
    × IsReduced modulus out
    × (value out ≡ odd_power 2 (value (big_set 1)) (value (big_set 1)) % value modulus)
exp_loop_example =
    exp_loop_lem modulus modulus-AllBelow length-modulus modulus-high 4 (omega arith) 2 (big_set 1)
      (big_set 1) big_set-IsReduced big_set-IsReduced ones-keep

big_htole-big_letoh_example :
    (words : List ℕ) × (big_letoh 2 (replicate 8 7) ≡ some words)
    × (length words ≡ 2)
    × (big_htole (bytes_of 2) 0 words ≡ some (replicate 8 7))
unfolding bytes_of
big_htole-big_letoh_example = big_htole-big_letoh 2 (replicate 8 7) refl (sevens-AllBelow 8)

abbrev sevens : List ℕ
sevens = replicate 255 7

sevens-keep : enc_keeps 4 sevens ≡ true
unfolding enc_keeps big_letoh exp_keeps mulmod_keeps loop_keeps step_keeps reduce_keeps lost
    is_above reduce sub_once sub_product take_off mod_step mod_loop big_isless big_mod big_mulmod
    big_mul mul_rows mul_row keep_first words_of big_set modulus
sevens-keep = refl

enc_type_1_example :
    (out_key : List ℕ) × (enc_type_1 4 sevens ≡ some out_key)
    × (length out_key ≡ 256)
    × AllBelow 256 out_key
    × (number out_key ≡ padded sevens * padded sevens * padded sevens % value modulus)
enc_type_1_example =
    enc_type_1_lem 4 sevens (omega arith) (leb→le 255 (length sevens) refl) (sevens-AllBelow 255)
      sevens-keep

enc_type_1-returns_example :
    (out_key : List ℕ) × (enc_type_1 36 sevens ≡ some out_key)
    × (length out_key ≡ 256)
    × AllBelow 256 out_key
enc_type_1-returns_example =
    enc_type_1-returns 36 (omega arith) sevens (leb→le 255 (length sevens) refl)
      (sevens-AllBelow 255)
