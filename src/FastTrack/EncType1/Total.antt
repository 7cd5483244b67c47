-- ===== src/FastTrack/EncType1/Total.antt =====
-- `enc_type_1` on any key: the exponent, the padding and the bytes.
use addnas_mldonkey.Base.{
  ℕ, zero, suc, ◌+◌, ◌*◌, ◌^◌, ◌<◌, ◌≤◌, ◌≡◌, refl, ◌∙◌, arith, some, List, [], ◌∷◌, ◌++◌, length,
  take, AllBelow, get_or, length-append, length-take, take-AllBelow, append-AllBelow, leb→le,
}
use addnas_mldonkey.FastTrack.EncType1.{big_set, big_expmod, exp_loop, enc_type_1}
use addnas_mldonkey.FastTrack.EncType1.Modulus.{modulus}
use addnas_mldonkey.FastTrack.EncType1.Value.{value}
use addnas_mldonkey.FastTrack.EncType1.Bytes.{number, bytes_of, big_letoh_lem, big_htole_lem}
use addnas_mldonkey.FastTrack.EncType1.Mulmod.{IsReduced}
use addnas_mldonkey.FastTrack.EncType1.Expmod.{exp_loop-more}
use addnas_mldonkey.FastTrack.EncType1.Divides.{big_mulmod-returns}
use addnas_mldonkey.FastTrack.EncType1.Cube.{
  modulus-AllBelow, length-modulus, modulus-large, top_bytes, padded-lt, big_set-IsReduced,
  big_expmod-opens, enc_type_1-opens,
}

modulus-le : 0xc000_0000 ≤ get_or modulus 63 0
unfolding modulus
modulus-le = leb→le 0xc000_0000 (get_or modulus 63 0) refl

modulus-room : get_or modulus 63 0 + 2 ≤ 2 ^ 32
unfolding modulus
modulus-room = leb→le (get_or modulus 63 0 + 2) (2 ^ 32) refl

module _ (fuel : ℕ) (rounds : 36 ≤ fuel) where
  exp_loop-returns :
      (i : ℕ) (lnum num : List ℕ)
      → IsReduced modulus lnum
      → IsReduced modulus num
      → (out : List ℕ) × (exp_loop fuel i lnum num modulus ≡ some out) × IsReduced modulus out
  unfolding exp_loop
  exp_loop-returns zero lnum num hl hn = (lnum, refl, hl)
  exp_loop-returns (suc i) lnum num hl hn =
      let mulmod =
        big_mulmod-returns modulus modulus-AllBelow length-modulus modulus-le modulus-room fuel
          rounds in
      let (lnum', run, hl') = mulmod lnum num hl hn in
      let (num', run', hn') = mulmod num num hn hn in
      let (out, run'', ho) = exp_loop-returns i lnum' num' hl' hn' in
      (out, exp_loop-more fuel i lnum num modulus lnum' num' run run' ∙ run'', ho)

  -- On every key of 255 bytes or more, and with 36 rounds or more for the inner loop of `big_mod`,
  -- `enc_type_1` ends, accesses nothing outside its arrays and gives 256 bytes, whether borrows are
  -- lost or not.
  pub enc_type_1-returns :
      (in_key : List ℕ)
      → 255 ≤ length in_key
      → AllBelow 256 in_key
      → (out_key : List ℕ) × (enc_type_1 fuel in_key ≡ some out_key)
        × (length out_key ≡ 256)
        × AllBelow 256 out_key
  unfolding bytes_of IsReduced
  enc_type_1-returns in_key long bytes =
      let key = take 255 in_key in
      let size : length key ≡ 255 = omega (arith, length-take 255 in_key) in
      let full : length (key ++ 1 ∷ []) ≡ 256 = omega (arith, length-append key (1 ∷ [])) in
      let below = take-AllBelow 256 255 in_key bytes in
      let (num, run, size', below', total) =
        big_letoh_lem 64 (key ++ 1 ∷ []) full
          (append-AllBelow 256 key (1 ∷ []) below (omega arith, tt)) in
      let short : number (key ++ 1 ∷ []) < 2 * top_bytes 255 =
        let less : number (key ++ 1 ∷ []) < 2 * top_bytes (length key) = padded-lt key below in
        rw size at less in
      let less : value num < value modulus = omega (arith, total, short, modulus-large) in
      let (num', run', reduced) =
        exp_loop-returns 2 (big_set 1) num big_set-IsReduced (size', below', less) in
      let (out, run'', size'', below'', total') = big_htole_lem 64 num' reduced.0 reduced.1 in
      let powered : big_expmod fuel num (big_set 3) modulus ≡ some num' =
        big_expmod-opens fuel num modulus ∙ run' in
      (out, enc_type_1-opens fuel in_key num num' long run powered ∙ run'', size'', below'')
