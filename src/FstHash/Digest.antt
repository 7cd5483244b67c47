-- ===== src/FstHash/Digest.antt =====
-- The four bytes that `fst_hash_string` writes behind the digest.
use addnas_mldonkey.Base.{
  ℕ, zero, suc, ◌/◌, ◌%◌, ◌^◌, ◌≡◌, refl, arith, List, [], ◌∷◌, ◌++◌, take, bit_and, bit_xor,
  bit_and_byte,
}
use addnas_mldonkey.FstHash.{append_small}

-- The `n` lowest bytes of a number, the lowest first.
unfoldable pub low_first : ℕ → ℕ → List ℕ
low_first zero w = []
low_first (suc n) w = w % 256 ∷ low_first n (w / 256)

pub append_small_lem :
    (digest : List ℕ) (smallhash filesize : ℕ)
    → append_small digest smallhash filesize
      ≡ take 16 digest ++ low_first 4 (bit_xor smallhash (filesize % 2 ^ 32))
unfolding append_small low_first
append_small_lem digest smallhash filesize =
    let w = bit_xor smallhash (filesize % 2 ^ 32) in
    let b0 : bit_and w 0xff ≡ w % 256 = bit_and_byte w in
    let b1 : bit_and (w / 2 ^ 8) 0xff ≡ w / 256 % 256 = omega (arith, bit_and_byte (w / 2 ^ 8)) in
    let b2 : bit_and (w / 2 ^ 16) 0xff ≡ w / 256 / 256 % 256 =
      omega (arith, bit_and_byte (w / 2 ^ 16)) in
    let b3 : bit_and (w / 2 ^ 24) 0xff ≡ w / 256 / 256 / 256 % 256 =
      omega (arith, bit_and_byte (w / 2 ^ 24)) in
    rw b0 rw b1 rw b2 rw b3 refl
