-- ===== src/FastTrack/Seed.antt =====
-- The seed generator of networks/fasttrack/fst_crypt.c and what it feeds: key words, the table
-- shuffle's numbers, and the mangled encryption type.
pub mod Laws
use addnas_mldonkey.Base.{
  ℕ, zero, suc, ◌+◌, ◌*◌, ◌/◌, ◌%◌, ◌^◌, bit_or, bit_xor, Option, none, some, List, [], ◌∷◌, map,
  add32, mul32, shr, shl32, get_elem?, ltb, if◌then◌else◌,
}
use addnas_mldonkey.FastTrack.EncType2.{enc_type_2}

unfoldable pub seed_step : ℕ → ℕ
seed_step seed = add32 (mul32 0x10dcd seed) 0x4271

-- `for (i = 0; i < n; i++) { seed = seed_step (seed); key[i] = seed; }`: the key and the last seed.
unfoldable pub seed_keys : ℕ → ℕ → List ℕ × ℕ
seed_keys zero seed = ([], seed)
seed_keys (suc n) seed =
    let s = seed_step seed in let (key, last) = seed_keys n s in (s ∷ key, last)

-- The twenty key words, mixed under the next seed: `enc_type_2` and the seed that it was given.
unfoldable pub mixed_keys : ℕ → Option (List ℕ)
mixed_keys seed = let (key, last) = seed_keys 20 seed in enc_type_2 key (seed_step last)

-- `calculate_num (num, val)`: the new `*num` and the result.
unfoldable pub calculate_num : ℕ → ℕ → ℕ × ℕ
calculate_num num val =
    let n = seed_step num in if ltb 0x10001 val then (num, val) else (n, shr (shr n 16 * val) 16)

-- `enc_type ^ key_80[7]`
unfoldable pub mangle_enc_type : ℕ → ℕ → Option ℕ
mangle_enc_type seed enc_type = elim (mixed_keys seed) [
  | none ↦ none
  | some key ↦ elim (get_elem? key 7) [ none ↦ none | some k ↦ some (bit_xor enc_type k) ]
]

-- The bytes of an array of `unsigned int` in memory, on a little-endian machine.
unfoldable pub words_bytes : List ℕ → List ℕ
words_bytes [] = []
words_bytes (w ∷ ws) = w % 256 ∷ shr w 8 % 256 ∷ shr w 16 % 256 ∷ shr w 24 % 256 ∷ words_bytes ws

-- `(cbuf[3] << 8 | cbuf[2]) << 16 | (cbuf[1] << 8 | cbuf[0])`
unfoldable pub word_of_bytes : ℕ → ℕ → ℕ → ℕ → ℕ
word_of_bytes b0 b1 b2 b3 = bit_or (shl32 (bit_or (shl32 b3 8) b2) 16) (bit_or (shl32 b1 8) b0)

-- `reverse_bytes (buf, longs)` over the whole of `buf`
unfoldable pub reverse_bytes : List ℕ → List ℕ
reverse_bytes [] = []
reverse_bytes (w ∷ ws) =
    word_of_bytes (w % 256) (shr w 8 % 256) (shr w 16 % 256) (shr w 24 % 256) ∷ reverse_bytes ws
