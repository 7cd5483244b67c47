-- ===== src/FastTrack/Init.antt =====
-- How networks/fasttrack/fst_crypt.c sets a cipher up from a seed and an encryption type.
pub mod Shuffle
pub mod Mask
pub mod Pad
pub mod Laws
use addnas_mldonkey.Base.{
  ℕ, zero, suc, ◌+◌, ◌-◌, ◌*◌, ◌%◌, ◌^◌, bit_and, bit_or, bit_xor, Bool, true, false, ◌||◌, not,
  Option, none, some, List, [], ◌∷◌, shr, shl32, sub32, get_elem?, set?, replicate, ◌==◌, ◌>>=◌,
  if◌then◌else◌,
}
use addnas_mldonkey.FastTrack.EncType1.{enc_type_1}
use addnas_mldonkey.FastTrack.EncType2.{enc_type_2}
use addnas_mldonkey.FastTrack.EncType20.{enc_type_20}
use addnas_mldonkey.FastTrack.EncType80.{enc_type_80}
use addnas_mldonkey.FastTrack.Primitives.{Primitives}
use addnas_mldonkey.FastTrack.Seed.{
  seed_step, seed_keys, mixed_keys, calculate_num, words_bytes, reverse_bytes,
}
use addnas_mldonkey.FastTrack.Cipher.{Cipher, has_bit, adjust_pad}

-- `fst_cipher_create`: all zero.
abbrev pub create : Cipher
create = record {
  pos = 0;
  wrapcount = 0;
  add_to_lookup = 0;
  enc_type = 0;
  pad = replicate 63 0;
  lookup = replicate 256 0;
  pad16 = replicate 20 0;
  seed = 0;
}

-- The first `n` bytes of `key_256_in`, and the last seed.
unfoldable pub seed_bytes : ℕ → ℕ → List ℕ × ℕ
seed_bytes zero seed = ([], seed)
seed_bytes (suc n) seed =
    let s = seed_step seed in let (key, last) = seed_bytes n s in (shr s 0x11 % 0xe0 ∷ key, last)

-- `for (i = 0; i < pad_size; i++) pad[i] ^= key[i];`
unfoldable pub merge_key : List ℕ → List ℕ → Option (List ℕ)
merge_key [] key = some []
merge_key (x ∷ xs) [] = none
merge_key (x ∷ xs) (k ∷ ks) = do rest ← merge_key xs ks; some (bit_xor x k ∷ rest)

-- `if (enc_type & mask) { seed = seed_step (seed); mix (key_80, seed); }`
unfoldable pub mix_if : Bool → (List ℕ → ℕ → Option (List ℕ)) → List ℕ × ℕ → Option (List ℕ × ℕ)
mix_if false mix (key, seed) = some (key, seed)
mix_if true mix (key, seed) = do key' ← mix key (seed_step seed); some (key', seed_step seed)

-- `fuel` bounds the rounds of the inner loop of `enc_type_1`.
module _ (fuel : ℕ) where
  -- The part of `pad_init` under `enc_type & 1`, or where no type is set.
  unfoldable pub init_type_1 : ℕ → ℕ → Option (List ℕ × ℕ)
  init_type_1 seed enc_type =
      let (key_in, last) = seed_bytes 0xff seed in
      let merged =
        enc_type_1 fuel key_in >>= merge_key (replicate 63 0) >>= λ pad. some (pad, last) in
      if has_bit enc_type 1 || not (has_bit enc_type 0x1e7)
      then merged
      else some (replicate 63 0, seed)

  -- The part under `enc_type & 0x1E6`. It gives the result of `pad_init`, the pad and the seed.
  unfoldable pub init_key_80 : ℕ → ℕ → List ℕ → Option (Bool × List ℕ × ℕ)
  init_key_80 seed enc_type pad = do
    keyed ← mix_if (has_bit enc_type 0x02) enc_type_2 (seed_keys 20 seed)
    let supported = do
      keyed20 ← mix_if (has_bit enc_type 0x20) enc_type_20 keyed
      (key, last) ← mix_if (has_bit enc_type 0x80) enc_type_80 keyed20
      let merged =
          merge_key pad (words_bytes (reverse_bytes key)) >>= λ pad'. some (true, pad', last)
      if has_bit enc_type 0x100 then some (false, pad, seed) else merged
    if has_bit enc_type 0x04 then some (false, pad, seed) else supported

  -- `pad_init`. After a `FALSE` the caller does not read the seed.
  unfoldable pub pad_init : ℕ → ℕ → Option (Bool × List ℕ × ℕ)
  pad_init seed enc_type = do
    (pad, last) ← init_type_1 seed enc_type
    if has_bit enc_type 0x1e6 then init_key_80 last enc_type pad else some (true, pad, last)

-- The OR of all bytes.
unfoldable pub or_bytes : List ℕ → ℕ
or_bytes [] = 0
or_bytes (x ∷ xs) = bit_or x (or_bytes xs)

-- `if (!(c & 1)) pad[0] = pad[0] | 0x71;`
unfoldable pub make_odd : List ℕ → Option (List ℕ)
make_odd pad =
    let changed = get_elem? pad 0 >>= λ first. set? pad 0 (bit_or first 0x71) in
    if bit_and (or_bytes pad) 1 == 0 then changed else some pad

-- `((temp << 6) - temp) >> 16`, from the seed after the pad's.
unfoldable pub start_pos : ℕ → ℕ
start_pos seed = let temp = shr (seed_step seed) 16 in shr (sub32 (shl32 temp 6) temp) 16

-- `i, i + 1, …`, `n` numbers
unfoldable pub count_up : ℕ → ℕ → List ℕ
count_up zero i = []
count_up (suc n) i = i ∷ count_up n (i + 1)

-- `a = lookup[j]; b = lookup[i]; lookup[i] = a; lookup[j] = b;`
unfoldable pub swap : List ℕ → ℕ → ℕ → Option (List ℕ)
swap lookup i j = do
  a ← get_elem? lookup j
  b ← get_elem? lookup i
  lookup' ← set? lookup i a
  set? lookup' j b

-- The loop at index `i`, which swaps element `i` with one from `i` on.
unfoldable pub shuffle : ℕ → ℕ → ℕ → List ℕ → Option (List ℕ)
shuffle zero i num lookup = some lookup
shuffle (suc rounds) i num lookup = do
  let (num', offset) = calculate_num num (0x100 - i)
  let swapped = swap lookup i (offset + i)
  lookup' ← if offset + i == i then some lookup else swapped
  shuffle rounds (i + 1) num' lookup'

module _ (lib : Primitives) where
  open lib use {md5_word}

  -- `fst_cipher_init` once `pad_init` has made the pad.
  unfoldable pub set_up : Cipher → List ℕ → ℕ → Option Cipher
  set_up c pad seed = do
    odd ← make_odd pad
    let pos = start_pos seed
    let identity = count_up 256 0
    lookup ←
        if has_bit c.enc_type 0x08 then shuffle 256 0 (md5_word odd) identity else some identity
    pad16 ← if has_bit c.enc_type 0x10 then mixed_keys pos else some c.pad16
    pad' ← adjust_pad lib ((pos * pos + 2) % 59) odd
    some (record c { pos = pos; pad = pad'; lookup = lookup; pad16 = pad16 })

  -- `fst_cipher_init`: whether the type is supported, and the cipher.
  unfoldable pub init : ℕ → Cipher → ℕ → ℕ → Option (Bool × Cipher)
  init fuel c seed enc_type = do
    let c' = record c { enc_type = enc_type; wrapcount = 0; add_to_lookup = 0; seed = seed }
    (supported, pad, last) ← pad_init fuel seed enc_type
    let ready = set_up c' pad last >>= λ c''. some (true, c'')
    if supported then ready else some (false, record c' { pad = pad })
