-- ===== src/FastTrack/Link.antt =====
-- networks/fasttrack/fst_crypt_ml.c: the ciphers of a connection as the OCaml side drives them. A
-- string is its bytes; a function returns what it changes, and `none` is an access outside a
-- string. `htonl` of a word stores its highest byte first on every machine.
pub mod Laws
pub mod Apply
use addnas_mldonkey.Base.{
  ℕ, ◌+◌, ◌*◌, ◌%◌, ◌^◌, bit_xor, Option, none, some, List, [], ◌∷◌, ◌++◌, shr, get_elem?, set?,
  take, drop, length, ltb, ◌>>=◌, if◌then◌else◌,
}
use addnas_mldonkey.FastTrack.Primitives.{Primitives}
use addnas_mldonkey.FastTrack.Seed.{mangle_enc_type}
use addnas_mldonkey.FastTrack.Cipher.{Cipher, crypt}
use addnas_mldonkey.FastTrack.Init.{create, init}

-- `((unsigned int*)(s+pos))[0] = htonl (word)`
unfoldable pub put_word : List ℕ → ℕ → ℕ → Option (List ℕ)
put_word s pos word = do
  s1 ← set? s pos (shr word 24 % 256)
  s2 ← set? s1 (pos + 1) (shr word 16 % 256)
  s3 ← set? s2 (pos + 2) (shr word 8 % 256)
  set? s3 (pos + 3) (word % 256)

-- `htonl (((unsigned int*)(s+pos))[0])`
unfoldable pub get_word : List ℕ → ℕ → Option ℕ
get_word s pos = do
  b0 ← get_elem? s pos
  b1 ← get_elem? s (pos + 1)
  b2 ← get_elem? s (pos + 2)
  b3 ← get_elem? s (pos + 3)
  some (((b0 * 256 + b1) * 256 + b2) * 256 + b3)

module _ (lib : Primitives) where
  -- `ml_apply_cipher`: `len` bytes of the string from `pos` on are encrypted in place.
  unfoldable pub apply_cipher : Cipher → List ℕ → ℕ → ℕ → Option (List ℕ × Cipher)
  apply_cipher c s pos len = do
    let block = take len (drop pos s)
    let done = do
      (coded, c') ← crypt lib c block
      some (take pos s ++ (coded ++ drop len (drop pos s)), c')
    if ltb (length s) (pos + len) then none else done

  -- `ml_init_cipher`, which drops the result of `fst_cipher_init`. `fuel` is that of `init`.
  unfoldable pub init_cipher : ℕ → Cipher → Option Cipher
  init_cipher fuel c = do (supported, c') ← init lib fuel c c.seed c.enc_type; some c'

  -- `ml_xor_ciphers2`: the out and the in cipher.
  unfoldable pub xor_ciphers2 : ℕ → Cipher → Cipher → Option (Cipher × Cipher)
  xor_ciphers2 fuel out_cipher in_cipher = do
    let mixed = bit_xor out_cipher.seed in_cipher.seed
    let answered = record in_cipher { seed = bit_xor in_cipher.seed out_cipher.seed }
    (supported, out') ← init lib fuel (record out_cipher { seed = mixed }) mixed out_cipher.enc_type
    some (out', answered)

-- `ml_set_cipher`
unfoldable pub set_cipher : Cipher → ℕ → ℕ → Cipher
set_cipher c seed encode = record c { enc_type = encode; seed = seed }

-- `ml_cipher_packet_get`: the seed and the type of the peer's packet go into the in cipher.
unfoldable pub packet_get : List ℕ → ℕ → Cipher → Option Cipher
packet_get s pos in_cipher = do
  seed ← get_word s pos
  mangled ← get_word s (pos + 4)
  enc_type ← mangle_enc_type seed mangled
  some (record in_cipher { seed = seed; enc_type = enc_type })

-- `ml_xor_ciphers`: the new out cipher.
unfoldable pub xor_ciphers : Cipher → Cipher → Cipher
xor_ciphers out_cipher in_cipher = record out_cipher {
  seed = bit_xor out_cipher.seed in_cipher.seed;
  enc_type = in_cipher.enc_type;
}

-- `ml_cipher_packet_set`
unfoldable pub packet_set : Cipher → List ℕ → ℕ → Option (List ℕ)
packet_set c s pos = do
  s' ← put_word s pos c.seed
  mangled ← mangle_enc_type c.seed c.enc_type
  put_word s' (pos + 4) mangled

-- `ml_cipher_packet_set_xored`
unfoldable pub packet_set_xored : Cipher → List ℕ → ℕ → Cipher → Option (List ℕ)
packet_set_xored c s pos xor_cipher = do
  s' ← put_word s pos (bit_xor c.seed xor_cipher.seed)
  mangled ← mangle_enc_type c.seed c.enc_type
  put_word s' (pos + 4) mangled
