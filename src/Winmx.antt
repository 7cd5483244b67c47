-- ===== src/Winmx.antt =====
-- networks/opennap/winmx_xor_c.c: the byte scrambling of the WinMX protocol, in place over the
-- first `length` bytes of a string. `none` is an access outside the string.
pub mod Laws
mod Examples
use addnas_mldonkey.Base.{
  ℕ, zero, suc, ◌+◌, ◌-◌, ◌%◌, ◌^◌, bit_xor, Option, none, some, List, u8, get_elem?, set?, ◌==◌,
  ltb, if◌then◌else◌, ◌>>=◌,
}

-- `what[x] ^= b`
unfoldable pub xor_byte : ℕ → ℕ → List ℕ → Option (List ℕ)
xor_byte x b what = do a ← get_elem? what x; set? what x (bit_xor a b)

-- `what[x] ^= what[y]`
unfoldable pub xor_with : ℕ → ℕ → List ℕ → Option (List ℕ)
xor_with x y what = do b ← get_elem? what y; xor_byte x b what

-- `for (; rounds left; x++) what[x] ^= what[x-1];`
unfoldable pub forward : ℕ → ℕ → List ℕ → Option (List ℕ)
forward zero x what = some what
forward (suc rounds) x what = do what' ← xor_with x (x - 1) what; forward rounds (x + 1) what'

-- `for (; x > 0; x--) what[x] ^= what[x-1];`
unfoldable pub backward : ℕ → List ℕ → Option (List ℕ)
backward zero what = some what
backward (suc x) what = do what' ← xor_with (suc x) x what; backward x what'

-- An `unsigned int` as an `int`, and 0 for what is negative: a loop up or down to it ends at once.
unfoldable pub to_int : ℕ → ℕ
to_int n = if ltb n (2 ^ 31) then n else 0

module _ (len : ℕ) where
  -- `if (counter != 4) what[0] ^= what[length-1]; else what[0] ^= (char)(length);` The index wraps
  -- to 2 ^ 32 - 1 where the length is 0.
  unfoldable pub mix_head : ℕ → List ℕ → Option (List ℕ)
  mix_head counter what =
      if counter == 4
      then xor_byte 0 (u8 len) what
      else xor_with 0 ((len + 2 ^ 32 - 1) % 2 ^ 32) what

  -- The rounds of `winmx_encode_ml` for the counters below `rounds`, the highest first.
  unfoldable pub encode_rounds : ℕ → List ℕ → Option (List ℕ)
  encode_rounds zero what = some what
  encode_rounds (suc counter) what = do
    what1 ← mix_head counter what
    what2 ← forward (to_int len - 1) 1 what1
    encode_rounds counter what2

  unfoldable pub winmx_encode : List ℕ → Option (List ℕ)
  winmx_encode what = encode_rounds 5 what

  -- The rounds of `winmx_decode_ml` for the counters below `rounds`, the lowest first.
  unfoldable pub decode_rounds : ℕ → List ℕ → Option (List ℕ)
  decode_rounds zero what = some what
  decode_rounds (suc counter) what = do
    what1 ← decode_rounds counter what
    what2 ← backward (to_int ((len + 2 ^ 32 - 1) % 2 ^ 32)) what1
    mix_head counter what2

  unfoldable pub winmx_decode : List ℕ → Option (List ℕ)
  winmx_decode what = decode_rounds 5 what
