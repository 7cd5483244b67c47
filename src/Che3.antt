-- ===== src/Che3.antt =====
-- networks/direct_connect/che3_c.c: the bits of the HE3 compression. A byte holds its bits from the
-- lowest up; a pattern goes from its highest bit down. `none` is an access outside the array.
pub mod Bits
pub mod Stream
pub mod Read
mod Examples
use addnas_mldonkey.Base.{
  ℕ, zero, suc, ◌+◌, ◌-◌, ◌*◌, ◌/◌, ◌%◌, ◌^◌, bit_and, bit_or, Option, none, some, List, get_elem?,
  set?, shr, ◌==◌, if◌then◌else◌, ◌>>=◌,
}

-- `get_bit`: the bit, and `*cur_pos` after it. `unsigned long` has 64 bits.
unfoldable pub get_bit : List ℕ → ℕ → Option (ℕ × ℕ)
get_bit bytes cur_pos = do
  byte ← get_elem? bytes (cur_pos / 8)
  some (bit_and (shr byte (bit_and cur_pos 7)) 1, (cur_pos + 1) % 2 ^ 64)

-- The loop of `get_bits`, for the rounds left.
unfoldable pub bits_loop : List ℕ → ℕ → ℕ → ℕ → Option (ℕ × ℕ)
bits_loop bytes zero res cur_pos = some (res, cur_pos)
bits_loop bytes (suc rounds) res cur_pos = do
  (bit, cur_pos') ← get_bit bytes cur_pos
  bits_loop bytes rounds (bit_or (res * 2 % 2 ^ 64) bit) cur_pos'

-- `get_bits`
unfoldable pub get_bits : List ℕ → ℕ → ℕ → Option (ℕ × ℕ)
get_bits bytes cur_pos nb_bit = bits_loop bytes nb_bit 0 cur_pos

-- `data[i] |= v`
unfoldable pub or_at : List ℕ → ℕ → ℕ → Option (List ℕ)
or_at bytes i v = do byte ← get_elem? bytes i; set? bytes i (bit_or byte v % 2 ^ 8)

-- `add_bit`: the array and `*bit_pos` after it.
unfoldable pub add_bit : List ℕ → ℕ → ℕ → Option (List ℕ × ℕ)
add_bit bytes bit_pos bit_value = do
  bytes1 ← if bit_and bit_pos 7 == 0 then or_at bytes (bit_pos / 8) 0 else some bytes
  bytes2 ←
      if bit_value == 0 then some bytes1 else or_at bytes1 (bit_pos / 8) (2 ^ bit_and bit_pos 7)
  some (bytes2, (bit_pos + 1) % 2 ^ 64)

-- The loop of `add_bits`, for the bits of the pattern left.
unfoldable pub add_bits : List ℕ → ℕ → ℕ → ℕ → Option (List ℕ × ℕ)
add_bits bytes bit_pos pattern zero = some (bytes, bit_pos)
add_bits bytes bit_pos pattern (suc left) = do
  (bytes', bit_pos') ← add_bit bytes bit_pos (bit_and (shr pattern left % 256) 1)
  add_bits bytes' bit_pos' pattern left
