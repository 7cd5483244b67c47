-- ===== src/FastTrack/Cipher.antt =====
-- The stream cipher of networks/fasttrack/fst_crypt.c: its state, the keystream byte and the
-- encryption of a block. `none` is an access outside an array.
pub mod Pad
pub mod Stream
use Prim.Native.Nat.{compare, Ordering}
use addnas_mldonkey.Base.{
  ℕ, zero, suc, ◌+◌, ◌-◌, ◌*◌, ◌%◌, ◌^◌, bit_and, bit_or, bit_xor, Bool, ◌&&◌, not, Option, none,
  some, List, [], ◌∷◌, ◌++◌, u8, u32, shr, get_elem?, set?, take, drop, length, ltb, ◌==◌,
  if◌then◌else◌, ◌>>=◌,
}
use addnas_mldonkey.FastTrack.Primitives.{Primitives}
use addnas_mldonkey.FastTrack.Seed.{mixed_keys}

-- `FSTCipher`
pub record Cipher : Type 0 where
  pub pos : ℕ
  pub wrapcount : ℕ
  pub add_to_lookup : ℕ
  pub enc_type : ℕ
  pub pad : List ℕ
  pub lookup : List ℕ
  pub pad16 : List ℕ
  pub seed : ℕ

-- The sign of `qsort_cmp_func`, which is all that `qsort` reads.
unfoldable pub qsort_cmp_func : ℕ → ℕ → Ordering
qsort_cmp_func a b = compare (bit_xor a 0x20) (bit_xor b 0x20)

-- `c = ~c + i; pad[i] = c | 1` for every third index from `i` on. The list is `pad[i..]`, and
-- `skip` elements of it come before the next such index.
unfoldable pub modify_thirds : ℕ → ℕ → List ℕ → List ℕ
modify_thirds skip i [] = []
modify_thirds zero i (c ∷ cs) = bit_or (u8 (255 - c + i)) 1 ∷ modify_thirds 2 (i + 1) cs
modify_thirds (suc skip) i (c ∷ cs) = c ∷ modify_thirds skip (i + 1) cs

-- `if (enc_type & mask)`
unfoldable pub has_bit : ℕ → ℕ → Bool
has_bit enc_type mask = not (bit_and enc_type mask == 0)

module _ (lib : Primitives) where
  open lib use {qsort}

  -- `qsort (pad + sortpos, 5, 1, qsort_cmp_func)`
  unfoldable pub sort_five : ℕ → List ℕ → Option (List ℕ)
  sort_five sortpos pad =
      if ltb (length pad) (sortpos + 5)
      then none
      else some (
          take sortpos pad
          ++ (qsort qsort_cmp_func (take 5 (drop sortpos pad)) ++ drop 5 (drop sortpos pad)))

  -- The sort and the change of every third byte, as both `fst_cipher_init` and the clock do.
  unfoldable pub adjust_pad : ℕ → List ℕ → Option (List ℕ)
  adjust_pad sortpos pad = do sorted ← sort_five sortpos pad; some (modify_thirds 5 0 sorted)

  -- The state is mangled at position 7 if the high bits of the byte are 0.
  unfoldable pub mangle_pad : ℕ → ℕ → List ℕ → Option (List ℕ)
  mangle_pad pos xor pad = do
    second ← get_elem? pad 2
    let sum = xor + second
    let mangled = adjust_pad ((sum * sum + 2) % 59) pad
    if pos == 7 && bit_and xor 0x70 == 0 then mangled else some pad

-- `for (i …; rounds left) pad[pad_offset + i] ^= (unsigned char) (pad16[i] >> shift_factor)`
unfoldable pub merge_pad16 : ℕ → ℕ → ℕ → ℕ → List ℕ → List ℕ → Option (List ℕ)
merge_pad16 zero i shift_factor pad_offset pad16 pad = some pad
merge_pad16 (suc rounds) i shift_factor pad_offset pad16 pad = do
  val ← get_elem? pad16 i
  old ← get_elem? pad (pad_offset + i)
  pad' ← set? pad (pad_offset + i) (bit_xor old (u8 (shr val shift_factor)))
  merge_pad16 rounds (i + 1) shift_factor pad_offset pad16 pad'

-- What a wrap does under `enc_type & 0x10`.
unfoldable pub wrap_pad16 : Cipher → Option Cipher
wrap_pad16 c = do
  shift_byte ← get_elem? c.pad 0x18
  offset_byte ← get_elem? c.pad 0x19
  let pad_offset = bit_and offset_byte 0x1f
  merged ← merge_pad16 6 0 (bit_and shift_byte 0x0f) pad_offset c.pad16 c.pad
  bit ← get_elem? merged 0x0a
  old ← get_elem? merged (pad_offset + 4)
  pad' ← set? merged (pad_offset + 4) (bit_or old (2 ^ bit_and bit 7))
  let remixed = mixed_keys c.wrapcount >>= λ key. some (record c { pad = pad'; pad16 = key })
  if bit_and c.wrapcount 15 == 0 then remixed else some (record c { pad = pad' })

-- `cipher->pos == 0x3f`: the position starts again.
unfoldable pub wrap : Cipher → Option Cipher
wrap c = do
  let c' = record c {
    pos = 0;
    wrapcount = u32 (c.wrapcount + 1);
    add_to_lookup = if has_bit c.enc_type 0x08 then u32 (c.add_to_lookup + 1) else c.add_to_lookup;
  }
  if has_bit c.enc_type 0x10 then wrap_pad16 c' else some c'

module _ (lib : Primitives) where
  -- `fst_cipher_clock`: the keystream byte and the new state.
  unfoldable pub clock : Cipher → Option (ℕ × Cipher)
  clock c = do
    cur ← get_elem? c.pad c.pos
    prev ← get_elem? c.pad (if ltb 0 c.pos then c.pos - 1 else 62)
    let xor = u8 (cur + prev)
    summed ← set? c.pad c.pos xor
    pad' ← mangle_pad lib c.pos xor summed
    let stepped = record c { pad = pad'; pos = c.pos + 1 }
    c' ← if c.pos + 1 == 0x3f then wrap stepped else some stepped
    out ← get_elem? c'.lookup (u8 (c'.add_to_lookup + xor))
    some (out, c')

  -- `fst_cipher_crypt`: every byte is xored with the next byte of the keystream.
  unfoldable pub crypt : Cipher → List ℕ → Option (List ℕ × Cipher)
  crypt c [] = some ([], c)
  crypt c (x ∷ xs) = do (k, c') ← clock c; (ys, c'') ← crypt c' xs; some (bit_xor x k ∷ ys, c'')
