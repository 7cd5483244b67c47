-- ===== src/FastTrack/Init/Laws.antt =====
-- A cipher is well-formed after `fst_cipher_init`, whatever the encryption type.
use addnas_mldonkey.Base.{
  ℕ, ◌+◌, ◌*◌, ◌%◌, ◌^◌, ◌<◌, ◌≤◌, ◌≡◌, refl, arith, bit_and, bit_or, bit_or-lt, Bool, true, false,
  some, List, length, AllBelow, ◌==◌, if◌then◌else◌, Bool-cases, inl, inr,
}
use addnas_mldonkey.FastTrack.Primitives.{Primitives}
use addnas_mldonkey.FastTrack.Seed.{mixed_keys}
use addnas_mldonkey.FastTrack.Seed.Laws.{seed_step-lt, mixed_keys-runs}
use addnas_mldonkey.FastTrack.Cipher.{Cipher, has_bit}
use addnas_mldonkey.FastTrack.Cipher.Pad.{IsPad, IsPad-at, IsPad-put, adjust_pad-runs}
use addnas_mldonkey.FastTrack.Cipher.Stream.{HasTables, IsCipher}
use addnas_mldonkey.FastTrack.Init.{
  create, or_bytes, make_odd, start_pos, count_up, shuffle, set_up, init,
}
use addnas_mldonkey.FastTrack.Init.Pad.{is_supported, pad_init-runs}
use addnas_mldonkey.FastTrack.Init.Shuffle.{IsTable, identity-IsTable, shuffle-IsTable}

-- `fst_cipher_create` gives a well-formed cipher.
pub create-IsCipher : IsCipher create
create-IsCipher = record {
  tables = record {
    is_pad = record { size = refl; bytes = omega arith };
    lookup_size = refl;
    lookup_bytes = omega arith;
    pad16_size = refl;
    pad16_words = omega arith;
  };
  in_pad = omega arith;
}

make_odd-runs : (pad : List ℕ) → IsPad pad → (out : List ℕ) × (make_odd pad ≡ some out) × IsPad out
unfolding make_odd
make_odd-runs pad p =
    let (first, e1, l1) = IsPad-at 0 p (omega arith) in
    let (out, e2, q) =
      IsPad-put 0 (bit_or first 0x71) p (omega arith) (bit_or-lt 8 first 0x71 l1 (omega arith)) in
    elim (Bool-cases (bit_and (or_bytes pad) 1 == 0)) [
      | inl even ↦ (out, rw (even, make_odd) (rw e1 e2), q)
      | inr odd ↦ (pad, rw (odd, make_odd), p)
    ]

-- The start position lies in the pad.
start_pos-lt : (seed : ℕ) → start_pos seed < 63
unfolding start_pos
start_pos-lt seed = omega (arith, seed_step-lt seed)

module _ (lib : Primitives) where
  open lib use {md5_word}

  set_up-runs :
      (c : Cipher) (pad : List ℕ) (seed : ℕ)
      → HasTables c
      → IsPad pad
      → (c' : Cipher) × (set_up lib c pad seed ≡ some c') × IsCipher c' × IsTable c'.lookup
  unfolding set_up
  set_up-runs c pad seed t p =
      let (odd, e1, p1) = make_odd-runs pad p in
      let pos = start_pos seed in
      let (lookup, e2, v2) = table (has_bit c.enc_type 0x08) odd in
      let (pad16, e3, size3, words3) = words (has_bit c.enc_type 0x10) in
      let (pad', e4, p4) = adjust_pad-runs lib ((pos * pos + 2) % 59) odd (omega arith) p1 in
      (
        record c { pos = pos; pad = pad'; lookup = lookup; pad16 = pad16 },
        rw (e1, set_up) (rw e2 (rw e3 (rw e4))),
        record {
          tables = record {
            is_pad = p4;
            lookup_size = v2.size;
            lookup_bytes = v2.bytes;
            pad16_size = size3;
            pad16_words = words3;
          };
          in_pad = start_pos-lt seed;
        },
        v2,
      )
    where
      table :
          (b : Bool) (odd : List ℕ)
          → (l : List ℕ) × ((if b
                then shuffle 256 0 (md5_word odd) (count_up 256 0)
                else some (count_up 256 0))
              ≡ some l)
            × IsTable l
      table true odd = shuffle-IsTable 256 0 (md5_word odd) (count_up 256 0) refl identity-IsTable
      table false odd = (count_up 256 0, refl, identity-IsTable)

      words :
          (b : Bool)
          → (key : List ℕ) × ((if b then mixed_keys (start_pos seed) else some c.pad16) ≡ some key)
            × (length key ≡ 20)
            × AllBelow (2 ^ 32) key
      words true = mixed_keys-runs (start_pos seed)
      words false = (c.pad16, refl, t.pad16_size, t.pad16_words)

  -- For a well-formed cipher and a 32-bit seed, and with 36 rounds or more for the inner loop of
  -- `enc_type_1`, `fst_cipher_init` ends and faults on no type, and it leaves
  -- a well-formed cipher. It returns `TRUE` exactly if `is_supported`, that is unless the type is
  -- one that `pad_init` refuses; then `lookup` holds each of the 256 bytes once.
  pub init-IsCipher :
      (fuel : ℕ) (c : Cipher) (seed enc_type : ℕ)
      → 36 ≤ fuel
      → IsCipher c
      → seed < 2 ^ 32
      → (c' : Cipher) × (init lib fuel c seed enc_type ≡ some (is_supported enc_type, c'))
        × IsCipher c'
        × (is_supported enc_type ≡ true → IsTable c'.lookup)
  unfolding init
  init-IsCipher fuel c seed enc_type rounds v h =
      let t = v.tables in
      let c1 : Cipher = record c {
        enc_type = enc_type;
        wrapcount = 0;
        add_to_lookup = 0;
        seed = seed;
      } in
      let t1 : HasTables c1 = record {
        is_pad = t.is_pad;
        lookup_size = t.lookup_size;
        lookup_bytes = t.lookup_bytes;
        pad16_size = t.pad16_size;
        pad16_words = t.pad16_words;
      } in
      let (pad, last, e1, p, hl) = pad_init-runs fuel rounds seed enc_type h in
      let (c2, e2, v2, table) = set_up-runs c1 pad last t1 p in
      elim (Bool-cases (is_supported enc_type)) [
        | inl good ↦ (c2, rw (e1, init) (rw good (rw e2)), v2, λ _. table)
        | inr bad ↦ (
          record c1 { pad = pad },
          rw (e1, init) (rw bad),
          record {
            tables = record {
              is_pad = p;
              lookup_size = t.lookup_size;
              lookup_bytes = t.lookup_bytes;
              pad16_size = t.pad16_size;
              pad16_words = t.pad16_words;
            };
            in_pad = v.in_pad;
          },
          λ good. cc,
        )
      ]
