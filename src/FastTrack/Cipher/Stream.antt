-- ===== src/FastTrack/Cipher/Stream.antt =====
-- The keystream never faults, and decryption is encryption from the same state.
use addnas_mldonkey.Base.{
  ℕ, suc, ◌+◌, ◌-◌, ◌^◌, ◌≤◌, ◌<◌, ◌≡◌, refl, ap, arith, bit_and, bit_or, bit_xor, bit_or-lt,
  bit_xor_cancel, bit_and-lt_mask, all_below_sound, some, List, [], ◌∷◌, u8, u32, get_elem?, get_or,
  length, ltb, ◌==◌, if◌then◌else◌, AllBelow, get_elem?-eq-get_or, get_or-lt, Bool-cases, inl, inr,
}
use addnas_mldonkey.FastTrack.Primitives.{Primitives}
use addnas_mldonkey.FastTrack.Seed.Laws.{mixed_keys-runs}
use addnas_mldonkey.FastTrack.Cipher.{Cipher, has_bit, wrap_pad16, wrap, clock, crypt}
use addnas_mldonkey.FastTrack.Cipher.Pad.{
  IsPad, IsPad-at, IsPad-put, mangle_pad-runs, merge_pad16-runs,
}

-- The array sizes and element types of `FSTCipher`, but for the position.
pub record HasTables (c : Cipher) : Type 0 where
  pub is_pad : IsPad c.pad
  pub lookup_size : length c.lookup ≡ 256
  pub lookup_bytes : AllBelow 256 c.lookup
  pub pad16_size : length c.pad16 ≡ 20
  pub pad16_words : AllBelow (2 ^ 32) c.pad16

pub record IsCipher (c : Cipher) : Type 0 where
  pub tables : HasTables c
  pub in_pad : c.pos < 63

mask_5-lt : (x : ℕ) → bit_and x 0x1f < 32
mask_5-lt x = bit_and-lt_mask 5 x 0x1f (omega arith)

bit_of_byte-lt : (x : ℕ) → 2 ^ bit_and x 7 < 256
bit_of_byte-lt x =
    all_below_sound 8 (λ n. 2 ^ n) 256 (bit_and x 7) refl (bit_and-lt_mask 3 x 7 (omega arith))

wrap_pad16-runs :
    (c : Cipher) → HasTables c → c.pos < 63 → (c' : Cipher) × (wrap_pad16 c ≡ some c') × IsCipher c'
unfolding wrap_pad16
wrap_pad16-runs c t h =
    let p = t.is_pad in
    let (shift_byte, e1, _) = IsPad-at 0x18 p (omega arith) in
    let (offset_byte, e2, _) = IsPad-at 0x19 p (omega arith) in
    let small = mask_5-lt offset_byte in
    let pad_offset = bit_and offset_byte 0x1f in
    let (merged, e3, p3) =
      merge_pad16-runs 6 0 (bit_and shift_byte 0x0f) pad_offset c.pad16 c.pad
        (omega (arith, t.pad16_size)) (omega arith) p in
    let (bit, e4, _) = IsPad-at 0x0a p3 (omega arith) in
    let (old, e5, lo) = IsPad-at (pad_offset + 4) p3 (omega arith) in
    let (pad', e6, p6) =
      IsPad-put (pad_offset + 4) (bit_or old (2 ^ bit_and bit 7)) p3 (omega arith)
        (bit_or-lt 8 old _ lo (bit_of_byte-lt bit)) in
    let (key, e7, size, words) = mixed_keys-runs c.wrapcount in
    elim (Bool-cases (bit_and c.wrapcount 15 == 0)) [
      | inl full_round ↦ (
        record c { pad = pad'; pad16 = key },
        rw (e1, wrap_pad16) (rw e2 (rw e3 (rw e4 (rw e5 (rw e6 (rw (full_round, e7))))))),
        record {
          tables = record {
            is_pad = p6;
            lookup_size = t.lookup_size;
            lookup_bytes = t.lookup_bytes;
            pad16_size = size;
            pad16_words = words;
          };
          in_pad = h;
        },
      )
      | inr not_yet ↦ (
        record c { pad = pad' },
        rw (e1, wrap_pad16) (rw e2 (rw e3 (rw e4 (rw e5 (rw e6 (rw not_yet)))))),
        record {
          tables = record {
            is_pad = p6;
            lookup_size = t.lookup_size;
            lookup_bytes = t.lookup_bytes;
            pad16_size = t.pad16_size;
            pad16_words = t.pad16_words;
          };
          in_pad = h;
        },
      )
    ]

wrap-runs : (c : Cipher) → HasTables c → (c' : Cipher) × (wrap c ≡ some c') × IsCipher c'
unfolding wrap
wrap-runs c t =
    let added = if has_bit c.enc_type 0x08 then u32 (c.add_to_lookup + 1) else c.add_to_lookup in
    let c1 : Cipher = record c {
      pos = 0;
      wrapcount = u32 (c.wrapcount + 1);
      add_to_lookup = added;
    } in
    let t1 : HasTables c1 = record {
      is_pad = t.is_pad;
      lookup_size = t.lookup_size;
      lookup_bytes = t.lookup_bytes;
      pad16_size = t.pad16_size;
      pad16_words = t.pad16_words;
    } in
    let (c2, e, v) = wrap_pad16-runs c1 t1 (omega arith) in
    elim (Bool-cases (has_bit c.enc_type 0x10)) [
      | inl on ↦ (c2, rw (on, wrap) e, v)
      | inr off ↦ (c1, rw (off, wrap), record { tables = t1; in_pad = omega arith })
    ]

-- The position wraps at the end of the pad.
advance-runs :
    (c : Cipher)
    → HasTables c
    → c.pos ≤ 63
    → (c' : Cipher) × ((if c.pos == 0x3f then wrap c else some c) ≡ some c') × IsCipher c'
advance-runs c t h =
    let (c', e, v) = wrap-runs c t in
    elim (Bool-cases (c.pos == 0x3f)) [
      | inl at_end ↦ (c', rw at_end e, v)
      | inr before ↦ (c, rw before, record { tables = t; in_pad = ground arith })
    ]

last-lt : (pos : ℕ) → pos < 63 → (if ltb 0 pos then pos - 1 else 62) < 63
last-lt pos h = ground arith

module _ (lib : Primitives) where
  -- From a well-formed cipher the clock accesses nothing outside its arrays, gives a byte, and
  -- leaves a well-formed cipher.
  pub clock-runs :
      (c : Cipher)
      → IsCipher c
      → (k : ℕ) × (c' : Cipher) × (clock lib c ≡ some (k, c')) × (k < 256) × IsCipher c'
  unfolding clock
  clock-runs c v =
      let t = v.tables in
      let p = t.is_pad in
      let (cur, e1, _) = IsPad-at c.pos p v.in_pad in
      let (prev, e2, _) =
        IsPad-at (if ltb 0 c.pos then c.pos - 1 else 62) p (last-lt c.pos v.in_pad) in
      let xor = u8 (cur + prev) in
      let (summed, e3, p3) = IsPad-put c.pos xor p v.in_pad (omega arith) in
      let (pad', e4, p4) = mangle_pad-runs lib c.pos xor summed p3 in
      let (c', e5, v5) =
        advance-runs (record c { pad = pad'; pos = c.pos + 1 })
          (record {
            is_pad = p4;
            lookup_size = t.lookup_size;
            lookup_bytes = t.lookup_bytes;
            pad16_size = t.pad16_size;
            pad16_words = t.pad16_words;
          })
          (omega (arith, v.in_pad)) in
      let temp = u8 (c'.add_to_lookup + xor) in
      let e6 : get_elem? c'.lookup temp ≡ some (get_or c'.lookup temp 0) =
        get_elem?-eq-get_or c'.lookup temp 0 (omega (arith, v5.tables.lookup_size)) in
      (
        get_or c'.lookup temp 0,
        c',
        rw (e1, clock) (rw e2 (rw e3 (rw e4 (rw e5 (rw e6))))),
        get_or-lt 256 c'.lookup temp 0 v5.tables.lookup_bytes (omega arith),
        v5,
      )

  -- From a well-formed cipher, a block is encrypted without a fault to a block of its length, which
  -- the same call from the same cipher turns back into the first; both calls leave the same
  -- well-formed cipher.
  pub crypt_undo :
      (c : Cipher) (text : List ℕ)
      → IsCipher c
      → (coded : List ℕ) × (c' : Cipher) × (crypt lib c text ≡ some (coded, c'))
        × (crypt lib c coded ≡ some (text, c'))
        × (length coded ≡ length text)
        × IsCipher c'
  unfolding crypt
  crypt_undo c [] v = ([], c, refl, refl, refl, v)
  crypt_undo c (x ∷ xs) v =
      let (k, c1, e1, lk, v1) = clock-runs c v in
      let (ys, c2, there, back, size, v2) = crypt_undo c1 xs v1 in
      (
        bit_xor x k ∷ ys,
        c2,
        rw (e1, crypt) (rw there),
        rw (e1, crypt) (rw (back, bit_xor_cancel x k)),
        ap suc size,
        v2,
      )
