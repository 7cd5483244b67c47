-- ===== src/FastTrack/Init/Mask.antt =====
-- The masks that `pad_init` tests the encryption type with.
use addnas_mldonkey.Base.{ℕ, ◌/◌, ◌≡◌, arith, bit_and, bit_and_step, bit_and-zero, false}
use addnas_mldonkey.FastTrack.Cipher.{has_bit}

-- The bits 0x04 and 0x100 lie in the mask 0x1E6.
pub mask_1e6 :
    (e : ℕ) → has_bit e 0x1e6 ≡ false → (has_bit e 0x04 ≡ false) × (has_bit e 0x100 ≡ false)
unfolding has_bit
mask_1e6 e h =
    let none_set : bit_and e 0x1e6 ≡ 0 = ground arith in
    let no_four : bit_and e 0x04 ≡ 0 = omega (
      arith,
      none_set,
      bit_and_step e 486,
      bit_and_step (e / 2) 243,
      bit_and_step (e / 2 / 2) 121,
      bit_and_step (e / 2 / 2 / 2) 60,
      bit_and_step (e / 2 / 2 / 2 / 2) 30,
      bit_and_step (e / 2 / 2 / 2 / 2 / 2) 15,
      bit_and_step (e / 2 / 2 / 2 / 2 / 2 / 2) 7,
      bit_and_step (e / 2 / 2 / 2 / 2 / 2 / 2 / 2) 3,
      bit_and_step (e / 2 / 2 / 2 / 2 / 2 / 2 / 2 / 2) 1,
      bit_and-zero (e / 2 / 2 / 2 / 2 / 2 / 2 / 2 / 2 / 2),
      bit_and_step e 4,
      bit_and_step (e / 2) 2,
      bit_and_step (e / 2 / 2) 1,
      bit_and-zero (e / 2 / 2 / 2),
    ) in
    let no_high : bit_and e 0x100 ≡ 0 = omega (
      arith,
      none_set,
      bit_and_step e 486,
      bit_and_step (e / 2) 243,
      bit_and_step (e / 2 / 2) 121,
      bit_and_step (e / 2 / 2 / 2) 60,
      bit_and_step (e / 2 / 2 / 2 / 2) 30,
      bit_and_step (e / 2 / 2 / 2 / 2 / 2) 15,
      bit_and_step (e / 2 / 2 / 2 / 2 / 2 / 2) 7,
      bit_and_step (e / 2 / 2 / 2 / 2 / 2 / 2 / 2) 3,
      bit_and_step (e / 2 / 2 / 2 / 2 / 2 / 2 / 2 / 2) 1,
      bit_and-zero (e / 2 / 2 / 2 / 2 / 2 / 2 / 2 / 2 / 2),
      bit_and_step e 256,
      bit_and_step (e / 2) 128,
      bit_and_step (e / 2 / 2) 64,
      bit_and_step (e / 2 / 2 / 2) 32,
      bit_and_step (e / 2 / 2 / 2 / 2) 16,
      bit_and_step (e / 2 / 2 / 2 / 2 / 2) 8,
      bit_and_step (e / 2 / 2 / 2 / 2 / 2 / 2) 4,
      bit_and_step (e / 2 / 2 / 2 / 2 / 2 / 2 / 2) 2,
      bit_and_step (e / 2 / 2 / 2 / 2 / 2 / 2 / 2 / 2) 1,
      bit_and-zero (e / 2 / 2 / 2 / 2 / 2 / 2 / 2 / 2 / 2),
    ) in
    (rw no_four, rw no_high)
