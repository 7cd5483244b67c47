-- ===== src/FastTrack/EncType2/Major17.antt =====
-- `mix_major17` of networks/fasttrack/enc_type_2.c.
use addnas_mldonkey.Base.{◌==◌}
use addnas_mldonkey.FastTrack.Mix.{
  Step, at, call, lit, pad, rol, rol_eq, ror, seed, seed_val, switch, when, ◌&=◌, ◌*=◌, ◌+=◌, ◌-=◌,
  ◌>>◌, ◌^=◌, ◌|=◌, ◌⊕◌, ◌⊞◌, ◌⊟◌, ◌⊠◌, ◌⋒◌, ◌⋓◌,
}
use addnas_mldonkey.FastTrack.Mix.Safe.{SafeStep}
use addnas_mldonkey.FastTrack.EncType2.Minor.{mix_minor27, mix_minor53}
use addnas_mldonkey.FastTrack.EncType2.Minor.Safe.{minor_rules}
use addnas_mldonkey.FastTrack.EncType2.Major19.{mix_major19, mix_major19-SafeStep}
use addnas_mldonkey.FastTrack.EncType2.Major20.{mix_major20, mix_major20-SafeStep}

unfoldable pub mix_major17 : Step
mix_major17 = switch (seed_val ⋒ lit 1) λ branch. do
  pad 5 -= at 18 ⊟ lit 0x34b87873
  pad 17 -= at 1 ⊟ lit 0x2051ec4
  pad 6 ^= at 16 ⊕ lit 0x5c80bc7
  seed -= ror seed_val (lit 26)
  pad 5 *= at 16 ⋓ lit 0x154e9813
  pad 0 |= at 5 ⊞ lit 0xbac2a47e
  pad 13 *= at 9 ⊕ lit 0xbf263a6
  pad 9 |= rol (at 11) (lit 23)
  pad 16 *= at 1 ⋒ lit 0x1c28de84
  pad 6 ^= ror (at 2) (lit 11)
  pad 12 ^= ror (at 9) (lit 24)
  seed += seed_val ⊞ lit 0x2c5a0200
  pad 19 |= at 12 ⊞ lit 0xa104f7f6
  pad 17 ^= at 11 ⊞ lit 0xf51e9043
  pad 15 += seed_val ⊞ lit 0x37f1bc89
  when (branch == 0)
      do pad 3 -= lit 0x2ae49a0; pad 9 += lit 0xde755696; mix_minor53; call mix_major19 (at 4)
  seed += at 5 ⋓ lit 0x79ba9a48
  pad 4 -= at 2 ⊕ lit 0x1ecdadba
  seed ^= at 10 ⊞ lit 0xf01ca4cf
  seed ^= at 8 ⊞ lit 0xf58222aa
  pad 8 |= at 7 ⊠ lit 0x59c62257
  pad 7 ^= at 7 ⋓ lit 0x2d2750f0
  seed += at 17 ⋓ lit 0x1719d4f
  pad 19 *= at 4 ⊞ lit 0xcec35bec
  pad 18 ^= at 2 ⊞ lit 0xdc17a237
  pad 19 += at 5 ⊞ lit 0xca0f8bc5
  seed += seed_val ⊞ lit 0xff282d98
  pad 0 += seed_val ⊞ lit 0x2a09f2a5
  pad 11 ^= at 2 ⊞ lit 0x30e437d6
  pad 12 |= seed_val ⊞ lit 0xee36df26
  pad 15 &= seed_val ⊞ lit 0xc95e1442
  when (branch == 1)
      do mix_minor27; pad 9 += lit 0xd68c597b; pad 9 += lit 0xdcb2dc4d; call mix_major20 (at 14)
  pad 7 -= at 17 ⊕ lit 0x72eeed7
  pad 17 *= at 15 ⊠ lit 0x162a030d
  pad 7 &= at 14 ⊞ lit 0xf0dd3ef3
  seed += at 1
  pad 2 ^= at 13 ⊕ lit 0x2d9ceb17
  pad 7 &= seed_val ⊕ lit 0x176b1b8e
  pad 8 |= seed_val ⊞ lit 0xdab13e76
  pad 16 -= at 12 ⊟ lit 0x2a74b8d4
  seed -= at 4 ⊟ lit 0xcc1039a3
  seed -= at 5 ⊠ lit 0x1239378b
  pad 0 ^= seed_val ⊕ lit 0xd9a5ac4
  pad 10 -= at 1 ⊕ lit 0x346ff630
  pad 14 += at 15 ⊕ lit 0x2f99340b
  pad 11 |= at 7 ⊞ lit 0xd5881b85
  rol_eq (pad 9) (at 16 ⊠ lit 0x19)

-- It stays inside the array.
pub mix_major17-SafeStep : SafeStep mix_major17
unfolding mix_major17
mix_major17-SafeStep =
    search (minor_rules, mix_major19-SafeStep, mix_major20-SafeStep) depth 500 fits 100000
