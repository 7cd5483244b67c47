-- ===== src/FastTrack/EncType2/Major12.antt =====
-- `mix_major12` of networks/fasttrack/enc_type_2.c.
use addnas_mldonkey.Base.{◌==◌}
use addnas_mldonkey.FastTrack.Mix.{
  Step, at, call, lit, pad, rol, rol_eq, ror, seed, seed_val, switch, when, ◌&=◌, ◌*=◌, ◌+=◌, ◌-=◌,
  ◌>>◌, ◌^=◌, ◌|=◌, ◌≔◌, ◌⊕◌, ◌⊘◌, ◌⊞◌, ◌⊟◌, ◌⊠◌, ◌⋒◌, ◌⋓◌,
}
use addnas_mldonkey.FastTrack.Mix.Safe.{SafeStep}
use addnas_mldonkey.FastTrack.EncType2.Minor.{
  mix_minor33, mix_minor37, mix_minor39, mix_minor40, mix_minor42, mix_minor55, mix_minor56,
  mix_minor61,
}
use addnas_mldonkey.FastTrack.EncType2.Minor.Safe.{minor_rules}
use addnas_mldonkey.FastTrack.EncType2.Major8.{mix_major8, mix_major8-SafeStep}
use addnas_mldonkey.FastTrack.EncType2.Major15.{mix_major15, mix_major15-SafeStep}
use addnas_mldonkey.FastTrack.EncType2.Major16.{mix_major16, mix_major16-SafeStep}
use addnas_mldonkey.FastTrack.EncType2.Major17.{mix_major17, mix_major17-SafeStep}
use addnas_mldonkey.FastTrack.EncType2.Major19.{mix_major19, mix_major19-SafeStep}
use addnas_mldonkey.FastTrack.EncType2.Major20.{mix_major20, mix_major20-SafeStep}

unfoldable pub mix_major12 : Step
mix_major12 = switch (((at 7 ⊕ at 16) ⊕ seed_val) ⊘ 6) λ branch. do
  pad 18 &= at 6 ⋒ lit 0x104394c4
  seed *= seed_val ⊞ lit 0xe92519e2
  pad 4 += at 19 ⊞ lit 0x46d5ad23
  pad 6 += at 1 ⊞ lit 0x3fd0884
  seed ≔ at 9 ⊠ (seed_val ⊞ lit 0xc46fe68)
  pad 9 ≔ seed_val
  when (branch == 5) do pad 8 += lit 0xb0568904; mix_minor55; mix_minor56; call mix_major19 (at 4)
  pad 11 ^= at 7 ⊕ lit 0x4453b1d7
  pad 4 ^= at 12 ⊞ lit 0x187596ce
  pad 14 += at 19 ⊕ lit 0x1ecd4347
  pad 17 &= at 6 ⊞ lit 0xaa504a66
  pad 13 -= at 7 ⊟ lit 0x2482f7ba
  when (branch == 2)
      do rol_eq (pad 16) (lit 27); pad 3 += lit 0x8602040; mix_minor37; call mix_major20 (at 18)
  pad 5 *= at 17 ⋓ lit 0x14128b1f
  pad 5 &= at 9 ⋓ lit 0x8ae69ec
  seed ≔ (at 5 ⋓ lit 0x25dcee2a) ⊠ lit 0xf7abca44
  pad 12 += at 10 ⊠ lit 0x2b5c108a
  pad 19 -= at 10 ⊟ lit 0x45d1e08
  when (branch == 1)
      do mix_minor61; pad 3 += lit 0x1704000; pad 12 += lit 0x20e002a; call mix_major17 (at 7)
  pad 5 -= at 3 ⊟ lit 0x17a9626b
  seed += at 8 ⊞ lit 0x55003f14
  pad 9 += rol (at 6) (lit 31)
  pad 2 |= rol (at 19) (lit 13)
  pad 19 ^= at 15 ⊕ lit 0xfbf02d6
  pad 3 |= at 18 ⊠ lit 0x279ed38c
  seed &= at 19 ⊕ lit 0x234a2088
  when (branch == 0) do mix_minor42; pad 12 += lit 0x68468; mix_minor55; call mix_major16 (at 14)
  pad 4 += at 9 ⊞ lit 0xd5555942
  pad 6 += at 0 ⊞ lit 0xf6a829d0
  pad 2 += at 17 ⊠ lit 0x6877a2b6
  seed |= at 11 ⊞ lit 0x4f92882e
  pad 4 ^= seed_val ⊞ lit 0x2a0e1a7a
  seed *= seed_val ⊠ lit 0xba88b94
  when (branch == 3)
      do pad 14 += lit 0x5a9acc8f; mix_minor40; mix_minor33; call mix_major15 seed_val
  pad 8 -= at 19 ⊕ lit 0x88fae5c
  seed -= seed_val ⊕ lit 0x6171e1a
  seed *= at 0 ⋒ lit 0x6369ab7c
  pad 2 ^= at 12 ⋒ lit 0x36b79ddb
  seed ^= seed_val ⊞ lit 0xff3ba490
  when (branch == 4) do mix_minor42; mix_minor39; pad 8 += lit 0x9cf399e7; call mix_major8 (at 2)
  seed ^= at 9 ⊠ lit 0x2a0582f6
  pad 9 ^= at 10 ⊞ lit 0xf71f2197
  pad 17 |= seed_val ⊞ lit 0x417b0639
  pad 6 ^= ror seed_val (lit 17)
  pad 15 -= at 3 ⊟ lit 0x1935355
  pad 13 += at 5 ⊞ lit 0x25393a1

-- It stays inside the array.
pub mix_major12-SafeStep : SafeStep mix_major12
unfolding mix_major12
mix_major12-SafeStep =
    search
      (
        minor_rules, mix_major8-SafeStep, mix_major15-SafeStep, mix_major16-SafeStep,
        mix_major17-SafeStep, mix_major19-SafeStep, mix_major20-SafeStep,
      )
      depth 500 fits 100000
