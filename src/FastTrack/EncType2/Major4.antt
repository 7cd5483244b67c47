-- ===== src/FastTrack/EncType2/Major4.antt =====
-- `mix_major4` of networks/fasttrack/enc_type_2.c.
use addnas_mldonkey.Base.{◌==◌}
use addnas_mldonkey.FastTrack.Mix.{
  Step, at, call, lit, pad, rol, rol_eq, ror, ror_eq, seed, seed_val, switch, when, ◌&=◌, ◌*=◌,
  ◌+=◌, ◌-=◌, ◌>>◌, ◌^=◌, ◌|=◌, ◌⊕◌, ◌⊘◌, ◌⊞◌, ◌⊟◌, ◌⊠◌, ◌⋒◌, ◌⋓◌,
}
use addnas_mldonkey.FastTrack.Mix.Safe.{SafeStep}
use addnas_mldonkey.FastTrack.EncType2.Minor.{
  mix_minor22, mix_minor24, mix_minor34, mix_minor35, mix_minor37, mix_minor40, mix_minor43,
  mix_minor46, mix_minor47, mix_minor48, mix_minor50, mix_minor51, mix_minor55, mix_minor59,
  mix_minor61,
}
use addnas_mldonkey.FastTrack.EncType2.Minor.Safe.{minor_rules}
use addnas_mldonkey.FastTrack.EncType2.Major6.{mix_major6, mix_major6-SafeStep}
use addnas_mldonkey.FastTrack.EncType2.Major8.{mix_major8, mix_major8-SafeStep}
use addnas_mldonkey.FastTrack.EncType2.Major12.{mix_major12, mix_major12-SafeStep}
use addnas_mldonkey.FastTrack.EncType2.Major15.{mix_major15, mix_major15-SafeStep}
use addnas_mldonkey.FastTrack.EncType2.Major16.{mix_major16, mix_major16-SafeStep}
use addnas_mldonkey.FastTrack.EncType2.Major17.{mix_major17, mix_major17-SafeStep}
use addnas_mldonkey.FastTrack.EncType2.Major18.{mix_major18, mix_major18-SafeStep}
use addnas_mldonkey.FastTrack.EncType2.Major19.{mix_major19, mix_major19-SafeStep}
use addnas_mldonkey.FastTrack.EncType2.Major20.{mix_major20, mix_major20-SafeStep}

unfoldable pub mix_major4 : Step
mix_major4 = switch (((at 2 ⊕ at 15) ⊕ seed_val) ⊘ 9) λ branch. do
  pad 14 += at 15 ⊞ lit 0xd3892fe6
  pad 2 -= seed_val ⊟ lit 0xe600fde6
  pad 15 ^= at 4 ⊞ lit 0x385e38e
  pad 18 |= seed_val ⊞ lit 0xc6189f52
  when (branch == 7) do mix_minor43; mix_minor24; pad 3 += lit 0x9302800; call mix_major19 (at 1)
  pad 11 &= at 14 ⊞ lit 0x8f6f81a9
  rol_eq (pad 12) (ror (at 6) (lit 14))
  seed -= rol (at 8) (lit 14)
  ror_eq (pad 0) (ror (at 11) (lit 1))
  pad 0 += at 11 ⊕ lit 0x43cd4d14
  when (branch == 3) do mix_minor22; mix_minor48; pad 4 *= lit 0x2a2e8718; call mix_major20 (at 14)
  pad 3 -= at 8 ⊕ lit 0x155c464
  pad 16 += at 0 ⊞ lit 0xf8d647b6
  pad 2 ^= at 4 ⊕ lit 0x11e3788d
  when (branch == 5) do pad 5 += lit 0xc4115253; mix_minor51; mix_minor55; call mix_major17 (at 10)
  seed |= rol seed_val (lit 11)
  pad 5 &= seed_val ⊕ lit 0x16984b90
  pad 16 += ror seed_val (lit 29)
  pad 0 += at 15 ⊞ lit 0xc3e56f16
  when (branch == 2) do mix_minor46; rol_eq (pad 16) (lit 7); mix_minor40; call mix_major16 (at 1)
  pad 5 &= at 11 ⊞ lit 0xe57356e7
  pad 18 -= seed_val ⊕ lit 0x23f157f6
  seed -= at 18 ⋒ lit 0x155b7cc8
  when (branch == 1) do mix_minor48; pad 5 += lit 0x6d08d06; mix_minor50; call mix_major15 seed_val
  pad 8 |= at 5 ⋓ lit 0x21496d22
  seed -= at 18 ⊟ lit 0x93b1543f
  pad 14 *= seed_val ⊠ lit 0x1db47609
  ror_eq (pad 7) (at 10 ⊕ lit 0x1a)
  rol_eq (pad 7) (at 18 ⊞ lit 0x1c)
  when (branch == 0) do mix_minor46; rol_eq (pad 10) (lit 4); mix_minor59; call mix_major8 seed_val
  pad 8 ^= rol (at 5) (lit 3)
  pad 6 ^= seed_val ⊕ lit 0x2c8ca15
  pad 13 += rol seed_val (lit 13)
  when (branch == 4) do mix_minor61; pad 3 *= lit 0x6c0de9fa; mix_minor34; call mix_major12 (at 18)
  pad 17 ^= at 2 ⋒ lit 0xa0962e5
  pad 3 *= seed_val ⋒ lit 0xd505f52
  seed -= at 15 ⊕ lit 0x15284f42
  when (branch == 8) do mix_minor37; mix_minor47; pad 12 += lit 0x2108058; call mix_major18 (at 8)
  pad 7 &= at 2 ⊞ lit 0xf8df2963
  pad 6 *= seed_val ⊠ lit 0x256b9c9c
  pad 10 += at 1 ⋓ lit 0xda16d9b
  pad 9 *= at 5 ⊕ lit 0x28b62e0c
  when (branch == 6) do mix_minor35; pad 14 ^= lit 0x8a0974b; mix_minor37; call mix_major6 seed_val
  pad 12 ^= at 5 ⊠ lit 0x23779c9e
  pad 10 *= ror (at 19) (lit 29)
  pad 0 ^= at 10 ⊕ lit 0x38a5f94
  seed += at 15 ⊞ lit 0x1c82e95e
  rol_eq (pad 9) (at 5 ⊕ lit 0x1d)
  pad 12 += seed_val ⊞ lit 0xc0e4fa7d
  pad 17 ^= at 7 ⊕ lit 0x141bbf98
  pad 9 ^= ror (at 18) (lit 6)
  pad 4 -= at 13 ⋒ lit 0x2373fe39
  pad 19 += rol seed_val (lit 15)

-- It stays inside the array.
pub mix_major4-SafeStep : SafeStep mix_major4
unfolding mix_major4
mix_major4-SafeStep =
    search
      (
        minor_rules, mix_major6-SafeStep, mix_major8-SafeStep, mix_major12-SafeStep,
        mix_major15-SafeStep, mix_major16-SafeStep, mix_major17-SafeStep, mix_major18-SafeStep,
        mix_major19-SafeStep, mix_major20-SafeStep,
      )
      depth 500 fits 100000
