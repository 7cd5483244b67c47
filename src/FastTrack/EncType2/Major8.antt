-- ===== src/FastTrack/EncType2/Major8.antt =====
-- `mix_major8` of networks/fasttrack/enc_type_2.c.
use addnas_mldonkey.Base.{◌==◌}
use addnas_mldonkey.FastTrack.Mix.{
  Step, at, call, lit, pad, rol, rol_eq, ror, ror_eq, seed, seed_val, switch, when, ◌&=◌, ◌*=◌,
  ◌+=◌, ◌-=◌, ◌>>◌, ◌^=◌, ◌|=◌, ◌⊕◌, ◌⊘◌, ◌⊞◌, ◌⊟◌, ◌⊠◌, ◌⋒◌, ◌⋓◌,
}
use addnas_mldonkey.FastTrack.Mix.Safe.{SafeStep}
use addnas_mldonkey.FastTrack.EncType2.Minor.{
  mix_minor22, mix_minor25, mix_minor34, mix_minor36, mix_minor37, mix_minor38, mix_minor41,
  mix_minor45, mix_minor53,
}
use addnas_mldonkey.FastTrack.EncType2.Minor.Safe.{minor_rules}
use addnas_mldonkey.FastTrack.EncType2.Major15.{mix_major15, mix_major15-SafeStep}
use addnas_mldonkey.FastTrack.EncType2.Major16.{mix_major16, mix_major16-SafeStep}
use addnas_mldonkey.FastTrack.EncType2.Major17.{mix_major17, mix_major17-SafeStep}
use addnas_mldonkey.FastTrack.EncType2.Major19.{mix_major19, mix_major19-SafeStep}
use addnas_mldonkey.FastTrack.EncType2.Major20.{mix_major20, mix_major20-SafeStep}

unfoldable pub mix_major8 : Step
mix_major8 = switch (((at 5 ⊕ at 9) ⊕ at 19) ⊘ 5) λ branch. do
  pad 5 += at 12 ⊕ lit 0xb6b4743
  seed *= at 12 ⊞ lit 0x221bed03
  pad 3 *= at 11 ⊕ lit 0x2663a394
  seed |= at 4 ⊕ lit 0x4f1894
  pad 5 &= lit 0xad85e5da
  pad 17 &= seed_val ⊞ lit 0xd191e790
  seed += at 1 ⊠ lit 0x1c634b75
  when (branch == 2) do mix_minor34; mix_minor25; pad 8 -= lit 0x3dcc78c5; call mix_major19 (at 1)
  pad 3 -= at 6 ⊕ lit 0x1fdc8171
  pad 15 ^= at 14 ⊠ lit 0xdc63a30
  rol_eq (pad 7) (seed_val ⊞ lit 0x8)
  seed ^= at 8 ⊞ lit 0xe4fb2084
  pad 6 -= seed_val ⊟ lit 0xb6a8bfd8
  seed *= ror (at 6) (lit 1)
  pad 13 *= ror (at 8) (lit 31)
  pad 18 ^= at 15 ⊞ lit 0xa969bc16
  when (branch == 1) do mix_minor25; rol_eq (pad 10) (lit 14); mix_minor38; call mix_major20 (at 2)
  ror_eq seed (at 1 ⋒ lit 0x6)
  pad 8 -= at 17 ⊟ lit 0xeba05ea0
  pad 16 += at 19 ⊞ lit 0xe8427306
  pad 16 ^= at 7 ⊞ lit 0x35f9fb28
  pad 13 += seed_val ⋒ lit 0x16076281
  seed *= seed_val ⊞ lit 0xe43a6120
  pad 1 -= at 3 ⊟ lit 0xd94074d
  when (branch == 3) do pad 4 *= lit 0xdccff951; mix_minor53; mix_minor41; call mix_major17 (at 17)
  ror_eq seed (at 18 ⊞ lit 0x5)
  pad 6 += seed_val ⊞ lit 0x126c7192
  pad 4 &= at 9 ⊕ lit 0xe4c97d9
  seed ^= seed_val ⊞ lit 0x5246092
  pad 14 += at 3 ⊞ lit 0x12466f7c
  pad 7 -= at 19 ⊟ lit 0xe724e487
  seed -= at 2 ⊟ lit 0xfffcc68a
  pad 2 -= at 12 ⊠ lit 0xf8b6e25
  when (branch == 4)
      do mix_minor36; pad 17 ^= lit 0x5f26a27b; pad 14 ^= lit 0x77f49770; call mix_major16 (at 12)
  rol_eq (pad 3) (at 6 ⊕ lit 0x11)
  pad 4 += seed_val ⋒ lit 0x3dd7da06
  pad 11 *= at 8 ⊞ lit 0xb6484f2a
  seed ^= at 8 ⋒ lit 0x274e05b8
  pad 18 ^= at 5 ⊞ lit 0x263032a4
  pad 16 ^= seed_val ⊞ lit 0x1a70ff38
  when (branch == 0) do mix_minor37; mix_minor22; mix_minor45; call mix_major15 (at 10)
  pad 4 += seed_val ⊞ lit 0x4a83a932
  rol_eq (pad 19) (at 2 ⊞ lit 0x10)
  rol_eq (pad 0) (at 19)
  seed += seed_val ⊕ lit 0x1bb7cdc3
  seed -= at 4 ⊟ lit 0xf1efd9b1
  pad 11 ^= at 1 ⋓ lit 0x64a30a
  pad 1 -= at 8 ⊟ lit 0x4cd3708
  pad 0 += seed_val ⊞ lit 0xf6d388b6
  pad 8 -= at 1 ⊟ lit 0x4b8444f
  rol_eq (pad 7) (rol seed_val (lit 9))
  ror_eq (pad 17) (at 10 ⊞ lit 0x1c)

-- It stays inside the array.
pub mix_major8-SafeStep : SafeStep mix_major8
unfolding mix_major8
mix_major8-SafeStep =
    search
      (
        minor_rules, mix_major15-SafeStep, mix_major16-SafeStep, mix_major17-SafeStep,
        mix_major19-SafeStep, mix_major20-SafeStep,
      )
      depth 500 fits 100000
