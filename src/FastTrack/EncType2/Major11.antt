-- ===== src/FastTrack/EncType2/Major11.antt =====
-- `mix_major11` of networks/fasttrack/enc_type_2.c.
use addnas_mldonkey.Base.{◌==◌}
use addnas_mldonkey.FastTrack.Mix.{
  Step, at, call, lit, pad, rol, rol_eq, ror, ror_eq, seed, seed_val, switch, when, ◌&=◌, ◌*=◌,
  ◌+=◌, ◌-=◌, ◌>>◌, ◌^=◌, ◌|=◌, ◌≔◌, ◌⊕◌, ◌⊘◌, ◌⊞◌, ◌⊟◌, ◌⊠◌, ◌⋒◌, ◌⋓◌,
}
use addnas_mldonkey.FastTrack.Mix.Safe.{SafeStep}
use addnas_mldonkey.FastTrack.EncType2.Minor.{
  mix_minor21, mix_minor24, mix_minor28, mix_minor31, mix_minor32, mix_minor35, mix_minor41,
  mix_minor42, mix_minor48, mix_minor49, mix_minor51, mix_minor54, mix_minor56, mix_minor58,
  mix_minor60, mix_minor63, mix_minor65, mix_minor69,
}
use addnas_mldonkey.FastTrack.EncType2.Minor.Safe.{minor_rules}
use addnas_mldonkey.FastTrack.EncType2.Major4.{mix_major4, mix_major4-SafeStep}
use addnas_mldonkey.FastTrack.EncType2.Major6.{mix_major6, mix_major6-SafeStep}
use addnas_mldonkey.FastTrack.EncType2.Major8.{mix_major8, mix_major8-SafeStep}
use addnas_mldonkey.FastTrack.EncType2.Major12.{mix_major12, mix_major12-SafeStep}
use addnas_mldonkey.FastTrack.EncType2.Major15.{mix_major15, mix_major15-SafeStep}
use addnas_mldonkey.FastTrack.EncType2.Major16.{mix_major16, mix_major16-SafeStep}
use addnas_mldonkey.FastTrack.EncType2.Major17.{mix_major17, mix_major17-SafeStep}
use addnas_mldonkey.FastTrack.EncType2.Major18.{mix_major18, mix_major18-SafeStep}
use addnas_mldonkey.FastTrack.EncType2.Major19.{mix_major19, mix_major19-SafeStep}
use addnas_mldonkey.FastTrack.EncType2.Major20.{mix_major20, mix_major20-SafeStep}

unfoldable pub mix_major11 : Step
mix_major11 = switch (((at 3 ⊕ at 11) ⊕ at 17) ⊘ 10) λ branch. do
  pad 15 -= at 0 ⋒ lit 0x201c33b4
  pad 9 &= at 4 ⊕ lit 0x4b5700f
  pad 14 *= (seed_val ⊟ (at 15 ⋓ lit 0x1f564f3c)) ⊞ lit 0xfe30d470
  when (branch == 2) do mix_minor58; pad 1 &= lit 0xdc0e2e53; mix_minor65; call mix_major19 (at 1)
  pad 3 ^= rol (at 7) (lit 28)
  seed ≔ lit 0xb2363254
  pad 17 += lit 0x503fc4de
  pad 18 += at 1 ⊠ lit 0xf14c9c
  when (branch == 6) do mix_minor21; mix_minor28; mix_minor54; call mix_major20 (at 5)
  pad 3 *= at 0 ⊞ lit 0xaf4b1f37
  pad 11 *= at 11 ⊞ lit 0x1d1cbc4e
  pad 13 ^= at 1 ⊞ lit 0xf6c6f628
  pad 17 ^= at 3 ⊞ lit 0x7f863fa
  when (branch == 4)
      do pad 3 -= lit 0x7d6e042a; mix_minor31; pad 12 += lit 0x2048070; call mix_major17 seed_val
  pad 11 += at 4 ⋓ lit 0x3b62a700
  pad 19 ^= lit 0xf3c3d3f0
  ror_eq seed (at 10 ⊞ lit 0xe)
  pad 16 |= ror (at 16) (lit 10)
  pad 7 *= at 11 ⊠ lit 0x5053948
  when (branch == 3) do mix_minor58; pad 3 *= lit 0x34797b50; mix_minor69; call mix_major16 (at 4)
  pad 1 &= seed_val ⊠ lit 0x377e5649
  pad 18 += at 2 ⋓ lit 0x57a0b91
  rol_eq (pad 7) (seed_val ⊞ lit 0x7)
  pad 4 -= rol (at 7) (lit 2)
  when (branch == 0)
      do pad 1 &= lit 0x49102e08; pad 12 += lit 0x20e0400; mix_minor56; call mix_major15 (at 18)
  seed *= seed_val ⊞ lit 0xfea6f980
  pad 18 += at 2 ⊠ lit 0x33aaef75
  pad 2 ^= at 12 ⊞ lit 0xda4bd31e
  seed -= at 6 ⋓ lit 0x107e370
  pad 17 -= seed_val ⊟ lit 0x191504c
  when (branch == 9) do mix_minor48; pad 4 ^= lit 0xccc8d5fc; mix_minor41; call mix_major8 (at 14)
  pad 3 += rol (at 15) (lit 7)
  pad 12 -= at 10 ⊟ lit 0x18afd3db
  pad 5 += at 12 ⊞ lit 0x1392be9b
  pad 5 -= at 3 ⊕ lit 0xfd205d5
  pad 8 ^= seed_val ⊕ lit 0x9000ce9
  when (branch == 5) do mix_minor51; mix_minor24; mix_minor32; call mix_major12 (at 19)
  ror_eq (pad 19) (seed_val ⊞ lit 0x19)
  ror_eq (pad 11) (at 19 ⊠ lit 0x10)
  seed ^= at 12 ⊕ lit 0x534576d7
  rol_eq (pad 11) (at 1 ⊕ lit 0x15)
  pad 19 += at 9 ⊠ lit 0x12af9c5
  when (branch == 8) do mix_minor42; mix_minor60; call mix_major18 (at 0)
  rol_eq (pad 10) (seed_val ⊠ lit 0x14)
  pad 1 -= rol (at 14) (lit 19)
  seed |= at 16 ⊞ lit 0xed222733
  pad 16 &= at 3 ⊠ lit 0x532f53a
  seed ^= at 11 ⊠ lit 0x14718f9a
  when (branch == 1) do mix_minor49; mix_minor63; pad 1 &= lit 0xc2c9d439; call mix_major6 (at 13)
  pad 3 *= seed_val ⋓ lit 0x1739a522
  seed *= at 1 ⋓ lit 0x4b09e3e
  pad 7 ^= at 12 ⊕ lit 0x2a4ea48a
  when (branch == 7) do mix_minor35; mix_minor35; pad 4 *= lit 0x9b2bcf2e; call mix_major4 seed_val
  pad 19 -= seed_val ⊟ lit 0x1dc54aa

-- It stays inside the array.
pub mix_major11-SafeStep : SafeStep mix_major11
unfolding mix_major11
mix_major11-SafeStep =
    search
      (
        minor_rules, mix_major4-SafeStep, mix_major6-SafeStep, mix_major8-SafeStep,
        mix_major12-SafeStep, mix_major15-SafeStep, mix_major16-SafeStep, mix_major17-SafeStep,
        mix_major18-SafeStep, mix_major19-SafeStep, mix_major20-SafeStep,
      )
      depth 500 fits 100000
