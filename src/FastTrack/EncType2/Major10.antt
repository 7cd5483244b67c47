-- ===== src/FastTrack/EncType2/Major10.antt =====
-- `mix_major10` of networks/fasttrack/enc_type_2.c.
use addnas_mldonkey.Base.{◌==◌}
use addnas_mldonkey.FastTrack.Mix.{
  Step, at, call, lit, pad, rol, rol_eq, ror, ror_eq, seed, seed_val, switch, when, ◌&=◌, ◌*=◌,
  ◌+=◌, ◌-=◌, ◌>>◌, ◌^=◌, ◌|=◌, ◌≔◌, ◌⊕◌, ◌⊘◌, ◌⊞◌, ◌⊟◌, ◌⊠◌, ◌⋒◌, ◌⋓◌,
}
use addnas_mldonkey.FastTrack.Mix.Safe.{SafeStep}
use addnas_mldonkey.FastTrack.EncType2.Minor.{
  mix_minor20, mix_minor25, mix_minor26, mix_minor28, mix_minor29, mix_minor31, mix_minor33,
  mix_minor35, mix_minor37, mix_minor41, mix_minor43, mix_minor49, mix_minor51, mix_minor52,
  mix_minor54, mix_minor55, mix_minor65, mix_minor67, mix_minor68,
}
use addnas_mldonkey.FastTrack.EncType2.Minor.Safe.{minor_rules}
use addnas_mldonkey.FastTrack.EncType2.Major3.{mix_major3, mix_major3-SafeStep}
use addnas_mldonkey.FastTrack.EncType2.Major4.{mix_major4, mix_major4-SafeStep}
use addnas_mldonkey.FastTrack.EncType2.Major5.{mix_major5, mix_major5-SafeStep}
use addnas_mldonkey.FastTrack.EncType2.Major6.{mix_major6, mix_major6-SafeStep}
use addnas_mldonkey.FastTrack.EncType2.Major8.{mix_major8, mix_major8-SafeStep}
use addnas_mldonkey.FastTrack.EncType2.Major9.{mix_major9, mix_major9-SafeStep}
use addnas_mldonkey.FastTrack.EncType2.Major11.{mix_major11, mix_major11-SafeStep}
use addnas_mldonkey.FastTrack.EncType2.Major12.{mix_major12, mix_major12-SafeStep}
use addnas_mldonkey.FastTrack.EncType2.Major14.{mix_major14, mix_major14-SafeStep}
use addnas_mldonkey.FastTrack.EncType2.Major18.{mix_major18, mix_major18-SafeStep}
use addnas_mldonkey.FastTrack.EncType2.Major22.{mix_major22, mix_major22-SafeStep}

unfoldable pub mix_major10 : Step
mix_major10 = switch (at 5 ⊘ 11) λ branch. do
  pad 17 ^= seed_val ⊞ lit 0x2277a712
  pad 19 *= at 8 ⊞ lit 0xe6c6654e
  ror_eq (pad 6) (at 1 ⊕ lit 0x1b)
  when (branch == 3)
      do pad 8 += lit 0x8c1d03c3; pad 4 ^= lit 0x112c3767; mix_minor43; call mix_major8 (at 1)
  pad 0 *= seed_val ⊞ lit 0x22e5f53d
  pad 6 -= at 14 ⊟ lit 0xf7f0c308
  when (branch == 6) do pad 1 &= lit 0x548aed34; mix_minor33; mix_minor28; call mix_major12 (at 2)
  seed += at 9 ⊞ lit 0xafa2e81
  pad 15 *= at 17 ⊞ lit 0xfd2839c0
  pad 14 -= at 6 ⊟ lit 0x30bd8dc6
  pad 2 += at 7 ⊕ lit 0x1edb75c4
  when (branch == 4) do mix_minor67; mix_minor49; mix_minor29; call mix_major18 seed_val
  pad 2 ≔ lit 0x2cfa7327
  pad 7 -= at 8 ⊟ lit 0xf2bf5a7
  ror_eq (pad 11) (at 6 ⋓ lit 0x15)
  pad 2 ^= rol (at 10) (lit 24)
  when (branch == 2) do rol_eq (pad 19) (lit 19); mix_minor41; mix_minor26; call mix_major6 seed_val
  pad 16 ^= rol (at 5) (lit 29)
  rol_eq (pad 8) (rol (at 8) (lit 19))
  when (branch == 0)
      do pad 8 += lit 0xabc0d876; pad 1 &= lit 0x2002d891; mix_minor51; call mix_major4 seed_val
  pad 13 *= seed_val ⋒ lit 0x9aee05b
  rol_eq (pad 18) (at 0 ⊞ lit 0x9)
  when (branch == 5) do mix_minor37; mix_minor52; mix_minor65; call mix_major11 (at 5)
  pad 16 += seed_val ⊞ lit 0x15c7f2a
  pad 0 += at 8 ⋓ lit 0xc568bd
  seed += ror (at 11) (lit 25)
  when (branch == 10)
      do mix_minor29; pad 14 += lit 0x7bef2ee1; mix_minor55; call mix_major22 seed_val
  pad 11 &= at 0 ⋓ lit 0x3c992378
  seed ^= at 2 ⊕ lit 0x1ebdf827
  seed ^= at 16 ⋒ lit 0x1a8092b
  pad 4 ^= at 2 ⊞ lit 0xf6a7c14d
  when (branch == 7)
      do pad 3 += lit 0x706840; pad 3 += lit 0x1400840; mix_minor68; call mix_major5 (at 5)
  seed |= at 1 ⊞ lit 0xbd4eb37a
  seed *= at 15 ⊕ lit 0xe476c17
  when (branch == 9) do mix_minor41; pad 14 += lit 0x52aaba85; mix_minor68; call mix_major3 (at 19)
  pad 0 -= at 4 ⋒ lit 0x55d63dde
  pad 14 += at 19 ⊞ lit 0xfa050d42
  pad 12 &= at 0 ⊞ lit 0x9ff4339
  pad 15 ^= at 12 ⊞ lit 0xccdc186
  when (branch == 8) do mix_minor25; mix_minor31; mix_minor43; call mix_major14 (at 12)
  ror_eq (pad 10) (at 11 ⊞ lit 0x1b)
  pad 5 ^= at 15 ⊞ lit 0x130fea4
  seed ^= at 19 ⊞ lit 0xdf1438e7
  when (branch == 1) do mix_minor20; mix_minor54; mix_minor35; call mix_major9 seed_val
  pad 11 += at 3 ⊕ lit 0x30f43d2
  pad 13 -= at 16 ⊠ lit 0x485950f
  pad 15 *= at 1 ⊞ lit 0xa295d0d
  seed ^= at 0 ⊠ lit 0x68f4b257
  pad 12 &= at 8 ⊞ lit 0xe49d7359
  pad 7 -= at 2 ⊠ lit 0x16a7a0b6
  seed &= at 13 ⊞ lit 0x18727e9f
  pad 14 &= rol seed_val (lit 3)
  pad 19 -= at 6 ⊕ lit 0x13892cf5

-- It stays inside the array.
pub mix_major10-SafeStep : SafeStep mix_major10
unfolding mix_major10
mix_major10-SafeStep =
    search
      (
        minor_rules, mix_major3-SafeStep, mix_major4-SafeStep, mix_major5-SafeStep,
        mix_major6-SafeStep, mix_major8-SafeStep, mix_major9-SafeStep, mix_major11-SafeStep,
        mix_major12-SafeStep, mix_major14-SafeStep, mix_major18-SafeStep, mix_major22-SafeStep,
      )
      depth 500 fits 100000
