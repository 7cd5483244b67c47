-- ===== src/FastTrack/EncType2/Major22.antt =====
-- `mix_major22` of networks/fasttrack/enc_type_2.c.
use addnas_mldonkey.Base.{◌==◌}
use addnas_mldonkey.FastTrack.Mix.{
  Step, at, call, lit, pad, rol, rol_eq, ror, ror_eq, seed, seed_val, switch, when, ◌&=◌, ◌*=◌,
  ◌+=◌, ◌-=◌, ◌>>◌, ◌^=◌, ◌|=◌, ◌⊕◌, ◌⊘◌, ◌⊞◌, ◌⊟◌, ◌⊠◌, ◌⋒◌, ◌⋓◌,
}
use addnas_mldonkey.FastTrack.Mix.Safe.{SafeStep}
use addnas_mldonkey.FastTrack.EncType2.Minor.{
  mix_minor26, mix_minor30, mix_minor35, mix_minor37, mix_minor39, mix_minor40, mix_minor41,
  mix_minor45, mix_minor49, mix_minor50, mix_minor53, mix_minor57, mix_minor61, mix_minor63,
  mix_minor65, mix_minor67,
}
use addnas_mldonkey.FastTrack.EncType2.Minor.Safe.{minor_rules}
use addnas_mldonkey.FastTrack.EncType2.Major4.{mix_major4, mix_major4-SafeStep}
use addnas_mldonkey.FastTrack.EncType2.Major6.{mix_major6, mix_major6-SafeStep}
use addnas_mldonkey.FastTrack.EncType2.Major8.{mix_major8, mix_major8-SafeStep}
use addnas_mldonkey.FastTrack.EncType2.Major11.{mix_major11, mix_major11-SafeStep}
use addnas_mldonkey.FastTrack.EncType2.Major12.{mix_major12, mix_major12-SafeStep}
use addnas_mldonkey.FastTrack.EncType2.Major15.{mix_major15, mix_major15-SafeStep}
use addnas_mldonkey.FastTrack.EncType2.Major16.{mix_major16, mix_major16-SafeStep}
use addnas_mldonkey.FastTrack.EncType2.Major17.{mix_major17, mix_major17-SafeStep}
use addnas_mldonkey.FastTrack.EncType2.Major18.{mix_major18, mix_major18-SafeStep}
use addnas_mldonkey.FastTrack.EncType2.Major19.{mix_major19, mix_major19-SafeStep}
use addnas_mldonkey.FastTrack.EncType2.Major20.{mix_major20, mix_major20-SafeStep}

unfoldable pub mix_major22 : Step
mix_major22 = switch (seed_val ⊘ 11) λ branch. do
  pad 12 += seed_val ⊕ lit 0xc3115e
  pad 19 -= seed_val ⊟ lit 0x4f9d3712
  pad 16 &= at 11 ⊠ lit 0x37e68d12
  when (branch == 1) do mix_minor57; pad 4 *= lit 0x6f2b88b5; call mix_major19 (at 7)
  seed -= at 18 ⊕ lit 0x4ea934da
  pad 1 &= at 18 ⊕ lit 0x18a1ba1a
  when (branch == 0)
      do pad 3 += lit 0x9302840; pad 8 += lit 0x91520abe; mix_minor37; call mix_major20 seed_val
  pad 18 += at 17 ⊠ lit 0x3bf23dc7
  pad 12 += at 5 ⊕ lit 0x3537eae2
  pad 9 += at 5 ⊞ lit 0xf4d4e1ee
  pad 11 -= rol (at 16) (lit 22)
  when (branch == 2) do mix_minor67; mix_minor67; mix_minor37; call mix_major17 (at 16)
  rol_eq (pad 17) (at 1)
  seed |= ror (at 5) (lit 1)
  pad 11 += seed_val ⊞ lit 0xf0871714
  when (branch == 3) do mix_minor35; mix_minor65; pad 8 -= lit 0x265c0434; call mix_major16 (at 18)
  seed &= lit 0x1b54f10
  pad 15 += at 1 ⊞ lit 0xe9b29695
  pad 9 ^= at 19 ⊞ lit 0xf9850900
  when (branch == 8)
      do rol_eq (pad 10) (lit 1); pad 4 *= lit 0xb27c0ecb; mix_minor61; call mix_major15 (at 11)
  pad 0 += at 6 ⊞ lit 0x224785
  pad 1 -= at 9 ⊠ lit 0x602a9ff
  when (branch == 4) do mix_minor53; pad 3 += lit 0x9702000; mix_minor26; call mix_major8 (at 10)
  pad 14 += rol (at 5) (lit 30)
  pad 8 -= at 12 ⊠ lit 0x223c8eff
  pad 3 += at 11 ⊠ lit 0xc99e9b5
  when (branch == 7) do mix_minor57; mix_minor45; mix_minor49; call mix_major12 (at 13)
  seed *= at 3 ⊕ lit 0xf8e252d
  pad 12 += seed_val ⋒ lit 0xa58c765
  when (branch == 10)
      do mix_minor39; pad 14 ^= lit 0x4dfb7ee4; mix_minor61; call mix_major18 (at 13)
  pad 11 -= at 3 ⊕ lit 0x59507436
  pad 10 ^= seed_val ⊕ lit 0x1082cbd7
  when (branch == 9) do mix_minor50; mix_minor53; rol_eq (pad 10) (lit 6); call mix_major6 (at 3)
  ror_eq (pad 8) (seed_val ⊞ lit 0x1)
  pad 17 ^= at 15 ⊠ lit 0x1627a9f4
  when (branch == 6) do pad 0 += lit 0xc3649533; mix_minor30; mix_minor41; call mix_major4 seed_val
  seed *= rol (at 11) (lit 21)
  pad 3 ^= at 11 ⊞ lit 0x27d2e810
  pad 3 += at 16 ⊠ lit 0x2bb9259f
  when (branch == 5) do mix_minor40; mix_minor63; mix_minor61; call mix_major11 seed_val
  pad 19 ^= at 17 ⊕ lit 0x2b7f6e80
  pad 7 ^= rol (at 0) (lit 24)
  pad 4 ^= seed_val ⋓ lit 0x334e9536
  pad 11 -= rol seed_val (lit 19)
  pad 12 ^= seed_val ⊞ lit 0xf8e5b64c
  pad 11 += at 4 ⊞ lit 0x661bc871
  ror_eq (pad 19) (at 0 ⋒ lit 0x9)
  pad 15 += seed_val ⋒ lit 0x7b85306
  pad 7 -= at 12 ⊟ lit 0x1394a239
  pad 17 ^= at 3 ⊞ lit 0x4d2d2d3c
  pad 12 -= at 6 ⋒ lit 0x312a10
  pad 13 |= at 19 ⊞ lit 0xba345c89
  pad 13 *= seed_val ⊞ lit 0x2098c7b4
  pad 6 &= rol (at 10) (lit 22)
  pad 6 -= at 12 ⋒ lit 0x13175e3d

-- It stays inside the array.
pub mix_major22-SafeStep : SafeStep mix_major22
unfolding mix_major22
mix_major22-SafeStep =
    search
      (
        minor_rules, mix_major4-SafeStep, mix_major6-SafeStep, mix_major8-SafeStep,
        mix_major11-SafeStep, mix_major12-SafeStep, mix_major15-SafeStep, mix_major16-SafeStep,
        mix_major17-SafeStep, mix_major18-SafeStep, mix_major19-SafeStep, mix_major20-SafeStep,
      )
      depth 500 fits 100000
