-- ===== src/FastTrack/EncType2/Major6.antt =====
-- `mix_major6` of networks/fasttrack/enc_type_2.c.
use addnas_mldonkey.Base.{◌==◌}
use addnas_mldonkey.FastTrack.Mix.{
  Step, at, call, lit, pad, rol, rol_eq, ror, ror_eq, seed, seed_val, switch, when, ◌&=◌, ◌*=◌,
  ◌+=◌, ◌-=◌, ◌>>◌, ◌^=◌, ◌|=◌, ◌⊕◌, ◌⊞◌, ◌⊟◌, ◌⊠◌, ◌⋒◌, ◌⋓◌,
}
use addnas_mldonkey.FastTrack.Mix.Safe.{SafeStep}
use addnas_mldonkey.FastTrack.EncType2.Minor.{
  mix_minor23, mix_minor31, mix_minor33, mix_minor38, mix_minor40, mix_minor41, mix_minor48,
  mix_minor53, mix_minor54, mix_minor60, mix_minor62, mix_minor66, mix_minor67,
}
use addnas_mldonkey.FastTrack.EncType2.Minor.Safe.{minor_rules}
use addnas_mldonkey.FastTrack.EncType2.Major8.{mix_major8, mix_major8-SafeStep}
use addnas_mldonkey.FastTrack.EncType2.Major12.{mix_major12, mix_major12-SafeStep}
use addnas_mldonkey.FastTrack.EncType2.Major15.{mix_major15, mix_major15-SafeStep}
use addnas_mldonkey.FastTrack.EncType2.Major16.{mix_major16, mix_major16-SafeStep}
use addnas_mldonkey.FastTrack.EncType2.Major17.{mix_major17, mix_major17-SafeStep}
use addnas_mldonkey.FastTrack.EncType2.Major18.{mix_major18, mix_major18-SafeStep}
use addnas_mldonkey.FastTrack.EncType2.Major19.{mix_major19, mix_major19-SafeStep}
use addnas_mldonkey.FastTrack.EncType2.Major20.{mix_major20, mix_major20-SafeStep}

unfoldable pub mix_major6 : Step
mix_major6 = switch (((at 3 ⊕ at 5) ⊕ at 18) ⋒ lit 7) λ branch. do
  pad 7 ^= at 5 ⊕ lit 0x3610ff4
  pad 18 ^= rol (at 14) (lit 19)
  ror_eq (pad 15) (at 10 ⊞ lit 0xe)
  seed ^= at 1 ⊞ lit 0xa89a8207
  seed &= lit 0xecc2fa7d
  when (branch == 0) do mix_minor54; pad 4 *= lit 0x5141d713; mix_minor62; call mix_major19 seed_val
  pad 15 ^= at 0 ⊠ lit 0x19dd786
  seed *= rol seed_val (lit 12)
  pad 17 &= seed_val ⋓ lit 0x1249d1c
  pad 15 ^= at 8 ⊞ lit 0x5e67551f
  seed += at 0 ⊠ lit 0x320ea6ec
  seed ^= at 19 ⊞ lit 0xee10c43d
  when (branch == 1)
      do rol_eq (pad 19) (lit 6); pad 3 += lit 0x1600840; mix_minor41; call mix_major20 (at 2)
  ror_eq (pad 15) (seed_val ⊕ lit 0x7)
  pad 5 -= at 14 ⊠ lit 0x54cc1685
  pad 12 -= seed_val ⊟ lit 0xf7d8f2fa
  pad 5 -= at 10 ⊟ lit 0xf95da87e
  seed ^= rol (at 8) (lit 18)
  when (branch == 5) do mix_minor53; mix_minor23; mix_minor60; call mix_major17 (at 16)
  pad 19 += at 2 ⊕ lit 0x4983faaa
  seed &= at 6 ⋒ lit 0x911ab6a
  pad 17 &= at 2 ⊞ lit 0xfbb4acd7
  pad 5 += at 13 ⊞ lit 0xf96465d3
  rol_eq seed (at 2 ⋓ lit 0x19)
  pad 9 += at 2 ⋓ lit 0x176f7fa2
  when (branch == 7) do mix_minor53; mix_minor67; mix_minor38; call mix_major16 seed_val
  ror_eq (pad 4) (seed_val ⊞ lit 0x10)
  seed |= at 6 ⊕ lit 0x1ae616e0
  seed ^= at 15 ⊠ lit 0x7f034
  ror_eq (pad 14) (at 2 ⊞ lit 0x3)
  when (branch == 6)
      do pad 14 -= lit 0xa630c9b5; mix_minor33; pad 8 -= lit 0xa8a2e592; call mix_major15 seed_val
  pad 12 -= at 10 ⋒ lit 0x1311b0aa
  pad 14 ^= seed_val ⊞ lit 0xf5736e40
  pad 17 += ror (at 18) (lit 15)
  seed ^= at 11 ⊞ lit 0x25e8d98c
  rol_eq (pad 0) (at 14 ⋓ lit 0x8)
  pad 13 -= at 3 ⊕ lit 0x2a68c40c
  when (branch == 3)
      do mix_minor40; pad 14 ^= lit 0x4e96c3d9; pad 3 *= lit 0x7b9dddda; call mix_major8 (at 3)
  pad 12 += ror seed_val (lit 12)
  rol_eq (pad 7) (at 6 ⋒ lit 0x9)
  rol_eq seed (seed_val ⊠ lit 0x4)
  ror_eq seed (at 16 ⊕ lit 0x4)
  rol_eq (pad 6) (rol (at 1) (lit 11))
  when (branch == 4) do mix_minor31; mix_minor31; rol_eq (pad 16) (lit 28); call mix_major12 (at 13)
  pad 14 += ror (at 14) (lit 9)
  pad 3 *= at 13 ⋒ lit 0x24b1abab
  pad 3 -= at 12 ⊟ lit 0x10decc67
  seed *= at 15 ⊕ lit 0x194903b4
  when (branch == 2) do mix_minor33; mix_minor48; mix_minor66; call mix_major18 (at 14)
  pad 15 *= seed_val ⊠ lit 0x2ed0158e
  pad 14 += at 3 ⊞ lit 0xc4d28c7c
  pad 11 -= at 18 ⊕ lit 0x3e1bda7e
  pad 2 *= rol (at 13) (lit 24)

-- It stays inside the array.
pub mix_major6-SafeStep : SafeStep mix_major6
unfolding mix_major6
mix_major6-SafeStep =
    search
      (
        minor_rules, mix_major8-SafeStep, mix_major12-SafeStep, mix_major15-SafeStep,
        mix_major16-SafeStep, mix_major17-SafeStep, mix_major18-SafeStep, mix_major19-SafeStep,
        mix_major20-SafeStep,
      )
      depth 500 fits 100000
