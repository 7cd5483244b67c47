-- ===== src/FastTrack/EncType2/Major18.antt =====
-- `mix_major18` of networks/fasttrack/enc_type_2.c.
use addnas_mldonkey.Base.{◌==◌}
use addnas_mldonkey.FastTrack.Mix.{
  Step, at, call, lit, pad, rol, rol_eq, ror, ror_eq, seed, seed_val, switch, when, ◌&=◌, ◌*=◌,
  ◌+=◌, ◌-=◌, ◌>>◌, ◌^=◌, ◌|=◌, ◌⊕◌, ◌⊘◌, ◌⊞◌, ◌⊟◌, ◌⊠◌, ◌⋒◌, ◌⋓◌,
}
use addnas_mldonkey.FastTrack.Mix.Safe.{SafeStep}
use addnas_mldonkey.FastTrack.EncType2.Minor.{
  mix_minor23, mix_minor26, mix_minor32, mix_minor33, mix_minor35, mix_minor37, mix_minor39,
  mix_minor47, mix_minor60, mix_minor69,
}
use addnas_mldonkey.FastTrack.EncType2.Minor.Safe.{minor_rules}
use addnas_mldonkey.FastTrack.EncType2.Major8.{mix_major8, mix_major8-SafeStep}
use addnas_mldonkey.FastTrack.EncType2.Major12.{mix_major12, mix_major12-SafeStep}
use addnas_mldonkey.FastTrack.EncType2.Major15.{mix_major15, mix_major15-SafeStep}
use addnas_mldonkey.FastTrack.EncType2.Major16.{mix_major16, mix_major16-SafeStep}
use addnas_mldonkey.FastTrack.EncType2.Major17.{mix_major17, mix_major17-SafeStep}
use addnas_mldonkey.FastTrack.EncType2.Major19.{mix_major19, mix_major19-SafeStep}
use addnas_mldonkey.FastTrack.EncType2.Major20.{mix_major20, mix_major20-SafeStep}

unfoldable pub mix_major18 : Step
mix_major18 = switch (((at 13 ⊕ at 16) ⊕ at 17) ⊘ 7) λ branch. do
  pad 2 -= at 9 ⊟ lit 0xe7e9ac84
  pad 7 &= seed_val ⊞ lit 0xd5e47036
  pad 7 ^= at 18 ⊕ lit 0x5d5e7006
  seed += at 6 ⊕ lit 0x16afd25f
  ror_eq (pad 0) (at 18 ⋓ lit 0x1b)
  when (branch == 4) do mix_minor33; rol_eq (pad 16) (lit 12); mix_minor39; call mix_major19 (at 17)
  pad 1 *= at 0 ⊠ lit 0x927384a
  seed ^= at 6 ⊠ lit 0x2ac0b63c
  seed ^= at 5 ⊠ lit 0xef44412
  seed -= rol (at 18) (lit 22)
  when (branch == 1) do mix_minor37; mix_minor23; mix_minor35; call mix_major20 seed_val
  pad 6 &= seed_val ⊞ lit 0x4d05da6a
  pad 13 *= at 18 ⊕ lit 0xe2ba11c
  seed ^= at 2 ⊕ lit 0x2e3d328f
  seed *= at 1 ⋓ lit 0x110c8a1
  rol_eq (pad 4) (ror (at 6) (lit 27))
  when (branch == 0)
      do pad 3 -= lit 0xab85f363; mix_minor47; rol_eq (pad 10) (lit 12); call mix_major17 seed_val
  pad 19 &= ror seed_val (lit 8)
  seed |= ror (at 19) (lit 12)
  seed += at 14 ⊠ lit 0x2d8924b3
  pad 10 ^= at 15 ⊞ lit 0xdcba6126
  seed += at 16 ⋒ lit 0xf72e29a
  pad 3 -= at 18 ⋓ lit 0x7614cfb
  when (branch == 6) do mix_minor60; pad 3 *= lit 0x23a0356c; mix_minor33; call mix_major16 (at 9)
  pad 19 &= at 4 ⊞ lit 0xfe6ea18f
  pad 6 *= at 7 ⋒ lit 0x226185b2
  pad 0 += at 4 ⊕ lit 0x35388017
  seed ^= at 14 ⊠ lit 0x268d6eae
  when (branch == 3)
      do pad 14 += lit 0x72559385; pad 8 += lit 0xafa7ed31; mix_minor26; call mix_major15 (at 0)
  pad 15 += seed_val ⊕ lit 0xbf3b8c0
  ror_eq (pad 10) (ror (at 18) (lit 25))
  pad 19 |= seed_val ⊕ lit 0x61d2180
  pad 4 &= at 19 ⊞ lit 0x588d79a3
  when (branch == 5)
      do pad 11 += lit 0xa26a5e66; pad 9 += lit 0xcdf889ea; mix_minor69; call mix_major8 (at 8)
  pad 0 += seed_val ⊞ lit 0x19039f88
  rol_eq seed (ror (at 7) (lit 14))
  pad 6 += at 8 ⊕ lit 0x1f3dce4
  pad 17 *= at 18 ⊞ lit 0x4f2cb877
  pad 6 &= at 15 ⊠ lit 0x177f5d63
  rol_eq (pad 12) (rol (at 16) (lit 1))
  when (branch == 2) do mix_minor23; mix_minor32; pad 9 += lit 0xc3b96ef0; call mix_major12 (at 18)
  pad 19 += at 12 ⊞ lit 0xbe9fd027
  seed &= at 2 ⊠ lit 0x3ec8c5cb
  pad 8 += at 4 ⋒ lit 0x48357b75
  rol_eq (pad 1) (at 6 ⊞ lit 0x14)
  pad 14 ^= at 11 ⊞ lit 0x13c7dc0f
  pad 4 += rol seed_val (lit 19)
  pad 12 -= at 2 ⊟ lit 0x15ea2e80
  pad 11 += at 19 ⊞ lit 0xaff84c32
  pad 2 ^= at 5 ⊠ lit 0x278991a8
  pad 14 += at 2 ⊞ lit 0xf431b0d4

-- It stays inside the array.
pub mix_major18-SafeStep : SafeStep mix_major18
unfolding mix_major18
mix_major18-SafeStep =
    search
      (
        minor_rules, mix_major8-SafeStep, mix_major12-SafeStep, mix_major15-SafeStep,
        mix_major16-SafeStep, mix_major17-SafeStep, mix_major19-SafeStep, mix_major20-SafeStep,
      )
      depth 500 fits 100000
