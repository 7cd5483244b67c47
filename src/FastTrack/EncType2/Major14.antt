-- ===== src/FastTrack/EncType2/Major14.antt =====
-- `mix_major14` of networks/fasttrack/enc_type_2.c.
use addnas_mldonkey.Base.{◌==◌}
use addnas_mldonkey.FastTrack.Mix.{
  Step, at, call, lit, pad, rol, ror, ror_eq, seed, seed_val, switch, when, ◌&=◌, ◌*=◌, ◌+=◌, ◌-=◌,
  ◌>>◌, ◌^=◌, ◌|=◌, ◌⊕◌, ◌⊘◌, ◌⊞◌, ◌⊟◌, ◌⊠◌, ◌⋒◌, ◌⋓◌,
}
use addnas_mldonkey.FastTrack.Mix.Safe.{SafeStep}
use addnas_mldonkey.FastTrack.EncType2.Minor.{
  mix_minor20, mix_minor21, mix_minor25, mix_minor26, mix_minor27, mix_minor28, mix_minor30,
  mix_minor33, mix_minor35, mix_minor36, mix_minor38, mix_minor46, mix_minor47, mix_minor49,
  mix_minor55, mix_minor56, mix_minor67, mix_minor69,
}
use addnas_mldonkey.FastTrack.EncType2.Minor.Safe.{minor_rules}
use addnas_mldonkey.FastTrack.EncType2.Major3.{mix_major3, mix_major3-SafeStep}
use addnas_mldonkey.FastTrack.EncType2.Major4.{mix_major4, mix_major4-SafeStep}
use addnas_mldonkey.FastTrack.EncType2.Major5.{mix_major5, mix_major5-SafeStep}
use addnas_mldonkey.FastTrack.EncType2.Major6.{mix_major6, mix_major6-SafeStep}
use addnas_mldonkey.FastTrack.EncType2.Major8.{mix_major8, mix_major8-SafeStep}
use addnas_mldonkey.FastTrack.EncType2.Major11.{mix_major11, mix_major11-SafeStep}
use addnas_mldonkey.FastTrack.EncType2.Major12.{mix_major12, mix_major12-SafeStep}
use addnas_mldonkey.FastTrack.EncType2.Major15.{mix_major15, mix_major15-SafeStep}
use addnas_mldonkey.FastTrack.EncType2.Major16.{mix_major16, mix_major16-SafeStep}
use addnas_mldonkey.FastTrack.EncType2.Major18.{mix_major18, mix_major18-SafeStep}
use addnas_mldonkey.FastTrack.EncType2.Major22.{mix_major22, mix_major22-SafeStep}

unfoldable pub mix_major14 : Step
mix_major14 = switch (((at 6 ⊕ at 8) ⊕ at 15) ⊘ 11) λ branch. do
  pad 14 &= seed_val ⊕ lit 0x1c0b5143
  pad 17 *= at 5 ⊞ lit 0x4ef38b53
  pad 15 ^= ror (at 16) (lit 8)
  when (branch == 4) do pad 4 ^= lit 0x82254dc0; mix_minor36; mix_minor47; call mix_major16 (at 10)
  seed ^= at 17 ⋒ lit 0x3b118c17
  ror_eq seed (at 7 ⊠ lit 0xb)
  pad 5 -= ror (at 12) (lit 5)
  when (branch == 10) do
    pad 14 -= lit 0x7b59f866
    pad 3 -= lit 0x6bfee72c
    pad 3 += lit 0x1704040
    call mix_major15 seed_val
  seed ^= at 10 ⊞ lit 0xe81a232b
  pad 18 |= at 2 ⊞ lit 0xef9e8d77
  pad 3 += at 4 ⊞ lit 0xce3d3234
  when (branch == 5) do mix_minor27; mix_minor38; mix_minor20; call mix_major8 (at 0)
  seed *= ror seed_val (lit 15)
  seed &= at 7 ⊞ lit 0x358107b
  pad 12 += rol (at 3) (lit 20)
  when (branch == 3)
      do mix_minor20; pad 17 ^= lit 0xde7b4629; pad 4 ^= lit 0x5cfc1b41; call mix_major12 seed_val
  seed += seed_val ⊞ lit 0xddcb6fb3
  seed ^= at 4 ⊠ lit 0x2a5c35ea
  pad 4 -= at 3 ⊟ lit 0x3b4034a1
  pad 11 &= at 19 ⋓ lit 0x2856103
  when (branch == 1) do mix_minor21; mix_minor56; mix_minor25; call mix_major18 (at 16)
  pad 7 |= seed_val ⊞ lit 0x2d3d686
  seed &= at 15 ⋒ lit 0x316de5b2
  when (branch == 7) do mix_minor20; mix_minor33; pad 14 ^= lit 0x1e127778; call mix_major6 (at 15)
  seed ^= at 17 ⊕ lit 0x3e8999a9
  seed += seed_val ⊞ lit 0x4d77c09e
  pad 6 *= at 10 ⊞ lit 0xd1650ad7
  pad 7 *= at 3 ⋒ lit 0xade0835
  when (branch == 0) do mix_minor26; mix_minor28; mix_minor67; call mix_major4 (at 3)
  pad 9 -= at 15 ⊕ lit 0x32bd1767
  pad 12 ^= at 3 ⊞ lit 0x74289e8a
  pad 9 ^= at 5 ⊞ lit 0xd55d1b86
  seed &= at 12 ⊠ lit 0x13b7b134
  when (branch == 8) do mix_minor35; mix_minor30; mix_minor21; call mix_major11 (at 2)
  seed += seed_val ⊞ lit 0xda1b9ad7
  pad 6 -= at 18 ⊠ lit 0x452ad09
  pad 4 += seed_val ⊕ lit 0x4895c9e2
  when (branch == 9) do mix_minor49; mix_minor49; mix_minor46; call mix_major22 (at 16)
  seed ^= seed_val ⊞ lit 0xf8ecf928
  ror_eq (pad 18) (at 5 ⊞ lit 0xd)
  when (branch == 6) do mix_minor55; mix_minor69; mix_minor67; call mix_major5 (at 8)
  seed *= lit 0x34b70af0
  pad 5 -= rol (at 19) (lit 23)
  when (branch == 2) do mix_minor46; mix_minor47; mix_minor47; call mix_major3 (at 18)
  pad 8 *= ror (at 5) (lit 2)
  pad 17 += at 8 ⋒ lit 0x15595f
  ror_eq (pad 19) (at 7 ⊞ lit 0x1)
  pad 9 -= seed_val ⊠ lit 0x539f549
  pad 0 *= at 8 ⊕ lit 0x10549d01
  pad 11 -= at 4 ⊕ lit 0x1cd38676
  pad 12 += ror seed_val (lit 16)
  pad 17 ^= at 15 ⊞ lit 0x266b587
  pad 17 -= ror (at 0) (lit 29)
  pad 3 -= at 13 ⊟ lit 0x2669d0a1

-- It stays inside the array.
pub mix_major14-SafeStep : SafeStep mix_major14
unfolding mix_major14
mix_major14-SafeStep =
    search
      (
        minor_rules, mix_major3-SafeStep, mix_major4-SafeStep, mix_major5-SafeStep,
        mix_major6-SafeStep, mix_major8-SafeStep, mix_major11-SafeStep, mix_major12-SafeStep,
        mix_major15-SafeStep, mix_major16-SafeStep, mix_major18-SafeStep, mix_major22-SafeStep,
      )
      depth 500 fits 100000
