-- ===== src/FastTrack/EncType2/Major1.antt =====
-- `mix_major1` of networks/fasttrack/enc_type_2.c.
use addnas_mldonkey.Base.{◌==◌}
use addnas_mldonkey.FastTrack.Mix.{
  Step, at, call, lit, pad, rol, rol_eq, ror, ror_eq, seed, seed_val, switch, when, ◌&=◌, ◌*=◌,
  ◌+=◌, ◌-=◌, ◌>>◌, ◌^=◌, ◌⊕◌, ◌⊘◌, ◌⊞◌, ◌⊟◌, ◌⊠◌, ◌⋒◌, ◌⋓◌,
}
use addnas_mldonkey.FastTrack.Mix.Safe.{SafeStep}
use addnas_mldonkey.FastTrack.EncType2.Minor.{
  mix_minor24, mix_minor25, mix_minor26, mix_minor30, mix_minor33, mix_minor36, mix_minor41,
  mix_minor42, mix_minor44, mix_minor46, mix_minor54, mix_minor58, mix_minor60, mix_minor63,
  mix_minor64, mix_minor67,
}
use addnas_mldonkey.FastTrack.EncType2.Minor.Safe.{minor_rules}
use addnas_mldonkey.FastTrack.EncType2.Major2.{mix_major2, mix_major2-SafeStep}
use addnas_mldonkey.FastTrack.EncType2.Major3.{mix_major3, mix_major3-SafeStep}
use addnas_mldonkey.FastTrack.EncType2.Major5.{mix_major5, mix_major5-SafeStep}
use addnas_mldonkey.FastTrack.EncType2.Major7.{mix_major7, mix_major7-SafeStep}
use addnas_mldonkey.FastTrack.EncType2.Major9.{mix_major9, mix_major9-SafeStep}
use addnas_mldonkey.FastTrack.EncType2.Major10.{mix_major10, mix_major10-SafeStep}
use addnas_mldonkey.FastTrack.EncType2.Major13.{mix_major13, mix_major13-SafeStep}
use addnas_mldonkey.FastTrack.EncType2.Major14.{mix_major14, mix_major14-SafeStep}
use addnas_mldonkey.FastTrack.EncType2.Major21.{mix_major21, mix_major21-SafeStep}
use addnas_mldonkey.FastTrack.EncType2.Major23.{mix_major23, mix_major23-SafeStep}
use addnas_mldonkey.FastTrack.EncType2.Major24.{mix_major24, mix_major24-SafeStep}

unfoldable pub mix_major1 : Step
mix_major1 = switch (((at 6 ⊕ at 9) ⊕ at 12) ⊘ 11) λ branch. do
  pad 5 += at 3 ⋒ lit 0x24398ab
  seed += (at 3 ⊟ at 18) ⊞ lit 0x45e6c9d4
  when (branch == 2) do mix_minor26; mix_minor58; mix_minor67; call mix_major5 (at 19)
  seed ^= at 14 ⊞ lit 0xc0fd80ba
  pad 12 -= at 1 ⊠ lit 0xe99b672
  pad 15 ^= at 0 ⊞ lit 0xca70bf60
  when (branch == 1) do pad 4 ^= lit 0x15e7d1d6; mix_minor44; mix_minor26; call mix_major3 (at 11)
  seed += seed_val ⊕ lit 0x17339c6
  pad 15 += at 7 ⊠ lit 0x15f0a011
  pad 4 &= at 17 ⊞ lit 0x1b597286
  pad 17 *= at 15 ⋒ lit 0x389e630b
  when (branch == 3) do mix_minor44; mix_minor25; mix_minor63; call mix_major14 (at 3)
  pad 18 ^= at 19 ⊕ lit 0x31a138ce
  pad 16 &= seed_val ⊠ lit 0x271fe1f1
  ror_eq (pad 7) (at 16 ⊕ lit 0x9)
  when (branch == 5)
      do pad 12 += lit 0x108440; pad 14 -= lit 0xf9b7e88d; mix_minor64; call mix_major9 seed_val
  pad 2 *= ror (at 6) (lit 31)
  seed -= at 14 ⊟ lit 0xfee822a8
  seed *= at 5 ⊠ lit 0x9dfbe4
  seed += at 13 ⊞ lit 0xfd2ead2f
  when (branch == 9) do mix_minor60; mix_minor42; pad 14 += lit 0x723398ff; call mix_major10 (at 18)
  pad 7 += at 17 ⊞ lit 0x2b29baf9
  ror_eq (pad 2) (rol (at 0) (lit 25))
  when (branch == 6) do mix_minor46; rol_eq (pad 19) (lit 18); mix_minor41; call mix_major2 (at 4)
  pad 12 &= at 16 ⊞ lit 0x2223fa4b
  seed -= at 5 ⊠ lit 0x282f40d5
  seed &= ror (at 18) (lit 16)
  when (branch == 8)
      do mix_minor46; pad 9 += lit 0xd0b27d9c; rol_eq (pad 10) (lit 22); call mix_major7 seed_val
  pad 17 += at 7 ⊞ lit 0xf9ac8515
  pad 7 += at 10 ⊞ lit 0xf9b69577
  when (branch == 4)
      do pad 3 *= lit 0x2da1cfcf; mix_minor54; pad 12 += lit 0x80410; call mix_major21 (at 13)
  pad 7 += at 13 ⊕ lit 0x6d56f7f
  pad 8 -= seed_val ⊟ lit 0x8c8d3d9c
  when (branch == 7) do mix_minor24; mix_minor33; mix_minor42; call mix_major13 (at 4)
  pad 5 -= at 12 ⊟ lit 0x4d2bd380
  pad 1 -= seed_val ⊟ lit 0xfcee8aad
  pad 18 *= at 1 ⊠ lit 0x696c0
  pad 8 *= at 4 ⊞ lit 0xdc2745dc
  when (branch == 10) do mix_minor58; mix_minor25; mix_minor36; call mix_major24 (at 2)
  pad 18 ^= at 7 ⊞ lit 0xd9de0ed7
  ror_eq (pad 11) (at 6 ⊞ lit 0x11)
  pad 19 += at 18 ⊞ lit 0xb295dc
  when (branch == 0) do mix_minor41; mix_minor30; mix_minor64; call mix_major23 seed_val
  pad 15 -= seed_val ⋓ lit 0x58eafd
  ror_eq (pad 5) (at 12 ⊠ lit 0x6)
  pad 2 += at 19 ⊞ lit 0xf42fd441
  pad 12 *= at 2 ⋓ lit 0x10d913b8
  pad 1 ^= at 11 ⊞ lit 0x2039d1f9
  pad 15 += ror (at 2) (lit 3)
  pad 11 += at 1 ⊞ lit 0x55f96491
  pad 4 *= at 15 ⋒ lit 0x864fe18
  pad 18 *= at 18 ⊞ lit 0xf5eb4571

-- It stays inside the array.
pub mix_major1-SafeStep : SafeStep mix_major1
unfolding mix_major1
mix_major1-SafeStep =
    search
      (
        minor_rules, mix_major2-SafeStep, mix_major3-SafeStep, mix_major5-SafeStep,
        mix_major7-SafeStep, mix_major9-SafeStep, mix_major10-SafeStep, mix_major13-SafeStep,
        mix_major14-SafeStep, mix_major21-SafeStep, mix_major23-SafeStep, mix_major24-SafeStep,
      )
      depth 500 fits 100000
