-- ===== src/FastTrack/EncType2/Major24.antt =====
-- `mix_major24` of networks/fasttrack/enc_type_2.c.
use addnas_mldonkey.Base.{◌==◌}
use addnas_mldonkey.FastTrack.Mix.{
  Step, at, call, lit, pad, rol, rol_eq, ror, ror_eq, seed, seed_val, switch, when, ◌&=◌, ◌*=◌,
  ◌+=◌, ◌-=◌, ◌>>◌, ◌^=◌, ◌|=◌, ◌⊕◌, ◌⊘◌, ◌⊞◌, ◌⊟◌, ◌⊠◌, ◌⋒◌, ◌⋓◌,
}
use addnas_mldonkey.FastTrack.Mix.Safe.{SafeStep}
use addnas_mldonkey.FastTrack.EncType2.Minor.{
  mix_minor22, mix_minor23, mix_minor24, mix_minor25, mix_minor27, mix_minor29, mix_minor30,
  mix_minor32, mix_minor40, mix_minor42, mix_minor45, mix_minor46, mix_minor48, mix_minor50,
  mix_minor51, mix_minor55, mix_minor56, mix_minor57, mix_minor59, mix_minor60, mix_minor61,
  mix_minor63,
}
use addnas_mldonkey.FastTrack.EncType2.Minor.Safe.{minor_rules}
use addnas_mldonkey.FastTrack.EncType2.Major2.{mix_major2, mix_major2-SafeStep}
use addnas_mldonkey.FastTrack.EncType2.Major3.{mix_major3, mix_major3-SafeStep}
use addnas_mldonkey.FastTrack.EncType2.Major5.{mix_major5, mix_major5-SafeStep}
use addnas_mldonkey.FastTrack.EncType2.Major7.{mix_major7, mix_major7-SafeStep}
use addnas_mldonkey.FastTrack.EncType2.Major9.{mix_major9, mix_major9-SafeStep}
use addnas_mldonkey.FastTrack.EncType2.Major10.{mix_major10, mix_major10-SafeStep}
use addnas_mldonkey.FastTrack.EncType2.Major11.{mix_major11, mix_major11-SafeStep}
use addnas_mldonkey.FastTrack.EncType2.Major13.{mix_major13, mix_major13-SafeStep}
use addnas_mldonkey.FastTrack.EncType2.Major14.{mix_major14, mix_major14-SafeStep}
use addnas_mldonkey.FastTrack.EncType2.Major21.{mix_major21, mix_major21-SafeStep}
use addnas_mldonkey.FastTrack.EncType2.Major22.{mix_major22, mix_major22-SafeStep}

unfoldable pub mix_major24 : Step
mix_major24 = switch (((at 17 ⊕ at 8) ⊕ at 10) ⊘ 11) λ branch. do
  seed *= at 7
  seed ^= at 0 ⊕ lit 0x13a77c41
  rol_eq (pad 2) (at 3 ⊞ lit 0x10)
  when (branch == 1) do mix_minor27; mix_minor59; mix_minor22; call mix_major11 (at 12)
  seed ^= seed_val ⊞ lit 0xf4135aef
  rol_eq seed (at 6 ⊞ lit 0x9)
  pad 14 += rol (at 13) (lit 25)
  pad 16 ^= at 8 ⊞ lit 0x19454e81
  when (branch == 10) do mix_minor63; mix_minor32; mix_minor29; call mix_major22 (at 8)
  pad 3 *= seed_val ⊞ lit 0xcb4ea17e
  rol_eq (pad 17) (at 17 ⊕ lit 0x14)
  seed -= at 11 ⊠ lit 0x2c0fd99b
  when (branch == 3) do mix_minor57; mix_minor63; mix_minor25; call mix_major5 seed_val
  pad 12 += at 19 ⊞ lit 0x7e55995
  pad 14 -= at 13 ⊠ lit 0x3dd1a491
  pad 4 |= at 8 ⋒ lit 0x162b97ec
  pad 8 += at 3 ⊞ lit 0xc3000fb6
  when (branch == 6)
      do mix_minor48; pad 8 += lit 0x9cd4867c; pad 14 += lit 0x79cdbac7; call mix_major3 (at 9)
  pad 13 += at 8 ⊕ lit 0x2a161224
  pad 10 += at 1 ⊠ lit 0xc693c6b
  pad 4 *= at 10 ⊞ lit 0xecde6b96
  when (branch == 9) do mix_minor40; rol_eq (pad 10) (lit 18); mix_minor40; call mix_major14 (at 13)
  pad 8 *= ror (at 13) (lit 25)
  pad 17 ^= ror (at 14) (lit 24)
  seed &= at 4 ⊞ lit 0x1c938114
  when (branch == 2) do pad 4 ^= lit 0xc25fdd85; mix_minor42; mix_minor27; call mix_major9 seed_val
  pad 0 *= seed_val ⊞ lit 0xc328858
  seed += at 15 ⋓ lit 0x137d6d8
  pad 3 -= at 9 ⊟ lit 0xae4f0ae
  when (branch == 0) do mix_minor45; mix_minor24; mix_minor51; call mix_major10 (at 3)
  seed *= at 10 ⊞ lit 0xe55615
  pad 15 |= seed_val ⋓ lit 0x120d32e3
  rol_eq seed (at 15 ⊕ lit 0xc)
  ror_eq (pad 6) (at 7)
  when (branch == 7) do mix_minor23; mix_minor57; mix_minor55; call mix_major2 (at 17)
  pad 3 -= at 4 ⋓ lit 0x2587388f
  pad 2 += at 4 ⊞ lit 0xffda87c9
  seed -= ror (at 2) (lit 17)
  pad 1 += at 6 ⊠ lit 0x34aabe3a
  when (branch == 4) do mix_minor30; mix_minor46; mix_minor57; call mix_major7 (at 16)
  pad 17 ^= at 13 ⊕ lit 0x3d17e55a
  pad 15 *= at 14 ⊞ lit 0xdaf5121
  when (branch == 5) do mix_minor57; mix_minor60; mix_minor61; call mix_major21 seed_val
  rol_eq (pad 6) (at 17 ⊠ lit 0x14)
  pad 6 += at 15 ⊕ lit 0x14819516
  when (branch == 8) do pad 8 -= lit 0x7b22975e; mix_minor50; mix_minor56; call mix_major13 (at 5)
  pad 8 |= at 14 ⊞ lit 0xc735f228
  ror_eq (pad 7) (at 17 ⊞ lit 0x1e)
  seed *= at 10 ⊠ lit 0x340d3ff2
  pad 16 *= at 14 ⊞ lit 0x57a8d4b3
  pad 6 -= at 1 ⊟ lit 0x534be48e
  pad 2 ^= at 9 ⊠ lit 0xd695251
  pad 12 ^= at 7
  pad 1 += at 17 ⊞ lit 0xf022cb99
  pad 4 += seed_val ⋓ lit 0x2954ac20
  pad 7 *= seed_val ⊕ lit 0x1b904466
  pad 2 -= seed_val ⊠ lit 0x31fef0e1

-- It stays inside the array.
pub mix_major24-SafeStep : SafeStep mix_major24
unfolding mix_major24
mix_major24-SafeStep =
    search
      (
        minor_rules, mix_major2-SafeStep, mix_major3-SafeStep, mix_major5-SafeStep,
        mix_major7-SafeStep, mix_major9-SafeStep, mix_major10-SafeStep, mix_major11-SafeStep,
        mix_major13-SafeStep, mix_major14-SafeStep, mix_major21-SafeStep, mix_major22-SafeStep,
      )
      depth 500 fits 100000
