-- ===== src/FastTrack/EncType2/Major21.antt =====
-- `mix_major21` of networks/fasttrack/enc_type_2.c.
use addnas_mldonkey.Base.{◌==◌}
use addnas_mldonkey.FastTrack.Mix.{
  Step, at, call, lit, pad, rol, rol_eq, ror, ror_eq, seed, seed_val, switch, when, ◌&=◌, ◌*=◌,
  ◌+=◌, ◌-=◌, ◌>>◌, ◌^=◌, ◌|=◌, ◌⊕◌, ◌⊘◌, ◌⊞◌, ◌⊟◌, ◌⊠◌, ◌⋒◌, ◌⋓◌,
}
use addnas_mldonkey.FastTrack.Mix.Safe.{SafeStep}
use addnas_mldonkey.FastTrack.EncType2.Minor.{
  mix_minor20, mix_minor21, mix_minor22, mix_minor26, mix_minor27, mix_minor28, mix_minor29,
  mix_minor30, mix_minor31, mix_minor37, mix_minor38, mix_minor40, mix_minor41, mix_minor58,
  mix_minor60, mix_minor62, mix_minor63, mix_minor66, mix_minor67, mix_minor68,
}
use addnas_mldonkey.FastTrack.EncType2.Minor.Safe.{minor_rules}
use addnas_mldonkey.FastTrack.EncType2.Major2.{mix_major2, mix_major2-SafeStep}
use addnas_mldonkey.FastTrack.EncType2.Major3.{mix_major3, mix_major3-SafeStep}
use addnas_mldonkey.FastTrack.EncType2.Major4.{mix_major4, mix_major4-SafeStep}
use addnas_mldonkey.FastTrack.EncType2.Major5.{mix_major5, mix_major5-SafeStep}
use addnas_mldonkey.FastTrack.EncType2.Major6.{mix_major6, mix_major6-SafeStep}
use addnas_mldonkey.FastTrack.EncType2.Major7.{mix_major7, mix_major7-SafeStep}
use addnas_mldonkey.FastTrack.EncType2.Major9.{mix_major9, mix_major9-SafeStep}
use addnas_mldonkey.FastTrack.EncType2.Major10.{mix_major10, mix_major10-SafeStep}
use addnas_mldonkey.FastTrack.EncType2.Major11.{mix_major11, mix_major11-SafeStep}
use addnas_mldonkey.FastTrack.EncType2.Major14.{mix_major14, mix_major14-SafeStep}
use addnas_mldonkey.FastTrack.EncType2.Major22.{mix_major22, mix_major22-SafeStep}

unfoldable pub mix_major21 : Step
mix_major21 = switch (((at 2 ⊕ at 11) ⊕ at 15) ⊘ 11) λ branch. do
  ror_eq (pad 13) (seed_val ⋓ lit 0x1e)
  seed -= at 6 ⊟ lit 0x67e07c3f
  seed ^= seed_val ⊠ lit 0x157052aa
  when (branch == 1) do mix_minor22; mix_minor62; mix_minor63; call mix_major6 seed_val
  rol_eq (pad 6) (ror (at 6) (lit 11))
  pad 19 += seed_val ⊠ lit 0x2437b7c7
  when (branch == 6)
      do pad 8 -= lit 0x383b7a6c; mix_minor28; pad 14 -= lit 0xd8799ad3; call mix_major4 (at 2)
  pad 3 += at 12 ⊞ lit 0xf9430940
  pad 11 -= at 6
  when (branch == 5) do mix_minor40; mix_minor41; mix_minor66; call mix_major11 (at 8)
  pad 0 += at 14 ⋓ lit 0x27c78ea
  pad 18 -= seed_val ⋒ lit 0x6b2cc678
  ror_eq (pad 15) (at 11 ⋒ lit 0xa)
  when (branch == 4) do mix_minor67; mix_minor26; mix_minor21; call mix_major22 seed_val
  seed ^= ror (at 18) (lit 2)
  pad 10 += at 15 ⊠ lit 0x42515298
  pad 19 += at 2 ⊕ lit 0x2a15668a
  when (branch == 7) do rol_eq (pad 19) (lit 21); mix_minor30; mix_minor58; call mix_major5 (at 11)
  pad 6 -= seed_val ⊟ lit 0xe28d6e07
  pad 1 &= at 3 ⊞ lit 0x8a7848d
  pad 10 *= at 17 ⊞ lit 0xf76061aa
  when (branch == 0) do mix_minor29; pad 17 ^= lit 0x3d87b641; mix_minor60; call mix_major3 (at 12)
  pad 6 += ror (at 1) (lit 8)
  pad 1 *= at 2 ⋓ lit 0x16a41bdf
  when (branch == 8)
      do mix_minor68; pad 9 += lit 0xb8c1b4ce; pad 4 ^= lit 0x5c2840a0; call mix_major14 (at 3)
  pad 0 -= at 4 ⊟ lit 0x21889c31
  seed *= seed_val ⊕ lit 0x14a9f943
  pad 5 |= at 13 ⊞ lit 0x5c58f04e
  pad 19 ^= at 14 ⊞ lit 0x49437c23
  when (branch == 2) do mix_minor22; mix_minor30; mix_minor29; call mix_major9 (at 13)
  pad 9 |= at 6 ⊕ lit 0x360a1ff0
  pad 13 &= at 14 ⊠ lit 0x810027b
  seed += seed_val ⊞ lit 0x3053624
  when (branch == 3) do mix_minor20; mix_minor38; mix_minor27; call mix_major10 (at 17)
  seed -= at 1 ⊟ lit 0xc7af02f5
  seed &= lit 0xc11a9b11
  pad 6 ^= at 12 ⊞ lit 0xac2e6058
  pad 12 ^= at 17 ⊞ lit 0xd87e9f50
  when (branch == 10) do mix_minor37; mix_minor29; mix_minor31; call mix_major2 (at 6)
  rol_eq (pad 9) (at 7 ⊕ lit 0x1)
  seed += at 14 ⊕ lit 0xff63c7c
  when (branch == 9) do pad 14 ^= lit 0x491ed97d; mix_minor22; mix_minor40; call mix_major7 (at 5)
  pad 9 ^= at 6 ⊕ lit 0x132ee304
  pad 12 *= at 14 ⊞ lit 0x11e0a175
  pad 14 -= seed_val ⊕ lit 0x267e2568
  rol_eq (pad 0) (rol (at 3) (lit 11))
  pad 8 ^= at 6 ⊕ lit 0xe173238
  pad 0 *= at 6 ⊞ lit 0xee9e5b6a
  pad 9 |= at 15 ⊠ lit 0x1fe0f470
  rol_eq (pad 2) (at 2 ⊞ lit 0x9)
  pad 16 ^= at 14 ⊠ lit 0x1b4bf87b
  pad 16 &= at 10 ⊞ lit 0x2383020a
  pad 15 += at 7 ⊞ lit 0xeb32d6f9
  pad 15 ^= rol (at 16) (lit 17)
  pad 16 += seed_val ⋓ lit 0x20914367

-- It stays inside the array.
pub mix_major21-SafeStep : SafeStep mix_major21
unfolding mix_major21
mix_major21-SafeStep =
    search
      (
        minor_rules, mix_major2-SafeStep, mix_major3-SafeStep, mix_major4-SafeStep,
        mix_major5-SafeStep, mix_major6-SafeStep, mix_major7-SafeStep, mix_major9-SafeStep,
        mix_major10-SafeStep, mix_major11-SafeStep, mix_major14-SafeStep, mix_major22-SafeStep,
      )
      depth 500 fits 100000
