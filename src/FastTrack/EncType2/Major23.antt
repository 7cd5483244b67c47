-- ===== src/FastTrack/EncType2/Major23.antt =====
-- `mix_major23` of networks/fasttrack/enc_type_2.c.
use addnas_mldonkey.Base.{◌==◌}
use addnas_mldonkey.FastTrack.Mix.{
  Step, at, call, lit, pad, rol, rol_eq, ror, ror_eq, seed, seed_val, switch, when, ◌&=◌, ◌*=◌,
  ◌+=◌, ◌-=◌, ◌>>◌, ◌^=◌, ◌|=◌, ◌⊕◌, ◌⊘◌, ◌⊞◌, ◌⊟◌, ◌⊠◌, ◌⋒◌, ◌⋓◌,
}
use addnas_mldonkey.FastTrack.Mix.Safe.{SafeStep}
use addnas_mldonkey.FastTrack.EncType2.Minor.{
  mix_minor21, mix_minor24, mix_minor26, mix_minor33, mix_minor39, mix_minor43, mix_minor44,
  mix_minor47, mix_minor48, mix_minor50, mix_minor51, mix_minor52, mix_minor53, mix_minor55,
  mix_minor59, mix_minor62, mix_minor64, mix_minor65, mix_minor67,
}
use addnas_mldonkey.FastTrack.EncType2.Minor.Safe.{minor_rules}
use addnas_mldonkey.FastTrack.EncType2.Major2.{mix_major2, mix_major2-SafeStep}
use addnas_mldonkey.FastTrack.EncType2.Major3.{mix_major3, mix_major3-SafeStep}
use addnas_mldonkey.FastTrack.EncType2.Major5.{mix_major5, mix_major5-SafeStep}
use addnas_mldonkey.FastTrack.EncType2.Major7.{mix_major7, mix_major7-SafeStep}
use addnas_mldonkey.FastTrack.EncType2.Major9.{mix_major9, mix_major9-SafeStep}
use addnas_mldonkey.FastTrack.EncType2.Major10.{mix_major10, mix_major10-SafeStep}
use addnas_mldonkey.FastTrack.EncType2.Major13.{mix_major13, mix_major13-SafeStep}
use addnas_mldonkey.FastTrack.EncType2.Major14.{mix_major14, mix_major14-SafeStep}
use addnas_mldonkey.FastTrack.EncType2.Major21.{mix_major21, mix_major21-SafeStep}
use addnas_mldonkey.FastTrack.EncType2.Major22.{mix_major22, mix_major22-SafeStep}
use addnas_mldonkey.FastTrack.EncType2.Major24.{mix_major24, mix_major24-SafeStep}

unfoldable pub mix_major23 : Step
mix_major23 = switch (seed_val ⊘ 11) λ branch. do
  seed &= rol (at 5) (lit 11)
  pad 18 -= ror seed_val (lit 23)
  pad 19 += seed_val ⊞ lit 0xb42a2f00
  when (branch == 5) do pad 17 ^= lit 0x33db0465; mix_minor62; mix_minor33; call mix_major22 (at 2)
  pad 0 += at 12 ⊞ lit 0x71507fd7
  seed += at 19 ⊞ lit 0x9a68096
  when (branch == 6) do mix_minor64; mix_minor47; mix_minor62; call mix_major5 (at 10)
  pad 0 += at 2 ⊞ lit 0x238788d8
  ror_eq (pad 3) (at 15 ⊞ lit 0x16)
  pad 10 -= at 9 ⊟ lit 0xdf1e2fab
  when (branch == 3) do mix_minor50; pad 4 ^= lit 0x3f348b71; mix_minor44; call mix_major3 seed_val
  seed ^= rol seed_val (lit 27)
  seed -= ror (at 11) (lit 23)
  when (branch == 7) do mix_minor48; mix_minor51; pad 3 -= lit 0xf2da1eb7; call mix_major14 (at 15)
  pad 18 += at 10 ⊞ lit 0x13ba6066
  pad 11 -= at 10 ⊟ lit 0xd44a337d
  pad 17 &= at 3 ⊞ lit 0xad722336
  when (branch == 4) do pad 3 *= lit 0x1e952879; mix_minor55; mix_minor52; call mix_major9 (at 8)
  pad 7 -= rol seed_val (lit 15)
  seed |= at 6 ⊞ lit 0x45d2e311
  seed ^= at 7 ⊞ lit 0xd196f18f
  rol_eq (pad 7) (seed_val ⊕ lit 0x8)
  when (branch == 8) do mix_minor55; mix_minor64; pad 3 += lit 0x704000; call mix_major10 (at 13)
  pad 6 += at 18 ⊠ lit 0x413db8c1
  pad 0 ^= at 19 ⊞ lit 0x2be41642
  pad 4 *= ror (at 9) (lit 18)
  when (branch == 10) do mix_minor26; mix_minor47; mix_minor59; call mix_major2 seed_val
  rol_eq seed (at 6 ⊠ lit 0x13)
  pad 17 *= at 3 ⋒ lit 0x9262077
  pad 13 ^= at 14 ⊞ lit 0xfa8ae5a0
  when (branch == 1) do mix_minor65; mix_minor21; mix_minor24; call mix_major7 (at 13)
  ror_eq seed (rol (at 2) (lit 17))
  pad 13 -= at 8 ⊟ lit 0xffd58fe8
  pad 8 += at 6 ⊕ lit 0x1d606322
  when (branch == 9) do mix_minor52; mix_minor26; pad 3 += lit 0x404840; call mix_major21 (at 10)
  pad 16 += at 19 ⊞ lit 0xe3a240f7
  seed ^= ror (at 14) (lit 3)
  when (branch == 0)
      do mix_minor43; pad 3 -= lit 0xa9fe8c6d; pad 0 += lit 0xe9a284bb; call mix_major13 (at 4)
  pad 18 ^= at 7 ⋓ lit 0x196e1a4c
  seed += at 18 ⊕ lit 0xffcac8f
  pad 1 ^= at 0 ⊕ lit 0xb09adec
  when (branch == 2) do mix_minor53; mix_minor39; mix_minor67; call mix_major24 (at 11)
  pad 14 *= at 2 ⊞ lit 0x328852b1
  pad 8 ^= at 15 ⋒ lit 0x1e0a37a
  pad 3 *= rol seed_val (lit 13)
  pad 6 ^= at 18 ⊞ lit 0xc9c48b38
  rol_eq (pad 2) (at 14 ⊞ lit 0x1d)
  seed ^= ror (at 10) (lit 13)
  pad 12 ^= at 8 ⊞ lit 0xef774f5b
  ror_eq seed (at 14 ⊞ lit 0x3)
  seed += seed_val ⊕ lit 0x58f00a07
  pad 9 ^= seed_val ⊕ lit 0x5483deb2
  pad 14 |= at 0 ⊠ lit 0x2c63f116
  pad 3 += at 10 ⊕ lit 0xa051af
  seed -= at 0 ⊟ lit 0xfdb247f0
  pad 2 -= seed_val ⊟ lit 0xf9432db1

-- It stays inside the array.
pub mix_major23-SafeStep : SafeStep mix_major23
unfolding mix_major23
mix_major23-SafeStep =
    search
      (
        minor_rules, mix_major2-SafeStep, mix_major3-SafeStep, mix_major5-SafeStep,
        mix_major7-SafeStep, mix_major9-SafeStep, mix_major10-SafeStep, mix_major13-SafeStep,
        mix_major14-SafeStep, mix_major21-SafeStep, mix_major22-SafeStep, mix_major24-SafeStep,
      )
      depth 500 fits 100000
