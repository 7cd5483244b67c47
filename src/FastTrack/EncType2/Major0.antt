-- ===== src/FastTrack/EncType2/Major0.antt =====
-- `mix_major0` of networks/fasttrack/enc_type_2.c.
use addnas_mldonkey.Base.{◌==◌}
use addnas_mldonkey.FastTrack.Mix.{
  Step, at, call, lit, pad, rol, ror, ror_eq, seed, seed_val, switch, when, ◌&=◌, ◌*=◌, ◌+=◌, ◌-=◌,
  ◌>>◌, ◌^=◌, ◌|=◌, ◌⊕◌, ◌⊘◌, ◌⊞◌, ◌⊟◌, ◌⊠◌, ◌⋒◌, ◌⋓◌,
}
use addnas_mldonkey.FastTrack.Mix.Safe.{SafeStep}
use addnas_mldonkey.FastTrack.EncType2.Minor.{
  mix_minor26, mix_minor27, mix_minor29, mix_minor30, mix_minor34, mix_minor35, mix_minor38,
  mix_minor39, mix_minor41, mix_minor42, mix_minor45, mix_minor46, mix_minor49, mix_minor50,
  mix_minor53, mix_minor54, mix_minor55, mix_minor58, mix_minor59, mix_minor61, mix_minor67,
}
use addnas_mldonkey.FastTrack.EncType2.Minor.Safe.{minor_rules}
use addnas_mldonkey.FastTrack.EncType2.Major1.{mix_major1, mix_major1-SafeStep}
use addnas_mldonkey.FastTrack.EncType2.Major2.{mix_major2, mix_major2-SafeStep}
use addnas_mldonkey.FastTrack.EncType2.Major3.{mix_major3, mix_major3-SafeStep}
use addnas_mldonkey.FastTrack.EncType2.Major7.{mix_major7, mix_major7-SafeStep}
use addnas_mldonkey.FastTrack.EncType2.Major9.{mix_major9, mix_major9-SafeStep}
use addnas_mldonkey.FastTrack.EncType2.Major10.{mix_major10, mix_major10-SafeStep}
use addnas_mldonkey.FastTrack.EncType2.Major13.{mix_major13, mix_major13-SafeStep}
use addnas_mldonkey.FastTrack.EncType2.Major14.{mix_major14, mix_major14-SafeStep}
use addnas_mldonkey.FastTrack.EncType2.Major21.{mix_major21, mix_major21-SafeStep}
use addnas_mldonkey.FastTrack.EncType2.Major23.{mix_major23, mix_major23-SafeStep}
use addnas_mldonkey.FastTrack.EncType2.Major24.{mix_major24, mix_major24-SafeStep}

unfoldable pub mix_major0 : Step
mix_major0 = switch (((at 15 ⊕ at 19) ⊕ seed_val) ⊘ 11) λ branch. do
  pad 6 *= at 8 ⊠ lit 0x1bb4a70d
  pad 12 += at 14 ⊞ lit 0xe087bd96
  seed &= at 13 ⋓ lit 0x39367989
  when (branch == 7) do mix_minor30; mix_minor41; mix_minor45; call mix_major3 (at 19)
  pad 14 -= ror seed_val (lit 31)
  pad 8 ^= seed_val ⋒ lit 0x8e30c76
  pad 3 *= at 12 ⊕ lit 0xd05f635
  pad 10 += at 10 ⊞ lit 0xa92dc43a
  when (branch == 0)
      do pad 0 += lit 0xde3b3b9a; mix_minor46; pad 3 += lit 0x8600800; call mix_major14 (at 5)
  seed += at 17 ⊞ lit 0xff92b824
  pad 1 += at 3 ⊕ lit 0x62c448c0
  pad 8 ^= at 3 ⊕ lit 0x43c25efd
  pad 9 ^= rol (at 9) (lit 16)
  when (branch == 5) do mix_minor53; pad 3 += lit 0x8502040; mix_minor54; call mix_major9 (at 5)
  pad 3 -= at 2 ⊟ lit 0xef553b21
  pad 18 += at 13 ⊞ lit 0x3b26991e
  when (branch == 4) do mix_minor39; mix_minor42; mix_minor35; call mix_major10 (at 7)
  pad 12 += at 11 ⋒ lit 0x4be050d
  pad 17 ^= ror seed_val (lit 8)
  ror_eq (pad 8) (at 16 ⊞ lit 0x17)
  pad 12 *= at 8 ⊞ lit 0xf3910fa
  when (branch == 2) do mix_minor58; mix_minor59; mix_minor38; call mix_major2 seed_val
  pad 8 += seed_val ⊞ lit 0x4088eb5f
  pad 5 &= at 7 ⊕ lit 0x1387a250
  pad 2 |= at 1 ⊕ lit 0x47f3a78b
  pad 17 |= at 10 ⊠ lit 0x1d208465
  when (branch == 1) do mix_minor39; mix_minor49; mix_minor50; call mix_major7 (at 9)
  pad 1 -= seed_val ⋒ lit 0x4be5deac
  pad 4 += at 15 ⋒ lit 0x3496b61a
  when (branch == 10) do mix_minor55; mix_minor61; pad 8 += lit 0x82e5ca1; call mix_major21 (at 8)
  ror_eq seed (seed_val ⊠ lit 0x10)
  pad 13 &= at 12 ⊞ lit 0x6b465da
  when (branch == 3)
      do mix_minor27; pad 8 += lit 0x370c574; pad 0 += lit 0xc484fc90; call mix_major13 (at 11)
  pad 16 |= at 14 ⊞ lit 0xff7068bf
  pad 7 &= at 19 ⊕ lit 0x1e569f2b
  pad 12 += at 15 ⊠ lit 0x49f90b6a
  when (branch == 6) do pad 17 ^= lit 0x8ade6faa; mix_minor26; mix_minor59; call mix_major24 (at 7)
  pad 6 -= at 18 ⊠ lit 0xb0223a7
  pad 19 -= at 4 ⊠ lit 0x4f4bc59
  pad 17 += at 3 ⊞ lit 0x19da7ccb
  pad 17 -= seed_val ⋒ lit 0x3a423827
  when (branch == 9) do mix_minor67; mix_minor29; pad 3 += lit 0x506840; call mix_major23 seed_val
  seed += at 11 ⊞ lit 0xea268d79
  seed ^= at 11 ⊞ lit 0x7b41453
  when (branch == 8) do pad 11 += lit 0xe199e061; mix_minor34; mix_minor30; call mix_major1 seed_val
  pad 0 ^= at 2 ⊕ lit 0x361eddb9
  pad 0 += seed_val ⊞ lit 0xc3201c46
  ror_eq (pad 4) (at 4 ⊞ lit 0x19)
  pad 8 *= at 16 ⊞ lit 0xf6c0ea7
  ror_eq (pad 11) (at 18 ⊠ lit 0x13)
  pad 2 |= at 4 ⋓ lit 0x5747f7c
  seed ^= at 3 ⊠ lit 0x336a3c4f
  pad 9 ^= at 8 ⊞ lit 0x5ff3732
  pad 9 ^= seed_val ⊞ lit 0x2b702a62
  pad 1 *= at 1 ⊞ lit 0xfa4e2f52

-- It stays inside the array.
pub mix_major0-SafeStep : SafeStep mix_major0
unfolding mix_major0
mix_major0-SafeStep =
    search
      (
        minor_rules, mix_major1-SafeStep, mix_major2-SafeStep, mix_major3-SafeStep,
        mix_major7-SafeStep, mix_major9-SafeStep, mix_major10-SafeStep, mix_major13-SafeStep,
        mix_major14-SafeStep, mix_major21-SafeStep, mix_major23-SafeStep, mix_major24-SafeStep,
      )
      depth 500 fits 100000
