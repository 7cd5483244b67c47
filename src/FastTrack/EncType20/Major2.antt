-- ===== src/FastTrack/EncType20/Major2.antt =====
-- `major_2` of networks/fasttrack/enc_type_20.c.
use addnas_mldonkey.Base.{◌==◌}
use addnas_mldonkey.FastTrack.Mix.{pad, at, seed_val, lit, ror, ◌⊞◌, ◌⊟◌, ◌⊠◌, ◌⋒◌, ◌⊕◌, ◌⋓◌}
use addnas_mldonkey.FastTrack.Flow.{
  Flow, my_cos, my_sin, choose, shl, ror_eq, rol_eq, try_odd, switch, when, call, ◌⊲◌, ◌+=◌, ◌-=◌,
  ◌*=◌, ◌&=◌, ◌|=◌, ◌^=◌, ◌>>◌,
}
use addnas_mldonkey.FastTrack.Flow.Safe.{SafeFlow}
use addnas_mldonkey.FastTrack.EncType20.Minor.{
  minor_1, minor_10, minor_27, minor_28, minor_30, minor_34, minor_5,
}
use addnas_mldonkey.FastTrack.EncType20.Minor.Safe.{minor_rules}
use addnas_mldonkey.FastTrack.EncType20.Major1.{major_1, major_1-SafeFlow}
use addnas_mldonkey.FastTrack.EncType20.Major14.{major_14, major_14-SafeFlow}
use addnas_mldonkey.FastTrack.EncType20.Major15.{major_15, major_15-SafeFlow}
use addnas_mldonkey.FastTrack.EncType20.Major16.{major_16, major_16-SafeFlow}
use addnas_mldonkey.FastTrack.EncType20.Major17.{major_17, major_17-SafeFlow}
use addnas_mldonkey.FastTrack.EncType20.Major18.{major_18, major_18-SafeFlow}
use addnas_mldonkey.FastTrack.EncType20.Major21.{major_21, major_21-SafeFlow}
use addnas_mldonkey.FastTrack.EncType20.Major25.{major_25, major_25-SafeFlow}
use addnas_mldonkey.FastTrack.EncType20.Major3.{major_3, major_3-SafeFlow}
use addnas_mldonkey.FastTrack.EncType20.Major4.{major_4, major_4-SafeFlow}
use addnas_mldonkey.FastTrack.EncType20.Major6.{major_6, major_6-SafeFlow}
use addnas_mldonkey.FastTrack.EncType20.Major9.{major_9, major_9-SafeFlow}

unfoldable pub major_2 : Flow
major_2 = switch (at 10 ⋒ lit 15) λ branch. do
  when (branch == 5) do minor_27; pad 7 &= at 13 ⊕ lit 0x21aaf758; call major_25 (at 0)
  pad 0 -= seed_val ⊠ lit 0x36
  when (branch == 13)
      do pad 2 *= at 3 ⊞ lit 0xd6863a6; pad 6 += lit 0xfe07af0e ⊟ at 3; call major_17 seed_val
  when (branch == 12) do pad 6 ^= lit 0x9374c368; pad 7 &= lit 0xc45b99ee; call major_4 (at 14)
  pad 7 -= at 8 ⋓ lit 0x1a1a9407
  when (branch == 6)
      do ror_eq (pad 9) (lit 12); pad 3 -= at 0 ⊕ lit 0x185f3b0d; call major_18 (at 14)
  pad 2 += at 0 ⊞ lit 0x19259d5
  when (branch == 8) do pad 9 ^= at 7 ⊠ lit 0x44; pad 2 ^= shl (at 15) 5; call major_15 seed_val
  when (branch == 11) do minor_34; pad 3 -= at 0 ⊕ lit 0x185f3b0d; call major_3 (at 15)
  pad 16 &= seed_val ⊟ lit 0x1badcb5
  when (branch == 15)
      do pad 14 |= at 3 ⊕ lit 0x4345732; ror_eq (pad 4) (lit 0x1); call major_21 (at 3)
  pad 5 -= choose (my_cos (at 4)) (lit 0xffcdb92f) (at 14)
  when (branch == 1) do
    pad 13 -= at 1
    pad 7 |= lit 0x45e184c5
    call major_16 (at 9)
    try_odd (pad 8) (minor_1 (lit 0x149a97a0))
    try_odd (pad 18) (minor_10 (lit 0xd87d888e))
    call major_1 (at 9)
  pad 5 *= at 8 ⊞ lit 0xffcdb92f
  when (branch == 4) do
    try_odd (pad 18) (minor_10 (lit 0x130aa218))
    pad 13 *= ror (at 3) (lit 5)
    call major_14 (at 6)
  rol_eq (pad 1) (choose (at 15 ⊲ 0xbdc3f45b) (at 15) (at 9))
  when (branch == 14) do minor_30; pad 13 *= lit 0x7f0d5ead; call major_6 (at 5)
  when (branch == 0)
      do pad 6 += at 19 ⊟ lit 0x3f5675d6; try_odd (pad 10) minor_5; call major_9 seed_val
  pad 6 += at 3 ⊠ lit 0x79
  when (branch == 9) do pad 9 &= lit 0x3eb4ed97; minor_30; call major_25 (at 6)
  pad 16 ^= choose (my_cos (at 7)) (lit 0x2d36f243) (at 13)
  when (branch == 0) do pad 0 += at 18 ⊕ lit 0x4ac16b8d; minor_28; call major_17 (at 2)
  when (branch == 7)
      do pad 10 += lit 0x8958821; try_odd (pad 8) (minor_1 (lit 0x115e64d4)); call major_4 (at 19)
  pad 14 &= at 3 ⊕ lit 0xb8eb772d
  when (branch == 10) do pad 13 -= at 1; pad 2 ^= shl (at 15) 5; call major_18 (at 8)
  ror_eq (pad 1) (at 12 ⊠ lit 0x5)
  when (branch == 3) do
    pad 2 ^= choose (my_sin (at 13)) (lit 0xfd08092) (at 10)
    pad 2 ^= choose (my_sin (at 13)) (lit 0xfd08092) (at 10)
    call major_15 (at 15)
  when (branch == 2) do pad 7 &= lit 0x5cf54b9a; pad 13 *= lit 0xa02fe00; call major_3 (at 14)
  pad 12 ^= choose (my_sin (at 0)) (lit 0x96d5a5a4) (at 5)

-- It stays inside the array.
pub major_2-SafeFlow : SafeFlow major_2
unfolding major_2
major_2-SafeFlow =
    search
      (
        minor_rules, major_1-SafeFlow, major_14-SafeFlow, major_15-SafeFlow, major_16-SafeFlow,
        major_17-SafeFlow, major_18-SafeFlow, major_21-SafeFlow, major_25-SafeFlow,
        major_3-SafeFlow, major_4-SafeFlow, major_6-SafeFlow, major_9-SafeFlow,
      )
      depth 500 fits 100000
