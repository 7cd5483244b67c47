-- ===== src/FastTrack/EncType20/Major5.antt =====
-- `major_5` of networks/fasttrack/enc_type_20.c.
use addnas_mldonkey.Base.{◌==◌}
use addnas_mldonkey.FastTrack.Mix.{pad, seed, at, seed_val, lit, ror, rol, ◌⊞◌, ◌⊟◌, ◌⊠◌, ◌⋒◌, ◌⊕◌}
use addnas_mldonkey.FastTrack.Flow.{
  Flow, my_cos, my_sin, choose, shl, ror_eq, try_odd, switch, when, call, ◌⊲◌, ◌+=◌, ◌-=◌, ◌*=◌,
  ◌&=◌, ◌|=◌, ◌^=◌, ◌>>◌,
}
use addnas_mldonkey.FastTrack.Flow.Safe.{SafeFlow}
use addnas_mldonkey.FastTrack.EncType20.Minor.{
  minor_17, minor_20, minor_27, minor_3, minor_31, minor_8,
}
use addnas_mldonkey.FastTrack.EncType20.Minor.Safe.{minor_rules}
use addnas_mldonkey.FastTrack.EncType20.Major1.{major_1, major_1-SafeFlow}
use addnas_mldonkey.FastTrack.EncType20.Major14.{major_14, major_14-SafeFlow}
use addnas_mldonkey.FastTrack.EncType20.Major15.{major_15, major_15-SafeFlow}
use addnas_mldonkey.FastTrack.EncType20.Major16.{major_16, major_16-SafeFlow}
use addnas_mldonkey.FastTrack.EncType20.Major17.{major_17, major_17-SafeFlow}
use addnas_mldonkey.FastTrack.EncType20.Major18.{major_18, major_18-SafeFlow}
use addnas_mldonkey.FastTrack.EncType20.Major2.{major_2, major_2-SafeFlow}
use addnas_mldonkey.FastTrack.EncType20.Major21.{major_21, major_21-SafeFlow}
use addnas_mldonkey.FastTrack.EncType20.Major3.{major_3, major_3-SafeFlow}
use addnas_mldonkey.FastTrack.EncType20.Major4.{major_4, major_4-SafeFlow}
use addnas_mldonkey.FastTrack.EncType20.Major6.{major_6, major_6-SafeFlow}
use addnas_mldonkey.FastTrack.EncType20.Major9.{major_9, major_9-SafeFlow}

unfoldable pub major_5 : Flow
major_5 = switch (((at 13 ⊕ at 6) ⊕ at 16) ⋒ lit 15) λ branch. do
  when (branch == 7) do minor_20; pad 9 += rol (at 4) (lit 9); call major_17 (at 15)
  pad 2 ^= at 15 ⊟ lit 0xe09f62af
  when (branch == 15) do minor_31 (lit 0x7); pad 9 |= at 7 ⊕ lit 0x2a19119f; call major_4 (at 10)
  when (branch == 14) do pad 9 ^= lit 0x19b844e; pad 5 -= at 15; call major_18 seed_val
  pad 5 += at 8 ⊠ lit 0x49
  when (branch == 4)
      do pad 14 |= at 3 ⊕ lit 0x4345732; try_odd (pad 12) minor_8; call major_15 (at 19)
  when (branch == 1) do minor_27; minor_17; call major_3 (at 4)
  seed += choose (at 16 ⊲ 0x4dfe57f8) (at 16) (at 17)
  when (branch == 2) do
    pad 13 *= lit 0x7ae310dc
    pad 12 ^= at 15 ⊟ lit 0xf5cfde0
    call major_21 (at 11)
    pad 13 *= ror (at 3) (lit 5)
    minor_20
    call major_16 (at 10)
  pad 5 += at 6 ⊞ lit 0xd5c1b299
  when (branch == 10) do
    pad 19 ^= choose (my_cos (at 9)) (lit 0x57337b8) (at 14)
    pad 9 |= at 7 ⊕ lit 0x2a19119f
    call major_1 (at 10)
  when (branch == 12) do pad 16 += lit 0x203fdf50; minor_20; call major_14 (at 8)
  pad 1 += choose (my_sin seed_val) (lit 0xbabd3794) seed_val
  when (branch == 6) do pad 4 ^= lit 0xca8e79ab; pad 13 -= at 1; call major_6 (at 14)
  when (branch == 3) do
    pad 13 += choose (at 15 ⊲ 0x137bffeb) (at 15) (at 11)
    pad 2 ^= shl (at 15) 5
    call major_9 seed_val
  pad 3 |= choose (my_cos (at 3)) (lit 0xbabd3794) (at 17)
  when (branch == 9) do minor_17; pad 5 -= at 15; call major_2 seed_val
  when (branch == 13)
      do ror_eq (pad 4) (lit 0x2); pad 4 -= at 17 ⊕ lit 0x2217cf47; call major_17 seed_val
  seed ^= at 2 ⊠ lit 0xb25bcc4d
  when (branch == 11)
      do pad 19 += lit 0x12b9e29d ⊟ at 12; pad 7 &= at 13 ⊕ lit 0x21aaf758; call major_4 (at 17)
  when (branch == 0) do pad 12 ^= at 15 ⊟ lit 0xf5cfde0; minor_31 (lit 0x7); call major_18 seed_val
  pad 8 += lit 0xf1030e9c ⊟ at 12
  when (branch == 5)
      do pad 6 ^= lit 0xea99e155; pad 19 += lit 0x12b9e29d ⊟ at 12; call major_15 seed_val
  when (branch == 8) do pad 7 &= lit 0x710c48e8; pad 2 *= at 3 ⊞ lit 0xd6863a6; call major_3 (at 17)
  pad 15 += lit 0xa8f341c7 ⊟ at 1
  when (branch == 0)
      do pad 2 *= at 3 ⊞ lit 0xd6863a6; pad 3 -= at 0 ⊕ lit 0x185f3b0d; call major_21 seed_val
  when (branch == 1) do try_odd (pad 10) minor_3; pad 12 *= at 12; call major_16 (at 12)
  pad 6 *= at 5 ⊠ lit 0x1d

-- It stays inside the array.
pub major_5-SafeFlow : SafeFlow major_5
unfolding major_5
major_5-SafeFlow =
    search
      (
        minor_rules, major_1-SafeFlow, major_14-SafeFlow, major_15-SafeFlow, major_16-SafeFlow,
        major_17-SafeFlow, major_18-SafeFlow, major_2-SafeFlow, major_21-SafeFlow, major_3-SafeFlow,
        major_4-SafeFlow, major_6-SafeFlow, major_9-SafeFlow,
      )
      depth 500 fits 100000
