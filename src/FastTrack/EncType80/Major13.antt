-- ===== src/FastTrack/EncType80/Major13.antt =====
-- `major_13` of networks/fasttrack/enc_type_80.c.
use addnas_mldonkey.Base.{◌==◌}
use addnas_mldonkey.FastTrack.Mix.{pad, at, seed_val, lit, ror, rol, ◌⊞◌, ◌⊟◌, ◌⊠◌, ◌⋒◌, ◌⊕◌, ◌⋓◌}
use addnas_mldonkey.FastTrack.Flow.{
  Flow, my_cos, my_sin, choose, shl, try_odd, switch, when, call, ◌≔◌, ◌+=◌, ◌-=◌, ◌^=◌, ◌>>◌,
}
use addnas_mldonkey.FastTrack.Flow.Safe.{SafeFlow}
use addnas_mldonkey.FastTrack.EncType80.Minor.{
  minor_12, minor_13, minor_15, minor_17, minor_18, minor_19, minor_29, minor_33, minor_35,
  minor_39, minor_41, minor_42, minor_43, minor_45, minor_5, minor_51, minor_56, minor_58, minor_6,
  minor_63, minor_64, minor_66, minor_68, minor_69, minor_7, minor_70,
}
use addnas_mldonkey.FastTrack.EncType80.Minor.Safe.{minor_rules}
use addnas_mldonkey.FastTrack.EncType80.Major1.{major_1, major_1-SafeFlow}
use addnas_mldonkey.FastTrack.EncType80.Major11.{major_11, major_11-SafeFlow}
use addnas_mldonkey.FastTrack.EncType80.Major12.{major_12, major_12-SafeFlow}
use addnas_mldonkey.FastTrack.EncType80.Major14.{major_14, major_14-SafeFlow}
use addnas_mldonkey.FastTrack.EncType80.Major15.{major_15, major_15-SafeFlow}
use addnas_mldonkey.FastTrack.EncType80.Major16.{major_16, major_16-SafeFlow}
use addnas_mldonkey.FastTrack.EncType80.Major18.{major_18, major_18-SafeFlow}
use addnas_mldonkey.FastTrack.EncType80.Major2.{major_2, major_2-SafeFlow}
use addnas_mldonkey.FastTrack.EncType80.Major4.{major_4, major_4-SafeFlow}
use addnas_mldonkey.FastTrack.EncType80.Major5.{major_5, major_5-SafeFlow}
use addnas_mldonkey.FastTrack.EncType80.Major7.{major_7, major_7-SafeFlow}
use addnas_mldonkey.FastTrack.EncType80.Major8.{major_8, major_8-SafeFlow}

unfoldable pub major_13 : Flow
major_13 = switch (((at 1 ⊕ at 16) ⊕ at 18) ⋒ lit 0x0f) λ branch. do
  when (branch == 1) do minor_68; minor_29 (lit 20); call major_1 (at 3)
  pad 5 += lit 0x37c9c771 ⊟ at 18
  when (branch == 0) do minor_69; minor_39; call major_4 (at 1)
  when (branch == 8) do minor_66; try_odd (pad 6) minor_17; call major_16 (at 7)
  pad 0 -= choose (my_sin seed_val) (lit 0xe2d0d9) seed_val
  when (branch == 7) do minor_58 (lit 0xf6f6309c); try_odd (pad 3) minor_18; call major_7 (at 0)
  when (branch == 6) do minor_41; try_odd (pad 10) minor_7; call major_8 (at 0)
  pad 11 ≔ ror (at 11) (choose (my_cos seed_val) (lit 0xf1085c5) (at 11))
  when (branch == 1) do minor_29 (lit 156); minor_56 (lit 0x2cda662b); call major_18 (at 3)
  when (branch == 0x0f) do try_odd (pad 3) minor_18; minor_43; call major_12 (at 18)
  pad 17 -= rol (at 11) (lit 0x18)
  when (branch == 2) do minor_70; minor_64; call major_5 (at 17)
  when (branch == 9) do minor_70; minor_63; call major_15 seed_val
  when (branch == 0x0a) do minor_70; minor_58 (lit 0xe6e37dd2); call major_2 (at 5)
  when (branch == 0x0e) do try_odd (pad 4) minor_5; minor_42; call major_11 (at 0)
  when (branch == 0x0c) do try_odd (pad 11) minor_12; minor_41; call major_14 (at 18)
  when (branch == 3) do minor_43; minor_33 (lit 0xa5ffc324); call major_1 (at 12)
  pad 14 ^= at 4 ⋓ lit 0xc893a6
  when (branch == 0x0b) do minor_45; minor_33 (lit 0x477431cd); call major_4 (at 12)
  when (branch == 0) do
    try_odd (pad 5) (minor_13 (lit 0x398c59e0))
    try_odd (pad 6) minor_15
    call major_16 (at 15)
  pad 19 ^= choose (my_cos (at 14)) (lit 0x4d552e) (at 10)
  when (branch == 0x0d) do minor_35; minor_51 (lit 18); call major_7 (at 2)
  pad 13 ≔ shl (at 13 ⊠ lit 27) 1 ⊟ at 13
  when (branch == 4)
      do try_odd (pad 7) (minor_6 (lit 0xd48681ae)); minor_51 (lit 18); call major_8 (at 6)
  when (branch == 5) do try_odd (pad 11) minor_19; minor_29 (lit 88); call major_18 (at 16)
  pad 8 ^= at 10 ⊞ lit 0x4d757e

-- It stays inside the array.
pub major_13-SafeFlow : SafeFlow major_13
unfolding major_13
major_13-SafeFlow =
    search
      (
        minor_rules, major_1-SafeFlow, major_11-SafeFlow, major_12-SafeFlow, major_14-SafeFlow,
        major_15-SafeFlow, major_16-SafeFlow, major_18-SafeFlow, major_2-SafeFlow, major_4-SafeFlow,
        major_5-SafeFlow, major_7-SafeFlow, major_8-SafeFlow,
      )
      depth 500 fits 100000
