-- ===== src/FastTrack/EncType80/Major11.antt =====
-- `major_11` of networks/fasttrack/enc_type_80.c.
use addnas_mldonkey.Base.{◌==◌}
use addnas_mldonkey.FastTrack.Mix.{pad, seed, at, seed_val, lit, ror, ◌⊞◌, ◌⋒◌, ◌⊕◌, ◌⊘◌}
use addnas_mldonkey.FastTrack.Flow.{
  Flow, my_cos, my_sin, choose, try_odd, switch, when, call, ◌≔◌, ◌+=◌, ◌-=◌, ◌*=◌, ◌|=◌, ◌^=◌,
  ◌>>◌,
}
use addnas_mldonkey.FastTrack.Flow.Safe.{SafeFlow}
use addnas_mldonkey.FastTrack.EncType80.Minor.{
  minor_10, minor_12, minor_15, minor_23, minor_24, minor_25, minor_26, minor_31, minor_38, minor_4,
  minor_41, minor_44, minor_46, minor_48, minor_49, minor_5, minor_52, minor_53, minor_60, minor_66,
  minor_67, minor_70,
}
use addnas_mldonkey.FastTrack.EncType80.Minor.Safe.{minor_rules}
use addnas_mldonkey.FastTrack.EncType80.Major1.{major_1, major_1-SafeFlow}
use addnas_mldonkey.FastTrack.EncType80.Major12.{major_12, major_12-SafeFlow}
use addnas_mldonkey.FastTrack.EncType80.Major15.{major_15, major_15-SafeFlow}
use addnas_mldonkey.FastTrack.EncType80.Major16.{major_16, major_16-SafeFlow}
use addnas_mldonkey.FastTrack.EncType80.Major18.{major_18, major_18-SafeFlow}
use addnas_mldonkey.FastTrack.EncType80.Major2.{major_2, major_2-SafeFlow}
use addnas_mldonkey.FastTrack.EncType80.Major20.{major_20, major_20-SafeFlow}
use addnas_mldonkey.FastTrack.EncType80.Major4.{major_4, major_4-SafeFlow}
use addnas_mldonkey.FastTrack.EncType80.Major5.{major_5, major_5-SafeFlow}
use addnas_mldonkey.FastTrack.EncType80.Major6.{major_6, major_6-SafeFlow}
use addnas_mldonkey.FastTrack.EncType80.Major7.{major_7, major_7-SafeFlow}
use addnas_mldonkey.FastTrack.EncType80.Major8.{major_8, major_8-SafeFlow}

unfoldable pub major_11 : Flow
major_11 = switch (at 14 ⊘ 0x0f) λ branch. do
  when (branch == 0x0a) do minor_60; minor_49; call major_20 (at 19)
  pad 11 ≔ ror (at 11) (lit 0xa938539 ⋒ at 5)
  when (branch == 3) do minor_53; try_odd (pad 13) (minor_10 (lit 24)); call major_6 seed_val
  when (branch == 0) do minor_70; try_odd (pad 6) minor_15; call major_1 (at 12)
  pad 7 *= choose (my_cos (at 4)) (lit 0xa45b84a) (at 13)
  when (branch == 4) do try_odd (pad 7) minor_4; minor_44; call major_4 (at 0)
  seed |= choose (my_sin seed_val) (lit 0xae00950) (at 10)
  when (branch == 0x0d) do try_odd (pad 13) (minor_10 (lit 12)); minor_66; call major_16 (at 7)
  when (branch == 0) do minor_23; minor_70; call major_7 seed_val
  pad 15 += at 13 ⊞ lit 0x519a438a
  when (branch == 1) do try_odd (pad 11) minor_12; minor_41; call major_8 (at 4)
  when (branch == 2) do minor_23; minor_46; call major_18 (at 15)
  pad 9 -= choose (my_cos seed_val) (lit 0xaa60c04) (at 15)
  when (branch == 0x0c) do minor_26; minor_24; call major_12 (at 7)
  when (branch == 5) do try_odd (pad 11) minor_12; minor_53; call major_5 (at 15)
  pad 8 += ror (at 19) (lit 0x4)
  when (branch == 0x0b) do minor_31; minor_38; call major_15 (at 4)
  pad 7 -= choose (my_sin (at 5)) (lit 0xaf6039c) (at 12)
  when (branch == 6) do minor_70; minor_67 (lit 0xb27f04f); call major_2 seed_val
  when (branch == 0x0e) do minor_48; try_odd (pad 4) minor_5; call major_20 seed_val
  pad 5 *= choose (my_cos seed_val) (lit 0x5df8323) seed_val
  when (branch == 8) do minor_52 (lit 0xbfb3dfcf); minor_24; call major_6 seed_val
  when (branch == 9) do minor_53; minor_46; call major_1 (at 14)
  pad 7 ^= at 15 ⊕ lit 0x460390
  when (branch == 7) do minor_25; minor_44; call major_4 seed_val
  pad 19 ≔ lit 0

-- It stays inside the array.
pub major_11-SafeFlow : SafeFlow major_11
unfolding major_11
major_11-SafeFlow =
    search
      (
        minor_rules, major_1-SafeFlow, major_12-SafeFlow, major_15-SafeFlow, major_16-SafeFlow,
        major_18-SafeFlow, major_2-SafeFlow, major_20-SafeFlow, major_4-SafeFlow, major_5-SafeFlow,
        major_6-SafeFlow, major_7-SafeFlow, major_8-SafeFlow,
      )
      depth 500 fits 100000
