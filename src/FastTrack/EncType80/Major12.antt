-- ===== src/FastTrack/EncType80/Major12.antt =====
-- `major_12` of networks/fasttrack/enc_type_80.c.
use addnas_mldonkey.Base.{◌==◌}
use addnas_mldonkey.FastTrack.Mix.{pad, at, seed_val, lit, rol, ◌⊠◌, ◌⊕◌, ◌⊘◌}
use addnas_mldonkey.FastTrack.Flow.{
  Flow, my_cos, choose, try_odd, switch, when, call, ◌⊲◌, ◌≔◌, ◌+=◌, ◌-=◌, ◌*=◌, ◌&=◌, ◌^=◌, ◌>>◌,
}
use addnas_mldonkey.FastTrack.Flow.Safe.{SafeFlow}
use addnas_mldonkey.FastTrack.EncType80.Minor.{
  minor_13, minor_16, minor_18, minor_23, minor_25, minor_28, minor_29, minor_32, minor_34,
  minor_37, minor_39, minor_42, minor_45, minor_47, minor_48, minor_54, minor_59, minor_62,
  minor_65, minor_67, minor_70, minor_73,
}
use addnas_mldonkey.FastTrack.EncType80.Minor.Safe.{minor_rules}
use addnas_mldonkey.FastTrack.EncType80.Major1.{major_1, major_1-SafeFlow}
use addnas_mldonkey.FastTrack.EncType80.Major10.{major_10, major_10-SafeFlow}
use addnas_mldonkey.FastTrack.EncType80.Major16.{major_16, major_16-SafeFlow}
use addnas_mldonkey.FastTrack.EncType80.Major18.{major_18, major_18-SafeFlow}
use addnas_mldonkey.FastTrack.EncType80.Major20.{major_20, major_20-SafeFlow}
use addnas_mldonkey.FastTrack.EncType80.Major4.{major_4, major_4-SafeFlow}
use addnas_mldonkey.FastTrack.EncType80.Major6.{major_6, major_6-SafeFlow}
use addnas_mldonkey.FastTrack.EncType80.Major7.{major_7, major_7-SafeFlow}
use addnas_mldonkey.FastTrack.EncType80.Major8.{major_8, major_8-SafeFlow}
use addnas_mldonkey.FastTrack.EncType80.Minor74.{minor_74, minor_74-SafeFlow}
use addnas_mldonkey.FastTrack.EncType80.Minor75.{minor_75, minor_75-SafeFlow}

unfoldable pub major_12 : Flow
major_12 = switch (at 15 ⊘ 0x0b) λ branch. do
  when (branch == 5) do try_odd (pad 2) minor_16; minor_62; call minor_75 (lit 0)
  pad 4 -= choose (my_cos (at 14)) (lit 0x76f737a3) seed_val
  when (branch == 0x0a) do minor_42; minor_65 (lit 186); call minor_74 seed_val
  pad 3 &= at 10 ⊕ lit 0x20773f85
  when (branch == 4) do minor_47; minor_28; call major_10 (at 14)
  pad 12 ≔ rol (at 12) (at 7 ⊠ lit 91)
  when (branch == 9) do minor_37; minor_73; call major_20 seed_val
  when (branch == 2) do minor_67 (lit 0xe8b01b9b); minor_54; call major_6 (at 8)
  pad 3 += rol (at 11) (lit 0x1d)
  when (branch == 6) do minor_70; minor_23; call major_1 (at 0)
  when (branch == 8) do minor_29 (lit 60); minor_34; call major_4 (at 12)
  pad 9 *= choose (at 0 ⊲ 0xed7837) (at 0) (at 15)
  when (branch == 3) do try_odd (pad 5) (minor_13 (lit 0x19068e93)); minor_25; call major_16 (at 15)
  when (branch == 0) do minor_37; minor_45; call major_7 (at 0)
  pad 16 ^= at 6 ⊕ lit 0x28aa2736
  when (branch == 1) do minor_59; minor_37; call major_8 (at 2)
  when (branch == 0) do try_odd (pad 3) minor_18; minor_48; call major_18 (at 6)
  pad 2 ^= at 19 ⊠ lit 101
  when (branch == 7) do minor_32 (lit 0x2a4f7758); minor_39; call minor_75 (lit 0)
  pad 0 &= choose (my_cos (at 0)) (lit 0xfff2b634) (at 5)

-- It stays inside the array.
pub major_12-SafeFlow : SafeFlow major_12
unfolding major_12
major_12-SafeFlow =
    search
      (
        minor_rules, major_1-SafeFlow, major_10-SafeFlow, major_16-SafeFlow, major_18-SafeFlow,
        major_20-SafeFlow, major_4-SafeFlow, major_6-SafeFlow, major_7-SafeFlow, major_8-SafeFlow,
        minor_74-SafeFlow, minor_75-SafeFlow,
      )
      depth 500 fits 100000
