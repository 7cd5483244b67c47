-- ===== src/FastTrack/EncType80/Major21.antt =====
-- `major_21` of networks/fasttrack/enc_type_80.c.
use addnas_mldonkey.Base.{◌==◌}
use addnas_mldonkey.FastTrack.Mix.{pad, seed, at, seed_val, lit, ◌⊞◌, ◌⊟◌, ◌⊠◌, ◌⋒◌, ◌⊕◌}
use addnas_mldonkey.FastTrack.Flow.{
  Flow, my_cos, my_sqrt, choose, try_odd, switch, when, call, ◌⊲◌, ◌+=◌, ◌-=◌, ◌*=◌, ◌^=◌, ◌>>◌,
}
use addnas_mldonkey.FastTrack.Flow.Safe.{SafeFlow}
use addnas_mldonkey.FastTrack.EncType80.Minor.{
  minor_17, minor_18, minor_19, minor_20, minor_23, minor_28, minor_29, minor_3, minor_30, minor_31,
  minor_34, minor_35, minor_37, minor_38, minor_39, minor_4, minor_42, minor_43, minor_44, minor_47,
  minor_48, minor_55, minor_56, minor_58, minor_59, minor_6, minor_60, minor_63, minor_65, minor_67,
  minor_68, minor_69, minor_7, minor_70, minor_72, minor_73,
}
use addnas_mldonkey.FastTrack.EncType80.Minor.Safe.{minor_rules}
use addnas_mldonkey.FastTrack.EncType80.Major11.{major_11, major_11-SafeFlow}
use addnas_mldonkey.FastTrack.EncType80.Major12.{major_12, major_12-SafeFlow}
use addnas_mldonkey.FastTrack.EncType80.Major13.{major_13, major_13-SafeFlow}
use addnas_mldonkey.FastTrack.EncType80.Major14.{major_14, major_14-SafeFlow}
use addnas_mldonkey.FastTrack.EncType80.Major15.{major_15, major_15-SafeFlow}
use addnas_mldonkey.FastTrack.EncType80.Major17.{major_17, major_17-SafeFlow}
use addnas_mldonkey.FastTrack.EncType80.Major18.{major_18, major_18-SafeFlow}
use addnas_mldonkey.FastTrack.EncType80.Major19.{major_19, major_19-SafeFlow}
use addnas_mldonkey.FastTrack.EncType80.Major2.{major_2, major_2-SafeFlow}
use addnas_mldonkey.FastTrack.EncType80.Major3.{major_3, major_3-SafeFlow}
use addnas_mldonkey.FastTrack.EncType80.Major5.{major_5, major_5-SafeFlow}
use addnas_mldonkey.FastTrack.EncType80.Major8.{major_8, major_8-SafeFlow}

unfoldable pub major_21 : Flow
major_21 = switch (((at 15 ⊕ at 4) ⊕ at 19) ⋒ lit 0x0f) λ branch. do
  when (branch == 8) do minor_39; try_odd (pad 6) minor_17; call major_8 (at 12)
  pad 16 += lit 0x19deda30 ⊟ at 1
  when (branch == 2) do minor_58 (lit 0x7022d430); try_odd (pad 19) minor_3; call major_18 seed_val
  when (branch == 3) do minor_31; minor_58 (lit 0x7bb7cdf6); call major_12 seed_val
  seed -= choose (my_cos (at 10)) (lit 0x199972a0) seed_val
  when (branch == 4) do minor_30; minor_72 (lit 150); call major_5 seed_val
  when (branch == 9) do minor_59; try_odd (pad 15) minor_20; call major_15 (at 16)
  pad 16 *= my_sqrt (at 2)
  when (branch == 0x0e) do minor_56 (lit 0x103ec068); minor_42; call major_2 (at 8)
  when (branch == 5) do minor_48; minor_34; call major_11 (at 9)
  pad 18 -= my_sqrt (at 2)
  when (branch == 6) do minor_67 (lit 0x903b6f4); minor_37; call major_14 seed_val
  when (branch == 1) do minor_43; minor_73; call major_13 (at 13)
  seed += choose (at 8 ⊲ 0x2b940916) (at 8) seed_val
  when (branch == 3) do minor_55 (lit 0x22c0e0f0); try_odd (pad 15) minor_20; call major_19 seed_val
  when (branch == 2) do minor_29 (lit 48); try_odd (pad 3) minor_18; call major_17 (at 5)
  seed *= at 5 ⊞ lit 0x1d13557b
  when (branch == 0x0b)
      do try_odd (pad 7) (minor_6 (lit 0xf4f5adcc)); minor_70; call major_3 (at 17)
  when (branch == 0x0a) do minor_68; try_odd (pad 7) minor_4; call major_8 seed_val
  pad 0 -= my_sqrt seed_val
  when (branch == 0x0d) do minor_35; try_odd (pad 10) minor_7; call major_18 (at 17)
  when (branch == 0) do try_odd (pad 15) minor_20; try_odd (pad 6) minor_17; call major_12 (at 19)
  pad 18 += lit 0xffb953f8 ⊞ seed_val
  when (branch == 0x0f) do try_odd (pad 10) minor_7; minor_69; call major_5 seed_val
  when (branch == 1) do try_odd (pad 11) minor_19; minor_47; call major_15 (at 8)
  pad 3 ^= choose (my_cos seed_val) (lit 0xffb953f8) (at 4)
  when (branch == 7) do minor_30; minor_28; call major_2 (at 1)
  when (branch == 0) do minor_28; minor_70; call major_11 (at 8)
  pad 1 ^= at 3 ⊠ lit 0x620312f0
  when (branch == 0x0c) do minor_63; minor_65 (lit 211); call major_14 (at 12)
  pad 7 ^= my_sqrt (at 10)
  when (branch == 4) do minor_38; minor_60; call major_13 (at 4)
  when (branch == 5) do minor_44; minor_23; call major_19 seed_val
  pad 18 ^= at 14 ⊞ lit 0x9ad3708

-- It stays inside the array.
pub major_21-SafeFlow : SafeFlow major_21
unfolding major_21
major_21-SafeFlow =
    search
      (
        minor_rules, major_11-SafeFlow, major_12-SafeFlow, major_13-SafeFlow, major_14-SafeFlow,
        major_15-SafeFlow, major_17-SafeFlow, major_18-SafeFlow, major_19-SafeFlow,
        major_2-SafeFlow, major_3-SafeFlow, major_5-SafeFlow, major_8-SafeFlow,
      )
      depth 500 fits 100000
