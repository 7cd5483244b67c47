-- ===== src/FastTrack/EncType80/Major0.antt =====
-- `major_0` of networks/fasttrack/enc_type_80.c.
use addnas_mldonkey.Base.{◌==◌}
use addnas_mldonkey.FastTrack.Mix.{pad, seed, at, seed_val, lit, ror, rol, ◌⊞◌, ◌⊟◌, ◌⊠◌, ◌⋒◌, ◌⊕◌}
use addnas_mldonkey.FastTrack.Flow.{
  Flow, choose, shl, try_odd, switch, when, call, ◌⊲◌, ◌+=◌, ◌-=◌, ◌&=◌, ◌|=◌, ◌^=◌, ◌>>◌,
}
use addnas_mldonkey.FastTrack.Flow.Safe.{SafeFlow}
use addnas_mldonkey.FastTrack.EncType80.Minor.{
  minor_10, minor_11, minor_12, minor_15, minor_16, minor_20, minor_21, minor_24, minor_25,
  minor_26, minor_27, minor_28, minor_29, minor_3, minor_30, minor_33, minor_34, minor_35, minor_37,
  minor_38, minor_41, minor_42, minor_43, minor_46, minor_48, minor_49, minor_50, minor_56,
  minor_62, minor_65, minor_67, minor_70, minor_72, minor_73, minor_8,
}
use addnas_mldonkey.FastTrack.EncType80.Minor.Safe.{minor_rules}
use addnas_mldonkey.FastTrack.EncType80.Major11.{major_11, major_11-SafeFlow}
use addnas_mldonkey.FastTrack.EncType80.Major12.{major_12, major_12-SafeFlow}
use addnas_mldonkey.FastTrack.EncType80.Major13.{major_13, major_13-SafeFlow}
use addnas_mldonkey.FastTrack.EncType80.Major14.{major_14, major_14-SafeFlow}
use addnas_mldonkey.FastTrack.EncType80.Major15.{major_15, major_15-SafeFlow}
use addnas_mldonkey.FastTrack.EncType80.Major17.{major_17, major_17-SafeFlow}
use addnas_mldonkey.FastTrack.EncType80.Major19.{major_19, major_19-SafeFlow}
use addnas_mldonkey.FastTrack.EncType80.Major2.{major_2, major_2-SafeFlow}
use addnas_mldonkey.FastTrack.EncType80.Major21.{major_21, major_21-SafeFlow}
use addnas_mldonkey.FastTrack.EncType80.Major3.{major_3, major_3-SafeFlow}
use addnas_mldonkey.FastTrack.EncType80.Major5.{major_5, major_5-SafeFlow}
use addnas_mldonkey.FastTrack.EncType80.Major9.{major_9, major_9-SafeFlow}

unfoldable pub major_0 : Flow
major_0 = switch (((at 7 ⊕ at 11) ⊕ at 18) ⋒ lit 0x0f) λ branch. do
  when (branch == 0x0e) do minor_33 (lit 0xc13e99ce); minor_34; call major_12 seed_val
  when (branch == 9) do minor_41; minor_70; call major_5 (at 7)
  pad 11 += lit 0 ⊟ (shl (at 18 ⊠ lit 5) 4 ⊟ at 18)
  when (branch == 0x0c) do minor_43; minor_27; call major_15 (at 2)
  when (branch == 3) do minor_29 (lit 168); try_odd (pad 15) minor_20; call major_2 (at 7)
  when (branch == 0x0b) do minor_70; minor_35; call major_11 (at 17)
  pad 19 ^= ror (at 12) (lit 0x1d)
  when (branch == 4) do try_odd (pad 0) minor_8; minor_37; call major_14 (at 1)
  when (branch == 2) do try_odd (pad 2) minor_16; try_odd (pad 14) minor_21; call major_13 (at 2)
  seed ^= at 14 ⊟ lit 0x12821
  when (branch == 4) do minor_33 (lit 0x628d876); minor_42; call major_19 seed_val
  when (branch == 1) do try_odd (pad 11) minor_12; minor_28; call major_17 seed_val
  when (branch == 0) do minor_48; minor_62; call major_3 (at 11)
  pad 4 |= lit 0x472ca7 ⊕ at 4
  when (branch == 0x0d) do minor_46; try_odd (pad 11) minor_12; call major_21 (at 13)
  when (branch == 0x0f) do minor_73; minor_43; call major_9 (at 13)
  pad 13 -= choose (at 16 ⊲ 0x97cba53) (at 16) seed_val
  when (branch == 2) do minor_24; try_odd (pad 13) (minor_10 (lit 22)); call major_12 (at 17)
  when (branch == 6) do try_odd (pad 15) minor_20; try_odd (pad 19) minor_3; call major_5 (at 15)
  when (branch == 7) do minor_72 (lit 107); minor_50; call major_15 (at 8)
  pad 10 ^= shl (shl (at 2) 5 ⊟ at 2) 1
  when (branch == 6) do try_odd (pad 7) (minor_11 (lit 0x3f675c4e)); minor_41; call major_2 (at 16)
  when (branch == 5) do minor_49; minor_56 (lit 0x87c73f); call major_11 (at 15)
  pad 13 &= at 9 ⊕ lit 0x473fe6
  when (branch == 7) do minor_62; minor_26; call major_14 seed_val
  when (branch == 1) do try_odd (pad 19) minor_3; try_odd (pad 6) minor_15; call major_13 (at 5)
  when (branch == 0) do minor_25; minor_30; call major_19 (at 17)
  pad 1 -= rol (at 7) (lit 0xc)
  when (branch == 8) do minor_65 (lit 169); minor_27; call major_17 (at 2)
  when (branch == 0x0a) do minor_67 (lit 0xf611cb26); minor_29 (lit 4); call major_3 (at 13)
  pad 10 -= choose (at 0 ⊲ 0x6c6c) (at 0) (at 5)
  when (branch == 3) do minor_33 (lit 0x58efea36); minor_49; call major_21 (at 0)
  when (branch == 5) do minor_27; minor_38; call major_9 (at 16)
  pad 5 += (shl seed_val 5 ⊞ seed_val) ⊠ lit 3

-- It stays inside the array.
pub major_0-SafeFlow : SafeFlow major_0
unfolding major_0
major_0-SafeFlow =
    search
      (
        minor_rules, major_11-SafeFlow, major_12-SafeFlow, major_13-SafeFlow, major_14-SafeFlow,
        major_15-SafeFlow, major_17-SafeFlow, major_19-SafeFlow, major_2-SafeFlow,
        major_21-SafeFlow, major_3-SafeFlow, major_5-SafeFlow, major_9-SafeFlow,
      )
      depth 500 fits 100000
