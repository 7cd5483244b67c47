-- ===== src/FastTrack/EncType80/Major14.antt =====
-- `major_14` of networks/fasttrack/enc_type_80.c.
use addnas_mldonkey.Base.{◌==◌}
use addnas_mldonkey.FastTrack.Mix.{pad, seed, at, seed_val, lit, rol, ◌⊞◌, ◌⊟◌, ◌⊠◌, ◌⋒◌, ◌⊕◌}
use addnas_mldonkey.FastTrack.Flow.{
  Flow, my_sqrt, choose, shl, try_odd, switch, when, call, ◌⊲◌, ◌+=◌, ◌-=◌, ◌|=◌, ◌^=◌, ◌>>◌,
}
use addnas_mldonkey.FastTrack.Flow.Safe.{SafeFlow}
use addnas_mldonkey.FastTrack.EncType80.Minor.{
  minor_10, minor_11, minor_14, minor_16, minor_21, minor_23, minor_25, minor_26, minor_29,
  minor_33, minor_38, minor_4, minor_42, minor_43, minor_44, minor_48, minor_5, minor_53, minor_57,
  minor_58, minor_6, minor_62, minor_67, minor_69,
}
use addnas_mldonkey.FastTrack.EncType80.Minor.Safe.{minor_rules}
use addnas_mldonkey.FastTrack.EncType80.Major1.{major_1, major_1-SafeFlow}
use addnas_mldonkey.FastTrack.EncType80.Major11.{major_11, major_11-SafeFlow}
use addnas_mldonkey.FastTrack.EncType80.Major12.{major_12, major_12-SafeFlow}
use addnas_mldonkey.FastTrack.EncType80.Major15.{major_15, major_15-SafeFlow}
use addnas_mldonkey.FastTrack.EncType80.Major16.{major_16, major_16-SafeFlow}
use addnas_mldonkey.FastTrack.EncType80.Major18.{major_18, major_18-SafeFlow}
use addnas_mldonkey.FastTrack.EncType80.Major2.{major_2, major_2-SafeFlow}
use addnas_mldonkey.FastTrack.EncType80.Major4.{major_4, major_4-SafeFlow}
use addnas_mldonkey.FastTrack.EncType80.Major5.{major_5, major_5-SafeFlow}
use addnas_mldonkey.FastTrack.EncType80.Major6.{major_6, major_6-SafeFlow}
use addnas_mldonkey.FastTrack.EncType80.Major7.{major_7, major_7-SafeFlow}
use addnas_mldonkey.FastTrack.EncType80.Major8.{major_8, major_8-SafeFlow}

unfoldable pub major_14 : Flow
major_14 = switch (((at 12 ⊕ at 2) ⊕ at 19) ⋒ lit 0x0f) λ branch. do
  when (branch == 0x0f) do try_odd (pad 4) minor_5; minor_26; call major_6 (at 19)
  pad 3 += shl (seed_val ⊠ lit 3) 4 ⊞ seed_val
  when (branch == 9) do try_odd (pad 7) (minor_11 (lit 0x73324afc)); minor_69; call major_1 seed_val
  when (branch == 3) do minor_53; minor_44; call major_4 seed_val
  pad 9 -= at 2 ⋒ lit 0x8742c2
  when (branch == 6) do try_odd (pad 14) minor_21; minor_67 (lit 0xe37df00a); call major_16 seed_val
  seed ^= choose (at 6 ⊲ 0x4c2ac4) (at 6) (at 5)
  when (branch == 0x0c) do minor_58 (lit 0xf8e7cbf0); minor_48; call major_7 seed_val
  when (branch == 0x0e) do minor_57 (lit 0xbe02f6b0); minor_69; call major_8 seed_val
  pad 8 ^= my_sqrt (at 17)
  when (branch == 4) do try_odd (pad 7) (minor_6 (lit 0xcad836af)); minor_25; call major_18 (at 16)
  pad 1 += lit 0x904f9e8d ⊟ at 5
  when (branch == 2) do try_odd (pad 4) minor_5; try_odd (pad 3) minor_14; call major_12 (at 2)
  when (branch == 0) do minor_33 (lit 0xa29c6a97); minor_38; call major_5 (at 17)
  pad 5 += at 6 ⊟ lit 0x49781f
  when (branch == 5) do try_odd (pad 7) minor_4; minor_62; call major_15 (at 8)
  when (branch == 0x0d)
      do minor_43; try_odd (pad 7) (minor_11 (lit 0x9c1ee61f)); call major_2 seed_val
  pad 0 ^= at 6 ⊞ lit 0x356dcf35
  when (branch == 1) do try_odd (pad 3) minor_14; minor_29 (lit 96); call major_11 (at 0)
  pad 8 ^= rol (at 8) (lit 0x1d)
  when (branch == 0x0b) do minor_62; minor_26; call major_6 (at 9)
  when (branch == 8) do minor_42; minor_33 (lit 0x78bca04e); call major_1 seed_val
  pad 19 |= at 4 ⊠ lit 73
  when (branch == 0x0a) do minor_26; try_odd (pad 4) minor_5; call major_4 (at 2)
  pad 11 += lit 0xb888d ⊟ at 10
  when (branch == 7) do minor_23; minor_26; call major_16 seed_val
  when (branch == 0)
      do try_odd (pad 2) minor_16; try_odd (pad 13) (minor_10 (lit 22)); call major_7 (at 19)
  pad 17 ^= shl (at 3 ⊠ lit 5) 3

-- It stays inside the array.
pub major_14-SafeFlow : SafeFlow major_14
unfolding major_14
major_14-SafeFlow =
    search
      (
        minor_rules, major_1-SafeFlow, major_11-SafeFlow, major_12-SafeFlow, major_15-SafeFlow,
        major_16-SafeFlow, major_18-SafeFlow, major_2-SafeFlow, major_4-SafeFlow, major_5-SafeFlow,
        major_6-SafeFlow, major_7-SafeFlow, major_8-SafeFlow,
      )
      depth 500 fits 100000
