-- ===== src/FastTrack/EncType80/Major2.antt =====
-- `major_2` of networks/fasttrack/enc_type_80.c.
use addnas_mldonkey.Base.{◌==◌}
use addnas_mldonkey.FastTrack.Mix.{pad, at, seed_val, lit, rol, ◌⊞◌, ◌⊟◌, ◌⊠◌, ◌⋒◌, ◌⊕◌, ◌⋓◌, ◌⊘◌}
use addnas_mldonkey.FastTrack.Flow.{
  Flow, choose, shl, try_odd, switch, when, call, ◌⊲◌, ◌≔◌, ◌+=◌, ◌*=◌, ◌&=◌, ◌^=◌, ◌>>◌,
}
use addnas_mldonkey.FastTrack.Flow.Safe.{SafeFlow}
use addnas_mldonkey.FastTrack.EncType80.Minor.{
  minor_12, minor_13, minor_14, minor_16, minor_19, minor_20, minor_28, minor_35, minor_36,
  minor_39, minor_40, minor_41, minor_46, minor_51, minor_53, minor_54, minor_55, minor_58,
  minor_59, minor_6, minor_60, minor_61, minor_62, minor_68, minor_69, minor_7, minor_70, minor_73,
}
use addnas_mldonkey.FastTrack.EncType80.Minor.Safe.{minor_rules}
use addnas_mldonkey.FastTrack.EncType80.Major1.{major_1, major_1-SafeFlow}
use addnas_mldonkey.FastTrack.EncType80.Major10.{major_10, major_10-SafeFlow}
use addnas_mldonkey.FastTrack.EncType80.Major12.{major_12, major_12-SafeFlow}
use addnas_mldonkey.FastTrack.EncType80.Major15.{major_15, major_15-SafeFlow}
use addnas_mldonkey.FastTrack.EncType80.Major16.{major_16, major_16-SafeFlow}
use addnas_mldonkey.FastTrack.EncType80.Major18.{major_18, major_18-SafeFlow}
use addnas_mldonkey.FastTrack.EncType80.Major20.{major_20, major_20-SafeFlow}
use addnas_mldonkey.FastTrack.EncType80.Major4.{major_4, major_4-SafeFlow}
use addnas_mldonkey.FastTrack.EncType80.Major5.{major_5, major_5-SafeFlow}
use addnas_mldonkey.FastTrack.EncType80.Major6.{major_6, major_6-SafeFlow}
use addnas_mldonkey.FastTrack.EncType80.Major7.{major_7, major_7-SafeFlow}
use addnas_mldonkey.FastTrack.EncType80.Major8.{major_8, major_8-SafeFlow}

unfoldable pub major_2 : Flow
major_2 = switch (((at 10 ⊕ at 0) ⊕ at 13) ⊘ 0x0e) λ branch. do
  when (branch == 3) do try_odd (pad 2) minor_16; minor_46; call major_10 (at 10)
  pad 19 ≔ rol (at 19) (seed_val ⊠ lit 41)
  when (branch == 0x0d) do try_odd (pad 15) minor_20; minor_35; call major_20 seed_val
  when (branch == 2) do minor_36; minor_73; call major_6 (at 1)
  pad 12 &= seed_val ⋒ lit 0x162e075d
  when (branch == 0) do minor_62; minor_51 (lit 11); call major_1 (at 3)
  pad 7 += lit 0xc0cf1e75 ⊟ at 18
  when (branch == 0) do minor_60; minor_55 (lit 0x5952d3f0); call major_4 (at 13)
  when (branch == 0x0b) do try_odd (pad 3) minor_14; minor_70; call major_16 seed_val
  pad 10 *= seed_val ⊞ lit 0x15a0944d
  when (branch == 7) do minor_54; try_odd (pad 7) (minor_6 (lit 0xe636d969)); call major_7 (at 14)
  pad 13 += at 0 ⊟ lit 0x3b1c8fb8
  when (branch == 8) do minor_59; minor_53; call major_8 (at 5)
  when (branch == 6) do try_odd (pad 5) (minor_13 (lit 0x34472a0d)); minor_61; call major_18 (at 1)
  pad 18 *= choose (at 2 ⊲ 0xf9b0fae) (at 2) (at 19)
  when (branch == 0x0c) do
    try_odd (pad 7) (minor_6 (lit 0xdf3d4cfc))
    try_odd (pad 11) minor_19
    call major_12 seed_val
  pad 1 += shl (shl (at 5 ⊠ lit 3) 3 ⊟ at 5) 1
  when (branch == 1) do minor_68; minor_58 (lit 0xf586317c); call major_5 (at 17)
  when (branch == 4) do minor_68; minor_69; call major_15 seed_val
  pad 11 ^= lit 0xffb29fb8 ⋓ at 13
  when (branch == 0x0a) do try_odd (pad 11) minor_12; minor_40; call major_10 (at 11)
  pad 13 ^= seed_val ⊕ lit 0x265916c9
  when (branch == 5) do minor_39; try_odd (pad 10) minor_7; call major_20 (at 11)
  when (branch == 9) do minor_41; minor_28; call major_6 (at 1)
  pad 2 *= at 5 ⊠ lit 105

-- It stays inside the array.
pub major_2-SafeFlow : SafeFlow major_2
unfolding major_2
major_2-SafeFlow =
    search
      (
        minor_rules, major_1-SafeFlow, major_10-SafeFlow, major_12-SafeFlow, major_15-SafeFlow,
        major_16-SafeFlow, major_18-SafeFlow, major_20-SafeFlow, major_4-SafeFlow, major_5-SafeFlow,
        major_6-SafeFlow, major_7-SafeFlow, major_8-SafeFlow,
      )
      depth 500 fits 100000
