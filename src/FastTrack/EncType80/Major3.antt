-- ===== src/FastTrack/EncType80/Major3.antt =====
-- `major_3` of networks/fasttrack/enc_type_80.c.
use addnas_mldonkey.Base.{◌==◌}
use addnas_mldonkey.FastTrack.Mix.{pad, seed, at, seed_val, lit, ◌⊟◌, ◌⊠◌, ◌⋒◌, ◌⊕◌, ◌⋓◌}
use addnas_mldonkey.FastTrack.Flow.{
  Flow, my_cos, choose, shl, neg, try_odd, switch, when, call, ◌+=◌, ◌-=◌, ◌*=◌, ◌^=◌, ◌>>◌,
}
use addnas_mldonkey.FastTrack.Flow.Safe.{SafeFlow}
use addnas_mldonkey.FastTrack.EncType80.Minor.{
  minor_10, minor_11, minor_13, minor_16, minor_17, minor_23, minor_28, minor_3, minor_30, minor_31,
  minor_35, minor_39, minor_41, minor_42, minor_43, minor_44, minor_45, minor_46, minor_47,
  minor_49, minor_5, minor_51, minor_52, minor_54, minor_55, minor_56, minor_57, minor_60, minor_68,
  minor_69, minor_72, minor_8,
}
use addnas_mldonkey.FastTrack.EncType80.Minor.Safe.{minor_rules}
use addnas_mldonkey.FastTrack.EncType80.Major11.{major_11, major_11-SafeFlow}
use addnas_mldonkey.FastTrack.EncType80.Major12.{major_12, major_12-SafeFlow}
use addnas_mldonkey.FastTrack.EncType80.Major13.{major_13, major_13-SafeFlow}
use addnas_mldonkey.FastTrack.EncType80.Major14.{major_14, major_14-SafeFlow}
use addnas_mldonkey.FastTrack.EncType80.Major15.{major_15, major_15-SafeFlow}
use addnas_mldonkey.FastTrack.EncType80.Major17.{major_17, major_17-SafeFlow}
use addnas_mldonkey.FastTrack.EncType80.Major18.{major_18, major_18-SafeFlow}
use addnas_mldonkey.FastTrack.EncType80.Major19.{major_19, major_19-SafeFlow}
use addnas_mldonkey.FastTrack.EncType80.Major2.{major_2, major_2-SafeFlow}
use addnas_mldonkey.FastTrack.EncType80.Major5.{major_5, major_5-SafeFlow}
use addnas_mldonkey.FastTrack.EncType80.Major7.{major_7, major_7-SafeFlow}
use addnas_mldonkey.FastTrack.EncType80.Major8.{major_8, major_8-SafeFlow}

unfoldable pub major_3 : Flow
major_3 = switch (((at 3 ⊕ at 14) ⊕ seed_val) ⋒ lit 0x0f) λ branch. do
  when (branch == 0x0c) do minor_46; minor_72 (lit 75); call major_7 seed_val
  when (branch == 4) do minor_23; minor_47; call major_8 (at 19)
  seed -= at 5 ⊠ lit 18
  when (branch == 8)
      do try_odd (pad 7) (minor_11 (lit 0x890edab4)); minor_31; call major_18 seed_val
  when (branch == 0x0e) do minor_46; minor_41; call major_12 (at 4)
  pad 19 ^= lit 0xbd8b55f ⊕ at 11
  when (branch == 0x0b)
      do minor_56 (lit 0x20aa3abd); try_odd (pad 5) (minor_13 (lit 0x5d894d2)); call major_5 (at 17)
  when (branch == 4) do minor_69; minor_60; call major_15 seed_val
  pad 16 -= shl (shl (at 3 ⊠ lit 3) 2 ⊟ at 3) 1
  when (branch == 1) do minor_43; minor_52 (lit 0x5b5a9b00); call major_2 seed_val
  when (branch == 9) do minor_45; minor_49; call major_11 (at 9)
  pad 14 *= at 5 ⋓ lit 0x132a8fbd
  when (branch == 0x0a) do minor_51 (lit 31); minor_57 (lit 0xb1e94414); call major_14 seed_val
  when (branch == 0x0d) do minor_35; minor_42; call major_13 seed_val
  when (branch == 2) do try_odd (pad 19) minor_3; minor_56 (lit 0xfe2e49b0); call major_19 (at 17)
  pad 12 += shl (neg (shl (seed_val ⊠ lit 5) 2 ⊟ seed_val) ⊠ lit 3) 1
  when (branch == 1) do try_odd (pad 13) (minor_10 (lit 30)); minor_42; call major_17 (at 14)
  when (branch == 2) do minor_54; try_odd (pad 4) minor_5; call major_7 seed_val
  pad 16 *= choose (my_cos seed_val) (lit 0x40e92e8a) (at 9)
  when (branch == 0) do
    minor_39
    try_odd (pad 2) minor_16
    call major_8 (at 5)
    minor_44
    minor_68
    call major_18 (at 10)
  seed *= at 2 ⊕ lit 0xe5c69ea
  when (branch == 5) do try_odd (pad 13) (minor_10 (lit 10)); minor_47; call major_12 (at 9)
  when (branch == 7) do try_odd (pad 0) minor_8; minor_30; call major_5 (at 0)
  pad 8 += seed_val ⊟ lit 0x1dbcefc2
  when (branch == 3) do minor_43; minor_23; call major_15 (at 14)
  when (branch == 6) do minor_47; minor_55 (lit 0xecb0c1a8); call major_2 seed_val
  seed += at 15 ⊟ lit 0x3206a0ca
  when (branch == 3) do minor_31; minor_35; call major_11 seed_val
  when (branch == 0x0f) do try_odd (pad 6) minor_17; minor_28; call major_14 (at 1)
  pad 14 ^= at 8 ⋒ lit 0x7d271

-- It stays inside the array.
pub major_3-SafeFlow : SafeFlow major_3
unfolding major_3
major_3-SafeFlow =
    search
      (
        minor_rules, major_11-SafeFlow, major_12-SafeFlow, major_13-SafeFlow, major_14-SafeFlow,
        major_15-SafeFlow, major_17-SafeFlow, major_18-SafeFlow, major_19-SafeFlow,
        major_2-SafeFlow, major_5-SafeFlow, major_7-SafeFlow, major_8-SafeFlow,
      )
      depth 500 fits 100000
