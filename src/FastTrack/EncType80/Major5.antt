-- ===== src/FastTrack/EncType80/Major5.antt =====
-- `major_5` of networks/fasttrack/enc_type_80.c.
use addnas_mldonkey.Base.{◌==◌}
use addnas_mldonkey.FastTrack.Mix.{pad, seed, at, seed_val, lit, ror, ◌⊞◌, ◌⊠◌, ◌⋒◌, ◌⊕◌, ◌⊘◌}
use addnas_mldonkey.FastTrack.Flow.{
  Flow, my_sin, choose, shl, try_odd, switch, when, call, ◌⊲◌, ◌≔◌, ◌+=◌, ◌*=◌, ◌&=◌, ◌|=◌, ◌>>◌,
}
use addnas_mldonkey.FastTrack.Flow.Safe.{SafeFlow}
use addnas_mldonkey.FastTrack.EncType80.Minor.{
  minor_17, minor_28, minor_34, minor_4, minor_40, minor_41, minor_42, minor_44, minor_45, minor_47,
  minor_5, minor_52, minor_55, minor_56, minor_59, minor_61, minor_64, minor_65, minor_69, minor_8,
}
use addnas_mldonkey.FastTrack.EncType80.Minor.Safe.{minor_rules}
use addnas_mldonkey.FastTrack.EncType80.Major1.{major_1, major_1-SafeFlow}
use addnas_mldonkey.FastTrack.EncType80.Major10.{major_10, major_10-SafeFlow}
use addnas_mldonkey.FastTrack.EncType80.Major12.{major_12, major_12-SafeFlow}
use addnas_mldonkey.FastTrack.EncType80.Major16.{major_16, major_16-SafeFlow}
use addnas_mldonkey.FastTrack.EncType80.Major18.{major_18, major_18-SafeFlow}
use addnas_mldonkey.FastTrack.EncType80.Major20.{major_20, major_20-SafeFlow}
use addnas_mldonkey.FastTrack.EncType80.Major4.{major_4, major_4-SafeFlow}
use addnas_mldonkey.FastTrack.EncType80.Major6.{major_6, major_6-SafeFlow}
use addnas_mldonkey.FastTrack.EncType80.Major7.{major_7, major_7-SafeFlow}
use addnas_mldonkey.FastTrack.EncType80.Major8.{major_8, major_8-SafeFlow}
use addnas_mldonkey.FastTrack.EncType80.Minor74.{minor_74, minor_74-SafeFlow}
use addnas_mldonkey.FastTrack.EncType80.Minor75.{minor_75, minor_75-SafeFlow}

unfoldable pub major_5 : Flow
major_5 = switch (((at 14 ⊕ at 2) ⊕ at 19) ⊘ 0x0c) λ branch. do
  when (branch == 4) do minor_40; try_odd (pad 7) minor_4; call minor_75 (lit 0)
  seed |= at 11 ⊕ lit 0x4e05b048
  when (branch == 0x0a) do minor_64; minor_69; call minor_74 (at 1)
  seed += at 2 ⊠ lit 50
  when (branch == 1) do try_odd (pad 0) minor_8; minor_47; call major_10 seed_val
  seed ≔ shl ((seed_val ⊠ at 3) ⊠ lit 13) 1
  when (branch == 3) do minor_47; minor_44; call major_20 (at 7)
  pad 10 |= at 19 ⋒ lit 0x42a403d
  when (branch == 6) do minor_45; try_odd (pad 6) minor_17; call major_6 seed_val
  pad 4 ≔ ror (at 4) (at 18 ⊞ lit 0x486c59)
  when (branch == 2) do try_odd (pad 0) minor_8; minor_55 (lit 0xdd66dc5c); call major_1 (at 4)
  pad 11 += choose (my_sin seed_val) (lit 0x44acfbd) (at 9)
  when (branch == 9) do minor_42; minor_65 (lit 117); call major_4 (at 12)
  seed ≔ ror seed_val (choose (seed_val ⊲ 0xaa6dc) seed_val (at 17))
  when (branch == 0) do minor_40; try_odd (pad 4) minor_5; call major_16 (at 15)
  pad 16 *= lit 0xffc209cf ⊕ seed_val
  when (branch == 0) do minor_59; minor_52 (lit 0xb7709fc1); call major_7 (at 5)
  pad 4 += at 17 ⊠ lit 0xe9f05570
  when (branch == 5) do minor_61; minor_47; call major_8 (at 4)
  pad 13 *= at 8 ⊕ lit 0x4001ca
  when (branch == 7) do minor_41; minor_56 (lit 0x1d1451de); call major_18 (at 1)
  when (branch == 8) do minor_41; minor_28; call major_12 (at 11)
  pad 13 &= at 9 ⊠ lit 0x4463ff
  when (branch == 0x0b) do minor_42; minor_34; call minor_75 (lit 0)

-- It stays inside the array.
pub major_5-SafeFlow : SafeFlow major_5
unfolding major_5
major_5-SafeFlow =
    search
      (
        minor_rules, major_1-SafeFlow, major_10-SafeFlow, major_12-SafeFlow, major_16-SafeFlow,
        major_18-SafeFlow, major_20-SafeFlow, major_4-SafeFlow, major_6-SafeFlow, major_7-SafeFlow,
        major_8-SafeFlow, minor_74-SafeFlow, minor_75-SafeFlow,
      )
      depth 500 fits 100000
