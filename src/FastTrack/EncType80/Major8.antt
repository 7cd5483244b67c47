-- ===== src/FastTrack/EncType80/Major8.antt =====
-- `major_8` of networks/fasttrack/enc_type_80.c.
use addnas_mldonkey.Base.{◌==◌}
use addnas_mldonkey.FastTrack.Mix.{
  pad, seed, at, seed_val, lit, ror, rol, ◌⊞◌, ◌⊟◌, ◌⊠◌, ◌⊕◌, ◌⋓◌, ◌⊘◌,
}
use addnas_mldonkey.FastTrack.Flow.{
  Flow, my_sin, my_sqrt, choose, shl, try_odd, switch, when, call, ◌≔◌, ◌+=◌, ◌-=◌, ◌*=◌, ◌&=◌,
  ◌|=◌, ◌^=◌, ◌>>◌,
}
use addnas_mldonkey.FastTrack.Flow.Safe.{SafeFlow}
use addnas_mldonkey.FastTrack.EncType80.Minor.{
  minor_13, minor_14, minor_21, minor_23, minor_28, minor_32, minor_33, minor_38, minor_40,
  minor_47, minor_5, minor_55, minor_58, minor_61, minor_72, minor_8, minor_9,
}
use addnas_mldonkey.FastTrack.EncType80.Minor.Safe.{minor_rules}
use addnas_mldonkey.FastTrack.EncType80.Major1.{major_1, major_1-SafeFlow}
use addnas_mldonkey.FastTrack.EncType80.Major10.{major_10, major_10-SafeFlow}
use addnas_mldonkey.FastTrack.EncType80.Major16.{major_16, major_16-SafeFlow}
use addnas_mldonkey.FastTrack.EncType80.Major20.{major_20, major_20-SafeFlow}
use addnas_mldonkey.FastTrack.EncType80.Major4.{major_4, major_4-SafeFlow}
use addnas_mldonkey.FastTrack.EncType80.Major6.{major_6, major_6-SafeFlow}
use addnas_mldonkey.FastTrack.EncType80.Major7.{major_7, major_7-SafeFlow}
use addnas_mldonkey.FastTrack.EncType80.Minor74.{minor_74, minor_74-SafeFlow}
use addnas_mldonkey.FastTrack.EncType80.Minor75.{minor_75, minor_75-SafeFlow}

unfoldable pub major_8 : Flow
major_8 = switch (((at 4 ⊕ at 13) ⊕ at 17) ⊘ 0x09) λ branch. do
  seed ^= ror seed_val (lit 0x6)
  when (branch == 0) do try_odd (pad 5) (minor_13 (lit 0x2816580b)); minor_38; call minor_75 (lit 0)
  pad 2 &= at 16 ⊕ lit 0x448522
  when (branch == 8) do try_odd (pad 3) minor_14; try_odd (pad 14) minor_21; call minor_74 (at 15)
  pad 7 &= choose (my_sin seed_val) (lit 0x5228985f) (at 5)
  when (branch == 3) do try_odd (pad 4) minor_5; minor_33 (lit 0x168a878e); call major_10 (at 18)
  seed *= at 3 ⊕ lit 0x93fa66
  when (branch == 7) do try_odd (pad 0) minor_8; minor_58 (lit 0xf81bec49); call major_20 (at 13)
  pad 7 -= shl (seed_val ⊠ lit 5) 2 ⊟ seed_val
  when (branch == 4) do minor_55 (lit 0x32ea67a4); minor_47; call major_6 (at 13)
  pad 12 ≔ rol (at 12) (shl ((shl seed_val 4 ⊞ seed_val) ⊠ lit 3) 1)
  when (branch == 6) do minor_72 (lit 69); try_odd (pad 3) minor_14; call major_1 (at 5)
  pad 19 ≔ rol (at 19) (seed_val ⊞ lit 0x4685d5be)
  when (branch == 1) do try_odd (pad 9) minor_9; minor_40; call major_4 (at 14)
  pad 5 += at 6 ⋓ lit 0x301de279
  when (branch == 2) do minor_28; minor_61; call major_16 (at 17)
  pad 6 *= at 0 ⊕ lit 0xffffffbb
  when (branch == 0) do minor_23; minor_32 (lit 0x11b2399c); call major_7 (at 14)
  pad 17 |= my_sqrt (at 12)

-- It stays inside the array.
pub major_8-SafeFlow : SafeFlow major_8
unfolding major_8
major_8-SafeFlow =
    search
      (
        minor_rules, major_1-SafeFlow, major_10-SafeFlow, major_16-SafeFlow, major_20-SafeFlow,
        major_4-SafeFlow, major_6-SafeFlow, major_7-SafeFlow, minor_74-SafeFlow, minor_75-SafeFlow,
      )
      depth 500 fits 100000
