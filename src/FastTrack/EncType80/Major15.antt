-- ===== src/FastTrack/EncType80/Major15.antt =====
-- `major_15` of networks/fasttrack/enc_type_80.c.
use addnas_mldonkey.Base.{◌==◌}
use addnas_mldonkey.FastTrack.Mix.{pad, seed, at, seed_val, lit, ror, ◌⊞◌, ◌⊟◌, ◌⊠◌, ◌⊕◌, ◌⊘◌}
use addnas_mldonkey.FastTrack.Flow.{
  Flow, shl, try_odd, switch, when, call, ◌≔◌, ◌-=◌, ◌*=◌, ◌&=◌, ◌^=◌, ◌>>◌,
}
use addnas_mldonkey.FastTrack.Flow.Safe.{SafeFlow}
use addnas_mldonkey.FastTrack.EncType80.Minor.{
  minor_12, minor_16, minor_18, minor_19, minor_21, minor_24, minor_26, minor_27, minor_32,
  minor_35, minor_4, minor_40, minor_42, minor_44, minor_53, minor_58, minor_61, minor_62, minor_63,
  minor_66, minor_71, minor_73, minor_9,
}
use addnas_mldonkey.FastTrack.EncType80.Minor.Safe.{minor_rules}
use addnas_mldonkey.FastTrack.EncType80.Major1.{major_1, major_1-SafeFlow}
use addnas_mldonkey.FastTrack.EncType80.Major10.{major_10, major_10-SafeFlow}
use addnas_mldonkey.FastTrack.EncType80.Major12.{major_12, major_12-SafeFlow}
use addnas_mldonkey.FastTrack.EncType80.Major16.{major_16, major_16-SafeFlow}
use addnas_mldonkey.FastTrack.EncType80.Major18.{major_18, major_18-SafeFlow}
use addnas_mldonkey.FastTrack.EncType80.Major20.{major_20, major_20-SafeFlow}
use addnas_mldonkey.FastTrack.EncType80.Major4.{major_4, major_4-SafeFlow}
use addnas_mldonkey.FastTrack.EncType80.Major5.{major_5, major_5-SafeFlow}
use addnas_mldonkey.FastTrack.EncType80.Major6.{major_6, major_6-SafeFlow}
use addnas_mldonkey.FastTrack.EncType80.Major7.{major_7, major_7-SafeFlow}
use addnas_mldonkey.FastTrack.EncType80.Major8.{major_8, major_8-SafeFlow}
use addnas_mldonkey.FastTrack.EncType80.Minor74.{minor_74, minor_74-SafeFlow}

unfoldable pub major_15 : Flow
major_15 = switch (((at 0 ⊕ at 3) ⊕ seed_val) ⊘ 0x0d) λ branch. do
  when (branch == 0) do minor_40; minor_35; call minor_74 (at 18)
  pad 18 *= seed_val ⊠ lit 25
  when (branch == 1) do try_odd (pad 3) minor_18; minor_27; call major_10 (at 19)
  pad 12 &= at 8 ⊕ lit 0x3038e4eb
  when (branch == 3) do minor_61; try_odd (pad 7) minor_4; call major_20 (at 6)
  when (branch == 6) do try_odd (pad 7) minor_4; minor_26; call major_6 (at 12)
  seed ^= ror (at 0) (lit 0x9)
  when (branch == 2) do minor_62; minor_73; call major_1 (at 0)
  pad 8 -= ror (at 6) (lit 0x1c)
  when (branch == 0x0b) do try_odd (pad 11) minor_12; try_odd (pad 2) minor_16; call major_4 (at 8)
  when (branch == 8) do minor_42; try_odd (pad 9) minor_9; call major_16 seed_val
  pad 17 ^= at 2 ⊞ lit 0x187f79e8
  when (branch == 0) do minor_71; try_odd (pad 3) minor_18; call major_7 (at 12)
  pad 13 ^= shl (seed_val ⊠ lit 25) 2
  when (branch == 9) do try_odd (pad 11) minor_12; minor_63; call major_8 (at 3)
  when (branch == 0x0a)
      do try_odd (pad 11) minor_19; minor_58 (lit 0x30360f98); call major_18 (at 9)
  pad 8 ≔ ror (at 8) (at 17 ⊟ lit 0x12c0bc1b)
  when (branch == 0x0c) do try_odd (pad 9) minor_9; try_odd (pad 14) minor_21; call major_12 (at 18)
  pad 11 ^= at 12 ⊟ lit 0x409402
  when (branch == 7) do minor_53; minor_24; call major_5 seed_val
  pad 4 ≔ ror (at 4) (at 6 ⊟ lit 0x409402)
  when (branch == 5) do minor_44; minor_32 (lit 0x52374450); call minor_74 (at 19)
  when (branch == 4) do minor_58 (lit 0x12d9e782); minor_66; call major_10 (at 19)
  pad 3 ^= at 6 ⊟ lit 0x400000

-- It stays inside the array.
pub major_15-SafeFlow : SafeFlow major_15
unfolding major_15
major_15-SafeFlow =
    search
      (
        minor_rules, major_1-SafeFlow, major_10-SafeFlow, major_12-SafeFlow, major_16-SafeFlow,
        major_18-SafeFlow, major_20-SafeFlow, major_4-SafeFlow, major_5-SafeFlow, major_6-SafeFlow,
        major_7-SafeFlow, major_8-SafeFlow, minor_74-SafeFlow,
      )
      depth 500 fits 100000
