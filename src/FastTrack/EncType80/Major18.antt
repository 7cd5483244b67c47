-- ===== src/FastTrack/EncType80/Major18.antt =====
-- `major_18` of networks/fasttrack/enc_type_80.c.
use addnas_mldonkey.Base.{◌==◌}
use addnas_mldonkey.FastTrack.Mix.{
  pad, seed, at, seed_val, lit, ror, rol, ◌⊞◌, ◌⊟◌, ◌⊠◌, ◌⋒◌, ◌⊕◌, ◌⋓◌, ◌⊘◌,
}
use addnas_mldonkey.FastTrack.Flow.{
  Flow, choose, try_odd, switch, when, call, ◌⊲◌, ◌+=◌, ◌*=◌, ◌&=◌, ◌|=◌, ◌^=◌, ◌>>◌,
}
use addnas_mldonkey.FastTrack.Flow.Safe.{SafeFlow}
use addnas_mldonkey.FastTrack.EncType80.Minor.{
  minor_12, minor_13, minor_15, minor_19, minor_24, minor_26, minor_34, minor_36, minor_39,
  minor_41, minor_47, minor_49, minor_51, minor_52, minor_59, minor_6, minor_61, minor_66,
}
use addnas_mldonkey.FastTrack.EncType80.Minor.Safe.{minor_rules}
use addnas_mldonkey.FastTrack.EncType80.Major1.{major_1, major_1-SafeFlow}
use addnas_mldonkey.FastTrack.EncType80.Major10.{major_10, major_10-SafeFlow}
use addnas_mldonkey.FastTrack.EncType80.Major16.{major_16, major_16-SafeFlow}
use addnas_mldonkey.FastTrack.EncType80.Major20.{major_20, major_20-SafeFlow}
use addnas_mldonkey.FastTrack.EncType80.Major4.{major_4, major_4-SafeFlow}
use addnas_mldonkey.FastTrack.EncType80.Major6.{major_6, major_6-SafeFlow}
use addnas_mldonkey.FastTrack.EncType80.Major7.{major_7, major_7-SafeFlow}
use addnas_mldonkey.FastTrack.EncType80.Major8.{major_8, major_8-SafeFlow}
use addnas_mldonkey.FastTrack.EncType80.Minor74.{minor_74, minor_74-SafeFlow}
use addnas_mldonkey.FastTrack.EncType80.Minor75.{minor_75, minor_75-SafeFlow}

unfoldable pub major_18 : Flow
major_18 = switch (((at 15 ⊕ at 1) ⊕ at 18) ⊘ 0x0a) λ branch. do
  pad 14 *= at 18 ⊟ lit 0x3438a280
  when (branch == 9) do try_odd (pad 7) (minor_6 (lit 0xdc6c3d21)); minor_26; call minor_75 (lit 0)
  pad 2 += at 3 ⋒ lit 0x244268df
  when (branch == 4) do minor_66; minor_51 (lit 23); call minor_74 seed_val
  pad 18 *= rol seed_val (lit 0x1f)
  when (branch == 5) do minor_52 (lit 0x1cb09c4d); try_odd (pad 6) minor_15; call major_10 (at 14)
  pad 6 += at 10 ⊞ lit 0x5308b1db
  when (branch == 1) do minor_39; minor_36; call major_20 seed_val
  pad 5 += ror (at 8) (lit 0x19)
  when (branch == 0) do try_odd (pad 11) minor_19; minor_34; call major_6 (at 5)
  pad 9 |= seed_val ⋒ lit 0x27be8251
  when (branch == 2)
      do try_odd (pad 7) (minor_6 (lit 0x9dbe27ad)); try_odd (pad 11) minor_12; call major_1 (at 9)
  pad 12 ^= at 2 ⊠ lit 73
  when (branch == 8) do minor_59; minor_24; call major_4 seed_val
  pad 14 &= seed_val ⊟ lit 0x7413c08
  when (branch == 6) do minor_47; try_odd (pad 5) (minor_13 (lit 0x2725c3fb)); call major_16 (at 17)
  pad 9 += lit 0x4c3ada ⊟ seed_val
  when (branch == 3) do minor_41; minor_49; call major_7 seed_val
  seed += lit 0x8ea63 ⋓ at 18
  when (branch == 0) do minor_41; minor_61; call major_8 (at 19)
  pad 3 += choose (seed_val ⊲ 0x4efe6b) seed_val (at 4)

-- It stays inside the array.
pub major_18-SafeFlow : SafeFlow major_18
unfolding major_18
major_18-SafeFlow =
    search
      (
        minor_rules, major_1-SafeFlow, major_10-SafeFlow, major_16-SafeFlow, major_20-SafeFlow,
        major_4-SafeFlow, major_6-SafeFlow, major_7-SafeFlow, major_8-SafeFlow, minor_74-SafeFlow,
        minor_75-SafeFlow,
      )
      depth 500 fits 100000
