-- ===== src/FastTrack/EncType80/Major9.antt =====
-- `major_9` of networks/fasttrack/enc_type_80.c.
use addnas_mldonkey.Base.{◌==◌}
use addnas_mldonkey.FastTrack.Mix.{pad, seed, at, seed_val, lit, ror, ◌⊞◌, ◌⊠◌, ◌⋒◌, ◌⊕◌}
use addnas_mldonkey.FastTrack.Flow.{
  Flow, my_cos, my_sin, choose, shl, try_odd, switch, when, call, ◌≔◌, ◌+=◌, ◌-=◌, ◌*=◌, ◌&=◌, ◌^=◌,
  ◌>>◌,
}
use addnas_mldonkey.FastTrack.Flow.Safe.{SafeFlow}
use addnas_mldonkey.FastTrack.EncType80.Minor.{
  minor_12, minor_14, minor_17, minor_21, minor_26, minor_28, minor_3, minor_31, minor_33, minor_35,
  minor_36, minor_39, minor_4, minor_40, minor_43, minor_46, minor_5, minor_50, minor_51, minor_52,
  minor_53, minor_58, minor_59, minor_60, minor_64, minor_65, minor_68, minor_7, minor_70, minor_72,
  minor_8, minor_9,
}
use addnas_mldonkey.FastTrack.EncType80.Minor.Safe.{minor_rules}
use addnas_mldonkey.FastTrack.EncType80.Major11.{major_11, major_11-SafeFlow}
use addnas_mldonkey.FastTrack.EncType80.Major12.{major_12, major_12-SafeFlow}
use addnas_mldonkey.FastTrack.EncType80.Major13.{major_13, major_13-SafeFlow}
use addnas_mldonkey.FastTrack.EncType80.Major14.{major_14, major_14-SafeFlow}
use addnas_mldonkey.FastTrack.EncType80.Major15.{major_15, major_15-SafeFlow}
use addnas_mldonkey.FastTrack.EncType80.Major17.{major_17, major_17-SafeFlow}
use addnas_mldonkey.FastTrack.EncType80.Major18.{major_18, major_18-SafeFlow}
use addnas_mldonkey.FastTrack.EncType80.Major19.{major_19, major_19-SafeFlow}
use addnas_mldonkey.FastTrack.EncType80.Major2.{major_2, major_2-SafeFlow}
use addnas_mldonkey.FastTrack.EncType80.Major21.{major_21, major_21-SafeFlow}
use addnas_mldonkey.FastTrack.EncType80.Major3.{major_3, major_3-SafeFlow}
use addnas_mldonkey.FastTrack.EncType80.Major5.{major_5, major_5-SafeFlow}

unfoldable pub major_9 : Flow
major_9 = switch (at 9 ⋒ lit 0x0f) λ branch. do
  when (branch == 0x0d) do minor_53; minor_36; call major_18 (at 13)
  when (branch == 2) do try_odd (pad 14) minor_21; minor_40; call major_12 (at 10)
  pad 1 -= lit 0x49d06938 ⊕ at 7
  when (branch == 6) do try_odd (pad 10) minor_7; minor_31; call major_5 seed_val
  when (branch == 0x0e) do minor_51 (lit 29); try_odd (pad 4) minor_5; call major_15 seed_val
  pad 13 *= choose (my_cos seed_val) (lit 0x46223265) (at 18)
  when (branch == 6) do try_odd (pad 19) minor_3; try_odd (pad 0) minor_8; call major_2 (at 3)
  when (branch == 4) do minor_46; minor_53; call major_11 seed_val
  pad 6 += shl (seed_val ⊠ lit 3) 3
  when (branch == 4) do try_odd (pad 11) minor_12; minor_65 (lit 182); call major_14 (at 14)
  when (branch == 2) do minor_58 (lit 0xfa9054cb); try_odd (pad 7) minor_4; call major_13 (at 0)
  seed ^= choose (my_sin (at 11)) (lit 0x2f24fb19) (at 16)
  when (branch == 0x0a) do minor_40; minor_70; call major_19 (at 7)
  when (branch == 0x0b) do minor_50; minor_72 (lit 5); call major_17 (at 9)
  when (branch == 5) do minor_52 (lit 0xc4de785); minor_36; call major_3 seed_val
  pad 18 *= at 2 ⊞ lit 0x92c5d3
  when (branch == 1) do minor_35; minor_64; call major_21 (at 7)
  when (branch == 5) do try_odd (pad 6) minor_17; minor_68; call major_18 seed_val
  pad 6 -= at 8 ⋒ lit 0x42d2afe6
  when (branch == 0) do minor_46; try_odd (pad 10) minor_7; call major_12 (at 9)
  when (branch == 7) do minor_26; minor_64; call major_5 (at 3)
  pad 14 ≔ ror (at 14) (at 3 ⊞ lit 0x44060020)
  when (branch == 3) do minor_35; minor_59; call major_15 (at 2)
  when (branch == 9) do minor_39; minor_51 (lit 14); call major_2 seed_val
  pad 11 &= seed_val ⊕ lit 0x26649bd
  when (branch == 0x0c) do minor_43; minor_40; call major_11 seed_val
  when (branch == 0x0f) do minor_33 (lit 0x15507317); minor_31; call major_14 (at 17)
  pad 3 ≔ ror (at 3) (lit 0xd783ed ⋒ at 11)
  when (branch == 1) do try_odd (pad 0) minor_8; minor_28; call major_13 (at 13)
  when (branch == 8) do minor_28; minor_40; call major_19 (at 11)
  when (branch == 0) do try_odd (pad 9) minor_9; minor_35; call major_17 seed_val
  pad 10 += choose (my_cos (at 0)) (lit 0xf1b21fe) seed_val
  when (branch == 3) do minor_60; try_odd (pad 3) minor_14; call major_3 (at 1)
  pad 19 *= at 18 ⊠ lit 73

-- It stays inside the array.
pub major_9-SafeFlow : SafeFlow major_9
unfolding major_9
major_9-SafeFlow =
    search
      (
        minor_rules, major_11-SafeFlow, major_12-SafeFlow, major_13-SafeFlow, major_14-SafeFlow,
        major_15-SafeFlow, major_17-SafeFlow, major_18-SafeFlow, major_19-SafeFlow,
        major_2-SafeFlow, major_21-SafeFlow, major_3-SafeFlow, major_5-SafeFlow,
      )
      depth 500 fits 100000
