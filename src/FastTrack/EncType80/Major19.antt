-- ===== src/FastTrack/EncType80/Major19.antt =====
-- `major_19` of networks/fasttrack/enc_type_80.c.
use addnas_mldonkey.Base.{◌==◌}
use addnas_mldonkey.FastTrack.Mix.{pad, seed, at, seed_val, lit, ror, ◌⊞◌, ◌⊟◌, ◌⊠◌, ◌⋒◌, ◌⊕◌, ◌⋓◌}
use addnas_mldonkey.FastTrack.Flow.{
  Flow, my_cos, choose, try_odd, switch, when, call, ◌⊲◌, ◌≔◌, ◌+=◌, ◌-=◌, ◌*=◌, ◌|=◌, ◌^=◌, ◌>>◌,
}
use addnas_mldonkey.FastTrack.Flow.Safe.{SafeFlow}
use addnas_mldonkey.FastTrack.EncType80.Minor.{
  minor_10, minor_13, minor_14, minor_18, minor_24, minor_25, minor_26, minor_30, minor_34,
  minor_38, minor_44, minor_45, minor_46, minor_49, minor_51, minor_53, minor_55, minor_57,
  minor_58, minor_59, minor_6, minor_62, minor_63, minor_65, minor_68, minor_70, minor_71, minor_8,
  minor_9,
}
use addnas_mldonkey.FastTrack.EncType80.Minor.Safe.{minor_rules}
use addnas_mldonkey.FastTrack.EncType80.Major11.{major_11, major_11-SafeFlow}
use addnas_mldonkey.FastTrack.EncType80.Major12.{major_12, major_12-SafeFlow}
use addnas_mldonkey.FastTrack.EncType80.Major13.{major_13, major_13-SafeFlow}
use addnas_mldonkey.FastTrack.EncType80.Major14.{major_14, major_14-SafeFlow}
use addnas_mldonkey.FastTrack.EncType80.Major15.{major_15, major_15-SafeFlow}
use addnas_mldonkey.FastTrack.EncType80.Major16.{major_16, major_16-SafeFlow}
use addnas_mldonkey.FastTrack.EncType80.Major18.{major_18, major_18-SafeFlow}
use addnas_mldonkey.FastTrack.EncType80.Major2.{major_2, major_2-SafeFlow}
use addnas_mldonkey.FastTrack.EncType80.Major4.{major_4, major_4-SafeFlow}
use addnas_mldonkey.FastTrack.EncType80.Major5.{major_5, major_5-SafeFlow}
use addnas_mldonkey.FastTrack.EncType80.Major7.{major_7, major_7-SafeFlow}
use addnas_mldonkey.FastTrack.EncType80.Major8.{major_8, major_8-SafeFlow}

unfoldable pub major_19 : Flow
major_19 = switch (((at 11 ⊕ at 6) ⊕ at 19) ⋒ lit 0x0f) λ branch. do
  when (branch == 7) do try_odd (pad 0) minor_8; minor_34; call major_4 seed_val
  pad 18 ≔ ror (at 18) (at 6 ⊞ lit 0x50bb3362)
  when (branch == 0x0d) do minor_26; try_odd (pad 0) minor_8; call major_16 (at 14)
  when (branch == 0x0f) do try_odd (pad 7) (minor_6 (lit 0xce7048a1)); minor_53; call major_7 (at 0)
  pad 6 -= choose (my_cos (at 14)) (lit 0x50ff65ed) (at 9)
  when (branch == 2) do minor_57 (lit 0x1530cb9a); minor_68; call major_8 (at 13)
  when (branch == 8) do minor_26; minor_49; call major_18 seed_val
  seed ^= ror seed_val (lit 0xd)
  when (branch == 0x0a) do minor_65 (lit 48); minor_38; call major_12 seed_val
  when (branch == 5) do minor_55 (lit 0x1e8ee7f4); minor_45; call major_5 (at 10)
  pad 17 ^= at 4 ⋓ lit 0x50ffe7ed
  when (branch == 3) do minor_30; minor_59; call major_15 (at 17)
  when (branch == 0) do minor_25; try_odd (pad 3) minor_14; call major_2 (at 8)
  seed ^= choose (seed_val ⊲ 0x5149b5c9) seed_val (at 5)
  when (branch == 0x0b) do minor_46; minor_58 (lit 0x778d8c); call major_11 seed_val
  when (branch == 2) do try_odd (pad 9) minor_9; try_odd (pad 3) minor_14; call major_14 (at 1)
  pad 9 += at 7 ⊕ lit 0x5149b5c9
  when (branch == 0x0e) do minor_51 (lit 1); minor_63; call major_13 (at 6)
  when (branch == 1) do minor_71; minor_34; call major_4 (at 19)
  pad 17 |= at 10 ⊟ lit 0x514ffdff
  when (branch == 6) do minor_62; minor_44; call major_16 (at 8)
  when (branch == 9)
      do minor_58 (lit 0xe0d7842a); try_odd (pad 13) (minor_10 (lit 4)); call major_7 (at 2)
  pad 6 ^= choose (my_cos (at 13)) (lit 0xb29627f) seed_val
  when (branch == 0x0c) do minor_70; minor_30; call major_8 (at 5)
  when (branch == 0) do minor_59; try_odd (pad 5) (minor_13 (lit 0x664d4285)); call major_18 (at 14)
  when (branch == 4) do
    try_odd (pad 5) (minor_13 (lit 0x281b56a6))
    try_odd (pad 3) minor_18
    call major_12 (at 18)
  when (branch == 1) do minor_25; minor_24; call major_5 (at 4)
  pad 16 *= at 3 ⊠ lit 0x3a94d

-- It stays inside the array.
pub major_19-SafeFlow : SafeFlow major_19
unfolding major_19
major_19-SafeFlow =
    search
      (
        minor_rules, major_11-SafeFlow, major_12-SafeFlow, major_13-SafeFlow, major_14-SafeFlow,
        major_15-SafeFlow, major_16-SafeFlow, major_18-SafeFlow, major_2-SafeFlow, major_4-SafeFlow,
        major_5-SafeFlow, major_7-SafeFlow, major_8-SafeFlow,
      )
      depth 500 fits 100000
