-- ===== src/FastTrack/EncType80/Major16.antt =====
-- `major_16` of networks/fasttrack/enc_type_80.c.
use addnas_mldonkey.Base.{◌==◌}
use addnas_mldonkey.FastTrack.Mix.{pad, seed, at, seed_val, lit, ◌⋒◌, ◌⊕◌, ◌⋓◌, ◌⊘◌}
use addnas_mldonkey.FastTrack.Flow.{
  Flow, my_cos, my_sqrt, choose, try_odd, switch, when, call, ◌+=◌, ◌-=◌, ◌*=◌, ◌&=◌, ◌|=◌, ◌>>◌,
}
use addnas_mldonkey.FastTrack.Flow.Safe.{SafeFlow}
use addnas_mldonkey.FastTrack.EncType80.Minor.{
  minor_15, minor_29, minor_30, minor_38, minor_39, minor_43, minor_45, minor_48, minor_53, minor_6,
  minor_62, minor_64,
}
use addnas_mldonkey.FastTrack.EncType80.Minor.Safe.{minor_rules}
use addnas_mldonkey.FastTrack.EncType80.Major1.{major_1, major_1-SafeFlow}
use addnas_mldonkey.FastTrack.EncType80.Major10.{major_10, major_10-SafeFlow}
use addnas_mldonkey.FastTrack.EncType80.Major20.{major_20, major_20-SafeFlow}
use addnas_mldonkey.FastTrack.EncType80.Major4.{major_4, major_4-SafeFlow}
use addnas_mldonkey.FastTrack.EncType80.Major6.{major_6, major_6-SafeFlow}
use addnas_mldonkey.FastTrack.EncType80.Minor74.{minor_74, minor_74-SafeFlow}
use addnas_mldonkey.FastTrack.EncType80.Minor75.{minor_75, minor_75-SafeFlow}

unfoldable pub major_16 : Flow
major_16 = switch (at 5 ⊘ 0x07) λ branch. do
  pad 2 -= seed_val ⊕ lit 0x1e9e3a1c
  when (branch == 4) do minor_38; minor_48; call minor_75 (lit 0)
  pad 9 &= at 4 ⊕ lit 0x46b160
  when (branch == 5) do minor_43; minor_62; call minor_74 (at 11)
  seed += at 17 ⊕ lit 0x46b160
  when (branch == 1) do try_odd (pad 7) (minor_6 (lit 0xc6d7e2f7)); minor_30; call major_10 seed_val
  pad 13 |= my_sqrt (at 19)
  pad 7 -= choose (my_cos (at 10)) (lit 0x90069b) (at 17)
  when (branch == 0) do try_odd (pad 6) minor_15; minor_45; call major_20 (at 7)
  pad 15 -= lit 0x90069b ⋓ seed_val
  when (branch == 6) do minor_39; minor_29 (lit 184); call major_6 (at 1)
  seed += at 6 ⋒ lit 0x44782589
  when (branch == 3) do minor_53; try_odd (pad 6) minor_15; call major_1 seed_val
  pad 8 += at 11 ⋒ lit 0x2645009b
  when (branch == 0) do minor_29 (lit 124); minor_64; call major_4 (at 10)
  pad 8 *= at 16 ⊕ lit 0x2666a4cb

-- It stays inside the array.
pub major_16-SafeFlow : SafeFlow major_16
unfolding major_16
major_16-SafeFlow =
    search
      (
        minor_rules, major_1-SafeFlow, major_10-SafeFlow, major_20-SafeFlow, major_4-SafeFlow,
        major_6-SafeFlow, minor_74-SafeFlow, minor_75-SafeFlow,
      )
      depth 500 fits 100000
