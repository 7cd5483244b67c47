-- ===== src/FastTrack/EncType80/Major6.antt =====
-- `major_6` of networks/fasttrack/enc_type_80.c.
use addnas_mldonkey.Base.{◌==◌}
use addnas_mldonkey.FastTrack.Mix.{pad, seed, at, seed_val, lit, ror, ◌⊞◌, ◌⊟◌, ◌⊠◌, ◌⋒◌, ◌⊕◌}
use addnas_mldonkey.FastTrack.Flow.{
  Flow, my_sin, my_sqrt, choose, shl, try_odd, switch, when, call, ◌≔◌, ◌+=◌, ◌*=◌, ◌&=◌, ◌|=◌,
  ◌^=◌, ◌>>◌,
}
use addnas_mldonkey.FastTrack.Flow.Safe.{SafeFlow}
use addnas_mldonkey.FastTrack.EncType80.Minor.{
  minor_15, minor_21, minor_29, minor_33, minor_39, minor_40, minor_43, minor_71,
}
use addnas_mldonkey.FastTrack.EncType80.Minor.Safe.{minor_rules}
use addnas_mldonkey.FastTrack.EncType80.Major10.{major_10, major_10-SafeFlow}
use addnas_mldonkey.FastTrack.EncType80.Major20.{major_20, major_20-SafeFlow}
use addnas_mldonkey.FastTrack.EncType80.Minor74.{minor_74, minor_74-SafeFlow}
use addnas_mldonkey.FastTrack.EncType80.Minor75.{minor_75, minor_75-SafeFlow}

unfoldable pub major_6 : Flow
major_6 = switch (((at 9 ⊕ at 5) ⊕ at 6) ⋒ lit 0x03) λ branch. do
  pad 12 += my_sqrt (at 1)
  pad 18 += at 19 ⊞ lit 0x2b7fd413
  when (branch == 0) do minor_39; minor_43; call minor_75 (lit 0)
  seed ≔ ror seed_val (at 4 ⊟ lit 0xa4e29dd)
  seed ^= ror (at 17) (lit 0x1c)
  when (branch == 0) do try_odd (pad 6) minor_15; minor_40; call minor_74 (at 3)
  pad 5 += shl (seed_val ⊠ lit 27) 1 ⊟ seed_val
  pad 18 += at 6 ⊟ lit 0x24a58a0
  when (branch == 3) do minor_71; minor_29 (lit 116); call major_10 (at 18)
  pad 10 &= choose (my_sin (at 17)) (lit 0xf1f3d) (at 13)
  pad 19 |= choose (my_sin (at 18)) (lit 0x4f2a72) (at 4)
  pad 13 *= ror (at 12) (lit 0x12)
  when (branch == 2) do try_odd (pad 14) minor_21; minor_33 (lit 0xfc47b82b); call major_20 (at 2)
  pad 6 += shl (at 1) 6 ⊞ at 1

-- It stays inside the array.
pub major_6-SafeFlow : SafeFlow major_6
unfolding major_6
major_6-SafeFlow =
    search (minor_rules, major_10-SafeFlow, major_20-SafeFlow, minor_74-SafeFlow, minor_75-SafeFlow)
      depth 500 fits 100000
