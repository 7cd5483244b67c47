-- ===== src/FastTrack/EncType80/Major20.antt =====
-- `major_20` of networks/fasttrack/enc_type_80.c.
use addnas_mldonkey.Base.{◌==◌}
use addnas_mldonkey.FastTrack.Mix.{pad, seed, at, seed_val, lit, rol, ◌⊟◌, ◌⊠◌, ◌⋒◌, ◌⊕◌, ◌⋓◌, ◌⊘◌}
use addnas_mldonkey.FastTrack.Flow.{
  Flow, my_cos, my_sin, my_sqrt, choose, shl, try_odd, switch, when, call, ◌≔◌, ◌+=◌, ◌-=◌, ◌*=◌,
  ◌&=◌, ◌|=◌, ◌^=◌, ◌>>◌,
}
use addnas_mldonkey.FastTrack.Flow.Safe.{SafeFlow}
use addnas_mldonkey.FastTrack.EncType80.Minor.{
  minor_18, minor_45, minor_53, minor_60, minor_66, minor_70,
}
use addnas_mldonkey.FastTrack.EncType80.Minor.Safe.{minor_rules}
use addnas_mldonkey.FastTrack.EncType80.Major10.{major_10, major_10-SafeFlow}
use addnas_mldonkey.FastTrack.EncType80.Minor74.{minor_74, minor_74-SafeFlow}
use addnas_mldonkey.FastTrack.EncType80.Minor75.{minor_75, minor_75-SafeFlow}

unfoldable pub major_20 : Flow
major_20 = switch (((at 13 ⊕ at 8) ⊕ at 17) ⊘ 0x03) λ branch. do
  seed ^= lit 0x39aa3db4 ⊕ at 17
  pad 15 ≔ rol (at 15) (choose (my_sin seed_val) (lit 0x236d13f3) (at 19))
  pad 16 ^= my_sqrt seed_val
  when (branch == 0) do minor_70; minor_66; call minor_75 (lit 0)
  seed ≔ shl ((seed_val ⊠ seed_val) ⊠ lit 5) 4
  pad 18 |= at 8 ⊠ lit 0x1e4b94ec
  pad 3 += seed_val ⋒ lit 0x2708964f
  when (branch == 0) do minor_45; minor_53; call minor_74 seed_val
  pad 0 -= at 10 ⋓ lit 0x390ac159
  pad 8 -= choose (my_cos (at 6)) (lit 0x84019) (at 10)
  pad 17 &= lit 0x84019 ⋓ seed_val
  pad 14 *= rol (at 2) (lit 0x1f)
  when (branch == 1) do try_odd (pad 3) minor_18; minor_60; call major_10 (at 7)
  pad 8 *= at 15 ⊟ lit 0x51214

-- It stays inside the array.
pub major_20-SafeFlow : SafeFlow major_20
unfolding major_20
major_20-SafeFlow =
    search (minor_rules, major_10-SafeFlow, minor_74-SafeFlow, minor_75-SafeFlow) depth 500 fits
      100000
