-- ===== src/FastTrack/EncType80/Major7.antt =====
-- `major_7` of networks/fasttrack/enc_type_80.c.
use addnas_mldonkey.Base.{◌==◌}
use addnas_mldonkey.FastTrack.Mix.{pad, seed, at, seed_val, lit, ror, rol, ◌⊞◌, ◌⊟◌, ◌⊠◌, ◌⋒◌, ◌⊕◌}
use addnas_mldonkey.FastTrack.Flow.{
  Flow, my_sin, choose, shl, try_odd, switch, when, call, ◌≔◌, ◌+=◌, ◌-=◌, ◌*=◌, ◌^=◌, ◌>>◌,
}
use addnas_mldonkey.FastTrack.Flow.Safe.{SafeFlow}
use addnas_mldonkey.FastTrack.EncType80.Minor.{
  minor_12, minor_19, minor_20, minor_25, minor_27, minor_32, minor_36, minor_38, minor_40,
  minor_42, minor_51, minor_56, minor_57, minor_61, minor_7,
}
use addnas_mldonkey.FastTrack.EncType80.Minor.Safe.{minor_rules}
use addnas_mldonkey.FastTrack.EncType80.Major1.{major_1, major_1-SafeFlow}
use addnas_mldonkey.FastTrack.EncType80.Major10.{major_10, major_10-SafeFlow}
use addnas_mldonkey.FastTrack.EncType80.Major16.{major_16, major_16-SafeFlow}
use addnas_mldonkey.FastTrack.EncType80.Major20.{major_20, major_20-SafeFlow}
use addnas_mldonkey.FastTrack.EncType80.Major4.{major_4, major_4-SafeFlow}
use addnas_mldonkey.FastTrack.EncType80.Major6.{major_6, major_6-SafeFlow}
use addnas_mldonkey.FastTrack.EncType80.Minor74.{minor_74, minor_74-SafeFlow}
use addnas_mldonkey.FastTrack.EncType80.Minor75.{minor_75, minor_75-SafeFlow}

unfoldable pub major_7 : Flow
major_7 = switch (at 9 ⋒ lit 0x07) λ branch. do
  seed -= lit 0x646ede77 ⋒ at 7
  when (branch == 0) do minor_38; try_odd (pad 11) minor_12; call minor_75 (lit 0)
  seed ≔ ror seed_val (shl (seed_val ⊠ lit 59) 1)
  when (branch == 6) do minor_40; minor_51 (lit 15); call minor_74 (at 4)
  pad 3 += choose (my_sin seed_val) (lit 0x4c8444) (at 8)
  when (branch == 5) do minor_61; minor_32 (lit 0x2ab2e7e2); call major_10 (at 18)
  pad 2 ≔ rol (at 2) ((shl (at 4 ⊠ lit 3) 3 ⊟ at 4) ⊠ lit 3)
  when (branch == 3) do minor_42; minor_56 (lit 0xd1fc123); call major_20 seed_val
  pad 0 += choose (my_sin (at 4)) (lit 0xda2b08) seed_val
  when (branch == 2) do try_odd (pad 11) minor_19; minor_57 (lit 0xd7f6df8f); call major_6 (at 9)
  seed ^= seed_val ⊠ lit 0x11
  when (branch == 4) do minor_27; minor_36; call major_1 (at 10)
  pad 4 *= lit 0xdeaf0b ⊕ at 2
  when (branch == 1) do minor_25; try_odd (pad 15) minor_20; call major_4 seed_val
  pad 9 ≔ shl ((at 11 ⊠ at 9) ⊠ lit 5) 3 ⊟ (at 11 ⊠ at 9)
  pad 1 += (shl (at 10) 5 ⊞ at 10) ⊠ lit 3
  when (branch == 0) do try_odd (pad 11) minor_19; try_odd (pad 10) minor_7; call major_16 (at 0)

-- It stays inside the array.
pub major_7-SafeFlow : SafeFlow major_7
unfolding major_7
major_7-SafeFlow =
    search
      (
        minor_rules, major_1-SafeFlow, major_10-SafeFlow, major_16-SafeFlow, major_20-SafeFlow,
        major_4-SafeFlow, major_6-SafeFlow, minor_74-SafeFlow, minor_75-SafeFlow,
      )
      depth 500 fits 100000
