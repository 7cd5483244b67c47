-- ===== src/FastTrack/EncType80/Major4.antt =====
-- `major_4` of networks/fasttrack/enc_type_80.c.
use addnas_mldonkey.Base.{◌==◌}
use addnas_mldonkey.FastTrack.Mix.{
  pad, seed, at, seed_val, lit, ror, rol, ◌⊞◌, ◌⊟◌, ◌⊠◌, ◌⊕◌, ◌⋓◌, ◌⊘◌,
}
use addnas_mldonkey.FastTrack.Flow.{
  Flow, my_sqrt, shl, try_odd, switch, when, call, ◌≔◌, ◌+=◌, ◌-=◌, ◌*=◌, ◌|=◌, ◌^=◌, ◌>>◌,
}
use addnas_mldonkey.FastTrack.Flow.Safe.{SafeFlow}
use addnas_mldonkey.FastTrack.EncType80.Minor.{
  minor_26, minor_27, minor_31, minor_34, minor_36, minor_40, minor_51, minor_63, minor_8, minor_9,
}
use addnas_mldonkey.FastTrack.EncType80.Minor.Safe.{minor_rules}
use addnas_mldonkey.FastTrack.EncType80.Major1.{major_1, major_1-SafeFlow}
use addnas_mldonkey.FastTrack.EncType80.Major10.{major_10, major_10-SafeFlow}
use addnas_mldonkey.FastTrack.EncType80.Major20.{major_20, major_20-SafeFlow}
use addnas_mldonkey.FastTrack.EncType80.Major6.{major_6, major_6-SafeFlow}
use addnas_mldonkey.FastTrack.EncType80.Minor74.{minor_74, minor_74-SafeFlow}
use addnas_mldonkey.FastTrack.EncType80.Minor75.{minor_75, minor_75-SafeFlow}

unfoldable pub major_4 : Flow
major_4 = switch (((at 12 ⊕ at 11) ⊕ seed_val) ⊘ 0x06) λ branch. do
  pad 11 *= lit 0x65300 ⋓ seed_val
  when (branch == 2) do minor_40; minor_34; call minor_75 (lit 0)
  seed += lit 0 ⊟ (shl (at 6 ⊠ lit 5) 4 ⊟ at 6)
  pad 8 ≔ rol (at 8) (my_sqrt (at 9))
  when (branch == 0) do try_odd (pad 9) minor_9; minor_26; call minor_74 (at 4)
  pad 0 -= at 14 ⊕ lit 0xff7db6c1
  pad 6 ≔ rol (at 6) (at 11 ⊕ lit 0xffc1081c)
  when (branch == 5) do minor_36; minor_36; call major_10 (at 7)
  seed -= shl (at 11 ⊠ lit 3) 4
  when (branch == 0) do minor_31; minor_36; call major_20 seed_val
  pad 13 |= ror (at 16) (lit 0xc)
  pad 3 |= at 9 ⊞ lit 0x27c4c44e
  when (branch == 1) do minor_51 (lit 0); minor_27; call major_6 seed_val
  pad 13 -= shl (shl (at 6 ⊠ lit 5) 3 ⊟ at 6) 1
  pad 10 ^= rol (at 11) (lit 0x4)
  when (branch == 3) do minor_63; try_odd (pad 0) minor_8; call major_1 (at 10)

-- It stays inside the array.
pub major_4-SafeFlow : SafeFlow major_4
unfolding major_4
major_4-SafeFlow =
    search
      (
        minor_rules, major_1-SafeFlow, major_10-SafeFlow, major_20-SafeFlow, major_6-SafeFlow,
        minor_74-SafeFlow, minor_75-SafeFlow,
      )
      depth 500 fits 100000
