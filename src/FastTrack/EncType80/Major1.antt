-- ===== src/FastTrack/EncType80/Major1.antt =====
-- `major_1` of networks/fasttrack/enc_type_80.c.
use addnas_mldonkey.Base.{◌==◌}
use addnas_mldonkey.FastTrack.Mix.{
  pad, seed, at, seed_val, lit, ror, rol, ◌⊞◌, ◌⊟◌, ◌⊠◌, ◌⋒◌, ◌⊕◌, ◌⊘◌,
}
use addnas_mldonkey.FastTrack.Flow.{
  Flow, my_cos, my_sqrt, choose, shl, try_odd, switch, when, call, ◌⊲◌, ◌≔◌, ◌+=◌, ◌-=◌, ◌*=◌, ◌&=◌,
  ◌|=◌, ◌^=◌, ◌>>◌,
}
use addnas_mldonkey.FastTrack.Flow.Safe.{SafeFlow}
use addnas_mldonkey.FastTrack.EncType80.Minor.{
  minor_17, minor_29, minor_33, minor_35, minor_36, minor_44, minor_63, minor_69, minor_72,
  minor_73,
}
use addnas_mldonkey.FastTrack.EncType80.Minor.Safe.{minor_rules}
use addnas_mldonkey.FastTrack.EncType80.Major10.{major_10, major_10-SafeFlow}
use addnas_mldonkey.FastTrack.EncType80.Major20.{major_20, major_20-SafeFlow}
use addnas_mldonkey.FastTrack.EncType80.Major6.{major_6, major_6-SafeFlow}
use addnas_mldonkey.FastTrack.EncType80.Minor74.{minor_74, minor_74-SafeFlow}
use addnas_mldonkey.FastTrack.EncType80.Minor75.{minor_75, minor_75-SafeFlow}

unfoldable pub major_1 : Flow
major_1 = switch (((at 8 ⊕ at 16) ⊕ seed_val) ⊘ 5) λ branch. do
  seed *= my_sqrt seed_val
  pad 4 |= choose (seed_val ⊲ 0x67f88) seed_val (at 3)
  when (branch == 1) do minor_44; minor_63; call minor_75 (lit 0)
  pad 7 ≔ ror (at 7) (at 17 ⋒ lit 0x67f88)
  pad 0 += ror (at 6) (lit 0x8)
  when (branch == 0) do minor_35; minor_29 (lit 20); call minor_74 seed_val
  seed -= at 14 ⊕ lit 0xffc56d16
  seed &= my_sqrt (at 1)
  when (branch == 2) do minor_72 (lit 128); try_odd (pad 6) minor_17; call major_10 (at 6)
  seed ≔ rol seed_val (at 13 ⊞ lit 0x8d810df)
  pad 7 ^= shl (seed_val ⊠ lit 11) 1
  when (branch == 3) do minor_33 (lit 0xfde76000); minor_73; call major_20 (at 8)
  pad 8 ^= choose (my_cos (at 16)) (lit 0x12da5b58) (at 2)
  pad 14 ^= at 13 ⊟ lit 0xff8c9a4d
  when (branch == 4) do minor_36; minor_69; call major_6 seed_val
  pad 6 *= choose (at 17 ⊲ 0x9d9106a) (at 17) (at 8)

-- It stays inside the array.
pub major_1-SafeFlow : SafeFlow major_1
unfolding major_1
major_1-SafeFlow =
    search
      (
        minor_rules, major_10-SafeFlow, major_20-SafeFlow, major_6-SafeFlow, minor_74-SafeFlow,
        minor_75-SafeFlow,
      )
      depth 500 fits 100000
