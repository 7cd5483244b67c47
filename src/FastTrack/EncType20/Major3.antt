-- ===== src/FastTrack/EncType20/Major3.antt =====
-- `major_3` of networks/fasttrack/enc_type_20.c.
use addnas_mldonkey.Base.{◌==◌}
use addnas_mldonkey.FastTrack.Mix.{pad, seed, at, seed_val, lit, ◌⊞◌, ◌⊟◌, ◌⊠◌, ◌⊕◌, ◌⋓◌, ◌⊘◌}
use addnas_mldonkey.FastTrack.Flow.{
  Flow, choose, shl, ror_eq, rol_eq, try_odd, switch, when, call, ◌⊲◌, ◌+=◌, ◌-=◌, ◌*=◌, ◌^=◌, ◌>>◌,
}
use addnas_mldonkey.FastTrack.Flow.Safe.{SafeFlow}
use addnas_mldonkey.FastTrack.EncType20.Minor.{
  minor_17, minor_19, minor_2, minor_22, minor_28, minor_29, minor_3, minor_30, minor_5, minor_7,
}
use addnas_mldonkey.FastTrack.EncType20.Minor.Safe.{minor_rules}
use addnas_mldonkey.FastTrack.EncType20.Major15.{major_15, major_15-SafeFlow}
use addnas_mldonkey.FastTrack.EncType20.Major17.{major_17, major_17-SafeFlow}
use addnas_mldonkey.FastTrack.EncType20.Major18.{major_18, major_18-SafeFlow}
use addnas_mldonkey.FastTrack.EncType20.Major19.{major_19, major_19-SafeFlow}
use addnas_mldonkey.FastTrack.EncType20.Major23.{major_23, major_23-SafeFlow}
use addnas_mldonkey.FastTrack.EncType20.Major24.{major_24, major_24-SafeFlow}
use addnas_mldonkey.FastTrack.EncType20.Major25.{major_25, major_25-SafeFlow}
use addnas_mldonkey.FastTrack.EncType20.Major4.{major_4, major_4-SafeFlow}
use addnas_mldonkey.FastTrack.EncType20.Minor36.{minor_36, minor_36-SafeFlow}
use addnas_mldonkey.FastTrack.EncType20.Minor37.{minor_37, minor_37-SafeFlow}

unfoldable pub major_3 : Flow
major_3 = switch (((at 5 ⊕ seed_val) ⊕ at 12) ⊘ 10) λ branch. do
  seed *= at 6 ⋓ lit 0x4723b25
  when (branch == 0) do minor_22; try_odd (pad 10) minor_5; call minor_37 (lit 0)
  pad 2 -= at 4 ⊠ lit 0xd
  when (branch == 5) do pad 7 ^= lit 0x414517ea; minor_29; call minor_36 (lit 0)
  seed += at 12 ⊠ lit 0x19
  when (branch == 1)
      do pad 13 += choose (at 15 ⊲ 0x137bffeb) (at 15) (at 11); minor_19; call major_23 seed_val
  seed += at 7 ⊞ lit 0xbd42ff0
  when (branch == 2) do minor_29; pad 16 += lit 0x1f5b0c59; call major_24 seed_val
  pad 15 -= at 0 ⊕ lit 0x16bee8c4
  when (branch == 4) do try_odd (pad 17) minor_7; minor_28; call major_19 seed_val
  pad 18 ^= at 11 ⊞ lit 0x9fd1847f
  when (branch == 6)
      do pad 6 += at 19 ⊟ lit 0x3f5675d6; pad 6 += at 19 ⊟ lit 0x3f5675d6; call major_25 seed_val
  rol_eq (pad 14) (at 19)
  when (branch == 8) do minor_30; pad 12 += at 6 ⊞ lit 0x21d7bf61; call major_17 seed_val
  ror_eq (pad 0) (at 13 ⊠ lit 0x13)
  when (branch == 9) do try_odd (pad 2) (minor_2 (lit 0x70da1d6f)); minor_29; call major_4 seed_val
  when (branch == 7) do minor_22; try_odd (pad 10) minor_3; call major_18 (at 5)
  when (branch == 3) do minor_17; pad 2 ^= shl (at 15) 5; call major_15 (at 19)

-- It stays inside the array.
pub major_3-SafeFlow : SafeFlow major_3
unfolding major_3
major_3-SafeFlow =
    search
      (
        minor_rules, major_15-SafeFlow, major_17-SafeFlow, major_18-SafeFlow, major_19-SafeFlow,
        major_23-SafeFlow, major_24-SafeFlow, major_25-SafeFlow, major_4-SafeFlow,
        minor_36-SafeFlow, minor_37-SafeFlow,
      )
      depth 500 fits 100000
