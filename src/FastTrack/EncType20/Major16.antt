-- ===== src/FastTrack/EncType20/Major16.antt =====
-- `major_16` of networks/fasttrack/enc_type_20.c.
use addnas_mldonkey.Base.{◌==◌}
use addnas_mldonkey.FastTrack.Mix.{
  pad, seed, at, seed_val, lit, ror, rol, ◌⊞◌, ◌⊟◌, ◌⊠◌, ◌⋒◌, ◌⊕◌, ◌⊘◌,
}
use addnas_mldonkey.FastTrack.Flow.{
  Flow, my_sin, my_sqrt, choose, ror_eq, try_odd, switch, when, call, ◌⊲◌, ◌+=◌, ◌-=◌, ◌*=◌, ◌&=◌,
  ◌|=◌, ◌^=◌, ◌>>◌,
}
use addnas_mldonkey.FastTrack.Flow.Safe.{SafeFlow}
use addnas_mldonkey.FastTrack.EncType20.Minor.{
  minor_2, minor_22, minor_27, minor_30, minor_32, minor_5, minor_8,
}
use addnas_mldonkey.FastTrack.EncType20.Minor.Safe.{minor_rules}
use addnas_mldonkey.FastTrack.EncType20.Major15.{major_15, major_15-SafeFlow}
use addnas_mldonkey.FastTrack.EncType20.Major17.{major_17, major_17-SafeFlow}
use addnas_mldonkey.FastTrack.EncType20.Major18.{major_18, major_18-SafeFlow}
use addnas_mldonkey.FastTrack.EncType20.Major19.{major_19, major_19-SafeFlow}
use addnas_mldonkey.FastTrack.EncType20.Major21.{major_21, major_21-SafeFlow}
use addnas_mldonkey.FastTrack.EncType20.Major23.{major_23, major_23-SafeFlow}
use addnas_mldonkey.FastTrack.EncType20.Major24.{major_24, major_24-SafeFlow}
use addnas_mldonkey.FastTrack.EncType20.Major25.{major_25, major_25-SafeFlow}
use addnas_mldonkey.FastTrack.EncType20.Major3.{major_3, major_3-SafeFlow}
use addnas_mldonkey.FastTrack.EncType20.Major4.{major_4, major_4-SafeFlow}
use addnas_mldonkey.FastTrack.EncType20.Minor36.{minor_36, minor_36-SafeFlow}
use addnas_mldonkey.FastTrack.EncType20.Minor37.{minor_37, minor_37-SafeFlow}

unfoldable pub major_16 : Flow
major_16 = switch (((at 11 ⊕ seed_val) ⊕ at 5) ⊘ 12) λ branch. do
  when (branch == 5) do pad 2 *= at 3 ⊞ lit 0xd6863a6; minor_22; call minor_37 (lit 0)
  pad 4 ^= seed_val ⊟ lit 0xafd4eac
  when (branch == 2)
      do try_odd (pad 10) minor_5; pad 0 += at 18 ⊕ lit 0x4ac16b8d; call minor_36 (lit 0)
  pad 15 -= lit 0xafd4eac ⊕ seed_val
  when (branch == 0)
      do try_odd (pad 2) (minor_2 (lit 0x80e3e69e)); ror_eq (pad 9) (lit 12); call major_23 (at 4)
  pad 8 ^= my_sqrt (at 16)
  when (branch == 3) do pad 9 ^= lit 0x8e61a4f; pad 13 -= at 1; call major_24 seed_val
  when (branch == 10)
      do pad 6 += at 19 ⊟ lit 0x3f5675d6; pad 13 *= lit 0xa02fe00; call major_19 (at 6)
  when (branch == 4) do try_odd (pad 12) minor_8; try_odd (pad 10) minor_5; call major_25 (at 0)
  pad 8 ^= at 15 ⊠ lit 0x5f
  when (branch == 0) do
    minor_32 (lit 0x6191efec)
    pad 13 += choose (at 15 ⊲ 0x137bffeb) (at 15) (at 11)
    call major_17 (at 9)
  seed -= seed_val ⋒ lit 0x179da692
  pad 6 &= choose (my_sin seed_val) (lit 0xcc35b823) (at 14)
  when (branch == 9)
      do pad 6 += lit 0xfe07af0e ⊟ at 3; pad 0 += at 18 ⊕ lit 0x4ac16b8d; call major_4 (at 0)
  when (branch == 6) do pad 7 |= lit 0xa885099; pad 9 ^= lit 0xdd34e6b; call major_18 seed_val
  when (branch == 7)
      do pad 12 += lit 0x5e6f4861; pad 18 -= at 13 ⊕ lit 0x154abcdf; call major_15 (at 14)
  pad 10 += at 1 ⊞ lit 0x217f7a00
  when (branch == 1) do pad 0 += at 18 ⊕ lit 0x4ac16b8d; minor_27; call major_3 (at 17)
  pad 5 &= ror (at 0) (lit 14)
  when (branch == 8)
      do pad 2 *= at 3 ⊞ lit 0xd6863a6; pad 9 ^= at 7 ⊠ lit 0x44; call major_21 (at 13)
  when (branch == 11)
      do minor_30; pad 13 += choose (at 15 ⊲ 0x137bffeb) (at 15) (at 11); call minor_37 (lit 0)
  pad 12 |= rol (at 7) (lit 14)

-- It stays inside the array.
pub major_16-SafeFlow : SafeFlow major_16
unfolding major_16
major_16-SafeFlow =
    search
      (
        minor_rules, major_15-SafeFlow, major_17-SafeFlow, major_18-SafeFlow, major_19-SafeFlow,
        major_21-SafeFlow, major_23-SafeFlow, major_24-SafeFlow, major_25-SafeFlow,
        major_3-SafeFlow, major_4-SafeFlow, minor_36-SafeFlow, minor_37-SafeFlow,
      )
      depth 500 fits 100000
