-- ===== src/FastTrack/EncType20/Major4.antt =====
-- `major_4` of networks/fasttrack/enc_type_20.c.
use addnas_mldonkey.Base.{◌==◌}
use addnas_mldonkey.FastTrack.Mix.{
  pad, seed, at, seed_val, lit, ror, rol, ◌⊞◌, ◌⊟◌, ◌⊠◌, ◌⊕◌, ◌⋓◌, ◌⊘◌,
}
use addnas_mldonkey.FastTrack.Flow.{
  Flow, my_cos, my_sin, my_sqrt, choose, ror_eq, try_odd, switch, when, call, ◌+=◌, ◌-=◌, ◌*=◌,
  ◌&=◌, ◌|=◌, ◌^=◌, ◌>>◌,
}
use addnas_mldonkey.FastTrack.Flow.Safe.{SafeFlow}
use addnas_mldonkey.FastTrack.EncType20.Minor.{minor_10, minor_17, minor_19, minor_3, minor_5}
use addnas_mldonkey.FastTrack.EncType20.Minor.Safe.{minor_rules}
use addnas_mldonkey.FastTrack.EncType20.Major17.{major_17, major_17-SafeFlow}
use addnas_mldonkey.FastTrack.EncType20.Major19.{major_19, major_19-SafeFlow}
use addnas_mldonkey.FastTrack.EncType20.Major23.{major_23, major_23-SafeFlow}
use addnas_mldonkey.FastTrack.EncType20.Major24.{major_24, major_24-SafeFlow}
use addnas_mldonkey.FastTrack.EncType20.Major25.{major_25, major_25-SafeFlow}
use addnas_mldonkey.FastTrack.EncType20.Minor36.{minor_36, minor_36-SafeFlow}
use addnas_mldonkey.FastTrack.EncType20.Minor37.{minor_37, minor_37-SafeFlow}

unfoldable pub major_4 : Flow
major_4 = switch (at 6 ⊘ 7) λ branch. do
  seed ^= rol (at 3) (lit 18)
  when (branch == 6)
      do pad 6 += at 19 ⊟ lit 0x3f5675d6; try_odd (pad 10) minor_5; call minor_37 (lit 0)
  pad 15 += seed_val ⊠ lit 0x32
  pad 5 += lit 0xc93495e4 ⊟ at 14
  when (branch == 2) do
    try_odd (pad 18) (minor_10 (lit 0x10db4a9d))
    pad 6 += lit 0xfe07af0e ⊟ at 3
    call minor_36 (lit 0)
  pad 12 *= choose (my_cos (at 14)) (lit 0xf5a79f2a) (at 17)
  when (branch == 0) do minor_17; pad 9 |= at 7 ⊕ lit 0x2a19119f; call major_23 (at 8)
  pad 6 &= at 7 ⋓ lit 0xe02b5b1a
  pad 11 ^= choose (my_cos (at 0)) (lit 0x3a2c762b) seed_val
  when (branch == 4) do
    try_odd (pad 10) minor_3
    try_odd (pad 1) (ror_eq (pad 1) (lit 0x1c))
    call major_24 seed_val
  pad 3 -= my_sqrt (at 9)
  when (branch == 5)
      do pad 6 ^= lit 0x47a791f; pad 0 += at 18 ⊕ lit 0x4ac16b8d; call major_19 (at 18)
  seed &= choose (my_cos (at 7)) (lit 0xcdef2bf0) (at 3)
  pad 0 -= at 15 ⊠ lit 0x43
  when (branch == 1) do minor_19; pad 6 ^= lit 0x424d4b7d; call major_25 (at 3)
  pad 1 -= ror (at 18) (lit 19)
  pad 17 ^= choose (my_sin (at 14)) (lit 0x69eaf2fd) (at 16)
  when (branch == 0)
      do pad 3 -= at 0 ⊕ lit 0x185f3b0d; pad 2 *= at 3 ⊞ lit 0xd6863a6; call major_17 (at 14)

-- It stays inside the array.
pub major_4-SafeFlow : SafeFlow major_4
unfolding major_4
major_4-SafeFlow =
    search
      (
        minor_rules, major_17-SafeFlow, major_19-SafeFlow, major_23-SafeFlow, major_24-SafeFlow,
        major_25-SafeFlow, minor_36-SafeFlow, minor_37-SafeFlow,
      )
      depth 500 fits 100000
