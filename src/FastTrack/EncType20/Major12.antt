-- ===== src/FastTrack/EncType20/Major12.antt =====
-- `major_12` of networks/fasttrack/enc_type_20.c.
use addnas_mldonkey.Base.{◌==◌}
use addnas_mldonkey.FastTrack.Mix.{pad, seed, at, seed_val, lit, ◌⊞◌, ◌⊟◌, ◌⊠◌, ◌⋒◌, ◌⊕◌}
use addnas_mldonkey.FastTrack.Flow.{
  Flow, my_sqrt, choose, shl, ror_eq, try_odd, switch, when, call, ◌⊲◌, ◌+=◌, ◌-=◌, ◌*=◌, ◌&=◌,
  ◌|=◌, ◌^=◌, ◌>>◌,
}
use addnas_mldonkey.FastTrack.Flow.Safe.{SafeFlow}
use addnas_mldonkey.FastTrack.EncType20.Minor.{
  minor_1, minor_12, minor_17, minor_19, minor_20, minor_26, minor_3, minor_32, minor_4, minor_6,
  minor_7, minor_8, minor_9,
}
use addnas_mldonkey.FastTrack.EncType20.Minor.Safe.{minor_rules}
use addnas_mldonkey.FastTrack.EncType20.Major1.{major_1, major_1-SafeFlow}
use addnas_mldonkey.FastTrack.EncType20.Major14.{major_14, major_14-SafeFlow}
use addnas_mldonkey.FastTrack.EncType20.Major15.{major_15, major_15-SafeFlow}
use addnas_mldonkey.FastTrack.EncType20.Major16.{major_16, major_16-SafeFlow}
use addnas_mldonkey.FastTrack.EncType20.Major18.{major_18, major_18-SafeFlow}
use addnas_mldonkey.FastTrack.EncType20.Major2.{major_2, major_2-SafeFlow}
use addnas_mldonkey.FastTrack.EncType20.Major21.{major_21, major_21-SafeFlow}
use addnas_mldonkey.FastTrack.EncType20.Major3.{major_3, major_3-SafeFlow}
use addnas_mldonkey.FastTrack.EncType20.Major4.{major_4, major_4-SafeFlow}
use addnas_mldonkey.FastTrack.EncType20.Major5.{major_5, major_5-SafeFlow}
use addnas_mldonkey.FastTrack.EncType20.Major6.{major_6, major_6-SafeFlow}
use addnas_mldonkey.FastTrack.EncType20.Major9.{major_9, major_9-SafeFlow}

unfoldable pub major_12 : Flow
major_12 = switch (((at 7 ⊕ seed_val) ⊕ at 18) ⋒ lit 15) λ branch. do
  when (branch == 15) do
    try_odd (pad 17) minor_7
    pad 13 += choose (at 15 ⊲ 0x137bffeb) (at 15) (at 11)
    call major_4 (at 17)
  pad 8 |= seed_val ⊞ lit 0xe43fc6b
  when (branch == 1) do minor_32 (lit 0x979304f6); minor_26; call major_18 (at 6)
  when (branch == 8)
      do minor_20; try_odd (pad 11) (minor_12 (lit 0xf7131053)); call major_15 (at 13)
  pad 19 ^= seed_val ⊠ lit 0x4b
  when (branch == 1) do pad 13 *= lit 0x85695585; pad 13 *= lit 0x2c9514d7; call major_3 (at 17)
  when (branch == 10) do
    pad 9 |= at 7 ⊕ lit 0x2a19119f
    try_odd (pad 8) (minor_1 (lit 0x433a0094))
    call major_21 (at 8)
  pad 1 ^= at 14 ⊠ lit 0x16
  when (branch == 0) do pad 13 *= lit 0x136644be; try_odd (pad 0) minor_6; call major_16 (at 14)
  pad 7 |= seed_val ⊕ lit 0xe857063
  when (branch == 4)
      do pad 18 -= at 13 ⊕ lit 0x154abcdf; pad 12 += lit 0xf894616a; call major_1 (at 6)
  when (branch == 9) do try_odd (pad 10) minor_3; pad 7 &= lit 0x3b887f26; call major_14 (at 7)
  ror_eq (pad 6) (at 9 ⊠ lit 0x8413f1b6)
  when (branch == 3)
      do try_odd (pad 12) (minor_9 (lit 0xcd88ea76)); try_odd (pad 12) minor_8; call major_6 (at 19)
  when (branch == 13)
      do ror_eq (pad 9) (lit 5); try_odd (pad 1) (ror_eq (pad 1) (lit 0x8)); call major_9 (at 1)
  pad 6 -= choose (at 17 ⊲ 0x417e2f7b) (at 17) (at 19)
  when (branch == 5) do pad 9 |= at 7 ⊕ lit 0x2a19119f; minor_19; call major_2 (at 1)
  when (branch == 12) do pad 13 -= at 1; pad 0 += at 6 ⊠ lit 0x3c; call major_5 (at 7)
  pad 6 |= my_sqrt seed_val
  when (branch == 2)
      do pad 2 ^= shl (at 15) 5; pad 7 &= at 13 ⊕ lit 0x21aaf758; call major_4 seed_val
  pad 2 ^= at 8 ⊞ lit 0x3e85747b
  when (branch == 0) do minor_20; pad 9 &= lit 0x5a61aa8d; call major_18 (at 14)
  when (branch == 11)
      do pad 6 += lit 0xfe07af0e ⊟ at 3; minor_32 (lit 0xbf47f027); call major_15 (at 3)
  pad 2 &= seed_val
  when (branch == 3)
      do pad 13 *= lit 0xc9cf079; pad 18 -= at 13 ⊕ lit 0x154abcdf; call major_3 (at 4)
  when (branch == 7)
      do pad 12 ^= at 15 ⊟ lit 0xf5cfde0; try_odd (pad 16) minor_4; call major_21 (at 14)
  seed += at 9 ⊟ lit 0xbc1b5d9
  when (branch == 14) do try_odd (pad 12) minor_8; pad 9 ^= at 7 ⊠ lit 0x44; call major_16 seed_val
  pad 18 += at 11 ⊠ lit 0x5b
  when (branch == 2) do pad 7 &= at 13 ⊕ lit 0x21aaf758; minor_17; call major_1 (at 1)
  when (branch == 6)
      do pad 2 ^= shl (at 15) 5; pad 18 -= at 13 ⊕ lit 0x154abcdf; call major_14 seed_val
  pad 4 ^= at 4 ⊟ lit 0xe87fd622

-- It stays inside the array.
pub major_12-SafeFlow : SafeFlow major_12
unfolding major_12
major_12-SafeFlow =
    search
      (
        minor_rules, major_1-SafeFlow, major_14-SafeFlow, major_15-SafeFlow, major_16-SafeFlow,
        major_18-SafeFlow, major_2-SafeFlow, major_21-SafeFlow, major_3-SafeFlow, major_4-SafeFlow,
        major_5-SafeFlow, major_6-SafeFlow, major_9-SafeFlow,
      )
      depth 500 fits 100000
