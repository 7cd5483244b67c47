-- ===== src/FastTrack/EncType20/Major6.antt =====
-- `major_6` of networks/fasttrack/enc_type_20.c.
use addnas_mldonkey.Base.{◌==◌}
use addnas_mldonkey.FastTrack.Mix.{pad, seed, at, seed_val, lit, rol, ◌⊞◌, ◌⊟◌, ◌⊠◌, ◌⊕◌, ◌⊘◌}
use addnas_mldonkey.FastTrack.Flow.{
  Flow, my_cos, my_sin, my_sqrt, choose, ror_eq, rol_eq, try_odd, switch, when, call, ◌⊲◌, ◌≔◌,
  ◌+=◌, ◌-=◌, ◌*=◌, ◌|=◌, ◌^=◌, ◌>>◌,
}
use addnas_mldonkey.FastTrack.Flow.Safe.{SafeFlow}
use addnas_mldonkey.FastTrack.EncType20.Minor.{
  minor_1, minor_13, minor_2, minor_29, minor_3, minor_5, minor_7, minor_9,
}
use addnas_mldonkey.FastTrack.EncType20.Minor.Safe.{minor_rules}
use addnas_mldonkey.FastTrack.EncType20.Major1.{major_1, major_1-SafeFlow}
use addnas_mldonkey.FastTrack.EncType20.Major14.{major_14, major_14-SafeFlow}
use addnas_mldonkey.FastTrack.EncType20.Major15.{major_15, major_15-SafeFlow}
use addnas_mldonkey.FastTrack.EncType20.Major16.{major_16, major_16-SafeFlow}
use addnas_mldonkey.FastTrack.EncType20.Major17.{major_17, major_17-SafeFlow}
use addnas_mldonkey.FastTrack.EncType20.Major18.{major_18, major_18-SafeFlow}
use addnas_mldonkey.FastTrack.EncType20.Major19.{major_19, major_19-SafeFlow}
use addnas_mldonkey.FastTrack.EncType20.Major21.{major_21, major_21-SafeFlow}
use addnas_mldonkey.FastTrack.EncType20.Major24.{major_24, major_24-SafeFlow}
use addnas_mldonkey.FastTrack.EncType20.Major25.{major_25, major_25-SafeFlow}
use addnas_mldonkey.FastTrack.EncType20.Major3.{major_3, major_3-SafeFlow}
use addnas_mldonkey.FastTrack.EncType20.Major4.{major_4, major_4-SafeFlow}

unfoldable pub major_6 : Flow
major_6 = switch (at 17 ⊘ 15) λ branch. do
  when (branch == 0) do
    pad 13 += choose (at 15 ⊲ 0x137bffeb) (at 15) (at 11)
    pad 13 *= lit 0x22dd951f
    call major_24 (at 8)
  pad 11 -= choose (my_sin (at 9)) (lit 0xe205322c) (at 7)
  when (branch == 13) do
    try_odd (pad 1) (ror_eq (pad 1) (lit 0x4))
    pad 12 ^= at 15 ⊟ lit 0xf5cfde0
    call major_19 (at 0)
  pad 10 -= at 6 ⊕ lit 0x1289de2
  when (branch == 8) do ror_eq (pad 9) (lit 10); try_odd (pad 2) minor_13; call major_25 (at 4)
  when (branch == 5)
      do pad 13 *= lit 0x6a94c749; pad 18 -= at 13 ⊕ lit 0x154abcdf; call major_17 seed_val
  rol_eq (pad 16) (my_sqrt (at 17))
  when (branch == 2) do pad 16 += lit 0x3f147441; call major_4 (at 16)
  pad 9 += my_sqrt (at 3)
  when (branch == 14) do ror_eq (pad 9) (lit 15); pad 13 -= at 1; call major_18 seed_val
  seed ≔ (at 6 ⊕ seed_val) ⊕ lit 0x202ab323
  when (branch == 9)
      do pad 5 += at 0 ⊕ lit 0x3e17add3; pad 4 -= at 17 ⊕ lit 0x2217cf47; call major_15 (at 8)
  when (branch == 6)
      do pad 2 *= at 3 ⊞ lit 0xd6863a6; pad 6 += at 19 ⊟ lit 0x3f5675d6; call major_3 (at 16)
  pad 15 ^= my_sqrt (at 10)
  when (branch == 1) do
    try_odd (pad 2) (minor_2 (lit 0xb30d40d0))
    pad 10 *= at 10 ⊟ lit 0x5eae6bf
    call major_21 (at 13)
  pad 0 -= at 11 ⊕ lit 0x1284af29
  when (branch == 4) do pad 5 += at 0 ⊕ lit 0x3e17add3; minor_29; call major_16 (at 17)
  rol_eq seed (at 11 ⊠ lit 0x10)
  when (branch == 11)
      do pad 9 ^= lit 0x1d8f33a6; try_odd (pad 12) (minor_9 (lit 0x13ee15c3)); call major_1 (at 19)
  when (branch == 0) do
    try_odd (pad 10) minor_3
    pad 19 ^= choose (my_cos (at 9)) (lit 0x57337b8) (at 14)
    call major_14 (at 16)
  pad 9 |= at 9 ⊕ lit 0x2ad7629
  when (branch == 10) do
    try_odd (pad 1) (ror_eq (pad 1) (lit 0xc))
    try_odd (pad 12) (minor_9 (lit 0xe8869877))
    call major_24 seed_val
  pad 4 *= at 12 ⊠ lit 0x4a237369
  when (branch == 12) do pad 9 += rol (at 4) (lit 9); try_odd (pad 17) minor_7; call major_19 (at 5)
  when (branch == 7) do
    pad 14 |= at 3 ⊕ lit 0x4345732
    try_odd (pad 12) (minor_9 (lit 0xdd1ca541))
    call major_25 (at 1)
  seed *= at 4 ⊞ lit 0x76e5a087
  when (branch == 3) do
    try_odd (pad 10) minor_5
    try_odd (pad 8) (minor_1 (lit 0x62f4d3c4))
    call major_17 seed_val

-- It stays inside the array.
pub major_6-SafeFlow : SafeFlow major_6
unfolding major_6
major_6-SafeFlow =
    search
      (
        minor_rules, major_1-SafeFlow, major_14-SafeFlow, major_15-SafeFlow, major_16-SafeFlow,
        major_17-SafeFlow, major_18-SafeFlow, major_19-SafeFlow, major_21-SafeFlow,
        major_24-SafeFlow, major_25-SafeFlow, major_3-SafeFlow, major_4-SafeFlow,
      )
      depth 500 fits 100000
