-- ===== src/FastTrack/EncType20/Major21.antt =====
-- `major_21` of networks/fasttrack/enc_type_20.c.
use addnas_mldonkey.Base.{◌==◌}
use addnas_mldonkey.FastTrack.Mix.{pad, seed, at, seed_val, lit, rol, ◌⊞◌, ◌⊟◌, ◌⊠◌, ◌⊕◌, ◌⊘◌}
use addnas_mldonkey.FastTrack.Flow.{
  Flow, my_cos, my_sin, my_sqrt, choose, ror_eq, try_odd, switch, when, call, ◌+=◌, ◌-=◌, ◌*=◌,
  ◌&=◌, ◌|=◌, ◌^=◌, ◌>>◌,
}
use addnas_mldonkey.FastTrack.Flow.Safe.{SafeFlow}
use addnas_mldonkey.FastTrack.EncType20.Minor.{
  minor_10, minor_12, minor_19, minor_22, minor_29, minor_32, minor_5,
}
use addnas_mldonkey.FastTrack.EncType20.Minor.Safe.{minor_rules}
use addnas_mldonkey.FastTrack.EncType20.Major15.{major_15, major_15-SafeFlow}
use addnas_mldonkey.FastTrack.EncType20.Major17.{major_17, major_17-SafeFlow}
use addnas_mldonkey.FastTrack.EncType20.Major18.{major_18, major_18-SafeFlow}
use addnas_mldonkey.FastTrack.EncType20.Major19.{major_19, major_19-SafeFlow}
use addnas_mldonkey.FastTrack.EncType20.Major23.{major_23, major_23-SafeFlow}
use addnas_mldonkey.FastTrack.EncType20.Major24.{major_24, major_24-SafeFlow}
use addnas_mldonkey.FastTrack.EncType20.Major25.{major_25, major_25-SafeFlow}
use addnas_mldonkey.FastTrack.EncType20.Major3.{major_3, major_3-SafeFlow}
use addnas_mldonkey.FastTrack.EncType20.Major4.{major_4, major_4-SafeFlow}
use addnas_mldonkey.FastTrack.EncType20.Minor36.{minor_36, minor_36-SafeFlow}
use addnas_mldonkey.FastTrack.EncType20.Minor37.{minor_37, minor_37-SafeFlow}

unfoldable pub major_21 : Flow
major_21 = switch (((at 1 ⊕ at 0) ⊕ at 16) ⊘ 11) λ branch. do
  when (branch == 2)
      do pad 2 *= at 3 ⊞ lit 0xd6863a6; pad 12 ^= at 15 ⊟ lit 0xf5cfde0; call minor_37 (lit 0)
  pad 5 -= seed_val
  when (branch == 8)
      do pad 16 += lit 0x2b058ae8; pad 6 += lit 0xfe07af0e ⊟ at 3; call minor_36 (lit 0)
  pad 17 ^= rol (at 18) (lit 28)
  when (branch == 4)
      do pad 2 *= at 3 ⊞ lit 0xd6863a6; minor_32 (lit 0x79fb5201); call major_23 (at 7)
  pad 0 ^= my_sqrt (at 12)
  when (branch == 0)
      do pad 19 ^= at 15 ⊕ lit 0x3574ed3; try_odd (pad 10) minor_5; call major_24 (at 2)
  pad 10 ^= seed_val ⊠ lit 0x6c
  when (branch == 9) do
    pad 2 ^= choose (my_sin (at 13)) (lit 0xfd08092) (at 10)
    minor_32 (lit 0x6ddf8c10)
    call major_19 (at 10)
  pad 8 -= choose (my_cos (at 12)) (lit 0x8759908e) seed_val
  when (branch == 7) do minor_19; minor_29; call major_25 (at 1)
  seed ^= choose (my_sin seed_val) (lit 0x2c99fade) (at 14)
  when (branch == 1) do
    try_odd (pad 11) (minor_12 (lit 0x3fcf3163))
    pad 9 ^= at 7 ⊠ lit 0x44
    call major_17 seed_val
  pad 15 += choose (my_cos (at 11)) (lit 0x1bec01f) seed_val
  when (branch == 5)
      do pad 13 *= lit 0x1bd5157f; pad 6 += at 19 ⊟ lit 0x3f5675d6; call major_4 (at 15)
  ror_eq (pad 1) (lit 0x80d9edac ⊠ at 16)
  when (branch == 0) do
    try_odd (pad 18) (minor_10 (lit 0xfde30e03))
    pad 9 |= at 7 ⊕ lit 0x2a19119f
    call major_18 seed_val
  pad 7 &= at 15 ⊠ lit 0xa8f285
  when (branch == 10) do pad 7 ^= lit 0xef011757; ror_eq (pad 9) (lit 9); call major_15 (at 13)
  when (branch == 3)
      do pad 12 += at 6 ⊞ lit 0x21d7bf61; pad 6 += at 19 ⊟ lit 0x3f5675d6; call major_3 (at 10)
  pad 3 *= choose (my_sin (at 8)) (lit 0x5b51fb19) (at 2)
  when (branch == 6) do pad 9 += rol (at 4) (lit 9); minor_22; call minor_37 (lit 0)
  pad 11 ^= at 17 ⊠ lit 0x44

-- It stays inside the array.
pub major_21-SafeFlow : SafeFlow major_21
unfolding major_21
major_21-SafeFlow =
    search
      (
        minor_rules, major_15-SafeFlow, major_17-SafeFlow, major_18-SafeFlow, major_19-SafeFlow,
        major_23-SafeFlow, major_24-SafeFlow, major_25-SafeFlow, major_3-SafeFlow, major_4-SafeFlow,
        minor_36-SafeFlow, minor_37-SafeFlow,
      )
      depth 500 fits 100000
