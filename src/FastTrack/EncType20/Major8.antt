-- ===== src/FastTrack/EncType20/Major8.antt =====
-- `major_8` of networks/fasttrack/enc_type_20.c.
use addnas_mldonkey.Base.{◌==◌}
use addnas_mldonkey.FastTrack.Mix.{pad, seed, at, seed_val, lit, ror, ◌⊞◌, ◌⊟◌, ◌⊠◌, ◌⋒◌, ◌⊕◌}
use addnas_mldonkey.FastTrack.Flow.{
  Flow, my_cos, my_sin, my_sqrt, choose, shl, rol_eq, try_odd, switch, when, call, ◌⊲◌, ◌+=◌, ◌-=◌,
  ◌*=◌, ◌&=◌, ◌|=◌, ◌^=◌, ◌>>◌,
}
use addnas_mldonkey.FastTrack.Flow.Safe.{SafeFlow}
use addnas_mldonkey.FastTrack.EncType20.Minor.{
  minor_1, minor_10, minor_12, minor_13, minor_17, minor_2, minor_22, minor_26, minor_30, minor_31,
  minor_32, minor_34, minor_35, minor_6, minor_7, minor_9,
}
use addnas_mldonkey.FastTrack.EncType20.Minor.Safe.{minor_rules}
use addnas_mldonkey.FastTrack.EncType20.Major1.{major_1, major_1-SafeFlow}
use addnas_mldonkey.FastTrack.EncType20.Major11.{major_11, major_11-SafeFlow}
use addnas_mldonkey.FastTrack.EncType20.Major12.{major_12, major_12-SafeFlow}
use addnas_mldonkey.FastTrack.EncType20.Major13.{major_13, major_13-SafeFlow}
use addnas_mldonkey.FastTrack.EncType20.Major14.{major_14, major_14-SafeFlow}
use addnas_mldonkey.FastTrack.EncType20.Major16.{major_16, major_16-SafeFlow}
use addnas_mldonkey.FastTrack.EncType20.Major2.{major_2, major_2-SafeFlow}
use addnas_mldonkey.FastTrack.EncType20.Major21.{major_21, major_21-SafeFlow}
use addnas_mldonkey.FastTrack.EncType20.Major22.{major_22, major_22-SafeFlow}
use addnas_mldonkey.FastTrack.EncType20.Major5.{major_5, major_5-SafeFlow}
use addnas_mldonkey.FastTrack.EncType20.Major6.{major_6, major_6-SafeFlow}
use addnas_mldonkey.FastTrack.EncType20.Major9.{major_9, major_9-SafeFlow}

unfoldable pub major_8 : Flow
major_8 = switch (((at 2 ⊕ seed_val) ⊕ at 17) ⋒ lit 15) λ branch. do
  when (branch == 7) do pad 13 -= at 1; minor_26; call major_21 seed_val
  when (branch == 0) do minor_35; try_odd (pad 2) (minor_2 (lit 0xe0b52e33)); call major_16 (at 15)
  seed -= ror (at 2) (lit 6)
  when (branch == 5) do pad 4 ^= lit 0x9aa940f; pad 5 += at 0 ⊕ lit 0x3e17add3; call major_1 (at 12)
  when (branch == 1) do minor_22; minor_17; call major_14 (at 1)
  pad 12 -= at 17 ⊠ lit 0x74
  when (branch == 1)
      do pad 12 += at 6 ⊞ lit 0x21d7bf61; pad 13 *= ror (at 3) (lit 5); call major_6 (at 5)
  when (branch == 14) do pad 4 ^= lit 0x91ac407e; try_odd (pad 17) minor_7; call major_9 seed_val
  pad 3 ^= at 7 ⊞ lit 0x137c9f7d
  when (branch == 0) do pad 7 &= at 13 ⊕ lit 0x21aaf758; pad 2 ^= shl (at 15) 5; call major_2 (at 5)
  when (branch == 4) do pad 10 += lit 0x8958821; pad 16 += lit 0x3d2948e4; call major_5 (at 4)
  when (branch == 3)
      do pad 3 -= at 0 ⊕ lit 0x185f3b0d; pad 9 |= at 7 ⊕ lit 0x2a19119f; call major_12 (at 12)
  pad 11 += choose (at 17 ⊲ 0xc9a31cd6) (at 17) (at 4)
  when (branch == 4)
      do pad 9 ^= lit 0x1c686298; pad 12 ^= at 15 ⊟ lit 0xf5cfde0; call major_11 (at 9)
  when (branch == 13) do pad 7 |= lit 0x378d3869; try_odd (pad 2) minor_13; call major_13 (at 13)
  seed *= at 12 ⊞ lit 0xbd99f684
  when (branch == 7) do
    pad 6 += at 19 ⊟ lit 0x3f5675d6
    pad 19 ^= choose (my_cos (at 9)) (lit 0x57337b8) (at 14)
    call major_22 seed_val
  when (branch == 8) do pad 13 *= lit 0x1dcee48b; minor_30; call major_21 seed_val
  pad 10 += lit 0xaa3373fc ⊟ at 6
  when (branch == 5)
      do minor_31 (lit 0xe); try_odd (pad 8) (minor_1 (lit 0xbc90d50)); call major_16 seed_val
  when (branch == 15)
      do pad 9 |= at 7 ⊕ lit 0x2a19119f; pad 0 += at 18 ⊕ lit 0x4ac16b8d; call major_1 seed_val
  when (branch == 6)
      do minor_34; pad 2 ^= choose (my_sin (at 13)) (lit 0xfd08092) (at 10); call major_14 seed_val
  seed ^= choose (at 11 ⊲ 0xa4dda95a) (at 11) (at 2)
  when (branch == 6) do pad 16 += lit 0x1a36972b; minor_17; call major_6 (at 5)
  when (branch == 12)
      do try_odd (pad 11) (minor_12 (lit 0xb6571d3f)); pad 0 += at 6 ⊠ lit 0x3c; call major_9 (at 9)
  seed *= at 14 ⊞ lit 0x9baa8db
  when (branch == 9) do
    try_odd (pad 12) (minor_9 (lit 0xe378a0ed))
    pad 5 += at 0 ⊕ lit 0x3e17add3
    call major_2 (at 8)
  when (branch == 11) do
    try_odd (pad 18) (minor_10 (lit 0xbd149bd9))
    minor_32 (lit 0x6476f303)
    call major_5 seed_val
  pad 17 += my_sqrt (at 12)
  when (branch == 10)
      do pad 13 *= lit 0xa02fe00; pad 12 += at 6 ⊞ lit 0x21d7bf61; call major_12 (at 19)
  when (branch == 3) do pad 13 *= lit 0x111b84cd; minor_30; call major_11 (at 2)
  pad 7 ^= at 9 ⊠ lit 0x27219096
  when (branch == 2) do
    pad 6 += at 19 ⊟ lit 0x3f5675d6
    pad 16 += lit 0xfe49a900
    call major_13 (at 15)
    try_odd (pad 0) minor_6
    pad 19 ^= choose (my_cos (at 9)) (lit 0x57337b8) (at 14)
    call major_22 (at 19)
  rol_eq (pad 2) (lit 0x6c0798b3 ⊕ seed_val)

-- It stays inside the array.
pub major_8-SafeFlow : SafeFlow major_8
unfolding major_8
major_8-SafeFlow =
    search
      (
        minor_rules, major_1-SafeFlow, major_11-SafeFlow, major_12-SafeFlow, major_13-SafeFlow,
        major_14-SafeFlow, major_16-SafeFlow, major_2-SafeFlow, major_21-SafeFlow,
        major_22-SafeFlow, major_5-SafeFlow, major_6-SafeFlow, major_9-SafeFlow,
      )
      depth 500 fits 100000
