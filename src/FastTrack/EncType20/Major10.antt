-- ===== src/FastTrack/EncType20/Major10.antt =====
-- `major_10` of networks/fasttrack/enc_type_20.c.
use addnas_mldonkey.Base.{◌==◌}
use addnas_mldonkey.FastTrack.Mix.{pad, seed, at, seed_val, lit, ◌⊞◌, ◌⊟◌, ◌⊠◌, ◌⋒◌, ◌⊕◌}
use addnas_mldonkey.FastTrack.Flow.{
  Flow, my_cos, my_sin, choose, rol_eq, try_odd, switch, when, call, ◌⊲◌, ◌+=◌, ◌-=◌, ◌*=◌, ◌&=◌,
  ◌|=◌, ◌^=◌, ◌>>◌,
}
use addnas_mldonkey.FastTrack.Flow.Safe.{SafeFlow}
use addnas_mldonkey.FastTrack.EncType20.Minor.{
  minor_10, minor_12, minor_13, minor_19, minor_22, minor_26, minor_28, minor_29, minor_3, minor_31,
  minor_32, minor_35, minor_6, minor_7, minor_8,
}
use addnas_mldonkey.FastTrack.EncType20.Minor.Safe.{minor_rules}
use addnas_mldonkey.FastTrack.EncType20.Major1.{major_1, major_1-SafeFlow}
use addnas_mldonkey.FastTrack.EncType20.Major11.{major_11, major_11-SafeFlow}
use addnas_mldonkey.FastTrack.EncType20.Major12.{major_12, major_12-SafeFlow}
use addnas_mldonkey.FastTrack.EncType20.Major13.{major_13, major_13-SafeFlow}
use addnas_mldonkey.FastTrack.EncType20.Major14.{major_14, major_14-SafeFlow}
use addnas_mldonkey.FastTrack.EncType20.Major16.{major_16, major_16-SafeFlow}
use addnas_mldonkey.FastTrack.EncType20.Major2.{major_2, major_2-SafeFlow}
use addnas_mldonkey.FastTrack.EncType20.Major22.{major_22, major_22-SafeFlow}
use addnas_mldonkey.FastTrack.EncType20.Major5.{major_5, major_5-SafeFlow}
use addnas_mldonkey.FastTrack.EncType20.Major6.{major_6, major_6-SafeFlow}
use addnas_mldonkey.FastTrack.EncType20.Major8.{major_8, major_8-SafeFlow}
use addnas_mldonkey.FastTrack.EncType20.Major9.{major_9, major_9-SafeFlow}

unfoldable pub major_10 : Flow
major_10 = switch (((at 4 ⊕ at 12) ⊕ at 17) ⋒ lit 15) λ branch. do
  when (branch == 9) do
    try_odd (pad 11) (minor_12 (lit 0x9febcd24))
    pad 7 &= lit 0x259cf308
    call major_16 (at 14)
  when (branch == 4)
      do pad 6 ^= lit 0xa7e6f9b9; pad 10 *= at 10 ⊟ lit 0x5eae6bf; call major_1 (at 2)
  pad 9 += choose (at 11 ⊲ 0x3d7f80c) (at 11) (at 9)
  when (branch == 2)
      do pad 12 += at 6 ⊞ lit 0x21d7bf61; pad 14 |= at 3 ⊕ lit 0x4345732; call major_9 (at 1)
  when (branch == 6) do
    try_odd (pad 18) (minor_10 (lit 0xece6bfa0))
    pad 14 |= at 3 ⊕ lit 0x4345732
    call major_14 seed_val
  when (branch == 8)
      do try_odd (pad 17) minor_7; pad 18 *= at 10 ⊞ lit 0x466e09cf; call major_6 (at 12)
  pad 10 *= choose (my_cos seed_val) (lit 0x16b578ee) (at 2)
  when (branch == 6) do minor_19; minor_29; call major_2 (at 10)
  when (branch == 13) do pad 9 ^= at 7 ⊠ lit 0x44; minor_35; call major_5 (at 10)
  pad 17 += seed_val ⊠ lit 0x4d
  when (branch == 1) do
    minor_26
    pad 19 ^= choose (my_cos (at 9)) (lit 0x57337b8) (at 14)
    call major_12 seed_val
    pad 19 ^= at 15 ⊕ lit 0x3574ed3
    pad 10 += lit 0x9f2550bd
    call major_13 seed_val
  when (branch == 14) do try_odd (pad 12) minor_8; minor_31 (lit 0x7); call major_11 (at 19)
  rol_eq seed (at 7 ⊠ lit 0xd)
  when (branch == 12)
      do pad 9 &= lit 0x2f23cdc6; pad 10 *= at 10 ⊟ lit 0x5eae6bf; call major_22 (at 2)
  when (branch == 3) do
    minor_28
    minor_26
    call major_8 (at 4)
    pad 12 *= at 12
    try_odd (pad 0) minor_6
    call major_16 (at 18)
  pad 4 += choose (my_sin (at 0)) (lit 0x1873296) (at 1)
  when (branch == 10) do minor_26; try_odd (pad 2) minor_13; call major_1 (at 8)
  when (branch == 4) do pad 12 *= lit 0xf44cb55; pad 16 += lit 0x75a864cf; call major_14 (at 4)
  pad 12 += lit 0x1c0bd6db ⊟ at 11
  when (branch == 2) do
    pad 13 *= lit 0x17b441db
    try_odd (pad 11) (minor_12 (lit 0x8951503f))
    call major_9 (at 19)
  when (branch == 7) do try_odd (pad 17) minor_7; minor_26; call major_6 (at 14)
  when (branch == 11)
      do pad 0 += at 6 ⊠ lit 0x3c; pad 4 -= at 17 ⊕ lit 0x2217cf47; call major_2 (at 8)
  pad 18 -= at 6 ⊠ lit 0x2c
  when (branch == 0) do pad 13 *= lit 0x1855aabc; try_odd (pad 10) minor_3; call major_12 seed_val
  when (branch == 5)
      do pad 18 *= at 10 ⊞ lit 0x466e09cf; pad 9 ^= at 7 ⊠ lit 0x44; call major_11 (at 10)
  when (branch == 7) do pad 18 *= at 10 ⊞ lit 0x466e09cf; minor_29; call major_5 (at 15)
  pad 6 ^= at 16 ⊕ lit 0x354e354d
  when (branch == 0) do try_odd (pad 12) minor_8; minor_22; call major_8 (at 8)
  when (branch == 5)
      do pad 6 += lit 0xfe07af0e ⊟ at 3; pad 13 *= lit 0xa02fe00; call major_16 (at 10)
  when (branch == 8)
      do pad 14 |= at 3 ⊕ lit 0x4345732; minor_32 (lit 0x8a0e1ad7); call major_22 (at 8)
  when (branch == 15) do pad 9 |= at 7 ⊕ lit 0x2a19119f; minor_28; call major_13 seed_val
  pad 3 += at 13 ⊞ lit 0x3ba9c809

-- It stays inside the array.
pub major_10-SafeFlow : SafeFlow major_10
unfolding major_10
major_10-SafeFlow =
    search
      (
        minor_rules, major_1-SafeFlow, major_11-SafeFlow, major_12-SafeFlow, major_13-SafeFlow,
        major_14-SafeFlow, major_16-SafeFlow, major_2-SafeFlow, major_22-SafeFlow, major_5-SafeFlow,
        major_6-SafeFlow, major_8-SafeFlow, major_9-SafeFlow,
      )
      depth 500 fits 100000
