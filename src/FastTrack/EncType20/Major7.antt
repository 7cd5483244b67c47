-- ===== src/FastTrack/EncType20/Major7.antt =====
-- `major_7` of networks/fasttrack/enc_type_20.c.
use addnas_mldonkey.Base.{◌==◌}
use addnas_mldonkey.FastTrack.Mix.{pad, seed, at, seed_val, lit, rol, ◌⊞◌, ◌⊟◌, ◌⊠◌, ◌⋒◌, ◌⊕◌}
use addnas_mldonkey.FastTrack.Flow.{
  Flow, my_sin, choose, shl, ror_eq, rol_eq, try_odd, switch, when, call, ◌⊲◌, ◌+=◌, ◌-=◌, ◌*=◌,
  ◌&=◌, ◌|=◌, ◌^=◌, ◌>>◌,
}
use addnas_mldonkey.FastTrack.Flow.Safe.{SafeFlow}
use addnas_mldonkey.FastTrack.EncType20.Minor.{
  minor_2, minor_22, minor_27, minor_28, minor_3, minor_31, minor_34, minor_9,
}
use addnas_mldonkey.FastTrack.EncType20.Minor.Safe.{minor_rules}
use addnas_mldonkey.FastTrack.EncType20.Major1.{major_1, major_1-SafeFlow}
use addnas_mldonkey.FastTrack.EncType20.Major10.{major_10, major_10-SafeFlow}
use addnas_mldonkey.FastTrack.EncType20.Major11.{major_11, major_11-SafeFlow}
use addnas_mldonkey.FastTrack.EncType20.Major12.{major_12, major_12-SafeFlow}
use addnas_mldonkey.FastTrack.EncType20.Major13.{major_13, major_13-SafeFlow}
use addnas_mldonkey.FastTrack.EncType20.Major14.{major_14, major_14-SafeFlow}
use addnas_mldonkey.FastTrack.EncType20.Major2.{major_2, major_2-SafeFlow}
use addnas_mldonkey.FastTrack.EncType20.Major22.{major_22, major_22-SafeFlow}
use addnas_mldonkey.FastTrack.EncType20.Major5.{major_5, major_5-SafeFlow}
use addnas_mldonkey.FastTrack.EncType20.Major6.{major_6, major_6-SafeFlow}
use addnas_mldonkey.FastTrack.EncType20.Major8.{major_8, major_8-SafeFlow}
use addnas_mldonkey.FastTrack.EncType20.Major9.{major_9, major_9-SafeFlow}

unfoldable pub major_7 : Flow
major_7 = switch (((at 10 ⊕ at 11) ⊕ at 18) ⋒ lit 15) λ branch. do
  when (branch == 3) do minor_27; try_odd (pad 2) (minor_2 (lit 0x54bcde17)); call major_1 (at 14)
  when (branch == 9) do pad 7 &= at 13 ⊕ lit 0x21aaf758; pad 13 -= at 1; call major_14 (at 12)
  pad 8 |= lit 0xc6ef5e80 ⊞ at 1
  when (branch == 2)
      do pad 6 += at 19 ⊟ lit 0x3f5675d6; pad 6 += lit 0xfe07af0e ⊟ at 3; call major_6 (at 16)
  when (branch == 5) do pad 5 -= at 15; pad 16 += lit 0x3fa3dc2f; call major_9 (at 5)
  when (branch == 1) do
    pad 13 += choose (at 15 ⊲ 0x137bffeb) (at 15) (at 11)
    pad 14 |= at 3 ⊕ lit 0x4345732
    call major_2 (at 3)
  pad 15 -= lit 0xc6ef5e80 ⊞ at 19
  when (branch == 4) do pad 2 ^= shl (at 15) 5; minor_28; call major_5 (at 7)
  when (branch == 1) do pad 0 += at 6 ⊠ lit 0x3c; minor_31 (lit 0x15); call major_12 (at 16)
  when (branch == 9)
      do pad 5 += at 0 ⊕ lit 0x3e17add3; pad 9 &= lit 0x4bd89b02; call major_11 (at 19)
  seed -= at 0 ⊕ lit 0x3b61016b
  when (branch == 4)
      do pad 5 -= at 15; try_odd (pad 12) (minor_9 (lit 0x1984a749)); call major_13 (at 3)
  when (branch == 3) do pad 9 += rol (at 4) (lit 9); minor_28; call major_22 (at 4)
  when (branch == 7) do try_odd (pad 10) minor_3; minor_31 (lit 0xd); call major_8 (at 5)
  rol_eq (pad 11) (at 10 ⊕ lit 0x1a)
  when (branch == 8)
      do pad 18 -= at 13 ⊕ lit 0x154abcdf; pad 19 += lit 0x12b9e29d ⊟ at 12; call major_10 seed_val
  when (branch == 14)
      do pad 19 += lit 0x12b9e29d ⊟ at 12; ror_eq (pad 9) (lit 3); call major_1 seed_val
  seed -= at 14 ⊠ lit 0xc02e189f
  when (branch == 0) do pad 6 ^= lit 0x94eaa20d; minor_27; call major_14 (at 6)
  when (branch == 13) do pad 12 += lit 0x2ac57dfa; pad 2 ^= shl (at 15) 5; call major_6 (at 4)
  when (branch == 8) do pad 18 *= at 10 ⊞ lit 0x466e09cf; pad 13 -= at 1; call major_9 seed_val
  pad 4 += lit 0xa207344d ⊟ seed_val
  when (branch == 12)
      do try_odd (pad 2) (minor_2 (lit 0x80a1da17)); pad 13 *= lit 0xa02fe00; call major_2 (at 3)
  when (branch == 2) do pad 13 *= lit 0x6aa5cc8c; pad 6 ^= lit 0xaefb322; call major_5 (at 9)
  when (branch == 0) do minor_31 (lit 0xb); pad 5 += at 0 ⊕ lit 0x3e17add3; call major_12 (at 5)
  seed ^= at 18 ⊕ lit 0xe6830c9
  when (branch == 6)
      do pad 9 |= at 7 ⊕ lit 0x2a19119f; pad 7 &= at 13 ⊕ lit 0x21aaf758; call major_11 seed_val
  when (branch == 7) do
    pad 3 -= at 0 ⊕ lit 0x185f3b0d
    try_odd (pad 2) (minor_2 (lit 0xb11da063))
    call major_13 (at 3)
  when (branch == 15) do minor_34; pad 4 ^= lit 0x41e634f6; call major_22 (at 17)
  pad 0 ^= choose (my_sin seed_val) (lit 0x8b50cd51) (at 8)
  when (branch == 11) do minor_28; pad 2 ^= shl (at 15) 5; call major_8 seed_val
  when (branch == 5)
      do pad 9 += rol (at 4) (lit 9); pad 7 &= at 13 ⊕ lit 0x21aaf758; call major_10 (at 16)
  seed += at 1 ⊠ lit 0x3e
  when (branch == 6) do minor_34; ror_eq (pad 4) (lit 0x9); call major_1 (at 12)
  when (branch == 10) do minor_22; pad 12 ^= at 15 ⊟ lit 0xf5cfde0; call major_14 seed_val
  pad 1 ^= at 2 ⋒ lit 0x3b627777

-- It stays inside the array.
pub major_7-SafeFlow : SafeFlow major_7
unfolding major_7
major_7-SafeFlow =
    search
      (
        minor_rules, major_1-SafeFlow, major_10-SafeFlow, major_11-SafeFlow, major_12-SafeFlow,
        major_13-SafeFlow, major_14-SafeFlow, major_2-SafeFlow, major_22-SafeFlow, major_5-SafeFlow,
        major_6-SafeFlow, major_8-SafeFlow, major_9-SafeFlow,
      )
      depth 500 fits 100000
