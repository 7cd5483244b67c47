-- ===== src/FastTrack/EncType20/Major11.antt =====
-- `major_11` of networks/fasttrack/enc_type_20.c.
use addnas_mldonkey.Base.{◌==◌}
use addnas_mldonkey.FastTrack.Mix.{pad, seed, at, seed_val, lit, rol, ◌⊞◌, ◌⊟◌, ◌⊠◌, ◌⋒◌, ◌⊕◌}
use addnas_mldonkey.FastTrack.Flow.{
  Flow, my_cos, my_sin, choose, ror_eq, try_odd, switch, when, call, ◌+=◌, ◌-=◌, ◌*=◌, ◌&=◌, ◌|=◌,
  ◌^=◌, ◌>>◌,
}
use addnas_mldonkey.FastTrack.Flow.Safe.{SafeFlow}
use addnas_mldonkey.FastTrack.EncType20.Minor.{
  minor_17, minor_19, minor_2, minor_26, minor_28, minor_29, minor_3, minor_31, minor_34, minor_4,
  minor_5, minor_6, minor_8,
}
use addnas_mldonkey.FastTrack.EncType20.Minor.Safe.{minor_rules}
use addnas_mldonkey.FastTrack.EncType20.Major1.{major_1, major_1-SafeFlow}
use addnas_mldonkey.FastTrack.EncType20.Major12.{major_12, major_12-SafeFlow}
use addnas_mldonkey.FastTrack.EncType20.Major14.{major_14, major_14-SafeFlow}
use addnas_mldonkey.FastTrack.EncType20.Major15.{major_15, major_15-SafeFlow}
use addnas_mldonkey.FastTrack.EncType20.Major16.{major_16, major_16-SafeFlow}
use addnas_mldonkey.FastTrack.EncType20.Major18.{major_18, major_18-SafeFlow}
use addnas_mldonkey.FastTrack.EncType20.Major2.{major_2, major_2-SafeFlow}
use addnas_mldonkey.FastTrack.EncType20.Major21.{major_21, major_21-SafeFlow}
use addnas_mldonkey.FastTrack.EncType20.Major3.{major_3, major_3-SafeFlow}
use addnas_mldonkey.FastTrack.EncType20.Major5.{major_5, major_5-SafeFlow}
use addnas_mldonkey.FastTrack.EncType20.Major6.{major_6, major_6-SafeFlow}
use addnas_mldonkey.FastTrack.EncType20.Major9.{major_9, major_9-SafeFlow}

unfoldable pub major_11 : Flow
major_11 = switch (((at 6 ⊕ seed_val) ⊕ at 14) ⋒ lit 15) λ branch. do
  when (branch == 2) do pad 19 ^= at 15 ⊕ lit 0x3574ed3; pad 13 -= at 1; call major_18 (at 0)
  when (branch == 0) do pad 7 ^= lit 0x414517ea; try_odd (pad 16) minor_4; call major_15 (at 13)
  pad 14 &= seed_val ⊠ lit 0x3f
  when (branch == 10) do minor_19; pad 9 &= lit 0x38063558; call major_3 (at 10)
  when (branch == 15) do minor_34; pad 12 += lit 0x5c1481dd; call major_21 (at 11)
  ror_eq (pad 10) (at 14 ⊠ lit 0x13)
  when (branch == 8) do
    pad 19 ^= choose (my_cos (at 9)) (lit 0x57337b8) (at 14)
    pad 12 ^= at 15 ⊟ lit 0xf5cfde0
    call major_16 seed_val
  when (branch == 4) do pad 3 -= at 0 ⊕ lit 0x185f3b0d; pad 6 ^= lit 0xa8115127; call major_1 (at 5)
  pad 11 ^= seed_val ⊟ lit 0x3c17609c
  when (branch == 1) do pad 12 += at 6 ⊕ lit 0x211f5e40; minor_29; call major_14 seed_val
  when (branch == 7) do ror_eq (pad 9) (lit 11); try_odd (pad 10) minor_3; call major_6 (at 11)
  pad 14 += choose (my_sin (at 9)) (lit 0x2d3f1771) (at 11)
  when (branch == 5)
      do try_odd (pad 12) minor_8; pad 0 += at 18 ⊕ lit 0x4ac16b8d; call major_9 (at 9)
  when (branch == 2) do pad 12 *= lit 0xf44cb55; minor_31 (lit 0x1f); call major_2 (at 13)
  when (branch == 1)
      do pad 9 &= lit 0x3f34e168; pad 18 *= at 10 ⊞ lit 0x466e09cf; call major_5 seed_val
  pad 18 &= at 17 ⊞ lit 0x21012257
  when (branch == 14) do
    pad 6 += lit 0xfe07af0e ⊟ at 3
    try_odd (pad 2) (minor_2 (lit 0x51f9a91a))
    call major_12 (at 14)
  when (branch == 12)
      do pad 14 |= at 3 ⊕ lit 0x4345732; pad 16 += lit 0x485c892b; call major_18 (at 12)
  pad 19 &= at 10 ⊕ lit 0x6fc516d5
  when (branch == 6)
      do try_odd (pad 10) minor_5; pad 12 += at 6 ⊕ lit 0x211f5e40; call major_15 (at 13)
  when (branch == 11) do try_odd (pad 0) minor_6; minor_28; call major_3 seed_val
  pad 8 ^= at 11 ⊠ lit 0x7b
  when (branch == 4) do pad 2 *= at 3 ⊞ lit 0xd6863a6; minor_26; call major_21 (at 4)
  when (branch == 3) do pad 19 ^= at 15 ⊕ lit 0x3574ed3; minor_17; call major_16 (at 9)
  pad 0 += at 13 ⊞ lit 0x88a77a94
  when (branch == 0) do
    try_odd (pad 2) (minor_2 (lit 0xf10f9d87))
    pad 12 ^= at 15 ⊟ lit 0xf5cfde0
    call major_1 (at 15)
  when (branch == 9) do
    pad 13 -= at 1
    pad 2 ^= choose (my_sin (at 13)) (lit 0xfd08092) (at 10)
    call major_14 (at 18)
  seed *= at 8 ⊟ lit 0x44260e37
  when (branch == 3) do minor_26; pad 10 += lit 0x8958821; call major_6 (at 8)
  when (branch == 13)
      do pad 0 += at 18 ⊕ lit 0x4ac16b8d; pad 7 ^= lit 0x129d6c5e; call major_9 seed_val
  pad 2 &= rol (at 19) (lit 14)

-- It stays inside the array.
pub major_11-SafeFlow : SafeFlow major_11
unfolding major_11
major_11-SafeFlow =
    search
      (
        minor_rules, major_1-SafeFlow, major_12-SafeFlow, major_14-SafeFlow, major_15-SafeFlow,
        major_16-SafeFlow, major_18-SafeFlow, major_2-SafeFlow, major_21-SafeFlow, major_3-SafeFlow,
        major_5-SafeFlow, major_6-SafeFlow, major_9-SafeFlow,
      )
      depth 500 fits 100000
