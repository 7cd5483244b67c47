-- ===== src/FastTrack/EncType20/Major13.antt =====
-- `major_13` of networks/fasttrack/enc_type_20.c.
use addnas_mldonkey.Base.{◌==◌}
use addnas_mldonkey.FastTrack.Mix.{pad, seed, at, seed_val, lit, rol, ◌⊞◌, ◌⊟◌, ◌⊠◌, ◌⋒◌, ◌⊕◌, ◌⋓◌}
use addnas_mldonkey.FastTrack.Flow.{
  Flow, my_sin, my_sqrt, choose, ror_eq, try_odd, switch, when, call, ◌⊲◌, ◌+=◌, ◌-=◌, ◌*=◌, ◌&=◌,
  ◌|=◌, ◌^=◌, ◌>>◌,
}
use addnas_mldonkey.FastTrack.Flow.Safe.{SafeFlow}
use addnas_mldonkey.FastTrack.EncType20.Minor.{
  minor_1, minor_10, minor_12, minor_13, minor_17, minor_20, minor_26, minor_28, minor_29, minor_3,
  minor_31, minor_4, minor_5, minor_6, minor_7, minor_8, minor_9,
}
use addnas_mldonkey.FastTrack.EncType20.Minor.Safe.{minor_rules}
use addnas_mldonkey.FastTrack.EncType20.Major1.{major_1, major_1-SafeFlow}
use addnas_mldonkey.FastTrack.EncType20.Major11.{major_11, major_11-SafeFlow}
use addnas_mldonkey.FastTrack.EncType20.Major12.{major_12, major_12-SafeFlow}
use addnas_mldonkey.FastTrack.EncType20.Major14.{major_14, major_14-SafeFlow}
use addnas_mldonkey.FastTrack.EncType20.Major15.{major_15, major_15-SafeFlow}
use addnas_mldonkey.FastTrack.EncType20.Major16.{major_16, major_16-SafeFlow}
use addnas_mldonkey.FastTrack.EncType20.Major2.{major_2, major_2-SafeFlow}
use addnas_mldonkey.FastTrack.EncType20.Major21.{major_21, major_21-SafeFlow}
use addnas_mldonkey.FastTrack.EncType20.Major3.{major_3, major_3-SafeFlow}
use addnas_mldonkey.FastTrack.EncType20.Major5.{major_5, major_5-SafeFlow}
use addnas_mldonkey.FastTrack.EncType20.Major6.{major_6, major_6-SafeFlow}
use addnas_mldonkey.FastTrack.EncType20.Major9.{major_9, major_9-SafeFlow}

unfoldable pub major_13 : Flow
major_13 = switch (((at 4 ⊕ seed_val) ⊕ at 18) ⋒ lit 15) λ branch. do
  when (branch == 12) do minor_29; pad 9 |= at 7 ⊕ lit 0x2a19119f; call major_15 (at 11)
  when (branch == 4)
      do ror_eq (pad 9) (lit 10); pad 12 ^= at 15 ⊟ lit 0xf5cfde0; call major_3 seed_val
  seed ^= at 1 ⊠ lit 0x6c
  when (branch == 1) do
    try_odd (pad 11) (minor_12 (lit 0xad86172c))
    pad 12 ^= at 15 ⊟ lit 0xf5cfde0
    call major_21 (at 7)
  when (branch == 9) do pad 0 += at 6 ⊠ lit 0x3c; pad 9 &= lit 0xa2cc0e51; call major_16 (at 10)
  pad 11 += at 8 ⊟ lit 0xef3b680
  when (branch == 5)
      do minor_20; pad 2 ^= choose (my_sin (at 13)) (lit 0xfd08092) (at 10); call major_1 seed_val
  when (branch == 2) do pad 12 += lit 0x1f3bc7f4; pad 9 += rol (at 4) (lit 9); call major_14 (at 3)
  pad 19 -= seed_val ⊕ lit 0x42b04005
  when (branch == 8)
      do try_odd (pad 2) minor_13; pad 0 += at 18 ⊕ lit 0x4ac16b8d; call major_6 (at 2)
  when (branch == 3) do try_odd (pad 2) minor_13; minor_17; call major_9 seed_val
  pad 0 += my_sqrt (at 16)
  when (branch == 11)
      do pad 12 ^= at 15 ⊟ lit 0xf5cfde0; ror_eq (pad 4) (lit 0x19); call major_2 (at 19)
  when (branch == 13) do try_odd (pad 16) minor_4; minor_26; call major_5 (at 7)
  seed += at 17 ⋓ lit 0xead7ac4a
  when (branch == 1)
      do try_odd (pad 8) (minor_1 (lit 0xd3280a0)); pad 7 ^= lit 0x3eb9d37; call major_12 (at 12)
  when (branch == 14) do minor_28; minor_31 (lit 0x1f); call major_11 seed_val
  ror_eq (pad 2) (choose (at 15 ⊲ 0x3f2998c) (at 15) seed_val)
  when (branch == 5)
      do try_odd (pad 11) (minor_12 (lit 0x2dd0e73)); minor_26; call major_15 seed_val
  when (branch == 3) do
    try_odd (pad 12) (minor_9 (lit 0x21602b81))
    pad 13 *= lit 0x52fa4a96
    call major_3 seed_val
  pad 4 += at 2 ⊕ lit 0x1579499
  when (branch == 10)
      do try_odd (pad 17) minor_7; pad 5 += at 0 ⊕ lit 0x3e17add3; call major_21 (at 5)
  when (branch == 0) do try_odd (pad 10) minor_5; pad 0 += at 6 ⊠ lit 0x3c; call major_16 (at 8)
  seed -= at 2 ⊠ lit 0x74
  when (branch == 0) do pad 13 -= at 1; pad 19 ^= at 15 ⊕ lit 0x3574ed3; call major_1 seed_val
  when (branch == 15) do
    pad 9 &= lit 0x334ce7cf
    try_odd (pad 18) (minor_10 (lit 0xbcbc7bb))
    call major_14 seed_val
  pad 10 -= at 10 ⋓ lit 0xae9eedbf
  when (branch == 6) do try_odd (pad 10) minor_3; try_odd (pad 0) minor_6; call major_6 (at 11)
  when (branch == 4) do
    pad 2 ^= choose (my_sin (at 13)) (lit 0xfd08092) (at 10)
    pad 13 *= lit 0x9f7e2a0
    call major_9 (at 19)
  seed += at 17 ⊕ lit 0xae9eedbf
  when (branch == 7)
      do try_odd (pad 12) minor_8; pad 18 *= at 10 ⊞ lit 0x466e09cf; call major_2 (at 8)
  when (branch == 2)
      do try_odd (pad 10) minor_3; pad 9 |= at 7 ⊕ lit 0x2a19119f; call major_5 (at 18)
  pad 16 -= choose (at 11 ⊲ 0x1e7d86ee) (at 11) seed_val

-- It stays inside the array.
pub major_13-SafeFlow : SafeFlow major_13
unfolding major_13
major_13-SafeFlow =
    search
      (
        minor_rules, major_1-SafeFlow, major_11-SafeFlow, major_12-SafeFlow, major_14-SafeFlow,
        major_15-SafeFlow, major_16-SafeFlow, major_2-SafeFlow, major_21-SafeFlow, major_3-SafeFlow,
        major_5-SafeFlow, major_6-SafeFlow, major_9-SafeFlow,
      )
      depth 500 fits 100000
