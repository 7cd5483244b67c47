-- ===== src/FastTrack/EncType20/Mixing.antt =====
-- `mix` of networks/fasttrack/enc_type_20.c.
use addnas_mldonkey.Base.{◌==◌}
use addnas_mldonkey.FastTrack.Mix.{
  pad, seed, at, seed_val, lit, ror, rol, ◌⊞◌, ◌⊟◌, ◌⊠◌, ◌⋒◌, ◌⊕◌, ◌⋓◌,
}
use addnas_mldonkey.FastTrack.Flow.{
  Flow, my_sin, my_sqrt, choose, shl, ror_eq, rol_eq, try_odd, switch, when, call, ◌≔◌, ◌+=◌, ◌-=◌,
  ◌*=◌, ◌&=◌, ◌|=◌, ◌^=◌, ◌>>◌,
}
use addnas_mldonkey.FastTrack.Flow.Safe.{SafeFlow}
use addnas_mldonkey.FastTrack.EncType20.Minor.{
  minor_1, minor_13, minor_2, minor_20, minor_22, minor_28, minor_29, minor_30, minor_32, minor_35,
  minor_5, minor_7, minor_8, minor_9,
}
use addnas_mldonkey.FastTrack.EncType20.Minor.Safe.{minor_rules}
use addnas_mldonkey.FastTrack.EncType20.Major10.{major_10, major_10-SafeFlow}
use addnas_mldonkey.FastTrack.EncType20.Major11.{major_11, major_11-SafeFlow}
use addnas_mldonkey.FastTrack.EncType20.Major12.{major_12, major_12-SafeFlow}
use addnas_mldonkey.FastTrack.EncType20.Major13.{major_13, major_13-SafeFlow}
use addnas_mldonkey.FastTrack.EncType20.Major14.{major_14, major_14-SafeFlow}
use addnas_mldonkey.FastTrack.EncType20.Major2.{major_2, major_2-SafeFlow}
use addnas_mldonkey.FastTrack.EncType20.Major22.{major_22, major_22-SafeFlow}
use addnas_mldonkey.FastTrack.EncType20.Major5.{major_5, major_5-SafeFlow}
use addnas_mldonkey.FastTrack.EncType20.Major6.{major_6, major_6-SafeFlow}
use addnas_mldonkey.FastTrack.EncType20.Major7.{major_7, major_7-SafeFlow}
use addnas_mldonkey.FastTrack.EncType20.Major8.{major_8, major_8-SafeFlow}
use addnas_mldonkey.FastTrack.EncType20.Major9.{major_9, major_9-SafeFlow}

unfoldable pub mix : Flow
mix = switch (((at 5 ⊕ at 9) ⊕ at 19) ⋒ lit 15) λ branch. do
  when (branch == 0) do
    pad 2 ^= choose (my_sin (at 13)) (lit 0xfd08092) (at 10)
    try_odd (pad 10) minor_5
    call major_5 (lit 0x45835eb3)
  when (branch == 5) do try_odd (pad 12) minor_8; pad 12 += lit 0x33bd47dd; call major_6 (at 9)
  when (branch == 8) do minor_28; pad 6 += at 19 ⊟ lit 0x3f5675d6; call major_9 (at 10)
  when (branch == 9) do try_odd (pad 17) minor_7; try_odd (pad 2) minor_13; call major_14 seed_val
  when (branch == 10) do try_odd (pad 10) minor_5; pad 6 ^= lit 0x33b5c9ac; call major_2 (at 0)
  pad 2 ^= at 6 ⊞ lit 0x1847de17
  when (branch == 1)
      do pad 9 ^= lit 0x1df05ea2; pad 19 += lit 0x12b9e29d ⊟ at 12; call major_12 (lit 0x45835eb3)
  when (branch == 10) do minor_28; pad 12 *= at 12; call major_11 (at 6)
  pad 19 += at 12 ⊠ lit 0x68
  when (branch == 2) do
    minor_28
    pad 12 ^= at 15 ⊟ lit 0xf5cfde0
    call major_13 (at 19)
    pad 6 += at 19 ⊟ lit 0x3f5675d6
    pad 12 += lit 0x602283af
    call major_22 (at 0)
  when (branch == 6) do
    try_odd (pad 8) (minor_1 (lit 0x706a6bc))
    try_odd (pad 2) (minor_2 (lit 0x82b598a1))
    call major_8 (lit 0x45835eb3)
  pad 7 -= at 14 ⋒ lit 0x1ada7fa
  when (branch == 4) do minor_20; pad 12 += at 6 ⊞ lit 0x21d7bf61; call major_10 (at 16)
  when (branch == 6) do
    try_odd (pad 17) minor_7
    try_odd (pad 2) (minor_2 (lit 0xd2950f8c))
    call major_7 (lit 0x45835eb3)
  seed ≔ (at 0 ⊞ lit 0xd092d1bb) ⋒ lit 0x45835eb3
  when (branch == 3)
      do try_odd (pad 10) minor_5; pad 7 &= at 13 ⊕ lit 0x21aaf758; call major_9 (at 17)
  when (branch == 4) do pad 13 -= at 1; pad 18 *= at 10 ⊞ lit 0x466e09cf; call major_14 (at 5)
  when (branch == 7)
      do try_odd (pad 12) (minor_9 (lit 0x6d32760)); pad 9 ^= at 7 ⊠ lit 0x44; call major_6 (at 8)
  rol_eq (pad 8) (at 3 ⊕ lit 0x6)
  when (branch == 0)
      do pad 7 &= at 13 ⊕ lit 0x21aaf758; pad 14 |= at 3 ⊕ lit 0x4345732; call major_12 (at 9)
  when (branch == 5) do minor_22; minor_29; call major_2 (at 1)
  when (branch == 9) do pad 13 -= at 1; try_odd (pad 17) minor_7; call major_5 (at 2)
  pad 9 *= at 14 ⋓ lit 0xbbf1fbef
  when (branch == 15)
      do pad 12 += at 6 ⊕ lit 0x211f5e40; pad 5 += at 0 ⊕ lit 0x3e17add3; call major_11 (at 8)
  when (branch == 12) do pad 19 ^= at 15 ⊕ lit 0x3574ed3; minor_30; call major_13 (at 16)
  seed *= my_sqrt (at 1)
  when (branch == 11) do minor_32 (lit 0x678aae2c); minor_22; call major_22 (at 11)
  when (branch == 14) do pad 13 *= ror (at 3) (lit 5); minor_35; call major_8 (at 18)
  when (branch == 7) do ror_eq (pad 4) (lit 0x2); ror_eq (pad 9) (lit 4); call major_10 (at 0)
  pad 3 -= at 7 ⊕ lit 0x4e46f05d
  when (branch == 3) do pad 7 ^= lit 0xeda01e71; pad 13 -= at 1; call major_7 (at 11)
  when (branch == 8) do
    pad 2 ^= choose (my_sin (at 13)) (lit 0xfd08092) (at 10)
    pad 9 += rol (at 4) (lit 9)
    call major_14 (at 2)
  pad 19 ^= lit 0xb1bdd560 ⊕ seed_val
  when (branch == 1) do pad 12 ^= at 15 ⊟ lit 0xf5cfde0; pad 12 *= at 12; call major_9 (at 5)
  when (branch == 13)
      do pad 18 *= at 10 ⊞ lit 0x466e09cf; pad 2 ^= shl (at 15) 5; call major_6 (at 15)
  pad 6 ^= my_sqrt (at 5)

-- It stays inside the array.
pub mix-SafeFlow : SafeFlow mix
unfolding mix
mix-SafeFlow =
    search
      (
        minor_rules, major_10-SafeFlow, major_11-SafeFlow, major_12-SafeFlow, major_13-SafeFlow,
        major_14-SafeFlow, major_2-SafeFlow, major_22-SafeFlow, major_5-SafeFlow, major_6-SafeFlow,
        major_7-SafeFlow, major_8-SafeFlow, major_9-SafeFlow,
      )
      depth 500 fits 100000
