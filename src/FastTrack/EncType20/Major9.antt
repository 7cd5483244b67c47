-- ===== src/FastTrack/EncType20/Major9.antt =====
-- `major_9` of networks/fasttrack/enc_type_20.c.
use addnas_mldonkey.Base.{◌==◌}
use addnas_mldonkey.FastTrack.Mix.{
  pad, seed, at, seed_val, lit, ror, rol, ◌⊞◌, ◌⊟◌, ◌⊠◌, ◌⋒◌, ◌⊕◌, ◌⋓◌,
}
use addnas_mldonkey.FastTrack.Flow.{
  Flow, my_cos, choose, ror_eq, rol_eq, try_odd, switch, when, call, ◌⊲◌, ◌+=◌, ◌-=◌, ◌*=◌, ◌&=◌,
  ◌|=◌, ◌^=◌, ◌>>◌,
}
use addnas_mldonkey.FastTrack.Flow.Safe.{SafeFlow}
use addnas_mldonkey.FastTrack.EncType20.Minor.{
  minor_12, minor_20, minor_22, minor_26, minor_27, minor_29, minor_4, minor_6, minor_7, minor_8,
}
use addnas_mldonkey.FastTrack.EncType20.Minor.Safe.{minor_rules}
use addnas_mldonkey.FastTrack.EncType20.Major1.{major_1, major_1-SafeFlow}
use addnas_mldonkey.FastTrack.EncType20.Major14.{major_14, major_14-SafeFlow}
use addnas_mldonkey.FastTrack.EncType20.Major15.{major_15, major_15-SafeFlow}
use addnas_mldonkey.FastTrack.EncType20.Major16.{major_16, major_16-SafeFlow}
use addnas_mldonkey.FastTrack.EncType20.Major17.{major_17, major_17-SafeFlow}
use addnas_mldonkey.FastTrack.EncType20.Major18.{major_18, major_18-SafeFlow}
use addnas_mldonkey.FastTrack.EncType20.Major19.{major_19, major_19-SafeFlow}
use addnas_mldonkey.FastTrack.EncType20.Major21.{major_21, major_21-SafeFlow}
use addnas_mldonkey.FastTrack.EncType20.Major25.{major_25, major_25-SafeFlow}
use addnas_mldonkey.FastTrack.EncType20.Major3.{major_3, major_3-SafeFlow}
use addnas_mldonkey.FastTrack.EncType20.Major4.{major_4, major_4-SafeFlow}
use addnas_mldonkey.FastTrack.EncType20.Major6.{major_6, major_6-SafeFlow}

unfoldable pub major_9 : Flow
major_9 = switch (at 8 ⋒ lit 15) λ branch. do
  when (branch == 10) do minor_29; pad 7 &= at 13 ⊕ lit 0x21aaf758; call major_19 (at 0)
  when (branch == 3) do pad 16 += lit 0x45e88961; try_odd (pad 12) minor_8; call major_25 (at 15)
  when (branch == 8) do try_odd (pad 0) minor_6; minor_22; call major_17 (at 2)
  pad 8 |= at 9 ⊠ lit 0x6a
  when (branch == 0) do pad 7 &= lit 0x30004a24; pad 9 ^= at 7 ⊠ lit 0x44; call major_4 (at 11)
  when (branch == 14) do
    pad 13 += choose (at 15 ⊲ 0x137bffeb) (at 15) (at 11)
    try_odd (pad 17) minor_7
    call major_18 (at 13)
  pad 10 &= at 6 ⊟ lit 0x1286a10
  when (branch == 12)
      do pad 9 += rol (at 4) (lit 9); try_odd (pad 16) minor_4; call major_15 (at 17)
  when (branch == 2) do try_odd (pad 12) minor_8; minor_20; call major_3 (at 13)
  seed |= seed_val ⊞ lit 0x20029bc7
  ror_eq (pad 14) (rol seed_val (lit 8))
  when (branch == 9) do pad 7 &= at 13 ⊕ lit 0x21aaf758; minor_26; call major_21 (at 5)
  seed += lit 0x176cf052 ⊟ at 12
  when (branch == 15)
      do pad 12 ^= at 15 ⊟ lit 0xf5cfde0; pad 13 *= lit 0xa02fe00; call major_16 seed_val
  when (branch == 1) do
    pad 13 *= ror (at 3) (lit 5)
    pad 19 ^= choose (my_cos (at 9)) (lit 0x57337b8) (at 14)
    call major_1 (at 17)
  rol_eq (pad 8) (at 4 ⋓ lit 0xf)
  when (branch == 5) do pad 9 ^= at 7 ⊠ lit 0x44; pad 7 &= lit 0x1df23f52; call major_14 (at 6)
  when (branch == 4) do pad 5 -= at 15; pad 6 ^= lit 0x851242df; call major_6 seed_val
  pad 13 *= at 2 ⊠ lit 0x65
  when (branch == 0) do
    pad 14 |= at 3 ⊕ lit 0x4345732
    pad 13 += choose (at 15 ⊲ 0x137bffeb) (at 15) (at 11)
    call major_19 (at 10)
  when (branch == 6) do minor_29; minor_22; call major_25 seed_val
  pad 11 |= ror (at 17) (lit 29)
  when (branch == 13)
      do pad 10 *= at 10 ⊟ lit 0x5eae6bf; pad 16 += lit 0x5e01d54b; call major_17 (at 18)
  pad 17 &= seed_val ⊠ lit 0x30
  when (branch == 7) do minor_27; try_odd (pad 11) (minor_12 (lit 0x65ec261)); call major_4 (at 0)
  when (branch == 11)
      do pad 14 |= at 3 ⊕ lit 0x4345732; pad 0 += at 18 ⊕ lit 0x4ac16b8d; call major_18 (at 16)
  pad 13 |= at 3 ⊠ lit 0x3e

-- It stays inside the array.
pub major_9-SafeFlow : SafeFlow major_9
unfolding major_9
major_9-SafeFlow =
    search
      (
        minor_rules, major_1-SafeFlow, major_14-SafeFlow, major_15-SafeFlow, major_16-SafeFlow,
        major_17-SafeFlow, major_18-SafeFlow, major_19-SafeFlow, major_21-SafeFlow,
        major_25-SafeFlow, major_3-SafeFlow, major_4-SafeFlow, major_6-SafeFlow,
      )
      depth 500 fits 100000
