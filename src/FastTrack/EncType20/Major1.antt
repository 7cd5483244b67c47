-- ===== src/FastTrack/EncType20/Major1.antt =====
-- `major_1` of networks/fasttrack/enc_type_20.c.
use addnas_mldonkey.Base.{◌==◌}
use addnas_mldonkey.FastTrack.Mix.{pad, seed, at, seed_val, lit, ror, ◌⊟◌, ◌⊠◌, ◌⋒◌, ◌⊕◌, ◌⋓◌, ◌⊘◌}
use addnas_mldonkey.FastTrack.Flow.{
  Flow, my_cos, my_sin, my_sqrt, choose, ror_eq, rol_eq, try_odd, switch, when, call, ◌⊲◌, ◌+=◌,
  ◌-=◌, ◌*=◌, ◌&=◌, ◌|=◌, ◌^=◌, ◌>>◌,
}
use addnas_mldonkey.FastTrack.Flow.Safe.{SafeFlow}
use addnas_mldonkey.FastTrack.EncType20.Minor.{
  minor_1, minor_19, minor_27, minor_28, minor_3, minor_30, minor_31, minor_32, minor_34, minor_4,
}
use addnas_mldonkey.FastTrack.EncType20.Minor.Safe.{minor_rules}
use addnas_mldonkey.FastTrack.EncType20.Major15.{major_15, major_15-SafeFlow}
use addnas_mldonkey.FastTrack.EncType20.Major16.{major_16, major_16-SafeFlow}
use addnas_mldonkey.FastTrack.EncType20.Major17.{major_17, major_17-SafeFlow}
use addnas_mldonkey.FastTrack.EncType20.Major18.{major_18, major_18-SafeFlow}
use addnas_mldonkey.FastTrack.EncType20.Major19.{major_19, major_19-SafeFlow}
use addnas_mldonkey.FastTrack.EncType20.Major21.{major_21, major_21-SafeFlow}
use addnas_mldonkey.FastTrack.EncType20.Major23.{major_23, major_23-SafeFlow}
use addnas_mldonkey.FastTrack.EncType20.Major24.{major_24, major_24-SafeFlow}
use addnas_mldonkey.FastTrack.EncType20.Major25.{major_25, major_25-SafeFlow}
use addnas_mldonkey.FastTrack.EncType20.Major3.{major_3, major_3-SafeFlow}
use addnas_mldonkey.FastTrack.EncType20.Major4.{major_4, major_4-SafeFlow}
use addnas_mldonkey.FastTrack.EncType20.Minor36.{minor_36, minor_36-SafeFlow}

unfoldable pub major_1 : Flow
major_1 = switch (((at 17 ⊕ at 4) ⊕ at 13) ⊘ 13) λ branch. do
  when (branch == 9) do pad 7 |= lit 0x3e73450d; minor_31 (lit 0x9); call minor_36 (lit 0)
  pad 11 &= at 19 ⋒ lit 0x170b54ed
  when (branch == 10) do pad 12 ^= at 15 ⊟ lit 0xf5cfde0; minor_27; call major_23 (at 8)
  ror_eq (pad 1) (choose (at 14 ⊲ 0x164d8d96) (at 14) (at 4))
  when (branch == 12) do try_odd (pad 8) (minor_1 (lit 0xc0948cf0)); minor_28; call major_24 (at 18)
  when (branch == 0) do pad 12 ^= at 15 ⊟ lit 0xf5cfde0; minor_31 (lit 0x15); call major_19 (at 12)
  rol_eq (pad 6) (at 13 ⊕ lit 0x2)
  when (branch == 6) do
    try_odd (pad 1) (ror_eq (pad 1) (lit 0x4))
    pad 9 ^= at 7 ⊠ lit 0x44
    call major_25 seed_val
  when (branch == 3) do
    pad 2 ^= choose (my_sin (at 13)) (lit 0xfd08092) (at 10)
    pad 13 *= ror (at 3) (lit 5)
    call major_17 (at 15)
  when (branch == 0) do minor_19; pad 13 *= ror (at 3) (lit 5); call major_4 (at 8)
  seed += choose (my_sin seed_val) (lit 0x160df35d) seed_val
  seed &= at 19 ⋓ lit 0xe00682c6
  when (branch == 1)
      do pad 7 &= at 13 ⊕ lit 0x21aaf758; pad 9 |= at 7 ⊕ lit 0x2a19119f; call major_18 (at 12)
  pad 16 += choose (my_sin seed_val) (lit 0xe00682c6) (at 7)
  when (branch == 2) do
    pad 13 += choose (at 15 ⊲ 0x137bffeb) (at 15) (at 11)
    pad 19 ^= choose (my_cos (at 9)) (lit 0x57337b8) (at 14)
    call major_15 seed_val
  when (branch == 7)
      do pad 4 -= at 17 ⊕ lit 0x2217cf47; pad 13 *= ror (at 3) (lit 5); call major_3 (at 14)
  when (branch == 4)
      do pad 19 ^= choose (my_cos (at 9)) (lit 0x57337b8) (at 14); minor_34; call major_21 (at 18)
  pad 5 *= my_sqrt (at 9)
  when (branch == 11) do ror_eq (pad 4) (lit 0x2); minor_32 (lit 0x8517ae30); call major_16 (at 4)
  pad 13 &= at 18 ⊟ lit 0xeb6dee4
  when (branch == 5) do minor_30; try_odd (pad 10) minor_3; call minor_36 (lit 0)
  when (branch == 8) do pad 7 |= lit 0x7de964ed; try_odd (pad 16) minor_4; call major_23 (at 3)

-- It stays inside the array.
pub major_1-SafeFlow : SafeFlow major_1
unfolding major_1
major_1-SafeFlow =
    search
      (
        minor_rules, major_15-SafeFlow, major_16-SafeFlow, major_17-SafeFlow, major_18-SafeFlow,
        major_19-SafeFlow, major_21-SafeFlow, major_23-SafeFlow, major_24-SafeFlow,
        major_25-SafeFlow, major_3-SafeFlow, major_4-SafeFlow, minor_36-SafeFlow,
      )
      depth 500 fits 100000
