-- ===== src/FastTrack/EncType20/Major15.antt =====
-- `major_15` of networks/fasttrack/enc_type_20.c.
use addnas_mldonkey.Base.{◌==◌}
use addnas_mldonkey.FastTrack.Mix.{pad, seed, at, seed_val, lit, rol, ◌⊞◌, ◌⊟◌, ◌⋒◌, ◌⊕◌, ◌⊘◌}
use addnas_mldonkey.FastTrack.Flow.{
  Flow, my_sin, my_sqrt, choose, shl, ror_eq, rol_eq, try_odd, switch, when, call, ◌⊲◌, ◌+=◌, ◌*=◌,
  ◌&=◌, ◌|=◌, ◌^=◌, ◌>>◌,
}
use addnas_mldonkey.FastTrack.Flow.Safe.{SafeFlow}
use addnas_mldonkey.FastTrack.EncType20.Minor.{
  minor_19, minor_20, minor_22, minor_26, minor_27, minor_6, minor_9,
}
use addnas_mldonkey.FastTrack.EncType20.Minor.Safe.{minor_rules}
use addnas_mldonkey.FastTrack.EncType20.Major17.{major_17, major_17-SafeFlow}
use addnas_mldonkey.FastTrack.EncType20.Major18.{major_18, major_18-SafeFlow}
use addnas_mldonkey.FastTrack.EncType20.Major19.{major_19, major_19-SafeFlow}
use addnas_mldonkey.FastTrack.EncType20.Major23.{major_23, major_23-SafeFlow}
use addnas_mldonkey.FastTrack.EncType20.Major24.{major_24, major_24-SafeFlow}
use addnas_mldonkey.FastTrack.EncType20.Major25.{major_25, major_25-SafeFlow}
use addnas_mldonkey.FastTrack.EncType20.Major4.{major_4, major_4-SafeFlow}
use addnas_mldonkey.FastTrack.EncType20.Minor36.{minor_36, minor_36-SafeFlow}
use addnas_mldonkey.FastTrack.EncType20.Minor37.{minor_37, minor_37-SafeFlow}

unfoldable pub major_15 : Flow
major_15 = switch (((at 17 ⊕ seed_val) ⊕ at 19) ⊘ 9) λ branch. do
  ror_eq (pad 19) (at 19 ⊞ lit 0xa)
  when (branch == 4) do minor_19; pad 6 ^= lit 0xf4c1a1c8; call minor_37 (lit 0)
  pad 5 ^= seed_val ⊞ lit 0x1ff8749d
  when (branch == 5)
      do ror_eq (pad 4) (lit 0x19); pad 9 += rol (at 4) (lit 9); call minor_36 (lit 0)
  pad 13 ^= at 15 ⊞ lit 0x19ad9d3
  when (branch == 0) do pad 14 |= at 3 ⊕ lit 0x4345732; minor_26; call major_23 (at 13)
  ror_eq (pad 3) (my_sqrt (at 9))
  when (branch == 1) do pad 16 += lit 0x188ae78f; pad 2 ^= shl (at 15) 5; call major_24 (at 12)
  seed ^= at 12 ⊕ lit 0x82494ea7
  when (branch == 0) do pad 14 |= at 3 ⊕ lit 0x4345732; pad 7 &= lit 0x97ea531; call major_19 (at 6)
  rol_eq (pad 0) (lit 0x82494ea7 ⋒ seed_val)
  when (branch == 7) do minor_20; try_odd (pad 12) (minor_9 (lit 0xd3d79cb4)); call major_25 (at 6)
  pad 18 ^= at 9 ⊟ lit 0x5606038
  when (branch == 3) do
    pad 13 += choose (at 15 ⊲ 0x137bffeb) (at 15) (at 11)
    pad 16 += lit 0x6a07a3d0
    call major_17 (at 8)
  pad 9 |= choose (my_sin (at 7)) (lit 0x3ec62d23) (at 6)
  when (branch == 2)
      do pad 18 *= at 10 ⊞ lit 0x466e09cf; try_odd (pad 0) minor_6; call major_4 (at 1)
  when (branch == 6) do minor_27; minor_22; call major_18 (at 0)

-- It stays inside the array.
pub major_15-SafeFlow : SafeFlow major_15
unfolding major_15
major_15-SafeFlow =
    search
      (
        minor_rules, major_17-SafeFlow, major_18-SafeFlow, major_19-SafeFlow, major_23-SafeFlow,
        major_24-SafeFlow, major_25-SafeFlow, major_4-SafeFlow, minor_36-SafeFlow,
        minor_37-SafeFlow,
      )
      depth 500 fits 100000
