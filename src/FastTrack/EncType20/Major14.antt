-- ===== src/FastTrack/EncType20/Major14.antt =====
-- `major_14` of networks/fasttrack/enc_type_20.c.
use addnas_mldonkey.Base.{◌==◌}
use addnas_mldonkey.FastTrack.Mix.{pad, seed, at, seed_val, lit, ror, rol, ◌⊞◌, ◌⊟◌, ◌⊠◌, ◌⊕◌, ◌⊘◌}
use addnas_mldonkey.FastTrack.Flow.{
  Flow, my_cos, my_sin, my_sqrt, choose, ror_eq, try_odd, switch, when, call, ◌⊲◌, ◌+=◌, ◌-=◌, ◌*=◌,
  ◌&=◌, ◌|=◌, ◌^=◌, ◌>>◌,
}
use addnas_mldonkey.FastTrack.Flow.Safe.{SafeFlow}
use addnas_mldonkey.FastTrack.EncType20.Minor.{
  minor_1, minor_10, minor_17, minor_19, minor_20, minor_26, minor_30, minor_32, minor_5, minor_6,
}
use addnas_mldonkey.FastTrack.EncType20.Minor.Safe.{minor_rules}
use addnas_mldonkey.FastTrack.EncType20.Major1.{major_1, major_1-SafeFlow}
use addnas_mldonkey.FastTrack.EncType20.Major15.{major_15, major_15-SafeFlow}
use addnas_mldonkey.FastTrack.EncType20.Major16.{major_16, major_16-SafeFlow}
use addnas_mldonkey.FastTrack.EncType20.Major17.{major_17, major_17-SafeFlow}
use addnas_mldonkey.FastTrack.EncType20.Major18.{major_18, major_18-SafeFlow}
use addnas_mldonkey.FastTrack.EncType20.Major19.{major_19, major_19-SafeFlow}
use addnas_mldonkey.FastTrack.EncType20.Major21.{major_21, major_21-SafeFlow}
use addnas_mldonkey.FastTrack.EncType20.Major23.{major_23, major_23-SafeFlow}
use addnas_mldonkey.FastTrack.EncType20.Major24.{major_24, major_24-SafeFlow}
use addnas_mldonkey.FastTrack.EncType20.Major25.{major_25, major_25-SafeFlow}
use addnas_mldonkey.FastTrack.EncType20.Major3.{major_3, major_3-SafeFlow}
use addnas_mldonkey.FastTrack.EncType20.Major4.{major_4, major_4-SafeFlow}

unfoldable pub major_14 : Flow
major_14 = switch (((at 8 ⊕ seed_val) ⊕ at 11) ⊘ 14) λ branch. do
  when (branch == 0) do try_odd (pad 8) (minor_1 (lit 0xe32bdca0)); minor_30; call major_23 (at 19)
  seed -= seed_val ⊕ lit 0xf74450ff
  when (branch == 1) do minor_32 (lit 0x788c78a4); pad 13 -= at 1; call major_24 seed_val
  pad 13 -= choose (my_cos (at 3)) (lit 0xf74450ff) (at 4)
  when (branch == 9)
      do pad 9 |= at 7 ⊕ lit 0x2a19119f; ror_eq (pad 9) (lit 11); call major_19 seed_val
  pad 9 ^= at 6 ⊠ lit 0x59
  when (branch == 7) do minor_26; pad 6 += lit 0xfe07af0e ⊟ at 3; call major_25 (at 11)
  when (branch == 8) do pad 13 -= at 1; pad 4 ^= lit 0xb949718c; call major_17 (at 7)
  pad 1 ^= choose (my_sin seed_val) (lit 0xc90f1504) (at 17)
  when (branch == 13)
      do pad 9 &= lit 0x59d432be; pad 18 -= at 13 ⊕ lit 0x154abcdf; call major_4 (at 4)
  pad 17 += choose (at 13 ⊲ 0xac24eb8) (at 13) (at 9)
  when (branch == 5) do pad 4 ^= lit 0x3bcc51a7; pad 12 += lit 0x4ec6cf36; call major_18 (at 1)
  seed |= ror (at 18) (lit 11)
  when (branch == 3) do minor_20; pad 5 -= at 15; call major_15 (at 0)
  pad 4 += seed_val ⊞ lit 0xf65efbd
  when (branch == 10)
      do try_odd (pad 10) minor_5; pad 2 *= at 3 ⊞ lit 0xd6863a6; call major_3 (at 5)
  when (branch == 11) do pad 7 &= lit 0xdf76eba8; try_odd (pad 0) minor_6; call major_21 seed_val
  pad 4 ^= rol (at 8) (lit 22)
  when (branch == 6) do
    try_odd (pad 18) (minor_10 (lit 0xec30bd82))
    pad 2 *= at 3 ⊞ lit 0xd6863a6
    call major_16 (at 13)
  seed *= at 6 ⊞ lit 0x6bbeb974
  when (branch == 2)
      do pad 18 *= at 10 ⊞ lit 0x466e09cf; pad 2 *= at 3 ⊞ lit 0xd6863a6; call major_1 (at 6)
  pad 16 -= at 2 ⊠ lit 0x65a10fa8
  when (branch == 12)
      do pad 19 ^= at 15 ⊕ lit 0x3574ed3; ror_eq (pad 9) (lit 15); call major_23 (at 14)
  ror_eq (pad 13) (my_sqrt seed_val)
  when (branch == 4) do minor_19; minor_17; call major_24 (at 0)
  when (branch == 0) do pad 7 ^= lit 0xc9d1f4a2; minor_26; call major_19 seed_val
  pad 12 -= choose (my_sin (at 10)) (lit 0x2818ae3c) seed_val

-- It stays inside the array.
pub major_14-SafeFlow : SafeFlow major_14
unfolding major_14
major_14-SafeFlow =
    search
      (
        minor_rules, major_1-SafeFlow, major_15-SafeFlow, major_16-SafeFlow, major_17-SafeFlow,
        major_18-SafeFlow, major_19-SafeFlow, major_21-SafeFlow, major_23-SafeFlow,
        major_24-SafeFlow, major_25-SafeFlow, major_3-SafeFlow, major_4-SafeFlow,
      )
      depth 500 fits 100000
