-- ===== src/FastTrack/EncType20/Major18.antt =====
-- `major_18` of networks/fasttrack/enc_type_20.c.
use addnas_mldonkey.Base.{◌==◌}
use addnas_mldonkey.FastTrack.Mix.{pad, seed, at, seed_val, lit, ror, rol, ◌⊞◌, ◌⊟◌, ◌⊠◌, ◌⋒◌, ◌⊕◌}
use addnas_mldonkey.FastTrack.Flow.{
  Flow, my_cos, my_sqrt, choose, ror_eq, rol_eq, try_odd, switch, when, call, ◌⊲◌, ◌+=◌, ◌-=◌, ◌*=◌,
  ◌&=◌, ◌^=◌, ◌>>◌,
}
use addnas_mldonkey.FastTrack.Flow.Safe.{SafeFlow}
use addnas_mldonkey.FastTrack.EncType20.Minor.{minor_2, minor_31, minor_34}
use addnas_mldonkey.FastTrack.EncType20.Minor.Safe.{minor_rules}
use addnas_mldonkey.FastTrack.EncType20.Major17.{major_17, major_17-SafeFlow}
use addnas_mldonkey.FastTrack.EncType20.Major19.{major_19, major_19-SafeFlow}
use addnas_mldonkey.FastTrack.EncType20.Major23.{major_23, major_23-SafeFlow}
use addnas_mldonkey.FastTrack.EncType20.Major24.{major_24, major_24-SafeFlow}
use addnas_mldonkey.FastTrack.EncType20.Major25.{major_25, major_25-SafeFlow}
use addnas_mldonkey.FastTrack.EncType20.Major4.{major_4, major_4-SafeFlow}
use addnas_mldonkey.FastTrack.EncType20.Minor36.{minor_36, minor_36-SafeFlow}
use addnas_mldonkey.FastTrack.EncType20.Minor37.{minor_37, minor_37-SafeFlow}

unfoldable pub major_18 : Flow
major_18 = switch (((at 14 ⊕ at 11) ⊕ at 17) ⋒ lit 7) λ branch. do
  pad 11 ^= ror (at 13) (lit 21)
  when (branch == 5)
      do pad 6 += at 19 ⊟ lit 0x3f5675d6; pad 9 ^= lit 0x94d017f; call minor_37 (lit 0)
  ror_eq (pad 3) (at 16 ⊠ lit 0xf)
  when (branch == 2) do pad 5 += at 0 ⊕ lit 0x3e17add3; minor_34; call minor_36 (lit 0)
  pad 11 -= my_sqrt (at 9)
  pad 12 += lit 0x17267c5b ⊟ at 11
  when (branch == 3) do minor_31 (lit 0xb); pad 7 &= at 13 ⊕ lit 0x21aaf758; call major_23 (at 0)
  pad 17 ^= seed_val ⊕ lit 0x35eddea4
  when (branch == 0) do
    pad 10 += lit 0x3409139c
    pad 19 ^= choose (my_cos (at 9)) (lit 0x57337b8) (at 14)
    call major_24 (at 6)
  pad 6 *= at 17 ⊞ lit 0xb89b51c
  when (branch == 1) do
    pad 6 += lit 0xfe07af0e ⊟ at 3
    try_odd (pad 2) (minor_2 (lit 0x90254266))
    call major_19 (at 6)
  pad 19 ^= choose (at 3 ⊲ 0x5755f00e) (at 3) (at 1)
  pad 15 ^= at 12 ⊠ lit 0x17
  when (branch == 7)
      do pad 13 *= ror (at 3) (lit 5); pad 13 *= ror (at 3) (lit 5); call major_25 (at 9)
  pad 10 += lit 0x395f1d29 ⊟ seed_val
  when (branch == 0) do pad 12 += lit 0x2272516f; pad 13 *= lit 0x48e3e7ac; call major_17 (at 16)
  rol_eq (pad 1) (rol (at 8) (lit 20))
  seed -= at 9 ⊕ lit 0xc9c0bd95
  when (branch == 6)
      do try_odd (pad 2) (minor_2 (lit 0x10b4eaef)); pad 12 += lit 0x222fe8f5; call major_4 seed_val
  rol_eq (pad 18) (at 7 ⋒ lit 0x11)

-- It stays inside the array.
pub major_18-SafeFlow : SafeFlow major_18
unfolding major_18
major_18-SafeFlow =
    search
      (
        minor_rules, major_17-SafeFlow, major_19-SafeFlow, major_23-SafeFlow, major_24-SafeFlow,
        major_25-SafeFlow, major_4-SafeFlow, minor_36-SafeFlow, minor_37-SafeFlow,
      )
      depth 500 fits 100000
