-- ===== src/FastTrack/EncType80/Major17.antt =====
-- `major_17` of networks/fasttrack/enc_type_80.c.
use addnas_mldonkey.Base.{◌==◌}
use addnas_mldonkey.FastTrack.Mix.{pad, seed, at, seed_val, lit, ror, ◌⊞◌, ◌⊟◌, ◌⊠◌, ◌⋒◌, ◌⊕◌}
use addnas_mldonkey.FastTrack.Flow.{
  Flow, my_cos, choose, shl, try_odd, switch, when, call, ◌⊲◌, ◌≔◌, ◌+=◌, ◌-=◌, ◌*=◌, ◌|=◌, ◌>>◌,
}
use addnas_mldonkey.FastTrack.Flow.Safe.{SafeFlow}
use addnas_mldonkey.FastTrack.EncType80.Minor.{
  minor_11, minor_13, minor_14, minor_17, minor_20, minor_21, minor_24, minor_26, minor_29,
  minor_31, minor_32, minor_33, minor_34, minor_39, minor_4, minor_43, minor_44, minor_48, minor_49,
  minor_50, minor_52, minor_56, minor_57, minor_58, minor_61, minor_62, minor_69, minor_70,
  minor_71, minor_72, minor_73,
}
use addnas_mldonkey.FastTrack.EncType80.Minor.Safe.{minor_rules}
use addnas_mldonkey.FastTrack.EncType80.Major11.{major_11, major_11-SafeFlow}
use addnas_mldonkey.FastTrack.EncType80.Major12.{major_12, major_12-SafeFlow}
use addnas_mldonkey.FastTrack.EncType80.Major13.{major_13, major_13-SafeFlow}
use addnas_mldonkey.FastTrack.EncType80.Major14.{major_14, major_14-SafeFlow}
use addnas_mldonkey.FastTrack.EncType80.Major15.{major_15, major_15-SafeFlow}
use addnas_mldonkey.FastTrack.EncType80.Major16.{major_16, major_16-SafeFlow}
use addnas_mldonkey.FastTrack.EncType80.Major18.{major_18, major_18-SafeFlow}
use addnas_mldonkey.FastTrack.EncType80.Major19.{major_19, major_19-SafeFlow}
use addnas_mldonkey.FastTrack.EncType80.Major2.{major_2, major_2-SafeFlow}
use addnas_mldonkey.FastTrack.EncType80.Major5.{major_5, major_5-SafeFlow}
use addnas_mldonkey.FastTrack.EncType80.Major7.{major_7, major_7-SafeFlow}
use addnas_mldonkey.FastTrack.EncType80.Major8.{major_8, major_8-SafeFlow}

unfoldable pub major_17 : Flow
major_17 = switch (((at 2 ⊕ at 6) ⊕ seed_val) ⋒ lit 0x0f) λ branch. do
  when (branch == 4) do minor_72 (lit 170); minor_43; call major_16 (at 6)
  when (branch == 0x0a) do minor_31; minor_72 (lit 253); call major_7 (at 0)
  pad 15 += ror (at 16) (lit 0x5)
  when (branch == 2) do minor_49; minor_70; call major_8 (at 4)
  when (branch == 9) do minor_57 (lit 0xc481dafd); minor_50; call major_18 seed_val
  seed ≔ shl ((at 3 ⊠ seed_val) ⊠ lit 19) 1
  when (branch == 8) do minor_39; minor_71; call major_12 (at 8)
  when (branch == 3) do minor_58 (lit 0x1bf5bb22); minor_62; call major_5 (at 14)
  pad 11 *= seed_val ⊞ lit 0x19948e09
  when (branch == 3) do minor_49; minor_73; call major_15 seed_val
  when (branch == 0x0e) do
    try_odd (pad 7) (minor_11 (lit 0x43cf4936))
    try_odd (pad 7) (minor_11 (lit 0xcc3ff7ad))
    call major_2 seed_val
  pad 2 ≔ ror (at 2) (seed_val ⊟ lit 0xc5ef5be)
  when (branch == 0) do minor_26; minor_24; call major_11 seed_val
  when (branch == 0x0f) do minor_69; minor_61; call major_14 seed_val
  pad 12 -= choose (my_cos seed_val) (lit 0xcaba2d3) (at 9)
  when (branch == 0x0b) do minor_56 (lit 0x27ba9331); minor_29 (lit 148); call major_13 seed_val
  when (branch == 7) do minor_34; minor_52 (lit 0x3a9e050c); call major_19 (at 1)
  pad 17 -= choose (at 17 ⊲ 0xcaba2d3) (at 17) (at 18)
  when (branch == 0) do minor_44; minor_48; call major_16 (at 10)
  when (branch == 1) do minor_33 (lit 0x6bd5eb17); minor_43; call major_7 (at 17)
  pad 6 += at 0 ⊟ lit 0xd6249f6
  when (branch == 0x0c) do try_odd (pad 14) minor_21; try_odd (pad 7) minor_4; call major_8 (at 6)
  when (branch == 1) do minor_70; minor_57 (lit 0x63fd32db); call major_18 seed_val
  pad 5 += shl (at 16 ⊠ lit 7) 4 ⊞ at 16
  when (branch == 6) do minor_50; try_odd (pad 6) minor_17; call major_12 (at 8)
  when (branch == 2) do try_odd (pad 3) minor_14; try_odd (pad 15) minor_20; call major_5 (at 15)
  pad 11 |= at 13 ⊠ lit 0x11
  when (branch == 0x0d) do
    minor_32 (lit 0x1cf92975)
    try_odd (pad 5) (minor_13 (lit 0x2f50247e))
    call major_15 (at 11)
  when (branch == 5) do minor_57 (lit 0xeb114770); minor_34; call major_2 seed_val
  pad 10 += at 10 ⊕ lit 0x53350a5e

-- It stays inside the array.
pub major_17-SafeFlow : SafeFlow major_17
unfolding major_17
major_17-SafeFlow =
    search
      (
        minor_rules, major_11-SafeFlow, major_12-SafeFlow, major_13-SafeFlow, major_14-SafeFlow,
        major_15-SafeFlow, major_16-SafeFlow, major_18-SafeFlow, major_19-SafeFlow,
        major_2-SafeFlow, major_5-SafeFlow, major_7-SafeFlow, major_8-SafeFlow,
      )
      depth 500 fits 100000
