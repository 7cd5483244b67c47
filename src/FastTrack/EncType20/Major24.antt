-- ===== src/FastTrack/EncType20/Major24.antt =====
-- `major_24` of networks/fasttrack/enc_type_20.c.
use addnas_mldonkey.Base.{◌==◌}
use addnas_mldonkey.FastTrack.Mix.{pad, seed, at, seed_val, lit, ror, ◌⊞◌, ◌⊟◌, ◌⊠◌, ◌⋒◌, ◌⊕◌, ◌⊘◌}
use addnas_mldonkey.FastTrack.Flow.{
  Flow, my_cos, my_sin, choose, rol_eq, try_odd, switch, when, call, ◌+=◌, ◌*=◌, ◌|=◌, ◌^=◌, ◌>>◌,
}
use addnas_mldonkey.FastTrack.Flow.Safe.{SafeFlow}
use addnas_mldonkey.FastTrack.EncType20.Minor.{minor_27, minor_35, minor_5}
use addnas_mldonkey.FastTrack.EncType20.Minor.Safe.{minor_rules}
use addnas_mldonkey.FastTrack.EncType20.Major23.{major_23, major_23-SafeFlow}
use addnas_mldonkey.FastTrack.EncType20.Minor36.{minor_36, minor_36-SafeFlow}
use addnas_mldonkey.FastTrack.EncType20.Minor37.{minor_37, minor_37-SafeFlow}

unfoldable pub major_24 : Flow
major_24 = switch (((at 2 ⊕ seed_val) ⊕ at 7) ⊘ 3) λ branch. do
  seed *= choose (my_cos seed_val) (lit 0x6be8f94) seed_val
  pad 2 ^= at 2 ⊞ lit 0x3786364b
  rol_eq (pad 17) (seed_val ⊟ lit 0x10)
  when (branch == 0) do minor_35; minor_27; call minor_37 (lit 0)
  pad 5 += choose (my_sin (at 16)) (lit 0x3af2a8e2) (at 16)
  when (branch == 0)
      do try_odd (pad 10) minor_5; pad 2 *= at 3 ⊞ lit 0xd6863a6; call minor_36 (lit 0)
  pad 13 ^= choose (my_cos (at 16)) (lit 0xf6951daa) (at 1)
  pad 18 |= at 17 ⋒ lit 0x6361a322
  when (branch == 1) do pad 13 *= ror (at 3) (lit 5) ⊠ lit 0xb25cb20f; call major_23 (at 15)

-- It stays inside the array.
pub major_24-SafeFlow : SafeFlow major_24
unfolding major_24
major_24-SafeFlow =
    search (minor_rules, major_23-SafeFlow, minor_36-SafeFlow, minor_37-SafeFlow) depth 500 fits
      100000
