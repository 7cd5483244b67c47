-- ===== src/FastTrack/EncType20/Major25.antt =====
-- `major_25` of networks/fasttrack/enc_type_20.c.
use addnas_mldonkey.Base.{◌==◌}
use addnas_mldonkey.FastTrack.Mix.{pad, seed, at, seed_val, lit, ror, ◌⊞◌, ◌⊠◌, ◌⋒◌, ◌⊕◌, ◌⊘◌}
use addnas_mldonkey.FastTrack.Flow.{
  Flow, my_cos, my_sin, my_sqrt, choose, ror_eq, rol_eq, try_odd, switch, when, call, ◌+=◌, ◌-=◌,
  ◌*=◌, ◌&=◌, ◌^=◌, ◌>>◌,
}
use addnas_mldonkey.FastTrack.Flow.Safe.{SafeFlow}
use addnas_mldonkey.FastTrack.EncType20.Minor.{minor_4, minor_7}
use addnas_mldonkey.FastTrack.EncType20.Minor.Safe.{minor_rules}
use addnas_mldonkey.FastTrack.EncType20.Major19.{major_19, major_19-SafeFlow}
use addnas_mldonkey.FastTrack.EncType20.Major23.{major_23, major_23-SafeFlow}
use addnas_mldonkey.FastTrack.EncType20.Major24.{major_24, major_24-SafeFlow}
use addnas_mldonkey.FastTrack.EncType20.Minor36.{minor_36, minor_36-SafeFlow}
use addnas_mldonkey.FastTrack.EncType20.Minor37.{minor_37, minor_37-SafeFlow}

unfoldable pub major_25 : Flow
major_25 = switch (((at 7 ⊕ at 2) ⊕ seed_val) ⊘ 5) λ branch. do
  pad 2 -= lit 0x31b8a51 ⋒ seed_val
  when (branch == 3) do
    pad 2 ^= choose (my_sin (at 13)) (lit 0xfd08092) (at 10)
    pad 9 &= lit 0x49a7e0c7
    call minor_37 (lit 0)
  pad 1 &= ror seed_val (lit 29)
  rol_eq (pad 12) (choose (my_cos (at 1)) (lit 27) (at 5))
  when (branch == 2) do
    try_odd (pad 16) minor_4
    pad 2 ^= choose (my_sin (at 13)) (lit 0xfd08092) (at 10)
    call minor_36 (lit 0)
  ror_eq seed (my_sqrt seed_val)
  seed ^= lit 0xc63d7671 ⊠ seed_val
  pad 17 += at 19 ⊠ lit 0x7a
  when (branch == 0)
      do pad 10 += lit 0x8958821; pad 18 *= at 10 ⊞ lit 0x466e09cf; call major_23 (at 10)
  ror_eq (pad 18) (choose (my_cos (at 6)) (lit 0x11) (at 1))
  when (branch == 4) do try_odd (pad 17) minor_7; pad 9 ^= lit 0x3480eee; call major_24 seed_val
  pad 10 -= my_sqrt seed_val
  pad 11 &= seed_val ⊠ lit 0x3f
  when (branch == 0)
      do pad 18 *= at 10 ⊞ lit 0x466e09cf; pad 13 *= lit 0x6ff7af6a; call major_19 (at 17)
  rol_eq (pad 1) (at 15 ⊞ lit 0x19)

-- It stays inside the array.
pub major_25-SafeFlow : SafeFlow major_25
unfolding major_25
major_25-SafeFlow =
    search
      (
        minor_rules, major_19-SafeFlow, major_23-SafeFlow, major_24-SafeFlow, minor_36-SafeFlow,
        minor_37-SafeFlow,
      )
      depth 500 fits 100000
