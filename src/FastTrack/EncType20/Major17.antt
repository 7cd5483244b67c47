-- ===== src/FastTrack/EncType20/Major17.antt =====
-- `major_17` of networks/fasttrack/enc_type_20.c.
use addnas_mldonkey.Base.{◌==◌}
use addnas_mldonkey.FastTrack.Mix.{pad, seed, at, seed_val, lit, ror, ◌⊞◌, ◌⊟◌, ◌⊠◌, ◌⊕◌, ◌⊘◌}
use addnas_mldonkey.FastTrack.Flow.{
  Flow, my_cos, my_sqrt, choose, ror_eq, try_odd, switch, when, call, ◌⊲◌, ◌≔◌, ◌+=◌, ◌-=◌, ◌*=◌,
  ◌&=◌, ◌|=◌, ◌^=◌, ◌>>◌,
}
use addnas_mldonkey.FastTrack.Flow.Safe.{SafeFlow}
use addnas_mldonkey.FastTrack.EncType20.Minor.{minor_1, minor_20, minor_28, minor_3, minor_35}
use addnas_mldonkey.FastTrack.EncType20.Minor.Safe.{minor_rules}
use addnas_mldonkey.FastTrack.EncType20.Major19.{major_19, major_19-SafeFlow}
use addnas_mldonkey.FastTrack.EncType20.Major23.{major_23, major_23-SafeFlow}
use addnas_mldonkey.FastTrack.EncType20.Major24.{major_24, major_24-SafeFlow}
use addnas_mldonkey.FastTrack.EncType20.Major25.{major_25, major_25-SafeFlow}
use addnas_mldonkey.FastTrack.EncType20.Minor36.{minor_36, minor_36-SafeFlow}
use addnas_mldonkey.FastTrack.EncType20.Minor37.{minor_37, minor_37-SafeFlow}

unfoldable pub major_17 : Flow
major_17 = switch (((at 8 ⊕ at 7) ⊕ at 12) ⊘ 6) λ branch. do
  pad 1 |= at 4 ⊕ lit 0x10104d4
  when (branch == 3) do minor_20; ror_eq (pad 9) (lit 12); call minor_37 (lit 0)
  seed ≔ (((seed_val ⊕ lit 0x1ea9da8) ⊞ seed_val) ⊠ at 18) ⊠ lit 0xd
  when (branch == 0) do
    try_odd (pad 8) (minor_1 (lit 0x10381ff0))
    pad 2 *= at 3 ⊞ lit 0xd6863a6
    call minor_36 (lit 0)
  pad 14 += at 12 ⊠ lit 0x19
  pad 2 -= my_sqrt (at 5)
  when (branch == 4) do pad 16 += lit 0x81063b22; pad 9 ^= at 7 ⊠ lit 0x44; call major_23 seed_val
  pad 6 &= at 4 ⊟ lit 0x679dca37
  pad 1 ^= at 16 ⊞ lit 0x988db31
  when (branch == 0) do pad 7 ^= lit 0xa98896dd; try_odd (pad 10) minor_3; call major_24 (at 6)
  pad 6 += ror seed_val (lit 10)
  seed -= choose (at 0 ⊲ 0x29ea2cb6) (at 0) (at 3)
  when (branch == 2) do minor_35; pad 12 ^= at 15 ⊟ lit 0xf5cfde0; call major_19 seed_val
  seed *= my_sqrt seed_val
  pad 5 *= choose (my_cos seed_val) (lit 0x211af3c8) (at 19)
  when (branch == 5) do minor_28; pad 13 *= lit 0xa02fe00; call major_25 (at 13)

-- It stays inside the array.
pub major_17-SafeFlow : SafeFlow major_17
unfolding major_17
major_17-SafeFlow =
    search
      (
        minor_rules, major_19-SafeFlow, major_23-SafeFlow, major_24-SafeFlow, major_25-SafeFlow,
        minor_36-SafeFlow, minor_37-SafeFlow,
      )
      depth 500 fits 100000
