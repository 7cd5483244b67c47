-- ===== src/FastTrack/EncType20/Major23.antt =====
-- `major_23` of networks/fasttrack/enc_type_20.c.
use addnas_mldonkey.Base.{◌==◌}
use addnas_mldonkey.FastTrack.Mix.{pad, seed, at, seed_val, lit, rol, ◌⊟◌, ◌⊠◌, ◌⋒◌, ◌⊕◌}
use addnas_mldonkey.FastTrack.Flow.{
  Flow, choose, ror_eq, try_odd, switch, when, call, ◌⊲◌, ◌+=◌, ◌-=◌, ◌&=◌, ◌|=◌, ◌^=◌, ◌>>◌,
}
use addnas_mldonkey.FastTrack.Flow.Safe.{SafeFlow}
use addnas_mldonkey.FastTrack.EncType20.Minor.{minor_32, minor_9}
use addnas_mldonkey.FastTrack.EncType20.Minor.Safe.{minor_rules}
use addnas_mldonkey.FastTrack.EncType20.Minor36.{minor_36, minor_36-SafeFlow}
use addnas_mldonkey.FastTrack.EncType20.Minor37.{minor_37, minor_37-SafeFlow}

unfoldable pub major_23 : Flow
major_23 = switch (seed_val ⋒ lit 1) λ branch. do
  pad 4 += at 8 ⊟ lit 0x16f911e4
  pad 9 ^= at 2 ⊠ lit 11
  pad 10 ^= choose (at 7 ⊲ 0x402226f) (at 7) (at 2)
  seed |= at 17 ⊟ lit 0x1e97aeb
  seed |= choose (at 14 ⊲ 0xf3b1e0b3) (at 14) (at 5)
  when (branch == 0)
      do pad 7 &= at 13 ⊕ lit 0x21aaf758; minor_32 (lit 0x640f077d); call minor_37 (lit 0)
  pad 1 -= at 19 ⊠ lit 0x64
  pad 1 += seed_val ⊟ lit 0x18d1b90
  pad 7 -= at 3 ⊕ lit 0x44de1958
  pad 11 ^= rol (at 2) (lit 9)
  pad 17 += rol (at 12) (lit 27)
  when (branch == 0) do
    try_odd (pad 12) (minor_9 (lit 0xdc306f47))
    pad 9 ^= at 7 ⊠ lit 0x44
    call minor_36 (lit 0)
  ror_eq (pad 7) (at 13)

-- It stays inside the array.
pub major_23-SafeFlow : SafeFlow major_23
unfolding major_23
major_23-SafeFlow = search (minor_rules, minor_36-SafeFlow, minor_37-SafeFlow) depth 500 fits 100000
