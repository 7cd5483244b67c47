-- ===== src/FastTrack/EncType20/Minor37.antt =====
-- `minor_37` of networks/fasttrack/enc_type_20.c.
use addnas_mldonkey.FastTrack.Mix.{pad, at, lit, ◌⊞◌, ◌⊟◌, ◌⊠◌, ◌⊕◌}
use addnas_mldonkey.FastTrack.Flow.{
  Flow, my_sin, choose, ror_eq, rol_eq, ◌+=◌, ◌-=◌, ◌*=◌, ◌^=◌, ◌>>◌,
}
use addnas_mldonkey.FastTrack.Flow.Safe.{SafeFlow, flow_rules}

unfoldable pub minor_37 : Flow
minor_37 = do
  rol_eq (pad 2) (at 7 ⊞ lit 0x1b)
  pad 2 ^= at 9 ⊠ lit 0x7941955
  pad 2 -= lit 0x796fa0af
  pad 3 *= choose (my_sin (at 19)) (lit 0x5ea67f83) (at 5)
  pad 4 -= at 4 ⊕ lit 0x692c9ef9
  pad 10 += at 1 ⊕ lit 0xc43baf0b
  pad 12 *= at 7 ⊟ lit 0xc43baf0b
  pad 13 ^= lit 0xd
  pad 17 ^= at 17 ⊟ lit 0x1259dbb
  ror_eq (pad 17) (lit 10)
  pad 18 += at 0 ⊕ lit 0x3cf1856

-- It stays inside the array.
pub minor_37-SafeFlow : SafeFlow minor_37
unfolding minor_37
minor_37-SafeFlow = search (flow_rules) depth 500 fits 100000
