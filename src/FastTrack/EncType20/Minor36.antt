-- ===== src/FastTrack/EncType20/Minor36.antt =====
-- `minor_36` of networks/fasttrack/enc_type_20.c.
use addnas_mldonkey.FastTrack.Mix.{pad, at, lit, rol, ◌⊞◌, ◌⊟◌, ◌⊠◌, ◌⋒◌, ◌⊕◌}
use addnas_mldonkey.FastTrack.Flow.{
  Flow, my_sqrt, choose, ror_eq, rol_eq, when_lt, ◌⊲◌, ◌+=◌, ◌*=◌, ◌^=◌, ◌>>◌,
}
use addnas_mldonkey.FastTrack.Flow.Safe.{SafeFlow, flow_rules}

unfoldable pub minor_36 : Flow
minor_36 = do
  pad 3 ^= at 11 ⊠ lit 0xeef27425
  pad 3 += my_sqrt (at 0)
  pad 15 *= at 1 ⊕ lit 0xd89b4a
  ror_eq (pad 16) (at 16 ⋒ lit 0x11)
  pad 18 *= at 19 ⊞ lit 0xa0d8c0cf
  pad 7 *= choose (at 0 ⊲ 0x6765080e) (at 0) (at 18)
  when_lt (at 5) 0xe848f43c (rol_eq (pad 9) (at 5))
  pad 2 ^= choose (at 5 ⊲ 0xa0d8c0cf) (at 5) (at 9 ⊟ lit 0xe848f43c)
  rol_eq (pad 12) (rol (at 9 ⊟ lit 0xe848f43c) (lit 11))

-- It stays inside the array.
pub minor_36-SafeFlow : SafeFlow minor_36
unfolding minor_36
minor_36-SafeFlow = search (flow_rules) depth 500 fits 100000
