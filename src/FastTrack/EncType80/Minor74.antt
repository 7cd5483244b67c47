-- ===== src/FastTrack/EncType80/Minor74.antt =====
-- `minor_74` of networks/fasttrack/enc_type_80.c.
use addnas_mldonkey.FastTrack.Mix.{pad, seed, at, seed_val, lit, ◌⊞◌, ◌⊟◌, ◌⊠◌, ◌⊕◌}
use addnas_mldonkey.FastTrack.Flow.{
  Flow, my_cos, my_sin, my_sqrt, choose, shl, ◌⊲◌, ◌+=◌, ◌-=◌, ◌*=◌, ◌|=◌, ◌^=◌, ◌>>◌,
}
use addnas_mldonkey.FastTrack.Flow.Safe.{SafeFlow, flow_rules}

unfoldable pub minor_74 : Flow
minor_74 = do
  pad 10 *= choose (my_cos (at 3)) (lit 0x1dd34a4) (at 2)
  pad 12 |= shl (at 16 ⊠ lit 11) 2
  pad 0 ^= at 19 ⊕ lit 0x509e41a1
  pad 13 -= shl (shl (at 9 ⊠ lit 15) 1 ⊟ at 9) 2
  seed -= choose (my_cos (at 2)) (lit 0xd7a79f4) (at 5)
  pad 2 -= choose (my_sin (at 12)) (lit 0x5134639d) (at 1)
  seed ^= choose (my_sin (at 4)) (lit 0x241147a3) (at 13)
  pad 3 += my_sqrt seed_val
  pad 0 -= choose (my_sin seed_val) (lit 0x5176ffdf) (at 15)
  pad 3 -= (shl (at 9 ⊠ lit 15) 1 ⊟ at 9) ⊠ lit 3
  pad 14 |= choose (at 2 ⊲ 0x18897) (at 2) (at 10)
  pad 13 ^= lit 0x18897 ⊞ seed_val

-- It stays inside the array.
pub minor_74-SafeFlow : SafeFlow minor_74
unfolding minor_74
minor_74-SafeFlow = search (flow_rules) depth 500 fits 100000
