-- ===== src/FastTrack/EncType80/Minor75.antt =====
-- `minor_75` of networks/fasttrack/enc_type_80.c.
use addnas_mldonkey.FastTrack.Mix.{pad, at, lit, ◌⊠◌, ◌⋒◌, ◌⊕◌}
use addnas_mldonkey.FastTrack.Flow.{Flow, my_sin, choose, shl, ◌⊲◌, ◌+=◌, ◌-=◌, ◌&=◌, ◌^=◌, ◌>>◌}
use addnas_mldonkey.FastTrack.Flow.Safe.{SafeFlow, flow_rules}

unfoldable pub minor_75 : Flow
minor_75 = do
  pad 13 -= at 2
  pad 19 += lit 0x471c95 ⋒ at 12
  pad 14 += choose (at 7 ⊲ 0x471c95) (at 7) (at 2)
  pad 12 -= at 11 ⊕ lit 0x5e823762
  pad 15 &= shl (at 0 ⊠ lit 13) 2
  pad 17 ^= at 8 ⊠ lit 15
  pad 7 += at 4 ⋒ lit 0x3996fd51
  pad 2 += choose (my_sin (at 19)) (lit 0x34311111) (at 5)

-- It stays inside the array.
pub minor_75-SafeFlow : SafeFlow minor_75
unfolding minor_75
minor_75-SafeFlow = search (flow_rules) depth 500 fits 100000
