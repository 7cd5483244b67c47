-- ===== src/FastTrack/EncType80/Major10.antt =====
-- `major_10` of networks/fasttrack/enc_type_80.c.
use addnas_mldonkey.Base.{◌==◌}
use addnas_mldonkey.FastTrack.Mix.{pad, at, seed_val, lit, rol, ◌⊞◌, ◌⊟◌, ◌⊠◌, ◌⋒◌, ◌⊕◌, ◌⋓◌}
use addnas_mldonkey.FastTrack.Flow.{
  Flow, my_cos, my_sin, choose, try_odd, switch, when, call, ◌⊲◌, ◌≔◌, ◌+=◌, ◌-=◌, ◌&=◌, ◌^=◌, ◌>>◌,
}
use addnas_mldonkey.FastTrack.Flow.Safe.{SafeFlow}
use addnas_mldonkey.FastTrack.EncType80.Minor.{minor_12, minor_48, minor_56, minor_57}
use addnas_mldonkey.FastTrack.EncType80.Minor.Safe.{minor_rules}
use addnas_mldonkey.FastTrack.EncType80.Minor74.{minor_74, minor_74-SafeFlow}
use addnas_mldonkey.FastTrack.EncType80.Minor75.{minor_75, minor_75-SafeFlow}

unfoldable pub major_10 : Flow
major_10 = switch (((at 7 ⊕ at 3) ⊕ seed_val) ⋒ lit 0x01) λ branch. do
  pad 10 &= lit 0x75eefb0 ⊕ seed_val
  pad 11 ^= choose (my_cos (at 1)) (lit 0x2e0a5be7) (at 6)
  pad 0 += seed_val ⊞ lit 0x1fe76b44
  pad 13 += lit 0x76173ce ⊟ seed_val
  when (branch == 1) do minor_56 (lit 0xcd17011); minor_48; call minor_75 (lit 0)
  pad 16 -= choose (at 11 ⊲ 0x56c0185b) (at 11) (at 19)
  pad 0 ^= choose (my_sin (at 16)) (lit 0x5a271260) seed_val
  pad 6 += at 11 ⋓ lit 0x58e035d2
  pad 14 ≔ rol (at 14) (rol (at 1) (lit 0x8))
  pad 13 ^= at 15 ⊠ lit 91
  when (branch == 0) do minor_57 (lit 0x37fed3); try_odd (pad 11) minor_12; call minor_74 (at 14)

-- It stays inside the array.
pub major_10-SafeFlow : SafeFlow major_10
unfolding major_10
major_10-SafeFlow = search (minor_rules, minor_74-SafeFlow, minor_75-SafeFlow) depth 500 fits 100000
