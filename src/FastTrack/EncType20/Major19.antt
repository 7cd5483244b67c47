-- ===== src/FastTrack/EncType20/Major19.antt =====
-- `major_19` of networks/fasttrack/enc_type_20.c.
use addnas_mldonkey.Base.{◌==◌}
use addnas_mldonkey.FastTrack.Mix.{pad, seed, at, seed_val, lit, rol, ◌⊞◌, ◌⊠◌, ◌⋒◌, ◌⊕◌}
use addnas_mldonkey.FastTrack.Flow.{
  Flow, my_cos, my_sqrt, choose, shl, ror_eq, switch, when, call, ◌≔◌, ◌+=◌, ◌-=◌, ◌*=◌, ◌^=◌, ◌>>◌,
}
use addnas_mldonkey.FastTrack.Flow.Safe.{SafeFlow, flow_rules}
use addnas_mldonkey.FastTrack.EncType20.Major23.{major_23, major_23-SafeFlow}
use addnas_mldonkey.FastTrack.EncType20.Major24.{major_24, major_24-SafeFlow}
use addnas_mldonkey.FastTrack.EncType20.Minor36.{minor_36, minor_36-SafeFlow}
use addnas_mldonkey.FastTrack.EncType20.Minor37.{minor_37, minor_37-SafeFlow}

unfoldable pub major_19 : Flow
major_19 = switch (((at 18 ⊕ at 6) ⊕ at 15) ⋒ lit 3) λ branch. do
  seed *= at 15 ⊠ lit 0x3c02927
  ror_eq seed (seed_val ⊠ lit 0x7)
  when (branch == 0)
      do pad 12 += at 6 ⊕ lit 0x211f5e40; pad 9 ^= lit 0x6b4bfbe3; call minor_37 (lit 0)
  seed ^= at 6 ⊕ lit 0xc1fcda0
  pad 5 -= choose (my_cos (at 6)) (lit 0xb9269bb0) (at 10)
  when (branch == 0) do pad 9 ^= lit 0x703e6c86; pad 16 += lit 0xbb78136d; call minor_36 (lit 0)
  seed *= at 19 ⊞ lit 0x11500e47
  pad 3 ^= rol (at 4) (lit 20)
  when (branch == 3)
      do pad 2 ^= shl (at 15) 5; pad 19 ^= at 15 ⊕ lit 0x3574ed3; call major_23 (at 15)
  pad 13 -= my_sqrt seed_val
  ror_eq seed (choose (my_cos seed_val) (lit 7) (at 10))
  pad 16 ≔ (at 15 ⊠ at 16) ⊠ lit 0x4a
  when (branch == 1)
      do pad 7 ^= lit 0xb3bb63f; pad 4 -= at 17 ⊕ lit 0x2217cf47; call major_24 seed_val

-- It stays inside the array.
pub major_19-SafeFlow : SafeFlow major_19
unfolding major_19
major_19-SafeFlow =
    search (flow_rules, major_23-SafeFlow, major_24-SafeFlow, minor_36-SafeFlow, minor_37-SafeFlow)
      depth 500 fits 100000
