-- ===== src/FastTrack/EncType20/Major22.antt =====
-- `major_22` of networks/fasttrack/enc_type_20.c.
use addnas_mldonkey.Base.{◌==◌}
use addnas_mldonkey.FastTrack.Mix.{pad, seed, at, seed_val, lit, ror, rol, ◌⊞◌, ◌⊟◌, ◌⊠◌, ◌⋒◌, ◌⊕◌}
use addnas_mldonkey.FastTrack.Flow.{
  Flow, my_cos, my_sin, my_sqrt, choose, shl, ror_eq, try_odd, switch, when, call, ◌⊲◌, ◌+=◌, ◌-=◌,
  ◌*=◌, ◌&=◌, ◌^=◌, ◌>>◌,
}
use addnas_mldonkey.FastTrack.Flow.Safe.{SafeFlow}
use addnas_mldonkey.FastTrack.EncType20.Minor.{
  minor_20, minor_31, minor_32, minor_34, minor_4, minor_5, minor_6, minor_9,
}
use addnas_mldonkey.FastTrack.EncType20.Minor.Safe.{minor_rules}
use addnas_mldonkey.FastTrack.EncType20.Major1.{major_1, major_1-SafeFlow}
use addnas_mldonkey.FastTrack.EncType20.Major11.{major_11, major_11-SafeFlow}
use addnas_mldonkey.FastTrack.EncType20.Major12.{major_12, major_12-SafeFlow}
use addnas_mldonkey.FastTrack.EncType20.Major13.{major_13, major_13-SafeFlow}
use addnas_mldonkey.FastTrack.EncType20.Major14.{major_14, major_14-SafeFlow}
use addnas_mldonkey.FastTrack.EncType20.Major16.{major_16, major_16-SafeFlow}
use addnas_mldonkey.FastTrack.EncType20.Major2.{major_2, major_2-SafeFlow}
use addnas_mldonkey.FastTrack.EncType20.Major21.{major_21, major_21-SafeFlow}
use addnas_mldonkey.FastTrack.EncType20.Major3.{major_3, major_3-SafeFlow}
use addnas_mldonkey.FastTrack.EncType20.Major5.{major_5, major_5-SafeFlow}
use addnas_mldonkey.FastTrack.EncType20.Major6.{major_6, major_6-SafeFlow}
use addnas_mldonkey.FastTrack.EncType20.Major9.{major_9, major_9-SafeFlow}

unfoldable pub major_22 : Flow
major_22 = switch (((at 5 ⊕ at 0) ⊕ seed_val) ⋒ lit 15) λ branch. do
  when (branch == 3) do try_odd (pad 0) minor_6; minor_31 (lit 0x13); call major_3 seed_val
  when (branch == 0) do pad 6 ^= lit 0x6066818c; pad 13 -= at 1; call major_21 (at 2)
  pad 14 ^= rol (at 16) (lit 22)
  when (branch == 12) do pad 10 += lit 0x830ba927; minor_32 (lit 0x6f3a3876); call major_16 (at 8)
  when (branch == 1) do minor_34; pad 16 += lit 0x1bc7b861; call major_1 (at 6)
  pad 12 ^= choose (at 11 ⊲ 0x521b2180) (at 11) (at 9)
  when (branch == 1) do minor_31 (lit 0x12); pad 0 += at 6 ⊠ lit 0x3c; call major_14 (at 15)
  when (branch == 8)
      do try_odd (pad 10) minor_5; pad 18 *= at 10 ⊞ lit 0x466e09cf; call major_6 (at 13)
  when (branch == 4)
      do pad 9 += rol (at 4) (lit 9); pad 2 *= at 3 ⊞ lit 0xd6863a6; call major_9 (at 16)
  pad 18 &= my_sqrt (at 9)
  when (branch == 5) do try_odd (pad 16) minor_4; pad 2 ^= shl (at 15) 5; call major_2 (at 2)
  when (branch == 6)
      do pad 2 *= at 3 ⊞ lit 0xd6863a6; pad 6 += lit 0xfe07af0e ⊟ at 3; call major_5 (at 14)
  pad 18 -= at 16 ⊠ lit 0x77
  when (branch == 9) do pad 4 ^= lit 0xa09619f7; ror_eq (pad 4) (lit 0x19); call major_12 (at 10)
  when (branch == 10)
      do pad 12 ^= at 15 ⊟ lit 0xf5cfde0; pad 13 *= lit 0x6cd0251e; call major_11 (at 0)
  when (branch == 6)
      do pad 2 *= at 3 ⊞ lit 0xd6863a6; ror_eq (pad 4) (lit 0x1a); call major_13 seed_val
  pad 13 ^= lit 0x4930de03 ⊕ seed_val
  when (branch == 2)
      do pad 10 += lit 0x6467451; pad 4 -= at 17 ⊕ lit 0x2217cf47; call major_3 (at 2)
  when (branch == 7)
      do pad 4 -= at 17 ⊕ lit 0x2217cf47; pad 0 += at 18 ⊕ lit 0x4ac16b8d; call major_21 (at 0)
  pad 6 -= my_sqrt (at 10)
  when (branch == 3)
      do try_odd (pad 12) (minor_9 (lit 0x5b9d1f9)); pad 10 += lit 0x8958821; call major_16 (at 8)
  when (branch == 4) do pad 13 -= at 1; pad 13 *= lit 0x72494c9c; call major_1 seed_val
  when (branch == 13)
      do pad 12 += at 6 ⊞ lit 0x21d7bf61; pad 13 *= ror (at 3) (lit 5); call major_14 (at 2)
  seed -= ror (at 8) (lit 17)
  when (branch == 15)
      do pad 19 += lit 0x12b9e29d ⊟ at 12; pad 0 += at 6 ⊠ lit 0x3c; call major_6 (at 4)
  when (branch == 2)
      do pad 19 ^= choose (my_cos (at 9)) (lit 0x57337b8) (at 14); minor_20; call major_9 (at 16)
  ror_eq (pad 14) (seed_val ⊟ lit 0x3b46a63f)
  when (branch == 11) do
    pad 19 ^= choose (my_cos (at 9)) (lit 0x57337b8) (at 14)
    pad 9 += rol (at 4) (lit 9)
    call major_2 (at 9)
  when (branch == 5)
      do pad 19 += lit 0x12b9e29d ⊟ at 12; try_odd (pad 16) minor_4; call major_5 (at 6)
  when (branch == 0) do minor_20; pad 6 ^= lit 0xa9c74969; call major_12 (at 14)
  pad 8 ^= ror seed_val (lit 6)
  when (branch == 14)
      do pad 12 += lit 0x49fc5980; pad 3 -= at 0 ⊕ lit 0x185f3b0d; call major_11 seed_val
  pad 0 += choose (my_sin (at 0)) (lit 0x9bcd446) (at 14)

-- It stays inside the array.
pub major_22-SafeFlow : SafeFlow major_22
unfolding major_22
major_22-SafeFlow =
    search
      (
        minor_rules, major_1-SafeFlow, major_11-SafeFlow, major_12-SafeFlow, major_13-SafeFlow,
        major_14-SafeFlow, major_16-SafeFlow, major_2-SafeFlow, major_21-SafeFlow, major_3-SafeFlow,
        major_5-SafeFlow, major_6-SafeFlow, major_9-SafeFlow,
      )
      depth 500 fits 100000
