-- ===== src/FastTrack/EncType2/Major16.antt =====
-- `mix_major16` of networks/fasttrack/enc_type_2.c.
use addnas_mldonkey.Base.{◌==◌}
use addnas_mldonkey.FastTrack.Mix.{
  Step, at, call, lit, pad, rol, rol_eq, ror, ror_eq, seed, seed_val, switch, when, ◌&=◌, ◌*=◌,
  ◌+=◌, ◌-=◌, ◌>>◌, ◌^=◌, ◌|=◌, ◌⊕◌, ◌⊘◌, ◌⊞◌, ◌⊟◌, ◌⊠◌, ◌⋒◌, ◌⋓◌,
}
use addnas_mldonkey.FastTrack.Mix.Safe.{SafeStep}
use addnas_mldonkey.FastTrack.EncType2.Minor.{
  mix_minor21, mix_minor27, mix_minor29, mix_minor33, mix_minor45, mix_minor53,
}
use addnas_mldonkey.FastTrack.EncType2.Minor.Safe.{minor_rules}
use addnas_mldonkey.FastTrack.EncType2.Major17.{mix_major17, mix_major17-SafeStep}
use addnas_mldonkey.FastTrack.EncType2.Major19.{mix_major19, mix_major19-SafeStep}
use addnas_mldonkey.FastTrack.EncType2.Major20.{mix_major20, mix_major20-SafeStep}

unfoldable pub mix_major16 : Step
mix_major16 = switch (at 12 ⊘ 3) λ branch. do
  pad 7 ^= at 7 ⊞ lit 0x1256f342
  pad 9 ^= rol (at 14) (lit 9)
  pad 0 += at 13 ⊕ lit 0x4a20925
  ror_eq (pad 13) (seed_val ⋓ lit 0xb)
  seed -= at 10 ⊟ lit 0x2cd8307e
  ror_eq seed (at 17 ⊠ lit 0x15)
  pad 8 += at 15 ⋓ lit 0x11570bca
  seed &= at 3 ⊕ lit 0x4c404c71
  seed += at 10 ⊕ lit 0x85d82e
  pad 11 *= at 6 ⋒ lit 0xf076b8f
  pad 11 += seed_val ⊞ lit 0x26d0f98c
  when (branch == 0) do mix_minor29; mix_minor21; mix_minor33; call mix_major19 (at 7)
  pad 1 ^= ror seed_val (lit 23)
  pad 9 += seed_val ⊞ lit 0xf24cc80b
  rol_eq (pad 3) (at 14 ⊠ lit 0x1d)
  pad 19 += seed_val ⊞ lit 0x64922cc
  seed -= at 0 ⊟ lit 0x1e0944e3
  ror_eq seed (seed_val ⊠ lit 0x1c)
  seed *= at 15 ⊞ lit 0x8d90c5a3
  pad 17 ^= seed_val ⋒ lit 0xdd9bf1a
  pad 4 -= at 6 ⊟ lit 0xd5bd8bc1
  seed += seed_val ⊞ lit 0x1226f462
  pad 17 ^= rol (at 13) (lit 5)
  rol_eq (pad 13) (seed_val ⋒ lit 0x12)
  when (branch == 2)
      do mix_minor45; pad 8 -= lit 0x3e5f74f5; pad 11 += lit 0xee0e47c6; call mix_major20 seed_val
  seed |= at 9 ⋓ lit 0x10b9b57a
  pad 0 += at 10 ⊞ lit 0x477a65c2
  pad 8 |= at 7 ⊕ lit 0x1b348ba1
  rol_eq (pad 16) (rol (at 1) (lit 8))
  seed ^= at 19 ⊠ lit 0xfa375c5
  ror_eq (pad 11) (ror (at 5) (lit 13))
  pad 7 ^= at 19 ⊞ lit 0x64bd3f85
  pad 6 *= ror seed_val (lit 25)
  pad 5 += seed_val ⊞ lit 0xaeeb67de
  pad 19 |= ror (at 5) (lit 22)
  pad 0 += at 6 ⊞ lit 0xe1f2872
  when (branch == 1) do mix_minor53; mix_minor27; pad 9 += lit 0xd829ce84; call mix_major17 seed_val
  seed |= at 6 ⋓ lit 0x40c95dca
  rol_eq seed (at 12 ⊕ lit 0x1)
  pad 3 &= at 8 ⊞ lit 0xed5ca98b
  pad 4 += seed_val ⊞ lit 0x92abec6e
  seed &= ror (at 13) (lit 22)
  pad 2 += at 15 ⊠ lit 0xff635ec
  pad 6 ^= seed_val ⊞ lit 0x37343841
  pad 9 += at 14 ⊞ lit 0xf8e12c69
  pad 14 -= rol (at 10) (lit 20)

-- It stays inside the array.
pub mix_major16-SafeStep : SafeStep mix_major16
unfolding mix_major16
mix_major16-SafeStep =
    search (minor_rules, mix_major17-SafeStep, mix_major19-SafeStep, mix_major20-SafeStep) depth 500
      fits 100000
