-- ===== src/FastTrack/EncType2/Major5.antt =====
-- `mix_major5` of networks/fasttrack/enc_type_2.c.
use addnas_mldonkey.Base.{◌==◌}
use addnas_mldonkey.FastTrack.Mix.{
  Step, at, call, lit, pad, rol, rol_eq, ror_eq, seed, seed_val, switch, when, ◌&=◌, ◌*=◌, ◌+=◌,
  ◌-=◌, ◌>>◌, ◌^=◌, ◌|=◌, ◌⊕◌, ◌⊘◌, ◌⊞◌, ◌⊟◌, ◌⊠◌, ◌⋒◌, ◌⋓◌,
}
use addnas_mldonkey.FastTrack.Mix.Safe.{SafeStep}
use addnas_mldonkey.FastTrack.EncType2.Minor.{
  mix_minor21, mix_minor22, mix_minor29, mix_minor30, mix_minor32, mix_minor33, mix_minor41,
  mix_minor42, mix_minor45, mix_minor47, mix_minor50, mix_minor53, mix_minor55, mix_minor59,
  mix_minor64,
}
use addnas_mldonkey.FastTrack.EncType2.Minor.Safe.{minor_rules}
use addnas_mldonkey.FastTrack.EncType2.Major4.{mix_major4, mix_major4-SafeStep}
use addnas_mldonkey.FastTrack.EncType2.Major6.{mix_major6, mix_major6-SafeStep}
use addnas_mldonkey.FastTrack.EncType2.Major8.{mix_major8, mix_major8-SafeStep}
use addnas_mldonkey.FastTrack.EncType2.Major11.{mix_major11, mix_major11-SafeStep}
use addnas_mldonkey.FastTrack.EncType2.Major12.{mix_major12, mix_major12-SafeStep}
use addnas_mldonkey.FastTrack.EncType2.Major15.{mix_major15, mix_major15-SafeStep}
use addnas_mldonkey.FastTrack.EncType2.Major16.{mix_major16, mix_major16-SafeStep}
use addnas_mldonkey.FastTrack.EncType2.Major17.{mix_major17, mix_major17-SafeStep}
use addnas_mldonkey.FastTrack.EncType2.Major18.{mix_major18, mix_major18-SafeStep}
use addnas_mldonkey.FastTrack.EncType2.Major20.{mix_major20, mix_major20-SafeStep}
use addnas_mldonkey.FastTrack.EncType2.Major22.{mix_major22, mix_major22-SafeStep}

unfoldable pub mix_major5 : Step
mix_major5 = switch (at 18 ⊘ 11) λ branch. do
  pad 5 |= at 17 ⊠ lit 0x2e7a089
  pad 3 ^= at 13 ⊞ lit 0x1fef7de0
  seed -= at 16 ⊕ lit 0x8338b85
  when (branch == 0)
      do pad 3 += lit 0x1000800; pad 3 += lit 0x9102040; mix_minor30; call mix_major20 (at 11)
  seed *= lit 0x1cd19bfb
  pad 3 *= at 12 ⊞ lit 0x15bdbb56
  pad 11 ^= seed_val ⊞ lit 0x374580a7
  pad 10 += seed_val ⋓ lit 0x86941f3
  when (branch == 4) do mix_minor32; rol_eq (pad 10) (lit 25); mix_minor50; call mix_major17 (at 18)
  pad 6 -= at 16 ⊕ lit 0x11119dd6
  pad 13 += at 18 ⊞ lit 0xcb82c76c
  pad 8 -= at 1 ⊕ lit 0x3b98ae58
  when (branch == 9) do mix_minor42; mix_minor64; mix_minor21; call mix_major16 (at 1)
  pad 17 ^= at 17 ⊞ lit 0xcfd5283
  pad 5 &= at 13 ⊞ lit 0x539ef62
  pad 11 &= at 14 ⊕ lit 0x639b87fe
  when (branch == 8) do mix_minor22; mix_minor59; pad 14 += lit 0x73204792; call mix_major15 (at 18)
  pad 12 -= seed_val ⋓ lit 0x369e02e
  pad 6 *= at 12 ⊞ lit 0xf0544c52
  seed += at 5 ⊞ lit 0x8dcb06
  pad 12 -= seed_val ⋒ lit 0x632ffca
  when (branch == 3)
      do pad 5 += lit 0xc6ac8583; mix_minor41; pad 3 += lit 0x9004000; call mix_major8 (at 17)
  pad 16 -= at 6 ⊠ lit 0x345114ef
  ror_eq (pad 10) (at 11 ⊠ lit 0x10)
  pad 0 += at 4 ⋒ lit 0x18b74e25
  when (branch == 7) do pad 12 += lit 0x1a; mix_minor53; mix_minor47; call mix_major12 (at 15)
  pad 2 -= at 2 ⊕ lit 0x18f1b56
  rol_eq (pad 19) (at 13 ⊞ lit 0x6)
  when (branch == 6) do
    pad 3 *= lit 0x27d3a148
    pad 4 *= lit 0xa24016a8
    pad 14 -= lit 0x3a2c78cf
    call mix_major18 seed_val
  ror_eq seed (at 7 ⊞ lit 0x16)
  rol_eq seed (at 14 ⊞ lit 0x11)
  when (branch == 5) do pad 3 *= lit 0x3713ed22; mix_minor29; mix_minor59; call mix_major6 (at 7)
  seed -= at 10 ⊟ lit 0xd26e6435
  rol_eq (pad 8) (at 13 ⊕ lit 0x15)
  pad 1 += at 10 ⊕ lit 0x1da5a5e2
  when (branch == 2) do mix_minor45; mix_minor55; rol_eq (pad 16) (lit 13); call mix_major4 (at 10)
  pad 7 |= seed_val ⊠ lit 0x1665683f
  pad 6 += at 17 ⊞ lit 0xd3198985
  seed &= at 1 ⊠ lit 0xb2490cd
  when (branch == 1) do mix_minor50; mix_minor45; pad 8 += lit 0x749a003b; call mix_major11 (at 6)
  pad 13 -= at 3 ⊕ lit 0x49caa386
  pad 5 -= at 7 ⊟ lit 0xca44ad
  seed += at 14 ⋓ lit 0xce2b27d
  when (branch == 10) do mix_minor33; mix_minor22; pad 8 -= lit 0x7a3a25c3; call mix_major22 (at 11)
  pad 15 += at 6 ⊞ lit 0x9f72b74b
  pad 16 -= at 3 ⊟ lit 0xaa1914c0
  seed -= rol seed_val (lit 18)
  pad 14 ^= at 9 ⊕ lit 0x7a9f2d9
  pad 19 &= rol (at 3) (lit 10)
  seed *= at 15 ⊠ lit 0xd49e9d9
  pad 4 += at 2 ⊕ lit 0xc52d715
  pad 15 *= at 11 ⊠ lit 0x300c07b6
  pad 4 ^= seed_val ⊠ lit 0x59c5268
  pad 7 -= seed_val ⊟ lit 0xf1ae26ce

-- It stays inside the array.
pub mix_major5-SafeStep : SafeStep mix_major5
unfolding mix_major5
mix_major5-SafeStep =
    search
      (
        minor_rules, mix_major4-SafeStep, mix_major6-SafeStep, mix_major8-SafeStep,
        mix_major11-SafeStep, mix_major12-SafeStep, mix_major15-SafeStep, mix_major16-SafeStep,
        mix_major17-SafeStep, mix_major18-SafeStep, mix_major20-SafeStep, mix_major22-SafeStep,
      )
      depth 500 fits 100000
