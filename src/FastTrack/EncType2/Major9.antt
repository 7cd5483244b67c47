-- ===== src/FastTrack/EncType2/Major9.antt =====
-- `mix_major9` of networks/fasttrack/enc_type_2.c.
use addnas_mldonkey.Base.{◌==◌}
use addnas_mldonkey.FastTrack.Mix.{
  Step, at, call, lit, pad, rol, rol_eq, ror, ror_eq, seed, seed_val, switch, when, ◌&=◌, ◌*=◌,
  ◌+=◌, ◌-=◌, ◌>>◌, ◌^=◌, ◌|=◌, ◌≔◌, ◌⊕◌, ◌⊘◌, ◌⊞◌, ◌⊟◌, ◌⊠◌, ◌⋒◌, ◌⋓◌,
}
use addnas_mldonkey.FastTrack.Mix.Safe.{SafeStep}
use addnas_mldonkey.FastTrack.EncType2.Minor.{
  mix_minor21, mix_minor24, mix_minor26, mix_minor28, mix_minor29, mix_minor30, mix_minor31,
  mix_minor33, mix_minor35, mix_minor40, mix_minor41, mix_minor43, mix_minor47, mix_minor54,
  mix_minor55, mix_minor56, mix_minor58, mix_minor63, mix_minor64, mix_minor65, mix_minor69,
}
use addnas_mldonkey.FastTrack.EncType2.Minor.Safe.{minor_rules}
use addnas_mldonkey.FastTrack.EncType2.Major3.{mix_major3, mix_major3-SafeStep}
use addnas_mldonkey.FastTrack.EncType2.Major4.{mix_major4, mix_major4-SafeStep}
use addnas_mldonkey.FastTrack.EncType2.Major5.{mix_major5, mix_major5-SafeStep}
use addnas_mldonkey.FastTrack.EncType2.Major6.{mix_major6, mix_major6-SafeStep}
use addnas_mldonkey.FastTrack.EncType2.Major8.{mix_major8, mix_major8-SafeStep}
use addnas_mldonkey.FastTrack.EncType2.Major11.{mix_major11, mix_major11-SafeStep}
use addnas_mldonkey.FastTrack.EncType2.Major12.{mix_major12, mix_major12-SafeStep}
use addnas_mldonkey.FastTrack.EncType2.Major14.{mix_major14, mix_major14-SafeStep}
use addnas_mldonkey.FastTrack.EncType2.Major15.{mix_major15, mix_major15-SafeStep}
use addnas_mldonkey.FastTrack.EncType2.Major18.{mix_major18, mix_major18-SafeStep}
use addnas_mldonkey.FastTrack.EncType2.Major22.{mix_major22, mix_major22-SafeStep}

unfoldable pub mix_major9 : Step
mix_major9 = switch (((at 1 ⊕ at 15) ⊕ at 19) ⊘ 11) λ branch. do
  pad 19 |= at 18 ⊞ lit 0xe56713bc
  pad 12 |= at 8 ⊞ lit 0xefc639fe
  when (branch == 2) do mix_minor40; mix_minor26; mix_minor65; call mix_major15 seed_val
  pad 4 ^= at 18 ⊞ lit 0xf20ff41d
  rol_eq seed (seed_val ⊞ lit 0xb)
  when (branch == 5) do mix_minor28; mix_minor35; rol_eq (pad 19) (lit 20); call mix_major8 seed_val
  pad 2 ^= ror seed_val (lit 1)
  pad 10 *= seed_val ⊞ lit 0x3842b736
  when (branch == 4) do mix_minor21; mix_minor28; pad 3 -= lit 0x524e81e6; call mix_major12 (at 13)
  pad 5 ^= at 4 ⊕ lit 0x224deca3
  pad 9 += at 15 ⋒ lit 0xe43bfd6
  pad 12 += at 18 ⋓ lit 0x24e2f424
  when (branch == 1)
      do mix_minor43; pad 8 += lit 0x6afab397; pad 11 += lit 0x573a6da7; call mix_major18 (at 0)
  pad 11 *= at 10 ⊞ lit 0xf0b1e409
  pad 9 *= at 5 ⊞ lit 0x13bcdf0b
  pad 5 += lit 0x2961fc0
  pad 6 *= at 11 ⊞ lit 0xe91b219c
  when (branch == 7) do mix_minor29; mix_minor41; mix_minor28; call mix_major6 (lit 0xefc5f81f)
  pad 1 *= at 1 ⊞ lit 0xff4abdb4
  seed ≔ lit 0x6f850fff
  pad 13 += ror (at 10) (lit 27)
  pad 10 += at 3 ⊞ lit 0xea05fa03
  when (branch == 10)
      do mix_minor24; mix_minor31; rol_eq (pad 16) (lit 20); call mix_major4 seed_val
  pad 19 ≔ (at 19 ⊞ lit 0xe8b6d37d) ⊟ at 2
  seed ^= at 12 ⊠ lit 0xa95c314
  when (branch == 8) do mix_minor64; pad 4 ^= lit 0xa54ee16; mix_minor54; call mix_major11 (at 11)
  seed += at 11 ⋒ lit 0x346472bf
  seed &= at 15 ⊠ lit 0xbeb977c
  seed += at 2 ⊕ lit 0x33dd726a
  pad 19 &= seed_val ⊕ lit 0x13220e
  when (branch == 6) do mix_minor63; mix_minor54; mix_minor43; call mix_major22 (at 2)
  seed *= seed_val ⊞ lit 0x13a371f7
  rol_eq (pad 0) (seed_val ⊠ lit 0x2)
  rol_eq seed (at 15 ⊠ lit 0xf)
  pad 12 += at 11 ⋓ lit 0x15477725
  when (branch == 3) do mix_minor56; pad 14 ^= lit 0x66bd03a9; mix_minor55; call mix_major5 (at 9)
  pad 16 += at 8 ⊞ lit 0xb2878320
  pad 0 += at 11 ⊠ lit 0x128142d3
  ror_eq (pad 13) (seed_val ⊞ lit 0x9)
  when (branch == 0) do mix_minor33; mix_minor69; mix_minor58; call mix_major3 (at 17)
  ror_eq (pad 13) (at 4 ⊞ lit 0x1a)
  seed |= seed_val ⊞ lit 0xb401ddcd
  ror_eq seed (at 16 ⊞ lit 0x17)
  seed += at 11 ⊕ lit 0x14302fce
  when (branch == 9) do mix_minor30; mix_minor47; pad 14 -= lit 0x979badcc; call mix_major14 (at 17)
  pad 7 += at 2 ⋒ lit 0x2104615d
  pad 6 |= rol (at 4) (lit 21)
  pad 16 -= seed_val ⊠ lit 0x144af0fa
  seed ^= at 9 ⊠ lit 0x1d7178c2
  seed *= lit 0x3564b1fd
  pad 16 -= ror seed_val (lit 11)
  pad 8 ^= at 19 ⊠ lit 0x383ae479
  pad 11 += seed_val ⊞ lit 0xc4759a85
  pad 9 ^= at 11 ⊞ lit 0x35e01882
  pad 10 &= at 0 ⊕ lit 0x105d6dd1

-- It stays inside the array.
pub mix_major9-SafeStep : SafeStep mix_major9
unfolding mix_major9
mix_major9-SafeStep =
    search
      (
        minor_rules, mix_major3-SafeStep, mix_major4-SafeStep, mix_major5-SafeStep,
        mix_major6-SafeStep, mix_major8-SafeStep, mix_major11-SafeStep, mix_major12-SafeStep,
        mix_major14-SafeStep, mix_major15-SafeStep, mix_major18-SafeStep, mix_major22-SafeStep,
      )
      depth 500 fits 100000
