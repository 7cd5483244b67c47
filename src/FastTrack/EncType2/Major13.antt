-- ===== src/FastTrack/EncType2/Major13.antt =====
-- `mix_major13` of networks/fasttrack/enc_type_2.c.
use addnas_mldonkey.Base.{◌==◌}
use addnas_mldonkey.FastTrack.Mix.{
  Step, at, call, lit, pad, rol_eq, ror, ror_eq, seed, seed_val, switch, when, ◌&=◌, ◌*=◌, ◌+=◌,
  ◌-=◌, ◌>>◌, ◌^=◌, ◌|=◌, ◌⊕◌, ◌⊘◌, ◌⊞◌, ◌⊟◌, ◌⊠◌, ◌⋒◌, ◌⋓◌,
}
use addnas_mldonkey.FastTrack.Mix.Safe.{SafeStep}
use addnas_mldonkey.FastTrack.EncType2.Minor.{
  mix_minor20, mix_minor22, mix_minor26, mix_minor27, mix_minor28, mix_minor29, mix_minor34,
  mix_minor38, mix_minor39, mix_minor41, mix_minor46, mix_minor48, mix_minor49, mix_minor50,
  mix_minor51, mix_minor52, mix_minor55, mix_minor57, mix_minor58, mix_minor61, mix_minor68,
}
use addnas_mldonkey.FastTrack.EncType2.Minor.Safe.{minor_rules}
use addnas_mldonkey.FastTrack.EncType2.Major2.{mix_major2, mix_major2-SafeStep}
use addnas_mldonkey.FastTrack.EncType2.Major3.{mix_major3, mix_major3-SafeStep}
use addnas_mldonkey.FastTrack.EncType2.Major4.{mix_major4, mix_major4-SafeStep}
use addnas_mldonkey.FastTrack.EncType2.Major5.{mix_major5, mix_major5-SafeStep}
use addnas_mldonkey.FastTrack.EncType2.Major7.{mix_major7, mix_major7-SafeStep}
use addnas_mldonkey.FastTrack.EncType2.Major9.{mix_major9, mix_major9-SafeStep}
use addnas_mldonkey.FastTrack.EncType2.Major10.{mix_major10, mix_major10-SafeStep}
use addnas_mldonkey.FastTrack.EncType2.Major11.{mix_major11, mix_major11-SafeStep}
use addnas_mldonkey.FastTrack.EncType2.Major14.{mix_major14, mix_major14-SafeStep}
use addnas_mldonkey.FastTrack.EncType2.Major21.{mix_major21, mix_major21-SafeStep}
use addnas_mldonkey.FastTrack.EncType2.Major22.{mix_major22, mix_major22-SafeStep}

unfoldable pub mix_major13 : Step
mix_major13 = switch (((at 1 ⊕ at 12) ⊕ at 18) ⊘ 11) λ branch. do
  pad 7 *= seed_val ⊞ lit 0xfd2296dd
  seed *= at 9 ⊞ lit 0x10ce1e6b
  pad 13 |= at 14 ⋒ lit 0xe7aa887
  when (branch == 9) do mix_minor61; pad 3 += lit 0x1702840; mix_minor34; call mix_major4 (at 15)
  pad 19 += at 17 ⊞ lit 0x44864e65
  pad 2 -= at 10 ⊟ lit 0x456501d3
  pad 11 ^= at 17 ⊞ lit 0xe91158ed
  when (branch == 6) do mix_minor41; mix_minor46; mix_minor27; call mix_major11 (at 8)
  pad 13 -= seed_val ⊟ lit 0xffeafe84
  pad 3 ^= at 10 ⋒ lit 0x5898bbff
  seed -= at 17 ⊕ lit 0xb4b5ddd
  pad 5 &= seed_val ⊞ lit 0xf2a69347
  when (branch == 7) do pad 11 += lit 0x28b81; mix_minor55; mix_minor38; call mix_major22 (at 19)
  pad 8 += at 11 ⊞ lit 0x35a3f082
  pad 15 &= seed_val ⊞ lit 0xf0918e1c
  when (branch == 8) do pad 12 += lit 0x2180072; mix_minor48; mix_minor39; call mix_major5 seed_val
  seed -= at 12 ⊟ lit 0x1e87b29e
  seed ^= at 0 ⊞ lit 0x9b993250
  pad 13 ^= at 17 ⊠ lit 0xb083b2b
  when (branch == 5) do mix_minor68; mix_minor58; mix_minor52; call mix_major3 (at 14)
  rol_eq (pad 1) (at 0 ⊕ lit 0x1a)
  pad 5 ^= at 11 ⊠ lit 0x17321349
  seed ^= at 3 ⊞ lit 0xffce689b
  pad 4 *= seed_val ⊞ lit 0x2570be6e
  when (branch == 10) do pad 14 -= lit 0xb271fe0e; mix_minor57; mix_minor20; call mix_major14 (at 6)
  pad 15 *= lit 0x2d42b937
  pad 4 *= seed_val ⊞ lit 0xf544478e
  pad 0 += at 9 ⊕ lit 0x4dc36a
  pad 0 -= seed_val ⊟ lit 0x10bb4f25
  when (branch == 3) do mix_minor39; mix_minor26; pad 0 += lit 0x8fc063b5; call mix_major9 (at 15)
  pad 19 &= ror (at 3) (lit 14)
  pad 17 *= seed_val ⊠ lit 0x18575b09
  pad 1 |= seed_val ⊠ lit 0x50ebe77
  seed += at 6 ⋓ lit 0x4d24003d
  when (branch == 4) do pad 14 -= lit 0x3b677863; mix_minor29; mix_minor22; call mix_major10 (at 9)
  pad 15 &= at 0 ⊞ lit 0xf770857b
  ror_eq (pad 0) (seed_val ⊠ lit 0xd)
  seed -= seed_val ⋓ lit 0x2576a843
  when (branch == 0) do mix_minor49; mix_minor41; pad 3 += lit 0x8306000; call mix_major2 (at 8)
  pad 1 += seed_val ⊠ lit 0x2994c8c
  pad 16 ^= at 6 ⊞ lit 0xfe25a480
  pad 3 *= at 11 ⊠ lit 0x1e333f7b
  ror_eq (pad 7) (at 17 ⊕ lit 0x1a)
  when (branch == 2)
      do mix_minor51; pad 8 -= lit 0xfbb3cb07; pad 4 ^= lit 0x214ff68b; call mix_major7 (at 1)
  pad 13 ^= at 18 ⊞ lit 0x149e5b40
  pad 0 += at 19 ⊞ lit 0x541a494
  when (branch == 1) do mix_minor38; mix_minor28; mix_minor50; call mix_major21 seed_val
  pad 2 -= seed_val ⊟ lit 0x16deeae
  pad 9 -= at 0 ⊕ lit 0x1120ce2d
  pad 13 ^= at 7 ⊕ lit 0x2a74ac2a
  pad 12 &= at 9 ⊞ lit 0xdab80c67
  pad 14 -= seed_val ⊠ lit 0x2776477
  pad 4 -= at 19 ⊠ lit 0x2f2e21d0
  pad 19 -= at 3 ⊟ lit 0xe78ae13d
  seed -= seed_val ⊕ lit 0x434c0d3a
  seed -= at 2 ⊟ lit 0x11f70706
  ror_eq seed (at 16 ⊞ lit 0x9)
  pad 13 += seed_val ⊠ lit 0x2a0d21c3

-- It stays inside the array.
pub mix_major13-SafeStep : SafeStep mix_major13
unfolding mix_major13
mix_major13-SafeStep =
    search
      (
        minor_rules, mix_major2-SafeStep, mix_major3-SafeStep, mix_major4-SafeStep,
        mix_major5-SafeStep, mix_major7-SafeStep, mix_major9-SafeStep, mix_major10-SafeStep,
        mix_major11-SafeStep, mix_major14-SafeStep, mix_major21-SafeStep, mix_major22-SafeStep,
      )
      depth 500 fits 100000
