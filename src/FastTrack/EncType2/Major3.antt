-- ===== src/FastTrack/EncType2/Major3.antt =====
-- `mix_major3` of networks/fasttrack/enc_type_2.c.
use addnas_mldonkey.Base.{◌==◌}
use addnas_mldonkey.FastTrack.Mix.{
  Step, at, call, lit, pad, rol, rol_eq, ror, seed, seed_val, switch, when, ◌&=◌, ◌*=◌, ◌+=◌, ◌-=◌,
  ◌>>◌, ◌^=◌, ◌|=◌, ◌≔◌, ◌⊕◌, ◌⊘◌, ◌⊞◌, ◌⊟◌, ◌⊠◌, ◌⋒◌, ◌⋓◌,
}
use addnas_mldonkey.FastTrack.Mix.Safe.{SafeStep}
use addnas_mldonkey.FastTrack.EncType2.Minor.{
  mix_minor20, mix_minor26, mix_minor28, mix_minor31, mix_minor35, mix_minor37, mix_minor38,
  mix_minor39, mix_minor41, mix_minor44, mix_minor45, mix_minor46, mix_minor48, mix_minor51,
  mix_minor58, mix_minor60, mix_minor64, mix_minor67,
}
use addnas_mldonkey.FastTrack.EncType2.Minor.Safe.{minor_rules}
use addnas_mldonkey.FastTrack.EncType2.Major4.{mix_major4, mix_major4-SafeStep}
use addnas_mldonkey.FastTrack.EncType2.Major5.{mix_major5, mix_major5-SafeStep}
use addnas_mldonkey.FastTrack.EncType2.Major6.{mix_major6, mix_major6-SafeStep}
use addnas_mldonkey.FastTrack.EncType2.Major8.{mix_major8, mix_major8-SafeStep}
use addnas_mldonkey.FastTrack.EncType2.Major11.{mix_major11, mix_major11-SafeStep}
use addnas_mldonkey.FastTrack.EncType2.Major12.{mix_major12, mix_major12-SafeStep}
use addnas_mldonkey.FastTrack.EncType2.Major15.{mix_major15, mix_major15-SafeStep}
use addnas_mldonkey.FastTrack.EncType2.Major16.{mix_major16, mix_major16-SafeStep}
use addnas_mldonkey.FastTrack.EncType2.Major17.{mix_major17, mix_major17-SafeStep}
use addnas_mldonkey.FastTrack.EncType2.Major18.{mix_major18, mix_major18-SafeStep}
use addnas_mldonkey.FastTrack.EncType2.Major22.{mix_major22, mix_major22-SafeStep}

unfoldable pub mix_major3 : Step
mix_major3 = switch (((at 10 ⊕ at 16) ⊕ seed_val) ⊘ 11) λ branch. do
  pad 12 *= at 3 ⋒ lit 0x19997dc0
  seed |= at 0 ⊞ lit 0xd31e211
  pad 14 -= at 0 ⊟ lit 0x7cfa160
  when (branch == 10) do mix_minor48; mix_minor46; pad 14 -= lit 0x7f80fb4a; call mix_major17 (at 2)
  pad 13 ≔ ror (at 13) (seed_val ⊞ lit 0x6)
  pad 3 *= at 12 ⊞ lit 0xfd1d773c
  when (branch == 3) do mix_minor37; mix_minor39; pad 17 ^= lit 0x1d4f264d; call mix_major16 (at 12)
  seed |= seed_val ⊞ lit 0xd10c7a44
  seed += at 0 ⊞ lit 0xf3754e81
  seed ^= at 16 ⊕ lit 0x21d2a427
  when (branch == 1) do mix_minor38; pad 12 += lit 0x208846a; mix_minor31; call mix_major15 (at 11)
  pad 16 |= at 4 ⋓ lit 0x599c0b2
  rol_eq seed (at 0 ⊞ lit 0x1d)
  pad 3 &= at 6 ⊕ lit 0x1d86d59a
  pad 0 ^= at 10 ⊕ lit 0x22d79e78
  when (branch == 9) do mix_minor45; rol_eq (pad 16) (lit 14); mix_minor45; call mix_major8 (at 16)
  rol_eq (pad 15) (at 9 ⊞ lit 0x2)
  seed += rol seed_val (lit 13) ⊞ (at 4 ⊕ lit 0x17568f8b)
  pad 3 -= at 9 ⊕ lit 0x1b7d211b
  when (branch == 7)
      do mix_minor35; pad 14 ^= lit 0x7adc7a3f; mix_minor64; call mix_major12 seed_val
  pad 14 *= at 10 ⊕ lit 0x25da4024
  pad 3 += at 19 ⊕ lit 0x195596e2
  when (branch == 8) do mix_minor37; mix_minor60; pad 8 -= lit 0x75c7234e; call mix_major18 seed_val
  pad 3 ^= ror (at 4) (lit 11)
  pad 19 ^= at 2 ⋒ lit 0x142c74fa
  pad 7 ≔ lit 0x3de4cf2b
  seed ^= at 5 ⊠ lit 0x1195dbf3
  when (branch == 5) do mix_minor51; mix_minor51; mix_minor28; call mix_major6 (at 9)
  pad 12 *= at 14 ⊠ lit 0x25bf72d4
  seed += rol (at 11) (lit 2)
  when (branch == 0) do mix_minor28; mix_minor20; mix_minor41; call mix_major4 seed_val
  pad 7 += seed_val ⊞ lit 0xfbd89057
  pad 12 -= seed_val ⊟ lit 0xfec898a3
  seed *= seed_val ⊞ lit 0xe6d9d0ce
  pad 2 *= at 0 ⊠ lit 0x25d5927e
  when (branch == 6) do mix_minor41; mix_minor35; pad 0 += lit 0x8a388c73; call mix_major11 (at 3)
  seed -= seed_val ⊕ lit 0x7951f14a
  seed *= at 19 ⊕ lit 0x159fa550
  pad 9 -= seed_val ⊠ lit 0x1b0d12a6
  when (branch == 4) do mix_minor58; mix_minor26; mix_minor26; call mix_major22 seed_val
  pad 12 += at 4 ⋓ lit 0xf2ff1db
  pad 12 ^= at 2 ⋒ lit 0xac8676c
  pad 7 -= seed_val ⊠ lit 0x1a41598b
  pad 17 *= at 14 ⋒ lit 0x36ff2c0
  when (branch == 2) do mix_minor60; mix_minor67; mix_minor44; call mix_major5 (at 11)
  pad 19 ^= at 11 ⊞ lit 0xe311654d
  pad 18 ^= at 16 ⊠ lit 0x1267cd78
  pad 16 &= seed_val ⊕ lit 0x1c8b2015
  pad 16 *= at 16 ⋓ lit 0xc26f29a
  pad 14 &= at 10 ⊞ lit 0xcec46d19
  pad 8 -= at 8 ⊕ lit 0xc03874d

-- It stays inside the array.
pub mix_major3-SafeStep : SafeStep mix_major3
unfolding mix_major3
mix_major3-SafeStep =
    search
      (
        minor_rules, mix_major4-SafeStep, mix_major5-SafeStep, mix_major6-SafeStep,
        mix_major8-SafeStep, mix_major11-SafeStep, mix_major12-SafeStep, mix_major15-SafeStep,
        mix_major16-SafeStep, mix_major17-SafeStep, mix_major18-SafeStep, mix_major22-SafeStep,
      )
      depth 500 fits 100000
