-- ===== src/FastTrack/EncType2/Major7.antt =====
-- `mix_major7` of networks/fasttrack/enc_type_2.c.
use addnas_mldonkey.Base.{◌==◌}
use addnas_mldonkey.FastTrack.Mix.{
  Step, at, call, lit, pad, rol, rol_eq, ror, ror_eq, seed, seed_val, switch, when, ◌*=◌, ◌+=◌,
  ◌-=◌, ◌>>◌, ◌^=◌, ◌|=◌, ◌⊕◌, ◌⊘◌, ◌⊞◌, ◌⊟◌, ◌⊠◌, ◌⋒◌, ◌⋓◌,
}
use addnas_mldonkey.FastTrack.Mix.Safe.{SafeStep}
use addnas_mldonkey.FastTrack.EncType2.Minor.{
  mix_minor22, mix_minor24, mix_minor32, mix_minor33, mix_minor34, mix_minor35, mix_minor38,
  mix_minor41, mix_minor43, mix_minor44, mix_minor45, mix_minor46, mix_minor49, mix_minor51,
  mix_minor56, mix_minor57, mix_minor59, mix_minor60, mix_minor64, mix_minor69,
}
use addnas_mldonkey.FastTrack.EncType2.Minor.Safe.{minor_rules}
use addnas_mldonkey.FastTrack.EncType2.Major2.{mix_major2, mix_major2-SafeStep}
use addnas_mldonkey.FastTrack.EncType2.Major3.{mix_major3, mix_major3-SafeStep}
use addnas_mldonkey.FastTrack.EncType2.Major4.{mix_major4, mix_major4-SafeStep}
use addnas_mldonkey.FastTrack.EncType2.Major5.{mix_major5, mix_major5-SafeStep}
use addnas_mldonkey.FastTrack.EncType2.Major6.{mix_major6, mix_major6-SafeStep}
use addnas_mldonkey.FastTrack.EncType2.Major9.{mix_major9, mix_major9-SafeStep}
use addnas_mldonkey.FastTrack.EncType2.Major10.{mix_major10, mix_major10-SafeStep}
use addnas_mldonkey.FastTrack.EncType2.Major11.{mix_major11, mix_major11-SafeStep}
use addnas_mldonkey.FastTrack.EncType2.Major14.{mix_major14, mix_major14-SafeStep}
use addnas_mldonkey.FastTrack.EncType2.Major18.{mix_major18, mix_major18-SafeStep}
use addnas_mldonkey.FastTrack.EncType2.Major22.{mix_major22, mix_major22-SafeStep}

unfoldable pub mix_major7 : Step
mix_major7 = switch (((at 3 ⊕ at 6) ⊕ seed_val) ⊘ 11) λ branch. do
  pad 8 += seed_val ⊠ lit 0x25d21c70
  seed += ror (at 13) (lit 26)
  pad 15 += ror (at 0) (lit 18)
  when (branch == 1)
      do mix_minor45; rol_eq (pad 16) (lit 24); rol_eq (pad 16) (lit 18); call mix_major18 (at 9)
  seed += at 4 ⊕ lit 0x214bbbb
  rol_eq (pad 5) (seed_val ⊠ lit 0x1d)
  pad 17 -= at 18 ⋓ lit 0x1102e01a
  pad 19 += at 12 ⊞ lit 0xf1e0cc5a
  when (branch == 0) do pad 4 *= lit 0x73b12006; mix_minor49; mix_minor43; call mix_major6 (at 13)
  pad 8 |= seed_val ⊠ lit 0x33ff2ce9
  pad 4 *= seed_val ⊞ lit 0x2fe45acf
  pad 3 ^= ror seed_val (lit 13)
  seed ^= at 12 ⋒ lit 0x2e2ac892
  when (branch == 7) do mix_minor59; mix_minor69; mix_minor41; call mix_major4 (at 15)
  seed *= rol (at 14) (lit 1)
  seed ^= seed_val ⊞ lit 0x7a3b4f0e
  pad 5 += at 11 ⊕ lit 0x5f050ce6
  when (branch == 2) do mix_minor46; mix_minor45; mix_minor24; call mix_major11 (at 17)
  pad 9 -= at 11 ⋒ lit 0x524788df
  seed += (at 3 ⊞ ror (at 17) (lit 18)) ⊞ lit 0x17b2d86
  pad 12 |= at 17 ⊕ lit 0xd2348b5
  when (branch == 4) do mix_minor60; mix_minor56; mix_minor64; call mix_major22 seed_val
  pad 4 += at 0 ⊕ lit 0x3ca6760a
  ror_eq (pad 10) (at 12 ⋒ lit 0x1e)
  pad 12 -= seed_val ⊕ lit 0x32b59495
  pad 11 -= at 7 ⊕ lit 0xcc6cef3
  when (branch == 9) do mix_minor51; mix_minor51; mix_minor46; call mix_major5 (at 6)
  pad 18 -= seed_val ⊕ lit 0x42ce4263
  pad 8 ^= at 15 ⊞ lit 0xfc1ccf0a
  pad 4 *= at 2 ⊞ lit 0xdc6ebf0
  when (branch == 8) do mix_minor34; mix_minor33; mix_minor35; call mix_major3 (at 19)
  pad 14 ^= at 17 ⊞ lit 0x29e0bfe6
  pad 2 ^= at 0 ⊞ lit 0xc0a98770
  pad 6 += rol (at 11) (lit 15)
  when (branch == 10)
      do mix_minor43; mix_minor38; rol_eq (pad 10) (lit 8); call mix_major14 seed_val
  seed += (at 18 ⊟ at 5) ⊞ lit 0xff5138a0
  when (branch == 6)
      do rol_eq (pad 19) (lit 22); mix_minor32; pad 14 ^= lit 0x3ccf037; call mix_major9 seed_val
  ror_eq (pad 3) (at 17 ⋒ lit 0xa)
  pad 3 ^= at 7 ⊠ lit 0x36e7ec8
  when (branch == 3)
      do mix_minor41; pad 17 ^= lit 0xeeea146c; mix_minor64; call mix_major10 seed_val
  ror_eq (pad 10) (at 19 ⊠ lit 0x19)
  pad 14 *= at 12 ⊞ lit 0xd914afe4
  when (branch == 5) do mix_minor22; mix_minor57; mix_minor44; call mix_major2 (at 18)
  pad 8 -= at 7 ⊕ lit 0x1609874e
  pad 10 ^= at 4 ⋓ lit 0x1e171635
  pad 6 -= at 16 ⊟ lit 0x19b93371

-- It stays inside the array.
pub mix_major7-SafeStep : SafeStep mix_major7
unfolding mix_major7
mix_major7-SafeStep =
    search
      (
        minor_rules, mix_major2-SafeStep, mix_major3-SafeStep, mix_major4-SafeStep,
        mix_major5-SafeStep, mix_major6-SafeStep, mix_major9-SafeStep, mix_major10-SafeStep,
        mix_major11-SafeStep, mix_major14-SafeStep, mix_major18-SafeStep, mix_major22-SafeStep,
      )
      depth 500 fits 100000
