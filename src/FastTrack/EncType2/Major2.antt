-- ===== src/FastTrack/EncType2/Major2.antt =====
-- `mix_major2` of networks/fasttrack/enc_type_2.c.
use addnas_mldonkey.Base.{◌==◌}
use addnas_mldonkey.FastTrack.Mix.{
  Step, at, call, lit, pad, rol, rol_eq, ror, ror_eq, seed, seed_val, switch, when, ◌&=◌, ◌*=◌,
  ◌+=◌, ◌-=◌, ◌>>◌, ◌^=◌, ◌|=◌, ◌≔◌, ◌⊕◌, ◌⊘◌, ◌⊞◌, ◌⊟◌, ◌⊠◌, ◌⋒◌, ◌⋓◌,
}
use addnas_mldonkey.FastTrack.Mix.Safe.{SafeStep}
use addnas_mldonkey.FastTrack.EncType2.Minor.{
  mix_minor20, mix_minor26, mix_minor27, mix_minor28, mix_minor32, mix_minor36, mix_minor41,
  mix_minor43, mix_minor44, mix_minor46, mix_minor47, mix_minor48, mix_minor49, mix_minor55,
  mix_minor57, mix_minor61, mix_minor62, mix_minor63, mix_minor64, mix_minor69,
}
use addnas_mldonkey.FastTrack.EncType2.Minor.Safe.{minor_rules}
use addnas_mldonkey.FastTrack.EncType2.Major3.{mix_major3, mix_major3-SafeStep}
use addnas_mldonkey.FastTrack.EncType2.Major4.{mix_major4, mix_major4-SafeStep}
use addnas_mldonkey.FastTrack.EncType2.Major5.{mix_major5, mix_major5-SafeStep}
use addnas_mldonkey.FastTrack.EncType2.Major6.{mix_major6, mix_major6-SafeStep}
use addnas_mldonkey.FastTrack.EncType2.Major9.{mix_major9, mix_major9-SafeStep}
use addnas_mldonkey.FastTrack.EncType2.Major10.{mix_major10, mix_major10-SafeStep}
use addnas_mldonkey.FastTrack.EncType2.Major11.{mix_major11, mix_major11-SafeStep}
use addnas_mldonkey.FastTrack.EncType2.Major12.{mix_major12, mix_major12-SafeStep}
use addnas_mldonkey.FastTrack.EncType2.Major14.{mix_major14, mix_major14-SafeStep}
use addnas_mldonkey.FastTrack.EncType2.Major18.{mix_major18, mix_major18-SafeStep}
use addnas_mldonkey.FastTrack.EncType2.Major22.{mix_major22, mix_major22-SafeStep}

unfoldable pub mix_major2 : Step
mix_major2 = switch (at 9 ⊘ 11) λ branch. do
  pad 0 |= seed_val ⋓ lit 0x4d9f89df
  seed -= seed_val ⋒ lit 0x10691818
  pad 15 &= ror (at 15) (lit 18)
  when (branch == 2) do mix_minor63; mix_minor62; mix_minor43; call mix_major12 (at 9)
  seed |= at 7 ⊕ lit 0x1f11181f
  ror_eq (pad 17) (at 18 ⊞ lit 0x18)
  pad 3 &= at 18 ⊞ lit 0xc18379a4
  pad 8 += at 2 ⊞ lit 0x8845990
  when (branch == 8) do rol_eq (pad 10) (lit 6); mix_minor64; mix_minor69; call mix_major18 seed_val
  seed *= rol (at 7) (lit 30)
  ror_eq (pad 14) (seed_val ⊕ lit 0x1)
  pad 3 -= at 3 ⊕ lit 0x1a11c1c
  when (branch == 3) do mix_minor48; pad 3 -= lit 0x833e3d40; mix_minor61; call mix_major6 seed_val
  pad 5 += seed_val ⊞ lit 0xbdf50793
  seed -= at 6 ⊕ lit 0x341c6ce5
  seed ^= at 14 ⋓ lit 0x11712ba
  pad 4 -= seed_val ⊟ lit 0x1df0f08c
  when (branch == 4) do mix_minor44; mix_minor41; mix_minor64; call mix_major4 (at 2)
  seed *= at 15 ⊞ lit 0xd8a810b1
  pad 0 -= at 7 ⊟ lit 0x8e4e3c5
  pad 9 -= seed_val ⊕ lit 0x13f1a8da
  when (branch == 7) do mix_minor20; mix_minor47; mix_minor57; call mix_major11 (at 12)
  pad 14 ^= seed_val ⊞ lit 0xf2dd8a98
  pad 14 |= at 3 ⋒ lit 0xb51383c
  when (branch == 1) do mix_minor36; mix_minor27; mix_minor47; call mix_major22 (at 9)
  pad 0 -= at 2 ⊟ lit 0x16bda446
  pad 2 -= at 0 ⊕ lit 0x3576dfb9
  when (branch == 9) do mix_minor26; mix_minor32; mix_minor49; call mix_major5 (at 9)
  pad 5 -= at 6 ⋓ lit 0x1720cf3
  pad 16 ^= at 19 ⊕ lit 0x2dfed60
  seed *= at 12 ⊞ lit 0xffcf5d22
  seed += at 11 ⊕ lit 0x26b4296
  when (branch == 6)
      do mix_minor55; rol_eq (pad 19) (lit 15); rol_eq (pad 10) (lit 26); call mix_major3 seed_val
  ror_eq seed (rol seed_val (lit 11))
  seed -= rol (at 17) (lit 25)
  pad 4 += at 3 ⊕ lit 0x125c14db
  when (branch == 0)
      do pad 14 += lit 0x7de14a07; pad 4 *= lit 0x13ca26ac; mix_minor41; call mix_major14 (at 9)
  pad 9 |= ror (at 15) (lit 31)
  seed -= at 19 ⊟ lit 0xfde54451
  ror_eq (pad 9) (at 11 ⋓ lit 0x3)
  pad 18 ^= seed_val ⊕ lit 0x22da8ee3
  when (branch == 10) do mix_minor46; mix_minor28; mix_minor69; call mix_major9 (at 2)
  ror_eq (pad 2) (at 9 ⊞ lit 0xf)
  ror_eq (pad 5) (at 18 ⋒ lit 0x13)
  pad 5 -= at 1 ⊕ lit 0x2822999
  when (branch == 5)
      do pad 12 += lit 0x108072; pad 8 += lit 0xaf45f1d7; mix_minor61; call mix_major10 (at 9)
  pad 1 += ror seed_val (lit 24)
  pad 6 += at 4 ⋓ lit 0x161d3ea
  pad 9 += seed_val ⊞ lit 0xc2e590c
  seed -= seed_val ⊕ lit 0x125deacd
  pad 7 &= at 17 ⊕ lit 0x10b015bf
  pad 17 ≔ lit 0x1bb396c0
  pad 9 *= at 1 ⋒ lit 0x7a04e3e
  seed += at 16 ⋓ lit 0x16cf1fa2
  seed *= at 14 ⊠ lit 0x1d5ac40e
  pad 4 ^= seed_val ⊞ lit 0xf27819a7

-- It stays inside the array.
pub mix_major2-SafeStep : SafeStep mix_major2
unfolding mix_major2
mix_major2-SafeStep =
    search
      (
        minor_rules, mix_major3-SafeStep, mix_major4-SafeStep, mix_major5-SafeStep,
        mix_major6-SafeStep, mix_major9-SafeStep, mix_major10-SafeStep, mix_major11-SafeStep,
        mix_major12-SafeStep, mix_major14-SafeStep, mix_major18-SafeStep, mix_major22-SafeStep,
      )
      depth 500 fits 100000
