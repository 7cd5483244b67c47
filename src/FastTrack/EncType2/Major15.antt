-- ===== src/FastTrack/EncType2/Major15.antt =====
-- `mix_major15` of networks/fasttrack/enc_type_2.c.
use addnas_mldonkey.Base.{◌==◌}
use addnas_mldonkey.FastTrack.Mix.{
  Step, at, call, lit, pad, rol, rol_eq, ror, ror_eq, seed, seed_val, switch, when, ◌&=◌, ◌*=◌,
  ◌+=◌, ◌-=◌, ◌>>◌, ◌^=◌, ◌|=◌, ◌⊕◌, ◌⊞◌, ◌⊟◌, ◌⊠◌, ◌⋒◌, ◌⋓◌,
}
use addnas_mldonkey.FastTrack.Mix.Safe.{SafeStep}
use addnas_mldonkey.FastTrack.EncType2.Minor.{
  mix_minor24, mix_minor28, mix_minor31, mix_minor46, mix_minor52, mix_minor53, mix_minor66,
}
use addnas_mldonkey.FastTrack.EncType2.Minor.Safe.{minor_rules}
use addnas_mldonkey.FastTrack.EncType2.Major16.{mix_major16, mix_major16-SafeStep}
use addnas_mldonkey.FastTrack.EncType2.Major17.{mix_major17, mix_major17-SafeStep}
use addnas_mldonkey.FastTrack.EncType2.Major19.{mix_major19, mix_major19-SafeStep}
use addnas_mldonkey.FastTrack.EncType2.Major20.{mix_major20, mix_major20-SafeStep}

unfoldable pub mix_major15 : Step
mix_major15 = switch (((at 12 ⊕ at 15) ⊕ seed_val) ⋒ lit 3) λ branch. do
  ror_eq (pad 6) (at 3 ⊕ lit 0x14)
  pad 12 += seed_val ⊕ lit 0x9a94557
  pad 15 *= at 6 ⊕ lit 0x2c63c7d7
  pad 4 -= at 17 ⊟ lit 0x1565237b
  rol_eq seed (at 11 ⊠ lit 0x19)
  seed -= at 9 ⊠ lit 0x3471499e
  seed ^= at 3 ⊕ lit 0x34293622
  pad 11 += seed_val ⊞ lit 0xbab1970a
  pad 7 |= at 18 ⋒ lit 0x2e7cbf50
  when (branch == 2) do mix_minor28; mix_minor53; pad 8 += lit 0xabdd8689; call mix_major19 (at 11)
  pad 16 &= at 12 ⊞ lit 0xc178e538
  pad 14 |= at 6 ⊠ lit 0xf7a199
  pad 9 += seed_val ⊞ lit 0x598a281
  seed ^= at 0 ⊞ lit 0xf6c67dcd
  pad 14 += at 12 ⊠ lit 0x2a688905
  ror_eq (pad 16) (seed_val ⋓ lit 0x9)
  pad 10 += seed_val ⋓ lit 0x4d8cb855
  pad 19 -= at 9 ⊟ lit 0x32b94292
  ror_eq seed (at 9 ⊠ lit 0x9)
  when (branch == 1)
      do pad 1 &= lit 0xbe845151; mix_minor66; pad 14 -= lit 0x77ab88ea; call mix_major20 seed_val
  pad 6 &= rol (at 10) (lit 28)
  pad 16 += seed_val ⊕ lit 0x5aafcd4a
  pad 12 &= seed_val ⊕ lit 0x1c22a3b7
  pad 18 -= at 4 ⊠ lit 0x358b021d
  pad 16 ^= at 13 ⊞ lit 0xac30f7a
  rol_eq seed (at 17 ⊕ lit 0xe)
  ror_eq seed (at 1 ⊞ lit 0x2)
  pad 18 -= seed_val ⊟ lit 0xee6e38da
  when (branch == 0) do mix_minor31; mix_minor31; mix_minor52; call mix_major17 (at 9)
  pad 2 += at 16 ⋓ lit 0x5cbeb00
  pad 7 -= ror seed_val (lit 22)
  pad 4 ^= seed_val ⊞ lit 0x1580fb54
  pad 17 -= rol (at 12) (lit 25)
  pad 16 += at 8 ⊕ lit 0x1b3ea2
  pad 5 -= seed_val ⊟ lit 0x193cf230
  rol_eq (pad 18) (seed_val ⊞ lit 0x12)
  seed -= at 17 ⋒ lit 0x66e0e812
  pad 12 ^= rol (at 7) (lit 18)
  pad 17 -= at 13 ⊟ lit 0xb70d1a
  when (branch == 3) do mix_minor46; pad 1 &= lit 0x24c41868; mix_minor24; call mix_major16 (at 17)
  pad 6 += at 1 ⊞ lit 0xdfef3914
  seed += rol (at 5) (lit 29)
  pad 18 -= at 8 ⋓ lit 0x456bd4b
  seed &= at 13 ⊞ lit 0x123e07ad
  pad 0 ^= seed_val ⊠ lit 0x22af60a0
  pad 13 -= at 12 ⊟ lit 0xf69f7aa2
  ror_eq (pad 17) (seed_val ⊕ lit 0x1c)
  pad 13 += at 5 ⊠ lit 0x248bf14b
  pad 2 ^= ror seed_val (lit 12)

-- It stays inside the array.
pub mix_major15-SafeStep : SafeStep mix_major15
unfolding mix_major15
mix_major15-SafeStep =
    search
      (
        minor_rules, mix_major16-SafeStep, mix_major17-SafeStep, mix_major19-SafeStep,
        mix_major20-SafeStep,
      )
      depth 500 fits 100000
