-- ===== src/FastTrack/EncType2/Major20.antt =====
-- `mix_major20` of networks/fasttrack/enc_type_2.c.
use addnas_mldonkey.FastTrack.Mix.{
  Step, at, lit, pad, rol, rol_eq, ror, ror_eq, seed, seed_val, ◌&=◌, ◌*=◌, ◌+=◌, ◌-=◌, ◌>>◌, ◌^=◌,
  ◌|=◌, ◌≔◌, ◌⊕◌, ◌⊞◌, ◌⊟◌, ◌⊠◌, ◌⋒◌, ◌⋓◌,
}
use addnas_mldonkey.FastTrack.Mix.Safe.{SafeStep, safe_rules}

unfoldable pub mix_major20 : Step
mix_major20 = do
  rol_eq (pad 14) (seed_val ⋒ lit 0xe)
  seed += at 15 ⊕ lit 0xbf446ce
  seed += seed_val ⊞ lit 0xe227ea76
  pad 19 *= at 15 ⊠ lit 0x50ee813
  ror_eq (pad 19) (at 10 ⊞ lit 0x1e)
  pad 16 -= seed_val ⋒ lit 0x372035b
  pad 18 |= at 5 ⊞ lit 0xd9d1da08
  pad 5 += rol (at 11) (lit 9)
  ror_eq (pad 8) (at 0 ⊠ lit 0x3)
  seed += at 0 ⊕ lit 0x46d0b40
  pad 14 ^= at 1 ⊞ lit 0xe8684fc
  seed -= at 14 ⊠ lit 0x28f80128
  seed ^= ror (at 1) (lit 10)
  pad 19 *= at 16 ⊞ lit 0xa0397f
  pad 13 += rol seed_val (lit 17)
  pad 4 -= at 6 ⊟ lit 0x95670090
  rol_eq (pad 14) (lit 24)
  pad 0 *= lit 0xe6219a29
  pad 3 += at 11 ⊞ lit 0xfa61efff
  pad 8 -= at 10 ⊟ lit 0xda64c153
  pad 9 -= at 8 ⊟ lit 0x22a4da90
  seed ≔ rol (lit 0xf2eafbc6) (at 12 ⊕ lit 0x15)
  seed ^= at 19 ⋓ lit 0x2cd48d0d
  seed += at 19 ⊞ lit 0xc6a5343a
  pad 13 -= seed_val ⊟ lit 0xc3172899
  pad 14 ^= rol (at 4) (lit 11)
  pad 19 ^= at 14 ⊕ lit 0x274bf2e7
  pad 16 += at 9 ⊕ lit 0x1448b87d
  seed &= at 19 ⊕ lit 0x7c5e8091
  pad 15 -= seed_val ⊟ lit 0x2de973cc
  pad 17 *= at 0 ⊞ lit 0x5cd4018
  pad 15 *= at 7 ⊕ lit 0x1c718ec4
  ror_eq (pad 4) (rol (at 14) (lit 31))
  pad 6 -= at 1 ⊠ lit 0x11e6e4aa
  pad 3 -= at 14 ⊟ lit 0x20a45ef
  pad 14 &= at 11 ⊕ lit 0x79362e5

-- It stays inside the array.
pub mix_major20-SafeStep : SafeStep mix_major20
unfolding mix_major20
mix_major20-SafeStep = search (safe_rules) depth 500 fits 100000
