-- ===== src/FastTrack/EncType2/Major19.antt =====
-- `mix_major19` of networks/fasttrack/enc_type_2.c.
use addnas_mldonkey.FastTrack.Mix.{
  Step, at, lit, pad, rol, rol_eq, ror, ror_eq, seed, seed_val, ◌&=◌, ◌*=◌, ◌+=◌, ◌-=◌, ◌>>◌, ◌^=◌,
  ◌|=◌, ◌≔◌, ◌⊕◌, ◌⊞◌, ◌⊟◌, ◌⊠◌, ◌⋒◌, ◌⋓◌,
}
use addnas_mldonkey.FastTrack.Mix.Safe.{SafeStep, safe_rules}

unfoldable pub mix_major19 : Step
mix_major19 = do
  pad 3 ^= seed_val ⊞ lit 0xd2670e69
  seed ^= at 2 ⋒ lit 0x3bd91a6d
  seed += at 12 ⊞ lit 0xe162a863
  pad 3 -= seed_val ⊟ lit 0x2f72a89a
  pad 11 ^= at 3 ⋒ lit 0x4053f57a
  seed *= at 12 ⊞ lit 0xfe64a9df
  pad 6 ^= at 14 ⊕ lit 0x6c235a3
  rol_eq (pad 11) (at 7 ⊞ lit 0x1b)
  pad 13 ^= at 8 ⊞ lit 0xdf869976
  rol_eq (pad 4) (at 12 ⊞ lit 0x1)
  pad 9 += at 13 ⊕ lit 0x3d475dc2
  pad 14 += ror seed_val (lit 25)
  pad 10 += seed_val ⊕ lit 0x222fef6f
  pad 12 ^= ror (at 19) (lit 9)
  pad 4 += at 8 ⊞ lit 0x56d964ed
  pad 18 -= at 7 ⊟ lit 0x132444b
  pad 0 ≔ lit 0xd35add1b
  seed += at 6 ⊠ lit 0x6fe2b2f
  pad 14 *= at 1 ⊞ lit 0xacf6925
  pad 15 ^= ror seed_val (lit 19)
  pad 0 ≔ lit 0xc0c8f110 ⊟ at 15
  seed ^= seed_val ⋓ lit 0x2a57ebeb
  pad 12 -= rol seed_val (lit 13)
  seed |= at 13 ⋒ lit 0x15a66bda
  seed += at 18 ⊞ lit 0x235ac102
  rol_eq (pad 8) (seed_val ⊞ lit 0xd)
  pad 5 ^= at 12 ⊞ lit 0x3bbb70fe
  seed &= at 1 ⊞ lit 0xec51134a
  pad 19 ^= at 11 ⊠ lit 0x87095a6
  pad 0 -= at 5 ⋒ lit 0xf43f6fb
  pad 15 += at 4 ⊞ lit 0xea66f8dc
  pad 19 -= at 7 ⊟ lit 0xd049cfd6
  pad 13 -= at 0 ⊕ lit 0x253c86f9
  seed += at 16 ⋓ lit 0x520e84ba
  pad 10 -= rol (at 18) (lit 23)
  pad 18 += seed_val ⊠ lit 0x2ee5918a
  pad 7 &= at 11 ⊕ lit 0xf0a32bc
  pad 0 -= seed_val ⊕ lit 0xfa89177
  pad 2 |= rol (at 9) (lit 24)
  pad 14 *= lit 0x1cb1574a
  ror_eq (pad 10) (seed_val ⊞ lit 0xd)
  pad 1 &= at 11 ⊞ lit 0xef291170
  pad 6 += at 19 ⋒ lit 0x259a6745
  seed -= at 2 ⊕ lit 0x10467b8
  pad 18 *= at 9 ⊞ lit 0xdbff9c2b
  pad 16 += seed_val ⊕ lit 0x8d4c279
  pad 5 -= ror (at 10) (lit 24)

-- It stays inside the array.
pub mix_major19-SafeStep : SafeStep mix_major19
unfolding mix_major19
mix_major19-SafeStep = search (safe_rules) depth 500 fits 100000
