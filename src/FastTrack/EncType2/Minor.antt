-- ===== src/FastTrack/EncType2/Minor.antt =====
-- The `mix_minor` macros of networks/fasttrack/enc_type_2.c, a statement each.
pub mod Safe
use addnas_mldonkey.FastTrack.Mix.{
  Step, at, lit, pad, rol, ror, ror_eq, ◌&=◌, ◌*=◌, ◌+=◌, ◌-=◌, ◌^=◌, ◌|=◌, ◌⊕◌, ◌⊞◌, ◌⊟◌, ◌⊠◌, ◌⋒◌,
  ◌⋓◌,
}

unfoldable pub mix_minor20 : Step
mix_minor20 = ror_eq (pad 12) (at 14 ⊠ lit 0x3)

unfoldable pub mix_minor21 : Step
mix_minor21 = pad 12 *= at 1 ⊠ lit 0x4b4f2e1

unfoldable pub mix_minor22 : Step
mix_minor22 = pad 2 *= at 10 ⊞ lit 0xfa1f1e0b

unfoldable pub mix_minor23 : Step
mix_minor23 = pad 19 += at 19 ⊕ lit 0x43b6b05

unfoldable pub mix_minor24 : Step
mix_minor24 = pad 18 -= ror (at 4) (lit 18)

unfoldable pub mix_minor25 : Step
mix_minor25 = pad 0 &= at 10 ⊞ lit 0xfc9be92d

unfoldable pub mix_minor26 : Step
mix_minor26 = pad 9 ^= at 3 ⊞ lit 0xbe5fec7d

unfoldable pub mix_minor27 : Step
mix_minor27 = pad 6 *= at 15 ⋓ lit 0x46afede0

unfoldable pub mix_minor28 : Step
mix_minor28 = pad 17 -= at 6 ⊠ lit 0x1b677cc8

unfoldable pub mix_minor29 : Step
mix_minor29 = pad 14 &= at 15 ⊞ lit 0xfc471d2b

unfoldable pub mix_minor30 : Step
mix_minor30 = pad 19 += at 16 ⊞ lit 0x24a7d94d

unfoldable pub mix_minor31 : Step
mix_minor31 = pad 15 *= at 0 ⊕ lit 0x48ad05f2

unfoldable pub mix_minor32 : Step
mix_minor32 = pad 16 -= at 4 ⊟ lit 0xbb834311

unfoldable pub mix_minor33 : Step
mix_minor33 = pad 8 += rol (at 4) (lit 26)

unfoldable pub mix_minor34 : Step
mix_minor34 = pad 13 *= at 18 ⊞ lit 0xac048a2

unfoldable pub mix_minor35 : Step
mix_minor35 = pad 16 &= at 18 ⊞ lit 0xe832eb88

unfoldable pub mix_minor36 : Step
mix_minor36 = pad 4 -= at 1 ⊟ lit 0xe6f17893

unfoldable pub mix_minor37 : Step
mix_minor37 = pad 6 *= at 7 ⋓ lit 0x17b60bb5

unfoldable pub mix_minor38 : Step
mix_minor38 = pad 15 += rol (at 12) (lit 16)

unfoldable pub mix_minor39 : Step
mix_minor39 = pad 6 &= at 10 ⊞ lit 0xfd7af7e

unfoldable pub mix_minor40 : Step
mix_minor40 = ror_eq (pad 7) (at 18 ⋒ lit 2)

unfoldable pub mix_minor41 : Step
mix_minor41 = ror_eq (pad 17) (at 7 ⊕ lit 3)

unfoldable pub mix_minor42 : Step
mix_minor42 = pad 0 ^= at 8 ⊞ lit 0xeee530d5

unfoldable pub mix_minor43 : Step
mix_minor43 = pad 10 += at 1 ⊞ lit 0xc484cfa2

unfoldable pub mix_minor44 : Step
mix_minor44 = pad 16 += at 5 ⊕ lit 0x19a836dc

unfoldable pub mix_minor45 : Step
mix_minor45 = pad 17 += at 7 ⊞ lit 0xd68a11c3

unfoldable pub mix_minor46 : Step
mix_minor46 = pad 17 += rol (at 7) (lit 19)

unfoldable pub mix_minor47 : Step
mix_minor47 = pad 18 -= at 6 ⊠ lit 0x368eaf4e

unfoldable pub mix_minor48 : Step
mix_minor48 = ror_eq (pad 2) (at 7 ⊕ lit 3)

unfoldable pub mix_minor49 : Step
mix_minor49 = pad 19 |= at 5 ⊞ lit 0xda7c6c8e

unfoldable pub mix_minor50 : Step
mix_minor50 = pad 6 *= ror (at 2) (lit 12)

unfoldable pub mix_minor51 : Step
mix_minor51 = pad 14 += at 18 ⊞ lit 0xf655a040

unfoldable pub mix_minor52 : Step
mix_minor52 = pad 11 += at 19 ⊠ lit 0x251df1bd

unfoldable pub mix_minor53 : Step
mix_minor53 = pad 11 -= at 0 ⊕ lit 0x51a859c

unfoldable pub mix_minor54 : Step
mix_minor54 = pad 18 += at 6 ⊞ lit 0xdcccfc5

unfoldable pub mix_minor55 : Step
mix_minor55 = pad 16 -= at 18 ⊕ lit 0x39848960

unfoldable pub mix_minor56 : Step
mix_minor56 = pad 14 ^= at 19 ⊞ lit 0x1a6f3b29

unfoldable pub mix_minor57 : Step
mix_minor57 = pad 12 &= at 5 ⊞ lit 0x4ef1335a

unfoldable pub mix_minor58 : Step
mix_minor58 = pad 14 *= at 13 ⊞ lit 0xdb61abf8

unfoldable pub mix_minor59 : Step
mix_minor59 = pad 18 ^= at 19 ⊠ lit 0x378f67

unfoldable pub mix_minor60 : Step
mix_minor60 = pad 18 ^= at 4 ⊠ lit 0x2dd2a2fe

unfoldable pub mix_minor61 : Step
mix_minor61 = pad 16 -= at 4 ⊟ lit 0xe357b476

unfoldable pub mix_minor62 : Step
mix_minor62 = pad 6 *= at 16 ⊠ lit 0x381203

unfoldable pub mix_minor63 : Step
mix_minor63 = pad 10 |= ror (at 11) (lit 24)

unfoldable pub mix_minor64 : Step
mix_minor64 = pad 10 ^= at 5 ⊞ lit 0x147c80d5

unfoldable pub mix_minor65 : Step
mix_minor65 = pad 16 ^= at 3 ⊠ lit 0x27139980

unfoldable pub mix_minor66 : Step
mix_minor66 = ror_eq (pad 15) (at 17)

unfoldable pub mix_minor67 : Step
mix_minor67 = pad 14 &= rol (at 19) (lit 6)

unfoldable pub mix_minor68 : Step
mix_minor68 = pad 8 *= at 0 ⊠ lit 0x1a4c02dd

unfoldable pub mix_minor69 : Step
mix_minor69 = pad 16 ^= at 14 ⊞ lit 0xfddb63a2
