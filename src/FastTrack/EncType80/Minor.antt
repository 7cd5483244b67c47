-- ===== src/FastTrack/EncType80/Minor.antt =====
-- The macros `minor_*` of networks/fasttrack/enc_type_80.c, a statement each.
pub mod Safe
use addnas_mldonkey.FastTrack.Mix.{Expr, pad, at, lit, ror, rol, ◌⊞◌, ◌⊟◌, ◌⊠◌, ◌⋒◌, ◌⊕◌, ◌⋓◌}
use addnas_mldonkey.FastTrack.Flow.{
  Flow, my_cos, my_sin, my_sqrt, choose, shl, ◌⊲◌, ◌≔◌, ◌+=◌, ◌-=◌, ◌*=◌, ◌&=◌, ◌|=◌, ◌^=◌,
}

unfoldable pub minor_23 : Flow
minor_23 = pad 5 += at 4 ⊠ lit 73

unfoldable pub minor_24 : Flow
minor_24 = pad 0 += at 5 ⋒ lit 0x1b65b2c8

unfoldable pub minor_25 : Flow
minor_25 = pad 9 += at 6 ⊞ lit 0x124d08a0

unfoldable pub minor_26 : Flow
minor_26 = pad 16 ^= shl (at 0 ⊠ lit 41) 1

unfoldable pub minor_27 : Flow
minor_27 = pad 14 ^= at 10 ⊟ lit 0x403483ce

unfoldable pub minor_28 : Flow
minor_28 = pad 3 ^= shl (at 11 ⊠ lit 41) 1

unfoldable pub minor_29 : Expr → Flow
minor_29 x = pad 10 ≔ rol (at 10) x

unfoldable pub minor_30 : Flow
minor_30 = pad 1 ≔ ror (at 1) (shl (at 8 ⊠ lit 7) 4)

unfoldable pub minor_31 : Flow
minor_31 = pad 10 *= rol (at 1) (lit 0xc)

unfoldable pub minor_32 : Expr → Flow
minor_32 x = pad 18 ≔ rol (at 18) (x ⊟ lit 0xe066bf0)

unfoldable pub minor_33 : Expr → Flow
minor_33 x = pad 18 -= x

unfoldable pub minor_34 : Flow
minor_34 = pad 16 |= at 18 ⋓ lit 0xb25175e

unfoldable pub minor_35 : Flow
minor_35 = pad 2 |= at 15 ⊟ lit 0x1886d6a

unfoldable pub minor_36 : Flow
minor_36 = pad 16 -= rol (at 3) (lit 0x1b)

unfoldable pub minor_37 : Flow
minor_37 = pad 11 |= at 13 ⊠ lit 9

unfoldable pub minor_38 : Flow
minor_38 = pad 6 &= at 19 ⊕ lit 0x1faf0f41

unfoldable pub minor_39 : Flow
minor_39 = pad 4 ≔ ror (at 4) (shl (at 17 ⊠ lit 11) 3)

unfoldable pub minor_40 : Flow
minor_40 = pad 17 *= at 6

unfoldable pub minor_41 : Flow
minor_41 = pad 3 ^= at 9 ⊞ lit 0x5b1a81fd

unfoldable pub minor_42 : Flow
minor_42 = pad 17 *= ror (at 10) (lit 0x1a)

unfoldable pub minor_43 : Flow
minor_43 = pad 19 ^= at 3 ⊕ lit 0x19859c46

unfoldable pub minor_44 : Flow
minor_44 = pad 16 += at 1 ⊞ lit 0x5edb78da

unfoldable pub minor_45 : Flow
minor_45 = pad 12 ≔ rol (at 12) (shl (at 3 ⊠ lit 43) 1)

unfoldable pub minor_46 : Flow
minor_46 = pad 17 *= at 13 ⊟ lit 0x68c0e272

unfoldable pub minor_47 : Flow
minor_47 = pad 13 += at 13 ⋓ lit 0x5e919e06

unfoldable pub minor_48 : Flow
minor_48 = pad 16 ≔ shl ((at 9 ⊠ at 16) ⊠ lit 37) 1

unfoldable pub minor_49 : Flow
minor_49 = pad 2 |= at 15 ⊞ lit 0x44b04775

unfoldable pub minor_50 : Flow
minor_50 = pad 8 ≔ shl ((at 8 ⊠ at 8) ⊠ lit 13) 2

unfoldable pub minor_51 : Expr → Flow
minor_51 x = pad 17 ≔ ror (at 17) x

unfoldable pub minor_52 : Expr → Flow
minor_52 x = pad 10 *= x

unfoldable pub minor_53 : Flow
minor_53 = pad 8 += at 17 ⊞ lit 0x4e0679be

unfoldable pub minor_54 : Flow
minor_54 = pad 10 ^= at 6 ⊕ lit 0x2be68205

unfoldable pub minor_55 : Expr → Flow
minor_55 x = pad 7 -= x

unfoldable pub minor_56 : Expr → Flow
minor_56 x = pad 13 &= rol x (lit 0x10)

unfoldable pub minor_57 : Expr → Flow
minor_57 x = pad 9 &= x

unfoldable pub minor_58 : Expr → Flow
minor_58 x = pad 0 += x

unfoldable pub minor_59 : Flow
minor_59 = pad 8 *= at 6 ⊕ lit 0x377c08d2

unfoldable pub minor_60 : Flow
minor_60 = pad 18 -= choose (at 10 ⊲ 0xb6c6c3e) (at 10) (at 13)

unfoldable pub minor_61 : Flow
minor_61 = pad 19 += my_sqrt (at 18)

unfoldable pub minor_62 : Flow
minor_62 = pad 11 ^= my_sqrt (at 4)

unfoldable pub minor_63 : Flow
minor_63 = pad 17 ^= my_sqrt (at 16)

unfoldable pub minor_64 : Flow
minor_64 = pad 9 += my_sqrt (at 13)

unfoldable pub minor_65 : Expr → Flow
minor_65 x = pad 10 -= choose (my_cos x) (lit 0x19c6c6e) (at 7)

unfoldable pub minor_66 : Flow
minor_66 = pad 10 -= choose (my_cos (at 10)) (lit 0x5f18f01) (at 13)

unfoldable pub minor_67 : Expr → Flow
minor_67 x = pad 17 ≔ rol (at 17) (choose (my_sin (at 7)) (lit 0x4262ed6b) x)

unfoldable pub minor_68 : Flow
minor_68 = pad 9 += choose (my_cos (at 6)) (lit 0x14f5046c) (at 11)

unfoldable pub minor_69 : Flow
minor_69 = pad 14 ^= choose (my_cos (at 11)) (lit 0x562482fa) (at 14)

unfoldable pub minor_70 : Flow
minor_70 = pad 3 -= choose (my_cos (at 14)) (lit 0x39702edd) (at 6)

unfoldable pub minor_71 : Flow
minor_71 = pad 6 ^= choose (my_cos (at 10)) (lit 0x53236223) (at 7)

unfoldable pub minor_72 : Expr → Flow
minor_72 x = pad 1 |= choose (my_sin x) (lit 0x1be7fecf) (at 16)

unfoldable pub minor_73 : Flow
minor_73 = pad 17 *= choose (my_cos (at 16)) (lit 0x2c15b485) (at 3)

unfoldable pub minor_3 : Flow
minor_3 = pad 19 += my_sqrt (at 0)

unfoldable pub minor_4 : Flow
minor_4 = pad 7 ≔ rol (at 7) (my_sqrt (at 1))

unfoldable pub minor_5 : Flow
minor_5 = pad 4 += choose (my_cos (at 1)) (lit 0x890afef) (at 4)

unfoldable pub minor_6 : Expr → Flow
minor_6 x = pad 7 ≔ rol (at 7) (choose (my_sin (at 18)) (lit 0x14d1de3d) x)

unfoldable pub minor_7 : Flow
minor_7 = pad 10 &= choose (at 1 ⊲ 0x1f2dd61) (at 1) (at 10)

unfoldable pub minor_8 : Flow
minor_8 = pad 0 |= shl (at 10 ⊠ lit 3) 4 ⊞ at 10

unfoldable pub minor_9 : Flow
minor_9 = pad 9 ^= choose (at 1 ⊲ 0xb01609f) (at 1) (at 16)

unfoldable pub minor_10 : Expr → Flow
minor_10 x = pad 13 ≔ ror (at 13) x

unfoldable pub minor_11 : Expr → Flow
minor_11 x = pad 7 &= x

unfoldable pub minor_12 : Flow
minor_12 = pad 11 += rol (at 5) (lit 0x14)

unfoldable pub minor_13 : Expr → Flow
minor_13 x = pad 5 ^= x ⊞ lit 0x391b56a

unfoldable pub minor_14 : Flow
minor_14 = pad 3 ^= at 14 ⊠ lit 0x711881f7

unfoldable pub minor_15 : Flow
minor_15 = pad 6 -= at 18 ⊕ lit 0x4402caf

unfoldable pub minor_16 : Flow
minor_16 = pad 2 += ror (at 14) (lit 0x14)

unfoldable pub minor_17 : Flow
minor_17 = pad 6 += lit 0x287735d1 ⊟ at 3

unfoldable pub minor_18 : Flow
minor_18 = pad 3 += lit 0x247b4de9 ⊟ at 1

unfoldable pub minor_19 : Flow
minor_19 = pad 11 += at 6 ⊠ lit 0xe8c67004

unfoldable pub minor_20 : Flow
minor_20 = pad 15 |= at 1 ⊕ lit 0x37b6fe35

unfoldable pub minor_21 : Flow
minor_21 = pad 14 ≔ ror (at 14) (at 13 ⋓ lit 0x3433be6)
