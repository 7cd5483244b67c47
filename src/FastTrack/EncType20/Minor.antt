-- ===== src/FastTrack/EncType20/Minor.antt =====
-- The macros `minor_*` of networks/fasttrack/enc_type_20.c, a statement each.
pub mod Safe
use addnas_mldonkey.FastTrack.Mix.{Expr, pad, at, lit, ror, rol, ◌⊠◌, ◌⋒◌, ◌⊕◌}
use addnas_mldonkey.FastTrack.Flow.{
  Flow, my_cos, my_sin, my_sqrt, choose, ror_eq, rol_eq, ◌⊲◌, ◌+=◌, ◌-=◌, ◌*=◌, ◌&=◌, ◌|=◌, ◌^=◌,
}

unfoldable pub minor_1 : Expr → Flow
minor_1 x = pad 8 += choose (my_sin (x ⋒ lit 255)) (lit 0x4f0cf8d) x

unfoldable pub minor_2 : Expr → Flow
minor_2 x = pad 2 += choose (at 2 ⊲ 0x36def3e1) (at 2) x

unfoldable pub minor_3 : Flow
minor_3 = pad 10 ^= rol (at 1) (lit 20)

unfoldable pub minor_4 : Flow
minor_4 = pad 16 -= at 6

unfoldable pub minor_5 : Flow
minor_5 = pad 10 -= at 9 ⊠ lit 0x55

unfoldable pub minor_6 : Flow
minor_6 = rol_eq (pad 0) (at 19 ⊕ lit 0xc)

unfoldable pub minor_7 : Flow
minor_7 = pad 17 += at 8 ⊠ lit 0xf6084c92

unfoldable pub minor_8 : Flow
minor_8 = pad 12 ^= at 10 ⋒ lit 0x28acec82

unfoldable pub minor_9 : Expr → Flow
minor_9 x = pad 12 *= choose (at 12 ⊲ 0x12d7bed) (at 12) x

unfoldable pub minor_10 : Expr → Flow
minor_10 x = pad 18 += choose (at 5 ⊲ 0xfd0aa3f) (at 5) x

unfoldable pub minor_12 : Expr → Flow
minor_12 x = pad 11 &= choose (my_cos (at 18)) (lit 0x146a49cc) x

unfoldable pub minor_13 : Flow
minor_13 = pad 2 &= choose (my_cos (at 2)) (lit 0x7ebbfde) (at 11)

unfoldable pub minor_17 : Flow
minor_17 = pad 19 ^= at 7 ⊠ lit 0x3a

unfoldable pub minor_19 : Flow
minor_19 = rol_eq (pad 6) (ror (at 8) (lit 14))

unfoldable pub minor_20 : Flow
minor_20 = pad 0 &= ror (at 18) (lit 31)

unfoldable pub minor_22 : Flow
minor_22 = ror_eq (pad 3) (at 11 ⊕ lit 0x7)

unfoldable pub minor_26 : Flow
minor_26 = pad 0 |= choose (my_cos (at 1)) (lit 0x56e0e99) (at 8)

unfoldable pub minor_27 : Flow
minor_27 = pad 18 += choose (my_cos (at 15)) (lit 0x10d11d00) (at 9)

unfoldable pub minor_28 : Flow
minor_28 = pad 10 -= choose (my_cos (at 15)) (lit 0x268cca84) (at 9)

unfoldable pub minor_29 : Flow
minor_29 = pad 3 -= choose (my_cos (at 6)) (lit 0x2031618a) (at 8)

unfoldable pub minor_30 : Flow
minor_30 = rol_eq (pad 1) (choose (my_sin (at 5)) (lit 4) (at 6))

unfoldable pub minor_31 : Expr → Flow
minor_31 x = ror_eq (pad 17) (choose (my_sin (at 6)) (lit 29) x)

unfoldable pub minor_32 : Expr → Flow
minor_32 x = pad 15 ^= choose (my_sin (at 14)) (lit 0x40a33fd4) x

unfoldable pub minor_34 : Flow
minor_34 = pad 7 ^= my_sqrt (at 11)

unfoldable pub minor_35 : Flow
minor_35 = pad 5 += my_sqrt (at 7)
