-- ===== src/FastTrack/Mix.antt =====
-- The statements of which the key mixing functions of networks/fasttrack/enc_type_2.c are made:
-- compound assignments, rotations and calls over `u32 *pad` and `u32 seed`. A function of the
-- source is a `Step`; `none` is an access outside the array, which C leaves undefined.
pub mod Safe
use addnas_mldonkey.Base.{
  ℕ, ◌-◌, ◌%◌, ◌^◌, bit_and, bit_or, bit_xor, Option, none, some, List, Bool, add32, sub32, mul32,
  shr, shl32, get_elem?, set?, if◌then◌else◌,
}

-- The array that `pad` points to, and the local `seed`.
pub record Mix : Type 0 where
  pub words : List ℕ
  pub word : ℕ

pub data Var : Type 0 where
  pad : ℕ → Var
  seed : Var

abbrev pub Expr : Type 0
Expr = Mix → Option ℕ

abbrev pub Step : Type 0
Step = Mix → Option Mix

lift₂ : (ℕ → ℕ → ℕ) → Expr → Expr → Expr
lift₂ f a b m = elim (a m) [
  | none ↦ none
  | some x ↦ elim (b m) [ none ↦ none | some y ↦ some (f x y) ]
]

-- `pad[i]` and `seed` as values.
unfoldable pub at : ℕ → Expr
at i m = get_elem? m.words i

unfoldable pub seed_val : Expr
seed_val m = some m.word

unfoldable pub lit : ℕ → Expr
lit n m = some n

-- `ROR (value, count)` and `ROL (value, count)`. For a count of 0 the macros shift by 32 as well,
-- which C leaves undefined; whether a machine yields the value or 0 there, the `|` is the value.
unfoldable pub rotr : ℕ → ℕ → ℕ
rotr v c = bit_or (shr v (c % 32)) (shl32 v (32 - c % 32))

unfoldable pub rotl : ℕ → ℕ → ℕ
rotl v c = bit_or (shl32 v (c % 32)) (shr v (32 - c % 32))

infixl 65 ◌⊞◌ ◌⊟◌
infixl 70 ◌⊠◌
infixl 60 ◌⋒◌
infixl 58 ◌⊕◌
infixl 56 ◌⋓◌
unfoldable pub ◌⊞◌ : Expr → Expr → Expr
unfolding lift₂
a ⊞ b = lift₂ add32 a b

unfoldable pub ◌⊟◌ : Expr → Expr → Expr
unfolding lift₂
a ⊟ b = lift₂ sub32 a b

unfoldable pub ◌⊠◌ : Expr → Expr → Expr
unfolding lift₂
a ⊠ b = lift₂ mul32 a b

unfoldable pub ◌⋒◌ : Expr → Expr → Expr
unfolding lift₂
a ⋒ b = lift₂ bit_and a b

unfoldable pub ◌⊕◌ : Expr → Expr → Expr
unfolding lift₂
a ⊕ b = lift₂ bit_xor a b

unfoldable pub ◌⋓◌ : Expr → Expr → Expr
unfolding lift₂
a ⋓ b = lift₂ bit_or a b

-- `a % n`, by a literal
infixl 70 ◌⊘◌
unfoldable pub ◌⊘◌ : Expr → ℕ → Expr
(a ⊘ n) m = elim (a m) [ none ↦ none | some x ↦ some (x % n) ]

unfoldable pub ror : Expr → Expr → Expr
unfolding lift₂ rotr
ror a b = lift₂ rotr a b

unfoldable pub rol : Expr → Expr → Expr
unfolding lift₂ rotl
rol a b = lift₂ rotl a b

-- `x = e`: the value is converted to `u32`.
unfoldable pub store : Var → ℕ → Step
store (pad i) v m = elim (set? m.words i (v % 2 ^ 32)) [
  | none ↦ none
  | some ws ↦ some (record m { words = ws })
]
store seed v m = some (record m { word = v % 2 ^ 32 })

infix 40 ◌≔◌ ◌+=◌ ◌-=◌ ◌*=◌ ◌&=◌ ◌|=◌ ◌^=◌
unfoldable pub ◌≔◌ : Var → Expr → Step
(x ≔ e) m = elim (e m) [ none ↦ none | some v ↦ store x v m ]

-- The variable as a value.
unfoldable pub val : Var → Expr
val (pad i) = at i
val seed = seed_val

unfoldable pub ◌+=◌ : Var → Expr → Step
x += e = x ≔ val x ⊞ e

unfoldable pub ◌-=◌ : Var → Expr → Step
x -= e = x ≔ val x ⊟ e

unfoldable pub ◌*=◌ : Var → Expr → Step
x *= e = x ≔ val x ⊠ e

unfoldable pub ◌&=◌ : Var → Expr → Step
x &= e = x ≔ val x ⋒ e

unfoldable pub ◌|=◌ : Var → Expr → Step
x |= e = x ≔ val x ⋓ e

unfoldable pub ◌^=◌ : Var → Expr → Step
x ^= e = x ≔ val x ⊕ e

-- `ROREQ (x, count)` and `ROLEQ (x, count)`
unfoldable pub ror_eq : Var → Expr → Step
ror_eq x e = x ≔ ror (val x) e

unfoldable pub rol_eq : Var → Expr → Step
rol_eq x e = x ≔ rol (val x) e

-- One statement after the other.
infixl 5 ◌>>◌
unfoldable pub ◌>>◌ : Step → Step → Step
(s >> t) m = elim (s m) [ none ↦ none | some m' ↦ t m' ]

-- `int branch = e;` before the statements that test it.
unfoldable pub switch : Expr → (ℕ → Step) → Step
switch e k m = elim (e m) [ none ↦ none | some b ↦ k b m ]

-- `if (branch == k) { … }`
unfoldable pub when : Bool → Step → Step
when b s m = if b then s m else some m

-- `f (pad, e)`: the callee works on the same array, with a `seed` of its own.
unfoldable pub call : Step → Expr → Step
call f e m = elim (e m) [
  | none ↦ none
  | some v ↦ elim (f (record m { word = v })) [
    | none ↦ none
    | some m' ↦ some (record m { words = m'.words })
  ]
]
