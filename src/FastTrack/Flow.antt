-- ===== src/FastTrack/Flow.antt =====
-- The statements of networks/fasttrack/enc_type_20.c and enc_type_80.c: those of Mix, in functions
-- that may return early, and the integer functions `my_cos`, `my_sin` and `my_sqrt`.
pub mod Safe
pub mod Sqrt
use addnas_mldonkey.Base.{
  ℕ, zero, suc, ◌+◌, ◌*◌, ◌%◌, ◌^◌, Option, none, some, Bool, true, false, List, shl32, leb, ltb,
  ◌==◌, if◌then◌else◌,
}
use addnas_mldonkey.FastTrack.Mix.{
  Mix, Var, Expr, Step, lit, store, val, ◌⊞◌, ◌⊟◌, ◌⊠◌, ◌⋒◌, ◌⋓◌, ◌⊕◌, ror, rol,
}

-- A statement: whether it returned from the function, and the array and the seed after it.
abbrev pub Flow : Type 0
Flow = Mix → Option (Bool × Mix)

-- `my_cos` and `my_sin` of an `unsigned char`.
unfoldable pub cos_test : ℕ → Bool
cos_test i = ltb 122 ((i * 39 + 61) % 245)

unfoldable pub sin_test : ℕ → Bool
sin_test i = ltb 144 (i * 46 % 289)

-- `for (j = 0, k = 0; j++ <= i; j += ++k << 1);` from `j` and `k` on: the last `k`.
unfoldable pub sqrt_loop : ℕ → ℕ → ℕ → ℕ → Option ℕ
sqrt_loop zero i j k = none
sqrt_loop (suc fuel) i j k =
    let rest = sqrt_loop fuel i (j + 1 + suc k * 2) (suc k) in if leb j i then rest else some k

-- The result of the loop for an `unsigned char`: 17 rounds are enough.
unfoldable pub sqrt_of : ℕ → Option ℕ
sqrt_of i = sqrt_loop 17 i 0 0

-- The calls in an expression convert their argument to `unsigned char`; a test is 0 or 1.
unfoldable pub my_cos : Expr → Expr
my_cos a m = elim (a m) [ none ↦ none | some x ↦ some (if cos_test (x % 256) then 1 else 0) ]

unfoldable pub my_sin : Expr → Expr
my_sin a m = elim (a m) [ none ↦ none | some x ↦ some (if sin_test (x % 256) then 1 else 0) ]

unfoldable pub my_sqrt : Expr → Expr
my_sqrt a m = elim (a m) [ none ↦ none | some x ↦ sqrt_of (x % 256) ]

-- `a < n`, for an unsigned literal
infix 50 ◌⊲◌
unfoldable pub ◌⊲◌ : Expr → ℕ → Expr
(a ⊲ n) m = elim (a m) [ none ↦ none | some x ↦ some (if ltb x n then 1 else 0) ]

-- `c ? a : b`
unfoldable pub choose : Expr → Expr → Expr → Expr
choose c a b m = elim (c m) [ none ↦ none | some t ↦ (if t == 0 then b else a) m ]

-- `a << n`, by a literal
unfoldable pub shl : Expr → ℕ → Expr
shl a n m = elim (a m) [ none ↦ none | some x ↦ some (shl32 x n) ]

-- `-a`, of an `unsigned int`
unfoldable pub neg : Expr → Expr
neg a = lit 0 ⊟ a

-- A statement of Mix goes on.
unfoldable pub goes_on : Step → Flow
goes_on s m = elim (s m) [ none ↦ none | some m' ↦ some (false, m') ]

infix 40 ◌≔◌ ◌+=◌ ◌-=◌ ◌*=◌ ◌&=◌ ◌|=◌ ◌^=◌
unfoldable pub ◌≔◌ : Var → Expr → Flow
(x ≔ e) m = elim (e m) [ none ↦ none | some v ↦ goes_on (store x v) m ]

unfoldable pub ◌+=◌ : Var → Expr → Flow
x += e = x ≔ val x ⊞ e

unfoldable pub ◌-=◌ : Var → Expr → Flow
x -= e = x ≔ val x ⊟ e

unfoldable pub ◌*=◌ : Var → Expr → Flow
x *= e = x ≔ val x ⊠ e

unfoldable pub ◌&=◌ : Var → Expr → Flow
x &= e = x ≔ val x ⋒ e

unfoldable pub ◌|=◌ : Var → Expr → Flow
x |= e = x ≔ val x ⋓ e

unfoldable pub ◌^=◌ : Var → Expr → Flow
x ^= e = x ≔ val x ⊕ e

unfoldable pub ror_eq : Var → Expr → Flow
ror_eq x e = x ≔ ror (val x) e

unfoldable pub rol_eq : Var → Expr → Flow
rol_eq x e = x ≔ rol (val x) e

-- One statement after the other, unless the first returned.
infixl 5 ◌>>◌
unfoldable pub ◌>>◌ : Flow → Flow → Flow
(s >> t) m = elim (s m) [
  | none ↦ none
  | some (true, m') ↦ some (true, m')
  | some (false, m') ↦ t m'
]

-- `TRY (s)` of an assignment to `x`: a return if the value is odd.
unfoldable pub try_odd : Var → Flow → Flow
try_odd x s m = elim (s m) [
  | none ↦ none
  | some (true, m') ↦ some (true, m')
  | some (false, m') ↦ elim (val x m') [ none ↦ none | some v ↦ some (v % 2 == 1, m') ]
]

-- `int branch = e;` before the statements that test it.
unfoldable pub switch : Expr → (ℕ → Flow) → Flow
switch e k m = elim (e m) [ none ↦ none | some b ↦ k b m ]

-- `if (branch == k) { … }` and `case k: … break;`
unfoldable pub when : Bool → Flow → Flow
when b s m = if b then s m else some (false, m)

-- `if (a < n) …`
unfoldable pub when_lt : Expr → ℕ → Flow → Flow
when_lt a n s m = elim (a m) [ none ↦ none | some x ↦ when (ltb x n) s m ]

-- `f (pad, e)`: the callee works on the same array, with a `seed` of its own, and a return in it
-- ends only the callee.
unfoldable pub call : Flow → Expr → Flow
call f e m = elim (e m) [
  | none ↦ none
  | some v ↦ elim (f (record m { word = v })) [
    | none ↦ none
    | some (returned, m') ↦ some (false, record m { words = m'.words })
  ]
]
