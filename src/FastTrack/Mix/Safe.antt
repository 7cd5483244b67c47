-- ===== src/FastTrack/Mix/Safe.antt =====
-- A step is safe if on any 20 words and any 32-bit seed it runs without leaving the array and
-- gives 20 words and a seed again. Each statement is, and so is all that is made of them.
use addnas_mldonkey.Base.{
  ℕ, zero, suc, ◌-◌, ◌%◌, ◌^◌, ◌<◌, ◌≡◌, refl, ap, bit_and, bit_or, bit_xor, Bool, true, false,
  Option, none, some, List, [], ◌∷◌, add32, sub32, mul32, shr, shl32, get_elem?, get_or, set, set?,
  length, AllBelow, arith, ltb, ltb→lt, bit_and-lt, bit_or-lt, bit_xor-lt, get_elem?-eq-get_or,
  set?-eq-set, set-AllBelow, get_or-lt, length-set, if◌then◌else◌, ◌∙◌,
}
use addnas_mldonkey.FastTrack.Mix.{
  Mix, Var, pad, seed, Expr, Step, lift₂, at, seed_val, lit, rotr, rotl, ror, rol, ◌⊞◌, ◌⊟◌, ◌⊠◌,
  ◌⋒◌, ◌⊕◌, ◌⋓◌, ◌⊘◌, store, ◌≔◌, val, ◌+=◌, ◌-=◌, ◌*=◌, ◌&=◌, ◌|=◌, ◌^=◌, ror_eq, rol_eq, ◌>>◌,
  switch, when, call,
}

-- `u32 pad[20]` and `u32 seed`
pub record IsMix (m : Mix) : Type 0 where
  pub size : length m.words ≡ 20
  pub fit : AllBelow (2 ^ 32) m.words
  pub fits : m.word < 2 ^ 32

pub data SafeVar : Var → Type 0 where
  var_pad : (i : ℕ) → ltb i 20 ≡ true → SafeVar (pad i)
  var_seed : SafeVar seed

pub record SafeExpr (e : Expr) : Type 0 where
  pub value : (m : Mix) → IsMix m → (v : ℕ) × (e m ≡ some v) × (v < 2 ^ 32)

pub record SafeStep (s : Step) : Type 0 where
  pub runs : (m : Mix) → IsMix m → (m' : Mix) × (s m ≡ some m') × IsMix m'

pub at-SafeExpr : (i : ℕ) → ltb i 20 ≡ true → SafeExpr (at i)
unfolding at
at-SafeExpr i h = record {
  value = λ m v. (
    get_or m.words i 0,
    get_elem?-eq-get_or m.words i 0 (omega (arith, ltb→lt i 20 h, v.size)),
    get_or-lt (2 ^ 32) m.words i 0 v.fit (omega arith),
  );
}

pub seed_val-SafeExpr : SafeExpr seed_val
unfolding seed_val
seed_val-SafeExpr = record { value = λ m v. (m.word, refl, v.fits) }

pub lit-SafeExpr : (n : ℕ) → ltb n (2 ^ 32) ≡ true → SafeExpr (lit n)
unfolding lit
lit-SafeExpr n h = record { value = λ m v. (n, refl, ltb→lt n (2 ^ 32) h) }

lift₂-SafeExpr :
    (f : ℕ → ℕ → ℕ)
    → ((x y : ℕ) → x < 2 ^ 32 → y < 2 ^ 32 → f x y < 2 ^ 32)
    → (a b : Expr) → SafeExpr a
    → SafeExpr b
    → SafeExpr (lift₂ f a b)
unfolding lift₂
lift₂-SafeExpr f h a b ha hb = record {
  value = λ m v.
      let (x, ex, lx) = ha.value m v in
      let (y, ey, ly) = hb.value m v in (f x y, rw (ex, ey, lift₂), h x y lx ly);
}

pub add-SafeExpr : (a b : Expr) → SafeExpr a → SafeExpr b → SafeExpr (a ⊞ b)
unfolding ◌⊞◌
add-SafeExpr = lift₂-SafeExpr add32 (λ x y hx hy. omega arith)

pub sub-SafeExpr : (a b : Expr) → SafeExpr a → SafeExpr b → SafeExpr (a ⊟ b)
unfolding ◌⊟◌
sub-SafeExpr = lift₂-SafeExpr sub32 (λ x y hx hy. omega arith)

pub mul-SafeExpr : (a b : Expr) → SafeExpr a → SafeExpr b → SafeExpr (a ⊠ b)
unfolding ◌⊠◌
mul-SafeExpr = lift₂-SafeExpr mul32 (λ x y hx hy. omega arith)

pub and-SafeExpr : (a b : Expr) → SafeExpr a → SafeExpr b → SafeExpr (a ⋒ b)
unfolding ◌⋒◌
and-SafeExpr = lift₂-SafeExpr bit_and (λ x y hx hy. bit_and-lt 32 x y hx)

pub xor-SafeExpr : (a b : Expr) → SafeExpr a → SafeExpr b → SafeExpr (a ⊕ b)
unfolding ◌⊕◌
xor-SafeExpr = lift₂-SafeExpr bit_xor (bit_xor-lt 32)

pub or-SafeExpr : (a b : Expr) → SafeExpr a → SafeExpr b → SafeExpr (a ⋓ b)
unfolding ◌⋓◌
or-SafeExpr = lift₂-SafeExpr bit_or (bit_or-lt 32)

rotr-lt : (x y : ℕ) → x < 2 ^ 32 → y < 2 ^ 32 → rotr x y < 2 ^ 32
unfolding rotr
rotr-lt x y hx hy = bit_or-lt 32 _ _ (omega arith) (omega arith)

rotl-lt : (x y : ℕ) → x < 2 ^ 32 → y < 2 ^ 32 → rotl x y < 2 ^ 32
unfolding rotl
rotl-lt x y hx hy = bit_or-lt 32 _ _ (omega arith) (omega arith)

pub ror-SafeExpr : (a b : Expr) → SafeExpr a → SafeExpr b → SafeExpr (ror a b)
unfolding ror
ror-SafeExpr = lift₂-SafeExpr rotr rotr-lt

pub rol-SafeExpr : (a b : Expr) → SafeExpr a → SafeExpr b → SafeExpr (rol a b)
unfolding rol
rol-SafeExpr = lift₂-SafeExpr rotl rotl-lt

pub mod-SafeExpr : (a : Expr) (n : ℕ) → SafeExpr a → SafeExpr (a ⊘ n)
unfolding ◌⊘◌
mod-SafeExpr a n ha = record {
  value = λ m v. let (x, ex, lx) = ha.value m v in (x % n, rw (ex, ◌⊘◌), omega (arith, lx));
}

pub store-SafeStep : (x : Var) (v : ℕ) → SafeVar x → SafeStep (store x v)
unfolding store
store-SafeStep x v (var_pad i h) = record {
  runs = λ m k. (
    record m { words = set m.words i (v % 2 ^ 32) },
    rw (set?-eq-set m.words i (v % 2 ^ 32) (omega (arith, ltb→lt i 20 h, k.size)), store),
    record {
      size = length-set m.words i (v % 2 ^ 32) ∙ k.size;
      fit = set-AllBelow (2 ^ 32) m.words i (v % 2 ^ 32) k.fit (omega arith);
      fits = k.fits;
    },
  );
}
store-SafeStep x v var_seed = record {
  runs = λ m k. (
    record m { word = v % 2 ^ 32 },
    refl,
    record { size = k.size; fit = k.fit; fits = omega arith },
  );
}

pub assign-SafeStep : (x : Var) (e : Expr) → SafeVar x → SafeExpr e → SafeStep (x ≔ e)
unfolding ◌≔◌
assign-SafeStep x e hx he = record {
  runs = λ m k.
      let (v, ev, lv) = he.value m k in
      let (m', em, km) = (store-SafeStep x v hx).runs m k in (m', rw (ev, ◌≔◌) em, km);
}

pub val-SafeExpr : (x : Var) → SafeVar x → SafeExpr (val x)
unfolding val
val-SafeExpr x (var_pad i h) = at-SafeExpr i h
val-SafeExpr x var_seed = seed_val-SafeExpr

pub add_assign-SafeStep : (x : Var) (e : Expr) → SafeVar x → SafeExpr e → SafeStep (x += e)
unfolding ◌+=◌
add_assign-SafeStep x e hx he = assign-SafeStep x _ hx (add-SafeExpr _ e (val-SafeExpr x hx) he)

pub sub_assign-SafeStep : (x : Var) (e : Expr) → SafeVar x → SafeExpr e → SafeStep (x -= e)
unfolding ◌-=◌
sub_assign-SafeStep x e hx he = assign-SafeStep x _ hx (sub-SafeExpr _ e (val-SafeExpr x hx) he)

pub mul_assign-SafeStep : (x : Var) (e : Expr) → SafeVar x → SafeExpr e → SafeStep (x *= e)
unfolding ◌*=◌
mul_assign-SafeStep x e hx he = assign-SafeStep x _ hx (mul-SafeExpr _ e (val-SafeExpr x hx) he)

pub and_assign-SafeStep : (x : Var) (e : Expr) → SafeVar x → SafeExpr e → SafeStep (x &= e)
unfolding ◌&=◌
and_assign-SafeStep x e hx he = assign-SafeStep x _ hx (and-SafeExpr _ e (val-SafeExpr x hx) he)

pub or_assign-SafeStep : (x : Var) (e : Expr) → SafeVar x → SafeExpr e → SafeStep (x |= e)
unfolding ◌|=◌
or_assign-SafeStep x e hx he = assign-SafeStep x _ hx (or-SafeExpr _ e (val-SafeExpr x hx) he)

pub xor_assign-SafeStep : (x : Var) (e : Expr) → SafeVar x → SafeExpr e → SafeStep (x ^= e)
unfolding ◌^=◌
xor_assign-SafeStep x e hx he = assign-SafeStep x _ hx (xor-SafeExpr _ e (val-SafeExpr x hx) he)

pub ror_eq-SafeStep : (x : Var) (e : Expr) → SafeVar x → SafeExpr e → SafeStep (ror_eq x e)
unfolding ror_eq
ror_eq-SafeStep x e hx he = assign-SafeStep x _ hx (ror-SafeExpr _ e (val-SafeExpr x hx) he)

pub rol_eq-SafeStep : (x : Var) (e : Expr) → SafeVar x → SafeExpr e → SafeStep (rol_eq x e)
unfolding rol_eq
rol_eq-SafeStep x e hx he = assign-SafeStep x _ hx (rol-SafeExpr _ e (val-SafeExpr x hx) he)

pub seq-SafeStep : (s t : Step) → SafeStep s → SafeStep t → SafeStep (s >> t)
unfolding ◌>>◌
seq-SafeStep s t hs ht = record {
  runs = λ m k.
      let (m1, e1, k1) = hs.runs m k in
      let (m2, e2, k2) = ht.runs m1 k1 in (m2, rw (e1, ◌>>◌) e2, k2);
}

pub switch-SafeStep :
    (e : Expr) (k : ℕ → Step) → SafeExpr e → ((b : ℕ) → SafeStep (k b)) → SafeStep (switch e k)
unfolding switch
switch-SafeStep e k he hk = record {
  runs = λ m v.
      let (b, eb, lb) = he.value m v in
      let (m', em, km) = (hk b).runs m v in (m', rw (eb, switch) em, km);
}

pub when-SafeStep : (b : Bool) (s : Step) → SafeStep s → SafeStep (when b s)
unfolding when
when-SafeStep true s hs = record { runs = λ m k. hs.runs m k }
when-SafeStep false s hs = record { runs = λ m k. (m, refl, k) }

pub call-SafeStep : (f : Step) (e : Expr) → SafeStep f → SafeExpr e → SafeStep (call f e)
unfolding call
call-SafeStep f e hf he = record {
  runs = λ m k.
      let (v, ev, lv) = he.value m k in
      let (m', em, km) =
        hf.runs (record m { word = v }) (record { size = k.size; fit = k.fit; fits = lv }) in
      (
        record m { words = m'.words },
        rw (ev, em, call),
        record { size = km.size; fit = km.fit; fits = k.fits },
      );
}

pub ruleset safe_rules = (
  at-SafeExpr, seed_val-SafeExpr, lit-SafeExpr, add-SafeExpr, sub-SafeExpr, mul-SafeExpr,
  and-SafeExpr, xor-SafeExpr, or-SafeExpr, ror-SafeExpr, rol-SafeExpr, mod-SafeExpr,
  assign-SafeStep, add_assign-SafeStep, sub_assign-SafeStep, mul_assign-SafeStep,
  and_assign-SafeStep, or_assign-SafeStep, xor_assign-SafeStep, ror_eq-SafeStep, rol_eq-SafeStep,
  seq-SafeStep, switch-SafeStep, when-SafeStep, call-SafeStep, var_pad, var_seed, refl,
)
