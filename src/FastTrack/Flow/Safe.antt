-- ===== src/FastTrack/Flow/Safe.antt =====
-- A statement is safe if on any 20 words and any 32-bit seed it runs without leaving the array and
-- gives 20 words and a 32-bit seed again, whether it returns or goes on.
use addnas_mldonkey.Base.{
  ℕ, ◌+◌, ◌*◌, ◌%◌, ◌^◌, ◌<◌, ◌≤◌, ◌≡◌, refl, arith, Bool, true, false, some, Bool-cases, inl, inr,
  ltb, ltb→lt, ◌==◌, if◌then◌else◌, shl32, Option, none, get_elem?,
}
use addnas_mldonkey.FastTrack.Mix.{Mix, Var, Expr, Step}
use addnas_mldonkey.FastTrack.Mix.Safe.{
  IsMix, SafeVar, SafeExpr, SafeStep, var_pad, var_seed, at-SafeExpr, seed_val-SafeExpr,
  lit-SafeExpr, add-SafeExpr, sub-SafeExpr, mul-SafeExpr, and-SafeExpr, xor-SafeExpr, or-SafeExpr,
  ror-SafeExpr, rol-SafeExpr, mod-SafeExpr, store-SafeStep, val-SafeExpr,
}
use addnas_mldonkey.FastTrack.Flow.{
  Flow, cos_test, sin_test, my_cos, my_sin, my_sqrt, ◌⊲◌, choose, shl, neg, goes_on, ◌≔◌, ◌+=◌,
  ◌-=◌, ◌*=◌, ◌&=◌, ◌|=◌, ◌^=◌, ror_eq, rol_eq, ◌>>◌, try_odd, switch, when, when_lt, call,
}
use addnas_mldonkey.FastTrack.Flow.Sqrt.{sqrt_of_lem}

pub record SafeFlow (s : Flow) : Type 0 where
  pub runs :
      (m : Mix) → IsMix m → (returned : Bool) × (m' : Mix) × (s m ≡ some (returned, m')) × IsMix m'

bit-lt : (b : Bool) → (if b then 1 else 0) < 2 ^ 32
bit-lt true = omega arith
bit-lt false = omega arith

pub my_cos-SafeExpr : (a : Expr) → SafeExpr a → SafeExpr (my_cos a)
unfolding my_cos
my_cos-SafeExpr a ha = record {
  value = λ m v.
      let (x, ex, lx) = ha.value m v in
      (if cos_test (x % 256) then 1 else 0, rw (ex, my_cos), bit-lt (cos_test (x % 256)));
}

pub my_sin-SafeExpr : (a : Expr) → SafeExpr a → SafeExpr (my_sin a)
unfolding my_sin
my_sin-SafeExpr a ha = record {
  value = λ m v.
      let (x, ex, lx) = ha.value m v in
      (if sin_test (x % 256) then 1 else 0, rw (ex, my_sin), bit-lt (sin_test (x % 256)));
}

root-lt : (r i : ℕ) → r * r ≤ i + 1 → i < 256 → r < 2 ^ 32
root-lt r i h hi = grind (arith)

pub my_sqrt-SafeExpr : (a : Expr) → SafeExpr a → SafeExpr (my_sqrt a)
unfolding my_sqrt
my_sqrt-SafeExpr a ha = record {
  value = λ m v.
      let (x, ex, lx) = ha.value m v in
      let (r, er, low, high) = sqrt_of_lem (x % 256) (omega arith) in
      (r, rw (ex, my_sqrt) er, root-lt r (x % 256) low (omega arith));
}

pub lt-SafeExpr : (a : Expr) (n : ℕ) → SafeExpr a → SafeExpr (a ⊲ n)
unfolding ◌⊲◌
lt-SafeExpr a n ha = record {
  value = λ m v.
      let (x, ex, lx) = ha.value m v in (if ltb x n then 1 else 0, rw (ex, ◌⊲◌), bit-lt (ltb x n));
}

pub choose-SafeExpr :
    (c a b : Expr) → SafeExpr c → SafeExpr a → SafeExpr b → SafeExpr (choose c a b)
unfolding choose
choose-SafeExpr c a b hc ha hb = record {
  value = λ m v.
      let (t, et, lt) = hc.value m v in
      elim (Bool-cases (t == 0)) [
        | inl zero_test ↦
            let (y, ey, ly) = hb.value m v in (y, rw (et, choose) (rw zero_test ey), ly)
        | inr other ↦ let (y, ey, ly) = ha.value m v in (y, rw (et, choose) (rw other ey), ly)
      ];
}

pub shl-SafeExpr : (a : Expr) (n : ℕ) → SafeExpr a → SafeExpr (shl a n)
unfolding shl
shl-SafeExpr a n ha = record {
  value = λ m v. let (x, ex, lx) = ha.value m v in (shl32 x n, rw (ex, shl), omega arith);
}

pub neg-SafeExpr : (a : Expr) → SafeExpr a → SafeExpr (neg a)
unfolding neg
neg-SafeExpr a ha = sub-SafeExpr _ a (lit-SafeExpr 0 refl) ha

pub goes_on-SafeFlow : (s : Step) → SafeStep s → SafeFlow (goes_on s)
unfolding goes_on
goes_on-SafeFlow s hs = record {
  runs = λ m k. let (m', e, k') = hs.runs m k in (false, m', rw (e, goes_on), k');
}

pub assign-SafeFlow : (x : Var) (e : Expr) → SafeVar x → SafeExpr e → SafeFlow (x ≔ e)
unfolding ◌≔◌
assign-SafeFlow x e hx he = record {
  runs = λ m k.
      let (v, ev, lv) = he.value m k in
      let (r, m', em, km) = (goes_on-SafeFlow _ (store-SafeStep x v hx)).runs m k in
      (r, m', rw (ev, ◌≔◌) em, km);
}

pub add_assign-SafeFlow : (x : Var) (e : Expr) → SafeVar x → SafeExpr e → SafeFlow (x += e)
unfolding ◌+=◌
add_assign-SafeFlow x e hx he = assign-SafeFlow x _ hx (add-SafeExpr _ e (val-SafeExpr x hx) he)

pub sub_assign-SafeFlow : (x : Var) (e : Expr) → SafeVar x → SafeExpr e → SafeFlow (x -= e)
unfolding ◌-=◌
sub_assign-SafeFlow x e hx he = assign-SafeFlow x _ hx (sub-SafeExpr _ e (val-SafeExpr x hx) he)

pub mul_assign-SafeFlow : (x : Var) (e : Expr) → SafeVar x → SafeExpr e → SafeFlow (x *= e)
unfolding ◌*=◌
mul_assign-SafeFlow x e hx he = assign-SafeFlow x _ hx (mul-SafeExpr _ e (val-SafeExpr x hx) he)

pub and_assign-SafeFlow : (x : Var) (e : Expr) → SafeVar x → SafeExpr e → SafeFlow (x &= e)
unfolding ◌&=◌
and_assign-SafeFlow x e hx he = assign-SafeFlow x _ hx (and-SafeExpr _ e (val-SafeExpr x hx) he)

pub or_assign-SafeFlow : (x : Var) (e : Expr) → SafeVar x → SafeExpr e → SafeFlow (x |= e)
unfolding ◌|=◌
or_assign-SafeFlow x e hx he = assign-SafeFlow x _ hx (or-SafeExpr _ e (val-SafeExpr x hx) he)

pub xor_assign-SafeFlow : (x : Var) (e : Expr) → SafeVar x → SafeExpr e → SafeFlow (x ^= e)
unfolding ◌^=◌
xor_assign-SafeFlow x e hx he = assign-SafeFlow x _ hx (xor-SafeExpr _ e (val-SafeExpr x hx) he)

pub ror_eq-SafeFlow : (x : Var) (e : Expr) → SafeVar x → SafeExpr e → SafeFlow (ror_eq x e)
unfolding ror_eq
ror_eq-SafeFlow x e hx he = assign-SafeFlow x _ hx (ror-SafeExpr _ e (val-SafeExpr x hx) he)

pub rol_eq-SafeFlow : (x : Var) (e : Expr) → SafeVar x → SafeExpr e → SafeFlow (rol_eq x e)
unfolding rol_eq
rol_eq-SafeFlow x e hx he = assign-SafeFlow x _ hx (rol-SafeExpr _ e (val-SafeExpr x hx) he)

pub seq-SafeFlow : (s t : Flow) → SafeFlow s → SafeFlow t → SafeFlow (s >> t)
unfolding ◌>>◌
seq-SafeFlow s t hs ht = record {
  runs = λ m k.
      let (r, m1, e1, k1) = hs.runs m k in
      elim (Bool-cases r) [
        | inl back ↦ (true, m1, rw (e1, ◌>>◌) (rw back), k1)
        | inr on ↦ let (r2, m2, e2, k2) = ht.runs m1 k1 in (r2, m2, rw (e1, ◌>>◌) (rw on e2), k2)
      ];
}

pub try-SafeFlow : (x : Var) (s : Flow) → SafeVar x → SafeFlow s → SafeFlow (try_odd x s)
unfolding try_odd
try-SafeFlow x s hx hs = record {
  runs = λ m k.
      let (r, m1, e1, k1) = hs.runs m k in
      let (v, ev, lv) = (val-SafeExpr x hx).value m1 k1 in
      elim (Bool-cases r) [
        | inl back ↦ (true, m1, rw (e1, try_odd) (rw back), k1)
        | inr on ↦ (v % 2 == 1, m1, rw (e1, try_odd) (rw on (rw ev)), k1)
      ];
}

pub switch-SafeFlow :
    (e : Expr) (k : ℕ → Flow) → SafeExpr e → ((b : ℕ) → SafeFlow (k b)) → SafeFlow (switch e k)
unfolding switch
switch-SafeFlow e k he hk = record {
  runs = λ m v.
      let (b, eb, lb) = he.value m v in
      let (r, m', em, km) = (hk b).runs m v in (r, m', rw (eb, switch) em, km);
}

pub when-SafeFlow : (b : Bool) (s : Flow) → SafeFlow s → SafeFlow (when b s)
unfolding when
when-SafeFlow true s hs = record { runs = λ m k. hs.runs m k }
when-SafeFlow false s hs = record { runs = λ m k. (false, m, refl, k) }

pub when_lt-SafeFlow :
    (a : Expr) (n : ℕ) (s : Flow) → SafeExpr a → SafeFlow s → SafeFlow (when_lt a n s)
unfolding when_lt
when_lt-SafeFlow a n s ha hs = record {
  runs = λ m k.
      let (x, ex, lx) = ha.value m k in
      let (r, m', em, km) = (when-SafeFlow (ltb x n) s hs).runs m k in
      (r, m', rw (ex, when_lt) em, km);
}

pub call-SafeFlow : (f : Flow) (e : Expr) → SafeFlow f → SafeExpr e → SafeFlow (call f e)
unfolding call
call-SafeFlow f e hf he = record {
  runs = λ m k.
      let (v, ev, lv) = he.value m k in
      let (r, m', em, km) =
        hf.runs (record m { word = v }) (record { size = k.size; fit = k.fit; fits = lv }) in
      (
        false,
        record m { words = m'.words },
        rw (ev, em, call),
        record { size = km.size; fit = km.fit; fits = k.fits },
      );
}

pub ruleset flow_rules = (
  at-SafeExpr, seed_val-SafeExpr, lit-SafeExpr, add-SafeExpr, sub-SafeExpr, mul-SafeExpr,
  and-SafeExpr, xor-SafeExpr, or-SafeExpr, ror-SafeExpr, rol-SafeExpr, mod-SafeExpr,
  my_cos-SafeExpr, my_sin-SafeExpr, my_sqrt-SafeExpr, lt-SafeExpr, choose-SafeExpr, shl-SafeExpr,
  neg-SafeExpr, assign-SafeFlow, add_assign-SafeFlow, sub_assign-SafeFlow, mul_assign-SafeFlow,
  and_assign-SafeFlow, or_assign-SafeFlow, xor_assign-SafeFlow, ror_eq-SafeFlow, rol_eq-SafeFlow,
  seq-SafeFlow, try-SafeFlow, switch-SafeFlow, when-SafeFlow, when_lt-SafeFlow, call-SafeFlow,
  var_pad, var_seed, refl,
)
