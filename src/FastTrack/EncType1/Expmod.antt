-- ===== src/FastTrack/EncType1/Expmod.antt =====
-- The loop of `big_expmod` on whole numbers.
use addnas_mldonkey.Base.{
  ℕ, zero, suc, ◌+◌, ◌*◌, ◌/◌, ◌%◌, ◌^◌, ◌≤◌, ◌≡◌, refl, sym, ap, ap₂, ◌∙◌, arith, none, some, List,
  Bool, true, ◌&&◌, length, AllBelow, get_or,
}
use native.Mathlib.Nat.{add-mul-mod_self_right, div-add-mod', mod-mod, mod-eq_of_lt}
use addnas_mldonkey.FastTrack.EncType1.{big_mulmod, exp_loop}
use addnas_mldonkey.FastTrack.EncType1.Value.{value}
use addnas_mldonkey.FastTrack.EncType1.Reduce.{and-true}
use addnas_mldonkey.FastTrack.EncType1.Mulmod.{IsReduced, mulmod_keeps, big_mulmod_lem}

mod-mul : (a b m : ℕ) → a % m * b % m ≡ a * b % m
mod-mul a b m =
    let whole = ap (λ (t : ℕ). t * b) (div-add-mod' a m) in
    let spread : a * b ≡ a % m * b + a / m * b * m = omega (arith, whole) in
    sym (ap (λ (t : ℕ). t % m) spread ∙ add-mul-mod_self_right (a % m * b) (a / m * b) m)

mod-mul_both : (a b m : ℕ) → a % m * (b % m) % m ≡ a * b % m
mod-mul_both a b m =
    let turned : a * (b % m) ≡ b % m * a = omega arith in
    let back : b * a ≡ a * b = omega arith in
    mod-mul a (b % m) m ∙ ap (λ (t : ℕ). t % m) turned ∙ mod-mul b a m ∙ ap (λ (t : ℕ). t % m) back

-- What the loop of `big_expmod` multiplies: each round takes in the square of the last factor.
unfoldable pub odd_power : ℕ → ℕ → ℕ → ℕ
odd_power zero l a = l
odd_power (suc rounds) l a = odd_power rounds (l * a) (a * a)

odd_power-mod :
    (rounds l a l' a' m : ℕ)
    → l % m ≡ l' % m
    → a % m ≡ a' % m
    → odd_power rounds l a % m ≡ odd_power rounds l' a' % m
unfolding odd_power
odd_power-mod zero l a l' a' m el ea = el
odd_power-mod (suc rounds) l a l' a' m el ea =
    let times : l * a % m ≡ l' * a' % m =
      sym (mod-mul_both l a m) ∙ ap₂ (λ (s t : ℕ). s * t % m) el ea ∙ mod-mul_both l' a' m in
    let square : a * a % m ≡ a' * a' % m =
      sym (mod-mul_both a a m) ∙ ap₂ (λ (s t : ℕ). s * t % m) ea ea ∙ mod-mul_both a' a' m in
    odd_power-mod rounds (l * a) (a * a) (l' * a') (a' * a') m times square

-- No round loses a borrow.
unfoldable pub exp_keeps : ℕ → ℕ → List ℕ → List ℕ → List ℕ → Bool
exp_keeps fuel zero lnum num mod_words = true
exp_keeps fuel (suc rounds) lnum num mod_words =
    mulmod_keeps fuel lnum num mod_words
    && (mulmod_keeps fuel num num mod_words && elim (big_mulmod fuel lnum num mod_words) [
      | none ↦ true
      | some lnum' ↦ elim (big_mulmod fuel num num mod_words) [
        | none ↦ true
        | some num' ↦ exp_keeps fuel rounds lnum' num' mod_words
      ]
    ])

exp_keeps-more :
    (fuel rounds : ℕ) (lnum num mod_words lnum' num' : List ℕ)
    → big_mulmod fuel lnum num mod_words ≡ some lnum'
    → big_mulmod fuel num num mod_words ≡ some num'
    → exp_keeps fuel (suc rounds) lnum num mod_words ≡ true
    → exp_keeps fuel rounds lnum' num' mod_words ≡ true
unfolding exp_keeps
exp_keeps-more fuel rounds lnum num mod_words lnum' num' el en keeps =
    let a = mulmod_keeps fuel lnum num mod_words in
    let b = mulmod_keeps fuel num num mod_words in
    let later = exp_keeps fuel rounds lnum' num' mod_words in
    let kept : (a && (b && later)) ≡ true = rw (en, exp_keeps) at rw (el, exp_keeps) at keeps in
    (and-true b later (and-true a (b && later) kept).1).1

exp_keeps-round :
    (fuel rounds : ℕ) (lnum num mod_words : List ℕ)
    → exp_keeps fuel (suc rounds) lnum num mod_words ≡ true
    → (mulmod_keeps fuel lnum num mod_words ≡ true) × (mulmod_keeps fuel num num mod_words ≡ true)
unfolding exp_keeps
exp_keeps-round fuel rounds lnum num mod_words keeps =
    let (first, others) = and-true _ _ keeps in
    let (second, third) = and-true _ _ others in (first, second)

pub exp_loop-more :
    (fuel rounds : ℕ) (lnum num mod_words lnum' num' : List ℕ)
    → big_mulmod fuel lnum num mod_words ≡ some lnum'
    → big_mulmod fuel num num mod_words ≡ some num'
    → exp_loop fuel (suc rounds) lnum num mod_words ≡ exp_loop fuel rounds lnum' num' mod_words
unfolding exp_loop
exp_loop-more fuel rounds lnum num mod_words lnum' num' el en = rw el rw en refl

module _ (m : List ℕ) (hm : AllBelow (2 ^ 32) m) (size : length m ≡ 64)
    (high : 2 ^ 31 ≤ get_or m 63 0) (fuel : ℕ) (fuel_le : 4 ≤ fuel) where
  -- For a modulus of 64 words whose highest bit is set and two numbers of 64 words below it: with four
  -- rounds or more for the inner loop, and if no subtraction loses a borrow, the loop of `big_expmod`
  -- faults nowhere and leaves, modulo the modulus, the product of the first number and of as many
  -- squarings of the second as there are rounds, whatever the bits of the exponent below the top.
  pub exp_loop_lem :
      (rounds : ℕ) (lnum num : List ℕ)
      → IsReduced m lnum
      → IsReduced m num
      → exp_keeps fuel rounds lnum num m ≡ true
      → (out : List ℕ) × (exp_loop fuel rounds lnum num m ≡ some out)
        × IsReduced m out
        × (value out ≡ odd_power rounds (value lnum) (value num) % value m)
  unfolding exp_loop odd_power IsReduced
  exp_loop_lem zero lnum num hl hn keeps = (lnum, refl, hl, sym (mod-eq_of_lt hl.2))
  exp_loop_lem (suc rounds) lnum num hl hn keeps =
      let (kl, kn) = exp_keeps-round fuel rounds lnum num m keeps in
      let (lnum', run, hl', el) = big_mulmod_lem m hm size high fuel fuel_le lnum num hl hn kl in
      let (num', run', hn', en) = big_mulmod_lem m hm size high fuel fuel_le num num hn hn kn in
      let (out, run'', ho, eo) =
        exp_loop_lem rounds lnum' num' hl' hn'
          (exp_keeps-more fuel rounds lnum num m lnum' num' run run' keeps) in
      let sl : value lnum' % value m ≡ value lnum * value num % value m =
        ap (λ (t : ℕ). t % value m) el ∙ mod-mod (value lnum * value num) (value m) in
      let sn : value num' % value m ≡ value num * value num % value m =
        ap (λ (t : ℕ). t % value m) en ∙ mod-mod (value num * value num) (value m) in
      let opens : exp_loop fuel (suc rounds) lnum num m ≡ exp_loop fuel rounds lnum' num' m =
        exp_loop-more fuel rounds lnum num m lnum' num' run run' in
      (
        out,
        opens ∙ run'',
        ho,
        eo
            ∙ odd_power-mod rounds (value lnum') (value num') (value lnum * value num)
                (value num * value num) (value m) sl sn,
      )
