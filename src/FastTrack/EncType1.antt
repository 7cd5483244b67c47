-- ===== src/FastTrack/EncType1.antt =====
-- networks/fasttrack/enc_type_1.c: numbers of 64 words of 32 bits, the lowest word first, and the
-- padding that they serve. A pointer into the middle of an array is the rest of the list; `none` is
-- an access outside an array, or the end of the fuel of a loop.
pub mod Modulus
pub mod Value
pub mod Multiply
pub mod Subtract
pub mod Compare
pub mod Reduce
pub mod Estimate
pub mod Remainder
pub mod Modulo
pub mod Mulmod
pub mod Expmod
pub mod Bytes
pub mod Cube
pub mod Lost
pub mod Ends
pub mod Divides
pub mod Total
mod Examples
use addnas_mldonkey.Base.{
  ℕ, zero, suc, ◌+◌, ◌-◌, ◌*◌, ◌/◌, ◌%◌, ◌^◌, bit_and, bit_or, Option, none, some, List, [], ◌∷◌,
  ◌++◌, Bool, true, false, not, ◌||◌, take, drop, length, replicate, get_elem?, ltb, ◌==◌,
  if◌then◌else◌, ◌>>=◌, shr,
}
use Modulus.{modulus}

-- `big_set`
unfoldable pub big_set : ℕ → List ℕ
big_set val = val ∷ replicate 63 0

-- The inner loop of `big_mul`: `x` times the words of `in2`, added to the words at `out + i`, and
-- the carry stored behind them. `k` has 64 bits.
unfoldable pub mul_row : ℕ → List ℕ → List ℕ → ℕ → Option (List ℕ)
mul_row x [] [] k = none
mul_row x [] (o ∷ out) k = some (k % 2 ^ 32 ∷ out)
mul_row x (y ∷ in2) [] k = none
mul_row x (y ∷ in2) (o ∷ out) k = do
  let sum = (k + (o + x * y)) % 2 ^ 64
  rest ← mul_row x in2 out (shr sum 32)
  some (sum % 2 ^ 32 ∷ rest)

-- What a row leaves to the next: `out` from its second word on.
unfoldable pub keep_first : List ℕ → (List ℕ → Option (List ℕ)) → Option (List ℕ)
keep_first [] f = none
keep_first (o ∷ out) f = f out >>= λ rest. some (o ∷ rest)

-- The outer loop over the words of `in1` left, at `out + i`.
unfoldable pub mul_rows : List ℕ → List ℕ → List ℕ → Option (List ℕ)
mul_rows [] in2 out = some out
mul_rows (x ∷ in1) in2 out = do out' ← mul_row x in2 out 0; keep_first out' (mul_rows in1 in2)

-- The first `cnt` words of an array.
unfoldable pub words_of : ℕ → List ℕ → Option (List ℕ)
words_of cnt num = if ltb (length num) cnt then none else some (take cnt num)

-- `big_mul`
unfoldable pub big_mul : ℕ → List ℕ → List ℕ → Option (List ℕ)
big_mul cnt in1 in2 = do
  a ← words_of cnt in1
  b ← words_of cnt in2
  mul_rows a b (replicate (cnt + cnt) 0)

-- `big_isless`, which compares the highest of the `cnt` words first.
unfoldable pub big_isless : ℕ → List ℕ → List ℕ → Option Bool
big_isless zero num1 num2 = some false
big_isless (suc cnt) num1 num2 = do
  a ← get_elem? num1 cnt
  b ← get_elem? num2 cnt
  let rest = big_isless cnt num1 num2
  if ltb a b then some true else if ltb b a then some false else rest

-- The first loop of `big_mod` at `in1 + i`: `k` times `in2` is taken away, with the borrow `l`, and
-- then the borrow from the word behind.
unfoldable pub sub_product : ℕ → List ℕ → List ℕ → ℕ → Option (List ℕ)
sub_product k [] [] l = none
sub_product k [] (a ∷ rest) l = some ((a + 2 ^ 32 - l) % 2 ^ 32 ∷ rest)
sub_product k (y ∷ in2) [] l = none
sub_product k (y ∷ in2) (a ∷ in1) l = do
  let x = (k * y + l) % 2 ^ 64
  let low = x % 2 ^ 32
  let l' = if ltb a low then (shr x 32 + 1) % 2 ^ 32 else shr x 32
  rest ← sub_product k in2 in1 l'
  some ((a + 2 ^ 32 - low) % 2 ^ 32 ∷ rest)

-- The loop that takes `in2` away once: the borrow goes off first, and the comparison that finds the
-- next borrow comes after that.
unfoldable pub sub_once : List ℕ → List ℕ → ℕ → Option (List ℕ)
sub_once [] [] l = none
sub_once [] (a ∷ rest) l = some ((a + 2 ^ 32 - l) % 2 ^ 32 ∷ rest)
sub_once (y ∷ in2) [] l = none
sub_once (y ∷ in2) (a ∷ in1) l = do
  let b = (a + 2 ^ 32 - l) % 2 ^ 32
  rest ← sub_once in2 in1 (if ltb b y then 1 else 0)
  some ((b + 2 ^ 32 - y) % 2 ^ 32 ∷ rest)

-- `in1[cnt + i] != 0 || !big_isless (cnt, in1 + i, in2)`
unfoldable pub is_above : ℕ → List ℕ → List ℕ → Option Bool
is_above cnt in2 in1 = do
  top ← get_elem? in1 cnt
  less ← big_isless cnt in1 in2
  some (not (top == 0) || not less)

-- The loop while that holds, which each step of `big_mod` gives `fuel` rounds.
unfoldable pub reduce : ℕ → ℕ → List ℕ → List ℕ → Option (List ℕ)
reduce zero cnt in2 in1 = none
reduce (suc fuel) cnt in2 in1 = do
  again ← is_above cnt in2 in1
  let next = sub_once in2 in1 0 >>= reduce fuel cnt in2
  if again then next else some in1

-- The first part of the loop body of `big_mod` at `in1 + i`. `k` is cut to 32 bits.
unfoldable pub take_off : ℕ → List ℕ → List ℕ → Option (List ℕ)
take_off cnt in2 in1 = do
  high ← get_elem? in1 cnt
  next ← get_elem? in1 (cnt - 1)
  top ← get_elem? in2 (cnt - 1)
  sub_product ((high * 2 ^ 32 + next) / (top + 1) % 2 ^ 32) in2 in1 0

-- The loop body of `big_mod`
unfoldable pub mod_step : ℕ → ℕ → List ℕ → List ℕ → Option (List ℕ)
mod_step fuel cnt in2 in1 = take_off cnt in2 in1 >>= reduce fuel cnt in2

-- The loop for `i` from below `rounds` down to 0.
unfoldable pub mod_loop : ℕ → ℕ → ℕ → List ℕ → List ℕ → Option (List ℕ)
mod_loop fuel zero cnt in2 in1 = some in1
mod_loop fuel (suc i) cnt in2 in1 = do
  window ← mod_step fuel cnt in2 (drop i in1)
  mod_loop fuel i cnt in2 (take i in1 ++ window)

-- `big_mod`: the first `cnt` words.
unfoldable pub big_mod : ℕ → ℕ → List ℕ → List ℕ → Option (List ℕ)
big_mod fuel cnt in1 in2 = do
  b ← words_of cnt in2
  out ← mod_loop fuel cnt cnt b in1
  words_of cnt out

-- `big_mulmod`: the new `num1`.
unfoldable pub big_mulmod : ℕ → List ℕ → List ℕ → List ℕ → Option (List ℕ)
big_mulmod fuel num1 num2 mod_words = do
  top ← get_elem? mod_words 63
  let len = if top == 0 then 32 else 64
  product ← big_mul len num1 num2
  rest ← big_mod fuel len product mod_words
  some (rest ++ drop len num1)

-- `big_getbit`
unfoldable pub big_getbit : List ℕ → ℕ → Option ℕ
big_getbit num i = do word ← get_elem? num (i / 2 ^ 5); some (bit_and (shr word (bit_and i 0x1f)) 1)

-- `for (i = 2048; i > 0; i--) if (big_getbit (exp, i - 1) != 0) break;`, from `i` on.
unfoldable pub top_bit : ℕ → List ℕ → Option ℕ
top_bit zero exp = some 0
top_bit (suc i) exp = do
  bit ← big_getbit exp i
  let rest = top_bit i exp
  if bit == 0 then rest else some (suc i)

-- The loop of `big_expmod`, `rounds` times: `lnum` at its end.
unfoldable pub exp_loop : ℕ → ℕ → List ℕ → List ℕ → List ℕ → Option (List ℕ)
exp_loop fuel zero lnum num mod_words = some lnum
exp_loop fuel (suc rounds) lnum num mod_words = do
  lnum' ← big_mulmod fuel lnum num mod_words
  num' ← big_mulmod fuel num num mod_words
  exp_loop fuel rounds lnum' num' mod_words

-- `big_expmod`: the new `num`.
unfoldable pub big_expmod : ℕ → List ℕ → List ℕ → List ℕ → Option (List ℕ)
big_expmod fuel num exp mod_words = do
  i ← top_bit 2048 exp
  exp_loop fuel i (big_set 1) num mod_words

-- `big_letoh`, for `n` words
unfoldable pub big_letoh : ℕ → List ℕ → Option (List ℕ)
big_letoh zero src = some []
big_letoh (suc n) src = do
  b0 ← get_elem? src 0
  b1 ← get_elem? src 1
  b2 ← get_elem? src 2
  b3 ← get_elem? src 3
  rest ← big_letoh n (drop 4 src)
  some (bit_or (bit_or (bit_or b0 (b1 * 2 ^ 8)) (b2 * 2 ^ 16)) (b3 * 2 ^ 24) ∷ rest)

-- `big_htole`: `cnt` bytes from the byte `i` on
unfoldable pub big_htole : ℕ → ℕ → List ℕ → Option (List ℕ)
big_htole zero i src = some []
big_htole (suc cnt) i src = do
  word ← get_elem? src (i / 2 ^ 2)
  rest ← big_htole cnt (i + 1) src
  some (bit_and (shr word (bit_and i 3 * 2 ^ 3)) 0xff ∷ rest)

-- `enc_type_1`: of the first 255 bytes of `in_key`.
unfoldable pub enc_type_1 : ℕ → List ℕ → Option (List ℕ)
enc_type_1 fuel in_key = do
  key ← words_of 255 in_key
  num1 ← big_letoh 64 (key ++ 1 ∷ [])
  num1' ← big_expmod fuel num1 (big_set 3) modulus
  big_htole 256 0 num1'
