-- ===== src/FastTrack/EncType1/Bytes.antt =====
-- `big_letoh` and `big_htole`: words and bytes of a number.
use addnas_mldonkey.Base.{
  ℕ, zero, suc, ◌+◌, ◌*◌, ◌/◌, ◌%◌, ◌^◌, ◌<◌, ◌≤◌, ◌≡◌, refl, ap, ap₂, ◌∙◌, arith, some, List, [],
  ◌∷◌, length, drop, AllBelow, get_or, get_elem?, get_elem?-eq-get_or, get_or-lt, bit_or,
  bit_or_step, bit_and, bit_and_step, bit_and-zero, bit_and_byte, take, take_all,
}
use Prim.Native.Nat.{bit_or-bitwise}
use native.Mathlib.Nat.{pow-suc}
use addnas_mldonkey.FastTrack.EncType1.{big_letoh, big_htole}
use addnas_mldonkey.FastTrack.EncType1.Value.{value}

-- The number that bytes stand for, the lowest first.
unfoldable pub number : List ℕ → ℕ
number [] = 0
number (b ∷ bytes) = b + 2 ^ 8 * number bytes

-- The bytes of `n` words.
unfoldable pub bytes_of : ℕ → ℕ
bytes_of zero = 0
bytes_of (suc n) = suc (suc (suc (suc (bytes_of n))))

bit_or_low : (k r q : ℕ) → r < 2 ^ k → bit_or r (q * 2 ^ k) ≡ r + q * 2 ^ k
bit_or_low zero zero q h = omega (arith, bit_or-bitwise 0 (q * 1))
bit_or_low zero (suc r) q h = absurd (omega arith)
bit_or_low (suc k) r q h =
    let doubled : q * 2 ^ suc k ≡ q * 2 ^ k * 2 =
      omega (arith, ap (λ (t : ℕ). q * t) (pow-suc 2 k)) in
    let half : q * 2 ^ k * 2 / 2 ≡ q * 2 ^ k = omega arith in
    let ih = bit_or_low k (r / 2) q (omega (arith, pow-suc 2 k)) in
    rw doubled
      (omega (arith, bit_or_step r (q * 2 ^ k * 2), ap (λ (t : ℕ). bit_or (r / 2) t) half, ih))

word_lem :
    (a b c d : ℕ)
    → a < 256
    → b < 256
    → c < 256
    → bit_or (bit_or (bit_or a (b * 2 ^ 8)) (c * 2 ^ 16)) (d * 2 ^ 24)
      ≡ a + b * 2 ^ 8 + c * 2 ^ 16 + d * 2 ^ 24
word_lem a b c d ha hb hc =
    rw (bit_or_low 8 a b ha) rw (bit_or_low 16 (a + b * 2 ^ 8) c (omega arith))
      (bit_or_low 24 (a + b * 2 ^ 8 + c * 2 ^ 16) d (omega arith))

pub big_letoh_lem :
    (n : ℕ) (src : List ℕ)
    → length src ≡ bytes_of n
    → AllBelow 256 src
    → (words : List ℕ) × (big_letoh n src ≡ some words)
      × (length words ≡ n)
      × AllBelow (2 ^ 32) words
      × (value words ≡ number src)
unfolding big_letoh value number bytes_of
big_letoh_lem zero [] e h = ([], refl, refl, tt, refl)
big_letoh_lem zero (a ∷ src) e h = absurd (omega arith)
big_letoh_lem (suc n) [] e h = absurd (omega arith)
big_letoh_lem (suc n) (a ∷ []) e h = absurd (omega arith)
big_letoh_lem (suc n) (a ∷ b ∷ []) e h = absurd (omega arith)
big_letoh_lem (suc n) (a ∷ b ∷ c ∷ []) e h = absurd (omega arith)
big_letoh_lem (suc n) (a ∷ b ∷ c ∷ d ∷ src) e (ha, (hb, (hc, (hd, hs)))) =
    let (words, run, size, below, total) = big_letoh_lem n src (omega arith) hs in
    let word = word_lem a b c d ha hb hc in
    (
      (a + b * 2 ^ 8 + c * 2 ^ 16 + d * 2 ^ 24) ∷ words,
      rw run rw word refl,
      omega arith,
      (omega arith, below),
      omega (arith, total),
    )

two_bits : (i : ℕ) → bit_and i 3 ≡ i % 4
two_bits i = omega (arith, bit_and_step i 3, bit_and_step (i / 2) 1, bit_and-zero (i / 2 / 2))

-- The byte `j` of the word `q`.
byte_at :
    (cnt i q j : ℕ) (src : List ℕ) (word : ℕ) (rest : List ℕ)
    → i / 2 ^ 2 ≡ q
    → i % 4 ≡ j
    → get_elem? src q ≡ some word
    → big_htole cnt (i + 1) src ≡ some rest
    → big_htole (suc cnt) i src ≡ some (word / 2 ^ (j * 2 ^ 3) % 256 ∷ rest)
unfolding big_htole
byte_at cnt i q j src word rest eq ej e run =
    let shift : bit_and i 3 ≡ j = two_bits i ∙ ej in
    rw eq rw e rw run rw shift
      (ap (λ (b : ℕ). some (b ∷ rest)) (bit_and_byte (word / 2 ^ (j * 2 ^ 3))))

split_word :
    (w : ℕ)
    → w < 2 ^ 32
    → w / 2 ^ 0 % 256
        + 256 * (w / 2 ^ 8 % 256)
        + 65536 * (w / 2 ^ 16 % 256)
        + 16777216 * (w / 2 ^ 24 % 256)
      ≡ w
split_word w h = omega arith

value-head :
    (n q : ℕ) (src : List ℕ)
    → q < length src
    → value (take (suc n) (drop q src))
      ≡ get_or src q 0 + 2 ^ 32 * value (take n (drop (suc q) src))
unfolding value
value-head n q [] h = absurd (omega arith)
value-head n zero (x ∷ src) h = refl
value-head n (suc q) (x ∷ src) h = value-head n q src (omega arith)

-- From the word `q` on, `n` words.
htole_from :
    (n q : ℕ) (src : List ℕ)
    → q + n ≤ length src
    → AllBelow (2 ^ 32) src
    → (bytes : List ℕ) × (big_htole (bytes_of n) (q * 4) src ≡ some bytes)
      × (length bytes ≡ bytes_of n)
      × AllBelow 256 bytes
      × (number bytes ≡ value (take n (drop q src)))
unfolding big_htole bytes_of number value
htole_from zero q src e h = ([], refl, refl, tt, refl)
htole_from (suc n) q src e h =
    let (bytes, run, size, below, total) = htole_from n (suc q) src (omega arith) h in
    let w = get_or src q 0 in
    let there : get_elem? src q ≡ some w = get_elem?-eq-get_or src q 0 (omega arith) in
    let next : q * 4 + 1 + 1 + 1 + 1 ≡ suc q * 4 = omega arith in
    let run0 : big_htole (bytes_of n) (q * 4 + 1 + 1 + 1 + 1) src ≡ some bytes = rw next run in
    let n4 = bytes_of n in
    let top = w / 2 ^ 24 % 256 ∷ bytes in
    let upper = w / 2 ^ 16 % 256 ∷ top in
    let lower = w / 2 ^ 8 % 256 ∷ upper in
    let run1 : big_htole (suc n4) (q * 4 + 1 + 1 + 1) src ≡ some top =
      byte_at n4 (q * 4 + 1 + 1 + 1) q 3 src w bytes (omega arith) (omega arith) there run0 in
    let run2 : big_htole (suc (suc n4)) (q * 4 + 1 + 1) src ≡ some upper =
      byte_at (suc n4) (q * 4 + 1 + 1) q 2 src w top (omega arith) (omega arith) there run1 in
    let run3 : big_htole (suc (suc (suc n4))) (q * 4 + 1) src ≡ some lower =
      byte_at (suc (suc n4)) (q * 4 + 1) q 1 src w upper (omega arith) (omega arith) there run2 in
    let run4 : big_htole (suc (suc (suc (suc n4)))) (q * 4) src ≡ some (w / 2 ^ 0 % 256 ∷ lower) =
      byte_at (suc (suc (suc n4))) (q * 4) q 0 src w lower (omega arith) (omega arith) there run3 in
    let fits : w < 2 ^ 32 = get_or-lt (2 ^ 32) src q 0 h (omega arith) in
    let split : value (take (suc n) (drop q src)) ≡ w + 2 ^ 32 * value (take n (drop (suc q) src)) =
      value-head n q src (omega arith) in
    (
      w / 2 ^ 0 % 256 ∷ lower,
      run4,
      omega arith,
      (omega arith, (omega arith, (omega arith, (omega arith, below)))),
      omega (arith, total, split, split_word w fits),
    )

pub big_htole_lem :
    (n : ℕ) (src : List ℕ)
    → length src ≡ n
    → AllBelow (2 ^ 32) src
    → (bytes : List ℕ) × (big_htole (bytes_of n) 0 src ≡ some bytes)
      × (length bytes ≡ bytes_of n)
      × AllBelow 256 bytes
      × (number bytes ≡ value src)
big_htole_lem n src e h =
    let (bytes, run, size, below, total) = htole_from n 0 src (omega arith) h in
    (bytes, run, size, below, total ∙ ap value (take_all n src (omega arith)))

-- Bytes are determined by their number.
same_bytes :
    (xs ys : List ℕ)
    → length xs ≡ length ys
    → AllBelow 256 xs
    → AllBelow 256 ys
    → number xs ≡ number ys
    → xs ≡ ys
unfolding number
same_bytes [] [] e hx hy en = refl
same_bytes [] (y ∷ ys) e hx hy en = absurd (omega arith)
same_bytes (x ∷ xs) [] e hx hy en = absurd (omega arith)
same_bytes (x ∷ xs) (y ∷ ys) e hx hy en =
    let first : x ≡ y = omega (arith, hx.0, hy.0, en) in
    let others = same_bytes xs ys (omega arith) hx.1 hy.1 (omega (arith, hx.0, hy.0, en)) in
    ap₂ ◌∷◌ first others

-- On `4 * n` bytes `big_letoh` gives `n` words, and `big_htole` writes the same bytes from them.
pub big_htole-big_letoh :
    (n : ℕ) (src : List ℕ)
    → length src ≡ bytes_of n
    → AllBelow 256 src
    → (words : List ℕ) × (big_letoh n src ≡ some words)
      × (length words ≡ n)
      × (big_htole (bytes_of n) 0 words ≡ some src)
big_htole-big_letoh n src e h =
    let (words, run, size, below, total) = big_letoh_lem n src e h in
    let (bytes, run', size', below', total') = big_htole_lem n words size below in
    let same : bytes ≡ src =
      same_bytes bytes src (omega (arith, size', e)) below' h (omega (arith, total, total')) in
    (words, run, size, run' ∙ ap some same)
