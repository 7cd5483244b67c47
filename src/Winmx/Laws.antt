-- ===== src/Winmx/Laws.antt =====
-- Encoding and decoding undo each other on two bytes or more; on one byte encoding forgets it.
use addnas_mldonkey.Base.{
  ℕ, zero, suc, ◌+◌, ◌-◌, ◌%◌, ◌^◌, ◌≤◌, ◌<◌, ◌≡◌, ◌≢◌, refl, ap, ◌∙◌, arith, bit_xor,
  bit_xor_cancel, bit_xor_self, bind_some, Option-cases, ap₂, [], ◌∷◌, Option, some, List, u8,
  length, get_elem?, get_or, set, ◌==◌, ◌>>=◌, get_elem?-eq-get_or, set?-eq-set, length-set,
  get_elem?-set_self, get_elem?-set_ne, Bool-cases, lt→ltb, inl, inr,
}
use addnas_mldonkey.Winmx.{
  xor_byte, xor_with, forward, backward, to_int, mix_head, encode_rounds, winmx_encode,
  decode_rounds, winmx_decode,
}

-- On strings of `size` bytes `f` does not fault, keeps the size, and `g` undoes it.
abbrev Undone : ℕ → (List ℕ → Option (List ℕ)) → (List ℕ → Option (List ℕ)) → Type 0
Undone size f g =
    (what : List ℕ)
    → length what ≡ size
    → (out : List ℕ) × (f what ≡ some out) × (g out ≡ some what) × (length out ≡ size)

-- One after the other is undone in the other order.
Undone-seq :
    {size : ℕ} (f f' g g' : List ℕ → Option (List ℕ))
    → Undone size f g
    → Undone size f' g'
    → Undone size (λ what. f what >>= f') (λ what. g' what >>= g)
Undone-seq f f' g g' u u' what h =
    let (mid, e1, b1, h1) = u what h in
    let (out, e2, b2, h2) = u' mid h1 in (out, rw e1 e2, rw b2 b1, h2)

set-set_self : (xs : List ℕ) (i a b : ℕ) → get_elem? xs i ≡ some b → set (set xs i a) i b ≡ xs
set-set_self [] i a b h = refl
set-set_self (x ∷ xs) zero a b h = ap (λ y. y ∷ xs) (ground arith)
set-set_self (x ∷ xs) (suc i) a b h = ap (λ ys. x ∷ ys) (set-set_self xs i a b h)

-- Xoring a byte with the same value again restores it.
xor_byte_lem :
    (what : List ℕ) (x b a : ℕ)
    → get_elem? what x ≡ some a
    → x < length what
    → xor_byte x b what ≡ some (set what x (bit_xor a b))
unfolding xor_byte
xor_byte_lem what x b a e h = rw (e, xor_byte) (set?-eq-set what x (bit_xor a b) h)

xor_byte_back :
    (what : List ℕ) (x b a : ℕ)
    → get_elem? what x ≡ some a
    → x < length what
    → xor_byte x b (set what x (bit_xor a b)) ≡ some what
xor_byte_back what x b a e h =
    let out = set what x (bit_xor a b) in
    xor_byte_lem out x b (bit_xor a b) (get_elem?-set_self what x (bit_xor a b) h)
      (omega (arith, length-set what x (bit_xor a b)))
    ∙ ap some (ap (λ t. set out x t) (bit_xor_cancel a b) ∙ set-set_self what x (bit_xor a b) a e)

xor_byte-Undone : (size x b : ℕ) → x < size → Undone size (xor_byte x b) (xor_byte x b)
xor_byte-Undone size x b lt what h =
    let a = get_or what x 0 in
    let read : get_elem? what x ≡ some a = get_elem?-eq-get_or what x 0 (omega arith) in
    (
      set what x (bit_xor a b),
      xor_byte_lem what x b a read (omega arith),
      xor_byte_back what x b a read (omega arith),
      length-set what x (bit_xor a b) ∙ h,
    )

xor_with-Undone :
    (size x y : ℕ) → x < size → y < size → x ≢ y → Undone size (xor_with x y) (xor_with x y)
unfolding xor_with
xor_with-Undone size x y lx ly ne what h =
    let a = get_or what x 0 in
    let b = get_or what y 0 in
    let read : get_elem? what x ≡ some a = get_elem?-eq-get_or what x 0 (omega arith) in
    let key : get_elem? what y ≡ some b = get_elem?-eq-get_or what y 0 (omega arith) in
    let kept : get_elem? (set what x (bit_xor a b)) y ≡ some b =
      get_elem?-set_ne what x y (bit_xor a b) ne ∙ key in
    (
      set what x (bit_xor a b),
      rw (key, xor_with) (xor_byte_lem what x b a read (omega arith)),
      rw (kept, xor_with) (xor_byte_back what x b a read (omega arith)),
      length-set what x (bit_xor a b) ∙ h,
    )

-- The forward loop with its last round apart.
forward-suc :
    (rounds x : ℕ) (what : List ℕ)
    → forward (suc rounds) x what
      ≡ (forward rounds x what >>= xor_with (x + rounds) (x + rounds - 1))
unfolding forward
forward-suc zero x what =
    let here : x + 0 ≡ x = omega arith in rw here (bind_some (xor_with x (x - 1) what))
forward-suc (suc rounds) x what = elim (Option-cases (xor_with x (x - 1) what)) [
  | inl e ↦ rw e
  | inr (next, e) ↦
      let place : x + 1 + rounds ≡ x + suc rounds = omega arith in
      rw e (
        forward-suc rounds (x + 1) next
        ∙ ap (λ t. forward rounds (x + 1) next >>= xor_with t (t - 1)) place)
]

forward-Undone :
    (size rounds : ℕ) → rounds < size → Undone size (forward rounds 1) (backward rounds)
unfolding forward backward
forward-Undone size zero h what e = (what, refl, refl, e)
forward-Undone size (suc rounds) h what e =
    let place : 1 + rounds ≡ suc rounds = omega arith in
    let under : 1 + rounds - 1 ≡ rounds = omega arith in
    let (out, there, back, long) =
      Undone-seq (forward rounds 1) (xor_with (suc rounds) rounds) (backward rounds)
        (xor_with (suc rounds) rounds) (forward-Undone size rounds (omega arith))
        (xor_with-Undone size (suc rounds) rounds h (omega arith) (omega arith)) what e in
    (
      out,
      forward-suc rounds 1 what
          ∙ ap₂ (λ t u. forward rounds 1 what >>= xor_with t u) place under
          ∙ there,
      back,
      long,
    )

to_int_lem : (n : ℕ) → n < 2 ^ 31 → to_int n ≡ n
unfolding to_int
to_int_lem n h = rw (lt→ltb n (2 ^ 31) h) refl

module _ (len size : ℕ) (two : 2 ≤ len) (fits : len ≤ size) (word : len < 2 ^ 31) where
  mix_head-Undone : (counter : ℕ) → Undone size (mix_head len counter) (mix_head len counter)
  unfolding mix_head
  mix_head-Undone counter what h =
      let last = (len + 2 ^ 32 - 1) % 2 ^ 32 in
      elim (Bool-cases (counter == 4)) [
        | inl first ↦
            let (out, e, b, l) = xor_byte-Undone size 0 (u8 len) (omega arith) what h in
            (out, rw (first, mix_head) e, rw (first, mix_head) b, l)
        | inr later ↦
            let (out, e, b, l) =
              xor_with-Undone size 0 last (omega arith) (omega arith) (omega arith) what h in
            (out, rw (later, mix_head) e, rw (later, mix_head) b, l)
      ]

  encode_rounds-Undone :
      (rounds : ℕ) → Undone size (encode_rounds len rounds) (decode_rounds len rounds)
  unfolding encode_rounds decode_rounds
  encode_rounds-Undone zero what h = (what, refl, refl, h)
  encode_rounds-Undone (suc counter) what h =
      let (w1, e1, b1, h1) = mix_head-Undone counter what h in
      let (w2, e2, b2, h2) = forward-Undone size (len - 1) (omega arith) w1 h1 in
      let under : (len + 2 ^ 32 - 1) % 2 ^ 32 ≡ len - 1 = omega arith in
      let up : to_int len - 1 ≡ len - 1 = omega (arith, to_int_lem len word) in
      let down : to_int ((len + 2 ^ 32 - 1) % 2 ^ 32) ≡ len - 1 =
        ap to_int under ∙ to_int_lem (len - 1) (omega arith) in
      let e2' : forward (to_int len - 1) 1 w1 ≡ some w2 = ap (λ (n : ℕ). forward n 1 w1) up ∙ e2 in
      let b2' : backward (to_int ((len + 2 ^ 32 - 1) % 2 ^ 32)) w2 ≡ some w1 =
        ap (λ (n : ℕ). backward n w2) down ∙ b2 in
      let (out, e3, b3, h3) = encode_rounds-Undone counter w2 h2 in
      (out, rw (e1, encode_rounds) (rw e2' e3), rw (b3, decode_rounds) (rw b2' b1), h3)

-- For a length of two or more, below 2 ^ 31 and within the string, encoding faults nowhere and keeps the string's size, and decoding the result with that length gives the string back.
pub winmx_decode-winmx_encode :
    (len : ℕ) (what : List ℕ)
    → 2 ≤ len
    → len ≤ length what
    → len < 2 ^ 31
    → (out : List ℕ) × (winmx_encode len what ≡ some out)
      × (winmx_decode len out ≡ some what)
      × (length out ≡ length what)
unfolding winmx_encode winmx_decode
winmx_decode-winmx_encode len what two fits word =
    encode_rounds-Undone len (length what) two fits word 5 what refl

-- A string of a single byte, encoded with length 1, becomes the byte 0, whatever the byte is.
pub winmx_encode_one : (a : ℕ) → winmx_encode 1 (a ∷ []) ≡ some (0 ∷ [])
unfolding winmx_encode encode_rounds mix_head xor_byte xor_with forward to_int
winmx_encode_one a = simp bit_xor_self
