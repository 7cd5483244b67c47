-- ===== src/FastTrack/Init/Pad.antt =====
-- `pad_init` of networks/fasttrack/fst_crypt.c, part by part.
use addnas_mldonkey.Base.{
  ℕ, zero, suc, ◌*◌, ◌^◌, ◌≤◌, ◌<◌, ◌≡◌, refl, ap, ◌∙◌, arith, bit_xor, bit_xor-lt, Bool, true,
  false, ◌||◌, not, Option, some, List, [], ◌∷◌, length, AllBelow, replicate, Bool-cases, inl, inr,
}
use addnas_mldonkey.FastTrack.EncType2.{enc_type_2}
use addnas_mldonkey.FastTrack.EncType2.Bounds.{enc_type_2-runs}
use addnas_mldonkey.FastTrack.EncType20.{enc_type_20}
use addnas_mldonkey.FastTrack.EncType80.{enc_type_80}
use addnas_mldonkey.FastTrack.EncType20.Bounds.{enc_type_20-runs}
use addnas_mldonkey.FastTrack.EncType80.Bounds.{enc_type_80-runs}
use addnas_mldonkey.FastTrack.EncType1.Total.{enc_type_1-returns}
use addnas_mldonkey.FastTrack.Seed.{seed_step, seed_keys, words_bytes, reverse_bytes}
use addnas_mldonkey.FastTrack.Seed.Laws.{
  seed_step-lt, seed_keys-AllBelow, length-seed_keys, seed_keys-lt, reverse_bytes_lem,
}
use addnas_mldonkey.FastTrack.Cipher.{has_bit}
use addnas_mldonkey.FastTrack.Cipher.Pad.{IsPad}
use addnas_mldonkey.FastTrack.Init.Mask.{mask_1e6}
use addnas_mldonkey.FastTrack.Init.{
  seed_bytes, merge_key, mix_if, init_type_1, init_key_80, pad_init,
}

-- What `pad_init` returns.
abbrev pub is_supported : ℕ → Bool
is_supported enc_type = not (has_bit enc_type 0x04 || has_bit enc_type 0x100)

seed_bytes-lt : (n seed : ℕ) → seed < 2 ^ 32 → (seed_bytes n seed).1 < 2 ^ 32
unfolding seed_bytes
seed_bytes-lt zero seed h = h
seed_bytes-lt (suc n) seed h = seed_bytes-lt n (seed_step seed) (seed_step-lt seed)

length-seed_bytes : (n seed : ℕ) → length (seed_bytes n seed).0 ≡ n
unfolding seed_bytes
length-seed_bytes zero seed = refl
length-seed_bytes (suc n) seed = ap suc (length-seed_bytes n (seed_step seed))

seed_bytes-AllBelow : (n seed : ℕ) → AllBelow 256 (seed_bytes n seed).0
unfolding seed_bytes
seed_bytes-AllBelow zero seed = tt
seed_bytes-AllBelow (suc n) seed = (omega arith, seed_bytes-AllBelow n (seed_step seed))

zeros-AllBelow : (n b : ℕ) → 0 < b → AllBelow b (replicate n 0)
zeros-AllBelow zero b h = tt
zeros-AllBelow (suc n) b h = (h, zeros-AllBelow n b h)

-- A key at least as long as the pad is merged without leaving either.
merge_key-runs :
    (pad key : List ℕ)
    → length pad ≤ length key
    → AllBelow 256 pad
    → AllBelow 256 key
    → (out : List ℕ) × (merge_key pad key ≡ some out) × (length out ≡ length pad) × AllBelow 256 out
unfolding merge_key
merge_key-runs [] key h p k = ([], refl, refl, tt)
merge_key-runs (x ∷ xs) [] h p k = absurd (omega arith)
merge_key-runs (x ∷ xs) (y ∷ ys) h p k =
    let (out, e, size, bytes) = merge_key-runs xs ys (omega arith) p.1 k.1 in
    (bit_xor x y ∷ out, rw (e, merge_key), ap suc size, (bit_xor-lt 8 x y p.0 k.0, bytes))

length-words_bytes : (ws : List ℕ) → length (words_bytes ws) ≡ 4 * length ws
unfolding words_bytes
length-words_bytes [] = refl
length-words_bytes (w ∷ ws) = omega (arith, length-words_bytes ws)

words_bytes-AllBelow : (ws : List ℕ) → AllBelow 256 (words_bytes ws)
unfolding words_bytes
words_bytes-AllBelow [] = tt
words_bytes-AllBelow (w ∷ ws) =
    (omega arith, (omega arith, (omega arith, (omega arith, words_bytes-AllBelow ws))))

-- Twenty key words and a seed.
record IsKeyed (keyed : List ℕ × ℕ) : Type 0 where
  size : length keyed.0 ≡ 20
  words : AllBelow (2 ^ 32) keyed.0
  seed_fits : keyed.1 < 2 ^ 32

mix_if-runs :
    (b : Bool) (mix : List ℕ → ℕ → Option (List ℕ)) (keyed : List ℕ × ℕ)
    → ((key : List ℕ) (seed : ℕ)
        → length key ≡ 20
        → AllBelow (2 ^ 32) key
        → seed < 2 ^ 32
        → (out : List ℕ) × (mix key seed ≡ some out) × (length out ≡ 20) × AllBelow (2 ^ 32) out)
    → IsKeyed keyed
    → (keyed' : List ℕ × ℕ) × (mix_if b mix keyed ≡ some keyed') × IsKeyed keyed'
unfolding mix_if
mix_if-runs false mix keyed runs v = (keyed, refl, v)
mix_if-runs true mix (key, seed) runs v =
    let (out, e, size, words) = runs key (seed_step seed) v.size v.words (seed_step-lt seed) in
    (
      (out, seed_step seed),
      rw (e, mix_if),
      record { size = size; words = words; seed_fits = seed_step-lt seed },
    )

module _ (fuel : ℕ) (rounds : 36 ≤ fuel) where
  init_type_1-runs :
      (seed enc_type : ℕ)
      → seed < 2 ^ 32
      → (pad : List ℕ) × (last : ℕ) × (init_type_1 fuel seed enc_type ≡ some (pad, last))
        × IsPad pad
        × (last < 2 ^ 32)
  unfolding init_type_1
  init_type_1-runs seed enc_type h =
      let zero_pad : List ℕ = replicate 63 0 in
      let key_in = (seed_bytes 0xff seed).0 in
      let long : length key_in ≡ 255 = length-seed_bytes 0xff seed in
      let (key_out, e1, whole, key_bytes) =
        enc_type_1-returns fuel rounds key_in (omega (arith, long))
          (seed_bytes-AllBelow 0xff seed) in
      let (out, e, size, bytes) =
        merge_key-runs zero_pad key_out (omega (arith, whole)) (zeros-AllBelow 63 256 (omega arith))
          key_bytes in
      elim (Bool-cases (has_bit enc_type 1 || not (has_bit enc_type 0x1e7))) [
        | inl on ↦ (
          out,
          (seed_bytes 0xff seed).1,
          rw (on, init_type_1) (rw e1 (rw e)),
          record { size = size; bytes = bytes },
          seed_bytes-lt 0xff seed h,
        )
        | inr off ↦ (
          zero_pad,
          seed,
          rw (off, init_type_1),
          record { size = refl; bytes = zeros-AllBelow 63 256 (omega arith) },
          h,
        )
      ]

  init_key_80-runs :
      (seed enc_type : ℕ) (pad : List ℕ)
      → seed < 2 ^ 32
      → IsPad pad
      → (pad' : List ℕ) × (last : ℕ) × (init_key_80 fuel seed enc_type pad
          ≡ some (is_supported enc_type, pad', last))
        × IsPad pad'
        × (last < 2 ^ 32)
  unfolding init_key_80
  init_key_80-runs seed enc_type pad h p =
      let (keyed, e1, v1) =
        mix_if-runs (has_bit enc_type 0x02) enc_type_2 (seed_keys 20 seed) enc_type_2-runs (record {
          size = length-seed_keys 20 seed;
          words = seed_keys-AllBelow 20 seed;
          seed_fits = seed_keys-lt 20 seed h;
        }) in
      let (keyed20, e2, v2) =
        mix_if-runs (has_bit enc_type 0x20) enc_type_20 keyed enc_type_20-runs v1 in
      let (keyed80, e3, v3) =
        mix_if-runs (has_bit enc_type 0x80) enc_type_80 keyed20 enc_type_80-runs v2 in
      let key = reverse_bytes keyed80.0 in
      let same_key : key ≡ keyed80.0 = reverse_bytes_lem keyed80.0 v3.words in
      let (out, e4, size, bytes) =
        merge_key-runs pad (words_bytes key)
          (omega (arith, p.size, length-words_bytes key, ap length same_key, v3.size)) p.bytes
          (words_bytes-AllBelow key) in
      elim (Bool-cases (has_bit enc_type 0x04)) [
        | inl four ↦ (pad, seed, rw (e1, init_key_80) (rw four), p, h)
        | inr no_four ↦ elim (Bool-cases (has_bit enc_type 0x100)) [
          | inl high ↦
              (pad, seed, rw (e1, init_key_80) (rw no_four (rw e2 (rw e3 (rw high)))), p, h)
          | inr no_high ↦ (
            out,
            keyed80.1,
            rw (e1, init_key_80) (rw no_four (rw e2 (rw e3 (rw no_high (rw e4))))),
            record { size = size ∙ p.size; bytes = bytes },
            v3.seed_fits,
          )
        ]
      ]

  -- For a 32-bit seed, and with 36 rounds or more for the inner loop of `enc_type_1`, `pad_init`
  -- ends and faults on no type; it returns `TRUE` exactly if `is_supported`,
  -- and leaves a pad of 63 bytes and a 32-bit seed.
  pub pad_init-runs :
      (seed enc_type : ℕ)
      → seed < 2 ^ 32
      → (pad : List ℕ) × (last : ℕ) × (pad_init fuel seed enc_type
          ≡ some (is_supported enc_type, pad, last))
        × IsPad pad
        × (last < 2 ^ 32)
  unfolding pad_init
  pad_init-runs seed enc_type h =
      let (pad, last, e1, p, hl) = init_type_1-runs seed enc_type h in
      elim (Bool-cases (has_bit enc_type 0x1e6)) [
        | inl on ↦
            let (pad', last', e2, p', h') = init_key_80-runs last enc_type pad hl p in
            (pad', last', rw (e1, pad_init) (rw on e2), p', h')
        | inr off ↦
            let (no_four, no_high) = mask_1e6 enc_type off in
            (pad, last, rw (e1, pad_init) (rw (off, no_four, no_high)), p, hl)
      ]
