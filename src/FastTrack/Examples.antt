-- ===== src/FastTrack/Examples.antt =====
-- The theorems on the cipher at concrete inputs, and tests.
use Prim.Native.Nat.{Ordering}
use mathlib.Core.List.{Perm}
use mathlib.Core.List.Perm
use addnas_mldonkey.Base.{
  ◌+◌, ◌*◌, ◌≤◌, ℕ, suc, ◌^◌, ◌<◌, ◌≡◌, refl, arith, true, some, List, [], ◌∷◌, length, AllBelow,
  replicate, take, drop,
}
use addnas_mldonkey.FastTrack.EncType2.{enc_type_2}
use addnas_mldonkey.FastTrack.EncType2.Bounds.{enc_type_2-runs}
use addnas_mldonkey.FastTrack.EncType20.{enc_type_20}
use addnas_mldonkey.FastTrack.EncType20.Bounds.{enc_type_20-runs}
use addnas_mldonkey.FastTrack.EncType80.{enc_type_80}
use addnas_mldonkey.FastTrack.EncType80.Bounds.{enc_type_80-runs}
use addnas_mldonkey.FastTrack.Flow.{sqrt_of}
use addnas_mldonkey.FastTrack.Flow.Sqrt.{sqrt_of_lem}
use addnas_mldonkey.FastTrack.Primitives.{Primitives}
use addnas_mldonkey.FastTrack.Seed.{mangle_enc_type, reverse_bytes}
use addnas_mldonkey.FastTrack.Seed.Laws.{mangle_enc_type_undo, reverse_bytes_lem}
use addnas_mldonkey.FastTrack.Cipher.{Cipher, qsort_cmp_func, modify_thirds, clock, crypt}
use addnas_mldonkey.FastTrack.Cipher.Stream.{IsCipher, clock-runs, crypt_undo}
use addnas_mldonkey.FastTrack.Init.{create, init, pad_init, count_up, shuffle}
use addnas_mldonkey.FastTrack.Init.Pad.{is_supported, pad_init-runs}
use addnas_mldonkey.FastTrack.Cipher.Pad.{IsPad}
use addnas_mldonkey.FastTrack.Init.Shuffle.{IsTable, identity-IsTable, shuffle-IsTable}
use addnas_mldonkey.FastTrack.Init.Laws.{create-IsCipher, init-IsCipher}
use addnas_mldonkey.FastTrack.Link.{apply_cipher, packet_set, packet_get}
use addnas_mldonkey.FastTrack.Link.Laws.{packet_get-packet_set}
use addnas_mldonkey.FastTrack.Link.Apply.{apply_cipher_undo}

-- Insertion sort in the place of `qsort`.
insert : (ℕ → ℕ → Ordering) → ℕ → List ℕ → List ℕ
insert cmp x [] = x ∷ []
insert cmp x (y ∷ ys) = elim (cmp x y) [ Ordering.gt ↦ y ∷ insert cmp x ys | _ ↦ x ∷ y ∷ ys ]

sort : (ℕ → ℕ → Ordering) → List ℕ → List ℕ
sort cmp [] = []
sort cmp (x ∷ xs) = insert cmp x (sort cmp xs)

by_order :
    (cmp : ℕ → ℕ → Ordering) (x y : ℕ) (ys : List ℕ)
    → Perm (insert cmp x ys) (x ∷ ys)
    → (o : Ordering)
    → Perm (elim o [ Ordering.gt ↦ y ∷ insert cmp x ys | _ ↦ x ∷ y ∷ ys ]) (x ∷ y ∷ ys)
by_order cmp x y ys h Ordering.gt = Perm.trans (Perm.cons y h) (Perm.swap x y ys)
by_order cmp x y ys h Ordering.lt = Perm.refl (x ∷ y ∷ ys)
by_order cmp x y ys h Ordering.eq = Perm.refl (x ∷ y ∷ ys)

insert-perm : (cmp : ℕ → ℕ → Ordering) (x : ℕ) (xs : List ℕ) → Perm (insert cmp x xs) (x ∷ xs)
unfolding insert
insert-perm cmp x [] = Perm.refl (x ∷ [])
insert-perm cmp x (y ∷ ys) = by_order cmp x y ys (insert-perm cmp x ys) (cmp x y)

sort-perm : (cmp : ℕ → ℕ → Ordering) (xs : List ℕ) → Perm (sort cmp xs) xs
unfolding sort
sort-perm cmp [] = Perm.refl []
sort-perm cmp (x ∷ xs) =
    Perm.trans (insert-perm cmp x (sort cmp xs)) (Perm.cons x (sort-perm cmp xs))

abbrev sample : Primitives
sample = record { qsort = sort; qsort-perm = sort-perm; md5_word = λ pad. 0x1234_5678 }

sort_example : sort qsort_cmp_func (0x41 ∷ 0x61 ∷ 0x20 ∷ []) ≡ 0x20 ∷ 0x61 ∷ 0x41 ∷ []
unfolding sort insert qsort_cmp_func
sort_example = refl

thirds_example : modify_thirds 1 0 (7 ∷ 9 ∷ 7 ∷ 7 ∷ []) ≡ 7 ∷ 247 ∷ 7 ∷ 7 ∷ []
unfolding modify_thirds
thirds_example = refl

abbrev text : List ℕ
text = 0x48 ∷ 0x65 ∷ 0x6c ∷ 0x6c ∷ 0x6f ∷ []

enc_type_2-runs_example :
    (out : List ℕ) × (enc_type_2 (replicate 20 1) 7 ≡ some out)
    × (length out ≡ 20)
    × AllBelow (2 ^ 32) out
enc_type_2-runs_example = enc_type_2-runs (replicate 20 1) 7 refl (omega arith) (omega arith)

mangle_enc_type_undo_example :
    (e : ℕ) × (mangle_enc_type 0x1234 0x29 ≡ some e)
    × (mangle_enc_type 0x1234 e ≡ some 0x29)
    × (e < 2 ^ 32)
mangle_enc_type_undo_example = mangle_enc_type_undo 0x1234 0x29 (omega arith)

reverse_bytes_example : reverse_bytes (0x0102_0304 ∷ 7 ∷ []) ≡ 0x0102_0304 ∷ 7 ∷ []
reverse_bytes_example = reverse_bytes_lem (0x0102_0304 ∷ 7 ∷ []) (omega arith)

clock-runs_example :
    (k : ℕ) × (c' : Cipher) × (clock sample create ≡ some (k, c')) × (k < 256) × IsCipher c'
clock-runs_example = clock-runs sample create create-IsCipher

crypt_undo_example :
    (coded : List ℕ) × (c' : Cipher) × (crypt sample create text ≡ some (coded, c'))
    × (crypt sample create coded ≡ some (text, c'))
    × (length coded ≡ length text)
    × IsCipher c'
crypt_undo_example = crypt_undo sample create text create-IsCipher

pad_init-runs_example :
    (pad : List ℕ) × (last : ℕ) × (pad_init 36 0xabcd 0x29 ≡ some (is_supported 0x29, pad, last))
    × IsPad pad
    × (last < 2 ^ 32)
pad_init-runs_example = pad_init-runs 36 (omega arith) 0xabcd 0x29 (omega arith)

shuffle-IsTable_example :
    (t' : List ℕ) × (shuffle 256 0 0x1234 (count_up 256 0) ≡ some t') × IsTable t'
shuffle-IsTable_example = shuffle-IsTable 256 0 0x1234 (count_up 256 0) refl identity-IsTable

init-IsCipher_example :
    (c' : Cipher) × (init sample 36 create 0xabcd 0x09 ≡ some (is_supported 0x09, c'))
    × IsCipher c'
    × (is_supported 0x09 ≡ true → IsTable c'.lookup)
init-IsCipher_example =
    init-IsCipher sample 36 create 0xabcd 0x09 (omega arith) create-IsCipher (omega arith)

abbrev packet : List ℕ
packet = 1 ∷ 2 ∷ 3 ∷ 4 ∷ 5 ∷ 6 ∷ 7 ∷ 8 ∷ 9 ∷ 10 ∷ []

abbrev greeting : Cipher
greeting = record create { seed = 0xdead_beef; enc_type = 0x29 }

packet_get-packet_set_example :
    (s' : List ℕ) × (packet_set greeting packet 1 ≡ some s')
    × (length s' ≡ 10)
    × (packet_get s' 1 create ≡ some (record create { seed = 0xdead_beef; enc_type = 0x29 }))
packet_get-packet_set_example =
    packet_get-packet_set greeting create packet 1 (omega arith) (omega arith) (omega arith)

apply_cipher_undo_example :
    (s' : List ℕ) × (c' : Cipher) × (apply_cipher sample create packet 2 5 ≡ some (s', c'))
    × (apply_cipher sample create s' 2 5 ≡ some (packet, c'))
    × (take 2 s' ≡ take 2 packet)
    × (drop 5 (drop 2 s') ≡ drop 5 (drop 2 packet))
    × IsCipher c'
apply_cipher_undo_example = apply_cipher_undo sample create packet 2 5 create-IsCipher (omega arith)

enc_type_20-runs_example :
    (out : List ℕ) × (enc_type_20 (replicate 20 1) 7 ≡ some out)
    × (length out ≡ 20)
    × AllBelow (2 ^ 32) out
enc_type_20-runs_example = enc_type_20-runs (replicate 20 1) 7 refl (omega arith) (omega arith)

enc_type_80-runs_example :
    (out : List ℕ) × (enc_type_80 (replicate 20 1) 7 ≡ some out)
    × (length out ≡ 20)
    × AllBelow (2 ^ 32) out
enc_type_80-runs_example = enc_type_80-runs (replicate 20 1) 7 refl (omega arith) (omega arith)

sqrt_of_example : (r : ℕ) × (sqrt_of 200 ≡ some r) × (r * r ≤ 200 + 1) × (200 + 1 < suc r * suc r)
sqrt_of_example = sqrt_of_lem 200 (omega arith)
