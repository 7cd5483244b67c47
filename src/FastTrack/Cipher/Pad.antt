-- ===== src/FastTrack/Cipher/Pad.antt =====
-- The operations on the pad keep its 63 bytes and access nothing outside it.
use addnas_mldonkey.Base.{
  ℕ, zero, suc, ◌+◌, ◌*◌, ◌%◌, ◌≤◌, ◌<◌, ◌≡◌, refl, ap, ◌∙◌, arith, bit_and, bit_xor, bit_or-lt,
  bit_xor-lt, ◌&&◌, some, List, [], ◌∷◌, ◌++◌, u8, shr, get_elem?, get_or, set, set?, take, drop,
  length, ◌==◌, AllBelow, length-append, length-take, length-drop, take-AllBelow, drop-AllBelow,
  append-AllBelow, Perm-length, Perm-AllBelow, get_elem?-eq-get_or, set?-eq-set, get_or-lt,
  set-AllBelow, length-set, Bool-cases, inl, inr,
}
use addnas_mldonkey.FastTrack.Primitives.{Primitives}
use addnas_mldonkey.FastTrack.Cipher.{
  qsort_cmp_func, modify_thirds, sort_five, adjust_pad, mangle_pad, merge_pad16,
}

-- `unsigned char pad[63]`
pub record IsPad (pad : List ℕ) : Type 0 where
  pub size : length pad ≡ 63
  pub bytes : AllBelow 256 pad

length-modify_thirds : (k i : ℕ) (cs : List ℕ) → length (modify_thirds k i cs) ≡ length cs
unfolding modify_thirds
length-modify_thirds zero i [] = refl
length-modify_thirds (suc k) i [] = refl
length-modify_thirds zero i (c ∷ cs) = ap suc (length-modify_thirds 2 (i + 1) cs)
length-modify_thirds (suc k) i (c ∷ cs) = ap suc (length-modify_thirds k (i + 1) cs)

modify_thirds-AllBelow :
    (k i : ℕ) (cs : List ℕ) → AllBelow 256 cs → AllBelow 256 (modify_thirds k i cs)
unfolding modify_thirds
modify_thirds-AllBelow zero i [] h = tt
modify_thirds-AllBelow (suc k) i [] h = tt
modify_thirds-AllBelow zero i (c ∷ cs) h =
    (bit_or-lt 8 _ 1 (omega arith) (omega arith), modify_thirds-AllBelow 2 (i + 1) cs h.1)
modify_thirds-AllBelow (suc k) i (c ∷ cs) h = (h.0, modify_thirds-AllBelow k (i + 1) cs h.1)

-- A read of a byte of the pad.
pub IsPad-at :
    {pad : List ℕ} (i : ℕ) → IsPad pad → i < 63 → (v : ℕ) × (get_elem? pad i ≡ some v) × (v < 256)
IsPad-at {pad} i p h = (
  get_or pad i 0,
  get_elem?-eq-get_or pad i 0 (omega (arith, p.size)),
  get_or-lt 256 pad i 0 p.bytes (omega arith),
)

-- A write of a byte into the pad.
pub IsPad-put :
    {pad : List ℕ} (i v : ℕ)
    → IsPad pad
    → i < 63
    → v < 256
    → (pad' : List ℕ) × (set? pad i v ≡ some pad') × IsPad pad'
IsPad-put {pad} i v p h hv = (
  set pad i v,
  set?-eq-set pad i v (omega (arith, p.size)),
  record { size = length-set pad i v ∙ p.size; bytes = set-AllBelow 256 pad i v p.bytes hv },
)

module _ (lib : Primitives) where
  open lib use {qsort, qsort-perm}

  pub sort_five-runs :
      (sortpos : ℕ) (pad : List ℕ)
      → sortpos < 59
      → IsPad pad
      → (out : List ℕ) × (sort_five lib sortpos pad ≡ some out) × IsPad out
  unfolding sort_five
  sort_five-runs sortpos pad h p =
      let five = take 5 (drop sortpos pad) in
      let perm = qsort-perm qsort_cmp_func five in
      let sorted = qsort qsort_cmp_func five in
      let rest = drop 5 (drop sortpos pad) in
      (
        take sortpos pad ++ (sorted ++ rest),
        ground (arith, p.size),
        record {
          size = omega (
            arith,
            p.size,
            length-append (take sortpos pad) (sorted ++ rest),
            length-append sorted rest,
            Perm-length perm,
            length-take sortpos pad,
            length-take 5 (drop sortpos pad),
            length-drop sortpos pad,
            length-drop 5 (drop sortpos pad),
          );
          bytes = append-AllBelow 256 _ _ (take-AllBelow 256 sortpos pad p.bytes) (
              append-AllBelow 256 _ _
                (Perm-AllBelow 256 _ _ perm
                  (take-AllBelow 256 5 _ (drop-AllBelow 256 sortpos pad p.bytes)))
                (drop-AllBelow 256 5 _ (drop-AllBelow 256 sortpos pad p.bytes)));
        },
      )

  pub adjust_pad-runs :
      (sortpos : ℕ) (pad : List ℕ)
      → sortpos < 59
      → IsPad pad
      → (out : List ℕ) × (adjust_pad lib sortpos pad ≡ some out) × IsPad out
  unfolding adjust_pad
  adjust_pad-runs sortpos pad h p =
      let (sorted, e, q) = sort_five-runs sortpos pad h p in
      (
        modify_thirds 5 0 sorted,
        rw (e, adjust_pad),
        record {
          size = length-modify_thirds 5 0 sorted ∙ q.size;
          bytes = modify_thirds-AllBelow 5 0 sorted q.bytes;
        },
      )

  pub mangle_pad-runs :
      (pos xor : ℕ) (pad : List ℕ)
      → IsPad pad
      → (out : List ℕ) × (mangle_pad lib pos xor pad ≡ some out) × IsPad out
  unfolding mangle_pad
  mangle_pad-runs pos xor pad p =
      let (second, e2, _) = IsPad-at 2 p (omega arith) in
      let sum = xor + second in
      let (out, e, q) = adjust_pad-runs ((sum * sum + 2) % 59) pad (omega arith) p in
      elim (Bool-cases (pos == 7 && bit_and xor 0x70 == 0)) [
        | inl t ↦ (out, rw (e2, mangle_pad) (rw t e), q)
        | inr f ↦ (pad, rw (e2, mangle_pad) (rw f), p)
      ]

-- The six words of `pad16` are merged inside the pad.
pub merge_pad16-runs :
    (rounds i shift_factor pad_offset : ℕ) (pad16 pad : List ℕ)
    → i + rounds ≤ length pad16
    → pad_offset + i + rounds ≤ 63
    → IsPad pad
    → (out : List ℕ) × (merge_pad16 rounds i shift_factor pad_offset pad16 pad ≡ some out)
      × IsPad out
unfolding merge_pad16
merge_pad16-runs zero i shift_factor pad_offset pad16 pad h g p = (pad, refl, p)
merge_pad16-runs (suc rounds) i shift_factor pad_offset pad16 pad h g p =
    let val = get_or pad16 i 0 in
    let ev : get_elem? pad16 i ≡ some val = get_elem?-eq-get_or pad16 i 0 (omega arith) in
    let (old, eo, lo) = IsPad-at (pad_offset + i) p (omega arith) in
    let (pad', ep, p') =
      IsPad-put (pad_offset + i) (bit_xor old (u8 (shr val shift_factor))) p (omega arith)
        (bit_xor-lt 8 old _ lo (omega arith)) in
    let (out, er, q) =
      merge_pad16-runs rounds (i + 1) shift_factor pad_offset pad16 pad' (omega arith) (omega arith)
        p' in
    (out, rw (ev, merge_pad16) (rw eo (rw ep er)), q)
