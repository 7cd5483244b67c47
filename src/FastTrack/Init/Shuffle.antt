-- ===== src/FastTrack/Init/Shuffle.antt =====
-- The table `lookup` is a rearrangement of the bytes.
use addnas_mldonkey.Base.{
  ℕ, zero, suc, ◌+◌, ◌-◌, ◌≤◌, ◌<◌, ◌≡◌, ◌≢◌, refl, ap, ◌∙◌, arith, some, List, get_elem?, get_or,
  set, set?, length, ltb, leb, ◌==◌, ◌&&◌, if◌then◌else◌, AllBelow, count, count-swap,
  get_elem?-eq-get_or, set?-eq-set, length-set, get_or-lt, set-AllBelow, Bool-cases, inl, inr,
}
use addnas_mldonkey.FastTrack.Seed.{calculate_num}
use addnas_mldonkey.FastTrack.Seed.Laws.{calculate_num-lt}
use addnas_mldonkey.FastTrack.Init.{count_up, swap, shuffle}

-- 256 bytes, each value once.
pub record IsTable (t : List ℕ) : Type 0 where
  pub size : length t ≡ 256
  pub bytes : AllBelow 256 t
  pub each_once : (a : ℕ) → a < 256 → count a t ≡ 1

count-count_up : (a n i : ℕ) → count a (count_up n i) ≡ (if leb i a && ltb a (i + n) then 1 else 0)
unfolding count_up count
count-count_up a zero i = ground arith
count-count_up a (suc n) i = ground (arith, count-count_up a n (i + 1))

length-count_up : (n i : ℕ) → length (count_up n i) ≡ n
unfolding count_up
length-count_up zero i = refl
length-count_up (suc n) i = ap suc (length-count_up n (i + 1))

count_up-AllBelow : (b n i : ℕ) → i + n ≤ b → AllBelow b (count_up n i)
unfolding count_up
count_up-AllBelow b zero i h = tt
count_up-AllBelow b (suc n) i h = (omega arith, count_up-AllBelow b n (i + 1) (omega arith))

pub identity-IsTable : IsTable (count_up 256 0)
identity-IsTable = record {
  size = length-count_up 256 0;
  bytes = count_up-AllBelow 256 256 0 (omega arith);
  each_once = λ a h. ground (arith, count-count_up a 256 0);
}

swap-IsTable :
    (t : List ℕ) (i j : ℕ)
    → IsTable t
    → i < 256
    → j < 256
    → i ≢ j
    → (t' : List ℕ) × (swap t i j ≡ some t') × IsTable t'
unfolding swap
swap-IsTable t i j v hi hj ne =
    let a = get_or t j 0 in
    let b = get_or t i 0 in
    let ea : get_elem? t j ≡ some a = get_elem?-eq-get_or t j 0 (omega (arith, v.size)) in
    let eb : get_elem? t i ≡ some b = get_elem?-eq-get_or t i 0 (omega (arith, v.size)) in
    let e1 : set? t i a ≡ some (set t i a) = set?-eq-set t i a (omega (arith, v.size)) in
    let size = length-set t i a ∙ v.size in
    let e2 = set?-eq-set (set t i a) j b (omega (arith, size)) in
    (
      set (set t i a) j b,
      rw (ea, swap) (rw eb (rw e1 e2)),
      record {
        size = length-set (set t i a) j b ∙ size;
        bytes =
            set-AllBelow 256 (set t i a) j b
              (set-AllBelow 256 t i a v.bytes (get_or-lt 256 t j 0 v.bytes (omega arith)))
              (get_or-lt 256 t i 0 v.bytes (omega arith));
        each_once = λ k h.
            count-swap k t i j (omega (arith, v.size)) (omega (arith, v.size)) ne ∙ v.each_once k h;
      },
    )

-- From index `i` with 256 - `i` rounds left, the loop on a table that holds each byte once stays
-- inside the table and leaves such a table.
pub shuffle-IsTable :
    (rounds i num : ℕ) (t : List ℕ)
    → i + rounds ≡ 256
    → IsTable t
    → (t' : List ℕ) × (shuffle rounds i num t ≡ some t') × IsTable t'
unfolding shuffle
shuffle-IsTable zero i num t h v = (t, refl, v)
shuffle-IsTable (suc rounds) i num t h v =
    let num' = (calculate_num num (0x100 - i)).0 in
    let offset = (calculate_num num (0x100 - i)).1 in
    let in_table : offset < 0x100 - i =
      calculate_num-lt num (0x100 - i) (omega arith) (omega arith) in
    elim (Bool-cases (offset + i == i)) [
      | inl stays ↦
          let (t', e, v') = shuffle-IsTable rounds (i + 1) num' t (omega arith) v in
          (t', rw (stays, shuffle) e, v')
      | inr moves ↦
          let (t1, e1, v1) =
            swap-IsTable t i (offset + i) v (omega arith) (omega arith) (ground arith) in
          let (t', e, v') = shuffle-IsTable rounds (i + 1) num' t1 (omega arith) v1 in
          (t', rw (moves, shuffle) (rw e1 e), v')
    ]
