-- ===== src/FstHash/Agreement.antt =====
-- `fst_hash_file` against `fst_hash_string`: what they share, and what a failing file gives.
use mathlib.Core.Option.{none-ne-some}
use addnas_mldonkey.Base.{
  Option-cases, if◌then◌else◌, not, ◌||◌, ◌&&◌, ◌==◌, ℕ, zero, suc, ◌+◌, ◌-◌, ◌*◌, ◌^◌, ◌<◌, ◌≡◌,
  refl, sym, ap, ◌∙◌, arith, min, Bool, some, none, List, length, take, drop, length-take,
  length-drop, ltb, lt→ltb, ltb→ge, ltb→lt, AllBelow, Bool-cases, inl, inr, true, false,
}
use addnas_mldonkey.FstHash.{
  FileIo, hashed, fst_hash_chunk, u64, window, append_small, string_loop, end_length, read_window,
  file_loop, file_end, file_small, fst_hash_file, fst_hash_string, fst_hash_small,
}
use addnas_mldonkey.FstHash.Crc.{fst_hash_small_lem}
use addnas_mldonkey.FstHash.Bounds.{
  small_crc, end_bytes, string_loop-runs, string_loop-ends, string_loop-more, end-runs,
  end_length_lem, end-AllBelow, fst_hash_string-runs, small_crc-long, small_crc-short,
}

-- An open file that holds `content`: every seek succeeds, a read gives the bytes that are there,
-- and the end of the file is seen by a read that asks for more.
pub record Serves (io : FileIo) (content : List ℕ) : Type 0 where
  pub open_file : io.opens ≡ true
  pub seeks : (offset : ℕ) → io.seek offset ≡ true
  pub reads : (offset n : ℕ) → io.read offset n ≡ take n (drop offset content)
  pub sees_end : length content < fst_hash_chunk → io.at_end ≡ true

short_read : (n offset size : ℕ) → 0 < n → ltb (min n (size - offset)) n ≡ ltb size (offset + n)
short_read n offset size h = ground arith

and_false : (b : Bool) → (b && false) ≡ false
and_false true = refl
and_false false = refl

string_loop-stuck :
    (file : List ℕ) (size offset lastpos h : ℕ) → string_loop zero file size offset lastpos h ≡ none
unfolding string_loop
string_loop-stuck file size offset lastpos h = refl

module _ (fuel : ℕ) (io : FileIo) (size offset lastpos h : ℕ) where
  pub file_loop-ends :
      ltb (u64 (offset + 2 * fst_hash_chunk)) size ≡ false
      → file_loop (suc fuel) io size offset lastpos h ≡ some (some (h, lastpos))
  unfolding file_loop
  file_loop-ends e = rw e refl

  pub file_loop-fails :
      ltb (u64 (offset + 2 * fst_hash_chunk)) size ≡ true
      → read_window io offset fst_hash_chunk ≡ none
      → file_loop (suc fuel) io size offset lastpos h ≡ some none
  unfolding file_loop
  file_loop-fails e w = rw e (rw w refl)

  pub file_loop-more :
      (buf : List ℕ) (g : ℕ)
      → ltb (u64 (offset + 2 * fst_hash_chunk)) size ≡ true
      → read_window io offset fst_hash_chunk ≡ some buf
      → fst_hash_small buf h ≡ some g
      → file_loop (suc fuel) io size offset lastpos h
        ≡ file_loop fuel io size (u64 (offset * 2)) (u64 (offset + fst_hash_chunk)) g
  unfolding file_loop
  file_loop-more buf g e w s = rw e (rw w (rw s refl))

module _ (io : FileIo) (size : ℕ) where
  pub file_small-found :
      (found : ℕ × ℕ)
      → file_loop 43 io size 0x100000 fst_hash_chunk 0xffffffff ≡ some (some found)
      → file_small io size ≡ file_end io size found
  unfolding file_small
  file_small-found found e = rw (e, file_small) refl

  pub file_end-found :
      (h lastpos : ℕ) (buf : List ℕ) (g : ℕ)
      → read_window io (size - end_length size lastpos) (end_length size lastpos) ≡ some buf
      → fst_hash_small buf h ≡ some g
      → file_end io size (h, lastpos) ≡ some (some g)
  unfolding file_end
  file_end-found h lastpos buf g w s = rw (w, file_end) (rw s refl)

module _ (fuel : ℕ) (file : List ℕ) (size offset lastpos h : ℕ) where
  string_loop-outside :
      ltb (u64 (offset + 2 * fst_hash_chunk)) size ≡ true
      → window file offset fst_hash_chunk ≡ none
      → string_loop (suc fuel) file size offset lastpos h ≡ none
  unfolding string_loop
  string_loop-outside e w = rw e (rw w refl)

  string_loop-fault :
      (buf : List ℕ)
      → ltb (u64 (offset + 2 * fst_hash_chunk)) size ≡ true
      → window file offset fst_hash_chunk ≡ some buf
      → fst_hash_small buf h ≡ none
      → string_loop (suc fuel) file size offset lastpos h ≡ none
  unfolding string_loop
  string_loop-fault buf e w s = rw e (rw w (rw s refl))

module _ (io : FileIo) (content : List ℕ) (serves : Serves io content) where
  read_window-eq-window : (offset n : ℕ) → 0 < n → read_window io offset n ≡ window content offset n
  unfolding read_window window
  read_window-eq-window offset n h =
      let size = length (take n (drop offset content)) in
      let e : size ≡ min n (length content - offset) =
        omega (arith, length-take n (drop offset content), length-drop offset content) in
      rw (serves.seeks offset) (
        rw (serves.reads offset n) (
          rw e (
            ap (λ b. if b then none else some (take n (drop offset content)))
              (short_read n offset (length content) h))))

  -- What the loop over a string returns, the loop over the file returns.
  file_loop-follows :
      (fuel size offset lastpos h : ℕ) (found : ℕ × ℕ)
      → string_loop fuel content size offset lastpos h ≡ some found
      → file_loop fuel io size offset lastpos h ≡ some (some found)
  file_loop-follows zero size offset lastpos h found e =
      absurd (none-ne-some found (sym (string_loop-stuck content size offset lastpos h) ∙ e))
  file_loop-follows (suc fuel) size offset lastpos h found e =
      elim (Bool-cases (ltb (u64 (offset + 2 * fst_hash_chunk)) size)) [
        | inr ends ↦
            file_loop-ends fuel io size offset lastpos h ends
            ∙ ap some (sym (string_loop-ends fuel content size offset lastpos h ends) ∙ e)
        | inl more ↦ elim (Option-cases (window content offset fst_hash_chunk)) [
          | inl w ↦ absurd (
              none-ne-some found
                (sym (string_loop-outside fuel content size offset lastpos h more w) ∙ e))
          | inr (buf, w) ↦ elim (Option-cases (fst_hash_small buf h)) [
            | inl g ↦ absurd (
                none-ne-some found
                  (sym (string_loop-fault fuel content size offset lastpos h buf more w g) ∙ e))
            | inr (g, g_is) ↦
                file_loop-more fuel io size offset lastpos h buf g more
                  (read_window-eq-window offset fst_hash_chunk (omega arith) ∙ w) g_is
                ∙ file_loop-follows fuel size _ _ g found (
                    sym (string_loop-more fuel content size offset lastpos h buf g more w g_is) ∙ e)
          ]
        ]
      ]

  -- Both functions compute the same small hash of a long file.
  file_small_lem :
      AllBelow 256 content
      → length content < 2 ^ 62
      → fst_hash_chunk < length content
      → file_small io (length content) ≡ some (some (small_crc content))
  file_small_lem bytes fits long =
      let size = length content in
      let (h, lastpos, run, inside, crc) =
        string_loop-runs content bytes fits 42 0x100000 fst_hash_chunk 0xffffffff (omega arith) long
          (omega arith) in
      let n = end_length size lastpos in
      let some_left : 0 < n = omega (arith, end_length_lem size lastpos inside fits) in
      let ending =
        read_window-eq-window (size - n) n some_left ∙ end-runs content bytes fits lastpos inside in
      let entry =
        fst_hash_small_lem (end_bytes content lastpos) h
          (end-AllBelow content bytes fits lastpos) in
      file_small-found io size (h, lastpos)
        (file_loop-follows 43 size 0x100000 fst_hash_chunk 0xffffffff (h, lastpos) run)
      ∙ file_end-found io size h lastpos (end_bytes content lastpos) _ ending entry
      ∙ ap (λ c. some (some c))
          (sym crc ∙ sym (small_crc-long content bytes fits (lt→ltb fst_hash_chunk size long)))

  head_seen : (not io.opens || (length (io.read 0 fst_hash_chunk) == 0 && not io.at_end)) ≡ false
  head_seen = elim (Bool-cases (ltb (length content) fst_hash_chunk)) [
    | inl short ↦ rw serves.open_file (
        rw (serves.sees_end (ltb→lt (length content) fst_hash_chunk short))
          (and_false (length (io.read 0 fst_hash_chunk) == 0)))
    | inr long ↦
        let full : length (io.read 0 fst_hash_chunk) ≡ fst_hash_chunk =
          ap length (serves.reads 0 fst_hash_chunk)
          ∙ omega (
            arith,
            length-take fst_hash_chunk content,
            ltb→ge (length content) fst_hash_chunk long,
          ) in
        rw serves.open_file (rw full refl)
  ]

  module _ (md5 : List ℕ → List ℕ) where
    -- On an open file that serves its bytes, fewer than 2 ^ 62 and each below 256, `fst_hash_file` succeeds, and with
    -- the hash that `fst_hash_string` computes of the bytes.
    pub fst_hash_file-eq-fst_hash_string :
        AllBelow 256 content
        → length content < 2 ^ 62
        → (hash : List ℕ) × (fst_hash_string md5 content (length content) ≡ some hash)
          × (fst_hash_file md5 io (length content) ≡ hashed hash)
    unfolding fst_hash_file
    fst_hash_file-eq-fst_hash_string bytes fits =
        let size = length content in
        let first : io.read 0 fst_hash_chunk ≡ take fst_hash_chunk content =
          serves.reads 0 fst_hash_chunk in
        (
          append_small (md5 (take fst_hash_chunk content)) (small_crc content) size,
          fst_hash_string-runs content bytes fits md5,
          rw head_seen (elim (Bool-cases (ltb fst_hash_chunk size)) [
            | inl long ↦
                rw long
                  (rw (file_small_lem bytes fits (ltb→lt fst_hash_chunk size long)) (rw first refl))
            | inr short ↦ rw short (rw first (rw (small_crc-short content bytes fits short) refl))
          ]),
        )
