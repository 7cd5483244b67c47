-- ===== src/FstHash/Bounds.antt =====
-- `fst_hash_string`: no read leaves the file, the loop ends, and which bytes the small hash covers.
use addnas_mldonkey.Base.{
  ◌%◌, bit_xor, ℕ, zero, suc, ◌+◌, ◌-◌, ◌*◌, ◌^◌, ◌<◌, ◌≤◌, ◌≡◌, refl, sym, ap, ap₂, ◌∙◌, arith,
  min, some, List, ◌++◌, length, take, drop, length-drop, take_all, ltb, lt→ltb, ge→ltb, ltb→ge,
  ltb→lt, if◌then◌else◌, AllBelow, take-AllBelow, drop-AllBelow, Bool-cases, inl, inr, true, false,
}
use native.Mathlib.Nat.{pow-suc}
use addnas_mldonkey.FstHash.{
  fst_hash_chunk, u64, window, append_small, string_loop, end_length, string_small, fst_hash_small,
  fst_hash_string,
}
use addnas_mldonkey.FstHash.Digest.{low_first, append_small_lem}
use addnas_mldonkey.FstHash.Crc.{crc_bytes, fst_hash_small_lem, crc_bytes-append}

-- The last 307,200 bytes of a file, or what is left of it after `lastpos`.
unfoldable pub end_bytes : List ℕ → ℕ → List ℕ
end_bytes file lastpos = drop (length file - min fst_hash_chunk (length file - lastpos)) file

-- The bytes that the small hash covers, at most `n` windows of them: 307,200 at `offset`, at twice
-- `offset` and so on, while two windows still fit, and the end of the file.
unfoldable pub samples : ℕ → List ℕ → ℕ → ℕ → List ℕ
samples zero file offset lastpos = end_bytes file lastpos
samples (suc n) file offset lastpos =
    let rest = samples n file (offset * 2) (offset + fst_hash_chunk) in
    if ltb (offset + 2 * fst_hash_chunk) (length file)
    then take fst_hash_chunk (drop offset file) ++ rest
    else end_bytes file lastpos

window-runs :
    (file : List ℕ) (offset n : ℕ)
    → offset + n ≤ length file
    → window file offset n ≡ some (take n (drop offset file))
unfolding window
window-runs file offset n h = ground arith

pub end_length_lem :
    (size lastpos : ℕ)
    → lastpos < size
    → size < 2 ^ 62
    → end_length size lastpos ≡ min fst_hash_chunk (size - lastpos)
unfolding end_length
end_length_lem size lastpos h hs =
    let e : u64 (size + 2 ^ 64 - lastpos) ≡ size - lastpos = omega arith in rw e (ground arith)

module _ (fuel : ℕ) (file : List ℕ) (size offset lastpos h : ℕ) where
  pub string_loop-ends :
      ltb (u64 (offset + 2 * fst_hash_chunk)) size ≡ false
      → string_loop (suc fuel) file size offset lastpos h ≡ some (h, lastpos)
  unfolding string_loop
  string_loop-ends e = rw e refl

  pub string_loop-more :
      (buf : List ℕ) (g : ℕ)
      → ltb (u64 (offset + 2 * fst_hash_chunk)) size ≡ true
      → window file offset fst_hash_chunk ≡ some buf
      → fst_hash_small buf h ≡ some g
      → string_loop (suc fuel) file size offset lastpos h
        ≡ string_loop fuel file size (u64 (offset * 2)) (u64 (offset + fst_hash_chunk)) g
  unfolding string_loop
  string_loop-more buf g e w s = rw e (rw w (rw s refl))

-- What the small hash of a file is: nothing hashed up to 307,200 bytes, else the samples.
unfoldable pub small_crc : List ℕ → ℕ
small_crc file =
    if ltb fst_hash_chunk (length file)
    then crc_bytes (samples 43 file 0x100000 fst_hash_chunk) 0xffffffff
    else 0xffffffff

module _ (n : ℕ) (file : List ℕ) (offset lastpos : ℕ) where
  samples-ends :
      ltb (offset + 2 * fst_hash_chunk) (length file) ≡ false
      → samples (suc n) file offset lastpos ≡ end_bytes file lastpos
  unfolding samples
  samples-ends e = rw e refl

  samples-more :
      ltb (offset + 2 * fst_hash_chunk) (length file) ≡ true
      → samples (suc n) file offset lastpos
        ≡ take fst_hash_chunk (drop offset file)
          ++ samples n file (offset * 2) (offset + fst_hash_chunk)
  unfolding samples
  samples-more e = rw e refl

module _ (file : List ℕ) (bytes : AllBelow 256 file) (fits : length file < 2 ^ 62) where
  test :
      (offset : ℕ)
      → offset < 2 ^ 63
      → ltb (u64 (offset + 2 * fst_hash_chunk)) (length file)
        ≡ ltb (offset + 2 * fst_hash_chunk) (length file)
  test offset small =
      let e : u64 (offset + 2 * fst_hash_chunk) ≡ offset + 2 * fst_hash_chunk = omega arith in
      ap (λ (t : ℕ). ltb t (length file)) e

  -- Fuel for the windows left is enough: an offset doubles in each round.
  pub string_loop-runs :
      (fuel offset lastpos h : ℕ)
      → offset < 2 ^ 63
      → lastpos < length file
      → length file ≤ offset * 2 ^ fuel
      → (h' : ℕ) × (lastpos' : ℕ) × (string_loop (suc fuel) file (length file) offset lastpos h
          ≡ some (h', lastpos'))
        × (lastpos' < length file)
        × (crc_bytes (samples (suc fuel) file offset lastpos) h
            ≡ crc_bytes (end_bytes file lastpos') h')
  string_loop-runs zero offset lastpos h small inside enough =
      let ends = ge→ltb (offset + 2 * fst_hash_chunk) (length file) (omega arith) in
      (
        h,
        lastpos,
        string_loop-ends zero file (length file) offset lastpos h (test offset small ∙ ends),
        inside,
        ap (λ bs. crc_bytes bs h) (samples-ends zero file offset lastpos ends),
      )
  string_loop-runs (suc fuel) offset lastpos h small inside enough =
      elim (Bool-cases (ltb (offset + 2 * fst_hash_chunk) (length file))) [
        | inl more ↦
            let lt = ltb→lt (offset + 2 * fst_hash_chunk) (length file) more in
            let buf = take fst_hash_chunk (drop offset file) in
            let e1 : u64 (offset * 2) ≡ offset * 2 = omega arith in
            let e2 : u64 (offset + fst_hash_chunk) ≡ offset + fst_hash_chunk = omega arith in
            let doubled : offset * 2 ^ suc fuel ≡ offset * 2 * 2 ^ fuel =
              omega (arith, ap (λ (t : ℕ). offset * t) (pow-suc 2 fuel)) in
            let buf_bytes =
              take-AllBelow 256 fst_hash_chunk _ (drop-AllBelow 256 offset file bytes) in
            let (h', lastpos', run, inside', crc) =
              string_loop-runs fuel (offset * 2) (offset + fst_hash_chunk) (crc_bytes buf h)
                (omega arith) (omega arith) (omega (arith, enough, doubled)) in
            (
              h',
              lastpos',
              string_loop-more (suc fuel) file (length file) offset lastpos h buf (crc_bytes buf h)
                    (test offset small ∙ more)
                    (window-runs file offset fst_hash_chunk (omega arith))
                    (fst_hash_small_lem buf h buf_bytes)
                  ∙ ap₂ (λ o l. string_loop (suc fuel) file (length file) o l (crc_bytes buf h)) e1
                      e2
                  ∙ run,
              inside',
              ap (λ bs. crc_bytes bs h) (samples-more (suc fuel) file offset lastpos more)
                  ∙ crc_bytes-append buf _ h
                  ∙ crc,
            )
        | inr ends ↦ (
          h,
          lastpos,
          string_loop-ends (suc fuel) file (length file) offset lastpos h
              (test offset small ∙ ends),
          inside,
          ap (λ bs. crc_bytes bs h) (samples-ends (suc fuel) file offset lastpos ends),
        )
      ]

  -- The last window is read, and to the end of the file.
  pub end-runs :
      (lastpos : ℕ)
      → lastpos < length file
      → window file
          (length file - end_length (length file) lastpos)
          (end_length (length file) lastpos)
        ≡ some (end_bytes file lastpos)
  unfolding end_bytes
  end-runs lastpos inside =
      let n = min fst_hash_chunk (length file - lastpos) in
      rw (end_length_lem (length file) lastpos inside fits) (
        window-runs file (length file - n) n (omega arith)
        ∙ ap some (
            take_all n (drop (length file - n) file)
              (omega (arith, length-drop (length file - n) file))))

  pub end-AllBelow : (lastpos : ℕ) → AllBelow 256 (end_bytes file lastpos)
  unfolding end_bytes
  end-AllBelow lastpos = drop-AllBelow 256 _ file bytes

  string_small_lem :
      fst_hash_chunk < length file → string_small file (length file) ≡ some (small_crc file)
  unfolding string_small small_crc
  string_small_lem long =
      let (h, lastpos, run, inside, crc) =
        string_loop-runs 42 0x100000 fst_hash_chunk 0xffffffff (omega arith) long (omega arith) in
      rw (lt→ltb fst_hash_chunk (length file) long) (
        rw run (
          rw (end-runs lastpos inside)
            (fst_hash_small_lem _ h (end-AllBelow lastpos) ∙ ap some (sym crc))))

  pub small_crc-long :
      ltb fst_hash_chunk (length file) ≡ true
      → small_crc file ≡ crc_bytes (samples 43 file 0x100000 fst_hash_chunk) 0xffffffff
  unfolding small_crc
  small_crc-long long = rw long refl

  pub small_crc-short : ltb fst_hash_chunk (length file) ≡ false → small_crc file ≡ 0xffffffff
  unfolding small_crc
  small_crc-short short = rw short refl

  module _ (md5 : List ℕ → List ℕ) where
    pub fst_hash_string-runs :
        fst_hash_string md5 file (length file)
        ≡ some (append_small (md5 (take fst_hash_chunk file)) (small_crc file) (length file))
    unfolding fst_hash_string
    fst_hash_string-runs = elim (Bool-cases (ltb fst_hash_chunk (length file))) [
      | inl long ↦
          let lt = ltb→lt fst_hash_chunk (length file) long in
          rw long
            (rw (window-runs file 0 fst_hash_chunk (omega arith)) (rw (string_small_lem lt) refl))
      | inr short ↦
          let le : length file ≤ fst_hash_chunk = ltb→ge fst_hash_chunk (length file) short in
          rw short (
            rw (window-runs file 0 (length file) (omega arith)) (
              ap₂ (λ head small. some (append_small (md5 head) small (length file)))
                (take_all (length file) file (omega arith) ∙ sym (take_all fst_hash_chunk file le))
                (sym (small_crc-short short))))
    ]

    -- On a file of fewer than 2 ^ 62 bytes, each below 256, and with its size given, `fst_hash_string`
    -- reads inside the file and returns; its result is the 16 bytes of the digest of the first
    -- 307,200 bytes, and then, the lowest byte first, the CRC-32 of the samples of the file xored with
    -- the lower 32 bits of the size.
    pub fst_hash_string_lem :
        fst_hash_string md5 file (length file)
        ≡ some (
            take 16 (md5 (take fst_hash_chunk file))
            ++ low_first 4 (bit_xor (small_crc file) (length file % 2 ^ 32)))
    fst_hash_string_lem =
        fst_hash_string-runs
        ∙ ap some (append_small_lem (md5 (take fst_hash_chunk file)) (small_crc file) (length file))
