-- ===== src/FstHash.antt =====
-- utils/lib/fst_hash.c: the FastTrack hash of a file and of a string, and the checksum of a hash.
-- `size_t` has 64 bits. MD5 is a parameter. `none` is an access outside an array, or the end of
-- the fuel of a loop.
pub mod Tables
pub mod Crc
pub mod Digest
pub mod Bounds
pub mod Agreement
pub mod Failures
pub mod Checksum
mod Examples
use addnas_mldonkey.Base.{
  ℕ, zero, suc, ◌+◌, ◌-◌, ◌*◌, ◌%◌, ◌^◌, bit_and, bit_xor, Bool, true, false, ◌||◌, ◌&&◌, not,
  Option, none, some, List, [], ◌∷◌, ◌++◌, shr, get_elem?, take, drop, length, ltb, ◌==◌, ◌>>=◌,
  if◌then◌else◌,
}
use Tables.{smalltable, checksumtable}

-- `fst_hash_small`
unfoldable pub fst_hash_small : List ℕ → ℕ → Option ℕ
fst_hash_small [] smallhash = some smallhash
fst_hash_small (x ∷ xs) smallhash = do
  entry ← get_elem? smalltable (bit_xor x (bit_and smallhash 0xff))
  fst_hash_small xs (bit_xor entry (shr smallhash 8))

-- The loop of `fst_hash_checksum` over the bytes left; `sum` is an `unsigned short`.
unfoldable pub checksum_loop : List ℕ → ℕ → Option ℕ
checksum_loop [] sum = some sum
checksum_loop (x ∷ xs) sum = do
  entry ← get_elem? checksumtable (bit_xor x (shr sum 8))
  checksum_loop xs (bit_xor entry (sum * 2 ^ 8) % 2 ^ 16)

-- `fst_hash_checksum`: of the first 20 bytes.
unfoldable pub fst_hash_checksum : List ℕ → Option ℕ
fst_hash_checksum hash =
    let sum = checksum_loop (take 20 hash) 0 >>= λ s. some (bit_and s 0x3fff) in
    if ltb (length hash) 20 then none else sum

abbrev pub fst_hash_chunk : ℕ
fst_hash_chunk = 307200

abbrev pub u64 : ℕ → ℕ
u64 n = n % 2 ^ 64

-- `buf = file + offset`, `n` bytes of it
unfoldable pub window : List ℕ → ℕ → ℕ → Option (List ℕ)
window file offset n =
    if ltb (length file) (offset + n) then none else some (take n (drop offset file))

-- The digest, and behind it the small hash xored with the size, lowest byte first.
unfoldable pub append_small : List ℕ → ℕ → ℕ → List ℕ
append_small digest smallhash filesize =
    let small = bit_xor smallhash (filesize % 2 ^ 32) in
    take 16 digest
    ++ bit_and small 0xff
      ∷ bit_and (shr small 8) 0xff
      ∷ bit_and (shr small 16) 0xff
      ∷ bit_and (shr small 24) 0xff
      ∷ []

-- The loop over the windows at 0x100000, 0x200000, … of `fst_hash_string`: the small hash, and
-- where the last window ends.
unfoldable pub string_loop : ℕ → List ℕ → ℕ → ℕ → ℕ → ℕ → Option (ℕ × ℕ)
string_loop zero file filesize offset lastpos smallhash = none
string_loop (suc fuel) file filesize offset lastpos smallhash =
    let rest = λ (h : ℕ).
      string_loop fuel file filesize (u64 (offset * 2)) (u64 (offset + fst_hash_chunk)) h in
    let next = window file offset fst_hash_chunk >>= λ buf. fst_hash_small buf smallhash >>= rest in
    if ltb (u64 (offset + 2 * fst_hash_chunk)) filesize then next else some (smallhash, lastpos)

-- `endlen`
unfoldable pub end_length : ℕ → ℕ → ℕ
end_length filesize lastpos =
    let endlen = u64 (filesize + 2 ^ 64 - lastpos) in
    if ltb fst_hash_chunk endlen then fst_hash_chunk else endlen

unfoldable pub string_small : List ℕ → ℕ → Option ℕ
string_small file filesize = do
  (h, lastpos) ← string_loop 43 file filesize 0x100000 fst_hash_chunk 0xffffffff
  let endlen = end_length filesize lastpos
  buf ← window file (filesize - endlen) endlen
  fst_hash_small buf h

-- What the library answers for an open file: `fopen`, `feof` after the first read, `fseek` to an
-- offset, and `fread` of so many bytes from an offset.
pub record FileIo : Type 0 where
  pub opens : Bool
  pub at_end : Bool
  pub seek : ℕ → Bool
  pub read : ℕ → ℕ → List ℕ

-- The results of `fst_hash_file`: 0, or 1 with the hash. `stuck` is a fault or the end of fuel.
pub data FileHash : Type 0 where
  failed stuck : FileHash
  hashed : List ℕ → FileHash

-- A window of the file: `none` if `fseek` fails or `fread` is short.
unfoldable pub read_window : FileIo → ℕ → ℕ → Option (List ℕ)
read_window io offset n =
    let buf = io.read offset n in
    if not (io.seek offset) || ltb (length buf) n then none else some buf

-- The loop of `fst_hash_file`. The inner `none` is its `return 0`.
unfoldable pub file_loop : ℕ → FileIo → ℕ → ℕ → ℕ → ℕ → Option (Option (ℕ × ℕ))
file_loop zero io filesize offset lastpos smallhash = none
file_loop (suc fuel) io filesize offset lastpos smallhash =
    let rest = λ (buf : List ℕ). fst_hash_small buf smallhash >>= λ h.
    file_loop fuel io filesize (u64 (offset * 2)) (u64 (offset + fst_hash_chunk)) h in
    let next : Option (Option (ℕ × ℕ)) = elim (read_window io offset fst_hash_chunk) [
      | none ↦ some none
      | some buf ↦ rest buf
    ] in
    if ltb (u64 (offset + 2 * fst_hash_chunk)) filesize
    then next
    else some (some (smallhash, lastpos))

-- The last window of `fst_hash_file`.
unfoldable pub file_end : FileIo → ℕ → ℕ × ℕ → Option (Option ℕ)
file_end io filesize (h, lastpos) =
    let endlen = end_length filesize lastpos in
    elim (read_window io (filesize - endlen) endlen) [
      | none ↦ some none
      | some buf ↦ elim (fst_hash_small buf h) [ none ↦ none | some h' ↦ some (some h') ]
    ]

unfoldable pub file_small : FileIo → ℕ → Option (Option ℕ)
file_small io filesize = elim (file_loop 43 io filesize 0x100000 fst_hash_chunk 0xffffffff) [
  | none ↦ none
  | some none ↦ some none
  | some (some found) ↦ file_end io filesize found
]

module _ (md5 : List ℕ → List ℕ) where
  -- `fst_hash_string`
  unfoldable pub fst_hash_string : List ℕ → ℕ → Option (List ℕ)
  fst_hash_string file filesize = do
    head ← window file 0 (if ltb fst_hash_chunk filesize then fst_hash_chunk else filesize)
    small ← if ltb fst_hash_chunk filesize then string_small file filesize else some 0xffffffff
    some (append_small (md5 head) small filesize)

  -- `fst_hash_file`
  unfoldable pub fst_hash_file : FileIo → ℕ → FileHash
  fst_hash_file io filesize =
      let head = io.read 0 fst_hash_chunk in
      let small : Option (Option ℕ) =
        if ltb fst_hash_chunk filesize then file_small io filesize else some (some 0xffffffff) in
      let result : FileHash = elim small [
        | none ↦ stuck
        | some none ↦ failed
        | some (some h) ↦ hashed (append_small (md5 head) h filesize)
      ] in
      if not io.opens || (length head == 0 && not io.at_end) then failed else result
