-- ===== src/FstHash/Examples.antt =====
-- The theorems on the FastTrack hash at concrete inputs, and tests.
use addnas_mldonkey.Base.{
  bit_and, bit_xor, ◌%◌, ℕ, zero, suc, ◌^◌, ◌<◌, ◌≡◌, refl, arith, true, false, some, List, [], ◌∷◌,
  ◌++◌, length, take, drop, replicate, length-replicate, ltb, AllBelow,
}
use addnas_mldonkey.FstHash.{
  fst_hash_checksum, FileIo, hashed, fst_hash_chunk, fst_hash_small, fst_hash_string, fst_hash_file,
}
use addnas_mldonkey.FstHash.Crc.{crc_bytes, crc_bits, crc_bit, fst_hash_small_lem}
use addnas_mldonkey.FstHash.Checksum.{ccitt_bytes, ccitt_bits, ccitt_bit, fst_hash_checksum_lem}
use addnas_mldonkey.FstHash.Digest.{low_first}
use addnas_mldonkey.FstHash.Bounds.{small_crc, fst_hash_string_lem}
use addnas_mldonkey.FstHash.Agreement.{Serves, fst_hash_file-eq-fst_hash_string}

-- A stand-in for MD5, of the same size.
abbrev md5 : List ℕ → List ℕ
md5 b = take 16 (b ++ replicate 16 0)

abbrev digits : List ℕ
digits = 0x31 ∷ 0x32 ∷ 0x33 ∷ 0x34 ∷ 0x35 ∷ 0x36 ∷ 0x37 ∷ 0x38 ∷ 0x39 ∷ []

-- The check value of CRC-32, before its last complement.
check_value : crc_bytes digits 0xffffffff ≡ 0x340bc6d9
unfolding crc_bytes crc_bits crc_bit
check_value = refl

replicate-AllBelow : (n x : ℕ) → x < 256 → AllBelow 256 (replicate n x)
replicate-AllBelow zero x h = tt
replicate-AllBelow (suc n) x h = (h, replicate-AllBelow n x h)

replicate-size : (n x : ℕ) → n < 2 ^ 62 → length (replicate n x) < 2 ^ 62
replicate-size n x h = omega (arith, length-replicate n x)

-- Windows at 2 ^ 20, 2 ^ 21 and 2 ^ 22 and the end are hashed.
unfoldable long_file : List ℕ
long_file = replicate 8000000 7

long_size : length long_file < 2 ^ 62
unfolding long_file
long_size = replicate-size 8000000 7 (omega arith)

long_bytes : AllBelow 256 long_file
unfolding long_file
long_bytes = replicate-AllBelow 8000000 7 (omega arith)

fst_hash_small_example : fst_hash_small digits 0xffffffff ≡ some (crc_bytes digits 0xffffffff)
fst_hash_small_example = fst_hash_small_lem digits 0xffffffff (omega arith)

fst_hash_string_example :
    fst_hash_string md5 long_file (length long_file)
    ≡ some (
        take 16 (md5 (take fst_hash_chunk long_file))
        ++ low_first 4 (bit_xor (small_crc long_file) (length long_file % 2 ^ 32)))
fst_hash_string_example = fst_hash_string_lem long_file long_bytes long_size md5

abbrev disk : FileIo
disk = record {
  opens = true;
  at_end = ltb (length digits) fst_hash_chunk;
  seek = λ offset. true;
  read = λ offset n. take n (drop offset digits);
}

disk-Serves : Serves disk digits
disk-Serves = record {
  open_file = refl;
  seeks = λ offset. refl;
  reads = λ offset n. refl;
  sees_end = λ h. refl;
}

fst_hash_file-eq-fst_hash_string_example :
    (hash : List ℕ) × (fst_hash_string md5 digits (length digits) ≡ some hash)
    × (fst_hash_file md5 disk (length digits) ≡ hashed hash)
fst_hash_file-eq-fst_hash_string_example =
    fst_hash_file-eq-fst_hash_string disk digits disk-Serves md5 (omega arith) (omega arith)

-- A disk that gives zeros, and whose seeks fail from 2 ^ 21 on.
abbrev bad_disk : FileIo
bad_disk = record {
  opens = true;
  at_end = false;
  seek = λ offset. ltb offset 0x200000;
  read = λ offset n. replicate n 0;
}

-- The check value of CRC-16.
ccitt_check_value : ccitt_bytes digits 0 ≡ 0x31c3
unfolding ccitt_bytes ccitt_bits ccitt_bit
ccitt_check_value = refl

fst_hash_checksum_example :
    (fst_hash_checksum (digits ++ digits ++ digits)
      ≡ some (bit_and (ccitt_bytes (take 20 (digits ++ digits ++ digits)) 0) 0x3fff))
    × (bit_and (ccitt_bytes (take 20 (digits ++ digits ++ digits)) 0) 0x3fff < 2 ^ 14)
fst_hash_checksum_example =
    fst_hash_checksum_lem (digits ++ digits ++ digits) (omega arith) (omega arith)
