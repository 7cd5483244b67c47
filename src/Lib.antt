-- ===== src/Lib.antt =====
-- Verification of the C parts of mldonkey-3.0.7.
--
-- mldonkey is a peer-to-peer client for several networks. Its core is in OCaml; what has to touch
-- bytes and machine words is in C below mldonkey-3.0.7/src, and OCaml calls it through stubs. This
-- library models those C parts. The paths below start at mldonkey-3.0.7/src.
--
-- Base holds what the parts share: tests on native numbers, C arrays as lists, unsigned arithmetic
-- with its wrap-around, laws of the bit operations, computations that may fault, counts and
-- rearrangements. In a computation `none` is an access outside an array, which C leaves undefined, and
-- in FstHash and EncType1 also the end of a loop's fuel.
--
-- FastTrack is the cipher of the FastTrack network (networks/fasttrack).
--   Mix is the language of statements in which the mixing functions are written, EncType2 the
--   functions `mix_minor*` and `mix_major*` of enc_type_2.c, a module for each major function. They
--   call one another without a cycle, so that no fuel is needed.
--   Flow adds early returns (`TRY`) and the integer functions `my_cos`, `my_sin` and `my_sqrt`;
--   EncType20 and EncType80 are enc_type_20.c and enc_type_80.c in that language, a module for each
--   function. The loop of `my_sqrt` has fuel 17, enough for its argument of one byte.
--   EncType1 is enc_type_1.c on lists of 32-bit words, the lowest first, with the table `modulus`. The
--   `while` of `big_mod` runs on fuel that is an argument: four rounds are enough where no subtraction
--   loses a borrow, and `lost` of Subtract counts what a subtraction loses. Value is the number of a
--   list of words, Estimate the quotient that a step estimates. Where borrows are lost the
--   loop still ends: Lost bounds what is lost, Ends and Divides hold for 36 rounds, and `init` takes
--   the fuel as an argument.
--   Seed is the seed generator, the mangled encryption type and the byte order of fst_crypt.c.
--   Cipher is `FSTCipher` with `fst_cipher_clock` (`clock`) and `fst_cipher_crypt` (`crypt`), Init
--   is `fst_cipher_create`, `pad_init` and `fst_cipher_init` (`init`).
--   Link is fst_crypt_ml.c, the calls of the OCaml side: packets, applying a cipher to a string.
--   Primitives names what the cipher takes as parameters: `qsort` and the MD5 of utils/lib/md5_c.c.
--   Memory is little-endian. The source writes the tables of the cipher in place; the model returns
--   the new ones.
--
-- FstHash is utils/lib/fst_hash.c: `fst_hash_small` over the table of Tables, `fst_hash_checksum`,
-- and the hash of a string (`fst_hash_string`) and of a file (`fst_hash_file`). MD5 and the library's
-- file are parameters; a file may fail at any seek or read. The loops over the windows of a file run
-- on fuel 43: the offset starts at 2 ^ 20 and doubles, so 43 rounds pass any size below 2 ^ 62. Sizes
-- are not negative, and `size_t` has 64 bits. Crc holds the CRC-32 that one table stands for,
-- Checksum the CRC-16 of the other, Bounds the samples of a file that the small hash covers.
--
-- Winmx is networks/opennap/winmx_xor_c.c, the scrambling of the WinMX protocol.
-- `to_int` is the cast of a length to `int` that bounds its loops.
--
-- Upnp is the tables of port mappings of utils/net/upnp_stubs.c: `init_maps`, `maps_add_item` and
-- `maps_remove_item`. The threads and the calls of miniupnpc and libnatpmp are left out.
--
-- Che3 is the bit stream of networks/direct_connect/che3_c.c: `get_bit`, `get_bits`, `add_bit` and
-- `add_bits`. The decoder, the Huffman tree and the encoder above it are left out.
--
-- Not modelled: the boxing of OCaml values, allocation and `free`, the debug prints, and the C code
-- that is a copy of other projects (Crypto++, the digests, zlib and GUI stubs).
pub mod Base
pub mod FastTrack
pub mod Winmx
pub mod FstHash
pub mod Upnp
pub mod Che3
