-- ===== src/FstHash/Failures.antt =====
-- `fst_hash_file` on a file that may fail at any seek or read, and `fst_hash_checksum`.
