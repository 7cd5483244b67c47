-- ===== src/FastTrack/Primitives.antt =====
-- What the cipher of networks/fasttrack/fst_crypt.c calls and takes as parameters: `qsort` of the C
-- library and the MD5 of utils/lib/md5_c.c, a copy of another project. The law is what the code
-- relies on.
use addnas_mldonkey.Base.{ℕ, List}
use Prim.Native.Nat.{Ordering}
use mathlib.Core.List.{Perm}

pub record Primitives : Type 0 where
  -- `qsort`, given the sign of the comparison: the result is a rearrangement.
  pub qsort : (ℕ → ℕ → Ordering) → List ℕ → List ℕ
  pub qsort-perm : (cmp : ℕ → ℕ → Ordering) (xs : List ℕ) → Perm (qsort cmp xs) xs
  -- The first word of the digest, as the code reads it.
  pub md5_word : List ℕ → ℕ
