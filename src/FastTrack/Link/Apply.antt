-- ===== src/FastTrack/Link/Apply.antt =====
-- Encryption in place of a part of a string.
use addnas_mldonkey.Base.{
  ℕ, ◌+◌, ◌≤◌, ◌≡◌, ap, ap₂, ◌∙◌, arith, some, List, ◌++◌, take, drop, length, length-append,
  length-take, length-drop, take-append, drop-append, take-append-drop,
}
use addnas_mldonkey.FastTrack.Primitives.{Primitives}
use addnas_mldonkey.FastTrack.Cipher.{Cipher, crypt}
use addnas_mldonkey.FastTrack.Cipher.Stream.{IsCipher, crypt_undo}
use addnas_mldonkey.FastTrack.Link.{apply_cipher}

module _ (lib : Primitives) where
  -- What a call gives once the part is encrypted.
  apply_cipher_lem :
      (c c' : Cipher) (s out : List ℕ) (pos len : ℕ)
      → pos + len ≤ length s
      → crypt lib c (take len (drop pos s)) ≡ some (out, c')
      → apply_cipher lib c s pos len ≡ some (take pos s ++ (out ++ drop len (drop pos s)), c')
  unfolding apply_cipher
  apply_cipher_lem c c' s out pos len h e = rw (e, apply_cipher) (ground arith)

  -- From a well-formed cipher, a part that fits the string is encrypted in place without a fault,
  -- and a well-formed cipher is left. The same call from the same cipher restores the string. What
  -- stands before and behind the part stays as it was.
  pub apply_cipher_undo :
      (c : Cipher) (s : List ℕ) (pos len : ℕ)
      → IsCipher c
      → pos + len ≤ length s
      → (s' : List ℕ) × (c' : Cipher) × (apply_cipher lib c s pos len ≡ some (s', c'))
        × (apply_cipher lib c s' pos len ≡ some (s, c'))
        × (take pos s' ≡ take pos s)
        × (drop len (drop pos s') ≡ drop len (drop pos s))
        × IsCipher c'
  apply_cipher_undo c s pos len v h =
      let before = take pos s in
      let block = take len (drop pos s) in
      let rest = drop len (drop pos s) in
      let (coded, c', there, back, size, v') = crypt_undo lib c block v in
      let s' = before ++ (coded ++ rest) in
      let size_before : length before ≡ pos = omega (arith, length-take pos s) in
      let size_block : length block ≡ len =
        omega (arith, length-take len (drop pos s), length-drop pos s) in
      let kept : take pos s' ≡ before = take-append pos before (coded ++ rest) size_before in
      let tail : drop pos s' ≡ coded ++ rest = drop-append pos before (coded ++ rest) size_before in
      let part : take len (drop pos s') ≡ coded =
        ap (λ t. take len t) tail ∙ take-append len coded rest (size ∙ size_block) in
      let behind : drop len (drop pos s') ≡ rest =
        ap (λ t. drop len t) tail ∙ drop-append len coded rest (size ∙ size_block) in
      let whole : before ++ (block ++ rest) ≡ s =
        ap (λ t. before ++ t) (take-append-drop len (drop pos s)) ∙ take-append-drop pos s in
      let fits : pos + len ≤ length s' =
        omega (arith, length-append before (coded ++ rest), length-append coded rest) in
      (
        s',
        c',
        apply_cipher_lem c c' s coded pos len h there,
        apply_cipher_lem c c' s' block pos len fits (rw part back)
            ∙ ap₂ (λ t u. some (t ++ (block ++ u), c')) kept behind
            ∙ ap (λ t. some (t, c')) whole,
        kept,
        behind,
        v',
      )
