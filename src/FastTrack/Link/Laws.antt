-- ===== src/FastTrack/Link/Laws.antt =====
-- What one side writes into a packet the other reads, and the block cipher undoes itself.
use addnas_mldonkey.Base.{
  ℕ, ◌+◌, ◌%◌, ◌^◌, ◌≤◌, ◌<◌, ◌≡◌, ◌⊎◌, inl, ap, ◌∙◌, arith, some, List, shr, get_elem?, set,
  length, get_elem?-set_self, get_elem?-set_ne, length-set, set?-eq-set,
}
use addnas_mldonkey.FastTrack.Seed.Laws.{mangle_enc_type_undo}
use addnas_mldonkey.FastTrack.Cipher.{Cipher}
use addnas_mldonkey.FastTrack.Link.{put_word, get_word, packet_set, packet_get}

-- A word that fits the string is written without a fault and read back; elsewhere nothing changes.
record Written (s : List ℕ) (pos word : ℕ) (s' : List ℕ) : Type 0 where
  size : length s' ≡ length s
  reads : get_word s' pos ≡ some word
  elsewhere : (j : ℕ) → (j < pos) ⊎ (pos + 4 ≤ j) → get_elem? s' j ≡ get_elem? s j

put_word-Written :
    (s : List ℕ) (pos word : ℕ)
    → pos + 4 ≤ length s
    → word < 2 ^ 32
    → (s' : List ℕ) × (put_word s pos word ≡ some s') × Written s pos word s'
unfolding put_word get_word
put_word-Written s pos word h fits =
    let b0 = shr word 24 % 256 in
    let b1 = shr word 16 % 256 in
    let b2 = shr word 8 % 256 in
    let b3 = word % 256 in
    let s1 = set s pos b0 in
    let s2 = set s1 (pos + 1) b1 in
    let s3 = set s2 (pos + 2) b2 in
    let s4 = set s3 (pos + 3) b3 in
    let z1 : length s1 ≡ length s = length-set s pos b0 in
    let z2 : length s2 ≡ length s = length-set s1 (pos + 1) b1 ∙ z1 in
    let z3 : length s3 ≡ length s = length-set s2 (pos + 2) b2 ∙ z2 in
    let z4 : length s4 ≡ length s = length-set s3 (pos + 3) b3 ∙ z3 in
    (
      s4,
      rw (set?-eq-set s pos b0 (omega arith), put_word)
          (rw (set?-eq-set s1 (pos + 1) b1 (omega arith)) (
            rw (set?-eq-set s2 (pos + 2) b2 (omega arith))
              (set?-eq-set s3 (pos + 3) b3 (omega arith)))),
      record {
        size = z4;
        reads =
            rw
              (
                get_elem?-set_ne s3 (pos + 3) pos b3 (omega arith)
                    ∙ get_elem?-set_ne s2 (pos + 2) pos b2 (omega arith)
                    ∙ get_elem?-set_ne s1 (pos + 1) pos b1 (omega arith)
                    ∙ get_elem?-set_self s pos b0 (omega arith),
                get_word,
              )
              (rw
                (get_elem?-set_ne s3 (pos + 3) (pos + 1) b3 (omega arith)
                  ∙ get_elem?-set_ne s2 (pos + 2) (pos + 1) b2 (omega arith)
                  ∙ get_elem?-set_self s1 (pos + 1) b1 (omega arith))
                (rw
                  (get_elem?-set_ne s3 (pos + 3) (pos + 2) b3 (omega arith)
                    ∙ get_elem?-set_self s2 (pos + 2) b2 (omega arith))
                  (rw (get_elem?-set_self s3 (pos + 3) b3 (omega arith)) (ap some (omega arith)))));
        elsewhere = λ j o.
            get_elem?-set_ne s3 (pos + 3) j b3 (omega arith)
            ∙ get_elem?-set_ne s2 (pos + 2) j b2 (omega arith)
            ∙ get_elem?-set_ne s1 (pos + 1) j b1 (omega arith)
            ∙ get_elem?-set_ne s pos j b0 (omega arith);
      },
    )

-- Where nothing was written a word reads as before.
get_word_cong :
    (s t : List ℕ) (pos : ℕ)
    → ((j : ℕ) → pos ≤ j → j < pos + 4 → get_elem? t j ≡ get_elem? s j)
    → get_word t pos ≡ get_word s pos
unfolding get_word
get_word_cong s t pos h =
    rw (h pos (omega arith) (omega arith), get_word)
      (rw (
        h (pos + 1) (omega arith) (omega arith),
        h (pos + 2) (omega arith) (omega arith),
        h (pos + 3) (omega arith) (omega arith),
      ))

-- Where eight bytes of the string are left, the 32-bit seed and the 32-bit encryption type that `ml_cipher_packet_set` writes are those that
-- `ml_cipher_packet_get` reads from the same position, and the string keeps its length.
pub packet_get-packet_set :
    (c in_cipher : Cipher) (s : List ℕ) (pos : ℕ)
    → pos + 8 ≤ length s
    → c.seed < 2 ^ 32
    → c.enc_type < 2 ^ 32
    → (s' : List ℕ) × (packet_set c s pos ≡ some s')
      × (length s' ≡ length s)
      × (packet_get s' pos in_cipher
          ≡ some (record in_cipher { seed = c.seed; enc_type = c.enc_type }))
unfolding packet_set packet_get
packet_get-packet_set c in_cipher s pos h fits fits_type =
    let (mangled, there, back, small) = mangle_enc_type_undo c.seed c.enc_type fits_type in
    let (s1, e1, w1) = put_word-Written s pos c.seed (omega arith) fits in
    let (s2, e2, w2) = put_word-Written s1 (pos + 4) mangled (omega (arith, w1.size)) small in
    let seed_kept =
      get_word_cong s1 s2 pos (λ j lo hi. w2.elsewhere j (inl (omega arith))) ∙ w1.reads in
    (
      s2,
      rw (e1, packet_set) (rw there e2),
      w2.size ∙ w1.size,
      rw (seed_kept, packet_get) (rw w2.reads (rw back)),
    )
