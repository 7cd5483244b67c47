-- ===== src/FastTrack/EncType2/Bounds.antt =====
-- The mixing of encryption type 2 is total and stays inside its key.
use addnas_mldonkey.Base.{ℕ, ◌^◌, ◌<◌, ◌≡◌, some, List, length, AllBelow}
use addnas_mldonkey.FastTrack.EncType2.{enc_type_2}
use addnas_mldonkey.FastTrack.EncType2.Major0.{mix_major0-SafeStep}

-- On twenty 32-bit words and a 32-bit seed, `enc_type_2` returns, accesses nothing outside
-- the key, and leaves twenty 32-bit words.
pub enc_type_2-runs :
    (key : List ℕ) (seed : ℕ)
    → length key ≡ 20
    → AllBelow (2 ^ 32) key
    → seed < 2 ^ 32
    → (out : List ℕ) × (enc_type_2 key seed ≡ some out) × (length out ≡ 20) × AllBelow (2 ^ 32) out
unfolding enc_type_2
enc_type_2-runs key seed size fit fits =
    let (m, e, v) =
      mix_major0-SafeStep.runs (record { words = key; word = seed })
        (record { size = size; fit = fit; fits = fits }) in
    (m.words, rw (e, enc_type_2), v.size, v.fit)
