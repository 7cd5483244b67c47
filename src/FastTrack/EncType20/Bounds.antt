-- ===== src/FastTrack/EncType20/Bounds.antt =====
-- `enc_type_20` stays inside its array.
use addnas_mldonkey.Base.{ℕ, ◌^◌, ◌<◌, ◌≡◌, some, List, length, AllBelow}
use addnas_mldonkey.FastTrack.EncType20.{enc_type_20}
use addnas_mldonkey.FastTrack.EncType20.Mixing.{mix-SafeFlow}

-- On twenty 32-bit words and a 32-bit seed, `enc_type_20` returns, accesses nothing outside the array,
-- and leaves twenty 32-bit words.
pub enc_type_20-runs :
    (pad : List ℕ) (seed : ℕ)
    → length pad ≡ 20
    → AllBelow (2 ^ 32) pad
    → seed < 2 ^ 32
    → (out : List ℕ) × (enc_type_20 pad seed ≡ some out) × (length out ≡ 20) × AllBelow (2 ^ 32) out
unfolding enc_type_20
enc_type_20-runs pad seed size fit fits =
    let (returned, m, e, v) =
      mix-SafeFlow.runs (record { words = pad; word = seed })
        (record { size = size; fit = fit; fits = fits }) in
    (m.words, rw (e, enc_type_20), v.size, v.fit)
