-- ===== src/FastTrack/EncType80/Bounds.antt =====
-- `enc_type_80` stays inside its array.
use addnas_mldonkey.Base.{ℕ, ◌^◌, ◌<◌, ◌≡◌, some, List, length, AllBelow}
use addnas_mldonkey.FastTrack.EncType80.{enc_type_80}
use addnas_mldonkey.FastTrack.EncType80.Major0.{major_0-SafeFlow}

-- On twenty 32-bit words and a 32-bit seed, `enc_type_80` returns, accesses nothing outside the array,
-- and leaves twenty 32-bit words.
pub enc_type_80-runs :
    (pad : List ℕ) (seed : ℕ)
    → length pad ≡ 20
    → AllBelow (2 ^ 32) pad
    → seed < 2 ^ 32
    → (out : List ℕ) × (enc_type_80 pad seed ≡ some out) × (length out ≡ 20) × AllBelow (2 ^ 32) out
unfolding enc_type_80
enc_type_80-runs pad seed size fit fits =
    let (returned, m, e, v) =
      major_0-SafeFlow.runs (record { words = pad; word = seed })
        (record { size = size; fit = fit; fits = fits }) in
    (m.words, rw (e, enc_type_80), v.size, v.fit)
