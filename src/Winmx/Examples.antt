-- ===== src/Winmx/Examples.antt =====
-- The theorems on the WinMX scrambling at concrete inputs, and a test.
use addnas_mldonkey.Base.{ℕ, ◌≡◌, refl, arith, some, List, [], ◌∷◌, length}
use addnas_mldonkey.Winmx.{
  winmx_encode, encode_rounds, mix_head, xor_byte, xor_with, forward, to_int, winmx_decode,
}
use addnas_mldonkey.Winmx.Laws.{winmx_decode-winmx_encode, winmx_encode_one}

winmx_abc : winmx_encode 3 (1 ∷ 2 ∷ 3 ∷ []) ≡ some (2 ∷ 3 ∷ 2 ∷ [])
unfolding winmx_encode encode_rounds mix_head xor_byte xor_with forward to_int
winmx_abc = refl

winmx_decode-winmx_encode_example :
    (out : List ℕ) × (winmx_encode 3 (1 ∷ 2 ∷ 3 ∷ 9 ∷ []) ≡ some out)
    × (winmx_decode 3 out ≡ some (1 ∷ 2 ∷ 3 ∷ 9 ∷ []))
    × (length out ≡ 4)
winmx_decode-winmx_encode_example =
    winmx_decode-winmx_encode 3 (1 ∷ 2 ∷ 3 ∷ 9 ∷ []) (omega arith) (omega arith) (omega arith)

winmx_encode_one_example : winmx_encode 1 (65 ∷ []) ≡ some (0 ∷ [])
winmx_encode_one_example = winmx_encode_one 65
