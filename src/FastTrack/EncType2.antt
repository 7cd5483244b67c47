-- ===== src/FastTrack/EncType2.antt =====
-- networks/fasttrack/enc_type_2.c, the key mixing of encryption type 2.
pub mod Bounds
pub mod Minor
pub mod Major0
pub mod Major1
pub mod Major2
pub mod Major3
pub mod Major4
pub mod Major5
pub mod Major6
pub mod Major7
pub mod Major8
pub mod Major9
pub mod Major10
pub mod Major11
pub mod Major12
pub mod Major13
pub mod Major14
pub mod Major15
pub mod Major16
pub mod Major17
pub mod Major18
pub mod Major19
pub mod Major20
pub mod Major21
pub mod Major22
pub mod Major23
pub mod Major24
use addnas_mldonkey.Base.{ℕ, Option, none, some, List}
use addnas_mldonkey.FastTrack.Mix.{Mix}
use addnas_mldonkey.FastTrack.EncType2.Major0.{mix_major0}

-- `enc_type_2 (key, seed)`; `none` is an access outside `key`.
unfoldable pub enc_type_2 : List ℕ → ℕ → Option (List ℕ)
enc_type_2 key seed = elim (mix_major0 (record { words = key; word = seed })) [
  | none ↦ none
  | some m ↦ some m.words
]
