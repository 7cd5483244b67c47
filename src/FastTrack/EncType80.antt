-- ===== src/FastTrack/EncType80.antt =====
-- networks/fasttrack/enc_type_80.c, the key mixing of encryption type 0x80.
pub mod Minor
pub mod Minor74
pub mod Minor75
pub mod Major1
pub mod Major2
pub mod Major3
pub mod Major4
pub mod Major5
pub mod Major6
pub mod Major7
pub mod Major8
pub mod Major9
pub mod Major10
pub mod Major11
pub mod Major12
pub mod Major13
pub mod Major14
pub mod Major15
pub mod Major16
pub mod Major17
pub mod Major18
pub mod Major19
pub mod Major20
pub mod Major21
pub mod Major0
pub mod Bounds
use addnas_mldonkey.Base.{ℕ, Option, none, some, List}
use addnas_mldonkey.FastTrack.Mix.{Mix}
use addnas_mldonkey.FastTrack.EncType80.Major0.{major_0}

-- `enc_type_80 (pad, seed)`; `none` is an access outside `pad`.
unfoldable pub enc_type_80 : List ℕ → ℕ → Option (List ℕ)
enc_type_80 pad seed = elim (major_0 (record { words = pad; word = seed })) [
  | none ↦ none
  | some (returned, m) ↦ some m.words
]
