-- ===== src/FastTrack/EncType20.antt =====
-- networks/fasttrack/enc_type_20.c, the key mixing of encryption type 0x20.
pub mod Minor
pub mod Minor36
pub mod Minor37
pub mod Major1
pub mod Major2
pub mod Major3
pub mod Major4
pub mod Major5
pub mod Major6
pub mod Major7
pub mod Major8
pub mod Major9
pub mod Major10
pub mod Major11
pub mod Major12
pub mod Major13
pub mod Major14
pub mod Major15
pub mod Major16
pub mod Major17
pub mod Major18
pub mod Major19
pub mod Major21
pub mod Major22
pub mod Major23
pub mod Major24
pub mod Major25
pub mod Mixing
pub mod Bounds
use addnas_mldonkey.Base.{ℕ, Option, none, some, List}
use addnas_mldonkey.FastTrack.Mix.{Mix}
use addnas_mldonkey.FastTrack.EncType20.Mixing.{mix}

-- `enc_type_20 (pad, seed)`; `none` is an access outside `pad`.
unfoldable pub enc_type_20 : List ℕ → ℕ → Option (List ℕ)
enc_type_20 pad seed = elim (mix (record { words = pad; word = seed })) [
  | none ↦ none
  | some (returned, m) ↦ some m.words
]
