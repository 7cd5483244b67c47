-- ===== src/FastTrack/EncType1/Modulus.antt =====
-- The table `modulus` of networks/fasttrack/enc_type_1.c, the lowest word first.
use addnas_mldonkey.Base.{ℕ, List, [], ◌∷◌}

unfoldable pub modulus : List ℕ
modulus =
    0xeb96841d ∷ 0x31c4a05e ∷ 0x193bbd8f ∷ 0xbf77b6d6 ∷ 0x96d7f927 ∷ 0xe569c5fc ∷ 0x5efa55ff
    ∷ 0xba1519a1 ∷ 0x1b32a36f ∷ 0xe84b25f8 ∷ 0x8d5b5eb2 ∷ 0xc11f00e3 ∷ 0x19d2974d ∷ 0xe7ee26ad
    ∷ 0xbc8c0457 ∷ 0x91fd3a9e ∷ 0x6e37192e ∷ 0xe475aa9e ∷ 0x72f554fc ∷ 0x695b3ca2 ∷ 0xf97bb445
    ∷ 0x69f29f9a ∷ 0xb15e2216 ∷ 0x390a5a36 ∷ 0x2c0054b3 ∷ 0x363dc15e ∷ 0xd238b5b8 ∷ 0xe957a9b5
    ∷ 0x32a3df ∷ 0x8781ab21 ∷ 0xa7703d8 ∷ 0x5250e6fe ∷ 0xb42d2df0 ∷ 0x10a931f8 ∷ 0x1e4970e5
    ∷ 0xc3741ca7 ∷ 0x8606342a ∷ 0xd61a7055 ∷ 0x18e4dd48 ∷ 0x829ee6d ∷ 0x8443fd05 ∷ 0xe9db6341
    ∷ 0xde3c6725 ∷ 0xa4037cdb ∷ 0x96e537a7 ∷ 0xed64060a ∷ 0xda2d7944 ∷ 0x51be98b0 ∷ 0x315d5780
    ∷ 0xb6a31787 ∷ 0x4d23ffc1 ∷ 0xdbd26bb0 ∷ 0xde7aa2fe ∷ 0x71a157ac ∷ 0x19288512 ∷ 0xd7a0050
    ∷ 0x522f69d1 ∷ 0xdd331dd5 ∷ 0x96e62735 ∷ 0xc6f2dc0e ∷ 0xae08473d ∷ 0xa532f6a ∷ 0x34eb20ca
    ∷ 0xd453ec0a ∷ []
