-- ===== src/Tests/Codec.antt =====
-- The codecs at a concrete payload.
use modem2sip.Common.{◌≡◌, arith, [], ◌∷◌}
use modem2sip.Codec.{ulaw, encode, decode}
use modem2sip.Codec.Tables.{encode-decode}

encode-decode_example : encode ulaw (decode ulaw (0x12 ∷ 0xFF ∷ [])) ≡ 0x12 ∷ 0xFF ∷ []
encode-decode_example =
    encode-decode ulaw (0x12 ∷ 0xFF ∷ [])
      ((omega arith, λ e. ground arith), ((omega arith, λ e. ground arith), tt))
