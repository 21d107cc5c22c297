-- ===== src/Framing/Hdlc/Tests.antt =====
-- The HDLC framer at concrete payloads.
use omnimodem.Base.{ℕ, ◌≡◌, List, [], ◌∷◌, arith}
use omnimodem.Framing.Hdlc.{hdlc_deframe}
use omnimodem.Framing.Hdlc.RoundTrip.{hdlc_stream, non_empty, hdlc_deframe-hdlc_stream}

abbrev payloads : List (List ℕ)
payloads = (0xFF ∷ 0x7E ∷ []) ∷ [] ∷ (1 ∷ []) ∷ []

hdlc_deframe-hdlc_stream_example : hdlc_deframe (hdlc_stream payloads) ≡ non_empty payloads
hdlc_deframe-hdlc_stream_example =
    hdlc_deframe-hdlc_stream payloads
      ((omega arith, (omega arith, tt)), (tt, ((omega arith, tt), tt)))
