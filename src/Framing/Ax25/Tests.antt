-- ===== src/Framing/Ax25/Tests.antt =====
-- The AX.25 framer at a concrete frame.
use omnimodem.Base.{◌≡◌, refl, [], ◌∷◌, some, arith}
use omnimodem.Framing.Ax25.{
  Address, Ax25Frame, encode, decode, trim_end, decode_addresses, max_rounds,
}
use omnimodem.Framing.Ax25.Addresses.{IsValid}
use omnimodem.Framing.Ax25.RoundTrip.{IsFrame, decode-encode, decode_addresses_rounds}

abbrev station : Address
station = record { call = b'N' ∷ b'0' ∷ b'C' ∷ []; ssid = 7 }

station-IsValid : IsValid station
unfolding trim_end
station-IsValid = record {
  short = omega arith;
  ascii = (omega arith, (omega arith, (omega arith, tt)));
  trimmed = refl;
  small = omega arith;
}

abbrev frame : Ax25Frame
frame = record {
  dest = station;
  source = station;
  digipeaters = station ∷ station ∷ [];
  info = 0x21 ∷ 0xFF ∷ [];
}

frame-IsFrame : IsFrame frame
frame-IsFrame = record {
  dest_valid = station-IsValid;
  source_valid = station-IsValid;
  digipeaters_valid = (station-IsValid, (station-IsValid, tt));
  at_most_nine = omega arith;
}

decode-encode_example : decode (encode frame) ≡ some frame
decode-encode_example = decode-encode frame frame-IsFrame

decode_addresses_rounds_example :
    decode_addresses 40 0 (encode frame) ≡ decode_addresses max_rounds 0 (encode frame)
decode_addresses_rounds_example = decode_addresses_rounds 40 (encode frame) (omega arith)
