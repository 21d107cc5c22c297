-- ===== src/Framing/Baudot/Tests.antt =====
-- Concrete texts.
use omnimodem.Base.{◌≡◌, refl, [], ◌∷◌}
use omnimodem.Base.Text.{codes}
use omnimodem.Framing.Baudot.{letters, find_from, push_char, encode_from, encode, decode}
use omnimodem.Framing.Baudot.RoundTrip.{transmitted, has_code, decode-encode_letters}

-- The shift is sent again behind a space, as the receiver has gone back to letters.
shift_repeated : encode (codes "a1 2") ≡ 0x03 ∷ 0x1B ∷ 0x17 ∷ 0x04 ∷ 0x1B ∷ 0x13 ∷ []
unfolding encode encode_from push_char find_from
shift_repeated = refl

received : transmitted (codes "de K1ABC ~ 73") ≡ codes "DE K1ABC  73"
unfolding transmitted has_code find_from
received = refl

decode-encode_letters_example :
    (decode letters (encode (codes "de K1ABC ~ 73"))).0 ≡ transmitted (codes "de K1ABC ~ 73")
decode-encode_letters_example = decode-encode_letters (codes "de K1ABC ~ 73")
