-- ===== src/Ids/Tests.antt =====
-- The device identities at concrete texts.
use omnimodem.Base.{◌≡◌, refl, some, none, arith}
use omnimodem.Base.Text.{
  codes, text_eq, split_once, parse_uint, parse_digits, to_digit, rsplit_once,
}
use omnimodem.Ids.{usb, to_canonical_string, parse}
use omnimodem.Ids.RoundTrip.{parse-to_canonical_string}

parse_bad_port : parse (codes "rtltcp:host:70000") ≡ none
unfolding parse split_once text_eq parse_uint parse_digits rsplit_once to_digit
parse_bad_port = refl

parse-to_canonical_string_example :
    parse (to_canonical_string (usb 0x0D8C 0x000C (codes "a:b")))
    ≡ some (usb 0x0D8C 0x000C (codes "a:b"))
parse-to_canonical_string_example =
    parse-to_canonical_string (usb 0x0D8C 0x000C (codes "a:b")) (omega arith, omega arith)
