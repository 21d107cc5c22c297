-- ===== src/Ids/RoundTrip.antt =====
-- Device identities, through their canonical text and its parser.
use omnimodem.Base.{ℕ, ◌^◌, ◌<◌, ◌≡◌, refl, inl, inr, ◌∷◌, ◌++◌, some, arith}
use omnimodem.Base.Text.{Text, text_eq, split_once, decimal, hex4}
use omnimodem.Base.Text.Laws.{
  Lacks, split_once-append, rsplit_once-append, parse_uint-decimal, parse_uint-hex4,
  decimal-IsDigit, IsDigit-Lacks, hex4-Lacks,
}
use omnimodem.Ids.{
  DeviceId, usb, alsa_card, topology, serial, rtl_tcp, rtl, placeholder_tag, serial_key, topo_key,
  to_canonical_string, parse, parse_usb, parse_topo, parse_rtl_tcp,
}

-- The ranges of the fields: `u16` vendor, product and port, `u8` bus.
abbrev pub InRange : DeviceId → Type 0
InRange (usb vid pid sn) = (vid < 2 ^ 16) × (pid < 2 ^ 16)
InRange (topology bus ports) = bus < 2 ^ 8
InRange (rtl_tcp host port) = port < 2 ^ 16
InRange (rtl (topo_key bus ports)) = bus < 2 ^ 8
InRange _ = Unit {0}

decimal-Lacks : (sep v : ℕ) → sep < 48 → Lacks sep (decimal v)
decimal-Lacks sep v h = IsDigit-Lacks sep (decimal v) (inl h) (decimal-IsDigit v)

parse_usb_lem :
    (vid pid : ℕ) (sn : Text)
    → vid < 2 ^ 16
    → pid < 2 ^ 16
    → parse_usb (hex4 vid ++ (b':' ∷ (hex4 pid ++ (b':' ∷ sn)))) ≡ some (usb vid pid sn)
unfolding parse_usb
parse_usb_lem vid pid sn hv hp =
    rw
      (
        split_once-append b':' (hex4 vid) (hex4 pid ++ (b':' ∷ sn)) (hex4-Lacks vid),
        parse_usb,
        split_once-append b':' (hex4 pid) sn (hex4-Lacks pid),
        parse_uint-hex4 vid hv,
        parse_uint-hex4 pid hp,
      )
      refl

parse_topo_lem :
    (make : ℕ → Text → DeviceId) (bus : ℕ) (ports : Text)
    → bus < 2 ^ 8
    → parse_topo make (decimal bus ++ (b'-' ∷ ports)) ≡ some (make bus ports)
unfolding parse_topo
parse_topo_lem make bus ports h =
    rw
      (
        split_once-append b'-' (decimal bus) ports (decimal-Lacks b'-' bus (omega arith)),
        parse_topo,
        parse_uint-decimal 255 bus (omega arith) (omega arith),
      )
      refl

parse_rtl_tcp_lem :
    (host : Text) (port : ℕ)
    → port < 2 ^ 16
    → parse_rtl_tcp (host ++ (b':' ∷ decimal port)) ≡ some (rtl_tcp host port)
unfolding parse_rtl_tcp
parse_rtl_tcp_lem host port h =
    rw
      (
        rsplit_once-append b':' host (decimal port)
            (IsDigit-Lacks b':' (decimal port) (inr (omega arith)) (decimal-IsDigit port)),
        parse_rtl_tcp,
        parse_uint-decimal 65535 port (omega arith) (omega arith),
      )
      refl

-- Every device identity whose numbers fit their fields, whatever its texts hold, is read back
-- from its canonical text.
pub parse-to_canonical_string :
    (id : DeviceId) → InRange id → parse (to_canonical_string id) ≡ some id
unfolding parse to_canonical_string split_once text_eq
parse-to_canonical_string (usb vid pid sn) h = parse_usb_lem vid pid sn h.0 h.1
parse-to_canonical_string (alsa_card card_name) h = refl
parse-to_canonical_string (topology bus ports) h = parse_topo_lem topology bus ports h
parse-to_canonical_string (serial by_id) h = refl
parse-to_canonical_string (rtl_tcp host port) h = parse_rtl_tcp_lem host port h
parse-to_canonical_string (rtl (serial_key s)) h = refl
parse-to_canonical_string (rtl (topo_key bus ports)) h = parse_topo_lem _ bus ports h
parse-to_canonical_string (placeholder_tag tag) h = refl
