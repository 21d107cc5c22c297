-- ===== src/Ids.antt =====
-- Device identities, crates/omnimodem/src/ids.rs: their canonical text and its parser.
pub mod RoundTrip
mod Tests
use mathlib.Core.List.{List-discrete}
use native.Mathlib.Decide.{ℕ_discrete}
use omnimodem.Base.{ℕ, Bool, true, false, List, [], ◌∷◌, ◌++◌, Option, none, some, if◌then◌else◌}
use omnimodem.Base.Text.{Text, codes, text_eq, split_once, rsplit_once, parse_uint, decimal, hex4}

pub data RtlKey : Type 0 where
  serial_key : Text → RtlKey
  topo_key : ℕ → Text → RtlKey

pub data DeviceId : Type 0 where
  usb : ℕ → ℕ → Text → DeviceId
  alsa_card : Text → DeviceId
  topology : ℕ → Text → DeviceId
  serial : Text → DeviceId
  rtl_tcp : Text → ℕ → DeviceId
  rtl : RtlKey → DeviceId
  placeholder_tag : Text → DeviceId

pub RtlKey-discrete : Discrete RtlKey
RtlKey-discrete = hlevel (List-discrete, ℕ_discrete)

pub DeviceId-discrete : Discrete DeviceId
DeviceId-discrete = hlevel (List-discrete, ℕ_discrete, RtlKey-discrete)

abbrev pub placeholder : DeviceId
placeholder = placeholder_tag (codes "virtual:0")

unfoldable pub is_sdr : DeviceId → Bool
is_sdr (rtl_tcp host port) = true
is_sdr (rtl key) = true
is_sdr _ = false

unfoldable pub to_canonical_string : DeviceId → Text
to_canonical_string (usb vid pid sn) =
    codes "usb:" ++ (hex4 vid ++ (b':' ∷ (hex4 pid ++ (b':' ∷ sn))))
to_canonical_string (alsa_card card_name) = codes "alsa:" ++ card_name
to_canonical_string (topology bus ports) = codes "topo:" ++ (decimal bus ++ (b'-' ∷ ports))
to_canonical_string (serial by_id) = codes "serial:" ++ by_id
to_canonical_string (rtl_tcp host port) = codes "rtltcp:" ++ (host ++ (b':' ∷ decimal port))
to_canonical_string (rtl (serial_key s)) = codes "rtl:serial:" ++ s
to_canonical_string (rtl (topo_key bus ports)) =
    codes "rtl:topo:" ++ (decimal bus ++ (b'-' ∷ ports))
to_canonical_string (placeholder_tag tag) = codes "virtual:" ++ tag

infixl 5 ◌>>=◌
abbrev ◌>>=◌ : {A B : Type 0} → Option A → (A → Option B) → Option B
none >>= f = none
some a >>= f = f a

-- `splitn(3, ':')` of the body: the second part must be there, a third may be missing.
parse_usb : Text → Option DeviceId
parse_usb body = elim (split_once b':' body) [
  | none ↦ none
  | some (first, rest) ↦ elim (split_once b':' rest) [
    | none ↦ do
      vid ← parse_uint 16 65535 first
      pid ← parse_uint 16 65535 rest
      some (usb vid pid [])
    | some (second, sn) ↦ do
      vid ← parse_uint 16 65535 first
      pid ← parse_uint 16 65535 second
      some (usb vid pid sn)
  ]
]

-- `<bus>-<ports>`, with the bus a `u8`.
parse_topo : (ℕ → Text → DeviceId) → Text → Option DeviceId
parse_topo make body = do
  (bus_text, ports) ← split_once b'-' body
  bus ← parse_uint 10 255 bus_text
  some (make bus ports)

-- `<host>:<port>`, split at the last colon, with the port a `u16`.
parse_rtl_tcp : Text → Option DeviceId
parse_rtl_tcp body = do
  (host, port_text) ← rsplit_once b':' body
  port ← parse_uint 10 65535 port_text
  some (rtl_tcp host port)

parse_rtl : Text → Option DeviceId
unfolding parse_topo
parse_rtl body = do
  (sub, rest) ← split_once b':' body
  if text_eq sub (codes "serial")
      then some (rtl (serial_key rest))
      else if text_eq sub (codes "topo")
      then parse_topo (λ bus ports. rtl (topo_key bus ports)) rest
      else none

-- The `match` on the scheme.
parse_scheme : Text → Text → Option DeviceId
unfolding parse_usb parse_topo parse_rtl_tcp parse_rtl
parse_scheme scheme body =
    if text_eq scheme (codes "usb")
    then parse_usb body
    else if text_eq scheme (codes "alsa")
    then some (alsa_card body)
    else if text_eq scheme (codes "topo")
    then parse_topo topology body
    else if text_eq scheme (codes "serial")
    then some (serial body)
    else if text_eq scheme (codes "rtltcp")
    then parse_rtl_tcp body
    else if text_eq scheme (codes "rtl")
    then parse_rtl body
    else if text_eq scheme (codes "virtual")
    then some (placeholder_tag body)
    else none

unfoldable pub parse : Text → Option DeviceId
unfolding parse_scheme
parse text = do (scheme, body) ← split_once b':' text; parse_scheme scheme body
