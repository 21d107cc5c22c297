-- ===== src/Framing/Ax25.antt =====
-- AX.25 UI frames, crates/dsp/src/framing/ax25.rs. A callsign is the list of its bytes; what is
-- decoded is ASCII, since every byte is shifted right by one bit.
mod Addresses
mod RoundTrip
mod Tests
use omnimodem.Base.{
  ℕ, zero, suc, ◌+◌, ◌-◌, ◌*◌, ◌/◌, ◌%◌, Bool, true, false, not, ◌&&◌, ◌||◌, List, [], ◌∷◌, ◌++◌,
  map, Option, none, some, bit_and, bit_or, ltb, leb, ◌==◌, if◌then◌else◌, length, get_or, take,
  drop,
}

pub record Address : Type 0 where
  pub call : List ℕ
  pub ssid : ℕ

-- `u8::to_ascii_uppercase`
unfoldable pub to_upper : ℕ → ℕ
to_upper c = if leb b'a' c && leb c b'z' then c - 32 else c

unfoldable pub new_address : List ℕ → ℕ → Address
unfolding to_upper
new_address call ssid = record { call = map to_upper call; ssid = bit_and ssid 0x0F }

-- One shifted character, `c << 1` on a `u8`; a short callsign is padded with spaces.
abbrev pub call_byte : List ℕ → ℕ → ℕ
call_byte call i = get_or call i b' ' * 2 % 256

unfoldable pub encode_address : Address → Bool → Bool → List ℕ
encode_address a last has_been_repeated =
    let h = if has_been_repeated then 0x80 else 0 in
    let ssid_byte =
      bit_or (bit_or (bit_or h 0x60) (bit_and a.ssid 0x0F * 2 % 256)) (if last then 1 else 0) in
    call_byte a.call 0
    ∷ call_byte a.call 1
    ∷ call_byte a.call 2
    ∷ call_byte a.call 3
    ∷ call_byte a.call 4
    ∷ call_byte a.call 5
    ∷ ssid_byte
    ∷ []

-- White space among the characters below 128.
abbrev pub is_space : ℕ → Bool
is_space c = c == 32 || (leb 9 c && leb c 13)

-- `str::trim_end`
unfoldable pub trim_end : List ℕ → List ℕ
trim_end [] = []
trim_end (c ∷ cs) = elim (trim_end cs) [
  | [] ↦ if is_space c then [] else c ∷ []
  | d ∷ ds ↦ c ∷ d ∷ ds
]

unfoldable pub decode_address : List ℕ → Address
unfolding trim_end
decode_address raw = record {
  call = trim_end (map (λ b. b / 2) (take 6 raw));
  ssid = bit_and (get_or raw 6 0 / 2) 0x0F;
}

unfoldable pub is_last : List ℕ → Bool
is_last raw = not (bit_and (get_or raw 6 0) 0x01 == 0)

pub record Ax25Frame : Type 0 where
  pub dest : Address
  pub source : Address
  pub digipeaters : List Address
  pub info : List ℕ

abbrev pub control_ui : ℕ
control_ui = 0x03

abbrev pub pid_no_l3 : ℕ
pid_no_l3 = 0xF0

abbrev pub is_nil : List Address → Bool
is_nil [] = true
is_nil (a ∷ as') = false

-- The loop over the digipeaters: only the last one has the extension bit.
unfoldable pub encode_digipeaters : List Address → List ℕ
encode_digipeaters [] = []
encode_digipeaters (d ∷ ds) = encode_address d (is_nil ds) false ++ encode_digipeaters ds

unfoldable pub encode : Ax25Frame → List ℕ
encode f =
    encode_address f.dest false false
    ++ (encode_address f.source (is_nil f.digipeaters) false
        ++ (encode_digipeaters f.digipeaters ++ (control_ui ∷ pid_no_l3 ∷ f.info)))

abbrev pub cons_address : Address → Option (List Address × List ℕ) → Option (List Address × List ℕ)
cons_address a none = none
cons_address a (some (as', rest)) = some (a ∷ as', rest)

-- The loop of `decode`: the list is `bytes[pos..]`, `count` is `addrs.len()` before the round, and
-- the first number is the rounds left. A round either returns or raises `count` by one.
unfoldable pub decode_addresses : ℕ → ℕ → List ℕ → Option (List Address × List ℕ)
decode_addresses zero count rest = none
decode_addresses (suc rounds) count rest =
    let a = decode_address rest in
    let behind = drop 7 rest in
    let more = cons_address a (decode_addresses rounds (count + 1) behind) in
    if ltb (length rest) 7
    then none
    else if is_last rest
    then some (a ∷ [], behind)
    else if ltb 10 (count + 1)
    then none
    else more

-- What follows the loop, on the addresses and `bytes[pos..]`.
unfoldable pub finish_decode : List Address → List ℕ → Option Ax25Frame
finish_decode (dest ∷ source ∷ digipeaters) (control ∷ pid ∷ info) =
    if not (control == control_ui) || not (pid == pid_no_l3)
    then none
    else some (record { dest = dest; source = source; digipeaters = digipeaters; info = info })
finish_decode _ _ = none

-- At most eleven addresses are read.
abbrev pub max_rounds : ℕ
max_rounds = 11

unfoldable pub decode : List ℕ → Option Ax25Frame
unfolding finish_decode
decode bytes = if ltb (length bytes) 16 then none else (elim (decode_addresses max_rounds 0 bytes) [
  | none ↦ none
  | some (addrs, rest) ↦ finish_decode addrs rest
])
