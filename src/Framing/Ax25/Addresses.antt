-- ===== src/Framing/Ax25/Addresses.antt =====
-- Lemmas on one AX.25 address and its seven bytes.
use omnimodem.Base.{
  ℕ, zero, suc, ◌-◌, ◌*◌, ◌/◌, ◌%◌, ◌≤◌, ◌<◌, ◌≡◌, refl, ap, ◌∙◌, Bool, true, false, ◌&&◌, List, [],
  ◌∷◌, ◌++◌, map, bit_and, bit_or, arith, ◌==◌, if◌then◌else◌, length, replicate, All,
}
use omnimodem.Base.Table.{all_below, all_below_sound}
use omnimodem.Framing.Ax25.{Address, call_byte, encode_address, decode_address, trim_end, is_last}

-- A callsign that fits its field: at most six ASCII characters, with no white space behind, and a
-- four-bit SSID.
pub record IsValid (a : Address) : Type 0 where
  pub short : length a.call ≤ 6
  pub ascii : All (λ c. c < 128) a.call
  pub trimmed : trim_end a.call ≡ a.call
  pub small : a.ssid < 16

trim_end-spaces : (n : ℕ) → trim_end (replicate n b' ') ≡ []
unfolding trim_end
trim_end-spaces zero = refl
trim_end-spaces (suc n) = rw (trim_end-spaces n) refl

trim_end-pad : (call : List ℕ) (n : ℕ) → trim_end (call ++ replicate n b' ') ≡ trim_end call
unfolding trim_end
trim_end-pad [] n = trim_end-spaces n
trim_end-pad (c ∷ cs) n = rw (trim_end-pad cs n) refl

-- Shifting left on eight bits and right again.
shift_back : (c : ℕ) → c < 128 → c * 2 % 256 / 2 ≡ c
shift_back c h = omega arith

abbrev field : List ℕ → List ℕ
field call =
    call_byte call 0
    ∷ call_byte call 1
    ∷ call_byte call 2
    ∷ call_byte call 3
    ∷ call_byte call 4
    ∷ call_byte call 5
    ∷ []

field_back :
    (call : List ℕ)
    → length call ≤ 6
    → All (λ c. c < 128) call
    → map (λ b. b / 2) (field call) ≡ call ++ replicate (6 - length call) b' '
field_back [] h ascii = refl
field_back (a ∷ []) h ascii = rw (shift_back a ascii.0) refl
field_back (a ∷ b ∷ []) h ascii = rw (shift_back a ascii.0, shift_back b ascii.1.0) refl
field_back (a ∷ b ∷ c ∷ []) h ascii =
    rw (shift_back a ascii.0, shift_back b ascii.1.0, shift_back c ascii.1.1.0) refl
field_back (a ∷ b ∷ c ∷ d ∷ []) h ascii =
    rw
      (
        shift_back a ascii.0,
        shift_back b ascii.1.0,
        shift_back c ascii.1.1.0,
        shift_back d ascii.1.1.1.0,
      )
      refl
field_back (a ∷ b ∷ c ∷ d ∷ e ∷ []) h ascii =
    rw
      (
        shift_back a ascii.0,
        shift_back b ascii.1.0,
        shift_back c ascii.1.1.0,
        shift_back d ascii.1.1.1.0,
        shift_back e ascii.1.1.1.1.0,
      )
      refl
field_back (a ∷ b ∷ c ∷ d ∷ e ∷ f ∷ []) h ascii =
    rw
      (
        shift_back a ascii.0,
        shift_back b ascii.1.0,
        shift_back c ascii.1.1.0,
        shift_back d ascii.1.1.1.0,
        shift_back e ascii.1.1.1.1.0,
        shift_back f ascii.1.1.1.1.1.0,
      )
      refl
field_back (a ∷ b ∷ c ∷ d ∷ e ∷ f ∷ g ∷ rest) h ascii = absurd (omega arith)

abbrev ssid_byte : ℕ → Bool → Bool → ℕ
ssid_byte ssid last h =
    bit_or (bit_or (bit_or (if h then 0x80 else 0) 0x60) (bit_and ssid 0x0F * 2 % 256))
      (if last then 1 else 0)

abbrev ssid_kept : Bool → Bool → ℕ → Bool
ssid_kept last h ssid =
    (bit_and (ssid_byte ssid last h / 2) 0x0F == ssid)
    && ((bit_and (ssid_byte ssid last h) 1) == (if last then 1 else 0))

ssid_table : (last h : Bool) → all_below 16 (ssid_kept last h) ≡ true
unfolding all_below
ssid_table true true = refl
ssid_table true false = refl
ssid_table false true = refl
ssid_table false false = refl

ssid_sound : (last h : Bool) (ssid : ℕ) → ssid < 16 → ssid_kept last h ssid ≡ true
ssid_sound last h ssid lt = all_below_sound 16 (ssid_kept last h) (ssid_table last h) ssid lt

module _ (a : Address) (last h : Bool) (rest : List ℕ) (valid : IsValid a) where
  pub decode-encode_address : decode_address (encode_address a last h ++ rest) ≡ a
  unfolding decode_address encode_address
  decode-encode_address = λ i. record { call = call_back i; ssid = ssid_back i }
    where
      call_back : trim_end (map (λ b. b / 2) (field a.call)) ≡ a.call
      call_back =
          ap trim_end (field_back a.call valid.short valid.ascii)
          ∙ trim_end-pad a.call (6 - length a.call)
          ∙ valid.trimmed

      ssid_back : bit_and (ssid_byte a.ssid last h / 2) 0x0F ≡ a.ssid
      ssid_back = ground (arith, ssid_sound last h a.ssid valid.small)

  pub is_last-encode_address : is_last (encode_address a last h ++ rest) ≡ last
  unfolding is_last encode_address
  is_last-encode_address = ground (arith, ssid_sound last h a.ssid valid.small)
