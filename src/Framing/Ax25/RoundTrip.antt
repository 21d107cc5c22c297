-- ===== src/Framing/Ax25/RoundTrip.antt =====
-- AX.25 frames, through the encoder and the decoder.
use omnimodem.Base.{
  ℕ, zero, suc, ◌+◌, ◌≤◌, ◌<◌, ◌≡◌, refl, ap, ◌∙◌, Bool, true, false, List, [], ◌∷◌, ◌++◌,
  append_assoc, none, some, arith, ltb, if◌then◌else◌, length, length-append, drop, All, Bool-cases,
  inl, inr,
}
use omnimodem.Framing.Ax25.{
  Address, Ax25Frame, encode_address, encode_digipeaters, encode, is_nil, decode_addresses,
  cons_address, decode, max_rounds, control_ui, pid_no_l3,
}
use omnimodem.Framing.Ax25.Addresses.{IsValid, decode-encode_address, is_last-encode_address}

module _ (a : Address) (last : Bool) (rest : List ℕ) where
  behind : drop 7 (encode_address a last false ++ rest) ≡ rest
  unfolding encode_address
  behind = refl

  long_enough : ltb (length (encode_address a last false ++ rest)) 7 ≡ false
  unfolding encode_address
  long_enough = ground arith

  encode_address-length : length (encode_address a last false ++ rest) ≡ length rest + 7
  unfolding encode_address
  encode_address-length = omega arith

-- One address at the front of the bytes.
read_address :
    (rounds count : ℕ) (a : Address) (last : Bool) (rest : List ℕ)
    → IsValid a
    → decode_addresses (suc rounds) count (encode_address a last false ++ rest) ≡ (
        if last
        then some (a ∷ [], rest)
        else if ltb 10 (count + 1)
        then none
        else cons_address a (decode_addresses rounds (count + 1) rest))
unfolding decode_addresses
read_address rounds count a last rest valid =
    rw
      (
        long_enough a last rest,
        is_last-encode_address a last false rest valid,
        decode-encode_address a last false rest valid,
        behind a last rest,
      )
      refl

-- The digipeaters at the front of the bytes, if there are some.
read_digipeaters :
    (d : Address) (ds : List Address) (rounds count : ℕ) (rest : List ℕ)
    → All IsValid (d ∷ ds)
    → count + length (d ∷ ds) ≤ 11
    → length (d ∷ ds) ≤ rounds
    → decode_addresses rounds count (encode_digipeaters (d ∷ ds) ++ rest) ≡ some (d ∷ ds, rest)
unfolding encode_digipeaters
read_digipeaters d ds zero count rest valid h enough = absurd (omega arith)
read_digipeaters d [] (suc rounds) count rest valid h enough =
    rw (append_assoc (encode_address d true false) [] rest)
      (read_address rounds count d true rest valid.0)
read_digipeaters d (e ∷ ds) (suc rounds) count rest valid h enough =
    rw (append_assoc (encode_address d false false) (encode_digipeaters (e ∷ ds)) rest) (
      read_address rounds count d false (encode_digipeaters (e ∷ ds) ++ rest) valid.0
      ∙ rw (room, read_digipeaters e ds rounds (count + 1) rest valid.1 (omega arith) (omega arith))
          refl)
  where
    room : ltb 10 (count + 1) ≡ false
    room = ground arith

-- The frames that the source describes, and one digipeater more: at most nine, all valid.
pub record IsFrame (f : Ax25Frame) : Type 0 where
  pub dest_valid : IsValid f.dest
  pub source_valid : IsValid f.source
  pub digipeaters_valid : All IsValid f.digipeaters
  pub at_most_nine : length f.digipeaters ≤ 9

-- The whole address field, whether there are digipeaters or not.
read_field :
    (dest source : Address) (ds : List Address) (rest : List ℕ)
    → IsValid dest
    → IsValid source
    → All IsValid ds
    → length ds ≤ 9
    → decode_addresses 11 0 (
        encode_address dest false false
        ++ (encode_address source (is_nil ds) false ++ (encode_digipeaters ds ++ rest)))
      ≡ some (dest ∷ source ∷ ds, rest)
unfolding encode_digipeaters
read_field dest source [] rest hd hs h few =
    read_address 10 0 dest false _ hd ∙ ap (cons_address dest) (read_address 9 1 source true _ hs)
read_field dest source (d ∷ ds) rest hd hs h few =
    read_address 10 0 dest false _ hd
    ∙ ap (cons_address dest) (
        read_address 9 1 source false _ hs
        ∙ ap (cons_address source) (read_digipeaters d ds 9 2 rest h (omega arith) few))

not_short : (f : Ax25Frame) → ltb (length (encode f)) 16 ≡ false
unfolding encode encode_address
not_short f =
    ground
      (arith, length-append (encode_digipeaters f.digipeaters) (control_ui ∷ pid_no_l3 ∷ f.info))

-- A frame whose addresses are valid, with at most nine digipeaters, is read back from its bytes.
pub decode-encode : (f : Ax25Frame) → IsFrame f → decode (encode f) ≡ some f
unfolding decode encode
decode-encode f h =
    rw
      (
        not_short f,
        read_field f.dest f.source f.digipeaters (control_ui ∷ pid_no_l3 ∷ f.info) h.dest_valid
            h.source_valid h.digipeaters_valid h.at_most_nine,
      )
      refl

enough_rounds :
    (r s count : ℕ) (bytes : List ℕ)
    → count < 11
    → 11 ≤ r + count
    → 11 ≤ s + count
    → decode_addresses r count bytes ≡ decode_addresses s count bytes
unfolding decode_addresses
enough_rounds zero s count bytes h hr hs = absurd (omega arith)
enough_rounds (suc r) zero count bytes h hr hs = absurd (omega arith)
enough_rounds (suc r) (suc s) count bytes h hr hs = elim (Bool-cases (ltb 10 (count + 1))) [
  | inl full ↦ rw full refl
  | inr more ↦
      rw (enough_rounds r s (count + 1) (drop 7 bytes) (ground arith) (omega arith) (omega arith))
        refl
]

-- More rounds than eleven change nothing, on any bytes: the loop of `decode` always returns.
pub decode_addresses_rounds :
    (rounds : ℕ) (bytes : List ℕ)
    → 11 ≤ rounds
    → decode_addresses rounds 0 bytes ≡ decode_addresses max_rounds 0 bytes
decode_addresses_rounds rounds bytes h =
    enough_rounds rounds 11 0 bytes (omega arith) (omega arith) (omega arith)
