-- ===== src/Framing/Hdlc/RoundTrip.antt =====
-- Streams of HDLC frames, through the framer and the deframer.
use omnimodem.Base.{
  ℕ, ◌+◌, ◌-◌, ◌*◌, ◌/◌, ◌%◌, ◌^◌, ◌≤◌, ◌<◌, ◌≡◌, refl, ap, ◌∙◌, true, List, [], Bool-cases, inl,
  inr, ◌∷◌, ◌++◌, append_assoc, append-nil, bit_or, bit_and, arith, ltb, ◌==◌, if◌then◌else◌,
  length, length-append, take-append, All, All-append, ==_iff, get_or, sym,
}
use omnimodem.Base.Bits.{bit_or-disjoint, bit_or_comm, bit_and-mask, bit_and-one}
use omnimodem.Base.Table.{all_below, all_below_sound}
use omnimodem.Fec.Crc.{crc, crc16_x25}
use omnimodem.Framing.Hdlc.{
  Scan, start, scan, flag, byte_bits, all_bits, stuff, with_fcs, pack_byte, pack_bytes,
  finish_frame, hdlc_frame, hdlc_deframe,
}
use omnimodem.Framing.Hdlc.Window.{inside}
use omnimodem.Framing.Hdlc.Deframe.{IsBit, IsByte, scan-append, scan-stuff, scan-flag}

all_bits-IsBit : (bs : List ℕ) → All IsBit (all_bits bs)
unfolding all_bits
all_bits-IsBit [] = tt
all_bits-IsBit (b ∷ bs) =
    All-append IsBit (byte_bits b) (all_bits bs)
      (omega (
        arith,
        bit_and-one b,
        bit_and-one (b / 2),
        bit_and-one (b / 4),
        bit_and-one (b / 8),
        bit_and-one (b / 16),
        bit_and-one (b / 32),
        bit_and-one (b / 64),
        bit_and-one (b / 128),
      ))
      (all_bits-IsBit bs)

length-all_bits : (bs : List ℕ) → length (all_bits bs) ≡ 8 * length bs
unfolding all_bits
length-all_bits [] = omega arith
length-all_bits (b ∷ bs) = omega (arith, length-all_bits bs)

byte_table : all_below 256 (λ b. pack_byte 0 0 (byte_bits b) == b) ≡ true
unfolding all_below pack_byte
byte_table = refl

pack_byte-byte_bits : (b : ℕ) → b < 256 → pack_byte 0 0 (byte_bits b) ≡ b
pack_byte-byte_bits b h = (==_iff _ b).0 (all_below_sound 256 _ byte_table b h)

pack_bytes-all_bits : (bs : List ℕ) → All IsByte bs → pack_bytes (length bs) (all_bits bs) ≡ bs
unfolding pack_bytes all_bits
pack_bytes-all_bits [] h = refl
pack_bytes-all_bits (b ∷ bs) h = rw (pack_byte-byte_bits b h.0, pack_bytes-all_bits bs h.1) refl

module _ {ℓ} {A : Type ℓ} where
  get_or-append : (xs : List A) (y d : A) (ys : List A) → get_or (xs ++ (y ∷ ys)) (length xs) d ≡ y
  get_or-append [] y d ys = refl
  get_or-append (x ∷ xs) y d ys = get_or-append xs y d ys

  get_or-append_next :
      (xs : List A) (y z d : A) (ys : List A) → get_or (xs ++ (y ∷ z ∷ ys)) (length xs + 1) d ≡ z
  get_or-append_next xs y z d ys =
      rw (← append_assoc xs (y ∷ []) (z ∷ ys), ← length-append xs (y ∷ []))
        (get_or-append (xs ++ (y ∷ [])) z d ys)

add_sub_two : (n : ℕ) → n + 2 - 2 ≡ n
add_sub_two n = omega arith

module _ (payload : List ℕ) where
  abbrev fcs : ℕ
  fcs = crc crc16_x25 payload % 2 ^ 16

  abbrev tail : List ℕ
  tail = bit_and fcs 0xFF ∷ fcs / 2 ^ 8 ∷ []

  with_fcs_lem : with_fcs payload ≡ payload ++ tail
  unfolding with_fcs
  with_fcs_lem = refl

  with_fcs-IsByte : All IsByte payload → All IsByte (payload ++ tail)
  with_fcs-IsByte h = All-append IsByte payload tail h (omega (arith, bit_and-mask 8 fcs))

  got_fcs : bit_or (bit_and fcs 0xFF) (fcs / 2 ^ 8 * 2 ^ 8 % 2 ^ 16) ≡ fcs
  got_fcs = omega (
    arith,
    bit_and-mask 8 fcs,
    bit_or_comm (bit_and fcs 0xFF) (fcs / 2 ^ 8 * 2 ^ 8),
    bit_or-disjoint 8 (fcs / 2 ^ 8) (bit_and fcs 0xFF) (omega (arith, bit_and-mask 8 fcs)),
    ap (λ (t : ℕ). bit_or (bit_and fcs 0xFF) t) (fits fcs (omega arith)),
  )
    where
      fits : (x : ℕ) → x < 2 ^ 16 → x / 2 ^ 8 * 2 ^ 8 % 2 ^ 16 ≡ x / 2 ^ 8 * 2 ^ 8
      fits x h = omega arith

  whole_bytes : length (all_bits (payload ++ tail)) / 8 ≡ length payload + 2
  whole_bytes = omega (arith, length-all_bits (payload ++ tail), length-append payload tail)

  packed :
      All IsByte payload
      → pack_bytes (length payload + 2) (all_bits (payload ++ tail)) ≡ payload ++ tail
  packed h =
      rw (sym (length-append payload tail))
        (pack_bytes-all_bits (payload ++ tail) (with_fcs-IsByte h))

-- The bits between the flags are the payload and its FCS; a payload that is not empty is pushed.
finish_frame-with_fcs :
    (payload : List ℕ) (fs : List (List ℕ))
    → All IsByte payload
    → finish_frame (all_bits (with_fcs payload)) fs
      ≡ (if ltb 0 (length payload) then fs ++ (payload ∷ []) else fs)
unfolding finish_frame
finish_frame-with_fcs payload fs h =
    rw (with_fcs_lem payload, whole_bytes payload, packed payload h)
      (rw
        (
          add_sub_two (length payload),
          take-append payload (tail payload),
          get_or-append payload _ 0 _,
          get_or-append_next payload _ _ 0 _,
          got_fcs payload,
        )
        (ground arith))

-- Between two frames the deframer is inside an empty frame, right behind a flag.
abbrev idle : ℕ → List (List ℕ) → Scan
idle f fs = inside 126 f 0 [] fs

abbrev pub keep : List ℕ → List (List ℕ) → List (List ℕ)
keep payload fs = if ltb 0 (length payload) then fs ++ (payload ∷ []) else fs

-- The body of a frame and its closing flag.
scan_body :
    (payload rest : List ℕ) (f : ℕ) (fs : List (List ℕ))
    → All IsByte payload
    → 8 ≤ f
    → (f' : ℕ) × (8 ≤ f')
      × (scan (idle f fs) (stuff 0 (all_bits (with_fcs payload)) ++ (byte_bits flag ++ rest))
          ≡ scan (idle f' (keep payload fs)) rest)
scan_body payload rest f fs h full =
    let data_bits = all_bits (with_fcs payload) in
    let r =
      scan-stuff data_bits [] 126 f 0 fs (all_bits-IsBit (with_fcs payload)) (omega arith)
        (omega arith) full in
    (
      r.f + 8,
      omega arith,
      scan-append (idle f fs) (stuff 0 data_bits) (byte_bits flag ++ rest)
          ∙ ap (λ s. scan s (byte_bits flag ++ rest)) r.is_inside
          ∙ scan-flag r.w r.f r.o data_bits rest fs r.few r.run r.full
          ∙ ap (λ t. scan (idle (r.f + 8) t) rest) (finish_frame-with_fcs payload fs h),
    )

abbrev body : List ℕ → List ℕ → List ℕ
body payload rest = stuff 0 (all_bits (with_fcs payload)) ++ (byte_bits flag ++ rest)

hdlc_frame-append :
    (payload rest : List ℕ) → hdlc_frame payload ++ rest ≡ byte_bits flag ++ body payload rest
unfolding hdlc_frame
hdlc_frame-append payload rest =
    rw (append_assoc (stuff 0 (all_bits (with_fcs payload))) (byte_bits flag) rest) refl

finish_frame-nil : (fs : List (List ℕ)) → finish_frame [] fs ≡ fs
unfolding finish_frame
finish_frame-nil fs = refl

-- A frame after another: its opening flag closes an empty frame, which is ignored.
scan_next :
    (payload rest : List ℕ) (f : ℕ) (fs : List (List ℕ))
    → All IsByte payload
    → 8 ≤ f
    → (f' : ℕ) × (8 ≤ f')
      × (scan (idle f fs) (hdlc_frame payload ++ rest) ≡ scan (idle f' (keep payload fs)) rest)
scan_next payload rest f fs h full =
    let (f', full', e) = scan_body payload rest (f + 8) fs h (omega arith) in
    (
      f',
      full',
      rw (hdlc_frame-append payload rest) (
          scan-flag 126 f 0 [] (body payload rest) fs (omega arith) (omega arith) full
          ∙ ap (λ t. scan (idle (f + 8) t) (body payload rest)) (finish_frame-nil fs)
          ∙ e),
    )

unfoldable pub hdlc_stream : List (List ℕ) → List ℕ
hdlc_stream [] = []
hdlc_stream (p ∷ ps) = hdlc_frame p ++ hdlc_stream ps

-- The payloads that are not empty.
unfoldable pub non_empty : List (List ℕ) → List (List ℕ)
non_empty [] = []
non_empty (p ∷ ps) = if ltb 0 (length p) then p ∷ non_empty ps else non_empty ps

keep-append :
    (p : List ℕ) (fs rest : List (List ℕ))
    → keep p fs ++ rest ≡ fs ++ (if ltb 0 (length p) then p ∷ rest else rest)
keep-append p fs rest = elim (Bool-cases (ltb 0 (length p))) [
  | inl full ↦ rw full (append_assoc fs (p ∷ []) rest)
  | inr bare ↦ rw bare refl
]

scan_stream :
    (ps : List (List ℕ)) (f : ℕ) (fs : List (List ℕ))
    → All (All IsByte) ps
    → 8 ≤ f
    → (scan (idle f fs) (hdlc_stream ps)).frames ≡ fs ++ non_empty ps
unfolding hdlc_stream non_empty
scan_stream [] f fs h full = unfold scan in sym (append-nil fs)
scan_stream (p ∷ ps) f fs h full =
    let (f', full', e) = scan_next p (hdlc_stream ps) f fs h.0 full in
    ap (λ s. s.frames) e ∙ scan_stream ps f' (keep p fs) h.1 full' ∙ keep-append p fs (non_empty ps)

-- The flag that a fresh deframer meets first.
first_flag : (p rest : List ℕ) → scan start (hdlc_frame p ++ rest) ≡ scan (idle 8 []) (body p rest)
first_flag p rest = rw (hdlc_frame-append p rest) (unfold scan in refl)

-- Frames sent one after another are read back in order, each payload exactly as it was given,
-- but a frame with an empty payload is lost.
pub hdlc_deframe-hdlc_stream :
    (ps : List (List ℕ)) → All (All IsByte) ps → hdlc_deframe (hdlc_stream ps) ≡ non_empty ps
unfolding hdlc_deframe hdlc_stream non_empty
hdlc_deframe-hdlc_stream [] h = refl
hdlc_deframe-hdlc_stream (p ∷ ps) h =
    let (f, full, e) = scan_body p (hdlc_stream ps) 8 [] h.0 (omega arith) in
    ap (λ s. s.frames) (first_flag p (hdlc_stream ps) ∙ e)
    ∙ scan_stream ps f (keep p []) h.1 full
    ∙ keep-append p [] (non_empty ps)
