-- ===== src/Kiss/Stream.antt =====
-- What the KISS decoder makes of a byte stream: chunks, noise, and the encoder's frames.
use omnimodem.Base.{
  ℕ, ◌≡◌, refl, ◌≢◌, ap, ◌∙◌, inl, inr, Bool-cases, ==_iff, true, false, List, [], ◌∷◌, ◌++◌, map,
  All, append_assoc, append-nil, Option, none, some, arith, ◌==◌,
}
use omnimodem.Kiss.{
  KissFrame, KissDecoder, new_decoder, fend, fesc, cmd_data, escape, encode_data_frame, emit,
  push_byte, push,
}

emit-append : (f : Option KissFrame) (xs ys : List KissFrame) → emit f xs ++ ys ≡ emit f (xs ++ ys)
emit-append none xs ys = refl
emit-append (some f) xs ys = refl

-- Feeding a stream in two chunks is feeding it whole: the same state and the same frames.
pub push-append :
    (d : KissDecoder) (xs ys : List ℕ)
    → push d (xs ++ ys) ≡ ((push (push d xs).0 ys).0, (push d xs).1 ++ (push (push d xs).0 ys).1)
unfolding push
push-append d [] ys = refl
push-append d (x ∷ xs) ys =
    rw (push-append (push_byte d x).0 xs ys, emit-append (push_byte d x).1) refl

abbrev pub collecting : List ℕ → KissDecoder
collecting b = record { buf = b; in_frame = true; escaped = false }

-- One payload byte, escaped or not, joins the buffer.
push-escape_byte :
    (b : ℕ) (buf rest : List ℕ)
    → push (collecting buf) (escape (b ∷ []) ++ rest) ≡ push (collecting (buf ++ (b ∷ []))) rest
unfolding escape push
push-escape_byte b buf rest = elim (Bool-cases (b == fend)) [
  | inl is_end ↦ rw (is_end, (==_iff b fend).0 is_end) refl
  | inr not_end ↦ elim (Bool-cases (b == fesc)) [
    | inl is_esc ↦ rw (not_end, is_esc, (==_iff b fesc).0 is_esc) refl
    | inr plain ↦ rw (not_end, plain, not_end, plain) refl
  ]
]

escape-cons : (b : ℕ) (bs : List ℕ) → escape (b ∷ bs) ≡ escape (b ∷ []) ++ escape bs
unfolding escape
escape-cons b bs = rw append-nil refl

-- Inside a frame the escaped payload comes back byte for byte, and completes nothing.
push-escape :
    (payload buf rest : List ℕ)
    → push (collecting buf) (escape payload ++ rest) ≡ push (collecting (buf ++ payload)) rest
push-escape [] buf rest = rw append-nil (unfold escape in refl)
push-escape (b ∷ bs) buf rest =
    rw (escape-cons b bs, append_assoc (escape (b ∷ [])) (escape bs) rest)
      (push-escape_byte b buf (escape bs ++ rest)
        ∙ push-escape bs (buf ++ (b ∷ [])) rest
        ∙ ap (λ t. push (collecting t) rest) (append_assoc buf (b ∷ []) bs))

-- What an unfinished frame in the buffer is worth when the next FEND arrives.
abbrev pub pending : KissDecoder → List KissFrame
pending d = (push d (fend ∷ [])).1

abbrev pub data_frame : List ℕ → KissFrame
data_frame payload = record { port = 0; cmd = 0; payload = payload }

push-fend :
    (d : KissDecoder) (rest : List ℕ)
    → push d (fend ∷ rest)
      ≡ ((push (collecting []) rest).0, pending d ++ (push (collecting []) rest).1)
unfolding push
push-fend d rest = rw (emit-append (push_byte d fend).1 []) refl

push-data_frame :
    (payload : List ℕ)
    → push (collecting []) (cmd_data ∷ (escape payload ++ (fend ∷ [])))
      ≡ (collecting [], data_frame payload ∷ [])
push-data_frame payload = unfold push in push-escape payload (cmd_data ∷ []) (fend ∷ [])

-- Any decoder, whatever it was doing, reads an encoded frame back: the frame that was left
-- unfinished comes first if there was one, and the decoder ends between frames.
pub push-encode_data_frame :
    (d : KissDecoder) (payload : List ℕ)
    → push d (encode_data_frame payload) ≡ (collecting [], pending d ++ (data_frame payload ∷ []))
unfolding encode_data_frame
push-encode_data_frame d payload =
    push-fend d (cmd_data ∷ (escape payload ++ (fend ∷ []))) ∙ rw (push-data_frame payload) refl

pub encode_all : List (List ℕ) → List ℕ
encode_all [] = []
encode_all (p ∷ ps) = encode_data_frame p ++ encode_all ps

noise_byte : (b : ℕ) → b ≢ fend → push_byte new_decoder b ≡ (new_decoder, none)
unfolding push_byte
noise_byte b h = ground arith

push-noise :
    (noise rest : List ℕ)
    → All (λ b. b ≢ fend) noise
    → push new_decoder (noise ++ rest) ≡ push new_decoder rest
unfolding push
push-noise [] rest h = refl
push-noise (b ∷ bs) rest h = rw (noise_byte b h.0) (push-noise bs rest h.1)

push-encode_all :
    (d : KissDecoder) (ps : List (List ℕ))
    → pending d ≡ []
    → (push d (encode_all ps)).1 ≡ map data_frame ps
unfolding encode_all
push-encode_all d [] h = unfold push in refl
push-encode_all d (p ∷ ps) h =
    rw (push-append d (encode_data_frame p) (encode_all ps), push-encode_data_frame d p, h)
      (ap (λ t. data_frame p ∷ t) (push-encode_all (collecting []) ps (unfold push in refl)))

-- A fresh decoder skips the noise before the first FEND and then returns exactly the payloads
-- that were encoded, in order, each as a data frame of port 0.
pub push_stream :
    (noise : List ℕ) (ps : List (List ℕ))
    → All (λ b. b ≢ fend) noise
    → (push new_decoder (noise ++ encode_all ps)).1 ≡ map data_frame ps
push_stream noise ps h =
    rw (push-noise noise (encode_all ps) h) (push-encode_all _ ps (unfold push in refl))
