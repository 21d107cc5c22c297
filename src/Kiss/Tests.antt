-- ===== src/Kiss/Tests.antt =====
-- Runs of the KISS codec, and its theorems at concrete inputs.
use omnimodem.Base.{ℕ, ◌≡◌, refl, List, [], ◌∷◌, ◌++◌, map, true, false, arith}
use omnimodem.Kiss.{KissFrame, KissDecoder, new_decoder, encode_data_frame, is_data, push}
use omnimodem.Kiss.Stream.{
  push-append, push-encode_data_frame, push_stream, encode_all, data_frame, collecting, pending,
}

abbrev awkward : List ℕ
awkward = 0xC0 ∷ 0xDB ∷ 0xDC ∷ 0x41 ∷ []

encode_awkward :
    encode_data_frame awkward ≡ 0xC0 ∷ 0 ∷ 0xDB ∷ 0xDC ∷ 0xDB ∷ 0xDD ∷ 0xDC ∷ 0x41 ∷ 0xC0 ∷ []
unfolding encode_data_frame
encode_awkward = refl

-- A parameter frame (command 1 on port 2) is decoded, and is no data frame.
parameter_frame : KissFrame
parameter_frame = record { port = 2; cmd = 1; payload = 7 ∷ [] }

decode_parameter : (push new_decoder (0xC0 ∷ 0x21 ∷ 7 ∷ 0xC0 ∷ [])).1 ≡ parameter_frame ∷ []
unfolding push parameter_frame
decode_parameter = refl

parameter_ignored : is_data parameter_frame ≡ false
unfolding is_data parameter_frame
parameter_ignored = refl

abbrev halfway : KissDecoder
halfway = record { buf = 0 ∷ 9 ∷ []; in_frame = true; escaped = true }

push-append_run : push halfway ((0xDC ∷ []) ++ (0xC0 ∷ [])) ≡ (
  (push (push halfway (0xDC ∷ [])).0 (0xC0 ∷ [])).0,
  (push halfway (0xDC ∷ [])).1 ++ (push (push halfway (0xDC ∷ [])).0 (0xC0 ∷ [])).1,
)
push-append_run = push-append halfway (0xDC ∷ []) (0xC0 ∷ [])

push-encode_data_frame_run :
    push halfway (encode_data_frame awkward)
    ≡ (collecting [], pending halfway ++ (data_frame awkward ∷ []))
push-encode_data_frame_run = push-encode_data_frame halfway awkward

push_stream_example :
    (push new_decoder ((1 ∷ 0xDB ∷ []) ++ encode_all (awkward ∷ [] ∷ (5 ∷ []) ∷ []))).1
    ≡ map data_frame (awkward ∷ [] ∷ (5 ∷ []) ∷ [])
push_stream_example =
    push_stream (1 ∷ 0xDB ∷ []) (awkward ∷ [] ∷ (5 ∷ []) ∷ [])
      (λ e. omega arith, (λ e. omega arith, tt))
