-- ===== src/Kiss.antt =====
-- KISS framing, crates/omnimodem/src/kiss/codec.rs. A byte is a number; a method that takes
-- `&mut self` returns the new decoder beside its result.
mod Stream
mod Tests
use omnimodem.Base.{
  ℕ, ◌/◌, ◌%◌, Bool, true, false, ◌&&◌, not, List, [], ◌∷◌, ◌++◌, Option, none, some, ◌==◌,
  if◌then◌else◌,
}

abbrev pub fend : ℕ
fend = 0xC0

abbrev pub fesc : ℕ
fesc = 0xDB

abbrev pub tfend : ℕ
tfend = 0xDC

abbrev pub tfesc : ℕ
tfesc = 0xDD

abbrev pub cmd_data : ℕ
cmd_data = 0x00

-- The loop of `encode_data_frame` over the payload.
pub escape : List ℕ → List ℕ
escape [] = []
escape (b ∷ bs) =
    (if b == fend then fesc ∷ tfend ∷ [] else if b == fesc then fesc ∷ tfesc ∷ [] else b ∷ [])
    ++ escape bs

unfoldable pub encode_data_frame : List ℕ → List ℕ
unfolding escape
encode_data_frame payload = fend ∷ cmd_data ∷ (escape payload ++ (fend ∷ []))

pub record KissFrame : Type 0 where
  pub port : ℕ
  pub cmd : ℕ
  pub payload : List ℕ

unfoldable pub is_data : KissFrame → Bool
is_data f = f.cmd == 0

pub record KissDecoder : Type 0 where
  pub buf : List ℕ
  pub in_frame : Bool
  pub escaped : Bool

abbrev pub new_decoder : KissDecoder
new_decoder = record { buf = []; in_frame = false; escaped = false }

abbrev pub is_empty : List ℕ → Bool
is_empty [] = true
is_empty (b ∷ bs) = false

-- The first byte is split into its nibbles, `>> 4` and `& 0x0F`.
pub take_frame : List ℕ → Option KissFrame
take_frame [] = none
take_frame (cmd_byte ∷ rest) =
    some (record { port = cmd_byte / 16; cmd = cmd_byte % 16; payload = rest })

-- The byte that a second byte of an escape stands for; a malformed escape is tolerated.
abbrev pub unescape : ℕ → ℕ
unescape b = if b == tfend then fend else if b == tfesc then fesc else b

-- One round of the loop in `push`: the new state, and the frame that the byte completed.
pub push_byte : KissDecoder → ℕ → KissDecoder × Option KissFrame
unfolding take_frame
push_byte d b =
    if b == fend
    then (
      record { buf = []; in_frame = true; escaped = false },
      if d.in_frame && not (is_empty d.buf) then take_frame d.buf else none,
    )
    else if b == fesc && d.in_frame
    then (record d { escaped = true }, none)
    else if d.in_frame
    then (
      record d { buf = d.buf ++ ((if d.escaped then unescape b else b) ∷ []); escaped = false },
      none,
    )
    else (d, none)

abbrev pub emit : Option KissFrame → List KissFrame → List KissFrame
emit none fs = fs
emit (some f) fs = f ∷ fs

unfoldable pub push : KissDecoder → List ℕ → KissDecoder × List KissFrame
unfolding push_byte
push d [] = (d, [])
push d (b ∷ bs) = let (d1, f) = push_byte d b in let (d2, fs) = push d1 bs in (d2, emit f fs)
