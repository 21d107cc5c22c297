-- ===== src/Framing/Hdlc.antt =====
-- HDLC framing, crates/dsp/src/framing/hdlc.rs. A bit is the number 0 or 1, as in the source. The
-- counter of ones is a `u8` and wraps, as a release build does; the counter of received bits is
-- not taken to wrap.
mod Window
mod Deframe
mod RoundTrip
mod Tests
use omnimodem.Base.{
  ℕ, zero, suc, ◌+◌, ◌-◌, ◌*◌, ◌/◌, ◌%◌, ◌^◌, Bool, true, false, ◌&&◌, List, [], ◌∷◌, ◌++◌, bit_or,
  bit_and, ltb, leb, ◌==◌, if◌then◌else◌, length, take, drop, get_or,
}
use omnimodem.Fec.Crc.{crc, crc16_x25}

abbrev pub flag : ℕ
flag = 0x7E

-- `crc(..) as u16`, then its low byte and its high byte.
unfoldable pub with_fcs : List ℕ → List ℕ
with_fcs payload =
    let fcs = crc crc16_x25 payload % 2 ^ 16 in payload ++ (bit_and fcs 0xFF ∷ fcs / 2 ^ 8 ∷ [])

-- `push_byte_lsb`: `(b >> i) & 1` for `i` in `0..8`.
abbrev pub byte_bits : ℕ → List ℕ
byte_bits b =
    bit_and b 1
    ∷ bit_and (b / 2) 1
    ∷ bit_and (b / 4) 1
    ∷ bit_and (b / 8) 1
    ∷ bit_and (b / 16) 1
    ∷ bit_and (b / 32) 1
    ∷ bit_and (b / 64) 1
    ∷ bit_and (b / 128) 1
    ∷ []

unfoldable pub all_bits : List ℕ → List ℕ
all_bits [] = []
all_bits (b ∷ bs) = byte_bits b ++ all_bits bs

-- The two nested loops of `hdlc_frame`, over the bits of all bytes, with the running count.
unfoldable pub stuff : ℕ → List ℕ → List ℕ
stuff ones [] = []
stuff ones (bit ∷ bits) =
    let after_five = bit ∷ 0 ∷ stuff 0 bits in
    let after_one = bit ∷ stuff (ones + 1) bits in
    let after_zero = bit ∷ stuff 0 bits in
    if bit == 1 then (if ones + 1 == 5 then after_five else after_one) else after_zero

unfoldable pub hdlc_frame : List ℕ → List ℕ
unfolding with_fcs all_bits stuff
hdlc_frame payload = byte_bits flag ++ (stuff 0 (all_bits (with_fcs payload)) ++ byte_bits flag)

-- The variables of `hdlc_deframe`.
pub record Scan : Type 0 where
  pub window : ℕ
  pub filled : ℕ
  pub collecting : Bool
  pub ones : ℕ
  pub payload_bits : List ℕ
  pub frames : List (List ℕ)

abbrev pub start : Scan
start = record {
  window = 0;
  filled = 0;
  collecting = false;
  ones = 0;
  payload_bits = [];
  frames = [];
}

-- `b |= bit << i` over one chunk.
pub pack_byte : ℕ → ℕ → List ℕ → ℕ
pack_byte i b [] = b
pack_byte i b (bit ∷ bits) = pack_byte (i + 1) (bit_or b (bit * 2 ^ i % 256)) bits

-- The chunks of eight bits, with the number of chunks left.
pub pack_bytes : ℕ → List ℕ → List ℕ
unfolding pack_byte
pack_bytes zero bits = []
pack_bytes (suc n) bits = pack_byte 0 0 (take 8 bits) ∷ pack_bytes n (drop 8 bits)

-- The frame that `finish_frame` pushes, if any; it clears `payload_bits` on every path.
unfoldable pub finish_frame : List ℕ → List (List ℕ) → List (List ℕ)
unfolding pack_bytes
finish_frame payload_bits frames =
    let nbytes = length payload_bits / 8 in
    let bytes = pack_bytes nbytes payload_bits in
    let split = nbytes - 2 in
    let payload = take split bytes in
    let got = bit_or (get_or bytes split 0) (get_or bytes (split + 1) 0 * 2 ^ 8 % 2 ^ 16) in
    let want = crc crc16_x25 payload % 2 ^ 16 in
    if ltb nbytes 3 then frames else if got == want then frames ++ (payload ∷ []) else frames

-- One round of the loop in `hdlc_deframe`.
unfoldable pub scan_bit : Scan → ℕ → Scan
scan_bit s bit =
    let window = bit_or (s.window / 2) (bit * 2 ^ 7 % 256) in
    let filled = s.filled + 1 in
    let closed =
      if s.collecting && leb 7 (length s.payload_bits)
      then finish_frame (take (length s.payload_bits - 7) s.payload_bits) s.frames
      else s.frames in
    if leb 8 filled && window == flag
    then record {
      window = window;
      filled = filled;
      collecting = true;
      ones = 0;
      payload_bits = [];
      frames = closed;
    }
    else if s.collecting
    then (if s.ones == 5 && bit == 0
        then record s { window = window; filled = filled; ones = 0 }
        else record s {
          window = window;
          filled = filled;
          payload_bits = s.payload_bits ++ (bit ∷ []);
          ones = if bit == 1 then (s.ones + 1) % 256 else 0;
        })
    else record s { window = window; filled = filled }

unfoldable pub scan : Scan → List ℕ → Scan
unfolding scan_bit
scan s [] = s
scan s (bit ∷ bits) = scan (scan_bit s bit) bits

unfoldable pub hdlc_deframe : List ℕ → List (List ℕ)
unfolding scan
hdlc_deframe bits = (scan start bits).frames
