-- ===== src/Fec/Scramble/Additive.antt =====
-- Lemmas on the additive scramblers.
use omnimodem.Base.{ℕ, ◌-◌, ◌/◌, ◌^◌, ◌<◌, ◌≡◌, refl, List, [], ◌∷◌, bit_and, bit_xor, arith}
use omnimodem.Base.Bits.{bit_and-one, bit_xor_cancel, bit_xor-lt}
use omnimodem.Fec.Nrzi.{AreBits}
use omnimodem.Fec.Scramble.{
  Keystream, apply, frame_reset, frame_reset_next_key, frame_reset_seed, AdditivePrbs, prbs,
  prbs_next_key,
}

low-twice : (b key : ℕ) → b < 2 → key < 2 → bit_xor (bit_and (bit_xor (bit_and b 1) key) 1) key ≡ b
low-twice b key hb hk = rw (low, bit_xor_cancel (bit_and b 1) key, bit_and-one b) (omega arith)
  where
    low : bit_and (bit_xor (bit_and b 1) key) 1 ≡ bit_xor (bit_and b 1) key
    low = omega (
      arith,
      bit_and-one (bit_xor (bit_and b 1) key),
      bit_xor-lt 1 (bit_and b 1) key (omega (arith, bit_and-one b)) hk,
    )

-- A key that is one bit, at every state.
abbrev GivesBits : Keystream → Type 0
GivesBits ks = (s : ks.State) → (ks.next_key s).1 < 2

module _ (ks : Keystream) (gives_bits : GivesBits ks) where
  apply_twice :
      (s : ks.State) (bits : List ℕ) → AreBits bits → (apply ks s (apply ks s bits).1).1 ≡ bits
  unfolding apply
  apply_twice s [] h = refl
  apply_twice s (b ∷ bits) h =
      rw (low-twice b (ks.next_key s).1 h.0 (gives_bits s), apply_twice (ks.next_key s).0 bits h.1)
        refl

frame_reset-GivesBits : GivesBits frame_reset
unfolding frame_reset_next_key
frame_reset-GivesBits s = omega (arith, bit_and-one (s / 2 ^ 8))

prbs-GivesBits : GivesBits prbs
unfolding prbs_next_key
prbs-GivesBits p = omega (arith, bit_and-one (p.state / 2 ^ (p.width - 1)))

-- The IL2P scrambler undoes itself from the seed that both ends reset to.
pub frame_reset_twice :
    (bits : List ℕ)
    → AreBits bits
    → (apply frame_reset frame_reset_seed (apply frame_reset frame_reset_seed bits).1).1 ≡ bits
frame_reset_twice bits h = apply_twice frame_reset frame_reset-GivesBits frame_reset_seed bits h

-- The generic whitener undoes itself, from any register and with any taps and seed.
pub prbs_twice :
    (p : AdditivePrbs) (bits : List ℕ)
    → AreBits bits
    → (apply prbs p (apply prbs p bits).1).1 ≡ bits
prbs_twice p bits h = apply_twice prbs prbs-GivesBits p bits h
