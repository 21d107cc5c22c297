-- ===== src/Fec/Scramble/Tests.antt =====
-- The scramblers at concrete bits.
use omnimodem.Base.{ℕ, ◌≡◌, ◌++◌, List, [], ◌∷◌, arith}
use omnimodem.Fec.Nrzi.{AreBits}
use omnimodem.Fec.Scramble.{
  scramble, descramble, apply, frame_reset, frame_reset_seed, prbs, prbs_m17,
}
use omnimodem.Fec.Scramble.Sync.{descramble-scramble, descramble_self_sync}
use omnimodem.Fec.Scramble.Additive.{frame_reset_twice, prbs_twice}

abbrev bits : List ℕ
bits = 1 ∷ 0 ∷ 0 ∷ 1 ∷ []

bits-AreBits : AreBits bits
bits-AreBits = (omega arith, (omega arith, (omega arith, (omega arith, tt))))

descramble-scramble_run :
    descramble 0x1ABCD (scramble 0x1ABCD bits).1 ≡ ((scramble 0x1ABCD bits).0, bits)
descramble-scramble_run = descramble-scramble 0x1ABCD bits bits-AreBits

abbrev long : List ℕ
long = bits ++ (bits ++ (bits ++ (bits ++ bits)))

long-AreBits : AreBits long
long-AreBits = omega arith

descramble_self_sync_example :
    descramble (descramble 5 long).0 bits ≡ descramble (descramble 0x1ABCD long).0 bits
descramble_self_sync_example =
    descramble_self_sync 5 0x1ABCD long bits (omega arith) (omega arith) long-AreBits (omega arith)

frame_reset_twice_run :
    (apply frame_reset frame_reset_seed (apply frame_reset frame_reset_seed bits).1).1 ≡ bits
frame_reset_twice_run = frame_reset_twice bits bits-AreBits

prbs_twice_run : (apply prbs prbs_m17 (apply prbs prbs_m17 bits).1).1 ≡ bits
prbs_twice_run = prbs_twice prbs_m17 bits bits-AreBits
