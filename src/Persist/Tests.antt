-- ===== src/Persist/Tests.antt =====
-- Concrete rows and bindings.
use omnimodem.Base.{◌≡◌, refl, true, false, some, arith}
use omnimodem.Base.Int.{negsuc}
use omnimodem.Base.Text.{codes, text_eq, split_once}
use omnimodem.Ids.{serial, alsa_card, placeholder, to_canonical_string}
use omnimodem.Ids
use omnimodem.Ptt.Registry.{PttConfig, cm108, gpio}
use omnimodem.Channel.{ChannelConfig}
use omnimodem.Persist.{encode_ptt, decode_method, encode_row, decode_row, device_or_placeholder}
use omnimodem.Persist.RoundTrip.{
  IsPtt, IsChannel, decode_columns, decode_ptt-encode_ptt, decode_row-encode_row,
}
use omnimodem.Persist.OneRow.{one_row, one_row_laws}

abbrev sound_card : PttConfig
sound_card = record {
  device_id = serial (codes "rig");
  method = cm108 (codes "/dev/hidraw0") 3;
  invert = true;
  tx_delay_ms = 300;
  tx_tail_ms = 50;
}

sound_card-IsPtt : IsPtt sound_card
sound_card-IsPtt = record {
  device = tt;
  method = omega arith;
  tx_delay = omega arith;
  tx_tail = omega arith;
}

sound_card_back : decode_columns (encode_ptt (some sound_card)) ≡ some sound_card
sound_card_back = decode_ptt-encode_ptt (some sound_card) sound_card-IsPtt

abbrev vhf : ChannelConfig
vhf = record {
  id = 7;
  name = codes "vhf";
  mode = codes "afsk1200";
  device_id = alsa_card (codes "CARD=Rig");
  sample_rate = 48000;
  fanout = 1;
  tx_device_id = placeholder;
  tx_sample_rate = 0;
  ptt = some sound_card;
  rsid_tx = false;
  rsid_rx = true;
}

vhf-IsChannel : IsChannel vhf
vhf-IsChannel = record {
  id = omega arith;
  device = tt;
  sample_rate = omega arith;
  fanout = omega arith;
  tx_device = tt;
  tx_sample_rate = omega arith;
  ptt = sound_card-IsPtt;
}

decode_row-encode_row_example : decode_row one_row (encode_row vhf) ≡ some vhf
decode_row-encode_row_example = decode_row-encode_row one_row one_row_laws vhf vhf-IsChannel

-- A line below zero, which only another program writes, wraps around.
wrapped :
    decode_method (codes "gpio") (codes "chip") (negsuc 0) ≡ some (gpio (codes "chip") 4294967295)
unfolding decode_method text_eq
wrapped = refl

-- A device text that is not understood becomes the placeholder.
not_understood : device_or_placeholder (codes "bogus:x") ≡ placeholder
unfolding device_or_placeholder Ids.parse split_once text_eq
not_understood = refl
