-- ===== src/Persist/RoundTrip.antt =====
-- A channel's configuration, through its row and back.
use omnimodem.Base.{
  ℕ, ◌<◌, ◌^◌, ◌%◌, ◌≡◌, ◌≢◌, refl, ap, ◌∙◌, Bool, true, false, [], ◌∷◌, Option, none, some, arith,
}
use omnimodem.Base.Int.{ℤ, is_nonzero, as_i64}
use omnimodem.Base.Text.{Text, text_eq}
use omnimodem.Ids.{
  DeviceId, usb, alsa_card, topology, serial, rtl_tcp, rtl, placeholder_tag, serial_key, topo_key,
  to_canonical_string,
}
use omnimodem.Ids.RoundTrip.{InRange, parse-to_canonical_string}
use omnimodem.Ptt.Registry.{PttMethod, PttConfig, no_ptt, vox, serial_rts, serial_dtr, cm108, gpio}
use omnimodem.Channel.{ChannelConfig}
use omnimodem.Persist.{
  method_columns, encode_ptt, decode_method, device_or_placeholder, decode_ptt, encode_row,
  tx_device, Database, DatabaseLaws, decode_row,
}

-- The ranges of the fields: a `u8` pin, a `u32` line.
abbrev pub IsMethod : PttMethod → Type 0
IsMethod (cm108 node pin) = pin < 2 ^ 8
IsMethod (gpio chip line) = line < 2 ^ 32
IsMethod _ = Unit {0}

pub record IsPtt (p : PttConfig) : Type 0 where
  pub device : InRange p.device_id
  pub method : IsMethod p.method
  pub tx_delay : p.tx_delay_ms < 2 ^ 32
  pub tx_tail : p.tx_tail_ms < 2 ^ 32

abbrev pub IsBinding : Option PttConfig → Type 0
IsBinding none = Unit {0}
IsBinding (some p) = IsPtt p

pub record IsChannel (cfg : ChannelConfig) : Type 0 where
  pub id : cfg.id < 2 ^ 32
  pub device : InRange cfg.device_id
  pub sample_rate : cfg.sample_rate < 2 ^ 32
  pub fanout : cfg.fanout < 2 ^ 32
  pub tx_device : InRange cfg.tx_device_id
  pub tx_sample_rate : cfg.tx_sample_rate < 2 ^ 32
  pub ptt : IsBinding cfg.ptt

device_back : (id : DeviceId) → InRange id → device_or_placeholder (to_canonical_string id) ≡ id
unfolding device_or_placeholder
device_back id h = rw (parse-to_canonical_string id h, device_or_placeholder) refl

method_back :
    (m : PttMethod)
    → IsMethod m
    → decode_method (method_columns m).0 (method_columns m).1 (method_columns m).2 ≡ some m
unfolding decode_method method_columns text_eq
method_back no_ptt h = refl
method_back vox h = refl
method_back (serial_rts node) h = refl
method_back (serial_dtr node) h = refl
method_back (cm108 node pin) h = ap (λ p. some (cm108 node p)) (omega arith)
method_back (gpio chip line) h = ap (λ l. some (gpio chip l)) (omega arith)

bool_back : (b : Bool) → is_nonzero (as_i64 b) ≡ b
bool_back true = refl
bool_back false = refl

-- The columns of a binding.
abbrev pub decode_columns : Text × Text × Text × ℤ × ℤ × ℤ × ℤ → Option PttConfig
decode_columns (method, dev, node, pin, invert, tx_delay, tx_tail) =
    decode_ptt method dev node pin invert tx_delay tx_tail

-- A PTT binding, or its absence, is read back from its columns, when its device identity is in
-- range, its pin fits in 8 bits and its line and timing in 32.
pub decode_ptt-encode_ptt :
    (ptt : Option PttConfig) → IsBinding ptt → decode_columns (encode_ptt ptt) ≡ ptt
unfolding encode_ptt decode_ptt
decode_ptt-encode_ptt none h = unfold decode_method text_eq in refl
decode_ptt-encode_ptt (some p) h =
    rw (method_back p.method h.method, decode_ptt)
      (λ i. some record {
        device_id = device_back p.device_id h.device i;
        method = p.method;
        invert = bool_back p.invert i;
        tx_delay_ms = fits p.tx_delay_ms h.tx_delay i;
        tx_tail_ms = fits p.tx_tail_ms h.tx_tail i;
      })
  where
    fits : (n : ℕ) → n < 2 ^ 32 → n % 2 ^ 32 ≡ n
    fits n h = omega arith

canonical_ne : (id : DeviceId) → to_canonical_string id ≢ []
unfolding to_canonical_string
canonical_ne (usb vid pid sn) = λ e. cc
canonical_ne (alsa_card card_name) = λ e. cc
canonical_ne (topology bus ports) = λ e. cc
canonical_ne (serial by_id) = λ e. cc
canonical_ne (rtl_tcp host port) = λ e. cc
canonical_ne (rtl (serial_key s)) = λ e. cc
canonical_ne (rtl (topo_key bus ports)) = λ e. cc
canonical_ne (placeholder_tag tag) = λ e. cc

tx_device_ne :
    (text : Text) (capture : DeviceId)
    → text ≢ []
    → tx_device text capture ≡ device_or_placeholder text
unfolding tx_device
tx_device_ne [] capture ne = absurd (ne refl)
tx_device_ne (c ∷ cs) capture ne = refl

tx_back : (id capture : DeviceId) → InRange id → tx_device (to_canonical_string id) capture ≡ id
tx_back id capture h =
    tx_device_ne (to_canonical_string id) capture (canonical_ne id) ∙ device_back id h

module _ (db : Database) (laws : DatabaseLaws db) where
  -- A channel whose device identities and numbers are in the range of their types is read back
  -- from the row it is written to, when the database reads a column that fits a `u32`.
  pub decode_row-encode_row :
      (cfg : ChannelConfig) → IsChannel cfg → decode_row db (encode_row cfg) ≡ some cfg
  unfolding decode_row encode_row
  decode_row-encode_row cfg h =
      rw
        (
          laws.get_u32-pos cfg.id h.id,
          laws.get_u32-pos cfg.sample_rate h.sample_rate,
          laws.get_u32-pos cfg.fanout h.fanout,
          laws.get_u32-pos cfg.tx_sample_rate h.tx_sample_rate,
        )
        (λ i. some record {
          id = cfg.id;
          name = cfg.name;
          mode = cfg.mode;
          device_id = device_back cfg.device_id h.device i;
          sample_rate = cfg.sample_rate;
          fanout = cfg.fanout;
          tx_device_id =
              tx_back cfg.tx_device_id (device_or_placeholder (to_canonical_string cfg.device_id))
                h.tx_device i;
          tx_sample_rate = cfg.tx_sample_rate;
          ptt = decode_ptt-encode_ptt cfg.ptt h.ptt i;
          rsid_tx = bool_back cfg.rsid_tx i;
          rsid_rx = bool_back cfg.rsid_rx i;
        })
