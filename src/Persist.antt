-- ===== src/Persist.antt =====
-- The channels in the database, crates/omnimodem/src/persist/mod.rs: a channel as a row of the
-- table, and back. The database itself and what it makes of a column are arguments.
pub mod RoundTrip
pub mod OneRow
mod Tests
use omnimodem.Base.{
  ℕ, ◌<◌, ◌^◌, Bool, true, false, ◌≡◌, ◌≢◌, List, [], ◌∷◌, Option, none, some, if◌then◌else◌, All,
  IsIn,
}
use omnimodem.Base.Int.{ℤ, pos, negsuc, as_word, max_zero, is_nonzero, as_i64}
use omnimodem.Base.Text.{Text, codes, text_eq}
use omnimodem.Ids.{DeviceId, placeholder, to_canonical_string}
use omnimodem.Ids
use omnimodem.Ptt.Registry.{PttMethod, PttConfig, no_ptt, vox, serial_rts, serial_dtr, cm108, gpio}
use omnimodem.Channel.{ChannelConfig}

-- A row of the table `channels`: its columns.
pub record Row : Type 0 where
  pub id : ℤ
  pub name : Text
  pub mode : Text
  pub device_id : Text
  pub sample_rate : ℤ
  pub fanout : ℤ
  pub ptt_method : Text
  pub ptt_device_id : Text
  pub ptt_node : Text
  pub ptt_pin : ℤ
  pub ptt_invert : ℤ
  pub tx_device_id : Text
  pub tx_sample_rate : ℤ
  pub rsid_tx : ℤ
  pub rsid_rx : ℤ
  pub ptt_tx_delay_ms : ℤ
  pub ptt_tx_tail_ms : ℤ

-- The columns of a method: its name, its node and its pin.
unfoldable pub method_columns : PttMethod → Text × Text × ℤ
method_columns no_ptt = (codes "none", [], pos 0)
method_columns vox = (codes "vox", [], pos 0)
method_columns (serial_rts node) = (codes "serial_rts", node, pos 0)
method_columns (serial_dtr node) = (codes "serial_dtr", node, pos 0)
method_columns (cm108 node pin) = (codes "cm108", node, pos pin)
method_columns (gpio chip line) = (codes "gpio", chip, pos line)

unfoldable pub encode_ptt : Option PttConfig → Text × Text × Text × ℤ × ℤ × ℤ × ℤ
encode_ptt none = ([], [], [], pos 0, pos 0, pos 0, pos 0)
encode_ptt (some p) =
    let (method, node, pin) = method_columns p.method in
    (
      method,
      to_canonical_string p.device_id,
      node,
      pin,
      as_i64 p.invert,
      pos p.tx_delay_ms,
      pos p.tx_tail_ms,
    )

unfoldable pub decode_method : Text → Text → ℤ → Option PttMethod
decode_method method node pin =
    if text_eq method (codes "none")
    then some no_ptt
    else if text_eq method (codes "vox")
    then some vox
    else if text_eq method (codes "serial_rts")
    then some (serial_rts node)
    else if text_eq method (codes "serial_dtr")
    then some (serial_dtr node)
    else if text_eq method (codes "cm108")
    then some (cm108 node (as_word 8 pin))
    else if text_eq method (codes "gpio")
    then some (gpio node (as_word 32 pin))
    else none

-- `DeviceId::parse(..).unwrap_or_else(DeviceId::placeholder)`
unfoldable pub device_or_placeholder : Text → DeviceId
device_or_placeholder text = elim (Ids.parse text) [ none ↦ placeholder | some id ↦ id ]

unfoldable pub decode_ptt : Text → Text → Text → ℤ → ℤ → ℤ → ℤ → Option PttConfig
decode_ptt method dev node pin invert tx_delay tx_tail = elim (decode_method method node pin) [
  | none ↦ none
  | some m ↦ some record {
    device_id = device_or_placeholder dev;
    method = m;
    invert = is_nonzero invert;
    tx_delay_ms = as_word 32 (max_zero tx_delay);
    tx_tail_ms = as_word 32 (max_zero tx_tail);
  }
]

-- The parameters of the upsert.
unfoldable pub encode_row : ChannelConfig → Row
encode_row cfg =
    let (method, ptt_dev, node, pin, invert, tx_delay, tx_tail) = encode_ptt cfg.ptt in
    record {
      id = pos cfg.id;
      name = cfg.name;
      mode = cfg.mode;
      device_id = to_canonical_string cfg.device_id;
      sample_rate = pos cfg.sample_rate;
      fanout = pos cfg.fanout;
      ptt_method = method;
      ptt_device_id = ptt_dev;
      ptt_node = node;
      ptt_pin = pin;
      ptt_invert = invert;
      tx_device_id = to_canonical_string cfg.tx_device_id;
      tx_sample_rate = pos cfg.tx_sample_rate;
      rsid_tx = as_i64 cfg.rsid_tx;
      rsid_rx = as_i64 cfg.rsid_rx;
      ptt_tx_delay_ms = tx_delay;
      ptt_tx_tail_ms = tx_tail;
    }

-- An empty text follows the capture device.
unfoldable pub tx_device : Text → DeviceId → DeviceId
tx_device [] capture = capture
tx_device (c ∷ cs) capture = device_or_placeholder (c ∷ cs)

-- What the program uses of the database: the upsert, which tells whether it succeeded, the query
-- of all rows, and the reading of a column as a `u32`.
pub record Database : Type 1 where
  pub Conn : Type 0
  pub execute : Row → Conn → Bool × Conn
  pub query : Conn → Option (List Row)
  pub get_u32 : ℤ → Option ℕ

infixl 5 ◌>>=◌
abbrev ◌>>=◌ : {A B : Type 0} → Option A → (A → Option B) → Option B
none >>= f = none
some a >>= f = f a

module _ (db : Database) where
  unfoldable pub upsert_channel : ChannelConfig → db.Conn → Bool × db.Conn
  upsert_channel cfg conn = db.execute (encode_row cfg) conn

  unfoldable pub decode_row : Row → Option ChannelConfig
  decode_row r = do
    id ← db.get_u32 r.id
    sample_rate ← db.get_u32 r.sample_rate
    fanout ← db.get_u32 r.fanout
    tx_sample_rate ← db.get_u32 r.tx_sample_rate
    let capture_dev = device_or_placeholder r.device_id
    some record {
      id = id;
      name = r.name;
      mode = r.mode;
      device_id = capture_dev;
      sample_rate = sample_rate;
      fanout = fanout;
      tx_device_id = tx_device r.tx_device_id capture_dev;
      tx_sample_rate = tx_sample_rate;
      ptt =
          decode_ptt r.ptt_method r.ptt_device_id r.ptt_node r.ptt_pin r.ptt_invert
            r.ptt_tx_delay_ms r.ptt_tx_tail_ms;
      rsid_tx = is_nonzero r.rsid_tx;
      rsid_rx = is_nonzero r.rsid_rx;
    }

  -- The first row that cannot be read ends the loop.
  unfoldable pub decode_rows : List Row → Option (List ChannelConfig)
  decode_rows [] = some []
  decode_rows (r ∷ rows) = do cfg ← decode_row r; rest ← decode_rows rows; some (cfg ∷ rest)

  unfoldable pub load_channels : db.Conn → Option (List ChannelConfig)
  load_channels conn = do rows ← db.query conn; decode_rows rows

-- What is documented of the database: a row is replaced by its key, and the others stay; a
-- statement that fails changes nothing; the query lists the rows; a column that fits is read.
pub record DatabaseLaws (db : Database) : Type 0 where
  pub row_of : db.Conn → ℤ → Option Row
  pub upserted :
      (r : Row) (c : db.Conn) → (db.execute r c).0 ≡ true → row_of (db.execute r c).1 r.id ≡ some r
  pub others_kept :
      (r : Row) (c : db.Conn) (i : ℤ)
      → (db.execute r c).0 ≡ true
      → i ≢ r.id
      → row_of (db.execute r c).1 i ≡ row_of c i
  pub failed_kept :
      (r : Row) (c : db.Conn) (i : ℤ)
      → (db.execute r c).0 ≡ false
      → row_of (db.execute r c).1 i ≡ row_of c i
  pub rows_stored :
      (c : db.Conn) (rows : List Row)
      → db.query c ≡ some rows
      → All (λ r. row_of c r.id ≡ some r) rows
  pub rows_complete :
      (c : db.Conn) (rows : List Row) (i : ℤ) (r : Row)
      → db.query c ≡ some rows
      → row_of c i ≡ some r
      → IsIn r rows
  pub get_u32-pos : (n : ℕ) → n < 2 ^ 32 → db.get_u32 (pos n) ≡ some n
