-- ===== src/Lib.antt =====
-- Omnimodem is a software modem for amateur radio: a daemon that keys transmitters, and a library
-- of codes and framers that its modes are made of. This library models the parts that decide, and
-- leaves aside the signal processing in floating point, the sound cards and the network.
--
-- The parts, with the code each models:
--   Kiss             crates/omnimodem/src/kiss/codec.rs, the framing to a host program: the encoder
--                    `encode_data_frame`, and `KissDecoder::push` as a fold of `push_byte`.
--   Framing.Hdlc     crates/dsp/src/framing/hdlc.rs: `hdlc_frame`, and `hdlc_deframe` as a fold of
--                    `scan_bit` over the record of the loop's variables. It uses Fec.Crc.
--   Framing.Ax25     crates/dsp/src/framing/ax25.rs: addresses and UI frames. KISS carries these
--                    frames to the host and HDLC carries them on the air.
--   Framing.Pack28   crates/dsp/src/framing/pack77.rs: callsigns in 28 bits, `pack28` and `unpack28`;
--                    and in Framing.Pack77 the standard messages of 77 bits that hold two of them.
--   Framing.Baudot   crates/dsp/src/framing/baudot.rs, the five-bit code of teleprinters.
--   Fec.Crc          crates/dsp/src/fec/crc.rs, the CRC with parameters.
--   Fec.Nrzi         crates/dsp/src/fec/nrzi.rs, and the differential code of fec/gray.rs.
--   Fec.Gray         crates/dsp/src/fec/gray.rs.
--   Fec.Scramble     crates/dsp/src/fec/scramble.rs, three scramblers.
--   Ids              crates/omnimodem/src/ids.rs: `to_canonical_string` and `parse`.
--   Ptt.Interlock    crates/omnimodem/src/ptt/interlock.rs.
--   Ptt.Lease        crates/omnimodem/src/ptt/lease.rs.
--   Ptt.Driver       crates/omnimodem/src/ptt/mod.rs and ptt/none.rs: a driver is a record of its
--                    two operations over a state.
--   Ptt.Sequence     crates/omnimodem/src/ptt/sequence.rs, `drive_tx_cycle`, with the playback
--                    handle of audio/backend.rs.
--   Adsb.Crc         crates/dsp/src/modes/adsb/crc.rs, the parity of Mode S.
--   Adsb.Repair      `repair_single_bit` of modes/adsb/demod2400.rs, on top of Adsb.Crc.
--   Adsb.Roster      crates/dsp/src/modes/adsb/roster.rs, which aircraft were heard.
--   Device           crates/omnimodem/src/device/cache.rs, and in Device.Hotplug the watcher of
--                    device/hotplug.rs: snapshots in, events out.
--   Ptt.Serial       crates/omnimodem/src/ptt/serial.rs: a driver over any pair of control lines.
--   Ptt.Hid          crates/omnimodem/src/ptt/cm108.rs and ptt/gpio.rs: drivers over any hardware.
--   Mode.Labels      the tables of submode labels in crates/dsp/src/modes, `from_label` and `label`.
--   Mode.Config      crates/omnimodem/src/mode/mod.rs: `ModeConfig` and `parse`, and in Mode.Print
--                    `to_mode_string` and `label`: the text in which a channel's mode is stored.
--                    Floating point is an argument, with what it is read from and written as.
--   Persist          crates/omnimodem/src/persist/mod.rs: a channel as a row of the table and back.
--                    The database is an argument, with what is documented of its statements.
--   Channel          crates/omnimodem/src/supervisor/channel.rs, and Ptt.Registry the wiring of a
--                    PTT and the registry of ptt/registry.rs.
--   Supervisor       crates/omnimodem/src/supervisor/mod.rs: the live channels beside the database.
--                    It uses Persist for the rows, Ids for the devices and Mode.Config for the
--                    modes.
--   Core.Worker      crates/omnimodem/src/core/tx_worker.rs: the transmit queue and the loop `run` of
--                    a channel's worker. It drives Ptt.Sequence, asks Ptt.Lease and counts in
--                    Ptt.Interlock; the signal processing is an argument, and so is what other
--                    threads do between its steps. Core.Event has the events that it sends.
--   Core             crates/omnimodem/src/core/mod.rs, the daemon's loop. Core.Live has the live
--                    bindings of the channels, and around them the supervisor, the leases, the
--                    interlock and the events sent; Core.Audio and Core.Configure bind a channel
--                    (`configure_audio`, `configure_ptt`), Core.Spawn starts its workers
--                    (`try_spawn_workers`), Core.Transmit keys and transmits (`key_ptt`,
--                    `transmit`, `transmit_image`), Core.Hotplug is the idle tick
--                    (`poll_hotplug`) and Core.Command the dispatch (`handle_command`, `run`,
--                    `restore_live_bindings`). What the host shows is an argument of a command.
--   Base             the shared helpers: tests, lists, bits, stores and texts.
--
-- A method that takes `&mut self` takes the state and returns the new one. A machine integer is a
-- natural number, with its wrap-around written out where the code can reach it. A map behind a
-- mutex is a store, an association list with keys of any type with decidable equality, and a
-- history of calls is the list of them in the order in which they take the lock.
--
-- Bounds and fuel. `gray_decode` runs 32 rounds, one for each bit of a `u32`. The address loop of
-- `decode` runs eleven rounds, as each either returns or adds an address, and the eleventh
-- returns. The loops of a transmission wait for a clock: the rounds they see are a list, and
-- `none` says that a loop has not returned within it. The worker's loop
-- runs over the jobs it is handed, the end of the list being the closed queue. All other loops are by structural recursion.
--
-- Not modelled: the receive worker's thread; the commands for the spectrum and for an SDR's tuner,
-- those that only answer (the state, the metrics, a udev rule) and the one that ends the core; a
-- command's handler that panics half-way, which the core's loop survives; the metrics and the
-- clock; demodulators, soft-decision decoders and resamplers, which are floating point; the
-- hardware behind a driver or an audio backend; the gRPC service, the inside of the database and
-- the threads.
pub mod Base
pub mod Ids
pub mod Kiss
pub mod Ptt
pub mod Fec
pub mod Framing
pub mod Adsb
pub mod Device
pub mod Mode
pub mod Channel
pub mod Core
pub mod Persist
pub mod Supervisor
