-- ===== src/Lib.antt =====
-- Ironpulse, an industrial monitoring service: Modbus devices are polled, readings are stored,
-- checked against limits and by anomaly detectors, and exported to segment files.
--
-- Each file below models one part of the program; a function keeps the name that it has in the
-- source, in snake case.
-- * Protocol/Frame (src/protocol/frame_codec.cpp): bytes are numbers below 256, a buffer is their
--   list. `stray` stands for what a read past the end of a buffer would give.
-- * Protocol/Plan and Protocol/Decoder (src/protocol/register_decoder.cpp): `std::sort` is an
--   insertion sort; `double` is the interface Prelude/Double. No law of it is assumed, but
--   for the literals of the defaults (HasDefaults in Core/Config/Devices/Sound).
-- * Core/Config/Types (include/ironpulse/core/config.hpp): the configuration structures.
-- * Storage/Ring (include/ironpulse/storage/ring_buffer.hpp): `size_t` sums wrap at 2 ^ 64; the
--   lock of a method makes it one step.
-- * Analytics/Detector (include/ironpulse/analytics/detector.hpp and strategies/): the three
--   detectors; `observe` returns the new object with its result.
-- * Analytics/RuleEngine (include/ironpulse/analytics/rule_engine.hpp): the rules by sensor, with
--   times in ticks of the clock; alerts are returned in the order in which they are published.
-- * Analytics/Factory (include/ironpulse/analytics/detector_factory.hpp): rules from configuration.
-- * Storage/Wal (include/ironpulse/storage/wal_writer.hpp): a directory is a map from sensor ids to
--   the bytes of their files; the memory of a `double` is a 64-bit number given by `to_bits` and
--   `of_bits`. `read_records` has the length of the file as fuel, and each round takes 16 bytes.
--   A flush is taken to succeed; a pruning says which files it could write and rename.
-- * Storage/Retention (include/ironpulse/storage/retention_policy.hpp): one pruning of a file.
-- * Storage/Series (include/ironpulse/storage/series_store.hpp): the buffers by sensor, filled from the
--   log at the first call for a sensor; `record` is `record_sample` here.
-- * Core/Config/Failure, Text, Parser, Devices, Overrides, Validate, Load (src/core/config.cpp): the
--   loading of the configuration. The JSON library is a parameter `view` that says what kind of value
--   a value is; `getenv` is a function; an exception is `failed` with its path and kind of problem.
--   `expand` has the length of the text as fuel, and each round takes a character.
-- * Core/AlertLog and Core/DeviceRegistry (include/ironpulse/core/alert_log.hpp, device_registry.hpp).
-- * Ingest/Spsc (include/ironpulse/ingest/ring_buffer.hpp): the queue between two threads. Each
--   access that the other thread can see is one step, in the order that acquire and release give;
--   a list of events is one interleaving. The destructor's loop has the capacity as fuel.
-- * Ingest/Crc and Ingest/Serializer (include/ironpulse/ingest/serializer.hpp): the checksum and the
--   batches of samples. The record `Cpu` stands for the instructions of a processor.
-- * Ingest/Segment (src/ingest/segment.cpp): the reader of segment files and the bytes in front of
--   the batches. `find_batch` and `read_batches` have the length of the file as fuel, and each round
--   takes at least 8 bytes. The decoding of the tag table is a parameter.
-- * Ingest/Segment/Writer (src/ingest/segment.cpp): the writer, where the record `Disk` has what the
--   file system answers in a call. A file name is its place in the order of names.
-- * Protocol/Client (src/protocol/modbus_client.cpp): the client as a state machine. A completion of
--   the socket or the resolver and the end of a wait are events; the strand runs one handler at a
--   time; callers keep to one request at a time, as include/ironpulse/protocol/modbus_client.hpp asks.
-- * Api/Ws (src/api/ws_server.cpp): one WebSocket connection after its handshake, as a state machine:
--   a posted frame, the end of a write and the end of a read are events, on one strand. A result is
--   none where the code is undefined.
--
-- Not modelled: the poller (src/protocol/device_poller.cpp), the names of segments and the threads
-- of the export (src/ingest), the HTTP server, the handshake and the list of connections of the
-- WebSocket server (src/api), the notifier (src/notify), the event bus, thread pool, metrics and
-- logger (include/ironpulse/core) and the wiring in src/main.cpp; the dashboard (web) is written in
-- another language.
pub mod Api
pub mod Prelude
pub mod Core
pub mod Storage
pub mod Protocol
pub mod Analytics
pub mod Ingest
