-- ===== src/Device/Querying.antt =====
-- QUERY of `upload` in src/adapters over the fake device.
use marlin_binary_transfer.Common.{
  ◌∙◌, ℕ, suc, ◌<◌, ◌≤◌, ◌≡◌, ◌≢◌, refl, sym, arith, some, [], ◌∷◌, ◌++◌, Bytes, length,
  length-append, All, All-append, equal, ok, done, Option,
}
use marlin_binary_transfer.Text.{Str, codes, display}
use marlin_binary_transfer.Text.Plain.{IsPrintable, length-display}
use marlin_binary_transfer.Session.State.{ascii_line, BytesBuilder, Session}
use marlin_binary_transfer.Session.Replies.{ok_text, with_newline}
use marlin_binary_transfer.Transfer.State.{
  Compression, FileTransfer, FileEvent, State, uncompressed, heatshrink,
}
use marlin_binary_transfer.Transfer.Operations as TransferOps
use marlin_binary_transfer.Transfer.Operations.{
  open_payload, comp_byte, query, open_file, write, close, drain_events, handle_session_event,
  handle_ascii_line, ascii_tail, reply_line, handle_ack, on_ack, version_line, version_fields,
}
use marlin_binary_transfer.Adapters.Upload.{call, negotiated_verdict, drive_until_negotiated}
use marlin_binary_transfer.Device.{FakeDevice, request, answer, CompressionSpec, render}
use marlin_binary_transfer.Device.Wire.{transport}
use marlin_binary_transfer.Device.Hosts.{idle, sending, answered, send-sending, feed-answered_line}
use marlin_binary_transfer.Device.Steps.{next, phase}
use marlin_binary_transfer.Device.Exchanges.{wire, IsAnswered}
use marlin_binary_transfer.Device.Patience.{Patience, IsPaced, Succeeds}
use marlin_binary_transfer.Device.Packets.{file_packet-Succeeds}
use marlin_binary_transfer.Transfer.Query.{poll_version}
use marlin_binary_transfer.Transfer.Spec.{parse_compression_spec-spec_text}
use marlin_binary_transfer.Session.Handshake.{display-IsPrintable}
use marlin_binary_transfer.Transfer.Compression.{choose_compression, parse_compression_spec}

abbrev pub query_packet : BytesBuilder
query_packet = record { protocol = 1; packet_type = 0; payload = [] }

-- What the host reads in the spec of the device.
abbrev pub advertised : CompressionSpec → Compression
advertised CompressionSpec.uncompressed = uncompressed
advertised (CompressionSpec.heatshrink window lookahead) = heatshrink window lookahead

-- The parameters are bytes.
abbrev pub IsSpec : CompressionSpec → Type 0
IsSpec CompressionSpec.uncompressed = Unit
IsSpec (CompressionSpec.heatshrink window lookahead) = (window < 256) × (lookahead < 256)

none_lem : parse_compression_spec (codes "none") ≡ uncompressed
unfolding parse_compression_spec equal
none_lem = refl

render-advertised :
    (spec : CompressionSpec) → IsSpec spec → parse_compression_spec (render spec) ≡ advertised spec
render-advertised CompressionSpec.uncompressed h = none_lem
render-advertised (CompressionSpec.heatshrink window lookahead) (p, q) =
    (parse_compression_spec-spec_text window lookahead 0 0 p q).0

render-IsPrintable : (spec : CompressionSpec) → All IsPrintable (render spec)
render-IsPrintable CompressionSpec.uncompressed = omega arith
render-IsPrintable (CompressionSpec.heatshrink window lookahead) =
    All-append IsPrintable (codes "heatshrink,") _ (omega arith) (
      All-append IsPrintable (display 3 window) _ (display-IsPrintable 3 window)
        ((omega arith, omega arith), display-IsPrintable 3 lookahead))

length-render : (spec : CompressionSpec) → length (render spec) ≤ 18
length-render CompressionSpec.uncompressed = omega arith
length-render (CompressionSpec.heatshrink window lookahead) = omega (
  arith,
  length-append (display 3 window) (b',' ∷ display 3 lookahead),
  length-display 3 window,
  length-display 3 lookahead,
)

-- The version line without its first byte.
abbrev version_text : Bytes → CompressionSpec → Bytes
version_text version spec = codes "FT:version:" ++ (version ++ (b':' ∷ render spec))

abbrev version_bytes : Bytes → CompressionSpec → ℕ → Bytes
version_bytes version spec number =
    with_newline (version_text version spec) ++ with_newline (ok_text number)

length-version_bytes :
    (version : Bytes) (spec : CompressionSpec) (number : ℕ)
    → length version ≤ 900
    → length (b'P' ∷ version_bytes version spec number) ≤ 1024
length-version_bytes version spec number h = omega (
  arith,
  length-append (with_newline (version_text version spec)) (with_newline (ok_text number)),
  length-append (version_text version spec) (10 ∷ []),
  length-append version (b':' ∷ render spec),
  length-render spec,
  length-append (ok_text number) (10 ∷ []),
  length-display 3 number,
)

version_text-IsPrintable :
    (version : Bytes) (spec : CompressionSpec)
    → All IsPrintable version
    → All IsPrintable (version_text version spec)
version_text-IsPrintable version spec h =
    All-append IsPrintable (codes "FT:version:") _ (omega arith)
      (All-append IsPrintable version _ h ((omega arith, omega arith), render-IsPrintable spec))

query-IsAnswered :
    (number : ℕ) (d : FakeDevice)
    → number < 256
    → length d.protocol_version ≤ 900
    → IsAnswered query_packet number d d b'P'
        (version_bytes d.protocol_version d.compression number)
unfolding answer request
query-IsAnswered number d h l = record {
  sendable = record {
    protocol_fits = omega arith;
    packet_type_fits = omega arith;
    payload_fits = omega arith;
  };
  numbered = h;
  handled = λ again. refl;
  fits = length-version_bytes d.protocol_version d.compression number l;
}

-- What the negotiation leaves in the transfer.
abbrev pub agreed : (requested negotiated : Compression) → Str → FileTransfer → FileTransfer
agreed requested negotiated version ft = record ft {
  requested_compression = requested;
  negotiated_compression = some negotiated;
  advertised_version = some version;
}

module _ (clock : ℕ → ℕ) (requested : Compression) where
  pub call-query :
      (again : Option ℕ) (number calls : ℕ) (s : Session) (ft : FileTransfer) (d : FakeDevice)
      → number < 256
      → call
          (transport clock)
          (λ ft now. query ft requested now)
          (wire again d calls, phase State.idle (idle number s) ft)
        ≡ done (
          (
            wire again d (suc calls),
            phase State.awaiting_query_reply
                (sending query_packet number (clock calls) (clock calls) s)
                (record ft { requested_compression = requested }),
          ),
          ok tt,
        )
  unfolding query TransferOps.send
  call-query again number calls s ft d h = rw (
      send-sending query_packet number (clock calls) s
        (record {
          protocol_fits = omega arith;
          packet_type_fits = omega arith;
          payload_fits = omega arith;
        })
        h)

  -- The device's version has no colon, and its spec and the request agree on a compression.
  module _ (negotiated : Compression) (version : Bytes) (spec : CompressionSpec)
      (plain : All (λ c. c ≢ b':') version) (proper : IsSpec spec)
      (chosen : choose_compression requested (advertised spec) ≡ ok negotiated) where
    poll-version :
        (number : ℕ) (s : Session) (ft : FileTransfer)
        → TransferOps.poll (
            phase State.awaiting_query_reply
              (answered (ascii_line (b'P' ∷ version_text version spec) ∷ []) number s)
              (record ft { requested_compression = requested }))
          ≡ (
            phase State.negotiated (idle (next number) s) (agreed requested negotiated version ft),
            some (FileEvent.negotiated version negotiated),
          )
    poll-version number s ft =
        poll_version
          (phase State.awaiting_query_reply (idle (next number) s)
            (record ft { requested_compression = requested }))
          version (render spec) number plain
        ∙ rw (render-advertised spec proper, chosen)

    pub drive-query :
        (again : Option ℕ) (number calls : ℕ) (s : Session) (ft : FileTransfer) (d : FakeDevice)
        → Patience again clock
        → IsPaced s
        → number < 256
        → d.protocol_version ≡ version
        → d.compression ≡ spec
        → All IsPrintable version
        → length version ≤ 900
        → Succeeds clock d
            (phase State.negotiated (idle (next number) s) (agreed requested negotiated version ft))
            (ok negotiated)
            (drive_until_negotiated (transport clock) (
              wire again d (suc calls),
              phase State.awaiting_query_reply
                  (sending query_packet number (clock calls) (clock calls) s)
                  (record ft { requested_compression = requested }),
            ))
    unfolding drive_until_negotiated negotiated_verdict
    drive-query again number calls s ft d patience paced h e f printable l =
        file_packet-Succeeds clock _ negotiated_verdict again query_packet number d d b'P'
          (version_bytes version spec number) calls s
          (answered (ascii_line (b'P' ∷ version_text version spec) ∷ []) number s)
          (phase State.awaiting_query_reply s (record ft { requested_compression = requested }))
          (phase State.negotiated (idle (next number) s) (agreed requested negotiated version ft))
          (FileEvent.negotiated version negotiated) (ok negotiated) patience paced (answers e f)
          (λ last now.
            feed-answered_line query_packet number (clock calls) last now
              (version_text version spec) s h (version_text-IsPrintable version spec printable))
          (poll-version number s ft) refl
      where
        answers :
            d.protocol_version ≡ version
            → d.compression ≡ spec
            → IsAnswered query_packet number d d b'P' (version_bytes version spec number)
        answers e f = rw (sym e, sym f) (query-IsAnswered number d h (rw e l))
