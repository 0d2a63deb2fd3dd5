-- ===== src/Session/Operations.antt =====
-- The operations of `Session` in src/session.rs that move packets and lines. `now` is the caller's
-- clock. An operation that can reach a panic returns `Checked`.
use marlin_binary_transfer.Common.{
  ℕ, zero, suc, ◌+◌, ◌-◌, ◌%◌, Bool, true, false, not, Option, none, some, List, [], ◌∷◌, ◌++◌,
  Bytes, leb, ◌==◌, equal, if◌then◌else◌, is_empty, length, Result, ok, err, Checked, done, panic,
  stuck, assert, ◌>>=◌, ◌>>◌,
}
use marlin_binary_transfer.Text.{Str, codes, from_utf8, trim, parse, splitn, display}
use marlin_binary_transfer.Codec
use marlin_binary_transfer.Codec.{Packet, EncodeError, max_payload, encode}
use marlin_binary_transfer.Session.Lines.{
  strip_line_endings, strip_prefix, parse_decimal_u8, drain_line,
}
use marlin_binary_transfer.Session.State.{
  synced, ack, resend_requested, ascii_line, fatal_error, out_of_sync, timeout, InFlight,
  BytesBuilder, Queued, Session, push_event,
}

-- `.expect(..)` on the results of `Packet::new` and `codec::encode`.
expect_encoded : Bytes × Result ℕ EncodeError → Checked Bytes
expect_encoded (out, ok n) = done out
expect_encoded (out, err e) = panic

encode_packet : Result Packet EncodeError → Checked Bytes
encode_packet (ok packet) = expect_encoded (encode packet [])
encode_packet (err e) = panic

-- `BytesBuilder::build`.
unfoldable pub build : BytesBuilder → ℕ → Checked Bytes
unfolding encode_packet expect_encoded
build b sync = encode_packet (Codec.new sync b.protocol b.packet_type b.payload)

unfoldable pub queue : Session → (protocol packet_type : ℕ) → Bytes → Bool → Session
queue s protocol packet_type payload is_sync_handshake =
    let builder : BytesBuilder = record {
      protocol = protocol;
      packet_type = packet_type;
      payload = payload;
    } in
    record s {
      queued =
          s.queued
          ++ record { bytes_without_sync = builder; is_sync_handshake = is_sync_handshake } ∷ [];
    }

-- `dispatch_if_idle` on an idle session, with `next` taken from the queue.
unfoldable pub dispatch : Session → Queued → List Queued → ℕ → Checked Session
dispatch s next rest now = do
  bytes ← build next.bytes_without_sync s.sync
  done (record s {
    queued = rest;
    outbound = s.outbound ++ bytes ∷ [];
    in_flight = some (record {
      sync = s.sync;
      bytes = bytes;
      first_sent = now;
      last_sent = now;
      is_sync_handshake = next.is_sync_handshake;
    });
  })

unfoldable pub dispatch_from : Option InFlight → List Queued → Session → ℕ → Checked Session
dispatch_from (some flight) queued s now = done s
dispatch_from none [] s now = done s
dispatch_from none (next ∷ rest) s now = dispatch s next rest now

unfoldable pub dispatch_if_idle : Session → ℕ → Checked Session
unfolding dispatch_from
dispatch_if_idle s now = dispatch_from s.in_flight s.queued s now

unfoldable pub connect : Session → ℕ → Checked Session
unfolding queue
connect s now = dispatch_if_idle (queue s 0 1 [] true) now

unfoldable pub send : Session → (protocol packet_type : ℕ) → Bytes → ℕ → Checked Session
unfolding queue
send s protocol packet_type payload now = do
  assert s.is_synced
  assert (leb protocol 0xF)
  assert (leb packet_type 0xF)
  assert (leb (length payload) max_payload)
  dispatch_if_idle (queue s protocol packet_type payload false) now

-- `handle_ok` with the packet in flight.
unfoldable pub handle_ok_from : Option InFlight → Session → ℕ → ℕ → Checked Session
handle_ok_from none s n now = done (push_event s (ascii_line (codes "ok" ++ display 3 n)))
handle_ok_from (some flight) s n now =
    if flight.is_sync_handshake
    then done (push_event s (out_of_sync flight.sync n))
    else if not (n == flight.sync)
    then done (push_event s (out_of_sync flight.sync n))
    else dispatch_if_idle
        (push_event (record s { in_flight = none; sync = (s.sync + 1) % 256 }) (ack n)) now

unfoldable pub handle_ok : Session → ℕ → ℕ → Checked Session
unfolding handle_ok_from
handle_ok s n now = handle_ok_from s.in_flight s n now

-- The three fields behind `ss`: the sync number as a u8, the block size and the version.
abbrev pub ss_numbers : Str → Option ℕ → Option ℕ → Option (ℕ × ℕ × Str)
ss_numbers version (some new_sync) (some max_block_size) =
    some (new_sync % 256, max_block_size, trim version)
ss_numbers version _ _ = none

unfoldable pub ss_parts : List Str → Option (ℕ × ℕ × Str)
ss_parts (sync_str ∷ (bsize_str ∷ (version_str ∷ []))) =
    ss_numbers version_str (parse 65535 (trim sync_str)) (parse 65535 (trim bsize_str))
ss_parts _ = none

unfoldable pub ss_text : Option Str → Option (ℕ × ℕ × Str)
unfolding ss_parts
ss_text none = none
ss_text (some s) = ss_parts (splitn 3 b',' s)

unfoldable pub ss_fields : Bytes → Option (ℕ × ℕ × Str)
unfolding ss_text
ss_fields rest = ss_text (from_utf8 rest)

-- The handshake packet in flight, if there is one, is consumed; another packet stays in flight.
abbrev pub consume_handshake : Option InFlight → Option InFlight
consume_handshake none = none
consume_handshake (some flight) = if flight.is_sync_handshake then none else some flight

unfoldable pub handle_ss_fields : Option (ℕ × ℕ × Str) → Session → ℕ → Checked Session
handle_ss_fields none s now = done s
handle_ss_fields (some (new_sync, max_block_size, version)) s now =
    let s' : Session = record s {
      sync = new_sync;
      max_block_size = some max_block_size;
      protocol_version = some version;
      is_synced = true;
      in_flight = consume_handshake s.in_flight;
    } in
    dispatch_if_idle (push_event s' (synced max_block_size version)) now

unfoldable pub handle_ss : Session → Bytes → ℕ → Checked Session
unfolding handle_ss_fields
handle_ss s rest now = handle_ss_fields (ss_fields rest) s now

-- The number behind a prefix, if the line has both.
unfoldable pub numbered : Bytes → Bytes → Option ℕ
numbered line prefix = elim (strip_prefix line prefix) [
  | none ↦ none
  | some rest ↦ parse_decimal_u8 rest
]

-- What `process_line` finds in a line: its tests in their order.
pub data Line : Type 0 where
  ok_line rs_line : (n : ℕ) → Line
  ss_line : (rest : Bytes) → Line
  fe_line : Line
  text_line : (text : Str) → Line
  garbage : Line

abbrev line_of_text : Option Str → Line
line_of_text none = garbage
line_of_text (some text) = text_line text

unfoldable pub classify_word : Bytes → Option Bytes → Line
classify_word line (some rest) = ss_line rest
classify_word line none = if equal line (codes "fe") then fe_line else line_of_text (from_utf8 line)

unfoldable pub classify_rs : Bytes → Option ℕ → Line
unfolding classify_word
classify_rs line (some n) = rs_line n
classify_rs line none = classify_word line (strip_prefix line (codes "ss"))

unfoldable pub classify_ok : Bytes → Option ℕ → Line
unfolding classify_rs
classify_ok line (some n) = ok_line n
classify_ok line none = classify_rs line (numbered line (codes "rs"))

unfoldable pub classify : Bytes → Line
unfolding classify_ok numbered strip_prefix parse_decimal_u8
classify line = classify_ok line (numbered line (codes "ok"))

-- What `process_line` does with it.
unfoldable pub act : Line → Session → ℕ → Checked Session
act (ok_line n) s now = handle_ok s n now
act (rs_line n) s now = done (push_event s (resend_requested n))
act (ss_line rest) s now = handle_ss s rest now
act fe_line s now = done (push_event s fatal_error)
act (text_line text) s now = done (push_event s (ascii_line text))
act garbage s now = done s

unfoldable pub process_line : Session → Bytes → ℕ → Checked Session
unfolding act
process_line s line now = act (classify line) s now

-- The body of the loop of `feed` once a line is drained: an empty line is passed over.
unfoldable pub take_line : Session → Bytes → ℕ → Checked Session
take_line s line now =
    let trimmed = strip_line_endings line in
    if is_empty trimmed then done s else process_line s trimmed now

-- The `while let` loop of `feed`. Each round takes a line of at least one byte from the buffer.
unfoldable pub feed_loop : ℕ → Session → ℕ → Checked Session
feed_loop zero s now = stuck
feed_loop (suc fuel) s now = elim (drain_line s.inbound_buf) [
  | none ↦ done s
  | some (line, rest) ↦
      take_line (record s { inbound_buf = rest }) line now >>= λ t. feed_loop fuel t now
]

-- One round more than there are bytes in the buffer: the last round finds no newline.
unfoldable pub feed : Session → Bytes → ℕ → Checked Session
feed s bytes now =
    let buf = s.inbound_buf ++ bytes in
    feed_loop (suc (length buf)) (record s { inbound_buf = buf }) now

-- `now.saturating_duration_since(earlier)`.
abbrev pub saturating_duration_since : ℕ → ℕ → ℕ
saturating_duration_since now earlier = now - earlier

-- `tick` with the packet in flight.
unfoldable pub tick_from : Option InFlight → Session → ℕ → Checked Session
tick_from none s now = done s
tick_from (some flight) s now =
    if leb s.total_timeout (saturating_duration_since now flight.first_sent)
    then dispatch_if_idle (push_event (record s { in_flight = none }) (timeout flight.sync)) now
    else if leb s.response_timeout (saturating_duration_since now flight.last_sent)
    then done (record s {
      outbound = s.outbound ++ flight.bytes ∷ [];
      in_flight = some (record flight { last_sent = now });
    })
    else done s

unfoldable pub tick : Session → ℕ → Checked Session
unfolding tick_from
tick s now = tick_from s.in_flight s now
