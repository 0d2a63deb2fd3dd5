-- ===== src/Device/Hosts.antt =====
-- The session of src/session.rs while it exchanges one packet at a time with a device.
use marlin_binary_transfer.Common.{
  ℕ, ◌+◌, ◌%◌, ◌<◌, ◌≡◌, refl, sym, ◌∙◌, true, false, none, some, List, [], ◌∷◌, ◌++◌, Bytes,
  length, All, le→leb, eq→==, done,
}
use marlin_binary_transfer.Text.{Str}
use marlin_binary_transfer.Text.Plain.{IsPrintable}
use marlin_binary_transfer.Codec.{max_payload}
use marlin_binary_transfer.Codec.Frame.{frame}
use marlin_binary_transfer.Session.State.{Event, ack, ascii_line, BytesBuilder, InFlight, Session}
use marlin_binary_transfer.Session.Operations.{
  queue, dispatch, dispatch_from, dispatch_if_idle, send, feed, handle_ok, handle_ok_from,
}
use marlin_binary_transfer.Session.Build.{IsSendable, packet, build-frame}
use marlin_binary_transfer.Session.Chunks.{feed-feed}
use marlin_binary_transfer.Session.Replies.{ok_text, with_newline, feed-ok_text}
use marlin_binary_transfer.Session.Handshake.{feed-pft}

-- A session that waits for the reply to a packet, with chunks still to be written.
abbrev pub pending : List Bytes → InFlight → Session → Session
pending outbound flight s = record s {
  outbound = outbound;
  in_flight = some flight;
  queued = [];
  events = [];
  inbound_buf = [];
}

-- A synced session with nothing to do, whose next packet has the given number.
abbrev pub idle : (number : ℕ) → Session → Session
idle number s = record s {
  sync = number;
  is_synced = true;
  in_flight = none;
  queued = [];
  outbound = [];
  events = [];
  inbound_buf = [];
}

-- It has written the packet, first and last at these times, and waits for the reply.
abbrev pub waiting : BytesBuilder → (number first last : ℕ) → Session → Session
waiting b number first last s = record (idle number s) {
  in_flight = some (record {
    sync = number;
    bytes = frame (packet b number);
    first_sent = first;
    last_sent = last;
    is_sync_handshake = false;
  });
}

-- The frame is still to be written.
abbrev pub sending : BytesBuilder → (number first last : ℕ) → Session → Session
sending b number first last s = record (waiting b number first last s) {
  outbound = frame (packet b number) ∷ [];
}

-- The packet is acknowledged, behind other events.
abbrev pub answered : List Event → (number : ℕ) → Session → Session
answered events number s = record (idle ((number + 1) % 256) s) {
  events = events ++ ack number ∷ [];
}

pub send-sending :
    (b : BytesBuilder) (number now : ℕ) (s : Session)
    → IsSendable b
    → number < 256
    → send (idle number s) b.protocol b.packet_type b.payload now
      ≡ done (sending b number now now s)
unfolding send queue dispatch_if_idle dispatch_from dispatch
send-sending b number now s v h = rw (
  le→leb b.protocol 15 v.protocol_fits,
  le→leb b.packet_type 15 v.packet_type_fits,
  le→leb (length b.payload) max_payload v.payload_fits,
  build-frame b number v h,
)

feed-ok_after :
    (b : BytesBuilder) (number first last now : ℕ) (s : Session) (events : List Event)
    → number < 256
    → feed
        (record (waiting b number first last s) { events = events })
        (with_newline (ok_text number))
        now
      ≡ done (answered events number s)
feed-ok_after b number first last now s events h =
    feed-ok_text (record (waiting b number first last s) { events = events }) number now h
    ∙ unfold handle_ok handle_ok_from dispatch_if_idle dispatch_from in
      rw (eq→== number number refl)

pub feed-answered :
    (b : BytesBuilder) (number first last now : ℕ) (s : Session)
    → number < 256
    → feed (waiting b number first last s) (with_newline (ok_text number)) now
      ≡ done (answered [] number s)
feed-answered b number first last now s h = feed-ok_after b number first last now s [] h

pub feed-answered_line :
    (b : BytesBuilder) (number first last now : ℕ) (text : Str) (s : Session)
    → number < 256
    → All IsPrintable text
    → feed
        (waiting b number first last s)
        (with_newline (b'P' ∷ text) ++ with_newline (ok_text number))
        now
      ≡ done (answered (ascii_line (b'P' ∷ text) ∷ []) number s)
feed-answered_line b number first last now text s h printable =
    sym (
      feed-feed (waiting b number first last s) (with_newline (b'P' ∷ text))
        (with_newline (ok_text number)) now)
    ∙ rw (feed-pft (waiting b number first last s) text now printable)
        (feed-ok_after b number first last now s (ascii_line (b'P' ∷ text) ∷ []) h)
