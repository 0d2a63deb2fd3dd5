-- ===== src/Session/Runs.antt =====
-- Runs of src/session.rs on concrete sessions, and the theorems on them.
use marlin_binary_transfer.Common.{
  ◌≡◌, refl, arith, true, some, List, [], ◌∷◌, done, panic, ◌>>=◌, Returns, none,
}
use marlin_binary_transfer.Text.{codes, trim}
use marlin_binary_transfer.Codec.Frame.{frame}
use marlin_binary_transfer.Session.State.{
  ack, resend_requested, InFlight, BytesBuilder, Session, new, push_event, poll_outbound, synced,
}
use marlin_binary_transfer.Session.Operations.{connect, send, feed, tick, handle_ok}
use marlin_binary_transfer.Session.Build.{packet}
use marlin_binary_transfer.Session.Valid.{IsValid}
use marlin_binary_transfer.Session.Chunks.{with_buf, feed-feed}
use marlin_binary_transfer.Session.Reach.{
  polls_outbound, IsReachable, start, next, IsReachable-IsValid, no_panic,
}
use marlin_binary_transfer.Session.Fifo.{send_all, ack_all, idle_after, send_all-ack_all}
use marlin_binary_transfer.Session.Replies.{
  ok_text, rs_text, with_newline, feed-ok_text, feed-rs_text,
}
use marlin_binary_transfer.Session.Handshake.{ss_text_of, feed-ss_text_of}
use marlin_binary_transfer.Session.Timers.{Retries, tick_each-Retries}

-- After the handshake of a device that counts from 255, with the buffer of the device's choice.
abbrev synced_session : Session
synced_session = record new {
  sync = 255;
  is_synced = true;
  max_block_size = some 512;
  protocol_version = some (codes "0.1.0");
}

polled : IsReachable (poll_outbound new).0
polled = next start polls_outbound

IsReachable-IsValid_example : IsValid (poll_outbound new).0
IsReachable-IsValid_example = IsReachable-IsValid polled

-- Before the handshake `send` panics.
no_panic_example :
    Returns (connect new 5)
    × Returns (feed new (codes "ok0") 5)
    × Returns (tick new 5)
    × (send new 1 3 (codes "hello") 5 ≡ panic)
no_panic_example = no_panic 1 3 (codes "hello") (codes "ok0") 5 start

feed-feed_example :
    (feed new (codes "o") 5 >>= λ t. feed t (codes "k0") 5) ≡ feed new (codes "ok0") 5
feed-feed_example = feed-feed new (codes "o") (codes "k0") 5

-- OPEN, WRITE, and CLOSE, across the wrap of the sync number.
abbrev three_packets : List BytesBuilder
three_packets =
    record { protocol = 1; packet_type = 1; payload = 0 ∷ 0 ∷ b'a' ∷ 0 ∷ [] }
    ∷ record { protocol = 1; packet_type = 3; payload = codes "G28" }
    ∷ record { protocol = 1; packet_type = 2; payload = [] }
    ∷ []

send_all-ack_all_example :
    (send_all three_packets 7 synced_session >>= ack_all three_packets 7)
    ≡ done (idle_after synced_session three_packets)
send_all-ack_all_example =
    send_all-ack_all synced_session three_packets 7 refl (omega arith) refl refl (omega arith)

-- The sync numbers are 255, 0 and 1, and the next is 2.
after_three : (idle_after synced_session three_packets).sync ≡ 2
after_three = refl

acks_of_three : (idle_after synced_session three_packets).events ≡ ack 255 ∷ ack 0 ∷ ack 1 ∷ []
acks_of_three = refl

feed-ok_text_example :
    feed (with_buf [] synced_session) (with_newline (ok_text 255)) 7
    ≡ handle_ok (with_buf [] synced_session) 255 7
feed-ok_text_example = feed-ok_text synced_session 255 7 (omega arith)

feed-rs_text_example :
    feed (with_buf [] synced_session) (with_newline (rs_text 42)) 7
    ≡ done (push_event (with_buf [] synced_session) (resend_requested 42))
feed-rs_text_example = feed-rs_text synced_session 42 7 (omega arith)

abbrev in_flight : InFlight
in_flight = record {
  sync = 0;
  bytes = frame (packet (record { protocol = 0; packet_type = 1; payload = [] }) 0);
  first_sent = 0;
  last_sent = 0;
  is_sync_handshake = true;
}

abbrev hoping : Session
hoping = record new { in_flight = some in_flight }

-- SYNC is in flight, and another device counts from 263.
feed-ss_text_of_example :
    feed (with_buf [] hoping) (with_newline (ss_text_of 263 512 (codes "1.0"))) 9
    ≡ done (record (with_buf [] hoping) {
      sync = 7;
      max_block_size = some 512;
      protocol_version = some (trim (codes "1.0"));
      is_synced = true;
      in_flight = none;
      events = synced 512 (trim (codes "1.0")) ∷ [];
    })
feed-ss_text_of_example =
    feed-ss_text_of hoping 263 512 9 (codes "1.0") (omega arith) (omega arith)
      ((omega arith, omega arith), ((omega arith, omega arith), ((omega arith, omega arith), tt)))
      refl

-- With the default timeouts, ticks after 0.5, 1.5, and 3 seconds.
tick_each-Retries_example : Retries (500_000_000 ∷ 1_500_000_000 ∷ 3_000_000_000 ∷ []) new in_flight
tick_each-Retries_example =
    tick_each-Retries (500_000_000 ∷ 1_500_000_000 ∷ 3_000_000_000 ∷ []) new in_flight (omega arith)
      (omega arith) (omega arith) (omega arith)
