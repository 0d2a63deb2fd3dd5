-- ===== src/Transfer/Runs.antt =====
-- Runs of src/file_transfer.rs on concrete transfers, and the theorems on them.
use marlin_binary_transfer.Common.{
  ◌++◌, arith, ◌≡◌, refl, false, none, some, [], ◌∷◌, panic, Returns, equal, Bytes, true, done, ok,
  err,
}
use marlin_binary_transfer.Text.{codes, from_utf8, splitn, trim, parse, display}
use marlin_binary_transfer.Session.State as SessionState
use marlin_binary_transfer.Session.Reach as SessionReach
use marlin_binary_transfer.Session.State.{
  Session, synced, ack, ascii_line, resend_requested, fatal_error,
}
use marlin_binary_transfer.Transfer.State.{
  heatshrink, uncompressed, auto, io_error, FileEvent, State, FileTransfer, new,
  compression_unsupported,
}
use marlin_binary_transfer.Transfer.Operations.{
  query, open_file, write, close, abort, feed, tick, poll, send,
}
use marlin_binary_transfer.Transfer.Invariant.{IsConsistent}
use marlin_binary_transfer.Transfer.Reach.{IsReachable, start, next}
use marlin_binary_transfer.Transfer.Panics.{transfer_no_panic}
use marlin_binary_transfer.Transfer.Answers.{last_answer}
use marlin_binary_transfer.Transfer.Replies.{poll_reply}
use marlin_binary_transfer.Transfer.Online.{no_call, online_requests}
use marlin_binary_transfer.Session.Operations as SessionOps
use marlin_binary_transfer.Session.Operations.{
  connect, queue, dispatch_if_idle, dispatch_from, dispatch, build, feed_loop, take_line,
  process_line, classify, act, handle_ss, handle_ss_fields, ss_fields, ss_text, ss_parts,
}
use marlin_binary_transfer.Session.Lines.{drain_line, strip_line_endings}
use marlin_binary_transfer.Transfer.Compression.{choose_compression, parse_compression_spec}
use marlin_binary_transfer.Transfer.Spec.{parse_compression_spec-spec_text}
use marlin_binary_transfer.Codec
use marlin_binary_transfer.Codec.{
  encode, encode_header, encode_payload, fletcher16, fletcher_from, fletcher_step,
}
use marlin_binary_transfer.Transfer.Query.{version_reply, poll_version}
use marlin_binary_transfer.Transfer.Query
use marlin_binary_transfer.Transfer.Diagram.{Run, Journey, polled, called, queries, handed}
use marlin_binary_transfer.Transfer.Lifecycle.{Run-Follows}
use marlin_binary_transfer.Transfer.Late.{poll_failed_behind}

abbrev fresh : FileTransfer
fresh = new SessionState.new

fresh-IsReachable : IsReachable fresh
fresh-IsReachable = start SessionReach.start

-- Without a handshake every request panics.
transfer_no_panic_example :
    Returns (feed fresh (codes "ok0") 5)
    × Returns (tick fresh 5)
    × (query fresh auto 5 ≡ panic)
    × (open_file fresh (codes "a.gco") false 5 ≡ panic)
    × (write fresh (codes "G28") 5 ≡ panic)
    × (close fresh 5 ≡ panic)
    × (abort fresh 5 ≡ panic)
transfer_no_panic_example =
    transfer_no_panic auto (codes "a.gco") false (codes "G28") (codes "ok0") 5 fresh-IsReachable

-- A CLOSE that the device answers with an error line among others.
abbrev closing : FileTransfer
closing =
    record (new (record (SessionState.new) {
      events =
          ascii_line (codes "echo:busy")
          ∷ ascii_line (codes "PFT:ioerror")
          ∷ resend_requested 3
          ∷ ack 9
          ∷ [];
    })) { state = State.awaiting_close_reply; negotiated_compression = some uncompressed }

closing-IsConsistent : IsConsistent closing
closing-IsConsistent = record { pending_fits = tt; negotiated = tt; events_fit = tt }

poll_reply_example :
    ((poll closing).1 ≡ some (FileEvent.failed io_error))
    × ((poll closing).0.state ≡ State.failed)
    × ((poll closing).0.pending_ascii ≡ none)
unfolding last_answer equal
poll_reply_example =
    poll_reply closing
      (ascii_line (codes "echo:busy") ∷ ascii_line (codes "PFT:ioerror") ∷ resend_requested 3 ∷ [])
      9 closing-IsConsistent tt (tt, (tt, (tt, tt))) refl refl refl

-- The device confirms OPEN and reports a fatal error in one chunk.
abbrev opening : FileTransfer
opening =
    record (new (record (SessionState.new) {
      events = ascii_line (codes "PFT:success") ∷ ack 2 ∷ fatal_error ∷ [];
    })) { state = State.awaiting_open_reply; negotiated_compression = some uncompressed }

opening-IsConsistent : IsConsistent opening
opening-IsConsistent = record { pending_fits = tt; negotiated = tt; events_fit = tt }

poll_failed_behind_example :
    ((poll opening).1 ≡ some FileEvent.opened)
    × ((poll opening).0.state ≡ State.failed)
    × (write (poll opening).0 (codes "G28") 7 ≡ panic)
    × (close (poll opening).0 7 ≡ panic)
unfolding last_answer equal
poll_failed_behind_example =
    poll_failed_behind opening (ascii_line (codes "PFT:success") ∷ []) 2 (codes "G28") 7
      opening-IsConsistent tt (tt, tt) refl refl refl

-- The handshake: SYNC goes out, and the device answers with its number, block size and version.
abbrev sync_bytes : Bytes
sync_bytes = 0xAD ∷ 0xB5 ∷ 0x00 ∷ 0x01 ∷ 0x00 ∷ 0x00 ∷ 0x01 ∷ 0x03 ∷ []

abbrev connected : Session
connected = record (SessionState.new) {
  in_flight = some (record {
    sync = 0;
    bytes = sync_bytes;
    first_sent = 3;
    last_sent = 3;
    is_sync_handshake = true;
  });
  outbound = sync_bytes ∷ [];
}

abbrev online : Session
online = record (SessionState.new) {
  sync = 5;
  is_synced = true;
  max_block_size = some 512;
  protocol_version = some (codes "0.1.0");
  outbound = sync_bytes ∷ [];
  events = synced 512 (codes "0.1.0") ∷ [];
}

connect_run : connect SessionState.new 3 ≡ done connected
unfolding connect queue dispatch_if_idle dispatch_from dispatch build encode encode_header
    encode_payload fletcher16 fletcher_from fletcher_step Codec.new
connect_run = refl

handshake_run : SessionOps.feed connected (codes "ss5,512, 0.1.0\n") 4 ≡ done online
unfolding SessionOps.feed feed_loop drain_line take_line strip_line_endings process_line classify
    act handle_ss handle_ss_fields ss_fields ss_text ss_parts from_utf8 splitn trim parse
    dispatch_if_idle dispatch_from
handshake_run = refl

online-IsReachable : SessionReach.IsReachable online
online-IsReachable =
    SessionReach.next (SessionReach.next SessionReach.start (SessionReach.connects 3 connect_run))
      (SessionReach.feeds (codes "ss5,512, 0.1.0\n") 4 handshake_run)

online_requests_example :
    Returns (query (new online) auto 7)
    × (open_file (new online) (codes "a.gco") false 7 ≡ panic)
    × (write (new online) (codes "G28") 7 ≡ panic)
    × (close (new online) 7 ≡ panic)
    × (abort (new online) 7 ≡ panic)
online_requests_example =
    online_requests auto (codes "a.gco") false (codes "G28") 7 online-IsReachable refl no_call

parse_compression_spec-spec_text_example :
    (parse_compression_spec (codes "heatshrink,8,4") ≡ heatshrink 8 4)
    × (choose_compression auto (parse_compression_spec (codes "heatshrink,8,4"))
        ≡ ok (heatshrink 8 4))
    × (choose_compression (heatshrink 11 5) (parse_compression_spec (codes "heatshrink,8,4"))
        ≡ ok (heatshrink 11 5))
    × (choose_compression uncompressed (parse_compression_spec (codes "heatshrink,8,4"))
        ≡ ok uncompressed)
    × (choose_compression auto (parse_compression_spec (codes "none")) ≡ ok uncompressed)
    × (choose_compression (heatshrink 11 5) (parse_compression_spec (codes "none"))
        ≡ err compression_unsupported)
unfolding display
parse_compression_spec-spec_text_example =
    parse_compression_spec-spec_text 8 4 11 5 (omega arith) (omega arith)

-- A transfer on a session that has a packet in flight, and a fatal error among its events.
abbrev broken : Session
broken = record (SessionState.new) {
  is_synced = true;
  in_flight =
      some
        (record { sync = 0; bytes = []; first_sent = 0; last_sent = 0; is_sync_handshake = false });
  events = fatal_error ∷ [];
}

asked : Returns (query (new broken) auto 5)
unfolding query send SessionOps.send queue dispatch_if_idle dispatch_from
asked = (_, refl)

-- From `Idle` over `AwaitingQueryReply` to `Failed`.
asked_run : Run (poll asked.0).0 (handed (poll asked.0).1)
asked_run = polled (called Run.start (queries auto 5 asked.1))

Run-Follows_example :
    Journey (poll asked.0).0.state (handed (poll asked.0).1 ++ (poll asked.0).0.out_events)
Run-Follows_example = Run-Follows asked_run

-- The device has no heatshrink, and the caller asks for it.
abbrev wanting : FileTransfer
wanting = record (new SessionState.new) { requested_compression = heatshrink 8 4 }

poll_version_example :
    poll
      (Query.asked (ascii_line (version_reply (codes "1.0") (codes "none")) ∷ (ack 0 ∷ [])) wanting)
    ≡ (
      record (Query.asked [] wanting) {
        state = State.failed;
        negotiated_compression = none;
        advertised_version = some (codes "1.0");
      },
      some (FileEvent.failed compression_unsupported),
    )
unfolding choose_compression parse_compression_spec equal
poll_version_example = poll_version wanting (codes "1.0") (codes "none") 0 (omega arith)
