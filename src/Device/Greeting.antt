-- ===== src/Device/Greeting.antt =====
-- The trigger and SYNC of `upload` in src/adapters over the fake device.
use marlin_binary_transfer.Common.{
  ℕ, suc, ◌%◌, ◌<◌, ◌≤◌, ◌≡◌, refl, ◌∙◌, arith, true, some, [], ◌∷◌, ◌++◌, length, length-append,
  All, ok, done, Option, none, false,
}
use marlin_binary_transfer.Text.{Str, codes, display, trim}
use marlin_binary_transfer.Text.Plain.{IsPrintable, length-display}
use marlin_binary_transfer.Codec.{
  fletcher16, fletcher_from, fletcher_step, decode, decode_header, decode_payload,
}
use marlin_binary_transfer.Codec.Frame.{frame, header, body}
use marlin_binary_transfer.Session.State.{
  synced, BytesBuilder, Session, new, poll_event, pop_event, InFlight,
}
use marlin_binary_transfer.Session.Operations as SessionOps
use marlin_binary_transfer.Session.Operations.{
  queue, dispatch, dispatch_from, dispatch_if_idle, connect, handle_ss_fields,
}
use marlin_binary_transfer.Session.Build.{packet, build-frame, IsSendable}
use marlin_binary_transfer.Session.Replies.{with_newline, rs_text}
use marlin_binary_transfer.Session.Handshake.{ss_text_of, feed-ss_fields}
use marlin_binary_transfer.Adapters.Host.{put_session, session-IsHost}
use marlin_binary_transfer.Device.Frames.{asks, replying}
use marlin_binary_transfer.Device.Exchanges.{IsAnswered, writes, wire}
use marlin_binary_transfer.Device.Patience.{Patience, Succeeds}
use marlin_binary_transfer.Device.Answers.{host-Succeeds}
use marlin_binary_transfer.Device.Packets.{session-Passes}
use marlin_binary_transfer.Adapters.Types.{handshake_failed}
use marlin_binary_transfer.Adapters.Machines.{session_machine}
use marlin_binary_transfer.Adapters.Upload.{call, synced_verdict, drive_session_until_synced}
use marlin_binary_transfer.Device.{
  FakeDevice, request, answer, handle_unless, handle, feed_loop, feed,
}
use marlin_binary_transfer.Device.Wire.{DeviceTransport, transport}
use marlin_binary_transfer.Device.Hosts.{idle}

abbrev pub sync_packet : BytesBuilder
sync_packet = record { protocol = 0; packet_type = 1; payload = [] }

-- The device has got the trigger, which is no frame: it stays in the buffer.
abbrev pub triggered_device : (again : Option ℕ) → FakeDevice → FakeDevice
triggered_device again d = record (replying again [] d) { inbound = codes "M28B1\n" }

abbrev pub triggered_wire : (again : Option ℕ) → FakeDevice → (calls : ℕ) → DeviceTransport
triggered_wire again d calls = record (wire again d calls) {
  device = done (triggered_device again d);
}

pub feed-trigger :
    (again : Option ℕ) (d : FakeDevice)
    → feed (replying again [] d) (codes "M28B1\n") ≡ done (triggered_device again d)
unfolding feed feed_loop decode
feed-trigger again d = refl

-- The frame of SYNC behind it is found, and answered or asked for again.
feed-sync :
    (again : Option ℕ) (d : FakeDevice)
    → asks again 0 ≡ false
    → feed (triggered_device again d) (frame (packet sync_packet 0))
      ≡ done (
          replying again
            (with_newline (ss_text_of d.initial_sync d.max_block_size d.protocol_version))
            d)
unfolding feed feed_loop decode decode_header decode_payload frame header body fletcher16
    fletcher_from fletcher_step handle handle_unless answer request
feed-sync none d e = refl
feed-sync (some n) d e = rw e refl

feed-sync_asked :
    (again : Option ℕ) (d : FakeDevice)
    → asks again 0 ≡ true
    → feed (triggered_device again d) (frame (packet sync_packet 0))
      ≡ done (replying none (with_newline (rs_text 0)) d)
unfolding feed feed_loop decode decode_header decode_payload frame header body fletcher16
    fletcher_from fletcher_step handle handle_unless
feed-sync_asked none d e = absurd (cc)
feed-sync_asked (some n) d e = rw e refl

-- The handshake, and the session that waits for it.
abbrev pub sync_flight : (first last : ℕ) → InFlight
sync_flight first last = record {
  sync = 0;
  bytes = frame (packet sync_packet 0);
  first_sent = first;
  last_sent = last;
  is_sync_handshake = true;
}

abbrev pub hoping : (first last : ℕ) → Session
hoping first last = record new { in_flight = some (sync_flight first last) }

abbrev pub greeting : (first last : ℕ) → Session
greeting first last = record (hoping first last) { outbound = frame (packet sync_packet 0) ∷ [] }

-- A new session that knows the block size and the version of the device.
abbrev pub acquainted : (size : ℕ) → Str → Session
acquainted size version = record new {
  max_block_size = some size;
  protocol_version = some (trim version);
}

sync-IsSendable : IsSendable sync_packet
sync-IsSendable = record {
  protocol_fits = omega arith;
  packet_type_fits = omega arith;
  payload_fits = omega arith;
}

pub connect-greeting : (now : ℕ) → connect new now ≡ done (greeting now now)
unfolding connect queue dispatch_if_idle dispatch_from dispatch
connect-greeting now = rw (build-frame sync_packet 0 sync-IsSendable (omega arith))

feed-greeted :
    (sync size first last now : ℕ) (version : Str)
    → sync < 256
    → size < 65536
    → All IsPrintable version
    → SessionOps.feed (hoping first last) (with_newline (ss_text_of sync size version)) now
      ≡ done (record (idle (sync % 256) (acquainted size version)) {
        events = synced size (trim version) ∷ [];
      })
feed-greeted sync size first last now version h k printable =
    feed-ss_fields (hoping first last) sync size now version (omega arith) k printable
    ∙ unfold handle_ss_fields dispatch_if_idle dispatch_from in refl

ss_length :
    (sync size : ℕ) (version : Str)
    → length version ≤ 900
    → length (with_newline (ss_text_of sync size version)) ≤ 1024
ss_length sync size version h = omega (
  arith,
  length-append (ss_text_of sync size version) (10 ∷ []),
  length-append (display 5 sync) (b',' ∷ (display 5 size ++ b',' ∷ version)),
  length-append (display 5 size) (b',' ∷ version),
  length-display 5 sync,
  length-display 5 size,
)

sync-IsAnswered :
    (d : FakeDevice)
    → length d.protocol_version ≤ 900
    → IsAnswered sync_packet 0 d d b's' (
        b's'
        ∷ ((display 5 d.initial_sync
              ++ (b',' ∷ (display 5 d.max_block_size ++ (b',' ∷ d.protocol_version))))
            ++ 10 ∷ []))
unfolding answer request
sync-IsAnswered d l = record {
  sendable = sync-IsSendable;
  numbered = omega arith;
  handled = λ again. refl;
  fits = ss_length d.initial_sync d.max_block_size d.protocol_version l;
}

module _ (clock : ℕ → ℕ) where
  pub call-connect :
      (again : Option ℕ) (d : FakeDevice) (calls : ℕ)
      → call (transport clock) connect (triggered_wire again d calls, new)
        ≡ done ((triggered_wire again d (suc calls), greeting (clock calls) (clock calls)), ok tt)
  call-connect again d calls = rw (connect-greeting (clock calls))

  pub drive-sync :
      (again : Option ℕ) (d : FakeDevice) (calls : ℕ)
      → Patience again clock
      → d.initial_sync < 256
      → d.max_block_size < 65536
      → All IsPrintable d.protocol_version
      → length d.protocol_version ≤ 900
      → Succeeds clock d
          (idle (d.initial_sync % 256) (acquainted d.max_block_size d.protocol_version))
          (ok tt)
          (drive_session_until_synced
            (transport clock)
            (triggered_wire again d (suc calls), greeting (clock calls) (clock calls)))
  unfolding drive_session_until_synced synced_verdict poll_event pop_event
  drive-sync again d calls patience h k printable l =
      host-Succeeds clock session_machine put_session session-IsHost handshake_failed synced_verdict
        again (triggered_wire again d (suc calls)) d d 0 b's' _ calls
        (sync_flight (clock calls) (clock calls)) new
        (record (idle (d.initial_sync % 256) (acquainted d.max_block_size d.protocol_version)) {
          events = synced d.max_block_size (trim d.protocol_version) ∷ [];
        })
        (idle (d.initial_sync % 256) (acquainted d.max_block_size d.protocol_version))
        (synced d.max_block_size (trim d.protocol_version)) (ok tt) patience (refl, refl)
        (omega arith) refl refl
        (session-Passes clock handshake_failed synced_verdict (hoping (clock calls) (clock calls))
          (λ n. refl))
        (sync-IsAnswered d l).fits (λ e. rw (feed-sync again d e) refl)
        (λ e. rw (feed-sync_asked again d e) refl)
        (λ after. writes clock none sync_packet 0 d d b's' _ after (sync-IsAnswered d l) refl)
        (λ last now.
          feed-greeted d.initial_sync d.max_block_size (clock calls) last now d.protocol_version h k
            printable)
        refl refl
