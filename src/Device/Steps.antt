-- ===== src/Device/Steps.antt =====
-- The steps of `upload` in src/adapters over the fake device, one packet each.
use marlin_binary_transfer.Common.{
  ℕ, suc, ◌+◌, ◌%◌, ◌<◌, ◌≤◌, ◌≡◌, refl, arith, none, [], ◌∷◌, ◌++◌, Bytes, length, length-append,
  ok, done, Option,
}
use marlin_binary_transfer.Text.{display}
use marlin_binary_transfer.Text.Plain.{length-display}
use marlin_binary_transfer.Codec.{max_payload}
use marlin_binary_transfer.Session.State.{BytesBuilder, Session}
use marlin_binary_transfer.Transfer.State.{FileTransfer, FileEvent, State}
use marlin_binary_transfer.Transfer.Operations as TransferOps
use marlin_binary_transfer.Transfer.Operations.{
  open_payload, query, open_file, write, close, drain_events, handle_session_event,
  handle_ascii_line, ascii_tail, reply_line, handle_ack, on_ack,
}
use marlin_binary_transfer.Adapters.Upload.{call, event_verdict, is_write_acked, drive_until_event}
use marlin_binary_transfer.Device.{FakeDevice, request, answer}
use marlin_binary_transfer.Device.Wire.{transport}
use marlin_binary_transfer.Device.Hosts.{idle, sending, answered, send-sending, feed-answered}
use marlin_binary_transfer.Device.Exchanges.{wire, IsAnswered}
use marlin_binary_transfer.Device.Patience.{Patience, IsPaced, Succeeds}
use marlin_binary_transfer.Device.Packets.{file_packet-Succeeds}

abbrev pub next : ℕ → ℕ
next number = (number + 1) % 256

-- A transfer with no line pending and no event waiting.
abbrev pub phase : State → Session → FileTransfer → FileTransfer
phase state session ft = record ft {
  session = session;
  state = state;
  pending_ascii = none;
  out_events = [];
  protocol_id = 1;
}

abbrev pub write_packet : Bytes → BytesBuilder
write_packet chunk = record { protocol = 1; packet_type = 3; payload = chunk }

-- The device has stored the chunk.
abbrev pub stored : Bytes → FakeDevice → FakeDevice
stored chunk d = record d { written_bytes = d.written_bytes ++ chunk }

write-IsAnswered :
    (chunk : Bytes) (number : ℕ) (d : FakeDevice)
    → number < 256
    → length chunk ≤ max_payload
    → IsAnswered
        (write_packet chunk)
        number
        d
        (stored chunk d)
        b'o'
        (b'k' ∷ (display 3 number ++ 10 ∷ []))
unfolding answer request
write-IsAnswered chunk number d h l = record {
  sendable = record {
    protocol_fits = omega arith;
    packet_type_fits = omega arith;
    payload_fits = l;
  };
  numbered = h;
  handled = λ again. refl;
  fits = rw (length-append (display 3 number) (10 ∷ [])) (omega (arith, length-display 3 number));
}

module _ (clock : ℕ → ℕ) where
  -- The step of the loop over the chunks.
  pub call-write :
      (again : Option ℕ) (chunk : Bytes) (number calls : ℕ) (s : Session) (ft : FileTransfer)
      (d : FakeDevice)
      → number < 256
      → length chunk ≤ max_payload
      → call
          (transport clock)
          (λ ft now. write ft chunk now)
          (wire again d calls, phase State.opened (idle number s) ft)
        ≡ done (
          (
            wire again d (suc calls),
            phase State.awaiting_write_ack
                (sending (write_packet chunk) number (clock calls) (clock calls) s)
                ft,
          ),
          ok tt,
        )
  unfolding write TransferOps.send
  call-write again chunk number calls s ft d h l = rw (
      send-sending (write_packet chunk) number (clock calls) s
        (write-IsAnswered chunk number d h l).sendable h)

  pub drive-write :
      (again : Option ℕ) (chunk : Bytes) (number calls : ℕ) (s : Session) (ft : FileTransfer)
      (d : FakeDevice)
      → Patience again clock
      → IsPaced s
      → number < 256
      → length chunk ≤ max_payload
      → Succeeds clock (stored chunk d) (phase State.opened (idle (next number) s) ft) (ok tt) (
          drive_until_event (transport clock) is_write_acked (
            wire again d (suc calls),
            phase State.awaiting_write_ack
                (sending (write_packet chunk) number (clock calls) (clock calls) s)
                ft,
          ))
  unfolding drive_until_event event_verdict TransferOps.poll drain_events handle_session_event
      handle_ack on_ack TransferOps.pop_event
  drive-write again chunk number calls s ft d patience paced h l =
      file_packet-Succeeds clock _ (event_verdict is_write_acked) again (write_packet chunk) number
        d (stored chunk d) b'o' (b'k' ∷ (display 3 number ++ 10 ∷ [])) calls s
        (answered [] number s) (phase State.awaiting_write_ack s ft)
        (phase State.opened (idle (next number) s) ft) FileEvent.write_acked (ok tt) patience paced
        (write-IsAnswered chunk number d h l)
        (λ last now. feed-answered (write_packet chunk) number (clock calls) last now s h) refl refl
