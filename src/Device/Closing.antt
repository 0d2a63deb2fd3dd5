-- ===== src/Device/Closing.antt =====
-- CLOSE and the control CLOSE of `upload` in src/adapters over the fake device.
use marlin_binary_transfer.Session.Build.{IsSendable}
use marlin_binary_transfer.Adapters.Types.{UploadError, transfer}
use marlin_binary_transfer.Transfer.State.{
  FileError, protocol_violation, fail, FileTransfer, FileEvent, State,
}
use marlin_binary_transfer.Common.{
  Bool, Result, err, true, false, ℕ, suc, ◌<◌, ◌≤◌, ◌≡◌, refl, arith, [], ◌∷◌, ◌++◌, Bytes, length,
  length-append, All, equal, ok, done, Option,
}
use marlin_binary_transfer.Text.{codes, display, strip_prefix}
use marlin_binary_transfer.Text.Plain.{IsPrintable, length-display}
use marlin_binary_transfer.Session.State.{
  ack, ascii_line, BytesBuilder, Session, poll_event, pop_event,
}
use marlin_binary_transfer.Session.Operations as SessionOps
use marlin_binary_transfer.Session.Replies.{ok_text, with_newline}
use marlin_binary_transfer.Transfer.Operations as TransferOps
use marlin_binary_transfer.Transfer.Operations.{
  open_payload, query, open_file, write, close, drain_events, handle_session_event,
  handle_ascii_line, ascii_tail, reply_line, handle_ack, on_ack,
}
use marlin_binary_transfer.Adapters.Upload.{
  call, event_verdict, idle_verdict, is_closed_event, drive_until_event, drive_session_until_idle,
}
use marlin_binary_transfer.Device.{FakeDevice, request, answer}
use marlin_binary_transfer.Device.Wire.{transport}
use marlin_binary_transfer.Device.Hosts.{
  idle, sending, answered, send-sending, feed-answered, feed-answered_line,
}
use marlin_binary_transfer.Device.Steps.{next, phase}
use marlin_binary_transfer.Device.Exchanges.{wire, IsAnswered}
use marlin_binary_transfer.Device.Patience.{Patience, IsPaced, Succeeds}
use marlin_binary_transfer.Device.Packets.{session_packet-Succeeds, file_packet-Succeeds}

abbrev pub close_packet : BytesBuilder
close_packet = record { protocol = 1; packet_type = 2; payload = [] }

abbrev pub control_packet : BytesBuilder
control_packet = record { protocol = 0; packet_type = 2; payload = [] }

abbrev pub with_closed : FakeDevice → FakeDevice
with_closed d = record d { closed = true }

abbrev pub with_control_closed : FakeDevice → FakeDevice
with_control_closed d = record d { control_closed = true }

-- `PFT:success` and the acknowledgement, without the first byte.
abbrev pub success_bytes : ℕ → Bytes
success_bytes number = with_newline (codes "FT:success") ++ with_newline (ok_text number)

pub length-success_bytes : (number : ℕ) → length (b'P' ∷ success_bytes number) ≤ 1024
length-success_bytes number =
    rw (length-append (display 3 number) (10 ∷ [])) (omega (arith, length-display 3 number))

pub success-IsPrintable : All IsPrintable (codes "FT:success")
success-IsPrintable = omega arith

length-ok_bytes : (number : ℕ) → length (b'o' ∷ (b'k' ∷ (display 3 number ++ 10 ∷ []))) ≤ 1024
length-ok_bytes number =
    rw (length-append (display 3 number) (10 ∷ [])) (omega (arith, length-display 3 number))

close-IsSendable : IsSendable close_packet
close-IsSendable = record {
  protocol_fits = omega arith;
  packet_type_fits = omega arith;
  payload_fits = omega arith;
}

close-IsAnswered :
    (number : ℕ) (d : FakeDevice)
    → number < 256
    → d.behaviour.skip_pft_on_terminal ≡ false
    → IsAnswered close_packet number d (with_closed d) b'P' (success_bytes number)
unfolding answer request
close-IsAnswered number d h e = record {
  sendable = close-IsSendable;
  numbered = h;
  handled = λ again. rw e refl;
  fits = length-success_bytes number;
}

-- The device closes the file, and acknowledges without `PFT:success`.
close-IsAnswered_bare :
    (number : ℕ) (d : FakeDevice)
    → number < 256
    → d.behaviour.skip_pft_on_terminal ≡ true
    → IsAnswered close_packet number d (with_closed d) b'o' (b'k' ∷ (display 3 number ++ 10 ∷ []))
unfolding answer request
close-IsAnswered_bare number d h e = record {
  sendable = close-IsSendable;
  numbered = h;
  handled = λ again. rw e refl;
  fits = length-ok_bytes number;
}

control-IsAnswered :
    (number : ℕ) (d : FakeDevice)
    → number < 256
    → IsAnswered control_packet number d
        (with_control_closed d)
        b'o'
        (b'k' ∷ (display 3 number ++ 10 ∷ []))
unfolding answer request
control-IsAnswered number d h = record {
  sendable = record {
    protocol_fits = omega arith;
    packet_type_fits = omega arith;
    payload_fits = omega arith;
  };
  numbered = h;
  handled = λ again. refl;
  fits = length-ok_bytes number;
}

abbrev pub unconfirmed : FileError
unconfirmed = protocol_violation "AwaitingCloseReply" "PFT:success | PFT:ioerror | PFT:invalid"

-- What the transfer makes of the reply to CLOSE, and `upload` of a result behind it.
abbrev pub state_closed : (skip : Bool) → State
state_closed true = State.failed
state_closed false = State.closed

abbrev pub result_closed : {A E : Type 0} → (skip : Bool) → A → Result A (UploadError E)
result_closed true a = err (transfer unconfirmed)
result_closed false a = ok a

module _ (clock : ℕ → ℕ) where
  pub call-close :
      (again : Option ℕ) (number calls : ℕ) (s : Session) (ft : FileTransfer) (d : FakeDevice)
      → number < 256
      → call (transport clock) close (wire again d calls, phase State.opened (idle number s) ft)
        ≡ done (
          (
            wire again d (suc calls),
            phase State.awaiting_close_reply
                (sending close_packet number (clock calls) (clock calls) s)
                ft,
          ),
          ok tt,
        )
  unfolding close TransferOps.send
  call-close again number calls s ft d h =
      rw (send-sending close_packet number (clock calls) s close-IsSendable h)

  -- By the flag of the device: without `PFT:success` the acknowledgement is a violation of the
  -- protocol.
  pub drive-closing :
      (again : Option ℕ) (skip : Bool) (number calls : ℕ) (s : Session) (ft : FileTransfer)
      (d : FakeDevice)
      → Patience again clock
      → IsPaced s
      → number < 256
      → d.behaviour.skip_pft_on_terminal ≡ skip
      → Succeeds clock
          (with_closed d)
          (phase (state_closed skip) (idle (next number) s) ft)
          (result_closed skip tt)
          (drive_until_event (transport clock) is_closed_event (
            wire again d (suc calls),
            phase State.awaiting_close_reply
                (sending close_packet number (clock calls) (clock calls) s)
                ft,
          ))
  unfolding drive_until_event fail event_verdict TransferOps.poll drain_events handle_session_event
      handle_ascii_line ascii_tail reply_line handle_ack on_ack TransferOps.pop_event strip_prefix
      equal
  drive-closing again true number calls s ft d patience paced h e =
      file_packet-Succeeds clock _ (event_verdict is_closed_event) again close_packet number d
        (with_closed d) b'o' (b'k' ∷ (display 3 number ++ 10 ∷ [])) calls s (answered [] number s)
        (phase State.awaiting_close_reply s ft) (phase State.failed (idle (next number) s) ft)
        (FileEvent.failed unconfirmed) (err (transfer unconfirmed)) patience paced
        (close-IsAnswered_bare number d h e)
        (λ last now. feed-answered close_packet number (clock calls) last now s h) refl refl
  drive-closing again false number calls s ft d patience paced h e =
      file_packet-Succeeds clock _ (event_verdict is_closed_event) again close_packet number d
        (with_closed d) b'P' (success_bytes number) calls s
        (answered (ascii_line (codes "PFT:success") ∷ []) number s)
        (phase State.awaiting_close_reply s ft) (phase State.closed (idle (next number) s) ft)
        FileEvent.closed (ok tt) patience paced (close-IsAnswered number d h e)
        (λ last now.
          feed-answered_line close_packet number (clock calls) last now (codes "FT:success") s h
            success-IsPrintable)
        refl refl

  pub call-control_close :
      (again : Option ℕ) (number calls : ℕ) (s : Session) (d : FakeDevice)
      → number < 256
      → call
          (transport clock)
          (λ s now. SessionOps.send s 0 2 [] now)
          (wire again d calls, idle number s)
        ≡ done (
          (wire again d (suc calls), sending control_packet number (clock calls) (clock calls) s),
          ok tt,
        )
  call-control_close again number calls s d h = rw (
      send-sending control_packet number (clock calls) s (control-IsAnswered number d h).sendable h)

  pub drive-control_close :
      (again : Option ℕ) (number calls : ℕ) (s : Session) (d : FakeDevice)
      → Patience again clock
      → IsPaced s
      → number < 256
      → Succeeds clock (with_control_closed d) (idle (next number) s) (ok tt) (
          drive_session_until_idle
            (transport clock)
            (wire again d (suc calls), sending control_packet number (clock calls) (clock calls) s))
  unfolding drive_session_until_idle idle_verdict poll_event pop_event
  drive-control_close again number calls s d patience paced h =
      session_packet-Succeeds clock _ idle_verdict again control_packet number d
        (with_control_closed d) b'o' (b'k' ∷ (display 3 number ++ 10 ∷ [])) calls s
        (answered [] number s) (idle (next number) s) (ack number) (ok tt) patience paced
        (λ n. refl) (control-IsAnswered number d h)
        (λ last now. feed-answered control_packet number (clock calls) last now s h) refl refl
