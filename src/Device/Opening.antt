-- ===== src/Device/Opening.antt =====
-- OPEN of `upload` in src/adapters over the fake device.
use marlin_binary_transfer.Session.Build.{IsSendable}
use marlin_binary_transfer.Adapters.Types.{UploadError, transfer}
use marlin_binary_transfer.Transfer.State.{
  FileError, fail, Compression, FileTransfer, FileEvent, State,
}
use marlin_binary_transfer.Device.{write_ok, answer_open, FakeDevice, request, answer}
use marlin_binary_transfer.Session.Replies.{ok_text, with_newline}
use marlin_binary_transfer.Text.Plain.{IsPrintable, length-display}
use marlin_binary_transfer.Device.Steps.{next, phase}
use marlin_binary_transfer.Common.{
  ◌||◌, Result, sym, err, true, false, ℕ, suc, ◌+◌, ◌<◌, ◌≤◌, ◌≡◌, refl, arith, Bool, true, false,
  Option, some, [], ◌∷◌, ◌++◌, Bytes, length, length-append, All, equal, ok, done,
}
use marlin_binary_transfer.Text.{Str, codes, as_bytes, strip_prefix}
use marlin_binary_transfer.Codec.{max_payload}
use marlin_binary_transfer.Session.State.{ascii_line, Session}
use marlin_binary_transfer.Transfer.Operations as TransferOps
use marlin_binary_transfer.Transfer.Operations.{
  open_payload, comp_byte, query, open_file, write, close, drain_events, handle_session_event,
  handle_ascii_line, ascii_tail, reply_line, handle_ack, on_ack,
}
use marlin_binary_transfer.Adapters.Upload.{call, event_verdict, is_opened_event, drive_until_event}
use marlin_binary_transfer.Device.Wire.{transport}
use marlin_binary_transfer.Device.Frames.{replying}
use marlin_binary_transfer.Device.Hosts.{idle, sending, answered, send-sending, feed-answered_line}
use marlin_binary_transfer.Device.Exchanges.{wire, IsAnswered}
use marlin_binary_transfer.Device.Patience.{Patience, IsPaced, Succeeds}
use marlin_binary_transfer.Device.Packets.{file_packet-Succeeds}
use marlin_binary_transfer.Device.OpenPacket.{
  open_packet, opened, IsName, noted-opened, length-open_payload,
}

-- The reply to OPEN without its first byte, as the flags of the device have it.
abbrev reply_text : (busy refused : Bool) → Bytes
reply_text true refused = codes "FT:busy"
reply_text false true = codes "FT:fail"
reply_text false false = codes "FT:success"

abbrev reply_bytes : (busy refused : Bool) → ℕ → Bytes
reply_bytes busy refused number =
    with_newline (reply_text busy refused) ++ with_newline (ok_text number)

-- The flag that the reply clears.
abbrev pub settled : (busy refused : Bool) → FakeDevice → FakeDevice
settled true refused d = record d { behaviour = record (d.behaviour) { busy_on_next_open = false } }
settled false true d = record d { behaviour = record (d.behaviour) { fail_on_next_open = false } }
settled false false d = d

answer_open_lem :
    (busy refused : Bool) (number : ℕ) (again : Option ℕ) (d : FakeDevice)
    → write_ok number (answer_open busy refused (replying again [] d))
      ≡ replying again (b'P' ∷ reply_bytes busy refused number) (settled busy refused d)
answer_open_lem true refused number again d = refl
answer_open_lem false true number again d = refl
answer_open_lem false false number again d = refl

reply_text-IsPrintable : (busy refused : Bool) → All IsPrintable (reply_text busy refused)
reply_text-IsPrintable true refused = omega arith
reply_text-IsPrintable false true = omega arith
reply_text-IsPrintable false false = omega arith

length-reply_text : (busy refused : Bool) → length (reply_text busy refused) ≤ 10
length-reply_text true refused = omega arith
length-reply_text false true = omega arith
length-reply_text false false = omega arith

length-reply_bytes :
    (busy refused : Bool) (number : ℕ) → length (b'P' ∷ reply_bytes busy refused number) ≤ 1024
length-reply_bytes busy refused number = omega (
  arith,
  length-append (with_newline (reply_text busy refused)) (with_newline (ok_text number)),
  length-append (reply_text busy refused) (10 ∷ []),
  length-reply_text busy refused,
  length-append (ok_text number) (10 ∷ []),
  length-display 3 number,
)

open-IsSendable :
    (compression : Option Compression) (name : Str) (dummy : Bool)
    → length (as_bytes name) + 3 ≤ max_payload
    → IsSendable (open_packet compression name dummy)
open-IsSendable compression name dummy l = record {
  protocol_fits = omega arith;
  packet_type_fits = omega arith;
  payload_fits = rw (length-open_payload compression name dummy) l;
}

open-IsAnswered :
    (compression : Option Compression) (name : Str) (dummy busy refused : Bool) (number : ℕ)
    (d : FakeDevice)
    → number < 256
    → IsName (as_bytes name)
    → length (as_bytes name) + 3 ≤ max_payload
    → d.behaviour.busy_on_next_open ≡ busy
    → d.behaviour.fail_on_next_open ≡ refused
    → IsAnswered
        (open_packet compression name dummy)
        number
        d
        (settled busy refused (opened compression name dummy d))
        b'P'
        (reply_bytes busy refused number)
unfolding answer request
open-IsAnswered compression name dummy busy refused number d h n l e f = record {
  sendable = open-IsSendable compression name dummy l;
  numbered = h;
  handled = λ again. rw (noted-opened compression name dummy (replying again [] d) n) (
      rw (sym e, sym f)
        (answer_open_lem d.behaviour.busy_on_next_open d.behaviour.fail_on_next_open number again
          (opened compression name dummy d)));
  fits = length-reply_bytes busy refused number;
}

-- What the transfer makes of the reply: its state, its event, and what `upload` gets.
abbrev pub refusal : (busy : Bool) → FileError
refusal true = FileError.open_busy
refusal false = FileError.open_fail

abbrev pub state_after : (busy refused : Bool) → State
state_after true refused = State.failed
state_after false true = State.failed
state_after false false = State.opened

abbrev event_after : (busy refused : Bool) → FileEvent
event_after true refused = FileEvent.failed FileError.open_busy
event_after false true = FileEvent.failed FileError.open_fail
event_after false false = FileEvent.opened

abbrev pub result_after : {E : Type 0} → (busy refused : Bool) → Result (Unit {0}) (UploadError E)
result_after true refused = err (transfer FileError.open_busy)
result_after false true = err (transfer FileError.open_fail)
result_after false false = ok tt

verdict_lem :
    {E : Type 0} (busy refused : Bool)
    → event_verdict {E = E} is_opened_event (event_after busy refused)
      ≡ some (result_after busy refused)
unfolding event_verdict
verdict_lem true refused = refl
verdict_lem false true = refl
verdict_lem false false = refl

poll_open :
    (busy refused : Bool) (number : ℕ) (s : Session) (ft : FileTransfer)
    → TransferOps.poll (
        phase State.awaiting_open_reply
          (answered (ascii_line (b'P' ∷ reply_text busy refused) ∷ []) number s)
          ft)
      ≡ (
        phase (state_after busy refused) (idle (next number) s) ft,
        some (event_after busy refused),
      )
unfolding TransferOps.poll drain_events handle_session_event handle_ascii_line ascii_tail reply_line
    handle_ack on_ack TransferOps.pop_event strip_prefix equal fail
poll_open true refused number s ft = refl
poll_open false true number s ft = refl
poll_open false false number s ft = refl

pub result-refusal :
    {E : Type 0} (busy refused : Bool)
    → busy || refused ≡ true
    → result_after {E = E} busy refused ≡ err (transfer (refusal busy))
result-refusal true refused h = refl
result-refusal false true h = refl
result-refusal false false h = cc

module _ (clock : ℕ → ℕ) (name : Str) (dummy : Bool) (named : IsName (as_bytes name))
    (fits : length (as_bytes name) + 3 ≤ max_payload) where
  pub call-open :
      (again : Option ℕ) (number calls : ℕ) (s : Session) (ft : FileTransfer) (d : FakeDevice)
      → number < 256
      → call
          (transport clock)
          (λ ft now. open_file ft name dummy now)
          (wire again d calls, phase State.negotiated (idle number s) ft)
        ≡ done (
          (
            wire again d (suc calls),
            phase State.awaiting_open_reply
                (sending
                  (open_packet ft.negotiated_compression name dummy)
                  number
                  (clock calls)
                  (clock calls)
                  s)
                ft,
          ),
          ok tt,
        )
  unfolding open_file TransferOps.send
  call-open again number calls s ft d h = rw (
      send-sending (open_packet ft.negotiated_compression name dummy) number (clock calls) s
        (open-IsSendable ft.negotiated_compression name dummy fits) h)

  pub drive-open :
      (again : Option ℕ) (busy refused : Bool) (number calls : ℕ) (s : Session) (ft : FileTransfer)
      (d : FakeDevice)
      → Patience again clock
      → IsPaced s
      → number < 256
      → d.behaviour.busy_on_next_open ≡ busy
      → d.behaviour.fail_on_next_open ≡ refused
      → Succeeds clock
          (settled busy refused (opened ft.negotiated_compression name dummy d))
          (phase (state_after busy refused) (idle (next number) s) ft)
          (result_after busy refused)
          (drive_until_event (transport clock) is_opened_event (
            wire again d (suc calls),
            phase State.awaiting_open_reply
                (sending
                  (open_packet ft.negotiated_compression name dummy)
                  number
                  (clock calls)
                  (clock calls)
                  s)
                ft,
          ))
  unfolding drive_until_event
  drive-open again busy refused number calls s ft d patience paced h e f =
      file_packet-Succeeds clock _ (event_verdict is_opened_event) again
        (open_packet ft.negotiated_compression name dummy) number d
        (settled busy refused (opened ft.negotiated_compression name dummy d)) b'P'
        (reply_bytes busy refused number) calls s
        (answered (ascii_line (b'P' ∷ reply_text busy refused) ∷ []) number s)
        (phase State.awaiting_open_reply s ft)
        (phase (state_after busy refused) (idle (next number) s) ft) (event_after busy refused)
        (result_after busy refused) patience paced
        (open-IsAnswered ft.negotiated_compression name dummy busy refused number d h named fits e
          f)
        (λ last now.
          feed-answered_line (open_packet ft.negotiated_compression name dummy) number (clock calls)
            last now (reply_text busy refused) s h (reply_text-IsPrintable busy refused))
        (poll_open busy refused number s ft) (verdict_lem busy refused)
