-- ===== src/Device/Packets.antt =====
-- One packet of a session, or of a transfer over it, and the device's answer to it, whether the device
-- asks for the packet again or not.
use marlin_binary_transfer.Common.{
  ℕ, suc, ◌≡◌, refl, false, Option, none, some, ◌∷◌, Bytes, Result, done,
}
use marlin_binary_transfer.Codec.Frame.{frame}
use marlin_binary_transfer.Session.Build.{packet}
use marlin_binary_transfer.Session.State.{
  Session, InFlight, Event, BytesBuilder, resend_requested, poll_event, pop_event,
}
use marlin_binary_transfer.Session.Operations as SessionOps
use marlin_binary_transfer.Transfer.State.{FileTransfer, FileEvent}
use marlin_binary_transfer.Transfer.Operations as TransferOps
use marlin_binary_transfer.Transfer.Operations.{drain_events, handle_session_event}
use marlin_binary_transfer.Adapters.Types.{UploadError}
use marlin_binary_transfer.Adapters.Driver.{Machine, poll_loop, drive}
use marlin_binary_transfer.Adapters.Machines.{session_machine, file_machine}
use marlin_binary_transfer.Adapters.Host.{
  IsHost, put_session, session-IsHost, put_file, file-IsHost,
}
use marlin_binary_transfer.Device.{FakeDevice}
use marlin_binary_transfer.Device.Wire.{transport}
use marlin_binary_transfer.Device.Hosts.{idle, waiting, sending}
use marlin_binary_transfer.Device.Exchanges.{wire, IsAnswered, writes, writes_asked}
use marlin_binary_transfer.Device.Patience.{Patience, IsPaced, Succeeds}
use marlin_binary_transfer.Device.Again.{Passes}
use marlin_binary_transfer.Device.Answers.{host-Succeeds}

module _ (clock : ℕ → ℕ) {X V : Type 0} (machine : Machine X V) (put : Session → X)
    (host : IsHost machine put) {A : Type 0} (exhausted : UploadError (Unit {0}))
    (verdict : V → Option (Result A (UploadError (Unit {0})))) where
  packet-Succeeds :
      (again : Option ℕ) (b : BytesBuilder) (number : ℕ) (d d' : FakeDevice) (first : ℕ)
      (bytes : Bytes) (calls : ℕ) (s fed : Session) (x : X) (event : V)
      (r : Result A (UploadError (Unit {0})))
      → Patience again clock
      → IsPaced s
      → Passes clock machine put host exhausted verdict
          (waiting b number (clock calls) (clock calls) s)
      → IsAnswered b number d d' first bytes
      → ((last now : ℕ)
          → SessionOps.feed (waiting b number (clock calls) last s) (first ∷ bytes) now ≡ done fed)
      → machine.poll (put fed) ≡ (x, some event)
      → verdict event ≡ some r
      → Succeeds clock d' x r (
          drive
            (transport clock)
            machine
            exhausted
            verdict
            200
            (wire again d (suc calls), put (sending b number (clock calls) (clock calls) s)))
  packet-Succeeds again b number d d' first bytes calls s fed x event r patience paced passes a
        feeds polls ends =
      host-Succeeds clock machine put host exhausted verdict again (wire again d (suc calls)) d d'
        number first bytes calls flight (idle number s) fed x event r patience paced a.numbered refl
        refl passes a.fits (writes clock again b number d d' first bytes (suc calls) a)
        (writes_asked clock again b number d (suc calls) a.sendable a.numbered)
        (λ after. writes clock none b number d d' first bytes after a refl) feeds polls ends
    where
      flight : InFlight
      flight = record {
        sync = number;
        bytes = frame (packet b number);
        first_sent = clock calls;
        last_sent = clock calls;
        is_sync_handshake = false;
      }

module _ (clock : ℕ → ℕ) {A : Type 0} (exhausted : UploadError (Unit {0})) where
  pub session-Passes :
      (verdict : Event → Option (Result A (UploadError (Unit {0})))) (s : Session)
      → ((n : ℕ) → verdict (resend_requested n) ≡ none)
      → Passes clock session_machine put_session session-IsHost exhausted verdict s
  unfolding poll_loop poll_event pop_event
  session-Passes verdict s ignores n = rw (ignores n) refl

  file-Passes :
      (verdict : FileEvent → Option (Result A (UploadError (Unit {0})))) (ft : FileTransfer)
      (s : Session)
      → Passes clock file_machine (put_file ft) (file-IsHost ft) exhausted verdict s
  unfolding poll_loop TransferOps.poll drain_events handle_session_event TransferOps.pop_event
  file-Passes verdict ft s n = refl

  pub session_packet-Succeeds :
      (verdict : Event → Option (Result A (UploadError (Unit {0})))) (again : Option ℕ)
      (b : BytesBuilder) (number : ℕ) (d d' : FakeDevice) (first : ℕ) (bytes : Bytes) (calls : ℕ)
      (s fed s' : Session) (event : Event) (r : Result A (UploadError (Unit {0})))
      → Patience again clock
      → IsPaced s
      → ((n : ℕ) → verdict (resend_requested n) ≡ none)
      → IsAnswered b number d d' first bytes
      → ((last now : ℕ)
          → SessionOps.feed (waiting b number (clock calls) last s) (first ∷ bytes) now ≡ done fed)
      → poll_event fed ≡ (s', some event)
      → verdict event ≡ some r
      → Succeeds clock d' s' r (
          drive
            (transport clock)
            session_machine
            exhausted
            verdict
            200
            (wire again d (suc calls), sending b number (clock calls) (clock calls) s))
  session_packet-Succeeds verdict again b number d d' first bytes calls s fed s' event r patience
        paced ignores =
      packet-Succeeds clock session_machine put_session session-IsHost exhausted verdict again b
        number d d' first bytes calls s fed s' event r patience paced
        (session-Passes verdict (waiting b number (clock calls) (clock calls) s) ignores)

  -- The same of a transfer over such a session.
  pub file_packet-Succeeds :
      (verdict : FileEvent → Option (Result A (UploadError (Unit {0})))) (again : Option ℕ)
      (b : BytesBuilder) (number : ℕ) (d d' : FakeDevice) (first : ℕ) (bytes : Bytes) (calls : ℕ)
      (s fed : Session) (ft ft' : FileTransfer) (event : FileEvent)
      (r : Result A (UploadError (Unit {0})))
      → Patience again clock
      → IsPaced s
      → IsAnswered b number d d' first bytes
      → ((last now : ℕ)
          → SessionOps.feed (waiting b number (clock calls) last s) (first ∷ bytes) now ≡ done fed)
      → TransferOps.poll (put_file ft fed) ≡ (ft', some event)
      → verdict event ≡ some r
      → Succeeds clock d' ft' r (
          drive (transport clock) file_machine exhausted verdict 200 (
            wire again d (suc calls),
            put_file ft (sending b number (clock calls) (clock calls) s),
          ))
  file_packet-Succeeds verdict again b number d d' first bytes calls s fed ft ft' event r patience
        paced =
      packet-Succeeds clock file_machine (put_file ft) (file-IsHost ft) exhausted verdict again b
        number d d' first bytes calls s fed ft' event r patience paced
        (file-Passes verdict ft (waiting b number (clock calls) (clock calls) s))
