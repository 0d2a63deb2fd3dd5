-- ===== src/Device/Exchanges.antt =====
-- One packet and its reply over the transport of src/tests/blocking_adapter_e2e.rs.
use marlin_binary_transfer.Common.{
  ℕ, zero, suc, ◌<◌, ◌≤◌, ◌≡◌, refl, ap, ◌∙◌, arith, true, false, Option, none, some, [], ◌∷◌,
  Bytes, length, take, drop, ok, done,
}
use marlin_binary_transfer.Codec.Frame.{frame}
use marlin_binary_transfer.Session.State.{
  InFlight, BytesBuilder, Session, poll_outbound, pop_outbound,
}
use marlin_binary_transfer.Session.Operations as SessionOps
use marlin_binary_transfer.Session.Build.{IsSendable, packet, packet-IsValid}
use marlin_binary_transfer.Session.Replies.{rs_text, with_newline}
use marlin_binary_transfer.Adapters.Driver.{Machine}
use marlin_binary_transfer.Adapters.Host.{IsHost}
use marlin_binary_transfer.Adapters.FirstRound.{Exchange}
use marlin_binary_transfer.Device.{FakeDevice, handle_packet}
use marlin_binary_transfer.Device.Wire.{DeviceTransport, transport}
use marlin_binary_transfer.Device.Frames.{
  replying, asks, feed-frame, handle-handle_packet, handle-asks,
}
use marlin_binary_transfer.Device.Hosts.{pending}

-- The transport between two exchanges: all is read.
abbrev pub wire : (again : Option ℕ) → FakeDevice → (calls : ℕ) → DeviceTransport
wire again d calls = record { device = done (replying again [] d); pending = []; calls = calls }

-- The device has a reply.
abbrev pub holding : (again : Option ℕ) → Bytes → FakeDevice → (calls : ℕ) → DeviceTransport
holding again reply d calls = record (wire again d calls) { device = done (replying again reply d) }

-- The device, unless it asks for the packet again, answers it with one reply that fits the buffer of
-- the host.
pub record IsAnswered (b : BytesBuilder) (number : ℕ) (d d' : FakeDevice) (first : ℕ)
    (bytes : Bytes) : Type 0 where
  pub sendable : IsSendable b
  pub numbered : number < 256
  pub handled :
      (again : Option ℕ)
      → handle_packet (packet b number) (replying again [] d) ≡ replying again (first ∷ bytes) d'
  pub fits : length (first ∷ bytes) ≤ 1024

take_whole :
    (n : ℕ) (bytes : Bytes) → length bytes ≤ n → (take n bytes ≡ bytes) × (drop n bytes ≡ [])
take_whole zero [] h = (refl, refl)
take_whole zero (b ∷ bytes) h = absurd (omega arith)
take_whole (suc n) [] h = (refl, refl)
take_whole (suc n) (b ∷ bytes) h = let t = take_whole n bytes (omega arith) in (ap (◌∷◌ b) t.0, t.1)

module _ (clock : ℕ → ℕ) where
  pub reads :
      (left : Option ℕ) (wait : ℕ) (d : FakeDevice) (first : ℕ) (bytes : Bytes) (calls : ℕ)
      → length (first ∷ bytes) ≤ 1024
      → (transport clock).receive (holding left (first ∷ bytes) d calls) wait
        ≡ (wire left d calls, ok (first ∷ bytes))
  reads left wait d first bytes calls h =
      rw ((take_whole 1023 bytes (omega arith)).0, (take_whole 1023 bytes (omega arith)).1)

  pub writes :
      (again : Option ℕ) (b : BytesBuilder) (number : ℕ) (d d' : FakeDevice) (first : ℕ)
      (bytes : Bytes) (calls : ℕ)
      → IsAnswered b number d d' first bytes
      → asks again number ≡ false
      → (transport clock).write_all (wire again d calls) (frame (packet b number))
        ≡ (holding again (first ∷ bytes) d' calls, ok tt)
  writes again b number d d' first bytes calls a e = rw (
      feed-frame again again (packet b number) d d' (first ∷ bytes)
        (packet-IsValid b number a.sendable a.numbered)
        (handle-handle_packet again (packet b number) d e ∙ a.handled again))

  pub writes_asked :
      (again : Option ℕ) (b : BytesBuilder) (number : ℕ) (d : FakeDevice) (calls : ℕ)
      → IsSendable b
      → number < 256
      → asks again number ≡ true
      → (transport clock).write_all (wire again d calls) (frame (packet b number))
        ≡ (holding none (with_newline (rs_text number)) d calls, ok tt)
  writes_asked again b number d calls v h e = rw (
      feed-frame again none (packet b number) d d (with_newline (rs_text number))
        (packet-IsValid b number v h) (handle-asks again (packet b number) d e))

  -- A machine whose session has queued a packet reads the event that it makes of the reply.
  pub host-Exchange :
      {X V : Type 0} (machine : Machine X V) (put : Session → X) (host : IsHost machine put)
      (t : DeviceTransport) (left : Option ℕ) (d : FakeDevice) (first : ℕ) (bytes : Bytes)
      (calls : ℕ) (flight : InFlight) (s fed : Session) (x : X) (event : V)
      → (transport clock).write_all t flight.bytes ≡ (holding left (first ∷ bytes) d calls, ok tt)
      → length (first ∷ bytes) ≤ 1024
      → SessionOps.feed (pending [] flight s) (first ∷ bytes) (clock calls) ≡ done fed
      → machine.poll (put fed) ≡ (x, some event)
      → Exchange
          (transport clock)
          machine
          t
          (put (pending (flight.bytes ∷ []) flight s))
          (wire left d (suc calls))
          x
          event
  unfolding poll_outbound pop_outbound
  host-Exchange machine put host t left d first bytes calls flight s fed x event w l f p = record {
    sent = put (pending [] flight s);
    out = flight.bytes;
    written = holding left (first ∷ bytes) d calls;
    read = wire left d calls;
    left = 0;
    time = clock calls;
    first = first;
    bytes = bytes;
    fed = put fed;
    to_send = host.to_send (pending (flight.bytes ∷ []) flight s);
    is_last = host.to_send (pending [] flight s);
    counted = host.counted (pending (flight.bytes ∷ []) flight s);
    writes = w;
    reads = reads left (machine.response_timeout (put (pending [] flight s))) d first bytes calls l;
    clock = refl;
    feeds = host.feeds (pending [] flight s) fed (first ∷ bytes) (clock calls) f;
    polls = p;
  }
