-- ===== src/Session/Valid.antt =====
-- The invariant of a session of src/session.rs, and the dispatch of a packet.
use marlin_binary_transfer.Common.{
  ℕ, ◌<◌, ◌≡◌, refl, Bool, true, false, Option, none, some, List, [], ◌∷◌, Bytes, All, All-append,
  Ensures,
}
use marlin_binary_transfer.Text.{Str}
use marlin_binary_transfer.Codec.{Packet}
use marlin_binary_transfer.Codec.Frame
use marlin_binary_transfer.Codec.Frame.{frame}
use marlin_binary_transfer.Session.State.{Event, InFlight, Queued, Session, push_event}
use marlin_binary_transfer.Session.Operations.{dispatch, dispatch_from, dispatch_if_idle}
use marlin_binary_transfer.Session.Build.{IsSendable, packet, packet-IsValid, build-frame}

-- `bytes` is the frame of a packet with sync number `sync`.
pub record IsFrameOf (sync : ℕ) (bytes : Bytes) : Type 0 where
  pub of : Packet
  pub fits : Frame.IsValid of
  pub numbered : of.sync ≡ sync
  pub framed : bytes ≡ frame of

abbrev pub IsFrame : Bytes → Type 0
IsFrame bytes = (sync : ℕ) × IsFrameOf sync bytes

abbrev pub FlightIsValid : Option InFlight → Type 0
FlightIsValid none = Unit
FlightIsValid (some flight) = IsFrameOf flight.sync flight.bytes

-- A device that has answered the handshake has told its block size and its version.
abbrev pub IsKnown {ℓ} : {A : Type ℓ} → Option A → Type 0
IsKnown none = ⊥
IsKnown (some a) = Unit

abbrev pub Advertised : Bool → Option ℕ → Option Str → Type 0
Advertised true size version = IsKnown size × IsKnown version
Advertised false size version = Unit

-- The part of the invariant that holds in the middle of an operation too.
pub record IsReady (s : Session) : Type 0 where
  pub sync_fits : s.sync < 256
  pub flight_valid : FlightIsValid s.in_flight
  pub queued_sendable : All (λ (q : Queued). IsSendable q.bytes_without_sync) s.queued
  pub outbound_frames : All IsFrame s.outbound
  pub advertised : Advertised s.is_synced s.max_block_size s.protocol_version

abbrev pub NoStall : Option InFlight → List Queued → Type 0
NoStall none queued = queued ≡ []
NoStall (some flight) queued = Unit

-- Every packet in flight and every chunk handed to the wire is the frame of a valid packet, every
-- queued packet can be sent, and nothing waits in the queue while no packet is in flight.
pub record IsValid (s : Session) : Type 0 where
  pub ready : IsReady s
  pub no_stall : NoStall s.in_flight s.queued

dispatch-IsValid :
    (s : Session) (next : Queued) (rest : List Queued) (now : ℕ)
    → IsReady s
    → IsSendable next.bytes_without_sync
    → All (λ (q : Queued). IsSendable q.bytes_without_sync) rest
    → Ensures IsValid (dispatch s next rest now)
unfolding dispatch
dispatch-IsValid s next rest now r v vs =
    rw (build-frame next.bytes_without_sync s.sync v r.sync_fits) (record {
      ready = record {
        sync_fits = r.sync_fits;
        flight_valid = framed;
        queued_sendable = vs;
        outbound_frames = All-append IsFrame s.outbound _ r.outbound_frames ((s.sync, framed), tt);
        advertised = r.advertised;
      };
      no_stall = tt;
    })
  where
    framed : IsFrameOf s.sync (frame (packet next.bytes_without_sync s.sync))
    framed = record {
      of = packet next.bytes_without_sync s.sync;
      fits = packet-IsValid next.bytes_without_sync s.sync v r.sync_fits;
      numbered = refl;
      framed = refl;
    }

pub dispatch_if_idle-IsValid :
    (s : Session) (now : ℕ) → IsReady s → Ensures IsValid (dispatch_if_idle s now)
unfolding dispatch_if_idle
dispatch_if_idle-IsValid s now r = from s.in_flight s.queued refl refl r.queued_sendable
  where
    from :
        (f : Option InFlight) (q : List Queued)
        → s.in_flight ≡ f
        → s.queued ≡ q
        → All (λ (q : Queued). IsSendable q.bytes_without_sync) q
        → Ensures IsValid (dispatch_from f q s now)
    from (some f) q e d v = record { ready = r; no_stall = rw e tt }
    from none [] e d v = record { ready = r; no_stall = rw e d }
    from none (x ∷ q) e d v = dispatch-IsValid s x q now r v.0 v.1

pub push_event-IsReady : (s : Session) (event : Event) → IsReady s → IsReady (push_event s event)
push_event-IsReady s event r = record {
  sync_fits = r.sync_fits;
  flight_valid = r.flight_valid;
  queued_sendable = r.queued_sendable;
  outbound_frames = r.outbound_frames;
  advertised = r.advertised;
}

pub push_event-IsValid : (s : Session) (event : Event) → IsValid s → IsValid (push_event s event)
push_event-IsValid s event v = record {
  ready = push_event-IsReady s event v.ready;
  no_stall = v.no_stall;
}
