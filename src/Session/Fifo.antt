-- ===== src/Session/Fifo.antt =====
-- The queue of src/session.rs against a specification: the packets as a numbered sequence.
use marlin_binary_transfer.Common.{
  ℕ, ◌+◌, ◌%◌, ◌<◌, ◌≡◌, refl, sym, ap, ◌∙◌, arith, Bool, true, false, Option, none, some, List, [],
  ◌∷◌, ◌++◌, Bytes, length, All, append_assoc, append-nil, map, eq→==, Checked, done, assert, ◌>>=◌,
  le→leb,
}
use marlin_binary_transfer.Codec.{max_payload}
use marlin_binary_transfer.Codec.Frame.{frame}
use marlin_binary_transfer.Session.State.{Event, ack, InFlight, BytesBuilder, Queued, Session}
use marlin_binary_transfer.Session.Operations.{
  queue, dispatch, dispatch_from, dispatch_if_idle, send, handle_ok,
}
use marlin_binary_transfer.Session.Build.{IsSendable, packet, build-frame}

-- The specification: the frames of the packets, numbered from `n` on.
abbrev pub numbered_frames : ℕ → List BytesBuilder → List Bytes
numbered_frames n [] = []
numbered_frames n (b ∷ bs) = frame (packet b n) ∷ numbered_frames ((n + 1) % 256) bs

abbrev pub acks : ℕ → List BytesBuilder → List Event
acks n [] = []
acks n (b ∷ bs) = ack n ∷ acks ((n + 1) % 256) bs

abbrev pub number_after : ℕ → List BytesBuilder → ℕ
number_after n [] = n
number_after n (b ∷ bs) = number_after ((n + 1) % 256) bs

abbrev pub data_packet : BytesBuilder → Queued
data_packet b = record { bytes_without_sync = b; is_sync_handshake = false }

-- The caller sends the packets one after the other, at one time.
pub send_all : List BytesBuilder → ℕ → Session → Checked Session
send_all [] now s = done s
send_all (b ∷ bs) now s = send s b.protocol b.packet_type b.payload now >>= send_all bs now

-- The device acknowledges as often as there are packets, each time the current sync number.
pub ack_all : List BytesBuilder → ℕ → Session → Checked Session
ack_all [] now s = done s
ack_all (b ∷ bs) now s = handle_ok s s.sync now >>= ack_all bs now

-- A session with the packet `b` in flight and `bs` behind it in the queue.
abbrev busy : Session → BytesBuilder → List BytesBuilder → ℕ → Session
busy s b bs now = record s {
  in_flight = some (record {
    sync = s.sync;
    bytes = frame (packet b s.sync);
    first_sent = now;
    last_sent = now;
    is_sync_handshake = false;
  });
  queued = map data_packet bs;
  outbound = s.outbound ++ frame (packet b s.sync) ∷ [];
}

-- What remains of it when all is acknowledged.
abbrev pub idle_after : Session → List BytesBuilder → Session
idle_after s bs = record s {
  sync = number_after s.sync bs;
  in_flight = none;
  queued = [];
  outbound = s.outbound ++ numbered_frames s.sync bs;
  events = s.events ++ acks s.sync bs;
}

dispatch_lem :
    (s : Session) (b : BytesBuilder) (bs : List BytesBuilder) (now : ℕ)
    → IsSendable b
    → s.sync < 256
    → dispatch s (data_packet b) (map data_packet bs) now ≡ done (busy s b bs now)
unfolding dispatch
dispatch_lem s b bs now v h = rw (build-frame b s.sync v h)

-- The session between the ack of `b` and the dispatch of the next packet.
abbrev acked : Session → BytesBuilder → Session
acked s b = record s {
  sync = (s.sync + 1) % 256;
  outbound = s.outbound ++ frame (packet b s.sync) ∷ [];
  events = s.events ++ ack s.sync ∷ [];
}

-- The ack of the packet in flight sends the next packet of the queue.
ack_step :
    (s : Session) (b c : BytesBuilder) (bs : List BytesBuilder) (now : ℕ)
    → IsSendable c
    → handle_ok (busy s b (c ∷ bs) now) s.sync now ≡ done (busy (acked s b) c bs now)
unfolding handle_ok dispatch_if_idle
ack_step s b c bs now v = rw (eq→== s.sync s.sync refl) (dispatch_lem _ c bs now v (omega arith))

ack_last :
    (s : Session) (b : BytesBuilder) (now : ℕ)
    → handle_ok (busy s b [] now) s.sync now ≡ done (idle_after s (b ∷ []))
unfolding handle_ok dispatch_if_idle
ack_last s b now = rw (eq→== s.sync s.sync refl)

idle_after-cons :
    (s : Session) (b : BytesBuilder) (bs : List BytesBuilder)
    → idle_after (acked s b) bs ≡ idle_after s (b ∷ bs)
idle_after-cons s b bs = λ i. record s {
  sync = number_after ((s.sync + 1) % 256) bs;
  in_flight = none;
  queued = [];
  outbound =
      append_assoc s.outbound (frame (packet b s.sync) ∷ [])
        (numbered_frames ((s.sync + 1) % 256) bs) i;
  events = append_assoc s.events (ack s.sync ∷ []) (acks ((s.sync + 1) % 256) bs) i;
}

ack_all-busy :
    (s : Session) (b : BytesBuilder) (bs : List BytesBuilder) (now : ℕ)
    → All IsSendable bs
    → ack_all (b ∷ bs) now (busy s b bs now) ≡ done (idle_after s (b ∷ bs))
unfolding ack_all
ack_all-busy s b [] now v = rw (ack_last s b now)
ack_all-busy s b (c ∷ bs) now v =
    ap (λ (m : Checked Session). m >>= ack_all (c ∷ bs) now) (ack_step s b c bs now v.0)
    ∙ ack_all-busy (acked s b) c bs now v.1
    ∙ ap done (idle_after-cons s b (c ∷ bs))

map-concat :
    (bs : List BytesBuilder) (b : BytesBuilder)
    → map data_packet bs ++ data_packet b ∷ [] ≡ map data_packet (bs ++ b ∷ [])
map-concat [] b = refl
map-concat (x ∷ bs) b = ap (◌∷◌ (data_packet x)) (map-concat bs b)

-- A packet that is sent while another is in flight waits at the end of the queue.
send-busy :
    (s : Session) (b : BytesBuilder) (bs : List BytesBuilder) (c : BytesBuilder) (now : ℕ)
    → s.is_synced ≡ true
    → IsSendable c
    → send (busy s b bs now) c.protocol c.packet_type c.payload now
      ≡ done (busy s b (bs ++ c ∷ []) now)
unfolding send queue dispatch_if_idle
send-busy s b bs c now synced v =
    simp
      (
        synced,
        le→leb c.protocol 15 v.protocol_fits,
        le→leb c.packet_type 15 v.packet_type_fits,
        le→leb (length c.payload) max_payload v.payload_fits,
      )
      (rw (map-concat bs c))

dispatch_from_idle :
    (f : Option InFlight) (q : List Queued) (s : Session) (c : BytesBuilder) (now : ℕ)
    → f ≡ none
    → q ≡ data_packet c ∷ []
    → IsSendable c
    → s.sync < 256
    → dispatch_from f q s now ≡ done (busy s c [] now)
dispatch_from_idle f q s c now idle single v h =
    rw (idle, single) (unfold dispatch_from in dispatch_lem s c [] now v h)

-- The first packet of an idle session goes out at once.
send_idle :
    (s : Session) (c : BytesBuilder) (now : ℕ)
    → s.is_synced ≡ true
    → s.sync < 256
    → s.in_flight ≡ none
    → s.queued ≡ []
    → IsSendable c
    → send s c.protocol c.packet_type c.payload now ≡ done (busy s c [] now)
unfolding send queue
send_idle s c now synced h idle empty v =
    rw
      (
        le→leb c.protocol 15 v.protocol_fits,
        le→leb c.packet_type 15 v.packet_type_fits,
        le→leb (length c.payload) max_payload v.payload_fits,
      )
      (ap
          (λ (t : Bool). assert t >>= λ _.
            dispatch_if_idle (queue s c.protocol c.packet_type c.payload false) now)
          synced
        ∙ unfold dispatch_if_idle in
          dispatch_from_idle s.in_flight (s.queued ++ data_packet c ∷ [])
            (queue s c.protocol c.packet_type c.payload false) c now idle
            (ap (λ (q : List Queued). q ++ data_packet c ∷ []) empty) v h)

send_all-busy :
    (s : Session) (b : BytesBuilder) (bs cs : List BytesBuilder) (now : ℕ)
    → s.is_synced ≡ true
    → All IsSendable cs
    → send_all cs now (busy s b bs now) ≡ done (busy s b (bs ++ cs) now)
unfolding send_all
send_all-busy s b bs [] now synced v = rw append-nil
send_all-busy s b bs (c ∷ cs) now synced v =
    ap (λ (m : Checked Session). m >>= send_all cs now) (send-busy s b bs c now synced v.0)
    ∙ send_all-busy s b (bs ++ c ∷ []) cs now synced v.1
    ∙ rw append_assoc

-- Packets sent on an idle session and acknowledged one by one: each goes on the wire once, in the
-- order of the calls and under successive sync numbers mod 256 from the session's number on; each
-- is reported as acknowledged, in that order; and the session is idle again, under the next number,
-- with all else as it was.
pub send_all-ack_all :
    (s : Session) (bs : List BytesBuilder) (now : ℕ)
    → s.is_synced ≡ true
    → s.sync < 256
    → s.in_flight ≡ none
    → s.queued ≡ []
    → All IsSendable bs
    → (send_all bs now s >>= ack_all bs now) ≡ done (idle_after s bs)
send_all-ack_all s [] now synced h idle empty v =
    unfold send_all ack_all in
    λ i. done (record s {
      in_flight = idle i;
      queued = empty i;
      outbound = sym (append-nil s.outbound) i;
      events = sym (append-nil s.events) i;
    })
send_all-ack_all s (b ∷ bs) now synced h idle empty v =
    ap (λ (m : Checked Session). m >>= ack_all (b ∷ bs) now) sent ∙ ack_all-busy s b bs now v.1
  where
    sent : send_all (b ∷ bs) now s ≡ done (busy s b bs now)
    sent =
        unfold send_all in
        (ap (λ (m : Checked Session). m >>= send_all bs now)
            (send_idle s b now synced h idle empty v.0)
          ∙ send_all-busy s b [] bs now synced v.1)
