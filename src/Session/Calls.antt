-- ===== src/Session/Calls.antt =====
-- The public methods of src/session.rs against the invariant of a session.
use marlin_binary_transfer.Common.{
  ℕ, zero, suc, ◌<◌, ◌≡◌, refl, arith, Bool, true, false, ◌&&◌, none, List, [], ◌∷◌, ◌++◌, Bytes,
  length, All, All-append, leb, panic, Ensures, Ensures-bind, Option-cases, Bool-cases, inl, inr,
  is_empty,
}
use marlin_binary_transfer.Codec.{max_payload}
use marlin_binary_transfer.Session.State.{
  Event, Queued, Session, new, reset, pop_outbound, poll_outbound, pop_event, poll_event,
}
use marlin_binary_transfer.Session.Lines.{strip_line_endings, drain_line}
use marlin_binary_transfer.Session.Operations.{
  queue, dispatch_if_idle, connect, send, take_line, feed_loop, feed,
}
use marlin_binary_transfer.Session.Build.{IsSendable}
use marlin_binary_transfer.Session.Valid.{IsFrame, IsReady, IsValid, dispatch_if_idle-IsValid}
use marlin_binary_transfer.Session.Keeps.{process_line-IsValid}
use marlin_binary_transfer.Session.Chunks.{with_buf, loop_ends, loop_step, drain_line-shorter}

pub new-IsValid : IsValid new
new-IsValid = record {
  ready = record {
    sync_fits = omega arith;
    flight_valid = tt;
    queued_sendable = tt;
    outbound_frames = tt;
    advertised = tt;
  };
  no_stall = refl;
}

-- The invariant says nothing of the unread bytes, the events and the timeouts.
pub retold :
    (s : Session) (buf : Bytes) (events : List Event) (response_timeout total_timeout : ℕ)
    → IsValid s
    → IsValid (record s {
      inbound_buf = buf;
      events = events;
      response_timeout = response_timeout;
      total_timeout = total_timeout;
    })
retold s buf events response_timeout total_timeout v = record {
  ready = record {
    sync_fits = v.ready.sync_fits;
    flight_valid = v.ready.flight_valid;
    queued_sendable = v.ready.queued_sendable;
    outbound_frames = v.ready.outbound_frames;
    advertised = v.ready.advertised;
  };
  no_stall = v.no_stall;
}

pub take_line-IsValid :
    (s : Session) (line : Bytes) (now : ℕ) → IsValid s → Ensures IsValid (take_line s line now)
unfolding take_line
take_line-IsValid s line now v = elim (Bool-cases (is_empty (strip_line_endings line))) [
  | inl e ↦ rw e v
  | inr e ↦ rw e (process_line-IsValid s _ now v)
]

-- Between two calls the buffer holds no complete line.
abbrev pub Settled : Session → Type 0
Settled s = IsValid s × (drain_line s.inbound_buf ≡ none)

pub feed_loop-Settled :
    (fuel : ℕ) (buf : Bytes) (s : Session) (now : ℕ)
    → length buf < fuel
    → IsValid s
    → Ensures Settled (feed_loop fuel (with_buf buf s) now)
feed_loop-Settled zero buf s now h v = absurd (omega arith)
feed_loop-Settled (suc fuel) buf s now h v = elim (Option-cases (drain_line buf)) [
  | inl e ↦
      rw (loop_ends fuel buf s now e)
        (retold s buf s.events s.response_timeout s.total_timeout v, e)
  | inr ((line, rest), e) ↦
      let shorter : length rest < length buf = drain_line-shorter buf e in
      rw (loop_step fuel buf s now e) (
        Ensures-bind IsValid Settled (take_line s line now) _ (take_line-IsValid s line now v)
          (λ t w. feed_loop-Settled fuel rest t now (omega arith) w))
]

pub feed-Settled :
    (s : Session) (bytes : Bytes) (now : ℕ) → IsValid s → Ensures Settled (feed s bytes now)
unfolding feed
feed-Settled s bytes now v = feed_loop-Settled _ (s.inbound_buf ++ bytes) s now (omega arith) v

pub queue-IsReady :
    (s : Session) (protocol packet_type : ℕ) (payload : Bytes) (handshake : Bool)
    → IsReady s
    → IsSendable (record { protocol = protocol; packet_type = packet_type; payload = payload })
    → IsReady (queue s protocol packet_type payload handshake)
unfolding queue
queue-IsReady s protocol packet_type payload handshake r v = record {
  sync_fits = r.sync_fits;
  flight_valid = r.flight_valid;
  queued_sendable =
      All-append (λ (q : Queued). IsSendable q.bytes_without_sync) s.queued _ r.queued_sendable
        (v, tt);
  outbound_frames = r.outbound_frames;
  advertised = r.advertised;
}

pub connect-IsValid : (s : Session) (now : ℕ) → IsValid s → Ensures IsValid (connect s now)
unfolding connect
connect-IsValid s now v =
    dispatch_if_idle-IsValid _ now (queue-IsReady s 0 1 [] true v.ready (omega arith))

-- The assertions of `send`.
abbrev pub accepts : Session → ℕ → ℕ → Bytes → Bool
accepts s protocol packet_type payload =
    s.is_synced && (leb protocol 15 && (leb packet_type 15 && leb (length payload) max_payload))

pub send_lem :
    (s : Session) (protocol packet_type : ℕ) (payload : Bytes) (now : ℕ)
    → accepts s protocol packet_type payload ≡ true
    → send s protocol packet_type payload now
      ≡ dispatch_if_idle (queue s protocol packet_type payload false) now
unfolding send
send_lem s protocol packet_type payload now e = ground arith

pub accepts-IsSendable :
    (s : Session) (protocol packet_type : ℕ) (payload : Bytes)
    → accepts s protocol packet_type payload ≡ true
    → IsSendable (record { protocol = protocol; packet_type = packet_type; payload = payload })
accepts-IsSendable s protocol packet_type payload e = ground arith

pub send-IsValid :
    (s : Session) (protocol packet_type : ℕ) (payload : Bytes) (now : ℕ)
    → IsValid s
    → accepts s protocol packet_type payload ≡ true
    → Ensures IsValid (send s protocol packet_type payload now)
send-IsValid s protocol packet_type payload now v e =
    rw (send_lem s protocol packet_type payload now e) (
      dispatch_if_idle-IsValid _ now (
        queue-IsReady s protocol packet_type payload false v.ready
          (accepts-IsSendable s protocol packet_type payload e)))

pub send_panics :
    (s : Session) (protocol packet_type : ℕ) (payload : Bytes) (now : ℕ)
    → accepts s protocol packet_type payload ≡ false
    → send s protocol packet_type payload now ≡ panic
unfolding send
send_panics s protocol packet_type payload now e = ground arith

pub reset-IsValid : (s : Session) → IsValid (reset s)
unfolding reset
reset-IsValid s = retold new [] [] s.response_timeout s.total_timeout new-IsValid

pub poll_outbound-IsValid : (s : Session) → IsValid s → IsValid (poll_outbound s).0
unfolding poll_outbound
poll_outbound-IsValid s v = from s.outbound v.ready.outbound_frames
  where
    from : (chunks : List Bytes) → All IsFrame chunks → IsValid (pop_outbound chunks s).0
    from [] h = v
    from (x ∷ rest) h = record {
      ready = record {
        sync_fits = v.ready.sync_fits;
        flight_valid = v.ready.flight_valid;
        queued_sendable = v.ready.queued_sendable;
        outbound_frames = h.1;
        advertised = v.ready.advertised;
      };
      no_stall = v.no_stall;
    }

pub poll_event-IsValid : (s : Session) → IsValid s → IsValid (poll_event s).0
unfolding poll_event
poll_event-IsValid s v = from s.events
  where
    from : (events : List Event) → IsValid (pop_event events s).0
    from [] = v
    from (x ∷ rest) = retold s s.inbound_buf rest s.response_timeout s.total_timeout v
