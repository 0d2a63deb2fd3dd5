-- ===== src/Session/Keeps.antt =====
-- The handlers of src/session.rs and `tick` against the invariant of a session.
use marlin_binary_transfer.Common.{
  ℕ, ◌+◌, ◌-◌, ◌%◌, ◌<◌, ◌≡◌, refl, arith, Option, none, some, List, [], ◌∷◌, ◌++◌, Bytes,
  All-append, leb, ◌==◌, Ensures, Bool-cases, inl, inr,
}
use marlin_binary_transfer.Text.{Str, from_utf8}
use marlin_binary_transfer.Session.State.{InFlight, Session}
use marlin_binary_transfer.Session.Operations.{
  handle_ok_from, tick_from, handle_ok, handle_ss, ss_fields, ss_text, ss_parts, ss_numbers,
  handle_ss_fields, Line, ok_line, rs_line, ss_line, fe_line, text_line, garbage, classify, act,
  consume_handshake, process_line, tick,
}
use marlin_binary_transfer.Session.Valid.{
  IsFrame, IsFrameOf, FlightIsValid, IsReady, IsValid, dispatch_if_idle-IsValid, push_event-IsReady,
  push_event-IsValid,
}

pub handle_ok-IsValid : (s : Session) (n now : ℕ) → IsValid s → Ensures IsValid (handle_ok s n now)
unfolding handle_ok
handle_ok-IsValid s n now v = from s.in_flight
  where
    acked : Session
    acked = record s { in_flight = none; sync = (s.sync + 1) % 256 }

    acked-IsReady : IsReady acked
    acked-IsReady = record {
      sync_fits = omega arith;
      flight_valid = tt;
      queued_sendable = v.ready.queued_sendable;
      outbound_frames = v.ready.outbound_frames;
      advertised = v.ready.advertised;
    }

    from : (f : Option InFlight) → Ensures IsValid (handle_ok_from f s n now)
    from none = push_event-IsValid s _ v
    from (some f) = elim (Bool-cases f.is_sync_handshake) [
      | inl e ↦ rw e (push_event-IsValid s _ v)
      | inr e ↦ elim (Bool-cases (n == f.sync)) [
        | inl g ↦
            rw (e, g) (dispatch_if_idle-IsValid _ now (push_event-IsReady acked _ acked-IsReady))
        | inr g ↦ rw (e, g) (push_event-IsValid s _ v)
      ]
    ]

consume_handshake-valid :
    (f : Option InFlight) → FlightIsValid f → FlightIsValid (consume_handshake f)
consume_handshake-valid none v = tt
consume_handshake-valid (some f) v = elim (Bool-cases f.is_sync_handshake) [
  | inl e ↦ rw e tt
  | inr e ↦ rw e v
]

ss_numbers-sync :
    (version : Str) (a b : Option ℕ) {n m : ℕ} {v : Str}
    → ss_numbers version a b ≡ some (n, m, v)
    → n < 256
ss_numbers-sync version (some a) (some b) e = ground arith
ss_numbers-sync version none b e = cc
ss_numbers-sync version (some a) none e = cc

ss_parts-sync : (parts : List Str) {n m : ℕ} {v : Str} → ss_parts parts ≡ some (n, m, v) → n < 256
unfolding ss_parts
ss_parts-sync (a ∷ (b ∷ (c ∷ []))) e = ss_numbers-sync c _ _ e
ss_parts-sync _ e = cc

ss_text-sync :
    (text : Option Str) {n m : ℕ} {version : Str} → ss_text text ≡ some (n, m, version) → n < 256
unfolding ss_text
ss_text-sync none e = cc
ss_text-sync (some s) e = ss_parts-sync _ e

-- A handshake reply gives a sync number that fits a byte.
pub ss_fields-sync :
    (rest : Bytes) {n m : ℕ} {version : Str} → ss_fields rest ≡ some (n, m, version) → n < 256
unfolding ss_fields
ss_fields-sync rest e = ss_text-sync (from_utf8 rest) e

pub handle_ss-IsValid :
    (s : Session) (rest : Bytes) (now : ℕ) → IsValid s → Ensures IsValid (handle_ss s rest now)
unfolding handle_ss
handle_ss-IsValid s rest now v = from (ss_fields rest) refl
  where
    from :
        (fields : Option (ℕ × ℕ × Str))
        → ss_fields rest ≡ fields
        → Ensures IsValid (handle_ss_fields fields s now)
    from none e = v
    from (some (n, m, version)) e = dispatch_if_idle-IsValid _ now (record {
      sync_fits = ss_fields-sync rest e;
      flight_valid = consume_handshake-valid s.in_flight v.ready.flight_valid;
      queued_sendable = v.ready.queued_sendable;
      outbound_frames = v.ready.outbound_frames;
      advertised = (tt, tt);
    })

act-IsValid : (line : Line) (s : Session) (now : ℕ) → IsValid s → Ensures IsValid (act line s now)
unfolding act
act-IsValid (ok_line n) s now v = handle_ok-IsValid s n now v
act-IsValid (rs_line n) s now v = push_event-IsValid s _ v
act-IsValid (ss_line rest) s now v = handle_ss-IsValid s rest now v
act-IsValid fe_line s now v = push_event-IsValid s _ v
act-IsValid (text_line text) s now v = push_event-IsValid s _ v
act-IsValid garbage s now v = v

pub process_line-IsValid :
    (s : Session) (line : Bytes) (now : ℕ) → IsValid s → Ensures IsValid (process_line s line now)
unfolding process_line
process_line-IsValid s line now v = act-IsValid (classify line) s now v

pub tick-IsValid : (s : Session) (now : ℕ) → IsValid s → Ensures IsValid (tick s now)
unfolding tick
tick-IsValid s now v = from s.in_flight v.ready.flight_valid
  where
    dropped-IsReady : IsReady (record s { in_flight = none })
    dropped-IsReady = record {
      sync_fits = v.ready.sync_fits;
      flight_valid = tt;
      queued_sendable = v.ready.queued_sendable;
      outbound_frames = v.ready.outbound_frames;
      advertised = v.ready.advertised;
    }

    retransmitted :
        (f : InFlight)
        → IsFrameOf f.sync f.bytes
        → IsValid (record s {
          outbound = s.outbound ++ f.bytes ∷ [];
          in_flight = some (record f { last_sent = now });
        })
    retransmitted f w = record {
      ready = record {
        sync_fits = v.ready.sync_fits;
        flight_valid = w;
        queued_sendable = v.ready.queued_sendable;
        outbound_frames = All-append IsFrame s.outbound _ v.ready.outbound_frames ((f.sync, w), tt);
        advertised = v.ready.advertised;
      };
      no_stall = tt;
    }

    from : (f : Option InFlight) → FlightIsValid f → Ensures IsValid (tick_from f s now)
    from none w = v
    from (some f) w = elim (Bool-cases (leb s.total_timeout (now - f.first_sent))) [
      | inl e ↦ rw e (dispatch_if_idle-IsValid _ now (push_event-IsReady _ _ dropped-IsReady))
      | inr e ↦ elim (Bool-cases (leb s.response_timeout (now - f.last_sent))) [
        | inl g ↦ rw (e, g) (retransmitted f w)
        | inr g ↦ rw (e, g) v
      ]
    ]
