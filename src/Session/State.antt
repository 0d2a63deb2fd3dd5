-- ===== src/Session/State.antt =====
-- The types of src/session.rs, and the operations that only set or read fields.
-- An `Instant` and a `Duration` are numbers of nanoseconds.
use marlin_binary_transfer.Common.{
  ℕ, Bool, true, false, Option, none, some, List, [], ◌∷◌, ◌++◌, Bytes,
}
use marlin_binary_transfer.Text.{Str}

abbrev pub default_response_timeout : ℕ
default_response_timeout = 1_000_000_000

abbrev pub default_total_timeout : ℕ
default_total_timeout = 20_000_000_000

pub data Event : Type 0 where
  synced : (max_block_size : ℕ) (protocol_version : Str) → Event
  ack : ℕ → Event
  resend_requested : ℕ → Event
  ascii_line : Str → Event
  fatal_error : Event
  out_of_sync : (expected got : ℕ) → Event
  timeout : (sync : ℕ) → Event

pub record InFlight : Type 0 where
  pub sync : ℕ  -- u8
  pub bytes : Bytes
  pub first_sent : ℕ
  pub last_sent : ℕ
  pub is_sync_handshake : Bool

-- The packet without its sync number.
pub record BytesBuilder : Type 0 where
  pub protocol : ℕ  -- u8
  pub packet_type : ℕ  -- u8
  pub payload : Bytes

pub record Queued : Type 0 where
  pub bytes_without_sync : BytesBuilder
  pub is_sync_handshake : Bool

-- Each `VecDeque` is a list, its front first.
pub record Session : Type 0 where
  pub sync : ℕ  -- u8
  pub is_synced : Bool
  pub max_block_size : Option ℕ  -- u16
  pub protocol_version : Option Str
  pub in_flight : Option InFlight
  pub queued : List Queued
  pub outbound : List Bytes
  pub events : List Event
  pub inbound_buf : Bytes
  pub response_timeout : ℕ
  pub total_timeout : ℕ

-- `Session::new` and `Session::default`.
abbrev pub new : Session
new = record {
  sync = 0;
  is_synced = false;
  max_block_size = none;
  protocol_version = none;
  in_flight = none;
  queued = [];
  outbound = [];
  events = [];
  inbound_buf = [];
  response_timeout = default_response_timeout;
  total_timeout = default_total_timeout;
}

unfoldable pub with_response_timeout : Session → ℕ → Session
with_response_timeout s limit = record s { response_timeout = limit }

unfoldable pub with_total_timeout : Session → ℕ → Session
with_total_timeout s limit = record s { total_timeout = limit }

-- `has_pending`.
unfoldable pub has_pending : Session → Bool
has_pending s = elim s.in_flight [ none ↦ false | some _ ↦ true ]

unfoldable pub reset : Session → Session
reset s = record s {
  sync = 0;
  is_synced = false;
  max_block_size = none;
  protocol_version = none;
  in_flight = none;
  queued = [];
  outbound = [];
  events = [];
  inbound_buf = [];
}

-- `self.events.push_back(event)` and `self.outbound.push_back(bytes)`.
abbrev pub push_event : Session → Event → Session
push_event s event = record s { events = s.events ++ event ∷ [] }

abbrev pub push_outbound : Session → Bytes → Session
push_outbound s bytes = record s { outbound = s.outbound ++ bytes ∷ [] }

-- `pop_front` on the queue of outgoing chunks, and on the queue of events.
unfoldable pub pop_outbound : List Bytes → Session → Session × Option Bytes
pop_outbound [] s = (s, none)
pop_outbound (bytes ∷ rest) s = (record s { outbound = rest }, some bytes)

unfoldable pub poll_outbound : Session → Session × Option Bytes
unfolding pop_outbound
poll_outbound s = pop_outbound s.outbound s

unfoldable pub pop_event : List Event → Session → Session × Option Event
pop_event [] s = (s, none)
pop_event (event ∷ rest) s = (record s { events = rest }, some event)

unfoldable pub poll_event : Session → Session × Option Event
unfolding pop_event
poll_event s = pop_event s.events s
