-- ===== src/Adapters/Machines.antt =====
-- The session of src/session.rs and the transfer of src/file_transfer.rs as what the adapters drive.
use marlin_binary_transfer.Common.{length}
use marlin_binary_transfer.Session.State as SessionState
use marlin_binary_transfer.Session.State.{Session, Event}
use marlin_binary_transfer.Session.Operations as SessionOps
use marlin_binary_transfer.Transfer.State.{FileTransfer, FileEvent}
use marlin_binary_transfer.Transfer.Operations as TransferOps
use marlin_binary_transfer.Adapters.Driver.{Machine}

abbrev pub session_machine : Machine Session Event
session_machine = record {
  response_timeout = λ s. s.response_timeout;
  poll_outbound = SessionState.poll_outbound;
  feed = SessionOps.feed;
  poll = SessionState.poll_event;
  tick = SessionOps.tick;
  outbound_left = λ s. length s.outbound;
  events_left = λ s. length s.events;
}

-- The first `poll` drains the session, so that its file events are left.
abbrev pub file_machine : Machine FileTransfer FileEvent
file_machine = record {
  response_timeout = λ ft. ft.session.response_timeout;
  poll_outbound = TransferOps.poll_outbound;
  feed = TransferOps.feed;
  poll = TransferOps.poll;
  tick = TransferOps.tick;
  outbound_left = λ ft. length ft.session.outbound;
  events_left = λ ft. length (TransferOps.drain_events ft.session.events ft).out_events;
}
