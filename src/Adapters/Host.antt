-- ===== src/Adapters/Host.antt =====
-- What the driving loop of src/adapters needs of a machine that works on a session.
use marlin_binary_transfer.Common.{ℕ, ◌≡◌, refl, none, [], Bytes, length, done}
use marlin_binary_transfer.Session.State.{
  Session, Event, resend_requested, timeout, poll_event, pop_event,
}
use marlin_binary_transfer.Session.State as SessionState
use marlin_binary_transfer.Session.Operations as SessionOps
use marlin_binary_transfer.Transfer.State.{FileTransfer}
use marlin_binary_transfer.Transfer.Operations as TransferOps
use marlin_binary_transfer.Adapters.Driver.{Machine}
use marlin_binary_transfer.Adapters.Machines.{session_machine, file_machine}

-- The machine with its session replaced. All but `poll` is the session's.
pub record IsHost {X V : Type 0} (machine : Machine X V) (put : Session → X) : Type 0 where
  pub to_send :
      (s : Session)
      → machine.poll_outbound (put s)
        ≡ (put (SessionState.poll_outbound s).0, (SessionState.poll_outbound s).1)
  pub counted : (s : Session) → machine.outbound_left (put s) ≡ length s.outbound
  pub feeds :
      (s s' : Session) (bytes : Bytes) (now : ℕ)
      → SessionOps.feed s bytes now ≡ done s'
      → machine.feed (put s) bytes now ≡ done (put s')
  pub ticks :
      (s s' : Session) (now : ℕ)
      → SessionOps.tick s now ≡ done s'
      → machine.tick (put s) now ≡ done (put s')
  pub silent :
      (s : Session)
      → machine.poll (put (record s { events = [] })) ≡ (put (record s { events = [] }), none)

abbrev pub put_session : Session → Session
put_session s = s

pub session-IsHost : IsHost session_machine put_session
unfolding SessionState.poll_event SessionState.pop_event
session-IsHost = record {
  to_send = λ s. refl;
  counted = λ s. refl;
  feeds = λ s s' bytes now e. e;
  ticks = λ s s' now e. e;
  silent = λ s. refl;
}

-- A transfer without waiting events.
abbrev pub put_file : FileTransfer → Session → FileTransfer
put_file ft s = record ft { session = s; out_events = [] }

pub file-IsHost : (ft : FileTransfer) → IsHost file_machine (put_file ft)
unfolding TransferOps.poll_outbound TransferOps.feed TransferOps.tick TransferOps.poll
    TransferOps.drain_events TransferOps.pop_event
file-IsHost ft = record {
  to_send = λ s. refl;
  counted = λ s. refl;
  feeds = λ s s' bytes now e. rw e;
  ticks = λ s s' now e. rw e;
  silent = λ s. refl;
}
