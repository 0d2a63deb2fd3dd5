-- ===== src/Transfer/Reach.antt =====
-- Transfers that a program can reach through the public methods of src/file_transfer.rs.
use marlin_binary_transfer.Common.{
  ℕ, ◌≡◌, refl, Option, List, [], ◌∷◌, Bool, true, false, Bytes, Checked, done, panic, stuck,
  assert, ◌>>=◌, ◌>>◌,
}
use marlin_binary_transfer.Text.{Str}
use marlin_binary_transfer.Session.State.{Session}
use marlin_binary_transfer.Transfer.State.{
  Compression, FileEvent, State, FileTransfer, new, pt_query, pt_open, pt_close, pt_write, pt_abort,
}
use marlin_binary_transfer.Transfer.Operations.{
  drain_events, is_opened, send, query, open_file, write, close, abort, poll_outbound, feed, tick,
  pop_event, poll,
}
use marlin_binary_transfer.Transfer.Invariant.{IsChosen, Negotiated, IsConsistent, new-IsConsistent}
use marlin_binary_transfer.Transfer.Keeps.{drain_events-IsConsistent, with_session-IsConsistent}
use marlin_binary_transfer.Transfer.Sessions.{drain_events-session}
use marlin_binary_transfer.Session.Reach as SessionReach
use marlin_binary_transfer.Transfer.Gates.{
  is_idle→, is_negotiated→, is_opened→, idle_fits, negotiated_fits, opened_fits,
}

-- One call of a public method that returns.
pub data Step : FileTransfer → FileTransfer → Type 0 where
  queries :
      {ft next : FileTransfer} (compression : Compression) (now : ℕ)
      → query ft compression now ≡ done next
      → Step ft next
  opens :
      {ft next : FileTransfer} (name : Str) (dummy : Bool) (now : ℕ)
      → open_file ft name dummy now ≡ done next
      → Step ft next
  writes :
      {ft next : FileTransfer} (chunk : Bytes) (now : ℕ)
      → write ft chunk now ≡ done next
      → Step ft next
  closes : {ft next : FileTransfer} (now : ℕ) → close ft now ≡ done next → Step ft next
  aborts : {ft next : FileTransfer} (now : ℕ) → abort ft now ≡ done next → Step ft next
  polls_outbound : {ft : FileTransfer} → Step ft (poll_outbound ft).0
  feeds :
      {ft next : FileTransfer} (bytes : Bytes) (now : ℕ)
      → feed ft bytes now ≡ done next
      → Step ft next
  ticks : {ft next : FileTransfer} (now : ℕ) → tick ft now ≡ done next → Step ft next
  polls : {ft : FileTransfer} → Step ft (poll ft).0

-- A transfer that a program can have: any number of calls on a new one, whose session may be one
-- that has been used before.
pub data IsReachable : FileTransfer → Type 0 where
  start : {session : Session} → SessionReach.IsReachable session → IsReachable (new session)
  next : {ft after : FileTransfer} → IsReachable ft → Step ft after → IsReachable after

pub done_injective : (a b : FileTransfer) → done a ≡ done b → a ≡ b
done_injective a b e = cc

pub assert-done :
    {A : Type 0} (test : Bool) (m : Checked A) (a : A)
    → (assert test >> m) ≡ done a
    → (test ≡ true) × (m ≡ done a)
assert-done true m a e = (refl, e)
assert-done false m a e = cc

-- What a reachable transfer has.
abbrev Kept : FileTransfer → Type 0
Kept ft = IsConsistent ft × SessionReach.IsReachable ft.session

resumed : (ft after : FileTransfer) → done ft ≡ done after → Kept ft → Kept after
resumed ft after e k = rw (done_injective ft after e) at k

-- A call of the session, whose result goes back into the transfer.
called :
    (ft after : FileTransfer) (m : Checked Session)
    → IsConsistent ft
    → ((session : Session) → m ≡ done session → SessionReach.IsReachable session)
    → (m >>= λ session. done (record ft { session = session })) ≡ done after
    → Kept after
called ft after (done session) v reach e =
    resumed _ after e (with_session-IsConsistent session ft v, reach session refl)
called ft after panic v reach e = cc
called ft after stuck v reach e = cc

sent :
    (ft after : FileTransfer) (packet_type : ℕ) (payload : Bytes) (now : ℕ)
    → Kept ft
    → send ft packet_type payload now ≡ done after
    → Kept after
unfolding send
sent ft after packet_type payload now (v, r) e =
    called ft after _ v
      (λ session f.
        SessionReach.next r (SessionReach.sends ft.protocol_id packet_type payload now f))
      e

query-Kept :
    (ft after : FileTransfer) (compression : Compression) (now : ℕ)
    → Kept ft
    → query ft compression now ≡ done after
    → Kept after
unfolding query
query-Kept ft after compression now (v, r) e =
    let (test, d) = assert-done _ _ after e in
    sent _ after pt_query [] now (asked (is_idle→ ft.state test), r) d
  where
    asked :
        ft.state ≡ State.idle
        → IsConsistent
            (record ft { requested_compression = compression; state = State.awaiting_query_reply })
    asked f = record {
      pending_fits = idle_fits ft.pending_ascii (rw f at v.pending_fits);
      negotiated = tt;
      events_fit = v.events_fit;
    }

open_file-Kept :
    (ft after : FileTransfer) (name : Str) (dummy : Bool) (now : ℕ)
    → Kept ft
    → open_file ft name dummy now ≡ done after
    → Kept after
unfolding open_file
open_file-Kept ft after name dummy now (v, r) e =
    let (test, d) = assert-done _ _ after e in
    sent _ after pt_open _ now (asked (is_negotiated→ ft.state test), r) d
  where
    asked :
        ft.state ≡ State.negotiated → IsConsistent (record ft { state = State.awaiting_open_reply })
    asked f = record {
      pending_fits = negotiated_fits ft.pending_ascii (rw f at v.pending_fits);
      negotiated = rw f at v.negotiated;
      events_fit = v.events_fit;
    }

-- `write`, `close` and `abort`.
opened-Kept :
    (ft after : FileTransfer) (state : State) (packet_type : ℕ) (payload : Bytes) (now : ℕ)
    → ((c : Option Compression) → IsChosen c → Negotiated state c)
    → Kept ft
    → (assert (is_opened ft.state) >> send (record ft { state = state }) packet_type payload now)
      ≡ done after
    → Kept after
opened-Kept ft after state packet_type payload now keep (v, r) e =
    let (test, d) = assert-done _ _ after e in
    sent _ after packet_type payload now (asked (is_opened→ ft.state test), r) d
  where
    asked : ft.state ≡ State.opened → IsConsistent (record ft { state = state })
    asked f = record {
      pending_fits = opened_fits ft.pending_ascii state (rw f at v.pending_fits);
      negotiated = keep ft.negotiated_compression (rw f at v.negotiated);
      events_fit = v.events_fit;
    }

pop_event-Kept :
    (events : List FileEvent) (ft : FileTransfer)
    → ft.out_events ≡ events
    → Kept ft
    → Kept (pop_event events ft).0
unfolding pop_event
pop_event-Kept [] ft e k = k
pop_event-Kept (event ∷ rest) ft e (v, r) = (
  record {
    pending_fits = v.pending_fits;
    negotiated = v.negotiated;
    events_fit = (rw e at v.events_fit).1;
  },
  r,
)

Step-Kept : {ft after : FileTransfer} → Step ft after → Kept ft → Kept after
unfolding write close abort feed tick poll poll_outbound
Step-Kept (queries {ft} {next = after} compression now e) k =
    query-Kept ft after compression now k e
Step-Kept (opens {ft} {next = after} name dummy now e) k =
    open_file-Kept ft after name dummy now k e
Step-Kept (writes {ft} {next = after} chunk now e) k =
    opened-Kept ft after State.awaiting_write_ack pt_write chunk now (λ c h. h) k e
Step-Kept (closes {ft} {next = after} now e) k =
    opened-Kept ft after State.awaiting_close_reply pt_close [] now (λ c h. h) k e
Step-Kept (aborts {ft} {next = after} now e) k =
    opened-Kept ft after State.awaiting_abort_reply pt_abort [] now (λ c h. h) k e
Step-Kept (polls_outbound {ft}) (v, r) =
    (with_session-IsConsistent _ ft v, SessionReach.next r SessionReach.polls_outbound)
Step-Kept (feeds {ft} {next = after} bytes now e) (v, r) =
    called ft after _ v (λ session f. SessionReach.next r (SessionReach.feeds bytes now f)) e
Step-Kept (ticks {ft} {next = after} now e) (v, r) =
    called ft after _ v (λ session f. SessionReach.next r (SessionReach.ticks now f)) e
Step-Kept (polls {ft}) (v, r) =
    pop_event-Kept _ (drain_events ft.session.events ft) refl
      (drain_events-IsConsistent _ ft v, drain_events-session _ ft refl r)

IsReachable-Kept : {ft : FileTransfer} → IsReachable ft → Kept ft
IsReachable-Kept (start r) = (new-IsConsistent _, r)
IsReachable-Kept (next r st) = Step-Kept st (IsReachable-Kept r)

-- The session inside is one that its own public methods reach.
pub IsReachable-session : {ft : FileTransfer} → IsReachable ft → SessionReach.IsReachable ft.session
IsReachable-session r = (IsReachable-Kept r).1
